-- ===== src/Placement/Cover/Correct.antt =====
-- What a call of `allocate_area_cover` gives.
use grub_os_iso_image.Common.{ℕ, ◌+◌, ◌^◌, ◌≤◌, ◌<◌, ◌≡◌, not, ◌&&◌, List, length, ok, pos}
use grub_os_iso_image.Placement.Area.{Area, inside}
use grub_os_iso_image.Placement.Table.{table_of, IsOrdered, covers}
use grub_os_iso_image.Placement.Cover.{allocate_area_cover}
use grub_os_iso_image.Placement.Cover.Cut.{cut, cut-IsOrdered, covers-cut}
use grub_os_iso_image.Placement.Cover.Refine.{allocate_area_cover_refines}

-- On a table of fewer than ten areas in order, `allocate_area_cover` for a range of at least one
-- byte that ends at or below 2 ^ 64 returns 0. The areas after it are in order, and an address is
-- free after it exactly if it was free before and lies outside the range.
pub allocate_area_cover_lem :
    (start size : ℕ) (live : List Area)
    → 0 < size
    → start + size ≤ 2 ^ 64
    → IsOrdered 0 live
    → length live < 10
    → (after : List Area) × (allocate_area_cover start size (table_of live)
        ≡ ok (pos 0, table_of after))
      × IsOrdered 0 after
      × ((x : ℕ) → covers after x ≡ (covers live x && not (inside start size x)))
allocate_area_cover_lem start size live p b o h = (
  cut start size live,
  allocate_area_cover_refines start size live p b o h,
  cut-IsOrdered start size 0 live p o,
  covers-cut start size live,
)
