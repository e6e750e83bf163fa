-- ===== src/Placement/Tests.antt =====
-- Runs of the functions of placement_memory.c on small tables.
use grub_os_iso_image.Common.{
  ℕ, ◌+◌, ◌^◌, ◌<◌, ◌≡◌, refl, ◌≢◌, ◌↔◌, inr, true, false, not, ◌&&◌, ◌||◌, List, [], ◌∷◌, arith,
  ok, fault, out_of_fuel, pos, minus,
}
use grub_os_iso_image.Placement.Area.{Area, area, inside, IsProper, overlapp}
use grub_os_iso_image.Placement.Area.Overlap.{overlapp_misses}
use grub_os_iso_image.Placement.Table.{table, table_of, IsOrdered, covers}
use grub_os_iso_image.Placement.Table.Taken.{IsTaken}
use grub_os_iso_image.Placement.Allocate.{allocate}
use grub_os_iso_image.Placement.Allocate.Correct.{allocate_succeeds, allocate_full_faults}
use grub_os_iso_image.Placement.AllocateArea.{allocate_area}
use grub_os_iso_image.Placement.AllocateArea.Correct.{allocate_area_succeeds, allocate_area_rejects}
use grub_os_iso_image.Placement.Cover.{allocate_area_cover}
use grub_os_iso_image.Placement.Cover.Correct.{allocate_area_cover_lem}
use grub_os_iso_image.Placement.Cover.Halt.{allocate_area_cover-halts}
use grub_os_iso_image.Placement.Insert.{insert_area}
use grub_os_iso_image.Placement.Insert.Correct.Added.{insert_area_adds}
use grub_os_iso_image.Placement.Insert.Correct.Lost.{insert_area_loses}
use grub_os_iso_image.Placement.Insert.Correct.Refused.{insert_area_fails, FailsOnlyFor}

abbrev low_area : Area
low_area = area 4096 4096

abbrev high_area : Area
high_area = area 16384 8192

abbrev two_areas : List Area
two_areas = low_area ∷ high_area ∷ []

abbrev ten_areas : List Area
ten_areas =
    area 10 5
    ∷ area 20 5
    ∷ area 30 5
    ∷ area 40 5
    ∷ area 50 5
    ∷ area 60 5
    ∷ area 70 5
    ∷ area 80 5
    ∷ area 90 5
    ∷ area 100 5
    ∷ []

proper : (s n : ℕ) → 0 < n → s + n < 2 ^ 64 → IsProper (area s n)
proper s n p b = record { positive = p; below = b }

low_area-IsProper : IsProper low_area
low_area-IsProper = proper 4096 4096 (omega arith) (omega arith)

high_area-IsProper : IsProper high_area
high_area-IsProper = proper 16384 8192 (omega arith) (omega arith)

two_areas-IsOrdered : IsOrdered 0 two_areas
two_areas-IsOrdered = (omega arith, low_area-IsProper, (omega arith, high_area-IsProper, tt))

small : (s : ℕ) → s < 1000 → IsProper (area s 5)
small s h = proper s 5 (omega arith) (omega arith)

ten_areas-IsOrdered : IsOrdered 0 ten_areas
ten_areas-IsOrdered = (
  omega arith,
  small 10 (omega arith),
  (
    omega arith,
    small 20 (omega arith),
    (
      omega arith,
      small 30 (omega arith),
      (
        omega arith,
        small 40 (omega arith),
        (
          omega arith,
          small 50 (omega arith),
          (
            omega arith,
            small 60 (omega arith),
            (
              omega arith,
              small 70 (omega arith),
              (
                omega arith,
                small 80 (omega arith),
                (omega arith, small 90 (omega arith), (omega arith, small 100 (omega arith), tt)),
              ),
            ),
          ),
        ),
      ),
    ),
  ),
)

overlapp_misses_example :
    (overlapp low_area (area 0 10000) ≡ false) ↔ ((0 < 4096) × (4096 + 4096 < 0 + 10000))
overlapp_misses_example =
    overlapp_misses low_area (area 0 10000) 5000 low_area-IsProper
      (proper 0 10000 (omega arith) (omega arith)) refl refl

allocate_succeeds_example :
    (after : List Area) × (allocate 8000 (table_of two_areas) ≡ ok (16384, table_of after))
    × IsTaken two_areas 16384 8000 after
allocate_succeeds_example =
    allocate_succeeds 8000 two_areas (omega arith) two_areas-IsOrdered (omega arith) refl

allocate_full_faults_example : allocate 5 (table_of ten_areas) ≡ fault
allocate_full_faults_example = allocate_full_faults 5 ten_areas (omega arith) refl refl

allocate_area_succeeds_example :
    (after : List Area) × (allocate_area 20000 100 (table_of two_areas)
      ≡ ok (pos 0, table_of after))
    × IsTaken two_areas 20000 100 after
allocate_area_succeeds_example =
    allocate_area_succeeds 20000 100 two_areas (omega arith) (omega arith) two_areas-IsOrdered
      (omega arith) refl

allocate_area_rejects_example :
    allocate_area 30000 100 (table_of two_areas) ≡ ok (minus 3, table_of two_areas)
allocate_area_rejects_example =
    allocate_area_rejects 30000 100 two_areas (omega arith) two_areas-IsOrdered (omega arith)
      (inr refl)

allocate_area_cover_lem_example :
    (after : List Area) × (allocate_area_cover 5000 12000 (table_of two_areas)
      ≡ ok (pos 0, table_of after))
    × IsOrdered 0 after
    × ((x : ℕ) → covers after x ≡ (covers two_areas x && not (inside 5000 12000 x)))
allocate_area_cover_lem_example =
    allocate_area_cover_lem 5000 12000 two_areas (omega arith) (omega arith) two_areas-IsOrdered
      (omega arith)

allocate_area_cover-halts_example : allocate_area_cover 0 50 (table ten_areas 10) ≢ out_of_fuel
allocate_area_cover-halts_example =
    allocate_area_cover-halts 0 50 (table ten_areas 10) (omega arith)

insert_area_adds_example :
    (after : List Area) × (insert_area 8192 8192 (table_of two_areas) ≡ ok (pos 0, table_of after))
    × IsOrdered 0 after
    × ((x : ℕ) → covers after x ≡ (covers two_areas x || inside 8192 8192 x))
insert_area_adds_example =
    insert_area_adds 8192 8192 two_areas (omega arith) (omega arith) two_areas-IsOrdered
      (omega arith) refl refl

insert_area_loses_example :
    (lost : Area) × (after : List Area) × (insert_area 10000 100 (table_of two_areas)
      ≡ ok (pos 0, table_of after))
    × (0 < lost.size)
    × ((x : ℕ)
        → inside lost.start lost.size x ≡ true
        → (covers two_areas x ≡ true) × (covers after x ≡ false))
insert_area_loses_example =
    insert_area_loses 10000 100 two_areas (omega arith) (omega arith) two_areas-IsOrdered
      (omega arith) refl refl

insert_area_fails_example : FailsOnlyFor 4100 8 two_areas (insert_area 4100 8 (table_of two_areas))
insert_area_fails_example =
    insert_area_fails 4100 8 two_areas (omega arith) two_areas-IsOrdered (omega arith)
