-- ===== src/Placement/Allocate.antt =====
-- `allocate`: the first free area that is large enough is reduced from its start.
pub mod Refine
pub mod FirstFit
pub mod Correct
use grub_os_iso_image.Common.{
  ℕ, zero, suc, ◌-◌, ◌==◌, ltb, if◌then◌else◌, Run, ok, ◌>>=◌, read, write, add64, sub64,
}
use grub_os_iso_image.Placement.Area.{Area, area}
use grub_os_iso_image.Placement.Table.{Table, table, shift_left}

-- The body of the loop for a free area that is larger than the request.
unfoldable pub take_start : ℕ → ℕ → Area → Table → Run (ℕ × Table)
take_start size i a t = do
  areas ← write t.free_memory_areas i (area (add64 a.start size) (sub64 a.size size))
  ok (a.start, record t { free_memory_areas = areas })

-- The body of the loop for a free area that is exactly as large as the request. The index is
-- greater than `i` here, so that the decrement does not wrap.
unfoldable pub take_whole : ℕ → Area → Table → Run (ℕ × Table)
take_whole i a t = do
  areas ← shift_left (t.free_memory_area_index - i) i t.free_memory_areas
  ok (a.start, table areas (t.free_memory_area_index - 1))

-- The loop at index `i`, with `rounds` areas left.
unfoldable pub allocate_from : ℕ → ℕ → ℕ → Table → Run (ℕ × Table)
allocate_from size zero i t = ok (0, t)
allocate_from size (suc rounds) i t = do
  a ← read t.free_memory_areas i
  let rest = allocate_from size rounds (suc i) t
  if ltb size a.size
      then take_start size i a t
      else if a.size == size
      then take_whole i a t
      else rest

unfoldable pub allocate : ℕ → Table → Run (ℕ × Table)
allocate size t =
    if t.free_memory_area_index == 0
    then ok (0, t)
    else if size == 0
    then ok (0, t)
    else allocate_from size t.free_memory_area_index 0 t
