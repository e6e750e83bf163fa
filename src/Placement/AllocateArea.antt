-- ===== src/Placement/AllocateArea.antt =====
-- `allocate_area`: a given range of addresses is taken off the free area that contains it.
pub mod Carve
pub mod Refine
pub mod Correct
use grub_os_iso_image.Common.{
  ℕ, zero, suc, ◌+◌, ◌-◌, ◌*◌, ◌/◌, ◌%◌, ◌^◌, ◌≤◌, ◌<◌, ◌≡◌, refl, sym, ap, ◌∙◌, ◌≢◌, ◌↔◌, ◌⊎◌, inl,
  inr, Bool, true, false, not, ◌&&◌, ◌||◌, Option, none, some, List, [], ◌∷◌, ◌++◌, append_assoc,
  append-nil, arith, ltb, leb, ◌==◌, if◌then◌else◌, ltb→lt, ltb→le, lt→ltb, le→ltb, ==_iff,
  Bool-cases, length, get_elem?, get_or, set, replicate, length-append, length-replicate,
  length-set, get_elem?-eq-get_or, get_or-set_self, get_or-set_ne, u8, u16, u32, add32, sub32,
  add64, sub64, ◌<<<◌, ◌>>>◌, Run, ok, fault, out_of_fuel, ◌>>=◌, >>=_assoc, >>=-ok, read, write,
  read-append, write-append, Ending, returns, faults, exhausts, ending, ℤ, pos, negsuc, minus,
}
use grub_os_iso_image.Placement.Area.{Area, area}
use grub_os_iso_image.Placement.Table.{Table, table, max_memory_areas_size, shift_left, shift_right}

-- The last address of an area, as the code computes it.
unfoldable pub last_address : ℕ → ℕ → ℕ
last_address start size = sub64 (add64 start size) 1

-- The search for the first area that does not end below `start`: its index and its value.
unfoldable pub find_area : ℕ → ℕ → ℕ → List Area → Run (Option (ℕ × Area))
unfolding last_address
find_area start zero i areas = ok none
find_area start (suc rounds) i areas = do
  a ← read areas i
  let rest = find_area start rounds (suc i) areas
  if ltb (last_address a.start a.size) start then rest else ok (some (i, a))

-- The requested range lies at the start of a larger area.
unfoldable pub take_from_start : ℕ → ℕ → Area → Table → Run (ℤ × Table)
take_from_start size i a t = do
  areas ← write t.free_memory_areas i (area (add64 a.start size) (sub64 a.size size))
  ok (pos 0, record t { free_memory_areas = areas })

-- The requested range lies at the end of a larger area.
unfoldable pub take_from_end : ℕ → ℕ → Area → Table → Run (ℤ × Table)
take_from_end size i a t = do
  areas ← write t.free_memory_areas i (area a.start (sub64 a.size size))
  ok (pos 0, record t { free_memory_areas = areas })

-- The requested range is a whole area, which is erased.
unfoldable pub erase_area : ℕ → Table → Run (ℤ × Table)
erase_area i t = do
  areas ← shift_left (t.free_memory_area_index - i) i t.free_memory_areas
  ok (pos 0, table areas (t.free_memory_area_index - 1))

-- The requested range lies strictly inside an area, which is split in two.
unfoldable pub split_area : ℕ → ℕ → ℕ → Area → Table → Run (ℤ × Table)
unfolding last_address
split_area start size i a t =
    if t.free_memory_area_index == max_memory_areas_size then ok (minus 4, t) else do
      let left = area a.start (sub64 start a.start)
      areas ← write t.free_memory_areas i left
      areas' ← shift_right (t.free_memory_area_index - i) i areas
      let right = area (add64 (last_address start size) 1) (sub64 (sub64 a.size size) left.size)
      areas'' ← write areas' (suc i) right
      ok (pos 0, table areas'' (t.free_memory_area_index + 1))

-- The cases of `allocate_area`, once the search has found the area `a` at index `i`.
unfoldable pub carve : ℕ → ℕ → ℕ → Area → Table → Run (ℤ × Table)
unfolding last_address
carve start size i a t =
    let end = last_address start size in
    let a_end = last_address a.start a.size in
    if a.start == start && ltb end a_end
    then take_from_start size i a t
    else if ltb a.start start && a_end == end
    then take_from_end size i a t
    else if a.start == start && a_end == end
    then erase_area i t
    else if ltb a.start start && ltb end a_end
    then split_area start size i a t
    else ok (minus 5, t)

unfoldable pub carve_found : ℕ → ℕ → Table → Option (ℕ × Area) → Run (ℤ × Table)
carve_found start size t none = ok (minus 3, t)
carve_found start size t (some (i, a)) = carve start size i a t

unfoldable pub allocate_area : ℕ → ℕ → Table → Run (ℤ × Table)
unfolding carve_found
allocate_area start size t =
    if t.free_memory_area_index == 0
    then ok (minus 1, t)
    else if size == 0
    then ok (minus 2, t)
    else do
      found ← find_area start t.free_memory_area_index 0 t.free_memory_areas
      carve_found start size t found
