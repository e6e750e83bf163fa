-- ===== src/Placement/Insert.antt =====
-- `insert_area`: a free area is added to the table, or merged with its neighbours.
pub mod Placing
pub mod Refine
pub mod Correct
use grub_os_iso_image.Common.{
  ℕ, zero, suc, ◌+◌, ◌-◌, ◌*◌, ◌/◌, ◌%◌, ◌^◌, ◌≤◌, ◌<◌, ◌≡◌, refl, sym, ap, ◌∙◌, ◌≢◌, ◌↔◌, ◌⊎◌, inl,
  inr, Bool, true, false, not, ◌&&◌, ◌||◌, Option, none, some, List, [], ◌∷◌, ◌++◌, append_assoc,
  append-nil, arith, ltb, leb, ◌==◌, if◌then◌else◌, ltb→lt, ltb→le, lt→ltb, le→ltb, ==_iff,
  Bool-cases, length, get_elem?, get_or, set, replicate, length-append, length-replicate,
  length-set, get_elem?-eq-get_or, get_or-set_self, get_or-set_ne, u8, u16, u32, add32, sub32,
  add64, sub64, ◌<<<◌, ◌>>>◌, Run, ok, fault, out_of_fuel, ◌>>=◌, >>=_assoc, >>=-ok, read, write,
  read-append, write-append, Ending, returns, faults, exhausts, ending, >>=-halts, >>=-eq-ok,
  read-halts, write-halts, ℤ, pos, negsuc, minus,
}
use grub_os_iso_image.Placement.Area.{Area, area, overlapp, is_free}
use grub_os_iso_image.Placement.Table.{Table, table, max_memory_areas_size, shift_left}
use grub_os_iso_image.Placement.AllocateArea.{last_address}

-- The loop that looks for the index of the new area, with `rounds` areas left. Its test reads the
-- entry before it compares the index, also at the end of the areas.
unfoldable pub find_index : ℕ → ℕ → ℕ → List Area → Run ℕ
find_index start zero i areas = read areas i >>= λ a. ok i
find_index start (suc rounds) i areas = do
  a ← read areas i
  let rest = find_index start rounds (suc i) areas
  if ltb a.start start then rest else ok i

-- The new area takes the place of entry `i`: nothing is shifted.
unfoldable pub put_area : ℕ → Area → Table → Run (ℤ × Table)
put_area i new t = do
  areas ← write t.free_memory_areas i new
  ok (pos 0, table areas (t.free_memory_area_index + 1))

-- The new area ends where entry `i` begins, or takes its place.
unfoldable pub merge_successor : ℕ → Area → Table → Run (ℤ × Table)
merge_successor i new t = do
  successor ← read t.free_memory_areas i
  if successor.start == add64 new.start new.size
      then (write t.free_memory_areas i (area new.start (add64 successor.size new.size))
          >>= λ areas. ok (pos 0, record t { free_memory_areas = areas }))
      else put_area i new t

-- The new area begins where entry `p` ends. If entry `p + 1` begins where the new area ends, it is
-- merged too and erased.
unfoldable pub merge_predecessor : ℕ → Area → Area → Table → Run (ℤ × Table)
unfolding last_address
merge_predecessor p predecessor new t = do
  let larger = area predecessor.start (add64 predecessor.size new.size)
  areas ← write t.free_memory_areas p larger
  successor ← read areas (suc p)
  if successor.start == add64 (last_address larger.start larger.size) 1
      then (do
        areas' ← write areas p (area larger.start (add64 larger.size successor.size))
        areas'' ← shift_left (t.free_memory_area_index - suc p) (suc p) areas'
        ok (pos 0, table areas'' (t.free_memory_area_index - 1)))
      else ok (pos 0, record t { free_memory_areas = areas })

-- The rest of `insert_area` for the index `correct_index`, which has a predecessor if it is not 0.
unfoldable pub insert_at : ℕ → Area → Table → Run (ℤ × Table)
insert_at zero new t = do
  successor ← read t.free_memory_areas 0
  if not (is_free successor) && overlapp successor new
      then ok (minus 4, t)
      else merge_successor 0 new t
insert_at (suc p) new t = do
  predecessor ← read t.free_memory_areas p
  if overlapp predecessor new then ok (minus 3, t) else do
    successor ← read t.free_memory_areas (suc p)
    if not (is_free successor) && overlapp successor new
        then ok (minus 4, t)
        else if add64 (last_address predecessor.start predecessor.size) 1 == new.start
        then merge_predecessor p predecessor new t
        else merge_successor (suc p) new t

unfoldable pub insert_area : ℕ → ℕ → Table → Run (ℤ × Table)
insert_area start size t =
    if t.free_memory_area_index == max_memory_areas_size
    then ok (minus 1, t)
    else if size == 0
    then ok (minus 2, t)
    else do
      correct_index ← find_index start t.free_memory_area_index 0 t.free_memory_areas
      insert_at correct_index (area start size) t
