-- ===== src/Placement/Cover.antt =====
-- `allocate_area_cover`: a range of addresses is taken off every free area that it meets.
pub mod Cut
pub mod Refine
pub mod Correct
pub mod Halt
use grub_os_iso_image.Common.{
  ℕ, zero, suc, ◌+◌, ◌-◌, ◌*◌, ◌/◌, ◌%◌, ◌^◌, ◌≤◌, ◌<◌, ◌≡◌, refl, sym, ap, ◌∙◌, ◌≢◌, ◌↔◌, ◌⊎◌, inl,
  inr, Bool, true, false, not, ◌&&◌, ◌||◌, Option, none, some, List, [], ◌∷◌, ◌++◌, append_assoc,
  append-nil, arith, ltb, leb, ◌==◌, if◌then◌else◌, ltb→lt, ltb→le, lt→ltb, le→ltb, ==_iff,
  Bool-cases, length, get_elem?, get_or, set, replicate, length-append, length-replicate,
  length-set, get_elem?-eq-get_or, get_or-set_self, get_or-set_ne, u8, u16, u32, add32, sub32,
  add64, sub64, ◌<<<◌, ◌>>>◌, Run, ok, fault, out_of_fuel, ◌>>=◌, >>=_assoc, >>=-ok, read, write,
  read-append, write-append, Ending, returns, faults, exhausts, ending, ℤ, pos, negsuc, minus,
}
use grub_os_iso_image.Placement.Area.{Area, area}
use grub_os_iso_image.Placement.Table.{Table, table, max_memory_areas_size, shift_left, shift_right}
use grub_os_iso_image.Placement.AllocateArea.{last_address}

-- What one round of the loop ends with: a `return`, or the index of the next round.
pub data Round : Type 0 where
  return : ℤ → Table → Round
  next : ℕ → Table → Round

-- The area is completely covered and is erased: `i--` and the `i++` of the loop leave the index.
unfoldable pub erase : ℕ → Table → Run Round
erase i t = do
  areas ← shift_left (t.free_memory_area_index - i) i t.free_memory_areas
  ok (next i (table areas (t.free_memory_area_index - 1)))

-- The area is replaced by one piece of it.
unfoldable pub replace : ℕ → Area → Table → Run Round
replace i piece t = do
  areas ← write t.free_memory_areas i piece
  ok (next (suc i) (record t { free_memory_areas = areas }))

-- The area is replaced by two pieces of it, if an entry is left.
unfoldable pub split : ℕ → Area → Area → Table → Run Round
split i left right t =
    if t.free_memory_area_index == max_memory_areas_size then ok (return (minus 1) t) else do
      areas ← write t.free_memory_areas i left
      areas' ← shift_right (t.free_memory_area_index - i) i areas
      areas'' ← write areas' (suc i) right
      ok (next (suc i) (table areas'' (t.free_memory_area_index + 1)))

-- The cases of the loop's body for the area `a` at index `i`.
unfoldable pub cover_area : ℕ → ℕ → ℕ → Area → Table → Run Round
unfolding last_address
cover_area start size i a t =
    let end = last_address start size in
    let a_end = last_address a.start a.size in
    let after = add64 end 1 in
    if ltb a_end start || ltb end a.start
    then ok (next (suc i) t)
    else if leb start a.start && leb a_end end
    then erase i t
    else if leb start a.start && ltb end a_end
    then replace i (area after (add64 (sub64 a_end after) 1)) t
    else if ltb a.start start && leb a_end end
    then replace i (area a.start (sub64 start a.start)) t
    else if ltb a.start start && ltb end a_end
    then split i (area a.start (sub64 start a.start)) (area after (sub64 a_end end)) t
    else ok (next (suc i) t)

unfoldable pub cover_round : ℕ → ℕ → ℕ → Table → Run Round
cover_round start size i t =
    if ltb i t.free_memory_area_index
    then (read t.free_memory_areas i >>= λ a. cover_area start size i a t)
    else ok (return (pos 0) t)

unfoldable pub cover_from : ℕ → ℕ → ℕ → ℕ → Table → Run (ℤ × Table)
cover_from start size zero i t = out_of_fuel
cover_from start size (suc fuel) i t = do
  r ← cover_round start size i t
  elim r [ return c t' ↦ ok (c, t') | next i' t' ↦ cover_from start size fuel i' t' ]

-- Each entry takes two rounds at most, since a round that splits an area passes to its right piece.
abbrev pub cover_fuel : ℕ
cover_fuel = 21

unfoldable pub allocate_area_cover : ℕ → ℕ → Table → Run (ℤ × Table)
allocate_area_cover start size t =
    if t.free_memory_area_index == 0 then ok (pos 0, t) else cover_from start size cover_fuel 0 t
