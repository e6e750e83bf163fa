-- ===== src/Placement/Table/Clear.antt =====
-- `clear_placement_memory_array` and `memory_areas_size`.
use grub_os_iso_image.Common.{
  ℕ, zero, suc, ◌+◌, ◌-◌, ◌≤◌, ◌≡◌, refl, ap, ◌∙◌, false, ◌&&◌, List, [], ◌∷◌, ◌++◌, append_assoc,
  arith, ◌==◌, length, replicate, ok, ◌>>=◌, >>=_assoc, read-append,
}
use grub_os_iso_image.Placement.Area.{Area, no_area}
use grub_os_iso_image.Placement.Table.{
  Table, table_of, IsOrdered, clear_from, clear_placement_memory_array, areas_size_from,
  memory_areas_size,
}
use grub_os_iso_image.Common.{length-snoc}

clear_from_cons :
    (rounds i : ℕ) (a : Area) (l : List Area)
    → clear_from rounds (suc i) (a ∷ l) ≡ (clear_from rounds i l >>= λ l'. ok (a ∷ l'))
unfolding clear_from
clear_from_cons zero i a l = refl
clear_from_cons (suc rounds) i a l = simp (>>=_assoc, clear_from_cons rounds)

clear_from_lem : (l : List Area) → clear_from (length l) 0 l ≡ ok (replicate (length l) no_area)
unfolding clear_from
clear_from_lem [] = refl
clear_from_lem (a ∷ l) = rw (clear_from_cons (length l) 0 no_area l, clear_from_lem l)

-- Whatever a table of ten entries holds, `clear_placement_memory_array` returns, and leaves the
-- table without areas.
pub clear_placement_memory_array_lem :
    (t : Table)
    → length t.free_memory_areas ≡ 10
    → clear_placement_memory_array t ≡ ok (table_of [])
unfolding clear_placement_memory_array table_of
clear_placement_memory_array_lem t h =
    let cleared = rw h at (clear_from_lem t.free_memory_areas) in rw cleared

areas_size_from_lem :
    (low : ℕ) (pre live : List Area) (k : ℕ)
    → IsOrdered low live
    → length pre + (length live + k) ≡ 10
    → areas_size_from (length live + k) (length pre) (pre ++ (live ++ replicate k no_area))
      ≡ ok (length pre + length live)
unfolding areas_size_from
areas_size_from_lem low pre [] zero o h = ap ok (omega arith)
areas_size_from_lem low pre [] (suc k) o h =
    let rounds : 0 + suc k ≡ suc k = omega arith in rw (rounds, read-append) (ap ok (omega arith))
areas_size_from_lem low pre (a ∷ rest) k o h =
    let rounds : suc (length rest) + k ≡ suc (length rest + k) = omega arith in
    let used : (a.start == 0 && a.size == 0) ≡ false = ground arith in
    let after =
      areas_size_from_lem (a.start + a.size) (pre ++ (a ∷ [])) rest k o.2
        (omega (arith, length-snoc pre a)) in
    let after' = rw (append_assoc, length-snoc) at after in
    rw (rounds, read-append, used) (after' ∙ ap ok (omega arith))

-- For a table of at most ten areas in order, with unused entries behind them, `memory_areas_size`
-- returns their number.
memory_areas_size_lem :
    (live : List Area)
    → IsOrdered 0 live
    → length live ≤ 10
    → memory_areas_size (table_of live) ≡ ok (length live)
unfolding memory_areas_size table_of
memory_areas_size_lem live o h =
    let all = areas_size_from_lem 0 [] live (10 - length live) o (omega arith) in
    let rounds : length live + (10 - length live) ≡ 10 = omega arith in
    let all' = rw rounds at all in all' ∙ ap ok (omega arith)
