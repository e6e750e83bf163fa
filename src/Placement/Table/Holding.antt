-- ===== src/Placement/Table/Holding.antt =====
-- Tables in the middle of a loop: the areas that it has passed, and those that are left.
use grub_os_iso_image.Common.{length-snoc}
use grub_os_iso_image.Common.{
  ℕ, suc, ◌+◌, ◌-◌, ◌<◌, ◌≡◌, refl, ap, List, [], ◌∷◌, ◌++◌, append_assoc, arith, length, replicate,
  ok, write, write-append,
}
use grub_os_iso_image.Placement.Area.{Area, no_area}
use grub_os_iso_image.Placement.Table.{table, table_of, holding, shift_left, shift_right}
use grub_os_iso_image.Placement.Table.Shift.{shift_left_removes, shift_right_doubles}

-- Passing one more area leaves the table as it is.
pub holding-snoc :
    (pre : List Area) (a : Area) (rest : List Area)
    → holding (pre ++ (a ∷ [])) rest ≡ holding pre (a ∷ rest)
holding-snoc pre a rest = simp (length-snoc pre a, append_assoc, moved)
  where
    moved : suc (length pre) + length rest ≡ length pre + suc (length rest)
    moved = omega arith

-- Before the first round nothing is passed.
pub holding-nil : (live : List Area) → holding [] live ≡ table_of live
unfolding table_of
holding-nil live = ap (λ n. table (live ++ replicate (10 - n) no_area) n) start
  where
    start : 0 + length live ≡ length live
    start = omega arith

pub index-remove :
    (pre : List Area) (rest : List Area)
    → length pre + suc (length rest) - 1 ≡ length pre + length rest
index-remove pre rest = omega arith

pub index-insert :
    (pre : List Area) (rest : List Area)
    → length pre + suc (length rest) + 1 ≡ length pre + suc (suc (length rest))
index-insert pre rest = omega arith

-- The loop that removes the first area left, in a table with an unused entry.
pub shift_left-holding :
    (pre : List Area) (a : Area) (rest : List Area)
    → length pre + length (a ∷ rest) < 10
    → shift_left
        (length pre + suc (length rest) - length pre)
        (length pre)
        (holding pre (a ∷ rest)).free_memory_areas
      ≡ ok (holding pre rest).free_memory_areas
shift_left-holding pre a rest h =
    let k : ℕ = 9 - (length pre + suc (length rest)) in
    let rounds : length pre + suc (length rest) - length pre ≡ suc (length rest) = omega arith in
    let unused : 10 - (length pre + suc (length rest)) ≡ suc k = omega arith in
    let unused' : 10 - (length pre + length rest) ≡ suc (suc k) = omega arith in
    rw (rounds, unused, unused', shift_left_removes pre a rest k)

-- The loop that makes room behind the first area left, which it doubles.
pub shift_right-holding :
    (pre : List Area) (a : Area) (rest : List Area)
    → length pre + length (a ∷ rest) < 10
    → shift_right
        (length pre + suc (length rest) - length pre)
        (length pre)
        (holding pre (a ∷ rest)).free_memory_areas
      ≡ ok (holding pre (a ∷ a ∷ rest)).free_memory_areas
shift_right-holding pre a rest h =
    let k : ℕ = 9 - (length pre + suc (length rest)) in
    let rounds : length pre + suc (length rest) - length pre ≡ suc (length rest) = omega arith in
    let unused : 10 - (length pre + suc (length rest)) ≡ suc k = omega arith in
    let unused' : 10 - (length pre + suc (suc (length rest))) ≡ k = omega arith in
    rw (rounds, unused, unused', shift_right_doubles pre a rest (replicate k no_area) no_area)

-- Writing to the first area left, and to the one behind it.
pub write-holding :
    (pre : List Area) (a b : Area) (rest : List Area)
    → write (holding pre (a ∷ rest)).free_memory_areas (length pre) b
      ≡ ok (holding pre (b ∷ rest)).free_memory_areas
write-holding pre a b rest = rw write-append

pub write_behind :
    (pre : List Area) (a b c : Area) (post : List Area)
    → write (pre ++ (a ∷ b ∷ post)) (suc (length pre)) c ≡ ok (pre ++ (a ∷ c ∷ post))
write_behind [] a b c post = refl
write_behind (x ∷ pre) a b c post = rw (write_behind pre a b c post)

pub write_behind-holding :
    (pre : List Area) (a b c : Area) (rest : List Area)
    → write (holding pre (a ∷ b ∷ rest)).free_memory_areas (suc (length pre)) c
      ≡ ok (holding pre (a ∷ c ∷ rest)).free_memory_areas
write_behind-holding pre a b c rest = rw (write_behind pre a b c _)
