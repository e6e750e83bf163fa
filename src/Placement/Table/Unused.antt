-- ===== src/Placement/Table/Unused.antt =====
-- The unused entries behind the areas of a table.
use grub_os_iso_image.Common.{
  ℕ, suc, ◌+◌, ◌-◌, ◌<◌, ◌≡◌, refl, List, [], ◌∷◌, ◌++◌, append_assoc, arith, length, replicate,
  length-append, ok, read, write,
}
use grub_os_iso_image.Placement.Area.{Area, no_area}
use grub_os_iso_image.Placement.Table.{table, holding, shift_left}
use grub_os_iso_image.Common.{length-snoc}
use grub_os_iso_image.Placement.Table.Holding.{write_behind}
use grub_os_iso_image.Placement.Table.Shift.{shift_left_removes}

read_behind :
    (pre : List Area) (a b : Area) (post : List Area)
    → read (pre ++ (a ∷ b ∷ post)) (suc (length pre)) ≡ ok b
read_behind [] a b post = refl
read_behind (x ∷ pre) a b post = read_behind pre a b post

-- The entry behind the areas is unused.
pub read_unused-holding :
    (pre : List Area) (a : Area)
    → length pre + 1 < 10
    → read (holding pre (a ∷ [])).free_memory_areas (suc (length pre)) ≡ ok no_area
read_unused-holding pre a h =
    let k : ℕ = 9 - (length pre + 1) in
    let unused : 10 - (length pre + 1) ≡ suc k = omega arith in
    rw (unused, read_behind pre a no_area (replicate k no_area))

pub read_behind-holding :
    (pre : List Area) (a b : Area) (rest : List Area)
    → read (holding pre (a ∷ b ∷ rest)).free_memory_areas (suc (length pre)) ≡ ok b
read_behind-holding pre a b rest = read_behind pre a b _

-- Writing an area behind the areas.
pub write_unused-holding :
    (pre : List Area) (a b : Area)
    → length pre + 1 < 10
    → write (holding pre (a ∷ [])).free_memory_areas (suc (length pre)) b
      ≡ ok (holding pre (a ∷ b ∷ [])).free_memory_areas
write_unused-holding pre a b h =
    let k : ℕ = 9 - (length pre + 1) in
    let unused : 10 - (length pre + 1) ≡ suc k = omega arith in
    let unused' : 10 - (length pre + 2) ≡ k = omega arith in
    rw (unused, unused', write_behind pre a no_area b (replicate k no_area))

-- An unused entry may be counted as an area.
pub holding-extend :
    (pre live : List Area)
    → length pre + length live < 10
    → table (holding pre live).free_memory_areas (length pre + length live + 1)
      ≡ holding pre (live ++ (no_area ∷ []))
holding-extend pre live h =
    let k : ℕ = 9 - (length pre + length live) in
    let unused : 10 - (length pre + length live) ≡ suc k = omega arith in
    let unused' : 10 - (length pre + length live + 1) ≡ k = omega arith in
    let index : length pre + length (live ++ (no_area ∷ [])) ≡ length pre + length live + 1 =
      omega (arith, length-append live (no_area ∷ [])) in
    rw (index, unused, unused', append_assoc)

-- The loop that removes the second area left, in a table with an unused entry.
pub shift_left_behind-holding :
    (pre : List Area) (a b : Area) (rest : List Area)
    → length pre + length (a ∷ b ∷ rest) < 10
    → shift_left
        (length pre + suc (suc (length rest)) - suc (length pre))
        (suc (length pre))
        (holding pre (a ∷ b ∷ rest)).free_memory_areas
      ≡ ok (holding pre (a ∷ rest)).free_memory_areas
shift_left_behind-holding pre a b rest h =
    let k : ℕ = 9 - (length pre + suc (suc (length rest))) in
    let rounds : length pre + suc (suc (length rest)) - suc (length pre) ≡ suc (length rest) =
      omega arith in
    let unused : 10 - (length pre + suc (suc (length rest))) ≡ suc k = omega arith in
    let unused' : 10 - (length pre + suc (length rest)) ≡ suc (suc k) = omega arith in
    rw (rounds, unused, unused')
      (rw (length-snoc, append_assoc, append_assoc) at
        (shift_left_removes (pre ++ (a ∷ [])) b rest k))
