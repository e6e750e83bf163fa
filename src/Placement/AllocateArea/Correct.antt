-- ===== src/Placement/AllocateArea/Correct.antt =====
-- What a call of `allocate_area` gives, on every branch.
use grub_os_iso_image.Common.{
  ℕ, suc, ◌+◌, ◌^◌, ◌≤◌, ◌<◌, ◌≡◌, refl, ◌⊎◌, true, false, ◌&&◌, List, [], ◌∷◌, ◌++◌, arith, ltb,
  ◌==◌, if◌then◌else◌, length, ok, ◌>>=◌, read-append, pos, minus,
}
use mathlib.Core.Path.{subst₂}
use grub_os_iso_image.Placement.Area.{Area, IsProper}
use grub_os_iso_image.Placement.Table.{table_of, IsOrdered, holding}
use grub_os_iso_image.Placement.Table.Taken.{IsTaken}
use grub_os_iso_image.Common.{length-snoc}
use grub_os_iso_image.Placement.Table.Holding.{holding-snoc, holding-nil}
use grub_os_iso_image.Placement.AllocateArea.{
  allocate_area, find_area, carve, carve_found, split_area,
}
use grub_os_iso_image.Placement.AllocateArea.Carve.{
  contains, splits, all_below, carved, contains-inside, carved-IsOrdered, covers-carved,
  carved_self,
}
use grub_os_iso_image.Placement.AllocateArea.Refine.{allocate_area_refines}

nonempty_of_contains :
    (start size : ℕ) (live : List Area) → contains start size live ≡ true → 0 < length live
nonempty_of_contains start size [] c = cc
nonempty_of_contains start size (a ∷ rest) c = omega arith

-- On a table of fewer than ten areas in order, one of which contains a range of at least one byte
-- that ends at or below 2 ^ 64, `allocate_area` for that range returns 0. All of the range was
-- free, the areas after it are in order, and free exactly what was free before outside the range.
pub allocate_area_succeeds :
    (start size : ℕ) (live : List Area)
    → 0 < size
    → start + size ≤ 2 ^ 64
    → IsOrdered 0 live
    → length live < 10
    → contains start size live ≡ true
    → (after : List Area) × (allocate_area start size (table_of live) ≡ ok (pos 0, table_of after))
      × IsTaken live start size after
allocate_area_succeeds start size live p b o h c = (
  carved start size live,
  rw c at (allocate_area_refines start size live p b o (nonempty_of_contains start size live c) h),
  record {
    ordered = carved-IsOrdered start size 0 live p o c;
    was_free = λ x i. (contains-inside start size 0 live x o c i).1;
    free_after = λ x. covers-carved start size 0 live x p o c;
  },
)

-- On a table of fewer than ten areas in order, for a range that ends at or below 2 ^ 64 and that
-- is empty or that no area contains, `allocate_area` changes nothing and returns -1 if the table
-- is empty, else -2 if the range is empty, else -3 if all areas end at or below its start, and
-- else -5.
pub allocate_area_rejects :
    (start size : ℕ) (live : List Area)
    → start + size ≤ 2 ^ 64
    → IsOrdered 0 live
    → length live < 10
    → (size ≡ 0) ⊎ (contains start size live ≡ false)
    → allocate_area start size (table_of live)
      ≡ ok (
        if length live == 0
            then minus 1
            else if size == 0
            then minus 2
            else if all_below start live
            then minus 3
            else minus 5,
        table_of live,
      )
unfolding allocate_area table_of
allocate_area_rejects start size [] b o h c = refl
allocate_area_rejects start size (a ∷ rest) b o h c =
    ground (arith, allocate_area_refines start size (a ∷ rest), carved_self start size (a ∷ rest))

splits_above :
    (start size low : ℕ) (live : List Area)
    → IsOrdered low live
    → splits start size live ≡ true
    → low < start
splits_above start size low [] o c = cc
splits_above start size low (a ∷ rest) o c =
    ground (arith, splits_above start size (a.start + a.size) rest o.2)

carve_full :
    (start size : ℕ) (pre : List Area) (a : Area) (rest : List Area)
    → IsProper a
    → start + size ≤ 2 ^ 64
    → 0 < size
    → length pre + length (a ∷ rest) ≡ 10
    → (ltb a.start start && ltb (start + size) (a.start + a.size)) ≡ true
    → carve start size (length pre) a (holding pre (a ∷ rest))
      ≡ ok (minus 4, holding pre (a ∷ rest))
unfolding carve split_area
carve_full start size pre a rest p b z h c = ground arith

search_full :
    (start size low : ℕ) (pre live : List Area)
    → 0 < size
    → start + size ≤ 2 ^ 64
    → IsOrdered low live
    → length pre + length live ≡ 10
    → splits start size live ≡ true
    → ((find_area start (length live) (length pre) (holding pre live).free_memory_areas
          >>= carve_found start size (holding pre live))
        ≡ ok (minus 4, holding pre live))
unfolding find_area carve_found
search_full start size low pre [] p b o h c = cc
search_full start size low pre (a ∷ rest) p b o h c =
    let full : length (pre ++ (a ∷ [])) + length rest ≡ 10 = omega (arith, length-snoc pre a) in
    let after = search_full start size (a.start + a.size) (pre ++ (a ∷ [])) rest p b o.2 full in
    let after' : splits start size rest ≡ true
        → (find_area start (length rest) (suc (length pre))
              (holding pre (a ∷ rest)).free_memory_areas
            >>= carve_found start size (holding pre (a ∷ rest)))
          ≡ ok (minus 4, holding pre (a ∷ rest)) =
      λ c'.
        subst₂
          (λ i t.
            (find_area start (length rest) i t.free_memory_areas >>= carve_found start size t)
            ≡ ok (minus 4, t))
          (length-snoc pre a) (holding-snoc pre a rest) (after c') in
    rw read-append (
      ground (
        arith,
        after',
        carve_full start size pre a rest o.1 b p h,
        splits_above start size (a.start + a.size) rest o.2,
      ))

-- On a table of ten areas in order, for a range of at least one byte that ends at or below 2 ^ 64
-- and leaves room on both sides in an area, `allocate_area` returns -4 and changes nothing.
allocate_area_full :
    (start size : ℕ) (live : List Area)
    → 0 < size
    → start + size ≤ 2 ^ 64
    → IsOrdered 0 live
    → length live ≡ 10
    → splits start size live ≡ true
    → allocate_area start size (table_of live) ≡ ok (minus 4, table_of live)
unfolding allocate_area table_of
allocate_area_full start size [] p b o h c = cc
allocate_area_full start size (a ∷ rest) p b o h c =
    let all = search_full start size 0 [] (a ∷ rest) p b o (omega arith) c in
    ground (arith, rw holding-nil at all)
