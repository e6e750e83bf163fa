-- ===== src/Placement/Allocate/Correct.antt =====
-- What a call of `allocate` gives, on every branch.
use grub_os_iso_image.Common.{
  ℕ, suc, ◌+◌, ◌-◌, ◌<◌, ◌≡◌, refl, ◌∙◌, true, false, List, [], ◌∷◌, ◌++◌, append-nil, arith,
  length, ok, fault, read-append,
}
use grub_os_iso_image.Placement.Area.{Area}
use grub_os_iso_image.Placement.Table.{table_of, IsOrdered, holding}
use grub_os_iso_image.Placement.Table.Taken.{IsTaken}
use grub_os_iso_image.Common.{length-snoc}
use grub_os_iso_image.Placement.Table.Holding.{holding-snoc, holding-nil}
use grub_os_iso_image.Placement.Table.Shift.{shift_left_faults}
use grub_os_iso_image.Placement.Allocate.{allocate, allocate_from, take_whole}
use grub_os_iso_image.Placement.Allocate.FirstFit.{
  fits, first_fit, fits_exactly, without_first_fit, without_first_fit-IsOrdered,
  without_first_fit_self, first_fit-inside, covers-without_first_fit,
}
use grub_os_iso_image.Placement.Allocate.Refine.{allocate_refines}

-- On a table of fewer than ten areas in order, one of which has at least `size` bytes, with `size`
-- not 0, `allocate` returns the start of the first such area. The `size` bytes from there on were
-- free, the areas after it are in order, and free exactly what was free before outside these
-- bytes.
pub allocate_succeeds :
    (size : ℕ) (live : List Area)
    → 0 < size
    → IsOrdered 0 live
    → length live < 10
    → fits size live ≡ true
    → (after : List Area) × (allocate size (table_of live)
        ≡ ok (first_fit size live, table_of after))
      × IsTaken live (first_fit size live) size after
allocate_succeeds size live p o r f = (
  without_first_fit size live,
  allocate_refines size live p o r,
  record {
    ordered = without_first_fit-IsOrdered size 0 live p o;
    was_free = λ x i. (first_fit-inside size 0 live x o f i).1;
    free_after = λ x. covers-without_first_fit size 0 live x o f;
  },
)

first_fit_none : (size : ℕ) (live : List Area) → fits size live ≡ false → first_fit size live ≡ 0
first_fit_none size [] f = refl
first_fit_none size (a ∷ rest) f = ground (arith, first_fit_none size rest)

-- On a table of fewer than ten areas in order, none of which has at least `size` bytes, with
-- `size` not 0, `allocate` returns 0 and changes nothing.
allocate_fails :
    (size : ℕ) (live : List Area)
    → 0 < size
    → IsOrdered 0 live
    → length live < 10
    → fits size live ≡ false
    → allocate size (table_of live) ≡ ok (0, table_of live)
allocate_fails size live p o r f =
    allocate_refines size live p o r
    ∙ (ground (arith, first_fit_none size live f, without_first_fit_self size live f))

take_whole_faults :
    (pre : List Area) (a : Area) (rest : List Area)
    → length pre + length (a ∷ rest) ≡ 10
    → take_whole (length pre) a (holding pre (a ∷ rest)) ≡ fault
unfolding take_whole
take_whole_faults pre a rest h =
    let rounds : length pre + suc (length rest) - length pre ≡ suc (length rest) = omega arith in
    let unused : 10 - (length pre + suc (length rest)) ≡ 0 = omega arith in
    rw (rounds, unused, append-nil, shift_left_faults pre a rest)

allocate_from_faults :
    (size : ℕ) (pre live : List Area)
    → length pre + length live ≡ 10
    → fits_exactly size live ≡ true
    → allocate_from size (length live) (length pre) (holding pre live) ≡ fault
unfolding allocate_from
allocate_from_faults size pre [] h f = cc
allocate_from_faults size pre (a ∷ rest) h f =
    let full : length (pre ++ (a ∷ [])) + length rest ≡ 10 = omega (arith, length-snoc pre a) in
    let next : fits_exactly size rest ≡ true
        → allocate_from size (length rest) (suc (length pre)) (holding pre (a ∷ rest)) ≡ fault =
      λ g.
        rw (holding-snoc, length-snoc) at
          (allocate_from_faults size (pre ++ (a ∷ [])) rest full g) in
    rw read-append (ground (arith, take_whole_faults pre a rest h, next))

-- On a table whose ten entries are all used, if the first area of at least `size` bytes has
-- exactly `size` bytes, with `size` not 0, `allocate` reads behind the end of the array.
pub allocate_full_faults :
    (size : ℕ) (live : List Area)
    → 0 < size
    → length live ≡ 10
    → fits_exactly size live ≡ true
    → allocate size (table_of live) ≡ fault
unfolding allocate table_of
allocate_full_faults size [] p h f = cc
allocate_full_faults size (a ∷ rest) p h f =
    ground (arith, rw holding-nil at (allocate_from_faults size [] (a ∷ rest) (omega arith) f))
