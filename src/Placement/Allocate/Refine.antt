-- ===== src/Placement/Allocate/Refine.antt =====
-- The loop of `allocate` does to a table what `without_first_fit` does to the list of its areas.
use grub_os_iso_image.Common.{
  ℕ, suc, ◌+◌, ◌-◌, ◌<◌, ◌≡◌, refl, List, [], ◌∷◌, ◌++◌, arith, ok, length, read-append,
  write-append,
}
use grub_os_iso_image.Placement.Area.{Area, area, IsProper}
use grub_os_iso_image.Placement.Table.{table_of, IsOrdered, holding}
use grub_os_iso_image.Common.{length-snoc}
use grub_os_iso_image.Placement.Table.Holding.{
  shift_left-holding, index-remove, holding-snoc, holding-nil,
}
use grub_os_iso_image.Placement.Allocate.{allocate, allocate_from, take_start, take_whole}
use grub_os_iso_image.Placement.Allocate.FirstFit.{first_fit, without_first_fit}

take_start_lem :
    (size : ℕ) (pre : List Area) (a : Area) (rest : List Area)
    → IsProper a
    → size < a.size
    → take_start size (length pre) a (holding pre (a ∷ rest))
      ≡ ok (a.start, holding pre (area (a.start + size) (a.size - size) ∷ rest))
unfolding take_start
take_start_lem size pre a rest p h = rw write-append (ground arith)

take_whole_lem :
    (pre : List Area) (a : Area) (rest : List Area)
    → length pre + length (a ∷ rest) < 10
    → take_whole (length pre) a (holding pre (a ∷ rest)) ≡ ok (a.start, holding pre rest)
unfolding take_whole
take_whole_lem pre a rest h = rw (shift_left-holding pre a rest h, index-remove)

allocate_from_lem :
    (size low : ℕ) (pre live : List Area)
    → IsOrdered low live
    → length pre + length live < 10
    → allocate_from size (length live) (length pre) (holding pre live)
      ≡ ok (first_fit size live, holding pre (without_first_fit size live))
unfolding allocate_from
allocate_from_lem size low pre [] o h = refl
allocate_from_lem size low pre (a ∷ rest) o h =
    let room : length (pre ++ (a ∷ [])) + length rest < 10 = omega (arith, length-snoc pre a) in
    let after = allocate_from_lem size (a.start + a.size) (pre ++ (a ∷ [])) rest o.2 room in
    let next : allocate_from size (length rest) (suc (length pre)) (holding pre (a ∷ rest))
        ≡ ok (first_fit size rest, holding pre (a ∷ without_first_fit size rest)) =
      rw (holding-snoc, holding-snoc, length-snoc) at after in
    rw read-append
      (ground (arith, take_start_lem size pre a rest, take_whole_lem pre a rest h, o.1, next))

-- `allocate` returns the start of the first area that fits and takes it off that area.
pub allocate_refines :
    (size : ℕ) (live : List Area)
    → 0 < size
    → IsOrdered 0 live
    → length live < 10
    → allocate size (table_of live)
      ≡ ok (first_fit size live, table_of (without_first_fit size live))
unfolding allocate table_of
allocate_refines size [] p o h = refl
allocate_refines size (a ∷ rest) p o h =
    let all = allocate_from_lem size 0 [] (a ∷ rest) o (omega arith) in
    let all' = rw (holding-nil, holding-nil) at all in ground (arith, all')
