-- ===== src/Placement/AllocateArea/Refine.antt =====
-- The code of `allocate_area` does to a table what `carved` does to the list of its areas.
use grub_os_iso_image.Common.{
  ℕ, suc, ◌+◌, ◌-◌, ◌^◌, ◌≤◌, ◌<◌, ◌≡◌, refl, false, ◌&&◌, List, [], ◌∷◌, ◌++◌, arith, leb, ◌==◌,
  if◌then◌else◌, length, add64, sub64, ok, ◌>>=◌, read-append, write-append, pos, minus,
}
use mathlib.Core.Path.{subst₂}
use grub_os_iso_image.Placement.Area.{Area, area, IsProper}
use grub_os_iso_image.Placement.Table.{table_of, IsOrdered, holding}
use grub_os_iso_image.Common.{length-snoc}
use grub_os_iso_image.Placement.Table.Holding.{
  index-remove, index-insert, shift_left-holding, shift_right-holding, write-holding,
  write_behind-holding, holding-snoc, holding-nil,
}
use grub_os_iso_image.Placement.AllocateArea.{
  allocate_area, find_area, carve, carve_found, take_from_start, take_from_end, erase_area,
  split_area,
}
use grub_os_iso_image.Placement.AllocateArea.Carve.{
  pieces, carved, contains_above, code, carved_self,
}

take_from_start_lem :
    (size : ℕ) (pre : List Area) (a : Area) (rest : List Area)
    → IsProper a
    → size < a.size
    → take_from_start size (length pre) a (holding pre (a ∷ rest))
      ≡ ok (pos 0, holding pre (area (a.start + size) (a.size - size) ∷ rest))
unfolding take_from_start
take_from_start_lem size pre a rest p h = rw write-append (ground arith)

take_from_end_lem :
    (size : ℕ) (pre : List Area) (a : Area) (rest : List Area)
    → IsProper a
    → size < a.size
    → take_from_end size (length pre) a (holding pre (a ∷ rest))
      ≡ ok (pos 0, holding pre (area a.start (a.size - size) ∷ rest))
unfolding take_from_end
take_from_end_lem size pre a rest p h = rw write-append (ground arith)

erase_area_lem :
    (pre : List Area) (a : Area) (rest : List Area)
    → length pre + length (a ∷ rest) < 10
    → erase_area (length pre) (holding pre (a ∷ rest)) ≡ ok (pos 0, holding pre rest)
unfolding erase_area
erase_area_lem pre a rest h = rw (shift_left-holding pre a rest h, index-remove)

split_area_lem :
    (start size : ℕ) (pre : List Area) (a : Area) (rest : List Area)
    → IsProper a
    → a.start < start
    → 0 < size
    → start + size < a.start + a.size
    → length pre + length (a ∷ rest) < 10
    → split_area start size (length pre) a (holding pre (a ∷ rest))
      ≡ ok (
        pos 0,
        holding pre (
            area a.start (start - a.start)
            ∷ area (start + size) (a.start + a.size - (start + size))
            ∷ rest),
      )
unfolding split_area
split_area_lem start size pre a rest p left pos_size right h =
    let room : (length pre + suc (length rest) == 10) ≡ false = ground arith in
    let left_size : sub64 start a.start ≡ start - a.start = omega arith in
    let right_start : add64 (sub64 (add64 start size) 1) 1 ≡ start + size = omega arith in
    let right_size : sub64 (sub64 a.size size) (start - a.start)
        ≡ a.start + a.size - (start + size) =
      omega arith in
    let left_area : Area = area a.start (start - a.start) in
    rw (
      room,
      left_size,
      right_start,
      right_size,
      index-insert,
      write-holding pre a left_area rest,
      shift_right-holding pre left_area rest h,
      write_behind-holding pre left_area left_area _ rest,
    )

carve_lem :
    (start size : ℕ) (pre : List Area) (a : Area) (rest : List Area)
    → IsProper a
    → 0 < size
    → start + size ≤ 2 ^ 64
    → length pre + length (a ∷ rest) < 10
    → carve start size (length pre) a (holding pre (a ∷ rest)) ≡ (
        if leb a.start start && leb (start + size) (a.start + a.size)
        then ok (pos 0, holding pre (pieces start size a rest))
        else ok (minus 5, holding pre (a ∷ rest)))
unfolding carve
carve_lem start size pre a rest p pos_size bound h = ground (
  arith,
  take_from_start_lem size pre a rest p,
  take_from_end_lem size pre a rest p,
  erase_area_lem pre a rest h,
  split_area_lem start size pre a rest p,
)

search_lem :
    (start size low : ℕ) (pre live : List Area)
    → 0 < size
    → start + size ≤ 2 ^ 64
    → IsOrdered low live
    → length pre + length live < 10
    → (find_area start (length live) (length pre) (holding pre live).free_memory_areas
        >>= carve_found start size (holding pre live))
      ≡ ok (code start size live, holding pre (carved start size live))
unfolding find_area carve_found
search_lem start size low pre [] p b o h = refl
search_lem start size low pre (a ∷ rest) p b o h =
    let room : length (pre ++ (a ∷ [])) + length rest < 10 = omega (arith, length-snoc pre a) in
    let after = search_lem start size (a.start + a.size) (pre ++ (a ∷ [])) rest p b o.2 room in
    let after' =
      subst₂
        (λ i t.
          (find_area start (length rest) i t.free_memory_areas >>= carve_found start size t)
          ≡ ok (code start size rest, holding (pre ++ (a ∷ [])) (carved start size rest)))
        (length-snoc pre a) (holding-snoc pre a rest) after in
    let after'' = rw holding-snoc at after' in
    rw read-append (
      ground (
        arith,
        after'',
        carve_lem start size pre a rest o.1 p b h,
        contains_above start size (a.start + a.size) rest o.2,
        carved_self start size rest,
      ))

-- `allocate_area` on a table that has areas and an unused entry.
pub allocate_area_refines :
    (start size : ℕ) (live : List Area)
    → 0 < size
    → start + size ≤ 2 ^ 64
    → IsOrdered 0 live
    → 0 < length live
    → length live < 10
    → allocate_area start size (table_of live)
      ≡ ok (code start size live, table_of (carved start size live))
unfolding allocate_area table_of
allocate_area_refines start size [] p b o n h = absurd (omega arith)
allocate_area_refines start size (a ∷ rest) p b o n h =
    let all = search_lem start size 0 [] (a ∷ rest) p b o (omega arith) in
    let all' = rw (holding-nil (a ∷ rest), holding-nil (carved start size (a ∷ rest))) at all in
    ground (arith, all')
