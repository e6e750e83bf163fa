-- ===== src/Placement/Cover/Refine.antt =====
-- The loop of `allocate_area_cover` does to a table what `cut` does to the list of its areas.
use grub_os_iso_image.Common.{
  ℕ, zero, suc, ◌+◌, ◌-◌, ◌*◌, ◌^◌, ◌≤◌, ◌<◌, ◌≡◌, refl, true, false, ◌&&◌, ◌||◌, List, [], ◌∷◌,
  ◌++◌, arith, ltb, leb, ◌==◌, if◌then◌else◌, length, ok, read-append, pos,
}
use mathlib.Core.Path.{subst₂}
use grub_os_iso_image.Placement.Area.{Area, area, IsProper}
use grub_os_iso_image.Placement.Table.{table_of, IsOrdered, IsOrdered-lower, holding}
use grub_os_iso_image.Common.{length-snoc}
use grub_os_iso_image.Placement.Table.Holding.{
  index-remove, index-insert, shift_left-holding, shift_right-holding, write-holding,
  write_behind-holding, holding-snoc, holding-nil,
}
use grub_os_iso_image.Placement.Cover.{
  next, erase, replace, split, cover_area, cover_round, cover_from, cover_fuel, allocate_area_cover,
}
use grub_os_iso_image.Placement.Cover.Cut.{cut, cut_self}

module _ (pre : List Area) (a : Area) (rest : List Area) where
  erase_lem :
      length pre + length (a ∷ rest) < 10
      → erase (length pre) (holding pre (a ∷ rest)) ≡ ok (next (length pre) (holding pre rest))
  unfolding erase
  erase_lem h = rw (shift_left-holding pre a rest h, index-remove)

  replace_lem :
      (piece : Area)
      → replace (length pre) piece (holding pre (a ∷ rest))
        ≡ ok (next (suc (length pre)) (holding pre (piece ∷ rest)))
  unfolding replace
  replace_lem piece = rw (write-holding pre a piece rest)

  split_lem :
      (left right : Area)
      → length pre + length (a ∷ rest) < 10
      → split (length pre) left right (holding pre (a ∷ rest))
        ≡ ok (next (suc (length pre)) (holding pre (left ∷ right ∷ rest)))
  unfolding split
  split_lem left right h =
      let room : (length pre + suc (length rest) == 10) ≡ false = ground arith in
      rw (
        room,
        index-insert,
        write-holding pre a left rest,
        shift_right-holding pre left rest h,
        write_behind-holding pre left left right rest,
      )

  -- One round with an unused entry, by the position of the area and the range.
  cover_round_lem :
      (start size : ℕ)
      → IsProper a
      → 0 < size
      → start + size ≤ 2 ^ 64
      → length pre + length (a ∷ rest) < 10
      → let end = start + size in
        let a_end = a.start + a.size in
        cover_round start size (length pre) (holding pre (a ∷ rest))
        ≡ ok (
            if leb a_end start || leb end a.start
            then next (suc (length pre)) (holding pre (a ∷ rest))
            else if leb start a.start && leb a_end end
            then next (length pre) (holding pre rest)
            else if leb start a.start
            then next (suc (length pre)) (holding pre (area end (a_end - end) ∷ rest))
            else if leb a_end end
            then next (suc (length pre)) (holding pre (area a.start (start - a.start) ∷ rest))
            else next
                (suc (length pre))
                (holding pre (area a.start (start - a.start) ∷ area end (a_end - end) ∷ rest)))
  unfolding cover_round cover_area
  cover_round_lem start size p pos_size b h =
      let within : ltb (length pre) (length pre + suc (length rest)) ≡ true = ground arith in
      rw (within, read-append)
        (ground (
          arith,
          erase_lem h,
          replace_lem (area (start + size) (a.start + a.size - (start + size))),
          replace_lem (area a.start (start - a.start)),
          split_lem (area a.start (start - a.start))
              (area (start + size) (a.start + a.size - (start + size))) h,
        ))

-- What the loop does behind an area that it has passed, it does to the table with that area.
pass :
    (start size fuel : ℕ) (pre : List Area) (a : Area) (rest after : List Area)
    → cover_from start size fuel (length (pre ++ (a ∷ []))) (holding (pre ++ (a ∷ [])) rest)
      ≡ ok (pos 0, holding (pre ++ (a ∷ [])) after)
    → cover_from start size fuel (suc (length pre)) (holding pre (a ∷ rest))
      ≡ ok (pos 0, holding pre (a ∷ after))
pass start size fuel pre a rest after h = rw holding-snoc at (
    subst₂ (λ i t. cover_from start size fuel i t ≡ ok (pos 0, holding (pre ++ (a ∷ [])) after))
      (length-snoc pre a) (holding-snoc pre a rest) h)

-- With no area left the loop ends.
finish :
    (start size fuel : ℕ) (pre : List Area)
    → 0 < fuel
    → cover_from start size fuel (length pre) (holding pre []) ≡ ok (pos 0, holding pre [])
unfolding cover_from cover_round
finish start size zero pre h = absurd (omega arith)
finish start size (suc fuel) pre h = rw within
  where
    within : ltb (length pre) (length pre + 0) ≡ false
    within = ground arith

-- Areas behind the range are passed, whether or not the table has an unused entry.
pass_beyond :
    (start size low fuel : ℕ) (pre live : List Area)
    → 0 < size
    → start + size ≤ low
    → IsOrdered low live
    → length live < fuel
    → cover_from start size fuel (length pre) (holding pre live) ≡ ok (pos 0, holding pre live)
unfolding cover_from
pass_beyond start size low fuel pre [] p b o f = finish start size fuel pre f
pass_beyond start size low zero pre (a ∷ rest) p b o f = absurd (omega arith)
pass_beyond start size low (suc fuel) pre (a ∷ rest) p b o f = rw skipped (
    pass start size fuel pre a rest rest (
      pass_beyond start size (a.start + a.size) fuel (pre ++ (a ∷ [])) rest p (omega arith) o.2
        (omega arith)))
  where
    skipped :
        cover_round start size (length pre) (holding pre (a ∷ rest))
        ≡ ok (next (suc (length pre)) (holding pre (a ∷ rest)))
    skipped =
        unfold cover_round cover_area in
        let within : ltb (length pre) (length pre + suc (length rest)) ≡ true = ground arith in
        rw (within, read-append) (ground arith)

-- The round after one that splits an area, and all that follow.
after_split :
    (start size fuel : ℕ) (pre : List Area) (a : Area) (rest : List Area)
    → start + size < a.start + a.size
    → IsProper a
    → 0 < size
    → IsOrdered (a.start + a.size) rest
    → 2 * length (a ∷ rest) < suc fuel
    → let left = area a.start (start - a.start) in
      let right = area (start + size) (a.start + a.size - (start + size)) in
      cover_from start size fuel (suc (length pre)) (holding pre (left ∷ right ∷ rest))
      ≡ ok (pos 0, holding pre (left ∷ right ∷ cut start size rest))
after_split start size fuel pre a rest inner proper p o f =
    rw (cut_self start size (a.start + a.size) rest o (omega arith)) (
      pass start size fuel pre left (right ∷ rest) (right ∷ rest) (
        pass_beyond start size (start + size) fuel (pre ++ (left ∷ [])) (right ∷ rest) p
          (omega arith)
          (omega arith, omega arith, IsOrdered-lower (a.start + a.size) _ rest (omega arith) o)
          (omega arith)))
  where
    left : Area
    left = area a.start (start - a.start)

    right : Area
    right = area (start + size) (a.start + a.size - (start + size))

cover_from_lem :
    (start size low fuel : ℕ) (pre live : List Area)
    → 0 < size
    → start + size ≤ 2 ^ 64
    → IsOrdered low live
    → length pre + length live < 10
    → 2 * length live < fuel
    → cover_from start size fuel (length pre) (holding pre live)
      ≡ ok (pos 0, holding pre (cut start size live))
unfolding cover_from
cover_from_lem start size low fuel pre [] p b o h f = finish start size fuel pre (omega arith)
cover_from_lem start size low zero pre (a ∷ rest) p b o h f = absurd (omega arith)
cover_from_lem start size low (suc fuel) pre (a ∷ rest) p b o h f =
    let passing : (piece : Area)
        → cover_from start size fuel (suc (length pre)) (holding pre (piece ∷ rest))
          ≡ ok (pos 0, holding pre (piece ∷ cut start size rest)) =
      λ piece. pass start size fuel pre piece rest (cut start size rest) (
        cover_from_lem start size (a.start + a.size) fuel (pre ++ (piece ∷ [])) rest p b o.2
          (omega (arith, length-snoc pre piece)) (omega arith)) in
    rw (cover_round_lem pre a rest start size o.1 p b h) (
      ground (
        arith,
        passing a,
        cover_from_lem start size (a.start + a.size) fuel pre rest p b o.2 (omega arith)
            (omega arith),
        passing (area (start + size) (a.start + a.size - (start + size))),
        passing (area a.start (start - a.start)),
        λ (inner : start + size < a.start + a.size).
            after_split start size fuel pre a rest inner o.1 p o.2 f,
      ))

-- `allocate_area_cover` on a table with an unused entry.
pub allocate_area_cover_refines :
    (start size : ℕ) (live : List Area)
    → 0 < size
    → start + size ≤ 2 ^ 64
    → IsOrdered 0 live
    → length live < 10
    → allocate_area_cover start size (table_of live) ≡ ok (pos 0, table_of (cut start size live))
unfolding allocate_area_cover table_of
allocate_area_cover_refines start size [] p b o h = refl
allocate_area_cover_refines start size (a ∷ rest) p b o h =
    let all =
      cover_from_lem start size 0 cover_fuel [] (a ∷ rest) p b o (omega arith) (omega arith) in
    let all' = rw (holding-nil (a ∷ rest), holding-nil (cut start size (a ∷ rest))) at all in
    ground (arith, all')
