-- ===== src/Placement/Insert/Correct/Lost.antt =====
-- A new area that stands alone in front of a successor takes the successor's entry.
use grub_os_iso_image.Common.{
  ℕ, ◌+◌, ◌^◌, ◌≤◌, ◌<◌, ◌≡◌, ap, inl, inr, true, false, List, [], ◌∷◌, ◌++◌, arith, ltb, ◌==◌,
  if◌then◌else◌, ltb→lt, Bool-cases, length, ok, pos,
}
use grub_os_iso_image.Placement.Area.{Area, area, no_area, inside, IsProper}
use grub_os_iso_image.Placement.Table.{table_of, IsOrdered, covers, covers_below}
use grub_os_iso_image.Placement.Insert.{insert_area}
use grub_os_iso_image.Placement.Insert.Placing.{end, touches, behind, placed_behind, placed}
use grub_os_iso_image.Placement.Insert.Refine.{insert_area_refines}
use grub_os_iso_image.Placement.Insert.Correct.{is_apart, stands_alone, stands_alone_behind}

-- The first area that does not begin below the new one.
abbrev pub successor : Area → List Area → Area
successor new [] = no_area
successor new (a ∷ rest) = if ltb a.start new.start then successor new rest else a

-- The areas with the new one in the place of its successor.
abbrev pub replaced : Area → List Area → List Area
replaced new [] = []
replaced new (a ∷ rest) = if ltb a.start new.start then a ∷ replaced new rest else new ∷ rest

placed_behind_alone :
    (p new : Area) (live : List Area)
    → IsProper new
    → IsOrdered (end p) live
    → p.start < new.start
    → is_apart new (p ∷ live) ≡ true
    → stands_alone_behind p new live ≡ true
    → placed_behind p new live ≡ (pos 0, p ∷ replaced new live ++ (no_area ∷ []))
placed_behind_alone p new [] r o b d s = cc
placed_behind_alone p new (a ∷ rest) r o b d s = elim (Bool-cases (ltb a.start new.start)) [
  | inl passed ↦ rw passed (
      ap (behind p) (
        placed_behind_alone a new rest r o.2 (ltb→lt a.start new.start passed) (ground arith)
          (rw passed at s)))
  | inr found ↦
      let p_clear : touches p new ≡ false = ground arith in
      let a_clear : touches a new ≡ false = ground arith in
      let p_apart : (end p == new.start) ≡ false = ground arith in
      let a_apart : (a.start == end new) ≡ false = ground arith in
      rw (found, p_clear, a_clear, p_apart, a_apart)
]

placed_alone :
    (new : Area) (live : List Area)
    → IsProper new
    → IsOrdered 0 live
    → is_apart new live ≡ true
    → stands_alone new live ≡ true
    → placed new live ≡ (pos 0, replaced new live ++ (no_area ∷ []))
placed_alone new [] r o d s = cc
placed_alone new (a ∷ rest) r o d s = elim (Bool-cases (ltb a.start new.start)) [
  | inl passed ↦
      rw passed
        (placed_behind_alone a new rest r o.2 (ltb→lt a.start new.start passed) d (rw passed at s))
  | inr found ↦
      let a_clear : touches a new ≡ false = ground arith in
      let a_apart : (a.start == end new) ≡ false = ground arith in rw (found, a_clear, a_apart)
]

covers-unused : (live : List Area) (x : ℕ) → covers (live ++ (no_area ∷ [])) x ≡ covers live x
covers-unused [] x = ground arith
covers-unused (a ∷ rest) x = rw (covers-unused rest x)

successor_behind_positive :
    (p new : Area) (live : List Area) (low : ℕ)
    → IsOrdered low live
    → stands_alone_behind p new live ≡ true
    → 0 < (successor new live).size
successor_behind_positive p new [] low o s = cc
successor_behind_positive p new (a ∷ rest) low o s =
    ground (arith, successor_behind_positive a new rest (end a) o.2)

successor_positive :
    (new : Area) (live : List Area) (low : ℕ)
    → IsOrdered low live
    → stands_alone new live ≡ true
    → 0 < (successor new live).size
successor_positive new [] low o s = cc
successor_positive new (a ∷ rest) low o s =
    ground (arith, successor_behind_positive a new rest (end a) o.2)

-- The addresses of the successor were free and no longer are.
successor_lost :
    (low : ℕ) (new : Area) (live : List Area) (x : ℕ)
    → IsOrdered low live
    → is_apart new live ≡ true
    → inside (successor new live).start (successor new live).size x ≡ true
    → (low ≤ x) × (covers live x ≡ true) × (covers (replaced new live ++ (no_area ∷ [])) x ≡ false)
successor_lost low new [] x o d i = ground arith
successor_lost low new (a ∷ rest) x o d i = elim (Bool-cases (ltb a.start new.start)) [
  | inl passed ↦
      let later = successor_lost (end a) new rest x o.2 (ground arith) (rw passed at i) in
      rw passed (ground (arith, later))
  | inr found ↦
      let here = rw found at i in
      rw (found, covers-unused (new ∷ rest) x)
        (ground (arith, here, covers_below (end a) rest x o.2))
]

-- On a table of fewer than ten areas in order, `insert_area` for at least one byte ending below 2
-- ^ 64 that shares no address with an area, has a successor, does not end where the successor
-- begins and does not begin where the predecessor ends, returns 0, and there is an area of at
-- least one byte whose addresses were all free before and are all no longer free.
pub insert_area_loses :
    (start size : ℕ) (live : List Area)
    → 0 < size
    → start + size < 2 ^ 64
    → IsOrdered 0 live
    → length live < 10
    → is_apart (area start size) live ≡ true
    → stands_alone (area start size) live ≡ true
    → (lost : Area) × (after : List Area) × (insert_area start size (table_of live)
        ≡ ok (pos 0, table_of after))
      × (0 < lost.size)
      × ((x : ℕ)
          → inside lost.start lost.size x ≡ true
          → (covers live x ≡ true) × (covers after x ≡ false))
insert_area_loses start size live p b o h d s =
    let new : Area = area start size in
    let proper : IsProper new = record { positive = p; below = b } in
    let code = placed_alone new live proper o d s in
    (
      successor new live,
      replaced new live ++ (no_area ∷ []),
      rw code at (insert_area_refines start size live p b o h),
      successor_positive new live 0 o s,
      λ x i. let l = successor_lost 0 new live x o d i in (l.1, l.2),
    )
