-- ===== src/Placement/Insert/Correct/Added.antt =====
-- A new area that is apart from all others and is merged, or has no successor, is added.
use grub_os_iso_image.Common.{
  ℕ, ◌+◌, ◌^◌, ◌≤◌, ◌<◌, ◌≡◌, refl, inl, inr, true, false, ◌||◌, List, [], ◌∷◌, arith, ltb, ◌==◌,
  ltb→lt, ltb→le, ==_iff, Bool-cases, length, ok, pos,
}
use grub_os_iso_image.Placement.Area.{Area, area, inside, IsProper}
use grub_os_iso_image.Placement.Table.{table_of, IsOrdered, covers}
use grub_os_iso_image.Placement.Insert.{insert_area}
use grub_os_iso_image.Placement.Insert.Placing.{
  end, settle, extend, collides, touches, behind, place_behind, placed_behind, placed, Placed,
}
use grub_os_iso_image.Placement.Insert.Refine.{insert_area_refines}
use grub_os_iso_image.Placement.Insert.Correct.{is_apart, stands_alone, stands_alone_behind}

-- The areas `after` are in order, and free what `before` and the new area free.
pub record IsAdded (low : ℕ) (new : Area) (before : List Area) (r : Placed) : Type 0 where
  pub code : r.0 ≡ pos 0
  pub ordered : IsOrdered low r.1
  pub free_after : (x : ℕ) → covers r.1 x ≡ (covers before x || inside new.start new.size x)

settle-IsAdded :
    (low : ℕ) (new : Area) (rest : List Area)
    → IsProper new
    → IsOrdered new.start rest
    → low ≤ new.start
    → is_apart new rest ≡ true
    → stands_alone new rest ≡ false
    → (collides new rest ≡ false) × IsAdded low new rest (pos 0, settle new rest)
settle-IsAdded low new [] r o l d s =
    (refl, record { code = refl; ordered = ground arith; free_after = λ x. ground arith })
settle-IsAdded low new (a ∷ rest) r o l d s = (
  ground arith,
  record { code = refl; ordered = ground arith; free_after = λ x. rw joins (ground arith) },
)
  where
    joins : (a.start == end new) ≡ true
    joins = ground arith

extend-IsAdded :
    (low : ℕ) (p new : Area) (rest : List Area)
    → IsProper p
    → IsProper new
    → IsOrdered new.start rest
    → low ≤ p.start
    → end p ≡ new.start
    → is_apart new rest ≡ true
    → (collides new rest ≡ false) × IsAdded low new (p ∷ rest) (pos 0, extend p new rest)
extend-IsAdded low p new [] q r o l e d =
    (refl, record { code = refl; ordered = ground arith; free_after = λ x. ground arith })
extend-IsAdded low p new (a ∷ rest) q r o l e d = (
  ground arith,
  record { code = refl; ordered = ground arith; free_after = λ x. covers-extend x },
)
  where
    covers-extend :
        (x : ℕ)
        → covers (extend p new (a ∷ rest)) x
          ≡ (covers (p ∷ a ∷ rest) x || inside new.start new.size x)
    covers-extend x = elim (Bool-cases (a.start == end new)) [
      | inl joins ↦ rw joins (ground arith)
      | inr apart ↦ rw apart (ground arith)
    ]

behind-IsAdded :
    (low : ℕ) (p new : Area) (rest : List Area) (r : Placed)
    → IsProper p
    → low ≤ p.start
    → IsAdded (end p) new rest r
    → IsAdded low new (p ∷ rest) (behind p r)
behind-IsAdded low p new rest r q l added = record {
  code = added.code;
  ordered = (l, q, added.ordered);
  free_after = λ x. ground (arith, added.free_after x);
}

place_behind-IsAdded :
    (low : ℕ) (p new : Area) (rest : List Area)
    → IsProper p
    → IsProper new
    → IsOrdered new.start rest
    → low ≤ p.start
    → p.start < new.start
    → is_apart new (p ∷ rest) ≡ true
    → ((end p == new.start) ≡ false → stands_alone new rest ≡ false)
    → IsAdded low new (p ∷ rest) (place_behind p new rest)
place_behind-IsAdded low p new rest q r o l b d s =
    let clear : touches p new ≡ false = ground arith in
    let d' : is_apart new rest ≡ true = ground arith in
    elim (Bool-cases (end p == new.start)) [
      | inl touching ↦
          let (c, added) = extend-IsAdded low p new rest q r o l ((==_iff _ _).0 touching) d' in
          rw (clear, c, touching) added
      | inr apart ↦
          let (c, added) = settle-IsAdded (end p) new rest r o (ground arith) d' (s apart) in
          rw (clear, c, apart) (behind-IsAdded low p new rest _ q l added)
    ]

-- Behind an area that begins below the new one.
placed_behind-IsAdded :
    (low : ℕ) (p new : Area) (live : List Area)
    → IsProper p
    → IsProper new
    → IsOrdered (end p) live
    → low ≤ p.start
    → p.start < new.start
    → is_apart new (p ∷ live) ≡ true
    → stands_alone_behind p new live ≡ false
    → IsAdded low new (p ∷ live) (placed_behind p new live)
placed_behind-IsAdded low p new [] q r o l b d s =
    place_behind-IsAdded low p new [] q r tt l b d (λ _. refl)
placed_behind-IsAdded low p new (a ∷ rest) q r o l b d s =
    elim (Bool-cases (ltb a.start new.start)) [
      | inl passed ↦ rw passed (
          behind-IsAdded low p new (a ∷ rest) _ q l (
            placed_behind-IsAdded (end p) a new rest o.1 r o.2 o.0 (ltb→lt a.start new.start passed)
              (ground arith) (rw passed at s)))
      | inr found ↦ rw found (
          place_behind-IsAdded low p new (a ∷ rest) q r (ltb→le a.start new.start found, o.1, o.2) l
            b d (λ e. ground arith))
    ]

pub placed-IsAdded :
    (new : Area) (live : List Area)
    → IsProper new
    → IsOrdered 0 live
    → is_apart new live ≡ true
    → stands_alone new live ≡ false
    → IsAdded 0 new live (placed new live)
placed-IsAdded new [] r o d s = (settle-IsAdded 0 new [] r tt (omega arith) refl refl).1
placed-IsAdded new (a ∷ rest) r o d s = elim (Bool-cases (ltb a.start new.start)) [
  | inl passed ↦ rw passed (
      placed_behind-IsAdded 0 a new rest o.1 r o.2 o.0 (ltb→lt a.start new.start passed) d
        (rw passed at s))
  | inr found ↦
      let (c, added) =
        settle-IsAdded 0 new (a ∷ rest) r (ltb→le a.start new.start found, o.1, o.2) (omega arith) d
          s in
      rw (found, c) added
]

-- On a table of fewer than ten areas in order, `insert_area` for at least one byte ending below 2
-- ^ 64 that shares no address with an area, and that has no successor, or ends where the successor
-- begins, or begins where the predecessor ends, returns 0. The areas after it are in order, and
-- free exactly what was free before and the new area.
pub insert_area_adds :
    (start size : ℕ) (live : List Area)
    → 0 < size
    → start + size < 2 ^ 64
    → IsOrdered 0 live
    → length live < 10
    → is_apart (area start size) live ≡ true
    → stands_alone (area start size) live ≡ false
    → (after : List Area) × (insert_area start size (table_of live) ≡ ok (pos 0, table_of after))
      × IsOrdered 0 after
      × ((x : ℕ) → covers after x ≡ (covers live x || inside start size x))
insert_area_adds start size live p b o h d s =
    let new : Area = area start size in
    let added = placed-IsAdded new live (record { positive = p; below = b }) o d s in
    (
      (placed new live).1,
      rw added.code at (insert_area_refines start size live p b o h),
      added.ordered,
      added.free_after,
    )
