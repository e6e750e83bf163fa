-- ===== src/Placement/Insert/Correct/Refused.antt =====
-- A call of `insert_area` that fails leaves the table as it is.
use grub_os_iso_image.Common.{
  ℕ, ◌+◌, ◌^◌, ◌≤◌, ◌<◌, ◌≡◌, refl, ap, ◌⊎◌, inl, inr, true, false, List, [], ◌∷◌, arith, ltb, ◌==◌,
  ==_iff, Bool-cases, length, Run, ok, ℤ, pos, minus,
}
use grub_os_iso_image.Placement.Area.{Area, area, IsProper}
use grub_os_iso_image.Placement.Table.{Table, table_of, IsOrdered}
use grub_os_iso_image.Placement.Insert.{insert_area}
use grub_os_iso_image.Placement.Insert.Placing.{
  end, collides, touches, behind, place, place_behind, placed_behind, placed, Placed,
}
use grub_os_iso_image.Placement.Insert.Refine.{insert_area_refines}
use grub_os_iso_image.Placement.Insert.Correct.{is_apart}

-- The ways in which an insertion into the areas `live` fails.
data IsRefused (new : Area) (live : List Area) (r : Placed) : Type 0 where
  added : r.0 ≡ pos 0 → IsRefused new live r
  refused :
      (r.0 ≡ minus 3) ⊎ (r.0 ≡ minus 4)
      → r.1 ≡ live
      → is_apart new live ≡ false
      → IsRefused new live r

not_apart_of_collides :
    (new : Area) (rest : List Area) (low : ℕ)
    → IsProper new
    → IsOrdered low rest
    → collides new rest ≡ true
    → is_apart new rest ≡ false
not_apart_of_collides new [] low r o c = cc
not_apart_of_collides new (a ∷ rest) low r o c = ground arith

place-IsRefused :
    (new : Area) (rest : List Area)
    → IsProper new
    → IsOrdered 0 rest
    → IsRefused new rest (place new rest)
place-IsRefused new [] q o = added refl
place-IsRefused new (a ∷ rest) q o = elim (Bool-cases (touches a new)) [
  | inl hit ↦ rw hit (refused (inr refl) refl (ground arith))
  | inr miss ↦ rw miss (added refl)
]

place_behind-IsRefused :
    (p new : Area) (rest : List Area) (low : ℕ)
    → IsProper new
    → IsProper p
    → IsOrdered low rest
    → IsRefused new (p ∷ rest) (place_behind p new rest)
place_behind-IsRefused p new rest low r q o = elim (Bool-cases (touches p new)) [
  | inl hit ↦ rw hit (refused (inl refl) refl (ground arith))
  | inr miss ↦ elim (Bool-cases (collides new rest)) [
    | inl hit ↦
        rw (miss, hit)
          (refused (inr refl) refl (ground (arith, not_apart_of_collides new rest low r o hit)))
    | inr miss' ↦ elim (Bool-cases (end p == new.start)) [
      | inl e ↦ rw (miss, miss', e) (added refl)
      | inr e ↦ rw (miss, miss', e) (added refl)
    ]
  ]
]

placed_behind-IsRefused :
    (p new : Area) (live : List Area) (low : ℕ)
    → IsProper new
    → IsProper p
    → IsOrdered low live
    → IsRefused new (p ∷ live) (placed_behind p new live)
placed_behind-IsRefused p new [] low r q o = place_behind-IsRefused p new [] low r q o
placed_behind-IsRefused p new (a ∷ rest) low r q o = elim (Bool-cases (ltb a.start new.start)) [
  | inl passed ↦ rw passed (skip (placed_behind-IsRefused a new rest (end a) r o.1 o.2))
  | inr found ↦ rw found (place_behind-IsRefused p new (a ∷ rest) low r q o)
]
  where
    skip : {s : Placed} → IsRefused new (a ∷ rest) s → IsRefused new (p ∷ a ∷ rest) (behind p s)
    skip (added e) = added e
    skip (refused c e d) = refused c (ap (λ l. p ∷ l) e) (ground arith)

placed-IsRefused :
    (new : Area) (live : List Area)
    → IsProper new
    → IsOrdered 0 live
    → IsRefused new live (placed new live)
placed-IsRefused new [] r o = added refl
placed-IsRefused new (a ∷ rest) r o = elim (Bool-cases (ltb a.start new.start)) [
  | inl passed ↦ rw passed (placed_behind-IsRefused a new rest (end a) r o.1 o.2)
  | inr found ↦ rw found (place-IsRefused new (a ∷ rest) r o)
]

-- Why a call fails, and that it changes nothing.
pub record Failure (start size : ℕ) (live : List Area) (c : ℤ) (t : Table) : Type 0 where
  pub unchanged : t ≡ table_of live
  pub reason :
      (c ≡ minus 1) × (length live ≡ 10)
      ⊎ (c ≡ minus 2) × (size ≡ 0)
      ⊎ ((c ≡ minus 3) ⊎ (c ≡ minus 4)) × (is_apart (area start size) live ≡ false)

-- What is known of a call whose run is `r`.
abbrev pub FailsOnlyFor : ℕ → ℕ → List Area → Run (ℤ × Table) → Type 0
FailsOnlyFor start size live r =
    (c : ℤ) × (t : Table) × (r ≡ ok (c, t)) × ((c ≡ pos 0) ⊎ Failure start size live c t)

failure_of_refused :
    (start size : ℕ) (live : List Area) (r : Placed)
    → insert_area start size (table_of live) ≡ ok (r.0, table_of r.1)
    → IsRefused (area start size) live r
    → FailsOnlyFor start size live (insert_area start size (table_of live))
failure_of_refused start size live r e (added c) = (r.0, table_of r.1, e, inl c)
failure_of_refused start size live r e (refused c same d) =
    (r.0, table_of r.1, e, inr (record { unchanged = ap table_of same; reason = inr (inr (c, d)) }))

-- On a table of at most ten areas in order and for an area that ends below 2 ^ 64, `insert_area`
-- returns a result. If the result is not 0, the table is unchanged, and the result is -1 with the
-- table full, or -2 with an empty area, or -3 or -4 with an area that shares an address with the
-- new one.
pub insert_area_fails :
    (start size : ℕ) (live : List Area)
    → start + size < 2 ^ 64
    → IsOrdered 0 live
    → length live ≤ 10
    → FailsOnlyFor start size live (insert_area start size (table_of live))
insert_area_fails start size live b o h = elim (Bool-cases (length live == 10)) [
  | inl full ↦ (
    minus 1,
    table_of live,
    unfold insert_area table_of in rw full,
    inr (record { unchanged = refl; reason = inl (refl, (==_iff _ _).0 full) }),
  )
  | inr room ↦ elim (Bool-cases (size == 0)) [
    | inl none_wanted ↦ (
      minus 2,
      table_of live,
      unfold insert_area table_of in rw (room, none_wanted),
      inr (record { unchanged = refl; reason = inr (inl (refl, (==_iff _ _).0 none_wanted)) }),
    )
    | inr wanted ↦
        let p : 0 < size = ground arith in
        let unused : length live < 10 = ground arith in
        failure_of_refused start size live _ (insert_area_refines start size live p b o unused)
          (placed-IsRefused (area start size) live (record { positive = p; below = b }) o)
  ]
]
