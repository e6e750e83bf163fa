-- ===== src/Placement/Area/Overlap.antt =====
-- What the tests on two areas say of their addresses.
use grub_os_iso_image.Common.{ℕ, ◌+◌, ◌-◌, ◌<◌, ◌≡◌, ◌↔◌, inl, inr, true, false, arith, Bool-cases}
use grub_os_iso_image.Placement.Area.{Area, inside, IsProper, overlapp, completely_contains}

-- The address `x` lies in the area.
abbrev pub In : Area → ℕ → Type 0
In a x = inside a.start a.size x ≡ true

-- For two proper areas that share an address, `overlapp` answers false exactly if the second
-- begins below the first and ends above it.
pub overlapp_misses :
    (a b : Area) (x : ℕ)
    → IsProper a
    → IsProper b
    → In a x
    → In b x
    → (overlapp a b ≡ false) ↔ ((b.start < a.start) × (a.start + a.size < b.start + b.size))
unfolding overlapp
overlapp_misses a b x p q i j = ground arith

-- If `overlapp` answers true for two proper areas, they share an address.
overlapp_sound :
    (a b : Area) → IsProper a → IsProper b → overlapp a b ≡ true → (x : ℕ) × In a x × In b x
overlapp_sound a b p q o = elim (Bool-cases (inside a.start a.size b.start)) [
  | inl i ↦ (b.start, i, ground arith)
  | inr i ↦ (b.start + b.size - 1, unfold overlapp in ground arith, unfold overlapp in ground arith)
]

-- For two proper areas, `completely_contains` answers true exactly if every address of the second
-- is one of the first.
completely_contains_iff :
    (a b : Area)
    → IsProper a
    → IsProper b
    → (completely_contains a b ≡ true) ↔ ((x : ℕ) → In b x → In a x)
unfolding completely_contains
completely_contains_iff a b p q =
    (λ c x i. ground arith, λ f. ground (arith, f b.start, f (b.start + b.size - 1)))
