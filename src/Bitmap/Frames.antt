-- ===== src/Bitmap/Frames.antt =====
-- The frames that a bitmap marks as used.
use grub_os_iso_image.Common.{
  ℕ, zero, suc, ◌-◌, ◌/◌, ◌%◌, ◌^◌, ◌<◌, ◌≡◌, sym, inl, inr, Bool, List, arith, ◌==◌, if◌then◌else◌,
  ==_iff, Bool-cases, get_or, bit_at, bit_at-bit_and, bit_at-bit_or, bit_at_le, bit_at-pow_self,
  bit_at-pow_ne, bit_at-complement,
}
use grub_os_iso_image.Bitmap.{set_bit}

-- The bit of the frame is 1. A frame behind the end of the bitmap is not used.
abbrev pub is_used : List ℕ → ℕ → Bool
is_used bitmap frame = bit_at (get_or bitmap (frame / 32) 0) (31 - frame % 32) == 1

bit_at-pow : (k j : ℕ) → bit_at (2 ^ k) j ≡ (if k == j then 1 else 0)
bit_at-pow k j = elim (Bool-cases (k == j)) [
  | inl e ↦ rw (e, sym ((==_iff k j).0 e)) (bit_at-pow_self k)
  | inr e ↦ rw e (bit_at-pow_ne k j (λ p. ground arith))
]

pow_lt : (k n : ℕ) → k < n → 2 ^ k < 2 ^ n
pow_lt k zero h = absurd (omega arith)
pow_lt zero (suc n) h = omega (arith, pow_positive n)
  where
    pow_positive : (n : ℕ) → 0 < 2 ^ n
    pow_positive zero = omega arith
    pow_positive (suc n) = omega (arith, pow_positive n)
pow_lt (suc k) (suc n) h = omega (arith, pow_lt k n (omega arith))

-- `set_bit` changes the bit that it names, and no other.
pub bit_at-set_bit :
    (word bit value j : ℕ)
    → bit < 32
    → j < 32
    → bit_at (set_bit word bit value) j
      ≡ (if bit == j then (if value == 0 then 0 else 1) else bit_at word j)
unfolding set_bit
bit_at-set_bit word bit value j h g = ground (
  arith,
  bit_at-bit_and j word (2 ^ 32 - 1 - 2 ^ bit),
  bit_at-bit_or j word (2 ^ bit),
  bit_at-complement 32 (2 ^ bit) j (pow_lt bit 32 h) g,
  bit_at-pow bit j,
  bit_at_le word j,
)
