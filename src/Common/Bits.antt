-- ===== src/Common/Bits.antt =====
-- Binary digits: `bit_and` and `bit_or` at variables.
pub mod Masks
use Prim.Native.Nat.{
  ℕ, zero, suc, ◌+◌, ◌-◌, ◌*◌, ◌/◌, ◌%◌, ◌^◌, ◌≤◌, ◌<◌, min, max, differ, bit_and, bit_or, bit_xor,
  digits, bit_and-bitwise, bit_or-bitwise, bit_xor-bitwise,
}
use native.Mathlib.Nat.{div-div-eq-div-mul}
use mathlib.Core.Path.{◌≡◌, refl, sym, ◌∙◌, ap}
use mathlib.Core.Logic.{◌≢◌, ◌⊎◌, inl, inr}
use mathlib.Core.Bool.{true, false}
use native.Mathlib.Omega.{arith}
use grub_os_iso_image.Common.Tests.{◌==◌, if◌then◌else◌, Bool-cases, ==_iff}

-- The digit of `x` with the weight 2 ^ k.
abbrev pub bit_at : ℕ → ℕ → ℕ
bit_at x zero = x % 2
bit_at x (suc k) = bit_at (x / 2) k

-- Both operations recurse on a bound for their first argument; any bound will do.
module _ (at_end : ℕ → ℕ) (join : ℕ → ℕ → ℕ) where
  bound_free : (n m x y : ℕ) → x ≤ n → x ≤ m → digits at_end join n x y ≡ digits at_end join m x y
  bound_free n m zero y p q = no_digits n ∙ sym (no_digits m)
    where
      no_digits : (k : ℕ) → digits at_end join k 0 y ≡ at_end y
      no_digits zero = refl
      no_digits (suc k) = refl
  bound_free zero m (suc x) y p q = absurd (omega arith)
  bound_free (suc n) zero (suc x) y p q = absurd (omega arith)
  bound_free (suc n) (suc m) (suc x) y p q =
      let tail = bound_free n m (suc x / 2) (y / 2) (omega arith) (omega arith) in rw tail

  pub digits_tail :
      (x y : ℕ)
      → digits at_end join (suc x) (suc x) y
        ≡ digits at_end join (suc x / 2) (suc x / 2) (y / 2) * 2 + join (suc x % 2) (y % 2)
  digits_tail x y =
      let tail = bound_free x (suc x / 2) (suc x / 2) (y / 2) (omega arith) (omega arith) in rw tail

pub bit_and_halves : (x y : ℕ) → bit_and x y ≡ bit_and (x / 2) (y / 2) * 2 + min (x % 2) (y % 2)
bit_and_halves zero y = omega (arith, bit_and-bitwise 0 y, bit_and-bitwise 0 (y / 2))
bit_and_halves (suc x) y = omega (
  arith,
  bit_and-bitwise (suc x) y,
  bit_and-bitwise (suc x / 2) (y / 2),
  digits_tail (λ _. 0) min x y,
)

pub bit_or_halves : (x y : ℕ) → bit_or x y ≡ bit_or (x / 2) (y / 2) * 2 + max (x % 2) (y % 2)
bit_or_halves zero y = omega (arith, bit_or-bitwise 0 y, bit_or-bitwise 0 (y / 2))
bit_or_halves (suc x) y = omega (
  arith,
  bit_or-bitwise (suc x) y,
  bit_or-bitwise (suc x / 2) (y / 2),
  digits_tail (λ b. b) max x y,
)

pub bit_xor_halves : (x y : ℕ) → bit_xor x y ≡ bit_xor (x / 2) (y / 2) * 2 + differ (x % 2) (y % 2)
bit_xor_halves zero y =
    let last : differ 0 (y % 2) ≡ y % 2 = refl in
    rw last (omega (arith, bit_xor-bitwise 0 y, bit_xor-bitwise 0 (y / 2)))
bit_xor_halves (suc x) y = omega (
  arith,
  bit_xor-bitwise (suc x) y,
  bit_xor-bitwise (suc x / 2) (y / 2),
  digits_tail (λ b. b) differ x y,
)

pub bit_at-bit_and : (k a b : ℕ) → bit_at (bit_and a b) k ≡ min (bit_at a k) (bit_at b k)
bit_at-bit_and zero a b = omega (arith, bit_and_halves a b)
bit_at-bit_and (suc k) a b =
    let half : bit_and a b / 2 ≡ bit_and (a / 2) (b / 2) = omega (arith, bit_and_halves a b) in
    rw half (bit_at-bit_and k (a / 2) (b / 2))

pub bit_at-bit_or : (k a b : ℕ) → bit_at (bit_or a b) k ≡ max (bit_at a k) (bit_at b k)
bit_at-bit_or zero a b = omega (arith, bit_or_halves a b)
bit_at-bit_or (suc k) a b =
    let half : bit_or a b / 2 ≡ bit_or (a / 2) (b / 2) = omega (arith, bit_or_halves a b) in
    rw half (bit_at-bit_or k (a / 2) (b / 2))

pub bit_at_le : (x k : ℕ) → bit_at x k ≤ 1
bit_at_le x zero = omega arith
bit_at_le x (suc k) = bit_at_le (x / 2) k

pub bit_at-zero : (k : ℕ) → bit_at 0 k ≡ 0
bit_at-zero zero = refl
bit_at-zero (suc k) = bit_at-zero k

pub bit_at-pow_self : (k : ℕ) → bit_at (2 ^ k) k ≡ 1
bit_at-pow_self zero = refl
bit_at-pow_self (suc k) =
    let half : 2 ^ suc k / 2 ≡ 2 ^ k = omega arith in rw half (bit_at-pow_self k)

pub bit_at-pow_ne : (k j : ℕ) → k ≢ j → bit_at (2 ^ k) j ≡ 0
bit_at-pow_ne zero zero h = absurd (h refl)
bit_at-pow_ne zero (suc j) h = bit_at-zero j
bit_at-pow_ne (suc k) zero h = omega arith
bit_at-pow_ne (suc k) (suc j) h =
    let half : 2 ^ suc k / 2 ≡ 2 ^ k = omega arith in
    rw half (bit_at-pow_ne k j (λ e. h (ap suc e)))

-- `~ x` on `n` bits.
pub bit_at-complement : (n x j : ℕ) → x < 2 ^ n → j < n → bit_at (2 ^ n - 1 - x) j ≡ 1 - bit_at x j
bit_at-complement zero x j b h = absurd (omega arith)
bit_at-complement (suc n) x zero b h = omega arith
bit_at-complement (suc n) x (suc j) b h =
    let half : (2 ^ suc n - 1 - x) / 2 ≡ 2 ^ n - 1 - x / 2 = omega arith in
    rw half (bit_at-complement n (x / 2) j (omega arith) (omega arith))

pub bit_and-zero : (x : ℕ) → bit_and x 0 ≡ 0
bit_and-zero x = up_to x x (omega arith)
  where
    up_to : (n x : ℕ) → x ≤ n → bit_and x 0 ≡ 0
    up_to n zero h = bit_and-bitwise 0 0
    up_to zero (suc x) h = absurd (omega arith)
    up_to (suc n) (suc x) h =
        omega (arith, bit_and_halves (suc x) 0, up_to n (suc x / 2) (omega arith))

-- A test of one bit.
pub bit_and-pow : (k x : ℕ) → bit_and x (2 ^ k) ≡ bit_at x k * 2 ^ k
bit_and-pow zero x = omega (arith, bit_and_halves x 1, bit_and-zero (x / 2))
bit_and-pow (suc k) x =
    let half : 2 ^ suc k / 2 ≡ 2 ^ k = omega arith in
    let step = rw half at (bit_and_halves x (2 ^ suc k)) in
    grind (arith, step, bit_and-pow k (x / 2))

differ_lt : (x y : ℕ) → x ≤ 1 → y ≤ 1 → differ x y ≤ 1
differ_lt zero y p q = q
differ_lt (suc zero) zero p q = omega arith
differ_lt (suc zero) (suc zero) p q = omega arith
differ_lt (suc zero) (suc (suc y)) p q = absurd (omega arith)
differ_lt (suc (suc x)) y p q = absurd (omega arith)

pub bit_at-bit_xor : (k a b : ℕ) → bit_at (bit_xor a b) k ≡ differ (bit_at a k) (bit_at b k)
bit_at-bit_xor zero a b =
    omega (arith, bit_xor_halves a b, differ_lt (a % 2) (b % 2) (omega arith) (omega arith))
bit_at-bit_xor (suc k) a b =
    let half : bit_xor a b / 2 ≡ bit_xor (a / 2) (b / 2) =
      omega (arith, bit_xor_halves a b, differ_lt (a % 2) (b % 2) (omega arith) (omega arith)) in
    rw half (bit_at-bit_xor k (a / 2) (b / 2))

-- Changing one digit.
pub bit_at-flip :
    (k j x : ℕ) → bit_at (bit_xor x (2 ^ k)) j ≡ (if j == k then 1 - bit_at x j else bit_at x j)
bit_at-flip k j x = elim (same_or_not j k) [
  | inl e ↦
      let yes : (j == k) ≡ true = ground arith in
      rw (bit_at-bit_xor j x (2 ^ k), yes, e, bit_at-pow_self k)
        (with_one (bit_at x k) (bit_at_le x k))
  | inr n ↦
      let no : (j == k) ≡ false = ground arith in
      rw (bit_at-bit_xor j x (2 ^ k), no, bit_at-pow_ne k j (λ e. n (sym e)))
        (with_zero (bit_at x j))
]
  where
    same_or_not : (a b : ℕ) → (a ≡ b) ⊎ (a ≢ b)
    same_or_not a b = elim (Bool-cases (a == b)) [
      | inl e ↦ inl ((==_iff a b).0 e)
      | inr e ↦ inr (λ q. ground arith)
    ]

    with_one : (x : ℕ) → x ≤ 1 → differ x 1 ≡ 1 - x
    with_one zero h = refl
    with_one (suc zero) h = refl
    with_one (suc (suc x)) h = absurd (omega arith)

    with_zero : (x : ℕ) → differ x 0 ≡ x
    with_zero zero = refl
    with_zero (suc x) = refl

pub bit_at-div : (k x : ℕ) → bit_at x k ≡ x / 2 ^ k % 2
bit_at-div zero x = let one : x / 1 ≡ x = omega arith in rw one
bit_at-div (suc k) x =
    let power : 2 ^ suc k ≡ 2 * 2 ^ k = omega arith in
    rw (power, sym (div-div-eq-div-mul x 2 (2 ^ k))) (bit_at-div k (x / 2))

pub power_lt : (k n : ℕ) → k < n → 2 ^ k < 2 ^ n
power_lt k zero h = absurd (omega arith)
power_lt zero (suc n) h = omega (arith, power_positive n)
  where
    power_positive : (n : ℕ) → 0 < 2 ^ n
    power_positive zero = omega arith
    power_positive (suc n) = omega (arith, power_positive n)
power_lt (suc k) (suc n) h = omega (arith, power_lt k n (omega arith))
