-- ===== src/Common/Bits/Masks.antt =====
-- Masks of neighbouring digits.
use Prim.Native.Nat.{
  ℕ, zero, suc, ◌+◌, ◌-◌, ◌*◌, ◌/◌, ◌%◌, ◌^◌, ◌≤◌, ◌<◌, bit_and, bit_or, bit_or-bitwise,
}
use mathlib.Core.Path.{◌≡◌, refl, ◌∙◌}
use mathlib.Core.Logic.{◌⊎◌, inl, inr}
use native.Mathlib.Omega.{arith}
use native.Mathlib.Nat.{div-add-mod', mod-lt, mul_left_comm, div-div-eq-div-mul}
use grub_os_iso_image.Common.Bits.{bit_and_halves, bit_or_halves, bit_and-zero}

power_positive : (k : ℕ) → 0 < 2 ^ k
power_positive zero = omega arith
power_positive (suc k) = omega (arith, power_positive k)

doubled : (k h : ℕ) → h * 2 ^ suc k ≡ 2 * (h * 2 ^ k)
doubled k h =
    let power : 2 ^ suc k ≡ 2 * 2 ^ k = omega arith in rw power (mul_left_comm h 2 (2 ^ k))

low_digits : (k h l : ℕ) → l < 2 ^ k → bit_and (h * 2 ^ k + l) (2 ^ k - 1) ≡ l
low_digits zero h l p = omega (arith, bit_and-zero (h * 1 + l))
low_digits (suc k) h l p =
    let x = h * 2 ^ suc k + l in
    let twice = doubled k h in
    let half : x / 2 ≡ h * 2 ^ k + l / 2 = omega (arith, twice) in
    let mask : (2 ^ suc k - 1) / 2 ≡ 2 ^ k - 1 = omega arith in
    let odd : (2 ^ suc k - 1) % 2 ≡ 1 = omega (arith, power_positive k) in
    let last : x % 2 ≡ l % 2 = omega (arith, twice) in
    let step = rw (half, mask, odd, last) at (bit_and_halves x (2 ^ suc k - 1)) in
    omega (arith, step, low_digits k h (l / 2) (omega arith))

-- `x & (2 ^ k - 1)`
pub bit_and-mask : (k x : ℕ) → bit_and x (2 ^ k - 1) ≡ x % 2 ^ k
bit_and-mask k x =
    rw (div-add-mod' x (2 ^ k)) at
      (low_digits k (x / 2 ^ k) (x % 2 ^ k) (mod-lt x (power_positive k)))

zero-bit_or : (x : ℕ) → bit_or 0 x ≡ x
zero-bit_or x = bit_or-bitwise 0 x

-- Numbers without a common digit are added.
pub bit_or-disjoint : (k l h : ℕ) → l < 2 ^ k → bit_or l (h * 2 ^ k) ≡ l + h * 2 ^ k
bit_or-disjoint zero l h p =
    let none : l ≡ 0 = omega arith in rw none (zero-bit_or (h * 1) ∙ omega arith)
bit_or-disjoint (suc k) l h p =
    let twice = doubled k h in
    let half : h * 2 ^ suc k / 2 ≡ h * 2 ^ k = omega (arith, twice) in
    let even : h * 2 ^ suc k % 2 ≡ 0 = omega (arith, twice) in
    let step = rw (half, even) at (bit_or_halves l (h * 2 ^ suc k)) in
    omega (arith, step, twice, bit_or-disjoint k (l / 2) h (omega arith))

-- A mask of digits from the `k`-th on.
pub bit_and-high : (k x m : ℕ) → bit_and x (m * 2 ^ k) ≡ bit_and (x / 2 ^ k) m * 2 ^ k
bit_and-high zero x m =
    let one : x / 1 ≡ x = omega arith in
    let one' : m * 1 ≡ m = omega arith in rw (one, one') (omega arith)
bit_and-high (suc k) x m =
    let twice = doubled k m in
    let half : m * 2 ^ suc k / 2 ≡ m * 2 ^ k = omega (arith, twice) in
    let even : m * 2 ^ suc k % 2 ≡ 0 = omega (arith, twice) in
    let step = rw (half, even, bit_and-high k (x / 2) m) at (bit_and_halves x (m * 2 ^ suc k)) in
    let power : 2 ^ suc k ≡ 2 * 2 ^ k = omega arith in
    let deeper : x / 2 / 2 ^ k ≡ x / 2 ^ suc k = rw power (div-div-eq-div-mul x 2 (2 ^ k)) in
    let step' = rw deeper at step in step' ∙ omega (arith, doubled k (bit_and (x / 2 ^ suc k) m))

pub bit_or_comm : (x y : ℕ) → bit_or x y ≡ bit_or y x
bit_or_comm x y = up_to (x + y) x y (omega arith)
  where
    up_to : (n x y : ℕ) → x + y ≤ n → bit_or x y ≡ bit_or y x
    up_to zero x y h =
        let none : x ≡ 0 = omega arith in let none' : y ≡ 0 = omega arith in rw (none, none')
    up_to (suc n) x y h = elim (stop x y) [
      | inl e ↦ rw (e.0, e.1)
      | inr more ↦
          omega (arith, bit_or_halves x y, bit_or_halves y x, up_to n (x / 2) (y / 2) (omega arith))
    ]
      where
        stop : (x y : ℕ) → ((x ≡ 0) × (y ≡ 0)) ⊎ (0 < x + y)
        stop zero zero = inl (refl, refl)
        stop zero (suc y) = inr (omega arith)
        stop (suc x) y = inr (omega arith)
