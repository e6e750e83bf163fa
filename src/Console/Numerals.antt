-- ===== src/Console/Numerals.antt =====
-- Reading a number: the texts that `k_itoa` is to write, digit by digit.
use grub_os_iso_image.Common.{
  ℕ, zero, suc, ◌/◌, ◌%◌, ◌^◌, ◌≤◌, ◌<◌, ◌≡◌, refl, sym, ap, ◌∙◌, ◌≢◌, inl, inr, Bool, true, false,
  not, ◌&&◌, ◌||◌, Option, none, some, List, [], ◌∷◌, ◌++◌, arith, ltb, leb, ◌==◌, if◌then◌else◌,
  ==_iff, Bool-cases, length, ℤ, pos, negsuc, int32, length-snoc,
}
use native.Mathlib.Nat.{zero-div, div-lt_iff_lt-mul, div-add-mod', mod-lt, pow-suc, pow-zero}
use grub_os_iso_image.Console.Digits.{
  digit_char, digit_of, low_digits, number_of, reversed, number_of-low_digits,
}

-- The divisor for the conversion character: 16 for 'x', else 10.
abbrev pub divisor_of : ℕ → ℕ
divisor_of base = if base == 120 then 16 else 10

-- '0' to '9' and 'a' to 'f', as far as they are below the divisor.
abbrev pub is_digit : ℕ → ℕ → Bool
is_digit divisor c = ((leb 48 c && leb c 57) || (leb 97 c && leb c 102)) && ltb (digit_of c) divisor

abbrev pub are_digits : ℕ → List ℕ → Bool
are_digits divisor [] = true
are_digits divisor (c ∷ cs) = is_digit divisor c && are_digits divisor cs

abbrev pub has_leading_zero : List ℕ → Bool
has_leading_zero [] = false
has_leading_zero (c ∷ []) = false
has_leading_zero (c ∷ d ∷ cs) = c == 48

-- At least one digit, without leading zeros.
abbrev pub read_unsigned : ℕ → List ℕ → Option ℕ
read_unsigned divisor [] = none
read_unsigned divisor (c ∷ cs) =
    if are_digits divisor (c ∷ cs) && not (has_leading_zero (c ∷ cs))
    then some (number_of divisor 0 (c ∷ cs))
    else none

abbrev pub read_positive : Option ℕ → Option ℤ
read_positive none = none
read_positive (some n) = some (pos n)

abbrev pub read_negative : Option ℕ → Option ℤ
read_negative none = none
read_negative (some zero) = none
read_negative (some (suc n)) = some (negsuc n)

-- An optional minus sign, and digits.
pub read_back : ℕ → List ℕ → Option ℤ
read_back base [] = none
read_back base (c ∷ cs) =
    if c == 45
    then read_negative (read_unsigned (divisor_of base) cs)
    else read_positive (read_unsigned (divisor_of base) (c ∷ cs))

-- What the 32 bits of an argument stand for: for 'd' an `int`, else an unsigned number.
abbrev pub value_of : ℕ → ℕ → ℤ
value_of base d = if base == 100 then int32 d else pos d

are_digits-snoc :
    (divisor : ℕ) (xs : List ℕ) (c : ℕ)
    → are_digits divisor xs ≡ true
    → is_digit divisor c ≡ true
    → are_digits divisor (xs ++ (c ∷ [])) ≡ true
are_digits-snoc divisor [] c h e = rw e refl
are_digits-snoc divisor (x ∷ xs) c h e = elim (Bool-cases (is_digit divisor x)) [
  | inl one ↦ rw one (are_digits-snoc divisor xs c (rw one at h) e)
  | inr other ↦ (let wrong : false ≡ true = rw other at h in cc)
]

is_digit-digit_char :
    (divisor r : ℕ) → divisor ≤ 16 → r < divisor → is_digit divisor (digit_char r) ≡ true
is_digit-digit_char divisor r h l = ground arith

are_digits-reversed :
    (n divisor ud : ℕ)
    → 0 < divisor
    → divisor ≤ 16
    → are_digits divisor (reversed (low_digits n divisor ud)) ≡ true
unfolding low_digits reversed
are_digits-reversed zero divisor ud p h = refl
are_digits-reversed (suc n) divisor ud p h =
    let here = is_digit-digit_char divisor (ud % divisor) h (mod-lt ud p) in
    let rest = are_digits-reversed n divisor (ud / divisor) p h in
    elim (Bool-cases (ud / divisor == 0)) [
      | inl e ↦ rw (e, here) refl
      | inr e ↦ rw e (
          are_digits-snoc divisor (reversed (low_digits n divisor (ud / divisor)))
            (digit_char (ud % divisor)) rest here)
    ]

-- The first digit is there and is not '0'.
abbrev Leads : List ℕ → Type 0
Leads [] = 1 ≤ 0
Leads (c ∷ cs) = c ≢ 48

Leads-append : (xs ys : List ℕ) → Leads xs → Leads (xs ++ ys)
Leads-append [] ys h = absurd (omega (arith, h))
Leads-append (x ∷ xs) ys h = h

has_leading_zero-Leads : (xs : List ℕ) → Leads xs → has_leading_zero xs ≡ false
has_leading_zero-Leads [] h = refl
has_leading_zero-Leads (c ∷ []) h = refl
has_leading_zero-Leads (c ∷ d ∷ cs) h = ground (arith, h)

quotient_small : (d k ud : ℕ) → 0 < d → ud < d ^ suc k → ud / d < d ^ k
quotient_small d k ud p h = (div-lt_iff_lt-mul p).1 (rw (pow-suc d k) at h)

digit_char-Leads : (r : ℕ) → r ≢ 0 → digit_char r ≢ 48
digit_char-Leads r h e = ground (arith, h, e)

reversed-Leads :
    (n divisor ud : ℕ)
    → 0 < divisor
    → ud < divisor ^ n
    → ud ≢ 0
    → Leads (reversed (low_digits n divisor ud))
unfolding low_digits reversed
reversed-Leads zero divisor ud p l h =
    let one = pow-zero divisor in absurd (h (omega (arith, one, l)))
reversed-Leads (suc n) divisor ud p l h = elim (Bool-cases (ud / divisor == 0)) [
  | inl e ↦
      let whole : ud % divisor ≡ ud =
        omega (arith, (rw ((==_iff (ud / divisor) 0).0 e) at (div-add-mod' ud divisor))) in
      rw e (digit_char-Leads (ud % divisor) (λ q. h (sym whole ∙ q)))
  | inr e ↦ rw e (
      Leads-append (reversed (low_digits n divisor (ud / divisor))) (digit_char (ud % divisor) ∷ [])
        (reversed-Leads n divisor (ud / divisor) p (quotient_small divisor n ud p l)
          (λ q. ground (arith, q))))
]

-- The digits of `ud`, in order.
unfoldable pub text_of : ℕ → ℕ → List ℕ
text_of divisor ud = reversed (low_digits 33 divisor ud)

-- What is needed of the divisor that a conversion character gives.
pub record IsDivisor (divisor ud : ℕ) : Type 0 where
  pub positive : 0 < divisor
  pub at_most_16 : divisor ≤ 16
  pub fits : ud < divisor ^ 33

pub divisor_of-IsDivisor : (base ud : ℕ) → ud < 2 ^ 32 → IsDivisor (divisor_of base) ud
divisor_of-IsDivisor base ud h = elim (Bool-cases (base == 120)) [
  | inl e ↦ rw e (record { positive = omega arith; at_most_16 = omega arith; fits = omega arith })
  | inr e ↦ rw e (record { positive = omega arith; at_most_16 = omega arith; fits = omega arith })
]

read_unsigned-number_of :
    (divisor : ℕ) (text : List ℕ)
    → 0 < length text
    → are_digits divisor text ≡ true
    → has_leading_zero text ≡ false
    → read_unsigned divisor text ≡ some (number_of divisor 0 text)
read_unsigned-number_of divisor [] l h g = absurd (omega (arith, l))
read_unsigned-number_of divisor (c ∷ cs) l h g = rw (h, g) refl

no_leading_zero :
    (divisor ud : ℕ) → IsDivisor divisor ud → has_leading_zero (text_of divisor ud) ≡ false
unfolding text_of low_digits reversed
no_leading_zero divisor zero d =
    let none_left : (0 / divisor == 0) ≡ true = (==_iff (0 / divisor) 0).1 (zero-div divisor) in
    rw none_left refl
no_leading_zero divisor (suc n) d =
    has_leading_zero-Leads (reversed (low_digits 33 divisor (suc n)))
      (reversed-Leads 33 divisor (suc n) d.positive d.fits (λ e. omega (arith, e)))

some_digit : (n divisor ud : ℕ) → 0 < length (reversed (low_digits (suc n) divisor ud))
unfolding low_digits reversed
some_digit n divisor ud =
    let digits = low_digits n divisor (ud / divisor) in
    let c = digit_char (ud % divisor) in
    omega (arith, length-snoc (reversed (if ud / divisor == 0 then [] else digits)) c)

pub read_unsigned-text_of :
    (divisor ud : ℕ) → IsDivisor divisor ud → read_unsigned divisor (text_of divisor ud) ≡ some ud
unfolding text_of
read_unsigned-text_of divisor ud d =
    read_unsigned-number_of divisor (text_of divisor ud) (some_digit 32 divisor ud)
      (are_digits-reversed 33 divisor ud d.positive d.at_most_16) (no_leading_zero divisor ud d)
    ∙ ap some (number_of-low_digits 32 divisor ud d.positive d.at_most_16 d.fits)

-- The characters in front of the end of a string.
abbrev pub IsString : List ℕ → Type 0
IsString [] = Unit
IsString (c ∷ cs) = (c ≢ 0) × IsString cs

are_digits-IsString : (divisor : ℕ) (text : List ℕ) → are_digits divisor text ≡ true → IsString text
are_digits-IsString divisor [] h = tt
are_digits-IsString divisor (c ∷ cs) h = elim (Bool-cases (is_digit divisor c)) [
  | inl one ↦ ((λ e. ground (arith, one, e)), are_digits-IsString divisor cs (rw one at h))
  | inr other ↦ (let wrong : false ≡ true = rw other at h in absurd (ground (arith, wrong)))
]

pub text_of-IsString : (divisor ud : ℕ) → IsDivisor divisor ud → IsString (text_of divisor ud)
unfolding text_of
text_of-IsString divisor ud d =
    are_digits-IsString divisor (text_of divisor ud)
      (are_digits-reversed 33 divisor ud d.positive d.at_most_16)

-- A text that reads as a number has no sign.
no_sign :
    (divisor : ℕ) (c : ℕ) (cs : List ℕ) → are_digits divisor (c ∷ cs) ≡ true → (c == 45) ≡ false
no_sign divisor c cs h = elim (Bool-cases (is_digit divisor c)) [
  | inl one ↦ ground (arith, one)
  | inr other ↦ (let wrong : false ≡ true = rw other at h in cc)
]

pub read_back-text_of :
    (base ud : ℕ) → ud < 2 ^ 32 → read_back base (text_of (divisor_of base) ud) ≡ some (pos ud)
unfolding text_of read_back
read_back-text_of base ud h =
    let d = divisor_of-IsDivisor base ud h in
    unsigned base (text_of (divisor_of base) ud) ud
      (are_digits-reversed 33 (divisor_of base) ud d.positive d.at_most_16)
      (read_unsigned-text_of (divisor_of base) ud d)
  where
    unsigned :
        (base : ℕ) (text : List ℕ) (ud : ℕ)
        → are_digits (divisor_of base) text ≡ true
        → read_unsigned (divisor_of base) text ≡ some ud
        → read_back base text ≡ some (pos ud)
    unsigned base [] ud h e = cc
    unsigned base (c ∷ cs) ud h e = rw (no_sign (divisor_of base) c cs h) (ap read_positive e)

pub read_back-minus :
    (base ud n : ℕ)
    → ud < 2 ^ 32
    → ud ≡ suc n
    → read_back base (45 ∷ text_of (divisor_of base) ud) ≡ some (negsuc n)
unfolding read_back
read_back-minus base ud n h e =
    ap read_negative (read_unsigned-text_of (divisor_of base) ud (divisor_of-IsDivisor base ud h))
    ∙ ap (λ m. read_negative (some m)) e
