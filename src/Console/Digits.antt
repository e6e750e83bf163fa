-- ===== src/Console/Digits.antt =====
-- The digits that `k_itoa` writes, and what they are worth.
use grub_os_iso_image.Common.{
  ℕ, zero, suc, ◌+◌, ◌-◌, ◌*◌, ◌/◌, ◌%◌, ◌^◌, ◌≤◌, ◌<◌, ◌≡◌, refl, ap, ◌∙◌, inl, inr, true, List,
  [], ◌∷◌, ◌++◌, append_assoc, arith, ltb, ◌==◌, if◌then◌else◌, ==_iff, Bool-cases, length, Run, ok,
  write-append, length-snoc,
}
use native.Mathlib.Nat.{div-lt_iff_lt-mul, div-add-mod', mod-lt, pow-suc, pow-zero}
use grub_os_iso_image.Console.{digits_from}

abbrev pub digit_char : ℕ → ℕ
digit_char r = if ltb r 10 then r + 48 else r + 97 - 10

abbrev pub digit_of : ℕ → ℕ
digit_of c = if ltb c 97 then c - 48 else c - 87

digit_of-digit_char : (r : ℕ) → r < 16 → digit_of (digit_char r) ≡ r
digit_of-digit_char r h = ground arith

-- The digits of a number, lowest first, at most as many as the first argument.
unfoldable pub low_digits : ℕ → ℕ → ℕ → List ℕ
low_digits zero divisor ud = []
low_digits (suc n) divisor ud =
    let rest = low_digits n divisor (ud / divisor) in
    digit_char (ud % divisor) ∷ (if ud / divisor == 0 then [] else rest)

-- What a sequence of digits is worth, behind digits that are worth `acc`.
unfoldable pub number_of : ℕ → ℕ → List ℕ → ℕ
number_of divisor acc [] = acc
number_of divisor acc (c ∷ cs) = number_of divisor (acc * divisor + digit_of c) cs

unfoldable pub reversed : List ℕ → List ℕ
reversed [] = []
reversed (c ∷ cs) = reversed cs ++ (c ∷ [])

number_of-snoc :
    (divisor acc : ℕ) (cs : List ℕ) (c : ℕ)
    → number_of divisor acc (cs ++ (c ∷ [])) ≡ number_of divisor acc cs * divisor + digit_of c
unfolding number_of
number_of-snoc divisor acc [] c = refl
number_of-snoc divisor acc (b ∷ cs) c = number_of-snoc divisor (acc * divisor + digit_of b) cs c

quotient_small : (d k ud : ℕ) → 0 < d → ud < d ^ suc k → ud / d < d ^ k
quotient_small d k ud p h = (div-lt_iff_lt-mul p).1 (rw (pow-suc d k) at h)

-- A number of one digit.
one_digit : (d ud : ℕ) → 0 < d → ud < d ^ 1 → (ud / d == 0) ≡ true
one_digit d ud p h =
    let small = rw (pow-zero d) at (quotient_small d 0 ud p h) in ground (arith, small)

digit : (d ud : ℕ) → 0 < d → d ≤ 16 → digit_of (digit_char (ud % d)) ≡ ud % d
digit d ud p h = digit_of-digit_char (ud % d) (omega (arith, mod-lt ud p))

last_digit : (d ud : ℕ) → 0 < d → d ≤ 16 → ud / d ≡ 0 → 0 * d + digit_of (digit_char (ud % d)) ≡ ud
last_digit d ud p h e = ap (λ (x : ℕ). 0 * d + x) (digit d ud p h) ∙ (rw e at (div-add-mod' ud d))

pub number_of-low_digits :
    (n divisor ud : ℕ)
    → 0 < divisor
    → divisor ≤ 16
    → ud < divisor ^ suc n
    → number_of divisor 0 (reversed (low_digits (suc n) divisor ud)) ≡ ud
unfolding low_digits number_of reversed
number_of-low_digits zero divisor ud p h l =
    let e = one_digit divisor ud p l in
    rw e (last_digit divisor ud p h ((==_iff (ud / divisor) 0).0 e))
number_of-low_digits (suc n) divisor ud p h l =
    let rest =
      number_of-low_digits n divisor (ud / divisor) p h (quotient_small divisor (suc n) ud p l) in
    elim (Bool-cases (ud / divisor == 0)) [
      | inl e ↦ rw e (last_digit divisor ud p h ((==_iff (ud / divisor) 0).0 e))
      | inr e ↦
          let digits = low_digits (suc n) divisor (ud / divisor) in
          rw e (
            number_of-snoc divisor 0 (reversed digits) (digit_char (ud % divisor))
            ∙ ap (λ (x : ℕ). x * divisor + digit_of (digit_char (ud % divisor))) rest
            ∙ ap (λ (x : ℕ). ud / divisor * divisor + x) (digit divisor ud p h)
            ∙ div-add-mod' ud divisor)
    ]

pub length-low_digits :
    (k n divisor ud : ℕ)
    → 0 < divisor
    → ud < divisor ^ suc k
    → length (low_digits n divisor ud) ≤ suc k
unfolding low_digits
length-low_digits k zero divisor ud p h = omega arith
length-low_digits zero (suc n) divisor ud p h = rw (one_digit divisor ud p h) (omega arith)
length-low_digits (suc k) (suc n) divisor ud p h =
    let rest =
      length-low_digits k n divisor (ud / divisor) p (quotient_small divisor (suc k) ud p h) in
    elim (Bool-cases (ud / divisor == 0)) [
      | inl e ↦ rw e (omega arith)
      | inr e ↦ rw e (omega arith)
    ]

ended :
    (pre old : List ℕ) (c : ℕ) (post : List ℕ)
    → length old ≡ 0
    → ◌≡◌ {A = Run (ℕ × List ℕ)}
        (ok (suc (length pre), pre ++ (c ∷ (old ++ post))))
        (ok (length pre + suc (length old), pre ++ (c ∷ post)))
ended pre [] c post e = let sum : length pre + 1 ≡ suc (length pre) = omega arith in rw sum refl
ended pre (o ∷ old) c post e = absurd (omega arith)

-- The digit loop on the part of the buffer that it fills.
pub digits_from_lem :
    (n divisor ud : ℕ) (pre old post : List ℕ)
    → 0 < divisor
    → ud < divisor ^ suc n
    → length old ≡ length (low_digits (suc n) divisor ud)
    → digits_from (suc n) ud divisor (length pre) (pre ++ (old ++ post))
      ≡ ok (length pre + length old, pre ++ (low_digits (suc n) divisor ud ++ post))
unfolding digits_from low_digits
digits_from_lem n divisor ud pre [] post p h e = absurd (omega arith)
digits_from_lem zero divisor ud pre (o ∷ old) post p h e =
    let last = one_digit divisor ud p h in
    let c = digit_char (ud % divisor) in
    let count = rw last at e in
    rw (write-append pre o c (old ++ post), last) (ended pre old c post (omega (arith, count)))
digits_from_lem (suc n) divisor ud pre (o ∷ old) post p h e =
    let c = digit_char (ud % divisor) in
    let small = quotient_small divisor (suc n) ud p h in
    elim (Bool-cases (ud / divisor == 0)) [
      | inl last ↦
          let count = rw last at e in
          rw (write-append pre o c (old ++ post), last)
            (ended pre old c post (omega (arith, count)))
      | inr more ↦
          let count = rw more at e in
          let rest =
            digits_from_lem n divisor (ud / divisor) (pre ++ (c ∷ [])) old post p small
              (omega (arith, count)) in
          rw (write-append pre o c (old ++ post), more)
            ((rw (length-snoc pre c, append_assoc, append_assoc) at rest)
              ∙ (let sum : suc (length pre) + length old ≡ length pre + suc (length old) =
                    omega arith in
                  rw sum refl))
    ]
