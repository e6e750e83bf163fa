-- ===== src/Console/Itoa.antt =====
-- `k_itoa`: what it writes reads back as the number.
use grub_os_iso_image.Common.{
  ℕ, pos, negsuc, some, zero, suc, ◌+◌, ◌-◌, ◌^◌, ◌≤◌, ◌<◌, ◌≡◌, refl, sym, ap, ◌∙◌, inl, inr, true,
  false, ◌&&◌, List, [], ◌∷◌, ◌++◌, append_assoc, arith, ltb, leb, ◌==◌, Bool-cases, length,
  length-append, sub32, ok, ◌>>=◌, read, write, read-append, write-append, length-snoc,
}
use grub_os_iso_image.Console.{digits_from, reverse_from, k_itoa}
use grub_os_iso_image.Console.Numerals.{
  divisor_of, divisor_of-IsDivisor, read_back, value_of, text_of, text_of-IsString,
  read_back-text_of, read_back-minus, IsString,
}
use grub_os_iso_image.Console.Digits.{low_digits, reversed, length-low_digits, digits_from_lem}

-- A list by its two ends.
data Ends : List ℕ → Type 0 where
  empty : Ends []
  one : (x : ℕ) → Ends (x ∷ [])
  both : (x : ℕ) (m : List ℕ) (y : ℕ) → Ends (x ∷ (m ++ (y ∷ [])))

ends : (xs : List ℕ) → Ends xs
ends [] = empty
ends (x ∷ xs) = go x (ends xs)
  where
    go : (x : ℕ) {xs : List ℕ} → Ends xs → Ends (x ∷ xs)
    go x empty = one x
    go x (one y) = both x [] y
    go x (both y m z) = both x (y ∷ m) z

reversed-snoc : (m : List ℕ) (y : ℕ) → reversed (m ++ (y ∷ [])) ≡ y ∷ reversed m
unfolding reversed
reversed-snoc [] y = refl
reversed-snoc (x ∷ m) y = rw (reversed-snoc m y) refl

pub length-reversed : (xs : List ℕ) → length (reversed xs) ≡ length xs
unfolding reversed
length-reversed [] = refl
length-reversed (x ∷ xs) = length-snoc (reversed xs) x ∙ ap suc (length-reversed xs)

-- The two elements that a round of the reversal exchanges.
far_read :
    (pre m post : List ℕ) (x y : ℕ)
    → read (pre ++ (x ∷ (m ++ (y ∷ post)))) (length pre + suc (length m)) ≡ ok y
far_read pre m post x y =
    rw (append_assoc, length-append pre (x ∷ m)) at (read-append (pre ++ (x ∷ m)) y post)

far_write :
    (pre m post : List ℕ) (x y v : ℕ)
    → write (pre ++ (x ∷ (m ++ (y ∷ post)))) (length pre + suc (length m)) v
      ≡ ok (pre ++ (x ∷ (m ++ (v ∷ post))))
far_write pre m post x y v =
    rw (append_assoc, append_assoc, length-append pre (x ∷ m)) at
      (write-append (pre ++ (x ∷ m)) y v post)

exchange :
    (fuel p2 : ℕ) (pre m post : List ℕ) (x y : ℕ)
    → ltb (length pre) p2 ≡ true
    → p2 ≡ length pre + suc (length m)
    → reverse_from (suc fuel) (length pre) p2 (pre ++ (x ∷ (m ++ (y ∷ post))))
      ≡ reverse_from fuel (suc (length pre)) (p2 - 1) (pre ++ (y ∷ (m ++ (x ∷ post))))
unfolding reverse_from
exchange fuel p2 pre m post x y on far =
    let near = read-append pre x (m ++ (y ∷ post)) in
    let first = write-append pre x y (m ++ (y ∷ post)) in
    let other = rw (sym far) at (far_read pre m post x y) in
    let second = rw (sym far) at (far_write pre m post y y x) in
    rw (on, near, other, first, second) refl

reverse_from_lem :
    (fuel p2 : ℕ) (pre mid post : List ℕ)
    → length mid < fuel
    → p2 + 1 ≡ length pre + length mid
    → reverse_from fuel (length pre) p2 (pre ++ (mid ++ post)) ≡ ok (pre ++ (reversed mid ++ post))
unfolding reverse_from reversed
reverse_from_lem zero p2 pre mid post l e = absurd (omega arith)
reverse_from_lem (suc fuel) p2 pre mid post l e = go (reverse_from_lem fuel) (ends mid) l e
  where
    go :
        ((p2 : ℕ) (pre mid post : List ℕ)
          → length mid < fuel
          → p2 + 1 ≡ length pre + length mid
          → reverse_from fuel (length pre) p2 (pre ++ (mid ++ post))
            ≡ ok (pre ++ (reversed mid ++ post)))
        → {mid : List ℕ} → Ends mid
        → length mid < suc fuel
        → p2 + 1 ≡ length pre + length mid
        → reverse_from (suc fuel) (length pre) p2 (pre ++ (mid ++ post))
          ≡ ok (pre ++ (reversed mid ++ post))
    go rec empty l e = let stop : ltb (length pre) p2 ≡ false = ground arith in rw stop refl
    go rec (one x) l e = let stop : ltb (length pre) p2 ≡ false = ground arith in rw stop refl
    go rec (both x m y) l e =
        let count = length-snoc m y in
        let on : ltb (length pre) p2 ≡ true = ground (arith, count) in
        let far : p2 ≡ length pre + suc (length m) = omega (arith, count) in
        let rest =
          rec (p2 - 1) (pre ++ (y ∷ [])) m (x ∷ post) (omega (arith, count))
            (omega (arith, count, length-snoc pre y)) in
        let rest' = rw (length-snoc pre y, append_assoc, append_assoc) at rest in
        rw
          (append_assoc m (y ∷ []) post, reversed-snoc m y, append_assoc (reversed m) (x ∷ []) post)
          (exchange fuel p2 pre m post x y on far ∙ rest')

length-text_of : (base ud : ℕ) → ud < 2 ^ 32 → length (text_of (divisor_of base) ud) ≤ 10
unfolding text_of
length-text_of base ud h = rw (length-reversed) (elim (Bool-cases (base == 120)) [
  | inl e ↦ rw e (length-low_digits 9 33 16 ud (omega arith) (omega arith))
  | inr e ↦ rw e (length-low_digits 9 33 10 ud (omega arith) (omega arith))
])

divisor_fits : (base ud : ℕ) → ud < 2 ^ 32 → (0 < divisor_of base) × (ud < divisor_of base ^ 33)
divisor_fits base ud h = elim (Bool-cases (base == 120)) [
  | inl e ↦ rw e (omega arith, omega arith)
  | inr e ↦ rw e (omega arith, omega arith)
]

low_digits-nonempty : (n divisor ud : ℕ) → 0 < length (low_digits (suc n) divisor ud)
unfolding low_digits
low_digits-nonempty n divisor ud = omega arith

-- `buf` is split into the sign, the place for the digits and the end mark, and the rest.
printed :
    (base ud : ℕ) (sign old post : List ℕ) (z : ℕ)
    → ud < 2 ^ 32
    → length old ≡ length (text_of (divisor_of base) ud)
    → (digits_from 33 ud (divisor_of base) (length sign) (sign ++ (old ++ (z ∷ post))) >>= λ w.
        write w.1 w.0 0 >>= λ ended. reverse_from 33 (length sign) (w.0 - 1) ended)
      ≡ ok (sign ++ (text_of (divisor_of base) ud ++ (0 ∷ post)))
unfolding text_of
printed base ud sign old post z h e =
    let d = divisor_of base in
    let (positive, fits) = divisor_fits base ud h in
    let digits = low_digits 33 d ud in
    let count : length old ≡ length digits = e ∙ length-reversed digits in
    let written = digits_from_lem 32 d ud sign old (z ∷ post) positive fits count in
    let place : length (sign ++ digits) ≡ length sign + length old =
      length-append sign digits ∙ omega (arith, count) in
    let ended =
      rw (append_assoc, append_assoc, place) at (write-append (sign ++ digits) z 0 post) in
    let few = length-text_of base ud h in
    let some_digit = low_digits-nonempty 32 d ud in
    let turned =
      reverse_from_lem 33 (length sign + length old - 1) sign digits (0 ∷ post)
        (omega (arith, few, length-reversed digits)) (omega (arith, count, some_digit)) in
    rw (written, ended, turned) refl

-- The part of the buffer that holds the text, and its 0.
pub record IsText (base d : ℕ) (buf text rest : List ℕ) : Type 0 where
  pub value : read_back base text ≡ some (value_of base d)
  pub short : length text ≤ 11
  pub string : IsString text
  -- The rest of the buffer is as it was.
  pub used : (old : List ℕ) × (z : ℕ) × (buf ≡ old ++ (z ∷ rest)) × (length old ≡ length text)

-- A buffer in the parts that `k_itoa` fills.
split_at :
    (n : ℕ) (buf : List ℕ)
    → n < length buf
    → (old : List ℕ) × (z : ℕ) × (post : List ℕ) × (buf ≡ old ++ (z ∷ post)) × (length old ≡ n)
split_at n [] h = absurd (omega arith)
split_at zero (b ∷ buf) h = ([], b, buf, refl, refl)
split_at (suc n) (b ∷ buf) h =
    let (old, z, post, e, l) = split_at n buf (omega arith) in
    (b ∷ old, z, post, ap (λ t. b ∷ t) e, omega (arith, l))

unsigned_value : (base d : ℕ) → (base == 100 && leb (2 ^ 31) d) ≡ false → value_of base d ≡ pos d
unsigned_value base d plain = elim (Bool-cases (base == 100)) [
  | inl e ↦ let small : ltb d (2 ^ 31) ≡ true = ground (arith, plain, e) in rw (e, small) refl
  | inr e ↦ rw e refl
]

signed_value :
    (base d : ℕ)
    → d < 2 ^ 32
    → (base == 100 && leb (2 ^ 31) d) ≡ true
    → 2 ^ 31 ≤ d
    → value_of base d ≡ negsuc (2 ^ 32 - d - 1)
signed_value base d small negative high =
    let signed : (base == 100) ≡ true = ground (arith, negative) in
    let large : ltb d (2 ^ 31) ≡ false = ground (arith, high) in rw (signed, large) refl

unsigned_itoa :
    (base d : ℕ) (buf : List ℕ)
    → d < 2 ^ 32
    → 12 ≤ length buf
    → (base == 100 && leb (2 ^ 31) d) ≡ false
    → (text rest : List ℕ) × (k_itoa buf base d ≡ ok (text ++ (0 ∷ rest)))
      × IsText base d buf text rest
unfolding k_itoa text_of
unsigned_itoa base d buf small room plain =
    let text = text_of (divisor_of base) d in
    let few = length-text_of base d small in
    let (old, z, post, e, l) = split_at (length text) buf (omega arith) in
    let run = printed base d [] old post z small l in
    (
      text,
      post,
      rw (plain, e) run,
      record {
        value = read_back-text_of base d small ∙ ap some (sym (unsigned_value base d plain));
        short = omega (arith, few);
        string = text_of-IsString (divisor_of base) d (divisor_of-IsDivisor base d small);
        used = (old, z, e, l);
      },
    )

signed_itoa :
    (base d b : ℕ) (buf : List ℕ)
    → d < 2 ^ 32
    → 12 ≤ length (b ∷ buf)
    → (base == 100 && leb (2 ^ 31) d) ≡ true
    → 2 ^ 31 ≤ d
    → (text rest : List ℕ) × (k_itoa (b ∷ buf) base d ≡ ok (text ++ (0 ∷ rest)))
      × IsText base d (b ∷ buf) text rest
unfolding k_itoa text_of
signed_itoa base d b buf small room negative high =
    let ud = sub32 0 d in
    let fits : ud < 2 ^ 32 = omega arith in
    let text = text_of (divisor_of base) ud in
    let few = length-text_of base ud fits in
    let (old, z, post, e, l) = split_at (length text) buf (omega arith) in
    let run = printed base ud (45 ∷ []) old post z fits l in
    (
      45 ∷ text,
      post,
      rw (negative, e) run,
      record {
        value =
            read_back-minus base ud (2 ^ 32 - d - 1) fits (omega (arith, small, high))
            ∙ ap some (sym (signed_value base d small negative high));
        short = omega (arith, few);
        string = (
          (λ e. omega (arith, e)),
          text_of-IsString (divisor_of base) ud (divisor_of-IsDivisor base ud fits),
        );
        used = (b ∷ old, z, ap (λ t. b ∷ t) e, ap suc l);
      },
    )

-- For any base, a 32-bit pattern `d` and a buffer of at least 12 bytes, `k_itoa` returns. The
-- buffer then starts with a text of at most 11 characters and a 0, and the rest of it is as
-- before. The text is a numeral without leading zeros, in lower case hexadecimal for 'x' and else
-- in decimal, behind a minus sign if the number is negative, of the number that `d` stands for:
-- for 'd' the `int` with these bits, else the unsigned number.
pub k_itoa_lem :
    (base d : ℕ) (buf : List ℕ)
    → d < 2 ^ 32
    → 12 ≤ length buf
    → (text rest : List ℕ) × (k_itoa buf base d ≡ ok (text ++ (0 ∷ rest)))
      × IsText base d buf text rest
k_itoa_lem base d [] small room = absurd (omega arith)
k_itoa_lem base d (b ∷ buf) small room = elim (Bool-cases (base == 100 && leb (2 ^ 31) d)) [
  | inl e ↦ signed_itoa base d b buf small room e (ground arith)
  | inr e ↦ unsigned_itoa base d (b ∷ buf) small room e
]
