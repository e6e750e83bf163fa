-- ===== src/Console/Float.antt =====
-- k_print_float of common.c, from the two integers on that it takes from the number: the integral
-- part, and the first three decimals.
use grub_os_iso_image.Common.{
  ℕ, pos, negsuc, int32, some, ltb, ◌↔◌, ◌<◌, ◌^◌, zero, suc, ◌+◌, ◌-◌, ◌≤◌, ◌≡◌, refl, sym, ap,
  ◌∙◌, inl, inr, false, List, [], ◌∷◌, ◌++◌, append_assoc, append-nil, arith, ◌==◌, if◌then◌else◌,
  Bool-cases, length, replicate, length-append, length-replicate, Run, ok, ◌>>=◌, read, write,
  read-append, write-append, length-snoc,
}
use grub_os_iso_image.Console.{Screen, put_string, k_putchar, k_itoa}
use mathlib.Core.Path.{fun_ext}
use grub_os_iso_image.Console.Put.{OnScreen}
use grub_os_iso_image.Console.Numerals.{IsString, read_back}
use grub_os_iso_image.Console.Itoa.{k_itoa_lem}
use grub_os_iso_image.Console.Printf.{Puts, put_string_lem}

-- The loops that copy the characters of a buffer that are not 0 to `total_buf`.
unfoldable pub insert_part : List ℕ → ℕ → List ℕ → Run (ℕ × List ℕ)
insert_part [] total_buf_index total_buf = ok (total_buf_index, total_buf)
insert_part (c ∷ part) total_buf_index total_buf =
    let skipped = insert_part part total_buf_index total_buf in
    let copied = write total_buf total_buf_index c >>= insert_part part (suc total_buf_index) in
    if c == 0 then skipped else copied

-- The loop over `total_buf` from index `i` on.
unfoldable pub put_total : ℕ → ℕ → List ℕ → Screen → Run Screen
put_total zero i total_buf s = ok s
put_total (suc rounds) i total_buf s = do
  c ← read total_buf i
  s' ← k_putchar c s
  put_total rounds (suc i) total_buf s'

unfoldable pub k_print_float : ℕ → ℕ → Screen → Run Screen
k_print_float int_part float_part s = do
  int_part_buf ← k_itoa (replicate 20 0) 10 int_part
  fraction_part_buf ← k_itoa (replicate 20 0) 10 float_part
  (index1, total1) ← insert_part int_part_buf 0 (replicate 41 0)
  total2 ← write total1 index1 46
  (index2, total3) ← insert_part fraction_part_buf (suc index1) total2
  put_total (suc index2) 0 total3 s

unfoldable nonzero : List ℕ → List ℕ
nonzero [] = []
nonzero (c ∷ cs) = let rest = nonzero cs in if c == 0 then rest else c ∷ rest

insert_part_lem :
    (part pre : List ℕ) (k m : ℕ)
    → k ≡ length (nonzero part) + m
    → insert_part part (length pre) (pre ++ replicate k 0)
      ≡ ok (length (pre ++ nonzero part), pre ++ (nonzero part ++ replicate m 0))
unfolding insert_part nonzero
insert_part_lem [] pre k m e = let same : k ≡ m = omega (arith, e) in rw (same, append-nil pre) refl
insert_part_lem (c ∷ part) pre k m e = elim (Bool-cases (c == 0)) [
  | inl z ↦ rw z (insert_part_lem part pre k m (rw z at e))
  | inr z ↦ go k (rw z at e) z (λ k'. insert_part_lem part (pre ++ (c ∷ [])) k' m)
]
  where
    go :
        (k : ℕ)
        → k ≡ suc (length (nonzero part)) + m
        → (c == 0) ≡ false
        → ((k' : ℕ)
            → k' ≡ length (nonzero part) + m
            → insert_part part (length (pre ++ (c ∷ []))) ((pre ++ (c ∷ [])) ++ replicate k' 0)
              ≡ ok (
                length ((pre ++ (c ∷ [])) ++ nonzero part),
                (pre ++ (c ∷ [])) ++ (nonzero part ++ replicate m 0),
              ))
        → insert_part (c ∷ part) (length pre) (pre ++ replicate k 0)
          ≡ ok (length (pre ++ nonzero (c ∷ part)), pre ++ (nonzero (c ∷ part) ++ replicate m 0))
    go zero e z rec = absurd (omega (arith, e))
    go (suc k) e z rec =
        let next =
          rw (length-snoc pre c, append_assoc, append_assoc, append_assoc) at
            (rec k (omega (arith, e))) in
        rw (z, write-append pre 0 c (replicate k 0)) next

nonzero-append : (xs ys : List ℕ) → nonzero (xs ++ ys) ≡ nonzero xs ++ nonzero ys
unfolding nonzero
nonzero-append [] ys = refl
nonzero-append (x ∷ xs) ys = elim (Bool-cases (x == 0)) [
  | inl e ↦ rw e (nonzero-append xs ys)
  | inr e ↦ rw e (ap (λ (t : List ℕ). x ∷ t) (nonzero-append xs ys))
]

nonzero-IsString : (text : List ℕ) → IsString text → nonzero text ≡ text
unfolding nonzero
nonzero-IsString [] h = refl
nonzero-IsString (c ∷ cs) h =
    let other : (c == 0) ≡ false = ground (arith, h.0) in
    rw other (ap (λ (t : List ℕ). c ∷ t) (nonzero-IsString cs h.1))

nonzero-replicate : (n : ℕ) → nonzero (replicate n 0) ≡ []
unfolding nonzero
nonzero-replicate zero = refl
nonzero-replicate (suc n) = nonzero-replicate n

second_empty : (xs ys : List ℕ) → xs ++ ys ≡ [] → ys ≡ []
second_empty [] ys e = e
second_empty (x ∷ xs) ys e = absurd (omega (arith, ap length e))

-- Nothing but the text is copied.
printed_part :
    (d : ℕ)
    → d < 2 ^ 32
    → (text buf : List ℕ) × (k_itoa (replicate 20 0) 10 d ≡ ok buf)
      × (nonzero buf ≡ text)
      × (read_back 10 text ≡ some (pos d))
      × (length text ≤ 11)
unfolding nonzero
printed_part d small =
    let (text, rest, run, h) =
      k_itoa_lem 10 d (replicate 20 0) small (omega (arith, length-replicate {A = ℕ} 20 0)) in
    let (old, z, split, count) = h.used in
    let none_left : nonzero (old ++ (z ∷ rest)) ≡ [] =
      ap nonzero (sym split) ∙ nonzero-replicate 20 in
    let behind : nonzero (z ∷ rest) ≡ [] =
      second_empty (nonzero old) (nonzero (z ∷ rest))
        (sym (nonzero-append old (z ∷ rest)) ∙ none_left) in
    let tail : nonzero rest ≡ [] =
      second_empty (nonzero (z ∷ [])) (nonzero rest)
        (sym (nonzero-append (z ∷ []) rest) ∙ behind) in
    (text, text ++ (0 ∷ rest), run, only text rest h.string tail, h.value, h.short)
  where
    only :
        (text rest : List ℕ)
        → IsString text
        → nonzero rest ≡ []
        → nonzero (text ++ (0 ∷ rest)) ≡ text
    only text rest h e =
        nonzero-append text (0 ∷ rest)
        ∙ ap (λ (t : List ℕ). t ++ nonzero (0 ∷ rest)) (nonzero-IsString text h)
        ∙ ap (λ (t : List ℕ). text ++ t) (end rest e)
        ∙ append-nil text
      where
        end : (rest : List ℕ) → nonzero rest ≡ [] → nonzero (0 ∷ rest) ≡ []
        end rest e = e

put_total_lem :
    (text pre rest : List ℕ) (s : Screen)
    → put_total (length text) (length pre) (pre ++ (text ++ rest)) s ≡ put_string text s
unfolding put_total put_string
put_total_lem [] pre rest s = refl
put_total_lem (c ∷ text) pre rest s =
    let next : (s' : Screen)
        → put_total (length text) (suc (length pre)) (pre ++ (c ∷ (text ++ rest))) s'
          ≡ put_string text s' =
      λ s'.
        rw (length-snoc pre c, append_assoc) at (put_total_lem text (pre ++ (c ∷ [])) rest s') in
    rw (read-append pre c (text ++ rest)) (ap (λ f. k_putchar c s >>= f) (fun_ext next))

-- What the loops put on the screen, with the 0 behind the text.
totals :
    (ibuf fbuf : List ℕ) (s : Screen)
    → length (nonzero ibuf) ≤ 11
    → length (nonzero fbuf) ≤ 11
    → (insert_part ibuf 0 (replicate 41 0) >>= λ x. write x.1 x.0 46 >>= λ total2.
        insert_part fbuf (suc x.0) total2 >>= λ y. put_total (suc y.0) 0 y.1 s)
      ≡ put_string (nonzero ibuf ++ (46 ∷ (nonzero fbuf ++ (0 ∷ [])))) s
totals ibuf fbuf s hi hf =
    let a = nonzero ibuf in
    let b = nonzero fbuf in
    let m1 = 40 - length a in
    let m2 = 39 - length a - length b in
    let first = insert_part_lem ibuf [] 41 (suc m1) (omega (arith, hi)) in
    let dot = write-append a 0 46 (replicate m1 0) in
    let second : insert_part fbuf (suc (length a)) (a ++ (46 ∷ replicate m1 0))
        ≡ ok (length ((a ++ (46 ∷ [])) ++ b), a ++ (46 ∷ (b ++ (0 ∷ replicate m2 0)))) =
      rw
        (
          length-snoc a 46,
          append_assoc a (46 ∷ []) (replicate m1 0),
          append_assoc a (46 ∷ []) (b ++ (0 ∷ replicate m2 0)),
        )
        at (insert_part_lem fbuf (a ++ (46 ∷ [])) m1 (suc m2) (omega (arith, hi, hf))) in
    let text = a ++ (46 ∷ (b ++ (0 ∷ []))) in
    let count : suc (length ((a ++ (46 ∷ [])) ++ b)) ≡ length text = omega (
      arith,
      length-append (a ++ (46 ∷ [])) b,
      length-snoc a 46,
      length-append a (46 ∷ (b ++ (0 ∷ []))),
      length-snoc b 0,
    ) in
    let shape : a ++ (46 ∷ (b ++ (0 ∷ replicate m2 0))) ≡ text ++ replicate m2 0 =
      rw
        (
          append_assoc a (46 ∷ (b ++ (0 ∷ []))) (replicate m2 0),
          append_assoc b (0 ∷ []) (replicate m2 0),
        )
        refl in
    let shown = put_total_lem text [] (replicate m2 0) s in
    rw (first, dot, second, count, shape) shown

-- As an `int` the pattern is another number if its sign bit is set.
as_int :
    (n : ℕ) (text : List ℕ)
    → read_back 10 text ≡ some (pos n)
    → (read_back 10 text ≡ some (int32 n)) ↔ (n < 2 ^ 31)
as_int n text e = elim (Bool-cases (ltb n (2 ^ 31))) [
  | inl small ↦ rw small ((λ h. ground (arith, small)), (λ h. e))
  | inr large ↦ rw large (
    (λ h. let wrong : some (pos n) ≡ some (negsuc (2 ^ 32 - n - 1)) = sym e ∙ h in cc),
    (λ h. let wrong : 1 ≤ 0 = ground (arith, large, h) in absurd (omega (arith, wrong))),
  )
]

-- On a screen with its video memory and a cursor on it, and for 32-bit patterns of an integral
-- part and of decimals, `k_print_float` returns. The screen has then been put, one character after
-- the other, the decimal numeral of the first pattern as an unsigned number, a '.', the numeral of
-- the second, and a character 0. The first numeral is that of the integral part, which is an
-- `int`, exactly if the integral part is not negative.
pub k_print_float_lem :
    (int_part float_part : ℕ) (s : Screen)
    → int_part < 2 ^ 32
    → float_part < 2 ^ 32
    → OnScreen s
    → (ints decimals : List ℕ) × (after : Screen) × (k_print_float int_part float_part s ≡ ok after)
      × (read_back 10 ints ≡ some (pos int_part))
      × ((read_back 10 ints ≡ some (int32 int_part)) ↔ (int_part < 2 ^ 31))
      × (read_back 10 decimals ≡ some (pos float_part))
      × Puts (ints ++ (46 ∷ (decimals ++ (0 ∷ [])))) s after
unfolding k_print_float
k_print_float_lem int_part float_part s si sf o =
    let (ints, ibuf, irun, ikept, ivalue, ishort) = printed_part int_part si in
    let (decimals, fbuf, frun, fkept, fvalue, fshort) = printed_part float_part sf in
    let text = ints ++ (46 ∷ (decimals ++ (0 ∷ []))) in
    let (after, run, o', p) = put_string_lem text s o in
    (
      ints,
      decimals,
      after,
      rw (irun, frun)
          (totals ibuf fbuf s (rw ikept ishort) (rw fkept fshort) ∙ rw (ikept, fkept) run),
      ivalue,
      as_int int_part ints ivalue,
      fvalue,
      p,
    )
