-- ===== src/Console/Printf.antt =====
-- What `k_printf` shows.
use grub_os_iso_image.Common.{
  ℕ, some, ◌^◌, ◌≤◌, ◌<◌, ◌≡◌, refl, ap, ◌≢◌, inl, inr, Bool, true, false, ◌||◌, List, [], ◌∷◌,
  ◌++◌, arith, ◌==◌, if◌then◌else◌, ==_iff, Bool-cases, length, length-append, add32, ok,
}
use grub_os_iso_image.Console.{Screen, put_string}
use grub_os_iso_image.Console.Put.{OnScreen, IsPut, k_putchar_lem}
use grub_os_iso_image.Console.Numerals.{IsString, read_back, value_of}
use grub_os_iso_image.Console.Itoa.{k_itoa_lem}
use grub_os_iso_image.Console.Print.{string_in, null_text, converted, printf_from, k_printf}

abbrev pub numeric : ℕ → Bool
numeric c = c == 100 || c == 117 || c == 120

-- A text that is shown character by character.
pub data Puts : List ℕ → Screen → Screen → Type 0 where
  shown : (s : Screen) → Puts [] s s
  put :
      (c : ℕ) (text : List ℕ) (before mid after : Screen)
      → IsPut c before mid
      → Puts text mid after
      → Puts (c ∷ text) before after

-- A format whose conversions have arguments, which are words of 32 bits.
pub data IsFormat : List ℕ → List ℕ → Type 0 where
  end : (arg : List ℕ) → IsFormat [] arg
  plain : (c : ℕ) (format arg : List ℕ) → c ≢ 37 → IsFormat format arg → IsFormat (c ∷ format) arg
  conversion :
      (c a : ℕ) (format arg : List ℕ)
      → a < 2 ^ 32
      → IsFormat format arg
      → IsFormat (37 ∷ c ∷ format) (a ∷ arg)

-- What a conversion stands for.
pub data IsConversion (strings : ℕ → List ℕ) : ℕ → ℕ → List ℕ → Type 0 where
  number :
      (c a : ℕ) (text : List ℕ)
      → numeric c ≡ true
      → read_back c text ≡ some (value_of c a)
      → IsConversion strings c a text
  null : IsConversion strings 115 0 null_text
  string : (a : ℕ) → a ≢ 0 → IsConversion strings 115 a (strings a)
  character : (c a : ℕ) → numeric c ≡ false → c ≢ 115 → IsConversion strings c a (a ∷ [])

-- The text that a format stands for.
pub data IsExpansion (strings : ℕ → List ℕ) : List ℕ → List ℕ → List ℕ → Type 0 where
  end : (arg : List ℕ) → IsExpansion strings [] arg []
  plain :
      (c : ℕ) (format arg text : List ℕ)
      → c ≢ 37
      → IsExpansion strings format arg text
      → IsExpansion strings (c ∷ format) arg (c ∷ text)
  conversion :
      (c a : ℕ) (format arg p text : List ℕ)
      → IsConversion strings c a p
      → IsExpansion strings format arg text
      → IsExpansion strings (37 ∷ c ∷ format) (a ∷ arg) (p ++ text)

string_in_lem : (text rest : List ℕ) → IsString text → string_in (text ++ (0 ∷ rest)) ≡ ok text
unfolding string_in
string_in_lem [] rest h = refl
string_in_lem (c ∷ text) rest h =
    let other : (c == 0) ≡ false = ground (arith, h.0) in
    rw (other, string_in_lem text rest h.1) refl

Puts-append :
    {xs : List ℕ} (ys : List ℕ) {s s' : Screen} (s'' : Screen)
    → Puts xs s s'
    → Puts ys s' s''
    → Puts (xs ++ ys) s s''
Puts-append ys s'' (shown s) q = q
Puts-append ys s'' (put c xs s mid s' h p) q = put c (xs ++ ys) s mid s'' h (Puts-append ys s'' p q)

pub put_string_lem :
    (text : List ℕ) (s : Screen)
    → OnScreen s
    → (after : Screen) × (put_string text s ≡ ok after) × OnScreen after × Puts text s after
unfolding put_string
put_string_lem [] s o = (s, refl, o, shown s)
put_string_lem (c ∷ text) s o =
    let (mid, run, h) = k_putchar_lem c s o in
    let (after, run', o', p) = put_string_lem text mid h.on_screen in
    (after, rw run run', o', put c text s mid after h p)

-- What a conversion leaves: its text, and a buffer that is as long as before.
abbrev Converts : (ℕ → List ℕ) → ℕ → ℕ → List ℕ → List ℕ → Type 0
Converts strings c a buf arg =
    (p buf' : List ℕ) × (converted strings c buf (a ∷ arg) ≡ ok (p, buf', arg))
    × (length buf' ≡ length buf)
    × IsConversion strings c a p

converted_lem :
    (strings : ℕ → List ℕ) (c a : ℕ) (buf arg : List ℕ)
    → a < 2 ^ 32
    → 12 ≤ length buf
    → Converts strings c a buf arg
unfolding converted
converted_lem strings c a buf arg small room = elim (Bool-cases (numeric c)) [
  | inl e ↦
      let (text, rest, run, h) = k_itoa_lem c a buf small room in
      let (old, z, split, count) = h.used in
      let same : length (text ++ (0 ∷ rest)) ≡ length buf = omega (
        arith,
        length-append text (0 ∷ rest),
        ap length split,
        length-append old (z ∷ rest),
        count,
      ) in
      (
        text,
        text ++ (0 ∷ rest),
        rw (e, run, string_in_lem text rest h.string) refl,
        same,
        number c a text e h.value,
      )
  | inr e ↦ other c a e
]
  where
    text : (a : ℕ) → IsConversion strings 115 a (if a == 0 then null_text else strings a)
    text a = elim (Bool-cases (a == 0)) [
      | inl e ↦ let zero_word : a ≡ 0 = (==_iff a 0).0 e in rw zero_word null
      | inr e ↦ rw e (string a (λ q. ground (arith, q)))
    ]

    other : (c a : ℕ) → numeric c ≡ false → Converts strings c a buf arg
    other c a e = elim (Bool-cases (c == 115)) [
      | inl s ↦
          let same : c ≡ 115 = (==_iff c 115).0 s in
          rw same (if a == 0 then null_text else strings a, buf, refl, refl, text a)
      | inr s ↦ (a ∷ [], buf, rw (e, s) refl, refl, character c a e (λ q. ground (arith, q)))
    ]

-- The screen after a format, and the text that it has been expanded to.
abbrev Prints : (ℕ → List ℕ) → List ℕ → List ℕ → List ℕ → Screen → Type 0
Prints strings format buf arg s =
    (text : List ℕ) × (after : Screen) × (printf_from strings format buf arg s ≡ ok after)
    × OnScreen after
    × IsExpansion strings format arg text
    × Puts text s after

printf_from_lem :
    (strings : ℕ → List ℕ) {format arg : List ℕ} (f : IsFormat format arg) (buf : List ℕ)
    (s : Screen)
    → 12 ≤ length buf
    → OnScreen s
    → Prints strings format buf arg s
unfolding printf_from
printf_from_lem strings (end arg) buf s room o = ([], s, refl, o, end arg, shown s)
printf_from_lem strings (plain c [] arg other f) buf s room o =
    let (after, run, h) = k_putchar_lem c s o in
    let no : (c == 37) ≡ false = ground (arith, other) in
    (
      c ∷ [],
      after,
      rw (no, run) refl,
      h.on_screen,
      plain c [] arg [] other (end arg),
      put c [] s after after h (shown after),
    )
printf_from_lem strings (plain c (d ∷ format) arg other f) buf s room o =
    let (mid, run, h) = k_putchar_lem c s o in
    let (text, after, rest, o', x, p) = printf_from_lem strings f buf mid room h.on_screen in
    let no : (c == 37) ≡ false = ground (arith, other) in
    (
      c ∷ text,
      after,
      rw (no, run) rest,
      o',
      plain c (d ∷ format) arg text other x,
      put c text s mid after h p,
    )
printf_from_lem strings (conversion c a format arg small f) buf s room o =
    let (p, buf', conv, same, v) = converted_lem strings c a buf arg small room in
    let (mid, run, om, q) = put_string_lem p s o in
    let (text, after, rest, o', x, r) =
      printf_from_lem strings f buf' mid (omega (arith, same)) om in
    (
      p ++ text,
      after,
      rw (conv, run) rest,
      o',
      conversion c a format arg p text v x,
      Puts-append text after q r,
    )

-- On a screen with its video memory and a cursor on it, for any format whose conversions all have
-- an argument of 32 bits, `k_printf` returns and moves `vga_index` on by 80. The screen has then
-- been put one character after the other, as `k_putchar` does, of a text to which the format
-- expands: a character other than '%' stands for itself, a numeric conversion for a numeral of the
-- argument, as an `int` for 'd' and else as an unsigned number, 's' for the string at the argument
-- or "(null)", and any other conversion for the argument itself.
pub k_printf_lem :
    (strings : ℕ → List ℕ) (buf format arg : List ℕ) (vga_index : ℕ) (s : Screen)
    → IsFormat format arg
    → length buf ≡ 20
    → OnScreen s
    → (text : List ℕ) × (after : Screen) × (k_printf strings buf format arg vga_index s
        ≡ ok (add32 vga_index 80, after))
      × IsExpansion strings format arg text
      × Puts text s after
unfolding k_printf
k_printf_lem strings buf format arg vga_index s f size o =
    let (text, after, run, o', x, p) = printf_from_lem strings f buf s (omega (arith, size)) o in
    (text, after, rw run refl, x, p)
