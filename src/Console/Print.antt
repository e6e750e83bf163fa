-- ===== src/Console/Print.antt =====
-- k_printf, k_clear_screen and k_print_string of common.c. `strings` gives the characters in front
-- of the 0 of the string at an address.
use grub_os_iso_image.Common.{
  ℕ, zero, suc, ◌+◌, ◌*◌, ◌^◌, not, ◌||◌, List, [], ◌∷◌, ◌==◌, if◌then◌else◌, u16, add32, Run, ok,
  fault, ◌>>=◌, write, bit_or,
}
use grub_os_iso_image.Console.{Screen, put_string, k_putchar, k_itoa}

-- `while (*p)` on a buffer: the characters in front of the first 0.
unfoldable pub string_in : List ℕ → Run (List ℕ)
string_in [] = fault
string_in (c ∷ buf) = if c == 0 then ok [] else string_in buf >>= λ string. ok (c ∷ string)

-- "(null)"
abbrev pub null_text : List ℕ
null_text = 40 ∷ 110 ∷ 117 ∷ 108 ∷ 108 ∷ 41 ∷ []

-- The `switch` on the character `c` behind a '%', up to the output: the text, and `buf` and the
-- words of the arguments afterwards. An argument that was not passed is a fault.
unfoldable pub converted : (ℕ → List ℕ) → ℕ → List ℕ → List ℕ → Run (List ℕ × List ℕ × List ℕ)
converted strings c buf [] = fault
converted strings c buf (a ∷ arg) =
    if c == 100 || c == 117 || c == 120
    then (k_itoa buf c a >>= λ buf'. string_in buf' >>= λ p. ok (p, buf', arg))
    else if c == 115
    then ok (if a == 0 then null_text else strings a, buf, arg)
    else ok (a ∷ [], buf, arg)

-- The loop over `format`, which is given by the characters in front of its 0. A format that ends
-- with '%' is read on behind its 0.
unfoldable pub printf_from : (ℕ → List ℕ) → List ℕ → List ℕ → List ℕ → Screen → Run Screen
printf_from strings [] buf arg s = ok s
printf_from strings (c ∷ []) buf arg s = if not (c == 37) then k_putchar c s else fault
printf_from strings (c ∷ d ∷ format) buf arg s =
    let plain = k_putchar c s >>= printf_from strings (d ∷ format) buf arg in
    let conversion = (do
      (p, buf', arg') ← converted strings d buf arg
      s' ← put_string p s
      printf_from strings format buf' arg' s') in
    if not (c == 37) then plain else conversion

-- `buf` is the array of 20 bytes as the call finds it on the stack.
unfoldable pub k_printf : (ℕ → List ℕ) → List ℕ → List ℕ → List ℕ → ℕ → Screen → Run (ℕ × Screen)
k_printf strings buf format arg vga_index s =
    printf_from strings format buf arg s >>= λ s'. ok (add32 vga_index 80, s')

-- `terminal` is the memory behind `terminal_buffer`, in elements of 16 bits.
unfoldable pub blank_from : ℕ → ℕ → List ℕ → Run (List ℕ)
blank_from zero index terminal = ok terminal
blank_from (suc rounds) index terminal = do
  terminal' ← write terminal index 32
  blank_from rounds (index + 2) terminal'

unfoldable pub k_clear_screen : List ℕ → Run (List ℕ)
k_clear_screen terminal = blank_from 2000 0 terminal

unfoldable pub k_print_string : List ℕ → ℕ → ℕ → List ℕ → Run (ℕ × List ℕ)
k_print_string [] color vga_index terminal = ok (vga_index, terminal)
k_print_string (c ∷ str) color vga_index terminal = do
  terminal' ← write terminal vga_index (bit_or (u16 c) (color * 2 ^ 8))
  k_print_string str color (add32 vga_index 1) terminal'
