-- ===== src/Console.antt =====
-- The screen of common.c: two bytes of video memory for each place, a row and a column; and the
-- printing of numbers.
pub mod Put
pub mod Digits
pub mod Numerals
pub mod Itoa
pub mod Print
pub mod Printf
pub mod Float
mod Tests
use grub_os_iso_image.Common.{
  ℕ, zero, suc, ◌+◌, ◌-◌, ◌*◌, ◌/◌, ◌%◌, ◌^◌, ◌≤◌, ◌<◌, ◌≡◌, refl, sym, ap, ◌∙◌, ◌≢◌, ◌↔◌, ◌⊎◌, inl,
  inr, Bool, true, false, not, ◌&&◌, ◌||◌, Option, none, some, List, [], ◌∷◌, ◌++◌, append_assoc,
  append-nil, arith, ltb, leb, ◌==◌, if◌then◌else◌, ltb→lt, ltb→le, lt→ltb, le→ltb, ==_iff,
  Bool-cases, length, get_elem?, get_or, replicate, length-append, length-replicate, length-set,
  get_elem?-eq-get_or, get_or-set_self, get_or-set_ne, u8, u16, u32, add32, sub32, add64, sub64,
  ◌<<<◌, ◌>>>◌, Run, ok, fault, out_of_fuel, ◌>>=◌, >>=_assoc, >>=-ok, read, write, read-append,
  write-append, Ending, returns, faults, exhausts, ending, >>=-halts, >>=-eq-ok, read-halts,
  write-halts, read-eq-ok, read-eq-fault, write-eq-ok, ℤ, pos, negsuc, minus, int32, min, max,
  bit_and, bit_or, bit_xor, bit_at, bit_at-bit_and, bit_at-bit_or, bit_at_le, bit_at-zero,
  bit_at-pow_self, bit_at-pow_ne, bit_at-complement, bit_and-zero, bit_and-pow, bit_at-flip,
  bit_at-div, power_lt, bit_and-mask, bit_or-disjoint, bit_or_comm, bit_and-high,
}

abbrev pub columns : ℕ
columns = 80

abbrev pub lines : ℕ
lines = 24

abbrev pub attribute : ℕ
attribute = 7

pub record Screen : Type 0 where
  pub video : List ℕ
  pub xpos : ℕ
  pub ypos : ℕ

unfoldable pub clear_video : ℕ → ℕ → List ℕ → Run (List ℕ)
clear_video zero i video = ok video
clear_video (suc rounds) i video = do video' ← write video i 0; clear_video rounds (suc i) video'

unfoldable pub k_cls : Screen → Run Screen
k_cls s = do
  video ← clear_video (columns * lines * 2) 0 s.video
  ok (record { video = video; xpos = 0; ypos = 0 })

-- The statements behind the label `newline`.
abbrev pub newline : Screen → Screen
newline s = record s { xpos = 0; ypos = if leb lines (suc s.ypos) then 0 else suc s.ypos }

unfoldable pub k_putchar : ℕ → Screen → Run Screen
k_putchar c s =
    let place = (s.xpos + s.ypos * columns) * 2 in
    let put = (do
      video1 ← write s.video place (bit_and c 0xff)
      video2 ← write video1 (place + 1) attribute
      let s' = record s { video = video2; xpos = suc s.xpos }
      ok (if leb columns (suc s.xpos) then newline s' else s')) in
    if c == 10 || c == 13 then ok (newline s) else put

-- `while (*p) k_putchar(*p++)`, on the characters in front of the 0.
unfoldable pub put_string : List ℕ → Screen → Run Screen
put_string [] s = ok s
put_string (c ∷ string) s = k_putchar c s >>= put_string string

-- The digit loop of `k_itoa` from index `p` on: the buffer and the index behind the digits. A number
-- of 32 bits has at most 32 digits.
unfoldable pub digits_from : ℕ → ℕ → ℕ → ℕ → List ℕ → Run (ℕ × List ℕ)
digits_from zero ud divisor p buf = out_of_fuel
digits_from (suc fuel) ud divisor p buf = do
  let remainder = ud % divisor
  buf' ← write buf p (if ltb remainder 10 then remainder + 48 else remainder + 97 - 10)
  let rest = digits_from fuel (ud / divisor) divisor (suc p) buf'
  if ud / divisor == 0 then ok (suc p, buf') else rest

-- The loop that reverses the digits from `p1` to `p2`.
unfoldable pub reverse_from : ℕ → ℕ → ℕ → List ℕ → Run (List ℕ)
reverse_from zero p1 p2 buf = out_of_fuel
reverse_from (suc fuel) p1 p2 buf =
    let round = (do
      tmp ← read buf p1
      other ← read buf p2
      buf1 ← write buf p1 other
      buf2 ← write buf1 p2 tmp
      reverse_from fuel (suc p1) (p2 - 1) buf2) in
    if ltb p1 p2 then round else ok buf

-- `base` is the character 'd', 'u' or 'x', and `d` the bit pattern of the int.
unfoldable pub k_itoa : List ℕ → ℕ → ℕ → Run (List ℕ)
k_itoa buf base d =
    let negative = base == 100 && leb (2 ^ 31) d in
    let divisor = if base == 120 then 16 else 10 in
    let ud = if negative then sub32 0 d else d in
    let start = if negative then 1 else 0 in
    do
      signed ← (if negative then write buf 0 45 else ok buf)
      (p, written) ← digits_from 33 ud divisor start signed
      ended ← write written p 0
      reverse_from 33 start (p - 1) ended
