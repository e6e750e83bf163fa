-- ===== src/Bitmap.antt =====
-- bitmap.c: one bit for each frame of physical memory, the most significant bit of a word first.
pub mod Frames
pub mod Set
pub mod Loops
pub mod Search
mod Tests
use grub_os_iso_image.Common.{
  ℕ, zero, suc, ◌+◌, ◌-◌, ◌*◌, ◌/◌, ◌%◌, ◌^◌, ◌≤◌, ◌<◌, ◌≡◌, refl, sym, ap, ◌∙◌, ◌≢◌, ◌↔◌, ◌⊎◌, inl,
  inr, Bool, true, false, not, ◌&&◌, ◌||◌, Option, none, some, List, [], ◌∷◌, ◌++◌, append_assoc,
  append-nil, arith, ltb, leb, ◌==◌, if◌then◌else◌, ltb→lt, ltb→le, lt→ltb, le→ltb, ==_iff,
  Bool-cases, length, get_elem?, get_or, replicate, length-append, length-replicate, length-set,
  get_elem?-eq-get_or, get_or-set_self, get_or-set_ne, u8, u16, u32, add32, sub32, add64, sub64,
  ◌<<<◌, ◌>>>◌, Run, ok, fault, out_of_fuel, ◌>>=◌, >>=_assoc, >>=-ok, read, write, read-append,
  write-append, Ending, returns, faults, exhausts, ending, >>=-halts, >>=-eq-ok, read-halts,
  write-halts, read-eq-ok, read-eq-fault, write-eq-ok, ℤ, pos, negsuc, minus, int32, min, max,
  bit_and, bit_or, bit_xor, bit_at, bit_at-bit_and, bit_at-bit_or, bit_at_le, bit_at-zero,
  bit_at-pow_self, bit_at-pow_ne, bit_at-complement, bit_and-zero, bit_and-pow,
}

-- The index of a frame's bit in its word.
unfoldable pub bit_index : ℕ → ℕ
bit_index frame_index = 31 - frame_index % 32

unfoldable pub reset_from : ℕ → ℕ → List ℕ → Run (List ℕ)
reset_from zero i bitmap = ok bitmap
reset_from (suc rounds) i bitmap = do bitmap' ← write bitmap i 0; reset_from rounds (suc i) bitmap'

unfoldable pub reset_bitmap : List ℕ → ℕ → Run (List ℕ)
reset_bitmap bitmap elements_in_array = reset_from elements_in_array 0 bitmap

-- `word | 1 << bit`, or `word & ~(1UL << bit)`.
unfoldable pub set_bit : ℕ → ℕ → ℕ → ℕ
set_bit word bit value =
    if value == 0 then bit_and word (2 ^ 32 - 1 - 2 ^ bit) else bit_or word (2 ^ bit)

-- The result of the call and the bitmap after it.
unfoldable pub set : List ℕ → ℕ → ℕ → ℕ → Run (ℤ × List ℕ)
unfolding bit_index
set bitmap elements_in_array frame_index value =
    let element = frame_index / 32 in
    if ltb elements_in_array element then ok (minus 1, bitmap) else do
      word ← read bitmap element
      bitmap' ← write bitmap element (set_bit word (bit_index frame_index) value)
      ok (pos 0, bitmap')

unfoldable pub get : List ℕ → ℕ → ℕ → Run ℤ
unfolding bit_index
get bitmap elements_in_array frame_index =
    let element = frame_index / 32 in
    if ltb elements_in_array element then ok (minus 1) else do
      word ← read bitmap element
      ok (pos (if ltb 0 (bit_and word (2 ^ bit_index frame_index)) then 1 else 0))

unfoldable pub use_frames_from : ℕ → ℕ → List ℕ → ℕ → Run (List ℕ)
use_frames_from zero i bitmap elements_in_array = ok bitmap
use_frames_from (suc rounds) i bitmap elements_in_array = do
  (code, bitmap') ← set bitmap elements_in_array i 1
  use_frames_from rounds (suc i) bitmap' elements_in_array

unfoldable pub use_frames_in_bytes : List ℕ → ℕ → ℕ → Run (ℤ × List ℕ)
use_frames_in_bytes bitmap elements_in_array size_in_bytes =
    let frame_count = size_in_bytes / 4096 in
    if ltb (u32 (elements_in_array * 32)) frame_count
    then ok (minus 1, bitmap)
    else do bitmap' ← use_frames_from frame_count 0 bitmap elements_in_array; ok (pos 0, bitmap')

-- The inner loop, for the bits of element `i` from `j` on.
unfoldable pub free_bit_from : ℕ → ℕ → ℕ → ℕ → Option ℕ
free_bit_from zero i j word = none
free_bit_from (suc rounds) i j word =
    let rest = free_bit_from rounds i (suc j) word in
    if bit_and word (2 ^ 31 / 2 ^ j) == 0 then some (i * 32 + j) else rest

-- The outer loop, from element `i` on.
unfoldable pub free_frame_from : ℕ → ℕ → List ℕ → Run ℤ
free_frame_from zero i bitmap = ok (minus 1)
free_frame_from (suc rounds) i bitmap = do
  word ← read bitmap i
  let rest = free_frame_from rounds (suc i) bitmap
  elim (free_bit_from 32 i 0 word) [ none ↦ rest | some frame ↦ ok (int32 (u32 frame)) ]

unfoldable pub next_free_frame_index : List ℕ → ℕ → Run ℤ
next_free_frame_index bitmap elements_in_array = free_frame_from elements_in_array 0 bitmap
