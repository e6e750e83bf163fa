-- ===== src/Strings.antt =====
-- The memory and string functions of common.c. Memory is a list of bytes, an address an index into
-- it; an access behind its end is a fault.
pub mod Copy
pub mod Compare
mod Tests
use grub_os_iso_image.Common.{
  ℕ, zero, suc, ◌+◌, ◌-◌, ◌*◌, ◌/◌, ◌%◌, ◌^◌, ◌≤◌, ◌<◌, ◌≡◌, refl, sym, ap, ◌∙◌, ◌≢◌, ◌↔◌, ◌⊎◌, inl,
  inr, Bool, true, false, not, ◌&&◌, ◌||◌, Option, none, some, List, [], ◌∷◌, ◌++◌, append_assoc,
  append-nil, arith, ltb, leb, ◌==◌, if◌then◌else◌, ltb→lt, ltb→le, lt→ltb, le→ltb, ==_iff,
  Bool-cases, length, get_elem?, get_or, replicate, length-append, length-replicate, length-set,
  get_elem?-eq-get_or, get_or-set_self, get_or-set_ne, u8, u16, u32, add32, sub32, add64, sub64,
  ◌<<<◌, ◌>>>◌, Run, ok, fault, out_of_fuel, ◌>>=◌, >>=_assoc, >>=-ok, read, write, read-append,
  write-append, Ending, returns, faults, exhausts, ending, >>=-halts, >>=-eq-ok, read-halts,
  write-halts, read-eq-ok, read-eq-fault, write-eq-ok, ℤ, pos, negsuc, minus, int32, min, max,
  bit_and, bit_or, bit_xor, bit_at, bit_at-bit_and, bit_at-bit_or, bit_at_le, bit_at-zero,
  bit_at-pow_self, bit_at-pow_ne, bit_at-complement, bit_and-zero, bit_and-pow, bit_and-mask,
  bit_or-disjoint, bit_and-high,
}

unfoldable pub k_memcpy : ℕ → ℕ → ℕ → List ℕ → Run (List ℕ)
k_memcpy dest src zero memory = ok memory
k_memcpy dest src (suc len) memory = do
  byte ← read memory src
  memory' ← write memory dest byte
  k_memcpy (suc dest) (suc src) len memory'

unfoldable pub k_memset : ℕ → ℕ → ℕ → List ℕ → Run (List ℕ)
k_memset dest val zero memory = ok memory
k_memset dest val (suc len) memory = do
  memory' ← write memory dest val
  k_memset (suc dest) val len memory'

-- The loop of `k_strcmp`, up to its `break` or its end: the value of `failed` and of `i`.
unfoldable pub compare_from : ℕ → ℕ → ℕ → ℕ → List ℕ → Run (ℕ × ℕ)
compare_from zero str1 str2 i memory = out_of_fuel
compare_from (suc fuel) str1 str2 i memory = do
  a ← read memory (str1 + i)
  let rest = compare_from fuel str1 str2 (suc i) memory
  if a == 0 then ok (0, i) else do
    b ← read memory (str2 + i)
    if b == 0 then ok (0, i) else if a == b then rest else ok (1, i)

-- Each round moves both strings on, so that a string has no more characters than memory has bytes.
unfoldable pub k_strcmp : ℕ → ℕ → List ℕ → Run ℕ
k_strcmp str1 str2 memory = do
  (failed, i) ← compare_from (suc (length memory)) str1 str2 0 memory
  a ← read memory (str1 + i)
  b ← read memory (str2 + i)
  ok (if (a == 0 && not (b == 0)) || (not (a == 0) && b == 0) then 1 else failed)

unfoldable pub copy_from : ℕ → ℕ → ℕ → List ℕ → Run (List ℕ)
copy_from zero dest src memory = out_of_fuel
copy_from (suc fuel) dest src memory = do
  byte ← read memory src
  memory' ← write memory dest byte
  next ← read memory' (suc src)
  let rest = copy_from fuel (suc dest) (suc src) memory'
  if next == 0 then ok memory' else rest

-- The function has no `return`, so that only its effect is modelled.
unfoldable pub k_strcpy : ℕ → ℕ → List ℕ → Run (List ℕ)
k_strcpy dest src memory = copy_from (length memory) dest src memory
