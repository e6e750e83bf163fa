-- ===== src/Sort.antt =====
-- sort.c. The array is a list, the comparator a function on its elements and the swap function a
-- function on the array, as the function pointers are in C.
pub mod Carry
pub mod Bubble
pub mod Integers
pub mod Exchange
pub mod Partition
pub mod Quick
mod Tests
use grub_os_iso_image.Common.{
  ℕ, zero, suc, ◌+◌, ◌-◌, ◌*◌, ◌/◌, ◌%◌, ◌^◌, ◌≤◌, ◌<◌, ◌≡◌, refl, sym, ap, ◌∙◌, ◌≢◌, ◌↔◌, ◌⊎◌, inl,
  inr, Bool, true, false, not, ◌&&◌, ◌||◌, Option, none, some, List, [], ◌∷◌, ◌++◌, append_assoc,
  append-nil, arith, ltb, leb, ◌==◌, if◌then◌else◌, ltb→lt, ltb→le, lt→ltb, le→ltb, ==_iff,
  Bool-cases, length, get_elem?, get_or, replicate, length-append, length-replicate, length-set,
  get_elem?-eq-get_or, get_or-set_self, get_or-set_ne, u8, u16, u32, add32, sub32, add64, sub64,
  ◌<<<◌, ◌>>>◌, Run, ok, fault, out_of_fuel, ◌>>=◌, >>=_assoc, >>=-ok, read, write, read-append,
  write-append, Ending, returns, faults, exhausts, ending, >>=-halts, >>=-eq-ok, read-halts,
  write-halts, read-eq-ok, read-eq-fault, write-eq-ok, ℤ, pos, negsuc, minus, int32, min, max,
  bit_and, bit_or, bit_xor, bit_at, bit_at-bit_and, bit_at-bit_or, bit_at_le, bit_at-zero,
  bit_at-pow_self, bit_at-pow_ne, bit_at-complement, bit_and-zero, bit_and-pow, bit_at-flip,
  bit_at-div, power_lt, bit_and-mask, bit_or-disjoint, bit_or_comm, bit_and-high,
}

abbrev pub is_positive : ℤ → Bool
is_positive (pos n) = ltb 0 n
is_positive (negsuc n) = false

abbrev pub is_negative : ℤ → Bool
is_negative (pos n) = false
is_negative (negsuc n) = true

-- `<` on `int`.
abbrev pub lt_int : ℤ → ℤ → Bool
lt_int (pos a) (pos b) = ltb a b
lt_int (pos a) (negsuc b) = false
lt_int (negsuc a) (pos b) = true
lt_int (negsuc a) (negsuc b) = ltb b a

unfoldable pub int_comparator : ℤ → ℤ → ℤ
int_comparator lhs rhs = if lt_int lhs rhs then minus 1 else if lt_int rhs lhs then pos 1 else pos 0

unfoldable pub int_swap : {A : Type 0} → List A → ℕ → ℕ → Run (List A)
int_swap array i j = do
  temp ← read array i
  other ← read array j
  array' ← write array i other
  write array' j temp

module _ {A : Type 0} (comparator : A → A → ℤ) (swap : List A → ℕ → ℕ → Run (List A)) where
  -- The inner loop of `bubblesort` from index `i` on.
  unfoldable pub bubble_from : ℕ → ℕ → List A → Run (List A)
  bubble_from zero i array = ok array
  bubble_from (suc rounds) i array = do
    a ← read array i
    b ← read array (suc i)
    array' ← (if is_positive (comparator a b) then swap array i (suc i) else ok array)
    bubble_from rounds (suc i) array'

  -- The outer loop, which counts `n` down to 1.
  unfoldable pub bubblesort : ℕ → List A → Run (List A)
  bubblesort zero array = ok array
  bubblesort (suc zero) array = ok array
  bubblesort (suc (suc n)) array = bubble_from (suc n) 0 array >>= bubblesort (suc n)

  -- The loop of `quicksort_internal` from `ptr_idx` on, with the `split_index` it ends with.
  unfoldable pub partition_from : ℕ → ℕ → ℕ → ℕ → List A → Run (ℕ × List A)
  partition_from first zero ptr_idx split_index array = ok (split_index, array)
  partition_from first (suc rounds) ptr_idx split_index array = do
    a ← read array ptr_idx
    pivot ← read array first
    let smaller =
        (swap array ptr_idx split_index
          >>= partition_from first rounds (suc ptr_idx) (suc split_index))
    let rest = partition_from first rounds (suc ptr_idx) split_index array
    if is_negative (comparator a pivot) then smaller else rest

  -- `behind` is `last + 1`, so that a `last` of -1 is 0. The pivot is part of the left range again.
  unfoldable pub quicksort_internal : ℕ → ℕ → ℕ → List A → Run (List A)
  quicksort_internal zero first behind array = out_of_fuel
  quicksort_internal (suc fuel) first behind array =
      let sorted = (do
        (split_index, array1) ←
            partition_from first (behind - suc first) (suc first) (suc first) array
        array2 ← swap array1 first (split_index - 1)
        array3 ← quicksort_internal fuel first split_index array2
        quicksort_internal fuel split_index behind array3) in
      if ltb (suc first) behind then sorted else ok array

  unfoldable pub quicksort : ℕ → List A → Run (List A)
  quicksort element_count array = quicksort_internal (2 * element_count + 1) 0 element_count array
