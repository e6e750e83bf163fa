-- ===== src/Bitmap/Set.antt =====
-- `set` and `get`.
use grub_os_iso_image.Common.{
  ℕ, zero, suc, ◌-◌, ◌*◌, ◌/◌, ◌%◌, ◌^◌, ◌≤◌, ◌<◌, ◌≡◌, refl, ap, ◌≢◌, inl, inr, Bool, not, List,
  arith, ltb, ◌==◌, if◌then◌else◌, lt→ltb, le→ltb, ==_iff, Bool-cases, length, get_or,
  set as set_elem, length-set, get_or-set_self, get_or-set_ne, ok, fault, read-eq-ok, read-eq-fault,
  write-eq-ok, pos, minus, bit_at, bit_at_le, bit_and-pow,
}
use grub_os_iso_image.Bitmap.{bit_index, set_bit, set, get}
use grub_os_iso_image.Bitmap.Frames.{is_used, bit_at-set_bit}

-- `after` marks the frame as `value` says, and the other frames as `before` does.
pub record IsMarked (before : List ℕ) (frame : ℕ) (used : Bool) (after : List ℕ) : Type 0 where
  pub same_length : length after ≡ length before
  pub marked : (f : ℕ) → is_used after f ≡ (if f == frame then used else is_used before f)

is_used-set_elem :
    (bitmap : List ℕ) (frame value f : ℕ)
    → frame / 32 < length bitmap
    → is_used
        (set_elem bitmap
          (frame / 32)
          (set_bit (get_or bitmap (frame / 32) 0) (31 - frame % 32) value))
        f
      ≡ (if f == frame then not (value == 0) else is_used bitmap f)
is_used-set_elem bitmap frame value f h =
    let word = get_or bitmap (frame / 32) 0 in
    elim (Bool-cases (f / 32 == frame / 32)) [
      | inl same ↦
          let e : f / 32 ≡ frame / 32 = (==_iff _ _).0 same in
          rw (e, get_or-set_self bitmap (frame / 32) (set_bit word (31 - frame % 32) value) 0 h)
            (ground (
              arith,
              bit_at-set_bit word (31 - frame % 32) value (31 - f % 32) (omega arith) (omega arith),
            ))
      | inr other ↦
          let n : frame / 32 ≢ f / 32 = λ p. ground arith in
          rw (get_or-set_ne bitmap (frame / 32) (f / 32) (set_bit word (31 - frame % 32) value) 0 n)
            (ground arith)
    ]

-- For a frame of the bitmap, `set` returns 0 and keeps the length of the bitmap. The frame is used
-- afterwards exactly if the value is not 0, and the other frames are as before.
pub set_lem :
    (bitmap : List ℕ) (frame value : ℕ)
    → frame / 32 < length bitmap
    → (after : List ℕ) × (set bitmap (length bitmap) frame value ≡ ok (pos 0, after))
      × IsMarked bitmap frame (not (value == 0)) after
unfolding set bit_index
set_lem bitmap frame value h =
    let word = get_or bitmap (frame / 32) 0 in
    let word' = set_bit word (31 - frame % 32) value in
    (
      set_elem bitmap (frame / 32) word',
      rw (
        le→ltb (length bitmap) (frame / 32) (omega arith),
        read-eq-ok bitmap (frame / 32) 0 h,
        write-eq-ok bitmap (frame / 32) word' h,
      ),
      record {
        same_length = length-set bitmap (frame / 32) word';
        marked = λ f. is_used-set_elem bitmap frame value f h;
      },
    )

-- For a frame of the bitmap `get` returns 1 if the frame is used and else 0.
get_lem :
    (bitmap : List ℕ) (frame : ℕ)
    → frame / 32 < length bitmap
    → get bitmap (length bitmap) frame ≡ ok (pos (if is_used bitmap frame then 1 else 0))
unfolding get bit_index
get_lem bitmap frame h =
    let word = get_or bitmap (frame / 32) 0 in
    let bit = 31 - frame % 32 in
    rw
      (
        le→ltb (length bitmap) (frame / 32) (omega arith),
        read-eq-ok bitmap (frame / 32) 0 h,
        bit_and-pow bit word,
      )
      (ap (λ b. ok (pos (if b then 1 else 0))) (positive_iff word bit))
  where
    pow_positive : (n : ℕ) → 0 < 2 ^ n
    pow_positive zero = omega arith
    pow_positive (suc n) = omega (arith, pow_positive n)

    positive_iff : (word bit : ℕ) → ltb 0 (bit_at word bit * 2 ^ bit) ≡ (bit_at word bit == 1)
    positive_iff word bit = elim (Bool-cases (bit_at word bit == 1)) [
      | inl e ↦ rw ((==_iff _ _).0 e) (ground (arith, pow_positive bit))
      | inr e ↦
          let z : bit_at word bit ≡ 0 = ground (arith, bit_at_le word bit) in rw z (ground arith)
    ]

-- For a frame whose word is the first behind the bitmap, `set` and `get` access the array out of
-- bounds; for frames further behind, they return -1 and change nothing.
set_out_of_range :
    (bitmap : List ℕ) (frame value : ℕ)
    → length bitmap ≤ frame / 32
    → (set bitmap (length bitmap) frame value
        ≡ (if frame / 32 == length bitmap then fault else ok (minus 1, bitmap)))
      × (get bitmap (length bitmap) frame
          ≡ (if frame / 32 == length bitmap then fault else ok (minus 1)))
unfolding set get
set_out_of_range bitmap frame value h = elim (Bool-cases (frame / 32 == length bitmap)) [
  | inl e ↦
      let over = read-eq-fault bitmap (frame / 32) h in
      rw (e, le→ltb (length bitmap) (frame / 32) (ground arith), over) (refl, refl)
  | inr e ↦ rw (e, lt→ltb (length bitmap) (frame / 32) (ground arith)) (refl, refl)
]
