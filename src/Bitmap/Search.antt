-- ===== src/Bitmap/Search.antt =====
-- `next_free_frame_index`.
use grub_os_iso_image.Common.{
  ℕ, zero, suc, ◌+◌, ◌-◌, ◌*◌, ◌/◌, ◌%◌, ◌^◌, ◌≤◌, ◌<◌, ◌≡◌, refl, inl, inr, Bool, true, false, not,
  ◌&&◌, Option, none, some, List, arith, ltb, ◌==◌, ltb→lt, ltb→le, ==_iff, Bool-cases, length,
  get_or, u32, Run, ok, read-eq-ok, ℤ, pos, minus, int32, bit_and, bit_at, bit_at_le, bit_and-pow,
}
use mathlib.Core.Path.{subst}
use grub_os_iso_image.Bitmap.{free_bit_from, free_frame_from, next_free_frame_index}
use grub_os_iso_image.Bitmap.Frames.{is_used}

-- What a search of the frames from `first` on, `count` of them, finds.
pub data FirstFree (bitmap : List ℕ) (first count : ℕ) : Option ℕ → Type 0 where
  found :
      {frame : ℕ}
      → first ≤ frame
      → frame < first + count
      → is_used bitmap frame ≡ false
      → ((f : ℕ) → first ≤ f → f < frame → is_used bitmap f ≡ true)
      → FirstFree bitmap first count (some frame)
  all_used :
      ((f : ℕ) → first ≤ f → f < first + count → is_used bitmap f ≡ true)
      → FirstFree bitmap first count none

-- The `int` that the search returns.
abbrev pub frame_code : Option ℕ → ℤ
frame_code none = minus 1
frame_code (some frame) = pos frame

module _ (bitmap : List ℕ) where
  skip :
      (first n count : ℕ) (r : Option ℕ)
      → ((f : ℕ) → first ≤ f → f < first + n → is_used bitmap f ≡ true)
      → FirstFree bitmap (first + n) count r
      → FirstFree bitmap first (n + count) r
  skip first n count r used (found l b free below) =
      found (omega arith) (omega arith) free (λ f p q. elim (Bool-cases (ltb f (first + n))) [
        | inl e ↦ used f p (ltb→lt f (first + n) e)
        | inr e ↦ below f (ltb→le f (first + n) e) q
      ])
  skip first n count r used (all_used rest) = all_used (λ f p q.
      elim (Bool-cases (ltb f (first + n))) [
        | inl e ↦ used f p (ltb→lt f (first + n) e)
        | inr e ↦ rest f (ltb→le f (first + n) e) (omega arith)
      ])

  mask : (j : ℕ) → j < 32 → 2 ^ 31 / 2 ^ j ≡ 2 ^ (31 - j)
  mask j h = (==_iff _ _).0 (every 32 j refl h)
    where
      all : ℕ → Bool
      all zero = true
      all (suc n) = (2 ^ 31 / 2 ^ n == 2 ^ (31 - n)) && all n

      every : (n j : ℕ) → all n ≡ true → j < n → (2 ^ 31 / 2 ^ j == 2 ^ (31 - j)) ≡ true
      every zero j a h = absurd (omega arith)
      every (suc n) j a h = ground (arith, every n j)

  pow_positive : (n : ℕ) → 0 < 2 ^ n
  pow_positive zero = omega arith
  pow_positive (suc n) = omega (arith, pow_positive n)

  -- The test of the inner loop.
  is_used-bit :
      (i j : ℕ)
      → j < 32
      → (bit_and (get_or bitmap i 0) (2 ^ 31 / 2 ^ j) == 0) ≡ not (is_used bitmap (i * 32 + j))
  is_used-bit i j h =
      let word = get_or bitmap i 0 in
      let q : (i * 32 + j) / 32 ≡ i = omega arith in
      let r : (i * 32 + j) % 32 ≡ j = omega arith in
      rw (q, r, mask j h, bit_and-pow (31 - j) word)
        (zero_iff (bit_at word (31 - j)) (2 ^ (31 - j)) (bit_at_le word (31 - j))
          (pow_positive (31 - j)))
    where
      zero_iff : (b p : ℕ) → b ≤ 1 → 0 < p → (b * p == 0) ≡ not (b == 1)
      zero_iff zero p l h = ground arith
      zero_iff (suc zero) p l h = ground arith
      zero_iff (suc (suc b)) p l h = absurd (omega arith)

  free_bit_from_lem :
      (rounds i j : ℕ)
      → j + rounds ≡ 32
      → FirstFree bitmap (i * 32 + j) rounds (free_bit_from rounds i j (get_or bitmap i 0))
  unfolding free_bit_from
  free_bit_from_lem zero i j h = all_used (λ f p q. absurd (omega arith))
  free_bit_from_lem (suc rounds) i j h = elim (Bool-cases (is_used bitmap (i * 32 + j))) [
    | inl used ↦
        let later : FirstFree bitmap (i * 32 + j + 1) rounds
            (free_bit_from rounds i (suc j) (get_or bitmap i 0)) =
          subst
            (λ n. FirstFree bitmap n rounds (free_bit_from rounds i (suc j) (get_or bitmap i 0)))
            (omega arith) (free_bit_from_lem rounds i (suc j) (omega arith)) in
        let one : 1 + rounds ≡ suc rounds = omega arith in
        rw (is_used-bit i j (omega arith), used)
          (subst
            (λ n.
              FirstFree bitmap (i * 32 + j) n (free_bit_from rounds i (suc j) (get_or bitmap i 0)))
            one
            (skip (i * 32 + j) 1 rounds _
              (λ f p q. let e : f ≡ i * 32 + j = omega arith in rw e used) later))
    | inr free ↦
        rw (is_used-bit i j (omega arith), free)
          (found (omega arith) (omega arith) free (λ f p q. absurd (omega arith)))
  ]

  free_frame_from_lem :
      (rounds i : ℕ)
      → i + rounds ≡ length bitmap
      → length bitmap * 32 ≤ 2 ^ 31
      → (r : Option ℕ) × (free_frame_from rounds i bitmap ≡ ok (frame_code r))
        × FirstFree bitmap (i * 32) (rounds * 32) r
  unfolding free_frame_from
  free_frame_from_lem zero i h b = (none, refl, all_used (λ f p q. absurd (omega arith)))
  free_frame_from_lem (suc rounds) i h b = rw (read-eq-ok bitmap i 0 (omega arith)) (
      after (free_frame_from_lem rounds (suc i) (omega arith) b)
        (free_bit_from 32 i 0 (get_or bitmap i 0)) (free_bit_from_lem 32 i 0 refl))
    where
      after :
          (r : Option ℕ) × (free_frame_from rounds (suc i) bitmap ≡ ok (frame_code r))
            × FirstFree bitmap (suc i * 32) (rounds * 32) r
          → (r : Option ℕ) → FirstFree bitmap (i * 32 + 0) 32 r
          → (r' : Option ℕ) × (◌≡◌ {A = Run ℤ}
              (elim r [
                | none ↦ free_frame_from rounds (suc i) bitmap
                | some frame ↦ ok (int32 (u32 frame))
              ])
              (ok (frame_code r')))
            × FirstFree bitmap (i * 32) (suc rounds * 32) r'
      after later r (found {frame} l q free below) =
          let same : u32 frame ≡ frame = omega arith in
          let nonneg : ltb frame (2 ^ 31) ≡ true = ground arith in
          (
            some frame,
            rw (same, nonneg),
            found (omega arith) (omega arith) free (λ f p q. below f (omega arith) q),
          )
      after (r', run, rest) r (all_used used) =
          let rest' : FirstFree bitmap (i * 32 + 32) (rounds * 32) r' =
            subst (λ n. FirstFree bitmap n (rounds * 32) r') (omega arith) rest in
          (
            r',
            run,
            subst (λ n. FirstFree bitmap (i * 32) n r') (omega arith)
                (skip (i * 32) 32 (rounds * 32) r' (λ f p q. used f (omega arith) (omega arith))
                  rest'),
          )

-- For a bitmap of at most 2 ^ 31 frames `next_free_frame_index` returns either the index of a
-- frame that is not used while all before it are, or -1 with all frames used.
pub next_free_frame_index_lem :
    (bitmap : List ℕ)
    → length bitmap * 32 ≤ 2 ^ 31
    → (r : Option ℕ) × (next_free_frame_index bitmap (length bitmap) ≡ ok (frame_code r))
      × FirstFree bitmap 0 (length bitmap * 32) r
unfolding next_free_frame_index
next_free_frame_index_lem bitmap b = free_frame_from_lem bitmap (length bitmap) 0 (omega arith) b
