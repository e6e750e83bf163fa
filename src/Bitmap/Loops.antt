-- ===== src/Bitmap/Loops.antt =====
-- `reset_bitmap` and `use_frames_in_bytes`.
use grub_os_iso_image.Common.{
  ℕ, zero, suc, ◌+◌, ◌-◌, ◌*◌, ◌/◌, ◌%◌, ◌^◌, ◌≤◌, ◌<◌, ◌≡◌, refl, ◌∙◌, false, ◌&&◌, ◌||◌, List, [],
  ◌∷◌, arith, ltb, leb, length, get_or, replicate, length-replicate, u32, ok, ◌>>=◌, >>=_assoc, pos,
  bit_at-zero,
}
use grub_os_iso_image.Bitmap.{reset_from, reset_bitmap, use_frames_from, use_frames_in_bytes}
use grub_os_iso_image.Bitmap.Frames.{is_used}
use grub_os_iso_image.Bitmap.Set.{set_lem}

reset_from_cons :
    (rounds i w : ℕ) (bitmap : List ℕ)
    → reset_from rounds (suc i) (w ∷ bitmap) ≡ (reset_from rounds i bitmap >>= λ b. ok (w ∷ b))
unfolding reset_from
reset_from_cons zero i w bitmap = refl
reset_from_cons (suc rounds) i w bitmap = simp (>>=_assoc, reset_from_cons rounds)

reset_from_lem :
    (bitmap : List ℕ) → reset_from (length bitmap) 0 bitmap ≡ ok (replicate (length bitmap) 0)
unfolding reset_from
reset_from_lem [] = refl
reset_from_lem (w ∷ bitmap) = rw (reset_from_cons (length bitmap) 0 0 bitmap, reset_from_lem bitmap)

is_used-replicate : (n f : ℕ) → is_used (replicate n 0) f ≡ false
is_used-replicate n f = rw (zeros n (f / 32), bit_at-zero (31 - f % 32))
  where
    zeros : (n i : ℕ) → ◌≡◌ {A = ℕ} (get_or (replicate n 0) i 0) 0
    zeros zero i = refl
    zeros (suc n) zero = refl
    zeros (suc n) (suc i) = zeros n i

-- `reset_bitmap` returns, keeps the length of the bitmap, and no frame is used afterwards.
pub reset_bitmap_lem :
    (bitmap : List ℕ)
    → (after : List ℕ) × (reset_bitmap bitmap (length bitmap) ≡ ok after)
      × (length after ≡ length bitmap)
      × ((f : ℕ) → is_used after f ≡ false)
unfolding reset_bitmap
reset_bitmap_lem bitmap = (
  replicate (length bitmap) 0,
  reset_from_lem bitmap,
  length-replicate (length bitmap) 0,
  is_used-replicate (length bitmap),
)

-- The frames from `i` on, `rounds` of them, are marked as used.
record IsFilled (before : List ℕ) (i rounds : ℕ) (after : List ℕ) : Type 0 where
  same_length : length after ≡ length before
  filled : (f : ℕ) → is_used after f ≡ (leb i f && ltb f (i + rounds) || is_used before f)

use_frames_from_lem :
    (rounds i : ℕ) (bitmap : List ℕ)
    → i + rounds ≤ length bitmap * 32
    → (after : List ℕ) × (use_frames_from rounds i bitmap (length bitmap) ≡ ok after)
      × IsFilled bitmap i rounds after
unfolding use_frames_from
use_frames_from_lem zero i bitmap h =
    (bitmap, refl, record { same_length = refl; filled = λ f. ground arith })
use_frames_from_lem (suc rounds) i bitmap h =
    let (b, set_run, marked) = set_lem bitmap i 1 (omega arith) in
    let (after, run, filled) =
      use_frames_from_lem rounds (suc i) b (omega (arith, marked.same_length)) in
    (
      after,
      rw set_run (rw marked.same_length at run),
      record {
        same_length = filled.same_length ∙ marked.same_length;
        filled = λ f. ground (arith, filled.filled f, marked.marked f);
      },
    )

-- For a bitmap of fewer than 2 ^ 32 frames that has a frame for each 4096 bytes of the size,
-- `use_frames_in_bytes` returns 0 and keeps the length of the bitmap. The frames below size / 4096
-- are used afterwards, and the others as before.
pub use_frames_in_bytes_lem :
    (bitmap : List ℕ) (size : ℕ)
    → length bitmap * 32 < 2 ^ 32
    → size / 4096 ≤ length bitmap * 32
    → (after : List ℕ) × (use_frames_in_bytes bitmap (length bitmap) size ≡ ok (pos 0, after))
      × (length after ≡ length bitmap)
      × ((f : ℕ) → is_used after f ≡ (ltb f (size / 4096) || is_used bitmap f))
unfolding use_frames_in_bytes
use_frames_in_bytes_lem bitmap size w h =
    let (after, run, filled) = use_frames_from_lem (size / 4096) 0 bitmap (omega arith) in
    let room : ltb (u32 (length bitmap * 32)) (size / 4096) ≡ false = ground arith in
    (after, rw (room, run), filled.same_length, λ f. ground (arith, filled.filled f))
