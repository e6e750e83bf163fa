-- ===== src/Bitmap/Tests.antt =====
-- Runs of the functions of bitmap.c on a bitmap of two words.
use grub_os_iso_image.Common.{
  ℕ, ◌≡◌, refl, true, ◌||◌, Option, List, [], ◌∷◌, arith, ltb, length, ok, pos,
}
use grub_os_iso_image.Bitmap.{
  free_frame_from, free_bit_from, set, use_frames_in_bytes, next_free_frame_index,
}
use grub_os_iso_image.Bitmap.Frames.{is_used}
use grub_os_iso_image.Bitmap.Set.{IsMarked, set_lem}
use grub_os_iso_image.Bitmap.Loops.{use_frames_in_bytes_lem}
use grub_os_iso_image.Bitmap.Search.{FirstFree, frame_code, next_free_frame_index_lem}

abbrev two_words : List ℕ
two_words = 0xe000_0000 ∷ 1 ∷ []

set_lem_example :
    (after : List ℕ) × (set two_words 2 40 1 ≡ ok (pos 0, after)) × IsMarked two_words 40 true after
set_lem_example = set_lem two_words 40 1 (omega arith)

use_frames_in_bytes_lem_example :
    (after : List ℕ) × (use_frames_in_bytes two_words 2 20500 ≡ ok (pos 0, after))
    × (length after ≡ 2)
    × ((f : ℕ) → is_used after f ≡ (ltb f 5 || is_used two_words f))
use_frames_in_bytes_lem_example =
    use_frames_in_bytes_lem two_words 20500 (omega arith) (omega arith)

next_free_frame_index_lem_example :
    (r : Option ℕ) × (next_free_frame_index two_words 2 ≡ ok (frame_code r))
    × FirstFree two_words 0 64 r
next_free_frame_index_lem_example = next_free_frame_index_lem two_words (omega arith)

-- The first three frames are in use.
fourth_frame : next_free_frame_index two_words 2 ≡ ok (pos 3)
unfolding next_free_frame_index free_frame_from free_bit_from
fourth_frame = refl
