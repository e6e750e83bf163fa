-- ===== src/Paging/Tests.antt =====
-- A page fault right after the start: frames 0 and 1 are in use, and frame 1 is the directory.
use grub_os_iso_image.Common.{
  ℕ, zero, suc, ◌<◌, ◌≡◌, refl, ◌≢◌, true, ◌&&◌, List, ◌∷◌, arith, ◌==◌, if◌then◌else◌, replicate,
  ok,
}
use grub_os_iso_image.Bitmap.Frames.{is_used}
use grub_os_iso_image.Paging.{Machine, setup_page}
use grub_os_iso_image.Paging.Correct.{AreFirstFree, IsMapped, setup_page_lem}
use grub_os_iso_image.Paging.Leak.{IsLeaking, setup_page_leaks}

abbrev words : ℕ → ℕ → ℕ
words f i = if f == 1 && i == 1023 then 4097 else 2

abbrev two_used : List ℕ
two_used = 0xc000_0000 ∷ replicate 1600 0

abbrev machine : Machine
machine = record { frames = words; cr3 = 1; bitmap = two_used }

first_used : (f : ℕ) → f < 3 → f ≢ 2 → is_used two_used f ≡ true
first_used zero h n = refl
first_used (suc zero) h n = refl
first_used (suc (suc zero)) h n = absurd (n refl)
first_used (suc (suc (suc f))) h n = absurd (omega arith)

first_free : AreFirstFree two_used 2 3
first_free = record {
  table_free = refl;
  data_free = refl;
  ascending = omega arith;
  within = omega arith;
  others_used = first_used;
}

setup_page_lem_example :
    (m' : Machine) × (setup_page 0xa0001004 machine ≡ ok m') × IsMapped 0xa0001004 2 3 machine m'
setup_page_lem_example =
    setup_page_lem 0xa0001004 2 3 machine (omega arith) (omega arith) refl (refl, refl) refl refl
      first_free

-- The same machine with a page table for the address in frame 0.
abbrev with_table : Machine
with_table = record machine { frames = λ f i. if f == 1 && i == 640 then 3 else words f i }

setup_page_leaks_example :
    (m' : Machine) × (setup_page 0xa0001004 with_table ≡ ok m')
    × IsLeaking 0xa0001004 2 3 with_table m'
setup_page_leaks_example =
    setup_page_leaks 0xa0001004 0 2 3 with_table (omega arith) (omega arith) refl (refl, refl)
      (refl, refl) (λ e. omega arith) refl first_free
