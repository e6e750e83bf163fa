-- ===== src/Paging/Walk.antt =====
-- Accesses through the last entry of the directory, which is the directory itself.
use grub_os_iso_image.Common.{ℕ, ◌+◌, ◌*◌, ◌/◌, ◌%◌, ◌^◌, ◌<◌, ◌≡◌, arith, ok}
use grub_os_iso_image.Paging.{
  Machine, present, translate, page_directory_index, page_table_ptr, page_directory_ptr,
}

-- The last entry of the directory is the directory itself.
abbrev pub IsRecursive : Machine → Type 0
IsRecursive m = (m.frames m.cr3 1023 % 2 ≡ 1) × (m.frames m.cr3 1023 / 4096 ≡ m.cr3)

pub present-ok : (e frame : ℕ) → e % 2 ≡ 1 → e / 4096 ≡ frame → present e ≡ ok frame
present-ok e frame p f = rw (p, f)

-- The directory's own words.
pub translate-directory :
    (m : Machine) (address : ℕ)
    → IsRecursive m
    → address < 2 ^ 32
    → translate m (page_directory_ptr address) ≡ ok (m.cr3, page_directory_index address)
unfolding translate
translate-directory m address r h =
    let high : page_directory_ptr address / 2 ^ 22 ≡ 1023 = omega arith in
    let middle : page_directory_ptr address / 2 ^ 12 % 1024 ≡ 1023 = omega arith in
    let low : page_directory_ptr address % 4096 / 4 ≡ page_directory_index address = omega arith in
    rw (
      high,
      present-ok (m.frames m.cr3 1023) m.cr3 r.0 r.1,
      middle,
      present-ok (m.frames m.cr3 1023) m.cr3 r.0 r.1,
      low,
    )

-- The words of the page table that the directory names.
pub translate-table :
    (m : Machine) (address i table : ℕ)
    → IsRecursive m
    → address < 2 ^ 32
    → i < 1024
    → m.frames m.cr3 (page_directory_index address) % 2 ≡ 1
    → m.frames m.cr3 (page_directory_index address) / 4096 ≡ table
    → translate m (page_table_ptr address + 4 * i) ≡ ok (table, i)
unfolding translate
translate-table m address i table r h b p f =
    let high : (page_table_ptr address + 4 * i) / 2 ^ 22 ≡ 1023 = omega arith in
    let middle : (page_table_ptr address + 4 * i) / 2 ^ 12 % 1024 ≡ page_directory_index address =
      omega arith in
    let low : (page_table_ptr address + 4 * i) % 4096 / 4 ≡ i = omega arith in
    rw (
      high,
      present-ok (m.frames m.cr3 1023) m.cr3 r.0 r.1,
      middle,
      present-ok (m.frames m.cr3 (page_directory_index address)) table p f,
      low,
    )
