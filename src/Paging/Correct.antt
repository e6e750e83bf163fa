-- ===== src/Paging/Correct.antt =====
-- What `setup_page` does for an address whose page table is missing.
use grub_os_iso_image.Common.{
  ℕ, ◌+◌, ◌*◌, ◌/◌, ◌%◌, ◌^◌, ◌<◌, ◌≡◌, sym, ◌∙◌, ◌≢◌, ◌⊎◌, inl, inr, true, false, ◌||◌, List,
  arith, ◌==◌, length, ok,
}
use grub_os_iso_image.Bitmap.Frames.{is_used}
use grub_os_iso_image.Kernel.{bitmap_element_count}
use grub_os_iso_image.Paging.{
  Machine, translate, setup_page_at, setup_page, page_directory_index, page_table_index,
}
use grub_os_iso_image.Paging.Walk.{IsRecursive, present-ok}
use grub_os_iso_image.Paging.Tables.{with_frames, HasTable}
use grub_os_iso_image.Paging.Setup.{mark_used_lem, first_free_is, install_table_lem, connect_lem}

-- The two frames are the first that are not used.
pub record AreFirstFree (bitmap : List ℕ) (table data_frame : ℕ) : Type 0 where
  pub table_free : is_used bitmap table ≡ false
  pub data_free : is_used bitmap data_frame ≡ false
  pub ascending : table < data_frame
  pub within : data_frame < bitmap_element_count * 32
  pub others_used : (f : ℕ) → f < data_frame → f ≢ table → is_used bitmap f ≡ true

-- `m'` maps the address to a new frame, with a new page table, and leaves all other words of memory.
pub record IsMapped (address table data_frame : ℕ) (m m' : Machine) : Type 0 where
  pub mapped : translate m' address ≡ ok (data_frame, address % 4096 / 4)
  pub marked : (f : ℕ) → is_used m'.bitmap f ≡ (f == table || f == data_frame || is_used m.bitmap f)
  pub same_directory : m'.cr3 ≡ m.cr3
  pub recursive : IsRecursive m'
  pub unchanged :
      (f i : ℕ)
      → f ≢ table
      → (f ≢ m.cr3) ⊎ (i ≢ page_directory_index address)
      → m'.frames f i ≡ m.frames f i
  -- The other entries of the new page table are not present.
  pub not_present : (i : ℕ) → i < 1023 → i ≢ page_table_index address → m'.frames table i ≡ 2

pub translate_lem :
    (m : Machine) (address table frame : ℕ)
    → HasTable address table m
    → m.frames table (page_table_index address) ≡ frame * 4096 + 1
    → translate m address ≡ ok (frame, address % 4096 / 4)
unfolding translate
translate_lem m address table frame has e =
    let high : address / 2 ^ 22 ≡ page_directory_index address = omega arith in
    let middle : address / 2 ^ 12 % 1024 ≡ page_table_index address = omega arith in
    rw (
      high,
      present-ok (m.frames m.cr3 (page_directory_index address)) table has.0 has.1,
      middle,
      e,
      present-ok (frame * 4096 + 1) frame (omega arith) (omega arith),
    )

-- For an address below 2 ^ 32 whose directory entry is not the last and not present, with a
-- recursive directory whose frame is in use, a bitmap of the declared length and two first free
-- frames, `setup_page` returns. The address is then translated to the second of these frames; both
-- frames are marked as used, and no others change; the directory stays recursive; all words
-- outside the first frame and the directory entry are unchanged; and the entries of the new page
-- table other than the address's and the last are not present.
pub setup_page_lem :
    (address table data_frame : ℕ) (m : Machine)
    → address < 2 ^ 32
    → page_directory_index address < 1023
    → length m.bitmap ≡ bitmap_element_count
    → IsRecursive m
    → m.frames m.cr3 (page_directory_index address) % 2 ≡ 0
    → is_used m.bitmap m.cr3 ≡ true
    → AreFirstFree m.bitmap table data_frame
    → (m' : Machine) × (setup_page address m ≡ ok m') × IsMapped address table data_frame m m'
unfolding setup_page setup_page_at
setup_page_lem address table data_frame m small below l r e u free =
    let p : table < bitmap_element_count * 32 = omega (arith, free.ascending, free.within) in
    let n : table ≢ m.cr3 = λ q. let used = rw (sym q) at u in let t = free.table_free in cc in
    let cr3 : m.cr3 ≢ table = λ q. n (sym q) in
    let first =
      first_free_is m.bitmap table l p free.table_free
        (λ f h. free.others_used f (omega (arith, free.ascending)) (λ q. omega arith)) in
    let (bitmap1, run1, marked1) = mark_used_lem table m l p in
    let m1 = record m { bitmap = bitmap1 } in
    let l1 : length bitmap1 ≡ bitmap_element_count = marked1.same_length ∙ l in
    let (frames, run2, has, r2, same, cleared) =
      install_table_lem address small below table m1 p n r e in
    let m2 = with_frames m1 frames in
    let data_free : is_used bitmap1 data_frame ≡ false =
      ground (arith, marked1.marked data_frame, free.data_free, free.ascending) in
    let second =
      first_free_is bitmap1 data_frame l1 free.within data_free
        (λ f h. ground (arith, marked1.marked f, free.others_used f)) in
    let (m', run3, same_cr3, marked2, entry, kept) =
      connect_lem address small below table data_frame m2 l1 free.within n r2 has in
    let directory : (i : ℕ) → m'.frames m'.cr3 i ≡ frames m.cr3 i =
      λ i. rw same_cr3 (kept m.cr3 i (inl cr3)) in
    let has' : HasTable address table m' = rw (directory (page_directory_index address)) has in
    (
      m',
      rw (first, run1, run2, second) run3,
      record {
        mapped = translate_lem m' address table data_frame has' entry;
        marked = λ f. ground (arith, marked1.marked f, marked2.marked f);
        same_directory = same_cr3;
        recursive = (rw (directory 1023) r2.0, rw (directory 1023, same_cr3) r2.1);
        unchanged = λ f i q o. kept f i (inl q) ∙ same f i q o;
        not_present = λ i h q. kept table i (inr q) ∙ cleared i h;
      },
    )
