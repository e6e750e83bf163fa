-- ===== src/Paging/Leak.antt =====
-- `setup_page` for an address whose page table is there.
use grub_os_iso_image.Common.{
  ℕ, ◌*◌, ◌/◌, ◌%◌, ◌^◌, ◌<◌, ◌≡◌, sym, ◌∙◌, ◌≢◌, inl, true, false, ◌||◌, arith, ◌==◌, length, ok,
  bit_and, bit_and-mask,
}
use grub_os_iso_image.Bitmap.Frames.{is_used}
use grub_os_iso_image.Kernel.{bitmap_element_count}
use grub_os_iso_image.Paging.{
  Machine, translate, install_table, setup_page_at, setup_page, page_directory_index,
  page_directory_ptr,
}
use grub_os_iso_image.Paging.Walk.{IsRecursive, translate-directory}
use grub_os_iso_image.Paging.Tables.{HasTable, load-eq}
use grub_os_iso_image.Paging.Setup.{mark_used_lem, first_free_is, connect_lem}
use grub_os_iso_image.Paging.Correct.{AreFirstFree, translate_lem}

install_table_skips :
    (address table frame : ℕ) (m : Machine)
    → address < 2 ^ 32
    → IsRecursive m
    → HasTable address table m
    → install_table address frame m ≡ ok m
unfolding install_table
install_table_skips address table frame m small r has =
    let t = page_directory_index address in
    let there : (bit_and (m.frames m.cr3 t) 1 == 0) ≡ false =
      ground (arith, bit_and-mask 1 (m.frames m.cr3 t), has.0) in
    rw (
      load-eq m (page_directory_ptr address) m.cr3 t (translate-directory m address r small),
      there,
    )

-- The address is mapped to the data frame; the frame `spare` is marked as used, and holds what it held.
pub record IsLeaking (address spare data_frame : ℕ) (m m' : Machine) : Type 0 where
  pub mapped : translate m' address ≡ ok (data_frame, address % 4096 / 4)
  pub marked : (f : ℕ) → is_used m'.bitmap f ≡ (f == spare || f == data_frame || is_used m.bitmap f)
  pub same_words : (i : ℕ) → m'.frames spare i ≡ m.frames spare i
  pub same_directory : (i : ℕ) → m'.frames m'.cr3 i ≡ m.frames m.cr3 i

-- For an address below 2 ^ 32 whose directory entry is not the last and names a page table in a
-- used frame other than the directory, with a recursive directory, a bitmap of the declared length
-- and two first free frames, `setup_page` returns and maps the address to the second of them. The
-- first one is marked as used too, although it holds what it held and the directory is unchanged.
pub setup_page_leaks :
    (address table spare data_frame : ℕ) (m : Machine)
    → address < 2 ^ 32
    → page_directory_index address < 1023
    → length m.bitmap ≡ bitmap_element_count
    → IsRecursive m
    → HasTable address table m
    → table ≢ m.cr3
    → is_used m.bitmap table ≡ true
    → AreFirstFree m.bitmap spare data_frame
    → (m' : Machine) × (setup_page address m ≡ ok m') × IsLeaking address spare data_frame m m'
unfolding setup_page setup_page_at
setup_page_leaks address table spare data_frame m small below l r has n u free =
    let p : spare < bitmap_element_count * 32 = omega (arith, free.ascending, free.within) in
    let cr3 : m.cr3 ≢ table = λ q. n (sym q) in
    let other : spare ≢ table = λ q. let used = rw (sym q) at u in let t = free.table_free in cc in
    let first =
      first_free_is m.bitmap spare l p free.table_free
        (λ f h. free.others_used f (omega (arith, free.ascending)) (λ q. omega arith)) in
    let (bitmap1, run1, marked1) = mark_used_lem spare m l p in
    let m1 = record m { bitmap = bitmap1 } in
    let l1 : length bitmap1 ≡ bitmap_element_count = marked1.same_length ∙ l in
    let data_free : is_used bitmap1 data_frame ≡ false =
      ground (arith, marked1.marked data_frame, free.data_free, free.ascending) in
    let second =
      first_free_is bitmap1 data_frame l1 free.within data_free
        (λ f h. ground (arith, marked1.marked f, free.others_used f)) in
    let (m', run3, same_cr3, marked2, entry, kept) =
      connect_lem address small below table data_frame m1 l1 free.within n r has in
    let directory : (i : ℕ) → m'.frames m'.cr3 i ≡ m.frames m.cr3 i =
      λ i. rw same_cr3 (kept m.cr3 i (inl cr3)) in
    let has' : HasTable address table m' = rw (directory (page_directory_index address)) has in
    (
      m',
      rw (first, run1, install_table_skips address table spare m1 small r has, second) run3,
      record {
        mapped = translate_lem m' address table data_frame has' entry;
        marked = λ f. ground (arith, marked1.marked f, marked2.marked f);
        same_words = λ i. kept spare i (inl other);
        same_directory = directory;
      },
    )
