-- ===== src/Paging/Setup.antt =====
-- The parts of `setup_page`, for an address whose page table is missing.
use grub_os_iso_image.Common.{
  ℕ, ◌+◌, ◌*◌, ◌%◌, ◌^◌, ◌<◌, ◌≡◌, refl, sym, ap, ◌∙◌, ◌≢◌, ◌⊎◌, inl, inr, Bool, true, false,
  Option, some, List, arith, ltb, ◌==◌, ltb→lt, length, u32, ok, pos, bit_and, bit_or, bit_and-mask,
  bit_or-disjoint, bit_or_comm,
}
use grub_os_iso_image.Bitmap.{next_free_frame_index}
use grub_os_iso_image.Bitmap.Frames.{is_used}
use grub_os_iso_image.Bitmap.Set.{IsMarked, set_lem}
use grub_os_iso_image.Bitmap.Search.{
  FirstFree, found, all_used, frame_code, next_free_frame_index_lem,
}
use grub_os_iso_image.Kernel.{bitmap_element_count}
use grub_os_iso_image.Paging.{
  Machine, stored, initialize_page_table, mark_used, install_table, connect, page_directory_index,
  page_table_index, page_table_ptr, page_directory_ptr,
}
use grub_os_iso_image.Paging.Walk.{IsRecursive, translate-directory, translate-table}
use grub_os_iso_image.Paging.Tables.{
  with_frames, HasTable, store-eq, load-eq, stored_self, stored_other, initialize_page_table_lem,
}

pub mark_used_lem :
    (frame : ℕ) (m : Machine)
    → length m.bitmap ≡ bitmap_element_count
    → frame < bitmap_element_count * 32
    → (after : List ℕ) × (mark_used frame m ≡ ok (record m { bitmap = after }))
      × IsMarked m.bitmap frame true after
unfolding mark_used
mark_used_lem frame m l h =
    let (after, run, marked) = set_lem m.bitmap frame 1 (omega (arith, l)) in
    let run' = rw l at run in (after, rw run', marked)

search_unique :
    (bitmap : List ℕ) (count x : ℕ) (r : Option ℕ)
    → FirstFree bitmap 0 count r
    → x < count
    → is_used bitmap x ≡ false
    → ((f : ℕ) → f < x → is_used bitmap f ≡ true)
    → r ≡ some x
search_unique bitmap count x r (found {frame} l b free below) h p u =
    ap some (same (ltb frame x) (ltb x frame) refl refl)
  where
    same : (c d : Bool) → ltb frame x ≡ c → ltb x frame ≡ d → frame ≡ x
    same true d e f = let used = u frame (ltb→lt frame x e) in cc
    same false true e f = let used = below x (omega arith) (ltb→lt x frame f) in cc
    same false false e f = ground arith
search_unique bitmap count x r (all_used every) h p u =
    let used = every x (omega arith) (omega arith) in cc

pub first_free_is :
    (bitmap : List ℕ) (x : ℕ)
    → length bitmap ≡ bitmap_element_count
    → x < bitmap_element_count * 32
    → is_used bitmap x ≡ false
    → ((f : ℕ) → f < x → is_used bitmap f ≡ true)
    → next_free_frame_index bitmap bitmap_element_count ≡ ok (pos x)
first_free_is bitmap x l h p u =
    let (r, run, first) = next_free_frame_index_lem bitmap (omega (arith, l)) in
    let run' = rw l at run in
    let first' = rw l at first in
    run'
    ∙ ap (λ o. ok (frame_code o))
        (search_unique bitmap (bitmap_element_count * 32) x r first' h p u)

module _ (address : ℕ) (small : address < 2 ^ 32)
    (below : page_directory_index address < 1023) where
  -- A store to the address's entry of the directory.
  abbrev entered : Machine → ℕ → Machine
  entered m v = with_frames m (stored m.frames m.cr3 (page_directory_index address) v)

  entered-IsRecursive : (m : Machine) (v : ℕ) → IsRecursive m → IsRecursive (entered m v)
  entered-IsRecursive m v r =
      let d : 1023 ≢ page_directory_index address = λ e. omega arith in
      rw (stored_other m.frames m.cr3 (page_directory_index address) v m.cr3 1023 (inr d)) r

  -- The directory after the entry has been written.
  abbrev linked : ℕ → Machine → Machine
  linked table m = entered (entered (entered m 0) (table * 2 ^ 12)) (3 + table * 2 ^ 12)

  install_table_stores :
      (table : ℕ) (m : Machine)
      → table < bitmap_element_count * 32
      → IsRecursive m
      → m.frames m.cr3 (page_directory_index address) % 2 ≡ 0
      → install_table address table m
        ≡ initialize_page_table (page_table_ptr address) (table * 2 ^ 12) (linked table m)
  unfolding install_table
  install_table_stores table m h r e =
      let t = page_directory_index address in
      let physical : u32 (table * 0x1000) ≡ table * 2 ^ 12 = omega arith in
      let flags : bit_or (table * 2 ^ 12) 3 ≡ 3 + table * 2 ^ 12 =
        bit_or_comm (table * 2 ^ 12) 3 ∙ bit_or-disjoint 12 3 table (omega arith) in
      let empty : (bit_and (m.frames m.cr3 t) 1 == 0) ≡ true =
        ground (arith, bit_and-mask 1 (m.frames m.cr3 t)) in
      let m1 = entered m 0 in
      let m2 = entered m1 (table * 2 ^ 12) in
      let r1 = entered-IsRecursive m 0 r in
      let r2 = entered-IsRecursive m1 (table * 2 ^ 12) r1 in
      rw (
        load-eq m (page_directory_ptr address) m.cr3 t (translate-directory m address r small),
        empty,
        store-eq m (page_directory_ptr address) 0 m.cr3 t (translate-directory m address r small),
        physical,
        store-eq m1 (page_directory_ptr address) (table * 2 ^ 12) m.cr3 t
            (translate-directory m1 address r1 small),
        load-eq m2 (page_directory_ptr address) m.cr3 t (translate-directory m2 address r2 small),
        stored_self m1.frames m.cr3 t (table * 2 ^ 12),
        flags,
        store-eq m2 (page_directory_ptr address) (3 + table * 2 ^ 12) m.cr3 t
            (translate-directory m2 address r2 small),
      )

  pub install_table_lem :
      (table : ℕ) (m : Machine)
      → table < bitmap_element_count * 32
      → table ≢ m.cr3
      → IsRecursive m
      → m.frames m.cr3 (page_directory_index address) % 2 ≡ 0
      → (frames : ℕ → ℕ → ℕ) × (install_table address table m ≡ ok (with_frames m frames))
        × HasTable address table (with_frames m frames)
        × IsRecursive (with_frames m frames)
        × ((f i : ℕ)
            → f ≢ table
            → (f ≢ m.cr3) ⊎ (i ≢ page_directory_index address)
            → frames f i ≡ m.frames f i)
        × ((i : ℕ) → i < 1023 → frames table i ≡ 2)
  install_table_lem table m h n r e =
      let t = page_directory_index address in
      let m1 = entered m 0 in
      let m2 = entered m1 (table * 2 ^ 12) in
      let m3 = linked table m in
      let r3 =
        entered-IsRecursive m2 (3 + table * 2 ^ 12)
          (entered-IsRecursive m1 (table * 2 ^ 12) (entered-IsRecursive m 0 r)) in
      let entry : m3.frames m.cr3 t ≡ 3 + table * 2 ^ 12 =
        stored_self m2.frames m.cr3 t (3 + table * 2 ^ 12) in
      let has : HasTable address table m3 = rw entry (omega arith, omega arith) in
      let (frames, run, same, cleared) =
        initialize_page_table_lem address table small (table * 2 ^ 12) m3 n r3 has in
      let cr3 : m.cr3 ≢ table = λ q. n (sym q) in
      (
        frames,
        install_table_stores table m h r e ∙ run,
        rw (same m.cr3 t cr3) has,
        rw (same m.cr3 1023 cr3) r3,
        λ f i p q.
            same f i p
            ∙ stored_other m2.frames m.cr3 t (3 + table * 2 ^ 12) f i q
            ∙ stored_other m1.frames m.cr3 t (table * 2 ^ 12) f i q
            ∙ stored_other m.frames m.cr3 t 0 f i q,
        cleared,
      )

  -- The data frame is entered into the page table.
  pub connect_lem :
      (table data_frame : ℕ) (m : Machine)
      → length m.bitmap ≡ bitmap_element_count
      → data_frame < bitmap_element_count * 32
      → table ≢ m.cr3
      → IsRecursive m
      → HasTable address table m
      → (m' : Machine) × (connect address (pos data_frame) m ≡ ok m')
        × (m'.cr3 ≡ m.cr3)
        × IsMarked m.bitmap data_frame true m'.bitmap
        × (m'.frames table (page_table_index address) ≡ data_frame * 4096 + 1)
        × ((f i : ℕ) → (f ≢ table) ⊎ (i ≢ page_table_index address) → m'.frames f i ≡ m.frames f i)
  unfolding connect
  connect_lem table d m l h n r has =
      let i = page_table_index address in
      let slot = page_table_ptr address + 4 * i in
      let (after, run, marked) = mark_used_lem d m l h in
      let m1 = record m { bitmap = after } in
      let physical : u32 (d * 0x1000) ≡ d * 2 ^ 12 = omega arith in
      let flags : bit_or (d * 2 ^ 12) 1 ≡ 1 + d * 2 ^ 12 =
        bit_or_comm (d * 2 ^ 12) 1 ∙ bit_or-disjoint 12 1 d (omega arith) in
      let cr3 : m.cr3 ≢ table = λ q. n (sym q) in
      let m2 = with_frames m1 (stored m.frames table i (d * 2 ^ 12)) in
      let r2 : IsRecursive m2 =
        rw (stored_other m.frames table i (d * 2 ^ 12) m.cr3 1023 (inl cr3)) r in
      let has2 : HasTable address table m2 =
        rw
          (stored_other m.frames table i (d * 2 ^ 12) m.cr3 (page_directory_index address)
            (inl cr3))
          has in
      let at1 = translate-table m1 address i table r small (omega arith) has.0 has.1 in
      let at2 = translate-table m2 address i table r2 small (omega arith) has2.0 has2.1 in
      (
        with_frames m1 (stored m2.frames table i (1 + d * 2 ^ 12)),
        rw (
          run,
          physical,
          store-eq m1 slot (d * 2 ^ 12) table i at1,
          load-eq m2 slot table i at2,
          stored_self m.frames table i (d * 2 ^ 12),
          flags,
          store-eq m2 slot (1 + d * 2 ^ 12) table i at2,
        ),
        refl,
        marked,
        stored_self m2.frames table i (1 + d * 2 ^ 12) ∙ omega arith,
        λ f j q.
            stored_other m2.frames table i (1 + d * 2 ^ 12) f j q
            ∙ stored_other m.frames table i (d * 2 ^ 12) f j q,
      )
