-- ===== src/Kernel/PagingSetup/Identity.antt =====
-- What addresses mean after `paging_setup`.
use grub_os_iso_image.Common.{
  ℕ, ◌+◌, ◌-◌, ◌*◌, ◌/◌, ◌%◌, ◌^◌, ◌≤◌, ◌<◌, ◌≡◌, refl, sym, ap, ◌∙◌, ◌≢◌, ◌⊎◌, true, false, ◌&&◌,
  arith, ltb, leb, ◌==◌, if◌then◌else◌, ==_iff, u32, add64, ok, fault, bit_and, bit_or,
  bit_and-mask, bit_and-high,
}
use grub_os_iso_image.Paging.{Machine}
use grub_os_iso_image.Kernel.PagingSetup.{
  Frames, allocate_frame_aligned, reset_directory, recursive_directory, fill_tables,
  recursive_tables, insert_tables, paging_setup,
}
use grub_os_iso_image.Paging.{translate}
use grub_os_iso_image.Paging.Walk.{IsRecursive, present-ok}
use grub_os_iso_image.Kernel.PagingSetup.Words.{
  word, fill_words_lem, flagged, IsLinked, link_tables_lem, link_once,
}

-- Above the first page: the next page boundary, even for an address that is on one.
pub allocate_frame_aligned_lem :
    (placement size : ℕ)
    → 4096 ≤ placement
    → placement + 4096 + size < 2 ^ 32
    → allocate_frame_aligned placement size
      ≡ ((placement / 4096 + 1) * 4096, (placement / 4096 + 1) * 4096 + size)
unfolding allocate_frame_aligned
allocate_frame_aligned_lem placement size low fits =
    let masked : bit_and placement 0xFFFFF000 ≡ placement / 4096 * 4096 =
      bit_and-high 12 placement 0xFFFFF ∙ rw (bit_and-mask 20 (placement / 4096)) (omega arith) in
    let some_set : (placement / 4096 * 4096 == 0) ≡ false = ground arith in
    let aligned : add64 (placement / 4096 * 4096) 0x1000 ≡ (placement / 4096 + 1) * 4096 =
      omega arith in
    let returned : u32 ((placement / 4096 + 1) * 4096) ≡ (placement / 4096 + 1) * 4096 =
      omega arith in
    let after : add64 ((placement / 4096 + 1) * 4096) size ≡ (placement / 4096 + 1) * 4096 + size =
      omega arith in
    rw (masked, some_set, aligned, returned, after) refl

-- Memory after `paging_setup` with the directory in frame `d` and `n` tables behind it.
pub record IsBuilt (d n : ℕ) (frames frames' : Frames) : Type 0 where
  pub table_entry : (t : ℕ) → t < n → frames' d t ≡ 4096 * (d + 1 + t) + 3
  pub absent : (t : ℕ) → n ≤ t → t < 1023 → frames' d t ≡ 2
  pub own_entry : frames' d 1023 ≡ 4096 * d + 1
  pub page_entry : (t i : ℕ) → t < n → i < 1023 → frames' (d + 1 + t) i ≡ 4096 * (t * 1024 + i) + 3
  pub last_entry : (t : ℕ) → t < n → frames' (d + 1 + t) 1023 ≡ 4096 * (d + 1 + t) + 1
  pub others : (f i : ℕ) → i < 1024 → (f < d) ⊎ (d + n < f) → frames' f i ≡ frames f i

at_word : (frames : Frames) (f i : ℕ) → i < 1024 → frames f i ≡ word frames (1024 * f + i)
at_word frames f i small =
    let frame : (1024 * f + i) / 1024 ≡ f = omega arith in
    let index : (1024 * f + i) % 1024 ≡ i = omega arith in rw (frame, index) refl

-- The five loops one after the other.
set_up :
    (d n : ℕ) (frames f1 f2 f3 f4 f5 : Frames)
    → n ≤ 1023
    → d + 1 + n ≤ 2 ^ 20
    → ((x : ℕ)
        → word f1 x ≡ (if leb (1024 * d) x && ltb x (1024 * d + 1024) then 2 else word frames x))
    → ((x : ℕ) → word f2 x ≡ (if x == 1024 * d + 1023 then 4096 * d + 1 else word f1 x))
    → ((x : ℕ)
        → word f3 x ≡ (
            if leb (1024 * (d + 1)) x && ltb x (1024 * (d + 1) + 1024 * n)
            then bit_or (u32 ((x - 1024 * (d + 1)) * 0x1000)) 3
            else word f2 x))
    → IsLinked (λ i. i * 1024 + 1023) 1 (d + 1) (1024 * (d + 1)) n f3 f4
    → IsLinked (λ i. i) 3 (d + 1) (1024 * d) n f4 f5
    → IsBuilt d n frames f5
set_up d n frames f1 f2 f3 f4 f5 few fits w1 w2 w3 w4 w5 = record {
  table_entry = λ t l. at_word f5 d t (omega arith) ∙ w5.linked t l;
  absent = λ t l m.
      at_word f5 d t (omega arith)
      ∙ directory (1024 * d + t) (omega arith) (λ i h. omega arith)
      ∙ w2 _
      ∙ ground (arith, w1 (1024 * d + t));
  own_entry =
      at_word f5 d 1023 (omega arith)
      ∙ directory (1024 * d + 1023) (omega arith) (λ i h. omega arith)
      ∙ w2 _
      ∙ rw ((==_iff (1024 * d + 1023) (1024 * d + 1023)).1 refl) refl;
  page_entry = λ t i l m. page t i l m;
  last_entry = λ t l.
      at_word f5 (d + 1 + t) 1023 (omega arith) ∙ w5.others _ (λ i h. omega arith) ∙ last t l;
  others = λ f i l h.
      at_word f5 f i l
      ∙ w5.others _ (λ j q. outside_directory f i l h j q)
      ∙ w4.others _ (λ j q. outside_tables f i l h j q)
      ∙ before f i l h;
}
  where
    last : (t : ℕ) → t < n → word f4 (1024 * (d + 1 + t) + 1023) ≡ 4096 * (d + 1 + t) + 1
    last t l =
        let place : 1024 * (d + 1 + t) + 1023 ≡ 1024 * (d + 1) + (t * 1024 + 1023) = omega arith in
        ap (word f4) place ∙ w4.linked t l

    page : (t i : ℕ) → t < n → i < 1023 → f5 (d + 1 + t) i ≡ 4096 * (t * 1024 + i) + 3
    page t i l m =
        let x = 1024 * (d + 1 + t) + i in
        let inside : (leb (1024 * (d + 1)) x && ltb x (1024 * (d + 1) + 1024 * n)) ≡ true =
          ground arith in
        let number : x - 1024 * (d + 1) ≡ t * 1024 + i = omega arith in
        let address : u32 ((t * 1024 + i) * 4096) ≡ 4096 * (t * 1024 + i) = omega arith in
        at_word f5 (d + 1 + t) i (omega arith)
        ∙ w5.others x (λ j q. omega arith)
        ∙ w4.others x (λ j q. omega arith)
        ∙ w3 x
        ∙ rw (inside, number, address) (flagged (t * 1024 + i) 3 (omega arith))

    outside_directory :
        (f i : ℕ) → i < 1024 → (f < d) ⊎ (d + n < f) → (j : ℕ) → j < n → 1024 * f + i ≢ 1024 * d + j
    outside_directory f i l h j q = omega (arith, h)

    outside_tables :
        (f i : ℕ)
        → i < 1024
        → (f < d) ⊎ (d + n < f)
        → (j : ℕ) → j < n
        → 1024 * f + i ≢ 1024 * (d + 1) + (j * 1024 + 1023)
    outside_tables f i l h j q = omega (arith, h)

    before : (f i : ℕ) → i < 1024 → (f < d) ⊎ (d + n < f) → word f3 (1024 * f + i) ≡ frames f i
    before f i l h =
        let x = 1024 * f + i in
        let e3 : (leb (1024 * (d + 1)) x && ltb x (1024 * (d + 1) + 1024 * n)) ≡ false =
          ground (arith, h) in
        let e2 : (x == 1024 * d + 1023) ≡ false = ground (arith, h) in
        let e1 : (leb (1024 * d) x && ltb x (1024 * d + 1024)) ≡ false = ground (arith, h) in
        (rw e3 at (w3 x)) ∙ (rw e2 at (w2 x)) ∙ (rw e1 at (w1 x)) ∙ sym (at_word frames f i l)

    directory :
        (x : ℕ) → x < 1024 * (d + 1) → ((i : ℕ) → i < n → x ≢ 1024 * d + i) → word f5 x ≡ word f2 x
    directory x l h = w5.others x h ∙ w4.others x (λ i q. omega arith) ∙ ground (arith, w3 x)

build :
    (d n : ℕ) (frames : Frames)
    → n ≤ 1023
    → d + 1 + n ≤ 2 ^ 20
    → (f1 f2 f3 f4 f5 : Frames) × (reset_directory (4096 * d) frames ≡ ok f1)
      × (recursive_directory (4096 * d) f1 ≡ ok f2)
      × (fill_tables (4096 * (d + 1)) n f2 ≡ ok f3)
      × (recursive_tables (4096 * (d + 1)) n f3 ≡ ok f4)
      × (insert_tables (4096 * d) (4096 * (d + 1)) n f4 ≡ ok f5)
      × IsBuilt d n frames f5
unfolding reset_directory recursive_directory fill_tables recursive_tables insert_tables
build d n frames few fits =
    let (f1, run1, w1) = fill_words_lem (λ i. 2) (1024 * d) 1024 frames (omega arith) in
    let (f2, run2, w2) = link_once (1024 * d + 1023) d 1 f1 (omega arith) (omega arith) in
    let (f3, run3, w3) =
      fill_words_lem (λ i. bit_or (u32 (i * 0x1000)) 3) (1024 * (d + 1)) (1024 * n) f2
        (omega arith) in
    let (f4, run4, w4) =
      link_tables_lem (λ i. i * 1024 + 1023) 1 (d + 1) (1024 * (d + 1)) n f3 (omega arith)
        (λ i j e. omega arith) (λ i l. omega arith) (omega arith) in
    let (f5, run5, w5) =
      link_tables_lem (λ i. i) 3 (d + 1) (1024 * d) n f4 (omega arith) (λ i j e. e)
        (λ i l. omega arith) (omega arith) in
    let quad : 4 * (1024 * d) ≡ 4096 * d = omega arith in
    let sum : 4096 * d + 4 * 1023 ≡ 4 * (1024 * d + 1023) = omega arith in
    let quad' : 4 * (1024 * (d + 1)) ≡ 4096 * (d + 1) = omega arith in
    (
      f1,
      f2,
      f3,
      f4,
      f5,
      rw quad at run1,
      rw sum run2,
      rw quad' at run3,
      rw quad' at run4,
      rw quad at run5,
      set_up d n frames f1 f2 f3 f4 f5 few fits w1 w2 w3 w4 w5,
    )

-- What the addresses below the last directory entry mean with the directory in frame `d`, and that
-- memory outside the frames of the directory and the `n` tables is `frames` still.
pub record IsIdentity (d n : ℕ) (frames : Frames) (m : Machine) : Type 0 where
  pub directory : m.cr3 ≡ d
  pub recursive : IsRecursive m
  pub identity :
      (v : ℕ)
      → v < n * 2 ^ 22
      → v / 4096 % 1024 < 1023
      → translate m v ≡ ok (v / 4096, v % 4096 / 4)
  pub last_pages :
      (v : ℕ)
      → v < n * 2 ^ 22
      → v / 4096 % 1024 ≡ 1023
      → translate m v ≡ ok (d + 1 + v / 2 ^ 22, v % 4096 / 4)
  pub unmapped : (v : ℕ) → n * 2 ^ 22 ≤ v → v < 1023 * 2 ^ 22 → translate m v ≡ fault
  pub others : (f i : ℕ) → i < 1024 → (f < d) ⊎ (d + n < f) → m.frames f i ≡ frames f i

IsBuilt-IsIdentity :
    (d n : ℕ) (frames : Frames) (m : Machine)
    → m.cr3 ≡ d
    → n ≤ 1023
    → IsBuilt d n frames m.frames
    → IsIdentity d n frames m
unfolding translate
IsBuilt-IsIdentity d n frames m here few s = record {
  directory = here;
  recursive = (rw (here, s.own_entry) (omega arith), rw (here, s.own_entry) (omega arith));
  identity = λ v l p.
      let t = v / 2 ^ 22 in
      let entry = s.table_entry t (omega arith) in
      let page = s.page_entry t (v / 2 ^ 12 % 1024) (omega arith) (omega arith) in
      rw
        (
          here,
          present-ok (m.frames d t) (d + 1 + t) (rw entry (omega arith)) (rw entry (omega arith)),
          present-ok (m.frames (d + 1 + t) (v / 2 ^ 12 % 1024)) (v / 4096) (rw page (omega arith))
              (rw page (omega arith)),
        )
        refl;
  last_pages = λ v l p.
      let t = v / 2 ^ 22 in
      let entry = s.table_entry t (omega arith) in
      let page = s.last_entry t (omega arith) in
      rw
        (
          here,
          present-ok (m.frames d t) (d + 1 + t) (rw entry (omega arith)) (rw entry (omega arith)),
          p,
          present-ok (m.frames (d + 1 + t) 1023) (d + 1 + t) (rw page (omega arith))
              (rw page (omega arith)),
        )
        refl;
  unmapped = λ v l p.
      let entry = s.absent (v / 2 ^ 22) (omega arith) (omega arith) in rw (here, entry) refl;
  others = s.others;
}

-- For at most 1023 page tables and a placement address from 4096 on with room below 2 ^ 32,
-- `paging_setup` comes to its end with the directory in the frame behind that of the placement
-- address and the tables in the frames behind it. An address below the 4 MB that each table covers
-- is then translated to itself, but the last page of each 4 MB to the page table; the addresses
-- from there up to the last directory entry are not present; the last entry of the directory is
-- the directory itself; and memory outside these frames is unchanged.
pub paging_setup_lem :
    (n placement : ℕ) (m : Machine)
    → n ≤ 1023
    → 4096 ≤ placement
    → placement + (n + 2) * 4096 < 2 ^ 32
    → (m' : Machine) × (paging_setup n placement m ≡ ok ((placement / 4096 + 2 + n) * 4096, m'))
      × IsIdentity (placement / 4096 + 1) n m.frames m'
unfolding paging_setup
paging_setup_lem n placement m few low fits =
    let d = placement / 4096 + 1 in
    let (f1, f2, f3, f4, f5, r1, r2, r3, r4, r5, s) = build d n m.frames few (omega arith) in
    let size : u32 ((1 + n) * 1024 * 4) ≡ (1 + n) * 4096 = omega arith in
    let allocated = allocate_frame_aligned_lem placement ((1 + n) * 4096) low (omega arith) in
    let order : (placement / 4096 + 1) * 4096 ≡ 4096 * d = omega arith in
    let tables : u32 (4096 * d + 4 * 1024) ≡ 4096 * (d + 1) = omega arith in
    let frame : 4096 * d / 4096 ≡ d = omega arith in
    let after : 4096 * d + (1 + n) * 4096 ≡ (placement / 4096 + 2 + n) * 4096 = omega arith in
    let m' = record m { frames = f5; cr3 = d } in
    (
      m',
      rw (size, allocated, order, tables, r1, r2, r3, r4, r5, frame, after) refl,
      IsBuilt-IsIdentity d n m.frames m' refl few s,
    )
