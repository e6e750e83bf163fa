-- ===== src/Paging/Tables.antt =====
-- Stores to a page table, and `initialize_page_table`.
use grub_os_iso_image.Common.{
  ℕ, zero, suc, ◌+◌, ◌*◌, ◌/◌, ◌%◌, ◌^◌, ◌≤◌, ◌<◌, ◌≡◌, refl, sym, ◌∙◌, ◌≢◌, ◌⊎◌, inl, inr, arith,
  ◌==◌, ==_iff, Bool-cases, ok,
}
use grub_os_iso_image.Paging.{
  Machine, translate, stored, load, store, clear_entries, initialize_page_table,
  page_directory_index, page_table_ptr,
}
use grub_os_iso_image.Paging.Walk.{IsRecursive, translate-table}

abbrev pub with_frames : Machine → (ℕ → ℕ → ℕ) → Machine
with_frames m frames = record m { frames = frames }

-- The directory has the page table in frame `table` for the address.
abbrev pub HasTable : ℕ → ℕ → Machine → Type 0
HasTable address table m =
    (m.frames m.cr3 (page_directory_index address) % 2 ≡ 1)
    × (m.frames m.cr3 (page_directory_index address) / 4096 ≡ table)

pub store-eq :
    (m : Machine) (address v frame index : ℕ)
    → translate m address ≡ ok (frame, index)
    → store address v m ≡ ok (with_frames m (stored m.frames frame index v))
unfolding store
store-eq m address v frame index h = rw h

pub load-eq :
    (m : Machine) (address frame index : ℕ)
    → translate m address ≡ ok (frame, index)
    → load address m ≡ ok (m.frames frame index)
unfolding load
load-eq m address frame index h = rw h

pub stored_self : (frames : ℕ → ℕ → ℕ) (f i v : ℕ) → stored frames f i v f i ≡ v
stored_self frames f i v = ground arith

pub stored_other :
    (frames : ℕ → ℕ → ℕ) (f i v g j : ℕ) → (g ≢ f) ⊎ (j ≢ i) → stored frames f i v g j ≡ frames g j
stored_other frames f i v g j h = ground arith

module _ (address table : ℕ) (small : address < 2 ^ 32) where
  clear_entries_lem :
      (rounds : ℕ) (m : Machine)
      → table ≢ m.cr3
      → IsRecursive m
      → HasTable address table m
      → rounds ≤ 1024
      → (frames : ℕ → ℕ → ℕ) × (clear_entries (page_table_ptr address) rounds m
          ≡ ok (with_frames m frames))
        × ((f i : ℕ) → f ≢ table → frames f i ≡ m.frames f i)
        × ((i : ℕ) → i < rounds → frames table i ≡ 2)
  unfolding clear_entries
  clear_entries_lem zero m n r t h = (m.frames, refl, λ f i p. refl, λ i p. absurd (omega arith))
  clear_entries_lem (suc rounds) m n r t h =
      let (frames, run, same, cleared) = clear_entries_lem rounds m n r t (omega arith) in
      let m' = with_frames m frames in
      let cr3 : m.cr3 ≢ table = λ e. n (sym e) in
      let r' : IsRecursive m' = rw (same m.cr3 1023 cr3) r in
      let t' : HasTable address table m' = rw (same m.cr3 (page_directory_index address) cr3) t in
      let written =
        store-eq m' (page_table_ptr address + 4 * rounds) 2 table rounds
          (translate-table m' address rounds table r' small (omega arith) t'.0 t'.1) in
      (
        stored frames table rounds 2,
        rw (run, written),
        λ f i p. stored_other frames table rounds 2 f i (inl p) ∙ same f i p,
        λ i p. elim (Bool-cases (i == rounds)) [
          | inl e ↦ rw ((==_iff i rounds).0 e) (stored_self frames table rounds 2)
          | inr e ↦
              let d : i ≢ rounds = λ q. ground arith in
              stored_other frames table rounds 2 table i (inr d) ∙ cleared i (ground arith)
        ],
      )

  pub initialize_page_table_lem :
      (physical : ℕ) (m : Machine)
      → table ≢ m.cr3
      → IsRecursive m
      → HasTable address table m
      → (frames : ℕ → ℕ → ℕ) × (initialize_page_table (page_table_ptr address) physical m
          ≡ ok (with_frames m frames))
        × ((f i : ℕ) → f ≢ table → frames f i ≡ m.frames f i)
        × ((i : ℕ) → i < 1023 → frames table i ≡ 2)
  unfolding initialize_page_table
  initialize_page_table_lem physical m n r t =
      let (frames, run, same, cleared) = clear_entries_lem 1024 m n r t (omega arith) in
      let m' = with_frames m frames in
      let cr3 : m.cr3 ≢ table = λ e. n (sym e) in
      let r' : IsRecursive m' = rw (same m.cr3 1023 cr3) r in
      let t' : HasTable address table m' = rw (same m.cr3 (page_directory_index address) cr3) t in
      let written =
        store-eq m' (page_table_ptr address + 4 * 1023) physical table 1023
          (translate-table m' address 1023 table r' small (omega arith) t'.0 t'.1) in
      (
        stored frames table 1023 physical,
        rw (run, written),
        λ f i p. stored_other frames table 1023 physical f i (inl p) ∙ same f i p,
        λ i p.
            let d : i ≢ 1023 = λ q. omega arith in
            stored_other frames table 1023 physical table i (inr d) ∙ cleared i (omega arith),
      )
