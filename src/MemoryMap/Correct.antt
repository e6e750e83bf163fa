-- ===== src/MemoryMap/Correct.antt =====
-- What the kernel knows of a memory map after reading it.
use grub_os_iso_image.Common.{
  ℕ, suc, ◌+◌, ◌*◌, ◌^◌, ◌≤◌, ◌<◌, ◌≡◌, refl, ◌∙◌, ◌↔◌, Bool, true, false, ◌&&◌, ◌||◌, List, [],
  ◌∷◌, arith, leb, ◌==◌, if◌then◌else◌, length, add32, ok, pos,
}
use grub_os_iso_image.Placement.Area.{Area, area, inside}
use grub_os_iso_image.Placement.Table.{Table, table_of, IsOrdered, covers}
use grub_os_iso_image.Placement.Insert.Placing.{placed, length-placed}
use grub_os_iso_image.Placement.Insert.Refine.{insert_area_refines}
use grub_os_iso_image.Placement.Insert.Correct.Added.{placed-IsAdded}
use grub_os_iso_image.Placement.AllocateArea.Carve.{contains}
use grub_os_iso_image.Multiboot.{MultibootInfo, MemoryMap, check_flag}
use grub_os_iso_image.MemoryMap.{joined, process_entry, process_multiboot_memory_map}
use grub_os_iso_image.MemoryMap.Above.{IsBelow, is_apart_above, stands_alone_above, contains-placed}
use grub_os_iso_image.MemoryMap.Layout.{IsLaid, process_list, laid_length, process_entries_lem}

-- The entries of available memory are not empty, lie below 2 ^ 32 and ascend from `low` on.
pub data Ascends : ℕ → List MemoryMap → Type 0 where
  done : {low : ℕ} → Ascends low []
  ram :
      {low : ℕ} {e : MemoryMap} {entries : List MemoryMap}
      → (e.type == 1) ≡ true
      → e.base_addr_high ≡ 0
      → e.length_high ≡ 0
      → low ≤ e.base_addr_low
      → e.base_addr_low < 2 ^ 32
      → 0 < e.length_low
      → e.length_low < 2 ^ 32
      → Ascends (e.base_addr_low + e.length_low) entries
      → Ascends low (e ∷ entries)
  other :
      {low : ℕ} {e : MemoryMap} {entries : List MemoryMap}
      → (e.type == 1) ≡ false
      → Ascends low entries
      → Ascends low (e ∷ entries)

-- The address is in an entry of available memory.
abbrev pub is_ram : List MemoryMap → ℕ → Bool
is_ram [] x = false
is_ram (e ∷ entries) x = e.type == 1 && inside e.base_addr_low e.length_low x || is_ram entries x

abbrev pub ram_count : List MemoryMap → ℕ
ram_count [] = 0
ram_count (e ∷ entries) = if e.type == 1 then suc (ram_count entries) else ram_count entries

-- An entry of available memory contains the range of `n` bytes from `s` on.
abbrev pub ram_contains : ℕ → ℕ → List MemoryMap → Bool
ram_contains s n [] = false
ram_contains s n (e ∷ entries) =
    e.type == 1 && (leb e.base_addr_low s && leb (s + n) (e.base_addr_low + e.length_low))
    || ram_contains s n entries

-- The areas `after` are in order and free `live` and the entries.
pub record IsFilled (live : List Area) (entries : List MemoryMap) (after : List Area) : Type 0 where
  pub ordered : IsOrdered 0 after
  pub few : length after ≤ length live + ram_count entries
  pub free_after : (x : ℕ) → covers after x ≡ (covers live x || is_ram entries x)
  -- A range that lies in one area or in one entry lies in one area.
  pub kept :
      (s n : ℕ) → (contains s n live || ram_contains s n entries) ≡ true → contains s n after ≡ true

process_entry_ram :
    (low : ℕ) (e : MemoryMap) (live : List Area)
    → (e.type == 1) ≡ true
    → e.base_addr_high ≡ 0
    → e.length_high ≡ 0
    → low ≤ e.base_addr_low
    → e.base_addr_low < 2 ^ 32
    → 0 < e.length_low
    → e.length_low < 2 ^ 32
    → IsOrdered 0 live
    → IsBelow low live
    → length live < 10
    → (after : List Area) × (process_entry e (table_of live) ≡ ok (pos 0, table_of after))
      × IsOrdered 0 after
      × (length after ≤ suc (length live))
      × ((x : ℕ) → covers after x ≡ (covers live x || inside e.base_addr_low e.length_low x))
      × ((s n : ℕ)
          → contains s n (area e.base_addr_low e.length_low ∷ live) ≡ true
          → contains s n after ≡ true)
unfolding process_entry
process_entry_ram low e live k bh lh l b p s o h n =
    let new : Area = area e.base_addr_low e.length_low in
    let start : joined e.base_addr_high e.base_addr_low ≡ e.base_addr_low = ground arith in
    let size : joined e.length_high e.length_low ≡ e.length_low = ground arith in
    let added =
      placed-IsAdded new live (record { positive = p; below = omega arith }) o
        (is_apart_above low 0 new live o h l) (stands_alone_above low new live o h l) in
    let run =
      rw added.code at
        (insert_area_refines e.base_addr_low e.length_low live p (omega arith) o n) in
    (
      (placed new live).1,
      rw (k, start, size, run),
      added.ordered,
      length-placed new live,
      added.free_after,
      λ s n c.
          contains-placed s n low new l live (record { positive = p; below = omega arith }) o h c,
    )

process_entry_other :
    (e : MemoryMap) (t : Table) → (e.type == 1) ≡ false → process_entry e t ≡ ok (pos 0, t)
unfolding process_entry
process_entry_other e t k = rw k

process_list_lem :
    (low : ℕ) (entries : List MemoryMap) (live : List Area)
    → Ascends low entries
    → IsOrdered 0 live
    → IsBelow low live
    → length live + ram_count entries ≤ 10
    → (after : List Area) × (process_list entries (table_of live) ≡ ok (pos 0, table_of after))
      × IsFilled live entries after
process_list_lem low [] live done o h n = (
  live,
  refl,
  record {
    ordered = o;
    few = omega arith;
    free_after = λ x. ground arith;
    kept = λ s m c. ground arith;
  },
)
process_list_lem low (e ∷ entries) live (ram k bh lh l b p s up) o h n =
    let (mid, run, o', n', c, keeps) =
      process_entry_ram low e live k bh lh l b p s o h (ground arith) in
    let (after, run', f) =
      process_list_lem (e.base_addr_low + e.length_low) entries mid up o'
        (λ x d. ground (arith, c x, h x)) (ground arith) in
    (
      after,
      rw run run',
      record {
        ordered = f.ordered;
        few = ground (arith, f.few);
        free_after = λ x. ground (arith, f.free_after x, c x);
        kept = λ s m d. ground (arith, keeps s m, f.kept s m);
      },
    )
process_list_lem low (e ∷ entries) live (other k up) o h n =
    let (after, run, f) = process_list_lem low entries live up o h (ground arith) in
    (
      after,
      rw (process_entry_other e (table_of live) k) run,
      record {
        ordered = f.ordered;
        few = ground (arith, f.few);
        free_after = λ x. ground (arith, f.free_after x);
        kept = λ s m d. ground (arith, f.kept s m);
      },
    )

-- From an empty table, for a valid memory map that is laid out in memory below 2 ^ 32 and whose at
-- most ten available entries are not empty, have start and length below 2 ^ 32 and ascend,
-- `process_multiboot_memory_map` returns 0. The areas after it are in order, no more than the
-- available entries, and free exactly their addresses; a range that lies in one available entry
-- lies in one area.
pub process_multiboot_memory_map_lem :
    (memory : ℕ → MemoryMap) (mbi : MultibootInfo) (entries : List MemoryMap)
    → check_flag mbi.flags 6 ≡ true
    → mbi.mmap_addr + mbi.mmap_length < 2 ^ 32
    → IsLaid memory mbi.mmap_addr (mbi.mmap_addr + mbi.mmap_length) entries
    → Ascends 0 entries
    → ram_count entries ≤ 10
    → (after : List Area) × (process_multiboot_memory_map memory mbi (table_of [])
        ≡ ok (pos 0, table_of after))
      × IsFilled [] entries after
unfolding process_multiboot_memory_map
process_multiboot_memory_map_lem memory mbi entries f b l up n =
    let (after, run, filled) = process_list_lem 0 entries [] up tt (λ x c. cc) (omega arith) in
    let last : add32 mbi.mmap_addr mbi.mmap_length ≡ mbi.mmap_addr + mbi.mmap_length =
      omega arith in
    let enough : length entries < suc mbi.mmap_length =
      omega (arith, laid_length memory mbi.mmap_addr (mbi.mmap_addr + mbi.mmap_length) entries l) in
    let walk =
      process_entries_lem memory (suc mbi.mmap_length) mbi.mmap_addr
        (mbi.mmap_addr + mbi.mmap_length) entries (table_of []) l enough in
    (after, rw (f, last) (walk ∙ run), filled)

-- For two words below 2 ^ 32 the code's combination of a high and a low word is their 64 bit
-- number exactly if the high word is 0.
joined_iff :
    (high low : ℕ)
    → high < 2 ^ 32
    → low < 2 ^ 32
    → (joined high low ≡ high * 2 ^ 32 + low) ↔ (high ≡ 0)
joined_iff high low h l = (λ e. omega arith, λ e. omega arith)
