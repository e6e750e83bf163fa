-- ===== src/Kernel/PagingSetup.antt =====
-- kernel.c: `allocate_frame_aligned` and `paging_setup`, which builds the page directory and the
-- first page tables while paging is still off. The words of memory are those of `Paging.Machine`.
-- A word that is not at a multiple of four is out of the model, and a fault.
pub mod Words
pub mod Identity
use grub_os_iso_image.Common.{
  ℕ, zero, suc, ◌+◌, ◌-◌, ◌*◌, ◌/◌, ◌%◌, ◌^◌, ◌≤◌, ◌<◌, ◌≡◌, refl, sym, ap, ◌∙◌, ◌≢◌, ◌↔◌, ◌⊎◌, inl,
  inr, Bool, true, false, not, ◌&&◌, ◌||◌, Option, none, some, List, [], ◌∷◌, ◌++◌, append_assoc,
  append-nil, arith, ltb, leb, ◌==◌, if◌then◌else◌, ltb→lt, ltb→le, lt→ltb, le→ltb, ==_iff,
  Bool-cases, length, get_elem?, get_or, replicate, length-append, length-replicate, length-set,
  get_elem?-eq-get_or, get_or-set_self, get_or-set_ne, u8, u16, u32, add32, sub32, add64, sub64,
  ◌<<<◌, ◌>>>◌, Run, ok, fault, out_of_fuel, ◌>>=◌, >>=_assoc, >>=-ok, read, write, read-append,
  write-append, Ending, returns, faults, exhausts, ending, >>=-halts, >>=-eq-ok, read-halts,
  write-halts, read-eq-ok, read-eq-fault, write-eq-ok, ℤ, pos, negsuc, minus, int32, min, max,
  bit_and, bit_or, bit_xor, bit_at, bit_at-bit_and, bit_at-bit_or, bit_at_le, bit_at-zero,
  bit_at-pow_self, bit_at-pow_ne, bit_at-complement, bit_and-zero, bit_and-pow, bit_at-flip,
  bit_at-div, power_lt, bit_and-mask, bit_or-disjoint, bit_or_comm, bit_and-high,
}
use grub_os_iso_image.Paging.{Machine, stored}

abbrev pub Frames : Type 0
Frames = ℕ → ℕ → ℕ

-- What is returned, and the new `*placement_memory`.
unfoldable pub allocate_frame_aligned : ℕ → ℕ → ℕ × ℕ
allocate_frame_aligned placement_memory size_in_byte =
    let aligned =
      if bit_and placement_memory 0xFFFFF000 == 0
      then placement_memory
      else add64 (bit_and placement_memory 0xFFFFF000) 0x1000 in
    (u32 aligned, add64 aligned size_in_byte)

-- Accesses to physical memory.
unfoldable pub poke : ℕ → ℕ → Frames → Run Frames
poke address v frames =
    if address % 4 == 0 then ok (stored frames (address / 4096) (address % 4096 / 4) v) else fault

unfoldable pub peek : ℕ → Frames → Run ℕ
peek address frames =
    if address % 4 == 0 then ok (frames (address / 4096) (address % 4096 / 4)) else fault

-- `pointer[i] = value`, for all `i` below the number of rounds.
unfoldable pub fill_words : (ℕ → ℕ) → ℕ → ℕ → Frames → Run Frames
fill_words value pointer zero frames = ok frames
fill_words value pointer (suc i) frames = do
  frames' ← fill_words value pointer i frames
  poke (u32 (pointer + 4 * i)) (value i) frames'

-- The address of the `i`-th page table and then the flags go to the `slot i`-th word of `pointer`.
unfoldable pub link_tables : (ℕ → ℕ) → ℕ → ℕ → ℕ → ℕ → Frames → Run Frames
link_tables slot flags tables pointer zero frames = ok frames
link_tables slot flags tables pointer (suc i) frames = do
  frames' ← link_tables slot flags tables pointer i frames
  let address = u32 (pointer + 4 * slot i)
  linked ← poke address (u32 (tables + 4096 * i)) frames'
  entry ← peek address linked
  poke address (bit_or entry flags) linked

unfoldable pub reset_directory : ℕ → Frames → Run Frames
reset_directory directory frames = fill_words (λ i. 2) directory 1024 frames

unfoldable pub recursive_directory : ℕ → Frames → Run Frames
recursive_directory directory frames = do
  let address = u32 (directory + 4 * 1023)
  linked ← poke address directory frames
  entry ← peek address linked
  poke address (bit_or entry 1) linked

unfoldable pub fill_tables : ℕ → ℕ → Frames → Run Frames
fill_tables tables page_table_count frames =
    fill_words (λ i. bit_or (u32 (i * 0x1000)) 3) tables (1024 * page_table_count) frames

unfoldable pub recursive_tables : ℕ → ℕ → Frames → Run Frames
recursive_tables tables page_table_count frames =
    link_tables (λ i. i * 1024 + 1023) 1 tables tables page_table_count frames

unfoldable pub insert_tables : ℕ → ℕ → ℕ → Frames → Run Frames
insert_tables directory tables page_table_count frames =
    link_tables (λ i. i) 3 tables directory page_table_count frames

-- The new `placement_memory_address`, and the machine with paging on.
unfoldable pub paging_setup : ℕ → ℕ → Machine → Run (ℕ × Machine)
paging_setup page_table_count placement_memory_address m = do
  let (directory, placement) =
      allocate_frame_aligned placement_memory_address (u32 ((1 + page_table_count) * 1024 * 4))
  let tables = u32 (directory + 4 * 1024)
  cleared ← reset_directory directory m.frames
  recursive ← recursive_directory directory cleared
  filled ← fill_tables tables page_table_count recursive
  ended ← recursive_tables tables page_table_count filled
  inserted ← insert_tables directory tables page_table_count ended
  ok (placement, record m { frames = inserted; cr3 = directory / 4096 })
