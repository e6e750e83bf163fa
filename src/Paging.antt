-- ===== src/Paging.antt =====
-- paging.c. Memory is a word for each frame and index; an address is translated as the processor
-- does it with paging on: the directory that cr3 names has the entry of the page table, the page
-- table the entry of the page. An entry whose lowest bit is 0 is not present, and an access through
-- it inside the page fault handler is a fault of the model.
pub mod Walk
pub mod Tables
pub mod Setup
pub mod Correct
pub mod Leak
mod Tests
use grub_os_iso_image.Common.{
  ℕ, zero, suc, ◌+◌, ◌-◌, ◌*◌, ◌/◌, ◌%◌, ◌^◌, ◌≤◌, ◌<◌, ◌≡◌, refl, sym, ap, ◌∙◌, ◌≢◌, ◌↔◌, ◌⊎◌, inl,
  inr, Bool, true, false, not, ◌&&◌, ◌||◌, Option, none, some, List, [], ◌∷◌, ◌++◌, append_assoc,
  append-nil, arith, ltb, leb, ◌==◌, if◌then◌else◌, ltb→lt, ltb→le, lt→ltb, le→ltb, ==_iff,
  Bool-cases, length, get_elem?, get_or, replicate, length-append, length-replicate, length-set,
  get_elem?-eq-get_or, get_or-set_self, get_or-set_ne, u8, u16, u32, add32, sub32, add64, sub64,
  ◌<<<◌, ◌>>>◌, Run, ok, fault, out_of_fuel, ◌>>=◌, >>=_assoc, >>=-ok, read, write, read-append,
  write-append, Ending, returns, faults, exhausts, ending, >>=-halts, >>=-eq-ok, read-halts,
  write-halts, read-eq-ok, read-eq-fault, write-eq-ok, ℤ, pos, negsuc, minus, int32, min, max,
  bit_and, bit_or, bit_xor, bit_at, bit_at-bit_and, bit_at-bit_or, bit_at_le, bit_at-zero,
  bit_at-pow_self, bit_at-pow_ne, bit_at-complement, bit_and-zero, bit_and-pow, bit_and-mask,
  bit_or-disjoint, bit_or_comm, bit_and-high,
}
use grub_os_iso_image.Bitmap.{set, next_free_frame_index}
use grub_os_iso_image.Kernel.{bitmap_element_count}

pub record Machine : Type 0 where
  pub frames : ℕ → ℕ → ℕ
  -- The frame of the page directory.
  pub cr3 : ℕ
  pub bitmap : List ℕ

abbrev pub present : ℕ → Run ℕ
present entry = if entry % 2 == 1 then ok (entry / 4096) else fault

-- The frame and the index of the word at a virtual address.
unfoldable pub translate : Machine → ℕ → Run (ℕ × ℕ)
translate m address = do
  table ← present (m.frames m.cr3 (address / 2 ^ 22))
  frame ← present (m.frames table (address / 2 ^ 12 % 1024))
  ok (frame, address % 4096 / 4)

abbrev pub stored : (ℕ → ℕ → ℕ) → ℕ → ℕ → ℕ → ℕ → ℕ → ℕ
stored frames frame index v f i = if f == frame && i == index then v else frames f i

unfoldable pub load : ℕ → Machine → Run ℕ
load address m = do (frame, index) ← translate m address; ok (m.frames frame index)

unfoldable pub store : ℕ → ℕ → Machine → Run Machine
store address v m = do
  (frame, index) ← translate m address
  ok (record m { frames = stored m.frames frame index v })

unfoldable pub clear_entries : ℕ → ℕ → Machine → Run Machine
clear_entries page_table_ptr zero m = ok m
clear_entries page_table_ptr (suc rounds) m = do
  m' ← clear_entries page_table_ptr rounds m
  store (page_table_ptr + 4 * rounds) 2 m'

unfoldable pub initialize_page_table : ℕ → ℕ → Machine → Run Machine
initialize_page_table page_table_ptr physical m = do
  m' ← clear_entries page_table_ptr 1024 m
  store (page_table_ptr + 4 * 1023) physical m'

abbrev pub page_directory_index : ℕ → ℕ
page_directory_index virtual_address = virtual_address / (4 * 1024 * 1024)

abbrev pub page_table_index : ℕ → ℕ
page_table_index virtual_address = virtual_address % (4 * 1024 * 1024) / (4 * 1024)

abbrev pub page_table_ptr : ℕ → ℕ
page_table_ptr virtual_address = 0xFFC00000 + page_directory_index virtual_address * 0x1000

abbrev pub page_directory_ptr : ℕ → ℕ
page_directory_ptr virtual_address = 0xFFFFF000 + page_directory_index virtual_address * 4

unfoldable pub mark_used : ℕ → Machine → Run Machine
mark_used frame m = do
  (code, bitmap) ← set m.bitmap bitmap_element_count frame 1
  ok (record m { bitmap = bitmap })

-- The page table in the frame is entered into the directory, if there is none.
unfoldable pub install_table : ℕ → ℕ → Machine → Run Machine
install_table virtual_address frame m = do
  entry ← load (page_directory_ptr virtual_address) m
  let physical = u32 (frame * 0x1000)
  let install = (do
    m1 ← store (page_directory_ptr virtual_address) 0 m
    m2 ← store (page_directory_ptr virtual_address) physical m1
    e ← load (page_directory_ptr virtual_address) m2
    m3 ← store (page_directory_ptr virtual_address) (bit_or e 3) m2
    initialize_page_table (page_table_ptr virtual_address) physical m3)
  if bit_and entry 1 == 0 then install else ok m

-- The data frame is entered into the page table.
unfoldable pub connect : ℕ → ℤ → Machine → Run Machine
connect virtual_address (negsuc n) m = ok m
connect virtual_address (pos frame) m = do
  m1 ← mark_used frame m
  let slot = page_table_ptr virtual_address + 4 * page_table_index virtual_address
  m2 ← store slot (u32 (frame * 0x1000)) m1
  entry ← load slot m2
  store slot (bit_or entry 1) m2

-- The rest of `setup_page`, for the result of its first search.
unfoldable pub setup_page_at : ℕ → ℤ → Machine → Run Machine
setup_page_at virtual_address (negsuc n) m = ok m
setup_page_at virtual_address (pos frame) m = do
  m1 ← mark_used frame m
  m2 ← install_table virtual_address frame m1
  data_frame_index ← next_free_frame_index m2.bitmap bitmap_element_count
  connect virtual_address data_frame_index m2

unfoldable pub setup_page : ℕ → Machine → Run Machine
setup_page virtual_address m = do
  page_table_frame_index ← next_free_frame_index m.bitmap bitmap_element_count
  setup_page_at virtual_address page_table_frame_index m

-- The processor has put the faulting address into cr2.
unfoldable pub page_fault_interrupt_handler : ℕ → Machine → Run Machine
page_fault_interrupt_handler cr2 m = setup_page cr2 m

-- The end of the heap, as an address in bytes.
unfoldable pub brk : ℕ → ℕ → ℤ × ℕ
brk addr heap_end = (pos 0, addr)

-- `heap_end` points to words of four bytes, so that `heap_end += incr` adds 4 * incr bytes.
unfoldable pub sbrk : ℕ → ℕ → ℕ × ℕ
sbrk incr heap_end = (heap_end, add32 heap_end (4 * incr))
