-- ===== src/Kernel.antt =====
-- kernel.c: what `main` does with the memory before it starts the devices. The screen output and
-- the descriptor tables, which share no state with it, are left out here.
pub mod Window
pub mod Correct
pub mod PagingSetup
mod Tests
use grub_os_iso_image.Common.{
  ℕ, zero, suc, ◌+◌, ◌-◌, ◌*◌, ◌/◌, ◌%◌, ◌^◌, ◌≤◌, ◌<◌, ◌≡◌, refl, sym, ap, ◌∙◌, ◌≢◌, ◌↔◌, ◌⊎◌, inl,
  inr, Bool, true, false, not, ◌&&◌, ◌||◌, Option, none, some, List, [], ◌∷◌, ◌++◌, append_assoc,
  append-nil, arith, ltb, leb, ◌==◌, if◌then◌else◌, ltb→lt, ltb→le, lt→ltb, le→ltb, ==_iff,
  Bool-cases, length, get_elem?, get_or, replicate, length-append, length-replicate, length-set,
  get_elem?-eq-get_or, get_or-set_self, get_or-set_ne, u8, u16, u32, add32, sub32, add64, sub64,
  ◌<<<◌, ◌>>>◌, Run, ok, fault, out_of_fuel, ◌>>=◌, >>=_assoc, >>=-ok, read, write, read-append,
  write-append, Ending, returns, faults, exhausts, ending, >>=-halts, >>=-eq-ok, read-halts,
  write-halts, read-eq-ok, read-eq-fault, write-eq-ok, ℤ, pos, negsuc, minus, int32, min, max,
  bit_and, bit_or, bit_xor, bit_at, bit_at-bit_and, bit_at-bit_or, bit_at_le, bit_at-zero,
  bit_at-pow_self, bit_at-pow_ne, bit_at-complement, bit_and-zero, bit_and-pow,
}
use grub_os_iso_image.Placement.Table.{Table, table_of, clear_placement_memory_array}
use grub_os_iso_image.Placement.Allocate.{allocate}
use grub_os_iso_image.Placement.Cover.{allocate_area_cover}
use grub_os_iso_image.Bitmap.{reset_bitmap, use_frames_in_bytes}
use grub_os_iso_image.Multiboot.{MultibootInfo, MemoryMap}
use grub_os_iso_image.MemoryMap.{is_zero, process_multiboot_memory_map}

abbrev pub multiboot_bootloader_magic : ℕ
multiboot_bootloader_magic = 0x2BADB002

abbrev pub reserved_memory_in_bytes : ℕ
reserved_memory_in_bytes = 40 * 1024 * 1024

abbrev pub placement_memory_size_in_bytes : ℕ
placement_memory_size_in_bytes = 5 * 1024 * 1024

-- `FRAME_AMOUNT / 32 + 1`, with the macros expanded as they stand.
abbrev pub bitmap_element_count : ℕ
bitmap_element_count = 200 * 1024 / 4 / 32 + 1

-- The global variables that `main` sets up.
pub record Memory : Type 0 where
  pub areas : Table
  pub placement_memory_address : ℕ
  pub bitmap : List ℕ

-- Where `main` returns, or that it gets to `init_pcilist`.
pub data Boot : Type 0 where
  map_failed : Boot
  placement_failed : Boot
  bitmap_failed : Boot
  ready : Boot

-- From `reset_bitmap` on.
unfoldable pub setup_bitmap : Memory → Run (Boot × Memory)
setup_bitmap m = do
  cleared ← reset_bitmap m.bitmap bitmap_element_count
  (code, marked) ←
      use_frames_in_bytes cleared bitmap_element_count
        (reserved_memory_in_bytes + placement_memory_size_in_bytes)
  ok (if is_zero code then ready else bitmap_failed, record m { bitmap = marked })

-- From `allocate_area_cover` on.
unfoldable pub setup_placement : Memory → Run (Boot × Memory)
setup_placement m = do
  (code, uncovered) ← allocate_area_cover 0 reserved_memory_in_bytes m.areas
  (address, taken) ← allocate placement_memory_size_in_bytes uncovered
  let m' = record m { areas = taken; placement_memory_address = address }
  if address == 0 then ok (placement_failed, m') else setup_bitmap m'

unfoldable pub main : (ℕ → MemoryMap) → ℕ → MultibootInfo → Memory → Run (Boot × Memory)
main memory magic mbi m = do
  cleared ← clear_placement_memory_array m.areas
  (code, mapped) ←
      (if magic == multiboot_bootloader_magic
        then process_multiboot_memory_map memory mbi cleared
        else ok (pos 0, cleared))
  let m' = record m { areas = mapped }
  if is_zero code then setup_placement m' else ok (map_failed, m')
