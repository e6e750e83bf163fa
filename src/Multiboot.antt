-- ===== src/Multiboot.antt =====
-- multiboot.h and multiboot.c: what the boot loader passes to the kernel, and the ranges that the
-- kernel's ELF sections and the boot modules take off the free areas. What the loader has put into
-- memory is a function from addresses.
use grub_os_iso_image.Common.{
  ℕ, zero, suc, ◌*◌, ◌^◌, Bool, ltb, if◌then◌else◌, add32, sub32, Run, ok, ◌>>=◌, bit_and,
}
use grub_os_iso_image.Placement.Table.{Table}
use grub_os_iso_image.Placement.AllocateArea.{allocate_area}

-- `aout_symbol_table_t` shares its bytes with this structure and is not read.
pub record ElfSectionHeaderTable : Type 0 where
  pub num : ℕ
  pub size : ℕ
  pub addr : ℕ
  pub shndx : ℕ

pub record MultibootInfo : Type 0 where
  pub flags : ℕ
  pub mem_lower : ℕ
  pub mem_upper : ℕ
  pub boot_device : ℕ
  pub cmdline : ℕ
  pub mods_count : ℕ
  pub mods_addr : ℕ
  pub elf_sec : ElfSectionHeaderTable
  pub mmap_length : ℕ
  pub mmap_addr : ℕ

pub record Module : Type 0 where
  pub mod_start : ℕ
  pub mod_end : ℕ
  pub string : ℕ
  pub reserved : ℕ

pub record MemoryMap : Type 0 where
  pub size : ℕ
  pub base_addr_low : ℕ
  pub base_addr_high : ℕ
  pub length_low : ℕ
  pub length_high : ℕ
  pub type : ℕ

-- `CHECK_FLAG`
unfoldable pub check_flag : ℕ → ℕ → Bool
check_flag flags bit = ltb 0 (bit_and flags (2 ^ bit))

-- `processELF`: the result of `allocate_area` is not looked at.
unfoldable pub process_elf : MultibootInfo → Table → Run Table
process_elf mbi t =
    if check_flag mbi.flags 5
    then (allocate_area mbi.elf_sec.addr mbi.elf_sec.size t >>= λ (code, t'). ok t')
    else ok t

-- `mod += sizeof(module_t)` adds sixteen structures of sixteen bytes each.
abbrev pub module_stride : ℕ
module_stride = 16 * 16

unfoldable pub process_mods_from : (ℕ → Module) → ℕ → ℕ → Table → Run Table
process_mods_from memory zero address t = ok t
process_mods_from memory (suc rounds) address t = do
  let m = memory address
  (code, t') ← allocate_area m.mod_start (sub32 m.mod_end m.mod_start) t
  process_mods_from memory rounds (add32 address module_stride) t'

-- `processMods`
unfoldable pub process_mods : (ℕ → Module) → MultibootInfo → Table → Run Table
process_mods memory mbi t =
    if check_flag mbi.flags 3 then process_mods_from memory mbi.mods_count mbi.mods_addr t else ok t
