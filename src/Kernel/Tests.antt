-- ===== src/Kernel/Tests.antt =====
-- A start on a machine with 128 MB of memory, as an emulator reports it.
use grub_os_iso_image.Common.{
  ℕ, ◌≡◌, refl, List, [], ◌∷◌, arith, ◌==◌, if◌then◌else◌, replicate, length-replicate, ok, pos,
}
use grub_os_iso_image.Placement.Area.{Area}
use grub_os_iso_image.Placement.Table.{table, table_of}
use grub_os_iso_image.Multiboot.{MultibootInfo, MemoryMap, check_flag}
use grub_os_iso_image.MemoryMap.{process_multiboot_memory_map}
use grub_os_iso_image.MemoryMap.Layout.{IsLaid}
use grub_os_iso_image.MemoryMap.Correct.{
  Ascends, ram, other, done, IsFilled, is_ram, process_multiboot_memory_map_lem,
}
use grub_os_iso_image.Kernel.{Memory, ready, main, multiboot_bootloader_magic, bitmap_element_count}
use grub_os_iso_image.Kernel.Correct.{IsSetUp, main_lem}
use grub_os_iso_image.Paging.{Machine}
use grub_os_iso_image.Kernel.PagingSetup.{paging_setup}
use grub_os_iso_image.Kernel.PagingSetup.Identity.{IsIdentity, paging_setup_lem}

abbrev map_entry : ℕ → ℕ → ℕ → MemoryMap
map_entry base size kind = record {
  size = 20;
  base_addr_low = base;
  base_addr_high = 0;
  length_low = size;
  length_high = 0;
  type = kind;
}

abbrev low_memory : MemoryMap
low_memory = map_entry 0 654336 1

abbrev bios : MemoryMap
bios = map_entry 654336 1024 2

abbrev high_memory : MemoryMap
high_memory = map_entry 1048576 133038080 1

-- The three entries lie from 0x9000 on.
abbrev memory_contents : ℕ → MemoryMap
memory_contents a = if a == 36864 then low_memory else if a == 36888 then bios else high_memory

abbrev info : MultibootInfo
info = record {
  flags = 0x4f;
  mem_lower = 639;
  mem_upper = 129920;
  boot_device = 0;
  cmdline = 0;
  mods_count = 0;
  mods_addr = 0;
  elf_sec = record { num = 0; size = 0; addr = 0; shndx = 0 };
  mmap_length = 72;
  mmap_addr = 36864;
}

abbrev entries : List MemoryMap
entries = low_memory ∷ bios ∷ high_memory ∷ []

entries-Ascends : Ascends 0 entries
entries-Ascends =
    ram refl refl refl (omega arith) (omega arith) (omega arith) (omega arith)
      (other refl (ram refl refl refl (omega arith) (omega arith) (omega arith) (omega arith) done))

entries-IsLaid : IsLaid memory_contents 36864 36936 entries
entries-IsLaid = (refl, omega arith, (refl, omega arith, (refl, omega arith, refl)))

process_multiboot_memory_map_lem_example :
    (after : List Area) × (process_multiboot_memory_map memory_contents info (table_of [])
      ≡ ok (pos 0, table_of after))
    × IsFilled [] entries after
unfolding check_flag
process_multiboot_memory_map_lem_example =
    process_multiboot_memory_map_lem memory_contents info entries refl (omega arith) entries-IsLaid
      entries-Ascends (omega arith)

abbrev one : ℕ
one = 1

abbrev at_start : Memory
at_start = record {
  areas = table (replicate 10 (record { start = 0; size = 0 })) 0;
  placement_memory_address = 0;
  bitmap = replicate bitmap_element_count 0;
}

main_lem_example :
    (m' : Memory) × (left : List Area) × (main memory_contents multiboot_bootloader_magic info
        at_start
      ≡ ok (ready, m'))
    × IsSetUp (is_ram entries) m' left
unfolding check_flag
main_lem_example =
    main_lem memory_contents info entries at_start 41943040 refl
      (length-replicate {A = ℕ} bitmap_element_count 0) refl (omega arith) entries-IsLaid
      entries-Ascends (omega arith) (omega arith) refl

-- Four page tables behind 40 MB of reserved memory, on memory of zeros.
abbrev zeros : Machine
zeros = record { frames = λ f i. 0; cr3 = 0; bitmap = [] }

paging_setup_lem_example :
    (m' : Machine) × (paging_setup 4 41943040 zeros ≡ ok (41967616, m'))
    × IsIdentity 10241 4 zeros.frames m'
paging_setup_lem_example =
    paging_setup_lem 4 41943040 zeros (omega arith) (omega arith) (omega arith)
