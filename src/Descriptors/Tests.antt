-- ===== src/Descriptors/Tests.antt =====
-- The tables that the kernel sets up.
use grub_os_iso_image.Common.{
  ℕ, suc, ◌≤◌, ◌<◌, ◌≡◌, refl, ◌≢◌, none, List, arith, length, get_or, replicate, Run, ok, ◌>>=◌,
  read,
}
use grub_os_iso_image.Descriptors.{
  GdtEntry, IdtEntry, gdt_set_gate, init_gdt, gdt_entry, init_idt, no_gate, Registers, Handlers,
}
use grub_os_iso_image.Descriptors.Gates.{IsGate, gdt_set_gate_lem, IsInterruptGate, init_idt_lem}

abbrev null_segment : GdtEntry
null_segment = record {
  limit_low = 0;
  base_low = 0;
  base_middle = 0;
  access = 0;
  granularity = 0;
  base_high = 0;
}

gdt_set_gate_lem_example :
    (after : List GdtEntry) × (gdt_set_gate 1 0 0xffffffff 0x9a 0xcf (replicate 5 null_segment)
      ≡ ok after)
    × (length after ≡ 5)
    × IsGate 0 0xffffffff 0x9a 0xcf (get_or after 1 null_segment)
    × ((i : ℕ)
        → i ≢ 1
        → get_or after i null_segment ≡ get_or (replicate 5 null_segment) i null_segment)
gdt_set_gate_lem_example =
    gdt_set_gate_lem 1 0 0xffffffff 0x9a 0xcf (replicate 5 null_segment) null_segment (omega arith)
      (omega arith) (omega arith) (omega arith)

init_idt_lem_example :
    (after : List IdtEntry) × (init_idt (λ i. 0x100000) ≡ ok after)
    × (length after ≡ 256)
    × ((i : ℕ) → i < 32 → IsInterruptGate 0x100000 (get_or after i no_gate))
    × ((i : ℕ) → 32 ≤ i → get_or after i no_gate ≡ no_gate)
init_idt_lem_example = init_idt_lem (λ i. 0x100000) (λ i. omega arith)

abbrev count_faults : Registers → ℕ → Run ℕ
count_faults regs s = ok (suc s)

abbrev no_handlers : Handlers ℕ
no_handlers = replicate 16 none

abbrev segments : List GdtEntry
segments = replicate 5 null_segment

-- The kernel's code segment begins at 0 and covers 4 GB.
code_segment : (init_gdt segments >>= λ gdt. read gdt 1) ≡ ok (gdt_entry 0 0xffffffff 0x9a 0xcf)
unfolding init_gdt gdt_set_gate gdt_entry
code_segment = refl
