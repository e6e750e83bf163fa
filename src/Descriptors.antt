-- ===== src/Descriptors.antt =====
-- descriptor_tables.c: the entries of the global and the interrupt descriptor table, and isr.c: the
-- table of interrupt handlers. The instructions that load the tables are not modelled.
pub mod Gates
pub mod Handlers
mod Tests
use grub_os_iso_image.Common.{
  ℕ, zero, suc, ◌+◌, ◌-◌, ◌*◌, ◌/◌, ◌%◌, ◌^◌, ◌≤◌, ◌<◌, ◌≡◌, refl, sym, ap, ◌∙◌, ◌≢◌, ◌↔◌, ◌⊎◌, inl,
  inr, Bool, true, false, not, ◌&&◌, ◌||◌, Option, none, some, List, [], ◌∷◌, ◌++◌, append_assoc,
  append-nil, arith, ltb, leb, ◌==◌, if◌then◌else◌, ltb→lt, ltb→le, lt→ltb, le→ltb, ==_iff,
  Bool-cases, length, get_elem?, get_or, replicate, length-append, length-replicate, length-set,
  get_elem?-eq-get_or, get_or-set_self, get_or-set_ne, u8, u16, u32, add32, sub32, add64, sub64,
  ◌<<<◌, ◌>>>◌, Run, ok, fault, out_of_fuel, ◌>>=◌, >>=_assoc, >>=-ok, read, write, read-append,
  write-append, Ending, returns, faults, exhausts, ending, >>=-halts, >>=-eq-ok, read-halts,
  write-halts, read-eq-ok, read-eq-fault, write-eq-ok, ℤ, pos, negsuc, minus, int32, min, max,
  bit_and, bit_or, bit_xor, bit_at, bit_at-bit_and, bit_at-bit_or, bit_at_le, bit_at-zero,
  bit_at-pow_self, bit_at-pow_ne, bit_at-complement, bit_and-zero, bit_and-pow,
}

pub record GdtEntry : Type 0 where
  pub limit_low : ℕ
  pub base_low : ℕ
  pub base_middle : ℕ
  pub access : ℕ
  pub granularity : ℕ
  pub base_high : ℕ

pub record IdtEntry : Type 0 where
  pub base_lo : ℕ
  pub sel : ℕ
  pub always0 : ℕ
  pub flags : ℕ
  pub base_hi : ℕ

unfoldable pub gdt_entry : ℕ → ℕ → ℕ → ℕ → GdtEntry
gdt_entry base limit access gran = record {
  base_low = bit_and base 0xffff;
  base_middle = bit_and (base >>> 16) 0xff;
  base_high = bit_and (base >>> 24) 0xff;
  limit_low = bit_and limit 0xffff;
  granularity = bit_or (bit_and (limit >>> 16) 0x0f) (bit_and gran 0xf0);
  access = u8 access;
}

unfoldable pub gdt_set_gate : ℕ → ℕ → ℕ → ℕ → ℕ → List GdtEntry → Run (List GdtEntry)
gdt_set_gate num base limit access gran gdt_entries =
    write gdt_entries num (gdt_entry base limit access gran)

unfoldable pub init_gdt : List GdtEntry → Run (List GdtEntry)
init_gdt gdt_entries = do
  e1 ← gdt_set_gate 0 0 0 0 0 gdt_entries
  e2 ← gdt_set_gate 1 0 0xffffffff 0x9a 0xcf e1
  e3 ← gdt_set_gate 2 0 0xffffffff 0x92 0xcf e2
  e4 ← gdt_set_gate 3 0 0xffffffff 0xfa 0xcf e3
  gdt_set_gate 4 0 0xffffffff 0xf2 0xcf e4

unfoldable pub idt_entry : ℕ → ℕ → ℕ → IdtEntry
idt_entry base sel flags = record {
  base_lo = bit_and base 0xffff;
  base_hi = bit_and (base >>> 16) 0xffff;
  sel = u16 sel;
  always0 = 0;
  flags = u8 flags;
}

unfoldable pub idt_set_gate : ℕ → ℕ → ℕ → ℕ → List IdtEntry → Run (List IdtEntry)
idt_set_gate num base sel flags idt_entries = write idt_entries num (idt_entry base sel flags)

-- The gates from `num` on, `rounds` of them: the calls of `init_idt`, one for each stub.
unfoldable pub set_gates_from : (ℕ → ℕ) → ℕ → ℕ → List IdtEntry → Run (List IdtEntry)
set_gates_from isr zero num idt_entries = ok idt_entries
set_gates_from isr (suc rounds) num idt_entries = do
  entries ← idt_set_gate num (isr num) 0x08 0x8e idt_entries
  set_gates_from isr rounds (suc num) entries

-- What `k_memset` makes of an entry.
abbrev pub no_gate : IdtEntry
no_gate = record { base_lo = 0; sel = 0; always0 = 0; flags = 0; base_hi = 0 }

-- `isr n` is the address of the assembly stub `isrn`. All 256 entries are cleared first.
unfoldable pub init_idt : (ℕ → ℕ) → Run (List IdtEntry)
init_idt isr = set_gates_from isr 32 0 (replicate 256 no_gate)

-- What the stub passes to `isr_handler`.
pub record Registers : Type 0 where
  pub ds : ℕ
  pub edi : ℕ
  pub esi : ℕ
  pub ebp : ℕ
  pub esp : ℕ
  pub ebx : ℕ
  pub edx : ℕ
  pub ecx : ℕ
  pub eax : ℕ
  pub int_no : ℕ
  pub err_code : ℕ
  pub eip : ℕ
  pub cs : ℕ
  pub eflags : ℕ
  pub useresp : ℕ
  pub ss : ℕ

-- `interrupt_handlers`, with `none` for a null pointer. A handler changes the state `S` of the rest
-- of the kernel.
abbrev pub Handlers : Type 0 → Type 0
Handlers S = List (Option (Registers → S → Run S))

unfoldable pub register_interrupt_handler :
    {S : Type 0} → ℕ → (Registers → S → Run S) → Handlers S → Run (Handlers S)
register_interrupt_handler n handler handlers = write handlers n (some handler)

-- `report` prints that there is no handler.
unfoldable pub isr_handler : {S : Type 0} → (S → Run S) → Handlers S → Registers → S → Run S
isr_handler report handlers regs s = do
  entry ← read handlers regs.int_no
  elim entry [ none ↦ report s | some handler ↦ handler regs s ]
