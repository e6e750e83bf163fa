-- ===== src/Descriptors/Gates.antt =====
-- The hardware's reading of an entry.
use grub_os_iso_image.Common.{
  ℕ, zero, suc, ◌+◌, ◌*◌, ◌/◌, ◌%◌, ◌^◌, ◌≤◌, ◌<◌, ◌≡◌, refl, sym, ap, ◌∙◌, ◌≢◌, ◌⊎◌, inl, inr,
  List, arith, ◌==◌, ==_iff, Bool-cases, length, get_or, set, replicate, length-replicate,
  length-set, get_or-set_self, get_or-set_ne, ◌>>>◌, ok, write-eq-ok, bit_and, bit_or, bit_and-mask,
  bit_or-disjoint, bit_and-high,
}
use grub_os_iso_image.Descriptors.{
  GdtEntry, IdtEntry, gdt_entry, gdt_set_gate, idt_entry, idt_set_gate, set_gates_from, init_idt,
  no_gate,
}

-- The base address and the limit that the processor puts together from an entry.
abbrev pub gdt_base : GdtEntry → ℕ
gdt_base e = e.base_low + e.base_middle * 2 ^ 16 + e.base_high * 2 ^ 24

abbrev pub gdt_limit : GdtEntry → ℕ
gdt_limit e = e.limit_low + e.granularity % 16 * 2 ^ 16

abbrev pub idt_base : IdtEntry → ℕ
idt_base e = e.base_lo + e.base_hi * 2 ^ 16

-- The high half of a byte.
high_half : (x : ℕ) → bit_and x 0xf0 ≡ x / 16 % 16 * 16
high_half x = bit_and-high 4 x 15 ∙ ap (λ h. h * 16) (bit_and-mask 4 (x / 16))

granularity_lem :
    (limit gran : ℕ)
    → bit_or (bit_and (limit >>> 16) 0x0f) (bit_and gran 0xf0)
      ≡ limit / 2 ^ 16 % 16 + gran / 16 % 16 * 16
granularity_lem limit gran =
    let low : bit_and (limit / 2 ^ 16) 15 ≡ limit / 2 ^ 16 % 16 = bit_and-mask 4 (limit / 2 ^ 16) in
    rw (low, high_half gran)
      (bit_or-disjoint 4 (limit / 2 ^ 16 % 16) (gran / 16 % 16) (omega arith))

-- What the processor reads in entry `num`.
pub record IsGate (base limit access gran : ℕ) (e : GdtEntry) : Type 0 where
  pub base_read : gdt_base e ≡ base
  pub limit_read : gdt_limit e ≡ limit % 2 ^ 20
  pub access_read : e.access ≡ access
  pub flags_read : e.granularity / 16 ≡ gran / 16
  pub fits :
      (e.limit_low < 2 ^ 16)
      × (e.base_low < 2 ^ 16)
      × (e.base_middle < 2 ^ 8)
      × (e.access < 2 ^ 8)
      × (e.granularity < 2 ^ 8)
      × (e.base_high < 2 ^ 8)

-- For an index in range, a base below 2 ^ 32 and an access and a granularity byte below 2 ^ 8,
-- `gdt_set_gate` returns and keeps the length of the table. The processor reads in the entry the
-- base, the limit modulo 2 ^ 20, the access byte and the high half of the granularity byte, each
-- field fits its type, and the other entries are as before.
pub gdt_set_gate_lem :
    (num base limit access gran : ℕ) (entries : List GdtEntry) (d : GdtEntry)
    → num < length entries
    → base < 2 ^ 32
    → access < 2 ^ 8
    → gran < 2 ^ 8
    → (after : List GdtEntry) × (gdt_set_gate num base limit access gran entries ≡ ok after)
      × (length after ≡ length entries)
      × IsGate base limit access gran (get_or after num d)
      × ((i : ℕ) → i ≢ num → get_or after i d ≡ get_or entries i d)
unfolding gdt_set_gate gdt_entry
gdt_set_gate_lem num base limit access gran entries d h b a g =
    let e = gdt_entry base limit access gran in
    let same : get_or (set entries num e) num d ≡ e = get_or-set_self entries num e d h in
    let low = bit_and-mask 16 base in
    let middle = bit_and-mask 8 (base / 2 ^ 16) in
    let high = bit_and-mask 8 (base / 2 ^ 24) in
    let limit_low = bit_and-mask 16 limit in
    let granularity = granularity_lem limit gran in
    (
      set entries num e,
      write-eq-ok entries num e h,
      length-set entries num e,
      rw same (record {
        base_read = omega (arith, low, middle, high);
        limit_read = omega (arith, limit_low, granularity);
        access_read = omega (arith, a);
        flags_read = omega (arith, granularity);
        fits = omega (arith, low, middle, high, limit_low, granularity);
      }),
      λ i n. get_or-set_ne entries num i e d (λ p. n (sym p)),
    )

-- What the processor reads in an entry of the interrupt table.
abbrev pub IsInterruptGate : ℕ → IdtEntry → Type 0
IsInterruptGate base e = (idt_base e ≡ base) × (e.sel ≡ 8) × (e.always0 ≡ 0) × (e.flags ≡ 0x8e)

set_gates_from_lem :
    (isr : ℕ → ℕ) (rounds num : ℕ) (entries : List IdtEntry)
    → ((i : ℕ) → isr i < 2 ^ 32)
    → num + rounds ≤ length entries
    → (after : List IdtEntry) × (set_gates_from isr rounds num entries ≡ ok after)
      × (length after ≡ length entries)
      × ((i : ℕ) → num ≤ i → i < num + rounds → IsInterruptGate (isr i) (get_or after i no_gate))
      × ((i : ℕ)
          → (i < num) ⊎ (num + rounds ≤ i)
          → get_or after i no_gate ≡ get_or entries i no_gate)
unfolding set_gates_from idt_set_gate idt_entry
set_gates_from_lem isr zero num entries b h =
    (entries, refl, refl, λ i p q. absurd (omega arith), λ i p. refl)
set_gates_from_lem isr (suc rounds) num entries b h =
    let e = idt_entry (isr num) 8 0x8e in
    let run = write-eq-ok entries num e (omega arith) in
    let (after, run', l, gates, others) =
      set_gates_from_lem isr rounds (suc num) (set entries num e) b
        (omega (arith, length-set entries num e)) in
    let here : get_or (set entries num e) num no_gate ≡ e =
      get_or-set_self entries num e no_gate (omega arith) in
    let base : idt_base e ≡ isr num =
      omega (arith, b num, bit_and-mask 16 (isr num), bit_and-mask 16 (isr num / 2 ^ 16)) in
    (
      after,
      rw run run',
      l ∙ length-set entries num e,
      λ i p q. elim (Bool-cases (i == num)) [
        | inl first ↦
            let i_num : i ≡ num = (==_iff _ _).0 first in
            rw (i_num, others num (inl (omega arith)), here) (base, refl, refl, refl)
        | inr later ↦ gates i (ground arith) (omega arith)
      ],
      λ i p. others i (ground arith) ∙ get_or-set_ne entries num i e no_gate (λ q. ground arith),
    )

-- For stubs at addresses below 2 ^ 32 `init_idt` returns a table of 256 entries, of which the
-- first 32 are interrupt gates to the stubs in the kernel's code segment, and the others are
-- empty.
pub init_idt_lem :
    (isr : ℕ → ℕ)
    → ((i : ℕ) → isr i < 2 ^ 32)
    → (after : List IdtEntry) × (init_idt isr ≡ ok after)
      × (length after ≡ 256)
      × ((i : ℕ) → i < 32 → IsInterruptGate (isr i) (get_or after i no_gate))
      × ((i : ℕ) → 32 ≤ i → get_or after i no_gate ≡ no_gate)
unfolding init_idt
init_idt_lem isr b =
    let (after, run, l, gates, others) =
      set_gates_from_lem isr 32 0 (replicate 256 no_gate) b
        (omega (arith, length-replicate 256 no_gate)) in
    (
      after,
      run,
      l ∙ length-replicate 256 no_gate,
      λ i h. gates i (omega arith) (omega arith),
      λ i h. others i (inr (omega arith)) ∙ empty 256 i,
    )
  where
    empty : (n i : ℕ) → get_or (replicate n no_gate) i no_gate ≡ no_gate
    empty zero i = refl
    empty (suc n) zero = refl
    empty (suc n) (suc i) = empty n i
