-- ===== src/Pci/Bridge.antt =====
-- The configuration space behind the two ports, and what the functions of pci.c do to it.
use grub_os_iso_image.Common.{
  ℕ, zero, suc, ◌+◌, ◌*◌, ◌/◌, ◌%◌, ◌^◌, ◌≤◌, ◌<◌, ◌≡◌, refl, ◌∙◌, ◌⊎◌, inl as left, inr as right,
  arith, ◌==◌, if◌then◌else◌, ==_iff, Bool-cases, u32, ok, bit_at, bit_at_le, bit_and-mask,
  bit_or-disjoint, bit_or_comm, bit_and-high,
}
use grub_os_iso_image.Pci.Ports.{Ports, outl, inl}
use grub_os_iso_image.Pci.Config.{word_shift, r_pci_32, pci_read_word, replace_word, pci_write_word}
use grub_os_iso_image.Pci.Address.{
  config_address, IsFunction, register_index_lem, word_address_lem, config_address_small,
  word_shift_lem, word_at, u8_byte, u16_word, masked_word,
}

-- Configuration mechanism 1: the first port holds an address, the second one is a window on the
-- dword there. `Keeps a`: the dword at `a` holds what is written to it.
pub record HostBridge {D : Type 0} (ports : Ports D) : Type 1 where
  pub address : D → ℕ
  pub config : D → ℕ → ℕ
  pub Keeps : ℕ → Type 0
  pub config_small : (d : D) (a : ℕ) → config d a < 2 ^ 32
  pub address-out : (v : ℕ) (d : D) → address (ports.out_port 32 v 0xCF8 d) ≡ v
  pub config-out : (v a : ℕ) (d : D) → config (ports.out_port 32 v 0xCF8 d) a ≡ config d a
  pub in_data : (d : D) → ports.in_port 32 0xCFC d ≡ (config d (address d), d)
  pub config-out_data :
      (v a : ℕ) (d : D)
      → v < 2 ^ 32
      → Keeps (address d)
      → config (ports.out_port 32 v 0xCFC d) a ≡ (if a == address d then v else config d a)

-- `dword` with the half that `offset` selects replaced.
abbrev pub with_word : ℕ → ℕ → ℕ → ℕ
with_word offset dword word =
    if bit_at offset 1 == 0 then dword / 2 ^ 16 * 2 ^ 16 + word else word * 2 ^ 16 + dword % 2 ^ 16

zero_or_one : (x : ℕ) → x ≤ 1 → (x ≡ 0) ⊎ (x ≡ 1)
zero_or_one zero h = left refl
zero_or_one (suc x) h = right (omega arith)

pub replace_word_lem :
    (offset dword word : ℕ)
    → dword < 2 ^ 32
    → word < 2 ^ 16
    → replace_word dword (word_shift offset) word ≡ with_word offset dword word
unfolding replace_word
replace_word_lem offset dword word small w =
    rw (word_shift_lem offset) elim (zero_or_one (bit_at offset 1) (bit_at_le offset 1)) [
      | left e ↦
          rw
            (
              e,
              bit_and-high 16 dword 65535,
              bit_and-mask 16 (dword / 2 ^ 16),
              bit_or_comm (dword / 2 ^ 16 % 2 ^ 16 * 2 ^ 16) (word * 1),
              bit_or-disjoint 16 (word * 1) (dword / 2 ^ 16 % 2 ^ 16) (omega arith),
            )
            (omega arith)
      | right e ↦
          rw (e, bit_and-mask 16 dword, bit_or-disjoint 16 (dword % 2 ^ 16) word (omega arith))
            (omega arith)
    ]

pub word_at-with_word :
    (offset dword word : ℕ)
    → dword < 2 ^ 32
    → word < 2 ^ 16
    → word_at offset (with_word offset dword word) ≡ word
word_at-with_word offset dword word small w =
    elim (zero_or_one (bit_at offset 1) (bit_at_le offset 1)) [
      | left e ↦ rw e (omega arith)
      | right e ↦ rw e (omega arith)
    ]

with_word_small :
    (offset dword word : ℕ) → dword < 2 ^ 32 → word < 2 ^ 16 → with_word offset dword word < 2 ^ 32
with_word_small offset dword word small w =
    elim (zero_or_one (bit_at offset 1) (bit_at_le offset 1)) [
      | left e ↦ rw e (omega arith)
      | right e ↦ rw e (omega arith)
    ]

module _ {D : Type 0} (ports : Ports D) (bridge : HostBridge ports) where
  open bridge use {
    address, config, Keeps, config_small, address-out, config-out, in_data, config-out_data,
  }

  selected :
      (a : ℕ) (d : D)
      → ports.in_port 32 0xCFC (ports.out_port 32 a 0xCF8 d)
        ≡ (config d a, ports.out_port 32 a 0xCF8 d)
  selected a d =
      let d' = ports.out_port 32 a 0xCF8 d in rw (in_data d', address-out a d, config-out a a d)

  -- A read: the dword at the address, and a configuration space that is as before.
  pub r_pci_32_lem :
      (bus device func register : ℕ) (d : D)
      → IsFunction bus device func
      → register < 64
      → (d' : D) × (r_pci_32 ports bus device func register d
          ≡ ok (config d (config_address bus device func register), d'))
        × ((a : ℕ) → config d' a ≡ config d a)
  unfolding r_pci_32 outl inl
  r_pci_32_lem bus device func register d f small =
      let b8 = u8_byte bus f.bus_small in
      let d8 = u8_byte device (omega (arith, f.device_small)) in
      let f8 = u8_byte func (omega (arith, f.func_small)) in
      let r8 = u8_byte register (omega arith) in
      let r = register_index_lem bus device func register f small in
      let fits = config_address_small bus device func register f small in
      let a = config_address bus device func register in
      let whole : u32 a ≡ a = omega (arith, fits) in
      let value : u32 (config d a) ≡ config d a = omega (arith, config_small d a) in
      (
        ports.out_port 32 a 0xCF8 d,
        rw (b8, d8, f8, r8, r, whole, selected, value) refl,
        λ x. config-out a x d,
      )

  -- On a PCI configuration space whose dword at an address holds what is written, `pci_write_word`
  -- returns the word it was given, and changes nothing but the half of that dword that the offset
  -- selects.
  pub pci_write_word_lem :
      (bus device func offset word : ℕ) (d : D)
      → IsFunction bus device func
      → offset < 256
      → word < 2 ^ 16
      → Keeps (config_address bus device func (offset / 4))
      → (d' : D) × (pci_write_word ports bus device func offset word d ≡ ok (word, d'))
        × ((a : ℕ)
            → config d' a ≡ (
                if a == config_address bus device func (offset / 4)
                then with_word offset (config d a) word
                else config d a))
  unfolding pci_write_word pci_read_word outl inl
  pci_write_word_lem bus device func offset word d f small w keeps =
      let b16 = u16_word bus (omega (arith, f.bus_small)) in
      let d16 = u16_word device (omega (arith, f.device_small)) in
      let f16 = u16_word func (omega (arith, f.func_small)) in
      let o16 = u16_word offset (omega arith) in
      let w16 = u16_word word w in
      let e = word_address_lem bus device func offset f small in
      let fits = config_address_small bus device func (offset / 4) f (omega arith) in
      let a = config_address bus device func (offset / 4) in
      let whole : u32 a ≡ a = omega (arith, fits) in
      let value : u32 (config d a) ≡ config d a = omega (arith, config_small d a) in
      let new = with_word offset (config d a) word in
      let new_small = with_word_small offset (config d a) word (config_small d a) w in
      let new_whole : u32 new ≡ new = omega (arith, new_small) in
      let d1 = ports.out_port 32 a 0xCF8 d in
      let d2 = ports.out_port 32 a 0xCF8 d1 in
      let d3 = ports.out_port 32 new 0xCFC d2 in
      let d4 = ports.out_port 32 a 0xCF8 d3 in
      let at : address d2 ≡ a = address-out a d1 in
      let stored : (x : ℕ) → config d3 x ≡ (if x == a then new else config d x) = λ x.
        rw
          (
            config-out_data new x d2 new_small (rw at keeps),
            at,
            config-out a x d1,
            config-out a x d,
          )
          refl in
      let own : config d3 a ≡ new = stored a ∙ rw ((==_iff a a).1 refl) refl in
      let back = word_at-with_word offset (config d a) word (config_small d a) w in
      let replaced = replace_word_lem offset (config d a) word (config_small d a) w in
      (
        d4,
        rw
            (
              b16,
              b16,
              d16,
              d16,
              f16,
              f16,
              o16,
              o16,
              w16,
              e,
              whole,
              selected a d,
              value,
              replaced,
              new_whole,
              selected a d3,
              own,
              new_whole,
              masked_word new offset,
              back,
            )
            refl,
        λ x. config-out a x d3 ∙ stored x ∙ elim (Bool-cases (x == a)) [
          | left h ↦ rw (h, (==_iff x a).0 h) refl
          | right h ↦ rw h refl
        ],
      )
