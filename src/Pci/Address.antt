-- ===== src/Pci/Address.antt =====
-- The addresses of the configuration space as sums, and the three ways to read it.
use grub_os_iso_image.Common.{
  ℕ, ◌+◌, ◌*◌, ◌/◌, ◌%◌, ◌^◌, ◌<◌, ◌≡◌, refl, ◌∙◌, arith, u8, u16, u32, ◌>>>◌, bit_and, bit_or,
  bit_at, bit_and-pow, bit_and-mask, bit_or-disjoint, bit_or_comm, bit_and-high,
}
use grub_os_iso_image.Pci.Ports.{Ports, done, ◌>>=◌, outl, inl}
use grub_os_iso_image.Pci.Config.{
  register_index, word_address, word_shift, r_pci_32, pci_config_read_word, pci_read_word,
}

or_low : (k x l h : ℕ) → l < 2 ^ k → x ≡ h * 2 ^ k → bit_or x l ≡ x + l
or_low k x l h small e =
    rw e (bit_or_comm (h * 2 ^ k) l ∙ bit_or-disjoint k l h small ∙ omega arith)

-- The address of a register: the fields of the configuration mechanism, with the enable bit.
abbrev pub config_address : ℕ → ℕ → ℕ → ℕ → ℕ
config_address bus device func register =
    2 ^ 31 + bus * 2 ^ 16 + device * 2 ^ 11 + func * 2 ^ 8 + register * 4

pub record IsFunction (bus device func : ℕ) : Type 0 where
  pub bus_small : bus < 256
  pub device_small : device < 32
  pub func_small : func < 8

pub register_index_lem :
    (bus device func register : ℕ)
    → IsFunction bus device func
    → register < 64
    → register_index bus device func register ≡ config_address bus device func register
unfolding register_index
register_index_lem bus device func register f small =
    let b = or_low 31 (2 ^ 31) (bus * 2 ^ 16) 1 (omega (arith, f.bus_small)) refl in
    let d =
      or_low 16 (2 ^ 31 + bus * 2 ^ 16) (device * 2 ^ 11) (2 ^ 15 + bus)
        (omega (arith, f.device_small)) (omega arith) in
    let e =
      or_low 11 (2 ^ 31 + bus * 2 ^ 16 + device * 2 ^ 11) (func * 2 ^ 8)
        (2 ^ 20 + bus * 2 ^ 5 + device) (omega (arith, f.func_small)) (omega arith) in
    let g =
      or_low 8 (2 ^ 31 + bus * 2 ^ 16 + device * 2 ^ 11 + func * 2 ^ 8) (register * 2 ^ 2)
        (2 ^ 23 + bus * 2 ^ 8 + device * 2 ^ 3 + func) (omega arith) (omega arith) in
    rw (b, d, e, g) (omega (arith, f.bus_small, f.device_small, f.func_small))

-- `offset & 0xfc`
dword_of_byte : (offset : ℕ) → offset < 256 → bit_and offset 0xfc ≡ offset / 4 * 4
dword_of_byte offset small =
    bit_and-high 2 offset 63 ∙ rw (bit_and-mask 6 (offset / 4)) (omega arith)

pub word_address_lem :
    (bus device func offset : ℕ)
    → IsFunction bus device func
    → offset < 256
    → word_address bus device func offset ≡ config_address bus device func (offset / 4)
unfolding word_address
word_address_lem bus device func offset f small =
    let d = or_low 16 (bus * 2 ^ 16) (device * 2 ^ 11) bus (omega (arith, f.device_small)) refl in
    let e =
      or_low 11 (bus * 2 ^ 16 + device * 2 ^ 11) (func * 2 ^ 8) (bus * 2 ^ 5 + device)
        (omega (arith, f.func_small)) (omega arith) in
    let g =
      or_low 8 (bus * 2 ^ 16 + device * 2 ^ 11 + func * 2 ^ 8) (offset / 4 * 4)
        (bus * 2 ^ 8 + device * 2 ^ 3 + func) (omega arith) (omega arith) in
    let h =
      bit_or-disjoint 31 (bus * 2 ^ 16 + device * 2 ^ 11 + func * 2 ^ 8 + offset / 4 * 4) 1
        (omega (arith, f.bus_small, f.device_small, f.func_small)) in
    rw (d, e, dword_of_byte offset small, g, h) (omega arith)

pub config_address_small :
    (bus device func register : ℕ)
    → IsFunction bus device func
    → register < 64
    → config_address bus device func register < 2 ^ 32
config_address_small bus device func register f small =
    omega (arith, f.bus_small, f.device_small, f.func_small)

pub word_shift_lem : (offset : ℕ) → word_shift offset ≡ bit_at offset 1 * 16
word_shift_lem offset = omega (arith, bit_and-pow 1 offset)

-- The half of a dword that an offset selects.
abbrev pub word_at : ℕ → ℕ → ℕ
word_at offset dword = dword / 2 ^ (bit_at offset 1 * 16) % 2 ^ 16

pub u8_byte : (x : ℕ) → x < 256 → u8 x ≡ x
u8_byte x h = omega arith

pub u32_twice : (x : ℕ) → u32 (u32 x) ≡ u32 x
u32_twice x = omega arith

pub u16_word : (x : ℕ) → x < 2 ^ 16 → u16 x ≡ x
u16_word x h = omega arith

pub masked_word : (x offset : ℕ) → u16 (bit_and (x >>> word_shift offset) 0xffff) ≡ word_at offset x
masked_word x offset =
    rw (word_shift_lem offset, bit_and-mask 16 (x / 2 ^ (bit_at offset 1 * 16))) (omega arith)

module _ {D : Type 0} (ports : Ports D) (bus device func offset : ℕ) where
  -- For a bus below 256, a device below 32, a function below 8 and an offset below 256,
  -- `pci_read_word` and `pciConfigReadWord` access the ports as `r_pci_32` does for the register
  -- `offset / 4`, and return the half of its result that bit 1 of the offset selects.
  pub read_word-r_pci_32 :
      IsFunction bus device func
      → offset < 256
      → (d : D)
      → (pci_read_word ports bus device func offset d
          ≡ (r_pci_32 ports bus device func (offset / 4) >>= λ dword. done (word_at offset dword))
              d)
        × (pci_config_read_word ports bus device func offset d
            ≡ (r_pci_32 ports bus device func (offset / 4) >>= λ dword. done (word_at offset dword))
                d)
  unfolding pci_read_word pci_config_read_word r_pci_32 outl inl
  read_word-r_pci_32 f small d =
      let a = word_address_lem bus device func offset f small in
      let r = register_index_lem bus device func (offset / 4) f (omega arith) in
      let b8 = u8_byte bus f.bus_small in
      let d8 = u8_byte device (omega (arith, f.device_small)) in
      let f8 = u8_byte func (omega (arith, f.func_small)) in
      let o8 = u8_byte offset small in
      let b16 = u16_word bus (omega (arith, f.bus_small)) in
      let d16 = u16_word device (omega (arith, f.device_small)) in
      let f16 = u16_word func (omega (arith, f.func_small)) in
      let o16 = u16_word offset (omega arith) in
      let q8 = u8_byte (offset / 4) (omega arith) in
      (
        rw (b16, d16, f16, o16, b8, d8, f8, q8, a, r, masked_word) refl,
        rw (b8, d8, f8, q8, o8, a, r, masked_word, u32_twice) refl,
      )
