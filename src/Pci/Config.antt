-- ===== src/Pci/Config.antt =====
-- pci.c: the accesses to the configuration space. Each writes the address of a register to one port
-- and reads or writes the register through another one.
use grub_os_iso_image.Common.{
  ℕ, ◌+◌, ◌-◌, ◌*◌, ◌^◌, ◌==◌, if◌then◌else◌, u8, u16, u32, ◌<<<◌, ◌>>>◌, bit_and, bit_or,
}
use grub_os_iso_image.Pci.Ports.{Ports, Io, done, ◌>>=◌, ◌>>◌, outb, outl, inb, inl as in_long}

abbrev pub pci_enable_bit : ℕ
pci_enable_bit = 0x80000000

abbrev pub pci_config_address : ℕ
pci_config_address = 0xCF8

abbrev pub pci_config_data : ℕ
pci_config_data = 0xCFC

infixl 70 ◌or◌
abbrev ◌or◌ : ℕ → ℕ → ℕ
x or y = bit_or x y

-- `x & ~3` on 32 bits
abbrev pub dword_aligned : ℕ → ℕ
dword_aligned x = bit_and x (2 ^ 32 - 1 - 3)

-- The index that the functions with a register number compute.
unfoldable pub register_index : ℕ → ℕ → ℕ → ℕ → ℕ
register_index bus device func pcireg =
    u32 (pci_enable_bit or (bus <<< 16) or (device <<< 11) or (func <<< 8) or (pcireg <<< 2))

-- The address that the functions with a byte offset compute.
unfoldable pub word_address : ℕ → ℕ → ℕ → ℕ → ℕ
word_address bus slot func offset =
    (bus <<< 16) or (slot <<< 11) or (func <<< 8) or bit_and offset 0xfc or pci_enable_bit

-- `(offset & 2) * 8`
abbrev pub word_shift : ℕ → ℕ
word_shift offset = bit_and offset 2 * 8

unfoldable pub config_cmd : ℕ → ℕ → ℕ → ℕ
config_cmd bus devfn where_ =
    u32 (0x80000000 or (bus <<< 16) or (devfn <<< 8) or dword_aligned where_)

-- `tmp` with the word at the shift replaced.
unfoldable pub replace_word : ℕ → ℕ → ℕ → ℕ
replace_word tmp shift word =
    u32 (bit_and tmp (2 ^ 32 - 1 - u32 (0xFFFF <<< shift)) or (word <<< shift))

module _ {D : Type 0} (ports : Ports D) where
  unfoldable pub r_pci_32 : ℕ → ℕ → ℕ → ℕ → Io D ℕ
  r_pci_32 bus device func pcireg =
      outl ports (register_index (u8 bus) (u8 device) (u8 func) (u8 pcireg)) pci_config_address
      >> in_long ports pci_config_data

  unfoldable pub pci_config_read_word : ℕ → ℕ → ℕ → ℕ → Io D ℕ
  pci_config_read_word bus slot func offset = do
    outl ports (u32 (word_address (u8 bus) (u8 slot) (u8 func) (u8 offset))) 0xCF8
    data_ ← in_long ports 0xCFC
    done (u16 (bit_and (data_ >>> word_shift (u8 offset)) 0xffff))

  unfoldable pub pcibios_read_config_byte : ℕ → ℕ → ℕ → ℕ → Io D ℕ
  pcibios_read_config_byte bus device device_fn where_ =
      outl ports
        (u32 (
          pci_enable_bit
          or (bus <<< 16)
          or (device <<< 11)
          or (device_fn <<< 8)
          or dword_aligned where_))
        0xCF8
      >> inb ports (0xCFC + bit_and where_ 3)

  unfoldable pub w_pci_32 : ℕ → ℕ → ℕ → ℕ → ℕ → Io D (Unit {0})
  w_pci_32 bus device func pcireg value =
      outl ports (register_index (u8 bus) (u8 device) (u8 func) (u8 pcireg)) pci_config_address
      >> outl ports value pci_config_data

  unfoldable pub w_pci_8 : ℕ → ℕ → ℕ → ℕ → ℕ → Io D (Unit {0})
  w_pci_8 bus device func pcireg value =
      outl ports
        (u32 (
          pci_enable_bit
          or (u8 bus <<< 16)
          or (u8 device <<< 11)
          or (u8 func <<< 8)
          or dword_aligned (u8 pcireg)))
        pci_config_address
      >> outb ports value pci_config_data

  unfoldable pub pcibios_write_config_dword : ℕ → ℕ → ℕ → ℕ → ℕ → Io D (Unit {0})
  pcibios_write_config_dword bus device func pcireg value =
      outl ports (register_index (u8 bus) (u8 device) (u8 func) (u8 pcireg)) pci_config_address
      >> outl ports value pci_config_data

  unfoldable pub pcibios_write_config_byte : ℕ → ℕ → ℕ → ℕ → Io D (Unit {0})
  pcibios_write_config_byte bus devfn where_ value =
      outl ports (config_cmd (u8 bus) devfn where_) 0xCF8
      >> outb ports value (0xCFC + bit_and where_ 3)

  unfoldable pub pci_read_word : ℕ → ℕ → ℕ → ℕ → Io D ℕ
  pci_read_word bus slot func offset = do
    outl ports (word_address (u16 bus) (u16 slot) (u16 func) (u16 offset)) pci_config_address
    data_ ← in_long ports pci_config_data
    done (u16 (bit_and (data_ >>> word_shift (u16 offset)) 0xffff))

  unfoldable pub pci_write_word : ℕ → ℕ → ℕ → ℕ → ℕ → Io D ℕ
  pci_write_word bus slot func offset word = do
    let address = word_address (u16 bus) (u16 slot) (u16 func) (u16 offset)
    outl ports address pci_config_address
    tmp ← in_long ports pci_config_data
    outl ports address pci_config_address
    outl ports (replace_word tmp (word_shift (u16 offset)) (u16 word)) pci_config_data
    pci_read_word (u16 bus) (u16 slot) (u16 func) (u16 offset)

  unfoldable pub pci_check_vendor : ℕ → ℕ → Io D ℕ
  pci_check_vendor bus slot = do
    vendor ← pci_config_read_word bus slot 0 0
    if vendor == 0xFFFF then done vendor else do _ ← pci_config_read_word bus slot 0 2; done vendor
