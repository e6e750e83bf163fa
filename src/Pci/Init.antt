-- ===== src/Pci/Init.antt =====
-- pci.c: what `init_pcilist` does with the network card it has found. The screen output is left out,
-- and so are the idle loops. The addresses of the two local buffers are parameters.
use grub_os_iso_image.Common.{
  ℕ, zero, suc, ◌+◌, ◌*◌, Option, none, some, List, ◌==◌, if◌then◌else◌, set as set_elem, replicate,
  u16, ◌<<<◌, ◌>>>◌, out_of_fuel, bit_and, bit_or,
}
use grub_os_iso_image.Pci.Ports.{Ports, Io, done, ◌>>=◌, ◌>>◌, outb, outw, outl, inb, inl}
use grub_os_iso_image.Pci.Config.{r_pci_32, pci_read_word, pci_write_word, dword_aligned}
use grub_os_iso_image.Pci.Eeprom.{read_eeprom}
use grub_os_iso_image.Pci.Scan.{Card, find_card}

abbrev pub chip_cmd : ℕ
chip_cmd = 0x37

abbrev pub mac0 : ℕ
mac0 = 0

module _ {D : Type 0} (ports : Ports D) where
  -- The register is read, and written back with bit 2 set.
  unfoldable pub enable_bus_mastering : ℕ → ℕ → ℕ → Io D ℕ
  enable_bus_mastering bus device func = do
    command_register ← pci_read_word ports bus device func 0x04
    _ ← pci_write_word ports bus device func 0x04 (bit_or command_register 0x04)
    pci_read_word ports bus device func 0x04

  -- Three words of the EEPROM, low byte first. `n` rounds are left.
  unfoldable pub read_mac_words : ℕ → ℕ → ℕ → List ℕ → Io D (List ℕ)
  read_mac_words zero ioaddr i mac = done mac
  read_mac_words (suc n) ioaddr i mac = do
    word ← read_eeprom ports ioaddr (i + 7)
    let value = u16 word
    read_mac_words n ioaddr (i + 1)
        (set_elem (set_elem mac (2 * i) (bit_and value 0xFF)) (2 * i + 1) (value >>> 8))

  -- The six bytes are read from the card, and stay where they are.
  unfoldable pub read_mac_bytes : ℕ → ℕ → ℕ → Io D (Unit {0})
  read_mac_bytes zero ioaddr i = done tt
  read_mac_bytes (suc n) ioaddr i = do _ ← inb ports (ioaddr + i); read_mac_bytes n ioaddr (i + 1)

  unfoldable pub read_mac : ℕ → Io D (List ℕ)
  read_mac ioaddr = do
    first ← read_eeprom ports ioaddr 0
    let mac_address = replicate 6 0
    if first == 0xffff
        then read_mac_bytes 6 ioaddr 0 >> done mac_address
        else read_mac_words 3 ioaddr 0 mac_address

  -- `while ((inb(ioaddr + ChipCmd) & 0x10) != 0)`
  unfoldable pub wait_reset : ℕ → ℕ → Io D (Unit {0})
  wait_reset zero ioaddr = λ d. out_of_fuel
  wait_reset (suc fuel) ioaddr = do
    status ← inb ports (ioaddr + chip_cmd)
    if bit_and status 0x10 == 0 then done tt else wait_reset fuel ioaddr

  unfoldable pub reset : ℕ → ℕ → Io D (Unit {0})
  reset fuel ioaddr = outb ports 0x10 (ioaddr + chip_cmd) >> wait_reset fuel ioaddr

  unfoldable pub configure : ℕ → ℕ → Io D (Unit {0})
  configure ioaddr rx_buffer = do
    outb ports 0x0C (ioaddr + chip_cmd)
    outl ports 0x03000700 (ioaddr + 0x40)
    outl ports 0x0000070a (ioaddr + 0x44)
    outl ports rx_buffer (ioaddr + 0x30)
    outw ports 0x0005 (ioaddr + 0x3C)
    outl ports (bit_or 0xf (1 <<< 7)) (ioaddr + 0x44)

  -- `while (transmit_ok & (1 << 15) == 0)`, where `==` binds tighter than `&`.
  unfoldable pub wait_transmit : ℕ → ℕ → ℕ → Io D ℕ
  wait_transmit zero port transmit_ok = λ d. out_of_fuel
  wait_transmit (suc fuel) port transmit_ok =
      if bit_and transmit_ok (if (1 <<< 15) == 0 then 1 else 0) == 0
      then done transmit_ok
      else do again ← inl ports port; wait_transmit fuel port again

  unfoldable pub send : ℕ → ℕ → ℕ → Io D ℕ
  send fuel ioaddr tx_buffer = do
    outl ports tx_buffer (ioaddr + 0x20)
    outl ports (bit_and 256 0x1FFF) (ioaddr + 0x10)
    transmit_ok ← inl ports (ioaddr + 0x10)
    wait_transmit fuel (ioaddr + 0x10) transmit_ok

  unfoldable pub init_card : ℕ → ℕ → ℕ → Card → Io D (List ℕ)
  init_card fuel rx_buffer tx_buffer card = do
    _ ← r_pci_32 ports card.pci_bus card.pci_device card.pci_device_fn 0x0F
    pci_ioaddr ← r_pci_32 ports card.pci_bus card.pci_device card.pci_device_fn 4
    let ioaddr = dword_aligned pci_ioaddr
    outb ports 0x00 (ioaddr + 0x52)
    _ ← enable_bus_mastering card.pci_bus card.pci_device card.pci_device_fn
    mac_address ← read_mac ioaddr
    reset fuel ioaddr
    configure ioaddr rx_buffer
    _ ← send fuel ioaddr tx_buffer
    done mac_address

  -- The MAC address that is printed, if there is a card.
  unfoldable pub init_pcilist : ℕ → ℕ → ℕ → Io D (Option (List ℕ))
  init_pcilist fuel rx_buffer tx_buffer = do
    card ← find_card ports
    if card.found
        then init_card fuel rx_buffer tx_buffer card >>= (λ mac. done (some mac))
        else done none
