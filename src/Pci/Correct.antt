-- ===== src/Pci/Correct.antt =====
-- What `init_pcilist` does as a whole.
use grub_os_iso_image.Common.{
  ℕ, zero, suc, ◌+◌, ◌*◌, ◌/◌, ◌%◌, ◌^◌, ◌<◌, ◌≡◌, refl, ap, ◌≢◌, inl as left, inr as right, false,
  none, some, List, [], ◌∷◌, arith, ◌==◌, if◌then◌else◌, Bool-cases, replicate, u16, ok, read,
  bit_and-mask,
}
use grub_os_iso_image.Pci.Ports.{Ports, outb, outw, outl, inb, inl}
use grub_os_iso_image.Pci.Config.{r_pci_32, pci_read_word, pci_write_word, dword_aligned}
use grub_os_iso_image.Pci.Address.{config_address, IsFunction}
use grub_os_iso_image.Pci.Bridge.{HostBridge, r_pci_32_lem}
use grub_os_iso_image.Pci.Eeprom.{cfg9346}
use grub_os_iso_image.Pci.Serial.{Eeprom, read_eeprom_lem}
use grub_os_iso_image.Pci.Find.{card_at, card_id, no_function, find_card_lem}
use grub_os_iso_image.Pci.Init.{
  enable_bus_mastering, read_mac_words, read_mac_bytes, read_mac, configure, send, init_card,
  init_pcilist,
}
use grub_os_iso_image.Pci.Waits.{polled, rst, IsBusy, asked, reset-ends, send_lem}

line_register : 0x0F < 64
line_register = omega arith

base_register : 4 < 64
base_register = omega arith

-- The MAC address that three words of the EEPROM make up.
abbrev pub mac_of : (ℕ → ℕ) → List ℕ
mac_of words =
    if words 0 == 0xffff
    then replicate 6 0
    else words 7 % 256
      ∷ words 7 / 256
      ∷ words 8 % 256
      ∷ words 8 / 256
      ∷ words 9 % 256
      ∷ words 9 / 256
      ∷ []

module _ {D : Type 0} (ports : Ports D) (ioaddr : ℕ)
    (eeprom : Eeprom ports (u16 (ioaddr + cfg9346))) where
  open eeprom use {words, words_small}

  read_mac_bytes_halts :
      (n i : ℕ) (d : D) → (d' : D) × (read_mac_bytes ports n ioaddr i d ≡ ok (tt, d'))
  unfolding read_mac_bytes inb
  read_mac_bytes_halts zero i d = (d, refl)
  read_mac_bytes_halts (suc n) i d =
      read_mac_bytes_halts n (i + 1) (ports.in_port 8 (u16 (ioaddr + i)) d).1

  word_whole : (n : ℕ) → u16 (words n) ≡ words n
  word_whole n = omega (arith, words_small n)

  pub read_mac_lem : (d : D) → (d' : D) × (read_mac ports ioaddr d ≡ ok (mac_of words, d'))
  unfolding read_mac read_mac_words
  read_mac_lem d =
      let (d0, first) = read_eeprom_lem ports ioaddr eeprom 0 d (omega arith) in
      elim (Bool-cases (words 0 == 0xffff)) [
        | left blank ↦
            let (d', run) = read_mac_bytes_halts 6 0 d0 in (d', rw (first, blank, run) refl)
        | right there ↦
            let (d1, r7) = read_eeprom_lem ports ioaddr eeprom 7 d0 (omega arith) in
            let (d2, r8) = read_eeprom_lem ports ioaddr eeprom 8 d1 (omega arith) in
            let (d3, r9) = read_eeprom_lem ports ioaddr eeprom 9 d2 (omega arith) in
            (
              d3,
              rw
                  (
                    first,
                    there,
                    r7,
                    r8,
                    r9,
                    word_whole 7,
                    word_whole 8,
                    word_whole 9,
                    bit_and-mask 8 (words 7),
                    bit_and-mask 8 (words 8),
                    bit_and-mask 8 (words 9),
                  )
                  refl,
            )
      ]

module _ {D : Type 0} (ports : Ports D) where
  -- Accesses alone always go through.
  r_pci_32_halts :
      (bus device func register : ℕ) (d : D)
      → (v : ℕ) × (d' : D) × (r_pci_32 ports bus device func register d ≡ ok (v, d'))
  unfolding r_pci_32 outl inl
  r_pci_32_halts bus device func register d = (_, _, refl)

  bus_mastering_halts :
      (bus device func : ℕ) (d : D)
      → (v : ℕ) × (d' : D) × (enable_bus_mastering ports bus device func d ≡ ok (v, d'))
  unfolding enable_bus_mastering pci_read_word pci_write_word outl inl
  bus_mastering_halts bus device func d = (_, _, refl)

  configure_halts :
      (ioaddr rx_buffer : ℕ) (d : D) → (d' : D) × (configure ports ioaddr rx_buffer d ≡ ok (tt, d'))
  unfolding configure outb outw outl
  configure_halts ioaddr rx_buffer d = (_, refl)

  send_halts :
      (fuel ioaddr tx_buffer : ℕ) (d : D)
      → (v : ℕ) × (d' : D) × (send ports (suc fuel) ioaddr tx_buffer d ≡ ok (v, d'))
  unfolding outl inl
  send_halts fuel ioaddr tx_buffer d = (_, _, send_lem ports ioaddr fuel tx_buffer d)

  -- Whatever the card has been through, a reset ends within `fuel` reads.
  abbrev pub EndsReset : ℕ → ℕ → Type 0
  EndsReset fuel ioaddr =
      (d : D)
      → (n : ℕ) × (n < fuel)
        × IsBusy ports ioaddr n (asked ports ioaddr d)
        × (rst ports ioaddr (polled ports ioaddr n (asked ports ioaddr d)) ≡ 0)

module _ {D : Type 0} (ports : Ports D) (bridge : HostBridge ports) where
  open bridge use {config, config_small}

  -- The first base address register of function `p`, and the ports of the card that it gives.
  abbrev pub ioaddr_of : D → ℕ → ℕ
  ioaddr_of d p = dword_aligned (config d (2 ^ 31 + p * 2 ^ 8 + 16))

  is_function : (p : ℕ) → p < 255 * 256 → IsFunction (p / 256) (p / 8 % 32) (p % 8)
  is_function p l = record {
    bus_small = omega arith;
    device_small = omega arith;
    func_small = omega arith;
  }

  init_card_lem :
      (fuel rx_buffer tx_buffer p ioaddr : ℕ) (d : D)
      → p < 255 * 256
      → ioaddr_of d p ≡ ioaddr
      → (eeprom : Eeprom ports (u16 (ioaddr + cfg9346))) → EndsReset ports (suc fuel) ioaddr
      → (d' : D) × (init_card ports (suc fuel) rx_buffer tx_buffer (card_at p) d
          ≡ ok (mac_of eeprom.words, d'))
  unfolding init_card outb
  init_card_lem fuel rx_buffer tx_buffer p ioaddr d l here eeprom ends =
      let f = is_function p l in
      let (d1, irq, same) =
        r_pci_32_lem ports bridge (p / 256) (p / 8 % 32) (p % 8) 0x0F d f line_register in
      let (d2, read, _) =
        r_pci_32_lem ports bridge (p / 256) (p / 8 % 32) (p % 8) 4 d1 f base_register in
      let at : config_address (p / 256) (p / 8 % 32) (p % 8) 4 ≡ 2 ^ 31 + p * 2 ^ 8 + 16 =
        omega arith in
      let base = rw (at, same (2 ^ 31 + p * 2 ^ 8 + 16)) at read in
      let d3 = ports.out_port 8 0 (u16 (ioaddr + 0x52)) d2 in
      let (_, d4, mastered) = bus_mastering_halts ports (p / 256) (p / 8 % 32) (p % 8) d3 in
      let (d5, mac) = read_mac_lem ports ioaddr eeprom d4 in
      let (n, less, busy, idle) = ends d5 in
      let was_reset = reset-ends ports ioaddr n (suc fuel) d5 busy idle less in
      let d6 = polled ports ioaddr (suc n) (asked ports ioaddr d5) in
      let (d7, configured) = configure_halts ports ioaddr rx_buffer d6 in
      let (_, d8, sent) = send_halts ports fuel ioaddr tx_buffer d7 in
      (d8, rw (irq, base, here, mastered, mac, was_reset, configured, sent) refl)

  -- The last function that answers is number `p`.
  pub record IsLast (d : D) (p : ℕ) : Type 0 where
    pub in_range : p < 255 * 256
    pub answers : config d (2 ^ 31 + p * 2 ^ 8) ≢ no_function
    pub silent_after : (q : ℕ) → p < q → q < 255 * 256 → config d (2 ^ 31 + q * 2 ^ 8) ≡ no_function

  -- On a machine whose ports lead to a PCI configuration space, if the last function that answers on
  -- busses 0 to 254 is an RTL8139, a serial EEPROM of 64 words is behind its register 0x50, which
  -- reaches the EEPROM in the operating mode 2 of its bits 7 and 6 only, and a reset of the card
  -- ends within the rounds given, `init_pcilist` comes to its end, and the MAC address it prints is
  -- the words 7 to 9 of the EEPROM, low byte first, or six zeros if word 0 of the EEPROM is 0xffff.
  pub init_pcilist_lem :
      (fuel rx_buffer tx_buffer p : ℕ) (d : D)
      → IsLast d p
      → config d (2 ^ 31 + p * 2 ^ 8) ≡ card_id
      → (eeprom : Eeprom ports (u16 (ioaddr_of d p + cfg9346)))
      → EndsReset ports (suc fuel) (ioaddr_of d p)
      → (d' : D) × (init_pcilist ports (suc fuel) rx_buffer tx_buffer d
          ≡ ok (some (mac_of eeprom.words), d'))
  unfolding init_pcilist
  init_pcilist_lem fuel rx_buffer tx_buffer p d last is_card eeprom ends =
      let (card, d1, found, same, seen) = find_card_lem ports bridge (config d) d (λ a. refl) in
      let verdict : card ≡ card_at p =
        rw is_card at (seen.latest p last.in_range last.answers last.silent_after) in
      let moved = ap dword_aligned (same (2 ^ 31 + p * 2 ^ 8 + 16)) in
      let (d2, run) =
        init_card_lem fuel rx_buffer tx_buffer p (ioaddr_of d p) d1 last.in_range moved eeprom
          ends in
      (d2, rw (found, verdict, run) refl)

  -- On such a machine, if the last function that answers on busses 0 to 254 is no RTL8139,
  -- `init_pcilist` returns without setting up a card, whether or not an earlier function is an
  -- RTL8139, and leaves the configuration space as it was.
  pub init_pcilist_misses :
      (fuel rx_buffer tx_buffer p : ℕ) (d : D)
      → IsLast d p
      → config d (2 ^ 31 + p * 2 ^ 8) ≢ card_id
      → (d' : D) × (init_pcilist ports fuel rx_buffer tx_buffer d ≡ ok (none, d'))
        × ((a : ℕ) → config d' a ≡ config d a)
  unfolding init_pcilist
  init_pcilist_misses fuel rx_buffer tx_buffer p d last other =
      let (card, d1, found, same, seen) = find_card_lem ports bridge (config d) d (λ a. refl) in
      let verdict = seen.latest p last.in_range last.answers last.silent_after in
      let differs : (config d (2 ^ 31 + p * 2 ^ 8) == card_id) ≡ false = ground arith in
      let missed : card.found ≡ false = rw differs at verdict in (d1, rw (found, missed) refl, same)
