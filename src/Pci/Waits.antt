-- ===== src/Pci/Waits.antt =====
-- The two loops of `init_pcilist` that wait for the network card.
use grub_os_iso_image.Common.{
  ℕ, zero, suc, ◌+◌, ◌*◌, ◌<◌, ◌≡◌, refl, arith, ◌==◌, u8, u16, ok, out_of_fuel, bit_and, bit_at,
  bit_and-zero, bit_and-pow,
}
use grub_os_iso_image.Pci.Ports.{Ports, ◌>>◌, outb, outl, inb, inl}
use grub_os_iso_image.Pci.Init.{chip_cmd, wait_reset, reset, wait_transmit, send}

module _ {D : Type 0} (ports : Ports D) (ioaddr : ℕ) where
  -- The device after `n` reads of the command register.
  unfoldable pub polled : ℕ → D → D
  polled zero d = d
  polled (suc n) d = polled n (ports.in_port 8 (u16 (ioaddr + chip_cmd)) d).1

  -- The RST bit that the next read shows.
  abbrev pub rst : D → ℕ
  rst d = bit_at (u8 (ports.in_port 8 (u16 (ioaddr + chip_cmd)) d).0) 4

  -- The first `n` reads show a reset in progress.
  abbrev pub IsBusy : ℕ → D → Type 0
  IsBusy n d = (k : ℕ) → k < n → rst (polled k d) ≡ 1

  bit_test : (x : ℕ) → (bit_and x 0x10 == 0) ≡ (bit_at x 4 == 0)
  bit_test x = rw (bit_and-pow 4 x) (by_digit (bit_at x 4))
    where
      by_digit : (b : ℕ) → (b * 16 == 0) ≡ (b == 0)
      by_digit zero = refl
      by_digit (suc b) = ground arith

  IsBusy-after : (n : ℕ) (d : D) → IsBusy (suc n) d → IsBusy n (polled 1 d)
  unfolding polled
  IsBusy-after n d h k l = h (suc k) (omega arith)

  wait_reset-ends :
      (n fuel : ℕ) (d : D)
      → IsBusy n d
      → rst (polled n d) ≡ 0
      → n < fuel
      → wait_reset ports fuel ioaddr d ≡ ok (tt, polled (suc n) d)
  unfolding wait_reset inb polled
  wait_reset-ends n zero d busy idle l = absurd (omega arith)
  wait_reset-ends zero (suc fuel) d busy idle l = rw (bit_test, idle) refl
  wait_reset-ends (suc n) (suc fuel) d busy idle l =
      rw (bit_test, busy 0 (omega arith))
        (wait_reset-ends n fuel (polled 1 d) (IsBusy-after n d busy) idle (omega arith))

  wait_reset-busy :
      (fuel : ℕ) (d : D) → IsBusy fuel d → wait_reset ports fuel ioaddr d ≡ out_of_fuel
  unfolding wait_reset inb polled
  wait_reset-busy zero d busy = refl
  wait_reset-busy (suc fuel) d busy =
      rw (bit_test, busy 0 (omega arith))
        (wait_reset-busy fuel (polled 1 d) (IsBusy-after fuel d busy))

  -- The card when the reset has been asked for.
  unfoldable pub asked : D → D
  asked d = ports.out_port 8 0x10 (u16 (ioaddr + chip_cmd)) d

  -- If the card shows RST set in the first `n` reads after the reset command and clear in the next
  -- one, the reset returns after exactly those `n + 1` reads, with any number of rounds above `n`.
  pub reset-ends :
      (n fuel : ℕ) (d : D)
      → IsBusy n (asked d)
      → rst (polled n (asked d)) ≡ 0
      → n < fuel
      → reset ports fuel ioaddr d ≡ ok (tt, polled (suc n) (asked d))
  unfolding reset outb asked
  reset-ends n fuel d busy idle l = wait_reset-ends n fuel (asked d) busy idle l

  pub reset-busy :
      (fuel : ℕ) (d : D) → IsBusy fuel (asked d) → reset ports fuel ioaddr d ≡ out_of_fuel
  unfolding reset outb asked
  reset-busy fuel d busy = wait_reset-busy fuel (asked d) busy

  -- However many rounds the loop that waits for the transmission is given, and whatever the card
  -- answers, sending is a write of the buffer's address, a write of the length 256 and one read of
  -- the status: the loop never waits.
  pub send_lem :
      (fuel tx_buffer : ℕ) (d : D)
      → send ports (suc fuel) ioaddr tx_buffer d
        ≡ (outl ports tx_buffer (ioaddr + 0x20)
              >> outl ports 256 (ioaddr + 0x10)
              >> inl ports (ioaddr + 0x10))
            d
  unfolding send wait_transmit outl inl
  send_lem fuel tx_buffer d = rw bit_and-zero refl
