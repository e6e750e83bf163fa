-- ===== src/Pci/Serial.antt =====
-- A serial EEPROM of 64 words behind the register of the card, and what `read_eeprom` reads from it.
use grub_os_iso_image.Common.{
  ℕ, zero, suc, ◌+◌, ◌-◌, ◌*◌, ◌/◌, ◌%◌, ◌^◌, ◌≤◌, ◌<◌, ◌≡◌, refl, sym, ◌∙◌, ◌&&◌, arith, ◌==◌,
  if◌then◌else◌, u8, u16, u32, ◌<<<◌, ok, bit_and, bit_or, bit_at, bit_at_le, bit_and-pow,
  bit_at-div, power_lt, bit_and-mask, bit_or-disjoint, bit_or_comm,
}
use native.Mathlib.Nat.{div-le_self, div-div-eq-div-mul}
use grub_os_iso_image.Pci.Ports.{Ports, Io, done, ◌>>=◌, outb, inb, inl}
use grub_os_iso_image.Pci.Eeprom.{
  cfg9346, ee_enb, ee_shift_clk, ee_data_write, ee_data_read, ee_read_cmd, shift_out, shift_in,
  read_eeprom,
}

-- What the EEPROM has been told: nothing since it was selected; a start bit and `count` digits that
-- make up `command`; or a read, with `more` digits of the word still to be shown.
pub data Phase : Type 0 where
  idle : Phase
  listening : (count command : ℕ) → Phase
  sending : (word more : ℕ) → Phase

pub record Chip : Type 0 where
  pub clock : ℕ
  pub phase : Phase

abbrev pub chip : ℕ → Phase → Chip
chip c p = record { clock = c; phase = p }

-- A command is the digits 10 and an address of six digits.
abbrev pub hear : (ℕ → ℕ) → ℕ → ℕ → Phase
hear words count command =
    if count == 8
    then (if command / 64 == 2 then sending (words (command % 64)) 16 else idle)
    else listening count command

-- The rising edge of the clock, with a digit on the data line.
abbrev pub rise : (ℕ → ℕ) → ℕ → Phase → Phase
rise words digit idle = if digit == 1 then listening 0 0 else idle
rise words digit (listening count command) = hear words (count + 1) (command * 2 + digit)
rise words digit (sending word more) = sending word (more - 1)

-- The operating mode that a byte in the register selects: its bits 7 and 6. The card passes the
-- other bits on to the pins of the EEPROM in mode 2 only.
abbrev pub mode_of : ℕ → ℕ
mode_of byte = byte / 64

-- A write to the register in mode 2: select, clock and data are the bits 3, 2 and 1.
abbrev pub drive : (ℕ → ℕ) → ℕ → Chip → Chip
drive words byte c =
    if bit_at byte 3 == 1
    then chip (bit_at byte 2)
        (if bit_at byte 2 == 1 && c.clock == 0 then rise words (bit_at byte 1) c.phase else c.phase)
    else chip (bit_at byte 2) idle

-- The digit on the output, after which the answer starts with a 0.
abbrev pub shown : Phase → ℕ
shown (sending word more) = bit_at word more
shown _ = 0

-- The register and the EEPROM behind it. Nothing is said about the EEPROM in another mode.
pub record Eeprom {D : Type 0} (ports : Ports D) (register : ℕ) : Type 0 where
  pub words : ℕ → ℕ
  pub mode : D → ℕ
  pub state : D → Chip
  pub words_small : (n : ℕ) → words n < 2 ^ 16
  pub mode-out :
      (byte : ℕ) (d : D) → byte < 256 → mode (ports.out_port 8 byte register d) ≡ mode_of byte
  pub mode-in : (width : ℕ) (d : D) → mode (ports.in_port width register d).1 ≡ mode d
  pub state-out :
      (byte : ℕ) (d : D)
      → byte < 256
      → mode_of byte ≡ 2
      → state (ports.out_port 8 byte register d) ≡ drive words byte (state d)
  pub state-in :
      (width : ℕ) (d : D) → mode d ≡ 2 → state (ports.in_port width register d).1 ≡ state d
  pub digit-in : (d : D) → mode d ≡ 2 → (ports.in_port 8 register d).0 % 2 ≡ shown (state d).phase

-- One round of `retval = (retval << 1) | digit`.
joined :
    (word n answer : ℕ)
    → word < 2 ^ 16
    → answer % 2 ≡ bit_at word n
    → bit_or
        (u32 ((word / 2 ^ suc n) <<< 1))
        (if bit_and (u8 answer) ee_data_read == 0 then 0 else 1)
      ≡ word / 2 ^ n
joined word n answer small e =
    let x = word / 2 ^ n in
    let half : word / 2 ^ suc n ≡ x / 2 =
      let power : 2 ^ suc n ≡ 2 ^ n * 2 = omega arith in
      rw power (sym (div-div-eq-div-mul word (2 ^ n) 2)) in
    let few : x ≤ word = div-le_self word (2 ^ n) in
    let double : u32 ((x / 2) <<< 1) ≡ x / 2 * 2 ^ 1 = omega arith in
    let low : bit_and (u8 answer) 1 ≡ x % 2 =
      bit_and-mask 1 (u8 answer) ∙ omega (arith, e, bit_at-div n word) in
    rw (half, double, low) (by_digit x (x % 2) (omega arith) refl)
  where
    by_digit : (x b : ℕ) → b ≤ 1 → x % 2 ≡ b → bit_or (x / 2 * 2 ^ 1) (if b == 0 then 0 else 1) ≡ x
    by_digit x zero h e =
        bit_or_comm (x / 2 * 2 ^ 1) 0 ∙ bit_or-disjoint 1 0 (x / 2) (omega arith) ∙ omega arith
    by_digit x (suc zero) h e =
        bit_or_comm (x / 2 * 2 ^ 1) 1 ∙ bit_or-disjoint 1 1 (x / 2) (omega arith) ∙ omega arith
    by_digit x (suc (suc n)) h e = absurd (omega arith)

module _ {D : Type 0} (ports : Ports D) (ee_addr : ℕ) (eeprom : Eeprom ports (u16 ee_addr)) where
  open eeprom use {
    words, mode, state, words_small, mode-out, mode-in, state-out, state-in, digit-in,
  }

  abbrev Steps : Io D (Unit {0}) → Chip → D → Type 0
  Steps step c d = (d' : D) × (step d ≡ ok (tt, d')) × (state d' ≡ c)

  -- A byte, and the read that waits for the chip.
  abbrev send_byte : ℕ → Io D (Unit {0})
  send_byte byte = outb ports byte ee_addr >>= λ _. inl ports ee_addr >>= λ _. done tt

  sent : ℕ → D → D
  sent byte d = (ports.in_port 32 (u16 ee_addr) (ports.out_port 8 byte (u16 ee_addr) d)).1

  state-sent :
      (byte : ℕ) (d : D)
      → byte < 256
      → mode_of byte ≡ 2
      → state (sent byte d) ≡ drive words byte (state d)
  unfolding sent
  state-sent byte d small on =
      state-in 32 (ports.out_port 8 byte (u16 ee_addr) d) (mode-out byte d small ∙ on)
      ∙ state-out byte d small on

  -- The low phase and the high phase of the clock, for one digit.
  pulse : ℕ → D → D
  pulse digit d =
      sent (bit_or (bit_or ee_enb (digit * 2)) ee_shift_clk) (sent (bit_or ee_enb (digit * 2)) d)

  state-pulse :
      (digit : ℕ) (d : D)
      → digit ≤ 1
      → state (pulse digit d) ≡ chip 1 (rise words digit (state d).phase)
  unfolding pulse
  state-pulse zero d h =
      state-sent _ (sent _ d) (omega arith) refl
      ∙ rw (state-sent (bit_or ee_enb 0) d (omega arith) refl) refl
  state-pulse (suc zero) d h =
      state-sent _ (sent _ d) (omega arith) refl
      ∙ rw (state-sent (bit_or ee_enb 2) d (omega arith) refl) refl
  state-pulse (suc (suc n)) d h = absurd (omega arith)

  pulse_bytes :
      (b : ℕ)
      → b ≤ 1
      → (u8 (bit_or ee_enb (b * 2)) ≡ bit_or ee_enb (b * 2))
        × (u8 (bit_or (bit_or ee_enb (b * 2)) ee_shift_clk)
            ≡ bit_or (bit_or ee_enb (b * 2)) ee_shift_clk)
  pulse_bytes zero h = (refl, refl)
  pulse_bytes (suc zero) h = (refl, refl)
  pulse_bytes (suc (suc n)) h = absurd (omega arith)

  -- The digits of a command, from the `n`-th on.
  abbrev pub feed : ℕ → ℕ → Phase → Phase
  feed zero command phase = phase
  feed (suc i) command phase = feed i command (rise words (bit_at command i) phase)

  data_line :
      (command i : ℕ)
      → (if bit_and command (1 <<< i) == 0 then 0 else ee_data_write) ≡ bit_at command i * 2
  data_line command i =
      let one : 1 <<< i ≡ 2 ^ i = omega arith in
      rw (one, bit_and-pow i command) (by_digit (bit_at command i) (bit_at_le command i))
    where
      by_digit : (b : ℕ) → b ≤ 1 → (if b * 2 ^ i == 0 then 0 else ee_data_write) ≡ b * 2
      by_digit zero h = let none_set : 0 * 2 ^ i ≡ 0 = omega arith in rw none_set refl
      by_digit (suc zero) h = ground (arith, power_lt i (suc i) (omega arith))
      by_digit (suc (suc n)) h = absurd (omega arith)

  shift_out_lem :
      (n command : ℕ) (d : D)
      → (d' : D) × (shift_out ports ee_addr n command d ≡ ok (tt, d'))
        × ((state d').phase ≡ feed n command (state d).phase)
  unfolding shift_out outb inl sent pulse
  shift_out_lem zero command d = (d, refl, refl)
  shift_out_lem (suc i) command d =
      let digit = bit_at command i in
      let (d', run, e) = shift_out_lem i command (pulse digit d) in
      let phase = rw (state-pulse digit d (bit_at_le command i)) at e in
      (
        d',
        rw
            (
              data_line command i,
              (pulse_bytes digit (bit_at_le command i)).0,
              (pulse_bytes digit (bit_at_le command i)).1,
            )
            run,
        phase,
      )

  -- The part of the word that has been shown.
  shift_in_lem :
      (n word : ℕ) (d : D)
      → word < 2 ^ 16
      → state d ≡ chip 0 (sending word n)
      → (d' : D) × (shift_in ports ee_addr n (word / 2 ^ n) d ≡ ok (word, d'))
  unfolding shift_in outb inl inb sent
  shift_in_lem zero word d small e = let whole : word / 1 ≡ word = omega arith in rw whole (d, refl)
  shift_in_lem (suc n) word d small e =
      let raised = ports.out_port 8 140 (u16 ee_addr) d in
      let waited = (ports.in_port 32 (u16 ee_addr) raised).1 in
      let answer = ports.in_port 8 (u16 ee_addr) waited in
      let on : mode waited ≡ 2 = mode-in 32 raised ∙ mode-out 140 d (omega arith) in
      let sending_next : state waited ≡ chip 1 (sending word n) =
        let fewer : suc n - 1 ≡ n = omega arith in
        state-sent 140 d (omega arith) refl ∙ rw (e, fewer) refl in
      let digit : answer.0 % 2 ≡ bit_at word n = digit-in waited on ∙ rw sending_next refl in
      let lowered = sent 0x88 answer.1 in
      let next : state lowered ≡ chip 0 (sending word n) =
        state-sent 0x88 answer.1 (omega arith) refl
        ∙ rw (state-in 8 waited on, sending_next) refl in
      let (d', run) = shift_in_lem n word lowered small next in
      (d', rw (joined word n answer.0 small digit) run)

  -- The command digits of a read.
  feed-read :
      (location : ℕ)
      → location < 64
      → feed 11 (bit_or location ee_read_cmd) idle ≡ sending (words location) 16
  feed-read location small =
      let sum : bit_or location ee_read_cmd ≡ location + 384 =
        bit_or-disjoint 7 location 3 (omega arith) in
      let c = location + 384 in
      let sixth : bit_at c 6 ≡ 0 = omega arith in
      let seventh : bit_at c 7 ≡ 1 = omega arith in
      let eighth : bit_at c 8 ≡ 1 = omega arith in
      let ninth : bit_at c 9 ≡ 0 = omega arith in
      let tenth : bit_at c 10 ≡ 0 = omega arith in
      let heard : (((((4 + bit_at c 5) * 2 + bit_at c 4) * 2 + bit_at c 3) * 2 + bit_at c 2) * 2
                + bit_at c 1)
              * 2
            + bit_at c 0
          ≡ 128 + location =
        omega arith in
      let read_bits : (128 + location) / 64 ≡ 2 = omega arith in
      let address_bits : (128 + location) % 64 ≡ location = omega arith in
      rw (sum, tenth, ninth, eighth, seventh, sixth, heard, read_bits, address_bits) refl

module _ {D : Type 0} (ports : Ports D) (ioaddr : ℕ)
    (eeprom : Eeprom ports (u16 (ioaddr + cfg9346))) where
  open eeprom use {words, mode, state, words_small, mode-out, state-out}

  -- With a serial EEPROM of 64 words, which starts a read on a start bit, the digits 10 and six
  -- address digits, behind the register 0x50 of the card, which reaches it in the operating mode 2
  -- of its bits 7 and 6 only, `read_eeprom` returns the word at any location below 64, whatever mode
  -- the card was in and whatever the EEPROM was told before.
  pub read_eeprom_lem :
      (location : ℕ) (d : D)
      → location < 64
      → (d' : D) × (read_eeprom ports ioaddr location d ≡ ok (words location, d'))
  unfolding read_eeprom outb inl sent
  read_eeprom_lem location d small =
      let port = u16 (ioaddr + cfg9346) in
      let d1 = ports.out_port 8 128 port d in
      let d2 = ports.out_port 8 0x88 port d1 in
      let selected : state d2 ≡ chip 0 idle =
        state-out 0x88 d1 (omega arith) refl ∙ rw (state-out 128 d (omega arith) refl) refl in
      let (d3, run_out, heard) =
        shift_out_lem ports (ioaddr + cfg9346) eeprom 11 (bit_or location ee_read_cmd) d2 in
      let reading : (state d3).phase ≡ sending (words location) 16 =
        heard ∙ rw selected (feed-read ports (ioaddr + cfg9346) eeprom location small) in
      let d4 = sent ports (ioaddr + cfg9346) eeprom 0x88 d3 in
      let low : state d4 ≡ chip 0 (sending (words location) 16) =
        state-sent ports (ioaddr + cfg9346) eeprom 0x88 d3 (omega arith) refl ∙ rw reading refl in
      let (d5, run_in) =
        shift_in_lem ports (ioaddr + cfg9346) eeprom 16 (words location) d4 (words_small location)
          low in
      let nothing : words location / 2 ^ 16 ≡ 0 = omega (arith, words_small location) in
      let run_in' = rw nothing at run_in in
      (ports.out_port 8 247 port d5, rw (run_out, run_in') refl)
