-- ===== src/Pci/Eeprom.antt =====
-- pci.c: `read_eeprom`, which clocks a read command into the serial EEPROM of the network card and
-- the answer out of it, through one register of the card.
use grub_os_iso_image.Common.{
  ℕ, zero, suc, ◌+◌, ◌-◌, ◌^◌, ◌==◌, if◌then◌else◌, u32, ◌<<<◌, bit_and, bit_or,
}
use grub_os_iso_image.Pci.Ports.{Ports, Io, done, ◌>>=◌, ◌>>◌, outb, inb, inl}

abbrev pub cfg9346 : ℕ
cfg9346 = 0x50

-- `EE_ENB`, `EE_CS`, `EE_SHIFT_CLK`, `EE_DATA_WRITE` and `EE_DATA_READ`
abbrev pub ee_cs : ℕ
ee_cs = 0x08

abbrev pub ee_enb : ℕ
ee_enb = bit_or 0x80 ee_cs

abbrev pub ee_shift_clk : ℕ
ee_shift_clk = 0x04

abbrev pub ee_data_write : ℕ
ee_data_write = 0x02

abbrev pub ee_data_read : ℕ
ee_data_read = 0x01

abbrev pub ee_read_cmd : ℕ
ee_read_cmd = 6 <<< 6

module _ {D : Type 0} (ports : Ports D) (ee_addr : ℕ) where
  -- The first loop, for `i` from `n - 1` down to 0.
  unfoldable pub shift_out : ℕ → ℕ → Io D (Unit {0})
  shift_out zero read_cmd = done tt
  shift_out (suc i) read_cmd = do
    let dataval = if bit_and read_cmd (1 <<< i) == 0 then 0 else ee_data_write
    outb ports (bit_or ee_enb dataval) ee_addr
    _ ← inl ports ee_addr
    outb ports (bit_or (bit_or ee_enb dataval) ee_shift_clk) ee_addr
    _ ← inl ports ee_addr
    shift_out i read_cmd

  -- The second loop, for `n` rounds.
  unfoldable pub shift_in : ℕ → ℕ → Io D ℕ
  shift_in zero retval = done retval
  shift_in (suc i) retval = do
    outb ports (bit_or ee_enb ee_shift_clk) ee_addr
    _ ← inl ports ee_addr
    value ← inb ports ee_addr
    let bit = if bit_and value ee_data_read == 0 then 0 else 1
    outb ports ee_enb ee_addr
    _ ← inl ports ee_addr
    shift_in i (bit_or (u32 (retval <<< 1)) bit)

module _ {D : Type 0} (ports : Ports D) where
  unfoldable pub read_eeprom : ℕ → ℕ → Io D ℕ
  read_eeprom ioaddr location = do
    let ee_addr = ioaddr + cfg9346
    outb ports (bit_and ee_enb (2 ^ 32 - 1 - ee_cs)) ee_addr
    outb ports ee_enb ee_addr
    shift_out ports ee_addr 11 (bit_or location ee_read_cmd)
    outb ports ee_enb ee_addr
    _ ← inl ports ee_addr
    retval ← shift_in ports ee_addr 16 0
    outb ports (2 ^ 32 - 1 - ee_cs) ee_addr
    done retval
