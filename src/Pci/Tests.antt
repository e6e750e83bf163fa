-- ===== src/Pci/Tests.antt =====
-- The PCI properties on a small machine: a card at device 3 of bus 0, with its registers from port
-- 0xC000 on.
use grub_os_iso_image.Common.{
  ℕ, zero, suc, ◌+◌, ◌-◌, ◌*◌, ◌%◌, ◌^◌, ◌<◌, ◌≡◌, refl, inl as left, inr as right, none, some, [],
  ◌∷◌, arith, ◌==◌, if◌then◌else◌, Bool-cases, ok, bit_at_le,
}
use grub_os_iso_image.Pci.Ports.{Ports, done, ◌>>=◌}
use grub_os_iso_image.Pci.Config.{r_pci_32, pci_read_word, pci_config_read_word, pci_write_word}
use grub_os_iso_image.Pci.Address.{IsFunction, word_at, read_word-r_pci_32}
use grub_os_iso_image.Pci.Bridge.{HostBridge, with_word, pci_write_word_lem}
use grub_os_iso_image.Pci.Eeprom.{read_eeprom}
use grub_os_iso_image.Pci.Serial.{
  Chip, chip, mode_of, Phase, idle, listening, sending, shown, drive, Eeprom, read_eeprom_lem,
}
use grub_os_iso_image.Pci.Find.{card_id}
use grub_os_iso_image.Pci.Init.{reset, init_pcilist}
use grub_os_iso_image.Pci.Waits.{polled, rst, IsBusy, asked, reset-ends}
use grub_os_iso_image.Pci.Correct.{EndsReset, IsLast, init_pcilist_lem, init_pcilist_misses}

record Machine : Type 0 where
  selected : ℕ
  space : ℕ → ℕ
  mode : ℕ
  serial : Chip
  resetting : ℕ

abbrev stored_words : ℕ → ℕ
stored_words n = if n == 7 then 0x5452 else if n == 8 then 0x1200 else if n == 9 then 0x5634 else 0

abbrev write_port : ℕ → ℕ → ℕ → Machine → Machine
write_port width value port m =
    if port == 0xCF8
    then record m { selected = value }
    else if port == 0xCFC
    then record m { space = λ a. if a == m.selected then value else m.space a }
    else if port == 0xC050
    then record m {
      mode = mode_of value;
      serial = if mode_of value == 2 then drive stored_words value m.serial else m.serial;
    }
    else if port == 0xC037
    then record m { resetting = 2 }
    else m

abbrev read_port : ℕ → ℕ → Machine → ℕ × Machine
read_port width port m =
    if port == 0xCFC
    then (m.space m.selected % 2 ^ 32, m)
    else if port == 0xC050
    then (if m.mode == 2 then shown m.serial.phase else 1, m)
    else if port == 0xC037
    then (if m.resetting == 0 then 0 else 0x10, record m { resetting = m.resetting - 1 })
    else (0, m)

abbrev machine_ports : Ports Machine
machine_ports = record { out_port = write_port; in_port = read_port }

abbrev machine_bridge : HostBridge machine_ports
machine_bridge = record {
  address = λ m. m.selected;
  config = λ m a. m.space a % 2 ^ 32;
  Keeps = λ a. Unit {0};
  config_small = λ m a. omega arith;
  address-out = λ v m. refl;
  config-out = λ v a m. refl;
  in_data = λ m. refl;
  config-out_data = λ v a m small keeps. elim (Bool-cases (a == m.selected)) [
    | left e ↦ rw e (omega arith)
    | right e ↦ rw e refl
  ];
}

shown_digit : (p : Phase) → shown p % 2 ≡ shown p
shown_digit idle = refl
shown_digit (listening n c) = refl
shown_digit (sending word n) = omega (arith, bit_at_le word n)

words_fit : (n : ℕ) → stored_words n < 2 ^ 16
words_fit n = ground arith

abbrev machine_eeprom : Eeprom machine_ports 0xC050
machine_eeprom = record {
  words = stored_words;
  mode = λ m. m.mode;
  state = λ m. m.serial;
  mode-out = λ byte m small. refl;
  mode-in = λ width m. refl;
  words_small = words_fit;
  state-out = λ byte m small on. rw on refl;
  state-in = λ width m on. refl;
  digit-in = λ m on. rw on (shown_digit m.serial.phase);
}

abbrev machine : ℕ → Machine
machine id = record {
  selected = 0;
  space = λ a. if a == 0x80001800 then id else if a == 0x80001810 then 0xC001 else 0xffffffff;
  mode = 0;
  serial = chip 0 idle;
  resetting = 0;
}

abbrev card_machine : Machine
card_machine = machine card_id

IsBusy-twice : (m : Machine) → IsBusy machine_ports 0xC000 2 (asked machine_ports 0xC000 m)
unfolding polled asked
IsBusy-twice m zero l = refl
IsBusy-twice m (suc zero) l = refl
IsBusy-twice m (suc (suc k)) l = absurd (omega arith)

idle_then :
    (m : Machine)
    → rst machine_ports 0xC000 (polled machine_ports 0xC000 2 (asked machine_ports 0xC000 m)) ≡ 0
unfolding polled asked
idle_then m = refl

ends_reset : EndsReset machine_ports 4 0xC000
ends_reset m = (2, omega arith, IsBusy-twice m, idle_then m)

silent : (id q : ℕ) → 24 < q → machine_bridge.config (machine id) (2 ^ 31 + q * 2 ^ 8) ≡ 0xffffffff
silent id q l = ground arith

function-IsLast : (id : ℕ) → id < 0xffffffff → IsLast machine_ports machine_bridge (machine id) 24
function-IsLast id small = record {
  in_range = omega arith;
  answers = λ e. omega arith;
  silent_after = λ q l h. silent id q l;
}

init_pcilist_lem_example :
    (d' : Machine) × (init_pcilist machine_ports 4 0x9000 0xA000 card_machine
      ≡ ok (some (0x52 ∷ 0x54 ∷ 0x00 ∷ 0x12 ∷ 0x34 ∷ 0x56 ∷ []), d'))
init_pcilist_lem_example =
    init_pcilist_lem machine_ports machine_bridge 3 0x9000 0xA000 24 card_machine
      (function-IsLast card_id (omega arith)) refl machine_eeprom ends_reset

init_pcilist_misses_example :
    (d' : Machine) × (init_pcilist machine_ports 4 0x9000 0xA000 (machine 0x12345678)
      ≡ ok (none, d'))
    × ((a : ℕ) → machine_bridge.config d' a ≡ machine_bridge.config (machine 0x12345678) a)
init_pcilist_misses_example =
    init_pcilist_misses machine_ports machine_bridge 4 0x9000 0xA000 24 (machine 0x12345678)
      (function-IsLast 0x12345678 (omega arith)) (λ e. omega arith)

read_eeprom_lem_example :
    (d' : Machine) × (read_eeprom machine_ports 0xC000 8 card_machine ≡ ok (0x1200, d'))
read_eeprom_lem_example =
    read_eeprom_lem machine_ports 0xC000 machine_eeprom 8 card_machine (omega arith)

card-IsFunction : IsFunction 0 3 0
card-IsFunction = record {
  bus_small = omega arith;
  device_small = omega arith;
  func_small = omega arith;
}

pci_write_word_lem_example :
    (d' : Machine) × (pci_write_word machine_ports 0 3 0 0x12 0xABCD card_machine ≡ ok (0xABCD, d'))
    × ((a : ℕ)
        → machine_bridge.config d' a ≡ (
            if a == 0x80001810
            then with_word 0x12 (machine_bridge.config card_machine a) 0xABCD
            else machine_bridge.config card_machine a))
pci_write_word_lem_example =
    pci_write_word_lem machine_ports machine_bridge 0 3 0 0x12 0xABCD card_machine card-IsFunction
      (omega arith) (omega arith) tt

read_word-r_pci_32_example :
    (pci_read_word machine_ports 0 3 0 6 card_machine
      ≡ (r_pci_32 machine_ports 0 3 0 1 >>= λ dword. done (word_at 6 dword)) card_machine)
    × (pci_config_read_word machine_ports 0 3 0 6 card_machine
        ≡ (r_pci_32 machine_ports 0 3 0 1 >>= λ dword. done (word_at 6 dword)) card_machine)
read_word-r_pci_32_example =
    read_word-r_pci_32 machine_ports 0 3 0 6 card-IsFunction (omega arith) card_machine

reset-ends_example :
    reset machine_ports 4 0xC000 card_machine
    ≡ ok (tt, polled machine_ports 0xC000 3 (asked machine_ports 0xC000 card_machine))
reset-ends_example =
    reset-ends machine_ports 0xC000 2 4 card_machine (IsBusy-twice card_machine)
      (idle_then card_machine) (omega arith)
