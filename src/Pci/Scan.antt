-- ===== src/Pci/Scan.antt =====
-- pci.c: the loops of `init_pcilist` that look for the network card.
use grub_os_iso_image.Common.{
  ℕ, zero, suc, ◌+◌, Bool, true, false, ◌&&◌, ◌==◌, if◌then◌else◌, u16, ◌>>>◌, bit_and,
}
use grub_os_iso_image.Pci.Ports.{Ports, Io, done, ◌>>=◌}
use grub_os_iso_image.Pci.Config.{r_pci_32}

-- The variables that the loops leave: `realtek8319Found`, and where the card was seen last.
pub record Card : Type 0 where
  pub found : Bool
  pub pci_bus : ℕ
  pub pci_device : ℕ
  pub pci_device_fn : ℕ

abbrev pub no_card : Card
no_card = record { found = false; pci_bus = 0; pci_device = 0; pci_device_fn = 0 }

unfoldable pub identify : ℕ → ℕ → ℕ → ℕ → Card → Card
identify bus device func id card =
    let device_value = u16 (id >>> 16) in
    let vendor = u16 (bit_and id 0xFFFF) in
    if vendor == 0x10ec && device_value == 0x8139
    then record { found = true; pci_bus = bus; pci_device = device; pci_device_fn = func }
    else record card { found = false }

module _ {D : Type 0} (ports : Ports D) where
  -- One round of the inner loop.
  unfoldable pub probe : ℕ → ℕ → ℕ → Card → Io D Card
  probe bus device func card = do
    id ← r_pci_32 ports bus device func 0
    done (if id == 0xffffffff then card else identify bus device func id card)

  -- Each loop as the number of rounds that are left, and its variable.
  unfoldable pub scan_functions : ℕ → ℕ → ℕ → ℕ → Card → Io D Card
  scan_functions zero bus device func card = done card
  scan_functions (suc n) bus device func card = do
    card' ← probe bus device func card
    scan_functions n bus device (func + 1) card'

  unfoldable pub scan_devices : ℕ → ℕ → ℕ → Card → Io D Card
  scan_devices zero bus device card = done card
  scan_devices (suc n) bus device card = do
    card' ← scan_functions 8 bus device 0 card
    scan_devices n bus (device + 1) card'

  unfoldable pub scan_busses : ℕ → ℕ → Card → Io D Card
  scan_busses zero bus card = done card
  scan_busses (suc n) bus card = do
    card' ← scan_devices 32 bus 0 card
    scan_busses n (bus + 1) card'

  -- `bus != 0xff` ends the outer loop after 255 rounds.
  unfoldable pub find_card : Io D Card
  find_card = scan_busses 255 0 no_card
