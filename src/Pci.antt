-- ===== src/Pci.antt =====
-- pci/pci.c: the PCI configuration space and the RTL8139 network card, over the ports of common.c.
pub mod Ports
pub mod Config
pub mod Address
pub mod Bridge
pub mod Eeprom
pub mod Scan
pub mod Init
pub mod Find
pub mod Serial
pub mod Waits
pub mod Correct
mod Tests
