-- ===== src/Eeprom.antt =====
-- EEPROM: the emulation of an EEPROM in the last sector of the flash memory.
pub mod Flash
pub mod Store
pub mod Valid
pub mod Access
pub mod Persist
pub mod Refine
pub mod Tests
