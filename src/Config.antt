-- ===== src/Config.antt =====
-- ProjectFiles/main.cpp: the configuration, its checksum, and its way through the EEPROM.
pub mod Store
pub mod Checksum
pub mod Layout
pub mod Restart
pub mod Wifi
mod Tests
