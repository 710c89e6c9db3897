-- ===== src/Keys.antt =====
-- ProjectFiles/main.cpp: `processKeys`, the keypad's command language.
pub mod Text
pub mod Run
pub mod Effect
pub mod Print
mod Tests
