-- ===== src/Eeprom/Flash.antt =====
-- The flash functions of the Pico SDK that EEPROM/src/EEPROM.cpp calls, and the flash memory as the
-- processor reads it at `_sector`.
use pico_rfu.Prelude.{ℕ, ◌≤◌, ◌%◌, ◌≡◌, List, length}

abbrev pub sector_size : ℕ
sector_size = 4096

pub record Flash : Type 1 where
  pub State : Type 0
  -- XIP_BASE
  pub xip_base : ℕ
  -- `flash_range_erase(offset, count)`
  pub erase : ℕ → ℕ → State → State
  -- `flash_range_program(offset, bytes, length of bytes)`
  pub program : ℕ → List ℕ → State → State
  -- `n` bytes as they are read from the sector at an offset
  pub contents : ℕ → ℕ → State → List ℕ
  pub length-contents : (offset n : ℕ) (s : State) → length (contents offset n s) ≡ n
  -- Pages that are programmed into an erased sector are read back.
  pub contents-program :
      (offset : ℕ) (xs : List ℕ) (s : State)
      → length xs ≤ sector_size
      → length xs % 256 ≡ 0
      → contents offset (length xs) (program offset xs (erase offset sector_size s)) ≡ xs
