-- ===== src/Eeprom/Store.antt =====
-- EEPROM/src/EEPROM.cpp and EEPROM/include/EEPROM.h: `EEPROMClass`.
use pico_rfu.Prelude.{ℕ, ◌+◌, ◌-◌, ◌*◌, ◌/◌, List, Bool, true, false, not, ◌||◌, Option, none, some}
use pico_rfu.Prelude.{ℤ, pos, negsuc, Flow, go, fault, length, get_or, set, slice, splice}
use pico_rfu.Prelude.{same_bytes, leb, ltb, ◌==◌, if◌then◌else◌}
use pico_rfu.Eeprom.Flash.{Flash, sector_size}

-- The members but `_sector`. `_data` is null or the buffer.
pub record Eeprom : Type 0 where
  pub buffer : Option (List ℕ)
  pub size : ℕ
  pub dirty : Bool

abbrev pub members : Option (List ℕ) → ℕ → Bool → Eeprom
members buffer size dirty = record { buffer = buffer; size = size; dirty = dirty }

-- The constructor.
abbrev pub eeprom_class : Eeprom
eeprom_class = record { buffer = none; size = 0; dirty = false }

abbrev pub eeprom_start : ℕ
eeprom_start = 0x101F0000

-- The size that `begin` takes: at most a sector, in whole pages.
unfoldable pub rounded : ℕ → ℕ
rounded size = ((if size == 0 || ltb sector_size size then sector_size else size) + 255) / 256 * 256

-- `address < 0 || (size_t)address >= _size`, negated, with the address
abbrev pub in_range : ℤ → ℕ → Option ℕ
in_range (negsuc n) size = none
in_range (pos a) size = if leb size a then none else some a

unfoldable pub read : ℤ → Eeprom → ℕ
read address e = elim (in_range address e.size) [
  | none ↦ 0
  | some a ↦ elim e.buffer [ none ↦ 0 | some xs ↦ get_or xs a 0 ]
]

unfoldable pub write : ℤ → ℕ → Eeprom → Eeprom
write address value e = elim (in_range address e.size) [
  | none ↦ e
  | some a ↦ elim e.buffer [
    | none ↦ e
    | some xs ↦
        if get_or xs a 0 == value
        then e
        else record { buffer = some (set xs a value); size = e.size; dirty = true }
  ]
]

-- `address < 0 || address + sizeof(T) > _size`, negated, with the address
abbrev pub fits : ℤ → ℕ → ℕ → Option ℕ
fits (negsuc n) count size = none
fits (pos a) count size = if ltb size (a + count) then none else some a

-- `get` of a value of `count` bytes, whose bytes before the call are `t`.
unfoldable pub get : ℤ → ℕ → List ℕ → Eeprom → Flow (List ℕ)
get address count t e = elim (fits address count e.size) [
  | none ↦ go t
  | some a ↦ elim e.buffer [ none ↦ fault | some xs ↦ go (slice xs a count) ]
]

-- `put` of the bytes `t` of a value.
unfoldable pub put : ℤ → List ℕ → Eeprom → Flow Eeprom
unfolding splice
put address t e = elim (fits address (length t) e.size) [
  | none ↦ go e
  | some a ↦ elim e.buffer [
    | none ↦ fault
    | some xs ↦
        if same_bytes (slice xs a (length t)) t
        then go e
        else go (record { buffer = some (splice xs a t); size = e.size; dirty = true })
  ]
]

-- `getDataPtr`: the buffer is handed out, and may be written through the pointer.
unfoldable pub get_data_ptr : Eeprom → Eeprom × Option (List ℕ)
get_data_ptr e = (record e { dirty = true }, e.buffer)

module _ (flash : Flash) where
  open flash use {State, xip_base, erase, program, contents}

  -- `(intptr_t)_sector - (intptr_t)XIP_BASE`
  abbrev pub offset : ℕ
  offset = eeprom_start - xip_base

  -- `begin`. A buffer that is kept or allocated is filled from the flash memory at once.
  unfoldable pub begin : ℕ → State → Eeprom → Eeprom
  unfolding rounded
  begin size s e = record {
    buffer = some (contents offset (rounded size) s);
    size = rounded size;
    dirty = false;
  }

  -- `commit`: the result, and the flash memory afterwards. The members stay as they are.
  unfoldable pub commit : Eeprom → State → Bool × State
  commit e s =
      if e.size == 0 then (false, s) else if not e.dirty then (true, s) else elim e.buffer [
        | none ↦ (false, s)
        | some xs ↦ (true, program offset xs (erase offset sector_size s))
      ]

  unfoldable pub end : Eeprom → State → Bool × Eeprom × State
  unfolding commit
  end e s =
      if e.size == 0 then (false, e, s) else let (done, s') = commit e s in (done, eeprom_class, s')
