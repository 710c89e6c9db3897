-- ===== src/Eeprom/Tests.antt =====
-- EEPROM on a flash memory of one sector.
use pico_rfu.Prelude.{
  pos, negsuc, ℕ, ◌≡◌, refl, ap, ◌∙◌, List, [], ◌∷◌, ◌++◌, append_assoc, false, some, arith, go,
  length, replicate, take, drop,
}
use pico_rfu.Prelude.{length-take, length-append, take-append, length-replicate}
use pico_rfu.Eeprom.Flash.{Flash, sector_size}
use pico_rfu.Eeprom.Store.{Eeprom, members, rounded}
use pico_rfu.Eeprom.Valid.{IsValid}
use pico_rfu.Eeprom.Persist.{IsSynced}
use pico_rfu.Eeprom.Refine.{Op, write_op, put_op, restart_op, apply_all, view}
use pico_rfu.Eeprom.Refine.Run.{Begun, exec_all, exec_all_refines}

-- One sector, its bytes in order, at the address 0x10000000 of the processor.
abbrev pub one_sector : Flash
one_sector = record {
  State = List ℕ;
  xip_base = 0x10000000;
  erase = λ at n s. replicate n 255;
  program = λ at xs s. xs ++ drop (length xs) s;
  contents = λ at n s. take n (s ++ replicate n 0);
  length-contents = λ at n s. omega (
    arith,
    length-take n (s ++ replicate n 0),
    length-append s (replicate n 0),
    length-replicate {A = ℕ} n 0,
  );
  contents-program = λ at xs s h k.
      ap (take (length xs))
        (append_assoc xs (drop (length xs) (replicate sector_size 255)) (replicate (length xs) 0))
      ∙ take-append xs (drop (length xs) (replicate sector_size 255) ++ replicate (length xs) 0)
          (length xs) refl;
}

abbrev pub blank_flash : List ℕ
blank_flash = replicate 256 0

abbrev pub page : Eeprom
page = members (some (replicate 256 0)) 256 false

pub page-IsValid : IsValid page
page-IsValid = (refl, omega arith, refl, omega arith)

pub page-IsSynced : IsSynced one_sector page blank_flash
page-IsSynced e = refl

page-Begun : Begun one_sector 200 page blank_flash
unfolding rounded
page-Begun = record { valid = page-IsValid; synced = page-IsSynced; sized = refl }

-- A value within, one that does not fit, a restart, a byte at -1, and one of the first value.
abbrev session : List Op
session =
    put_op (pos 10) (5 ∷ 6 ∷ 7 ∷ [])
    ∷ put_op (pos 255) (1 ∷ 2 ∷ [])
    ∷ restart_op
    ∷ write_op (negsuc 0) 4
    ∷ write_op (pos 11) 9
    ∷ restart_op
    ∷ []

exec_all_refines_example :
    (e' : Eeprom) × (s' : List ℕ) × (exec_all one_sector 200 session page blank_flash ≡ go (e', s'))
    × Begun one_sector 200 e' s'
    × ((b : ℕ) → view e' b ≡ apply_all (rounded 200) session (view page) b)
exec_all_refines_example = exec_all_refines one_sector 200 session page blank_flash page-Begun
