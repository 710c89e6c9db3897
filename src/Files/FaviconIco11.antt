-- ===== src/Files/FaviconIco11.antt =====
-- ProjectFiles/fsdata_custom.c: part 11 of `data_favicon_ico`, a number for each line of ten bytes.
use pico_rfu.Prelude.{ℕ, List, ◌∷◌, []}

-- The lines 1464 to 1553.
unfoldable pub favicon_ico_11 : List ℕ
favicon_ico_11 =
    0xffffffffffffffffffff ∷ 0xffffffffffffffffffff ∷ 0xffffffffffffffffffff
    ∷ 0xffffffffffffffffffff ∷ 0xffffffffffffffffffff ∷ 0xffffffffffffffffffff
    ∷ 0xffffffffffffffffffff ∷ 0xffffffffffffffffffff ∷ 0xffffffffffffffffffff
    ∷ 0xffffffffffffffffffff ∷ 0xffffffffffffffffffff ∷ 0xffffffffffffffffffff
    ∷ 0xffffffffffffffffffff ∷ 0xffffffffffffffffffff ∷ 0xffffffffffffffffffff
    ∷ 0xffffffffffffffffffff ∷ 0xffffffffffffffffffff ∷ 0xffffffffffffffffffff
    ∷ 0xffffffffffffffffffff ∷ 0xffffffffffffffffffff ∷ 0xffffffffffffffffffff
    ∷ 0xffffffffffffffffffff ∷ 0xffffffffffffffffffff ∷ 0xffffffffffffffffffff
    ∷ 0xffffffffffffffffffff ∷ 0xffffffffffffffffffff ∷ 0xffffffffffffffffffff
    ∷ 0xffffffffffffffffffff ∷ 0xffffffffffffffffffff ∷ 0xffffffffffffffffffff
    ∷ 0xffffffffffffffffffff ∷ 0xffffffffffffffffffff ∷ 0xffffffffffffffffffff
    ∷ 0x00000000000000000000 ∷ 0x00000000000000000000 ∷ 0x00000000000000000000
    ∷ 0x00000000000000000000 ∷ 0x00000000000000000000 ∷ 0x00000000000000000000
    ∷ 0x00000000000000000000 ∷ 0x00000000000000000000 ∷ 0x00000000000000000000
    ∷ 0x00000000000000000000 ∷ 0x00000000000000000000 ∷ 0x00000000000000000000
    ∷ 0x00000000000000000000 ∷ 0x00000000000000000000 ∷ 0x00000000000000000000
    ∷ 0x00000000000000000000 ∷ 0x00000000000000000000 ∷ 0x00000000000000000000
    ∷ 0x00000000000000000000 ∷ 0x00000000000000000000 ∷ 0x00000000000000000000
    ∷ 0x00000000000000000000 ∷ 0x00000000000000000000 ∷ 0x00000000000000000000
    ∷ 0x00000000000000000000 ∷ 0x00000000000000000000 ∷ 0x00000000000000000000
    ∷ 0x00000000000000000000 ∷ 0x00000000000000000000 ∷ 0x00000000000000000000
    ∷ 0x00000000000000000000 ∷ 0x00000000000000000000 ∷ 0x00000000000000000000
    ∷ 0x00000000000000000000 ∷ 0x00000000000000000000 ∷ 0x00000000000000000000
    ∷ 0x00000000000000000000 ∷ 0x00000000000000000000 ∷ 0x00000000000000000000
    ∷ 0x00000000000000000000 ∷ 0x00000000000000000000 ∷ 0x00000000000000000000
    ∷ 0x00000000000000000000 ∷ 0x00000000000000000000 ∷ 0x00000000000000000000
    ∷ 0x00000000000000000000 ∷ 0x00000000000000000000 ∷ 0x00000000000000000000
    ∷ 0x00000000000000000000 ∷ 0x00000000000000000000 ∷ 0x00000000000000000000
    ∷ 0x00000000000000000000 ∷ 0x00000000000000000000 ∷ 0x00000000000000000000
    ∷ 0x00000000000000000000 ∷ 0x00000000000000000000 ∷ 0x00000000000000000000 ∷ []
