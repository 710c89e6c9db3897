-- ===== src/Files/FaviconIco4.antt =====
-- ProjectFiles/fsdata_custom.c: part 4 of `data_favicon_ico`, a number for each line of ten bytes.
use pico_rfu.Prelude.{ℕ, List, ◌∷◌, []}

-- The lines 442 to 587.
unfoldable pub favicon_ico_4 : List ℕ
favicon_ico_4 =
    0xffffffffffffffffffff ∷ 0xffffffffffffffffffff ∷ 0xffffffffffffffffffff
    ∷ 0xffffffffffffffffffff ∷ 0xffffffffffffffffffff ∷ 0xffffffffffffffffffff
    ∷ 0xffffffffffffffffffff ∷ 0xffffffffa7a7a7ff9696 ∷ 0x96fffbfbfbffffffffff
    ∷ 0xfcfcfcff8a8a8affecec ∷ 0xecffffffffffffffffff ∷ 0xffffffffffffffffffff
    ∷ 0xffffffffffffffffffff ∷ 0xffffffffffffffffffff ∷ 0xffffffffffffffffffff
    ∷ 0xffffffffffffffffffff ∷ 0xffffffffffffffffffff ∷ 0xffffffffffffffffffff
    ∷ 0xffffffffffffffffffff ∷ 0xffffffffffffffffffff ∷ 0xffffffffffffcdcdcdff
    ∷ 0x6b6b6bff7e7e7eff6c6c ∷ 0x6cffd1d1d1ffffffffff ∷ 0xffffffffffffffffffff
    ∷ 0xffffffffffffffffffff ∷ 0xffffffffffffffffffff ∷ 0xffffffffffffffffffff
    ∷ 0xffffffffffffffffffff ∷ 0xffffffffffffffffffff ∷ 0xffffffffffffffffffff
    ∷ 0xffffffffffffffffffff ∷ 0xffffffffffffffffffff ∷ 0xffffffffffffffffffff
    ∷ 0xffffffffffffffffffff ∷ 0xffffffffffffffffffff ∷ 0xffffffffffffffffffff
    ∷ 0xffffffffffffffffffff ∷ 0xffffffffffffffffffff ∷ 0xffffffffffffffffffff
    ∷ 0xffffffffffffffffffff ∷ 0xffffffffffffffffffff ∷ 0xffffffffffffffffffff
    ∷ 0xffffffffffffffffffff ∷ 0xffffffffffffffffffff ∷ 0xffffffffffffffffffff
    ∷ 0xffffffffffffffffffff ∷ 0xffffffffffffffffffff ∷ 0xffffffffffffffffffff
    ∷ 0xffffffffffffffffffff ∷ 0xffffffffffffffffffff ∷ 0xffffffffffffffffffff
    ∷ 0xffffffffffffffffffff ∷ 0xffffffffffffffffffff ∷ 0xffffffffffffffffffff
    ∷ 0xffffffffffffffffffff ∷ 0xffffffffffffffffffff ∷ 0xffffffffffffffffffff
    ∷ 0xffffffffffffffffffff ∷ 0xffffffffffffffffffff ∷ 0xffffffffffffffffffff
    ∷ 0xffffffffffffffffffff ∷ 0xffffffffffffffffffff ∷ 0xffffffffffffffffffff
    ∷ 0xffffffffffffffffffff ∷ 0xffffffffffffffffffff ∷ 0xffffffffffffffffffff
    ∷ 0xffffffffffffffffffff ∷ 0xffffffffffffffffffff ∷ 0xffffffffffffffffffff
    ∷ 0xffffffffffffffffffff ∷ 0xffffffffffffffffffff ∷ 0xffffffffffffffffffff
    ∷ 0xffffffffffffffffffff ∷ 0xffffffffffffffffffff ∷ 0xffffffffffffffffffff
    ∷ 0xffffffffffffffffffff ∷ 0xffffffffffffffffffff ∷ 0xffffffffffffffffffff
    ∷ 0xffffffffffffffffffff ∷ 0xffffffffffffffffffff ∷ 0xffffffffffffffffffff
    ∷ 0xffffffffffffffffffff ∷ 0xffffffffffffffffffff ∷ 0xffffffffffffffffffff
    ∷ 0xffffffffffffffffffff ∷ 0xffffffffffffffffffff ∷ 0xffffffffffffffffffff
    ∷ 0xffffffffffffffffffff ∷ 0xffffffffffffffffffff ∷ 0xffffffffffffffffffff
    ∷ 0xffffffffffffffffffff ∷ 0xffffffffffffffffffff ∷ 0xffffffffffffffffffff
    ∷ 0xffffffffffffffffffff ∷ 0xffffffffffffffffffff ∷ 0xffffffffffffffffffff
    ∷ 0xffffffffffffffffffff ∷ 0xffffffffffffffffffff ∷ 0xffffffffffffffffffff
    ∷ 0xffffffffffffffffffff ∷ 0xffffffffffffffffffff ∷ 0xffffffffffffffffffff
    ∷ 0xffffffffffffffffffff ∷ 0xffffffffffffffff0000 ∷ 0x00000000000000000000
    ∷ 0x00000000000000000000 ∷ 0x00000000000000000000 ∷ 0x00000000000000000000
    ∷ 0x00000000000000000000 ∷ 0x00000000000000000000 ∷ 0x00000000000000000000
    ∷ 0x00000000000000000000 ∷ 0x00000000000000000000 ∷ 0x00000000000000000000
    ∷ 0x00000000000000000000 ∷ 0x00000000000000000000 ∷ 0x00000000000000000000
    ∷ 0x00000000000000000000 ∷ 0x00000000000000000000 ∷ 0x00000000000000000000
    ∷ 0x00000000000000000000 ∷ 0x00000000000000000000 ∷ 0x00000000000000000000
    ∷ 0x00000000000000000000 ∷ 0x00000000000000000000 ∷ 0x00000000000000000000
    ∷ 0x00000000000000000000 ∷ 0x00000000000000000000 ∷ 0x00000000000000000000
    ∷ 0x00000000280000003000 ∷ 0x00006000000001002000 ∷ 0x00000000000000000000
    ∷ 0x00000000000000000000 ∷ 0x00000000ffffffffffff ∷ 0xffffffffffffffffffff
    ∷ 0xffffffffffffffffffff ∷ 0xffffffffffffffffffff ∷ 0xffffffffffffffffffff
    ∷ 0xffffffffffffffffffff ∷ 0xffffffffffffffffffff ∷ 0xffffffffffffffffffff
    ∷ 0xffffffffffffffffffff ∷ 0xffffffffffffffffffff ∷ 0xffffffffffffffffffff
    ∷ 0xffffffffffffffffffff ∷ 0xffffffffffffffffffff ∷ []
