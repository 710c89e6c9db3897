-- ===== src/Files/FaviconIco2.antt =====
-- ProjectFiles/fsdata_custom.c: part 2 of `data_favicon_ico`, a number for each line of ten bytes.
use pico_rfu.Prelude.{ℕ, List, ◌∷◌, []}

-- The lines 150 to 295.
unfoldable pub favicon_ico_2 : List ℕ
favicon_ico_2 =
    0xffffffffffffffffffff ∷ 0xffffffffffffffffffff ∷ 0xffffffffffffffffffff
    ∷ 0xffffffffffffffffffff ∷ 0xffffffffffffffffffff ∷ 0xffffffffffffffffffff
    ∷ 0xffffffffffffffffffff ∷ 0xffffffffffffffffffff ∷ 0xffffffffffffffffffff
    ∷ 0xffffffffffffffffffff ∷ 0xffffffffffffffffffff ∷ 0xffffffffffffffffffff
    ∷ 0xffffffffffffffffffff ∷ 0xffffffffffffffffffff ∷ 0xffffffffffffffffffff
    ∷ 0xffffffffffffffffffff ∷ 0xffffffffffffffffffff ∷ 0xffffffffffffffffffff
    ∷ 0xffffffffffffffffffff ∷ 0xffffffffffffffffffff ∷ 0xffffffffffffffffffff
    ∷ 0xffffffffffffffffffff ∷ 0xffffffffffffffffffff ∷ 0xffffffffffffffffffff
    ∷ 0xffffffffffffffffffff ∷ 0xffffffffffffffffffff ∷ 0xffffffffffffffffffff
    ∷ 0xffffffffffffffffffff ∷ 0xffffffffffffffffffff ∷ 0xffffffffffffffffffff
    ∷ 0xffffffffffffffffffff ∷ 0xffffffffffffffffffff ∷ 0xffffffffffffffffffff
    ∷ 0xffffffffffffffffffff ∷ 0xffffffffffffffffffff ∷ 0xffffffffffffffffffff
    ∷ 0xffffffffffffffffffff ∷ 0xffffffffffffffffffff ∷ 0xffffffffffffffffffff
    ∷ 0xffffffffffffffffffff ∷ 0xffffffffffffffffffff ∷ 0xffffffffffffffffffff
    ∷ 0xffffffffffffffffffff ∷ 0xffffffffffffffffffff ∷ 0xffffffffffffffffffff
    ∷ 0xffffffffffffffffffff ∷ 0xffffffffffffffffffff ∷ 0xffffffffffffffffffff
    ∷ 0xffffffffffffffffffff ∷ 0xffffffffffffffffffff ∷ 0xffffffffffffffffffff
    ∷ 0xffffffffffffffffffff ∷ 0xffffffffffffffffffff ∷ 0xffffffffffffffffffff
    ∷ 0xffffffffffffffffffff ∷ 0xffffffffffffffffffff ∷ 0xffffffffffffffffffff
    ∷ 0xffffffffffffffffffff ∷ 0xffffffffffffffffffff ∷ 0xffffffffffffffffffff
    ∷ 0xffffffffffffffffffff ∷ 0xffffffffffffffffffff ∷ 0xffffffffffffffffffff
    ∷ 0xffffffffffffffffffff ∷ 0xffffffffffffffffffff ∷ 0xffffffffffffffffffff
    ∷ 0xffffffffffffffffffff ∷ 0xfffffffff3f3f3ff8282 ∷ 0x82ff7d7d7dff7d7d7dff
    ∷ 0xebebebffffffffffffff ∷ 0xffffffffffffffffffff ∷ 0xffffffffffffffffffff
    ∷ 0xffffffffffffffffffff ∷ 0xffffffffffffffffffff ∷ 0xffffffffffffffffffff
    ∷ 0xffffffffffffffffffff ∷ 0xffffffffffffffffffff ∷ 0xffffffffffffffffffff
    ∷ 0xffffffffffffffffffff ∷ 0xffffffffffffffffffff ∷ 0xffffcfcfcfffe6e6e6ff
    ∷ 0xfffffffff3f3f3ff9898 ∷ 0x98ffffffffffffffffff ∷ 0xffffffffffffffffffff
    ∷ 0xffffffffffffffffffff ∷ 0xffffffffffffffffffff ∷ 0xffffffffffffffffffff
    ∷ 0xffffffffffffffffffff ∷ 0xffffffffffffffffffff ∷ 0xffffffffffffffffffff
    ∷ 0xffffffffffffffffffff ∷ 0xffffffffffffffffffff ∷ 0xffffffffffffffffffff
    ∷ 0xffffffffffffffffffff ∷ 0xffffffffffff9d9d9dff ∷ 0xffffffffffffffffffff
    ∷ 0xffffffffffffffffffff ∷ 0xffffffffffffffffffff ∷ 0xffffffffffffffffffff
    ∷ 0xffffffffffffffffffff ∷ 0xffffffffffffffffffff ∷ 0xffffffffffffffffffff
    ∷ 0xfffffffffffff9f9f9ff ∷ 0xf7f7f7ffffffffffffff ∷ 0xffffffffffffffffffff
    ∷ 0xffffffffffffffffffff ∷ 0xffffffffffffffffffff ∷ 0xffffffffadadadffffff
    ∷ 0xffffffffffffffffffff ∷ 0xffffffffffffffffffff ∷ 0xffffffffffffffffffff
    ∷ 0xffffffffffffffffffff ∷ 0xffffffffffffffffffff ∷ 0xffffffffffffffffffff
    ∷ 0xffffffffffffffffffff ∷ 0xffffffffdadadaffc0c0 ∷ 0xc0ffffffffffffffffff
    ∷ 0xffffffffffffffffffff ∷ 0xffffffffffffffffffff ∷ 0xffffffffffffffffffff
    ∷ 0xffffb1b1b1ffffffffff ∷ 0xffffffffffffffffffff ∷ 0xffffffffffffffffffff
    ∷ 0xffffffffffffffffffff ∷ 0xffffffffffffffffffff ∷ 0xffffffffffffffffffff
    ∷ 0xffffffffffffffffffff ∷ 0xffffffffffffffffffff ∷ 0xffffdcdcdcffa1a1a1ff
    ∷ 0xffffffffffffffffffff ∷ 0xffffffffffffffffffff ∷ 0xffffffffffffffffffff
    ∷ 0xffffffffffffffffffff ∷ 0xa9a9a9ffffffffffffff ∷ 0xffffffffffffffffffff
    ∷ 0xffffffffffffffffffff ∷ 0xffffffffffffffffffff ∷ 0xddddddff7f7f7fffbaba
    ∷ 0xbaffffffffffffffffff ∷ 0xffffffffffffffffffff ∷ 0xffffffffffffffffffff
    ∷ 0xf5f5f5ffa1a1a1ffffff ∷ 0xffffffffffffffffffff ∷ 0xffffffffffffffffffff
    ∷ 0xffffffffffffffffffff ∷ 0xffffffffffffffffb0b0 ∷ []
