-- ===== src/Files/FaviconIco7.antt =====
-- ProjectFiles/fsdata_custom.c: part 7 of `data_favicon_ico`, a number for each line of ten bytes.
use pico_rfu.Prelude.{ℕ, List, ◌∷◌, []}

-- The lines 880 to 1025.
unfoldable pub favicon_ico_7 : List ℕ
favicon_ico_7 =
    0xffffffffffffffffffff ∷ 0xffffffffffffffffffff ∷ 0xffffffffffffffffffff
    ∷ 0xffffffffffffffffffff ∷ 0xffffffffffffc2c2c2ff ∷ 0x717171ffffffffffffff
    ∷ 0xffffffffffffffffffff ∷ 0xffffffffffffffffffff ∷ 0xffffffffffffffffffff
    ∷ 0xffffffffffffffffffff ∷ 0xffffffffffffffffffff ∷ 0xffffffffffffffff7d7d
    ∷ 0x7dffffffffffffffffff ∷ 0xffffffffffffffffffff ∷ 0xffffffffffffffffffff
    ∷ 0xffffffffffffffffffff ∷ 0xffffffffffffffffffff ∷ 0xffffffffffffffffffff
    ∷ 0xfffff3f3f3fff5f5f5ff ∷ 0xfefefeffffffffffffff ∷ 0xffffffffffffffffffff
    ∷ 0xffffffffffffffffffff ∷ 0xffffffffffffffffffff ∷ 0xffffffffffffffffc6c6
    ∷ 0xc6ff636363ffffffffff ∷ 0xffffffffffffffffffff ∷ 0xffffffffffffffffffff
    ∷ 0xffffffffffffffffffff ∷ 0xffffffffffffffffffff ∷ 0xffffffffffffffffffff
    ∷ 0xffffffffffffffffffff ∷ 0x686868ffffffffffffff ∷ 0xffffffffffffffffffff
    ∷ 0xffffffffffffffffffff ∷ 0xffffffffffffffffffff ∷ 0xffffffffffffffffffff
    ∷ 0xfffffffffffffcfcfcff ∷ 0xa6a6a6ff393939ff4747 ∷ 0x47ffbcbcbcfffefefeff
    ∷ 0xffffffffffffffffffff ∷ 0xffffffffffffffffffff ∷ 0xffffffffffffffffffff
    ∷ 0xffffffffffffffffffff ∷ 0xedededff636363ffffff ∷ 0xffffffffffffffffffff
    ∷ 0xffffffffffffffffffff ∷ 0xffffffffffffffffffff ∷ 0xffffffffffffffffffff
    ∷ 0xffffffffffffffffffff ∷ 0xffffffffffffffffffff ∷ 0xffff7c7c7cffffffffff
    ∷ 0xffffffffffffffffffff ∷ 0xffffffffffffffffffff ∷ 0xffffffffffffffffffff
    ∷ 0xffffffffffffffffffff ∷ 0xfffffffffdfdfdffb0b0 ∷ 0xb0ff6a6a6affe8e8e8ff
    ∷ 0xd9d9d9ff4c4c4cffaeae ∷ 0xaefffdfdfdffffffffff ∷ 0xffffffffffffffffffff
    ∷ 0xffffffffffffffffffff ∷ 0xffffffffffffffffffff ∷ 0xfffff0f0f0ff636363ff
    ∷ 0xffffffffffffffffffff ∷ 0xffffffffffffffffffff ∷ 0xffffffffffffffffffff
    ∷ 0xffffffffffffffffffff ∷ 0xffffffffffffffffffff ∷ 0xffffffffffffffffffff
    ∷ 0xffffffff7c7c7cffffff ∷ 0xffffffffffffffffffff ∷ 0xffffffffffffffffffff
    ∷ 0xffffffffffffffffffff ∷ 0xffffffffffffffffffff ∷ 0xffffffffffffe8e8e8ff
    ∷ 0x7f7f7fffe6e6e6ffffff ∷ 0xffffffffffffecececff ∷ 0x6d6d6dffdadadaffffff
    ∷ 0xffffffffffffffffffff ∷ 0xffffffffffffffffffff ∷ 0xffffffffffffffffffff
    ∷ 0xfffffffff0f0f0ff6363 ∷ 0x63ffffffffffffffffff ∷ 0xffffffffffffffffffff
    ∷ 0xffffffffffffffffffff ∷ 0xffffffffffffffffffff ∷ 0xffffffffffffffffffff
    ∷ 0xffffffffffffffffffff ∷ 0xfffff8f8f8ff757575ff ∷ 0xffffffffffffffffffff
    ∷ 0xffffffffffffffffffff ∷ 0xffffffffffffffffffff ∷ 0xffffffffffffffffffff
    ∷ 0xffffffffffffffffabab ∷ 0xabffa9a9a9fffdfdfdff ∷ 0xffffffffffffffffffff
    ∷ 0xffffcacacaffa8a8a8ff ∷ 0xffffffffffffffffffff ∷ 0xffffffffffffffffffff
    ∷ 0xffffffffffffffffffff ∷ 0xfffffffffffff0f0f0ff ∷ 0x636363ffffffffffffff
    ∷ 0xffffffffffffffffffff ∷ 0xffffffffffffffffffff ∷ 0xffffffffffffffffffff
    ∷ 0xffffffffffffffffffff ∷ 0xfffff2f2f2ffe1e1e1ff ∷ 0xe6e6e6ffd7d7d7ff8e8e
    ∷ 0x8efffefefeffffffffff ∷ 0xffffffffffffffffffff ∷ 0xffffffffffffffffffff
    ∷ 0xffffffffffffffffffff ∷ 0xfffffffffffffdfdfdff ∷ 0x656565ffeeeeeeffffff
    ∷ 0xffffffffffffffffffff ∷ 0xffffffffe5e5e5ffa4a4 ∷ 0xa4fffafafaffffffffff
    ∷ 0xffffffffffffffffffff ∷ 0xffffffffffffffffffff ∷ 0xfffffffffffffffff0f0
    ∷ 0xf0ff636363ffffffffff ∷ 0xffffffffffffffffffff ∷ 0xffffffffffffffffffff
    ∷ 0xffffffffffffffffffff ∷ 0xffffffffffffffffffff ∷ 0xffffffffd6d6d6ff8585
    ∷ 0x85ff767676ff636363ff ∷ 0x575757ff999999ffc3c3 ∷ 0xc3fff9f9f9ffffffffff
    ∷ 0xffffffffffffffffffff ∷ 0xffffffffffffffffffff ∷ 0xffffffffffffffffe8e8
    ∷ 0xe8ff7d7d7dffffffffff ∷ 0xffffffffffffffffffff ∷ 0xfffffffffffff0f0f0ff
    ∷ 0xa5a5a5ffefefefffffff ∷ 0xffffffffffffffffffff ∷ 0xffffffffffffffffffff
    ∷ 0xffffffffffffffffffff ∷ 0xf0f0f0ff636363ffffff ∷ 0xffffffffffffffffffff
    ∷ 0xffffffffffffffffffff ∷ 0xffffffffffffffffffff ∷ 0xffffffffffffffffffff
    ∷ 0xfffffffffffffcfcfcff ∷ 0xf3f3f3ffeaeaeaffa0a0 ∷ []
