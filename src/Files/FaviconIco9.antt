-- ===== src/Files/FaviconIco9.antt =====
-- ProjectFiles/fsdata_custom.c: part 9 of `data_favicon_ico`, a number for each line of ten bytes.
use pico_rfu.Prelude.{ℕ, List, ◌∷◌, []}

-- The lines 1172 to 1317.
unfoldable pub favicon_ico_9 : List ℕ
favicon_ico_9 =
    0xffffffffffffffffffff ∷ 0xffffffffffffffffffff ∷ 0xffffcacacaff737373ff
    ∷ 0xd6d6d6ffffffffffffff ∷ 0xffffffffffffffffffff ∷ 0xffffffffffffffffffff
    ∷ 0xffffffffffffffffffff ∷ 0xf1f1f1ffb1b1b1fff3f3 ∷ 0xf3ffffffffffffffffff
    ∷ 0xffffffffffffffffffff ∷ 0xffffffffffffffffffff ∷ 0xffffffffffffffffffff
    ∷ 0xffffffffffffffffffff ∷ 0x707070fffafafaffffff ∷ 0xffffffffffffffffffff
    ∷ 0xfffffffff7f7f7ffcece ∷ 0xcefff7f7f7ffffffffff ∷ 0xffffffffffffffffffff
    ∷ 0xffffffffffffffffffff ∷ 0xffffffffffffffffffff ∷ 0xffffffffffffffffffff
    ∷ 0xfffffffffcfcfcffbebe ∷ 0xbeff464646ffbcbcbcff ∷ 0xfefefeffffffffffffff
    ∷ 0xffffffffffffffffffff ∷ 0xffffffffffffffffffff ∷ 0xfffff1f1f1ffb1b1b1ff
    ∷ 0xf3f3f3ffffffffffffff ∷ 0xffffffffffffffffffff ∷ 0xffffffffffffffffffff
    ∷ 0xffffffffffffffffffff ∷ 0xffffffffffffffffffff ∷ 0xffffaeaeaefff3f3f3ff
    ∷ 0xffffffffffffffffffff ∷ 0xfffffffffffffefefeff ∷ 0xfcfcfcfffefefeffffff
    ∷ 0xffffffffffffffffffff ∷ 0xffffffffffffffffffff ∷ 0xffffffffffffffffffff
    ∷ 0xffffffffffffffffffff ∷ 0xffffffffffffffffffff ∷ 0xffffffffdfdfdfff4a4a
    ∷ 0x4aff767676ffd4d4d4ff ∷ 0xefefeffffbfbfbffffff ∷ 0xffffffffffffffffffff
    ∷ 0xfffffffff1f1f1ffadad ∷ 0xadfff1f1f1ffffffffff ∷ 0xffffffffffffffffffff
    ∷ 0xffffffffffffffffffff ∷ 0xffffffffffffffffffff ∷ 0xffffffffffffffffffff
    ∷ 0xffffffffffffffffffff ∷ 0xffffffffffffffffffff ∷ 0xffffffffffffffffffff
    ∷ 0xffffffffffffffffffff ∷ 0xffffffffffffffffffff ∷ 0xffffffffffffffffffff
    ∷ 0xffffffffffffffffffff ∷ 0xffffffffffffffffffff ∷ 0xffffffffffffffffffff
    ∷ 0xffffffffffffffffffff ∷ 0xf1f1f1ffadadadff7474 ∷ 0x74ff707070ff888888ff
    ∷ 0xd1d1d1ffffffffffffff ∷ 0xfffffffffffff7f7f7ff ∷ 0xa1a1a1ffe6e6e6ffffff
    ∷ 0xffffffffffffffffffff ∷ 0xffffffffffffffffffff ∷ 0xffffffffffffffffffff
    ∷ 0xffffffffffffffffffff ∷ 0xffffffffffffffffffff ∷ 0xffffffffffffffffffff
    ∷ 0xffffffffffffffffffff ∷ 0xffffffffffffffffffff ∷ 0xffffffffffffffffffff
    ∷ 0xffffffffffffffffffff ∷ 0xffffffffffffffffffff ∷ 0xffffffffffffffffffff
    ∷ 0xffffffffffffffffffff ∷ 0xffffffffffffffffffff ∷ 0xfffffffffffffdfdfdff
    ∷ 0xf0f0f0ffdcdcdcffb0b0 ∷ 0xb0ffbcbcbcffffffffff ∷ 0xfffffffffffffffffefe
    ∷ 0xfeff999999ffadadadff ∷ 0xffffffffffffffffffff ∷ 0xffffffffffffffffffff
    ∷ 0xffffffffffffffffffff ∷ 0xffffffffffffffffffff ∷ 0xffffffffffffffffffff
    ∷ 0xffffffffffffffffffff ∷ 0xffffffffffffffffffff ∷ 0xffffffffffffffffffff
    ∷ 0xffffffffffffffffffff ∷ 0xffffffffffffffffffff ∷ 0xffffffffffffffffffff
    ∷ 0xffffffffffffffffffff ∷ 0xffffffffffffffffffff ∷ 0xffffffffffffffffffff
    ∷ 0xffffffffffffffffffff ∷ 0xffffffffffffffffffff ∷ 0xffffffffffffffffffff
    ∷ 0xffffffffffffffffffff ∷ 0xffffffffe8e8e8ff5555 ∷ 0x55ffb4b4b4fff2f2f2ff
    ∷ 0xffffffffffffffffffff ∷ 0xfffffdfdfdffd6d6d6ff ∷ 0xafafaffff7f7f7ffffff
    ∷ 0xffffffffffffffffffff ∷ 0xffffffffffffffffffff ∷ 0xffffffffffffffffffff
    ∷ 0xffffffffffffffffffff ∷ 0xffffffffffffffffffff ∷ 0xffffffffffffffffffff
    ∷ 0xffffffffffffffffffff ∷ 0xffffffffffffffffffff ∷ 0xffffffffffffffffffff
    ∷ 0xffffffffffffffffffff ∷ 0xffffffffffffffffffff ∷ 0xffffffffffffffffffff
    ∷ 0xffffffffffffffffffff ∷ 0xffffffffffffffffffff ∷ 0xffffffffffffffffffff
    ∷ 0xdfdfdfff7b7b7bff7d7d ∷ 0x7dffcdcdcdffeeeeeeff ∷ 0xdadadaff9a9a9aff6a6a
    ∷ 0x6affbbbbbbfffdfdfdff ∷ 0xffffffffffffffffffff ∷ 0xffffffffffffffffffff
    ∷ 0xffffffffffffffffffff ∷ 0xffffffffffffffffffff ∷ 0xffffffffffffffffffff
    ∷ 0xffffffffffffffffffff ∷ 0xffffffffffffffffffff ∷ 0xffffffffffffffffffff
    ∷ 0xffffffffffffffffffff ∷ 0xffffffffffffffffffff ∷ 0xffffffffffffffffffff
    ∷ 0xffffffffffffffffffff ∷ 0xffffffffffffffffffff ∷ 0xffffffffffffffffffff
    ∷ 0xffffffffffffffffffff ∷ 0xfffffffffffff6f6f6ff ∷ 0xb3b3b3ff4d4d4dff4040
    ∷ 0x40ff4c4c4cff888888ff ∷ 0xe5e5e5fffdfdfdffffff ∷ []
