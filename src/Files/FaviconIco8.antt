-- ===== src/Files/FaviconIco8.antt =====
-- ProjectFiles/fsdata_custom.c: part 8 of `data_favicon_ico`, a number for each line of ten bytes.
use pico_rfu.Prelude.{ℕ, List, ◌∷◌, []}

-- The lines 1026 to 1171.
unfoldable pub favicon_ico_8 : List ℕ
favicon_ico_8 =
    0xa0ffa9a9a9ff999999ff ∷ 0x8f8f8fffeeeeeeffffff ∷ 0xffffffffffffffffffff
    ∷ 0xffffffffffffffffffff ∷ 0xffffffffffffffffffff ∷ 0xb0b0b0ffb6b6b6ffffff
    ∷ 0xffffffffffffffffffff ∷ 0xfffffffffffffffffafa ∷ 0xfaffafafafffe9e9e9ff
    ∷ 0xffffffffffffffffffff ∷ 0xffffffffffffffffffff ∷ 0xffffffffffffffffffff
    ∷ 0xfffff0f0f0ff6b6b6bff ∷ 0xffffffffffffffffffff ∷ 0xffffffffffffffffffff
    ∷ 0xffffffffffffffffffff ∷ 0xffffffffffffffffffff ∷ 0xffffffffffffffffffff
    ∷ 0xffffffffffffffffffff ∷ 0xb8b8b8ffd7d7d7ffffff ∷ 0xffffffffffffffffffff
    ∷ 0xffffffffffffffffffff ∷ 0xffffffffffffffffffff ∷ 0xffffffffffffffffffff
    ∷ 0xffff9f9f9fffddddddff ∷ 0xffffffffffffffffffff ∷ 0xffffffffffffffffffff
    ∷ 0xfbfbfbffb1b1b1ffe9e9 ∷ 0xe9ffffffffffffffffff ∷ 0xffffffffffffffffffff
    ∷ 0xffffffffffffffffffff ∷ 0xfffffffff0f0f0ff4e4e ∷ 0x4efff8f8f8ffffffffff
    ∷ 0xffffffffffffffffffff ∷ 0xffffffffffffffffffff ∷ 0xffffffffffffffffffff
    ∷ 0xffffffffffffffffffff ∷ 0xffffffffffffffffffff ∷ 0xffffa9a9a9ffdbdbdbff
    ∷ 0xffffffffffffffffffff ∷ 0xffffffffffffffffffff ∷ 0xffffffffffffffffffff
    ∷ 0xffffffffffffffffffff ∷ 0xffffffff9f9f9fffdddd ∷ 0xddffffffffffffffffff
    ∷ 0xffffffffffffffffffff ∷ 0xfffffbfbfbffb1b1b1ff ∷ 0xe9e9e9ffffffffffffff
    ∷ 0xffffffffffffffffffff ∷ 0xffffffffffffffffffff ∷ 0xfffffffffffff0f0f0ff
    ∷ 0x2f2f2fffc9c9c9ffffff ∷ 0xffffffffffffffffffff ∷ 0xffffffffffffffffffff
    ∷ 0xffffffffffffffffffff ∷ 0xffffffffffffffffffff ∷ 0xffffffffffffffffffff
    ∷ 0xffffffffabababffe3e3 ∷ 0xe3ffffffffffffffffff ∷ 0xffffffffffffffffffff
    ∷ 0xffffffffffffffffffff ∷ 0xffffffffffffffffffff ∷ 0xffffffffffff9f9f9fff
    ∷ 0xddddddffffffffffffff ∷ 0xffffffffffffffffffff ∷ 0xfffffffffbfbfbffb1b1
    ∷ 0xb1ffe9e9e9ffffffffff ∷ 0xffffffffffffffffffff ∷ 0xffffffffffffffffffff
    ∷ 0xfffffffffffffffff0f0 ∷ 0xf0ff626262ff959595ff ∷ 0xfafafaffffffffffffff
    ∷ 0xffffffffffffffffffff ∷ 0xffffffffffffffffffff ∷ 0xffffffffffffffffffff
    ∷ 0xffffffffffffffffffff ∷ 0xfffffcfcfcffaaaaaaff ∷ 0xe6e6e6ffffffffffffff
    ∷ 0xffffffffffffffffffff ∷ 0xffffffffffffffffffff ∷ 0xffffffffffffffffffff
    ∷ 0xffffffffffffffffa1a1 ∷ 0xa1ffd7d7d7ffffffffff ∷ 0xffffffffffffffffffff
    ∷ 0xfffffffffffffbfbfbff ∷ 0xb1b1b1ffe9e9e9ffffff ∷ 0xffffffffffffffffffff
    ∷ 0xffffffffffffffffffff ∷ 0xffffffffffffffffffff ∷ 0xf2f2f2ff8a8a8aff8e8e
    ∷ 0x8effc1c1c1ffffffffff ∷ 0xffffffffffffffffffff ∷ 0xffffffffffffffffffff
    ∷ 0xffffffffffffffffffff ∷ 0xffffffffffffffffffff ∷ 0xfffffffff9f9f9ffb1b1
    ∷ 0xb1ffebebebffffffffff ∷ 0xffffffffffffffffffff ∷ 0xffffffffffffffffffff
    ∷ 0xffffffffffffffffffff ∷ 0xffffffffffffffffffff ∷ 0xb9b9b9ffb8b8b8ffffff
    ∷ 0xffffffffffffffffffff ∷ 0xfffffffffffffffff8f8 ∷ 0xf8ffaaaaaaffeaeaeaff
    ∷ 0xffffffffffffffffffff ∷ 0xffffffffffffffffffff ∷ 0xffffffffffffffffffff
    ∷ 0xfffffcfcfcffeaeaeaff ∷ 0xd9d9d9ff535353ffdede ∷ 0xdeffffffffffffffffff
    ∷ 0xffffffffffffffffffff ∷ 0xffffffffffffffffffff ∷ 0xffffffffffffffffffff
    ∷ 0xfffffffffffff4f4f4ff ∷ 0xa6a6a6ffecececffffff ∷ 0xffffffffffffffffffff
    ∷ 0xffffffffffffffffffff ∷ 0xffffffffffffffffffff ∷ 0xffffffffffffffffffff
    ∷ 0xffffd0d0d0ff919191ff ∷ 0xffffffffffffffffffff ∷ 0xffffffffffffffffffff
    ∷ 0xf2f2f2ffadadadfff0f0 ∷ 0xf0ffffffffffffffffff ∷ 0xffffffffffffffffffff
    ∷ 0xffffffffffffffffffff ∷ 0xffffffffffffffffffff ∷ 0xffffffffffffdcdcdcff
    ∷ 0x4d4d4dffcfcfcffffefe ∷ 0xfeffffffffffffffffff ∷ 0xffffffffffffffffffff
    ∷ 0xffffffffffffffffffff ∷ 0xfffffffffffffffff1f1 ∷ 0xf1ffb1b1b1fff3f3f3ff
    ∷ 0xffffffffffffffffffff ∷ 0xffffffffffffffffffff ∷ 0xffffffffffffffffffff
    ∷ 0xffffffffffffffffffff ∷ 0xfffffffff9f9f9ff6e6e ∷ 0x6effffffffffffffffff
    ∷ 0xffffffffffffffffffff ∷ 0xfffff2f2f2ffb0b0b0ff ∷ 0xf2f2f2ffffffffffffff
    ∷ 0xffffffffffffffffffff ∷ 0xffffffffffffffffffff ∷ []
