-- ===== src/Files/FaviconIco3.antt =====
-- ProjectFiles/fsdata_custom.c: part 3 of `data_favicon_ico`, a number for each line of ten bytes.
use pico_rfu.Prelude.{ℕ, List, ◌∷◌, []}

-- The lines 296 to 441.
unfoldable pub favicon_ico_3 : List ℕ
favicon_ico_3 =
    0xb0ffffffffffffffffff ∷ 0xffffffffffffffffffff ∷ 0xffffffffffffffffffff
    ∷ 0xfffffffff2f2f2ff7d7d ∷ 0x7dfff6f6f6ffa4a4a4ff ∷ 0xafafafffffffffffffff
    ∷ 0xffffffffffffffffffff ∷ 0xfffffffffffffffff6f6 ∷ 0xf6ffa1a1a1ffffffffff
    ∷ 0xffffffffffffffffffff ∷ 0xffffffffffffffffffff ∷ 0xffffffffffffffffffff
    ∷ 0xffffffffffffaaaaaaff ∷ 0xffffffffffffffffffff ∷ 0xffffffffffffffffffff
    ∷ 0xffffffffffffffffffff ∷ 0xffff919191ffefefefff ∷ 0xffffffffffffffff9696
    ∷ 0x96ffffffffffffffffff ∷ 0xffffffffffffffffffff ∷ 0xfffffffffffff6f6f6ff
    ∷ 0xa1a1a1ffffffffffffff ∷ 0xffffffffffffffffffff ∷ 0xffffffffffffffffffff
    ∷ 0xffffffffffffb1b1b1ff ∷ 0xc0c0c0ff9f9f9ffffefe ∷ 0xfeffffffffffffffffff
    ∷ 0xffffffffffffffffffff ∷ 0xfffffffffffffcfcfcff ∷ 0x9b9b9bffffffffffffff
    ∷ 0xffffffffffffbababaff ∷ 0xeaeaeaffffffffffffff ∷ 0xffffffffffffffffffff
    ∷ 0xfffffffff6f6f6ffa1a1 ∷ 0xa1ffffffffffffffffff ∷ 0xffffffffffffffffffff
    ∷ 0xffffffffffffffffffff ∷ 0xffffffffe2e2e2ffb5b5 ∷ 0xb5ff595959ff727272ff
    ∷ 0xd2d2d2ffffffffffffff ∷ 0xffffffffffffffffffff ∷ 0xffffffffdadadaffcaca
    ∷ 0xcaffffffffffffffffff ∷ 0xffffffffeaeaeaffbfbf ∷ 0xbfffffffffffffffffff
    ∷ 0xffffffffffffffffffff ∷ 0xfffff6f6f6ffa5a5a5ff ∷ 0xffffffffffffffffffff
    ∷ 0xffffffffffffffffffff ∷ 0xffffffffffffffffffff ∷ 0xffffffffffffffffffff
    ∷ 0xaaaaaaffffffffffffff ∷ 0xffffffffffffffffffff ∷ 0xffffffffffffffffffff
    ∷ 0xffffc5c5c5ffeaeaeaff ∷ 0xffffffffffffffffffff ∷ 0xfffff3f3f3ffbdbdbdff
    ∷ 0xffffffffffffffffffff ∷ 0xffffffffffffffffffff ∷ 0xf6f6f6ff656565ffffff
    ∷ 0xffffffffffffffffffff ∷ 0xffffffffffffffffffff ∷ 0xffffffffffffffffffff
    ∷ 0xffffffffffffffffa9a9 ∷ 0xa9ffffffffffffffffff ∷ 0xffffffffffffffffffff
    ∷ 0xffffffffffffffffffff ∷ 0xc5c5c5ffeaeaeaffffff ∷ 0xffffffffffffffffffff
    ∷ 0xf3f3f3ffbdbdbdffffff ∷ 0xffffffffffffffffffff ∷ 0xfffffffffffffffff6f6
    ∷ 0xf6ff686868ffdfdfdfff ∷ 0xffffffffffffffffffff ∷ 0xffffffffffffffffffff
    ∷ 0xffffffffffffffffffff ∷ 0xfffff2f2f2ffb9b9b9ff ∷ 0xffffffffffffffffffff
    ∷ 0xffffffffffffffffffff ∷ 0xffffffffffffffffc8c8 ∷ 0xc8ffe1e1e1ffffffffff
    ∷ 0xfffffffffffffffff3f3 ∷ 0xf3ffbdbdbdffffffffff ∷ 0xffffffffffffffffffff
    ∷ 0xfffffffffffffbfbfbff ∷ 0xddddddff747474fff3f3 ∷ 0xf3ffffffffffffffffff
    ∷ 0xffffffffffffffffffff ∷ 0xffffffffffffffffffff ∷ 0xe4e4e4ffc5c5c5ffffff
    ∷ 0xffffffffffffffffffff ∷ 0xffffffffffffffffffff ∷ 0xffffffffffffe1e1e1ff
    ∷ 0xc5c5c5ffffffffffffff ∷ 0xffffffffffffdcdcdcff ∷ 0xccccccffffffffffffff
    ∷ 0xffffffffffffffffffff ∷ 0xffffffffffffffffffff ∷ 0xfffff2f2f2ff737373ff
    ∷ 0xf4f4f4ffffffffffffff ∷ 0xffffffffffffffffffff ∷ 0xffffffffffffffffd5d5
    ∷ 0xd5ffdbdbdbffffffffff ∷ 0xffffffffffffffffffff ∷ 0xffffffffffffffffffff
    ∷ 0xfffffffffdfdfdffa6a6 ∷ 0xa6ffffffffffffffffff ∷ 0xffffffffd8d8d8ffd7d7
    ∷ 0xd7ffffffffffffffffff ∷ 0xffffffffffffffffffff ∷ 0xffffffffffffffffffff
    ∷ 0xffffffffe7e7e7ff6e6e ∷ 0x6effe6e6e6ffffffffff ∷ 0xffffffffffffffffffff
    ∷ 0xffffffffffffd5d5d5ff ∷ 0xdbdbdbffffffffffffff ∷ 0xffffffffffffffffffff
    ∷ 0xffffffffffffffffffff ∷ 0xffffffffffffb8b8b8ff ∷ 0xffffffffffffffffffff
    ∷ 0xfffffafafafff9f9f9ff ∷ 0xffffffffffffffffffff ∷ 0xffffffffffffffffffff
    ∷ 0xffffffffffffffffffff ∷ 0xfffffffffffff3f3f3ff ∷ 0x7d7d7dff888888ffdbdb
    ∷ 0xdbffffffffffffffffff ∷ 0xffffffffdbdbdbffcece ∷ 0xceffffffffffffffffff
    ∷ 0xffffffffffffffffffff ∷ 0xffffffffffffffffffff ∷ 0xffffffffffffffffffff
    ∷ 0xffffffffffffffffffff ∷ 0xffffffffffffffffffff ∷ 0xffffffffffffffffffff
    ∷ 0xffffffffffffffffffff ∷ 0xffffffffffffffffffff ∷ 0xffffffffffffffffffff
    ∷ 0xffffe1e1e1ff939393ff ∷ 0x979797ffffffffffffff ∷ 0xfffff7f7f7ff909090ff
    ∷ 0xffffffffffffffffffff ∷ 0xffffffffffffffffffff ∷ 0xffffffffffffffffffff
    ∷ 0xffffffffffffffffffff ∷ 0xffffffffffffffffffff ∷ []
