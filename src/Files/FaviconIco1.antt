-- ===== src/Files/FaviconIco1.antt =====
-- ProjectFiles/fsdata_custom.c: part 1 of `data_favicon_ico`, a number for each line of ten bytes.
use pico_rfu.Prelude.{ℕ, List, ◌∷◌, []}

-- The lines 1 to 149.
unfoldable pub favicon_ico_1 : List ℕ
favicon_ico_1 =
    0x485454502f312e302032 ∷ 0x3030204f4b0d0a536572 ∷ 0x7665723a206c7749502f
    ∷ 0x7072652d302e36202868 ∷ 0x7474703a2f2f7777772e ∷ 0x736963732e73652f7e61
    ∷ 0x64616d2f6c7769702f29 ∷ 0x0d0a436f6e74656e742d ∷ 0x747970653a2074657874
    ∷ 0x2f706c61696e0d0a0d0a ∷ 0x00000100030010100000 ∷ 0x01002000680400003600
    ∷ 0x00002020000001002000 ∷ 0x281100009e0400003030 ∷ 0x00000100200068260000
    ∷ 0xc6150000280000001000 ∷ 0x00002000000001002000 ∷ 0x00000000000000000000
    ∷ 0x00000000000000000000 ∷ 0x00000000ffffffffffff ∷ 0xffffffffffffffffffff
    ∷ 0xffffffffffffffffffff ∷ 0xffffffffffffffffffff ∷ 0xffffffffffffffffffff
    ∷ 0xffffffffffffffffffff ∷ 0xffffffffffffffffffff ∷ 0xffffffffffffffffffff
    ∷ 0xffffffffffffffffffff ∷ 0xffffffffffffffffffff ∷ 0xffffffffffffffffffff
    ∷ 0xffffffffffffffffffff ∷ 0xffffffffffffffffffff ∷ 0xffffffffffffffffffff
    ∷ 0xffffffffffffffffffff ∷ 0xffffffffffffffffffff ∷ 0xffffffffffffffffffff
    ∷ 0xffffffffffffffffffff ∷ 0xffffffffffffffffffff ∷ 0xffffffffffffffffffff
    ∷ 0xffffffffffffffffffff ∷ 0xfffffffffffff0f0f0ff ∷ 0xb9b9b9ffbdbdbdffffff
    ∷ 0xffffffffffffffffffff ∷ 0xffffffffffffffffffff ∷ 0xffffffffffffffffffff
    ∷ 0xfffffffffdfdfdfffdfd ∷ 0xfdffffffffffffffffff ∷ 0xffffffffffffffffd2d2
    ∷ 0xd2ffffffffffffffffff ∷ 0xffffffffffffffffffff ∷ 0xffffffffffffffffffff
    ∷ 0xffffffffffffffffeded ∷ 0xedffd8d8d8ffffffffff ∷ 0xffffffffffffffffffff
    ∷ 0xffffd6d6d6ffffffffff ∷ 0xffffffffffffffffffff ∷ 0xfffff6f6f6ffcececeff
    ∷ 0xffffffffffffffffffff ∷ 0xfffffafafaffd0d0d0ff ∷ 0xffffffffffffffffffff
    ∷ 0xffffffffffffd6d6d6ff ∷ 0xffffffffffffffffffff ∷ 0xffffffffffffbcbcbcff
    ∷ 0xe6e6e6ffd1d1d1ffffff ∷ 0xfffffffffffffafafaff ∷ 0xd0d0d0ffffffffffffff
    ∷ 0xffffffffffffe4e4e4ff ∷ 0x9b9b9bffd0d0d0ffffff ∷ 0xfffffffffffff5f5f5ff
    ∷ 0xd9d9d9ffffffffffd3d3 ∷ 0xd3ffffffffffffffffff ∷ 0xfafafaffc2c2c2ffffff
    ∷ 0xffffffffffffffffffff ∷ 0xffffffffd4d4d4ffffff ∷ 0xffffffffffffffffffff
    ∷ 0xe2e2e2fff4f4f4ffffff ∷ 0xffffd8d8d8ffffffffff ∷ 0xfffffffffcfcfcffa6a6
    ∷ 0xa6fffcfcfcffffffffff ∷ 0xffffffffffffffffd5d5 ∷ 0xd5ffffffffffffffffff
    ∷ 0xffffffffeaeaeaffe9e9 ∷ 0xe9ffffffffffd6d6d6ff ∷ 0xffffffffffffffffffff
    ∷ 0xfffffcfcfcffafafafff ∷ 0xf9f9f9ffffffffffffff ∷ 0xffffd8d8d8ffffffffff
    ∷ 0xfffffffffffffffffefe ∷ 0xfeffd7d7d7ffffffffff ∷ 0xe8e8e8ffffffffffffff
    ∷ 0xffffffffffffffffffff ∷ 0xfcfcfcffb9b9b9ffc1c1 ∷ 0xc1ffffffffffccccccff
    ∷ 0xffffffffffffffffffff ∷ 0xffffffffffffffffffff ∷ 0xffffffffffffffffffff
    ∷ 0xffffffffffffffffffff ∷ 0xffffffffffffffffffff ∷ 0xffffffffffffffffffff
    ∷ 0xe9e9e9ffb2b2b2ffb9b9 ∷ 0xb9ffd1d1d1ffffffffff ∷ 0xffffffffffffffffffff
    ∷ 0xffffffffffffffffffff ∷ 0xffffffffffffffffffff ∷ 0xffffffffffffffffffff
    ∷ 0xffffffffffffffffffff ∷ 0xffffffffffffffffffff ∷ 0xffffffffffffffffffff
    ∷ 0xffffffffffffffffffff ∷ 0xffffffffffffffffffff ∷ 0xffffffffffffffffffff
    ∷ 0xffffffffffffffffffff ∷ 0xffffffffffffffffffff ∷ 0xffffffffffffffffffff
    ∷ 0xffffffffffffffffffff ∷ 0xffffffffffffffffffff ∷ 0xffffffffffffffffffff
    ∷ 0xffffffffffffffffffff ∷ 0xffffffffffffffffffff ∷ 0xffffffffffffffffffff
    ∷ 0xffffffffffffffffffff ∷ 0xffffffffffffffff0000 ∷ 0x00000000000000000000
    ∷ 0x00000000000000000000 ∷ 0x00000000000000000000 ∷ 0x00000000000000000000
    ∷ 0x00000000000000000000 ∷ 0x00000000000000000000 ∷ 0x00002800000020000000
    ∷ 0x40000000010020000000 ∷ 0x00000000000000000000 ∷ 0x00000000000000000000
    ∷ 0x0000ffffffffffffffff ∷ 0xffffffffffffffffffff ∷ 0xffffffffffffffffffff
    ∷ 0xffffffffffffffffffff ∷ 0xffffffffffffffffffff ∷ 0xffffffffffffffffffff
    ∷ 0xffffffffffffffffffff ∷ 0xffffffffffffffffffff ∷ 0xffffffffffffffffffff
    ∷ 0xffffffffffffffffffff ∷ 0xffffffffffffffffffff ∷ 0xffffffffffffffffffff
    ∷ 0xffffffffffffffffffff ∷ 0xffffffffffffffffffff ∷ []
