-- ===== src/Files/KeypadJs3.antt =====
-- ProjectFiles/fsdata_custom.c: part 3 of `data_keypad_js`, a number for each line of ten bytes.
use pico_rfu.Prelude.{ℕ, List, ◌∷◌, []}

-- The lines 1851 to 1996.
unfoldable pub keypad_js_3 : List ℕ
keypad_js_3 =
    0x202f2f2050616420616c ∷ 0x6c20746865206e756d62 ∷ 0x65727320696e20746865
    ∷ 0x206b6579427566666572 ∷ 0x2077697468207a65726f ∷ 0x7320736f207468657920
    ∷ 0x61726520332064696769 ∷ 0x7473206c6f6e670a2020 ∷ 0x76617220706164646564
    ∷ 0x427566666572203d206b ∷ 0x65794275666665722e72 ∷ 0x65706c616365282f5c62
    ∷ 0x285c647b312c327d2928 ∷ 0x3f215b5c642e5d292f67 ∷ 0x2c2066756e6374696f6e
    ∷ 0x20286d617463682c206e ∷ 0x756d62657229207b0a20 ∷ 0x20202072657475726e20
    ∷ 0x6e756d6265722e706164 ∷ 0x537461727428332c2027 ∷ 0x3027293b0a20207d293b
    ∷ 0x0a202070726576427566 ∷ 0x666572203d2070616464 ∷ 0x65644275666665723b0a
    ∷ 0x20207061727365427566 ∷ 0x666572286b6579427566 ∷ 0x666572293b0a20202f2f
    ∷ 0x2053656e642074686520 ∷ 0x6b657942756666657220 ∷ 0x746f2074686520626163
    ∷ 0x6b656e64204150490a0a ∷ 0x0a202066657463682861 ∷ 0x706955726c2c207b0a20
    ∷ 0x2020206d6574686f643a ∷ 0x2027504f5354272c0a20 ∷ 0x20202068656164657273
    ∷ 0x3a207b0a202020202020 ∷ 0x27436f6e74656e742d54 ∷ 0x797065273a2027617070
    ∷ 0x6c69636174696f6e2f6a ∷ 0x736f6e270a202020207d ∷ 0x2c0a20202020626f6479
    ∷ 0x3a204a534f4e2e737472 ∷ 0x696e67696679287b206b ∷ 0x6579733a207061646465
    ∷ 0x64427566666572207d29 ∷ 0x0a20207d290a20202020 ∷ 0x2e7468656e2872657370
    ∷ 0x6f6e7365203d3e207265 ∷ 0x73706f6e73652e6a736f ∷ 0x6e2829290a202020202e
    ∷ 0x7468656e286461746120 ∷ 0x3d3e207b0a2020202020 ∷ 0x20636f6e736f6c652e6c
    ∷ 0x6f672827415049207265 ∷ 0x73706f6e73653a272c20 ∷ 0x64617461293b0a202020
    ∷ 0x2020202f2f2048616e64 ∷ 0x6c652074686520415049 ∷ 0x20726573706f6e736520
    ∷ 0x6173206e65656465640a ∷ 0x202020207d290a202020 ∷ 0x202e6361746368286572
    ∷ 0x726f72203d3e207b0a20 ∷ 0x2020202020636f6e736f ∷ 0x6c652e6572726f722827
    ∷ 0x4572726f723a272c2065 ∷ 0x72726f72293b0a202020 ∷ 0x2020202f2f2048616e64
    ∷ 0x6c6520616e7920657272 ∷ 0x6f72732074686174206f ∷ 0x6363757220647572696e
    ∷ 0x67207468652041504920 ∷ 0x63616c6c0a202020207d ∷ 0x293b0a0a2020636c6561
    ∷ 0x72446973706c61792829 ∷ 0x3b0a7d0a0a66756e6374 ∷ 0x696f6e2072656c656173
    ∷ 0x652829207b0a20202f2f ∷ 0x2053656e642074686520 ∷ 0x6b657942756666657220
    ∷ 0x746f2074686520626163 ∷ 0x6b656e64204150490a20 ∷ 0x206368616e6e656c4461
    ∷ 0x74612e636c6561722829 ∷ 0x3b0a2020736f6c6f4d6f ∷ 0x6465203d2066616c7365
    ∷ 0x3b0a2020646f63756d65 ∷ 0x6e742e676574456c656d ∷ 0x656e7442794964282273
    ∷ 0x6f6c6f22292e7374796c ∷ 0x652e6261636b67726f75 ∷ 0x6e64436f6c6f72203d20
    ∷ 0x2223653665366536223b ∷ 0x0a202066657463682861 ∷ 0x706955726c2c207b0a20
    ∷ 0x2020206d6574686f643a ∷ 0x2027504f5354272c0a20 ∷ 0x20202068656164657273
    ∷ 0x3a207b0a202020202020 ∷ 0x27436f6e74656e742d54 ∷ 0x797065273a2027617070
    ∷ 0x6c69636174696f6e2f6a ∷ 0x736f6e270a202020207d ∷ 0x2c0a20202020626f6479
    ∷ 0x3a204a534f4e2e737472 ∷ 0x696e67696679287b206b ∷ 0x6579733a202772656c65
    ∷ 0x61736527207d290a2020 ∷ 0x7d290a202020202e7468 ∷ 0x656e28726573706f6e73
    ∷ 0x65203d3e20726573706f ∷ 0x6e73652e6a736f6e2829 ∷ 0x290a202020202e746865
    ∷ 0x6e2864617461203d3e20 ∷ 0x7b0a202020202020636f ∷ 0x6e736f6c652e6c6f6728
    ∷ 0x2741504920726573706f ∷ 0x6e73653a272c20646174 ∷ 0x61293b0a202020202020
    ∷ 0x2f2f2048616e646c6520 ∷ 0x74686520415049207265 ∷ 0x73706f6e736520617320
    ∷ 0x6e65656465640a202020 ∷ 0x207d290a202020202e63 ∷ 0x61746368286572726f72
    ∷ 0x203d3e207b0a20202020 ∷ 0x2020636f6e736f6c652e ∷ 0x6572726f722827457272
    ∷ 0x6f723a272c206572726f ∷ 0x72293b0a202020202020 ∷ 0x2f2f2048616e646c6520
    ∷ 0x616e79206572726f7273 ∷ 0x2074686174206f636375 ∷ 0x7220647572696e672074
    ∷ 0x6865204150492063616c ∷ 0x6c0a202020207d293b0a ∷ 0x0a20202f2f20436c6561
    ∷ 0x7220746865206b657942 ∷ 0x756666657220616e6420 ∷ 0x646973706c61790a2020
    ∷ 0x636c656172446973706c ∷ 0x617928293b0a20207570 ∷ 0x646174654368616e6e65
    ∷ 0x6c446973706c61792829 ∷ 0x3b0a7d0a0a66756e6374 ∷ []
