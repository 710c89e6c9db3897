-- ===== src/Files/KeypadJs2.antt =====
-- ProjectFiles/fsdata_custom.c: part 2 of `data_keypad_js`, a number for each line of ten bytes.
use pico_rfu.Prelude.{ℕ, List, ◌∷◌, []}

-- The lines 1705 to 1850.
unfoldable pub keypad_js_2 : List ℕ
keypad_js_2 =
    0x7463685b305d202b2022 ∷ 0x2041542030220a202020 ∷ 0x20202073656e644b6579
    ∷ 0x7328293b0a2020202020 ∷ 0x206c6574206e756d203d ∷ 0x207061727365496e7428
    ∷ 0x6d617463685b305d2920 ∷ 0x2d20313b0a2020202020 ∷ 0x206b6579427566666572
    ∷ 0x203d206e756d2e746f53 ∷ 0x7472696e672829202b20 ∷ 0x7461696c3b0a20202020
    ∷ 0x202073656e644b657973 ∷ 0x28293b0a202020202020 ∷ 0x6b657942756666657220
    ∷ 0x3d206e756d2e746f5374 ∷ 0x72696e672829202b2074 ∷ 0x61696c3b0a2020202020
    ∷ 0x20757064617465446973 ∷ 0x706c617928293b0a2020 ∷ 0x20207d0a20207d0a7d0a
    ∷ 0x0a66756e6374696f6e20 ∷ 0x617070656e644b657928 ∷ 0x6b657929207b0a20202f
    ∷ 0x2f204966207468652075 ∷ 0x73657220707265737365 ∷ 0x73207468652066756c6c
    ∷ 0x20627574746f6e207477 ∷ 0x69636520696e20612072 ∷ 0x6f772c2073656e642074
    ∷ 0x6865206b6579730a2020 ∷ 0x696620286b6579203d3d ∷ 0x3d202746554c4c272026
    ∷ 0x26206b65794275666665 ∷ 0x722e656e647357697468 ∷ 0x282746554c4c27292920
    ∷ 0x7b0a2020202073656e64 ∷ 0x4b65797328293b0a2020 ∷ 0x202072657475726e3b0a
    ∷ 0x20207d0a20206b657942 ∷ 0x7566666572202b3d206b ∷ 0x65793b0a202075706461
    ∷ 0x7465446973706c617928 ∷ 0x293b0a7d0a0a66756e63 ∷ 0x74696f6e20636c656172
    ∷ 0x446973706c6179282920 ∷ 0x7b0a20206b6579427566 ∷ 0x666572203d2027273b0a
    ∷ 0x20207570646174654469 ∷ 0x73706c617928293b0a7d ∷ 0x0a0a66756e6374696f6e
    ∷ 0x20706172736542756666 ∷ 0x65722862756666657229 ∷ 0x207b0a20206c6574206b
    ∷ 0x657973203d2062756666 ∷ 0x65722e73706c69742822 ∷ 0x2022293b0a20206c6574
    ∷ 0x206174496e646578203d ∷ 0x206b6579732e696e6465 ∷ 0x784f662822415422293b
    ∷ 0x0a20206c657420746872 ∷ 0x75496e646578203d206b ∷ 0x6579732e696e6465784f
    ∷ 0x6628225448525522293b ∷ 0x0a20206c6574206c6576 ∷ 0x656c203d206b6579735b
    ∷ 0x6174496e646578202b20 ∷ 0x315d3b0a20206c657420 ∷ 0x6368616e6e656c73203d
    ∷ 0x205b5d3b0a2020696620 ∷ 0x286c6576656c203d3d3d ∷ 0x202246554c4c22207c7c
    ∷ 0x206c6576656c203d3d3d ∷ 0x20223235352229207b0a ∷ 0x202020206c6576656c20
    ∷ 0x3d2022464c223b0a2020 ∷ 0x7d0a2020696620287468 ∷ 0x7275496e646578203d3d
    ∷ 0x3d202d3129207b0a2020 ∷ 0x2020666f7220286c6574 ∷ 0x2069203d20303b206920
    ∷ 0x3c206174496e6465783b ∷ 0x20692b2b29207b0a2020 ∷ 0x20202020696620286b65
    ∷ 0x79735b695d203d3d3d20 ∷ 0x22414e442229207b0a20 ∷ 0x20202020202020636f6e
    ∷ 0x74696e75653b0a202020 ∷ 0x2020207d0a2020202020 ∷ 0x206368616e6e656c732e
    ∷ 0x70757368286b6579735b ∷ 0x695d293b0a202020207d ∷ 0x0a20207d0a2020656c73
    ∷ 0x65207b0a20202020666f ∷ 0x7220286c65742069203d ∷ 0x207061727365496e7428
    ∷ 0x6b6579735b7468727549 ∷ 0x6e646578202d20315d29 ∷ 0x3b2069203c3d20706172
    ∷ 0x7365496e74286b657973 ∷ 0x5b74687275496e646578 ∷ 0x202b20315d293b20692b
    ∷ 0x2b29207b0a2020202020 ∷ 0x206368616e6e656c732e ∷ 0x7075736828692e746f53
    ∷ 0x7472696e672829293b0a ∷ 0x202020207d0a20207d0a ∷ 0x2020666f7220286c6574
    ∷ 0x2069203d20303b206920 ∷ 0x3c206368616e6e656c73 ∷ 0x2e6c656e6774683b2069
    ∷ 0x2b2b29207b0a20202020 ∷ 0x696620286c6576656c20 ∷ 0x3d3d3d2022302229207b
    ∷ 0x0a202020202020636f6e ∷ 0x736f6c652e6c6f672822 ∷ 0x64656c6574696e672229
    ∷ 0x0a2020202020206c6574 ∷ 0x2073756363657373203d ∷ 0x206368616e6e656c4461
    ∷ 0x74612e64656c65746528 ∷ 0x7061727365496e742863 ∷ 0x68616e6e656c735b695d
    ∷ 0x2e706164537461727428 ∷ 0x332c2027302729292e74 ∷ 0x6f537472696e67282929
    ∷ 0x3b0a202020202020636f ∷ 0x6e736f6c652e6c6f6728 ∷ 0x73756363657373293b0a
    ∷ 0x202020207d20656c7365 ∷ 0x207b0a20202020202063 ∷ 0x68616e6e656c44617461
    ∷ 0x2e736574286368616e6e ∷ 0x656c735b695d2e706164 ∷ 0x537461727428332c2027
    ∷ 0x3027292c206c6576656c ∷ 0x293b0a202020207d0a20 ∷ 0x207d0a20206368616e6e
    ∷ 0x656c44617461203d206e ∷ 0x6577204d6170285b2e2e ∷ 0x2e6368616e6e656c4461
    ∷ 0x74612e656e7472696573 ∷ 0x28295d2e736f72742829 ∷ 0x293b0a7d0a0a0a66756e
    ∷ 0x6374696f6e2073656e64 ∷ 0x4b6579732829207b0a20 ∷ []
