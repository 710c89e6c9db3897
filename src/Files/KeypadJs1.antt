-- ===== src/Files/KeypadJs1.antt =====
-- ProjectFiles/fsdata_custom.c: part 1 of `data_keypad_js`, a number for each line of ten bytes.
use pico_rfu.Prelude.{ℕ, List, ◌∷◌, []}

-- The lines 1556 to 1704.
unfoldable pub keypad_js_1 : List ℕ
keypad_js_1 =
    0x485454502f312e302032 ∷ 0x3030204f4b0d0a536572 ∷ 0x7665723a206c7749502f
    ∷ 0x7072652d302e36202868 ∷ 0x7474703a2f2f7777772e ∷ 0x736963732e73652f7e61
    ∷ 0x64616d2f6c7769702f29 ∷ 0x0d0a436f6e74656e742d ∷ 0x747970653a2074657874
    ∷ 0x2f6a6176617363726970 ∷ 0x740d0a0d0a6c6574206b ∷ 0x6579427566666572203d
    ∷ 0x2027273b0a6c65742070 ∷ 0x72657642756666657220 ∷ 0x3d2027273b0a6c657420
    ∷ 0x6368616e6e656c446174 ∷ 0x61203d206e6577204d61 ∷ 0x7028293b0a636f6e7374
    ∷ 0x20646973706c6179456c ∷ 0x656d656e74203d20646f ∷ 0x63756d656e742e717565
    ∷ 0x727953656c6563746f72 ∷ 0x28272e646973706c6179 ∷ 0x27293b0a636f6e737420
    ∷ 0x686f7374203d2077696e ∷ 0x646f772e6c6f63617469 ∷ 0x6f6e2e686f73746e616d
    ∷ 0x653b0a636f6e73742070 ∷ 0x6f7274203d2077696e64 ∷ 0x6f772e6c6f636174696f
    ∷ 0x6e2e706f72743b0a0a6c ∷ 0x65742061706955726c20 ∷ 0x3d2060687474703a2f2f
    ∷ 0x247b686f73747d3a247b ∷ 0x706f72747d2f6170692f ∷ 0x6b657973603b0a6c6574
    ∷ 0x20736f6c6f4d6f646520 ∷ 0x3d2066616c73653b0a0a ∷ 0x636f6e73742070617373
    ∷ 0x776f7264436f6f6b6965 ∷ 0x203d20676574436f6f6b ∷ 0x696528227266752d7061
    ∷ 0x7373776f726422293b0a ∷ 0x69662028217061737377 ∷ 0x6f7264436f6f6b696529
    ∷ 0x207b0a202077696e646f ∷ 0x772e6c6f636174696f6e ∷ 0x2e68726566203d202269
    ∷ 0x6e6465782e68746d6c22 ∷ 0x3b0a7d0a61757468656e ∷ 0x74696361746550617373
    ∷ 0x776f7264287061737377 ∷ 0x6f7264436f6f6b696529 ∷ 0x3b0a0a66756e6374696f
    ∷ 0x6e20736f6c6f2829207b ∷ 0x0a20202f2f7377697463 ∷ 0x6820746f20736f6c6f20
    ∷ 0x6d6f6465207768657265 ∷ 0x206f6e6c79206f6e6520 ∷ 0x76616c75652069732063
    ∷ 0x6f6e74726f6c6c65640a ∷ 0x2020736f6c6f4d6f6465 ∷ 0x203d2021736f6c6f4d6f
    ∷ 0x64653b0a202069662028 ∷ 0x736f6c6f4d6f64652920 ∷ 0x7b0a202020206b657942
    ∷ 0x7566666572203d207072 ∷ 0x65764275666665723b0a ∷ 0x20202020757064617465
    ∷ 0x446973706c617928293b ∷ 0x0a20202020646f63756d ∷ 0x656e742e676574456c65
    ∷ 0x6d656e74427949642822 ∷ 0x736f6c6f22292e737479 ∷ 0x6c652e6261636b67726f
    ∷ 0x756e64436f6c6f72203d ∷ 0x2022726564223b0a2020 ∷ 0x7d20656c7365207b0a20
    ∷ 0x202020646f63756d656e ∷ 0x742e676574456c656d65 ∷ 0x6e74427949642822736f
    ∷ 0x6c6f22292e7374796c65 ∷ 0x2e6261636b67726f756e ∷ 0x64436f6c6f72203d2022
    ∷ 0x23653665366536223b0a ∷ 0x2020202072656c656173 ∷ 0x6528293b0a20207d0a7d
    ∷ 0x0a66756e6374696f6e20 ∷ 0x736f6c6f506c75732829 ∷ 0x207b0a20202f2f696e63
    ∷ 0x72656173652074686520 ∷ 0x76616c7565206f662074 ∷ 0x686520736f6c6f206d6f
    ∷ 0x64650a20206966202873 ∷ 0x6f6c6f4d6f646529207b ∷ 0x0a202020206c6574206d
    ∷ 0x61746368203d20707265 ∷ 0x764275666665722e6d61 ∷ 0x746368282f5c647b337d
    ∷ 0x2f290a202020206c6574 ∷ 0x207461696c203d207072 ∷ 0x65764275666665722e73
    ∷ 0x6c696365286d61746368 ∷ 0x2e696e646578202b2033 ∷ 0x293b0a20202020696620
    ∷ 0x286d6174636829207b0a ∷ 0x2020202020206b657942 ∷ 0x7566666572203d206d61
    ∷ 0x7463685b305d202b2022 ∷ 0x2041542030220a202020 ∷ 0x20202073656e644b6579
    ∷ 0x7328293b0a2020202020 ∷ 0x206c6574206e756d203d ∷ 0x207061727365496e7428
    ∷ 0x6d617463685b305d2920 ∷ 0x2b20313b0a2020202020 ∷ 0x206b6579427566666572
    ∷ 0x203d206e756d2e746f53 ∷ 0x7472696e672829202b20 ∷ 0x7461696c3b0a20202020
    ∷ 0x202073656e644b657973 ∷ 0x28293b0a202020202020 ∷ 0x6b657942756666657220
    ∷ 0x3d206e756d2e746f5374 ∷ 0x72696e672829202b2074 ∷ 0x61696c3b0a2020202020
    ∷ 0x20757064617465446973 ∷ 0x706c617928293b0a2020 ∷ 0x20207d0a20207d0a7d0a
    ∷ 0x66756e6374696f6e2073 ∷ 0x6f6c6f4d696e75732829 ∷ 0x207b0a20206966202873
    ∷ 0x6f6c6f4d6f646529207b ∷ 0x0a202020206c6574206d ∷ 0x61746368203d20707265
    ∷ 0x764275666665722e6d61 ∷ 0x746368282f5c647b337d ∷ 0x2f290a202020206c6574
    ∷ 0x207461696c203d207072 ∷ 0x65764275666665722e73 ∷ 0x6c696365286d61746368
    ∷ 0x2e696e646578202b2033 ∷ 0x293b0a20202020696620 ∷ 0x286d6174636829207b0a
    ∷ 0x2020202020206b657942 ∷ 0x7566666572203d206d61 ∷ []
