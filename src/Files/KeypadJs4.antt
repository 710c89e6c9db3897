-- ===== src/Files/KeypadJs4.antt =====
-- ProjectFiles/fsdata_custom.c: part 4 of `data_keypad_js`, a number for each line of ten bytes.
use pico_rfu.Prelude.{ℕ, List, ◌∷◌, []}

-- The lines 1997 to 2142.
unfoldable pub keypad_js_4 : List ℕ
keypad_js_4 =
    0x696f6e20757064617465 ∷ 0x4368616e6e656c446973 ∷ 0x706c61792829207b0a20
    ∷ 0x20636f6e737420646973 ∷ 0x706c6179456c656d656e ∷ 0x74203d20646f63756d65
    ∷ 0x6e742e71756572795365 ∷ 0x6c6563746f7228272e63 ∷ 0x68616e6e656c2d646973
    ∷ 0x706c617927293b0a2020 ∷ 0x6c657420646973706c61 ∷ 0x7948746d6c203d20273c
    ∷ 0x68323e43757272656e74 ∷ 0x204368616e6e656c7320 ∷ 0x616e64204c6576656c73
    ∷ 0x3a3c2f68323e273b0a0a ∷ 0x2020696620286368616e ∷ 0x6e656c446174612e6c65
    ∷ 0x6e677468203d3d3d2030 ∷ 0x29207b0a202020206469 ∷ 0x73706c617948746d6c20
    ∷ 0x2b3d20273c703e4e6f20 ∷ 0x6368616e6e656c732074 ∷ 0x6f20646973706c61793c
    ∷ 0x2f703e273b0a20207d20 ∷ 0x656c7365207b0a202020 ∷ 0x20646973706c61794874
    ∷ 0x6d6c202b3d20273c6469 ∷ 0x7620636c6173733d2263 ∷ 0x68616e6e656c2d617272
    ∷ 0x6179223e273b0a0a2020 ∷ 0x2020666f722028636f6e ∷ 0x73742064617461206f66
    ∷ 0x206368616e6e656c4461 ∷ 0x746129207b0a20202020 ∷ 0x2020646973706c617948
    ∷ 0x746d6c202b3d20600a20 ∷ 0x202020202020203c6469 ∷ 0x7620636c6173733d2263
    ∷ 0x68616e6e656c223e0a20 ∷ 0x2020202020202020203c ∷ 0x703e247b646174615b30
    ∷ 0x5d7d3c2f703e0a202020 ∷ 0x202020202020203c703e ∷ 0x247b646174615b315d7d
    ∷ 0x3c2f703e0a2020202020 ∷ 0x2020203c2f6469763e0a ∷ 0x202020202020603b0a20
    ∷ 0x2020207d0a0a20202020 ∷ 0x646973706c617948746d ∷ 0x6c202b3d20273c2f6469
    ∷ 0x763e273b0a20207d0a0a ∷ 0x2020646973706c617945 ∷ 0x6c656d656e742e696e6e
    ∷ 0x657248544d4c203d2064 ∷ 0x6973706c617948746d6c ∷ 0x3b0a7d0a0a0a0a0a6675
    ∷ 0x6e6374696f6e20757064 ∷ 0x617465446973706c6179 ∷ 0x2829207b0a2020646973
    ∷ 0x706c6179456c656d656e ∷ 0x742e74657874436f6e74 ∷ 0x656e74203d206b657942
    ∷ 0x75666665723b0a202075 ∷ 0x70646174654368616e6e ∷ 0x656c446973706c617928
    ∷ 0x293b0a7d0a0a66756e63 ∷ 0x74696f6e20676574436f ∷ 0x6f6b6965286e616d6529
    ∷ 0x207b0a2020636f6e7374 ∷ 0x20636f6f6b69654e616d ∷ 0x65203d206e616d65202b
    ∷ 0x20223d223b0a2020636f ∷ 0x6e737420636f6f6b6965 ∷ 0x4172726179203d20646f
    ∷ 0x63756d656e742e636f6f ∷ 0x6b69652e73706c697428 ∷ 0x223b22293b0a2020666f
    ∷ 0x7220286c65742069203d ∷ 0x20303b2069203c20636f ∷ 0x6f6b696541727261792e
    ∷ 0x6c656e6774683b20692b ∷ 0x2b29207b0a202020206c ∷ 0x657420636f6f6b696520
    ∷ 0x3d20636f6f6b69654172 ∷ 0x7261795b695d3b0a2020 ∷ 0x20207768696c65202863
    ∷ 0x6f6f6b69652e63686172 ∷ 0x4174283029203d3d3d20 ∷ 0x22202229207b0a202020
    ∷ 0x202020636f6f6b696520 ∷ 0x3d20636f6f6b69652e73 ∷ 0x7562737472696e672831
    ∷ 0x293b0a202020207d0a20 ∷ 0x20202069662028636f6f ∷ 0x6b69652e696e6465784f
    ∷ 0x6628636f6f6b69654e61 ∷ 0x6d6529203d3d3d203029 ∷ 0x207b0a20202020202072
    ∷ 0x657475726e20636f6f6b ∷ 0x69652e73756273747269 ∷ 0x6e6728636f6f6b69654e
    ∷ 0x616d652e6c656e677468 ∷ 0x2c20636f6f6b69652e6c ∷ 0x656e677468293b0a2020
    ∷ 0x20207d0a20207d0a2020 ∷ 0x72657475726e2022223b ∷ 0x0a7d0a0a6173796e6320
    ∷ 0x66756e6374696f6e2061 ∷ 0x757468656e7469636174 ∷ 0x6550617373776f726428
    ∷ 0x68617368656450617373 ∷ 0x776f726429207b0a2020 ∷ 0x69662028686173686564
    ∷ 0x50617373776f72642920 ∷ 0x7b0a202020202f2f2053 ∷ 0x656e6420612072657175
    ∷ 0x65737420746f20746865 ∷ 0x2041504920666f722070 ∷ 0x617373776f7264207665
    ∷ 0x72696669636174696f6e ∷ 0x207573696e6720746865 ∷ 0x2070617373776f726420
    ∷ 0x636f6f6b69650a202020 ∷ 0x20636f6e737420726573 ∷ 0x706f6e7365203d206177
    ∷ 0x61697420666574636828 ∷ 0x222f6170692f61757468 ∷ 0x222c207b0a2020202020
    ∷ 0x206d6574686f643a2022 ∷ 0x504f5354222c0a202020 ∷ 0x20202068656164657273
    ∷ 0x3a207b0a202020202020 ∷ 0x202022436f6e74656e74 ∷ 0x2d54797065223a202261
    ∷ 0x70706c69636174696f6e ∷ 0x2f6a736f6e220a202020 ∷ 0x2020207d2c0a20202020
    ∷ 0x2020626f64793a204a53 ∷ 0x4f4e2e737472696e6769 ∷ 0x6679287b207061737377
    ∷ 0x6f72643a206861736865 ∷ 0x6450617373776f726420 ∷ 0x7d290a202020207d293b
    ∷ 0x0a0a2020202069662028 ∷ 0x726573706f6e73652e6f ∷ []
