-- ===== src/Files/LoginJs2.antt =====
-- ProjectFiles/fsdata_custom.c: part 2 of `data_login_js`, a number for each line of ten bytes.
use pico_rfu.Prelude.{ℕ, List, ◌∷◌, []}

-- The lines 2813 to 2958.
unfoldable pub login_js_2 : List ℕ
login_js_2 =
    0x6b6965203d206e616d65 ∷ 0x202b20223d22202b2076 ∷ 0x616c7565202b20223b22
    ∷ 0x202b2065787069726573 ∷ 0x202b20223b706174683d ∷ 0x2f223b0a202020207d0a
    ∷ 0x20200a202020202f2f20 ∷ 0x46756e6374696f6e2074 ∷ 0x6f20676574206120636f
    ∷ 0x6f6b6965206279206e61 ∷ 0x6d650a2020202066756e ∷ 0x6374696f6e2067657443
    ∷ 0x6f6f6b6965286e616d65 ∷ 0x29207b0a202020202020 ∷ 0x636f6e737420636f6f6b
    ∷ 0x69654e616d65203d206e ∷ 0x616d65202b20223d223b ∷ 0x0a202020202020636f6e
    ∷ 0x737420636f6f6b696541 ∷ 0x72726179203d20646f63 ∷ 0x756d656e742e636f6f6b
    ∷ 0x69652e73706c69742822 ∷ 0x3b22293b0a2020202020 ∷ 0x20666f7220286c657420
    ∷ 0x69203d20303b2069203c ∷ 0x20636f6f6b6965417272 ∷ 0x61792e6c656e6774683b
    ∷ 0x20692b2b29207b0a2020 ∷ 0x2020202020206c657420 ∷ 0x636f6f6b6965203d2063
    ∷ 0x6f6f6b69654172726179 ∷ 0x5b695d3b0a2020202020 ∷ 0x2020207768696c652028
    ∷ 0x636f6f6b69652e636861 ∷ 0x724174283029203d3d3d ∷ 0x2022202229207b0a2020
    ∷ 0x2020202020202020636f ∷ 0x6f6b6965203d20636f6f ∷ 0x6b69652e737562737472
    ∷ 0x696e672831293b0a2020 ∷ 0x2020202020207d0a2020 ∷ 0x20202020202069662028
    ∷ 0x636f6f6b69652e696e64 ∷ 0x65784f6628636f6f6b69 ∷ 0x654e616d6529203d3d3d
    ∷ 0x203029207b0a20202020 ∷ 0x20202020202072657475 ∷ 0x726e20636f6f6b69652e
    ∷ 0x737562737472696e6728 ∷ 0x636f6f6b69654e616d65 ∷ 0x2e6c656e6774682c2063
    ∷ 0x6f6f6b69652e6c656e67 ∷ 0x7468293b0a2020202020 ∷ 0x2020207d0a2020202020
    ∷ 0x207d0a20202020202072 ∷ 0x657475726e2022223b0a ∷ 0x202020207d0a20200a20
    ∷ 0x2020202f2f2043686563 ∷ 0x6b206966207468652070 ∷ 0x617373776f726420636f
    ∷ 0x6f6b6965206578697374 ∷ 0x730a20202020636f6e73 ∷ 0x742070617373776f7264
    ∷ 0x436f6f6b6965203d2067 ∷ 0x6574436f6f6b69652822 ∷ 0x7266752d70617373776f
    ∷ 0x726422293b0a20200a20 ∷ 0x2020202f2f2052652d61 ∷ 0x757468656e7469636174
    ∷ 0x65207468652070617373 ∷ 0x776f726420636f6f6b69 ∷ 0x65207769746820746865
    ∷ 0x204150490a2020202061 ∷ 0x73796e632066756e6374 ∷ 0x696f6e2061757468656e
    ∷ 0x74696361746550617373 ∷ 0x776f72642829207b0a20 ∷ 0x20202020206966202870
    ∷ 0x617373776f7264436f6f ∷ 0x6b696529207b0a202020 ∷ 0x20202020202f2f205365
    ∷ 0x6e642061207265717565 ∷ 0x737420746f2074686520 ∷ 0x41504920666f72207061
    ∷ 0x7373776f726420766572 ∷ 0x696669636174696f6e20 ∷ 0x7573696e672074686520
    ∷ 0x70617373776f72642063 ∷ 0x6f6f6b69650a20202020 ∷ 0x20202020636f6e737420
    ∷ 0x726573706f6e7365203d ∷ 0x20617761697420666574 ∷ 0x636828222f6170692f61
    ∷ 0x757468222c207b0a2020 ∷ 0x20202020202020206d65 ∷ 0x74686f643a2022504f53
    ∷ 0x54222c0a202020202020 ∷ 0x20202020686561646572 ∷ 0x733a207b0a2020202020
    ∷ 0x2020202020202022436f ∷ 0x6e74656e742d54797065 ∷ 0x223a20226170706c6963
    ∷ 0x6174696f6e2f6a736f6e ∷ 0x220a2020202020202020 ∷ 0x20207d2c0a2020202020
    ∷ 0x2020202020626f64793a ∷ 0x204a534f4e2e73747269 ∷ 0x6e67696679287b207061
    ∷ 0x7373776f72643a207061 ∷ 0x7373776f7264436f6f6b ∷ 0x6965207d290a20202020
    ∷ 0x202020207d293b0a2020 ∷ 0x0a202020202020202069 ∷ 0x662028726573706f6e73
    ∷ 0x652e6f6b29207b0a2020 ∷ 0x20202020202020202f2f ∷ 0x20466f72776172642074
    ∷ 0x6f20746865206b657970 ∷ 0x61642070616765206966 ∷ 0x2074686520636f6f6b69
    ∷ 0x65206973206175746865 ∷ 0x6e746963617465640a20 ∷ 0x20202020202020202077
    ∷ 0x696e646f772e6c6f6361 ∷ 0x74696f6e2e6872656620 ∷ 0x3d20226b65797061642e
    ∷ 0x68746d6c223b0a202020 ∷ 0x20202020207d0a202020 ∷ 0x2020207d0a202020207d
    ∷ 0x0a20200a202020206175 ∷ 0x7468656e746963617465 ∷ 0x50617373776f72642829
    ∷ 0x3b0a20200a202020202f ∷ 0x2f204174746163682074 ∷ 0x686520666f726d207375
    ∷ 0x626d697373696f6e2068 ∷ 0x616e646c65720a202020 ∷ 0x20636f6e737420666f72
    ∷ 0x6d203d20646f63756d65 ∷ 0x6e742e676574456c656d ∷ 0x656e744279496428226c
    ∷ 0x6f67696e2d666f726d22 ∷ 0x293b0a20202020666f72 ∷ 0x6d2e6164644576656e74
    ∷ 0x4c697374656e65722822 ∷ 0x7375626d6974222c2073 ∷ []
