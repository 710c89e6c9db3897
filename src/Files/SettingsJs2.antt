-- ===== src/Files/SettingsJs2.antt =====
-- ProjectFiles/fsdata_custom.c: part 2 of `data_settings_js`, a number for each line of ten bytes.
use pico_rfu.Prelude.{ℕ, List, ◌∷◌, []}

-- The lines 3429 to 3574.
unfoldable pub settings_js_2 : List ℕ
settings_js_2 =
    0x75653b0a202020202020 ∷ 0x2020636f6e7374206170 ∷ 0x5f6d6f6465203d20646f
    ∷ 0x63756d656e742e676574 ∷ 0x456c656d656e74427949 ∷ 0x64282261705f6d6f6465
    ∷ 0x22292e636865636b6564 ∷ 0x3b0a2020202020202020 ∷ 0x636f6e737420646d785f
    ∷ 0x6c6f6f70203d20646f63 ∷ 0x756d656e742e67657445 ∷ 0x6c656d656e7442794964
    ∷ 0x2822646d785f6c6f6f70 ∷ 0x22292e636865636b6564 ∷ 0x3b0a0a20202020202020
    ∷ 0x202f2f2053656e642074 ∷ 0x6865206461746120746f ∷ 0x20796f75722041504920
    ∷ 0x656e64706f696e742075 ∷ 0x73696e67206665746368 ∷ 0x206f7220616e6f746865
    ∷ 0x7220414a4158206d6574 ∷ 0x686f640a202020202020 ∷ 0x20206665746368286170
    ∷ 0x6955726c202b2027636f ∷ 0x6e66272c207b200a2020 ∷ 0x20202020202020202020
    ∷ 0x6d6574686f643a202750 ∷ 0x4f5354272c0a20202020 ∷ 0x20202020202020206865
    ∷ 0x61646572733a207b2743 ∷ 0x6f6e74656e742d547970 ∷ 0x65273a20276170706c69
    ∷ 0x636174696f6e2f6a736f ∷ 0x6e277d2c200a20202020 ∷ 0x2020202020202020626f
    ∷ 0x64793a204a534f4e2e73 ∷ 0x7472696e67696679287b ∷ 0x20686f73746e616d652c
    ∷ 0x20737369642c20706173 ∷ 0x73776f72642c20776562 ∷ 0x5f70617373776f72642c
    ∷ 0x2061705f6d6f64652c20 ∷ 0x646d785f6c6f6f70207d ∷ 0x29200a20202020202020
    ∷ 0x207d292e7468656e2866 ∷ 0x756e6374696f6e202872 ∷ 0x6573706f6e736529207b
    ∷ 0x0a202020202020202020 ∷ 0x20202069662028726573 ∷ 0x706f6e73652e6f6b2920
    ∷ 0x7b0a2020202020202020 ∷ 0x20202020202020207365 ∷ 0x7454696d656f75742866
    ∷ 0x756e6374696f6e202829 ∷ 0x207b0a20202020202020 ∷ 0x20202020202020202020
    ∷ 0x2077696e646f772e6c6f ∷ 0x636174696f6e2e687265 ∷ 0x66203d2022696e646578
    ∷ 0x2e68746d6c223b0a2020 ∷ 0x20202020202020202020 ∷ 0x20207d293b0a20202020
    ∷ 0x20202020202020202020 ∷ 0x2020616c657274282253 ∷ 0x657474696e6773207361
    ∷ 0x76656420737563636573 ∷ 0x7366756c6c79215c6e44 ∷ 0x65766963652072657374
    ∷ 0x617274696e6720696e20 ∷ 0x35207365636f6e64732e ∷ 0x2e2e22293b0a20202020
    ∷ 0x20202020202020207d0a ∷ 0x20202020202020207d29 ∷ 0x3b0a202020207d293b0a
    ∷ 0x7d293b0a0a66756e6374 ∷ 0x696f6e20676574436f6f ∷ 0x6b6965286e616d652920
    ∷ 0x7b0a20202020636f6e73 ∷ 0x7420636f6f6b69654e61 ∷ 0x6d65203d206e616d6520
    ∷ 0x2b20223d223b0a202020 ∷ 0x20636f6e737420636f6f ∷ 0x6b69654172726179203d
    ∷ 0x20646f63756d656e742e ∷ 0x636f6f6b69652e73706c ∷ 0x697428223b22293b0a20
    ∷ 0x202020666f7220286c65 ∷ 0x742069203d20303b2069 ∷ 0x203c20636f6f6b696541
    ∷ 0x727261792e6c656e6774 ∷ 0x683b20692b2b29207b0a ∷ 0x2020202020206c657420
    ∷ 0x636f6f6b6965203d2063 ∷ 0x6f6f6b69654172726179 ∷ 0x5b695d3b0a2020202020
    ∷ 0x207768696c652028636f ∷ 0x6f6b69652e6368617241 ∷ 0x74283029203d3d3d2022
    ∷ 0x202229207b0a20202020 ∷ 0x20202020636f6f6b6965 ∷ 0x203d20636f6f6b69652e
    ∷ 0x737562737472696e6728 ∷ 0x31293b0a202020202020 ∷ 0x7d0a2020202020206966
    ∷ 0x2028636f6f6b69652e69 ∷ 0x6e6465784f6628636f6f ∷ 0x6b69654e616d6529203d
    ∷ 0x3d3d203029207b0a2020 ∷ 0x20202020202072657475 ∷ 0x726e20636f6f6b69652e
    ∷ 0x737562737472696e6728 ∷ 0x636f6f6b69654e616d65 ∷ 0x2e6c656e6774682c2063
    ∷ 0x6f6f6b69652e6c656e67 ∷ 0x7468293b0a2020202020 ∷ 0x207d0a202020207d0a20
    ∷ 0x20202072657475726e20 ∷ 0x22223b0a20207d0a2020 ∷ 0x0a20206173796e632066
    ∷ 0x756e6374696f6e206175 ∷ 0x7468656e746963617465 ∷ 0x50617373776f72642868
    ∷ 0x61736865645061737377 ∷ 0x6f726429207b0a202020 ∷ 0x20696620286861736865
    ∷ 0x6450617373776f726429 ∷ 0x207b0a2020202020202f ∷ 0x2f2053656e6420612072
    ∷ 0x65717565737420746f20 ∷ 0x7468652041504920666f ∷ 0x722070617373776f7264
    ∷ 0x20766572696669636174 ∷ 0x696f6e207573696e6720 ∷ 0x7468652070617373776f
    ∷ 0x726420636f6f6b69650a ∷ 0x202020202020636f6e73 ∷ 0x7420726573706f6e7365
    ∷ 0x203d2061776169742066 ∷ 0x65746368286170695572 ∷ 0x6c202b20226175746822
    ∷ 0x2c207b0a202020202020 ∷ 0x20206d6574686f643a20 ∷ 0x22504f5354222c0a2020
    ∷ 0x20202020202068656164 ∷ 0x6572733a207b0a202020 ∷ []
