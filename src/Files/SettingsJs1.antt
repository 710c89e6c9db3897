-- ===== src/Files/SettingsJs1.antt =====
-- ProjectFiles/fsdata_custom.c: part 1 of `data_settings_js`, a number for each line of ten bytes.
use pico_rfu.Prelude.{ℕ, List, ◌∷◌, []}

-- The lines 3280 to 3428.
unfoldable pub settings_js_1 : List ℕ
settings_js_1 =
    0x485454502f312e302032 ∷ 0x3030204f4b0d0a536572 ∷ 0x7665723a206c7749502f
    ∷ 0x7072652d302e36202868 ∷ 0x7474703a2f2f7777772e ∷ 0x736963732e73652f7e61
    ∷ 0x64616d2f6c7769702f29 ∷ 0x0d0a436f6e74656e742d ∷ 0x747970653a2074657874
    ∷ 0x2f6a6176617363726970 ∷ 0x740d0a0d0a636f6e7374 ∷ 0x20686f7374203d207769
    ∷ 0x6e646f772e6c6f636174 ∷ 0x696f6e2e686f73746e61 ∷ 0x6d653b0a636f6e737420
    ∷ 0x706f7274203d2077696e ∷ 0x646f772e6c6f63617469 ∷ 0x6f6e2e706f72743b0a6c
    ∷ 0x65742061706955726c20 ∷ 0x3d2060687474703a2f2f ∷ 0x247b686f73747d3a247b
    ∷ 0x706f72747d2f6170692f ∷ 0x603b0a0a636f6e737420 ∷ 0x70617373776f7264436f
    ∷ 0x6f6b6965203d20676574 ∷ 0x436f6f6b696528227266 ∷ 0x752d70617373776f7264
    ∷ 0x22293b0a696620282170 ∷ 0x617373776f7264436f6f ∷ 0x6b696529207b0a202077
    ∷ 0x696e646f772e6c6f6361 ∷ 0x74696f6e2e6872656620 ∷ 0x3d2022696e6465782e68
    ∷ 0x746d6c223b0a7d0a6175 ∷ 0x7468656e746963617465 ∷ 0x50617373776f72642870
    ∷ 0x617373776f7264436f6f ∷ 0x6b6965293b0a0a646f63 ∷ 0x756d656e742e67657445
    ∷ 0x6c656d656e7442794964 ∷ 0x282261705f6d6f646522 ∷ 0x292e636865636b656420
    ∷ 0x3d20747275653b0a0a2f ∷ 0x2a20544f444f202d2049 ∷ 0x6d706c656d656e742074
    ∷ 0x68652041504920456e64 ∷ 0x706f696e7420666f7220 ∷ 0x746869730a2f2f204765
    ∷ 0x74207468652063757272 ∷ 0x656e742073657474696e ∷ 0x67732066726f6d207468
    ∷ 0x65204150490a66657463 ∷ 0x682861706955726c202b ∷ 0x2027636f6e6627290a20
    ∷ 0x2020202e7468656e2866 ∷ 0x756e6374696f6e202872 ∷ 0x6573706f6e736529207b
    ∷ 0x0a202020202020202072 ∷ 0x657475726e2072657370 ∷ 0x6f6e73652e6a736f6e28
    ∷ 0x293b0a202020207d290a ∷ 0x202020202e7468656e28 ∷ 0x66756e6374696f6e2028
    ∷ 0x6461746129207b0a2020 ∷ 0x202020202020646f6375 ∷ 0x6d656e742e676574456c
    ∷ 0x656d656e744279496428 ∷ 0x22686f73746e616d6522 ∷ 0x292e76616c7565203d20
    ∷ 0x646174612e686f73746e ∷ 0x616d653b0a2020202020 ∷ 0x202020646f63756d656e
    ∷ 0x742e676574456c656d65 ∷ 0x6e744279496428227373 ∷ 0x696422292e76616c7565
    ∷ 0x203d20646174612e7373 ∷ 0x69643b0a202020202020 ∷ 0x2020646f63756d656e74
    ∷ 0x2e676574456c656d656e ∷ 0x74427949642822706173 ∷ 0x73776f726422292e7661
    ∷ 0x6c7565203d2064617461 ∷ 0x2e70617373776f72643b ∷ 0x0a202020202020202064
    ∷ 0x6f63756d656e742e6765 ∷ 0x74456c656d656e744279 ∷ 0x496428227765625f7061
    ∷ 0x7373776f726422292e76 ∷ 0x616c7565203d20646174 ∷ 0x612e7765625f70617373
    ∷ 0x776f72643b0a20202020 ∷ 0x20202020646f63756d65 ∷ 0x6e742e676574456c656d
    ∷ 0x656e7442794964282261 ∷ 0x705f6d6f646522292e63 ∷ 0x6865636b6564203d2064
    ∷ 0x6174612e61705f6d6f64 ∷ 0x653b0a202020207d293b ∷ 0x0a2a2f0a646f63756d65
    ∷ 0x6e742e6164644576656e ∷ 0x744c697374656e657228 ∷ 0x22444f4d436f6e74656e
    ∷ 0x744c6f61646564222c20 ∷ 0x66756e6374696f6e2028 ∷ 0x29207b0a20202020636f
    ∷ 0x6e737420666f726d203d ∷ 0x20646f63756d656e742e ∷ 0x676574456c656d656e74
    ∷ 0x42794964282273657474 ∷ 0x696e67732d666f726d22 ∷ 0x293b0a0a20202020666f
    ∷ 0x726d2e6164644576656e ∷ 0x744c697374656e657228 ∷ 0x227375626d6974222c20
    ∷ 0x66756e6374696f6e2028 ∷ 0x6576656e7429207b0a20 ∷ 0x20202020202020657665
    ∷ 0x6e742e70726576656e74 ∷ 0x44656661756c7428293b ∷ 0x0a0a2020202020202020
    ∷ 0x636f6e737420686f7374 ∷ 0x6e616d65203d20646f63 ∷ 0x756d656e742e67657445
    ∷ 0x6c656d656e7442794964 ∷ 0x2822686f73746e616d65 ∷ 0x22292e76616c75653b0a
    ∷ 0x2020202020202020636f ∷ 0x6e73742073736964203d ∷ 0x20646f63756d656e742e
    ∷ 0x676574456c656d656e74 ∷ 0x42794964282273736964 ∷ 0x22292e76616c75653b0a
    ∷ 0x2020202020202020636f ∷ 0x6e73742070617373776f ∷ 0x7264203d20646f63756d
    ∷ 0x656e742e676574456c65 ∷ 0x6d656e74427949642822 ∷ 0x70617373776f72642229
    ∷ 0x2e76616c75653b0a2020 ∷ 0x202020202020636f6e73 ∷ 0x74207765625f70617373
    ∷ 0x776f7264203d20646f63 ∷ 0x756d656e742e67657445 ∷ 0x6c656d656e7442794964
    ∷ 0x28227765625f70617373 ∷ 0x776f726422292e76616c ∷ []
