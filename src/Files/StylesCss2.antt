-- ===== src/Files/StylesCss2.antt =====
-- ProjectFiles/fsdata_custom.c: part 2 of `data_styles_css`, a number for each line of ten bytes.
use pico_rfu.Prelude.{ℕ, List, ◌∷◌, []}

-- The lines 2357 to 2477.
unfoldable pub styles_css_2 : List ℕ
styles_css_2 =
    0x782d777261703a207772 ∷ 0x61703b0a20206761703a ∷ 0x20313070783b0a7d0a0a
    ∷ 0x2e6368616e6e656c207b ∷ 0x0a202070616464696e67 ∷ 0x3a203870783b0a7d0a0a
    ∷ 0x2e6368616e6e656c2070 ∷ 0x207b0a20206d61726769 ∷ 0x6e3a20303b0a7d0a0a2f
    ∷ 0x2a204d65646961207175 ∷ 0x6572696573202a2f0a40 ∷ 0x6d65646961206f6e6c79
    ∷ 0x2073637265656e20616e ∷ 0x6420286d61782d776964 ∷ 0x74683a20363030707829
    ∷ 0x207b0a20202e636f6e74 ∷ 0x61696e6572207b0a2020 ∷ 0x20206d617267696e2d74
    ∷ 0x6f703a20323070783b0a ∷ 0x20207d0a0a20202e6469 ∷ 0x73706c6179207b0a2020
    ∷ 0x202077696474683a2039 ∷ 0x30253b0a202020206d61 ∷ 0x782d77696474683a206e
    ∷ 0x6f6e653b0a2020202066 ∷ 0x6f6e742d73697a653a20 ∷ 0x323070783b0a20207d0a
    ∷ 0x0a20202e6b6579706164 ∷ 0x2d636f6e7461696e6572 ∷ 0x207b0a20202020666c65
    ∷ 0x782d646972656374696f ∷ 0x6e3a20636f6c756d6e3b ∷ 0x0a20202020616c69676e
    ∷ 0x2d6974656d733a206365 ∷ 0x6e7465723b0a20207d0a ∷ 0x0a20202e6b6579706164
    ∷ 0x2c0a20202e6d6163726f ∷ 0x2d706164207b0a202020 ∷ 0x2077696474683a203930
    ∷ 0x253b0a202020206d6178 ∷ 0x2d77696474683a206e6f ∷ 0x6e653b0a202020206d61
    ∷ 0x7267696e2d7269676874 ∷ 0x3a20303b0a2020202063 ∷ 0x6f6c756d6e2d6761703a
    ∷ 0x203470783b202f2a2041 ∷ 0x64642073706163696e67 ∷ 0x206265747765656e2074
    ∷ 0x686520636f6c756d6e73 ∷ 0x202a2f0a20207d0a0a20 ∷ 0x202e6b65797061642062
    ∷ 0x7574746f6e2c0a20202e ∷ 0x6d6163726f2d70616420 ∷ 0x627574746f6e207b0a20
    ∷ 0x20202077696474683a20 ∷ 0x353070783b0a20202020 ∷ 0x6865696768743a203530
    ∷ 0x70783b0a20202020666f ∷ 0x6e742d73697a653a2031 ∷ 0x3670783b0a202020206d
    ∷ 0x617267696e2d626f7474 ∷ 0x6f6d3a203570783b0a20 ∷ 0x207d0a0a20202e6d6163
    ∷ 0x726f2d706164207b0a20 ∷ 0x2020206d617267696e2d ∷ 0x746f703a20313070783b
    ∷ 0x0a20207d0a7d0a0a0a2f ∷ 0x2a2073657474696e6773 ∷ 0x2e637373202a2f0a2e73
    ∷ 0x657474696e67732d7061 ∷ 0x676520626f6479207b0a ∷ 0x2020666f6e742d66616d
    ∷ 0x696c793a20417269616c ∷ 0x2c2073616e732d736572 ∷ 0x69663b0a20206d617267
    ∷ 0x696e3a20303b0a202070 ∷ 0x616464696e673a203230 ∷ 0x70783b0a202064697370
    ∷ 0x6c61793a20666c65783b ∷ 0x0a2020666c65782d6469 ∷ 0x72656374696f6e3a2063
    ∷ 0x6f6c756d6e3b0a202061 ∷ 0x6c69676e2d6974656d73 ∷ 0x3a2063656e7465723b0a
    ∷ 0x7d0a0a2e73657474696e ∷ 0x67732d70616765206831 ∷ 0x207b0a2020746578742d
    ∷ 0x616c69676e3a2063656e ∷ 0x7465723b0a7d0a0a2e73 ∷ 0x657474696e67732d7061
    ∷ 0x676520666f726d207b0a ∷ 0x20206d61782d77696474 ∷ 0x683a2034303070783b0a
    ∷ 0x20206d617267696e3a20 ∷ 0x30206175746f3b0a7d0a ∷ 0x0a2e73657474696e6773
    ∷ 0x2d70616765206c616265 ∷ 0x6c2c20696e707574207b ∷ 0x0a2020646973706c6179
    ∷ 0x3a20626c6f636b3b0a20 ∷ 0x206d617267696e2d626f ∷ 0x74746f6d3a2031307078
    ∷ 0x3b0a7d0a0a2e73657474 ∷ 0x696e67732d7061676520 ∷ 0x627574746f6e207b0a20
    ∷ 0x206261636b67726f756e ∷ 0x642d636f6c6f723a2023 ∷ 0x3030376266663b0a2020
    ∷ 0x636f6c6f723a20776869 ∷ 0x74653b0a202070616464 ∷ 0x696e673a203130707820
    ∷ 0x323070783b0a2020626f ∷ 0x726465723a206e6f6e65 ∷ 0x3b0a2020637572736f72
    ∷ 0x3a20706f696e7465723b ∷ 0x0a7d0a0a2e7365747469 ∷ 0x6e67732d706167652062
    ∷ 0x7574746f6e3a686f7665 ∷ 0x72207b0a20206261636b ∷ 0x67726f756e642d636f6c
    ∷ 0x6f723a20233030353662 ∷ []
