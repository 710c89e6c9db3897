-- ===== src/Files/StylesCss1.antt =====
-- ProjectFiles/fsdata_custom.c: part 1 of `data_styles_css`, a number for each line of ten bytes.
use pico_rfu.Prelude.{ℕ, List, ◌∷◌, []}

-- The lines 2208 to 2356.
unfoldable pub styles_css_1 : List ℕ
styles_css_1 =
    0x485454502f312e302032 ∷ 0x3030204f4b0d0a536572 ∷ 0x7665723a206c7749502f
    ∷ 0x7072652d302e36202868 ∷ 0x7474703a2f2f7777772e ∷ 0x736963732e73652f7e61
    ∷ 0x64616d2f6c7769702f29 ∷ 0x0d0a436f6e74656e742d ∷ 0x747970653a2074657874
    ∷ 0x2f6373730d0a0d0a2e63 ∷ 0x6f6e7461696e6572207b ∷ 0x0a2020646973706c6179
    ∷ 0x3a20666c65783b0a2020 ∷ 0x666c65782d6469726563 ∷ 0x74696f6e3a20636f6c75
    ∷ 0x6d6e3b0a2020616c6967 ∷ 0x6e2d6974656d733a2063 ∷ 0x656e7465723b0a20206d
    ∷ 0x617267696e2d746f703a ∷ 0x20353070783b0a7d0a0a ∷ 0x2e636f6e7461696e6572
    ∷ 0x2061207b0a2020746578 ∷ 0x742d6465636f72617469 ∷ 0x6f6e3a206e6f6e653b0a
    ∷ 0x2020636f6c6f723a2077 ∷ 0x686974653b0a20207061 ∷ 0x6464696e673a20313070
    ∷ 0x7820323070783b0a2020 ∷ 0x6261636b67726f756e64 ∷ 0x2d636f6c6f723a202330
    ∷ 0x30353662333b0a20206d ∷ 0x617267696e2d626f7474 ∷ 0x6f6d3a20313070783b0a
    ∷ 0x7d0a0a2e636f6e746169 ∷ 0x6e65722073656c656374 ∷ 0x207b0a2020666f6e742d
    ∷ 0x73697a653a2032307078 ∷ 0x3b0a20206d617267696e ∷ 0x2d626f74746f6d3a2031
    ∷ 0x3070783b0a2020706164 ∷ 0x64696e672d626f74746f ∷ 0x6d3a20313070783b0a7d
    ∷ 0x0a0a2e646973706c6179 ∷ 0x207b0a20207769647468 ∷ 0x3a203830253b0a20206d
    ∷ 0x61782d77696474683a20 ∷ 0x33303070783b0a202068 ∷ 0x65696768743a20353070
    ∷ 0x783b0a2020626f726465 ∷ 0x723a2031707820736f6c ∷ 0x696420626c61636b3b0a
    ∷ 0x20206d617267696e2d62 ∷ 0x6f74746f6d3a20313070 ∷ 0x783b0a20207061646469
    ∷ 0x6e673a20313070783b0a ∷ 0x2020666f6e742d73697a ∷ 0x653a20323470783b0a20
    ∷ 0x206261636b67726f756e ∷ 0x642d636f6c6f723a2023 ∷ 0x6632663266323b0a7d0a
    ∷ 0x0a2e6b65797061642d63 ∷ 0x6f6e7461696e6572207b ∷ 0x0a2020646973706c6179
    ∷ 0x3a20666c65783b0a2020 ∷ 0x6a7573746966792d636f ∷ 0x6e74656e743a2063656e
    ∷ 0x7465723b0a20206d6172 ∷ 0x67696e2d626f74746f6d ∷ 0x3a20313070783b0a7d0a
    ∷ 0x0a2e6b6579706164207b ∷ 0x0a2020646973706c6179 ∷ 0x3a20677269643b0a2020
    ∷ 0x677269642d74656d706c ∷ 0x6174652d636f6c756d6e ∷ 0x733a2072657065617428
    ∷ 0x332c20316672293b0a20 ∷ 0x206f75746c696e653a20 ∷ 0x31707820736f6c696420
    ∷ 0x626c61636b3b0a202070 ∷ 0x616464696e673a203130 ∷ 0x70783b0a20206d617267
    ∷ 0x696e2d72696768743a20 ∷ 0x313070783b0a2020636f ∷ 0x6c756d6e2d6761703a20
    ∷ 0x3570783b202f2a204164 ∷ 0x642073706163696e6720 ∷ 0x6265747765656e207468
    ∷ 0x6520636f6c756d6e7320 ∷ 0x2a2f0a7d0a0a2e6b6579 ∷ 0x70616420627574746f6e
    ∷ 0x2c0a2e6d6163726f2d70 ∷ 0x616420627574746f6e20 ∷ 0x7b0a202077696474683a
    ∷ 0x20363070783b0a202068 ∷ 0x65696768743a20363070 ∷ 0x783b0a2020666f6e742d
    ∷ 0x73697a653a2031387078 ∷ 0x3b0a20206d617267696e ∷ 0x2d626f74746f6d3a2031
    ∷ 0x3070783b0a2020746f75 ∷ 0x63682d616374696f6e3a ∷ 0x206d616e6970756c6174
    ∷ 0x696f6e3b0a2020626163 ∷ 0x6b67726f756e642d636f ∷ 0x6c6f723a202365366536
    ∷ 0x65363b0a2020626f7264 ∷ 0x65723a206e6f6e653b0a ∷ 0x2020626f726465722d72
    ∷ 0x61646975733a20357078 ∷ 0x3b0a2020637572736f72 ∷ 0x3a20706f696e7465723b
    ∷ 0x0a7d0a0a2e6b65797061 ∷ 0x6420627574746f6e3a68 ∷ 0x6f7665722c0a2e6d6163
    ∷ 0x726f2d70616420627574 ∷ 0x746f6e3a686f76657220 ∷ 0x7b0a20206261636b6772
    ∷ 0x6f756e642d636f6c6f72 ∷ 0x3a20236439643964393b ∷ 0x0a7d0a0a2e6d6163726f
    ∷ 0x2d706164207b0a202064 ∷ 0x6973706c61793a206772 ∷ 0x69643b0a202067726964
    ∷ 0x2d74656d706c6174652d ∷ 0x636f6c756d6e733a2072 ∷ 0x657065617428322c2031
    ∷ 0x6672293b0a20206f7574 ∷ 0x6c696e653a2031707820 ∷ 0x736f6c696420626c6163
    ∷ 0x6b3b0a20207061646469 ∷ 0x6e673a20313070783b0a ∷ 0x2020636f6c756d6e2d67
    ∷ 0x61703a203570783b202f ∷ 0x2a204164642073706163 ∷ 0x696e6720626574776565
    ∷ 0x6e2074686520636f6c75 ∷ 0x6d6e73202a2f0a7d0a0a ∷ 0x2e6368616e6e656c2d64
    ∷ 0x6973706c6179207b0a20 ∷ 0x20626f726465722d636f ∷ 0x6c6c617073653a20636f
    ∷ 0x6c6c617073653b0a7d0a ∷ 0x0a2e6368616e6e656c2d ∷ 0x6172726179207b0a2020
    ∷ 0x646973706c61793a2066 ∷ 0x6c65783b0a2020666c65 ∷ []
