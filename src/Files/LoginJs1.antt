-- ===== src/Files/LoginJs1.antt =====
-- ProjectFiles/fsdata_custom.c: part 1 of `data_login_js`, a number for each line of ten bytes.
use pico_rfu.Prelude.{ℕ, List, ◌∷◌, []}

-- The lines 2664 to 2812.
unfoldable pub login_js_1 : List ℕ
login_js_1 =
    0x485454502f312e302032 ∷ 0x3030204f4b0d0a536572 ∷ 0x7665723a206c7749502f
    ∷ 0x7072652d302e36202868 ∷ 0x7474703a2f2f7777772e ∷ 0x736963732e73652f7e61
    ∷ 0x64616d2f6c7769702f29 ∷ 0x0d0a436f6e74656e742d ∷ 0x747970653a2074657874
    ∷ 0x2f6a6176617363726970 ∷ 0x740d0a0d0a646f63756d ∷ 0x656e742e616464457665
    ∷ 0x6e744c697374656e6572 ∷ 0x2822444f4d436f6e7465 ∷ 0x6e744c6f61646564222c
    ∷ 0x2066756e6374696f6e28 ∷ 0x29207b0a202020202f2f ∷ 0x2046756e6374696f6e20
    ∷ 0x746f2068616e646c6520 ∷ 0x666f726d207375626d69 ∷ 0x7373696f6e0a20202020
    ∷ 0x6173796e632066756e63 ∷ 0x74696f6e207375626d69 ∷ 0x74466f726d286576656e
    ∷ 0x7429207b0a2020202020 ∷ 0x206576656e742e707265 ∷ 0x76656e7444656661756c
    ∷ 0x7428293b202f2f205072 ∷ 0x6576656e742074686520 ∷ 0x666f726d2066726f6d20
    ∷ 0x6265696e67207375626d ∷ 0x69747465640a20200a20 ∷ 0x20202020202f2f204765
    ∷ 0x74207468652070617373 ∷ 0x776f72642076616c7565 ∷ 0x20656e74657265642062
    ∷ 0x79207468652075736572 ∷ 0x0a202020202020636f6e ∷ 0x73742070617373776f72
    ∷ 0x64496e707574203d2064 ∷ 0x6f63756d656e742e6765 ∷ 0x74456c656d656e744279
    ∷ 0x4964282270617373776f ∷ 0x726422292e76616c7565 ∷ 0x3b0a202020202020636f
    ∷ 0x6e737420656e63727970 ∷ 0x74656450617373776f72 ∷ 0x64203d20617761697420
    ∷ 0x656e6372797074506173 ∷ 0x73776f72642870617373 ∷ 0x776f7264496e70757429
    ∷ 0x3b0a2020202020202f2f ∷ 0x2053656e642061207265 ∷ 0x717565737420746f2074
    ∷ 0x68652041504920666f72 ∷ 0x2070617373776f726420 ∷ 0x76657269666963617469
    ∷ 0x6f6e0a20202020202063 ∷ 0x6f6e737420726573706f ∷ 0x6e7365203d2061776169
    ∷ 0x7420666574636828222f ∷ 0x6170692f61757468222c ∷ 0x207b0a20202020202020
    ∷ 0x206d6574686f643a2022 ∷ 0x504f5354222c0a202020 ∷ 0x20202020206865616465
    ∷ 0x72733a207b0a20202020 ∷ 0x20202020202022436f6e ∷ 0x74656e742d5479706522
    ∷ 0x3a20226170706c696361 ∷ 0x74696f6e2f6a736f6e22 ∷ 0x0a20202020202020207d
    ∷ 0x2c0a2020202020202020 ∷ 0x626f64793a204a534f4e ∷ 0x2e737472696e67696679
    ∷ 0x287b2070617373776f72 ∷ 0x643a20656e6372797074 ∷ 0x656450617373776f7264
    ∷ 0x207d290a202020202020 ∷ 0x7d293b0a20200a202020 ∷ 0x20202069662028726573
    ∷ 0x706f6e73652e6f6b2920 ∷ 0x7b0a2020202020202020 ∷ 0x2f2f2053657420612063
    ∷ 0x6f6f6b696520746f2072 ∷ 0x656d656d626572207468 ∷ 0x652070617373776f7264
    ∷ 0x0a202020202020202073 ∷ 0x6574436f6f6b69652822 ∷ 0x7266752d70617373776f
    ∷ 0x7264222c20656e637279 ∷ 0x7074656450617373776f ∷ 0x72642c2037293b202f2f
    ∷ 0x20436f6f6b6965206578 ∷ 0x706972657320696e2037 ∷ 0x20646179730a20200a20
    ∷ 0x202020202020202f2f20 ∷ 0x466f727761726420746f ∷ 0x20746865206b65797061
    ∷ 0x6420706167650a202020 ∷ 0x202020202077696e646f ∷ 0x772e6c6f636174696f6e
    ∷ 0x2e68726566203d20226b ∷ 0x65797061642e68746d6c ∷ 0x223b0a2020202020207d
    ∷ 0x20656c7365207b0a2020 ∷ 0x2020202020202f2f2044 ∷ 0x6973706c617920616e20
    ∷ 0x6572726f72206d657373 ∷ 0x616765206f722074616b ∷ 0x6520617070726f707269
    ∷ 0x61746520616374696f6e ∷ 0x0a202020202020202061 ∷ 0x6c6572742822496e636f
    ∷ 0x72726563742070617373 ∷ 0x776f72642e20506c6561 ∷ 0x73652074727920616761
    ∷ 0x696e2e22293b0a202020 ∷ 0x2020207d0a202020207d ∷ 0x0a20200a202020202f2f
    ∷ 0x2046756e6374696f6e20 ∷ 0x746f2073657420612063 ∷ 0x6f6f6b69650a20202020
    ∷ 0x66756e6374696f6e2073 ∷ 0x6574436f6f6b6965286e ∷ 0x616d652c2076616c7565
    ∷ 0x2c206461797329207b0a ∷ 0x202020202020636f6e73 ∷ 0x742064617465203d206e
    ∷ 0x6577204461746528293b ∷ 0x0a202020202020646174 ∷ 0x652e73657454696d6528
    ∷ 0x646174652e6765745469 ∷ 0x6d652829202b20286461 ∷ 0x7973202a203234202a20
    ∷ 0x3630202a203630202a20 ∷ 0x3130303029293b202f2f ∷ 0x20536574206578706972
    ∷ 0x7920646174650a202020 ∷ 0x202020636f6e73742065 ∷ 0x787069726573203d2022
    ∷ 0x657870697265733d2220 ∷ 0x2b20646174652e746f55 ∷ 0x5443537472696e672829
    ∷ 0x3b0a202020202020646f ∷ 0x63756d656e742e636f6f ∷ []
