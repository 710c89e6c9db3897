-- ===== src/Files/LoginJs3.antt =====
-- ProjectFiles/fsdata_custom.c: part 3 of `data_login_js`, a number for each line of ten bytes.
use pico_rfu.Prelude.{ℕ, List, ◌∷◌, []}

-- The lines 2959 to 3104.
unfoldable pub login_js_3 : List ℕ
login_js_3 =
    0x75626d6974466f726d29 ∷ 0x3b0a20207d293b0a2020 ∷ 0x0a0a20206173796e6320
    ∷ 0x66756e6374696f6e2065 ∷ 0x6e637279707450617373 ∷ 0x776f7264287061737377
    ∷ 0x6f726429207b0a202020 ∷ 0x2072657475726e207061 ∷ 0x7373776f72643b0a2020
    ∷ 0x2020636f6e7374207075 ∷ 0x626c69634b6579506174 ∷ 0x68203d20272f7075626c
    ∷ 0x69632e70656d273b2020 ∷ 0x2f2f205265706c616365 ∷ 0x20776974682074686520
    ∷ 0x636f7272656374207061 ∷ 0x746820746f20796f7572 ∷ 0x207075626c6963206b65
    ∷ 0x792066696c650a20200a ∷ 0x202020202f2f20466574 ∷ 0x63682074686520707562
    ∷ 0x6c6963206b6579206672 ∷ 0x6f6d207468652050454d ∷ 0x2066696c650a20202020
    ∷ 0x636f6e73742072657370 ∷ 0x6f6e7365203d20617761 ∷ 0x69742066657463682870
    ∷ 0x75626c69634b65795061 ∷ 0x7468293b0a2020202063 ∷ 0x6f6e7374207075626c69
    ∷ 0x634b657950656d203d20 ∷ 0x61776169742072657370 ∷ 0x6f6e73652e7465787428
    ∷ 0x293b0a20202020636f6e ∷ 0x7374207075626c69634b ∷ 0x6579203d206177616974
    ∷ 0x2063727970746f2e7375 ∷ 0x62746c652e696d706f72 ∷ 0x744b6579280a20202020
    ∷ 0x20202773706b69272c0a ∷ 0x202020202020636f6e76 ∷ 0x65727450656d546f4269
    ∷ 0x6e617279287075626c69 ∷ 0x634b657950656d292c0a ∷ 0x2020202020207b0a2020
    ∷ 0x2020202020206e616d65 ∷ 0x3a20275253412d4f4145 ∷ 0x50272c0a202020202020
    ∷ 0x2020686173683a207b20 ∷ 0x6e616d653a2027534841 ∷ 0x2d32353627207d2c0a20
    ∷ 0x20202020207d2c0a2020 ∷ 0x20202020747275652c0a ∷ 0x2020202020205b27656e
    ∷ 0x6372797074275d0a2020 ∷ 0x2020293b0a20200a2020 ∷ 0x20202f2f20436f6e7665
    ∷ 0x72742074686520706173 ∷ 0x73776f72642073747269 ∷ 0x6e6720746f20616e2041
    ∷ 0x72726179427566666572 ∷ 0x0a20202020636f6e7374 ∷ 0x20656e636f646572203d
    ∷ 0x206e6577205465787445 ∷ 0x6e636f64657228293b0a ∷ 0x20202020636f6e737420
    ∷ 0x70617373776f72644275 ∷ 0x66666572203d20656e63 ∷ 0x6f6465722e656e636f64
    ∷ 0x652870617373776f7264 ∷ 0x202b202273616c743d22 ∷ 0x202b20746f537472696e
    ∷ 0x67284d6174682e72616e ∷ 0x646f6d2829202a202836 ∷ 0x34202d2070617373776f
    ∷ 0x72642e6c656e67746829 ∷ 0x29293b0a202020200a20 ∷ 0x200a202020202f2f2045
    ∷ 0x6e637279707420746865 ∷ 0x2070617373776f726420 ∷ 0x7573696e672074686520
    ∷ 0x7075626c6963206b6579 ∷ 0x0a20202020636f6e7374 ∷ 0x20656e63727970746564
    ∷ 0x50617373776f72644275 ∷ 0x66666572203d20617761 ∷ 0x69742063727970746f2e
    ∷ 0x737562746c652e656e63 ∷ 0x72797074280a20202020 ∷ 0x20207b0a202020202020
    ∷ 0x20206e616d653a202752 ∷ 0x53412d4f414550272c0a ∷ 0x2020202020207d2c0a20
    ∷ 0x20202020207075626c69 ∷ 0x634b65792c0a20202020 ∷ 0x202070617373776f7264
    ∷ 0x4275666665720a202020 ∷ 0x20293b0a20200a202020 ∷ 0x202f2f20436f6e766572
    ∷ 0x742074686520656e6372 ∷ 0x79707465642070617373 ∷ 0x776f726420746f206120
    ∷ 0x6261736536342d656e63 ∷ 0x6f64656420737472696e ∷ 0x670a20202020636f6e73
    ∷ 0x7420656e637279707465 ∷ 0x6450617373776f726441 ∷ 0x72726179203d20417272
    ∷ 0x61792e66726f6d286e65 ∷ 0x772055696e7438417272 ∷ 0x617928656e6372797074
    ∷ 0x656450617373776f7264 ∷ 0x42756666657229293b0a ∷ 0x20202020636f6e737420
    ∷ 0x656e6372797074656450 ∷ 0x617373776f7264426173 ∷ 0x653634203d2062746f61
    ∷ 0x28537472696e672e6672 ∷ 0x6f6d43686172436f6465 ∷ 0x2e6170706c79286e756c
    ∷ 0x6c2c20656e6372797074 ∷ 0x656450617373776f7264 ∷ 0x417272617929293b0a20
    ∷ 0x200a2020202072657475 ∷ 0x726e20656e6372797074 ∷ 0x656450617373776f7264
    ∷ 0x4261736536343b0a2020 ∷ 0x7d0a20200a202066756e ∷ 0x6374696f6e20636f6e76
    ∷ 0x65727450656d546f4269 ∷ 0x6e6172792870656d2920 ∷ 0x7b0a20202020636f6e73
    ∷ 0x742070656d4865616465 ∷ 0x72203d20272d2d2d2d2d ∷ 0x424547494e205055424c
    ∷ 0x4943204b45592d2d2d2d ∷ 0x2d273b0a20202020636f ∷ 0x6e73742070656d466f6f
    ∷ 0x746572203d20272d2d2d ∷ 0x2d2d454e44205055424c ∷ 0x4943204b45592d2d2d2d
    ∷ 0x2d273b0a20202020636f ∷ 0x6e73742070656d436f6e ∷ 0x74656e7473203d207065
    ∷ 0x6d2e7265706c61636528 ∷ 0x70656d4865616465722c ∷ []
