-- ===== src/Files/LoginJs4.antt =====
-- ProjectFiles/fsdata_custom.c: part 4 of `data_login_js`, a number for each line of ten bytes.
use pico_rfu.Prelude.{ℕ, List, ◌∷◌, []}

-- The lines 3105 to 3133.
unfoldable pub login_js_4 : List ℕ
login_js_4 =
    0x202727292e7265706c61 ∷ 0x63652870656d466f6f74 ∷ 0x65722c202727292e7472
    ∷ 0x696d28293b0a20202020 ∷ 0x636f6e73742062696e61 ∷ 0x7279537472696e67203d
    ∷ 0x2077696e646f772e6174 ∷ 0x6f622870656d436f6e74 ∷ 0x656e7473293b0a202020
    ∷ 0x20636f6e73742062696e ∷ 0x6172794c656e203d2062 ∷ 0x696e617279537472696e
    ∷ 0x672e6c656e6774683b0a ∷ 0x20202020636f6e737420 ∷ 0x6279746573203d206e65
    ∷ 0x772055696e7438417272 ∷ 0x61792862696e6172794c ∷ 0x656e293b0a2020202066
    ∷ 0x6f7220286c6574206920 ∷ 0x3d20303b2069203c2062 ∷ 0x696e6172794c656e3b20
    ∷ 0x2b2b6929207b0a202020 ∷ 0x20202062797465735b69 ∷ 0x5d203d2062696e617279
    ∷ 0x537472696e672e636861 ∷ 0x72436f64654174286929 ∷ 0x3b0a202020207d0a2020
    ∷ 0x202072657475726e2062 ∷ 0x797465732e6275666665 ∷ []
