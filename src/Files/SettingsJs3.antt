-- ===== src/Files/SettingsJs3.antt =====
-- ProjectFiles/fsdata_custom.c: part 3 of `data_settings_js`, a number for each line of ten bytes.
use pico_rfu.Prelude.{ℕ, List, ◌∷◌, []}

-- The lines 3575 to 3597.
unfoldable pub settings_js_3 : List ℕ
settings_js_3 =
    0x2020202020202022436f ∷ 0x6e74656e742d54797065 ∷ 0x223a20226170706c6963
    ∷ 0x6174696f6e2f6a736f6e ∷ 0x220a2020202020202020 ∷ 0x7d2c0a20202020202020
    ∷ 0x20626f64793a204a534f ∷ 0x4e2e737472696e676966 ∷ 0x79287b2070617373776f
    ∷ 0x72643a20686173686564 ∷ 0x50617373776f7264207d ∷ 0x290a2020202020207d29
    ∷ 0x3b0a20200a2020202020 ∷ 0x2069662028726573706f ∷ 0x6e73652e6f6b29207b0a
    ∷ 0x20202020202020207265 ∷ 0x7475726e3b0a20202020 ∷ 0x20207d20656c73650a20
    ∷ 0x2020202020202077696e ∷ 0x646f772e6c6f63617469 ∷ 0x6f6e2e68726566203d20
    ∷ 0x22696e6465782e68746d ∷ 0x6c223b0a202020207d0a ∷ []
