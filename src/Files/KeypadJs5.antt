-- ===== src/Files/KeypadJs5.antt =====
-- ProjectFiles/fsdata_custom.c: part 5 of `data_keypad_js`, a number for each line of ten bytes.
use pico_rfu.Prelude.{ℕ, List, ◌∷◌, []}

-- The lines 2143 to 2149.
unfoldable pub keypad_js_5 : List ℕ
keypad_js_5 =
    0x6b29207b0a2020202020 ∷ 0x2072657475726e3b0a20 ∷ 0x2020207d20656c73650a
    ∷ 0x20202020202077696e64 ∷ 0x6f772e6c6f636174696f ∷ 0x6e2e68726566203d2022
    ∷ 0x696e6465782e68746d6c ∷ []
