-- ===== src/Files/KeypadJs.antt =====
-- ProjectFiles/fsdata_custom.c: `data_keypad_js`.
use pico_rfu.Prelude.{ℕ, List, ◌++◌}
use pico_rfu.Files.Rows.{bytes, of_rows}
use pico_rfu.Files.KeypadJs1.{keypad_js_1}
use pico_rfu.Files.KeypadJs2.{keypad_js_2}
use pico_rfu.Files.KeypadJs3.{keypad_js_3}
use pico_rfu.Files.KeypadJs4.{keypad_js_4}
use pico_rfu.Files.KeypadJs5.{keypad_js_5}

-- The name and its NUL, the rows of ten bytes, and what is left.
unfoldable pub data_keypad_js : List ℕ
unfolding bytes of_rows keypad_js_1 keypad_js_2 keypad_js_3 keypad_js_4 keypad_js_5
data_keypad_js =
    bytes 11 0x2f6b65797061642e6a7300
    ++ (of_rows 10 keypad_js_1
        ++ (of_rows 10 keypad_js_2
            ++ (of_rows 10 keypad_js_3
                ++ (of_rows 10 keypad_js_4
                    ++ (of_rows 10 keypad_js_5 ++ bytes 8 0x223b0a20207d0a7d)))))
