-- ===== src/Files/KeypadHtml.antt =====
-- ProjectFiles/fsdata_custom.c: `data_keypad_html`.
use pico_rfu.Prelude.{ℕ, List, ◌++◌}
use pico_rfu.Files.Rows.{bytes, of_rows}
use pico_rfu.Files.KeypadHtml1.{keypad_html_1}
use pico_rfu.Files.KeypadHtml2.{keypad_html_2}

-- The name and its NUL, the rows of ten bytes, and what is left.
unfoldable pub data_keypad_html : List ℕ
unfolding bytes of_rows keypad_html_1 keypad_html_2
data_keypad_html =
    bytes 13 0x2f6b65797061642e68746d6c00
    ++ (of_rows 10 keypad_html_1 ++ (of_rows 10 keypad_html_2 ++ bytes 9 0x0a3c2f68746d6c3e0a))
