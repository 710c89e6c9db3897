-- ===== src/Files/SettingsJs.antt =====
-- ProjectFiles/fsdata_custom.c: `data_settings_js`.
use pico_rfu.Prelude.{ℕ, List, ◌++◌}
use pico_rfu.Files.Rows.{bytes, of_rows}
use pico_rfu.Files.SettingsJs1.{settings_js_1}
use pico_rfu.Files.SettingsJs2.{settings_js_2}
use pico_rfu.Files.SettingsJs3.{settings_js_3}

-- The name and its NUL, the rows of ten bytes, and what is left.
unfoldable pub data_settings_js : List ℕ
unfolding bytes of_rows settings_js_1 settings_js_2 settings_js_3
data_settings_js =
    bytes 13 0x2f73657474696e67732e6a7300
    ++ (of_rows 10 settings_js_1
        ++ (of_rows 10 settings_js_2 ++ (of_rows 10 settings_js_3 ++ bytes 3 0x20207d)))
