-- ===== src/Files/SettingsHtml.antt =====
-- ProjectFiles/fsdata_custom.c: `data_settings_html`.
use pico_rfu.Prelude.{ℕ, List, ◌++◌}
use pico_rfu.Files.Rows.{bytes, of_rows}
use pico_rfu.Files.SettingsHtml1.{settings_html_1}

-- The name and its NUL, the rows of ten bytes, and what is left.
unfoldable pub data_settings_html : List ℕ
unfolding bytes of_rows settings_html_1
data_settings_html =
    bytes 15 0x2f73657474696e67732e68746d6c00 ++ (of_rows 10 settings_html_1 ++ bytes 1 0x3e)
