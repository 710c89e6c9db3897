-- ===== src/Files/StylesCss.antt =====
-- ProjectFiles/fsdata_custom.c: `data_styles_css`.
use pico_rfu.Prelude.{ℕ, List, ◌++◌}
use pico_rfu.Files.Rows.{bytes, of_rows}
use pico_rfu.Files.StylesCss1.{styles_css_1}
use pico_rfu.Files.StylesCss2.{styles_css_2}

-- The name and its NUL, the rows of ten bytes, and what is left.
unfoldable pub data_styles_css : List ℕ
unfolding bytes of_rows styles_css_1 styles_css_2
data_styles_css =
    bytes 12 0x2f7374796c65732e63737300
    ++ (of_rows 10 styles_css_1 ++ (of_rows 10 styles_css_2 ++ bytes 4 0x333b0a7d))
