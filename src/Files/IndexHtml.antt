-- ===== src/Files/IndexHtml.antt =====
-- ProjectFiles/fsdata_custom.c: `data_index_html`.
use pico_rfu.Prelude.{ℕ, List, ◌++◌}
use pico_rfu.Files.Rows.{bytes, of_rows}
use pico_rfu.Files.IndexHtml1.{index_html_1}

-- The name and its NUL, the rows of ten bytes, and what is left.
unfoldable pub data_index_html : List ℕ
unfolding bytes of_rows index_html_1
data_index_html =
    bytes 12 0x2f696e6465782e68746d6c00 ++ (of_rows 10 index_html_1 ++ bytes 7 0x2f68746d6c3e0a)
