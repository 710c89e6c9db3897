-- ===== src/Files/LoginJs.antt =====
-- ProjectFiles/fsdata_custom.c: `data_login_js`.
use pico_rfu.Prelude.{ℕ, List, ◌++◌}
use pico_rfu.Files.Rows.{bytes, of_rows}
use pico_rfu.Files.LoginJs1.{login_js_1}
use pico_rfu.Files.LoginJs2.{login_js_2}
use pico_rfu.Files.LoginJs3.{login_js_3}
use pico_rfu.Files.LoginJs4.{login_js_4}

-- The name and its NUL, the rows of ten bytes, and what is left.
unfoldable pub data_login_js : List ℕ
unfolding bytes of_rows login_js_1 login_js_2 login_js_3 login_js_4
data_login_js =
    bytes 10 0x2f6c6f67696e2e6a7300
    ++ (of_rows 10 login_js_1
        ++ (of_rows 10 login_js_2
            ++ (of_rows 10 login_js_3 ++ (of_rows 10 login_js_4 ++ bytes 9 0x723b0a20207d0a2020))))
