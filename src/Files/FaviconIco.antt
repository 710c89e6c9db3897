-- ===== src/Files/FaviconIco.antt =====
-- ProjectFiles/fsdata_custom.c: `data_favicon_ico`.
use pico_rfu.Prelude.{ℕ, List, ◌++◌}
use pico_rfu.Files.Rows.{bytes, of_rows}
use pico_rfu.Files.FaviconIco1.{favicon_ico_1}
use pico_rfu.Files.FaviconIco2.{favicon_ico_2}
use pico_rfu.Files.FaviconIco3.{favicon_ico_3}
use pico_rfu.Files.FaviconIco4.{favicon_ico_4}
use pico_rfu.Files.FaviconIco5.{favicon_ico_5}
use pico_rfu.Files.FaviconIco6.{favicon_ico_6}
use pico_rfu.Files.FaviconIco7.{favicon_ico_7}
use pico_rfu.Files.FaviconIco8.{favicon_ico_8}
use pico_rfu.Files.FaviconIco9.{favicon_ico_9}
use pico_rfu.Files.FaviconIco10.{favicon_ico_10}
use pico_rfu.Files.FaviconIco11.{favicon_ico_11}

-- The name and its NUL, the rows of ten bytes, and what is left.
unfoldable pub data_favicon_ico : List ℕ
unfolding bytes of_rows favicon_ico_1 favicon_ico_2 favicon_ico_3 favicon_ico_4 favicon_ico_5
    favicon_ico_6 favicon_ico_7 favicon_ico_8 favicon_ico_9 favicon_ico_10 favicon_ico_11
data_favicon_ico =
    bytes 13 0x2f66617669636f6e2e69636f00
    ++ (of_rows 10 favicon_ico_1
        ++ (of_rows 10 favicon_ico_2
            ++ (of_rows 10 favicon_ico_3
                ++ (of_rows 10 favicon_ico_4
                    ++ (of_rows 10 favicon_ico_5
                        ++ (of_rows 10 favicon_ico_6
                            ++ (of_rows 10 favicon_ico_7
                                ++ (of_rows 10 favicon_ico_8
                                    ++ (of_rows 10 favicon_ico_9
                                        ++ (of_rows 10 favicon_ico_10
                                            ++ (of_rows 10 favicon_ico_11
                                                ++ bytes 6 0x000000000000)))))))))))
