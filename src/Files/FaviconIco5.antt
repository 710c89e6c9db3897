-- ===== src/Files/FaviconIco5.antt =====
-- ProjectFiles/fsdata_custom.c: part 5 of `data_favicon_ico`, a number for each line of ten bytes.
use pico_rfu.Prelude.{ℕ, List, ◌∷◌, []}

-- The lines 588 to 733.
unfoldable pub favicon_ico_5 : List ℕ
favicon_ico_5 =
    0xffffffffffffffffffff ∷ 0xffffffffffffffffffff ∷ 0xffffffffffffffffffff
    ∷ 0xffffffffffffffffffff ∷ 0xffffffffffffffffffff ∷ 0xffffffffffffffffffff
    ∷ 0xffffffffffffffffffff ∷ 0xffffffffffffffffffff ∷ 0xffffffffffffffffffff
    ∷ 0xffffffffffffffffffff ∷ 0xffffffffffffffffffff ∷ 0xffffffffffffffffffff
    ∷ 0xffffffffffffffffffff ∷ 0xffffffffffffffffffff ∷ 0xffffffffffffffffffff
    ∷ 0xffffffffffffffffffff ∷ 0xffffffffffffffffffff ∷ 0xffffffffffffffffffff
    ∷ 0xffffffffffffffffffff ∷ 0xffffffffffffffffffff ∷ 0xffffffffffffffffffff
    ∷ 0xffffffffffffffffffff ∷ 0xffffffffffffffffffff ∷ 0xffffffffffffffffffff
    ∷ 0xffffffffffffffffffff ∷ 0xffffffffffffffffffff ∷ 0xffffffffffffffffffff
    ∷ 0xffffffffffffffffffff ∷ 0xffffffffffffffffffff ∷ 0xffffffffffffffffffff
    ∷ 0xffffffffffffffffffff ∷ 0xffffffffffffffffffff ∷ 0xffffffffffffffffffff
    ∷ 0xffffffffffffffffffff ∷ 0xffffffffffffffffffff ∷ 0xffffffffffffffffffff
    ∷ 0xffffffffffffffffffff ∷ 0xffffffffffffffffffff ∷ 0xffffffffffffffffffff
    ∷ 0xffffffffffffffffffff ∷ 0xffffffffffffffffffff ∷ 0xffffffffffffffffffff
    ∷ 0xffffffffffffffffffff ∷ 0xffffffffffffffffffff ∷ 0xffffffffffffffffffff
    ∷ 0xffffffffffffffffffff ∷ 0xffffffffffffffffffff ∷ 0xffffffffffffffffffff
    ∷ 0xffffffffffffffffffff ∷ 0xffffffffffffffffffff ∷ 0xffffffffffffffffffff
    ∷ 0xffffffffffffffffffff ∷ 0xffffffffffffffffffff ∷ 0xffffffffffffffffffff
    ∷ 0xffffffffffffffffffff ∷ 0xffffffffffffffffffff ∷ 0xffffffffffffffffffff
    ∷ 0xffffffffffffffffffff ∷ 0xffffffffffffffffffff ∷ 0xffffffffffffffffffff
    ∷ 0xffffffffffffffffffff ∷ 0xffffffffffffffffffff ∷ 0xffffffffffffffffffff
    ∷ 0xffffffffffffffffffff ∷ 0xffffffffffffffffffff ∷ 0xffffffffffffffffffff
    ∷ 0xffffffffffffffffffff ∷ 0xffffffffffffffffffff ∷ 0xffffffffffffffffffff
    ∷ 0xffffffffffffffffffff ∷ 0xffffffffffffffffffff ∷ 0xffffffffffffffffffff
    ∷ 0xffffffffffffffffffff ∷ 0xffffffffffffffffffff ∷ 0xffffffffffffffffffff
    ∷ 0xffffffffffffffffffff ∷ 0xffffffffffffffffffff ∷ 0xffffffffffffffffffff
    ∷ 0xffffffffffffffffffff ∷ 0xffffffffffffffffffff ∷ 0xffffffffffffffffffff
    ∷ 0xffffffffffffffffffff ∷ 0xffffffffffffffffffff ∷ 0xffffffffffffffffffff
    ∷ 0xffffffffffffffffffff ∷ 0xffffffffffffffffffff ∷ 0xffffffffffffffffffff
    ∷ 0xffffffffffffffffffff ∷ 0xffffffffffffffffffff ∷ 0xffffffffffffffffffff
    ∷ 0xffffffffffffffffffff ∷ 0xffffffffffffffffffff ∷ 0xffffffffffffffffffff
    ∷ 0xffffffffffffffffffff ∷ 0xffffffffffffffffffff ∷ 0xffffffffffffffffffff
    ∷ 0xffffffffffffffffffff ∷ 0xffffffffffffffffffff ∷ 0xffffffffffffffffffff
    ∷ 0xffffffffffffffffffff ∷ 0xffffffffffffffffffff ∷ 0xffffffffffffffffffff
    ∷ 0xffffffffffffffffffff ∷ 0xffffffffffffffffffff ∷ 0xffffffffffffffffffff
    ∷ 0xffffffffffffffffffff ∷ 0xffffffffffffffffffff ∷ 0xffffffffffffffffffff
    ∷ 0xffffffffffffffffffff ∷ 0xffffffffffffffffffff ∷ 0xffffffffffffffffffff
    ∷ 0xffffffffffffffffffff ∷ 0xffffffffffffffffffff ∷ 0xffffffffffffffffffff
    ∷ 0xffffffffffffffffffff ∷ 0xffffffffffffffffffff ∷ 0xffffffffffffffffffff
    ∷ 0xffffffffffffffffffff ∷ 0xffffffffffffffffffff ∷ 0xffffffffffffffffffff
    ∷ 0xffffffffffffffffffff ∷ 0xffffffffffffffffffff ∷ 0xffffffffffffffffffff
    ∷ 0xffffffffffffffffffff ∷ 0xffffffffffffffffffff ∷ 0xffffffffffffffffffff
    ∷ 0xffffffffffffffffffff ∷ 0xffffffffffffffffffff ∷ 0xffffffffffffffffffff
    ∷ 0xffffffffffffffffffff ∷ 0xffffffffffffffffffff ∷ 0xffffffffffffffffffff
    ∷ 0xffffffffffffffffffff ∷ 0xffffffffffffffffffff ∷ 0xffffffffffffffffffff
    ∷ 0xffffffffffffffffffff ∷ 0xffffffffffffffffffff ∷ 0xffffffffffffffffffff
    ∷ 0xffffffffffffffffffff ∷ 0xffffffffffffffffffff ∷ 0xffffffffffffffffffff
    ∷ 0xffffffffffffffffffff ∷ 0xffffffffffffffffffff ∷ 0xffffffffffffffffffff
    ∷ 0xffffffffffffffffffff ∷ 0xffffffffffffffffffff ∷ []
