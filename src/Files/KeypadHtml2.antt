-- ===== src/Files/KeypadHtml2.antt =====
-- ProjectFiles/fsdata_custom.c: part 2 of `data_keypad_html`, a number for each line of ten bytes.
use pico_rfu.Prelude.{ℕ, List, ◌∷◌, []}

-- The lines 2629 to 2661.
unfoldable pub keypad_html_2 : List ℕ
keypad_html_2 =
    0x746f6e206f6e636c6963 ∷ 0x6b3d22617070656e644b ∷ 0x6579282746554c4c2729
    ∷ 0x223e46756c6c3c2f6275 ∷ 0x74746f6e3e0a20202020 ∷ 0x202020203c627574746f
    ∷ 0x6e3e45786370743c2f62 ∷ 0x7574746f6e3e0a202020 ∷ 0x20202020203c62757474
    ∷ 0x6f6e3e4c6576656c3c2f ∷ 0x627574746f6e3e0a2020 ∷ 0x2020202020203c627574
    ∷ 0x746f6e206f6e636c6963 ∷ 0x6b3d2272656c65617365 ∷ 0x2829223e52656c3c2f62
    ∷ 0x7574746f6e3e0a202020 ∷ 0x20202020203c62757474 ∷ 0x6f6e206f6e636c69636b
    ∷ 0x3d22736f6c6f28292220 ∷ 0x69643d22736f6c6f223e ∷ 0x536f6c6f3c2f62757474
    ∷ 0x6f6e3e0a202020202020 ∷ 0x3c2f6469763e0a202020 ∷ 0x203c2f6469763e0a2020
    ∷ 0x20203c64697620636c61 ∷ 0x73733d226368616e6e65 ∷ 0x6c2d646973706c617922
    ∷ 0x3e3c2f6469763e0a2020 ∷ 0x3c2f6469763e0a20203c ∷ 0x73637269707420737263
    ∷ 0x3d226b65797061642e6a ∷ 0x73223e3c2f7363726970 ∷ 0x743e0a3c2f626f64793e ∷ []
