-- ===== src/Files/KeypadHtml1.antt =====
-- ProjectFiles/fsdata_custom.c: part 1 of `data_keypad_html`, a number for each line of ten bytes.
use pico_rfu.Prelude.{ℕ, List, ◌∷◌, []}

-- The lines 2480 to 2628.
unfoldable pub keypad_html_1 : List ℕ
keypad_html_1 =
    0x485454502f312e302032 ∷ 0x3030204f4b0d0a536572 ∷ 0x7665723a206c7749502f
    ∷ 0x7072652d302e36202868 ∷ 0x7474703a2f2f7777772e ∷ 0x736963732e73652f7e61
    ∷ 0x64616d2f6c7769702f29 ∷ 0x0d0a436f6e74656e742d ∷ 0x747970653a2074657874
    ∷ 0x2f68746d6c0d0a0d0a3c ∷ 0x21444f43545950452068 ∷ 0x746d6c3e0a3c68746d6c
    ∷ 0x3e0a3c686561643e0a20 ∷ 0x203c7469746c653e4b65 ∷ 0x79706164204578616d70
    ∷ 0x6c653c2f7469746c653e ∷ 0x0a20203c6c696e6b2072 ∷ 0x656c3d227374796c6573
    ∷ 0x68656574222074797065 ∷ 0x3d22746578742f637373 ∷ 0x2220687265663d227374
    ∷ 0x796c65732e637373223e ∷ 0x0a3c2f686561643e0a3c ∷ 0x626f64793e0a20203c64
    ∷ 0x697620636c6173733d22 ∷ 0x636f6e7461696e657222 ∷ 0x3e0a202020203c612068
    ∷ 0x7265663d227365747469 ∷ 0x6e67732e68746d6c2220 ∷ 0x636c6173733d22636f6e
    ∷ 0x66223e53657474696e67 ∷ 0x733c2f613e0a20202020 ∷ 0x3c64697620636c617373
    ∷ 0x3d22646973706c617922 ∷ 0x3e3c2f6469763e0a2020 ∷ 0x20203c64697620636c61
    ∷ 0x73733d226b6579706164 ∷ 0x2d636f6e7461696e6572 ∷ 0x223e0a2020202020203c
    ∷ 0x64697620636c6173733d ∷ 0x226b6579706164223e0a ∷ 0x20202020202020203c62
    ∷ 0x7574746f6e206f6e636c ∷ 0x69636b3d22617070656e ∷ 0x644b6579282731272922
    ∷ 0x3e313c2f627574746f6e ∷ 0x3e0a2020202020202020 ∷ 0x3c627574746f6e206f6e
    ∷ 0x636c69636b3d22617070 ∷ 0x656e644b657928273227 ∷ 0x29223e323c2f62757474
    ∷ 0x6f6e3e0a202020202020 ∷ 0x20203c627574746f6e20 ∷ 0x6f6e636c69636b3d2261
    ∷ 0x7070656e644b65792827 ∷ 0x332729223e333c2f6275 ∷ 0x74746f6e3e0a20202020
    ∷ 0x202020203c627574746f ∷ 0x6e206f6e636c69636b3d ∷ 0x22617070656e644b6579
    ∷ 0x2827342729223e343c2f ∷ 0x627574746f6e3e0a2020 ∷ 0x2020202020203c627574
    ∷ 0x746f6e206f6e636c6963 ∷ 0x6b3d22617070656e644b ∷ 0x65792827352729223e35
    ∷ 0x3c2f627574746f6e3e0a ∷ 0x20202020202020203c62 ∷ 0x7574746f6e206f6e636c
    ∷ 0x69636b3d22617070656e ∷ 0x644b6579282736272922 ∷ 0x3e363c2f627574746f6e
    ∷ 0x3e0a2020202020202020 ∷ 0x3c627574746f6e206f6e ∷ 0x636c69636b3d22617070
    ∷ 0x656e644b657928273727 ∷ 0x29223e373c2f62757474 ∷ 0x6f6e3e0a202020202020
    ∷ 0x20203c627574746f6e20 ∷ 0x6f6e636c69636b3d2261 ∷ 0x7070656e644b65792827
    ∷ 0x382729223e383c2f6275 ∷ 0x74746f6e3e0a20202020 ∷ 0x202020203c627574746f
    ∷ 0x6e206f6e636c69636b3d ∷ 0x22617070656e644b6579 ∷ 0x2827392729223e393c2f
    ∷ 0x627574746f6e3e0a2020 ∷ 0x2020202020203c627574 ∷ 0x746f6e206f6e636c6963
    ∷ 0x6b3d22736f6c6f4d696e ∷ 0x75732829223e2d3c2f62 ∷ 0x7574746f6e3e0a202020
    ∷ 0x20202020203c62757474 ∷ 0x6f6e206f6e636c69636b ∷ 0x3d22617070656e644b65
    ∷ 0x792827302729223e303c ∷ 0x2f627574746f6e3e0a20 ∷ 0x202020202020203c6275
    ∷ 0x74746f6e206f6e636c69 ∷ 0x636b3d22736f6c6f506c ∷ 0x75732829223e2b3c2f62
    ∷ 0x7574746f6e3e0a202020 ∷ 0x20202020203c62757474 ∷ 0x6f6e206f6e636c69636b
    ∷ 0x3d22636c656172446973 ∷ 0x706c61792829223e436c ∷ 0x6561723c2f627574746f
    ∷ 0x6e3e0a20202020202020 ∷ 0x203c627574746f6e206f ∷ 0x6e636c69636b3d22223e
    ∷ 0x3c2f627574746f6e3e0a ∷ 0x20202020202020203c62 ∷ 0x7574746f6e206f6e636c
    ∷ 0x69636b3d2273656e644b ∷ 0x6579732829223e456e74 ∷ 0x65723c2f627574746f6e
    ∷ 0x3e0a2020202020203c2f ∷ 0x6469763e0a2020202020 ∷ 0x203c64697620636c6173
    ∷ 0x733d226d6163726f2d70 ∷ 0x6164223e0a2020202020 ∷ 0x2020203c627574746f6e
    ∷ 0x3e4368616e3c2f627574 ∷ 0x746f6e3e0a2020202020 ∷ 0x2020203c627574746f6e
    ∷ 0x3e44696d3c2f62757474 ∷ 0x6f6e3e0a202020202020 ∷ 0x20203c627574746f6e20
    ∷ 0x6f6e636c69636b3d2261 ∷ 0x7070656e644b65792827 ∷ 0x2054485255202729223e
    ∷ 0x546872753c2f62757474 ∷ 0x6f6e3e0a202020202020 ∷ 0x20203c627574746f6e20
    ∷ 0x6f6e636c69636b3d2261 ∷ 0x7070656e644b65792827 ∷ 0x204154202729223e4174
    ∷ 0x3c2f627574746f6e3e0a ∷ 0x20202020202020203c62 ∷ 0x7574746f6e206f6e636c
    ∷ 0x69636b3d22617070656e ∷ 0x644b6579282720414e44 ∷ 0x202729223e416e643c2f
    ∷ 0x627574746f6e3e0a2020 ∷ 0x2020202020203c627574 ∷ []
