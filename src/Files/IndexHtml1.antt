-- ===== src/Files/IndexHtml1.antt =====
-- ProjectFiles/fsdata_custom.c: part 1 of `data_index_html`, a number for each line of ten bytes.
use pico_rfu.Prelude.{ℕ, List, ◌∷◌, []}

-- The lines 2152 to 2205.
unfoldable pub index_html_1 : List ℕ
index_html_1 =
    0x485454502f312e302032 ∷ 0x3030204f4b0d0a536572 ∷ 0x7665723a206c7749502f
    ∷ 0x7072652d302e36202868 ∷ 0x7474703a2f2f7777772e ∷ 0x736963732e73652f7e61
    ∷ 0x64616d2f6c7769702f29 ∷ 0x0d0a436f6e74656e742d ∷ 0x747970653a2074657874
    ∷ 0x2f68746d6c0d0a0d0a3c ∷ 0x21444f43545950452068 ∷ 0x746d6c3e0a3c68746d6c
    ∷ 0x3e0a3c686561643e0a20 ∷ 0x203c7469746c653e4c6f ∷ 0x67696e3c2f7469746c65
    ∷ 0x3e0a20203c6c696e6b20 ∷ 0x72656c3d227374796c65 ∷ 0x73686565742220747970
    ∷ 0x653d22746578742f6373 ∷ 0x732220687265663d2273 ∷ 0x74796c65732e63737322
    ∷ 0x3e0a3c2f686561643e0a ∷ 0x3c626f64793e0a20203c ∷ 0x64697620636c6173733d
    ∷ 0x22636f6e7461696e6572 ∷ 0x223e0a202020203c6831 ∷ 0x3e4c6f67696e3c2f6831
    ∷ 0x3e0a202020203c666f72 ∷ 0x6d2069643d226c6f6769 ∷ 0x6e2d666f726d22206f6e
    ∷ 0x7375626d69743d227375 ∷ 0x626d6974466f726d2865 ∷ 0x76656e7429223e0a2020
    ∷ 0x202020203c696e707574 ∷ 0x20747970653d22706173 ∷ 0x73776f7264222069643d
    ∷ 0x2270617373776f726422 ∷ 0x20706c616365686f6c64 ∷ 0x65723d22456e74657220
    ∷ 0x50617373776f7264223e ∷ 0x0a2020202020203c6275 ∷ 0x74746f6e20747970653d
    ∷ 0x227375626d6974223e53 ∷ 0x75626d69743c2f627574 ∷ 0x746f6e3e0a202020203c
    ∷ 0x2f666f726d3e0a20203c ∷ 0x2f6469763e0a20203c73 ∷ 0x6372697074207372633d
    ∷ 0x226c6f67696e2e6a7322 ∷ 0x3e3c2f7363726970743e ∷ 0x0a3c2f626f64793e0a3c ∷ []
