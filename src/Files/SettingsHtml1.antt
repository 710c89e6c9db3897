-- ===== src/Files/SettingsHtml1.antt =====
-- ProjectFiles/fsdata_custom.c: part 1 of `data_settings_html`, a number for each line of ten bytes.
use pico_rfu.Prelude.{ℕ, List, ◌∷◌, []}

-- The lines 3136 to 3277.
unfoldable pub settings_html_1 : List ℕ
settings_html_1 =
    0x485454502f312e302032 ∷ 0x3030204f4b0d0a536572 ∷ 0x7665723a206c7749502f
    ∷ 0x7072652d302e36202868 ∷ 0x7474703a2f2f7777772e ∷ 0x736963732e73652f7e61
    ∷ 0x64616d2f6c7769702f29 ∷ 0x0d0a436f6e74656e742d ∷ 0x747970653a2074657874
    ∷ 0x2f68746d6c0d0a0d0a3c ∷ 0x21444f43545950452068 ∷ 0x746d6c3e0a3c68746d6c
    ∷ 0x206c616e673d22656e22 ∷ 0x3e0a3c64697620636c61 ∷ 0x73733d2273657474696e
    ∷ 0x67732d70616765223e0a ∷ 0x0a20203c686561643e0a ∷ 0x202020203c6d65746120
    ∷ 0x636861727365743d2255 ∷ 0x54462d38223e0a202020 ∷ 0x203c6d657461206e616d
    ∷ 0x653d2276696577706f72 ∷ 0x742220636f6e74656e74 ∷ 0x3d2277696474683d6465
    ∷ 0x766963652d7769647468 ∷ 0x2c20696e697469616c2d ∷ 0x7363616c653d312e3022
    ∷ 0x3e0a202020203c746974 ∷ 0x6c653e44657669636520 ∷ 0x53657474696e67733c2f
    ∷ 0x7469746c653e0a202020 ∷ 0x203c6c696e6b2072656c ∷ 0x3d227374796c65736865
    ∷ 0x65742220687265663d22 ∷ 0x7374796c65732e637373 ∷ 0x223e0a20203c2f686561
    ∷ 0x643e0a0a20203c626f64 ∷ 0x793e0a202020203c6831 ∷ 0x3e446576696365205365
    ∷ 0x7474696e67733c2f6831 ∷ 0x3e0a202020203c666f72 ∷ 0x6d2069643d2273657474
    ∷ 0x696e67732d666f726d22 ∷ 0x3e0a2020202020203c6c ∷ 0x6162656c20666f723d22
    ∷ 0x686f73746e616d65223e ∷ 0x486f73746e616d653a3c ∷ 0x2f6c6162656c3e0a2020
    ∷ 0x202020203c696e707574 ∷ 0x20747970653d22746578 ∷ 0x74222069643d22686f73
    ∷ 0x746e616d6522206d696e ∷ 0x6c656e6774683d223322 ∷ 0x206d61786c656e677468
    ∷ 0x3d223332222072657175 ∷ 0x697265643e3c62723e0a ∷ 0x0a2020202020203c6c61
    ∷ 0x62656c20666f723d2273 ∷ 0x736964223e5769466920 ∷ 0x4e6574776f726b204e61
    ∷ 0x6d653a3c2f6c6162656c ∷ 0x3e0a2020202020203c69 ∷ 0x6e70757420747970653d
    ∷ 0x2274657874222069643d ∷ 0x227373696422206d696e ∷ 0x6c656e6774683d223822
    ∷ 0x206d61786c656e677468 ∷ 0x3d223332222072657175 ∷ 0x697265643e3c62723e0a
    ∷ 0x0a2020202020203c6c61 ∷ 0x62656c20666f723d2270 ∷ 0x617373776f7264223e57
    ∷ 0x6946692050617373776f ∷ 0x72643a3c2f6c6162656c ∷ 0x3e0a2020202020203c69
    ∷ 0x6e70757420747970653d ∷ 0x2270617373776f726422 ∷ 0x2069643d227061737377
    ∷ 0x6f726422206d696e6c65 ∷ 0x6e6774683d223822206d ∷ 0x61786c656e6774683d22
    ∷ 0x36342220726571756972 ∷ 0x65643e3c62723e0a0a20 ∷ 0x20202020203c6c616265
    ∷ 0x6c20666f723d22776562 ∷ 0x5f70617373776f726422 ∷ 0x3e576562736974652050
    ∷ 0x617373776f72643a3c2f ∷ 0x6c6162656c3e0a202020 ∷ 0x2020203c696e70757420
    ∷ 0x747970653d2270617373 ∷ 0x776f7264222069643d22 ∷ 0x7765625f70617373776f
    ∷ 0x726422206d696e6c656e ∷ 0x6774683d223822206d61 ∷ 0x786c656e6774683d2236
    ∷ 0x34222072657175697265 ∷ 0x643e3c62723e0a0a2020 ∷ 0x202020203c6c6162656c
    ∷ 0x20666f723d2261705f6d ∷ 0x6f6465223e4372656174 ∷ 0x65206f776e2057694669
    ∷ 0x3a3c2f6c6162656c3e0a ∷ 0x2020202020203c696e70 ∷ 0x757420747970653d2263
    ∷ 0x6865636b626f78222069 ∷ 0x643d2261705f6d6f6465 ∷ 0x223e3c62723e0a0a2020
    ∷ 0x202020203c6c6162656c ∷ 0x20666f723d22646d785f ∷ 0x6c6f6f70223e436f6e73
    ∷ 0x74616e746c792053656e ∷ 0x6420444d582044617461 ∷ 0x3a3c2f6c6162656c3e0a
    ∷ 0x2020202020203c696e70 ∷ 0x757420747970653d2263 ∷ 0x6865636b626f78222069
    ∷ 0x643d22646d785f6c6f6f ∷ 0x70223e3c62723e0a0a20 ∷ 0x20202020203c62757474
    ∷ 0x6f6e20747970653d2273 ∷ 0x75626d6974223e536176 ∷ 0x652053657474696e6773
    ∷ 0x3c2f627574746f6e3e0a ∷ 0x2020202020203c627574 ∷ 0x746f6e206f6e636c6963
    ∷ 0x6b3d2277696e646f772e ∷ 0x6c6f636174696f6e2e68 ∷ 0x726566203d2027696e64
    ∷ 0x65782e68746d6c27223e ∷ 0x4261636b3c2f62757474 ∷ 0x6f6e3e0a202020203c2f
    ∷ 0x666f726d3e0a20202020 ∷ 0x3c736372697074207372 ∷ 0x633d2273657474696e67
    ∷ 0x732e6a73223e3c2f7363 ∷ 0x726970743e0a20203c2f ∷ 0x626f64793e0a3c2f6469
    ∷ 0x763e0a0a3c2f68746d6c ∷ []
