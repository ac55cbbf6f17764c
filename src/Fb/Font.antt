-- ===== src/Fb/Font.antt =====
-- The 8x16 font of kernel/fb.h: 16 bytes a glyph, one byte a row, the highest bit on the left.
use samos.Base.{ℕ, List, [], ◌∷◌}

-- FB_FONT_8X16, from the space on
abbrev pub fb_font_8x16 : List (List ℕ)
fb_font_8x16 =
    (0x00 ∷ 0x00 ∷ 0x00 ∷ 0x00 ∷ 0x00 ∷ 0x00 ∷ 0x00 ∷ 0x00 ∷ 0x00 ∷ 0x00 ∷ 0x00 ∷ 0x00 ∷ 0x00 ∷ 0x00
      ∷ 0x00 ∷ 0x00 ∷ [])
    ∷ (0x00 ∷ 0x00 ∷ 0x18 ∷ 0x3c ∷ 0x3c ∷ 0x3c ∷ 0x18 ∷ 0x18 ∷ 0x18 ∷ 0x00 ∷ 0x18 ∷ 0x18 ∷ 0x00
        ∷ 0x00 ∷ 0x00 ∷ 0x00 ∷ [])
    ∷ (0x00 ∷ 0x00 ∷ 0x66 ∷ 0x66 ∷ 0x66 ∷ 0x24 ∷ 0x00 ∷ 0x00 ∷ 0x00 ∷ 0x00 ∷ 0x00 ∷ 0x00 ∷ 0x00
        ∷ 0x00 ∷ 0x00 ∷ 0x00 ∷ [])
    ∷ (0x00 ∷ 0x00 ∷ 0x36 ∷ 0x36 ∷ 0x7f ∷ 0x36 ∷ 0x36 ∷ 0x36 ∷ 0x7f ∷ 0x36 ∷ 0x36 ∷ 0x36 ∷ 0x00
        ∷ 0x00 ∷ 0x00 ∷ 0x00 ∷ [])
    ∷ (0x00 ∷ 0x18 ∷ 0x18 ∷ 0x3e ∷ 0x63 ∷ 0x62 ∷ 0x60 ∷ 0x3e ∷ 0x03 ∷ 0x43 ∷ 0x63 ∷ 0x3e ∷ 0x18
        ∷ 0x18 ∷ 0x00 ∷ 0x00 ∷ [])
    ∷ (0x00 ∷ 0x00 ∷ 0x00 ∷ 0x00 ∷ 0x62 ∷ 0x63 ∷ 0x06 ∷ 0x0c ∷ 0x18 ∷ 0x30 ∷ 0x63 ∷ 0x43 ∷ 0x00
        ∷ 0x00 ∷ 0x00 ∷ 0x00 ∷ [])
    ∷ (0x00 ∷ 0x00 ∷ 0x1c ∷ 0x36 ∷ 0x36 ∷ 0x1c ∷ 0x3b ∷ 0x6e ∷ 0x66 ∷ 0x66 ∷ 0x66 ∷ 0x3b ∷ 0x00
        ∷ 0x00 ∷ 0x00 ∷ 0x00 ∷ [])
    ∷ (0x00 ∷ 0x00 ∷ 0x18 ∷ 0x18 ∷ 0x18 ∷ 0x30 ∷ 0x00 ∷ 0x00 ∷ 0x00 ∷ 0x00 ∷ 0x00 ∷ 0x00 ∷ 0x00
        ∷ 0x00 ∷ 0x00 ∷ 0x00 ∷ [])
    ∷ (0x00 ∷ 0x00 ∷ 0x06 ∷ 0x0c ∷ 0x18 ∷ 0x18 ∷ 0x18 ∷ 0x18 ∷ 0x18 ∷ 0x18 ∷ 0x0c ∷ 0x06 ∷ 0x00
        ∷ 0x00 ∷ 0x00 ∷ 0x00 ∷ [])
    ∷ (0x00 ∷ 0x00 ∷ 0x60 ∷ 0x30 ∷ 0x18 ∷ 0x18 ∷ 0x18 ∷ 0x18 ∷ 0x18 ∷ 0x18 ∷ 0x30 ∷ 0x60 ∷ 0x00
        ∷ 0x00 ∷ 0x00 ∷ 0x00 ∷ [])
    ∷ (0x00 ∷ 0x00 ∷ 0x00 ∷ 0x66 ∷ 0x3c ∷ 0xff ∷ 0x3c ∷ 0x66 ∷ 0x00 ∷ 0x00 ∷ 0x00 ∷ 0x00 ∷ 0x00
        ∷ 0x00 ∷ 0x00 ∷ 0x00 ∷ [])
    ∷ (0x00 ∷ 0x00 ∷ 0x00 ∷ 0x18 ∷ 0x18 ∷ 0x18 ∷ 0xff ∷ 0x18 ∷ 0x18 ∷ 0x18 ∷ 0x00 ∷ 0x00 ∷ 0x00
        ∷ 0x00 ∷ 0x00 ∷ 0x00 ∷ [])
    ∷ (0x00 ∷ 0x00 ∷ 0x00 ∷ 0x00 ∷ 0x00 ∷ 0x00 ∷ 0x00 ∷ 0x00 ∷ 0x00 ∷ 0x18 ∷ 0x18 ∷ 0x18 ∷ 0x30
        ∷ 0x00 ∷ 0x00 ∷ 0x00 ∷ [])
    ∷ (0x00 ∷ 0x00 ∷ 0x00 ∷ 0x00 ∷ 0x00 ∷ 0x00 ∷ 0xff ∷ 0x00 ∷ 0x00 ∷ 0x00 ∷ 0x00 ∷ 0x00 ∷ 0x00
        ∷ 0x00 ∷ 0x00 ∷ 0x00 ∷ [])
    ∷ (0x00 ∷ 0x00 ∷ 0x00 ∷ 0x00 ∷ 0x00 ∷ 0x00 ∷ 0x00 ∷ 0x00 ∷ 0x00 ∷ 0x00 ∷ 0x18 ∷ 0x18 ∷ 0x00
        ∷ 0x00 ∷ 0x00 ∷ 0x00 ∷ [])
    ∷ (0x00 ∷ 0x00 ∷ 0x01 ∷ 0x03 ∷ 0x06 ∷ 0x0c ∷ 0x18 ∷ 0x30 ∷ 0x60 ∷ 0xc0 ∷ 0x80 ∷ 0x00 ∷ 0x00
        ∷ 0x00 ∷ 0x00 ∷ 0x00 ∷ [])
    ∷ (0x00 ∷ 0x00 ∷ 0x3e ∷ 0x63 ∷ 0x67 ∷ 0x6f ∷ 0x7b ∷ 0x73 ∷ 0x63 ∷ 0x63 ∷ 0x63 ∷ 0x3e ∷ 0x00
        ∷ 0x00 ∷ 0x00 ∷ 0x00 ∷ [])
    ∷ (0x00 ∷ 0x00 ∷ 0x18 ∷ 0x38 ∷ 0x78 ∷ 0x18 ∷ 0x18 ∷ 0x18 ∷ 0x18 ∷ 0x18 ∷ 0x18 ∷ 0x7e ∷ 0x00
        ∷ 0x00 ∷ 0x00 ∷ 0x00 ∷ [])
    ∷ (0x00 ∷ 0x00 ∷ 0x3e ∷ 0x63 ∷ 0x03 ∷ 0x06 ∷ 0x0c ∷ 0x18 ∷ 0x30 ∷ 0x60 ∷ 0x63 ∷ 0x7f ∷ 0x00
        ∷ 0x00 ∷ 0x00 ∷ 0x00 ∷ [])
    ∷ (0x00 ∷ 0x00 ∷ 0x3e ∷ 0x63 ∷ 0x03 ∷ 0x03 ∷ 0x1e ∷ 0x03 ∷ 0x03 ∷ 0x03 ∷ 0x63 ∷ 0x3e ∷ 0x00
        ∷ 0x00 ∷ 0x00 ∷ 0x00 ∷ [])
    ∷ (0x00 ∷ 0x00 ∷ 0x06 ∷ 0x0e ∷ 0x1e ∷ 0x36 ∷ 0x66 ∷ 0x66 ∷ 0x7f ∷ 0x06 ∷ 0x06 ∷ 0x0f ∷ 0x00
        ∷ 0x00 ∷ 0x00 ∷ 0x00 ∷ [])
    ∷ (0x00 ∷ 0x00 ∷ 0x7f ∷ 0x60 ∷ 0x60 ∷ 0x60 ∷ 0x7e ∷ 0x03 ∷ 0x03 ∷ 0x03 ∷ 0x63 ∷ 0x3e ∷ 0x00
        ∷ 0x00 ∷ 0x00 ∷ 0x00 ∷ [])
    ∷ (0x00 ∷ 0x00 ∷ 0x1c ∷ 0x30 ∷ 0x60 ∷ 0x60 ∷ 0x7e ∷ 0x63 ∷ 0x63 ∷ 0x63 ∷ 0x63 ∷ 0x3e ∷ 0x00
        ∷ 0x00 ∷ 0x00 ∷ 0x00 ∷ [])
    ∷ (0x00 ∷ 0x00 ∷ 0x7f ∷ 0x63 ∷ 0x03 ∷ 0x06 ∷ 0x0c ∷ 0x18 ∷ 0x18 ∷ 0x18 ∷ 0x18 ∷ 0x18 ∷ 0x00
        ∷ 0x00 ∷ 0x00 ∷ 0x00 ∷ [])
    ∷ (0x00 ∷ 0x00 ∷ 0x3e ∷ 0x63 ∷ 0x63 ∷ 0x63 ∷ 0x3e ∷ 0x63 ∷ 0x63 ∷ 0x63 ∷ 0x63 ∷ 0x3e ∷ 0x00
        ∷ 0x00 ∷ 0x00 ∷ 0x00 ∷ [])
    ∷ (0x00 ∷ 0x00 ∷ 0x3e ∷ 0x63 ∷ 0x63 ∷ 0x63 ∷ 0x3f ∷ 0x03 ∷ 0x03 ∷ 0x06 ∷ 0x0c ∷ 0x38 ∷ 0x00
        ∷ 0x00 ∷ 0x00 ∷ 0x00 ∷ [])
    ∷ (0x00 ∷ 0x00 ∷ 0x00 ∷ 0x00 ∷ 0x18 ∷ 0x18 ∷ 0x00 ∷ 0x00 ∷ 0x18 ∷ 0x18 ∷ 0x00 ∷ 0x00 ∷ 0x00
        ∷ 0x00 ∷ 0x00 ∷ 0x00 ∷ [])
    ∷ (0x00 ∷ 0x00 ∷ 0x00 ∷ 0x00 ∷ 0x18 ∷ 0x18 ∷ 0x00 ∷ 0x00 ∷ 0x18 ∷ 0x18 ∷ 0x18 ∷ 0x30 ∷ 0x00
        ∷ 0x00 ∷ 0x00 ∷ 0x00 ∷ [])
    ∷ (0x00 ∷ 0x00 ∷ 0x06 ∷ 0x0c ∷ 0x18 ∷ 0x30 ∷ 0x60 ∷ 0x30 ∷ 0x18 ∷ 0x0c ∷ 0x06 ∷ 0x00 ∷ 0x00
        ∷ 0x00 ∷ 0x00 ∷ 0x00 ∷ [])
    ∷ (0x00 ∷ 0x00 ∷ 0x00 ∷ 0x00 ∷ 0x00 ∷ 0x7e ∷ 0x00 ∷ 0x00 ∷ 0x7e ∷ 0x00 ∷ 0x00 ∷ 0x00 ∷ 0x00
        ∷ 0x00 ∷ 0x00 ∷ 0x00 ∷ [])
    ∷ (0x00 ∷ 0x00 ∷ 0x60 ∷ 0x30 ∷ 0x18 ∷ 0x0c ∷ 0x06 ∷ 0x0c ∷ 0x18 ∷ 0x30 ∷ 0x60 ∷ 0x00 ∷ 0x00
        ∷ 0x00 ∷ 0x00 ∷ 0x00 ∷ [])
    ∷ (0x00 ∷ 0x00 ∷ 0x3e ∷ 0x63 ∷ 0x63 ∷ 0x06 ∷ 0x0c ∷ 0x0c ∷ 0x0c ∷ 0x00 ∷ 0x0c ∷ 0x0c ∷ 0x00
        ∷ 0x00 ∷ 0x00 ∷ 0x00 ∷ [])
    ∷ (0x00 ∷ 0x00 ∷ 0x3e ∷ 0x63 ∷ 0x63 ∷ 0x6f ∷ 0x6b ∷ 0x6b ∷ 0x6f ∷ 0x60 ∷ 0x62 ∷ 0x3c ∷ 0x00
        ∷ 0x00 ∷ 0x00 ∷ 0x00 ∷ [])
    ∷ (0x00 ∷ 0x00 ∷ 0x08 ∷ 0x1c ∷ 0x36 ∷ 0x63 ∷ 0x63 ∷ 0x7f ∷ 0x63 ∷ 0x63 ∷ 0x63 ∷ 0x63 ∷ 0x00
        ∷ 0x00 ∷ 0x00 ∷ 0x00 ∷ [])
    ∷ (0x00 ∷ 0x00 ∷ 0x7e ∷ 0x33 ∷ 0x33 ∷ 0x33 ∷ 0x3e ∷ 0x33 ∷ 0x33 ∷ 0x33 ∷ 0x33 ∷ 0x7e ∷ 0x00
        ∷ 0x00 ∷ 0x00 ∷ 0x00 ∷ [])
    ∷ (0x00 ∷ 0x00 ∷ 0x1e ∷ 0x33 ∷ 0x61 ∷ 0x60 ∷ 0x60 ∷ 0x60 ∷ 0x60 ∷ 0x61 ∷ 0x33 ∷ 0x1e ∷ 0x00
        ∷ 0x00 ∷ 0x00 ∷ 0x00 ∷ [])
    ∷ (0x00 ∷ 0x00 ∷ 0x7c ∷ 0x36 ∷ 0x33 ∷ 0x33 ∷ 0x33 ∷ 0x33 ∷ 0x33 ∷ 0x33 ∷ 0x36 ∷ 0x7c ∷ 0x00
        ∷ 0x00 ∷ 0x00 ∷ 0x00 ∷ [])
    ∷ (0x00 ∷ 0x00 ∷ 0x7f ∷ 0x33 ∷ 0x31 ∷ 0x34 ∷ 0x3c ∷ 0x34 ∷ 0x30 ∷ 0x31 ∷ 0x33 ∷ 0x7f ∷ 0x00
        ∷ 0x00 ∷ 0x00 ∷ 0x00 ∷ [])
    ∷ (0x00 ∷ 0x00 ∷ 0x7f ∷ 0x33 ∷ 0x31 ∷ 0x34 ∷ 0x3c ∷ 0x34 ∷ 0x30 ∷ 0x30 ∷ 0x30 ∷ 0x78 ∷ 0x00
        ∷ 0x00 ∷ 0x00 ∷ 0x00 ∷ [])
    ∷ (0x00 ∷ 0x00 ∷ 0x1e ∷ 0x33 ∷ 0x61 ∷ 0x60 ∷ 0x60 ∷ 0x6f ∷ 0x63 ∷ 0x63 ∷ 0x37 ∷ 0x1d ∷ 0x00
        ∷ 0x00 ∷ 0x00 ∷ 0x00 ∷ [])
    ∷ (0x00 ∷ 0x00 ∷ 0x63 ∷ 0x63 ∷ 0x63 ∷ 0x63 ∷ 0x7f ∷ 0x63 ∷ 0x63 ∷ 0x63 ∷ 0x63 ∷ 0x63 ∷ 0x00
        ∷ 0x00 ∷ 0x00 ∷ 0x00 ∷ [])
    ∷ (0x00 ∷ 0x00 ∷ 0x3c ∷ 0x18 ∷ 0x18 ∷ 0x18 ∷ 0x18 ∷ 0x18 ∷ 0x18 ∷ 0x18 ∷ 0x18 ∷ 0x3c ∷ 0x00
        ∷ 0x00 ∷ 0x00 ∷ 0x00 ∷ [])
    ∷ (0x00 ∷ 0x00 ∷ 0x1f ∷ 0x06 ∷ 0x06 ∷ 0x06 ∷ 0x06 ∷ 0x06 ∷ 0x06 ∷ 0x66 ∷ 0x66 ∷ 0x3c ∷ 0x00
        ∷ 0x00 ∷ 0x00 ∷ 0x00 ∷ [])
    ∷ (0x00 ∷ 0x00 ∷ 0x73 ∷ 0x33 ∷ 0x36 ∷ 0x36 ∷ 0x3c ∷ 0x36 ∷ 0x36 ∷ 0x33 ∷ 0x33 ∷ 0x73 ∷ 0x00
        ∷ 0x00 ∷ 0x00 ∷ 0x00 ∷ [])
    ∷ (0x00 ∷ 0x00 ∷ 0x78 ∷ 0x30 ∷ 0x30 ∷ 0x30 ∷ 0x30 ∷ 0x30 ∷ 0x30 ∷ 0x31 ∷ 0x33 ∷ 0x7f ∷ 0x00
        ∷ 0x00 ∷ 0x00 ∷ 0x00 ∷ [])
    ∷ (0x00 ∷ 0x00 ∷ 0x63 ∷ 0x77 ∷ 0x7f ∷ 0x6b ∷ 0x63 ∷ 0x63 ∷ 0x63 ∷ 0x63 ∷ 0x63 ∷ 0x63 ∷ 0x00
        ∷ 0x00 ∷ 0x00 ∷ 0x00 ∷ [])
    ∷ (0x00 ∷ 0x00 ∷ 0x63 ∷ 0x63 ∷ 0x73 ∷ 0x7b ∷ 0x6f ∷ 0x67 ∷ 0x63 ∷ 0x63 ∷ 0x63 ∷ 0x63 ∷ 0x00
        ∷ 0x00 ∷ 0x00 ∷ 0x00 ∷ [])
    ∷ (0x00 ∷ 0x00 ∷ 0x1c ∷ 0x36 ∷ 0x63 ∷ 0x63 ∷ 0x63 ∷ 0x63 ∷ 0x63 ∷ 0x63 ∷ 0x36 ∷ 0x1c ∷ 0x00
        ∷ 0x00 ∷ 0x00 ∷ 0x00 ∷ [])
    ∷ (0x00 ∷ 0x00 ∷ 0x7e ∷ 0x33 ∷ 0x33 ∷ 0x33 ∷ 0x3e ∷ 0x30 ∷ 0x30 ∷ 0x30 ∷ 0x30 ∷ 0x78 ∷ 0x00
        ∷ 0x00 ∷ 0x00 ∷ 0x00 ∷ [])
    ∷ (0x00 ∷ 0x00 ∷ 0x1c ∷ 0x36 ∷ 0x63 ∷ 0x63 ∷ 0x63 ∷ 0x63 ∷ 0x6f ∷ 0x6b ∷ 0x36 ∷ 0x1d ∷ 0x00
        ∷ 0x00 ∷ 0x00 ∷ 0x00 ∷ [])
    ∷ (0x00 ∷ 0x00 ∷ 0x7e ∷ 0x33 ∷ 0x33 ∷ 0x33 ∷ 0x3e ∷ 0x36 ∷ 0x33 ∷ 0x33 ∷ 0x33 ∷ 0x73 ∷ 0x00
        ∷ 0x00 ∷ 0x00 ∷ 0x00 ∷ [])
    ∷ (0x00 ∷ 0x00 ∷ 0x1e ∷ 0x33 ∷ 0x33 ∷ 0x30 ∷ 0x1c ∷ 0x06 ∷ 0x03 ∷ 0x33 ∷ 0x33 ∷ 0x1e ∷ 0x00
        ∷ 0x00 ∷ 0x00 ∷ 0x00 ∷ [])
    ∷ (0x00 ∷ 0x00 ∷ 0xff ∷ 0xdb ∷ 0x99 ∷ 0x18 ∷ 0x18 ∷ 0x18 ∷ 0x18 ∷ 0x18 ∷ 0x18 ∷ 0x3c ∷ 0x00
        ∷ 0x00 ∷ 0x00 ∷ 0x00 ∷ [])
    ∷ (0x00 ∷ 0x00 ∷ 0x63 ∷ 0x63 ∷ 0x63 ∷ 0x63 ∷ 0x63 ∷ 0x63 ∷ 0x63 ∷ 0x63 ∷ 0x63 ∷ 0x3e ∷ 0x00
        ∷ 0x00 ∷ 0x00 ∷ 0x00 ∷ [])
    ∷ (0x00 ∷ 0x00 ∷ 0x63 ∷ 0x63 ∷ 0x63 ∷ 0x63 ∷ 0x63 ∷ 0x63 ∷ 0x36 ∷ 0x1c ∷ 0x1c ∷ 0x08 ∷ 0x00
        ∷ 0x00 ∷ 0x00 ∷ 0x00 ∷ [])
    ∷ (0x00 ∷ 0x00 ∷ 0x63 ∷ 0x63 ∷ 0x63 ∷ 0x63 ∷ 0x6b ∷ 0x6b ∷ 0x7f ∷ 0x36 ∷ 0x36 ∷ 0x36 ∷ 0x00
        ∷ 0x00 ∷ 0x00 ∷ 0x00 ∷ [])
    ∷ (0x00 ∷ 0x00 ∷ 0x63 ∷ 0x63 ∷ 0x36 ∷ 0x36 ∷ 0x1c ∷ 0x1c ∷ 0x36 ∷ 0x36 ∷ 0x63 ∷ 0x63 ∷ 0x00
        ∷ 0x00 ∷ 0x00 ∷ 0x00 ∷ [])
    ∷ (0x00 ∷ 0x00 ∷ 0xc3 ∷ 0xc3 ∷ 0xc3 ∷ 0x66 ∷ 0x3c ∷ 0x18 ∷ 0x18 ∷ 0x18 ∷ 0x18 ∷ 0x3c ∷ 0x00
        ∷ 0x00 ∷ 0x00 ∷ 0x00 ∷ [])
    ∷ (0x00 ∷ 0x00 ∷ 0x7f ∷ 0x63 ∷ 0x46 ∷ 0x0c ∷ 0x18 ∷ 0x30 ∷ 0x61 ∷ 0x63 ∷ 0x63 ∷ 0x7f ∷ 0x00
        ∷ 0x00 ∷ 0x00 ∷ 0x00 ∷ [])
    ∷ (0x00 ∷ 0x00 ∷ 0x3c ∷ 0x30 ∷ 0x30 ∷ 0x30 ∷ 0x30 ∷ 0x30 ∷ 0x30 ∷ 0x30 ∷ 0x30 ∷ 0x3c ∷ 0x00
        ∷ 0x00 ∷ 0x00 ∷ 0x00 ∷ [])
    ∷ (0x00 ∷ 0x00 ∷ 0x80 ∷ 0xc0 ∷ 0x60 ∷ 0x30 ∷ 0x18 ∷ 0x0c ∷ 0x06 ∷ 0x03 ∷ 0x01 ∷ 0x00 ∷ 0x00
        ∷ 0x00 ∷ 0x00 ∷ 0x00 ∷ [])
    ∷ (0x00 ∷ 0x00 ∷ 0x3c ∷ 0x0c ∷ 0x0c ∷ 0x0c ∷ 0x0c ∷ 0x0c ∷ 0x0c ∷ 0x0c ∷ 0x0c ∷ 0x3c ∷ 0x00
        ∷ 0x00 ∷ 0x00 ∷ 0x00 ∷ [])
    ∷ (0x00 ∷ 0x08 ∷ 0x1c ∷ 0x36 ∷ 0x63 ∷ 0x00 ∷ 0x00 ∷ 0x00 ∷ 0x00 ∷ 0x00 ∷ 0x00 ∷ 0x00 ∷ 0x00
        ∷ 0x00 ∷ 0x00 ∷ 0x00 ∷ [])
    ∷ (0x00 ∷ 0x00 ∷ 0x00 ∷ 0x00 ∷ 0x00 ∷ 0x00 ∷ 0x00 ∷ 0x00 ∷ 0x00 ∷ 0x00 ∷ 0x00 ∷ 0xff ∷ 0x00
        ∷ 0x00 ∷ 0x00 ∷ 0x00 ∷ [])
    ∷ (0x00 ∷ 0x30 ∷ 0x18 ∷ 0x0c ∷ 0x00 ∷ 0x00 ∷ 0x00 ∷ 0x00 ∷ 0x00 ∷ 0x00 ∷ 0x00 ∷ 0x00 ∷ 0x00
        ∷ 0x00 ∷ 0x00 ∷ 0x00 ∷ [])
    ∷ (0x00 ∷ 0x00 ∷ 0x00 ∷ 0x00 ∷ 0x00 ∷ 0x3e ∷ 0x03 ∷ 0x03 ∷ 0x3f ∷ 0x63 ∷ 0x63 ∷ 0x3f ∷ 0x00
        ∷ 0x00 ∷ 0x00 ∷ 0x00 ∷ [])
    ∷ (0x00 ∷ 0x00 ∷ 0x70 ∷ 0x30 ∷ 0x30 ∷ 0x3e ∷ 0x33 ∷ 0x33 ∷ 0x33 ∷ 0x33 ∷ 0x33 ∷ 0x6e ∷ 0x00
        ∷ 0x00 ∷ 0x00 ∷ 0x00 ∷ [])
    ∷ (0x00 ∷ 0x00 ∷ 0x00 ∷ 0x00 ∷ 0x00 ∷ 0x3e ∷ 0x63 ∷ 0x60 ∷ 0x60 ∷ 0x60 ∷ 0x63 ∷ 0x3e ∷ 0x00
        ∷ 0x00 ∷ 0x00 ∷ 0x00 ∷ [])
    ∷ (0x00 ∷ 0x00 ∷ 0x0e ∷ 0x06 ∷ 0x06 ∷ 0x3e ∷ 0x66 ∷ 0x66 ∷ 0x66 ∷ 0x66 ∷ 0x66 ∷ 0x3b ∷ 0x00
        ∷ 0x00 ∷ 0x00 ∷ 0x00 ∷ [])
    ∷ (0x00 ∷ 0x00 ∷ 0x00 ∷ 0x00 ∷ 0x00 ∷ 0x3e ∷ 0x63 ∷ 0x63 ∷ 0x7f ∷ 0x60 ∷ 0x63 ∷ 0x3e ∷ 0x00
        ∷ 0x00 ∷ 0x00 ∷ 0x00 ∷ [])
    ∷ (0x00 ∷ 0x00 ∷ 0x1c ∷ 0x36 ∷ 0x30 ∷ 0x30 ∷ 0x7c ∷ 0x30 ∷ 0x30 ∷ 0x30 ∷ 0x30 ∷ 0x78 ∷ 0x00
        ∷ 0x00 ∷ 0x00 ∷ 0x00 ∷ [])
    ∷ (0x00 ∷ 0x00 ∷ 0x00 ∷ 0x00 ∷ 0x00 ∷ 0x3b ∷ 0x66 ∷ 0x66 ∷ 0x66 ∷ 0x66 ∷ 0x3e ∷ 0x06 ∷ 0x66
        ∷ 0x3c ∷ 0x00 ∷ 0x00 ∷ [])
    ∷ (0x00 ∷ 0x00 ∷ 0x70 ∷ 0x30 ∷ 0x30 ∷ 0x36 ∷ 0x3b ∷ 0x33 ∷ 0x33 ∷ 0x33 ∷ 0x33 ∷ 0x73 ∷ 0x00
        ∷ 0x00 ∷ 0x00 ∷ 0x00 ∷ [])
    ∷ (0x00 ∷ 0x00 ∷ 0x18 ∷ 0x18 ∷ 0x00 ∷ 0x38 ∷ 0x18 ∷ 0x18 ∷ 0x18 ∷ 0x18 ∷ 0x18 ∷ 0x3c ∷ 0x00
        ∷ 0x00 ∷ 0x00 ∷ 0x00 ∷ [])
    ∷ (0x00 ∷ 0x00 ∷ 0x06 ∷ 0x06 ∷ 0x00 ∷ 0x0e ∷ 0x06 ∷ 0x06 ∷ 0x06 ∷ 0x06 ∷ 0x06 ∷ 0x66 ∷ 0x66
        ∷ 0x3c ∷ 0x00 ∷ 0x00 ∷ [])
    ∷ (0x00 ∷ 0x00 ∷ 0x70 ∷ 0x30 ∷ 0x30 ∷ 0x33 ∷ 0x36 ∷ 0x3c ∷ 0x3c ∷ 0x36 ∷ 0x33 ∷ 0x73 ∷ 0x00
        ∷ 0x00 ∷ 0x00 ∷ 0x00 ∷ [])
    ∷ (0x00 ∷ 0x00 ∷ 0x38 ∷ 0x18 ∷ 0x18 ∷ 0x18 ∷ 0x18 ∷ 0x18 ∷ 0x18 ∷ 0x18 ∷ 0x18 ∷ 0x3c ∷ 0x00
        ∷ 0x00 ∷ 0x00 ∷ 0x00 ∷ [])
    ∷ (0x00 ∷ 0x00 ∷ 0x00 ∷ 0x00 ∷ 0x00 ∷ 0x66 ∷ 0x7f ∷ 0x6b ∷ 0x6b ∷ 0x6b ∷ 0x6b ∷ 0x63 ∷ 0x00
        ∷ 0x00 ∷ 0x00 ∷ 0x00 ∷ [])
    ∷ (0x00 ∷ 0x00 ∷ 0x00 ∷ 0x00 ∷ 0x00 ∷ 0x6e ∷ 0x33 ∷ 0x33 ∷ 0x33 ∷ 0x33 ∷ 0x33 ∷ 0x33 ∷ 0x00
        ∷ 0x00 ∷ 0x00 ∷ 0x00 ∷ [])
    ∷ (0x00 ∷ 0x00 ∷ 0x00 ∷ 0x00 ∷ 0x00 ∷ 0x1c ∷ 0x36 ∷ 0x63 ∷ 0x63 ∷ 0x63 ∷ 0x36 ∷ 0x1c ∷ 0x00
        ∷ 0x00 ∷ 0x00 ∷ 0x00 ∷ [])
    ∷ (0x00 ∷ 0x00 ∷ 0x00 ∷ 0x00 ∷ 0x00 ∷ 0x6e ∷ 0x33 ∷ 0x33 ∷ 0x33 ∷ 0x33 ∷ 0x3e ∷ 0x30 ∷ 0x30
        ∷ 0x78 ∷ 0x00 ∷ 0x00 ∷ [])
    ∷ (0x00 ∷ 0x00 ∷ 0x00 ∷ 0x00 ∷ 0x00 ∷ 0x3b ∷ 0x66 ∷ 0x66 ∷ 0x66 ∷ 0x66 ∷ 0x3e ∷ 0x06 ∷ 0x06
        ∷ 0x0f ∷ 0x00 ∷ 0x00 ∷ [])
    ∷ (0x00 ∷ 0x00 ∷ 0x00 ∷ 0x00 ∷ 0x00 ∷ 0x6e ∷ 0x3b ∷ 0x33 ∷ 0x30 ∷ 0x30 ∷ 0x30 ∷ 0x78 ∷ 0x00
        ∷ 0x00 ∷ 0x00 ∷ 0x00 ∷ [])
    ∷ (0x00 ∷ 0x00 ∷ 0x00 ∷ 0x00 ∷ 0x00 ∷ 0x3e ∷ 0x63 ∷ 0x60 ∷ 0x3c ∷ 0x06 ∷ 0x63 ∷ 0x3e ∷ 0x00
        ∷ 0x00 ∷ 0x00 ∷ 0x00 ∷ [])
    ∷ (0x00 ∷ 0x00 ∷ 0x08 ∷ 0x18 ∷ 0x18 ∷ 0x7e ∷ 0x18 ∷ 0x18 ∷ 0x18 ∷ 0x18 ∷ 0x1a ∷ 0x0c ∷ 0x00
        ∷ 0x00 ∷ 0x00 ∷ 0x00 ∷ [])
    ∷ (0x00 ∷ 0x00 ∷ 0x00 ∷ 0x00 ∷ 0x00 ∷ 0x63 ∷ 0x63 ∷ 0x63 ∷ 0x63 ∷ 0x63 ∷ 0x63 ∷ 0x3f ∷ 0x00
        ∷ 0x00 ∷ 0x00 ∷ 0x00 ∷ [])
    ∷ (0x00 ∷ 0x00 ∷ 0x00 ∷ 0x00 ∷ 0x00 ∷ 0x63 ∷ 0x63 ∷ 0x63 ∷ 0x36 ∷ 0x36 ∷ 0x1c ∷ 0x08 ∷ 0x00
        ∷ 0x00 ∷ 0x00 ∷ 0x00 ∷ [])
    ∷ (0x00 ∷ 0x00 ∷ 0x00 ∷ 0x00 ∷ 0x00 ∷ 0x63 ∷ 0x63 ∷ 0x6b ∷ 0x6b ∷ 0x7f ∷ 0x36 ∷ 0x36 ∷ 0x00
        ∷ 0x00 ∷ 0x00 ∷ 0x00 ∷ [])
    ∷ (0x00 ∷ 0x00 ∷ 0x00 ∷ 0x00 ∷ 0x00 ∷ 0x63 ∷ 0x36 ∷ 0x1c ∷ 0x1c ∷ 0x36 ∷ 0x63 ∷ 0x63 ∷ 0x00
        ∷ 0x00 ∷ 0x00 ∷ 0x00 ∷ [])
    ∷ (0x00 ∷ 0x00 ∷ 0x00 ∷ 0x00 ∷ 0x00 ∷ 0x63 ∷ 0x63 ∷ 0x63 ∷ 0x63 ∷ 0x3f ∷ 0x03 ∷ 0x06 ∷ 0x3c
        ∷ 0x00 ∷ 0x00 ∷ 0x00 ∷ [])
    ∷ (0x00 ∷ 0x00 ∷ 0x00 ∷ 0x00 ∷ 0x00 ∷ 0x7f ∷ 0x66 ∷ 0x0c ∷ 0x18 ∷ 0x30 ∷ 0x63 ∷ 0x7f ∷ 0x00
        ∷ 0x00 ∷ 0x00 ∷ 0x00 ∷ [])
    ∷ (0x00 ∷ 0x00 ∷ 0x0e ∷ 0x18 ∷ 0x18 ∷ 0x18 ∷ 0x70 ∷ 0x18 ∷ 0x18 ∷ 0x18 ∷ 0x18 ∷ 0x0e ∷ 0x00
        ∷ 0x00 ∷ 0x00 ∷ 0x00 ∷ [])
    ∷ (0x00 ∷ 0x00 ∷ 0x18 ∷ 0x18 ∷ 0x18 ∷ 0x18 ∷ 0x00 ∷ 0x18 ∷ 0x18 ∷ 0x18 ∷ 0x18 ∷ 0x18 ∷ 0x00
        ∷ 0x00 ∷ 0x00 ∷ 0x00 ∷ [])
    ∷ (0x00 ∷ 0x00 ∷ 0x70 ∷ 0x18 ∷ 0x18 ∷ 0x18 ∷ 0x0e ∷ 0x18 ∷ 0x18 ∷ 0x18 ∷ 0x18 ∷ 0x70 ∷ 0x00
        ∷ 0x00 ∷ 0x00 ∷ 0x00 ∷ [])
    ∷ (0x00 ∷ 0x00 ∷ 0x3b ∷ 0x6e ∷ 0x00 ∷ 0x00 ∷ 0x00 ∷ 0x00 ∷ 0x00 ∷ 0x00 ∷ 0x00 ∷ 0x00 ∷ 0x00
        ∷ 0x00 ∷ 0x00 ∷ 0x00 ∷ [])
    ∷ (0xff ∷ 0xff ∷ 0xff ∷ 0xff ∷ 0xff ∷ 0xff ∷ 0xff ∷ 0xff ∷ 0xff ∷ 0xff ∷ 0xff ∷ 0xff ∷ 0xff
        ∷ 0xff ∷ 0xff ∷ 0xff ∷ [])
    ∷ []
