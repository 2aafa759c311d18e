-- ===== src/Console/Font.antt =====
-- `font8x8` of core/console.c: the eight rows of pixels of the characters 0x20 to 0x7E, the low bit
-- at the left.
use uix.Base.{ℕ, List, [], ◌∷◌}

abbrev row : ℕ → ℕ → ℕ → ℕ → ℕ → ℕ → ℕ → ℕ → List ℕ
row a b c d e f g h = a ∷ b ∷ c ∷ d ∷ e ∷ f ∷ g ∷ h ∷ []

-- U+0020 to U+007E
unfoldable pub font8x8 : List (List ℕ)
font8x8 =
    row 0x0 0x0 0x0 0x0 0x0 0x0 0x0 0x0
    ∷ row 0x18 0x3c 0x3c 0x18 0x18 0x0 0x18 0x0
    ∷ row 0x36 0x36 0x0 0x0 0x0 0x0 0x0 0x0
    ∷ row 0x36 0x36 0x7f 0x36 0x7f 0x36 0x36 0x0
    ∷ row 0xc 0x3e 0x3 0x1e 0x30 0x1f 0xc 0x0
    ∷ row 0x0 0x63 0x33 0x18 0xc 0x66 0x63 0x0
    ∷ row 0x1c 0x36 0x1c 0x6e 0x3b 0x33 0x6e 0x0
    ∷ row 0x6 0x6 0x3 0x0 0x0 0x0 0x0 0x0
    ∷ row 0x18 0xc 0x6 0x6 0x6 0xc 0x18 0x0
    ∷ row 0x6 0xc 0x18 0x18 0x18 0xc 0x6 0x0
    ∷ row 0x0 0x66 0x3c 0xff 0x3c 0x66 0x0 0x0
    ∷ row 0x0 0xc 0xc 0x3f 0xc 0xc 0x0 0x0
    ∷ row 0x0 0x0 0x0 0x0 0x0 0xc 0x6 0x0
    ∷ row 0x0 0x0 0x0 0x3f 0x0 0x0 0x0 0x0
    ∷ row 0x0 0x0 0x0 0x0 0x0 0xc 0xc 0x0
    ∷ row 0x60 0x30 0x18 0xc 0x6 0x3 0x1 0x0
    ∷ row 0x3e 0x63 0x73 0x7b 0x6f 0x67 0x3e 0x0
    ∷ row 0xc 0xe 0xc 0xc 0xc 0xc 0x3f 0x0
    ∷ row 0x1e 0x33 0x30 0x1c 0x6 0x33 0x3f 0x0
    ∷ row 0x1e 0x33 0x30 0x1c 0x30 0x33 0x1e 0x0
    ∷ row 0x38 0x3c 0x36 0x33 0x7f 0x30 0x78 0x0
    ∷ row 0x3f 0x3 0x1f 0x30 0x30 0x33 0x1e 0x0
    ∷ row 0x1c 0x6 0x3 0x1f 0x33 0x33 0x1e 0x0
    ∷ row 0x3f 0x33 0x30 0x18 0xc 0xc 0xc 0x0
    ∷ row 0x1e 0x33 0x33 0x1e 0x33 0x33 0x1e 0x0
    ∷ row 0x1e 0x33 0x33 0x3e 0x30 0x18 0xe 0x0
    ∷ row 0x0 0xc 0xc 0x0 0x0 0xc 0xc 0x0
    ∷ row 0x0 0xc 0xc 0x0 0x0 0xc 0x6 0x0
    ∷ row 0x18 0xc 0x6 0x3 0x6 0xc 0x18 0x0
    ∷ row 0x0 0x0 0x3f 0x0 0x0 0x3f 0x0 0x0
    ∷ row 0x6 0xc 0x18 0x30 0x18 0xc 0x6 0x0
    ∷ row 0x1e 0x33 0x30 0x18 0xc 0x0 0xc 0x0
    ∷ row 0x3e 0x63 0x7b 0x7b 0x7b 0x3 0x1e 0x0
    ∷ row 0xc 0x1e 0x33 0x33 0x3f 0x33 0x33 0x0
    ∷ row 0x3f 0x66 0x66 0x3e 0x66 0x66 0x3f 0x0
    ∷ row 0x3c 0x66 0x3 0x3 0x3 0x66 0x3c 0x0
    ∷ row 0x1f 0x36 0x66 0x66 0x66 0x36 0x1f 0x0
    ∷ row 0x7f 0x46 0x16 0x1e 0x16 0x46 0x7f 0x0
    ∷ row 0x7f 0x46 0x16 0x1e 0x16 0x6 0xf 0x0
    ∷ row 0x3c 0x66 0x3 0x3 0x73 0x66 0x7c 0x0
    ∷ row 0x33 0x33 0x33 0x3f 0x33 0x33 0x33 0x0
    ∷ row 0x1e 0xc 0xc 0xc 0xc 0xc 0x1e 0x0
    ∷ row 0x78 0x30 0x30 0x30 0x33 0x33 0x1e 0x0
    ∷ row 0x67 0x66 0x36 0x1e 0x36 0x66 0x67 0x0
    ∷ row 0xf 0x6 0x6 0x6 0x46 0x66 0x7f 0x0
    ∷ row 0x63 0x77 0x7f 0x7f 0x6b 0x63 0x63 0x0
    ∷ row 0x63 0x67 0x6f 0x7b 0x73 0x63 0x63 0x0
    ∷ row 0x1c 0x36 0x63 0x63 0x63 0x36 0x1c 0x0
    ∷ row 0x3f 0x66 0x66 0x3e 0x6 0x6 0xf 0x0
    ∷ row 0x1e 0x33 0x33 0x33 0x3b 0x1e 0x38 0x0
    ∷ row 0x3f 0x66 0x66 0x3e 0x36 0x66 0x67 0x0
    ∷ row 0x1e 0x33 0x7 0xe 0x38 0x33 0x1e 0x0
    ∷ row 0x3f 0x2d 0xc 0xc 0xc 0xc 0x1e 0x0
    ∷ row 0x33 0x33 0x33 0x33 0x33 0x33 0x3f 0x0
    ∷ row 0x33 0x33 0x33 0x33 0x33 0x1e 0xc 0x0
    ∷ row 0x63 0x63 0x63 0x6b 0x7f 0x77 0x63 0x0
    ∷ row 0x63 0x63 0x36 0x1c 0x1c 0x36 0x63 0x0
    ∷ row 0x33 0x33 0x33 0x1e 0xc 0xc 0x1e 0x0
    ∷ row 0x7f 0x63 0x31 0x18 0x4c 0x66 0x7f 0x0
    ∷ row 0x1e 0x6 0x6 0x6 0x6 0x6 0x1e 0x0
    ∷ row 0x3 0x6 0xc 0x18 0x30 0x60 0x40 0x0
    ∷ row 0x1e 0x18 0x18 0x18 0x18 0x18 0x1e 0x0
    ∷ row 0x8 0x1c 0x36 0x63 0x0 0x0 0x0 0x0
    ∷ row 0x0 0x0 0x0 0x0 0x0 0x0 0x0 0xff
    ∷ row 0xc 0xc 0x18 0x0 0x0 0x0 0x0 0x0
    ∷ row 0x0 0x0 0x1e 0x30 0x3e 0x33 0x6e 0x0
    ∷ row 0x7 0x6 0x6 0x3e 0x66 0x66 0x3b 0x0
    ∷ row 0x0 0x0 0x1e 0x33 0x3 0x33 0x1e 0x0
    ∷ row 0x38 0x30 0x30 0x3e 0x33 0x33 0x6e 0x0
    ∷ row 0x0 0x0 0x1e 0x33 0x3f 0x3 0x1e 0x0
    ∷ row 0x1c 0x36 0x6 0xf 0x6 0x6 0xf 0x0
    ∷ row 0x0 0x0 0x6e 0x33 0x33 0x3e 0x30 0x1f
    ∷ row 0x7 0x6 0x36 0x6e 0x66 0x66 0x67 0x0
    ∷ row 0xc 0x0 0xe 0xc 0xc 0xc 0x1e 0x0
    ∷ row 0x30 0x0 0x30 0x30 0x30 0x33 0x33 0x1e
    ∷ row 0x7 0x6 0x66 0x36 0x1e 0x36 0x67 0x0
    ∷ row 0xe 0xc 0xc 0xc 0xc 0xc 0x1e 0x0
    ∷ row 0x0 0x0 0x33 0x7f 0x7f 0x6b 0x63 0x0
    ∷ row 0x0 0x0 0x1f 0x33 0x33 0x33 0x33 0x0
    ∷ row 0x0 0x0 0x1e 0x33 0x33 0x33 0x1e 0x0
    ∷ row 0x0 0x0 0x3b 0x66 0x66 0x3e 0x6 0xf
    ∷ row 0x0 0x0 0x6e 0x33 0x33 0x3e 0x30 0x78
    ∷ row 0x0 0x0 0x3b 0x6e 0x66 0x6 0xf 0x0
    ∷ row 0x0 0x0 0x3e 0x3 0x1e 0x30 0x1f 0x0
    ∷ row 0x8 0xc 0x3e 0xc 0xc 0x2c 0x18 0x0
    ∷ row 0x0 0x0 0x33 0x33 0x33 0x33 0x6e 0x0
    ∷ row 0x0 0x0 0x33 0x33 0x33 0x1e 0xc 0x0
    ∷ row 0x0 0x0 0x63 0x6b 0x7f 0x7f 0x36 0x0
    ∷ row 0x0 0x0 0x63 0x36 0x1c 0x36 0x63 0x0
    ∷ row 0x0 0x0 0x33 0x33 0x33 0x3e 0x30 0x1f
    ∷ row 0x0 0x0 0x3f 0x19 0xc 0x26 0x3f 0x0
    ∷ row 0x38 0xc 0xc 0x7 0xc 0xc 0x38 0x0
    ∷ row 0x18 0x18 0x18 0x0 0x18 0x18 0x18 0x0
    ∷ row 0x7 0xc 0xc 0x38 0xc 0xc 0x7 0x0
    ∷ row 0x6e 0x3b 0x0 0x0 0x0 0x0 0x0 0x0
    ∷ []
