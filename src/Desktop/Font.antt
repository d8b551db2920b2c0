-- ===== src/Desktop/Font.antt =====
-- The bitmap font of src/gui.c: a list of the eight rows of each printable character, from the space on.
use sky_net_os.Base.{ℕ, List, ◌∷◌, []}

-- The eight rows of a character, the top one first, as one list.
abbrev pub rows : ℕ → ℕ → ℕ → ℕ → ℕ → ℕ → ℕ → ℕ → List ℕ
rows a b c d e f g h = a ∷ b ∷ c ∷ d ∷ e ∷ f ∷ g ∷ h ∷ []

unfoldable pub font8x8 : List (List ℕ)
font8x8 =
    rows 0x00 0x00 0x00 0x00 0x00 0x00 0x00 0x00
    ∷ rows 0x18 0x18 0x18 0x18 0x18 0x00 0x18 0x00
    ∷ rows 0x6C 0x6C 0x24 0x00 0x00 0x00 0x00 0x00
    ∷ rows 0x24 0x7E 0x24 0x24 0x7E 0x24 0x00 0x00
    ∷ rows 0x18 0x3E 0x60 0x3C 0x06 0x7C 0x18 0x00
    ∷ rows 0x62 0x64 0x08 0x10 0x26 0x46 0x00 0x00
    ∷ rows 0x38 0x44 0x38 0x3A 0x44 0x44 0x3A 0x00
    ∷ rows 0x18 0x18 0x10 0x00 0x00 0x00 0x00 0x00
    ∷ rows 0x08 0x10 0x20 0x20 0x20 0x10 0x08 0x00
    ∷ rows 0x20 0x10 0x08 0x08 0x08 0x10 0x20 0x00
    ∷ rows 0x00 0x24 0x18 0x7E 0x18 0x24 0x00 0x00
    ∷ rows 0x00 0x18 0x18 0x7E 0x18 0x18 0x00 0x00
    ∷ rows 0x00 0x00 0x00 0x00 0x00 0x18 0x18 0x10
    ∷ rows 0x00 0x00 0x00 0x7E 0x00 0x00 0x00 0x00
    ∷ rows 0x00 0x00 0x00 0x00 0x00 0x18 0x18 0x00
    ∷ rows 0x02 0x04 0x08 0x10 0x20 0x40 0x00 0x00
    ∷ rows 0x3C 0x42 0x46 0x5A 0x62 0x42 0x3C 0x00
    ∷ rows 0x18 0x38 0x18 0x18 0x18 0x18 0x7E 0x00
    ∷ rows 0x3C 0x42 0x02 0x0C 0x30 0x40 0x7E 0x00
    ∷ rows 0x3C 0x42 0x02 0x1C 0x02 0x42 0x3C 0x00
    ∷ rows 0x0C 0x14 0x24 0x44 0x7E 0x04 0x04 0x00
    ∷ rows 0x7E 0x40 0x7C 0x02 0x02 0x42 0x3C 0x00
    ∷ rows 0x1C 0x20 0x40 0x7C 0x42 0x42 0x3C 0x00
    ∷ rows 0x7E 0x02 0x04 0x08 0x10 0x10 0x10 0x00
    ∷ rows 0x3C 0x42 0x42 0x3C 0x42 0x42 0x3C 0x00
    ∷ rows 0x3C 0x42 0x42 0x3E 0x02 0x04 0x38 0x00
    ∷ rows 0x00 0x18 0x18 0x00 0x18 0x18 0x00 0x00
    ∷ rows 0x00 0x18 0x18 0x00 0x18 0x18 0x10 0x00
    ∷ rows 0x04 0x08 0x10 0x20 0x10 0x08 0x04 0x00
    ∷ rows 0x00 0x00 0x7E 0x00 0x7E 0x00 0x00 0x00
    ∷ rows 0x20 0x10 0x08 0x04 0x08 0x10 0x20 0x00
    ∷ rows 0x3C 0x42 0x04 0x08 0x10 0x00 0x10 0x00
    ∷ rows 0x3C 0x42 0x4E 0x52 0x4E 0x40 0x3C 0x00
    ∷ rows 0x18 0x24 0x42 0x42 0x7E 0x42 0x42 0x00
    ∷ rows 0x7C 0x42 0x42 0x7C 0x42 0x42 0x7C 0x00
    ∷ rows 0x3C 0x42 0x40 0x40 0x40 0x42 0x3C 0x00
    ∷ rows 0x78 0x44 0x42 0x42 0x42 0x44 0x78 0x00
    ∷ rows 0x7E 0x40 0x40 0x7C 0x40 0x40 0x7E 0x00
    ∷ rows 0x7E 0x40 0x40 0x7C 0x40 0x40 0x40 0x00
    ∷ rows 0x3C 0x42 0x40 0x4E 0x42 0x42 0x3C 0x00
    ∷ rows 0x42 0x42 0x42 0x7E 0x42 0x42 0x42 0x00
    ∷ rows 0x3E 0x08 0x08 0x08 0x08 0x08 0x3E 0x00
    ∷ rows 0x1E 0x04 0x04 0x04 0x04 0x44 0x38 0x00
    ∷ rows 0x42 0x44 0x48 0x70 0x48 0x44 0x42 0x00
    ∷ rows 0x40 0x40 0x40 0x40 0x40 0x40 0x7E 0x00
    ∷ rows 0x42 0x66 0x5A 0x5A 0x42 0x42 0x42 0x00
    ∷ rows 0x42 0x62 0x52 0x4A 0x46 0x42 0x42 0x00
    ∷ rows 0x3C 0x42 0x42 0x42 0x42 0x42 0x3C 0x00
    ∷ rows 0x7C 0x42 0x42 0x7C 0x40 0x40 0x40 0x00
    ∷ rows 0x3C 0x42 0x42 0x42 0x4A 0x44 0x3A 0x00
    ∷ rows 0x7C 0x42 0x42 0x7C 0x48 0x44 0x42 0x00
    ∷ rows 0x3C 0x42 0x40 0x3C 0x02 0x42 0x3C 0x00
    ∷ rows 0x7E 0x18 0x18 0x18 0x18 0x18 0x18 0x00
    ∷ rows 0x42 0x42 0x42 0x42 0x42 0x42 0x3C 0x00
    ∷ rows 0x42 0x42 0x42 0x42 0x24 0x24 0x18 0x00
    ∷ rows 0x42 0x42 0x42 0x5A 0x5A 0x66 0x42 0x00
    ∷ rows 0x42 0x24 0x18 0x18 0x18 0x24 0x42 0x00
    ∷ rows 0x42 0x42 0x24 0x18 0x18 0x18 0x18 0x00
    ∷ rows 0x7E 0x04 0x08 0x10 0x20 0x40 0x7E 0x00
    ∷ rows 0x38 0x20 0x20 0x20 0x20 0x20 0x38 0x00
    ∷ rows 0x40 0x20 0x10 0x08 0x04 0x02 0x00 0x00
    ∷ rows 0x38 0x08 0x08 0x08 0x08 0x08 0x38 0x00
    ∷ rows 0x10 0x28 0x44 0x00 0x00 0x00 0x00 0x00
    ∷ rows 0x00 0x00 0x00 0x00 0x00 0x00 0x7E 0x00
    ∷ rows 0x20 0x10 0x08 0x00 0x00 0x00 0x00 0x00
    ∷ rows 0x00 0x00 0x3C 0x02 0x3E 0x42 0x3E 0x00
    ∷ rows 0x40 0x40 0x5C 0x62 0x42 0x62 0x5C 0x00
    ∷ rows 0x00 0x00 0x3C 0x42 0x40 0x42 0x3C 0x00
    ∷ rows 0x02 0x02 0x3A 0x46 0x42 0x46 0x3A 0x00
    ∷ rows 0x00 0x00 0x3C 0x42 0x7E 0x40 0x3C 0x00
    ∷ rows 0x0C 0x12 0x10 0x7C 0x10 0x10 0x10 0x00
    ∷ rows 0x00 0x00 0x3A 0x46 0x46 0x3A 0x02 0x3C
    ∷ rows 0x40 0x40 0x5C 0x62 0x42 0x42 0x42 0x00
    ∷ rows 0x18 0x00 0x38 0x18 0x18 0x18 0x3C 0x00
    ∷ rows 0x06 0x00 0x06 0x06 0x06 0x46 0x3C 0x00
    ∷ rows 0x40 0x40 0x44 0x48 0x70 0x48 0x44 0x00
    ∷ rows 0x38 0x18 0x18 0x18 0x18 0x18 0x3C 0x00
    ∷ rows 0x00 0x00 0x64 0x5A 0x52 0x42 0x42 0x00
    ∷ rows 0x00 0x00 0x5C 0x62 0x42 0x42 0x42 0x00
    ∷ rows 0x00 0x00 0x3C 0x42 0x42 0x42 0x3C 0x00
    ∷ rows 0x00 0x00 0x5C 0x62 0x62 0x5C 0x40 0x40
    ∷ rows 0x00 0x00 0x3A 0x46 0x46 0x3A 0x02 0x02
    ∷ rows 0x00 0x00 0x5C 0x62 0x40 0x40 0x40 0x00
    ∷ rows 0x00 0x00 0x3E 0x40 0x3C 0x02 0x7C 0x00
    ∷ rows 0x10 0x10 0x7C 0x10 0x10 0x12 0x0C 0x00
    ∷ rows 0x00 0x00 0x42 0x42 0x42 0x46 0x3A 0x00
    ∷ rows 0x00 0x00 0x42 0x42 0x42 0x24 0x18 0x00
    ∷ rows 0x00 0x00 0x42 0x42 0x52 0x5A 0x24 0x00
    ∷ rows 0x00 0x00 0x42 0x24 0x18 0x24 0x42 0x00
    ∷ rows 0x00 0x00 0x42 0x42 0x46 0x3A 0x02 0x3C
    ∷ rows 0x00 0x00 0x7E 0x04 0x18 0x20 0x7E 0x00
    ∷ rows 0x0C 0x10 0x10 0x20 0x10 0x10 0x0C 0x00
    ∷ rows 0x18 0x18 0x18 0x00 0x18 0x18 0x18 0x00
    ∷ rows 0x30 0x08 0x08 0x04 0x08 0x08 0x30 0x00
    ∷ rows 0x00 0x32 0x4C 0x00 0x00 0x00 0x00 0x00
    ∷ []
