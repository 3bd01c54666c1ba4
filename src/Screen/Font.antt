-- ===== src/Screen/Font.antt =====
-- The glyphs of kernel/core/font.c.
use kagami_os.Prelude.{ℕ, List, [], ◌∷◌}

-- From the space to `~`: eight rows of eight bits each.
abbrev pub glyphs : List (List ℕ)
glyphs =
    (0x00 ∷ 0x00 ∷ 0x00 ∷ 0x00 ∷ 0x00 ∷ 0x00 ∷ 0x00 ∷ 0x00 ∷ [])
    ∷ (0x18 ∷ 0x18 ∷ 0x18 ∷ 0x18 ∷ 0x18 ∷ 0x00 ∷ 0x18 ∷ 0x00 ∷ [])
    ∷ (0x36 ∷ 0x36 ∷ 0x36 ∷ 0x00 ∷ 0x00 ∷ 0x00 ∷ 0x00 ∷ 0x00 ∷ [])
    ∷ (0x36 ∷ 0x36 ∷ 0x7f ∷ 0x36 ∷ 0x7f ∷ 0x36 ∷ 0x36 ∷ 0x00 ∷ [])
    ∷ (0x0c ∷ 0x3e ∷ 0x63 ∷ 0x30 ∷ 0x1e ∷ 0x63 ∷ 0x3e ∷ 0x0c ∷ [])
    ∷ (0x63 ∷ 0x63 ∷ 0x30 ∷ 0x18 ∷ 0x0c ∷ 0x63 ∷ 0x63 ∷ 0x00 ∷ [])
    ∷ (0x1c ∷ 0x36 ∷ 0x36 ∷ 0x1e ∷ 0x3b ∷ 0x66 ∷ 0x3f ∷ 0x00 ∷ [])
    ∷ (0x18 ∷ 0x18 ∷ 0x18 ∷ 0x00 ∷ 0x00 ∷ 0x00 ∷ 0x00 ∷ 0x00 ∷ [])
    ∷ (0x0c ∷ 0x18 ∷ 0x30 ∷ 0x30 ∷ 0x30 ∷ 0x18 ∷ 0x0c ∷ 0x00 ∷ [])
    ∷ (0x30 ∷ 0x18 ∷ 0x0c ∷ 0x0c ∷ 0x0c ∷ 0x18 ∷ 0x30 ∷ 0x00 ∷ [])
    ∷ (0x00 ∷ 0x18 ∷ 0x3c ∷ 0x7e ∷ 0x3c ∷ 0x18 ∷ 0x00 ∷ 0x00 ∷ [])
    ∷ (0x00 ∷ 0x18 ∷ 0x18 ∷ 0x7e ∷ 0x18 ∷ 0x18 ∷ 0x00 ∷ 0x00 ∷ [])
    ∷ (0x00 ∷ 0x00 ∷ 0x00 ∷ 0x00 ∷ 0x00 ∷ 0x18 ∷ 0x18 ∷ 0x30 ∷ [])
    ∷ (0x00 ∷ 0x00 ∷ 0x00 ∷ 0x7e ∷ 0x00 ∷ 0x00 ∷ 0x00 ∷ 0x00 ∷ [])
    ∷ (0x00 ∷ 0x00 ∷ 0x00 ∷ 0x00 ∷ 0x00 ∷ 0x18 ∷ 0x18 ∷ 0x00 ∷ [])
    ∷ (0x03 ∷ 0x06 ∷ 0x0c ∷ 0x18 ∷ 0x30 ∷ 0x60 ∷ 0xc0 ∷ 0x00 ∷ [])
    ∷ (0x3e ∷ 0x63 ∷ 0x63 ∷ 0x6f ∷ 0x63 ∷ 0x63 ∷ 0x3e ∷ 0x00 ∷ [])
    ∷ (0x0c ∷ 0x1c ∷ 0x0c ∷ 0x0c ∷ 0x0c ∷ 0x0c ∷ 0x3f ∷ 0x00 ∷ [])
    ∷ (0x3e ∷ 0x63 ∷ 0x03 ∷ 0x0e ∷ 0x38 ∷ 0x60 ∷ 0x7f ∷ 0x00 ∷ [])
    ∷ (0x3e ∷ 0x63 ∷ 0x03 ∷ 0x1e ∷ 0x03 ∷ 0x63 ∷ 0x3e ∷ 0x00 ∷ [])
    ∷ (0x0c ∷ 0x1c ∷ 0x3c ∷ 0x6c ∷ 0x7f ∷ 0x0c ∷ 0x0c ∷ 0x00 ∷ [])
    ∷ (0x7f ∷ 0x60 ∷ 0x7e ∷ 0x03 ∷ 0x03 ∷ 0x63 ∷ 0x3e ∷ 0x00 ∷ [])
    ∷ (0x1e ∷ 0x30 ∷ 0x60 ∷ 0x7e ∷ 0x63 ∷ 0x63 ∷ 0x3e ∷ 0x00 ∷ [])
    ∷ (0x7f ∷ 0x63 ∷ 0x06 ∷ 0x0c ∷ 0x18 ∷ 0x30 ∷ 0x30 ∷ 0x00 ∷ [])
    ∷ (0x3e ∷ 0x63 ∷ 0x63 ∷ 0x3e ∷ 0x63 ∷ 0x63 ∷ 0x3e ∷ 0x00 ∷ [])
    ∷ (0x3e ∷ 0x63 ∷ 0x63 ∷ 0x3f ∷ 0x03 ∷ 0x06 ∷ 0x3c ∷ 0x00 ∷ [])
    ∷ (0x00 ∷ 0x18 ∷ 0x18 ∷ 0x00 ∷ 0x18 ∷ 0x18 ∷ 0x00 ∷ 0x00 ∷ [])
    ∷ (0x00 ∷ 0x18 ∷ 0x18 ∷ 0x00 ∷ 0x18 ∷ 0x18 ∷ 0x30 ∷ 0x00 ∷ [])
    ∷ (0x06 ∷ 0x0c ∷ 0x18 ∷ 0x30 ∷ 0x18 ∷ 0x0c ∷ 0x06 ∷ 0x00 ∷ [])
    ∷ (0x00 ∷ 0x00 ∷ 0x7e ∷ 0x00 ∷ 0x7e ∷ 0x00 ∷ 0x00 ∷ 0x00 ∷ [])
    ∷ (0x60 ∷ 0x30 ∷ 0x18 ∷ 0x0c ∷ 0x18 ∷ 0x30 ∷ 0x60 ∷ 0x00 ∷ [])
    ∷ (0x3e ∷ 0x63 ∷ 0x03 ∷ 0x0e ∷ 0x18 ∷ 0x00 ∷ 0x18 ∷ 0x00 ∷ [])
    ∷ (0x3e ∷ 0x63 ∷ 0x6f ∷ 0x6f ∷ 0x6e ∷ 0x60 ∷ 0x3e ∷ 0x00 ∷ [])
    ∷ (0x1c ∷ 0x36 ∷ 0x63 ∷ 0x7f ∷ 0x63 ∷ 0x63 ∷ 0x63 ∷ 0x00 ∷ [])
    ∷ (0x7e ∷ 0x63 ∷ 0x63 ∷ 0x7e ∷ 0x63 ∷ 0x63 ∷ 0x7e ∷ 0x00 ∷ [])
    ∷ (0x3e ∷ 0x63 ∷ 0x60 ∷ 0x60 ∷ 0x60 ∷ 0x63 ∷ 0x3e ∷ 0x00 ∷ [])
    ∷ (0x7c ∷ 0x66 ∷ 0x63 ∷ 0x63 ∷ 0x63 ∷ 0x66 ∷ 0x7c ∷ 0x00 ∷ [])
    ∷ (0x7f ∷ 0x60 ∷ 0x60 ∷ 0x7e ∷ 0x60 ∷ 0x60 ∷ 0x7f ∷ 0x00 ∷ [])
    ∷ (0x7f ∷ 0x60 ∷ 0x60 ∷ 0x7e ∷ 0x60 ∷ 0x60 ∷ 0x60 ∷ 0x00 ∷ [])
    ∷ (0x3e ∷ 0x63 ∷ 0x60 ∷ 0x6f ∷ 0x63 ∷ 0x63 ∷ 0x3e ∷ 0x00 ∷ [])
    ∷ (0x63 ∷ 0x63 ∷ 0x63 ∷ 0x7f ∷ 0x63 ∷ 0x63 ∷ 0x63 ∷ 0x00 ∷ [])
    ∷ (0x3c ∷ 0x18 ∷ 0x18 ∷ 0x18 ∷ 0x18 ∷ 0x18 ∷ 0x3c ∷ 0x00 ∷ [])
    ∷ (0x1f ∷ 0x0c ∷ 0x0c ∷ 0x0c ∷ 0x6c ∷ 0x6c ∷ 0x38 ∷ 0x00 ∷ [])
    ∷ (0x63 ∷ 0x66 ∷ 0x6c ∷ 0x78 ∷ 0x6c ∷ 0x66 ∷ 0x63 ∷ 0x00 ∷ [])
    ∷ (0x60 ∷ 0x60 ∷ 0x60 ∷ 0x60 ∷ 0x60 ∷ 0x60 ∷ 0x7f ∷ 0x00 ∷ [])
    ∷ (0x63 ∷ 0x77 ∷ 0x7f ∷ 0x6b ∷ 0x63 ∷ 0x63 ∷ 0x63 ∷ 0x00 ∷ [])
    ∷ (0x63 ∷ 0x73 ∷ 0x7b ∷ 0x6f ∷ 0x67 ∷ 0x63 ∷ 0x63 ∷ 0x00 ∷ [])
    ∷ (0x3e ∷ 0x63 ∷ 0x63 ∷ 0x63 ∷ 0x63 ∷ 0x63 ∷ 0x3e ∷ 0x00 ∷ [])
    ∷ (0x7e ∷ 0x63 ∷ 0x63 ∷ 0x7e ∷ 0x60 ∷ 0x60 ∷ 0x60 ∷ 0x00 ∷ [])
    ∷ (0x3e ∷ 0x63 ∷ 0x63 ∷ 0x63 ∷ 0x63 ∷ 0x3e ∷ 0x0f ∷ 0x00 ∷ [])
    ∷ (0x7e ∷ 0x63 ∷ 0x63 ∷ 0x7e ∷ 0x6c ∷ 0x66 ∷ 0x63 ∷ 0x00 ∷ [])
    ∷ (0x3e ∷ 0x63 ∷ 0x60 ∷ 0x3e ∷ 0x03 ∷ 0x63 ∷ 0x3e ∷ 0x00 ∷ [])
    ∷ (0x7f ∷ 0x18 ∷ 0x18 ∷ 0x18 ∷ 0x18 ∷ 0x18 ∷ 0x18 ∷ 0x00 ∷ [])
    ∷ (0x63 ∷ 0x63 ∷ 0x63 ∷ 0x63 ∷ 0x63 ∷ 0x63 ∷ 0x3e ∷ 0x00 ∷ [])
    ∷ (0x63 ∷ 0x63 ∷ 0x36 ∷ 0x36 ∷ 0x1c ∷ 0x1c ∷ 0x08 ∷ 0x00 ∷ [])
    ∷ (0x63 ∷ 0x63 ∷ 0x63 ∷ 0x6b ∷ 0x7f ∷ 0x77 ∷ 0x63 ∷ 0x00 ∷ [])
    ∷ (0x63 ∷ 0x36 ∷ 0x1c ∷ 0x08 ∷ 0x1c ∷ 0x36 ∷ 0x63 ∷ 0x00 ∷ [])
    ∷ (0x63 ∷ 0x36 ∷ 0x1c ∷ 0x08 ∷ 0x08 ∷ 0x08 ∷ 0x08 ∷ 0x00 ∷ [])
    ∷ (0x7f ∷ 0x06 ∷ 0x0c ∷ 0x18 ∷ 0x30 ∷ 0x60 ∷ 0x7f ∷ 0x00 ∷ [])
    ∷ (0x3c ∷ 0x30 ∷ 0x30 ∷ 0x30 ∷ 0x30 ∷ 0x30 ∷ 0x3c ∷ 0x00 ∷ [])
    ∷ (0xc0 ∷ 0x60 ∷ 0x30 ∷ 0x18 ∷ 0x0c ∷ 0x06 ∷ 0x03 ∷ 0x00 ∷ [])
    ∷ (0x3c ∷ 0x0c ∷ 0x0c ∷ 0x0c ∷ 0x0c ∷ 0x0c ∷ 0x3c ∷ 0x00 ∷ [])
    ∷ (0x08 ∷ 0x1c ∷ 0x36 ∷ 0x63 ∷ 0x00 ∷ 0x00 ∷ 0x00 ∷ 0x00 ∷ [])
    ∷ (0x00 ∷ 0x00 ∷ 0x00 ∷ 0x00 ∷ 0x00 ∷ 0x00 ∷ 0xff ∷ 0x00 ∷ [])
    ∷ (0x30 ∷ 0x18 ∷ 0x0c ∷ 0x00 ∷ 0x00 ∷ 0x00 ∷ 0x00 ∷ 0x00 ∷ [])
    ∷ (0x00 ∷ 0x00 ∷ 0x3e ∷ 0x03 ∷ 0x3f ∷ 0x63 ∷ 0x3f ∷ 0x00 ∷ [])
    ∷ (0x60 ∷ 0x60 ∷ 0x7e ∷ 0x63 ∷ 0x63 ∷ 0x63 ∷ 0x7e ∷ 0x00 ∷ [])
    ∷ (0x00 ∷ 0x00 ∷ 0x3e ∷ 0x63 ∷ 0x60 ∷ 0x63 ∷ 0x3e ∷ 0x00 ∷ [])
    ∷ (0x03 ∷ 0x03 ∷ 0x3f ∷ 0x63 ∷ 0x63 ∷ 0x63 ∷ 0x3f ∷ 0x00 ∷ [])
    ∷ (0x00 ∷ 0x00 ∷ 0x3e ∷ 0x63 ∷ 0x7f ∷ 0x60 ∷ 0x3e ∷ 0x00 ∷ [])
    ∷ (0x1e ∷ 0x30 ∷ 0x30 ∷ 0x7e ∷ 0x30 ∷ 0x30 ∷ 0x30 ∷ 0x00 ∷ [])
    ∷ (0x00 ∷ 0x00 ∷ 0x3f ∷ 0x63 ∷ 0x63 ∷ 0x3f ∷ 0x03 ∷ 0x3e ∷ [])
    ∷ (0x60 ∷ 0x60 ∷ 0x7e ∷ 0x63 ∷ 0x63 ∷ 0x63 ∷ 0x63 ∷ 0x00 ∷ [])
    ∷ (0x18 ∷ 0x00 ∷ 0x38 ∷ 0x18 ∷ 0x18 ∷ 0x18 ∷ 0x3c ∷ 0x00 ∷ [])
    ∷ (0x18 ∷ 0x00 ∷ 0x1c ∷ 0x0c ∷ 0x0c ∷ 0x0c ∷ 0x6c ∷ 0x38 ∷ [])
    ∷ (0x60 ∷ 0x60 ∷ 0x66 ∷ 0x6c ∷ 0x78 ∷ 0x6c ∷ 0x66 ∷ 0x00 ∷ [])
    ∷ (0x38 ∷ 0x18 ∷ 0x18 ∷ 0x18 ∷ 0x18 ∷ 0x18 ∷ 0x3c ∷ 0x00 ∷ [])
    ∷ (0x00 ∷ 0x00 ∷ 0x7f ∷ 0x6b ∷ 0x6b ∷ 0x6b ∷ 0x6b ∷ 0x00 ∷ [])
    ∷ (0x00 ∷ 0x00 ∷ 0x7e ∷ 0x63 ∷ 0x63 ∷ 0x63 ∷ 0x63 ∷ 0x00 ∷ [])
    ∷ (0x00 ∷ 0x00 ∷ 0x3e ∷ 0x63 ∷ 0x63 ∷ 0x63 ∷ 0x3e ∷ 0x00 ∷ [])
    ∷ (0x00 ∷ 0x00 ∷ 0x7e ∷ 0x63 ∷ 0x63 ∷ 0x7e ∷ 0x60 ∷ 0x60 ∷ [])
    ∷ (0x00 ∷ 0x00 ∷ 0x3f ∷ 0x63 ∷ 0x63 ∷ 0x3f ∷ 0x03 ∷ 0x03 ∷ [])
    ∷ (0x00 ∷ 0x00 ∷ 0x6e ∷ 0x73 ∷ 0x60 ∷ 0x60 ∷ 0x60 ∷ 0x00 ∷ [])
    ∷ (0x00 ∷ 0x00 ∷ 0x3e ∷ 0x60 ∷ 0x3e ∷ 0x03 ∷ 0x7e ∷ 0x00 ∷ [])
    ∷ (0x30 ∷ 0x30 ∷ 0x7e ∷ 0x30 ∷ 0x30 ∷ 0x33 ∷ 0x1e ∷ 0x00 ∷ [])
    ∷ (0x00 ∷ 0x00 ∷ 0x63 ∷ 0x63 ∷ 0x63 ∷ 0x63 ∷ 0x3f ∷ 0x00 ∷ [])
    ∷ (0x00 ∷ 0x00 ∷ 0x63 ∷ 0x36 ∷ 0x36 ∷ 0x1c ∷ 0x08 ∷ 0x00 ∷ [])
    ∷ (0x00 ∷ 0x00 ∷ 0x63 ∷ 0x6b ∷ 0x6b ∷ 0x7f ∷ 0x36 ∷ 0x00 ∷ [])
    ∷ (0x00 ∷ 0x00 ∷ 0x36 ∷ 0x1c ∷ 0x08 ∷ 0x1c ∷ 0x36 ∷ 0x00 ∷ [])
    ∷ (0x00 ∷ 0x00 ∷ 0x63 ∷ 0x36 ∷ 0x1c ∷ 0x08 ∷ 0x08 ∷ 0x30 ∷ [])
    ∷ (0x00 ∷ 0x00 ∷ 0x7f ∷ 0x06 ∷ 0x18 ∷ 0x60 ∷ 0x7f ∷ 0x00 ∷ [])
    ∷ (0x0e ∷ 0x18 ∷ 0x18 ∷ 0x30 ∷ 0x18 ∷ 0x18 ∷ 0x0e ∷ 0x00 ∷ [])
    ∷ (0x18 ∷ 0x18 ∷ 0x18 ∷ 0x18 ∷ 0x18 ∷ 0x18 ∷ 0x18 ∷ 0x00 ∷ [])
    ∷ (0x70 ∷ 0x18 ∷ 0x18 ∷ 0x0c ∷ 0x18 ∷ 0x18 ∷ 0x70 ∷ 0x00 ∷ [])
    ∷ (0x3b ∷ 0x6e ∷ 0x00 ∷ 0x00 ∷ 0x00 ∷ 0x00 ∷ 0x00 ∷ 0x00 ∷ [])
    ∷ []
