-- ===== src/Screen.antt =====
-- kernel/core/framebuffer.c: drawing into the framebuffer. The memory behind `fb` is a function from
-- the index of a word to its value; indices are computed in `unsigned int`.
pub mod Font
pub mod Terminal
pub mod Frame
pub mod Grid
pub mod Scroll
pub mod Klog
pub mod Window
mod Tests
use kagami_os.Prelude.{
  ℕ, zero, suc, ◌+◌, ◌-◌, ◌*◌, ◌/◌, Bool, true, false, not, ◌&&◌, ◌||◌, List, [], ◌∷◌, ltb, leb,
  ◌==◌, if◌then◌else◌, has_bit, get_or, u32,
}
use kagami_os.Prelude.Bytes.{Bytes}
use kagami_os.Screen.Font.{glyphs}

abbrev pub Pixels : Type 0
Pixels = ℕ → ℕ

-- The array `font_8x8`, zero where it names no glyph.
unfoldable pub glyph_row : (c row : ℕ) → ℕ
glyph_row c row = if ltb c 32 then 0 else get_or (get_or glyphs (c - 32) []) row 0

unfoldable pub fb_putpixel : (pitch x y color : ℕ) → Pixels → Pixels
fb_putpixel pitch x y color p =
    let at = u32 (y * (pitch / 4) + x) in λ i. if i == at then color else p i

-- `n` columns from `col` on of a row of the glyph.
unfoldable pub draw_row : (n pitch x y bits col color : ℕ) → Pixels → Pixels
draw_row zero pitch x y bits col color p = p
draw_row (suc n) pitch x y bits col color p =
    draw_row n pitch x y bits (col + 1) color
      (if has_bit bits (7 - col) then fb_putpixel pitch (u32 (x + col)) y color p else p)

-- `n` rows from `row` on of the glyph.
unfoldable pub draw_rows : (n pitch x y c row color : ℕ) → Pixels → Pixels
draw_rows zero pitch x y c row color p = p
draw_rows (suc n) pitch x y c row color p =
    draw_rows n pitch x y c (row + 1) color
      (draw_row 8 pitch x (u32 (y + row)) (glyph_row c row) 0 color p)

-- `c` as a byte: from 128 on it is a negative `char`.
unfoldable pub fb_putchar : (pitch x y c color : ℕ) → Pixels → Pixels
fb_putchar pitch x y c color p = if leb 128 c then p else draw_rows 8 pitch x y c 0 color p

-- The loop of `fb_print`, with `x` the column where a line starts.
unfoldable pub print_loop : (pitch x cur_x cur_y : ℕ) → Bytes → (color : ℕ) → Pixels → Pixels
print_loop pitch x cur_x cur_y [] color p = p
print_loop pitch x cur_x cur_y (c ∷ str) color p =
    let below = print_loop pitch x x (u32 (cur_y + 8)) str color p in
    let right =
      print_loop pitch x (u32 (cur_x + 8)) cur_y str color
        (fb_putchar pitch cur_x cur_y c color p) in
    if c == 10 then below else right

unfoldable pub fb_print : (pitch x y : ℕ) → Bytes → (color : ℕ) → Pixels → Pixels
fb_print pitch x y str color p = print_loop pitch x x y str color p
