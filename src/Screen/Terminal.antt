-- ===== src/Screen/Terminal.antt =====
-- kernel/vga/vga_terminal.c: the text terminal on the framebuffer.
use kagami_os.Prelude.{
  ℕ, zero, suc, ◌+◌, ◌-◌, ◌*◌, ◌/◌, ◌%◌, Bool, true, not, ◌||◌, List, [], ◌∷◌, ltb, leb, ◌==◌,
  if◌then◌else◌, get_or, u32, sub32,
}
use kagami_os.Prelude.Bytes.{Bytes}
use kagami_os.Screen.{Pixels, fb_putchar}

-- `terminal`, the variables that start with `fb_`, and the framebuffer's words. `bound` says that
-- `fb_ptr` is not null.
pub record Terminal : Type 0 where
  pub cursor_row : ℕ
  pub cursor_col : ℕ
  pub color : ℕ
  pub bound : Bool
  pub fb_pitch : ℕ
  pub fb_width : ℕ
  pub fb_height : ℕ
  pub fb_cols : ℕ
  pub fb_rows : ℕ
  pub pixels : Pixels

abbrev pub vga_palette : List ℕ
vga_palette =
    0x000000 ∷ 0x0000aa ∷ 0x00aa00 ∷ 0x00aaaa ∷ 0xaa0000 ∷ 0xaa00aa ∷ 0xaa5500 ∷ 0xaaaaaa ∷ 0x555555
    ∷ 0x5555ff ∷ 0x55ff55 ∷ 0x55ffff ∷ 0xff5555 ∷ 0xff55ff ∷ 0xffff55 ∷ 0xffffff ∷ []

unfoldable pub term_color : ℕ → ℕ
term_color color = get_or vga_palette (color % 16) 0

-- The message to the serial port is left out. `framebuffer` is the memory behind the pointer.
unfoldable pub terminal_bind_framebuffer :
    (framebuffer : Pixels) (pitch width height : ℕ) → Terminal → Terminal
terminal_bind_framebuffer framebuffer pitch width height t = record t {
  bound = true;
  fb_pitch = pitch;
  fb_width = width;
  fb_height = height;
  fb_cols = width / 8;
  fb_rows = height / 8;
  pixels = framebuffer;
}

unfoldable pub terminal_init : Terminal → Terminal
terminal_init t = record t { cursor_row = 0; cursor_col = 0; color = 0xf }

-- `row[x] = 0x000000` for `n` values of `x`, where `row` stands at the index `at`.
unfoldable pub clear_row : (n at x : ℕ) → Pixels → Pixels
clear_row zero at x p = p
clear_row (suc n) at x p = clear_row n at (x + 1) (λ i. if i == at + x then 0 else p i)

unfoldable pub clear_rows : (n stride width y : ℕ) → Pixels → Pixels
clear_rows zero stride width y p = p
clear_rows (suc n) stride width y p =
    clear_rows n stride width (y + 1) (clear_row width (u32 (y * stride)) 0 p)

unfoldable pub terminal_clear : Terminal → Terminal
terminal_clear t =
    if not t.bound || ((t.fb_width == 0) || (t.fb_height == 0)) then t else record t {
      cursor_row = 0;
      cursor_col = 0;
      pixels = clear_rows t.fb_height (t.fb_pitch / 4) t.fb_width 0 t.pixels;
    }

unfoldable pub terminal_set_cursor : (row col : ℕ) → Terminal → Terminal
terminal_set_cursor row col t = record t {
  cursor_row = if ltb row t.fb_rows then row else t.cursor_row;
  cursor_col = if ltb col t.fb_cols then col else t.cursor_col;
}

unfoldable pub terminal_get_cursor : Terminal → ℕ × ℕ
terminal_get_cursor t = (t.cursor_row, t.cursor_col)

unfoldable pub terminal_set_color : ℕ → Terminal → Terminal
terminal_set_color color t = record t { color = color }

-- `dst[x] = src[x]` for `n` values of `x`
unfoldable pub copy_row : (n dst src x : ℕ) → Pixels → Pixels
copy_row zero dst src x p = p
copy_row (suc n) dst src x p =
    copy_row n dst src (x + 1) (λ i. if i == dst + x then p (src + x) else p i)

-- `n` rows from `y` on move up by eight.
unfoldable pub scroll_rows : (n stride width y : ℕ) → Pixels → Pixels
scroll_rows zero stride width y p = p
scroll_rows (suc n) stride width y p =
    scroll_rows n stride width (y + 1)
      (copy_row width (u32 ((y - 8) * stride)) (u32 (y * stride)) 0 p)

-- For a height under eight the loop that clears has no round: `fb_height - scroll_px` wraps.
unfoldable pub terminal_scroll : Terminal → Terminal
terminal_scroll t =
    let stride = t.fb_pitch / 4 in
    let from = sub32 t.fb_height 8 in
    if not t.bound || (t.fb_rows == 0) then t else record t {
      cursor_row = t.fb_rows - 1;
      cursor_col = 0;
      pixels =
          clear_rows (t.fb_height - from) stride t.fb_width from
            (scroll_rows (t.fb_height - 8) stride t.fb_width 8 t.pixels);
    }

unfoldable pub scroll_if_below : Terminal → Terminal
scroll_if_below t = if leb t.fb_rows t.cursor_row then terminal_scroll t else t

unfoldable pub terminal_backspace : Terminal → Terminal
terminal_backspace t = if not t.bound || (t.cursor_col == 0) then t else record t {
  cursor_col = t.cursor_col - 1;
  pixels =
      fb_putchar t.fb_pitch (u32 ((t.cursor_col - 1) * 8)) (u32 (t.cursor_row * 8)) b' ' 0 t.pixels;
}

unfoldable pub new_line : Terminal → Terminal
new_line t = scroll_if_below (record t { cursor_row = t.cursor_row + 1; cursor_col = 0 })

-- A character that is neither a newline nor a backspace nor a tab.
unfoldable pub put_glyph : ℕ → Terminal → Terminal
put_glyph c t =
    let t' = record t {
      cursor_col = t.cursor_col + 1;
      pixels =
          fb_putchar t.fb_pitch (u32 (t.cursor_col * 8)) (u32 (t.cursor_row * 8)) c
            (term_color t.color) t.pixels;
    } in
    if leb t.fb_cols (t.cursor_col + 1) then new_line t' else t'

unfoldable pub terminal_putchar : ℕ → Terminal → Terminal
terminal_putchar c t =
    if not t.bound || ((t.fb_cols == 0) || (t.fb_rows == 0))
    then t
    else if c == 10
    then new_line t
    else if c == 8
    then terminal_backspace t
    else if c == 9
    then put_glyph b' ' (put_glyph b' ' (put_glyph b' ' (put_glyph b' ' t)))
    else put_glyph c t

unfoldable pub terminal_write : Bytes → Terminal → Terminal
terminal_write [] t = t
terminal_write (c ∷ str) t = terminal_write str (terminal_putchar c t)
