-- ===== src/Screen/Klog.antt =====
-- kernel/core/klog.c: the window of the kernel's log on the framebuffer.
use kagami_os.Prelude.{
  ℕ, zero, suc, ◌+◌, ◌-◌, ◌*◌, ◌/◌, Bool, true, not, ◌||◌, [], ◌∷◌, ◌++◌, length, ltb, leb, ◌==◌,
  if◌then◌else◌, take, u32, sub32,
}
use kagami_os.Prelude.Bytes.{Bytes}
use kagami_os.Prelude.Text.{codes}
use kagami_os.Screen.{Pixels, fb_print}
use kagami_os.Screen.Terminal.{copy_row}

-- `g_klog` and the framebuffer's words; `bound` says that `fb` is not null.
pub record KlogState : Type 0 where
  pub bound : Bool
  pub pitch : ℕ
  pub width : ℕ
  pub height : ℕ
  pub window_x : ℕ
  pub window_y : ℕ
  pub window_width : ℕ
  pub window_height : ℕ
  pub cursor_y : ℕ
  pub line_height : ℕ
  pub enabled : Bool
  pub pixels : Pixels

-- The inner loop of `fb_clear_rect`: `n` columns from `col` on, in the row at the index `at`.
unfoldable pub clear_columns : (n at width x col color : ℕ) → Pixels → Pixels
clear_columns zero at width x col color p = p
clear_columns (suc n) at width x col color p =
    let place = u32 (x + col) in
    clear_columns n at width x (col + 1) color
      (if ltb place width then (λ i. if i == at + place then color else p i) else p)

-- The outer loop: `n` rows from `row` on.
unfoldable pub clear_lines : (n pitch width x y row w color : ℕ) → Pixels → Pixels
clear_lines zero pitch width x y row w color p = p
clear_lines (suc n) pitch width x y row w color p =
    clear_lines n pitch width x y (row + 1) w color
      (clear_columns w (u32 (u32 (y + row) * (pitch / 4))) width x 0 color p)

unfoldable pub fb_clear_rect : (pitch width x y w h color : ℕ) → Pixels → Pixels
fb_clear_rect pitch width x y w h color p = clear_lines h pitch width x y 0 w color p

-- `n` rows of the window from `y` on move up by `line`.
unfoldable pub move_lines : (n stride window_x window_y window_w line y : ℕ) → Pixels → Pixels
move_lines zero stride window_x window_y window_w line y p = p
move_lines (suc n) stride window_x window_y window_w line y p =
    move_lines n stride window_x window_y window_w line (y + 1) (
      copy_row window_w (u32 (u32 (window_y + y) * stride) + window_x)
        (u32 (u32 (window_y + y + line) * stride) + window_x) 0 p)

unfoldable pub klog_scroll : KlogState → KlogState
klog_scroll s =
    let line = s.line_height in
    if not s.bound then s else record s {
      cursor_y = if leb line s.cursor_y then s.cursor_y - line else s.window_y;
      pixels =
          fb_clear_rect s.pitch s.width s.window_x (sub32 (u32 (s.window_y + s.window_height)) line)
            s.window_width line 0
            (move_lines (s.window_height - line) (s.pitch / 4) s.window_x s.window_y s.window_width
              line 0 s.pixels);
    }

unfoldable pub scroll_if_full : KlogState → KlogState
scroll_if_full s =
    if ltb (u32 (s.window_y + s.window_height)) (u32 (s.cursor_y + s.line_height))
    then klog_scroll s
    else s

-- One line at the cursor; the buffer takes 191 characters.
unfoldable pub draw_line : (prefix line : Bytes) (color : ℕ) → KlogState → KlogState
draw_line prefix line color s = record s {
  cursor_y = u32 (s.cursor_y + s.line_height);
  pixels =
      fb_print s.pitch s.window_x s.cursor_y (take 191 (prefix ++ line)) color (
        fb_clear_rect s.pitch s.width s.window_x s.cursor_y s.window_width s.line_height 0
          s.pixels);
}

unfoldable pub klog_write_line : (prefix line : Bytes) (color : ℕ) → KlogState → KlogState
klog_write_line prefix line color s =
    if not s.enabled || not s.bound then s else draw_line prefix line color (scroll_if_full s)

-- The loop of `klog_write`, with the line so far.
unfoldable pub write_loop : (prefix line msg : Bytes) (color : ℕ) → KlogState → KlogState
write_loop prefix line [] color s =
    if length line == 0 then s else klog_write_line prefix line color s
write_loop prefix line (c ∷ msg) color s =
    let broken = write_loop prefix [] msg color (klog_write_line prefix line color s) in
    let longer = write_loop prefix (line ++ (c ∷ [])) msg color s in
    let full = write_loop prefix line msg color s in
    if c == 10 then broken else if ltb (length line) 159 then longer else full

-- The message is not null.
unfoldable pub klog_write : (prefix msg : Bytes) (color : ℕ) → KlogState → KlogState
klog_write prefix msg color s =
    let written = write_loop prefix [] msg color s in
    if not s.enabled || not s.bound then s else written

-- `framebuffer` is the memory behind the pointer, which is not null.
unfoldable pub klog_init_fb :
    (framebuffer : Pixels) (pitch width height : ℕ) → KlogState → KlogState
klog_init_fb framebuffer pitch width height s =
    let window_width = if ltb 20 width then width - 20 else width in
    let tall =
      if ltb 140 height then 120 else if ltb 80 height then height / 2 else sub32 height 20 in
    let window_height = if ltb tall 30 then 30 else tall in
    if (pitch == 0) || ((width == 0) || (height == 0)) then s else record {
      bound = true;
      pitch = pitch;
      width = width;
      height = height;
      window_x = 10;
      window_y = 10;
      window_width = window_width;
      window_height = window_height;
      cursor_y = 10;
      line_height = 10;
      enabled = true;
      pixels = fb_clear_rect pitch width 10 10 window_width window_height 0 framebuffer;
    }

unfoldable pub klog_enable : Bool → KlogState → KlogState
klog_enable enabled s = record s { enabled = enabled }

unfoldable pub klog_info : Bytes → KlogState → KlogState
klog_info msg s = klog_write (codes "I: ") msg 0x00aaffaa s

unfoldable pub klog_error : Bytes → KlogState → KlogState
klog_error msg s = klog_write (codes "E: ") msg 0x00ff5555 s
