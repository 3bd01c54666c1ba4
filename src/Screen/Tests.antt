-- ===== src/Screen/Tests.antt =====
-- Runs of the terminal, and its theorems there.
use kagami_os.Prelude.{◌+◌, ◌-◌, ltb, if◌then◌else◌, ◌*◌, ◌/◌, ◌≡◌, refl, false, arith}
use kagami_os.Prelude.Text.{codes}
use kagami_os.Screen.{fb_print, print_loop, fb_putchar, draw_rows, draw_row, glyph_row, fb_putpixel}
use kagami_os.Screen.Terminal.{
  Terminal, terminal_bind_framebuffer, terminal_init, terminal_write, terminal_backspace,
  terminal_scroll,
}
use kagami_os.Screen.Frame.{Outside}
use kagami_os.Screen.Scroll.{terminal_scroll-moves}
use kagami_os.Screen.Grid.{
  Frame, InGrid, terminal_init-InGrid, terminal_write-InGrid, terminal_backspace_blank,
}

-- The first row of `!` is 0x18.
fb_print_runs : fb_print 256 0 0 (codes "!") 7 (λ i. 0) 3 ≡ 7
unfolding fb_print print_loop fb_putchar draw_rows draw_row glyph_row fb_putpixel
fb_print_runs = refl

abbrev unbound : Terminal
unbound = record {
  cursor_row = 0;
  cursor_col = 0;
  color = 0xf;
  bound = false;
  fb_pitch = 0;
  fb_width = 0;
  fb_height = 0;
  fb_cols = 0;
  fb_rows = 0;
  pixels = λ i. 0;
}

abbrev screen : Terminal
screen = terminal_init (terminal_bind_framebuffer (λ i. i) 2560 640 480 unbound)

screen-Frame : Frame 2560 640 480
screen-Frame = record {
  wide = omega arith;
  small = omega arith;
  narrow = omega arith;
  low = omega arith;
  columns = omega arith;
  rows = omega arith;
}

terminal_write-InGrid_example :
    InGrid 2560 640 480 (terminal_write (codes "ls\n\tok") screen)
    × Outside (480 * (2560 / 4)) screen.pixels (terminal_write (codes "ls\n\tok") screen).pixels
terminal_write-InGrid_example =
    terminal_write-InGrid 2560 640 480 screen-Frame (codes "ls\n\tok") screen
      (terminal_init-InGrid 2560 640 480 (λ i. i) unbound screen-Frame)

terminal_backspace_blank_example :
    (terminal_backspace (record screen { cursor_col = 3 })).pixels ≡ screen.pixels
unfolding terminal_init terminal_bind_framebuffer
terminal_backspace_blank_example = terminal_backspace_blank (record screen { cursor_col = 3 })

terminal_scroll-moves_example :
    (terminal_scroll screen).pixels (5 * (2560 / 4) + 7)
    ≡ (if ltb 5 (480 - 8) then screen.pixels ((5 + 8) * (2560 / 4) + 7) else 0)
unfolding terminal_init terminal_bind_framebuffer
terminal_scroll-moves_example =
    terminal_scroll-moves screen 5 7 refl (omega arith) (omega arith) (omega arith) (omega arith)
      (omega arith) (omega arith) (omega arith)
