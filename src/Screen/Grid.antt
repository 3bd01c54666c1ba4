-- ===== src/Screen/Grid.antt =====
-- The terminal of kernel/vga/vga_terminal.c keeps its cursor in the grid and writes only in the
-- framebuffer.
use native.Mathlib.Nat.{zero-div}
use kagami_os.Prelude.{
  ℕ, zero, suc, ◌+◌, ◌-◌, ◌*◌, ◌/◌, ◌^◌, ◌≤◌, ◌<◌, ◌≡◌, refl, ◌∙◌, Bool, true, false, not, ◌||◌,
  List, [], ◌∷◌, arith, leb, ◌==◌, Bool-cases, inl, inr, u32, All, get_or, sub32, has_bit,
}
use kagami_os.Prelude.Bytes.{Bytes}
use kagami_os.Screen.{Pixels, fb_putchar, draw_rows, draw_row, glyph_row}
use kagami_os.Screen.Terminal.{
  Terminal, term_color, terminal_bind_framebuffer, terminal_init, terminal_scroll, scroll_if_below,
  terminal_backspace, new_line, put_glyph, terminal_putchar, terminal_write, clear_rows,
  scroll_rows,
}
use kagami_os.Screen.Frame.{Outside, clear_rows-Outside, scroll_rows-Outside, fb_putchar-Outside}

-- A framebuffer of `height` rows of `pitch / 4` words, of which `width` are shown, for a grid of at
-- least one cell.
pub record Frame (pitch width height : ℕ) : Type 0 where
  pub wide : width ≤ pitch / 4
  pub small : height * (pitch / 4) < 2 ^ 32
  pub narrow : pitch / 4 < 2 ^ 32
  pub low : height < 2 ^ 32
  pub columns : 8 ≤ width
  pub rows : 8 ≤ height

-- The terminal is bound to that framebuffer, and the cursor is in the grid.
pub record InGrid (pitch width height : ℕ) (t : Terminal) : Type 0 where
  pub is_bound : t.bound ≡ true
  pub same_pitch : t.fb_pitch ≡ pitch
  pub same_width : t.fb_width ≡ width
  pub same_height : t.fb_height ≡ height
  pub same_cols : t.fb_cols ≡ width / 8
  pub same_rows : t.fb_rows ≡ height / 8
  pub row_in : t.cursor_row < height / 8
  pub col_in : t.cursor_col < width / 8

module _ (pitch width height : ℕ) (f : Frame pitch width height) where
  -- A step of the terminal: in the grid again, and nothing behind the framebuffer is written.
  abbrev Stays : Terminal → Terminal → Type 0
  Stays t t' = InGrid pitch width height t' × Outside (height * (pitch / 4)) t.pixels t'.pixels

  module _ (t : Terminal) (g : InGrid pitch width height t) where
    moved :
        (row col : ℕ) (p : Pixels)
        → row < height / 8
        → col < width / 8
        → Outside (height * (pitch / 4)) t.pixels p
        → Stays t (record t { cursor_row = row; cursor_col = col; pixels = p })
    moved row col p r c o = (
      record {
        is_bound = g.is_bound;
        same_pitch = g.same_pitch;
        same_width = g.same_width;
        same_height = g.same_height;
        same_cols = g.same_cols;
        same_rows = g.same_rows;
        row_in = r;
        col_in = c;
      },
      o,
    )

    cell-Outside :
        (row col c color : ℕ)
        → row < height / 8
        → col < width / 8
        → Outside
            (height * (pitch / 4))
            t.pixels
            (fb_putchar t.fb_pitch (u32 (col * 8)) (u32 (row * 8)) c color t.pixels)
    cell-Outside row col c color r k =
        let wide = f.wide in
        let narrow = f.narrow in
        let low = f.low in
        let x : u32 (col * 8) ≡ col * 8 = omega arith in
        let y : u32 (row * 8) ≡ row * 8 = omega arith in
        rw (x, y, g.same_pitch)
          (fb_putchar-Outside pitch height f.small (col * 8) (row * 8) c color t.pixels
            (omega arith) f.narrow (omega arith) f.low)

    terminal_backspace-Stays : Stays t (terminal_backspace t)
    unfolding terminal_backspace
    terminal_backspace-Stays =
        let left = g.col_in in
        elim (Bool-cases (not t.bound || (t.cursor_col == 0))) [
          | inl e ↦ rw e (g, λ i out. refl)
          | inr e ↦ rw e (
              moved t.cursor_row (t.cursor_col - 1) _ g.row_in (omega arith)
                (cell-Outside t.cursor_row (t.cursor_col - 1) b' ' 0 g.row_in (omega arith)))
        ]

    scrolled : Pixels
    scrolled =
        let from = sub32 t.fb_height 8 in
        clear_rows (t.fb_height - from) (t.fb_pitch / 4) t.fb_width from
          (scroll_rows (t.fb_height - 8) (t.fb_pitch / 4) t.fb_width 8 t.pixels)

    scrolled-Outside : Outside (height * (pitch / 4)) t.pixels scrolled
    unfolding scrolled
    scrolled-Outside i out =
        let rows = f.rows in
        let low = f.low in
        let stride = pitch / 4 in
        let p = scroll_rows (height - 8) stride width 8 t.pixels in
        let from : sub32 height 8 ≡ height - 8 = omega arith in
        rw (g.same_height, g.same_width, g.same_pitch, from)
          (clear_rows-Outside stride height f.small (height - (height - 8)) width (height - 8) p
              (omega arith) f.wide i out
            ∙ scroll_rows-Outside stride height f.small (height - 8) width 8 t.pixels (omega arith)
                f.wide i out)

    new_line-Stays : Stays t (new_line t)
    unfolding new_line scroll_if_below terminal_scroll scrolled
    new_line-Stays =
        let rows = f.rows in
        let columns = f.columns in
        let here = g.row_in in
        let same = g.same_rows in
        let on : (not t.bound || (t.fb_rows == 0)) ≡ false =
          in_use t.bound t.fb_rows g.is_bound (omega arith) in
        elim (Bool-cases (leb t.fb_rows (t.cursor_row + 1))) [
          | inl below ↦ rw below (
              rw on (moved (t.fb_rows - 1) 0 scrolled (omega arith) (omega arith) scrolled-Outside))
          | inr above ↦
              rw above
                (moved (t.cursor_row + 1) 0 t.pixels (ground arith) (omega arith) (λ i out. refl))
        ]
      where
        in_use : (b : Bool) (r : ℕ) → b ≡ true → 0 < r → (not b || (r == 0)) ≡ false
        in_use true r e pos = ground arith
        in_use false r e pos = cc

    put_glyph-drawn :
        (c : ℕ)
        → Outside (height * (pitch / 4)) t.pixels (
            fb_putchar t.fb_pitch
              (u32 (t.cursor_col * 8))
              (u32 (t.cursor_row * 8))
              c
              (term_color t.color)
              t.pixels)
    put_glyph-drawn c =
        cell-Outside t.cursor_row t.cursor_col c (term_color t.color) g.row_in g.col_in

  Stays-trans :
      (t t' t'' : Terminal)
      → Stays t t'
      → Outside (height * (pitch / 4)) t'.pixels t''.pixels
      → InGrid pitch width height t''
      → Stays t t''
  Stays-trans t t' t'' (g, o) o' g' = (g', λ i out. o' i out ∙ o i out)

  put_glyph-Stays : (c : ℕ) (t : Terminal) → InGrid pitch width height t → Stays t (put_glyph c t)
  unfolding put_glyph new_line
  put_glyph-Stays c t g =
      let p : Pixels =
        fb_putchar t.fb_pitch (u32 (t.cursor_col * 8)) (u32 (t.cursor_row * 8)) c
          (term_color t.color) t.pixels in
      let drawn = moved t g t.cursor_row t.cursor_col p g.row_in g.col_in (put_glyph-drawn t g c) in
      let t' : Terminal = record t { pixels = p } in
      let (g', o) = new_line-Stays t' drawn.0 in
      let same = g.same_cols in
      elim (Bool-cases (leb t.fb_cols (t.cursor_col + 1))) [
        | inl full ↦ rw full (Stays-trans t t' (new_line t') drawn o g')
        | inr room ↦
            rw room (moved t g t.cursor_row (t.cursor_col + 1) p g.row_in (ground arith) drawn.1)
      ]

  -- One step after another.
  then_glyph : (c : ℕ) (t t' : Terminal) → Stays t t' → Stays t (put_glyph c t')
  then_glyph c t t' (g, o) =
      let (g', o') = put_glyph-Stays c t' g in (g', λ i out. o' i out ∙ o i out)

  terminal_putchar-Stays :
      (c : ℕ) (t : Terminal) → InGrid pitch width height t → Stays t (terminal_putchar c t)
  unfolding terminal_putchar
  terminal_putchar-Stays c t g =
      elim (Bool-cases (not t.bound || ((t.fb_cols == 0) || (t.fb_rows == 0)))) [
        | inl e ↦ rw e (g, λ i out. refl)
        | inr e ↦ rw e (elim (Bool-cases (c == 10)) [
          | inl e ↦ rw e (new_line-Stays t g)
          | inr e ↦ rw e (elim (Bool-cases (c == 8)) [
            | inl e ↦ rw e (terminal_backspace-Stays t g)
            | inr e ↦ rw e (elim (Bool-cases (c == 9)) [
              | inl e ↦ rw e (
                  then_glyph b' ' t _
                    (then_glyph b' ' t _ (then_glyph b' ' t _ (put_glyph-Stays b' ' t g))))
              | inr e ↦ rw e (put_glyph-Stays c t g)
            ])
          ])
        ])
      ]

  -- Whatever is written to a terminal that is bound to a framebuffer of `height` rows of `pitch / 4`
  -- words, with the cursor in a grid of at least one cell: the cursor stays in the grid, over line
  -- breaks, tabs, backspaces and scrolling, and no word behind the framebuffer changes.
  pub terminal_write-InGrid :
      (str : Bytes) (t : Terminal)
      → InGrid pitch width height t
      → InGrid pitch width height (terminal_write str t)
        × Outside (height * (pitch / 4)) t.pixels (terminal_write str t).pixels
  unfolding terminal_write
  terminal_write-InGrid [] t g = (g, λ i out. refl)
  terminal_write-InGrid (c ∷ str) t g =
      let (g', o) = terminal_putchar-Stays c t g in
      let (g'', o') = terminal_write-InGrid str (terminal_putchar c t) g' in
      (g'', λ i out. o' i out ∙ o i out)

-- A terminal that has been bound and initialised.
pub terminal_init-InGrid :
    (pitch width height : ℕ) (framebuffer : Pixels) (t : Terminal)
    → Frame pitch width height
    → InGrid pitch width height
        (terminal_init (terminal_bind_framebuffer framebuffer pitch width height t))
unfolding terminal_init terminal_bind_framebuffer
terminal_init-InGrid pitch width height framebuffer t f =
    let columns = f.columns in
    let rows = f.rows in
    record {
      is_bound = refl;
      same_pitch = refl;
      same_width = refl;
      same_height = refl;
      same_cols = refl;
      same_rows = refl;
      row_in = omega arith;
      col_in = omega arith;
    }

-- The glyph of a space has no dot.
no_dots : (xs : List ℕ) (i : ℕ) → All (λ x. x ≡ 0) xs → get_or xs i 0 ≡ 0
no_dots [] i a = refl
no_dots (x ∷ xs) zero (e, a) = e
no_dots (x ∷ xs) (suc i) (e, a) = no_dots xs i a

space_glyph : (row : ℕ) → glyph_row b' ' row ≡ 0
unfolding glyph_row
space_glyph row =
    no_dots (0 ∷ 0 ∷ 0 ∷ 0 ∷ 0 ∷ 0 ∷ 0 ∷ 0 ∷ []) row
      (refl, (refl, (refl, (refl, (refl, (refl, (refl, (refl, tt))))))))

zero_bit : (i : ℕ) → has_bit 0 i ≡ false
zero_bit i = rw (zero-div (2 ^ i)) refl

draw_row-blank : (n pitch x y col color : ℕ) (p : Pixels) → draw_row n pitch x y 0 col color p ≡ p
unfolding draw_row
draw_row-blank zero pitch x y col color p = refl
draw_row-blank (suc n) pitch x y col color p =
    rw (zero_bit (7 - col)) (draw_row-blank n pitch x y (col + 1) color p)

draw_rows-space :
    (n pitch x y row color : ℕ) (p : Pixels) → draw_rows n pitch x y b' ' row color p ≡ p
unfolding draw_rows
draw_rows-space zero pitch x y row color p = refl
draw_rows-space (suc n) pitch x y row color p =
    rw (space_glyph row, draw_row-blank 8 pitch x (u32 (y + row)) 0 color p)
      (draw_rows-space n pitch x y (row + 1) color p)

-- Backspace draws a space, which has no dots: whatever the terminal's state, it leaves every word of
-- the framebuffer as it is, so the character stays on the screen.
pub terminal_backspace_blank : (t : Terminal) → (terminal_backspace t).pixels ≡ t.pixels
unfolding terminal_backspace fb_putchar
terminal_backspace_blank t = elim (Bool-cases (not t.bound || (t.cursor_col == 0))) [
  | inl e ↦ rw e refl
  | inr e ↦ rw e (
      draw_rows-space 8 t.fb_pitch (u32 ((t.cursor_col - 1) * 8)) (u32 (t.cursor_row * 8)) 0 0
        t.pixels)
]
