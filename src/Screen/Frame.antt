-- ===== src/Screen/Frame.antt =====
-- Drawing of kernel/core/framebuffer.c and the loops of kernel/vga/vga_terminal.c stay in the
-- framebuffer.
use native.Mathlib.Nat.{mul-le-mul_right}
use kagami_os.Prelude.{
  ℕ, zero, suc, ◌+◌, ◌-◌, ◌*◌, ◌/◌, ◌^◌, ◌≤◌, ◌<◌, ◌≡◌, refl, ◌∙◌, false, arith, leb, ◌==◌,
  if◌then◌else◌, has_bit, Bool-cases, inl, inr, u32,
}
use kagami_os.Screen.{Pixels, fb_putpixel, draw_row, draw_rows, glyph_row, fb_putchar}
use kagami_os.Screen.Terminal.{clear_row, clear_rows, copy_row, scroll_rows}

-- No word from `limit` on changes.
abbrev pub Outside : (limit : ℕ) → Pixels → Pixels → Type 0
Outside limit p q = (i : ℕ) → limit ≤ i → q i ≡ p i

-- A word in the row `y` of `height` rows lies in front of the end.
pub index_le : (stride height y k : ℕ) → y < height → k ≤ stride → y * stride + k ≤ height * stride
index_le stride height y k below le =
    let rows : suc y * stride ≤ height * stride = mul-le-mul_right stride (omega arith) in
    let one : suc y * stride ≡ y * stride + stride = ground arith in omega (arith, rows, one)

module _ (stride height : ℕ) (small : height * stride < 2 ^ 32) where
  clear_row-Outside :
      (n at x : ℕ) (p : Pixels)
      → at + x + n ≤ height * stride
      → Outside (height * stride) p (clear_row n at x p)
  unfolding clear_row
  clear_row-Outside zero at x p le i out = refl
  clear_row-Outside (suc n) at x p le i out =
      let here : (i == at + x) ≡ false = ground arith in
      clear_row-Outside n at (x + 1) (λ i. if i == at + x then 0 else p i) (omega arith) i out
      ∙ rw here refl

  pub clear_rows-Outside :
      (n width y : ℕ) (p : Pixels)
      → y + n ≤ height
      → width ≤ stride
      → Outside (height * stride) p (clear_rows n stride width y p)
  unfolding clear_rows
  clear_rows-Outside zero width y p le wide i out = refl
  clear_rows-Outside (suc n) width y p le wide i out =
      let at = index_le stride height y width (omega arith) wide in
      let same : u32 (y * stride) ≡ y * stride = omega (arith, at, small) in
      clear_rows-Outside n width (y + 1) (clear_row width (u32 (y * stride)) 0 p) (omega arith) wide
        i out
      ∙ clear_row-Outside width (u32 (y * stride)) 0 p (omega (arith, same, at)) i out

  copy_row-Outside :
      (n dst src x : ℕ) (p : Pixels)
      → dst + x + n ≤ height * stride
      → Outside (height * stride) p (copy_row n dst src x p)
  unfolding copy_row
  copy_row-Outside zero dst src x p le i out = refl
  copy_row-Outside (suc n) dst src x p le i out =
      let here : (i == dst + x) ≡ false = ground arith in
      copy_row-Outside n dst src (x + 1) (λ i. if i == dst + x then p (src + x) else p i)
        (omega arith) i out
      ∙ rw here refl

  pub scroll_rows-Outside :
      (n width y : ℕ) (p : Pixels)
      → y + n ≤ height
      → width ≤ stride
      → Outside (height * stride) p (scroll_rows n stride width y p)
  unfolding scroll_rows
  scroll_rows-Outside zero width y p le wide i out = refl
  scroll_rows-Outside (suc n) width y p le wide i out =
      let at = index_le stride height (y - 8) width (omega arith) wide in
      let same : u32 ((y - 8) * stride) ≡ (y - 8) * stride = omega (arith, at, small) in
      scroll_rows-Outside n width (y + 1)
        (copy_row width (u32 ((y - 8) * stride)) (u32 (y * stride)) 0 p) (omega arith) wide i out
      ∙ copy_row-Outside width (u32 ((y - 8) * stride)) (u32 (y * stride)) 0 p
          (omega (arith, same, at)) i out

module _ (pitch height : ℕ) (small : height * (pitch / 4) < 2 ^ 32) where
  fb_putpixel-Outside :
      (x y color : ℕ) (p : Pixels)
      → x < pitch / 4
      → y < height
      → Outside (height * (pitch / 4)) p (fb_putpixel pitch x y color p)
  unfolding fb_putpixel
  fb_putpixel-Outside x y color p left above i out =
      let at = index_le (pitch / 4) height y (suc x) above (omega arith) in
      let same : u32 (y * (pitch / 4) + x) ≡ y * (pitch / 4) + x = omega (arith, at, small) in
      let here : (i == u32 (y * (pitch / 4) + x)) ≡ false = ground (arith, same, at) in rw here refl

  draw_row-Outside :
      (n x y bits col color : ℕ) (p : Pixels)
      → x + (col + n) ≤ pitch / 4
      → pitch / 4 < 2 ^ 32
      → y < height
      → Outside (height * (pitch / 4)) p (draw_row n pitch x y bits col color p)
  unfolding draw_row
  draw_row-Outside zero x y bits col color p left narrow above i out = refl
  draw_row-Outside (suc n) x y bits col color p left narrow above i out =
      let same : u32 (x + col) ≡ x + col = omega arith in
      let rest = λ (q : Pixels).
        draw_row-Outside n x y bits (col + 1) color q (omega arith) narrow above i out in
      elim (Bool-cases (has_bit bits (7 - col))) [
        | inl dot ↦ rw dot (
            rest (fb_putpixel pitch (u32 (x + col)) y color p)
            ∙ fb_putpixel-Outside (u32 (x + col)) y color p (omega (arith, same)) above i out)
        | inr none ↦ rw none (rest p)
      ]

  draw_rows-Outside :
      (n x y c row color : ℕ) (p : Pixels)
      → x + 8 ≤ pitch / 4
      → pitch / 4 < 2 ^ 32
      → y + (row + n) ≤ height
      → height < 2 ^ 32
      → Outside (height * (pitch / 4)) p (draw_rows n pitch x y c row color p)
  unfolding draw_rows
  draw_rows-Outside zero x y c row color p left narrow above low i out = refl
  draw_rows-Outside (suc n) x y c row color p left narrow above low i out =
      let same : u32 (y + row) ≡ y + row = omega arith in
      draw_rows-Outside n x y c (row + 1) color
        (draw_row 8 pitch x (u32 (y + row)) (glyph_row c row) 0 color p) left narrow (omega arith)
        low i out
      ∙ draw_row-Outside 8 x (u32 (y + row)) (glyph_row c row) 0 color p (omega arith) narrow
          (omega (arith, same)) i out

  -- A character whose cell lies in the framebuffer writes nothing behind it.
  pub fb_putchar-Outside :
      (x y c color : ℕ) (p : Pixels)
      → x + 8 ≤ pitch / 4
      → pitch / 4 < 2 ^ 32
      → y + 8 ≤ height
      → height < 2 ^ 32
      → Outside (height * (pitch / 4)) p (fb_putchar pitch x y c color p)
  unfolding fb_putchar
  fb_putchar-Outside x y c color p left narrow above low i out = elim (Bool-cases (leb 128 c)) [
    | inl e ↦ rw e refl
    | inr e ↦ rw e (draw_rows-Outside 8 x y c 0 color p left narrow (omega arith) low i out)
  ]
