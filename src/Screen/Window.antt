-- ===== src/Screen/Window.antt =====
-- The lines of the log of kernel/core/klog.c stay in its window.
use kagami_os.Prelude.{
  ℕ, ◌+◌, ◌-◌, ◌*◌, ◌≤◌, ◌<◌, ◌^◌, ◌≡◌, refl, Bool, true, false, not, ◌||◌, [], ◌∷◌, ◌++◌, length,
  ltb, leb, ◌==◌, u32, arith, Bool-cases, inl, inr,
}
use kagami_os.Prelude.Bytes.{Bytes}
use kagami_os.Screen.{Pixels}
use kagami_os.Screen.Klog.{
  KlogState, klog_scroll, scroll_if_full, draw_line, klog_write_line, write_loop, klog_write,
  klog_init_fb,
}

-- The log is bound; the next line starts in the window or right below it, and the window has room
-- for three lines.
pub record InWindow (s : KlogState) : Type 0 where
  pub is_bound : s.bound ≡ true
  pub from_top : s.window_y ≤ s.cursor_y
  pub to_end : s.cursor_y ≤ s.window_y + s.window_height
  pub lines : s.line_height * 3 ≤ s.window_height
  pub small : s.window_y + s.window_height + s.line_height < 2 ^ 32

-- The line that is drawn at the cursor lies in the window.
pub record LineFits (s : KlogState) : Type 0 where
  pub window : InWindow s
  pub inside : s.cursor_y + s.line_height ≤ s.window_y + s.window_height

moved :
    (s : KlogState) (y : ℕ) (p : Pixels)
    → InWindow s
    → s.window_y ≤ y
    → y ≤ s.window_y + s.window_height
    → InWindow (record s { cursor_y = y; pixels = p })
moved s y p w a b = record {
  is_bound = w.is_bound;
  from_top = a;
  to_end = b;
  lines = w.lines;
  small = w.small;
}

-- After the test for a full window, a line at the cursor fits.
pub scroll_if_full-LineFits : (s : KlogState) → InWindow s → LineFits (scroll_if_full s)
unfolding scroll_if_full klog_scroll
scroll_if_full-LineFits s w =
    let a = w.from_top in
    let b = w.to_end in
    let c = w.lines in
    let d = w.small in
    let is_bound : not s.bound ≡ false = bound_lem s.bound w.is_bound in
    elim (Bool-cases
      (ltb (u32 (s.window_y + s.window_height)) (u32 (s.cursor_y + s.line_height)))) [
        | inl full ↦
            (let up : leb s.line_height s.cursor_y ≡ true = ground arith in
              rw full (
                rw is_bound (
                  rw up (record {
                    window = moved s (s.cursor_y - s.line_height) _ w (ground arith) (omega arith);
                    inside = ground arith;
                  }))))
        | inr room ↦ rw room (record { window = w; inside = ground arith })
      ]
  where
    bound_lem : (x : Bool) → x ≡ true → not x ≡ false
    bound_lem true e = refl
    bound_lem false e = cc

klog_write_line-InWindow :
    (prefix line : Bytes) (color : ℕ) (s : KlogState)
    → InWindow s
    → InWindow (klog_write_line prefix line color s)
unfolding klog_write_line draw_line
klog_write_line-InWindow prefix line color s w =
    let t = scroll_if_full s in
    let f = scroll_if_full-LineFits s w in
    let a = f.inside in
    let b = f.window.small in
    let c = f.window.from_top in
    elim (Bool-cases (not s.enabled || not s.bound)) [
      | inl e ↦ rw e w
      | inr e ↦
          rw e (moved t (u32 (t.cursor_y + t.line_height)) _ f.window (omega arith) (omega arith))
    ]

write_loop-InWindow :
    (prefix line msg : Bytes) (color : ℕ) (s : KlogState)
    → InWindow s
    → InWindow (write_loop prefix line msg color s)
unfolding write_loop
write_loop-InWindow prefix line [] color s w = elim (Bool-cases (length line == 0)) [
  | inl e ↦ rw e w
  | inr e ↦ rw e (klog_write_line-InWindow prefix line color s w)
]
write_loop-InWindow prefix line (c ∷ msg) color s w = elim (Bool-cases (c == 10)) [
  | inl e ↦ rw e (
      write_loop-InWindow prefix [] msg color (klog_write_line prefix line color s)
        (klog_write_line-InWindow prefix line color s w))
  | inr e ↦ rw e (elim (Bool-cases (ltb (length line) 159)) [
    | inl e ↦ rw e (write_loop-InWindow prefix (line ++ (c ∷ [])) msg color s w)
    | inr e ↦ rw e (write_loop-InWindow prefix line msg color s w)
  ])
]

-- Whatever is logged, the next line starts in the window or right below it.
pub klog_write-InWindow :
    (prefix msg : Bytes) (color : ℕ) (s : KlogState)
    → InWindow s
    → InWindow (klog_write prefix msg color s)
unfolding klog_write
klog_write-InWindow prefix msg color s w = elim (Bool-cases (not s.enabled || not s.bound)) [
  | inl e ↦ rw e w
  | inr e ↦ rw e (write_loop-InWindow prefix [] msg color s w)
]

-- The window that is set up, on a framebuffer of 20 rows or more.
pub klog_init_fb-InWindow :
    (framebuffer : Pixels) (pitch width height : ℕ) (s : KlogState)
    → 0 < pitch
    → 0 < width
    → 0 < height
    → height < 2 ^ 31
    → 20 ≤ height
    → InWindow (klog_init_fb framebuffer pitch width height s)
unfolding klog_init_fb
klog_init_fb-InWindow framebuffer pitch width height s p w h low high =
    let sized : ((pitch == 0) || ((width == 0) || (height == 0))) ≡ false = ground arith in
    rw sized (record {
      is_bound = refl;
      from_top = omega arith;
      to_end = omega arith;
      lines = ground arith;
      small = ground arith;
    })
