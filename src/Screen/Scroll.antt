-- ===== src/Screen/Scroll.antt =====
-- What scrolling in kernel/vga/vga_terminal.c makes of the rows that are shown.
use native.Mathlib.Nat.{mul-le-mul_right}
use kagami_os.Prelude.{
  ℕ, zero, suc, ◌+◌, ◌-◌, ◌*◌, ◌/◌, ◌^◌, ◌≤◌, ◌<◌, ◌≡◌, refl, ap, ◌∙◌, Bool, true, false, not, ◌&&◌,
  ◌||◌, arith, ltb, leb, ◌==◌, if◌then◌else◌, Bool-cases, inl, inr, u32, sub32,
}
use kagami_os.Screen.{Pixels}
use kagami_os.Screen.Terminal.{
  Terminal, clear_row, clear_rows, copy_row, scroll_rows, terminal_scroll,
}
use kagami_os.Screen.Frame.{index_le}

copy_row_lem :
    (n dst src x : ℕ) (p : Pixels) (i : ℕ)
    → dst ≤ src
    → copy_row n dst src x p i
      ≡ (if leb (dst + x) i && ltb i (dst + x + n) then p (src + (i - dst)) else p i)
unfolding copy_row
copy_row_lem zero dst src x p i le =
    let none : (leb (dst + x) i && ltb i (dst + x + 0)) ≡ false = ground arith in rw none refl
copy_row_lem (suc n) dst src x p i le =
    let q : Pixels = λ j. if j == dst + x then p (src + x) else p j in
    let rest = copy_row_lem n dst src (x + 1) q i le in
    elim (Bool-cases (i == dst + x)) [
      | inl here ↦
          (let past : (leb (dst + (x + 1)) i && ltb i (dst + (x + 1) + n)) ≡ false = ground arith in
            let in_row : (leb (dst + x) i && ltb i (dst + x + suc n)) ≡ true = ground arith in
            let same : src + x ≡ src + (i - dst) = ground arith in
            rw in_row (rest ∙ rw past (rw here (ap p same))))
      | inr away ↦ elim (Bool-cases (leb (dst + (x + 1)) i && ltb i (dst + (x + 1) + n))) [
        | inl later ↦
            (let in_row : (leb (dst + x) i && ltb i (dst + x + suc n)) ≡ true = ground arith in
              let fresh : (src + (i - dst) == dst + x) ≡ false = ground arith in
              rw in_row (rest ∙ rw later (rw fresh refl)))
        | inr out ↦
            (let out_row : (leb (dst + x) i && ltb i (dst + x + suc n)) ≡ false = ground arith in
              rw out_row (rest ∙ rw out (rw away refl)))
      ]
    ]

clear_row_lem :
    (n at x : ℕ) (p : Pixels) (i : ℕ)
    → clear_row n at x p i ≡ (if leb (at + x) i && ltb i (at + x + n) then 0 else p i)
unfolding clear_row
clear_row_lem zero at x p i =
    let none : (leb (at + x) i && ltb i (at + x + 0)) ≡ false = ground arith in rw none refl
clear_row_lem (suc n) at x p i =
    clear_row_lem n at (x + 1) (λ j. if j == at + x then 0 else p j) i ∙ ground arith

module _ (stride width height : ℕ) (wide : width ≤ stride) (small : height * stride < 2 ^ 32) where
  -- A place in the row `r` is in the row `a` only if these are the same.
  in_row :
      (r a x : ℕ)
      → x < width
      → (leb (a * stride + 0) (r * stride + x) && ltb (r * stride + x) (a * stride + 0 + width))
        ≡ (r == a)
  in_row r a x left =
      let up : (r' : ℕ) → suc r' * stride ≡ r' * stride + stride = λ r'. ground arith in
      elim (Bool-cases (r == a)) [
        | inl same ↦ (let e : r ≡ a = ground arith in rw (same, e) (ground arith))
        | inr other ↦ elim (Bool-cases (ltb r a)) [
          | inl before ↦
              (let le : suc r * stride ≤ a * stride = mul-le-mul_right stride (ground arith) in
                let e = up r in rw other (ground arith))
          | inr behind ↦
              (let le : suc a * stride ≤ r * stride = mul-le-mul_right stride (ground arith) in
                let e = up a in rw other (ground arith))
        ]
      ]

  copied :
      (a b r x : ℕ) (p : Pixels)
      → a ≤ b
      → x < width
      → copy_row width (a * stride) (b * stride) 0 p (r * stride + x)
        ≡ (if r == a then p (b * stride + x) else p (r * stride + x))
  copied a b r x p le left =
      copy_row_lem width (a * stride) (b * stride) 0 p (r * stride + x) (mul-le-mul_right stride le)
      ∙ rw (in_row r a x left) (elim (Bool-cases (r == a)) [
        | inl same ↦
            (let e : r ≡ a = ground arith in
              rw same (ap (λ k. p (b * stride + k)) (rw e (omega arith))))
        | inr other ↦ rw other refl
      ])

  scroll_rows_lem :
      (n y r x : ℕ) (p : Pixels)
      → 8 ≤ y
      → y + n ≤ height
      → x < width
      → scroll_rows n stride width y p (r * stride + x) ≡ (
          if leb (y - 8) r && ltb r (y - 8 + n)
          then p ((r + 8) * stride + x)
          else p (r * stride + x))
  unfolding scroll_rows
  scroll_rows_lem zero y r x p low le left =
      let none : (leb (y - 8) r && ltb r (y - 8 + 0)) ≡ false = ground arith in rw none refl
  scroll_rows_lem (suc n) y r x p low le left =
      let at = index_le stride height y width (omega arith) wide in
      let at' = index_le stride height (y - 8) width (omega arith) wide in
      let from : u32 (y * stride) ≡ y * stride = omega (arith, at, small) in
      let to : u32 ((y - 8) * stride) ≡ (y - 8) * stride = omega (arith, at', small) in
      let q : Pixels = copy_row width ((y - 8) * stride) (y * stride) 0 p in
      let rest = scroll_rows_lem n (y + 1) r x q (omega arith) (omega arith) left in
      let here = copied (y - 8) y r x p (omega arith) left in
      let below = copied (y - 8) y (r + 8) x p (omega arith) left in
      rw (from, to)
        (rest ∙ elim (Bool-cases (r == y - 8)) [
          | inl same ↦
              (let past : (leb (y + 1 - 8) r && ltb r (y + 1 - 8 + n)) ≡ false = ground arith in
                let now : (leb (y - 8) r && ltb r (y - 8 + suc n)) ≡ true = ground arith in
                let row : y ≡ r + 8 = ground arith in
                rw (past, now) (here ∙ rw same (ap (λ k. p (k * stride + x)) row)))
          | inr other ↦ elim (Bool-cases (leb (y + 1 - 8) r && ltb r (y + 1 - 8 + n))) [
            | inl later ↦
                (let now : (leb (y - 8) r && ltb r (y - 8 + suc n)) ≡ true = ground arith in
                  let apart : (r + 8 == y - 8) ≡ false = ground arith in
                  rw (later, now) (below ∙ rw apart refl))
            | inr out ↦
                (let never : (leb (y - 8) r && ltb r (y - 8 + suc n)) ≡ false = ground arith in
                  rw (out, never) (here ∙ rw other refl))
          ]
        ])

  clear_rows_lem :
      (n y r x : ℕ) (p : Pixels)
      → y + n ≤ height
      → x < width
      → clear_rows n stride width y p (r * stride + x)
        ≡ (if leb y r && ltb r (y + n) then 0 else p (r * stride + x))
  unfolding clear_rows
  clear_rows_lem zero y r x p le left =
      let none : (leb y r && ltb r (y + 0)) ≡ false = ground arith in rw none refl
  clear_rows_lem (suc n) y r x p le left =
      let at = index_le stride height y width (omega arith) wide in
      let to : u32 (y * stride) ≡ y * stride = omega (arith, at, small) in
      let q : Pixels = clear_row width (y * stride) 0 p in
      let here : q (r * stride + x) ≡ (if r == y then 0 else p (r * stride + x)) =
        clear_row_lem width (y * stride) 0 p (r * stride + x) ∙ rw (in_row r y x left) refl in
      rw to (clear_rows_lem n (y + 1) r x q (omega arith) left ∙ rw here (ground arith))

-- Scrolling a bound terminal: each place that is shown takes the value of the place eight rows
-- below, and in the last eight rows it becomes black.
pub terminal_scroll-moves :
    (t : Terminal) (r x : ℕ)
    → t.bound ≡ true
    → 0 < t.fb_rows
    → 8 ≤ t.fb_height
    → t.fb_height < 2 ^ 32
    → t.fb_width ≤ t.fb_pitch / 4
    → t.fb_height * (t.fb_pitch / 4) < 2 ^ 32
    → r < t.fb_height
    → x < t.fb_width
    → (terminal_scroll t).pixels (r * (t.fb_pitch / 4) + x)
      ≡ (if ltb r (t.fb_height - 8) then t.pixels ((r + 8) * (t.fb_pitch / 4) + x) else 0)
unfolding terminal_scroll
terminal_scroll-moves t r x on rows high low wide small above left =
    let stride = t.fb_pitch / 4 in
    let used : (not t.bound || (t.fb_rows == 0)) ≡ false = in_use t.bound t.fb_rows on rows in
    let from : sub32 t.fb_height 8 ≡ t.fb_height - 8 = omega arith in
    let q : Pixels = scroll_rows (t.fb_height - 8) stride t.fb_width 8 t.pixels in
    let cleared =
      clear_rows_lem stride t.fb_width t.fb_height wide small (t.fb_height - (t.fb_height - 8))
        (t.fb_height - 8) r x q (omega arith) left in
    let moved =
      scroll_rows_lem stride t.fb_width t.fb_height wide small (t.fb_height - 8) 8 r x t.pixels
        (omega arith) (omega arith) left in
    rw used (
      rw from (
        cleared ∙ elim (Bool-cases (ltb r (t.fb_height - 8))) [
          | inl up ↦
              (let kept : (leb (t.fb_height - 8) r
                      && ltb r (t.fb_height - 8 + (t.fb_height - (t.fb_height - 8))))
                    ≡ false =
                  ground arith in
                let taken : (leb (8 - 8) r && ltb r (8 - 8 + (t.fb_height - 8))) ≡ true =
                  ground arith in
                rw (kept, up) (moved ∙ rw taken refl))
          | inr last ↦
              (let black : (leb (t.fb_height - 8) r
                      && ltb r (t.fb_height - 8 + (t.fb_height - (t.fb_height - 8))))
                    ≡ true =
                  ground arith in
                rw (black, last) refl)
        ]))
  where
    in_use : (b : Bool) (n : ℕ) → b ≡ true → 0 < n → (not b || (n == 0)) ≡ false
    in_use true n e pos = ground arith
    in_use false n e pos = cc
