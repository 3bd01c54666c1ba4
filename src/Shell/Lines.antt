-- ===== src/Shell/Lines.antt =====
-- Lines and columns in the editor of kernel/shell/shell.c, and the moves between lines.
use kagami_os.Prelude.{
  ℕ, zero, suc, ◌+◌, ◌-◌, ◌≤◌, ◌<◌, ◌≡◌, refl, ap, ap₂, sym, ◌∙◌, true, false, arith, get_or, leb,
  ◌==◌, if◌then◌else◌, Bool-cases, inl, inr,
}
use kagami_os.Prelude.Bytes.{Bytes}
use kagami_os.Shell.Editor.{
  line_col_loop, editor_get_cursor_line_col, editor_line_start, line_end_loop, editor_line_end,
}

-- the newlines in front of a position
unfoldable pub newlines : Bytes → ℕ → ℕ
newlines buf zero = 0
newlines buf (suc i) = (if get_or buf i 0 == 10 then 1 else 0) + newlines buf i

module _ (buf : Bytes) where
  pub editor_line_start-le : (k : ℕ) → editor_line_start buf k ≤ k
  unfolding editor_line_start
  editor_line_start-le zero = omega arith
  editor_line_start-le (suc i) = elim (Bool-cases (get_or buf i 0 == 10)) [
    | inl e ↦ rw e (omega arith)
    | inr e ↦ rw e (omega (arith, editor_line_start-le i))
  ]

  -- A step over a character that is no newline stays on the line, a newline starts one.
  pub same_line :
      (i : ℕ)
      → (get_or buf i 0 == 10) ≡ false
      → (newlines buf (suc i) ≡ newlines buf i)
        × (editor_line_start buf (suc i) ≡ editor_line_start buf i)
  unfolding editor_line_start newlines
  same_line i e = rw e (omega arith, refl)

  pub new_line :
      (i : ℕ)
      → (get_or buf i 0 == 10) ≡ true
      → (newlines buf (suc i) ≡ suc (newlines buf i)) × (editor_line_start buf (suc i) ≡ suc i)
  unfolding editor_line_start newlines
  new_line i e = rw e (omega arith, refl)

  -- Every position from the line's start on is on the same line.
  pub on_line :
      (k j : ℕ)
      → editor_line_start buf k ≤ j
      → j ≤ k
      → (newlines buf j ≡ newlines buf k) × (editor_line_start buf j ≡ editor_line_start buf k)
  on_line zero zero from to = (refl, refl)
  on_line zero (suc j) from to = absurd (omega arith)
  on_line (suc i) j from to = elim (Bool-cases (get_or buf i 0 == 10)) [
    | inl e ↦
        (let (_, start) = new_line i e in
          let here : j ≡ suc i = omega arith in rw here (refl, refl))
    | inr e ↦
        (let (count, start) = same_line i e in
          elim (Bool-cases (leb j i)) [
            | inl before ↦
                (let (count', start') = on_line i j (omega arith) (ground arith) in
                  (count' ∙ sym count, start' ∙ sym start))
            | inr last ↦ let here : j ≡ suc i = ground arith in rw here (refl, refl)
          ])
  ]

  -- In front of a line that is not the first there is a newline.
  pub before_line : (k s : ℕ) → editor_line_start buf k ≡ suc s → (get_or buf s 0 == 10) ≡ true
  unfolding editor_line_start
  before_line zero s e = absurd (omega arith)
  before_line (suc i) s e = elim (Bool-cases (get_or buf i 0 == 10)) [
    | inl at ↦ (let (_, start) = new_line i at in let here : s ≡ i = omega arith in rw here at)
    | inr at ↦ let (_, start) = same_line i at in before_line i s (sym start ∙ e)
  ]

  line_col_loop-newlines :
      (n i : ℕ)
      → line_col_loop buf n i (newlines buf i) (i - editor_line_start buf i)
        ≡ (newlines buf (i + n), i + n - editor_line_start buf (i + n))
  unfolding line_col_loop
  line_col_loop-newlines zero i =
      ap (λ j. (newlines buf j, j - editor_line_start buf j)) (omega arith)
  line_col_loop-newlines (suc n) i =
      let next : i + 1 + n ≡ i + suc n = omega arith in
      let one : i + 1 ≡ suc i = omega arith in
      let rest =
        line_col_loop-newlines n (i + 1)
        ∙ ap (λ j. (newlines buf j, j - editor_line_start buf j)) next in
      elim (Bool-cases (get_or buf i 0 == 10)) [
        | inl e ↦
            (let (count, start) = new_line i e in
              rw e (
                ap₂ (line_col_loop buf n (i + 1))
                  (omega arith ∙ sym (ap (newlines buf) one ∙ count))
                  (omega (arith, ap (editor_line_start buf) one, start))
                ∙ rest))
        | inr e ↦
            (let (count, start) = same_line i e in
              let bound = editor_line_start-le i in
              rw e (
                ap₂ (line_col_loop buf n (i + 1)) (sym (ap (newlines buf) one ∙ count))
                  (omega (arith, ap (editor_line_start buf) one, start))
                ∙ rest))
      ]

  -- The loop's line is the number of newlines, its column the distance from the line's start.
  pub editor_get_cursor_line_col-newlines :
      (k : ℕ) → editor_get_cursor_line_col buf k ≡ (newlines buf k, k - editor_line_start buf k)
  unfolding editor_get_cursor_line_col editor_line_start newlines
  editor_get_cursor_line_col-newlines k =
      line_col_loop-newlines k 0
      ∙ ap (λ j. (newlines buf j, j - editor_line_start buf j)) (omega arith)

  -- From `i` to `e` there is no newline, and `e` is a newline unless it is `bound`.
  pub record EndsAt (i bound e : ℕ) : Type 0 where
    pub from : i ≤ e
    pub to : e ≤ bound
    pub count : newlines buf e ≡ newlines buf i
    pub start : editor_line_start buf e ≡ editor_line_start buf i
    pub stop : e < bound → (get_or buf e 0 == 10) ≡ true

  line_end_loop-EndsAt : (n i bound : ℕ) → bound ≡ i + n → EndsAt i bound (line_end_loop buf n i)
  unfolding line_end_loop
  line_end_loop-EndsAt zero i bound b = record {
    from = omega arith;
    to = omega arith;
    count = refl;
    start = refl;
    stop = λ h. absurd (omega arith);
  }
  line_end_loop-EndsAt (suc n) i bound b = elim (Bool-cases (get_or buf i 0 == 10)) [
    | inl e ↦
        rw e (record {
          from = omega arith;
          to = omega arith;
          count = refl;
          start = refl;
          stop = λ h. e;
        })
    | inr e ↦
        (let (count, start) = same_line i e in
          let one : i + 1 ≡ suc i = omega arith in
          let rest = line_end_loop-EndsAt n (i + 1) bound (omega arith) in
          let from' = rest.from in
          let to' = rest.to in
          rw e (record {
            from = omega arith;
            to = omega arith;
            count = rest.count ∙ ap (newlines buf) one ∙ count;
            start = rest.start ∙ ap (editor_line_start buf) one ∙ start;
            stop = rest.stop;
          }))
  ]

  pub editor_line_end-EndsAt : (size k : ℕ) → k ≤ size → EndsAt k size (editor_line_end buf size k)
  unfolding editor_line_end
  editor_line_end-EndsAt size k h = line_end_loop-EndsAt (size - k) k size (omega arith)
