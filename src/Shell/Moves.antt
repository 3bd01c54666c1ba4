-- ===== src/Shell/Moves.antt =====
-- The moves of the cursor between lines in the editor of kernel/shell/shell.c.
use kagami_os.Prelude.{
  ℕ, suc, ◌+◌, ◌-◌, ◌≤◌, ◌<◌, ◌≡◌, refl, ap, ap₂, sym, ◌∙◌, false, arith, ltb, leb, ◌==◌,
  if◌then◌else◌, Bool-cases, inl, inr, min,
}
use kagami_os.Prelude.Bytes.{Bytes}
use kagami_os.Shell.Editor.{
  TextEditor, editor_get_cursor_line_col, editor_line_start, editor_line_end, editor_move_up,
  editor_move_down,
}
use kagami_os.Shell.Lines.{
  newlines, on_line, new_line, before_line, editor_line_start-le,
  editor_get_cursor_line_col-newlines, editor_line_end-EndsAt,
}

-- The editor's own line and column of its cursor.
abbrev pub line_of : TextEditor → ℕ
line_of ed = (editor_get_cursor_line_col ed.buffer ed.cursor).0

abbrev pub column_of : TextEditor → ℕ
column_of ed = (editor_get_cursor_line_col ed.buffer ed.cursor).1

-- The lengths of the lines above and below that of the cursor.
abbrev pub length_above : TextEditor → ℕ
length_above ed =
    let end = editor_line_start ed.buffer ed.cursor - 1 in end - editor_line_start ed.buffer end

abbrev pub length_below : TextEditor → ℕ
length_below ed =
    let start = editor_line_end ed.buffer ed.size ed.cursor + 1 in
    editor_line_end ed.buffer ed.size start - start

shorter : (a b : ℕ) → (if ltb a b then a else b) ≡ min a b
shorter a b = ground arith

-- Where a line starts at `s`, and `e` is on it, so is a position between them.
placed :
    (buf : Bytes) (s e m : ℕ)
    → editor_line_start buf e ≡ s
    → s + m ≤ e
    → editor_get_cursor_line_col buf (s + m) ≡ (newlines buf e, m)
placed buf s e m start le =
    let (count, start') = on_line buf e (s + m) (omega arith) le in
    editor_get_cursor_line_col-newlines buf (s + m) ∙ ap₂ (λ a b. (a, b)) count (omega arith)

-- On any line but the first, moving up leads, by the editor's own count of lines and columns, to the
-- line above, and there to the same column or, where that line is shorter, to its end.
pub editor_move_up-place :
    (ed : TextEditor)
    → 0 < line_of ed
    → editor_get_cursor_line_col ed.buffer (editor_move_up ed).cursor
      ≡ (line_of ed - 1, min (column_of ed) (length_above ed))
unfolding editor_move_up newlines
editor_move_up-place ed h =
    let buf = ed.buffer in
    let k = ed.cursor in
    let s = editor_line_start buf k in
    let place = editor_get_cursor_line_col-newlines buf k in
    let le = editor_line_start-le buf k in
    let line : line_of ed ≡ newlines buf k = ap (λ p. p.0) place in
    let col : column_of ed ≡ k - s = ap (λ p. p.1) place in
    elim (Bool-cases (s == 0)) [
      | inl first ↦
          (let (count, _) = on_line buf k 0 (ground arith) (omega arith) in absurd (omega arith))
      | inr later ↦
          (let e : ℕ = s - 1 in
            let at : s ≡ suc e = ground arith in
            let newline = before_line buf k e at in
            let (count, _) = new_line buf e newline in
            let (count', _) = on_line buf k s (omega arith) le in
            let here : newlines buf s ≡ newlines buf (suc e) = ap (newlines buf) at in
            let back = editor_line_start-le buf e in
            let m : ℕ = min (k - s) (e - editor_line_start buf e) in
            rw (later, shorter (k - s) (e - editor_line_start buf e))
              (placed buf (editor_line_start buf e) e m refl (omega arith)
                ∙ ap₂ (λ a b. (a, b)) (omega arith) (omega arith)))
    ]

-- With the cursor in the text and a newline behind it, moving down leads, by the editor's own count,
-- to the line below, and there to the same column or, where that line is shorter, to its end.
pub editor_move_down-place :
    (ed : TextEditor)
    → ed.cursor ≤ ed.size
    → editor_line_end ed.buffer ed.size ed.cursor < ed.size
    → editor_get_cursor_line_col ed.buffer (editor_move_down ed).cursor
      ≡ (line_of ed + 1, min (column_of ed) (length_below ed))
unfolding editor_move_down
editor_move_down-place ed inside h =
    let buf = ed.buffer in
    let k = ed.cursor in
    let s = editor_line_start buf k in
    let e = editor_line_end buf ed.size k in
    let place = editor_get_cursor_line_col-newlines buf k in
    let line : line_of ed ≡ newlines buf k = ap (λ p. p.0) place in
    let col : column_of ed ≡ k - s = ap (λ p. p.1) place in
    let here = editor_line_end-EndsAt buf ed.size k inside in
    let (count, start) = new_line buf e (here.stop h) in
    let one : e + 1 ≡ suc e = omega arith in
    let next = editor_line_end-EndsAt buf ed.size (e + 1) (omega arith) in
    let from' = next.from in
    let len : ℕ = editor_line_end buf ed.size (e + 1) - (e + 1) in
    let unended : leb ed.size e ≡ false = ground arith in
    let count' = next.count in
    let count'' = here.count in
    rw (unended, shorter (k - s) len)
      (placed buf (e + 1) (editor_line_end buf ed.size (e + 1)) (min (k - s) len)
          (next.start ∙ ap (editor_line_start buf) one ∙ start ∙ sym one) (omega arith)
        ∙ ap₂ (λ a b. (a, b)) (omega (arith, ap (newlines buf) one)) (omega arith))
