-- ===== src/Shell/Kept.antt =====
-- Each operation of the editor of kernel/shell/shell.c keeps the text's array in order.
use kagami_os.Prelude.{
  ℕ, ◌+◌, ◌-◌, ◌≤◌, ◌≡◌, ◌≢◌, refl, ◌∙◌, true, Option, none, some, arith, length, ltb, leb, ◌==◌,
  if◌then◌else◌, Bool-cases, inl, inr,
}
use kagami_os.Prelude.Bytes.{Bytes}
use kagami_os.Shell.Editor.{
  TextEditor, editor_insert_char, editor_backspace, editor_move_left, editor_move_right,
  editor_move_up, editor_move_down, editor_set_status, editor_line_start, editor_line_end,
  follow_cursor, max_file_content, editor_get_cursor_line_col,
}
use kagami_os.Shell.Session.{normal_key}
use kagami_os.Shell.Edits.{
  Holds, editor_insert_char-Holds, editor_backspace-Holds, inserted, removed,
}
use kagami_os.Shell.Lines.{editor_line_start-le, editor_line_end-EndsAt}

-- The editor holds some text.
abbrev pub InOrder : TextEditor → Type 0
InOrder ed = (text : Bytes) × Holds text ed

unfoldable pub InOrderIf : Option TextEditor → Type 0
InOrderIf none = Unit
InOrderIf (some ed) = InOrder ed

InOrderIf-some : (ed : TextEditor) → InOrder ed → InOrderIf (some ed)
unfolding InOrderIf
InOrderIf-some ed h = h

InOrderIf-none : InOrderIf none
unfolding InOrderIf
InOrderIf-none = tt

-- Only the cursor and what is not content changes.
pub same_content :
    (text : Bytes) (ed ed' : TextEditor)
    → Holds text ed
    → ed'.buffer ≡ ed.buffer
    → ed'.size ≡ ed.size
    → ed'.cursor ≤ length text
    → Holds text ed'
same_content text ed ed' h content sized inside = record {
  rest = h.rest;
  content = content ∙ h.content;
  room = h.room;
  sized = sized ∙ h.sized;
  inside = inside;
  chars = h.chars;
}

module _ (text : Bytes) (ed : TextEditor) (h : Holds text ed) where
  editor_move_left-Holds : Holds text (editor_move_left ed)
  unfolding editor_move_left
  editor_move_left-Holds =
      let b = h.inside in
      elim (Bool-cases (ltb 0 ed.cursor)) [
        | inl e ↦
            rw e (
              same_content text ed (record ed { cursor = ed.cursor - 1 }) h refl refl (omega arith))
        | inr e ↦ rw e h
      ]

  editor_move_right-Holds : Holds text (editor_move_right ed)
  unfolding editor_move_right
  editor_move_right-Holds =
      let sized = h.sized in
      elim (Bool-cases (ltb ed.cursor ed.size)) [
        | inl e ↦
            rw e (
              same_content text ed (record ed { cursor = ed.cursor + 1 }) h refl refl
                (ground arith))
        | inr e ↦ rw e h
      ]

  editor_move_up-Holds : Holds text (editor_move_up ed)
  unfolding editor_move_up
  editor_move_up-Holds =
      let b = h.inside in
      let s = editor_line_start ed.buffer ed.cursor in
      let le = editor_line_start-le ed.buffer ed.cursor in
      let le' = editor_line_start-le ed.buffer (s - 1) in
      let t = editor_line_start ed.buffer (s - 1) in
      elim (Bool-cases (s == 0)) [
        | inl e ↦ rw e h
        | inr e ↦ rw e (
            same_content text ed
              (record ed {
                cursor = t + (if ltb (ed.cursor - s) (s - 1 - t) then ed.cursor - s else s - 1 - t);
              })
              h refl refl (ground arith))
      ]

  editor_move_down-Holds : Holds text (editor_move_down ed)
  unfolding editor_move_down
  editor_move_down-Holds =
      let b = h.inside in
      let sized = h.sized in
      let s = editor_line_start ed.buffer ed.cursor in
      let e = editor_line_end ed.buffer ed.size ed.cursor in
      let n = editor_line_end ed.buffer ed.size (e + 1) in
      elim (Bool-cases (leb ed.size e)) [
        | inl last ↦ rw last h
        | inr more ↦
            (let next = editor_line_end-EndsAt ed.buffer ed.size (e + 1) (ground arith) in
              let to' = next.to in
              let from' = next.from in
              rw more (
                same_content text ed
                  (record ed {
                    cursor =
                        e
                        + 1
                        + (if ltb (ed.cursor - s) (n - (e + 1))
                            then ed.cursor - s
                            else n - (e + 1));
                  })
                  h refl refl (ground arith)))
      ]

  pub insert-InOrder : (c : ℕ) → c ≢ 0 → InOrder (editor_insert_char c ed)
  unfolding editor_insert_char editor_set_status
  insert-InOrder c nz =
      let sized = h.sized in
      elim (Bool-cases (leb (max_file_content - 1) ed.size)) [
        | inl full ↦ (text, rw full (same_content text ed _ h refl refl h.inside))
        | inr room ↦
            (inserted ed.cursor c text, editor_insert_char-Holds text ed c h nz (ground arith))
      ]

  pub backspace-InOrder : InOrder (editor_backspace ed)
  unfolding editor_backspace
  backspace-InOrder = elim (Bool-cases (ltb 0 ed.cursor)) [
    | inl behind ↦ (removed (ed.cursor - 1) text, editor_backspace-Holds text ed h behind)
    | inr front ↦ (text, (let e : (ed.cursor == 0) ≡ true = ground arith in rw e h))
  ]

  pub follow_cursor-Holds : (visible_lines : ℕ) → Holds text (follow_cursor visible_lines ed)
  unfolding follow_cursor
  follow_cursor-Holds visible_lines =
      let line = (editor_get_cursor_line_col ed.buffer ed.cursor).0 in
      elim (Bool-cases (ltb line ed.scroll_line)) [
        | inl e ↦ rw e (same_content text ed _ h refl refl h.inside)
        | inr e ↦ elim (Bool-cases (leb (ed.scroll_line + visible_lines) line)) [
          | inl e' ↦ rw (e, e') (same_content text ed _ h refl refl h.inside)
          | inr e' ↦ rw (e, e') h
        ]
      ]

  pub normal_key-InOrder : (c : ℕ) → InOrderIf (normal_key c ed)
  unfolding normal_key editor_set_status InOrderIf
  normal_key-InOrder c = elim (Bool-cases (c == b'i')) [
    | inl i ↦ rw i (text, same_content text ed _ h refl refl h.inside)
    | inr i ↦ rw i (elim (Bool-cases (c == b'h')) [
      | inl left ↦ rw left (text, editor_move_left-Holds)
      | inr left ↦ rw left (elim (Bool-cases (c == b'l')) [
        | inl right ↦ rw right (text, editor_move_right-Holds)
        | inr right ↦ rw right (elim (Bool-cases (c == b'k')) [
          | inl up ↦ rw up (text, editor_move_up-Holds)
          | inr up ↦ rw up (elim (Bool-cases (c == b'j')) [
            | inl down ↦ rw down (text, editor_move_down-Holds)
            | inr down ↦
                rw down
                  (elim (Bool-cases (c == b'q')) [ inl q ↦ rw q (tt) | inr q ↦ rw q ((text, h)) ])
          ])
        ])
      ])
    ])
  ]
