-- ===== src/Shell/EditorTests.antt =====
-- Runs of the editor, and its theorems there.
use kagami_os.Prelude.{
  ℕ, suc, ◌+◌, ◌-◌, ◌<◌, ◌≡◌, refl, true, false, [], ◌∷◌, ◌++◌, arith, length, ◌⊎◌, replicate,
  length-replicate, min, some, All,
}
use kagami_os.Prelude.Bytes.{Bytes}
use kagami_os.Shell.Keys.{get_keyboard_char, keyboard_loop, scancode_to_char}
use kagami_os.Shell.Editor.{
  TextEditor, editor_insert_char, editor_backspace, editor_move_up, editor_move_down,
  editor_get_cursor_line_col, editor_line_end, line_end_loop, line_col_loop,
}
use kagami_os.Shell.Session.{open_text_editor, str_len_loop}
use kagami_os.Shell.Buffer.{NotZero}
use kagami_os.Shell.Edits.{Holds, editor_backspace-editor_insert_char}
use kagami_os.Shell.Moves.{
  line_of, column_of, length_above, length_below, editor_move_up-place, editor_move_down-place,
}
use kagami_os.Shell.Safe.{open_text_editor-Holds}

-- shift pressed, `a`, shift released
get_keyboard_char_runs : get_keyboard_char (0x2a ∷ 0x1e ∷ 0xaa ∷ []) ≡ some (b'A', 0xaa ∷ [])
unfolding get_keyboard_char keyboard_loop scancode_to_char
get_keyboard_char_runs = refl

abbrev words : Bytes
words = b'a' ∷ b'b' ∷ 10 ∷ b'c' ∷ []

abbrev blank : Bytes
blank = replicate 4091 0

-- the cursor behind `a`
abbrev two_lines : TextEditor
two_lines = record {
  buffer = words ++ (0 ∷ blank);
  size = 4;
  cursor = 1;
  scroll_line = 0;
  insert_mode = true;
  dirty = false;
  status = [];
}

words_room : length words + suc (length blank) ≡ 4096
words_room = omega (arith, length-replicate {A = ℕ} 4091 0)

words_chars : All NotZero words
words_chars = (λ e. omega arith, (λ e. omega arith, (λ e. omega arith, (λ e. omega arith, tt))))

two_lines-Holds : Holds words two_lines
two_lines-Holds = record {
  rest = blank;
  content = refl;
  room = words_room;
  sized = refl;
  inside = omega arith;
  chars = words_chars;
}

editor_backspace-editor_insert_char_example :
    Holds words (editor_backspace (editor_insert_char b'x' two_lines))
    × ((editor_backspace (editor_insert_char b'x' two_lines)).cursor ≡ 1)
editor_backspace-editor_insert_char_example =
    editor_backspace-editor_insert_char words two_lines b'x' two_lines-Holds (λ e. omega arith)
      (omega arith)

first_line_end : editor_line_end two_lines.buffer 4 1 < 4
unfolding editor_line_end line_end_loop
first_line_end = omega arith

editor_move_down-place_example :
    editor_get_cursor_line_col two_lines.buffer (editor_move_down two_lines).cursor
    ≡ (line_of two_lines + 1, min (column_of two_lines) (length_below two_lines))
editor_move_down-place_example = editor_move_down-place two_lines (omega arith) first_line_end

abbrev second_line : TextEditor
second_line = record two_lines { cursor = 4 }

second_line_line : 0 < line_of second_line
unfolding editor_get_cursor_line_col line_col_loop
second_line_line = omega arith

editor_move_up-place_example :
    editor_get_cursor_line_col second_line.buffer (editor_move_up second_line).cursor
    ≡ (line_of second_line - 1, min (column_of second_line) (length_above second_line))
editor_move_up-place_example = editor_move_up-place second_line second_line_line

-- `i`, `x`, then Ctrl and `q`
open_text_editor-Holds_example :
    let (s, left) =
      open_text_editor 768 (0x17 ∷ 0x2d ∷ 0x1d ∷ 0x10 ∷ []) (words ++ (0 ∷ blank)) 4 in
    (text' : Bytes) × Holds text' s.ed
    × ((left ≡ false) ⊎ (s.file_size ≡ length text'))
    × (str_len_loop 4096 0 s.ed.buffer ≡ s.ed.size)
open_text_editor-Holds_example =
    open_text_editor-Holds 768 (0x17 ∷ 0x2d ∷ 0x1d ∷ 0x10 ∷ []) words blank 4 words_chars words_room
