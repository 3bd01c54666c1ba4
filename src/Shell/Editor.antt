-- ===== src/Shell/Editor.antt =====
-- The text editor of kernel/shell/shell.c: its state and the operations on it.
use kagami_os.Prelude.{
  ℕ, zero, suc, ◌+◌, ◌-◌, Bool, true, ltb, leb, ◌==◌, if◌then◌else◌, set, get_or, take,
}
use kagami_os.Prelude.Bytes.{Bytes}
use kagami_os.Prelude.Text.{codes}

abbrev pub max_file_content : ℕ
max_file_content = 4096

-- `TextEditor`; `buffer` is the array of the file's content.
pub record TextEditor : Type 0 where
  pub buffer : Bytes
  pub size : ℕ
  pub cursor : ℕ
  pub scroll_line : ℕ
  pub insert_mode : Bool
  pub dirty : Bool
  pub status : Bytes

unfoldable pub editor_set_status : Bytes → TextEditor → TextEditor
editor_set_status msg ed = record ed { status = take 63 msg }

-- The loop of `editor_get_cursor_line_col`, with `n` characters left from `i` on.
unfoldable pub line_col_loop : Bytes → (n i line col : ℕ) → ℕ × ℕ
line_col_loop buf zero i line col = (line, col)
line_col_loop buf (suc n) i line col =
    let newline = line_col_loop buf n (i + 1) (line + 1) 0 in
    let other = line_col_loop buf n (i + 1) line (col + 1) in
    if get_or buf i 0 == 10 then newline else other

unfoldable pub editor_get_cursor_line_col : Bytes → (cursor : ℕ) → ℕ × ℕ
editor_get_cursor_line_col buf cursor = line_col_loop buf cursor 0 0 0

unfoldable pub editor_line_start : Bytes → (cursor : ℕ) → ℕ
editor_line_start buf zero = zero
editor_line_start buf (suc i) =
    let before = editor_line_start buf i in if get_or buf i 0 == 10 then suc i else before

-- The loop with `n` characters left before `length`.
unfoldable pub line_end_loop : Bytes → (n i : ℕ) → ℕ
line_end_loop buf zero i = i
line_end_loop buf (suc n) i =
    let further = line_end_loop buf n (i + 1) in if get_or buf i 0 == 10 then i else further

unfoldable pub editor_line_end : Bytes → (size cursor : ℕ) → ℕ
editor_line_end buf size cursor = line_end_loop buf (size - cursor) cursor

unfoldable pub editor_move_left : TextEditor → TextEditor
editor_move_left ed = if ltb 0 ed.cursor then record ed { cursor = ed.cursor - 1 } else ed

unfoldable pub editor_move_right : TextEditor → TextEditor
editor_move_right ed = if ltb ed.cursor ed.size then record ed { cursor = ed.cursor + 1 } else ed

-- The loop for `prev_start` is the one of `editor_line_start`.
unfoldable pub editor_move_up : TextEditor → TextEditor
editor_move_up ed =
    let line_start = editor_line_start ed.buffer ed.cursor in
    let col = ed.cursor - line_start in
    let prev_end = line_start - 1 in
    let prev_start = editor_line_start ed.buffer prev_end in
    let prev_len = prev_end - prev_start in
    if line_start == 0
    then ed
    else record ed { cursor = prev_start + (if ltb col prev_len then col else prev_len) }

unfoldable pub editor_move_down : TextEditor → TextEditor
editor_move_down ed =
    let line_end = editor_line_end ed.buffer ed.size ed.cursor in
    let col = ed.cursor - editor_line_start ed.buffer ed.cursor in
    let next_start = line_end + 1 in
    let next_len = editor_line_end ed.buffer ed.size next_start - next_start in
    if leb ed.size line_end
    then ed
    else record ed { cursor = next_start + (if ltb col next_len then col else next_len) }

-- `buffer[i] = buffer[i - 1]` for `n` values of `i`, downwards
unfoldable pub shift_up : (n i : ℕ) → Bytes → Bytes
shift_up zero i buf = buf
shift_up (suc n) i buf = shift_up n (i - 1) (set buf i (get_or buf (i - 1) 0))

-- `buffer[i] = buffer[i + 1]` for `n` values of `i`, upwards
unfoldable pub shift_down : (n i : ℕ) → Bytes → Bytes
shift_down zero i buf = buf
shift_down (suc n) i buf = shift_down n (i + 1) (set buf i (get_or buf (i + 1) 0))

unfoldable pub editor_insert_char : ℕ → TextEditor → TextEditor
editor_insert_char c ed =
    if leb (max_file_content - 1) ed.size
    then editor_set_status (codes "Buffer full") ed
    else record ed {
      buffer =
          set (set (shift_up (ed.size - ed.cursor) ed.size ed.buffer) ed.cursor c) (ed.size + 1) 0;
      size = ed.size + 1;
      cursor = ed.cursor + 1;
      dirty = true;
    }

unfoldable pub editor_backspace : TextEditor → TextEditor
editor_backspace ed = if ed.cursor == 0 then ed else record ed {
  buffer = shift_down (ed.size - (ed.cursor - 1)) (ed.cursor - 1) ed.buffer;
  cursor = ed.cursor - 1;
  size = ed.size - 1;
  dirty = true;
}

-- What `editor_render` does to the state: the first line shown follows the cursor.
unfoldable pub follow_cursor : (visible_lines : ℕ) → TextEditor → TextEditor
follow_cursor visible_lines ed =
    let (cursor_line, _) = editor_get_cursor_line_col ed.buffer ed.cursor in
    if ltb cursor_line ed.scroll_line
    then record ed { scroll_line = cursor_line }
    else if leb (ed.scroll_line + visible_lines) cursor_line
    then record ed { scroll_line = cursor_line + 1 - visible_lines }
    else ed
