-- ===== src/Shell/Session.antt =====
-- `open_text_editor` of kernel/shell/shell.c: the editor's loop over the scancodes that come in.
use kagami_os.Prelude.{
  ℕ, zero, suc, ◌+◌, ◌/◌, Bool, true, false, ◌&&◌, ◌||◌, Option, none, some, List, [], ◌∷◌, ◌==◌,
  if◌then◌else◌, has_bit, get_or, sub32,
}
use kagami_os.Prelude.Bytes.{Bytes}
use kagami_os.Prelude.Text.{codes}
use kagami_os.Shell.Keys.{scancode_to_char}
use kagami_os.Shell.Editor.{
  TextEditor, editor_set_status, editor_move_left, editor_move_right, editor_move_up,
  editor_move_down, editor_insert_char, editor_backspace, follow_cursor,
}

-- The editor, the modifier keys, and the size in the file's record.
pub record Session : Type 0 where
  pub ed : TextEditor
  pub shift_pressed : Bool
  pub ctrl_pressed : Bool
  pub file_size : ℕ

-- The keys of normal mode; `none` leaves the loop.
unfoldable pub normal_key : ℕ → TextEditor → Option TextEditor
normal_key c ed =
    if c == b'i'
    then some (editor_set_status (codes "Insert mode") (record ed { insert_mode = true }))
    else if c == b'h'
    then some (editor_move_left ed)
    else if c == b'l'
    then some (editor_move_right ed)
    else if c == b'k'
    then some (editor_move_up ed)
    else if c == b'j'
    then some (editor_move_down ed)
    else if c == b'q'
    then none
    else some ed

abbrev pub with_editor : Session → Option TextEditor → Option Session
with_editor s none = none
with_editor s (some ed) = some (record s { ed = ed })

-- Ctrl+S
unfoldable pub save : Session → Session
save s = record s {
  ed = record (editor_set_status (if s.ed.dirty then codes "Saved" else codes "No changes") s.ed) {
    dirty = false;
  };
  file_size = s.ed.size;
}

-- One round of the loop, for a scancode that `editor_get_scancode` returns.
unfoldable pub editor_key : ℕ → Session → Option Session
editor_key sc s =
    let c = scancode_to_char sc s.shift_pressed in
    if sc == 0x01
    then some (record s {
      ed = editor_set_status (codes "Normal mode") (record s.ed { insert_mode = false });
    })
    else if sc == 0x0e
    then some (if s.ed.insert_mode then record s { ed = editor_backspace s.ed } else s)
    else if sc == 0x1c
    then some (if s.ed.insert_mode then record s { ed = editor_insert_char 10 s.ed } else s)
    else if c == 0
    then some s
    else if s.ctrl_pressed && ((c == b's') || (c == b'S'))
    then some (save s)
    else if s.ctrl_pressed && ((c == b'q') || (c == b'Q'))
    then none
    else if s.ed.insert_mode
    then some (record s { ed = editor_insert_char c s.ed })
    else with_editor s (normal_key c s.ed)

-- One scancode: `editor_get_scancode` keeps track of the modifiers and passes over releases; a
-- round starts with `editor_render`.
unfoldable pub editor_scancode : (visible_lines sc : ℕ) → Session → Option Session
editor_scancode visible_lines sc s =
    if (sc == 0x2a) || (sc == 0x36)
    then some (record s { shift_pressed = true })
    else if (sc == 0xaa) || (sc == 0xb6)
    then some (record s { shift_pressed = false })
    else if sc == 0x1d
    then some (record s { ctrl_pressed = true })
    else if sc == 0x9d
    then some (record s { ctrl_pressed = false })
    else if has_bit sc 7
    then some s
    else editor_key sc (record s { ed = follow_cursor visible_lines s.ed })

-- What the editor leaves: the content array and the size. The second component says whether it was
-- left; if not, it still waits for a key.
unfoldable pub editor_loop : (visible_lines : ℕ) → List ℕ → Session → Session × Bool
editor_loop visible_lines [] s = (s, false)
editor_loop visible_lines (sc ∷ scs) s = elim (editor_scancode visible_lines sc s) [
  | none ↦ (record s { file_size = s.ed.size }, true)
  | some s' ↦ editor_loop visible_lines scs s'
]

-- `(footer_y - content_y) / line_height` in `unsigned int`
unfoldable pub visible_lines_of : (height : ℕ) → ℕ
visible_lines_of height = sub32 (sub32 height 22) 50 / 16

-- `str_len` of a content array, with `n` places left
unfoldable pub str_len_loop : (n i : ℕ) → Bytes → ℕ
str_len_loop zero i buf = i
str_len_loop (suc n) i buf =
    let more = str_len_loop n (i + 1) buf in if get_or buf i 0 == 0 then i else more

unfoldable pub open_session : Bytes → (file_size : ℕ) → Session
open_session content file_size =
    let n = str_len_loop 4096 0 content in
    record {
      ed = record {
        buffer = content;
        size = n;
        cursor = n;
        scroll_line = 0;
        insert_mode = false;
        dirty = false;
        status = [];
      };
      shift_pressed = false;
      ctrl_pressed = false;
      file_size = file_size;
    }

unfoldable pub open_text_editor : (height : ℕ) → List ℕ → Bytes → (file_size : ℕ) → Session × Bool
open_text_editor height scs content file_size =
    editor_loop (visible_lines_of height) scs (open_session content file_size)
