-- ===== src/Shell/Safe.antt =====
-- `open_text_editor` of kernel/shell/shell.c keeps the file's array and size in order, whatever is
-- typed.
use mathlib.Core.List.{append_assoc}
use kagami_os.Prelude.{
  ℕ, zero, suc, ◌+◌, ◌<◌, ◌≡◌, ◌≢◌, refl, ap, sym, ◌∙◌, Bool, true, false, ◌&&◌, ◌||◌, Option, none,
  some, List, [], ◌∷◌, ◌++◌, arith, length, length-append, All, ◌==◌, if◌then◌else◌, Bool-cases,
  inl, inr, ◌⊎◌, has_bit,
}
use kagami_os.Prelude.Bytes.{Bytes}
use kagami_os.Shell.Keys.{scancode_to_char}
use kagami_os.Shell.Editor.{TextEditor, editor_insert_char, editor_set_status}
use kagami_os.Shell.Session.{
  Session, normal_key, with_editor, save, editor_key, editor_scancode, editor_loop, open_session,
  open_text_editor, str_len_loop, visible_lines_of,
}
use kagami_os.Shell.Buffer.{NotZero, get_or-append}
use kagami_os.Shell.Edits.{Holds}
use kagami_os.Shell.Kept.{
  InOrder, InOrderIf, same_content, insert-InOrder, backspace-InOrder, follow_cursor-Holds,
  normal_key-InOrder,
}

-- The session goes on with a text, or is left.
unfoldable GoesOn : Option Session → Type 0
GoesOn none = Unit
GoesOn (some s) = InOrder s.ed

GoesOn-some : (s : Session) → InOrder s.ed → GoesOn (some s)
unfolding GoesOn
GoesOn-some s h = h

GoesOn-none : GoesOn none
unfolding GoesOn
GoesOn-none = tt

with_editor-GoesOn : (s : Session) (o : Option TextEditor) → InOrderIf o → GoesOn (with_editor s o)
unfolding InOrderIf GoesOn
with_editor-GoesOn s none h = tt
with_editor-GoesOn s (some ed) h = h

when_inserting :
    (b : Bool) (s s' : Session) → InOrder s.ed → InOrder s'.ed → GoesOn (some (if b then s else s'))
unfolding GoesOn
when_inserting true s s' h h' = h
when_inserting false s s' h h' = h'

not_zero : (c : ℕ) → (c == 0) ≡ false → c ≢ 0
not_zero c e z = ground arith

inserting_or :
    (b : Bool) (s : Session) (o : Option Session)
    → InOrder s.ed
    → GoesOn o
    → GoesOn (if b then some s else o)
unfolding GoesOn
inserting_or true s o h g = h
inserting_or false s o h g = g

editor_key-GoesOn : (sc : ℕ) (s : Session) → InOrder s.ed → GoesOn (editor_key sc s)
unfolding editor_key save editor_set_status GoesOn
editor_key-GoesOn sc s (text, h) =
    let ed = s.ed in
    let still : InOrder ed = (text, h) in
    let c = scancode_to_char sc s.shift_pressed in
    elim (Bool-cases (sc == 0x01)) [
      | inl esc ↦ rw esc (text, same_content text ed _ h refl refl h.inside)
      | inr esc ↦ rw esc (elim (Bool-cases (sc == 0x0e)) [
        | inl back ↦ rw back (when_inserting ed.insert_mode _ _ (backspace-InOrder text ed h) still)
        | inr back ↦ rw back (elim (Bool-cases (sc == 0x1c)) [
          | inl enter ↦ rw enter (
              when_inserting ed.insert_mode _ _ (insert-InOrder text ed h 10 (λ e. omega arith))
                still)
          | inr enter ↦ rw enter (elim (Bool-cases (c == 0)) [
            | inl no_char ↦ rw no_char (still)
            | inr no_char ↦
                rw no_char (elim (Bool-cases (s.ctrl_pressed && ((c == b's') || (c == b'S')))) [
                  | inl ctrl_s ↦ rw ctrl_s (text, same_content text ed _ h refl refl h.inside)
                  | inr ctrl_s ↦
                      rw ctrl_s
                        (elim (Bool-cases (s.ctrl_pressed && ((c == b'q') || (c == b'Q')))) [
                          | inl ctrl_q ↦ rw ctrl_q (tt)
                          | inr ctrl_q ↦ rw ctrl_q (
                              inserting_or ed.insert_mode
                                (record s { ed = editor_insert_char c ed })
                                (with_editor s (normal_key c ed))
                                (insert-InOrder text ed h c (not_zero c no_char))
                                (with_editor-GoesOn s (normal_key c ed)
                                  (normal_key-InOrder text ed h c)))
                        ])
                ])
          ])
        ])
      ])
    ]

editor_scancode-GoesOn :
    (visible_lines sc : ℕ) (s : Session)
    → InOrder s.ed
    → GoesOn (editor_scancode visible_lines sc s)
unfolding editor_scancode GoesOn
editor_scancode-GoesOn visible_lines sc s (text, h) =
    let still : InOrder s.ed = (text, h) in
    elim (Bool-cases ((sc == 0x2a) || (sc == 0x36))) [
      | inl shift ↦ rw shift (still)
      | inr shift ↦ rw shift (elim (Bool-cases ((sc == 0xaa) || (sc == 0xb6))) [
        | inl no_shift ↦ rw no_shift (still)
        | inr no_shift ↦ rw no_shift (elim (Bool-cases (sc == 0x1d)) [
          | inl ctrl ↦ rw ctrl (still)
          | inr ctrl ↦ rw ctrl (elim (Bool-cases (sc == 0x9d)) [
            | inl no_ctrl ↦ rw no_ctrl (still)
            | inr no_ctrl ↦ rw no_ctrl (elim (Bool-cases (has_bit sc 7)) [
              | inl release ↦ rw release (still)
              | inr release ↦
                  rw release
                    (editor_key-GoesOn sc _ (text, follow_cursor-Holds text s.ed h visible_lines))
            ])
          ])
        ])
      ])
    ]

-- What is left behind: a text, and its length as the file's size once the editor is left.
abbrev LeftInOrder : Session × Bool → Type 0
LeftInOrder (s, left) =
    (text : Bytes) × Holds text s.ed × ((left ≡ false) ⊎ (s.file_size ≡ length text))

editor_loop-LeftInOrder :
    (visible_lines : ℕ) (scs : List ℕ) (s : Session)
    → InOrder s.ed
    → LeftInOrder (editor_loop visible_lines scs s)
unfolding editor_loop GoesOn
editor_loop-LeftInOrder visible_lines [] s (text, h) = (text, h, inl refl)
editor_loop-LeftInOrder visible_lines (sc ∷ scs) s (text, h) =
    next (editor_scancode visible_lines sc s) (editor_scancode-GoesOn visible_lines sc s (text, h))
      (λ s' h'. editor_loop-LeftInOrder visible_lines scs s' h')
  where
    next :
        (o : Option Session)
        → GoesOn o
        → ((s' : Session) → InOrder s'.ed → LeftInOrder (editor_loop visible_lines scs s'))
        → LeftInOrder (elim o [
          | none ↦ (record s { file_size = s.ed.size }, true)
          | some s' ↦ editor_loop visible_lines scs s'
        ])
    next none g rest = (text, h, inr h.sized)
    next (some s') g rest = rest s' g

-- `str_len` finds the zero behind the text.
str_len_loop-text :
    (xs p rest : Bytes) (n i : ℕ)
    → i ≡ length p
    → length xs < n
    → All NotZero xs
    → str_len_loop n i (p ++ (xs ++ (0 ∷ rest))) ≡ i + length xs
unfolding str_len_loop
str_len_loop-text xs p rest zero i e h a = absurd (omega arith)
str_len_loop-text [] p rest (suc n) i e h a =
    rw (get_or-append p (0 ∷ rest) i 0 (omega arith)) (omega arith)
str_len_loop-text (x ∷ xs) p rest (suc n) i e h (nz, a) =
    let on : (x == 0) ≡ false = ground arith in
    rw (get_or-append p (x ∷ (xs ++ (0 ∷ rest))) i 0 (omega arith), on)
      (ap (str_len_loop n (i + 1)) (sym (append_assoc p (x ∷ []) (xs ++ (0 ∷ rest))))
        ∙ str_len_loop-text xs (p ++ (x ∷ [])) rest n (i + 1)
            (omega (arith, length-append p (x ∷ []))) (omega arith) a
        ∙ omega arith)

-- Opened on an array of 4096 bytes that holds a text and a zero, and whatever is typed: the array
-- keeps its length and holds a text without zeros and a zero behind it, the cursor stays in the
-- text, the editor's size is the text's length and so is, once the editor is left, the file's size,
-- and opening the array again finds the same size.
pub open_text_editor-Holds :
    (height : ℕ) (scs : List ℕ) (text rest : Bytes) (file_size : ℕ)
    → All NotZero text
    → length text + suc (length rest) ≡ 4096
    → let (s, left) = open_text_editor height scs (text ++ (0 ∷ rest)) file_size in
      (text' : Bytes) × Holds text' s.ed
      × ((left ≡ false) ⊎ (s.file_size ≡ length text'))
      × (str_len_loop 4096 0 s.ed.buffer ≡ s.ed.size)
unfolding open_text_editor open_session
open_text_editor-Holds height scs text rest file_size chars room =
    let n = str_len_loop-text text [] rest 4096 0 refl (omega arith) chars in
    let sized : str_len_loop 4096 0 (text ++ (0 ∷ rest)) ≡ length text = n ∙ omega arith in
    let (text', h, left) =
      editor_loop-LeftInOrder (visible_lines_of height) scs
        (open_session (text ++ (0 ∷ rest)) file_size)
        (
          text,
          record {
            rest = rest;
            content = refl;
            room = room;
            sized = sized;
            inside = omega (arith, sized);
            chars = chars;
          },
        ) in
    let room' = h.room in
    (
      text',
      h,
      left,
      ap (str_len_loop 4096 0) h.content
          ∙ str_len_loop-text text' [] h.rest 4096 0 refl (omega arith) h.chars
          ∙ omega (arith, h.sized),
    )
