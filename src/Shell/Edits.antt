-- ===== src/Shell/Edits.antt =====
-- The text that the editor of kernel/shell/shell.c holds, and what each operation makes of it.
use mathlib.Core.Path.{subst}
use mathlib.Core.List.{append_assoc}
use kagami_os.Prelude.{
  ℕ, zero, suc, ◌+◌, ◌-◌, ◌≤◌, ◌<◌, ◌≡◌, ◌≢◌, refl, ap, sym, ◌∙◌, true, false, [], ◌∷◌, ◌++◌, arith,
  length, length-append, length-take, length-drop, set, take, drop, take-append-drop, All, ltb, leb,
  ◌==◌, Bool-cases, inl, inr,
}
use kagami_os.Prelude.Bytes.{Bytes}
use kagami_os.Shell.Editor.{
  TextEditor, editor_insert_char, editor_backspace, shift_up, shift_down, max_file_content,
}
use kagami_os.Shell.Buffer.{
  NotZero, All-append, All-take, All-drop, insert_into, remove_from, set-append,
}

-- The array holds the text, which contains no zero, and a zero; the cursor is in the text or at its
-- end.
pub record Holds (text : Bytes) (ed : TextEditor) : Type 0 where
  pub rest : Bytes
  pub content : ed.buffer ≡ text ++ (0 ∷ rest)
  pub room : length text + suc (length rest) ≡ 4096
  pub sized : ed.size ≡ length text
  pub inside : ed.cursor ≤ length text
  pub chars : All NotZero text

-- The text with `c` put in, and without the character in front of `k + 1`.
abbrev pub inserted : (k c : ℕ) → Bytes → Bytes
inserted k c text = take k text ++ (c ∷ drop k text)

abbrev pub removed : ℕ → Bytes → Bytes
removed k text = take k text ++ drop (suc k) text

pub length-inserted :
    (k c : ℕ) (text : Bytes) → k ≤ length text → length (inserted k c text) ≡ suc (length text)
length-inserted k c text h =
    omega
      (arith, length-append (take k text) (c ∷ drop k text), length-take k text, length-drop k text)

pub length-removed :
    (k : ℕ) (text : Bytes) → k < length text → length (removed k text) ≡ length text - 1
length-removed k text h = omega (
  arith,
  length-append (take k text) (drop (suc k) text),
  length-take k text,
  length-drop (suc k) text,
)

removed-append : (p q : Bytes) (c k : ℕ) → k ≡ length p → removed k (p ++ (c ∷ q)) ≡ p ++ q
removed-append [] q c zero e = refl
removed-append [] q c (suc k) e = absurd (omega arith)
removed-append (x ∷ p) q c zero e = absurd (omega arith)
removed-append (x ∷ p) q c (suc k) e = ap (λ r. x ∷ r) (removed-append p q c k (omega arith))

pub removed-inserted :
    (k c : ℕ) (text : Bytes) → k ≤ length text → removed k (inserted k c text) ≡ text
removed-inserted k c text h =
    removed-append (take k text) (drop k text) c k (omega (arith, length-take k text))
    ∙ take-append-drop k text

drop-cons :
    (k : ℕ) (text : Bytes) → k < length text → (c : ℕ) × (drop k text ≡ c ∷ drop (suc k) text)
drop-cons k [] h = absurd (omega arith)
drop-cons zero (x ∷ text) h = (x, refl)
drop-cons (suc k) (x ∷ text) h = drop-cons k text (omega arith)

pub editor_insert_char-Holds :
    (text : Bytes) (ed : TextEditor) (c : ℕ)
    → Holds text ed
    → c ≢ 0
    → length text < 4095
    → Holds (inserted ed.cursor c text) (editor_insert_char c ed)
unfolding editor_insert_char
editor_insert_char-Holds text ed c h nz room =
    elim h.rest
        as (λ rest.
          (ed.buffer ≡ text ++ (0 ∷ rest))
          → (length text + suc (length rest) ≡ 4096)
          → Holds (inserted ed.cursor c text) (editor_insert_char c ed)) [
            | [] ↦ λ content size. absurd (omega arith)
            | r ∷ rest ↦ λ content size.
                (let k = ed.cursor in
                  let p = take k text in
                  let q = drop k text in
                  let bounded = h.inside in
                  let p_len : length p ≡ k = omega (arith, length-take k text) in
                  let q_len : length q ≡ length text - k = length-drop k text in
                  let fits : leb (max_file_content - 1) ed.size ≡ false = ground (arith, h.sized) in
                  let parts : ed.buffer ≡ p ++ (q ++ (0 ∷ (r ∷ rest))) =
                    content
                    ∙ ap (λ t. t ++ (0 ∷ (r ∷ rest))) (sym (take-append-drop k text))
                    ∙ append_assoc p q (0 ∷ (r ∷ rest)) in
                  let moved : set (shift_up (ed.size - k) ed.size ed.buffer) k c
                      ≡ p ++ (c ∷ (q ++ (r ∷ rest))) =
                    ap (λ b. set (shift_up (ed.size - k) ed.size b) k c) parts
                    ∙ ap
                        (λ j.
                          set (shift_up (ed.size - k) ed.size (p ++ (q ++ (0 ∷ (r ∷ rest))))) j c)
                        (sym p_len)
                    ∙ insert_into p q (r ∷ rest) (ed.size - k) ed.size 0 c (omega (arith, h.sized))
                        (omega (arith, h.sized)) in
                  let new_len = length-inserted k c text bounded in
                  let ended : set (p ++ (c ∷ (q ++ (r ∷ rest)))) (ed.size + 1) 0
                      ≡ inserted k c text ++ (0 ∷ rest) =
                    ap (λ b. set b (ed.size + 1) 0) (sym (append_assoc p (c ∷ q) (r ∷ rest)))
                    ∙ set-append (inserted k c text) (r ∷ rest) (ed.size + 1) 0 0
                        (omega (arith, h.sized)) in
                  rw fits (record {
                    rest = rest;
                    content = rw moved ended;
                    room = omega arith;
                    sized = omega (arith, h.sized);
                    inside = omega arith;
                    chars =
                        All-append p (c ∷ q) (All-take k text h.chars)
                          (nz, All-drop k text h.chars);
                  }))
          ]
      h.content h.room

-- Backspace takes the character in front of the cursor out of the text; at the front it does
-- nothing.
pub editor_backspace-Holds :
    (text : Bytes) (ed : TextEditor)
    → Holds text ed
    → ltb 0 ed.cursor ≡ true
    → Holds (removed (ed.cursor - 1) text) (editor_backspace ed)
unfolding editor_backspace
editor_backspace-Holds text ed h behind =
    let k : ℕ = ed.cursor - 1 in
    let bounded = h.inside in
    let cursor : ed.cursor ≡ suc k = ground arith in
    let p = take k text in
    let q = drop (suc k) text in
    let p_len : length p ≡ k = omega (arith, length-take k text) in
    let q_len : length q ≡ length text - suc k = length-drop (suc k) text in
    let (c, next) = drop-cons k text (omega arith) in
    let moves : (ed.cursor == 0) ≡ false = ground arith in
    let parts : ed.buffer ≡ p ++ (c ∷ ((q ++ (0 ∷ [])) ++ h.rest)) =
      h.content
      ∙ ap (λ t. t ++ (0 ∷ h.rest)) (sym (take-append-drop k text) ∙ ap (λ d. p ++ d) next)
      ∙ append_assoc p (c ∷ q) (0 ∷ h.rest)
      ∙ ap (λ r. p ++ (c ∷ r)) (sym (append_assoc q (0 ∷ []) h.rest)) in
    let (z, moved) =
      remove_from (q ++ (0 ∷ [])) p h.rest (ed.size - k) k c
        (omega (arith, h.sized, length-append q (0 ∷ []))) (omega arith) in
    let new_len = length-removed k text (omega arith) in
    rw moves (record {
      rest = z ∷ h.rest;
      content =
          ap (shift_down (ed.size - k) k) parts
          ∙ moved
          ∙ ap (λ r. p ++ r) (append_assoc q (0 ∷ []) (z ∷ h.rest))
          ∙ sym (append_assoc p q (0 ∷ (z ∷ h.rest)));
      room = omega (arith, h.room);
      sized = omega (arith, h.sized);
      inside = omega arith;
      chars = All-append p q (All-take k text h.chars) (All-drop (suc k) text h.chars);
    })

cursor-backspace : (ed : TextEditor) → (editor_backspace ed).cursor ≡ ed.cursor - 1
unfolding editor_backspace
cursor-backspace ed = elim (Bool-cases (ed.cursor == 0)) [
  | inl e ↦ rw e (ground arith)
  | inr e ↦ rw e refl
]

-- Typing a character, while there is room, and then backspace gives back the text and the cursor.
pub editor_backspace-editor_insert_char :
    (text : Bytes) (ed : TextEditor) (c : ℕ)
    → Holds text ed
    → c ≢ 0
    → length text < 4095
    → Holds text (editor_backspace (editor_insert_char c ed))
      × ((editor_backspace (editor_insert_char c ed)).cursor ≡ ed.cursor)
unfolding editor_insert_char editor_backspace
editor_backspace-editor_insert_char text ed c h nz room =
    let typed = editor_insert_char-Holds text ed c h nz room in
    let fits : leb (max_file_content - 1) ed.size ≡ false = ground (arith, h.sized) in
    let at : (editor_insert_char c ed).cursor ≡ ed.cursor + 1 = rw fits refl in
    let back =
      editor_backspace-Holds (inserted ed.cursor c text) (editor_insert_char c ed) typed
        (ground (arith, at)) in
    let place : removed ((editor_insert_char c ed).cursor - 1) (inserted ed.cursor c text) ≡ text =
      ap (λ k. removed k (inserted ed.cursor c text)) (omega (arith, at))
      ∙ removed-inserted ed.cursor c text h.inside in
    (
      subst (λ t. Holds t (editor_backspace (editor_insert_char c ed))) place back,
      cursor-backspace (editor_insert_char c ed) ∙ omega (arith, at),
    )
