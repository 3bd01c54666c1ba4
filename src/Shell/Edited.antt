-- ===== src/Shell/Edited.antt =====
-- What the editor of kernel/shell/shell.c makes of a file in memory: `open_text_editor` works on the
-- array `content` of the file's record and sets its `size`.
use mathlib.Core.Path.{subst}
use kagami_os.Prelude.{
  ℕ, suc, ◌+◌, ◌≡◌, refl, ap, sym, ◌∙◌, false, List, [], ◌∷◌, ◌++◌, arith, length, All, ◌==◌,
  if◌then◌else◌, ◌⊎◌,
}
use kagami_os.Prelude.Bytes.{Bytes}
use kagami_os.Shell.Session.{open_text_editor}
use kagami_os.Shell.Files.{VirtualFile}
use kagami_os.Shell.Buffer.{NotZero}
use kagami_os.Shell.Safe.{open_text_editor-Holds}
use kagami_os.Shell.State.{FileFits}

-- the string that an array holds
unfoldable pub string_of : Bytes → Bytes
string_of [] = []
string_of (c ∷ cs) = let rest = string_of cs in if c == 0 then [] else c ∷ rest

-- `stale` is what the array holds behind the final zero.
unfoldable pub edited : (height : ℕ) (scs : List ℕ) (stale : Bytes) → VirtualFile → VirtualFile
edited height scs stale f =
    let (s, _) = open_text_editor height scs (f.content ++ (0 ∷ stale)) f.size in
    record f { content = string_of s.ed.buffer; size = s.file_size }

string_of-append : (text rest : Bytes) → All NotZero text → string_of (text ++ (0 ∷ rest)) ≡ text
unfolding string_of
string_of-append [] rest a = refl
string_of-append (c ∷ text) rest (nz, a) =
    let on : (c == 0) ≡ false = ground arith in
    rw on (ap (λ r. c ∷ r) (string_of-append text rest a))

-- A file that fits its record still does after the editor, whatever was typed; no zero is in its
-- text, and once the editor is left its size is the length of the text.
pub edited-FileFits :
    (height : ℕ) (scs : List ℕ) (stale : Bytes) (f : VirtualFile)
    → FileFits f
    → All NotZero f.content
    → length f.content + suc (length stale) ≡ 4096
    → FileFits (edited height scs stale f)
      × All NotZero (edited height scs stale f).content
      × (((open_text_editor height scs (f.content ++ (0 ∷ stale)) f.size).1 ≡ false)
          ⊎ ((edited height scs stale f).size ≡ length (edited height scs stale f).content))
unfolding edited
edited-FileFits height scs stale f h chars room =
    let (text, held, left, _) =
      open_text_editor-Holds height scs f.content stale f.size chars room in
    let same = ap string_of held.content ∙ string_of-append text held.rest held.chars in
    let space = held.room in
    (
      record {
        name_fits = h.name_fits;
        content_fits = omega (arith, ap length same);
        parent_fits = h.parent_fits;
      },
      subst (λ t. All NotZero t) (sym same) held.chars,
      rw same left,
    )
