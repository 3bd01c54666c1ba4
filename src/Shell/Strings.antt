-- ===== src/Shell/Strings.antt =====
-- The loops over C strings in kernel/shell/shell.c. A string is the list of its characters, none of
-- them zero.
use kagami_os.Prelude.{
  ℕ, zero, suc, ◌+◌, ◌-◌, Bool, true, false, not, ◌&&◌, ◌||◌, Option, none, some, [], ◌∷◌, ◌++◌,
  length, ltb, ◌==◌, if◌then◌else◌, take,
}
use kagami_os.Prelude.Bytes.{Bytes}
use kagami_os.Prelude.Text.{codes}

-- `while (*args == ' ') args++`
unfoldable pub skip_spaces : Bytes → Bytes
skip_spaces [] = []
skip_spaces (c ∷ cs) = let rest = skip_spaces cs in if c == b' ' then rest else c ∷ cs

-- `cmd[0] == ... && cmd[1] == ...`: what stands behind the letters.
unfoldable pub behind : (letters cmd : Bytes) → Option Bytes
behind [] cmd = some cmd
behind (l ∷ letters) [] = none
behind (l ∷ letters) (c ∷ cmd) = let rest = behind letters cmd in if c == l then rest else none

abbrev pub is_some : Option Bytes → Bool
is_some none = false
is_some (some rest) = true

unfoldable pub begins : (letters cmd : Bytes) → Bool
begins letters cmd = is_some (behind letters cmd)

-- `-h` or `--help`
unfoldable pub asks_help : Bytes → Bool
asks_help arg = begins (codes "-h") arg || begins (codes "--help") arg

-- At most `n` characters up to a space or the end, and what follows.
unfoldable pub word : (n : ℕ) → Bytes → Bytes × Bytes
word zero cs = ([], cs)
word (suc n) [] = ([], [])
word (suc n) (c ∷ cs) =
    let (w, rest) = word n cs in if c == b' ' then ([], c ∷ cs) else (c ∷ w, rest)

-- `for (j = 0; j < n && a[j] && b[j]; j++)`, a test for difference
unfoldable pub agree : (n : ℕ) (a b : Bytes) → Bool
agree zero a b = true
agree (suc n) [] b = true
agree (suc n) (x ∷ a) [] = true
agree (suc n) (x ∷ a) (y ∷ b) = let rest = agree n a b in if x == y then rest else false

-- `for (j = 0; j < n; j++)`, the same up to the end of both
unfoldable pub same_name : (n : ℕ) (a b : Bytes) → Bool
same_name zero a b = true
same_name (suc n) [] [] = true
same_name (suc n) [] (y ∷ b) = false
same_name (suc n) (x ∷ a) [] = false
same_name (suc n) (x ∷ a) (y ∷ b) = let rest = same_name n a b in if x == y then rest else false

-- `name[0]`, zero at the end
abbrev pub first_char : Bytes → ℕ
first_char [] = 0
first_char (c ∷ cs) = c

unfoldable pub last_char : Bytes → ℕ
last_char [] = 0
last_char (c ∷ []) = c
last_char (c ∷ (d ∷ cs)) = last_char (d ∷ cs)

-- A `/` behind `path`, where it has none and `room` is left.
unfoldable pub with_slash : (room : Bool) → Bytes → Bytes
with_slash room path = if not (last_char path == b'/') && room then path ++ (b'/' ∷ []) else path

-- Places of `/` in the `path[len]` loop: the last one from `i` on, or the one found before.
unfoldable pub find_slash : (found : Option ℕ) (i : ℕ) → Bytes → Option ℕ
find_slash found i [] = found
find_slash found i (c ∷ cs) =
    let here = find_slash (some i) (i + 1) cs in
    let other = find_slash found (i + 1) cs in if c == b'/' then here else other

-- `max_len` is positive, the pointers are not null.
unfoldable pub build_full_path : (current_directory name : Bytes) (max_len : ℕ) → Bytes
build_full_path current_directory name max_len =
    let base : Bytes = elim current_directory [
      | [] ↦ b'/' ∷ []
      | c ∷ cs ↦ take (max_len - 1) (c ∷ cs)
    ] in
    let slashed = with_slash (ltb (length base) (max_len - 1)) base in
    if first_char name == b'/'
    then take (max_len - 1) name
    else slashed ++ take (max_len - 1 - length slashed) name

-- The prompt; the arrays that it is written to have 64 bytes.
unfoldable pub behind_home : (home dir : Bytes) → Option Bytes
behind_home [] [] = some []
behind_home [] (d ∷ dir) = if d == b'/' then some (d ∷ dir) else none
behind_home (h ∷ home) [] = none
behind_home (h ∷ home) (d ∷ dir) = let rest = behind_home home dir in if h == d then rest else none

unfoldable pub get_dir_prompt : (current_directory current_user : Bytes) → Bytes
get_dir_prompt current_directory current_user =
    codes "kagami:"
    ++ ((elim (behind_home (codes "/home/" ++ current_user) current_directory) [
      | none ↦ current_directory
      | some rest ↦ b'~' ∷ rest
    ])
        ++ codes "> ")

-- Is `pattern` a part of `name`?
unfoldable pub contains : (pattern name : Bytes) → Bool
contains pattern [] = false
contains pattern (c ∷ cs) =
    let rest = contains pattern cs in if begins pattern (c ∷ cs) then true else rest
