-- ===== src/Shell/Keeps.antt =====
-- The commands of kernel/shell/shell.c keep a well-formed state and meet no undefined behaviour.
use mathlib.Core.List.{append-nil}
use kagami_os.Prelude.{
  ℕ, zero, suc, ◌+◌, ◌-◌, ◌≤◌, ◌<◌, ◌≡◌, refl, ap, true, false, not, ◌&&◌, ◌||◌, Option, none, some,
  List, [], ◌∷◌, ◌++◌, length, length-append, ltb, ◌==◌, take, drop, All, arith, Bool-cases, inl,
  inr, ◌⊎◌,
}
use kagami_os.Prelude.Bytes.{Bytes, ok}
use kagami_os.Prelude.Text.{codes}
use kagami_os.Vfs.{vfs_is_mounted}
use kagami_os.Shell.Strings.{last_char, find_slash, asks_help, word, skip_spaces, first_char}
use kagami_os.Shell.Files.{VirtualFile, User, Shell, find_file, modify, with_content}
use kagami_os.Shell.Create.{}
use kagami_os.Shell.Commands.{
  find_loosely, find_exactly, remove_at, find_user, enters, entered, parent_of, put_files, rm,
  rm_found, write_text, write_command, file_at, find_command, edit, read_command, set_directory,
  cd_folder, write_found, cd_found, cd_up, log_in, cd_parent, cd_into, cd, login,
}
use kagami_os.Shell.State.{
  FileFits, DirFits, WellFormed, Safe, Safe-bind, take_le, All-modify, All-remove_at, files_changed,
  directory_changed,
}

with_content-FileFits :
    (text : Bytes) (f : VirtualFile) → FileFits f → FileFits (with_content text f)
with_content-FileFits text f h = record {
  name_fits = h.name_fits;
  content_fits = take_le 4095 text;
  parent_fits = h.parent_fits;
}

last_char-snoc : (xs : Bytes) (c : ℕ) → last_char (xs ++ (c ∷ [])) ≡ c
unfolding last_char
last_char-snoc [] c = refl
last_char-snoc (x ∷ []) c = refl
last_char-snoc (x ∷ (y ∷ xs)) c = last_char-snoc (y ∷ xs) c

-- What is appended up to 62 characters keeps a directory that fits.
appended : (base name : Bytes) → DirFits base → DirFits (base ++ take (62 - length base) name)
appended base name (inl le) = inl (
    omega
      (arith, length-append base (take (62 - length base) name), take_le (62 - length base) name))
appended base name (inr (len, slash)) =
    let none_left : 62 - length base ≡ 0 = omega arith in
    rw (none_left, append-nil base) (inr (len, slash))

entered-DirFits : (dir name : Bytes) → DirFits dir → DirFits (entered dir name)
unfolding entered
entered-DirFits dir name d = elim (Bool-cases (ltb 0 (length dir) && not (last_char dir == b'/'))) [
  | inl e ↦ rw e (appended (dir ++ (b'/' ∷ [])) name (slashed d e))
  | inr e ↦ rw e (appended dir name d)
]
  where
    slashed :
        DirFits dir
        → (ltb 0 (length dir) && not (last_char dir == b'/')) ≡ true
        → DirFits (dir ++ (b'/' ∷ []))
    slashed (inl le) e = elim (Bool-cases (length dir == 62)) [
      | inl full ↦ inr (ground (arith, length-append dir (b'/' ∷ [])), last_char-snoc dir b'/')
      | inr less ↦ inl (ground (arith, length-append dir (b'/' ∷ [])))
    ]
    slashed (inr (len, slash)) e = absurd (ground arith)

find_slash-lt :
    (cs : Bytes) (found : Option ℕ) (i k : ℕ)
    → find_slash found i cs ≡ some k
    → (found ≡ some k) ⊎ (k < i + length cs)
unfolding find_slash
find_slash-lt [] found i k e = inl e
find_slash-lt (c ∷ cs) found i k e = elim (Bool-cases (c == b'/')) [
  | inl s ↦ elim (find_slash-lt cs (some i) (i + 1) k (rw s at e)) [
    | inl at ↦ inr (let same : i ≡ k = cc in omega arith)
    | inr lt ↦ inr (omega arith)
  ]
  | inr s ↦ elim (find_slash-lt cs found (i + 1) k (rw s at e)) [
    | inl before ↦ inl before
    | inr lt ↦ inr (omega arith)
  ]
]

dir_le : (dir : Bytes) → DirFits dir → length dir ≤ 63
dir_le dir (inl le) = omega arith
dir_le dir (inr (len, _)) = omega arith

parent_of-le : (dir path : Bytes) → DirFits dir → parent_of dir ≡ some path → length path ≤ 62
unfolding parent_of
parent_of-le dir path d e = cut (find_slash none 0 dir) refl e
  where
    cut :
        (o : Option ℕ)
        → find_slash none 0 dir ≡ o
        → (elim o as (λ _. Option Bytes) [
          | none ↦ none
          | some zero ↦ none
          | some (suc i) ↦ some (take (suc i) dir)
        ])
          ≡ some path
        → length path ≤ 62
    cut none l e = cc
    cut (some zero) l e = cc
    cut (some (suc i)) l e = elim (find_slash-lt dir none 0 (suc i) l) [
      | inl at ↦ cc
      | inr lt ↦
          (let same : take (suc i) dir ≡ path = cc in
            let short = dir_le dir d in omega (arith, take_le (suc i) dir, ap length same))
    ]

module _ {D : Type 0} (s : Shell D) (w : WellFormed s) where
  set_directory-Safe : (path : Bytes) → DirFits path → Safe (set_directory path s)
  unfolding set_directory
  set_directory-Safe path d =
      let fits : ltb 63 (length path) ≡ false = short d in rw fits (directory_changed s w path d)
    where
      short : DirFits path → ltb 63 (length path) ≡ false
      short (inl le) = ground arith
      short (inr (len, _)) = ground arith

  put_files-Safe :
      (files : List VirtualFile)
      → length files ≤ s.file_capacity
      → All FileFits files
      → Safe (put_files files s)
  unfolding put_files
  put_files-Safe files le a =
      let done : put_files files s ≡ (ok tt, record s { files = files }) = rw w.writable refl in
      rw done (files_changed s w files le a)

  not_mounted : vfs_is_mounted s.mounted ≡ false
  unfolding vfs_is_mounted
  not_mounted = rw w.unmounted refl

  rm_found-Safe : (found : Option ℕ) → Safe (rm_found found s)
  unfolding rm_found
  rm_found-Safe none = w
  rm_found-Safe (some i) =
      let (a, le) = All-remove_at i s.files w.fits in
      let room = w.room in
      let writes : (s.constant && ltb (i + 1) (length s.files)) ≡ false = rw w.writable refl in
      rw writes (files_changed s w (remove_at i s.files) (omega arith) a)

  pub rm-Safe : (filename : Bytes) → Safe (rm filename s)
  unfolding rm
  rm-Safe filename = elim (Bool-cases (asks_help filename)) [
    | inl e ↦ rw e w
    | inr e ↦ rw e (rm_found-Safe (find_loosely filename s.files))
  ]

  write_found-Safe : (text : Bytes) (found : Option ℕ) → Safe (write_found text found s)
  unfolding write_found
  write_found-Safe text none = w
  write_found-Safe text (some i) =
      let (a, same) =
        All-modify (with_content text) i s.files (with_content-FileFits text) w.fits in
      let room = w.room in
      Safe-bind (put_files (modify (with_content text) i s.files) s) _
        (put_files-Safe (modify (with_content text) i s.files) (omega arith) a) (λ u s' w'. w')

  pub write_command-Safe : (args : Bytes) → Safe (write_command args s)
  unfolding write_command write_text
  write_command-Safe args =
      let filename = (word 31 args).0 in
      let text = skip_spaces (word 31 args).1 in
      elim (Bool-cases (asks_help args || (length filename == 0 || length text == 0))) [
        | inl e ↦ rw e w
        | inr e ↦ rw e (rw not_mounted (write_found-Safe text (find_exactly filename s.files)))
      ]

  pub find_command-Safe : (pattern : Bytes) → Safe (find_command pattern s)
  unfolding find_command
  find_command-Safe pattern = elim (Bool-cases (asks_help pattern || (length pattern == 0))) [
    | inl e ↦ rw e w
    | inr e ↦ rw e w
  ]

  pub edit-Safe : (filename : Bytes) → Safe (edit filename s)
  unfolding edit
  edit-Safe filename = elim (Bool-cases (asks_help filename)) [ inl e ↦ rw e w | inr e ↦ rw e w ]

  pub read_command-Safe : (filename : Bytes) → Safe (read_command filename s)
  unfolding read_command
  read_command-Safe filename = elim (Bool-cases (asks_help filename)) [
    | inl e ↦ rw e w
    | inr e ↦ rw e (rw not_mounted w)
  ]

  log_in-Safe : (found : Option User) → Safe (log_in found s)
  unfolding log_in
  log_in-Safe none = w
  log_in-Safe (some u) = record {
    ready = w.ready;
    writable = w.writable;
    unmounted = w.unmounted;
    room = w.room;
    fits = w.fits;
    dir =
        inl (
          omega
            (arith, length-append (codes "/home/") (take 31 u.username), take_le 31 u.username));
    user = take_le 31 u.username;
  }

  pub login-Safe : (username : Bytes) → Safe (login username s)
  unfolding login
  login-Safe username = elim (Bool-cases (asks_help username || (length username == 0))) [
    | inl e ↦ rw e w
    | inr e ↦ rw e (log_in-Safe (find_user username s.users))
  ]

  cd_found-Safe : (found : Option VirtualFile) → Safe (cd_found found s)
  unfolding cd_found
  cd_found-Safe none = w
  cd_found-Safe (some f) =
      Safe-bind (set_directory (entered s.current_directory f.name) s) _
        (set_directory-Safe (entered s.current_directory f.name)
          (entered-DirFits s.current_directory f.name w.dir))
        (λ u s' w'. w')

  cd_up-Safe : (up : Option Bytes) → parent_of s.current_directory ≡ up → Safe (cd_up up s)
  unfolding cd_up
  cd_up-Safe none e = w
  cd_up-Safe (some path) e =
      Safe-bind (set_directory path s) _
        (set_directory-Safe path (inl (parent_of-le s.current_directory path w.dir e)))
        (λ u s' w'. w')

  pub cd-Safe : (dirname : Bytes) → Safe (cd dirname s)
  unfolding cd cd_parent cd_into cd_folder
  cd-Safe dirname = elim (Bool-cases (asks_help dirname)) [
    | inl e ↦ rw e w
    | inr e ↦ rw e (elim (Bool-cases (length dirname == 0)) [
      | inl e ↦ rw e (
          Safe-bind (set_directory (b'/' ∷ []) s) _
            (set_directory-Safe (b'/' ∷ []) (inl (omega arith))) (λ u s' w'. w'))
      | inr e ↦
          rw e
            (elim (Bool-cases
              ((first_char dirname == b'.') && (first_char (drop 1 dirname) == b'.'))) [
                | inl e ↦ rw e (cd_up-Safe (parent_of s.current_directory) refl)
                | inr e ↦ rw e (
                    rw not_mounted
                      (cd_found-Safe (file_at (find_file (enters dirname) 0 s.files) s.files)))
              ])
    ])
  ]
