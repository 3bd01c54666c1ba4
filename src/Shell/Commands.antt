-- ===== src/Shell/Commands.antt =====
-- The commands of kernel/shell/shell.c that work on files, directories and users. Each takes its
-- argument behind the spaces.
use kagami_os.Prelude.{
  ℕ, zero, suc, ◌+◌, ◌-◌, Bool, not, ◌&&◌, ◌||◌, Option, none, some, List, [], ◌∷◌, ◌++◌, length,
  ltb, leb, ◌==◌, if◌then◌else◌, take, drop, get_elem?,
}
use kagami_os.Prelude.Bytes.{Bytes}
use kagami_os.Prelude.Text.{codes}
use kagami_os.Prelude.Cmd.{Cmd, pure, get, put, crash, attempt, ◌>>=◌, ◌>>◌}
use kagami_os.Vfs.{vfs_is_mounted, vfs_list_dir, vfs_read_file, vfs_write_file}
use kagami_os.Shell.Strings.{
  same_name, agree, word, skip_spaces, find_slash, first_char, last_char, build_full_path, contains,
  asks_help,
}
use kagami_os.Shell.Files.{
  VirtualFile, User, Shell, file_of, folder_of, find_file, modify, with_content, fs_ensure_capacity,
  max_users, users_room,
}
use kagami_os.Shell.Create.{Reply, add_file}

-- A file whose name and the argument agree as far as both go.
unfoldable pub find_loosely : Bytes → List VirtualFile → Option ℕ
find_loosely filename files = find_file (λ f. agree 32 filename f.name) 0 files

unfoldable pub find_exactly : Bytes → List VirtualFile → Option ℕ
find_exactly filename files =
    find_file (λ f. not f.is_folder && same_name 32 filename f.name) 0 files

-- `file_system[i] = file_system[i + 1]` from `found` on.
unfoldable pub remove_at : ℕ → List VirtualFile → List VirtualFile
remove_at i [] = []
remove_at zero (f ∷ files) = files
remove_at (suc i) (f ∷ files) = f ∷ remove_at i files

unfoldable pub find_user : Bytes → List User → Option User
find_user username [] = none
find_user username (u ∷ users) =
    let rest = find_user username users in
    if agree 32 username u.username && not (first_char u.username == 0) then some u else rest

-- The folder that `cd` takes.
unfoldable pub enters : Bytes → VirtualFile → Bool
enters dirname f =
    f.is_folder
    && (agree (length dirname) dirname f.name && first_char dirname == first_char f.name)

-- The new path: `/` where the path has none at its end, and the name up to 62 characters.
unfoldable pub entered : (current_directory name : Bytes) → Bytes
entered current_directory name =
    let base =
      if ltb 0 (length current_directory) && not (last_char current_directory == b'/')
      then current_directory ++ (b'/' ∷ [])
      else current_directory in
    base ++ take (62 - length base) name

-- `cd ..`: a cut before the last slash, unless that is the first character.
unfoldable pub parent_of : Bytes → Option Bytes
parent_of current_directory = elim (find_slash none 0 current_directory) [
  | none ↦ none
  | some zero ↦ none
  | some (suc i) ↦ some (take (suc i) current_directory)
]

unfoldable pub matches : (pattern : Bytes) (i : ℕ) → List VirtualFile → List ℕ
matches pattern i [] = []
matches pattern i (f ∷ files) =
    let rest = matches pattern (i + 1) files in if contains pattern f.name then i ∷ rest else rest

abbrev pub file_at : Option ℕ → List VirtualFile → Option VirtualFile
file_at none files = none
file_at (some i) files = get_elem? files i

-- `read` and `edit` without a mounted filesystem; `opens i` is `open_text_editor` on that file.
unfoldable pub open_found : Option ℕ → List VirtualFile → Reply
open_found found files = elim found [
  | none ↦ Reply.not_found
  | some i ↦ elim (get_elem? files i) [
    | none ↦ Reply.not_found
    | some f ↦ if f.is_folder then Reply.is_chamber else Reply.opens i
  ]
]

module _ {D : Type 0} where
  -- A call of the VFS, with its device.
  unfoldable pub on_disk : {A : Type 0} → Cmd D A → Cmd (Shell D) A
  on_disk m s = let (r, d) = m s.disk in (r, record s { disk = d })

  -- A write to the files' array.
  unfoldable pub put_files : List VirtualFile → Cmd (Shell D) (Unit {0})
  put_files files = do s ← get; if s.constant then crash else put (record s { files = files })

  unfoldable pub rm_found : Option ℕ → Cmd (Shell D) Reply
  rm_found none = pure Reply.not_found
  rm_found (some i) = do
    s ← get
    if s.constant && ltb (i + 1) (length s.files)
        then crash
        else put (record s { files = remove_at i s.files })
    pure Reply.destroyed

  unfoldable pub rm : (filename : Bytes) → Cmd (Shell D) Reply
  rm filename =
      if asks_help filename
      then pure Reply.usage
      else do s ← get; rm_found (find_loosely filename s.files)

  unfoldable pub write_found : (text : Bytes) → Option ℕ → Cmd (Shell D) Reply
  write_found text none = pure Reply.not_found
  write_found text (some i) = do
    s ← get
    put_files (modify (with_content text) i s.files)
    pure Reply.written

  -- `write` behind the parsing of its arguments.
  unfoldable pub write_text : (filename text : Bytes) → Cmd (Shell D) Reply
  write_text filename text = do
    s ← get
    if vfs_is_mounted s.mounted
        then (do
          done ← attempt (
              on_disk (
                vfs_write_file s.mounted (build_full_path s.current_directory filename 128) text
                  (length text)))
          elim done [ none ↦ pure Reply.write_failed | some u ↦ pure Reply.written ])
        else write_found text (find_exactly filename s.files)

  unfoldable pub write_command : (args : Bytes) → Cmd (Shell D) Reply
  write_command args =
      let (filename, rest) = word 31 args in
      let text = skip_spaces rest in
      if asks_help args || (length filename == 0 || length text == 0)
      then pure Reply.usage
      else write_text filename text

  unfoldable pub copy_file : (dest : Bytes) → Option VirtualFile → Cmd (Shell D) Reply
  copy_file dest none = pure Reply.not_found
  copy_file dest (some f) = do
    s ← get
    add_file (file_of (take 31 dest) (take 4095 f.content) (take 63 s.current_directory) f.size)
    pure Reply.duplicated

  unfoldable pub copy : (commands_manual args : Bytes) → Cmd (Shell D) Reply
  copy commands_manual args = if asks_help args then pure Reply.usage else do
    s ← get
    let (room, s) = fs_ensure_capacity commands_manual 1 s
    put s
    if not room
        then pure Reply.vault_full
        else (let (src, rest) = word 31 args in
            let (dest, _) = word 31 (skip_spaces rest) in
            if (length src == 0) || (length dest == 0)
            then pure Reply.usage
            else copy_file dest (file_at (find_exactly src s.files) s.files))

  unfoldable pub find_command : (pattern : Bytes) → Cmd (Shell D) Reply
  find_command pattern =
      if asks_help pattern || (length pattern == 0)
      then pure Reply.usage
      else do s ← get; pure (Reply.found_at (matches pattern 0 s.files))

  unfoldable pub edit : (filename : Bytes) → Cmd (Shell D) Reply
  edit filename =
      if asks_help filename
      then pure Reply.usage
      else do s ← get; pure (open_found (find_loosely filename s.files) s.files)

  unfoldable pub read_command : (filename : Bytes) → Cmd (Shell D) Reply
  read_command filename = if asks_help filename then pure Reply.usage else do
    s ← get
    if vfs_is_mounted s.mounted
        then (do
          done ← attempt (
              on_disk
                (vfs_read_file s.mounted (build_full_path s.current_directory filename 128) 1023))
          elim done [ none ↦ pure Reply.not_found | some text ↦ pure (Reply.shows text) ])
        else pure (open_found (find_loosely filename s.files) s.files)

  unfoldable pub set_directory : Bytes → Cmd (Shell D) (Unit {0})
  set_directory path = do
    s ← get
    if ltb 63 (length path) then crash else put (record s { current_directory = path })

  unfoldable pub cd_found : Option VirtualFile → Cmd (Shell D) Reply
  cd_found none = pure Reply.not_found
  cd_found (some f) = do
    s ← get
    set_directory (entered s.current_directory f.name)
    pure (Reply.entering f.name)

  unfoldable pub cd_folder : (dirname : Bytes) → Cmd (Shell D) Reply
  cd_folder dirname = do s ← get; cd_found (file_at (find_file (enters dirname) 0 s.files) s.files)

  unfoldable pub cd_mounted : (dirname : Bytes) → Cmd (Shell D) Reply
  cd_mounted dirname = do
    s ← get
    let target = build_full_path s.current_directory dirname 128
    done ← attempt (on_disk (vfs_list_dir s.mounted target 256))
    elim done [
      | none ↦ pure Reply.not_found
      | some list ↦ do set_directory (take 63 target); pure (Reply.entering target)
    ]

  unfoldable pub cd_up : Option Bytes → Cmd (Shell D) Reply
  cd_up none = pure Reply.at_root
  cd_up (some path) = do set_directory path; pure Reply.moved_up

  unfoldable pub cd_parent : Cmd (Shell D) Reply
  cd_parent = do s ← get; cd_up (parent_of s.current_directory)

  unfoldable pub cd_into : (dirname : Bytes) → Cmd (Shell D) Reply
  cd_into dirname = do
    s ← get
    if vfs_is_mounted s.mounted then cd_mounted dirname else cd_folder dirname

  unfoldable pub cd : (dirname : Bytes) → Cmd (Shell D) Reply
  cd dirname =
      if asks_help dirname
      then pure Reply.usage
      else if length dirname == 0
      then (do set_directory (b'/' ∷ []); pure Reply.at_entrance)
      else if (first_char dirname == b'.') && (first_char (drop 1 dirname) == b'.')
      then cd_parent
      else cd_into dirname

  -- The user behind the last is written: the array has two elements.
  unfoldable pub write_user : User → Cmd (Shell D) (Unit {0})
  write_user u = do s ← get; if leb users_room (length s.users) then crash else pure tt

  unfoldable pub add_user : (commands_manual username : Bytes) → Cmd (Shell D) Reply
  add_user commands_manual username = do
    let (name, _) = word 31 username
    let user : User = record { username = name; password = codes "welcome" }
    write_user user
    s ← get
    let (room, s) = fs_ensure_capacity commands_manual 1 s
    put s
    if not room then pure Reply.vault_full else do
      add_file (folder_of name (codes "/home"))
      s ← get
      put (record s { users = s.users ++ (user ∷ []) })
      pure (Reply.new_seeker name)

  unfoldable pub add_unless : (commands_manual username : Bytes) → Option User → Cmd (Shell D) Reply
  add_unless commands_manual username (some u) = pure Reply.seeker_exists
  add_unless commands_manual username none = add_user commands_manual username

  unfoldable pub useradd : (commands_manual username : Bytes) → Cmd (Shell D) Reply
  useradd commands_manual username = if asks_help username then pure Reply.usage else do
    s ← get
    if leb max_users (length s.users)
        then pure Reply.realm_full
        else if length username == 0
        then pure Reply.usage
        else add_unless commands_manual username (find_user username s.users)

  unfoldable pub log_in : Option User → Cmd (Shell D) Reply
  log_in none = pure Reply.no_seeker
  log_in (some u) = do
    s ← get
    put (record s {
      current_user = take 31 u.username;
      current_directory = codes "/home/" ++ take 31 u.username;
    })
    pure (Reply.welcome (take 31 u.username))

  unfoldable pub login : (username : Bytes) → Cmd (Shell D) Reply
  login username =
      if asks_help username || (length username == 0)
      then pure Reply.usage
      else do s ← get; log_in (find_user username s.users)
