-- ===== src/Shell/Create.antt =====
-- The `create` command of kernel/shell/shell.c. A failure of a command is a shell that still waits
-- for a key; a fault is undefined behaviour.
use kagami_os.Prelude.{
  ℕ, zero, suc, ◌+◌, ◌-◌, Bool, true, false, not, ◌&&◌, ◌||◌, Option, none, some, List, [], ◌∷◌,
  ◌++◌, length, ltb, leb, ◌==◌, if◌then◌else◌, take, drop,
}
use kagami_os.Prelude.Bytes.{Bytes}
use kagami_os.Prelude.Cmd.{Cmd, pure, give_up, get, put, crash, ◌>>=◌, ◌>>◌}
use kagami_os.Shell.Keys.{get_keyboard_char}
use kagami_os.Shell.Strings.{same_name, find_slash, with_slash, asks_help}
use kagami_os.Shell.Files.{VirtualFile, Shell, file_of, folder_of, find_file, fs_ensure_capacity}

-- What a command says.
pub data Reply : Type 0 where
  usage : Reply
  vault_full : Reply
  chamber_created : Reply
  inscribed : Reply
  inscribed_in_chamber : Reply
  chamber_and_scroll_created : Reply
  canceled : Reply
  destroyed : Reply
  not_found : Reply
  written : Reply
  write_failed : Reply
  duplicated : Reply
  found_at : List ℕ → Reply
  opens : ℕ → Reply
  is_chamber : Reply
  shows : Bytes → Reply
  realm_full : Reply
  seeker_exists : Reply
  new_seeker : Bytes → Reply
  welcome : Bytes → Reply
  no_seeker : Reply
  at_entrance : Reply
  at_root : Reply
  moved_up : Reply
  entering : Bytes → Reply

-- `path` up to a space: the loop for `len`.
unfoldable pub up_to_space : Bytes → Bytes
up_to_space [] = []
up_to_space (c ∷ cs) = let rest = up_to_space cs in if c == b' ' then [] else c ∷ rest

-- The parent of a file in a folder of the current directory.
unfoldable pub folder_path : (current_directory folder_name : Bytes) → Bytes
folder_path current_directory folder_name =
    let base =
      with_slash (ltb 0 (length (take 62 current_directory))) (take 62 current_directory) in
    base ++ take (63 - length base) folder_name

-- A folder of that name in the current directory.
unfoldable pub find_folder : (folder_name current_directory : Bytes) → List VirtualFile → Option ℕ
find_folder folder_name current_directory files =
    find_file
      (λ f.
        f.is_folder && (same_name 32 folder_name f.name && same_name 64 current_directory f.parent))
      0 files

-- What the loop makes of a character that came in.
unfoldable pub answer :
    (List ℕ → Option (Bool × List ℕ)) → Option (ℕ × List ℕ) → Option (Bool × List ℕ)
answer next none = none
answer next (some (c, keys)) =
    if (c == b'y') || (c == b'Y')
    then some (true, keys)
    else if (c == b'n') || ((c == b'N') || (c == 10))
    then some (false, keys)
    else next keys

-- `y` or `n`; `none` while neither has come.
unfoldable pub yes_or_no : (fuel : ℕ) → List ℕ → Option (Bool × List ℕ)
yes_or_no zero keys = none
yes_or_no (suc fuel) keys = answer (λ keys'. yes_or_no fuel keys') (get_keyboard_char keys)

module _ {D : Type 0} where
  -- The element behind the last is written, and counted. There is no room for it behind the constant
  -- array or behind the capacity.
  unfoldable pub add_file : VirtualFile → Cmd (Shell D) (Unit {0})
  add_file f = do
    s ← get
    if s.constant || leb s.file_capacity (length s.files)
        then crash
        else put (record s { files = s.files ++ (f ∷ []) })

  -- `name/`
  unfoldable pub create_folder : (path : Bytes) (slash_pos : ℕ) → Cmd (Shell D) Reply
  create_folder path slash_pos = do
    s ← get
    add_file (folder_of (take 31 (take slash_pos path)) (take 63 s.current_directory))
    pure Reply.chamber_created

  -- The answer to the question whether to create the folder, and what follows.
  unfoldable pub create_both :
      (commands_manual folder_name file_name : Bytes) → Option (Bool × List ℕ) → Cmd (Shell D) Reply
  create_both commands_manual folder_name file_name none = give_up
  create_both commands_manual folder_name file_name (some (false, keys)) = pure Reply.canceled
  create_both commands_manual folder_name file_name (some (true, keys)) = do
    s ← get
    let (room, s) = fs_ensure_capacity commands_manual 2 s
    put s
    if not room then pure Reply.vault_full else do
      add_file (folder_of folder_name (take 63 s.current_directory))
      add_file (file_of file_name [] (folder_path s.current_directory folder_name) 0)
      pure Reply.chamber_and_scroll_created

  unfoldable pub create_in :
      (commands_manual folder_name file_name : Bytes) (keys : List ℕ)
      → Option ℕ
      → Cmd (Shell D) Reply
  create_in commands_manual folder_name file_name keys none =
      create_both commands_manual folder_name file_name (yes_or_no (length keys) keys)
  create_in commands_manual folder_name file_name keys (some i) = do
    s ← get
    add_file (file_of file_name [] (folder_path s.current_directory folder_name) 0)
    pure Reply.inscribed_in_chamber

  -- `folder/file`
  unfoldable pub create_inside :
      (commands_manual path : Bytes) (slash_pos : ℕ) (keys : List ℕ) → Cmd (Shell D) Reply
  create_inside commands_manual path slash_pos keys = do
    s ← get
    let folder_name = take 31 (take slash_pos path)
    let file_name = take 31 (up_to_space (drop (slash_pos + 1) path))
    create_in commands_manual folder_name file_name keys
        (find_folder folder_name s.current_directory s.files)

  unfoldable pub create_file : (path : Bytes) → Cmd (Shell D) Reply
  create_file path = do
    s ← get
    add_file (file_of (take 31 (up_to_space path)) [] (take 63 s.current_directory) 0)
    pure Reply.inscribed

  unfoldable pub create_at :
      (commands_manual path : Bytes) (keys : List ℕ) → Option ℕ → Cmd (Shell D) Reply
  create_at commands_manual path keys none = create_file path
  create_at commands_manual path keys (some slash_pos) =
      if slash_pos + 1 == length (up_to_space path)
      then create_folder path slash_pos
      else create_inside commands_manual path slash_pos keys

  -- `path` is the argument behind the spaces; `keys` are the scancodes that come in.
  unfoldable pub create : (commands_manual path : Bytes) (keys : List ℕ) → Cmd (Shell D) Reply
  create commands_manual path keys = if asks_help path then pure Reply.usage else do
    s ← get
    let (room, s) = fs_ensure_capacity commands_manual 1 s
    put s
    if not room || (length path == 0)
        then pure (if not room then Reply.vault_full else Reply.usage)
        else create_at commands_manual path keys (find_slash none 0 (up_to_space path))
