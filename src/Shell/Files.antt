-- ===== src/Shell/Files.antt =====
-- The files of kernel/shell/shell.c that are kept in memory. `file_system` is the list of its first
-- `file_count` elements; `content` is the string that the array of 4096 bytes holds.
use kagami_os.Prelude.{
  ℕ, zero, suc, ◌+◌, ◌*◌, Bool, true, false, Option, none, some, List, [], ◌∷◌, ◌++◌, map, length,
  ltb, leb, if◌then◌else◌, take,
}
use kagami_os.Prelude.Bytes.{Bytes}
use kagami_os.Prelude.Text.{codes}
use kagami_os.Heap.{HeapState, Memory, calloc}
use kagami_os.Ext4.Layout.{Ext4Fs}
use kagami_os.Shell.Strings.{same_name}

pub record VirtualFile : Type 0 where
  pub name : Bytes
  pub content : Bytes
  pub size : ℕ
  pub is_folder : Bool
  pub parent : Bytes

pub record User : Type 0 where
  pub username : Bytes
  pub password : Bytes

-- The variables of the shell, the heap, and the filesystem behind the VFS with its device.
-- `constant` says that `file_system` is `initial_files`, which must not be written.
pub record Shell (D : Type 0) : Type 0 where
  pub files : List VirtualFile
  pub file_capacity : ℕ
  pub fs_initialized : Bool
  pub constant : Bool
  pub users : List User
  pub current_user : Bytes
  pub current_directory : Bytes
  pub heap : HeapState
  pub memory : Memory
  pub mounted : Option (Ext4Fs D)
  pub disk : D

abbrev pub initial_file_capacity : ℕ
initial_file_capacity = 32

-- `sizeof(VirtualFile)`
abbrev pub virtual_file_bytes : ℕ
virtual_file_bytes = 32 + 4096 + 4 + 4 + 64

abbrev pub max_users : ℕ
max_users = 10

-- the length of the array `users`
abbrev pub users_room : ℕ
users_room = 2

abbrev pub file_of : (name content parent : Bytes) → (size : ℕ) → VirtualFile
file_of name content parent size = record {
  name = name;
  content = content;
  size = size;
  is_folder = false;
  parent = parent;
}

abbrev pub folder_of : (name parent : Bytes) → VirtualFile
folder_of name parent = record {
  name = name;
  content = [];
  size = 0;
  is_folder = true;
  parent = parent;
}

abbrev pub initial_files : List VirtualFile
initial_files =
    folder_of (codes "home") (codes "/")
    ∷ folder_of (codes "root") (codes "/home")
    ∷ file_of (codes "readme.txt")
        (codes "Welcome to Kagami OS! A magical realm of code.\nType 'ls' to explore.")
        (codes "/home/root") 65
    ∷ file_of (codes "welcome.txt")
        (codes "You have entered the Realm of Kagami.\nMay your code be swift and bug-free.")
        (codes "/home/root") 70
    ∷ file_of (codes "spellbook.txt")
        (codes "Available Spells:\n- help: Reveal all incantations\n- logo: Display realm emblem")
        (codes "/home/root") 82
    ∷ file_of (codes "COMMANDS.txt") [] (codes "/home/root") 0
    ∷ folder_of (codes "documents") (codes "/home/root")
    ∷ file_of (codes "secret.txt") (codes "The wizard guardian of this realm welcomes you!")
        (codes "/home/root/documents") 47
    ∷ []

-- The index of the first file with a property.
unfoldable pub find_file : (VirtualFile → Bool) → (i : ℕ) → List VirtualFile → Option ℕ
find_file p i [] = none
find_file p i (f ∷ files) = let rest = find_file p (i + 1) files in if p f then some i else rest

unfoldable pub fs_find_file_by_name : Bytes → List VirtualFile → Option ℕ
fs_find_file_by_name name files = find_file (λ f. same_name 32 name f.name) 0 files

unfoldable pub modify : (VirtualFile → VirtualFile) → ℕ → List VirtualFile → List VirtualFile
modify g i [] = []
modify g zero (f ∷ files) = g f ∷ files
modify g (suc i) (f ∷ files) = f ∷ modify g i files

abbrev pub with_content : Bytes → VirtualFile → VirtualFile
with_content text f = let kept = take 4095 text in record f { content = kept; size = length kept }

-- The manual is written to the file that was found, or to a new one.
unfoldable pub place_manual :
    (commands_manual : Bytes) (file_capacity : ℕ) → Option ℕ → List VirtualFile → List VirtualFile
place_manual commands_manual file_capacity (some i) files =
    modify (with_content commands_manual) i files
place_manual commands_manual file_capacity none files =
    if ltb file_capacity (length files + 1)
    then files
    else files
      ++ (with_content commands_manual (file_of (codes "COMMANDS.txt") [] (codes "/home/root") 0)
          ∷ [])

-- `commands_manual` is a text that the build includes.
unfoldable pub fs_load_manual :
    (commands_manual : Bytes) (file_capacity : ℕ) → List VirtualFile → List VirtualFile
fs_load_manual commands_manual file_capacity files =
    place_manual commands_manual file_capacity
      (find_file (λ f. same_name 32 f.name (codes "COMMANDS.txt")) 0 files) files

abbrev pub measured : VirtualFile → VirtualFile
measured f = if f.is_folder then f else record f { size = length f.content }

-- The `while` loop that doubles the capacity, for at most `fuel` rounds.
unfoldable pub grown : (fuel capacity wanted : ℕ) → ℕ
grown zero capacity wanted = capacity
grown (suc fuel) capacity wanted =
    let more = grown fuel (capacity * 2) wanted in if ltb capacity wanted then more else capacity

module _ {D : Type 0} where
  -- What follows `calloc` in `fs_init`.
  unfoldable pub files_placed : (commands_manual : Bytes) → Option ℕ → Shell D → Shell D
  files_placed commands_manual none s = record s {
    files = initial_files;
    file_capacity = 8;
    fs_initialized = true;
    constant = true;
  }
  files_placed commands_manual (some p) s = record s {
    files = fs_load_manual commands_manual initial_file_capacity (map measured initial_files);
    file_capacity = initial_file_capacity;
    fs_initialized = true;
    constant = false;
  }

  unfoldable pub fs_init : (commands_manual : Bytes) → Shell D → Shell D
  fs_init commands_manual s =
      let (p, heap, memory) = calloc s.heap s.memory initial_file_capacity virtual_file_bytes in
      if s.fs_initialized
      then s
      else files_placed commands_manual p (record s { heap = heap; memory = memory })

  -- What follows `calloc` in `fs_ensure_capacity`.
  unfoldable pub files_moved : (new_capacity : ℕ) → Option ℕ → Shell D → Bool × Shell D
  files_moved new_capacity none s = (false, s)
  files_moved new_capacity (some p) s =
      (true, record s { file_capacity = new_capacity; constant = false })

  unfoldable pub ensure_initialized : (additional : ℕ) → Shell D → Bool × Shell D
  ensure_initialized additional s =
      let wanted = length s.files + additional in
      let from = if ltb 0 s.file_capacity then s.file_capacity else initial_file_capacity in
      let new_capacity = grown wanted from wanted in
      let (p, heap, memory) = calloc s.heap s.memory new_capacity virtual_file_bytes in
      if leb wanted s.file_capacity
      then (true, s)
      else files_moved new_capacity p (record s { heap = heap; memory = memory })

  unfoldable pub fs_ensure_capacity :
      (commands_manual : Bytes) (additional : ℕ) → Shell D → Bool × Shell D
  fs_ensure_capacity commands_manual additional s =
      ensure_initialized additional (fs_init commands_manual s)
