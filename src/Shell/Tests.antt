-- ===== src/Shell/Tests.antt =====
-- Runs of the shell's commands, and their theorems there.
use kagami_os.Prelude.{
  ℕ, ◌+◌, ◌<◌, ◌≡◌, refl, true, false, none, some, [], ◌∷◌, arith, length, take, get_elem?,
}
use kagami_os.Prelude.Bytes.{Bytes, ok, fault}
use kagami_os.Prelude.Text.{codes}
use kagami_os.Heap.{boot_heap}
use kagami_os.Shell.Strings.{
  begins, behind, get_dir_prompt, behind_home, build_full_path, with_slash, last_char, asks_help,
  agree, same_name,
}
use kagami_os.Shell.Files.{VirtualFile, Shell, file_of, find_file}
use kagami_os.Shell.Create.{Reply}
use kagami_os.Shell.Commands.{find_user, find_exactly, write_text, useradd, entered}
use kagami_os.Shell.Runs.{useradd_overflow}
use kagami_os.Shell.Start.{write_text-find_exactly, get_dir_prompt_overflow}

build_full_path_runs :
    build_full_path (codes "/home/root") (codes "a.txt") 128 ≡ codes "/home/root/a.txt"
unfolding build_full_path with_slash last_char
build_full_path_runs = refl

get_dir_prompt_runs :
    get_dir_prompt (codes "/home/root/documents") (codes "root") ≡ codes "kagami:~/documents> "
unfolding get_dir_prompt behind_home
get_dir_prompt_runs = refl

-- `cd` takes a name that only agrees as far as both go, and from anywhere.
entered_runs : entered (codes "/home") (codes "home") ≡ codes "/home/home"
unfolding entered last_char
entered_runs = refl

abbrev manual : Bytes
manual = codes "Commands"

-- before `fs_init`
abbrev boot : Shell ℕ
boot = record {
  files = [];
  file_capacity = 0;
  fs_initialized = false;
  constant = false;
  users = record { username = codes "root"; password = codes "admin123" } ∷ [];
  current_user = codes "root";
  current_directory = codes "/home/root";
  heap = boot_heap;
  memory = λ a. 0;
  mounted = none;
  disk = 0;
}

-- two users, one file
abbrev later : Shell ℕ
later = record {
  files = file_of (codes "a.txt") [] (codes "/home/root") 0 ∷ [];
  file_capacity = 1;
  fs_initialized = true;
  constant = false;
  users =
      record { username = codes "root"; password = codes "admin123" }
      ∷ record { username = codes "ann"; password = codes "welcome" }
      ∷ [];
  current_user = codes "root";
  current_directory = codes "/home/root";
  heap = boot_heap;
  memory = λ a. 0;
  mounted = none;
  disk = 0;
}

bob_new : find_user (codes "bob") later.users ≡ none
unfolding find_user agree
bob_new = refl

bob_help : asks_help (codes "bob") ≡ false
unfolding asks_help begins behind
bob_help = refl

useradd_overflow_example : (useradd manual (codes "bob") later).0 ≡ fault
useradd_overflow_example =
    useradd_overflow manual (codes "bob") later bob_help (omega arith) bob_new refl

a_found : find_exactly (codes "a.txt") later.files ≡ some 0
unfolding find_exactly find_file same_name
a_found = refl

write_text-find_exactly_example :
    let (r, s') = write_text (codes "a.txt") (codes "hello") later in
    (f : VirtualFile) × (r ≡ ok Reply.written)
    × (find_exactly (codes "a.txt") s'.files ≡ some 0)
    × (get_elem? later.files 0 ≡ some f)
    × (get_elem? s'.files 0
        ≡ some (record f {
          content = take 4095 (codes "hello");
          size = length (take 4095 (codes "hello"));
        }))
    × (get_elem? s'.files 1 ≡ get_elem? later.files 1)
write_text-find_exactly_example =
    write_text-find_exactly later (codes "a.txt") (codes "hello") 0 1 refl refl a_found
      (λ e. omega arith)

-- A directory that `cd home`, repeated, leads to.
abbrev far : Bytes
far = codes "/home/home/home/home/home/home/home/home/home/home/home/home"

far_away : behind_home (codes "/home/root") far ≡ none
unfolding behind_home
far_away = refl

cd_home_runs :
    entered (codes "/home/home/home/home/home/home/home/home/home/home/home") (codes "home") ≡ far
unfolding entered last_char
cd_home_runs = refl

far_prompt_long : 64 < length (get_dir_prompt far (codes "root")) + 1
far_prompt_long = get_dir_prompt_overflow far (codes "root") far_away (omega arith)
