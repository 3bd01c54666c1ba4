-- ===== src/Shell/Start.antt =====
-- What `fs_init` of kernel/shell/shell.c sets up, what `write` leaves in a file, and the length of the
-- prompt.
use kagami_os.Prelude.{
  ℕ, zero, suc, ◌+◌, ◌≤◌, ◌<◌, ◌≡◌, ◌≢◌, refl, ap, ◌∙◌, Bool, true, false, not, ◌&&◌, Option, none,
  some, List, [], ◌∷◌, ◌++◌, map, length, length-append, ltb, leb, ◌==◌, if◌then◌else◌, take, All,
  arith, Bool-cases, inl, inr, get_elem?, leb→le,
}
use kagami_os.Prelude.Bytes.{Bytes, ok}
use kagami_os.Prelude.Text.{codes}
use kagami_os.Heap.{calloc}
use kagami_os.Vfs.{vfs_is_mounted}
use kagami_os.Shell.Strings.{get_dir_prompt, behind_home, same_name}
use kagami_os.Shell.Files.{
  VirtualFile, Shell, fs_init, files_placed, fs_load_manual, place_manual, find_file, initial_files,
  measured, modify, with_content, initial_file_capacity, virtual_file_bytes, file_of,
}
use kagami_os.Shell.Create.{Reply}
use kagami_os.Shell.Commands.{find_exactly, write_text, write_found, put_files}
use kagami_os.Shell.State.{FileFits, DirFits, WellFormed, All-modify, All-snoc, take_le}

fits_by_count :
    (f : VirtualFile)
    → leb (length f.name) 31 ≡ true
    → leb (length f.content) 4095 ≡ true
    → leb (length f.parent) 63 ≡ true
    → FileFits f
fits_by_count f n c p = record {
  name_fits = leb→le (length f.name) 31 n;
  content_fits = leb→le (length f.content) 4095 c;
  parent_fits = leb→le (length f.parent) 63 p;
}

initial_files-FileFits : All FileFits (map measured initial_files)
initial_files-FileFits = (
  fits_by_count _ refl refl refl,
  (
    fits_by_count _ refl refl refl,
    (
      fits_by_count _ refl refl refl,
      (
        fits_by_count _ refl refl refl,
        (
          fits_by_count _ refl refl refl,
          (
            fits_by_count _ refl refl refl,
            (fits_by_count _ refl refl refl, (fits_by_count _ refl refl refl, tt)),
          ),
        ),
      ),
    ),
  ),
)

refilled : (text : Bytes) (f : VirtualFile) → FileFits f → FileFits (with_content text f)
refilled text f h = record {
  name_fits = h.name_fits;
  content_fits = take_le 4095 text;
  parent_fits = h.parent_fits;
}

place_manual-FileFits :
    (commands_manual : Bytes) (cap : ℕ) (found : Option ℕ) (files : List VirtualFile)
    → All FileFits files
    → length files ≤ cap
    → All FileFits (place_manual commands_manual cap found files)
      × (length (place_manual commands_manual cap found files) ≤ cap)
unfolding place_manual
place_manual-FileFits commands_manual cap (some i) files a le =
    let (a', same) =
      All-modify (with_content commands_manual) i files (refilled commands_manual) a in
    (a', omega arith)
place_manual-FileFits commands_manual cap none files a le =
    let new =
      with_content commands_manual (file_of (codes "COMMANDS.txt") [] (codes "/home/root") 0) in
    elim (Bool-cases (ltb cap (length files + 1))) [
      | inl full ↦ rw full (a, le)
      | inr room ↦ rw room (
        All-snoc files new a (record {
          name_fits = omega arith;
          content_fits = take_le 4095 commands_manual;
          parent_fits = omega arith;
        }),
        ground (arith, length-append files (new ∷ [])),
      )
    ]

module _ {D : Type 0} where
  -- If the heap gives the memory for 32 files, `fs_init` makes a well-formed state of one in which
  -- only the directory and the user are set.
  pub fs_init-WellFormed :
      (commands_manual : Bytes) (s : Shell D) (p : ℕ)
      → s.fs_initialized ≡ false
      → s.mounted ≡ none
      → DirFits s.current_directory
      → length s.current_user ≤ 31
      → (calloc s.heap s.memory initial_file_capacity virtual_file_bytes).0 ≡ some p
      → WellFormed (fs_init commands_manual s)
  unfolding fs_init files_placed fs_load_manual
  fs_init-WellFormed commands_manual s p fresh unmounted dir user got =
      let (a, le) =
        place_manual-FileFits commands_manual initial_file_capacity
          (find_file (λ f. same_name 32 f.name (codes "COMMANDS.txt")) 0
            (map measured initial_files))
          (map measured initial_files) initial_files-FileFits (omega arith) in
      simp (fresh, got)
        (record {
          ready = refl;
          writable = refl;
          unmounted = unmounted;
          room = le;
          fits = a;
          dir = dir;
          user = user;
        })

find_file-modify :
    (p : VirtualFile → Bool) (g : VirtualFile → VirtualFile) (files : List VirtualFile) (k i : ℕ)
    → ((f : VirtualFile) → p (g f) ≡ p f)
    → find_file p k (modify g i files) ≡ find_file p k files
unfolding find_file modify
find_file-modify p g [] k i same = refl
find_file-modify p g (f ∷ files) k zero same = rw (same f) refl
find_file-modify p g (f ∷ files) k (suc i) same =
    ap (λ r. if p f then some k else r) (find_file-modify p g files (k + 1) i same)

find_file-holds :
    (p : VirtualFile → Bool) (files : List VirtualFile) (k i : ℕ)
    → find_file p k files ≡ some i
    → (f : VirtualFile) × (j : ℕ) × (i ≡ k + j) × (get_elem? files j ≡ some f)
unfolding find_file
find_file-holds p [] k i e = cc
find_file-holds p (f ∷ files) k i e = elim (Bool-cases (p f)) [
  | inl here ↦ (
    f,
    0,
    (let at : some k ≡ some i = rw here at e in let same : k ≡ i = cc in omega arith),
    refl,
  )
  | inr later ↦
      (let (g, j, at, there) = find_file-holds p files (k + 1) i (rw later at e) in
        (g, suc j, omega arith, there))
]

get_elem?-modify_self :
    (g : VirtualFile → VirtualFile) (files : List VirtualFile) (i : ℕ) (f : VirtualFile)
    → get_elem? files i ≡ some f
    → get_elem? (modify g i files) i ≡ some (g f)
unfolding modify
get_elem?-modify_self g [] i f e = cc
get_elem?-modify_self g (x ∷ files) zero f e = let same : x ≡ f = cc in ap (λ y. some (g y)) same
get_elem?-modify_self g (x ∷ files) (suc i) f e = get_elem?-modify_self g files i f e

get_elem?-modify_ne :
    (g : VirtualFile → VirtualFile) (files : List VirtualFile) (i j : ℕ)
    → i ≢ j
    → get_elem? (modify g i files) j ≡ get_elem? files j
unfolding modify
get_elem?-modify_ne g [] i j ne = refl
get_elem?-modify_ne g (x ∷ files) zero zero ne = absurd (ne refl)
get_elem?-modify_ne g (x ∷ files) zero (suc j) ne = refl
get_elem?-modify_ne g (x ∷ files) (suc i) zero ne = refl
get_elem?-modify_ne g (x ∷ files) (suc i) (suc j) ne =
    get_elem?-modify_ne g files i j (λ e. ne (ap suc e))

behind_home-length :
    (home dir rest : Bytes)
    → behind_home home dir ≡ some rest
    → length dir ≡ length home + length rest
unfolding behind_home
behind_home-length [] [] rest e = let same : [] ≡ rest = cc in omega (arith, ap length same)
behind_home-length [] (d ∷ dir) rest e = elim (Bool-cases (d == b'/')) [
  | inl s ↦
      (let given : some (d ∷ dir) ≡ some rest = rw s at e in
        let same : d ∷ dir ≡ rest = cc in omega (arith, ap length same))
  | inr s ↦ (let given : none ≡ some rest = rw s at e in cc)
]
behind_home-length (h ∷ home) [] rest e = cc
behind_home-length (h ∷ home) (d ∷ dir) rest e = elim (Bool-cases (h == d)) [
  | inl s ↦ omega (arith, behind_home-length home dir rest (rw s at e))
  | inr s ↦ (let given : none ≡ some rest = rw s at e in cc)
]

write_found-done :
    {D : Type 0} (s : Shell D) (text : Bytes) (found : Option ℕ) (i : ℕ)
    → s.constant ≡ false
    → found ≡ some i
    → write_found text found s
      ≡ (ok Reply.written, record s { files = modify (with_content text) i s.files })
unfolding write_found put_files
write_found-done s text none i writable e = cc
write_found-done s text (some k) i writable e = let same : k ≡ i = cc in rw (writable, same) refl

write_text-done :
    {D : Type 0} (s : Shell D) (filename text : Bytes)
    → s.mounted ≡ none
    → write_text filename text s ≡ write_found text (find_exactly filename s.files) s
unfolding write_text vfs_is_mounted
write_text-done s filename text unmounted =
    let away : vfs_is_mounted s.mounted ≡ false = rw unmounted refl in rw away refl

-- Without a mounted filesystem, `write` to a name that a file has: that file is found again at the
-- same place, it holds the text up to 4095 characters, with its length as its size, and keeps name
-- and parent; a file at another place is as it was.
pub write_text-find_exactly :
    {D : Type 0} (s : Shell D) (filename text : Bytes) (i j : ℕ)
    → s.mounted ≡ none
    → s.constant ≡ false
    → find_exactly filename s.files ≡ some i
    → i ≢ j
    → let (r, s') = write_text filename text s in
      (f : VirtualFile) × (r ≡ ok Reply.written)
      × (find_exactly filename s'.files ≡ some i)
      × (get_elem? s.files i ≡ some f)
      × (get_elem? s'.files i
          ≡ some (record f { content = take 4095 text; size = length (take 4095 text) }))
      × (get_elem? s'.files j ≡ get_elem? s.files j)
unfolding find_exactly
write_text-find_exactly s filename text i j unmounted writable found ne =
    let named : VirtualFile → Bool = λ f. not f.is_folder && same_name 32 filename f.name in
    let (f, k, at, there) = find_file-holds named s.files 0 i found in
    let here : get_elem? s.files i ≡ some f = ap (get_elem? s.files) (omega arith) ∙ there in
    let g : VirtualFile → VirtualFile = with_content text in
    rw
      (write_text-done s filename text unmounted
        ∙ write_found-done s text (find_exactly filename s.files) i writable found)
      (
        f,
        refl,
        find_file-modify named g s.files 0 i (λ f. refl) ∙ found,
        here,
        get_elem?-modify_self g s.files i f here,
        get_elem?-modify_ne g s.files i j ne,
      )

-- Outside the user's home directory, a directory of 55 characters or more makes a prompt that, with
-- its final zero, does not fit the 64 bytes that the shell's loop has for it.
pub get_dir_prompt_overflow :
    (dir user : Bytes)
    → behind_home (codes "/home/" ++ user) dir ≡ none
    → 54 < length dir
    → 64 < length (get_dir_prompt dir user) + 1
unfolding get_dir_prompt
get_dir_prompt_overflow dir user away long = rw away (omega (arith, length-append dir (codes "> ")))

-- Under a home directory of a user with four characters or more, a directory that fits its own array
-- makes a prompt that fits.
pub get_dir_prompt_fits :
    (dir user rest : Bytes)
    → behind_home (codes "/home/" ++ user) dir ≡ some rest
    → length dir ≤ 63
    → 4 ≤ length user
    → length (get_dir_prompt dir user) + 1 ≤ 64
unfolding get_dir_prompt
get_dir_prompt_fits dir user rest home short named = rw home (
    omega (
      arith,
      length-append rest (codes "> "),
      behind_home-length (codes "/home/" ++ user) dir rest home,
      length-append (codes "/home/") user,
    ))
