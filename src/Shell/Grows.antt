-- ===== src/Shell/Grows.antt =====
-- The commands of kernel/shell/shell.c that make files keep a well-formed state, and so does every
-- line that is executed.
use kagami_os.Prelude.{
  ℕ, zero, suc, ◌+◌, ◌-◌, ◌≤◌, ◌<◌, ◌≡◌, Bool, true, false, not, ◌&&◌, ◌||◌, Option, none, some,
  List, [], ◌∷◌, ◌++◌, length, length-append, ltb, leb, ◌==◌, take, drop, arith, Bool-cases, inl,
  inr,
}
use kagami_os.Prelude.Bytes.{Bytes}
use kagami_os.Prelude.Text.{codes}
use kagami_os.Prelude.Cmd.{and_then, pure}
use kagami_os.Shell.Strings.{last_char, with_slash, find_slash, asks_help, word, skip_spaces}
use kagami_os.Shell.Files.{
  VirtualFile, User, Shell, file_of, folder_of, fs_ensure_capacity, max_users, users_room,
}
use kagami_os.Shell.Create.{
  Reply, up_to_space, folder_path, yes_or_no, find_folder, add_file, create_folder, create_both,
  create_in, create_inside, create_file, create_at, create,
}
use kagami_os.Shell.Commands.{
  find_exactly, find_user, copy_file, file_at, copy, write_user, add_unless, add_user, useradd,
}
use kagami_os.Shell.State.{
  FileFits, WellFormed, Safe, take_le, add_file-Safe, fs_ensure_capacity-Ensured,
}

file-Fits :
    (name content parent : Bytes) (size : ℕ)
    → length name ≤ 31
    → length content ≤ 4095
    → length parent ≤ 63
    → FileFits (file_of name content parent size)
file-Fits name content parent size n c p = record {
  name_fits = n;
  content_fits = c;
  parent_fits = p;
}

folder-Fits :
    (name parent : Bytes) → length name ≤ 31 → length parent ≤ 63 → FileFits (folder_of name parent)
folder-Fits name parent n p = record { name_fits = n; content_fits = omega arith; parent_fits = p }

length-folder_path : (dir name : Bytes) → length (folder_path dir name) ≤ 63
unfolding folder_path with_slash
length-folder_path dir name =
    let base = take 62 dir in
    let slashed = base ++ (b'/' ∷ []) in
    elim (Bool-cases (not (last_char base == b'/') && ltb 0 (length base))) [
      | inl e ↦ rw e (
          omega (
            arith,
            take_le 62 dir,
            length-append base (b'/' ∷ []),
            length-append slashed (take (63 - length slashed) name),
            take_le (63 - length slashed) name,
          ))
      | inr e ↦ rw e (
          omega (
            arith,
            take_le 62 dir,
            length-append base (take (63 - length base) name),
            take_le (63 - length base) name,
          ))
    ]

word_le : (n : ℕ) (cs : Bytes) → length (word n cs).0 ≤ n
unfolding word
word_le zero cs = omega arith
word_le (suc n) [] = omega arith
word_le (suc n) (c ∷ cs) = elim (Bool-cases (c == b' ')) [
  | inl e ↦ rw e (omega arith)
  | inr e ↦ rw e (omega (arith, word_le n cs))
]

module _ {D : Type 0} (s : Shell D) (w : WellFormed s) where
  -- A file is added, and the command says so.
  adds :
      (f : VirtualFile) (r : Reply)
      → length s.files + 1 ≤ s.file_capacity
      → FileFits f
      → Safe (and_then (add_file f s) (λ u. pure r))
  adds f r room h = let (done, kept) = add_file-Safe s w f room h in rw done kept

  create_file-Safe :
      (path : Bytes) → length s.files + 1 ≤ s.file_capacity → Safe (create_file path s)
  unfolding create_file
  create_file-Safe path room = adds _ Reply.inscribed room (
      file-Fits _ [] _ 0 (take_le 31 (up_to_space path)) (omega arith)
        (take_le 63 s.current_directory))

  create_folder-Safe :
      (path : Bytes) (slash_pos : ℕ)
      → length s.files + 1 ≤ s.file_capacity
      → Safe (create_folder path slash_pos s)
  unfolding create_folder
  create_folder-Safe path slash_pos room =
      adds _ Reply.chamber_created room
        (folder-Fits _ _ (take_le 31 (take slash_pos path)) (take_le 63 s.current_directory))

  -- Two files are added.
  adds_both :
      (f g : VirtualFile) (r : Reply)
      → length s.files + 2 ≤ s.file_capacity
      → FileFits f
      → FileFits g
      → Safe (and_then (add_file f s) (λ u s'. and_then (add_file g s') (λ u. pure r)))
  adds_both f g r room h h' =
      let (done, kept) = add_file-Safe s w f (omega arith) h in
      let (done', kept') =
        add_file-Safe (record s { files = s.files ++ (f ∷ []) }) kept g
          (omega (arith, length-append s.files (f ∷ []))) h' in
      rw (done, done') kept'

module _ {D : Type 0} where
  create_both-Safe :
      (commands_manual folder_name file_name : Bytes) (answer : Option (Bool × List ℕ))
      (s : Shell D)
      → WellFormed s
      → length folder_name ≤ 31
      → length file_name ≤ 31
      → Safe (create_both commands_manual folder_name file_name answer s)
  unfolding create_both
  create_both-Safe commands_manual folder_name file_name none s w n m = w
  create_both-Safe commands_manual folder_name file_name (some (false, keys)) s w n m = w
  create_both-Safe commands_manual folder_name file_name (some (true, keys)) s w n m =
      let e = fs_ensure_capacity-Ensured commands_manual 2 s w in
      let s' = (fs_ensure_capacity commands_manual 2 s).1 in
      elim (Bool-cases (fs_ensure_capacity commands_manual 2 s).0) [
        | inl room ↦ rw room (
            adds_both s' e.kept (folder_of folder_name (take 63 s'.current_directory))
              (file_of file_name [] (folder_path s'.current_directory folder_name) 0)
              Reply.chamber_and_scroll_created (e.enough room)
              (folder-Fits folder_name _ n (take_le 63 s'.current_directory))
              (file-Fits file_name [] _ 0 m (omega arith)
                (length-folder_path s'.current_directory folder_name)))
        | inr full ↦ rw full e.kept
      ]

  create_in-Safe :
      (commands_manual folder_name file_name : Bytes) (keys : List ℕ) (found : Option ℕ)
      (s : Shell D)
      → WellFormed s
      → length s.files + 1 ≤ s.file_capacity
      → length folder_name ≤ 31
      → length file_name ≤ 31
      → Safe (create_in commands_manual folder_name file_name keys found s)
  unfolding create_in
  create_in-Safe commands_manual folder_name file_name keys none s w room n m =
      create_both-Safe commands_manual folder_name file_name (yes_or_no (length keys) keys) s w n m
  create_in-Safe commands_manual folder_name file_name keys (some i) s w room n m =
      adds s w _ Reply.inscribed_in_chamber room (
        file-Fits file_name [] _ 0 m (omega arith)
          (length-folder_path s.current_directory folder_name))

  create_at-Safe :
      (commands_manual path : Bytes) (keys : List ℕ) (slash : Option ℕ) (s : Shell D)
      → WellFormed s
      → length s.files + 1 ≤ s.file_capacity
      → Safe (create_at commands_manual path keys slash s)
  unfolding create_at create_inside
  create_at-Safe commands_manual path keys none s w room = create_file-Safe s w path room
  create_at-Safe commands_manual path keys (some slash_pos) s w room =
      elim (Bool-cases (slash_pos + 1 == length (up_to_space path))) [
        | inl e ↦ rw e (create_folder-Safe s w path slash_pos room)
        | inr e ↦ rw e (
            create_in-Safe commands_manual (take 31 (take slash_pos path))
              (take 31 (up_to_space (drop (slash_pos + 1) path))) keys
              (find_folder (take 31 (take slash_pos path)) s.current_directory s.files) s w room
              (take_le 31 (take slash_pos path))
              (take_le 31 (up_to_space (drop (slash_pos + 1) path))))
      ]

  pub create-Safe :
      (commands_manual path : Bytes) (keys : List ℕ) (s : Shell D)
      → WellFormed s
      → Safe (create commands_manual path keys s)
  unfolding create
  create-Safe commands_manual path keys s w =
      let e = fs_ensure_capacity-Ensured commands_manual 1 s w in
      let s' = (fs_ensure_capacity commands_manual 1 s).1 in
      elim (Bool-cases (asks_help path)) [
        | inl help ↦ rw help w
        | inr go ↦
            rw go
              (elim (Bool-cases
                (not (fs_ensure_capacity commands_manual 1 s).0 || (length path == 0))) [
                  | inl stop ↦ rw stop e.kept
                  | inr on ↦ rw on (
                      create_at-Safe commands_manual path keys
                        (find_slash none 0 (up_to_space path)) s' e.kept (e.enough (ground arith)))
                ])
      ]

  copy_file-Safe :
      (dest : Bytes) (found : Option VirtualFile) (s : Shell D)
      → WellFormed s
      → length s.files + 1 ≤ s.file_capacity
      → Safe (copy_file dest found s)
  unfolding copy_file
  copy_file-Safe dest none s w room = w
  copy_file-Safe dest (some f) s w room = adds s w _ Reply.duplicated room (
      file-Fits _ _ _ f.size (take_le 31 dest) (take_le 4095 f.content)
        (take_le 63 s.current_directory))

  pub copy-Safe :
      (commands_manual args : Bytes) (s : Shell D)
      → WellFormed s
      → Safe (copy commands_manual args s)
  unfolding copy
  copy-Safe commands_manual args s w =
      let e = fs_ensure_capacity-Ensured commands_manual 1 s w in
      let s' = (fs_ensure_capacity commands_manual 1 s).1 in
      let src = (word 31 args).0 in
      let dest = (word 31 (skip_spaces (word 31 args).1)).0 in
      elim (Bool-cases (asks_help args)) [
        | inl help ↦ rw help w
        | inr go ↦ rw go (elim (Bool-cases (fs_ensure_capacity commands_manual 1 s).0) [
          | inr full ↦ rw full e.kept
          | inl room ↦ rw room (elim (Bool-cases ((length src == 0) || (length dest == 0))) [
            | inl empty ↦ rw empty e.kept
            | inr given ↦ rw given (
                copy_file-Safe dest (file_at (find_exactly src s'.files) s'.files) s' e.kept
                  (e.enough room))
          ])
        ])
      ]

  more_users :
      (s : Shell D) (users : List User) → WellFormed s → WellFormed (record s { users = users })
  more_users s users w = record {
    ready = w.ready;
    writable = w.writable;
    unmounted = w.unmounted;
    room = w.room;
    fits = w.fits;
    dir = w.dir;
    user = w.user;
  }

  add_unless-Safe :
      (commands_manual username : Bytes) (found : Option User) (s : Shell D)
      → WellFormed s
      → length s.users < 2
      → Safe (add_unless commands_manual username found s)
  unfolding add_unless add_user write_user
  add_unless-Safe commands_manual username (some u) s w few = w
  add_unless-Safe commands_manual username none s w few =
      let e = fs_ensure_capacity-Ensured commands_manual 1 s w in
      let s' = (fs_ensure_capacity commands_manual 1 s).1 in
      let name = (word 31 username).0 in
      let free : leb users_room (length s.users) ≡ false = ground arith in
      rw free (elim (Bool-cases (fs_ensure_capacity commands_manual 1 s).0) [
        | inr full ↦ rw full e.kept
        | inl room ↦
            (let (done, kept) =
                add_file-Safe s' e.kept (folder_of name (codes "/home")) (e.enough room)
                  (folder-Fits name (codes "/home") (word_le 31 username) (omega arith)) in
              rw (room, done) (more_users _ _ kept))
      ])

  pub useradd-Safe :
      (commands_manual username : Bytes) (s : Shell D)
      → WellFormed s
      → length s.users < 2
      → Safe (useradd commands_manual username s)
  unfolding useradd
  useradd-Safe commands_manual username s w few = elim (Bool-cases (asks_help username)) [
    | inl e ↦ rw e w
    | inr e ↦ rw e (elim (Bool-cases (leb max_users (length s.users))) [
      | inl e ↦ rw e w
      | inr e ↦ rw e (elim (Bool-cases (length username == 0)) [
        | inl e ↦ rw e w
        | inr e ↦
            rw e (add_unless-Safe commands_manual username (find_user username s.users) s w few)
      ])
    ])
  ]
