-- ===== src/Shell/State.antt =====
-- The well-formed states of the shell of kernel/shell/shell.c, and how its parts keep them.
use kagami_os.Prelude.{
  ℕ, zero, suc, ◌+◌, ◌*◌, ◌≤◌, ◌<◌, ◌≡◌, refl, ap, Bool, true, false, Option, none, some, List, [],
  ◌∷◌, ◌++◌, length, length-append, length-take, ltb, leb, if◌then◌else◌, take, All, arith,
  Bool-cases, inl, inr, ◌⊎◌, leb→le,
}
use kagami_os.Prelude.Bytes.{Bytes, Outcome, ok, fail, fault}
use kagami_os.Prelude.Cmd.{Cmd, and_then}
use kagami_os.Heap.{calloc}
use kagami_os.Shell.Strings.{last_char}
use kagami_os.Shell.Files.{
  VirtualFile, Shell, fs_init, fs_ensure_capacity, ensure_initialized, files_moved, grown, modify,
  initial_file_capacity, virtual_file_bytes,
}
use kagami_os.Shell.Create.{add_file}
use kagami_os.Shell.Commands.{remove_at}

-- The strings fit the arrays of the record with their final zero.
pub record FileFits (f : VirtualFile) : Type 0 where
  pub name_fits : length f.name ≤ 31
  pub content_fits : length f.content ≤ 4095
  pub parent_fits : length f.parent ≤ 63

-- The current directory fits its array, and so does what `cd` appends.
abbrev pub DirFits : Bytes → Type 0
DirFits dir = (length dir ≤ 62) ⊎ ((length dir ≡ 63) × (last_char dir ≡ b'/'))

-- The files are in memory of their own, and everything fits; no filesystem is mounted.
pub record WellFormed {D : Type 0} (s : Shell D) : Type 0 where
  pub ready : s.fs_initialized ≡ true
  pub writable : s.constant ≡ false
  pub unmounted : s.mounted ≡ none
  pub room : length s.files ≤ s.file_capacity
  pub fits : All FileFits s.files
  pub dir : DirFits s.current_directory
  pub user : length s.current_user ≤ 31

-- No undefined behaviour, and a well-formed state afterwards.
abbrev pub Safe : {D A : Type 0} → Outcome A × Shell D → Type 0
Safe (ok a, s) = WellFormed s
Safe (fail, s) = WellFormed s
Safe (fault, s) = ⊥

pub Safe-bind :
    {D A B : Type 0} (r : Outcome A × Shell D) (f : A → Cmd (Shell D) B)
    → Safe r
    → ((a : A) (s : Shell D) → WellFormed s → Safe (f a s))
    → Safe (and_then r f)
Safe-bind (ok a, s) f h next = next a s h
Safe-bind (fail, s) f h next = h
Safe-bind (fault, s) f h next = h

pub take_le : (n : ℕ) (xs : Bytes) → length (take n xs) ≤ n
take_le n xs = omega (arith, length-take n xs)

pub All-snoc :
    (files : List VirtualFile) (f : VirtualFile)
    → All FileFits files
    → FileFits f
    → All FileFits (files ++ (f ∷ []))
All-snoc [] f a h = (h, tt)
All-snoc (g ∷ files) f (p, a) h = (p, All-snoc files f a h)

pub All-modify :
    (g : VirtualFile → VirtualFile) (i : ℕ) (files : List VirtualFile)
    → ((f : VirtualFile) → FileFits f → FileFits (g f))
    → All FileFits files
    → All FileFits (modify g i files) × (length (modify g i files) ≡ length files)
unfolding modify
All-modify g i [] h a = (tt, refl)
All-modify g zero (f ∷ files) h (p, a) = ((h f p, a), refl)
All-modify g (suc i) (f ∷ files) h (p, a) =
    let (a', e) = All-modify g i files h a in ((p, a'), ap suc e)

pub All-remove_at :
    (i : ℕ) (files : List VirtualFile)
    → All FileFits files
    → All FileFits (remove_at i files) × (length (remove_at i files) ≤ length files)
unfolding remove_at
All-remove_at i [] a = (tt, omega arith)
All-remove_at zero (f ∷ files) (p, a) = (a, omega arith)
All-remove_at (suc i) (f ∷ files) (p, a) =
    let (a', le) = All-remove_at i files a in ((p, a'), omega arith)

-- Other files, a directory or a user that fit.
module _ {D : Type 0} (s : Shell D) (w : WellFormed s) where
  pub files_changed :
      (files : List VirtualFile)
      → length files ≤ s.file_capacity
      → All FileFits files
      → WellFormed (record s { files = files })
  files_changed files le a = record {
    ready = w.ready;
    writable = w.writable;
    unmounted = w.unmounted;
    room = le;
    fits = a;
    dir = w.dir;
    user = w.user;
  }

  pub directory_changed :
      (path : Bytes) → DirFits path → WellFormed (record s { current_directory = path })
  directory_changed path d = record {
    ready = w.ready;
    writable = w.writable;
    unmounted = w.unmounted;
    room = w.room;
    fits = w.fits;
    dir = d;
    user = w.user;
  }

  pub add_file-Safe :
      (f : VirtualFile)
      → length s.files + 1 ≤ s.file_capacity
      → FileFits f
      → (add_file f s ≡ (ok tt, record s { files = s.files ++ (f ∷ []) }))
        × WellFormed (record s { files = s.files ++ (f ∷ []) })
  unfolding add_file
  add_file-Safe f le h =
      let roomy : leb s.file_capacity (length s.files) ≡ false = ground arith in
      (
        rw (w.writable, roomy) refl,
        files_changed (s.files ++ (f ∷ [])) (omega (arith, length-append s.files (f ∷ [])))
            (All-snoc s.files f w.fits h),
      )

-- Doubling reaches what is wanted.
pub grown-reaches :
    (fuel capacity wanted : ℕ)
    → 0 < capacity
    → wanted ≤ capacity + fuel
    → wanted ≤ grown fuel capacity wanted
unfolding grown
grown-reaches zero capacity wanted pos le = omega arith
grown-reaches (suc fuel) capacity wanted pos le = elim (Bool-cases (ltb capacity wanted)) [
  | inl e ↦ rw e (grown-reaches fuel (capacity * 2) wanted (omega arith) (omega arith))
  | inr e ↦ rw e (ground arith)
]

-- What `fs_ensure_capacity` promises.
pub record Ensured {D : Type 0} (additional : ℕ) (s : Shell D) (r : Bool × Shell D) : Type 0 where
  pub kept : WellFormed r.1
  pub enough : r.0 ≡ true → length r.1.files + additional ≤ r.1.file_capacity
  pub same_files : r.1.files ≡ s.files
  pub same_users : r.1.users ≡ s.users

module _ {D : Type 0} where
  files_moved-Ensured :
      (additional new_capacity : ℕ) (p : Option ℕ) (s : Shell D)
      → WellFormed s
      → length s.files + additional ≤ new_capacity
      → Ensured additional s (files_moved new_capacity p s)
  unfolding files_moved
  files_moved-Ensured additional new_capacity none s w le = record {
    kept = w;
    enough = λ e. cc;
    same_files = refl;
    same_users = refl;
  }
  files_moved-Ensured additional new_capacity (some p) s w le = record {
    kept = record {
      ready = w.ready;
      writable = refl;
      unmounted = w.unmounted;
      room = omega arith;
      fits = w.fits;
      dir = w.dir;
      user = w.user;
    };
    enough = λ e. le;
    same_files = refl;
    same_users = refl;
  }

  fs_init-ready :
      (commands_manual : Bytes) (s : Shell D) → WellFormed s → fs_init commands_manual s ≡ s
  unfolding fs_init
  fs_init-ready commands_manual s w = simp w.ready

  ensure_initialized-Ensured :
      (additional : ℕ) (s : Shell D)
      → WellFormed s
      → Ensured additional s (ensure_initialized additional s)
  unfolding ensure_initialized
  ensure_initialized-Ensured additional s w =
      let wanted : ℕ = length s.files + additional in
      let from : ℕ = if ltb 0 s.file_capacity then s.file_capacity else initial_file_capacity in
      let new_capacity : ℕ = grown wanted from wanted in
      let got = calloc s.heap s.memory new_capacity virtual_file_bytes in
      let reaches = grown-reaches wanted from wanted (ground arith) (omega arith) in
      elim (Bool-cases (leb wanted s.file_capacity)) [
        | inl e ↦ rw e (record {
          kept = w;
          enough = λ _. leb→le wanted s.file_capacity e;
          same_files = refl;
          same_users = refl;
        })
        | inr e ↦
            (let moved =
                files_moved-Ensured additional new_capacity got.0
                  (record s { heap = got.1; memory = got.2 })
                  (record {
                    ready = w.ready;
                    writable = w.writable;
                    unmounted = w.unmounted;
                    room = w.room;
                    fits = w.fits;
                    dir = w.dir;
                    user = w.user;
                  })
                  reaches in
              rw e (record {
                kept = moved.kept;
                enough = moved.enough;
                same_files = moved.same_files;
                same_users = moved.same_users;
              }))
      ]

  pub fs_ensure_capacity-Ensured :
      (commands_manual : Bytes) (additional : ℕ) (s : Shell D)
      → WellFormed s
      → Ensured additional s (fs_ensure_capacity commands_manual additional s)
  unfolding fs_ensure_capacity
  fs_ensure_capacity-Ensured commands_manual additional s w =
      rw (fs_init-ready commands_manual s w) (ensure_initialized-Ensured additional s w)
