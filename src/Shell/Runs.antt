-- ===== src/Shell/Runs.antt =====
-- The lines that `execute_command` of kernel/shell/shell.c hands to a command on files, directories or
-- users.
use kagami_os.Prelude.{◌<◌, ◌≡◌, refl, true, false, none, some, length, leb, ◌==◌, arith}
use kagami_os.Prelude.Bytes.{Bytes, fault}
use kagami_os.Prelude.Cmd.{Cmd}
use kagami_os.Shell.Strings.{skip_spaces, asks_help}
use kagami_os.Shell.Files.{Shell, max_users, users_room}
use kagami_os.Shell.Commands.{useradd, find_user, add_unless, add_user, write_user}
use kagami_os.Shell.Execute.{Branch, Entry}
use kagami_os.Shell.State.{Safe}

-- a pair, to list the parts of a long product
infixr 4 ◌&◌
abbrev ◌&◌ : {A B : Type 0} → A → B → A × B
a & b = (a, b)

module _ {D : Type 0} where
  -- The branch, if it is one of the model, is safe.
  abbrev SafeBranch : Shell D → Branch D → Type 0
  SafeBranch s Branch.nothing = Unit
  SafeBranch s (Branch.runs m) = Safe (m s)
  SafeBranch s (Branch.other o arg) = Unit

  -- Whichever entry takes the line.
  abbrev EachSafe : Bytes → Shell D → Entry D → Type 0
  EachSafe cmd s e =
      (arg : Bytes) → e.test cmd ≡ some arg → SafeBranch s (e.branch (skip_spaces arg))

  -- With two users, `useradd` of a new name, however short or long, writes behind the array of two.
  pub useradd_overflow :
      (commands_manual username : Bytes) (s : Shell D)
      → asks_help username ≡ false
      → 0 < length username
      → find_user username s.users ≡ none
      → length s.users ≡ 2
      → (useradd commands_manual username s).0 ≡ fault
  unfolding useradd add_unless add_user write_user
  useradd_overflow commands_manual username s no_help given new two =
      let below : leb max_users (length s.users) ≡ false = ground arith in
      let named : (length username == 0) ≡ false = ground arith in
      let full : leb users_room (length s.users) ≡ true = ground arith in
      rw no_help (rw below (rw named (rw new (rw full refl))))
