-- ===== src/Shell/Execute.antt =====
-- The chain of tests in `execute_command` of kernel/shell/shell.c: which branch a line takes. The
-- branches on files, directories and users are those of Shell.Create and Shell.Commands; the code of
-- the others is not in the model.
use kagami_os.Prelude.{ℕ, Option, none, some, List, [], ◌∷◌, ◌==◌, if◌then◌else◌}
use kagami_os.Prelude.Bytes.{Bytes}
use kagami_os.Prelude.Text.{codes}
use kagami_os.Prelude.Cmd.{Cmd}
use kagami_os.Shell.Strings.{skip_spaces, behind}
use kagami_os.Shell.Files.{Shell}
use kagami_os.Shell.Create.{Reply, create}
use kagami_os.Shell.Commands.{
  rm, write_command, copy, find_command, edit, read_command, cd, useradd, login,
}

-- The branches that are not in the model: most only show something, `help` and `manual` also open the
-- editor on COMMANDS.txt, `partcheck` searches the disks, and `ip` and `ping` work on the network.
pub data Other : Type 0 where
  help : Other
  manual : Other
  clear : Other
  disks : Other
  partcheck : Other
  pci : Other
  ip : Other
  ping : Other
  logo : Other
  ls : Other
  pwd : Other
  echo : Other
  tree : Other
  status : Other
  whoami : Other
  unknown : Other

-- The branch that a line takes: none if it is empty, one of the model with its code, or one of the
-- others with its argument.
pub data Branch (D : Type 0) : Type 0 where
  nothing : Branch D
  runs : Cmd (Shell D) Reply → Branch D
  other : Other → Bytes → Branch D

unfoldable pub behind_man : Bytes → Option Bytes
behind_man cmd = elim (behind (codes "man") cmd) [
  | none ↦ none
  | some [] ↦ some []
  | some (c ∷ cs) ↦ if c == b' ' then some (c ∷ cs) else behind (codes "manual") cmd
]

-- A test of the first letters, and the branch it leads to with the argument behind the spaces.
pub record Entry (D : Type 0) : Type 0 where
  pub test : Bytes → Option Bytes
  pub branch : Bytes → Branch D

module _ {D : Type 0} where
  abbrev pub other_command : Bytes → Other → Entry D
  other_command letters o = record { test = behind letters; branch = λ arg. Branch.other o arg }

  abbrev pub command : Bytes → (Bytes → Cmd (Shell D) Reply) → Entry D
  command letters m = record { test = behind letters; branch = λ arg. Branch.runs (m arg) }

  -- The tests in their order.
  abbrev pub command_table : (commands_manual : Bytes) (keys : List ℕ) → List (Entry D)
  command_table commands_manual keys =
      other_command (codes "help") Other.help
      ∷ record { test = behind_man; branch = λ arg. Branch.other Other.manual arg }
      ∷ other_command (codes "clear") Other.clear
      ∷ other_command (codes "disks") Other.disks
      ∷ other_command (codes "partcheck") Other.partcheck
      ∷ other_command (codes "pci") Other.pci
      ∷ other_command (codes "ip") Other.ip
      ∷ other_command (codes "ping") Other.ping
      ∷ other_command (codes "logo") Other.logo
      ∷ other_command (codes "ls") Other.ls
      ∷ other_command (codes "pwd") Other.pwd
      ∷ command (codes "cd") cd
      ∷ command (codes "read") read_command
      ∷ command (codes "edit") edit
      ∷ command (codes "create") (λ arg. create commands_manual arg keys)
      ∷ command (codes "rm ") rm
      ∷ other_command (codes "echo") Other.echo
      ∷ command (codes "write") write_command
      ∷ command (codes "copy") (λ arg. copy commands_manual arg)
      ∷ command (codes "find") find_command
      ∷ other_command (codes "tree") Other.tree
      ∷ other_command (codes "stat") Other.status
      ∷ other_command (codes "whoami") Other.whoami
      ∷ command (codes "useradd") (λ arg. useradd commands_manual arg)
      ∷ command (codes "login") login
      ∷ []

  unfoldable pub choose : List (Entry D) → Bytes → Branch D
  choose [] cmd = Branch.other Other.unknown cmd
  choose (e ∷ es) cmd = elim (e.test cmd) [
    | none ↦ choose es cmd
    | some arg ↦ e.branch (skip_spaces arg)
  ]

  -- `buffer` is the line, `keys` are the scancodes that come in while the command runs.
  unfoldable pub branch_of : (commands_manual buffer : Bytes) (keys : List ℕ) → Branch D
  branch_of commands_manual buffer keys = elim (skip_spaces buffer) [
    | [] ↦ Branch.nothing
    | c ∷ cmd ↦ choose (command_table commands_manual keys) (c ∷ cmd)
  ]
