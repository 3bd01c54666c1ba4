-- ===== src/Prelude/Cmd.antt =====
-- Code that changes a state, fails (`return 0`) or meets undefined behaviour.
use mathlib.Core.Option.{Option, none, some}
use kagami_os.Prelude.Bytes.{Outcome, ok, fail, fault}

-- A failure keeps what was written before it.
abbrev pub Cmd : Type 0 → Type 0 → Type 0
Cmd S A = S → Outcome A × S

module _ {S : Type 0} where
  abbrev pub pure : {A : Type 0} → A → Cmd S A
  pure a s = (ok a, s)

  abbrev pub give_up : {A : Type 0} → Cmd S A
  give_up s = (fail, s)

  abbrev pub lift : {A : Type 0} → Outcome A → Cmd S A
  lift r s = (r, s)

  abbrev pub get : Cmd S S
  get s = (ok s, s)

  abbrev pub put : S → Cmd S (Unit {0})
  put s' s = (ok tt, s')

  module _ {A B : Type 0} where
    abbrev pub and_then : Outcome A × S → (A → Cmd S B) → Outcome B × S
    and_then (ok a, s) f = f a s
    and_then (fail, s) f = (fail, s)
    and_then (fault, s) f = (fault, s)

    infixl 5 ◌>>=◌ ◌>>◌
    abbrev pub ◌>>=◌ : Cmd S A → (A → Cmd S B) → Cmd S B
    m >>= f = λ s. and_then (m s) f

    abbrev pub ◌>>◌ : Cmd S A → Cmd S B → Cmd S B
    m >> n = m >>= λ _. n

  -- A call whose result the source ignores, and one whose failure its caller tests.
  abbrev pub done_anyway : {A : Type 0} → Outcome A × S → Outcome (Unit {0}) × S
  done_anyway (ok a, s) = (ok tt, s)
  done_anyway (fail, s) = (ok tt, s)
  done_anyway (fault, s) = (fault, s)

  abbrev pub ignored : {A : Type 0} → Cmd S A → Cmd S (Unit {0})
  ignored m s = done_anyway (m s)

  abbrev pub tested : {A : Type 0} → Outcome A × S → Outcome (Option A) × S
  tested (ok a, s) = (ok (some a), s)
  tested (fail, s) = (ok none, s)
  tested (fault, s) = (fault, s)

  abbrev pub attempt : {A : Type 0} → Cmd S A → Cmd S (Option A)
  attempt m s = tested (m s)

  abbrev pub crash : {A : Type 0} → Cmd S A
  crash s = (fault, s)
