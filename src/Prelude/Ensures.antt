-- ===== src/Prelude/Ensures.antt =====
-- What a command guarantees of a result that it returns, and the same without undefined behaviour.
use kagami_os.Prelude.Bytes.{Outcome, ok, fail, fault}
use kagami_os.Prelude.Cmd.{Cmd, and_then}

module _ {S : Type 0} where
  abbrev pub Ensures : {A : Type 0} → (A → Type 0) → Outcome A × S → Type 0
  Ensures P (ok a, s) = P a
  Ensures P (fail, s) = Unit
  Ensures P (fault, s) = Unit

  module _ {A B : Type 0} where
    pub Ensures-bind :
        (P : A → Type 0) (Q : B → Type 0) (r : Outcome A × S) (f : A → Cmd S B)
        → Ensures P r
        → ((a : A) (s : S) → P a → Ensures Q (f a s))
        → Ensures Q (and_then r f)
    Ensures-bind P Q (ok a, s) f p next = next a s p
    Ensures-bind P Q (fail, s) f p next = tt
    Ensures-bind P Q (fault, s) f p next = tt

  pub Ensures-any : {A : Type 0} (r : Outcome A × S) → Ensures (λ _. Unit {0}) r
  Ensures-any (ok a, s) = tt
  Ensures-any (fail, s) = tt
  Ensures-any (fault, s) = tt

module _ {S : Type 0} where
  -- No undefined behaviour, and `P` of a result.
  abbrev pub NoFault : {A : Type 0} → (A → Type 0) → Outcome A × S → Type 0
  NoFault P (ok a, s) = P a
  NoFault P (fail, s) = Unit
  NoFault P (fault, s) = ⊥

  pub NoFault-bind :
      {A B : Type 0} (P : A → Type 0) (Q : B → Type 0) (r : Outcome A × S) (f : A → Cmd S B)
      → NoFault P r
      → ((a : A) (s : S) → P a → NoFault Q (f a s))
      → NoFault Q (and_then r f)
  NoFault-bind P Q (ok a, s) f p next = next a s p
  NoFault-bind P Q (fail, s) f p next = tt
  NoFault-bind P Q (fault, s) f bad next = bad
