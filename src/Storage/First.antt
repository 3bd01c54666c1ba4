-- ===== src/Storage/First.antt =====
-- What a search over numbered places finds: the common shape of the searches for a partition.
use kagami_os.Prelude.{ℕ, zero, suc, ◌+◌, ◌<◌, ◌≡◌, sym, ap, ◌∙◌, ◌⊎◌, arith, inl, inr}
use kagami_os.Prelude.Bytes.{Bytes, Outcome, ok, fail, fault}
use kagami_os.Storage.Partition.{PartitionInfo}

-- What a search over the places `i`, `i + 1`, ... makes of what each place holds: it takes the first
-- one that is linux; it fails at the first one it cannot read, or behind the last.
module _ (place : ℕ → Outcome Bytes) (Taken : Bytes → PartitionInfo → Type 0)
    (Passed : Bytes → Type 0) where
  abbrev pub PassedAll : (n i : ℕ) → Type 0
  PassedAll n i = (j : ℕ) → j < n → (e : Bytes) × (place (i + j) ≡ ok e) × Passed e

  abbrev pub First : (n i : ℕ) → Outcome PartitionInfo → Type 0
  First n i (ok info) =
      (k : ℕ) × (k < n) × ((e : Bytes) × (place (i + k) ≡ ok e) × Taken e info) × PassedAll k i
  First n i fail = PassedAll n i ⊎ ((k : ℕ) × (k < n) × (place (i + k) ≡ fail) × PassedAll k i)
  First n i fault = (k : ℕ) × (k < n) × (place (i + k) ≡ fault) × PassedAll k i

  PassedAll-more :
      (n i : ℕ) (e : Bytes) → place i ≡ ok e → Passed e → PassedAll n (i + 1) → PassedAll (suc n) i
  PassedAll-more n i e at p ps zero lt = (e, ap place (omega arith) ∙ at, p)
  PassedAll-more n i e at p ps (suc j) lt =
      let (e', at', p') = ps j (omega arith) in (e', ap place (omega arith) ∙ at', p')

  pub First-more :
      (n i : ℕ) (e : Bytes) (r : Outcome PartitionInfo)
      → place i ≡ ok e
      → Passed e
      → First n (i + 1) r
      → First (suc n) i r
  First-more n i e (ok info) at p (k, lt, (e', at', t), ps) =
      (suc k, omega arith, (e', ap place (omega arith) ∙ at', t), PassedAll-more k i e at p ps)
  First-more n i e fail at p (inl ps) = inl (PassedAll-more n i e at p ps)
  First-more n i e fail at p (inr (k, lt, at', ps)) =
      inr (suc k, omega arith, ap place (omega arith) ∙ at', PassedAll-more k i e at p ps)
  First-more n i e fault at p (k, lt, at', ps) =
      (suc k, omega arith, ap place (omega arith) ∙ at', PassedAll-more k i e at p ps)

-- A search over places that hold the same, with weaker descriptions of what is taken and passed over.
module _ (place place' : ℕ → Outcome Bytes) (Taken Taken' : Bytes → PartitionInfo → Type 0)
    (Passed Passed' : Bytes → Type 0) (same : (j : ℕ) → place j ≡ place' j)
    (takes : (j : ℕ) (e : Bytes) (info : PartitionInfo)
      → place j ≡ ok e
      → Taken e info
      → Taken' e info)
    (passes : (e : Bytes) → Passed e → Passed' e) where
  PassedAll-map : (n i : ℕ) → PassedAll place Taken Passed n i → PassedAll place' Taken' Passed' n i
  PassedAll-map n i ps j lt = let (e, at, p) = ps j lt in (e, sym (same (i + j)) ∙ at, passes e p)

  pub First-map :
      (n i : ℕ) (r : Outcome PartitionInfo)
      → First place Taken Passed n i r
      → First place' Taken' Passed' n i r
  First-map n i (ok info) (k, lt, (e, at, t), ps) =
      (k, lt, (e, sym (same (i + k)) ∙ at, takes (i + k) e info at t), PassedAll-map k i ps)
  First-map n i fail (inl ps) = inl (PassedAll-map n i ps)
  First-map n i fail (inr (k, lt, at, ps)) =
      inr (k, lt, sym (same (i + k)) ∙ at, PassedAll-map k i ps)
  First-map n i fault (k, lt, at, ps) = (k, lt, sym (same (i + k)) ∙ at, PassedAll-map k i ps)
