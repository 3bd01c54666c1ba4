-- ===== src/Pci/Walk.antt =====
-- The nested loops of drivers/bus/pci.c as one pass over the list of the functions that they visit.
use kagami_os.Prelude.{
  ℕ, zero, suc, ◌+◌, ◌≡◌, refl, Bool, true, false, Option, none, some, List, [], ◌∷◌, ◌++◌,
  if◌then◌else◌, Bool-cases, inl, inr,
}
use kagami_os.Pci.{unless_stopped, visit_slot, walk_functions, walk_slots, walk_buses}

-- bus, slot and function
abbrev pub Address : Type 0
Address = ℕ × ℕ × ℕ

-- A pass over addresses that may stop early.
unfoldable pub fold_until : {S : Type 0} → (Address → S → S × Bool) → List Address → S → S × Bool
fold_until step [] s = (s, false)
fold_until step (a ∷ as') s =
    let (s', stop) = step a s in
    let rest = fold_until step as' s' in if stop then (s', true) else rest

abbrev pub then_fold : {S : Type 0} → (Address → S → S × Bool) → List Address → S × Bool → S × Bool
then_fold step as' (s, true) = (s, true)
then_fold step as' (s, false) = fold_until step as' s

fold_until-append :
    {S : Type 0} (step : Address → S → S × Bool) (xs ys : List Address) (s : S)
    → fold_until step (xs ++ ys) s ≡ then_fold step ys (fold_until step xs s)
unfolding fold_until
fold_until-append step [] ys s = refl
fold_until-append step (a ∷ xs) ys s = elim (Bool-cases (step a s).1) [
  | inl stop ↦ rw stop refl
  | inr more ↦ rw more (fold_until-append step xs ys (step a s).0)
]

unfoldable pub function_addresses : (n bus slot func : ℕ) → List Address
function_addresses zero bus slot func = []
function_addresses (suc n) bus slot func =
    (bus, slot, func) ∷ function_addresses n bus slot (func + 1)

module _ (heads : ℕ → ℕ → Option ℕ) where
  unfoldable pub slot_addresses : (n bus slot : ℕ) → List Address
  slot_addresses zero bus slot = []
  slot_addresses (suc n) bus slot =
      let rest = slot_addresses n bus (slot + 1) in
      elim (heads bus slot) [ none ↦ rest | some k ↦ function_addresses k bus slot 0 ++ rest ]

  unfoldable pub bus_addresses : (n bus : ℕ) → List Address
  bus_addresses zero bus = []
  bus_addresses (suc n) bus = slot_addresses 32 bus 0 ++ bus_addresses n (bus + 1)

-- `r` is the pure result `s`, on a machine that is still as assumed.
abbrev pub Yields : {D S : Type 0} → (D → Type 0) → S → S × D → Type 0
Yields P s (s', d) = (s' ≡ s) × P d

module _ {D S : Type 0} (P : D → Type 0) (probe : (bus slot : ℕ) → D → Option ℕ × D)
    (visit : (bus slot func : ℕ) → S → D → (S × Bool) × D) (heads : ℕ → ℕ → Option ℕ)
    (step : Address → S → S × Bool)
    (probes : (bus slot : ℕ) (d : D) → P d → Yields P (heads bus slot) (probe bus slot d))
    (visits : (bus slot func : ℕ) (s : S) (d : D)
      → P d
      → Yields P (step (bus, slot, func) s) (visit bus slot func s d)) where
  walk_functions-fold :
      (n bus slot func : ℕ) (s : S) (d : D)
      → P d
      → Yields P
          (fold_until step (function_addresses n bus slot func) s)
          (walk_functions probe visit n bus slot func s d)
  unfolding walk_functions fold_until function_addresses
  walk_functions-fold zero bus slot func s d p = (refl, p)
  walk_functions-fold (suc n) bus slot func s d p =
      let (same, p') = visits bus slot func s d p in
      let s' : S = (step (bus, slot, func) s).0 in
      elim (Bool-cases (step (bus, slot, func) s).1) [
        | inl stop ↦ rw (same, stop) (refl, p')
        | inr more ↦
            rw (same, more)
              (walk_functions-fold n bus slot (func + 1) s' (visit bus slot func s d).1 p')
      ]

  -- An inner loop and what follows it.
  stopped-fold :
      (xs : List Address) (s : S × Bool) (r : (S × Bool) × D) (rest : S → D → (S × Bool) × D)
      → Yields P s r
      → ((s : S) (d : D) → P d → Yields P (fold_until step xs s) (rest s d))
      → Yields P (then_fold step xs s) (unless_stopped probe visit rest r)
  stopped-fold xs (t, true) (r, d) rest (same, p) next = rw same (refl, p)
  stopped-fold xs (t, false) (r, d) rest (same, p) next = rw same (next t d p)

  slot-fold :
      (bus slot : ℕ) (s : S) (xs : List Address) (rest : S → D → (S × Bool) × D) (h : Option ℕ)
      (found : Option ℕ × D)
      → Yields P h found
      → ((s : S) (d : D) → P d → Yields P (fold_until step xs s) (rest s d))
      → Yields P
          (fold_until step
            (elim h [ none ↦ xs | some k ↦ function_addresses k bus slot 0 ++ xs ])
            s)
          (visit_slot probe visit bus slot s rest found)
  slot-fold bus slot s xs rest none (f, d) (same, p) next = rw same (next s d p)
  slot-fold bus slot s xs rest (some k) (f, d) (same, p) next =
      let inner : List Address = function_addresses k bus slot 0 in
      rw (same, fold_until-append step inner xs s)
        (stopped-fold xs (fold_until step inner s) (walk_functions probe visit k bus slot 0 s d)
          rest (walk_functions-fold k bus slot 0 s d p) next)

  walk_slots-fold :
      (n bus slot : ℕ) (s : S) (d : D)
      → P d
      → Yields P
          (fold_until step (slot_addresses heads n bus slot) s)
          (walk_slots probe visit n bus slot s d)
  unfolding walk_slots fold_until slot_addresses
  walk_slots-fold zero bus slot s d p = (refl, p)
  walk_slots-fold (suc n) bus slot s d p =
      slot-fold bus slot s (slot_addresses heads n bus (slot + 1)) _ (heads bus slot)
        (probe bus slot d) (probes bus slot d p)
        (λ s' d' p'. walk_slots-fold n bus (slot + 1) s' d' p')

  pub walk_buses-fold :
      (n bus : ℕ) (s : S) (d : D)
      → P d
      → Yields P (fold_until step (bus_addresses heads n bus) s) (walk_buses probe visit n bus s d)
  unfolding walk_buses fold_until bus_addresses
  walk_buses-fold zero bus s d p = (refl, p)
  walk_buses-fold (suc n) bus s d p =
      let here : List Address = slot_addresses heads 32 bus 0 in
      let rest : List Address = bus_addresses heads n (bus + 1) in
      rw (fold_until-append step here rest s) (
        stopped-fold rest (fold_until step here s) (walk_slots probe visit 32 bus 0 s d) _
          (walk_slots-fold 32 bus 0 s d p) (λ s' d' p'. walk_buses-fold n (bus + 1) s' d' p'))
