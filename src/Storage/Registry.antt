-- ===== src/Storage/Registry.antt =====
-- drivers/storage/block.c: the registered devices, as the list of the entries in use. A device is a
-- value of type `A`, a null pointer `none`; an index is an `int`.
use mathlib.Core.List.{append_assoc, append-nil}
use kagami_os.Prelude.{
  ℕ, zero, suc, ◌+◌, ◌-◌, ◌≤◌, ◌≡◌, refl, ap, ◌∙◌, Bool, true, false, Option, none, some, List, [],
  ◌∷◌, ◌++◌, arith, length, length-append, get_elem?, take, length-take, take-append_add, sym, leb,
  if◌then◌else◌, Bool-cases, inl, inr,
}

-- C's `int`, in the words of the library
pub data ℤ : Type 0 where
  pos : ℕ → ℤ
  negsuc : ℕ → ℤ

abbrev pub max_devices : ℕ
max_devices = 8

module _ {A : Type 0} where
  -- `devices[device_count++] = dev`
  unfoldable pub block_register : Option A → List A → Bool × List A
  block_register none devices = (false, devices)
  block_register (some dev) devices =
      if leb max_devices (length devices) then (false, devices) else (true, devices ++ (dev ∷ []))

  unfoldable pub block_get : ℤ → List A → Option A
  block_get (negsuc n) devices = none
  block_get (pos index) devices =
      if leb (length devices) index then none else get_elem? devices index

  unfoldable pub block_count : List A → ℕ
  block_count devices = length devices

  -- registrations in order
  unfoldable pub register_all : List (Option A) → List A → List A
  register_all [] devices = devices
  register_all (o ∷ os) devices = register_all os (block_register o devices).1

  -- the devices of the calls that are not null
  abbrev pub given : List (Option A) → List A
  given [] = []
  given (none ∷ os) = given os
  given (some a ∷ os) = a ∷ given os

module _ {A : Type 0} where
  take-nil : (n : ℕ) → take {A = A} n [] ≡ []
  take-nil zero = refl
  take-nil (suc n) = refl

  get_elem?-none : (xs : List A) (i : ℕ) → length xs ≤ i → get_elem? xs i ≡ none
  get_elem?-none [] i le = refl
  get_elem?-none (x ∷ xs) zero le = absurd (omega arith)
  get_elem?-none (x ∷ xs) (suc i) le = get_elem?-none xs i (omega arith)

  get-get_elem? : (xs : List A) (i : ℕ) → block_get (pos i) xs ≡ get_elem? xs i
  unfolding block_get
  get-get_elem? xs i = ground (arith, get_elem?-none xs i)

  register_all-take :
      (os : List (Option A)) (devices : List A)
      → length devices ≤ 8
      → register_all os devices ≡ take 8 (devices ++ given os)
  unfolding register_all block_register
  register_all-take [] devices le = sym (
      take-append_add devices [] 8 (8 - length devices) (omega arith)
      ∙ ap (λ r. devices ++ r) (take-nil (8 - length devices))
      ∙ append-nil devices)
  register_all-take (none ∷ os) devices le = register_all-take os devices le
  register_all-take (some a ∷ os) devices le = elim (Bool-cases (leb 8 (length devices))) [
    | inl full ↦
        let no_room : 8 ≡ length devices + 0 = ground arith in
        rw full (
          register_all-take os devices le
          ∙ take-append_add devices (given os) 8 0 no_room
          ∙ sym (take-append_add devices (a ∷ given os) 8 0 no_room))
    | inr room ↦ rw room (
        register_all-take os (devices ++ (a ∷ [])) (ground (arith, length-append devices (a ∷ [])))
        ∙ ap (take 8) (append_assoc devices (a ∷ []) (given os)))
  ]

  -- After any sequence of registrations from the start, null pointers among them, the registry
  -- holds the first eight devices that were given: `block_get` returns the device at an index
  -- below their number and NULL at any other, and `block_count` is at most 8.
  pub block_get-register_all :
      (os : List (Option A)) (i : ℕ)
      → (block_get (pos i) (register_all os []) ≡ get_elem? (take 8 (given os)) i)
        × (block_get (negsuc i) (register_all os []) ≡ none)
        × (block_count (register_all os []) ≤ 8)
        × (block_count (register_all os []) ≤ length (given os))
  unfolding block_get block_count
  block_get-register_all os i =
      let all = register_all-take os [] (omega arith) in
      (
        ap (block_get (pos i)) all ∙ get-get_elem? (take 8 (given os)) i,
        refl,
        rw all (omega (arith, length-take 8 (given os))),
        rw all (omega (arith, length-take 8 (given os))),
      )
