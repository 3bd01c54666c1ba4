-- ===== src/Ext4/Resolve.antt =====
-- `ext4_resolve_path` against a path as the list of its names.
use mathlib.Core.Path.{fun_ext}
use kagami_os.Prelude.{
  ℕ, zero, suc, ◌≤◌, ◌≡◌, refl, ap, ap₂, sym, ◌∙◌, false, inl, inr, List, [], ◌∷◌, length, ◌==◌,
  if◌then◌else◌, arith, Bool-cases,
}
use kagami_os.Prelude.Bytes.{Bytes}
use kagami_os.Prelude.Cmd.{Cmd, pure, ◌>>=◌}
use kagami_os.Ext4.Layout.{Ext4Fs, ft_dir}
use kagami_os.Ext4.Path.{skip_slashes, take_name, step_into, resolve_loop, ext4_resolve_path}

abbrev keep : Bytes → List Bytes → List Bytes
keep [] names = names
keep (c ∷ name) names = (c ∷ name) ∷ names

-- the text before the first slash, and the names behind it
unfoldable pub split : Bytes → Bytes × List Bytes
split [] = ([], [])
split (c ∷ p) =
    let (name, names) = split p in if c == b'/' then ([], keep name names) else (c ∷ name, names)

-- The nonempty pieces between slashes, in order.
unfoldable pub components : Bytes → List Bytes
components p = keep (split p).0 (split p).1

-- the lookups of a list of names, one in the other
unfoldable pub walk : {D : Type 0} → Ext4Fs D → List Bytes → (current type : ℕ) → Cmd D (ℕ × ℕ)
walk fs [] current type = pure (current, type)
walk fs (name ∷ names) current type = do
  (next, next_type) ← step_into fs current name
  walk fs names next next_type

components-skip_slashes : (p : Bytes) → components (skip_slashes p) ≡ components p
unfolding components split skip_slashes
components-skip_slashes [] = refl
components-skip_slashes (c ∷ p) = elim (Bool-cases (c == b'/')) [
  | inl slash ↦ rw slash (components-skip_slashes p)
  | inr other ↦ rw (other, other) refl
]

length-skip_slashes : (p : Bytes) → length (skip_slashes p) ≤ length p
unfolding skip_slashes
length-skip_slashes [] = omega arith
length-skip_slashes (c ∷ p) = ground (arith, length-skip_slashes p)

length-take_name : (p : Bytes) → length (take_name p).1 ≤ length p
unfolding take_name
length-take_name [] = omega arith
length-take_name (c ∷ p) = ground (arith, length-take_name p)

take_name-split :
    (p : Bytes) → ((take_name p).0 ≡ (split p).0) × (components (take_name p).1 ≡ (split p).1)
unfolding components split take_name
take_name-split [] = (refl, refl)
take_name-split (c ∷ p) = elim (Bool-cases (c == b'/')) [
  | inl slash ↦ rw slash (refl, rw slash)
  | inr other ↦ rw other (ap (λ n. c ∷ n) (take_name-split p).0, (take_name-split p).1)
]

-- what a text behind `skip_slashes` looks like
abbrev NoSlash : Bytes → Type 0
NoSlash [] = Unit
NoSlash (c ∷ p) = (c == b'/') ≡ false

skip_slashes-NoSlash : (p : Bytes) → NoSlash (skip_slashes p)
unfolding skip_slashes
skip_slashes-NoSlash [] = tt
skip_slashes-NoSlash (c ∷ p) = elim (Bool-cases (c == b'/')) [
  | inl slash ↦ rw slash (skip_slashes-NoSlash p)
  | inr other ↦ rw other other
]

components-cons :
    (c : ℕ) (p : Bytes) → (c == b'/') ≡ false → components (c ∷ p) ≡ (c ∷ (split p).0) ∷ (split p).1
unfolding components split
components-cons c p other = rw other

take_name-cons :
    (c : ℕ) (p : Bytes)
    → (c == b'/') ≡ false
    → ((take_name (c ∷ p)).0 ≡ c ∷ (take_name p).0) × ((take_name (c ∷ p)).1 ≡ (take_name p).1)
unfolding take_name
take_name-cons c p other = rw other (refl, refl)

module _ {D : Type 0} (fs : Ext4Fs D) where
  resolve_loop-walk :
      (fuel current type : ℕ) (p : Bytes)
      → NoSlash p
      → length p ≤ fuel
      → resolve_loop fs fuel current type p ≡ walk fs (components p) current type
  unfolding resolve_loop walk components split
  resolve_loop-walk zero current type [] clean n = refl
  resolve_loop-walk zero current type (c ∷ p) clean n = absurd (omega arith)
  resolve_loop-walk (suc fuel) current type [] clean n = refl
  resolve_loop-walk (suc fuel) current type (c ∷ p) clean n =
      let rest = (take_name (c ∷ p)).1 in
      let (name, tail) = take_name-cons c p clean in
      let (same_name, same_tail) = take_name-split p in
      let names : components (skip_slashes rest) ≡ (split p).1 =
        components-skip_slashes rest ∙ ap components tail ∙ same_tail in
      let short : length (skip_slashes rest) ≤ fuel =
        omega (arith, length-skip_slashes rest, ap length tail, length-take_name p) in
      ap₂ (λ n k. step_into fs current n >>= k) (name ∙ ap (λ t. c ∷ t) same_name)
        (fun_ext λ (x : ℕ × ℕ).
          resolve_loop-walk fuel x.0 x.1 (skip_slashes rest) (skip_slashes-NoSlash rest) short
          ∙ ap (λ ns. walk fs ns x.0 x.1) names)
      ∙ sym (ap (λ ns. walk fs ns current type) (components-cons c p clean))

  -- For every path that starts with a slash, the loop over its characters makes exactly the lookups
  -- of the names between its slashes, each in the directory found before, from inode 2 on; the fuel
  -- of the model suffices.
  pub ext4_resolve_path-walk :
      (path : Bytes) → ext4_resolve_path fs (b'/' ∷ path) ≡ walk fs (components path) 2 ft_dir
  unfolding ext4_resolve_path skip_slashes
  ext4_resolve_path-walk path =
      resolve_loop-walk (length path) 2 ft_dir (skip_slashes path) (skip_slashes-NoSlash path)
        (length-skip_slashes path)
      ∙ ap (λ ns. walk fs ns 2 ft_dir) (components-skip_slashes path)
