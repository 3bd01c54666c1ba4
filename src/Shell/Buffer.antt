-- ===== src/Shell/Buffer.antt =====
-- The content array of the editor of kernel/shell/shell.c as a text, a zero and a rest.
use mathlib.Core.List.{append_assoc}
use kagami_os.Prelude.{
  ℕ, zero, suc, ◌+◌, ◌-◌, ◌<◌, ◌≡◌, ◌≢◌, refl, ap, sym, ◌∙◌, [], ◌∷◌, ◌++◌, arith, length,
  length-append, get_or, set, take, drop, All, inl, inr, ◌⊎◌,
}
use kagami_os.Prelude.Bytes.{Bytes}
use kagami_os.Shell.Editor.{shift_up, shift_down}

abbrev pub NotZero : ℕ → Type 0
NotZero c = c ≢ 0

pub get_or-append :
    (xs ys : Bytes) (i k : ℕ) → i ≡ length xs + k → get_or (xs ++ ys) i 0 ≡ get_or ys k 0
get_or-append [] ys i k e = ap (λ j. get_or ys j 0) (omega arith)
get_or-append (x ∷ xs) ys zero k e = absurd (omega arith)
get_or-append (x ∷ xs) ys (suc i) k e = get_or-append xs ys i k (omega arith)

pub get_or-append_left :
    (xs ys : Bytes) (i : ℕ) → i < length xs → get_or (xs ++ ys) i 0 ≡ get_or xs i 0
get_or-append_left [] ys i h = absurd (omega arith)
get_or-append_left (x ∷ xs) ys zero h = refl
get_or-append_left (x ∷ xs) ys (suc i) h = get_or-append_left xs ys i (omega arith)

pub set-append :
    (xs ys : Bytes) (i k v : ℕ) → i ≡ length xs + k → set (xs ++ ys) i v ≡ xs ++ set ys k v
set-append [] ys i k v e = ap (λ j. set ys j v) (omega arith)
set-append (x ∷ xs) ys zero k v e = absurd (omega arith)
set-append (x ∷ xs) ys (suc i) k v e = ap (λ r. x ∷ r) (set-append xs ys i k v (omega arith))

pub All-append : (xs ys : Bytes) → All NotZero xs → All NotZero ys → All NotZero (xs ++ ys)
All-append [] ys a b = b
All-append (x ∷ xs) ys (p, a) b = (p, All-append xs ys a b)

pub All-take : (n : ℕ) (xs : Bytes) → All NotZero xs → All NotZero (take n xs)
All-take zero xs a = tt
All-take (suc n) [] a = tt
All-take (suc n) (x ∷ xs) (p, a) = (p, All-take n xs a)

pub All-drop : (n : ℕ) (xs : Bytes) → All NotZero xs → All NotZero (drop n xs)
All-drop zero xs a = a
All-drop (suc n) [] a = tt
All-drop (suc n) (x ∷ xs) (p, a) = All-drop n xs a

last_cases : (xs : Bytes) → (xs ≡ []) ⊎ ((ys : Bytes) × (l : ℕ) × (xs ≡ ys ++ (l ∷ [])))
last_cases [] = inl refl
last_cases (x ∷ xs) = elim (last_cases xs) [
  | inl e ↦ inr ([], x, ap (λ r. x ∷ r) e)
  | inr (ys, l, e) ↦ inr (x ∷ ys, l, ap (λ r. x ∷ r) e)
]

-- One round of the loop that moves the text up.
shift_up-last :
    (n : ℕ) (p ys : Bytes) (l y : ℕ) (rest : Bytes)
    → shift_up (suc n) (length p + suc (length ys)) (p ++ ((ys ++ (l ∷ [])) ++ (y ∷ rest)))
      ≡ shift_up n (length p + length ys) (p ++ (ys ++ (l ∷ (l ∷ rest))))
unfolding shift_up
shift_up-last n p ys l y rest =
    let front : Bytes = p ++ ys in
    let size : length front ≡ length p + length ys = length-append p ys in
    let regroup : p ++ ((ys ++ (l ∷ [])) ++ (y ∷ rest)) ≡ front ++ (l ∷ (y ∷ rest)) =
      simp append_assoc in
    let i : ℕ = length p + suc (length ys) in
    rw
      (
        regroup,
        get_or-append front (l ∷ (y ∷ rest)) (i - 1) 0 (omega (arith, size)),
        set-append front (l ∷ (y ∷ rest)) i 1 l (omega (arith, size)),
      )
      (ap (λ j. shift_up n j (front ++ (l ∷ (l ∷ rest)))) (omega arith)
        ∙ ap (shift_up n (length p + length ys)) (append_assoc p ys (l ∷ (l ∷ rest))))

-- The text behind `p` moves up by one place, and `c` is written where it began.
shift_up-set :
    (n : ℕ) (p xs : Bytes) (y c : ℕ) (rest : Bytes)
    → length xs ≡ n
    → set (shift_up n (length p + length xs) (p ++ (xs ++ (y ∷ rest)))) (length p) c
      ≡ p ++ (c ∷ (xs ++ rest))
unfolding shift_up
shift_up-set zero p [] y c rest e = set-append p (y ∷ rest) (length p) 0 c (omega arith)
shift_up-set zero p (x ∷ xs) y c rest e = absurd (omega arith)
shift_up-set (suc n) p xs y c rest e = elim (last_cases xs) [
  | inl empty ↦ absurd (omega (arith, ap length empty))
  | inr (ys, l, last) ↦
      let size : length xs ≡ suc (length ys) =
        omega (arith, ap length last, length-append ys (l ∷ [])) in
      rw (size, last, shift_up-last n p ys l y rest)
        (shift_up-set n p ys l c (l ∷ rest) (omega arith)
          ∙ ap (λ r. p ++ (c ∷ r)) (simp append_assoc))
]

pub insert_into :
    (p xs rest : Bytes) (n i y c : ℕ)
    → n ≡ length xs
    → i ≡ length p + length xs
    → set (shift_up n i (p ++ (xs ++ (y ∷ rest)))) (length p) c ≡ p ++ (c ∷ (xs ++ rest))
insert_into p xs rest n i y c e at =
    ap (λ j. set (shift_up n j (p ++ (xs ++ (y ∷ rest)))) (length p) c) at
    ∙ shift_up-set n p xs y c rest (omega arith)

-- The text `ys` behind `p` and `x` moves down by one place, over `x`.
pub remove_from :
    (ys p rest : Bytes) (n i x : ℕ)
    → n ≡ length ys
    → i ≡ length p
    → (z : ℕ) × (shift_down n i (p ++ (x ∷ (ys ++ rest))) ≡ p ++ (ys ++ (z ∷ rest)))
unfolding shift_down
remove_from [] p rest zero i x e at = (x, refl)
remove_from [] p rest (suc n) i x e at = absurd (omega arith)
remove_from (y ∷ ys) p rest zero i x e at = absurd (omega arith)
remove_from (y ∷ ys) p rest (suc n) i x e at =
    let here : get_or (p ++ (x ∷ (y ∷ (ys ++ rest)))) (i + 1) 0 ≡ y =
      get_or-append p (x ∷ (y ∷ (ys ++ rest))) (i + 1) 1 (omega arith) in
    let written : set (p ++ (x ∷ (y ∷ (ys ++ rest)))) i y ≡ (p ++ (y ∷ [])) ++ (y ∷ (ys ++ rest)) =
      set-append p (x ∷ (y ∷ (ys ++ rest))) i 0 y (omega arith)
      ∙ sym (append_assoc p (y ∷ []) (y ∷ (ys ++ rest))) in
    let (z, moved) =
      remove_from ys (p ++ (y ∷ [])) rest n (i + 1) y (omega arith)
        (omega (arith, length-append p (y ∷ []))) in
    (z, rw (here, written) (moved ∙ append_assoc p (y ∷ []) (ys ++ (z ∷ rest))))
