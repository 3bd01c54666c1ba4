-- ===== src/Keyboard/Window.antt =====
-- The keys between the two positions of the keyboard's ring buffer, as a list.
use kagami_os.Prelude.{
  ℕ, zero, suc, ◌+◌, ◌%◌, ◌<◌, ◌≤◌, ◌≡◌, ◌≢◌, refl, ap, ap₂, ◌∙◌, List, [], ◌∷◌, ◌++◌, arith,
  length, set, get_or, get_or-set_self, get_or-set_ne,
}

-- `n` bytes from position `r` on, around the end of the buffer
unfoldable pub window : List ℕ → (r n : ℕ) → List ℕ
window buf r zero = []
window buf r (suc n) = get_or buf (r % 128) 0 ∷ window buf (r + 1) n

pub length-window : (buf : List ℕ) (r n : ℕ) → length (window buf r n) ≡ n
unfolding window
length-window buf r zero = refl
length-window buf r (suc n) = ap suc (length-window buf (r + 1) n)

-- Only the position's remainder matters.
pub window_mod : (buf : List ℕ) (r r' n : ℕ) → r % 128 ≡ r' % 128 → window buf r n ≡ window buf r' n
unfolding window
window_mod buf r r' zero e = refl
window_mod buf r r' (suc n) e =
    ap₂ (λ i xs. get_or buf i 0 ∷ xs) e (window_mod buf (r + 1) (r' + 1) n (omega arith))

window_snoc :
    (buf : List ℕ) (r n : ℕ)
    → window buf r (suc n) ≡ window buf r n ++ (get_or buf ((r + n) % 128) 0 ∷ [])
unfolding window
window_snoc buf r zero = ap (λ i. get_or buf i 0 ∷ []) (omega arith)
window_snoc buf r (suc n) =
    ap (λ xs. get_or buf (r % 128) 0 ∷ xs)
      (window_snoc buf (r + 1) n
        ∙ ap (λ i. window buf (r + 1) n ++ (get_or buf i 0 ∷ [])) (omega arith))

-- A write behind the window leaves it alone.
window-set :
    (buf : List ℕ) (r n m w v : ℕ)
    → n ≤ m
    → m < 128
    → w ≡ (r + m) % 128
    → window (set buf w v) r n ≡ window buf r n
unfolding window
window-set buf r zero m w v le lt e = refl
window-set buf r (suc n) zero w v le lt e = absurd (omega arith)
window-set buf r (suc n) (suc m) w v le lt e =
    let apart : w ≢ r % 128 = λ same. omega arith in
    ap₂ (λ b xs. b ∷ xs) (get_or-set_ne buf w (r % 128) v 0 apart)
      (window-set buf (r + 1) n m w v (omega arith) (omega arith) (omega arith))

-- A byte written at the window's end joins it.
pub window_put :
    (buf : List ℕ) (r n w v : ℕ)
    → length buf ≡ 128
    → n < 128
    → w ≡ (r + n) % 128
    → window (set buf w v) r (suc n) ≡ window buf r n ++ (v ∷ [])
window_put buf r n w v len lt e =
    let here : (r + n) % 128 ≡ w = omega arith in
    window_snoc (set buf w v) r n
    ∙ ap₂ (λ xs b. xs ++ (b ∷ [])) (window-set buf r n n w v (omega arith) lt e)
        (ap (λ i. get_or (set buf w v) i 0) here ∙ get_or-set_self buf w v 0 (omega arith))
