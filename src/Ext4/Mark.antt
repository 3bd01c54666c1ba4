-- ===== src/Ext4/Mark.antt =====
-- The marking loop of `ext4_alloc_block_run` in fs/ext4/ext4.c: the bits that it sets.
use mathlib.Core.Path.{subst}
use native.Mathlib.Decide.{ℕ_discrete}
use mathlib.Core.Option.{some-injective}
use kagami_os.Prelude.{
  ℕ, zero, suc, ◌+◌, ◌/◌, ◌%◌, ◌<◌, ◌≡◌, refl, ap, sym, ◌∙◌, Bool, true, false, not, ◌&&◌, inl, inr,
  some, [], ◌∷◌, ltb, ltb→lt, leb, ◌==◌, if◌then◌else◌, arith, holds_below, holds_below_at,
  Option-cases, has_bit, get_elem?, get_elem?-lt, get_elem?-set_self, get_elem?-set_ne, set, All,
}
use kagami_os.Prelude.Bytes.{Bytes, ok, ok-injective, Outcome-cases}
use kagami_os.Prelude.Bytes.{IsByte}
use kagami_os.Ext4.Alloc.{bit_at, or_bit, set_bit, mark_run}

abbrev same : Bool → Bool → Bool
same true b = b
same false b = not b

same_sound : (a b : Bool) → same a b ≡ true → a ≡ b
same_sound true b h = sym h
same_sound false true h = cc
same_sound false false h = refl

or_bit_range : holds_below (λ b. holds_below (λ k. ltb (or_bit b k) 256) 8) 256 ≡ true
unfolding holds_below
or_bit_range = refl

-- One bit set in a byte.
abbrev set_right : ℕ → ℕ → ℕ → Bool
set_right b k j = same (has_bit (or_bit b k) j) (if k == j then true else has_bit b j)

or_bit_table : holds_below (λ b. holds_below (λ k. holds_below (set_right b k) 8) 8) 256 ≡ true
unfolding holds_below
or_bit_table = refl

has_bit-or_bit :
    (b k j : ℕ)
    → b < 256
    → k < 8
    → j < 8
    → has_bit (or_bit b k) j ≡ (if k == j then true else has_bit b j)
has_bit-or_bit b k j hb hk hj =
    let at_byte =
      holds_below_at (λ b. holds_below (λ k. holds_below (set_right b k) 8) 8) 256 b hb
        or_bit_table in
    let at_bit = holds_below_at (λ k. holds_below (set_right b k) 8) 8 k hk at_byte in
    same_sound _ _ (holds_below_at (set_right b k) 8 j hj at_bit)

or_bit-lt : (b k : ℕ) → b < 256 → k < 8 → or_bit b k < 256
or_bit-lt b k hb hk =
    let at_byte =
      holds_below_at (λ b. holds_below (λ k. ltb (or_bit b k) 256) 8) 256 b hb or_bit_range in
    ltb→lt _ _ (holds_below_at (λ k. ltb (or_bit b k) 256) 8 k hk at_byte)

IsByte-set : (xs : Bytes) (i v : ℕ) → All IsByte xs → IsByte v → All IsByte (set xs i v)
IsByte-set [] i v h p = tt
IsByte-set (x ∷ xs) zero v (h, t) p = (p, t)
IsByte-set (x ∷ xs) (suc i) v (h, t) p = (h, IsByte-set xs i v t p)

IsByte-get_elem? : (xs : Bytes) (i v : ℕ) → All IsByte xs → get_elem? xs i ≡ some v → IsByte v
IsByte-get_elem? [] i v h e = cc
IsByte-get_elem? (x ∷ xs) zero v (h, t) e = subst IsByte (some-injective x v e) h
IsByte-get_elem? (x ∷ xs) (suc i) v (h, t) e = IsByte-get_elem? xs i v t e

bit_at-set :
    (bitmap : Bytes) (i b j : ℕ)
    → b < 256
    → get_elem? bitmap (i / 8) ≡ some b
    → bit_at (set bitmap (i / 8) (or_bit b (i % 8))) j
      ≡ (if i == j then ok true else bit_at bitmap j)
unfolding bit_at
bit_at-set bitmap i b j small e = elim (ℕ_discrete (i / 8) (j / 8)) [
  | yes here ↦
      let v = or_bit b (i % 8) in
      let old : get_elem? bitmap (j / 8) ≡ some b = rw (← here) e in
      let new : get_elem? (set bitmap (i / 8) v) (j / 8) ≡ some v =
        rw (← here) (get_elem?-set_self bitmap (i / 8) v (get_elem?-lt bitmap (i / 8) b e)) in
      rw (old, new, bit_at)
        (ap ok (has_bit-or_bit b (i % 8) (j % 8) small (omega arith) (omega arith)) ∙ ground arith)
  | no elsewhere ↦
      let new = get_elem?-set_ne bitmap (i / 8) (j / 8) (or_bit b (i % 8)) elsewhere in
      let ne : (i == j) ≡ false = ground arith in rw (new, ne, bit_at)
]

-- Setting one bit of a bitmap of bytes sets that bit and no other, and leaves bytes.
set_bit_lem :
    (bitmap bitmap' : Bytes) (i : ℕ)
    → All IsByte bitmap
    → set_bit bitmap i ≡ ok bitmap'
    → All IsByte bitmap'
      × ((j : ℕ) → bit_at bitmap' j ≡ (if i == j then ok true else bit_at bitmap j))
unfolding set_bit
set_bit_lem bitmap bitmap' i bytes e = elim (Option-cases (get_elem? bitmap (i / 8))) [
  | inl out ↦ cc out
  | inr (b, at) ↦
      let small = IsByte-get_elem? bitmap (i / 8) b bytes at in
      let new = set bitmap (i / 8) (or_bit b (i % 8)) in
      let made : new ≡ bitmap' = ok-injective new bitmap' (rw (at, set_bit) at e) in
      (
        subst (All IsByte) made
            (IsByte-set bitmap (i / 8) _ bytes (or_bit-lt b (i % 8) small (omega arith))),
        λ j. rw (← made) (bit_at-set bitmap i b j small at),
      )
]

-- After `mark_run` exactly the bits of the run are set as well; the others are as they were.
pub mark_run_lem :
    (n : ℕ) (bitmap bitmap' : Bytes) (i : ℕ)
    → All IsByte bitmap
    → mark_run n bitmap i ≡ ok bitmap'
    → All IsByte bitmap'
      × ((j : ℕ)
          → bit_at bitmap' j ≡ (if leb i j && ltb j (i + n) then ok true else bit_at bitmap j))
unfolding mark_run
mark_run_lem zero bitmap bitmap' i bytes e =
    let same_map = ok-injective bitmap bitmap' e in
    (subst (All IsByte) same_map bytes, λ j. rw (← same_map) (ground arith))
mark_run_lem (suc n) bitmap bitmap' i bytes e = elim (Outcome-cases (set_bit bitmap i)) [
  | inl (mid, set_i) ↦
      let (bytes', first) = set_bit_lem bitmap mid i bytes set_i in
      let (bytes'', others) =
        mark_run_lem n mid bitmap' (i + 1) bytes' (rw (set_i, mark_run) at e) in
      (bytes'', λ j. others j ∙ rw (first j) (ground arith))
  | inr (inl failed) ↦ absurd (cc (rw (failed, mark_run) at e))
  | inr (inr crashed) ↦ absurd (cc (rw (crashed, mark_run) at e))
]
