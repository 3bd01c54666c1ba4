-- ===== src/Ext4/Bitmap.antt =====
-- Which run of blocks `ext4_alloc_block_run` of fs/ext4/ext4.c finds in a bitmap.
use Prim.Native.Nat.{max}
use mathlib.Core.Path.{subst}
use native.Mathlib.Decide.{dec_lt}
use kagami_os.Prelude.{
  ℕ, zero, suc, ◌+◌, ◌*◌, ◌/◌, ◌%◌, ◌≤◌, ◌<◌, ◌≡◌, ◌≢◌, ◌⊎◌, refl, ap, sym, ◌∙◌, true, false, ◌&&◌,
  inl, inr, Option, none, some, [], ◌∷◌, length, ltb, leb, ◌==◌, if◌then◌else◌, arith, Option-cases,
  ==_iff, Bool-cases, has_bit, get_elem?, All,
}
use kagami_os.Prelude.Bytes.{Bytes, Outcome, ok, fail, fault}
use kagami_os.Prelude.Bytes.{IsByte}
use kagami_os.Ext4.Alloc.{bit_at, find_run, mark_run}
use kagami_os.Ext4.Mark.{mark_run_lem}

-- the bits from `s` on, `n` of them, are clear
abbrev pub ClearRun : Bytes → ℕ → ℕ → Type 0
ClearRun bitmap s n = (j : ℕ) → s ≤ j → j < s + n → bit_at bitmap j ≡ ok false

-- no run of `count` clear bits begins before `lo`
abbrev pub NoRunBefore : Bytes → ℕ → ℕ → Type 0
NoRunBefore bitmap count lo = (s : ℕ) → s < lo → ¬ (ClearRun bitmap s count)

-- what a search of the bits below `end` may answer
abbrev pub FirstRun : Bytes → ℕ → ℕ → Outcome (Option ℕ) → Type 0
FirstRun bitmap count end (ok (some s)) =
    (s + count ≤ end) × ClearRun bitmap s count × NoRunBefore bitmap count s
FirstRun bitmap count end (ok none) = (s : ℕ) → s + count ≤ end → ¬ (ClearRun bitmap s count)
FirstRun bitmap count end fail = ⊥
FirstRun bitmap count end fault = 8 * length bitmap < end

get_elem?-short : (xs : Bytes) (i : ℕ) → get_elem? xs i ≡ none → length xs ≤ i
get_elem?-short [] i h = omega arith
get_elem?-short (x ∷ xs) zero h = cc
get_elem?-short (x ∷ xs) (suc i) h = omega (arith, get_elem?-short xs i h)

bit_cases :
    (bitmap : Bytes) (i : ℕ)
    → (bit_at bitmap i ≡ ok true)
      ⊎ ((bit_at bitmap i ≡ ok false) ⊎ ((bit_at bitmap i ≡ fault) × (8 * length bitmap ≤ i)))
unfolding bit_at
bit_cases bitmap i = elim (Option-cases (get_elem? bitmap (i / 8))) [
  | inl out ↦ rw (out, bit_at) (inr (inr (refl, omega (arith, get_elem?-short bitmap (i / 8) out))))
  | inr (b, e) ↦
      rw (e, bit_at)
        (elim (Bool-cases (has_bit b (i % 8))) [
          | inl used ↦ inl (ap ok used)
          | inr free ↦ inr (inl (ap ok free))
        ])
]

-- a run that holds a set bit
not-ClearRun :
    (bitmap : Bytes) (count s i : ℕ)
    → bit_at bitmap i ≡ ok true
    → s ≤ i
    → i < s + count
    → ¬ (ClearRun bitmap s count)
not-ClearRun bitmap count s i used from to free = cc (free i from to)

ClearRun-extend :
    (bitmap : Bytes) (lo run i : ℕ)
    → lo + run ≡ i
    → bit_at bitmap i ≡ ok false
    → ClearRun bitmap lo run
    → ClearRun bitmap lo (run + 1)
ClearRun-extend bitmap lo run i at free clear j from to = elim (dec_lt j i) [
  | yes below ↦ clear j from (omega arith)
  | no above ↦ let e : j ≡ i = omega arith in rw e free
]

NoRunBefore-extend :
    (bitmap : Bytes) (count lo run i : ℕ)
    → lo + run ≡ i
    → run < count
    → bit_at bitmap i ≡ ok true
    → NoRunBefore bitmap count lo
    → NoRunBefore bitmap count (i + 1)
NoRunBefore-extend bitmap count lo run i at short used before s below = elim (dec_lt s lo) [
  | yes old ↦ before s old
  | no new ↦ not-ClearRun bitmap count s i used (omega arith) (omega arith)
]

find_run-FirstRun :
    (n count : ℕ) (bitmap : Bytes) (i run start lo end : ℕ)
    → lo + run ≡ i
    → i + n ≡ end
    → (run ≢ 0 → start ≡ lo)
    → run < count
    → ClearRun bitmap lo run
    → NoRunBefore bitmap count lo
    → FirstRun bitmap count end (find_run n count bitmap i run start)
unfolding find_run
find_run-FirstRun zero count bitmap i run start lo end at stop begin short clear before =
    λ s fits free. before s (omega arith) free
find_run-FirstRun (suc n) count bitmap i run start lo end at stop begin short clear before =
    elim (bit_cases bitmap i) [
      | inl used ↦
          rw (used, find_run)
            (find_run-FirstRun n count bitmap (i + 1) 0 start (i + 1) end (omega arith)
              (omega arith) (λ ne. absurd (ne refl)) (omega arith)
              (λ j from to. absurd (omega arith))
              (NoRunBefore-extend bitmap count lo run i at short used before))
      | inr (inl free) ↦
          let first : (if run == 0 then i else start) ≡ lo = ground (arith, begin) in
          let longer = ClearRun-extend bitmap lo run i at free clear in
          rw (free, find_run, first)
            (elim (Bool-cases (run + 1 == count)) [
              | inl hit ↦
                  let len : run + 1 ≡ count = (==_iff (run + 1) count).0 hit in
                  rw hit (omega arith, subst (ClearRun bitmap lo) len longer, before)
              | inr more ↦ rw more (
                  find_run-FirstRun n count bitmap (i + 1) (run + 1) lo lo end (omega arith)
                    (omega arith) (λ _. refl) (ground arith) longer before)
            ])
      | inr (inr (out, beyond)) ↦ rw (out, find_run) (omega arith)
    ]

-- The search of `ext4_alloc_block_run` for `count` blocks among `n`, `count` not zero: it answers
-- with the first run of `count` clear bits, which ends within the `n` bits; it finds none only if
-- there is none; and it reads outside the bitmap only if `n` is larger than the bitmap.
pub find_run_lem :
    (n count : ℕ) (bitmap : Bytes)
    → 0 < count
    → FirstRun bitmap count n (find_run n count bitmap 0 0 0)
find_run_lem n count bitmap pos =
    find_run-FirstRun n count bitmap 0 0 0 0 n refl (omega arith) (λ ne. absurd (ne refl)) pos
      (λ j from to. absurd (omega arith)) (λ s below. absurd (omega arith))

-- Two successive searches on one bitmap, the first run marked before the second search: the runs
-- have no bit in common, whatever their lengths.
pub runs_disjoint :
    (n n' count count' s s' : ℕ) (bitmap bitmap' : Bytes)
    → 0 < count
    → 0 < count'
    → All IsByte bitmap
    → find_run n count bitmap 0 0 0 ≡ ok (some s)
    → mark_run count bitmap s ≡ ok bitmap'
    → find_run n' count' bitmap' 0 0 0 ≡ ok (some s')
    → (s + count ≤ s') ⊎ (s' + count' ≤ s)
runs_disjoint n n' count count' s s' bitmap bitmap' pos pos' bytes found marked again =
    let second : FirstRun bitmap' count' n' (ok (some s')) =
      rw again at (find_run_lem n' count' bitmap' pos') in
    let set_bits = (mark_run_lem count bitmap bitmap' s bytes marked).1 in
    elim (dec_lt s' (s + count)) [
      | no after ↦ inl (omega arith)
      | yes inside ↦ elim (dec_lt s (s' + count')) [
        | no before ↦ inr (omega arith)
        | yes overlap ↦
            let j = max s s' in
            let free : bit_at bitmap' j ≡ ok false = second.1 j (omega arith) (omega arith) in
            let in_run : (leb s j && ltb j (s + count)) ≡ true = ground arith in
            let used : bit_at bitmap' j ≡ ok true = rw in_run at (set_bits j) in
            absurd (cc (sym used ∙ free))
      ]
    ]
