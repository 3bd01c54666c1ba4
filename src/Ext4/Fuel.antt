-- ===== src/Ext4/Fuel.antt =====
-- The walks over a directory block end by their own tests: one more than the block size is fuel
-- enough.
use kagami_os.Prelude.{
  ℕ, zero, suc, ◌+◌, ◌^◌, ◌≤◌, ◌<◌, ◌≡◌, ◌≢◌, refl, ap, Bool, Option, none, true, false, [], ◌∷◌,
  length, ltb, leb, ◌==◌, arith, Bool-cases, inl, inr, u32, take, drop, All,
}
use kagami_os.Prelude.Bytes.{
  Bytes, Outcome, ok, fail, fault, Outcome-cases, slice, byte, le16, ok-injective,
}
use kagami_os.Prelude.Bytes.{IsByte}
use kagami_os.Ext4.Listing.{list_entry, list_block}
use kagami_os.Ext4.Dir.{
  DirHead, head_at, entry_matches, found_or, scan_block, align4, insert_in_block,
}

IsByte-drop : (n : ℕ) (xs : Bytes) → All IsByte xs → All IsByte (drop n xs)
IsByte-drop zero xs h = h
IsByte-drop (suc n) [] h = tt
IsByte-drop (suc n) (x ∷ xs) (h, t) = IsByte-drop n xs t

IsByte-take : (n : ℕ) (xs : Bytes) → All IsByte xs → All IsByte (take n xs)
IsByte-take zero xs h = tt
IsByte-take (suc n) [] h = tt
IsByte-take (suc n) (x ∷ xs) (h, t) = (h, IsByte-take n xs t)

byte-lt : (xs : Bytes) (i : ℕ) → All IsByte xs → byte xs i < 256
byte-lt [] i h = omega arith
byte-lt (x ∷ xs) zero (h, t) = h
byte-lt (x ∷ xs) (suc i) (h, t) = byte-lt xs i t

-- a record's length is a 16 bit number
rec_len-lt :
    (block : Bytes) (off : ℕ) (e : DirHead)
    → All IsByte block
    → head_at block off ≡ ok e
    → e.rec_len < 2 ^ 16
unfolding head_at slice
rec_len-lt block off e bytes h = elim (Bool-cases (leb (off + 8) (length block))) [
  | inl in' ↦
      let cut = take 8 (drop off block) in
      let is = IsByte-take 8 (drop off block) (IsByte-drop off block bytes) in
      let len : le16 cut 4 ≡ e.rec_len =
        ap (λ (x : DirHead). x.rec_len) (ok-injective _ e (rw (in', head_at, slice) at h)) in
      omega (arith, byte-lt cut 4 is, byte-lt cut 5 is)
  | inr out ↦ absurd (cc (rw (out, head_at, slice) at h))
]

-- Two walks that do not use up their fuel: they end, with the same outcome.
abbrev pub Ends : {A : Type 0} → Option A → Option A → Type 0
Ends r r' = (r ≢ none) × (r ≡ r')

found_or-ends :
    (e : DirHead) (m : Outcome Bool) (rest : Option (Outcome (Option DirHead)))
    → rest ≢ none
    → found_or e m rest ≢ none
found_or-ends e (ok true) rest ends = λ bad. cc
found_or-ends e (ok false) rest ends = ends
found_or-ends e fail rest ends = λ bad. cc
found_or-ends e fault rest ends = λ bad. cc

module _ (block_size : ℕ) (block : Bytes) (small : block_size ≤ 2 ^ 16)
    (bytes : All IsByte block) where
  -- the next record lies further on, and it needs less fuel
  next_enough :
      (fuel off : ℕ) (e : DirHead)
      → head_at block off ≡ ok e
      → (e.rec_len == 0) ≡ false
      → ltb (off + 8) block_size ≡ true
      → block_size ≤ off + suc fuel
      → block_size ≤ u32 (off + e.rec_len) + fuel
  next_enough fuel off e h pos inside enough = ground (arith, rec_len-lt block off e bytes h)

  -- For a block of bytes and a block size of at most 65536, with more fuel than the rest of the block
  -- has bytes: the walk of `ext4_find_in_dir` does not use up its fuel, so it ends by its own tests, and
  -- any two such amounts give the same outcome.
  pub scan_block_fuel :
      (name : Bytes) (f g off : ℕ)
      → block_size ≤ off + f
      → block_size ≤ off + g
      → Ends
          (scan_block (suc f) block_size block off name)
          (scan_block (suc g) block_size block off name)
  unfolding scan_block
  scan_block_fuel name zero g off p q =
      let past : ltb (off + 8) block_size ≡ false = ground arith in rw past (λ bad. cc, refl)
  scan_block_fuel name (suc f) zero off p q =
      let past : ltb (off + 8) block_size ≡ false = ground arith in rw past (λ bad. cc, refl)
  scan_block_fuel name (suc f) (suc g) off p q = elim (Bool-cases (ltb (off + 8) block_size)) [
    | inr past ↦ rw past (λ bad. cc, refl)
    | inl inside ↦ elim (Outcome-cases (head_at block off)) [
      | inr (inl failed) ↦ rw (inside, failed) (λ bad. cc, refl)
      | inr (inr crashed) ↦ rw (inside, crashed) (λ bad. cc, refl)
      | inl (e, h) ↦ elim (Bool-cases (e.rec_len == 0)) [
        | inl stop ↦ rw (inside, h, stop) (λ bad. cc, refl)
        | inr more ↦
            let (ends, same) =
              scan_block_fuel name f g (u32 (off + e.rec_len)) (next_enough f off e h more inside p)
                (next_enough g off e h more inside q) in
            rw (inside, h, more)
              (
                found_or-ends e (entry_matches block off e name) _ ends,
                ap (found_or e (entry_matches block off e name)) same,
              )
      ]
    ]
  ]

  -- For a block of bytes and a block size of at most 65536, with more fuel than the rest of the block
  -- has bytes: the walk of `ext4_add_dir_entry` does not use up its fuel, so it ends by its own tests, and
  -- any two such amounts give the same outcome.
  pub insert_in_block_fuel :
      (inode_num file_type : ℕ) (name : Bytes) (f g off : ℕ)
      → block_size ≤ off + f
      → block_size ≤ off + g
      → Ends
          (insert_in_block (suc f) block_size block off inode_num file_type name)
          (insert_in_block (suc g) block_size block off inode_num file_type name)
  unfolding insert_in_block
  insert_in_block_fuel inode_num file_type name zero g off p q =
      let past : ltb (off + 8) block_size ≡ false = ground arith in rw past (λ bad. cc, refl)
  insert_in_block_fuel inode_num file_type name (suc f) zero off p q =
      let past : ltb (off + 8) block_size ≡ false = ground arith in rw past (λ bad. cc, refl)
  insert_in_block_fuel inode_num file_type name (suc f) (suc g) off p q =
      elim (Bool-cases (ltb (off + 8) block_size)) [
        | inr past ↦ rw past (λ bad. cc, refl)
        | inl inside ↦ elim (Outcome-cases (head_at block off)) [
          | inr (inl failed) ↦ rw (inside, failed) (λ bad. cc, refl)
          | inr (inr crashed) ↦ rw (inside, crashed) (λ bad. cc, refl)
          | inl (e, h) ↦ elim (Bool-cases (e.rec_len == 0)) [
            | inl stop ↦ rw (inside, h, stop) (λ bad. cc, refl)
            | inr more ↦
                let (ends, same) =
                  insert_in_block_fuel inode_num file_type name f g (u32 (off + e.rec_len))
                    (next_enough f off e h more inside p) (next_enough g off e h more inside q) in
                rw (inside, h, more)
                  (elim (Bool-cases
                    (leb (u32 (align4 (8 + e.name_len) + align4 (8 + length name))) e.rec_len)) [
                      | inl room ↦ rw room (λ bad. cc, refl)
                      | inr none' ↦ rw none' (ends, same)
                    ])
          ]
        ]
      ]

  -- For a block of bytes and a block size of at most 65536, with more fuel than the rest of the block
  -- has bytes: the walk of `ext4_list_dir` does not use up its fuel, so it ends by its own tests, and
  -- any two such amounts give the same outcome.
  pub list_block_fuel :
      (max_size : ℕ) (text : Bytes) (f g off : ℕ)
      → block_size ≤ off + f
      → block_size ≤ off + g
      → Ends
          (list_block (suc f) block_size max_size block off text)
          (list_block (suc g) block_size max_size block off text)
  unfolding list_block
  list_block_fuel max_size text zero g off p q =
      let past : ltb (off + 8) block_size ≡ false = ground arith in rw past (λ bad. cc, refl)
  list_block_fuel max_size text (suc f) zero off p q =
      let past : ltb (off + 8) block_size ≡ false = ground arith in rw past (λ bad. cc, refl)
  list_block_fuel max_size text (suc f) (suc g) off p q =
      elim (Bool-cases (ltb (off + 8) block_size)) [
        | inr past ↦ rw past (λ bad. cc, refl)
        | inl inside ↦ elim (Outcome-cases (head_at block off)) [
          | inr (inl failed) ↦ rw (inside, failed) (λ bad. cc, refl)
          | inr (inr crashed) ↦ rw (inside, crashed) (λ bad. cc, refl)
          | inl (e, h) ↦ elim (Bool-cases (e.rec_len == 0)) [
            | inl stop ↦ rw (inside, h, stop) (λ bad. cc, refl)
            | inr more ↦ elim (Outcome-cases (list_entry max_size block off e text)) [
              | inr (inl failed) ↦ rw (inside, h, more, failed) (λ bad. cc, refl)
              | inr (inr crashed) ↦ rw (inside, h, more, crashed) (λ bad. cc, refl)
              | inl (l, entered) ↦
                  let (ends, same) =
                    list_block_fuel max_size l.text f g (u32 (off + e.rec_len))
                      (next_enough f off e h more inside p) (next_enough g off e h more inside q) in
                  rw (inside, h, more, entered)
                    (elim (Bool-cases l.full) [
                      | inl full ↦ rw full (λ bad. cc, refl)
                      | inr rest ↦ rw rest (ends, same)
                    ])
            ]
          ]
        ]
      ]
