-- ===== src/Net/Checksum.antt =====
-- What `checksum16` of net/net.c promises: a packet that carries its checksum sums to 0.
use kagami_os.Prelude.{
  ℕ, zero, suc, ◌+◌, ◌-◌, ◌*◌, ◌%◌, ◌^◌, ◌≤◌, ◌<◌, ◌≡◌, ◌≢◌, ◌∙◌, [], ◌∷◌, ◌++◌, arith, length, u16,
  u32, All,
}
use kagami_os.Prelude.Bytes.{IsByte, Bytes, bytes16}
use kagami_os.Net.Words.{word_sum, fold_carry, checksum16}

-- The loop ends by its own test, keeps the sum modulo 65535, and gives 0 only for 0.
fold_carry_lem :
    (sum : ℕ)
    → sum < 2 ^ 32
    → (fold_carry 3 sum < 2 ^ 16)
      × (fold_carry 3 sum ≤ sum)
      × (fold_carry 3 sum % 65535 ≡ sum % 65535)
      × (sum ≢ 0 → fold_carry 3 sum ≢ 0)
unfolding fold_carry
fold_carry_lem sum h = ground arith

-- the sum of the 16 bit words without the wrap
plain_sum : Bytes → ℕ
plain_sum [] = 0
plain_sum (a ∷ []) = a
plain_sum (a ∷ b ∷ buf) = a + 2 ^ 8 * b + plain_sum buf

plain_sum_bound : (buf : Bytes) → All IsByte buf → plain_sum buf ≤ 2 ^ 16 * length buf
unfolding plain_sum
plain_sum_bound [] h = omega arith
plain_sum_bound (a ∷ []) h = omega arith
plain_sum_bound (a ∷ b ∷ buf) (ha, h) = omega (arith, plain_sum_bound buf h.1)

word_sum-plain :
    (buf : Bytes) (sum : ℕ) → sum + plain_sum buf < 2 ^ 32 → word_sum buf sum ≡ sum + plain_sum buf
unfolding word_sum plain_sum
word_sum-plain [] sum h = omega arith
word_sum-plain (a ∷ []) sum h = omega arith
word_sum-plain (a ∷ b ∷ buf) sum h =
    word_sum-plain buf (u32 (sum + (a + 2 ^ 8 * b))) (omega arith) ∙ omega arith

-- a 16 bit field at an even offset
plain_sum-field :
    (k c : ℕ) (xs ys : Bytes)
    → c < 2 ^ 16
    → length xs ≡ 2 * k
    → plain_sum (xs ++ (bytes16 c ++ ys)) ≡ plain_sum xs + plain_sum ys + c
unfolding plain_sum
plain_sum-field k c [] ys h e = omega arith
plain_sum-field k c (a ∷ []) ys h e = absurd (omega arith)
plain_sum-field zero c (a ∷ b ∷ xs) ys h e = absurd (omega arith)
plain_sum-field (suc k) c (a ∷ b ∷ xs) ys h e =
    omega (arith, plain_sum-field k c xs ys h (omega arith))

-- the two checksums, as numbers
complement :
    (s : ℕ)
    → s < 2 ^ 31
    → let c = u16 (2 ^ 32 - 1 - fold_carry 3 s) in
      (c < 2 ^ 16) × (u16 (2 ^ 32 - 1 - fold_carry 3 (s + c)) ≡ 0)
complement s h =
    let f = fold_carry_lem s (omega arith) in
    let c = u16 (2 ^ 32 - 1 - fold_carry 3 s) in
    let g = fold_carry_lem (s + c) (omega arith) in
    (omega arith, omega (arith, f, g, g.3 (omega (arith, f))))

-- A packet of less than 32768 bytes whose 16 bit checksum field, at an even offset, holds the
-- checksum that was computed over the packet with that field zero: the checksum over the whole
-- packet is then 0.
pub checksum16_verifies :
    (k : ℕ) (before after : Bytes)
    → length before ≡ 2 * k
    → length before + length after < 2 ^ 15
    → All IsByte before
    → All IsByte after
    → checksum16 (before ++ (bytes16 (checksum16 (before ++ (bytes16 0 ++ after))) ++ after)) ≡ 0
unfolding checksum16
checksum16_verifies k before after even short hb ha =
    let s : ℕ = plain_sum before + plain_sum after in
    let small : s < 2 ^ 31 = omega (arith, plain_sum_bound before hb, plain_sum_bound after ha) in
    let zeroed : plain_sum (before ++ (bytes16 0 ++ after)) ≡ s =
      omega (arith, plain_sum-field k 0 before after) in
    let first : word_sum (before ++ (bytes16 0 ++ after)) 0 ≡ s =
      omega (arith, word_sum-plain (before ++ (bytes16 0 ++ after)) 0) in
    let c : ℕ = u16 (2 ^ 32 - 1 - fold_carry 3 s) in
    let done = complement s small in
    let filled : plain_sum (before ++ (bytes16 c ++ after)) ≡ s + c =
      plain_sum-field k c before after done.0 even in
    let second : word_sum (before ++ (bytes16 c ++ after)) 0 ≡ s + c =
      omega (arith, word_sum-plain (before ++ (bytes16 c ++ after)) 0, done) in
    rw first (rw second done.1)
