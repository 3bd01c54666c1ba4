-- ===== src/Net/Words.antt =====
-- Byte order and the Internet checksum of net/net.c. The parts that `|` joins in the swaps have no
-- bit in common, so they are added.
use kagami_os.Prelude.{
  ℕ, zero, suc, ◌+◌, ◌-◌, ◌*◌, ◌/◌, ◌%◌, ◌^◌, ◌<◌, ◌≡◌, [], ◌∷◌, arith, u16, u32, ◌==◌,
  if◌then◌else◌,
}
use kagami_os.Prelude.Bytes.{Bytes}

unfoldable pub swap16 : ℕ → ℕ
swap16 v = u16 (v * 2 ^ 8) + v / 2 ^ 8

unfoldable pub swap32 : ℕ → ℕ
swap32 v =
    v / 2 ^ 24 % 2 ^ 8
    + v / 2 ^ 16 % 2 ^ 8 * 2 ^ 8
    + v / 2 ^ 8 % 2 ^ 8 * 2 ^ 16
    + v % 2 ^ 8 * 2 ^ 24

-- Swapping twice gives the value back, for each of the two widths.
pub swap-swap :
    (v w : ℕ) → v < 2 ^ 16 → w < 2 ^ 32 → (swap16 (swap16 v) ≡ v) × (swap32 (swap32 w) ≡ w)
unfolding swap16 swap32
swap-swap v w h k = omega arith

-- The loop over 16 bit words, and the odd byte behind it.
unfoldable pub word_sum : Bytes → ℕ → ℕ
word_sum [] sum = sum
word_sum (a ∷ []) sum = u32 (sum + a)
word_sum (a ∷ b ∷ buf) sum = word_sum buf (u32 (sum + (a + 2 ^ 8 * b)))

-- `while (sum >> 16)`; three rounds are enough for any 32 bit sum.
unfoldable pub fold_carry : ℕ → ℕ → ℕ
fold_carry zero sum = sum
fold_carry (suc fuel) sum =
    let rest = fold_carry fuel (sum % 2 ^ 16 + sum / 2 ^ 16) in
    if sum / 2 ^ 16 == 0 then sum else rest

unfoldable pub checksum16 : Bytes → ℕ
checksum16 buf = u16 (2 ^ 32 - 1 - fold_carry 3 (word_sum buf 0))

pub swap32-lt : (v : ℕ) → swap32 v < 2 ^ 32
unfolding swap32
swap32-lt v = omega arith
