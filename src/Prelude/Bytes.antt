-- ===== src/Prelude/Bytes.antt =====
-- Buffers of bytes, and the little-endian fields of packed structs in them.
-- An access outside a buffer is undefined behaviour in C, and a `fault` here.
use Prim.Native.Nat.{ℕ, ◌+◌, ◌*◌, ◌/◌, ◌%◌, ◌^◌, ◌≤◌, ◌<◌}
use mathlib.Core.Path.{◌≡◌, refl, ap, ap₂, ◌∙◌}
use mathlib.Core.Logic.{◌⊎◌, inl, inr}
use native.Mathlib.Omega.{arith}
use mathlib.Core.List.{List, [], ◌∷◌, ◌++◌, append-nil}
use kagami_os.Prelude.Tests.{leb, le→leb, if◌then◌else◌}
use kagami_os.Prelude.Lists.{
  length, get_or, take, drop, length-append, length-take, length-drop, take-append_add,
  drop-append_add, drop-append_exact,
}

-- `ok a` returns 1 and `a` through the out parameters, `fail` returns 0.
pub data Outcome (A : Type 0) : Type 0 where
  ok : A → Outcome A
  fail : Outcome A
  fault : Outcome A

abbrev from_ok : {A : Type 0} → A → Outcome A → A
from_ok d (ok a) = a
from_ok d fail = d
from_ok d fault = d

pub ok-injective : {A : Type 0} (a b : A) → ok a ≡ ok b → a ≡ b
ok-injective a b e = ap (from_ok a) e

-- To split on a computed outcome and keep the equation.
pub Outcome-cases :
    {A : Type 0} (o : Outcome A) → ((a : A) × (o ≡ ok a)) ⊎ ((o ≡ fail) ⊎ (o ≡ fault))
Outcome-cases (ok a) = inl (a, refl)
Outcome-cases fail = inr (inl refl)
Outcome-cases fault = inr (inr refl)

abbrev pub Bytes : Type 0
Bytes = List ℕ

-- what a byte of a buffer is
abbrev pub IsByte : ℕ → Type 0
IsByte b = b < 2 ^ 8

-- byte `i` of a struct held as bytes
abbrev pub byte : Bytes → ℕ → ℕ
byte xs i = get_or xs i 0

abbrev pub le16 : Bytes → ℕ → ℕ
le16 xs i = byte xs i + 2 ^ 8 * byte xs (i + 1)

abbrev pub le32 : Bytes → ℕ → ℕ
le32 xs i = le16 xs i + 2 ^ 16 * le16 xs (i + 2)

abbrev pub le64 : Bytes → ℕ → ℕ
le64 xs i = le32 xs i + 2 ^ 32 * le32 xs (i + 4)

-- the bytes of a 16 bit and of a 32 bit field
abbrev pub bytes16 : ℕ → Bytes
bytes16 v = v % 2 ^ 8 ∷ v / 2 ^ 8 % 2 ^ 8 ∷ []

abbrev pub bytes32 : ℕ → Bytes
bytes32 v = v % 2 ^ 8 ∷ v / 2 ^ 8 % 2 ^ 8 ∷ v / 2 ^ 16 % 2 ^ 8 ∷ v / 2 ^ 24 % 2 ^ 8 ∷ []

-- the `n` bytes from `off` on
unfoldable pub slice : Bytes → ℕ → ℕ → Outcome Bytes
slice xs off n = if leb (off + n) (length xs) then ok (take n (drop off xs)) else fault

-- `dst` with `src` written at `off`
abbrev pub splice : ℕ → Bytes → Bytes → Bytes
splice off src dst = take off dst ++ (src ++ drop (off + length src) dst)

unfoldable pub patch : ℕ → Bytes → Bytes → Outcome Bytes
patch off src dst = if leb (off + length src) (length dst) then ok (splice off src dst) else fault

pub slice_ok :
    (xs : Bytes) (off n : ℕ) → off + n ≤ length xs → slice xs off n ≡ ok (take n (drop off xs))
unfolding slice
slice_ok xs off n h = rw (le→leb (off + n) (length xs) h)

pub slice_fault : (xs : Bytes) (off n : ℕ) → length xs < off + n → slice xs off n ≡ fault
unfolding slice
slice_fault xs off n h = ground arith

pub patch_ok :
    (off : ℕ) (src dst : Bytes)
    → off + length src ≤ length dst
    → patch off src dst ≡ ok (splice off src dst)
unfolding patch
patch_ok off src dst h = rw (le→leb (off + length src) (length dst) h)

pub patch_fault :
    (off : ℕ) (src dst : Bytes) → length dst < off + length src → patch off src dst ≡ fault
unfolding patch
patch_fault off src dst h = ground arith

pub length-splice :
    (off : ℕ) (src dst : Bytes)
    → off + length src ≤ length dst
    → length (splice off src dst) ≡ length dst
length-splice off src dst h = omega (
  arith,
  length-append (take off dst) (src ++ drop (off + length src) dst),
  length-append src (drop (off + length src) dst),
  length-take off dst,
  length-drop (off + length src) dst,
)

-- Writing over a part of the same length that stands behind `xs`.
pub splice-append :
    (xs old ys src : Bytes) (off : ℕ)
    → off ≡ length xs
    → length src ≡ length old
    → splice off src (xs ++ (old ++ ys)) ≡ xs ++ (src ++ ys)
splice-append xs old ys src off e l =
    ap₂ (λ a b. a ++ (src ++ b))
      (take-append_add xs (old ++ ys) off 0 (omega arith) ∙ append-nil xs)
      (drop-append_add xs (old ++ ys) (off + length src) (length old) (omega arith)
        ∙ drop-append_exact old ys)

pub slice-append :
    (xs ys zs : Bytes) (off n : ℕ)
    → off ≡ length xs
    → n ≡ length ys
    → slice (xs ++ (ys ++ zs)) off n ≡ ok ys
slice-append xs ys zs off n e l =
    slice_ok (xs ++ (ys ++ zs)) off n
      (omega (arith, length-append xs (ys ++ zs), length-append ys zs))
    ∙ ap ok (
        ap (take n) (drop-append_add xs (ys ++ zs) off 0 (omega arith))
        ∙ take-append_add ys zs n 0 (omega arith)
        ∙ append-nil ys)

-- Writing behind `xs`.
pub splice-extend :
    (xs r src : Bytes) (off : ℕ)
    → off ≡ length xs
    → splice off src (xs ++ r) ≡ xs ++ (src ++ drop (length src) r)
splice-extend xs r src off e =
    ap₂ (λ a b. a ++ (src ++ b)) (take-append_add xs r off 0 (omega arith) ∙ append-nil xs)
      (drop-append_add xs r (off + length src) (length src) (omega arith))
