-- ===== src/Storage/Journal.antt =====
-- A device that meets the assumptions on devices: it remembers every write.
use mathlib.Core.Option.{some-injective}
use kagami_os.Prelude.{
  ℕ, ◌+◌, ◌*◌, ◌≤◌, ◌≡◌, ◌⊎◌, inl, inr, refl, ap, sym, ◌∙◌, zero, suc, Bool, true, false, ◌&&◌,
  ◌||◌, Option, none, some, List, [], ◌∷◌, arith, length, length-replicate, replicate, leb, ◌==◌,
  if◌then◌else◌, Bool-cases,
}
use kagami_os.Prelude.Bytes.{Bytes}
use kagami_os.Storage.{BlockDevice, IsDevice}

-- A medium is the writes made to it, newest first; untouched sectors read as zero. A read that
-- overlaps a write without being the same range fails.
abbrev pub Medium : Type 0
Medium = List (ℕ × ℕ × Bytes)

abbrev apart : (at n lba count : ℕ) → Bool
apart at n lba count = leb (at + n) lba || leb (lba + count) at

unfoldable pub find : Medium → ℕ → ℕ → Option Bytes
find [] at n = some (replicate (n * 512) 0)
find ((lba, count, buf) ∷ d) at n =
    if apart at n lba count
    then find d at n
    else if at == lba && (n == count && length buf == n * 512)
    then some buf
    else none

unfoldable pub recall : Medium → ℕ → ℕ → Option Bytes
recall d at n = if n == 0 then some [] else find d at n

unfoldable pub record_write : Medium → ℕ → ℕ → Bytes → Bool × Medium
record_write d lba count buf = (true, (lba, count, buf) ∷ d)

abbrev pub journal : BlockDevice Medium
journal = record { total_sectors = 64; read = some recall; write = some record_write }

abbrev exact : (at n lba count : ℕ) → Bytes → Bool
exact at n lba count buf = at == lba && (n == count && length buf == n * 512)

exact-length :
    (at n lba count : ℕ) (buf : Bytes) → exact at n lba count buf ≡ true → length buf ≡ n * 512
exact-length at n lba count buf e = ground arith

find-length : (d : Medium) (at n : ℕ) (buf : Bytes) → find d at n ≡ some buf → length buf ≡ n * 512
unfolding find
find-length [] at n buf e =
    sym (ap length (some-injective _ buf e)) ∙ length-replicate {A = ℕ} (n * 512) 0
find-length ((lba, count, w) ∷ d) at n buf e = elim (Bool-cases (apart at n lba count)) [
  | inl far ↦ find-length d at n buf (rw far at e)
  | inr near ↦ elim (Bool-cases (exact at n lba count w)) [
    | inl same ↦
        ap length (sym (some-injective w buf (rw (near, same) at e)))
        ∙ exact-length at n lba count w same
    | inr other ↦ absurd (cc (rw (near, other) at e))
  ]
]

recall-length :
    (d : Medium) (at n : ℕ) (buf : Bytes) → recall d at n ≡ some buf → length buf ≡ n * 512
unfolding recall
recall-length d at n buf e = elim (Bool-cases (n == 0)) [
  | inl empty ↦ ap length (sym (some-injective [] buf (rw empty at e))) ∙ ground arith
  | inr some' ↦ find-length d at n buf (rw some' at e)
]

recall-back :
    (d : Medium) (lba count : ℕ) (buf : Bytes)
    → length buf ≡ count * 512
    → recall ((lba, count, buf) ∷ d) lba count ≡ some buf
unfolding recall find
recall-back d lba zero [] len = refl
recall-back d lba zero (x ∷ buf) len = absurd (omega arith)
recall-back d lba (suc count) buf len =
    let near : apart lba (suc count) lba (suc count) ≡ false = ground arith in
    let same : exact lba (suc count) lba (suc count) buf ≡ true = ground arith in
    let some' : (suc count == 0) ≡ false = ground arith in rw (near, same, some')

recall-elsewhere :
    (d : Medium) (lba count at n : ℕ) (buf : Bytes)
    → (at + n ≤ lba) ⊎ (lba + count ≤ at)
    → recall ((lba, count, buf) ∷ d) at n ≡ recall d at n
unfolding recall find
recall-elsewhere d lba count at n buf disjoint =
    let far : apart at n lba count ≡ true = ground arith in rw far

-- the medium after a write by a function that is `record_write`
written_to :
    {write : Medium → ℕ → ℕ → Bytes → Bool × Medium} {d d' : Medium} {lba count : ℕ} {buf : Bytes}
    → journal.write ≡ some write
    → write d lba count buf ≡ (true, d')
    → (lba, count, buf) ∷ d ≡ d'
unfolding record_write
written_to {write} {d} {d'} {lba} {count} {buf} writes done =
    let is = some-injective record_write write writes in
    ap (λ (r : Bool × Medium). r.1) (rw (← is) at done)

pub journal-IsDevice : IsDevice journal
journal-IsDevice = record {
  whole = λ {read} {d} {lba} {count} {buf} reads e.
      recall-length d lba count buf (rw (some-injective recall read reads) e);
  read_back = λ {read} {write} {d} {d'} {lba} {count} {buf} reads writes len done.
      rw (← some-injective recall read reads, ← written_to writes done)
        (recall-back d lba count buf len);
  elsewhere = λ {read} {write} {d} {d'} {lba} {count} {at} {n} {buf} reads writes done disjoint.
      rw (← some-injective recall read reads, ← written_to writes done)
        (recall-elsewhere d lba count at n buf disjoint);
}
