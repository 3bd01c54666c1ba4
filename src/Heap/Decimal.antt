-- ===== src/Heap/Decimal.antt =====
-- `append_uint_dec` prints in decimal: reading the digits back gives the number. What it and
-- `heap_stats` write fits their buffers.
use native.Mathlib.Nat.{pow-suc}
use kagami_os.Prelude.{
  ℕ, zero, suc, ◌+◌, ◌-◌, ◌*◌, ◌/◌, ◌%◌, ◌^◌, ◌≤◌, ◌<◌, ◌≡◌, refl, ◌∙◌, ap, false, inl, inr, List,
  [], ◌∷◌, ◌++◌, arith, length, length-append, Bool-cases, ◌==◌, All,
}
use kagami_os.Prelude.Text.{codes}
use kagami_os.Heap.{HeapState, digit_loop, append_uint_dec, heap_stats, heap_bytes}

-- the number that a row of digits stands for, after `acc`
unfoldable pub read_digits : ℕ → List ℕ → ℕ
read_digits acc [] = acc
read_digits acc (d ∷ ds) = read_digits (acc * 10 + (d - b'0')) ds

abbrev pub IsDigit : ℕ → Type 0
IsDigit d = (b'0' ≤ d) × (d ≤ b'9')

digit_loop-read :
    (room value : ℕ) (tmp : List ℕ)
    → value < 10 ^ room
    → read_digits 0 (digit_loop room value tmp) ≡ read_digits value tmp
unfolding digit_loop read_digits
digit_loop-read zero value tmp h = ap (λ v. read_digits v tmp) (omega arith)
digit_loop-read (suc room) value tmp h = elim (Bool-cases (value == 0)) [
  | inl done ↦ rw done (ap (λ v. read_digits v tmp) (ground arith))
  | inr more ↦ rw more (
      digit_loop-read room (value / 10) ((b'0' + value % 10) ∷ tmp) (omega (arith, pow-suc 10 room))
      ∙ ap (λ v. read_digits v tmp) (omega arith))
]

digit_loop-IsDigit :
    (room value : ℕ) (tmp : List ℕ) → All IsDigit tmp → All IsDigit (digit_loop room value tmp)
unfolding digit_loop
digit_loop-IsDigit zero value tmp h = h
digit_loop-IsDigit (suc room) value tmp h =
    ground (arith, digit_loop-IsDigit room (value / 10) ((b'0' + value % 10) ∷ tmp))

length-digit_loop :
    (room value : ℕ) (tmp : List ℕ) → length (digit_loop room value tmp) ≤ room + length tmp
unfolding digit_loop
length-digit_loop zero value tmp = omega arith
length-digit_loop (suc room) value tmp =
    ground (arith, length-digit_loop room (value / 10) ((b'0' + value % 10) ∷ tmp))

length-digit_loop_pos :
    (room value : ℕ) (tmp : List ℕ) → length tmp ≤ length (digit_loop room value tmp)
unfolding digit_loop
length-digit_loop_pos zero value tmp = omega arith
length-digit_loop_pos (suc room) value tmp =
    ground (arith, length-digit_loop_pos room (value / 10) ((b'0' + value % 10) ∷ tmp))

digit_loop_nonempty :
    (room value : ℕ) → (value == 0) ≡ false → 0 < length (digit_loop (suc room) value [])
unfolding digit_loop
digit_loop_nonempty room value e =
    rw e (omega (arith, length-digit_loop_pos room (value / 10) ((b'0' + value % 10) ∷ [])))

-- `append_uint_dec` leaves what stood in the buffer and appends the decimal digits of the value,
-- between 1 and 20 of them, which read back as the value, for every 64 bit value.
pub append_uint_dec-read :
    (buf : List ℕ) (value : ℕ)
    → value < 2 ^ 64
    → (digits : List ℕ) × (append_uint_dec buf value ≡ buf ++ digits)
      × (read_digits 0 digits ≡ value)
      × All IsDigit digits
      × (0 < length digits)
      × (length digits ≤ 20)
unfolding append_uint_dec read_digits
append_uint_dec-read buf value word = elim (Bool-cases (value == 0)) [
  | inl z ↦ rw z (b'0' ∷ [], refl, ground arith, omega arith, omega arith, omega arith)
  | inr p ↦ rw p (
    digit_loop 20 value [],
    refl,
    digit_loop-read 20 value [] (omega arith),
    digit_loop-IsDigit 20 value [] tt,
    digit_loop_nonempty 19 value p,
    length-digit_loop 20 value [],
  )
]

-- The line of `heap_stats` and its final zero fit `char buf[80]`, whatever `used` is.
pub heap_stats_fits : (h : HeapState) → h.used < 2 ^ 64 → length (heap_stats h) + 1 ≤ 80
unfolding heap_stats
heap_stats_fits h word =
    let (first, e₁, _, _, _, n₁) =
      append_uint_dec-read (codes "Heap: ") (h.used / 1024) (omega arith) in
    let buf = append_uint_dec (codes "Heap: ") (h.used / 1024) ++ codes "KB / " in
    let (second, e₂, _, _, _, n₂) = append_uint_dec-read buf (heap_bytes / 1024) (omega arith) in
    omega (
      arith,
      length-append (append_uint_dec buf (heap_bytes / 1024)) (codes "KB" ++ (10 ∷ [])),
      ap length e₂,
      length-append buf second,
      length-append (append_uint_dec (codes "Heap: ") (h.used / 1024)) (codes "KB / "),
      ap length e₁,
      length-append (codes "Heap: ") first,
    )
