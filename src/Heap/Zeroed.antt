-- ===== src/Heap/Zeroed.antt =====
-- `calloc`: the memory that it clears.
use kagami_os.Prelude.{
  ℕ, zero, suc, ◌+◌, ◌*◌, ◌^◌, ◌<◌, ◌≡◌, ◌∙◌, some, arith, u64, ltb, ◌==◌, leb, ◌&&◌, if◌then◌else◌,
}
use kagami_os.Heap.{HeapState, Memory, malloc, calloc, zero_bytes, zero_block}
use kagami_os.Heap.Bounds.{IsValid, malloc-some}

-- The loop clears the addresses from `b + i` to `b + i + n`, and no other.
zero_bytes_lem :
    (n b i : ℕ) (m : Memory) (a : ℕ)
    → b + i + n < 2 ^ 64
    → zero_bytes n b i m a ≡ (if leb (b + i) a && ltb a (b + i + n) then 0 else m a)
unfolding zero_bytes
zero_bytes_lem zero b i m a h = ground arith
zero_bytes_lem (suc n) b i m a h =
    ground (arith, zero_bytes_lem n b (i + 1) (λ c. if c == u64 (b + i) then 0 else m c) a)

-- A block that `calloc` returns reads as zero throughout, every other byte keeps its value, and the
-- heap moved by exactly `nmemb * size` bytes; the product must not wrap.
pub calloc_zeroed :
    (h : HeapState) (m : Memory) (nmemb size p a : ℕ)
    → IsValid h
    → nmemb * size + h.heap_size < 2 ^ 64
    → (calloc h m nmemb size).0 ≡ some p
    → ((calloc h m nmemb size).2 a ≡ (if leb p a && ltb a (p + nmemb * size) then 0 else m a))
      × ((calloc h m nmemb size).1.used ≡ h.used + nmemb * size)
unfolding calloc zero_block
calloc_zeroed h m nmemb size p a v small e =
    let total = nmemb * size in
    let fits : u64 total ≡ total = omega arith in
    let e' : (malloc h total).0 ≡ some p = rw fits at e in
    let got = malloc-some h total v small e' in
    rw (fits, e') (zero_bytes_lem total p 0 m a (omega (arith, got)) ∙ ground (arith, got), got.3)
