-- ===== src/Heap/Trace.antt =====
-- Any sequence of requests: the blocks that `malloc` hands out never overlap.
use mathlib.Core.Path.{subst, subst₂}
use kagami_os.Prelude.{
  ℕ, ◌+◌, ◌^◌, ◌≤◌, ◌<◌, ◌≡◌, refl, ap₂, ◌∙◌, ◌⊎◌, inl, Option, none, some, List, [], ◌∷◌, arith,
  All,
}
use kagami_os.Heap.{HeapState, malloc}
use kagami_os.Heap.Bounds.{IsValid, malloc-IsValid, malloc-Allocated, Allocated}

-- a block: its first address and its size
abbrev pub Block : Type 0
Block = ℕ × ℕ

abbrev note : ℕ → Option ℕ → List Block → List Block
note size none bs = bs
note size (some p) bs = (p, size) ∷ bs

-- the blocks handed out by the requests, first to last, and the heap after them
unfoldable pub requests : HeapState → List ℕ → List Block × HeapState
requests h [] = ([], h)
requests h (size ∷ sizes) =
    let (ptr, h') = malloc h size in let (bs, h'') = requests h' sizes in (note size ptr bs, h'')

-- the two blocks share no byte
abbrev pub Apart : Block → Block → Type 0
Apart (p, n) (q, k) = (p + n ≤ q) ⊎ (q + k ≤ p)

abbrev pub PairwiseApart : List Block → Type 0
PairwiseApart [] = Unit
PairwiseApart (b ∷ bs) = All (Apart b) bs × PairwiseApart bs

-- the block is not empty and lies between the addresses
abbrev pub Inside : ℕ → ℕ → Block → Type 0
Inside lo hi (p, n) = (lo ≤ p) × (0 < n) × (p + n ≤ hi)

Inside-weaken :
    (lo lo' hi : ℕ) (bs : List Block) → lo' ≤ lo → All (Inside lo hi) bs → All (Inside lo' hi) bs
Inside-weaken lo lo' hi [] le h = tt
Inside-weaken lo lo' hi ((p, n) ∷ bs) le (h, t) = (omega arith, Inside-weaken lo lo' hi bs le t)

Inside-Apart : (p n hi : ℕ) (bs : List Block) → All (Inside (p + n) hi) bs → All (Apart (p, n)) bs
Inside-Apart p n hi [] h = tt
Inside-Apart p n hi ((q, k) ∷ bs) (h, t) = (inl h.0, Inside-Apart p n hi bs t)

-- what a run of requests from `h` guarantees
abbrev pub Good : HeapState → List Block × HeapState → Type 0
Good h (bs, h') =
    PairwiseApart bs × All (Inside h.heap_ptr (h.heap_start + h.heap_size)) bs × IsValid h'

-- one request in front of a good run
Good-step :
    (h : HeapState) (size : ℕ) (sizes : List ℕ) (r : Option ℕ × HeapState)
    → Allocated h size r
    → Good r.1 (requests r.1 sizes)
    → Good h (note size r.0 (requests r.1 sizes).0, (requests r.1 sizes).1)
Good-step h size sizes (none, h') (same, _) ih = (
  ih.0,
  subst (λ k. All (Inside k.heap_ptr (k.heap_start + k.heap_size)) (requests h' sizes).0) same ih.1,
  ih.2,
)
Good-step h size sizes (some p, h') (at, pos, ends, ptr, used, start, cap) (apart, inside, v) =
    let hi = h.heap_start + h.heap_size in
    let above : All (Inside (p + size) hi) (requests h' sizes).0 =
      subst₂ (λ lo top. All (Inside lo top) (requests h' sizes).0) ptr (ap₂ ◌+◌ start cap) inside in
    (
      (Inside-Apart p size hi _ above, apart),
      ((omega arith, pos, ends), Inside-weaken (p + size) h.heap_ptr hi _ (omega arith) above),
      v,
    )

heap_size-malloc : (h : HeapState) (size : ℕ) → (malloc h size).1.heap_size ≡ h.heap_size
unfolding malloc
heap_size-malloc h size = ground arith

Good-requests :
    (cap : ℕ) (h : HeapState) (sizes : List ℕ)
    → IsValid h
    → h.heap_size ≡ cap
    → All (λ size. size + cap < 2 ^ 64) sizes
    → Good h (requests h sizes)
unfolding requests
Good-requests cap h [] v e small = (tt, tt, v)
Good-requests cap h (size ∷ sizes) v e (s, small) =
    Good-step h size sizes (malloc h size) (malloc-Allocated h size v (omega arith)) (
      Good-requests cap (malloc h size).1 sizes (malloc-IsValid h size v (omega arith))
        (heap_size-malloc h size ∙ e) small)

-- For any sequence of `malloc` calls on a valid heap, none of whose sizes comes within the heap's
-- size of 2 ^ 64, the blocks handed out are pairwise disjoint, none is empty, all lie between the
-- first free byte and the heap's end, and the heap stays valid.
pub requests_disjoint :
    (h : HeapState) (sizes : List ℕ)
    → IsValid h
    → All (λ size. size + h.heap_size < 2 ^ 64) sizes
    → PairwiseApart (requests h sizes).0
      × All (Inside h.heap_ptr (h.heap_start + h.heap_size)) (requests h sizes).0
      × IsValid (requests h sizes).1
requests_disjoint h sizes v small = Good-requests h.heap_size h sizes v refl small
