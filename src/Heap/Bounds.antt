-- ===== src/Heap/Bounds.antt =====
-- The heap's invariant, what `malloc` returns, and what happens when `used + size` wraps.
use kagami_os.Prelude.{ℕ, ◌+◌, ◌-◌, ◌^◌, ◌≤◌, ◌<◌, ◌≡◌, ◌⊎◌, Option, none, some, arith}
use kagami_os.Heap.{HeapState, boot_heap, heap_init, malloc}

-- `heap_ptr` and `used` tell the same position, which lies in the heap.
pub record IsValid (h : HeapState) : Type 0 where
  pub position : h.heap_ptr ≡ h.heap_start + h.used
  pub within : h.used ≤ h.heap_size
  pub addresses : h.heap_start + h.heap_size < 2 ^ 64

boot_heap-IsValid : IsValid boot_heap
boot_heap-IsValid = omega arith

-- `heap_init` of a valid heap is valid and empty, with the same bounds.
pub heap_init-IsValid :
    (h : HeapState) → IsValid h → IsValid (heap_init h) × ((heap_init h).used ≡ 0)
unfolding heap_init
heap_init-IsValid h v = omega arith

-- `malloc` keeps the invariant, whether it returns a block or NULL, for every size that does not
-- come within the heap's own size of 2 ^ 64.
pub malloc-IsValid :
    (h : HeapState) (size : ℕ) → IsValid h → size + h.heap_size < 2 ^ 64 → IsValid (malloc h size).1
unfolding malloc
malloc-IsValid h size v small = ground arith

-- What a call of `malloc` did: nothing, or it took the `size` bytes from `p` on.
abbrev pub Allocated : HeapState → ℕ → Option ℕ × HeapState → Type 0
Allocated h size (none, h') = (h' ≡ h) × ((size ≡ 0) ⊎ (h.heap_size < h.used + size))
Allocated h size (some p, h') =
    (p ≡ h.heap_ptr)
    × (0 < size)
    × (p + size ≤ h.heap_start + h.heap_size)
    × (h'.heap_ptr ≡ p + size)
    × (h'.used ≡ h.used + size)
    × (h'.heap_start ≡ h.heap_start)
    × (h'.heap_size ≡ h.heap_size)

-- On a valid heap, for a size that does not come within the heap's own size of 2 ^ 64: `malloc`
-- returns NULL only for size 0 or when the bytes left do not suffice, and then changes nothing;
-- otherwise it returns the first free byte, the block ends within the heap, and both counters move
-- by exactly `size`.
pub malloc-Allocated :
    (h : HeapState) (size : ℕ)
    → IsValid h
    → size + h.heap_size < 2 ^ 64
    → Allocated h size (malloc h size)
unfolding malloc
malloc-Allocated h size v small = ground arith

-- The check of `malloc` adds in `size_t`. For a nonzero size with which the sum passes 2 ^ 64 the
-- check succeeds on every valid heap: `malloc` returns a pointer although the bytes left cannot
-- hold the block, and `used` falls.
pub malloc_wrapped :
    (h : HeapState) (size : ℕ)
    → IsValid h
    → size < 2 ^ 64
    → 2 ^ 64 ≤ h.used + size
    → ((malloc h size).0 ≡ some h.heap_ptr)
      × (h.heap_size - h.used < size)
      × ((malloc h size).1.used + (2 ^ 64 - size) ≡ h.used)
      × ((malloc h size).1.used < h.used)
unfolding malloc
malloc_wrapped h size v word wraps = ground arith

pub malloc-some :
    (h : HeapState) (size : ℕ) {p : ℕ}
    → IsValid h
    → size + h.heap_size < 2 ^ 64
    → (malloc h size).0 ≡ some p
    → (p ≡ h.heap_ptr)
      × (0 < size)
      × (p + size ≤ h.heap_start + h.heap_size)
      × ((malloc h size).1.used ≡ h.used + size)
      × ((malloc h size).1.heap_ptr ≡ p + size)
unfolding malloc
malloc-some h size v small e = ground arith
