-- ===== src/Heap/Tests.antt =====
-- Runs of the allocator, and its theorems at concrete heaps.
use kagami_os.Prelude.{
  ◌+◌, ◌*◌, ◌-◌, ◌^◌, ◌<◌, ◌≡◌, refl, ◌&&◌, none, some, [], ◌∷◌, ◌++◌, arith, All, leb, ltb,
  if◌then◌else◌,
}
use kagami_os.Prelude.Text.{codes}
use kagami_os.Heap.{
  HeapState, boot_heap, malloc, calloc, free, heap_init, heap_used, heap_total, append_uint_dec,
  digit_loop, heap_stats,
}
use kagami_os.Heap.Bounds.{IsValid, Allocated, malloc-Allocated, malloc_wrapped}
use kagami_os.Heap.Zeroed.{calloc_zeroed}
use kagami_os.Heap.Trace.{requests, requests_disjoint, PairwiseApart, Inside}

-- a heap with 4096 bytes in use
abbrev later : HeapState
later = record boot_heap { heap_ptr = 0x111000; used = 0x1000 }

boot-IsValid : IsValid boot_heap
boot-IsValid = omega arith

later-IsValid : IsValid later
later-IsValid = omega arith

malloc_runs :
    malloc later 100 ≡ (some 0x111000, record later { heap_ptr = 0x111064; used = 0x1064 })
unfolding malloc
malloc_runs = refl

malloc_full : malloc later 0x100000 ≡ (none, later)
unfolding malloc
malloc_full = refl

heap_init_runs : heap_init later ≡ boot_heap
unfolding heap_init
heap_init_runs = refl

heap_stats_runs : heap_stats later ≡ codes "Heap: 4KB / 1024KB" ++ (10 ∷ [])
unfolding heap_stats append_uint_dec digit_loop
heap_stats_runs = refl

counters : (heap_used (free later (some 0x110000)) ≡ 0x1000) × (heap_total later ≡ 0x100000)
unfolding heap_used heap_total free
counters = (refl, refl)

malloc-Allocated_example : Allocated later 100 (malloc later 100)
malloc-Allocated_example = malloc-Allocated later 100 later-IsValid (omega arith)

malloc_wrapped_example :
    ((malloc later (2 ^ 64 - 1)).0 ≡ some 0x111000)
    × (0xff000 < 2 ^ 64 - 1)
    × ((malloc later (2 ^ 64 - 1)).1.used + 1 ≡ 0x1000)
    × ((malloc later (2 ^ 64 - 1)).1.used < 0x1000)
malloc_wrapped_example = malloc_wrapped later (2 ^ 64 - 1) later-IsValid (omega arith) (omega arith)

calloc_zeroed_example :
    ((calloc later (λ a. 7) 3 4).2 0x111003
      ≡ (if leb 0x111000 0x111003 && ltb 0x111003 (0x111000 + 3 * 4) then 0 else 7))
    × ((calloc later (λ a. 7) 3 4).1.used ≡ 0x1000 + 3 * 4)
unfolding calloc malloc
calloc_zeroed_example =
    calloc_zeroed later (λ a. 7) 3 4 0x111000 0x111003 later-IsValid (omega arith) refl

requests_disjoint_example :
    PairwiseApart (requests boot_heap (16 ∷ 0 ∷ 5 ∷ [])).0
    × All (Inside 0x110000 (0x110000 + 0x100000)) (requests boot_heap (16 ∷ 0 ∷ 5 ∷ [])).0
    × IsValid (requests boot_heap (16 ∷ 0 ∷ 5 ∷ [])).1
requests_disjoint_example = requests_disjoint boot_heap (16 ∷ 0 ∷ 5 ∷ []) boot-IsValid (omega arith)
