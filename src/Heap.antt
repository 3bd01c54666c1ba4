-- ===== src/Heap.antt =====
-- kernel/core/heap.c, the bump allocator of the kernel: its state, `malloc`, `calloc`, `free` and
-- the line that `heap_stats` prints. Addresses and sizes are `size_t`, so sums wrap at 2 ^ 64.
pub mod Bounds
pub mod Zeroed
pub mod Trace
pub mod Decimal
mod Tests
use kagami_os.Prelude.{
  ℕ, zero, suc, ◌+◌, ◌*◌, ◌/◌, ◌%◌, Bool, true, false, Option, none, some, List, [], ◌∷◌, ◌++◌, ltb,
  ◌==◌, if◌then◌else◌, u64,
}
use kagami_os.Prelude.Text.{codes}

abbrev pub heap_start_address : ℕ
heap_start_address = 0x110000

abbrev pub heap_bytes : ℕ
heap_bytes = 0x100000

-- `HEAP_STATE`
pub record HeapState : Type 0 where
  pub heap_start : ℕ
  pub heap_ptr : ℕ
  pub heap_size : ℕ
  pub used : ℕ

-- the initial value of the static `heap`
abbrev pub boot_heap : HeapState
boot_heap = record {
  heap_start = heap_start_address;
  heap_ptr = heap_start_address;
  heap_size = heap_bytes;
  used = 0;
}

pub heap_init : HeapState → HeapState
heap_init h = record h { heap_ptr = h.heap_start; used = 0 }

-- `none` is NULL.
unfoldable pub malloc : HeapState → ℕ → Option ℕ × HeapState
malloc h size =
    if size == 0 then (none, h) else if ltb h.heap_size (u64 (h.used + size)) then (none, h) else (
      some h.heap_ptr,
      record h { heap_ptr = u64 (h.heap_ptr + size); used = u64 (h.used + size) },
    )

-- The allocator never takes memory back.
unfoldable pub free : HeapState → Option ℕ → HeapState
free h ptr = h

-- memory, byte by byte
abbrev pub Memory : Type 0
Memory = ℕ → ℕ

-- `b[i] = 0` for the `n` values of `i` from `i` on
pub zero_bytes : ℕ → ℕ → ℕ → Memory → Memory
zero_bytes zero b i m = m
zero_bytes (suc n) b i m = zero_bytes n b (i + 1) (λ a. if a == u64 (b + i) then 0 else m a)

-- the tail of `calloc`, once `malloc` has returned
pub zero_block : ℕ → Option ℕ → Memory → Memory
zero_block total none m = m
zero_block total (some b) m = zero_bytes total b 0 m

unfoldable pub calloc : HeapState → Memory → ℕ → ℕ → Option ℕ × HeapState × Memory
calloc h m nmemb size =
    let total_size = u64 (nmemb * size) in
    let (ptr, h') = malloc h total_size in (ptr, h', zero_block total_size ptr m)

-- The two loops of `append_uint_dec`: `tmp` is written upwards and read downwards, so the last
-- digit found stands first. `room` is what is left of `sizeof(tmp)`.
pub digit_loop : (room value : ℕ) → List ℕ → List ℕ
digit_loop zero value tmp = tmp
digit_loop (suc room) value tmp =
    let rest = digit_loop room (value / 10) ((b'0' + value % 10) ∷ tmp) in
    if value == 0 then tmp else rest

-- What `append_uint_dec` leaves in the buffer that held `buf`.
unfoldable pub append_uint_dec : List ℕ → ℕ → List ℕ
append_uint_dec buf value = if value == 0 then buf ++ (b'0' ∷ []) else buf ++ digit_loop 20 value []

-- The text that `heap_stats` sends to the serial port, without its final zero.
pub heap_stats : HeapState → List ℕ
heap_stats h =
    let buf = append_uint_dec (codes "Heap: ") (h.used / 1024) in
    let buf = append_uint_dec (buf ++ codes "KB / ") (heap_bytes / 1024) in
    buf ++ (codes "KB" ++ (10 ∷ []))

pub heap_used : HeapState → ℕ
heap_used h = h.used

pub heap_total : HeapState → ℕ
heap_total h = h.heap_size
