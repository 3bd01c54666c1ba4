-- ===== src/Keyboard/Queue.antt =====
-- The keyboard's ring buffer against a queue of at most 127 keys, for any interleaving of scancodes
-- and reads.
use kagami_os.Prelude.{
  ℕ, suc, ◌+◌, ◌-◌, ◌%◌, ◌<◌, ◌≡◌, refl, ap, ap₂, ◌∙◌, Bool, true, false, ◌||◌, Option, none, some,
  List, [], ◌∷◌, ◌++◌, arith, length, length-set, ltb, ◌==◌, if◌then◌else◌, has_bit, set, get_or,
  Bool-cases, inl, inr,
}
use kagami_os.Keyboard.{
  KeyboardState, ascii_of, put_key, keyboard_process_scancode, keyboard_has_key, next_key,
  keyboard_getchar_nonblock, keyboard_getchar, keyboard_init, Ports,
}
use kagami_os.Keyboard.Window.{window, window_mod, window_put, length-window}

abbrev pub IsValid : KeyboardState → Type 0
IsValid s = (length s.buffer ≡ 128) × (s.read_pos < 128) × (s.write_pos < 128)

abbrev pub held : KeyboardState → ℕ
held s = (s.write_pos + 128 - s.read_pos) % 128

-- the keys that are still to be read, oldest first
abbrev pub pending : KeyboardState → List ℕ
pending s = window s.buffer s.read_pos (held s)

-- The keyboard as its shift key and a queue.
pub record Typed : Type 0 where
  pub shift : Bool
  pub keys : List ℕ

abbrev pub typed : Bool → List ℕ → Typed
typed b ks = record { shift = b; keys = ks }

-- A queue of at most 127 keys.
abbrev pub enqueue : ℕ → List ℕ → List ℕ
enqueue c ks = if c == 0 then ks else if ltb (length ks) 127 then ks ++ (c ∷ []) else ks

abbrev pub press : ℕ → Typed → Typed
press sc t =
    if (sc == 0x2a) || (sc == 0x36)
    then typed true t.keys
    else if (sc == 0xaa) || (sc == 0xb6)
    then typed false t.keys
    else if (sc == 0x1d) || (sc == 0x9d) || (sc == 0x38) || (sc == 0xb8) || has_bit sc 7
    then t
    else typed t.shift (enqueue (ascii_of t.shift sc) t.keys)

abbrev pub read_key : Typed → ℕ × Typed
read_key t = elim t.keys [ [] ↦ (0, t) | c ∷ ks ↦ (c, typed t.shift ks) ]

abbrev pub view : KeyboardState → Typed
view s = typed s.shift_pressed (pending s)

pending-put_key :
    (c : ℕ) (s : KeyboardState) → IsValid s → pending (put_key c s) ≡ enqueue c (pending s)
unfolding put_key
pending-put_key c s (len, r, w) = elim (Bool-cases (c == 0)) [
  | inl nul ↦ rw nul refl
  | inr char ↦ elim (Bool-cases ((s.write_pos + 1) % 128 == s.read_pos)) [
    | inl full ↦
        let no_room : ltb (length (pending s)) 127 ≡ false =
          ground (arith, length-window s.buffer s.read_pos (held s)) in
        rw (char, full, no_room) refl
    | inr room ↦
        let fits : ltb (length (pending s)) 127 ≡ true =
          ground (arith, length-window s.buffer s.read_pos (held s)) in
        let more : ((s.write_pos + 1) % 128 + 128 - s.read_pos) % 128 ≡ suc (held s) =
          ground arith in
        rw (char, room, fits)
          (ap (window (set s.buffer s.write_pos c) s.read_pos) more
            ∙ window_put s.buffer s.read_pos (held s) s.write_pos c len (omega arith) (omega arith))
  ]
]

put_key-IsValid : (c : ℕ) (s : KeyboardState) → IsValid s → IsValid (put_key c s)
unfolding put_key
put_key-IsValid c s v = ground (arith, length-set s.buffer s.write_pos c)

put_key_shift : (c : ℕ) (s : KeyboardState) → (put_key c s).shift_pressed ≡ s.shift_pressed
unfolding put_key
put_key_shift c s = ground arith

-- One scancode, seen as the abstract keyboard.
pub process-view :
    (sc : ℕ) (s : KeyboardState)
    → IsValid s
    → IsValid (keyboard_process_scancode sc s)
      × (view (keyboard_process_scancode sc s) ≡ press sc (view s))
unfolding keyboard_process_scancode
process-view sc s v =
    let c : ℕ = ascii_of s.shift_pressed sc in
    let queued : view (put_key c s) ≡ typed s.shift_pressed (enqueue c (pending s)) =
      ap₂ typed (put_key_shift c s) (pending-put_key c s v) in
    ground (arith, put_key-IsValid c s v)

pub held_zero : (s : KeyboardState) → IsValid s → keyboard_has_key s ≡ false → pending s ≡ []
unfolding keyboard_has_key window
held_zero s v e = let none_left : held s ≡ 0 = ground arith in rw none_left refl

pub next_key_lem :
    (s : KeyboardState)
    → IsValid s
    → keyboard_has_key s ≡ true
    → IsValid (next_key s).1 × (pending s ≡ (next_key s).0 ∷ pending (next_key s).1)
unfolding keyboard_has_key next_key window
next_key_lem s v e =
    let more : held s ≡ suc (held (next_key s).1) = ground arith in
    (
      omega arith,
      ap (window s.buffer s.read_pos) more
          ∙ ap₂ (λ i xs. get_or s.buffer i 0 ∷ xs) (omega arith)
              (window_mod s.buffer (s.read_pos + 1) ((s.read_pos + 1) % 128) (held (next_key s).1)
                (omega arith)),
    )

pub getchar_nonblock-view :
    (s : KeyboardState)
    → IsValid s
    → IsValid (keyboard_getchar_nonblock s).1
      × ((keyboard_getchar_nonblock s).0 ≡ (read_key (view s)).0)
      × (view (keyboard_getchar_nonblock s).1 ≡ (read_key (view s)).1)
unfolding keyboard_getchar_nonblock
getchar_nonblock-view s v = elim (Bool-cases (keyboard_has_key s)) [
  | inl some_key ↦
      let (v', front) = next_key_lem s v some_key in rw (some_key, front) (v', refl, refl)
  | inr no_key ↦ rw (no_key, held_zero s v no_key) (v, refl, refl)
]

-- What happens to the keyboard: an interrupt with a scancode, or a read that does not wait.
pub data Event : Type 0 where
  scancode : ℕ → Event
  read : Event

-- The keys that the reads return, in order.
unfoldable pub run : List Event → KeyboardState → List ℕ
run [] s = []
run (scancode sc ∷ es) s = run es (keyboard_process_scancode sc s)
run (read ∷ es) s = let (c, s') = keyboard_getchar_nonblock s in c ∷ run es s'

unfoldable pub run_queue : List Event → Typed → List ℕ
run_queue [] t = []
run_queue (scancode sc ∷ es) t = run_queue es (press sc t)
run_queue (read ∷ es) t = let (c, t') = read_key t in c ∷ run_queue es t'

-- From any valid state, whatever scancodes and reads follow one another, the reads return what
-- they return on the queue of at most 127 keys that holds the keys still to be read.
pub run-queue : (es : List Event) (s : KeyboardState) → IsValid s → run es s ≡ run_queue es (view s)
unfolding run run_queue
run-queue [] s v = refl
run-queue (scancode sc ∷ es) s v =
    let (v', same) = process-view sc s v in
    run-queue es (keyboard_process_scancode sc s) v' ∙ ap (run_queue es) same
run-queue (read ∷ es) s v =
    let (v', c, same) = getchar_nonblock-view s v in
    ap₂ (λ a xs. a ∷ xs) c
      (run-queue es (keyboard_getchar_nonblock s).1 v' ∙ ap (run_queue es) same)

-- After `keyboard_init`, whatever the controller answers and whatever the 128 bytes of the buffer
-- held, every interleaving of scancodes and reads runs as on the empty queue with shift released.
pub keyboard_init-run :
    {D : Type 0} (ports : Ports D) (s : KeyboardState) (d : D) (es : List Event)
    → length s.buffer ≡ 128
    → run es (keyboard_init ports s d).0 ≡ run_queue es (typed false [])
unfolding keyboard_init window
keyboard_init-run ports s d es len = run-queue es (keyboard_init ports s d).0 (omega arith)

-- The waiting read on the queue: the oldest key, after as many scancodes as it takes to have one.
abbrev pub wait_from : Typed → List ℕ → List ℕ → Option ((ℕ × Typed) × List ℕ)
wait_from t (c ∷ ks) scs = some ((c, typed t.shift ks), scs)
wait_from t [] [] = none
wait_from t [] (sc ∷ scs) = let t' = press sc t in wait_from t' t'.keys scs

abbrev pub wait_key : List ℕ → Typed → Option ((ℕ × Typed) × List ℕ)
wait_key scs t = wait_from t t.keys scs

abbrev pub seen : Option ((ℕ × KeyboardState) × List ℕ) → Option ((ℕ × Typed) × List ℕ)
seen none = none
seen (some ((c, s), scs)) = some ((c, view s), scs)

-- `keyboard_getchar` returns, from any valid state and for any scancodes that come while it waits,
-- what the waiting read on the queue returns, and nothing while that one waits; it is left with the same queue and scancodes.
pub keyboard_getchar-wait_key :
    (scs : List ℕ) (s : KeyboardState)
    → IsValid s
    → seen (keyboard_getchar scs s) ≡ wait_key scs (view s)
unfolding keyboard_getchar next_key
keyboard_getchar-wait_key [] s v = elim (Bool-cases (keyboard_has_key s)) [
  | inl some_key ↦ rw (some_key, (next_key_lem s v some_key).1) refl
  | inr no_key ↦ rw (no_key, held_zero s v no_key) refl
]
keyboard_getchar-wait_key (sc ∷ scs) s v = elim (Bool-cases (keyboard_has_key s)) [
  | inl some_key ↦ rw (some_key, (next_key_lem s v some_key).1) refl
  | inr no_key ↦
      let (v', same) = process-view sc s v in
      rw (no_key, held_zero s v no_key)
        (keyboard_getchar-wait_key scs (keyboard_process_scancode sc s) v'
          ∙ ap (wait_key scs)
              (same ∙ ap (λ ks. press sc (typed s.shift_pressed ks)) (held_zero s v no_key)))
]
