-- ===== src/Keyboard/Tests.antt =====
-- Runs of the keyboard, and its theorems at concrete states and ports.
use kagami_os.Prelude.{ℕ, ◌≡◌, refl, true, List, [], ◌∷◌, arith, ◌==◌, if◌then◌else◌}
use kagami_os.Keyboard.{
  KeyboardState, ascii_of, kb_state, Ports, ps2_init, keyboard_getchar, enabled, flush_output,
  send_when_clear, ps2_wait_input_clear, ps2_wait_output_full,
}
use kagami_os.Keyboard.Window.{window}
use kagami_os.Keyboard.Queue.{
  IsValid, view, Event, scancode, read, run, run_queue, run-queue, seen, wait_key,
  keyboard_getchar-wait_key,
}

-- the buffer about to wrap, with shift held
abbrev wrapping : KeyboardState
wrapping = record kb_state { read_pos = 127; write_pos = 127; shift_pressed = true }

wrapping-IsValid : IsValid wrapping
wrapping-IsValid = (refl, omega arith, omega arith)

-- `h`, release of shift, `h`, then three reads
abbrev keys : List Event
keys = scancode 35 ∷ scancode 0xaa ∷ scancode 35 ∷ read ∷ read ∷ read ∷ []

keys_run : run_queue keys (view wrapping) ≡ b'H' ∷ b'h' ∷ 0 ∷ []
unfolding run_queue ascii_of window
keys_run = refl

run-queue_example : run keys wrapping ≡ run_queue keys (view wrapping)
run-queue_example = run-queue keys wrapping wrapping-IsValid

-- a controller that is always ready, which answers 0x51, and the writes it has seen
abbrev ready : Ports (List (ℕ × ℕ))
ready = record {
  inb = λ d port. (if port == 0x60 then 0x51 else 1, d);
  outb = λ d port value. (port, value) ∷ d;
}

enabled_runs : (enabled ready 0x10 ≡ 1) × (enabled ready 0x52 ≡ 0x43)
unfolding enabled
enabled_runs = (refl, refl)

ps2_init_runs :
    ps2_init ready []
    ≡ (0x60, 0xf4) ∷ (0x64, 0xae) ∷ (0x60, 0x41) ∷ (0x64, 0x60) ∷ (0x64, 0x20) ∷ (0x64, 0xad) ∷ []
unfolding ps2_init flush_output send_when_clear ps2_wait_input_clear ps2_wait_output_full enabled
ps2_init_runs = refl

keyboard_getchar-wait_key_example :
    seen (keyboard_getchar (0x2a ∷ 35 ∷ 36 ∷ []) kb_state)
    ≡ wait_key (0x2a ∷ 35 ∷ 36 ∷ []) (view kb_state)
keyboard_getchar-wait_key_example =
    keyboard_getchar-wait_key (0x2a ∷ 35 ∷ 36 ∷ []) kb_state (refl, omega arith, omega arith)
