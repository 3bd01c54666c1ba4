-- ===== src/Keyboard.antt =====
-- drivers/input/keyboard.c: the scancode decoder, the ring buffer of decoded keys, and the set-up
-- of the PS/2 controller. `inb` and `outb` are a record of operations on a machine of type `D`.
pub mod Window
pub mod Queue
mod Tests
use kagami_os.Prelude.{
  ℕ, zero, suc, ◌+◌, ◌-◌, ◌*◌, ◌/◌, ◌%◌, Bool, true, false, not, ◌||◌, Option, none, some, List, [],
  ◌∷◌, ltb, ◌==◌, if◌then◌else◌, has_bit, set, get_or, replicate,
}

abbrev pub kb_buffer_size : ℕ
kb_buffer_size = 128

-- `KEYBOARD_STATE`
pub record KeyboardState : Type 0 where
  pub buffer : List ℕ
  pub read_pos : ℕ
  pub write_pos : ℕ
  pub shift_pressed : Bool
  pub ctrl_pressed : Bool
  pub alt_pressed : Bool

-- the static `kb_state`
abbrev pub kb_state : KeyboardState
kb_state = record {
  buffer = replicate kb_buffer_size 0;
  read_pos = 0;
  write_pos = 0;
  shift_pressed = false;
  ctrl_pressed = false;
  alt_pressed = false;
}

abbrev pub scancode_to_ascii_lower : List ℕ
scancode_to_ascii_lower =
    0 ∷ 0 ∷ b'1' ∷ b'2' ∷ b'3' ∷ b'4' ∷ b'5' ∷ b'6' ∷ b'7' ∷ b'8' ∷ b'9' ∷ b'0' ∷ b'-' ∷ b'=' ∷ 8
    ∷ 9 ∷ b'q' ∷ b'w' ∷ b'e' ∷ b'r' ∷ b't' ∷ b'y' ∷ b'u' ∷ b'i' ∷ b'o' ∷ b'p' ∷ b'[' ∷ b']' ∷ 10 ∷ 0
    ∷ b'a' ∷ b's' ∷ b'd' ∷ b'f' ∷ b'g' ∷ b'h' ∷ b'j' ∷ b'k' ∷ b'l' ∷ b';' ∷ 39 ∷ b'`' ∷ 0 ∷ 92
    ∷ b'z' ∷ b'x' ∷ b'c' ∷ b'v' ∷ b'b' ∷ b'n' ∷ b'm' ∷ b',' ∷ b'.' ∷ b'/' ∷ 0 ∷ b'*' ∷ 0 ∷ b' ' ∷ 0
    ∷ 0 ∷ 0 ∷ 0 ∷ 0 ∷ 0 ∷ []

abbrev pub scancode_to_ascii_upper : List ℕ
scancode_to_ascii_upper =
    0 ∷ 0 ∷ b'!' ∷ b'@' ∷ b'#' ∷ b'$' ∷ b'%' ∷ b'^' ∷ b'&' ∷ b'*' ∷ b'(' ∷ b')' ∷ b'_' ∷ b'+' ∷ 8
    ∷ 9 ∷ b'Q' ∷ b'W' ∷ b'E' ∷ b'R' ∷ b'T' ∷ b'Y' ∷ b'U' ∷ b'I' ∷ b'O' ∷ b'P' ∷ b'{' ∷ b'}' ∷ 10 ∷ 0
    ∷ b'A' ∷ b'S' ∷ b'D' ∷ b'F' ∷ b'G' ∷ b'H' ∷ b'J' ∷ b'K' ∷ b'L' ∷ b':' ∷ b'"' ∷ b'~' ∷ 0 ∷ b'|'
    ∷ b'Z' ∷ b'X' ∷ b'C' ∷ b'V' ∷ b'B' ∷ b'N' ∷ b'M' ∷ b'<' ∷ b'>' ∷ b'?' ∷ 0 ∷ b'*' ∷ 0 ∷ b' ' ∷ 0
    ∷ 0 ∷ 0 ∷ 0 ∷ 0 ∷ 0 ∷ []

-- The character of a key press, 0 for none; 64 is the size of the tables.
unfoldable pub ascii_of : (shift : Bool) → ℕ → ℕ
ascii_of shift scancode =
    if ltb scancode 64
    then (if shift
        then get_or scancode_to_ascii_upper scancode 0
        else get_or scancode_to_ascii_lower scancode 0)
    else 0

-- A character into the ring buffer; a full buffer drops it.
unfoldable pub put_key : ℕ → KeyboardState → KeyboardState
put_key ascii s =
    let next_write = (s.write_pos + 1) % kb_buffer_size in
    if ascii == 0
    then s
    else if next_write == s.read_pos
    then s
    else record s { buffer = set s.buffer s.write_pos ascii; write_pos = next_write }

unfoldable pub keyboard_process_scancode : ℕ → KeyboardState → KeyboardState
keyboard_process_scancode sc s =
    if (sc == 0x2a) || (sc == 0x36)
    then record s { shift_pressed = true }
    else if (sc == 0xaa) || (sc == 0xb6)
    then record s { shift_pressed = false }
    else if sc == 0x1d
    then record s { ctrl_pressed = true }
    else if sc == 0x9d
    then record s { ctrl_pressed = false }
    else if sc == 0x38
    then record s { alt_pressed = true }
    else if sc == 0xb8
    then record s { alt_pressed = false }
    else if has_bit sc 7
    then s
    else put_key (ascii_of s.shift_pressed sc) s

unfoldable pub keyboard_has_key : KeyboardState → Bool
keyboard_has_key s = not (s.read_pos == s.write_pos)

-- the end of both `keyboard_getchar`s
unfoldable pub next_key : KeyboardState → ℕ × KeyboardState
next_key s =
    (get_or s.buffer s.read_pos 0, record s { read_pos = (s.read_pos + 1) % kb_buffer_size })

unfoldable pub keyboard_getchar_nonblock : KeyboardState → ℕ × KeyboardState
unfolding keyboard_has_key next_key
keyboard_getchar_nonblock s = if keyboard_has_key s then next_key s else (0, s)

-- Each `hlt` ends with an interrupt, whose handler processes one scancode. `none`: still waiting
-- when no more scancodes come.
unfoldable pub keyboard_getchar : List ℕ → KeyboardState → Option ((ℕ × KeyboardState) × List ℕ)
keyboard_getchar [] s = if keyboard_has_key s then some (next_key s, []) else none
keyboard_getchar (sc ∷ scs) s =
    let rest = keyboard_getchar scs (keyboard_process_scancode sc s) in
    if keyboard_has_key s then some (next_key s, sc ∷ scs) else rest

-- `inb` and `outb`; reading a port may change the machine.
pub record Ports (D : Type 0) : Type 0 where
  pub inb : D → (port : ℕ) → ℕ × D
  pub outb : D → (port value : ℕ) → D

abbrev pub ps2_status_port : ℕ
ps2_status_port = 0x64

abbrev pub ps2_data_port : ℕ
ps2_data_port = 0x60

module _ {D : Type 0} (ports : Ports D) where
  unfoldable pub keyboard_has_controller : D → Bool × D
  keyboard_has_controller d =
      let (status, d) = ports.inb d ps2_status_port in (not (status == 0xff), d)

  -- The two waiting loops, with `n` rounds left: the second component is the result.
  unfoldable pub ps2_wait_input_clear : (n : ℕ) → D → D × Bool
  ps2_wait_input_clear zero d = (d, false)
  ps2_wait_input_clear (suc n) d =
      let (status, d') = ports.inb d ps2_status_port in
      let rest = ps2_wait_input_clear n d' in if has_bit status 1 then rest else (d', true)

  unfoldable pub ps2_wait_output_full : (n : ℕ) → D → D × Bool
  ps2_wait_output_full zero d = (d, false)
  ps2_wait_output_full (suc n) d =
      let (status, d') = ports.inb d ps2_status_port in
      let rest = ps2_wait_output_full n d' in if has_bit status 0 then (d', true) else rest

  -- The rounds of the source; a loop that gives up is only logged.
  abbrev pub ps2_rounds : ℕ
  ps2_rounds = 100000

  unfoldable pub send_when_clear : (port value : ℕ) → D → D
  send_when_clear port value d = ports.outb (ps2_wait_input_clear ps2_rounds d).0 port value

  unfoldable pub flush_output : D → D
  flush_output d =
      let (status, d) = ports.inb d ps2_status_port in
      if has_bit status 0 then (ports.inb d ps2_data_port).1 else d

  -- `config |= 0x01; config &= ~0x10`
  unfoldable pub enabled : ℕ → ℕ
  enabled config = config + (1 - config % 2) - 16 * (config / 16 % 2)

  -- The set-up of the controller, and the machine after it.
  unfoldable pub ps2_init : D → D
  ps2_init d =
      let d = flush_output (send_when_clear ps2_status_port 0xad d) in
      let d = send_when_clear ps2_status_port 0x20 d in
      let (config, d) = ports.inb (ps2_wait_output_full ps2_rounds d).0 ps2_data_port in
      let d = send_when_clear ps2_status_port 0x60 d in
      let d = send_when_clear ps2_data_port (enabled config) d in
      let d = send_when_clear ps2_status_port 0xae d in send_when_clear ps2_data_port 0xf4 d

  -- The buffer keeps its bytes.
  unfoldable pub keyboard_init : KeyboardState → D → KeyboardState × D
  keyboard_init s d = (
    record {
      buffer = s.buffer;
      read_pos = 0;
      write_pos = 0;
      shift_pressed = false;
      ctrl_pressed = false;
      alt_pressed = false;
    },
    ps2_init d,
  )
