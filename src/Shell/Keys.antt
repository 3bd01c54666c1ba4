-- ===== src/Shell/Keys.antt =====
-- The keys in kernel/shell/shell.c: `scancode_to_char` and `get_keyboard_char`. A scancode that
-- `poll_keyboard` finds is an element of a list; the rounds that find none are left out.
use kagami_os.Prelude.{
  ℕ, ◌-◌, Bool, true, false, ◌&&◌, ◌||◌, Option, none, some, List, [], ◌∷◌, ltb, leb, ◌==◌,
  if◌then◌else◌, has_bit, get_or,
}
use kagami_os.Prelude.Bytes.{Bytes}

abbrev pub scancode_ascii : Bytes
scancode_ascii =
    0 ∷ 0 ∷ b'1' ∷ b'2' ∷ b'3' ∷ b'4' ∷ b'5' ∷ b'6' ∷ b'7' ∷ b'8' ∷ b'9' ∷ b'0' ∷ b'-' ∷ b'=' ∷ 0
    ∷ 0 ∷ b'q' ∷ b'w' ∷ b'e' ∷ b'r' ∷ b't' ∷ b'y' ∷ b'u' ∷ b'i' ∷ b'o' ∷ b'p' ∷ b'[' ∷ b']' ∷ 10 ∷ 0
    ∷ b'a' ∷ b's' ∷ b'd' ∷ b'f' ∷ b'g' ∷ b'h' ∷ b'j' ∷ b'k' ∷ b'l' ∷ b';' ∷ 39 ∷ b'`' ∷ 0 ∷ 92
    ∷ b'z' ∷ b'x' ∷ b'c' ∷ b'v' ∷ b'b' ∷ b'n' ∷ b'm' ∷ b',' ∷ b'.' ∷ b'/' ∷ 0 ∷ 0 ∷ 0 ∷ b' ' ∷ 0
    ∷ []

-- The `switch` of the shifted special characters.
abbrev pub special : List (ℕ × ℕ)
special =
    (b'1', b'!')
    ∷ (b'2', b'@')
    ∷ (b'3', b'#')
    ∷ (b'4', b'$')
    ∷ (b'5', b'%')
    ∷ (b'6', b'^')
    ∷ (b'7', b'&')
    ∷ (b'8', b'*')
    ∷ (b'9', b'(')
    ∷ (b'0', b')')
    ∷ (b'-', b'_')
    ∷ (b'=', b'+')
    ∷ (b'[', b'{')
    ∷ (b']', b'}')
    ∷ (b';', b':')
    ∷ (39, 34)
    ∷ (b',', b'<')
    ∷ (b'.', b'>')
    ∷ (b'/', b'?')
    ∷ (b'`', b'~')
    ∷ (92, b'|')
    ∷ []

unfoldable pub switch_char : List (ℕ × ℕ) → ℕ → ℕ
switch_char [] c = c
switch_char ((k, v) ∷ cases) c = if c == k then v else switch_char cases c

unfoldable pub scancode_to_char : (scancode : ℕ) → (shift : Bool) → ℕ
scancode_to_char scancode shift =
    let c = get_or scancode_ascii scancode 0 in
    if leb 59 scancode
    then 0
    else if shift && (leb b'a' c && leb c b'z')
    then c - 32
    else if shift
    then switch_char special c
    else c

-- The loop of `get_keyboard_char` over the scancodes that come in; the rest of them is left for the
-- next call. `none`: still waiting.
unfoldable pub keyboard_loop : (shift : Bool) → List ℕ → Option (ℕ × List ℕ)
keyboard_loop shift [] = none
keyboard_loop shift (sc ∷ scs) =
    let held = keyboard_loop true scs in
    let released = keyboard_loop false scs in
    let next = keyboard_loop shift scs in
    let c = scancode_to_char sc shift in
    if (sc == 0x2a) || (sc == 0x36)
    then held
    else if (sc == 0xaa) || (sc == 0xb6)
    then released
    else if has_bit sc 7
    then next
    else if sc == 0x0e
    then some (8, scs)
    else if sc == 0x1c
    then some (10, scs)
    else if ltb 0 c
    then some (c, scs)
    else next

unfoldable pub get_keyboard_char : List ℕ → Option (ℕ × List ℕ)
get_keyboard_char scs = keyboard_loop false scs
