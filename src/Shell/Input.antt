-- ===== src/Shell/Input.antt =====
-- The loop of `fb_shell_run` in kernel/shell/shell.c up to the end of a line. Drawing is left out.
use kagami_os.Prelude.{
  ℕ, zero, suc, ◌-◌, ◌≤◌, ◌<◌, ◌≡◌, refl, false, ◌&&◌, Option, none, some, List, [], ◌∷◌, ◌++◌,
  length, length-append, length-take, ltb, ◌==◌, if◌then◌else◌, take, All, arith, Bool-cases, inl,
  inr,
}
use kagami_os.Prelude.Bytes.{Bytes}
use kagami_os.Shell.Keys.{get_keyboard_char, keyboard_loop}
use kagami_os.Shell.Answers.{Shorter, keyboard_loop-Shorter}
use kagami_os.Shell.Buffer.{NotZero, All-append, All-take}

-- What a character other than Enter makes of the line: `buffer` up to `pos`, whose zero follows.
unfoldable pub type_char : ℕ → Bytes → Bytes
type_char c line =
    if c == 8
    then take (length line - 1) line
    else if ltb 0 c && ltb (length line) 254
    then line ++ (c ∷ [])
    else line

-- What the loop makes of a character that came in.
unfoldable pub line_goes_on :
    (Bytes → List ℕ → Option (Bytes × List ℕ))
    → Bytes
    → Option (ℕ × List ℕ)
    → Option (Bytes × List ℕ)
line_goes_on next line none = none
line_goes_on next line (some (c, keys)) =
    let more = next (type_char c line) keys in if c == 10 then some (line, keys) else more

-- The line that Enter ends, and the scancodes behind it; `none` while Enter has not come.
unfoldable pub read_line : (fuel : ℕ) → Bytes → List ℕ → Option (Bytes × List ℕ)
read_line zero line keys = none
read_line (suc fuel) line keys =
    line_goes_on (λ line' keys'. read_line fuel line' keys') line (get_keyboard_char keys)

-- The line fits the 256 bytes of `buffer` with its zero, and holds no other zero.
abbrev pub LineFits : Bytes → Type 0
LineFits line = (length line ≤ 254) × All NotZero line

abbrev LineFitsIf : Option (Bytes × List ℕ) → Type 0
LineFitsIf none = Unit
LineFitsIf (some (line, keys)) = LineFits line

type_char-LineFits : (c : ℕ) (line : Bytes) → LineFits line → LineFits (type_char c line)
unfolding type_char
type_char-LineFits c line (le, chars) = elim (Bool-cases (c == 8)) [
  | inl e ↦
      rw e
        (omega (arith, length-take (length line - 1) line), All-take (length line - 1) line chars)
  | inr e ↦ rw e (elim (Bool-cases (ltb 0 c && ltb (length line) 254)) [
    | inl room ↦ rw room (
      ground (arith, length-append line (c ∷ [])),
      All-append line (c ∷ []) chars ((λ z. ground arith), tt),
    )
    | inr full ↦ rw full (le, chars)
  ])
]

line_goes_on-LineFits :
    (next : Bytes → List ℕ → Option (Bytes × List ℕ)) (line : Bytes) (o : Option (ℕ × List ℕ))
    → LineFits line
    → ((line' : Bytes) (keys : List ℕ) → LineFits line' → LineFitsIf (next line' keys))
    → LineFitsIf (line_goes_on next line o)
unfolding line_goes_on
line_goes_on-LineFits next line none h go = tt
line_goes_on-LineFits next line (some (c, keys)) h go = elim (Bool-cases (c == 10)) [
  | inl e ↦ rw e h
  | inr e ↦ rw e (go (type_char c line) keys (type_char-LineFits c line h))
]

-- Whatever is typed, a line that is executed has at most 254 characters, none of them zero.
pub read_line-LineFits :
    (fuel : ℕ) (line : Bytes) (keys : List ℕ)
    → LineFits line
    → LineFitsIf (read_line fuel line keys)
unfolding read_line
read_line-LineFits zero line keys h = tt
read_line-LineFits (suc fuel) line keys h =
    line_goes_on-LineFits (λ line' keys'. read_line fuel line' keys') line (get_keyboard_char keys)
      h (λ line' keys' h'. read_line-LineFits fuel line' keys' h')

line_goes_on-same :
    (f g : Bytes → List ℕ → Option (Bytes × List ℕ)) (line : Bytes) (keys : List ℕ)
    (o : Option (ℕ × List ℕ))
    → Shorter keys o
    → ((line' : Bytes) (rest : List ℕ) → length rest < length keys → f line' rest ≡ g line' rest)
    → line_goes_on f line o ≡ line_goes_on g line o
unfolding line_goes_on
line_goes_on-same f g line keys none h same = refl
line_goes_on-same f g line keys (some (c, rest)) h same = rw (same (type_char c line) rest h) refl

-- Any fuel that covers the scancodes gives the same line.
pub read_line_fuel :
    (fuel fuel' : ℕ) (line : Bytes) (keys : List ℕ)
    → length keys ≤ fuel
    → length keys ≤ fuel'
    → read_line fuel line keys ≡ read_line fuel' line keys
unfolding read_line get_keyboard_char keyboard_loop line_goes_on
read_line_fuel zero zero line keys h h' = refl
read_line_fuel zero (suc fuel') line [] h h' = refl
read_line_fuel zero (suc fuel') line (k ∷ keys) h h' = absurd (omega arith)
read_line_fuel (suc fuel) zero line [] h h' = refl
read_line_fuel (suc fuel) zero line (k ∷ keys) h h' = absurd (omega arith)
read_line_fuel (suc fuel) (suc fuel') line keys h h' =
    line_goes_on-same (λ l k. read_line fuel l k) (λ l k. read_line fuel' l k) line keys
      (keyboard_loop false keys) (keyboard_loop-Shorter false keys)
      (λ l rest less. read_line_fuel fuel fuel' l rest (omega arith) (omega arith))
