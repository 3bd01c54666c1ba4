-- ===== src/Shell/Answers.antt =====
-- The question of the `create` command of kernel/shell/shell.c: the fuel of its loop suffices.
use kagami_os.Prelude.{
  ℕ, zero, suc, ◌≤◌, ◌<◌, ◌≡◌, refl, Bool, true, false, ◌||◌, Option, none, some, List, [], ◌∷◌,
  arith, length, ltb, ◌==◌, if◌then◌else◌, has_bit,
}
use kagami_os.Shell.Keys.{keyboard_loop, get_keyboard_char, scancode_to_char}
use kagami_os.Shell.Create.{answer, yes_or_no}

-- What a key leaves of the scancodes is shorter.
abbrev pub Shorter : List ℕ → Option (ℕ × List ℕ) → Type 0
Shorter scs none = Unit
Shorter scs (some (c, rest)) = length rest < length scs

weaker : (sc : ℕ) (scs : List ℕ) (o : Option (ℕ × List ℕ)) → Shorter scs o → Shorter (sc ∷ scs) o
weaker sc scs none h = tt
weaker sc scs (some (c, rest)) h = omega arith

either-Shorter :
    (scs : List ℕ) (b : Bool) (o o' : Option (ℕ × List ℕ))
    → Shorter scs o
    → Shorter scs o'
    → Shorter scs (if b then o else o')
either-Shorter scs true o o' h h' = h
either-Shorter scs false o o' h h' = h'

pub keyboard_loop-Shorter : (shift : Bool) (scs : List ℕ) → Shorter scs (keyboard_loop shift scs)
unfolding keyboard_loop
keyboard_loop-Shorter shift [] = tt
keyboard_loop-Shorter shift (sc ∷ scs) =
    let next = weaker sc scs (keyboard_loop shift scs) (keyboard_loop-Shorter shift scs) in
    let one : length scs < suc (length scs) = omega arith in
    let c = scancode_to_char sc shift in
    let held = keyboard_loop true scs in
    let freed = keyboard_loop false scs in
    let other = keyboard_loop shift scs in
    let typed : Option (ℕ × List ℕ) = if ltb 0 c then some (c, scs) else other in
    let enter : Option (ℕ × List ℕ) = if sc == 0x1c then some (10, scs) else typed in
    let back : Option (ℕ × List ℕ) = if sc == 0x0e then some (8, scs) else enter in
    let press : Option (ℕ × List ℕ) = if has_bit sc 7 then other else back in
    let release : Option (ℕ × List ℕ) = if (sc == 0xaa) || (sc == 0xb6) then freed else press in
    let all = sc ∷ scs in
    either-Shorter all ((sc == 0x2a) || (sc == 0x36)) held release
      (weaker sc scs held (keyboard_loop-Shorter true scs))
      (either-Shorter all ((sc == 0xaa) || (sc == 0xb6)) freed press
        (weaker sc scs freed (keyboard_loop-Shorter false scs))
        (either-Shorter all (has_bit sc 7) other back next (
          either-Shorter all (sc == 0x0e) (some (8, scs)) enter one (
            either-Shorter all (sc == 0x1c) (some (10, scs)) typed one
              (either-Shorter all (ltb 0 c) (some (c, scs)) other one next)))))

answer-same :
    (f g : List ℕ → Option (Bool × List ℕ)) (keys : List ℕ) (o : Option (ℕ × List ℕ))
    → Shorter keys o
    → ((rest : List ℕ) → length rest < length keys → f rest ≡ g rest)
    → answer f o ≡ answer g o
unfolding answer
answer-same f g keys none h same = refl
answer-same f g keys (some (c, rest)) h same = rw (same rest h) refl

-- Any fuel that covers the scancodes gives the same answer.
pub yes_or_no_fuel :
    (fuel fuel' : ℕ) (keys : List ℕ)
    → length keys ≤ fuel
    → length keys ≤ fuel'
    → yes_or_no fuel keys ≡ yes_or_no fuel' keys
unfolding yes_or_no get_keyboard_char keyboard_loop answer
yes_or_no_fuel zero zero keys h h' = refl
yes_or_no_fuel zero (suc fuel') [] h h' = refl
yes_or_no_fuel zero (suc fuel') (k ∷ keys) h h' = absurd (omega arith)
yes_or_no_fuel (suc fuel) zero [] h h' = refl
yes_or_no_fuel (suc fuel) zero (k ∷ keys) h h' = absurd (omega arith)
yes_or_no_fuel (suc fuel) (suc fuel') keys h h' =
    answer-same (λ k. yes_or_no fuel k) (λ k. yes_or_no fuel' k) keys (keyboard_loop false keys)
      (keyboard_loop-Shorter false keys)
      (λ rest less. yes_or_no_fuel fuel fuel' rest (omega arith) (omega arith))
