-- ===== src/Keyboard/Polled.antt =====
-- root/orbit-kernel/util/keyboard.c: the keyboard without interrupts. What port 0x60 returns is an
-- argument, a byte for each read.
use relics.Prelude.{
  codes, ℕ, zero, suc, ◌+◌, ◌-◌, ◌^◌, u32, ltb, leb, ◌==◌, if◌then◌else◌, Option, none, some, List,
  [], ◌∷◌,
}
use mathlib.Core.Option
use relics.Keyboard.Keys.{key_code, key_enter}
use relics.Keyboard.{get_ascii_char}
use relics.Kio.Format.{word}
use relics.Kio.Log.{printk}

-- The byte that is read, and how many reads there were.
unfoldable pub get_input_keycode : (fuel : ℕ) (inb : ℕ → ℕ) (reads : ℕ) → Option (ℕ × ℕ)
get_input_keycode zero inb reads = none
get_input_keycode (suc fuel) inb reads =
    let ch = inb reads in
    let again = get_input_keycode fuel inb (reads + 1) in
    if ch == 0 then some (ch, reads + 1) else if ltb 0 ch then some (ch, reads + 1) else again

-- How many turns the waiting loop takes: `timer_count--` wraps in 32 bits.
unfoldable pub wait_for_io : (fuel timer_count turns : ℕ) → Option ℕ
wait_for_io zero timer_count turns = none
wait_for_io (suc fuel) timer_count turns =
    let left = u32 (timer_count + 2 ^ 32 - 1) in
    let again = wait_for_io fuel left (turns + 1) in if leb left 0 then some (turns + 1) else again

-- What the loop of `test_input` has printed: it is over, or it reads a key.
pub data Reading : Type 0 where
  over : (printed : List ℕ) → Reading
  reading : (printed : List ℕ) → Reading

-- One turn: the character that decides about the next one, and the text. KEY_ENTER leaves the
-- character of the turn before.
unfoldable pub test_key : (keycode ch : ℕ) (printed : List ℕ) → Option (ℕ × List ℕ)
test_key keycode ch printed =
    if keycode == key_code key_enter
    then Option.map (λ t. (ch, t)) (printk printed (codes "\n") [])
    else Option.map (λ t. (get_ascii_char keycode, t))
        (printk printed (codes "%c") (word (get_ascii_char keycode) ∷ []))

-- The `do` loop over the key codes that are read.
unfoldable pub test_loop : (keycodes : List ℕ) (ch : ℕ) (printed : List ℕ) → Option Reading
test_loop [] ch printed = some (reading printed)
test_loop (keycode ∷ keycodes) ch printed = elim (test_key keycode ch printed) [
  | none ↦ none
  | some (ch', out) ↦ if ltb 0 ch' then test_loop keycodes ch' out else some (over out)
]

unfoldable pub test_input : (keycodes : List ℕ) (printed : List ℕ) → Option Reading
test_input keycodes printed = test_loop keycodes 0 printed
