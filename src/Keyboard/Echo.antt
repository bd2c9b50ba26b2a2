-- ===== src/Keyboard/Echo.antt =====
-- About the polled keyboard of root/orbit-kernel/util/keyboard.c.
use relics.Prelude.{
  ℕ, zero, suc, ◌+◌, ◌-◌, ◌^◌, ◌<◌, ◌≤◌, ◌≡◌, ◌≢◌, ◌⊎◌, inl, inr, ◌∙◌, ap, sym, refl, arith, tests,
  u8, u32, ltb, ◌==◌, if◌then◌else◌, if-true, if-false, Bool, true, false, Bool-cases, ne→eqb,
  lt→ltb, le→ltb, le→leb, lt→leb, Option, none, some, List, [], ◌∷◌, ◌++◌, All, ◌&&◌, and-left,
  and-right, eqb→ne, ltb→lt,
}
use mathlib.Core.Option
use relics.Keyboard.{switch, ascii_cases, get_ascii_char}
use relics.Keyboard.Keys.{key_code, key_enter}
use relics.Kio.Format.Text.{append_assoc, append-nil}
use relics.Kio.Format.Pieces.{plain, character, meant, are_pieces_sound}
use relics.Kio.Log.Time.{printk-pieces}
use relics.Keyboard.Polled.{wait_for_io, Reading, over, test_key, test_loop, test_input}

-- The turns of a count; the decrement of 0 wraps.
abbrev pub cycles : ℕ → ℕ
cycles n = if n == 0 then 2 ^ 32 else n

wait_for_io-positive :
    (fuel n turns : ℕ)
    → 0 < n
    → n ≤ 2 ^ 32
    → n ≤ fuel
    → wait_for_io fuel (u32 n) turns ≡ some (turns + n)
unfolding wait_for_io
wait_for_io-positive zero n turns p h f = absurd (omega arith)
wait_for_io-positive (suc fuel) n turns p h f = elim (Bool-cases (n == 1)) [
  | inl last ↦
      let left : u32 (u32 n + 2 ^ 32 - 1) ≡ 0 = omega (tests, last) in
      if-true _ _ (le→leb (u32 (u32 n + 2 ^ 32 - 1)) 0 (omega (arith, left)))
      ∙ ap some (omega (tests, last))
  | inr more ↦
      let left : u32 (u32 n + 2 ^ 32 - 1) ≡ u32 (n - 1) = omega (tests, more) in
      if-false _ _ (lt→leb (u32 (u32 n + 2 ^ 32 - 1)) 0 (omega (tests, more)))
      ∙ ap (λ k. wait_for_io fuel k (turns + 1)) left
      ∙ wait_for_io-positive fuel (n - 1) (turns + 1) (omega (tests, more)) (omega arith)
          (omega arith)
      ∙ ap some (omega arith)
]

-- The waiting loop ends, for every count of 32 bits, after as many turns as the count says; a count
-- of 0 takes 2 ^ 32 turns, since the decrement wraps before it is tested.
pub wait_for_io-turns :
    (fuel timer_count turns : ℕ)
    → timer_count < 2 ^ 32
    → cycles timer_count ≤ fuel
    → wait_for_io fuel timer_count turns ≡ some (turns + cycles timer_count)
wait_for_io-turns fuel zero turns h f =
    wait_for_io-positive fuel (2 ^ 32) turns (omega arith) (omega arith) f
wait_for_io-turns fuel (suc n) turns h f =
    let e : cycles (suc n) ≡ suc n = if-false _ _ (ne→eqb (suc n) 0 (omega arith)) in
    ap (λ k. wait_for_io fuel k turns) {x = suc n} {y = u32 (suc n)} (omega arith)
    ∙ wait_for_io-positive fuel (suc n) turns (omega arith) (omega arith) (omega (arith, e, f))
    ∙ ap (λ k. some (turns + k)) (sym e)

switch-below :
    (code bound : ℕ) (cases : List (ℕ × ℕ))
    → 0 < bound
    → All (λ (c : ℕ × ℕ). c.1 < bound) cases
    → switch code cases < bound
unfolding switch
switch-below code bound [] p h = p
switch-below code bound ((c, ch) ∷ cases) p h = elim (Bool-cases (code == c)) [
  | inl e ↦ rw e h.0
  | inr e ↦ rw e (switch-below code bound cases p h.1)
]

all_under : ℕ → List (ℕ × ℕ) → Bool
all_under bound [] = true
all_under bound (c ∷ cases) = ltb c.1 bound && all_under bound cases

all_under_sound :
    (bound : ℕ) (cases : List (ℕ × ℕ))
    → all_under bound cases ≡ true
    → All (λ (c : ℕ × ℕ). c.1 < bound) cases
unfolding all_under
all_under_sound bound [] h = tt
all_under_sound bound (c ∷ cases) h = (
  ltb→lt c.1 bound (and-left (ltb c.1 bound) _ h),
  all_under_sound bound cases (and-right (ltb c.1 bound) _ h),
)

get_ascii_char-byte : (code : ℕ) → get_ascii_char code < 128
unfolding get_ascii_char all_under
get_ascii_char-byte code =
    switch-below code 128 ascii_cases (omega arith) (all_under_sound 128 ascii_cases refl)

-- What a key shows.
abbrev pub shown : (keycode : ℕ) → List ℕ
shown keycode = if keycode == key_code key_enter then 10 ∷ [] else get_ascii_char keycode ∷ []

abbrev pub echo : List ℕ → List ℕ
echo [] = []
echo (keycode ∷ keycodes) = shown keycode ++ echo keycodes

-- Enter, or a key that has a character.
abbrev pub HasText : ℕ → Type 0
HasText keycode = (keycode ≡ key_code key_enter) ⊎ (0 < get_ascii_char keycode)

pub meant-character : (c : ℕ) → 0 < c → c < 128 → meant (character c ∷ []) ≡ c ∷ []
meant-character c p h =
    let same : u8 c ≡ c = omega arith in
    ap (λ t. t ++ []) (if-false [] (u8 c ∷ []) (ne→eqb (u8 c) 0 (omega arith)))
    ∙ ap (λ x. x ∷ []) same

test_key-character :
    (keycode ch : ℕ) (printed : List ℕ)
    → keycode ≢ key_code key_enter
    → 0 < get_ascii_char keycode
    → test_key keycode ch printed
      ≡ some (get_ascii_char keycode, printed ++ get_ascii_char keycode ∷ [])
unfolding test_key
test_key-character keycode ch printed ne p =
    let c = get_ascii_char keycode in
    if-false _ _ (ne→eqb keycode (key_code key_enter) ne)
    ∙ ap (Option.map (λ t. (c, t))) (
        printk-pieces printed (character c ∷ []) [] (tt, tt)
        ∙ ap (λ t. some (printed ++ t)) (meant-character c p (get_ascii_char-byte keycode)))

test_key-HasText :
    (keycode ch : ℕ) (printed : List ℕ)
    → HasText keycode
    → 0 < ch
    → (ch' : ℕ) × (test_key keycode ch printed ≡ some (ch', printed ++ shown keycode)) × (0 < ch')
unfolding test_key
test_key-HasText keycode ch printed h p = elim (Bool-cases (keycode == key_code key_enter)) [
  | inl enter ↦ (
    ch,
    if-true _ _ enter
        ∙ ap (Option.map (λ t. (ch, t))) (
            printk-pieces printed (plain (10 ∷ []) ∷ []) []
              (are_pieces_sound (plain (10 ∷ []) ∷ []) refl)
            ∙ ap (λ t. some (printed ++ t)) (sym (if-true (10 ∷ []) _ enter))),
    p,
  )
  | inr other ↦ (
    get_ascii_char keycode,
    test_key-character keycode ch printed (eqb→ne keycode (key_code key_enter) other)
          (positive h other)
        ∙ ap (λ t. some (get_ascii_char keycode, printed ++ t)) (sym (if-false _ _ other)),
    positive h other,
  )
]
  where
    positive :
        HasText keycode → (keycode == key_code key_enter) ≡ false → 0 < get_ascii_char keycode
    positive (inl e) f = absurd (eqb→ne keycode (key_code key_enter) f e)
    positive (inr q) f = q

test_loop-HasText :
    (keycodes rest : List ℕ) (ch : ℕ) (printed : List ℕ)
    → All HasText keycodes
    → 0 < ch
    → (ch' : ℕ) × (test_loop (keycodes ++ rest) ch printed
        ≡ test_loop rest ch' (printed ++ echo keycodes))
      × (0 < ch')
unfolding test_loop
test_loop-HasText [] rest ch printed h p =
    (ch, ap (λ t. test_loop rest ch t) (sym (append-nil printed)), p)
test_loop-HasText (keycode ∷ keycodes) rest ch printed h p =
    let go : Option (ℕ × List ℕ) → Option Reading = λ o. elim o [
      | none ↦ none
      | some (ch', out) ↦
          if ltb 0 ch' then test_loop (keycodes ++ rest) ch' out else some (over out)
    ] in
    let one = test_key-HasText keycode ch printed h.0 p in
    let more = test_loop-HasText keycodes rest one.0 (printed ++ shown keycode) h.1 one.2 in
    (
      more.0,
      ap go one.1
          ∙ if-true _ _ (lt→ltb 0 one.0 one.2)
          ∙ more.1
          ∙ ap (λ t. test_loop rest more.0 t)
              (append_assoc printed (shown keycode) (echo keycodes)),
      more.2,
    )

-- The first key that has no character ends the loop.
test_loop-stops :
    (keycode : ℕ) (rest : List ℕ) (ch : ℕ) (printed : List ℕ)
    → keycode ≢ key_code key_enter
    → get_ascii_char keycode ≡ 0
    → test_loop (keycode ∷ rest) ch printed ≡ some (over printed)
unfolding test_loop test_key
test_loop-stops keycode rest ch printed ne none_left =
    let go : Option (ℕ × List ℕ) → Option Reading = λ o. elim o [
      | none ↦ none
      | some (ch', out) ↦ if ltb 0 ch' then test_loop rest ch' out else some (over out)
    ] in
    let nul : meant (character (get_ascii_char keycode) ∷ []) ≡ [] =
      ap (λ c. meant (character c ∷ [])) none_left in
    ap go (
      if-false _ _ (ne→eqb keycode (key_code key_enter) ne)
      ∙ ap (Option.map (λ t. (get_ascii_char keycode, t))) (
          printk-pieces printed (character (get_ascii_char keycode) ∷ []) [] (tt, tt)
          ∙ ap (λ t. some (printed ++ t)) nul))
    ∙ if-false _ _ (le→ltb 0 (get_ascii_char keycode) (omega (arith, none_left)))
    ∙ ap (λ t. some (over t)) (append-nil printed)

-- `test_input` shows a key with a character and then the characters of the keys that follow, a
-- newline for Enter, up to the first key that has no character; there it ends, and reads no more.
pub test_input-echoes :
    (first last : ℕ) (keycodes rest : List ℕ) (printed : List ℕ)
    → first ≢ key_code key_enter
    → 0 < get_ascii_char first
    → All HasText keycodes
    → last ≢ key_code key_enter
    → get_ascii_char last ≡ 0
    → test_input (first ∷ (keycodes ++ last ∷ rest)) printed
      ≡ some (over (printed ++ (get_ascii_char first ∷ echo keycodes)))
unfolding test_input test_loop
test_input-echoes first last keycodes rest printed ne p h stop nul =
    let go : Option (ℕ × List ℕ) → Option Reading = λ o. elim o [
      | none ↦ none
      | some (ch', out) ↦
          if ltb 0 ch' then test_loop (keycodes ++ last ∷ rest) ch' out else some (over out)
    ] in
    let c = get_ascii_char first in
    let more = test_loop-HasText keycodes (last ∷ rest) c (printed ++ c ∷ []) h p in
    ap go (test_key-character first 0 printed ne p)
    ∙ if-true _ _ (lt→ltb 0 c p)
    ∙ more.1
    ∙ test_loop-stops last rest more.0 ((printed ++ c ∷ []) ++ echo keycodes) stop nul
    ∙ ap (λ t. some (over t)) (append_assoc printed (c ∷ []) (echo keycodes))
