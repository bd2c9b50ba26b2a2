-- ===== src/Keyboard/Laws.antt =====
-- About the decoders of root/orbit-kernel/util/ps2_keyboard.c and get_ascii_char.c, which
-- Keyboard models.
use mathlib.Core.Bool.{xor}
use relics.Prelude.{
  le→leb, ◌≢◌, ◌≤◌, ℕ, ◌-◌, ◌<◌, ◌≡◌, refl, Bool, true, false, not, ◌&&◌, ◌||◌, leb, ◌==◌,
  if◌then◌else◌, all_below, all_below_sound, eqb→eq, arith, ◌∙◌, ap,
}
use relics.Keyboard.{
  Keyboard, switch, plain_cases, shifted_cases, printable, to_character, get_ascii_char,
}

-- The scan codes that only change a modifier.
abbrev pub modifier : ℕ → Bool
modifier c = c == 0x3A || c == 0x38 || c == 0xB8 || c == 0x2A || c == 0xAA || c == 0x1D || c == 0x9D

by_shift : ℕ → Bool → Bool → ℕ
by_shift code shift caps =
    if xor shift caps then switch code shifted_cases else switch code plain_cases

printable-by_shift :
    (code : ℕ) (k : Keyboard) → printable code k ≡ by_shift code k.is_shifted k.is_caps_locked
unfolding printable by_shift xor
printable-by_shift code k = go k.is_shifted k.is_caps_locked
  where
    go :
        (s c : Bool)
        → (if not s && not c || s && c
            then switch code plain_cases
            else if c || s
            then switch code shifted_cases
            else 0)
          ≡ by_shift code s c
    go true true = refl
    go true false = refl
    go false true = refl
    go false false = refl

to_character-other :
    (code : ℕ) (k : Keyboard) → modifier code ≡ false → to_character code k ≡ (printable code k, k)
unfolding to_character
to_character-other code k h = ground arith

-- A scan code that is no modifier leaves the keyboard as it is, and gives the character of the
-- shifted table exactly when one of shift and caps lock is on, and of the plain table otherwise.
pub to_character-printable :
    (code : ℕ) (k : Keyboard)
    → modifier code ≡ false
    → to_character code k ≡ (
      if xor k.is_shifted k.is_caps_locked
          then switch code shifted_cases
          else switch code plain_cases,
      k,
    )
unfolding by_shift
to_character-printable code k h =
    to_character-other code k h ∙ ap (λ c. (c, k)) (printable-by_shift code k)

-- Caps lock gives no character and turns its flag over, so that pressing it twice changes nothing;
-- pressing and releasing shift, alt or control gives no character and leaves its flag off and the
-- other state as it was.
pub to_character-modifiers :
    (k : Keyboard)
    → (to_character 0x3A k ≡ (0, record k { is_caps_locked = not k.is_caps_locked }))
      × (to_character 0xAA (to_character 0x2A k).1 ≡ (0, record k { is_shifted = false }))
      × (to_character 0xB8 (to_character 0x38 k).1 ≡ (0, record k { is_alted = false }))
      × (to_character 0x9D (to_character 0x1D k).1 ≡ (0, record k { is_ctrled = false }))
      × ((to_character 0x3A (to_character 0x3A k).1).1 ≡ k)
unfolding to_character
to_character-modifiers k = (refl, refl, refl, refl, ground arith)

abbrev pub is_lower : ℕ → Bool
is_lower c = leb b'a' c && leb c b'z'

abbrev pub upper : ℕ → ℕ
upper c = if is_lower c then c - 32 else c

letter_ok : ℕ → Bool
letter_ok code =
    not (is_lower (switch code plain_cases))
    || switch code shifted_cases == switch code plain_cases - 32

letters_ok : all_below 256 letter_ok ≡ true
unfolding all_below letter_ok switch
letters_ok = refl

or-right : (a b : Bool) → (not a || b) ≡ true → a ≡ true → b ≡ true
or-right true b h k = h
or-right false b h k = ground arith

plain_letter :
    (code : ℕ)
    → code < 256
    → is_lower (switch code plain_cases) ≡ true
    → switch code shifted_cases ≡ switch code plain_cases - 32
unfolding letter_ok
plain_letter code lt h = eqb→eq (switch code shifted_cases) (switch code plain_cases - 32) (
    or-right (is_lower (switch code plain_cases)) _
      (all_below_sound letter_ok code 256 lt letters_ok) h)

release_ok : ℕ → Bool
release_ok code =
    not (leb 128 code) || (switch code plain_cases == 0 && switch code shifted_cases == 0)

releases_ok : all_below 256 release_ok ≡ true
unfolding all_below release_ok switch
releases_ok = refl

-- The release of a key that is no modifier, a scan code of 128 and more, gives no character.
pub to_character-releases :
    (code : ℕ) (k : Keyboard)
    → 128 ≤ code
    → code < 256
    → modifier code ≡ false
    → to_character code k ≡ (0, k)
unfolding release_ok
to_character-releases code k lo hi m =
    to_character-printable code k m
    ∙ ap (λ c. (c, k))
        (silent (xor k.is_shifted k.is_caps_locked) (switch code shifted_cases)
          (switch code plain_cases)
          (or-right (leb 128 code) _ (all_below_sound release_ok code 256 hi releases_ok)
            (le→leb 128 code lo)))
  where
    silent : (b : Bool) (s p : ℕ) → (p == 0 && s == 0) ≡ true → (if b then s else p) ≡ 0
    silent true s p h = ground arith
    silent false s p h = ground arith

ascii_ok : ℕ → Bool
ascii_ok code = get_ascii_char code == 0 || get_ascii_char code == upper (switch code plain_cases)

ascii_agrees : all_below 256 ascii_ok ≡ true
unfolding all_below ascii_ok switch get_ascii_char
ascii_agrees = refl

-- A scan code that the polled decoder knows and that is no modifier gives the same character in
-- `to_character` without shift and caps lock, but for letters, which are capitals here.
pub get_ascii_char-upper :
    (code : ℕ) (k : Keyboard)
    → code < 256
    → modifier code ≡ false
    → get_ascii_char code ≢ 0
    → get_ascii_char code
      ≡ upper (to_character code (record k { is_shifted = false; is_caps_locked = false })).0
unfolding ascii_ok xor
get_ascii_char-upper code k lt m known =
    let plain = record k { is_shifted = false; is_caps_locked = false } in
    rw (to_character-printable code plain m) (
      agrees (get_ascii_char code) (upper (switch code plain_cases))
        (all_below_sound ascii_ok code 256 lt ascii_agrees) known)
  where
    agrees : (a u : ℕ) → (a == 0 || a == u) ≡ true → a ≢ 0 → a ≡ u
    agrees a u h ne = ground arith

-- On a key whose character is a small letter, shift gives the capital, for every scan code.
pub to_character-capitals :
    (code : ℕ) (k : Keyboard)
    → code < 256
    → modifier code ≡ false
    → is_lower (switch code plain_cases) ≡ true
    → (to_character code (record k { is_shifted = true; is_caps_locked = false })).0
      ≡ (to_character code (record k { is_shifted = false; is_caps_locked = false })).0 - 32
unfolding xor
to_character-capitals code k lt m h =
    let shifted = record k { is_shifted = true; is_caps_locked = false } in
    let plain = record k { is_shifted = false; is_caps_locked = false } in
    rw (to_character-printable code shifted m, to_character-printable code plain m)
      (plain_letter code lt h)
