-- ===== src/Kio/Format.antt =====
-- `actual_print` of root/orbit-kernel/util/kio.c: a format is the list of its characters before the
-- NUL, the variable arguments are a list, and the output is the list of the characters that
-- `print_char` is given. The place in the loop of `actual_print` is a state; reading past the NUL
-- gives no result.
pub mod Numbers
pub mod Text
pub mod Piece
pub mod Pieces
use relics.Prelude.{
  ℕ, zero, suc, ◌+◌, ◌-◌, ◌*◌, ◌/◌, ◌%◌, ◌^◌, Bool, true, false, ◌==◌, ltb, if◌then◌else◌, Option,
  none, some, List, [], ◌∷◌, ◌++◌, Memory, u8, u32, u64,
}
use relics.Prelude.Int.{ℤ, pos, negsuc}
use relics.Kio.Digits.{decimal_to_base, lltoa}

-- A variable argument: the 64 bits of a number or a pointer, or a string.
pub data Argument : Type 0 where
  word : ℕ → Argument
  string : List ℕ → Argument

pub record Printer : Type 0 where
  pub zero_pad : Bool
  pub args : List Argument
  pub out : List ℕ

unfoldable pub emit : List ℕ → Printer → Printer
emit text p = record p { out = p.out ++ text }

-- `va_arg` of a number and of a string.
unfoldable pub take_word : Printer → Option (ℕ × Printer)
take_word p = elim p.args [
  | [] ↦ none
  | a ∷ rest ↦ elim a [ word w ↦ some (w, record p { args = rest }) | string s ↦ none ]
]

unfoldable pub take_string : Printer → Option (List ℕ × Printer)
take_string p = elim p.args [
  | [] ↦ none
  | a ∷ rest ↦ elim a [ word w ↦ none | string s ↦ some (s, record p { args = rest }) ]
]

-- The two's complement number of the low bits of a word.
unfoldable pub signed : (bits w : ℕ) → ℤ
signed bits w =
    let low = w % 2 ^ bits in
    if ltb low (2 ^ (bits - 1)) then pos low else negsuc (2 ^ bits - low - 1)

-- The characters from an address up to the NUL.
unfoldable pub read_string : (fuel number : ℕ) → Memory → List ℕ
read_string zero number m = []
read_string (suc fuel) number m =
    let rest = read_string fuel (number + 1) m in if m number == 0 then [] else m number ∷ rest

-- 64 turns and the 64 bytes of `str_num` are enough for the 20 characters of a number.
unfoldable pub print_long_long : ℤ → Printer → Option Printer
print_long_long num p = elim (lltoa 64 num 0 (λ a. 0)) [
  | none ↦ none
  | some m ↦ some (emit (read_string 64 0 m) p)
]

-- `decimal_to_base` behind a prefix; 65 turns are enough for a 64-bit number.
unfoldable pub print_base : (prefix : List ℕ) (base n : ℕ) → Printer → Option Printer
print_base prefix base n p = elim (decimal_to_base 65 n base p.zero_pad) [
  | none ↦ none
  | some (text, zero_pad) ↦ some (record (emit (prefix ++ text) p) { zero_pad = zero_pad })
]

-- A number is taken, cut to its width and printed.
unfoldable pub unsigned_directive : (prefix : List ℕ) (bits base : ℕ) → Printer → Option Printer
unsigned_directive prefix bits base p = elim (take_word p) [
  | none ↦ none
  | some (w, p') ↦ print_base prefix base (w % 2 ^ bits) p'
]

unfoldable pub signed_directive : (bits : ℕ) → Printer → Option Printer
signed_directive bits p = elim (take_word p) [
  | none ↦ none
  | some (w, p') ↦ print_long_long (signed bits w) p'
]

-- `putchark`, whose `print_char` ignores a NUL.
unfoldable pub char_directive : Printer → Option Printer
char_directive p = elim (take_word p) [
  | none ↦ none
  | some (w, p') ↦ some (if u8 w == 0 then p' else emit (u8 w ∷ []) p')
]

unfoldable pub string_directive : Printer → Option Printer
string_directive p = elim (take_string p) [ none ↦ none | some (s, p') ↦ some (emit s p') ]

-- "Format unimplemented: "
abbrev pub unimplemented : List ℕ
unimplemented =
    70 ∷ 111 ∷ 114 ∷ 109 ∷ 97 ∷ 116 ∷ 32 ∷ 117 ∷ 110 ∷ 105 ∷ 109 ∷ 112 ∷ 108 ∷ 101 ∷ 109 ∷ 101 ∷ 110
    ∷ 116 ∷ 101 ∷ 100 ∷ 58 ∷ 32 ∷ []

-- What the cases of a `switch` that print do with a character; none for the other cases.
abbrev pub Action : Type 0
Action = Option (Printer → Option Printer)

abbrev pub short_action : ℕ → Action
short_action c =
    if c == 37
    then some (λ p. some (emit (37 ∷ []) p))
    else if c == b'i'
    then some (signed_directive 32)
    else if c == b'd'
    then some (signed_directive 32)
    else if c == b'u'
    then some (unsigned_directive [] 32 10)
    else if c == b'b'
    then some (unsigned_directive (b'0' ∷ b'b' ∷ []) 32 2)
    else if c == b'X'
    then some (unsigned_directive (b'0' ∷ b'X' ∷ []) 32 16)
    else if c == b'x'
    then some (unsigned_directive (b'0' ∷ b'x' ∷ []) 32 16)
    else if c == b'o'
    then some (unsigned_directive (b'0' ∷ b'o' ∷ []) 32 8)
    else if c == b'p'
    then some (unsigned_directive (b'0' ∷ b'x' ∷ []) 64 16)
    else if c == b'c'
    then some char_directive
    else if c == b's'
    then some string_directive
    else none

abbrev pub long_action : ℕ → Action
long_action c =
    if c == b'u'
    then some (unsigned_directive [] 64 10)
    else if c == b'd'
    then some (signed_directive 64)
    else if c == b'b'
    then some (unsigned_directive (b'0' ∷ b'b' ∷ []) 64 2)
    else if c == b'x'
    then some (unsigned_directive (b'0' ∷ b'x' ∷ []) 64 16)
    else none

abbrev pub long_long_action : ℕ → Action
long_long_action c =
    if c == b'u'
    then some (unsigned_directive [] 64 10)
    else if c == b'd'
    then some (signed_directive 64)
    else none

-- Where the loop stands: at plain text, behind '%', behind "%l" and behind "%ll".
pub data Place : Type 0 where
  text : Place
  directive : Place
  long : Place
  long_long : Place

-- A character of plain text: the next place and the state.
abbrev pub text_step : ℕ → Printer → Option (Place × Printer)
text_step c p = if c == 37 then some (directive, p) else some (text, emit (c ∷ []) p)

-- An action, and back to the text.
abbrev pub run_action : (Printer → Option Printer) → Printer → Option (Place × Printer)
run_action act p = elim (act p) [ none ↦ none | some p' ↦ some (text, p') ]

-- One character of the format: an action is run, a place is entered, or, behind `format--`, the
-- character is read again as text.
unfoldable pub print_step : Place → ℕ → Printer → Option (Place × Printer)
print_step text c p = text_step c p
print_step directive c p = elim (short_action c) [
  | some act ↦ run_action act p
  | none ↦
      if c == b'0'
      then some (directive, record p { zero_pad = true })
      else if c == b'l'
      then some (long, p)
      else text_step c (emit (unimplemented ++ c ∷ 10 ∷ []) p)
]
print_step long c p = elim (long_action c) [
  | some act ↦ run_action act p
  | none ↦ if c == b'l' then some (long_long, p) else text_step c p
]
print_step long_long c p = elim (long_long_action c) [
  | some act ↦ run_action act p
  | none ↦ text_step c p
]

-- The NUL: behind '%' it is an unknown directive, and behind "%l" the loop goes past it.
unfoldable pub print_end : Place → Printer → Option Printer
print_end text p = some p
print_end directive p = some (emit (unimplemented ++ 10 ∷ []) p)
print_end long p = none
print_end long_long p = none

unfoldable pub actual_print_from : Place → List ℕ → Printer → Option Printer
actual_print_from place [] p = print_end place p
actual_print_from place (c ∷ format) p = elim (print_step place c p) [
  | none ↦ none
  | some (place', p') ↦ actual_print_from place' format p'
]

-- The text that a format and its arguments print.
unfoldable pub actual_print : (format : List ℕ) (args : List Argument) → Option (List ℕ)
actual_print format args =
    elim (actual_print_from text format (record { zero_pad = false; args = args; out = [] })) [
      | none ↦ none
      | some p ↦ some p.out
    ]
