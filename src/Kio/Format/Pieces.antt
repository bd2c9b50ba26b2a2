-- ===== src/Kio/Format/Pieces.antt =====
-- What the formats that are made of known directives print, for `actual_print` of
-- root/orbit-kernel/util/kio.c: an independent description, piece by piece.
use relics.Prelude.{
  ℕ, ◌%◌, ◌^◌, ◌≤◌, ◌<◌, ◌≡◌, refl, arith, ap, sym, ◌∙◌, Bool, true, false, Option, none, some,
  List, [], ◌∷◌, ◌++◌, All, ◌==◌, if◌then◌else◌, u8,
}
use relics.Kio.Digits.{zero_extend}
use relics.Kio.Digits.Numeral.{numeral}
use relics.Kio.Digits.Based.{
  based, numeral_in, decimal_to_base-numeral_in, decimal_to_base-numeral, decimal_to_base-based,
}
use relics.Kio.Format.{
  Argument, word, Printer, emit, signed, take_word, print_base, take_string, unsigned_directive,
  signed_directive, char_directive, string_directive, Place, text, print_step, print_end,
  actual_print_from, actual_print,
}
use relics.Kio.Format.Numbers.{print_long_long-emits, signed-magnitude}
use relics.Kio.Format.Text.{
  append_assoc, append-nil, from-Literal, print_base-text, from-padded_hex,
}
pub use relics.Kio.Format.Piece.{
  Radix, binary, octal, hex, upper_hex, pointer, long_binary, long_hex, spelling, prefix, width,
  base_of, Piece, plain, percent, characters, character, int, long_int, unsigned_int, unsigned_long,
  hexadecimal, in_base, spelled, argument, meaning, IsPiece, are_pieces, are_pieces_sound,
  formatted, arguments, meant,
}

-- A printer without zero extension.
abbrev pub printer : List Argument → List ℕ → Printer
printer args out = record { zero_pad = false; args = args; out = out }

-- A directive that acts once and goes back to the text.
back : List ℕ → Option Printer → Option Printer
back post r =
    let step : Option (Place × Printer) = elim r [ none ↦ none | some p ↦ some (text, p) ] in
    elim step [ none ↦ none | some (place, p) ↦ actual_print_from place post p ]

base_of-two : (r : Radix) → 2 ≤ base_of r
base_of-two binary = omega arith
base_of-two octal = omega arith
base_of-two hex = omega arith
base_of-two upper_hex = omega arith
base_of-two pointer = omega arith
base_of-two long_binary = omega arith
base_of-two long_hex = omega arith

width-fits : (r : Radix) (w : ℕ) → w % 2 ^ width r < base_of r ^ 64
width-fits binary w = omega arith
width-fits octal w = omega arith
width-fits hex w = omega arith
width-fits upper_hex w = omega arith
width-fits pointer w = omega arith
width-fits long_binary w = omega arith
width-fits long_hex w = omega arith

from-character :
    (b : Bool) (cs post : List ℕ) (rest : List Argument) (out : List ℕ)
    → actual_print_from text post (if b then printer rest out else emit cs (printer rest out))
      ≡ actual_print_from text post (printer rest (out ++ (if b then [] else cs)))
unfolding emit
from-character true cs post rest out =
    ap (λ t. actual_print_from text post (printer rest t)) (sym (append-nil out))
from-character false cs post rest out = refl

in_base-emits :
    (r : Radix) (w : ℕ) (post : List ℕ) (rest : List Argument) (out : List ℕ)
    → back post (print_base (prefix r) (base_of r) (w % 2 ^ width r) (printer rest out))
      ≡ actual_print_from text post
          (printer rest (out ++ (prefix r ++ numeral_in (base_of r) (w % 2 ^ width r))))
unfolding back emit
in_base-emits r w post rest out =
    let n = w % 2 ^ width r in
    ap (back post) (
      print_base-text (prefix r) (base_of r) n (printer rest out) (numeral_in (base_of r) n) false
        (decimal_to_base-numeral_in (base_of r) n (base_of-two r) (width-fits r w)))

from-in_base :
    (r : Radix) (w : ℕ) (post : List ℕ) (rest : List Argument) (out : List ℕ)
    → actual_print_from text (spelling r ++ post) (printer (word w ∷ rest) out)
      ≡ back post (print_base (prefix r) (base_of r) (w % 2 ^ width r) (printer rest out))
unfolding actual_print_from print_step take_word unsigned_directive back
from-in_base binary w post rest out = refl
from-in_base octal w post rest out = refl
from-in_base hex w post rest out = refl
from-in_base upper_hex w post rest out = refl
from-in_base pointer w post rest out = refl
from-in_base long_binary w post rest out = refl
from-in_base long_hex w post rest out = refl

from-piece :
    (x : Piece) (post : List ℕ) (rest : List Argument) (out : List ℕ)
    → IsPiece x
    → actual_print_from text (spelled x ++ post) (printer (argument x ++ rest) out)
      ≡ actual_print_from text post (printer rest (out ++ meaning x))
unfolding actual_print_from print_step take_word take_string char_directive string_directive
    signed_directive unsigned_directive emit back
from-piece (plain s) post rest out h = from-Literal s post (printer rest out) h
from-piece percent post rest out h = refl
from-piece (characters s) post rest out h = refl
from-piece (character c) post rest out h = from-character (u8 c == 0) (u8 c ∷ []) post rest out
from-piece (int w) post rest out h =
    ap (back post) (
      print_long_long-emits (signed 32 w) (printer rest out) (omega (arith, signed-magnitude 32 w)))
from-piece (long_int w) post rest out h =
    ap (back post) (
      print_long_long-emits (signed 64 w) (printer rest out) (omega (arith, signed-magnitude 64 w)))
from-piece (unsigned_int w) post rest out h = ap (back post) (
    print_base-text [] 10 (w % 2 ^ 32) (printer rest out) (numeral (w % 2 ^ 32)) false
      (decimal_to_base-numeral (w % 2 ^ 32) (omega arith)))
from-piece (unsigned_long w) post rest out h = ap (back post) (
    print_base-text [] 10 (w % 2 ^ 64) (printer rest out) (numeral (w % 2 ^ 64)) false
      (decimal_to_base-numeral (w % 2 ^ 64) (omega arith)))
from-piece (hexadecimal w) post rest out h =
    from-padded_hex post w rest false out (zero_extend 16 (based 16 64 (w % 2 ^ 64) []))
      (decimal_to_base-based (w % 2 ^ 64) (omega arith))
from-piece (in_base r w) post rest out h =
    from-in_base r w post rest out ∙ in_base-emits r w post rest out

from-pieces :
    (xs : List Piece) (rest : List Argument) (out : List ℕ)
    → All IsPiece xs
    → actual_print_from text (formatted xs) (printer (arguments xs ++ rest) out)
      ≡ some (printer rest (out ++ meant xs))
unfolding actual_print_from print_end
from-pieces [] rest out h = ap (λ t. some (printer rest t)) (sym (append-nil out))
from-pieces (x ∷ xs) rest out h =
    ap (λ args. actual_print_from text (spelled x ++ formatted xs) (printer args out))
      (append_assoc (argument x) (arguments xs) rest)
    ∙ from-piece x (formatted xs) (arguments xs ++ rest) out h.0
    ∙ from-pieces xs rest (out ++ meaning x) h.1
    ∙ ap (λ t. some (printer rest t)) (append_assoc out (meaning x) (meant xs))

pub actual_print-pieces :
    (xs : List Piece) (rest : List Argument)
    → All IsPiece xs
    → actual_print (formatted xs) (arguments xs ++ rest) ≡ some (meant xs)
unfolding actual_print
actual_print-pieces xs rest h =
    let shown : Option Printer → Option (List ℕ) =
      λ o. elim o [ none ↦ none | some p ↦ some p.out ] in
    ap shown (from-pieces xs rest [] h)
