-- ===== src/Kio/Format/Piece.antt =====
-- About the formats of `actual_print` in root/orbit-kernel/util/kio.c, piece by piece: how a piece
-- is spelled, what it takes and what it stands for.
use relics.Prelude.{
  ℕ, ◌%◌, ◌^◌, ◌≡◌, Bool, true, ◌&&◌, and-left, and-right, List, [], ◌∷◌, ◌++◌, All, ◌==◌,
  if◌then◌else◌, u8,
}
use relics.Kio.Digits.{zero_extend}
use relics.Kio.Digits.Numeral.{numeral, integer}
use relics.Kio.Digits.Based.{based, numeral_in}
use relics.Kio.Format.{Argument, word, string, signed}
use relics.Kio.Format.Text.{Literal, is_literal, is_literal_sound, padded_hex}

-- The directives that print a word in a base other than 10.
pub data Radix : Type 0 where
  binary : Radix
  octal : Radix
  hex : Radix
  upper_hex : Radix
  pointer : Radix
  long_binary : Radix
  long_hex : Radix

-- The characters of the directive, of its prefix, the width of the word and the base.
abbrev pub spelling : Radix → List ℕ
spelling binary = 37 ∷ b'b' ∷ []
spelling octal = 37 ∷ b'o' ∷ []
spelling hex = 37 ∷ b'x' ∷ []
spelling upper_hex = 37 ∷ b'X' ∷ []
spelling pointer = 37 ∷ b'p' ∷ []
spelling long_binary = 37 ∷ b'l' ∷ b'b' ∷ []
spelling long_hex = 37 ∷ b'l' ∷ b'x' ∷ []

abbrev pub prefix : Radix → List ℕ
prefix binary = b'0' ∷ b'b' ∷ []
prefix octal = b'0' ∷ b'o' ∷ []
prefix hex = b'0' ∷ b'x' ∷ []
prefix upper_hex = b'0' ∷ b'X' ∷ []
prefix pointer = b'0' ∷ b'x' ∷ []
prefix long_binary = b'0' ∷ b'b' ∷ []
prefix long_hex = b'0' ∷ b'x' ∷ []

abbrev pub width : Radix → ℕ
width binary = 32
width octal = 32
width hex = 32
width upper_hex = 32
width pointer = 64
width long_binary = 64
width long_hex = 64

abbrev pub base_of : Radix → ℕ
base_of binary = 2
base_of octal = 8
base_of hex = 16
base_of upper_hex = 16
base_of pointer = 16
base_of long_binary = 2
base_of long_hex = 16

-- Plain text, or a directive with its argument.
pub data Piece : Type 0 where
  plain : List ℕ → Piece
  percent : Piece
  characters : List ℕ → Piece
  character : ℕ → Piece
  int : ℕ → Piece
  long_int : ℕ → Piece
  unsigned_int : ℕ → Piece
  unsigned_long : ℕ → Piece
  hexadecimal : ℕ → Piece
  in_base : Radix → ℕ → Piece

-- How a format spells the piece.
abbrev pub spelled : Piece → List ℕ
spelled (plain s) = s
spelled percent = 37 ∷ 37 ∷ []
spelled (characters s) = 37 ∷ b's' ∷ []
spelled (character c) = 37 ∷ b'c' ∷ []
spelled (int w) = 37 ∷ b'd' ∷ []
spelled (long_int w) = 37 ∷ b'l' ∷ b'd' ∷ []
spelled (unsigned_int w) = 37 ∷ b'u' ∷ []
spelled (unsigned_long w) = 37 ∷ b'l' ∷ b'u' ∷ []
spelled (hexadecimal w) = padded_hex
spelled (in_base r w) = spelling r

abbrev pub argument : Piece → List Argument
argument (plain s) = []
argument percent = []
argument (characters s) = string s ∷ []
argument (character c) = word c ∷ []
argument (int w) = word w ∷ []
argument (long_int w) = word w ∷ []
argument (unsigned_int w) = word w ∷ []
argument (unsigned_long w) = word w ∷ []
argument (hexadecimal w) = word w ∷ []
argument (in_base r w) = word w ∷ []

-- What it stands for; a NUL character stands for nothing.
abbrev pub meaning : Piece → List ℕ
meaning (plain s) = s
meaning percent = 37 ∷ []
meaning (characters s) = s
meaning (character c) = if u8 c == 0 then [] else u8 c ∷ []
meaning (int w) = integer (signed 32 w)
meaning (long_int w) = integer (signed 64 w)
meaning (unsigned_int w) = numeral (w % 2 ^ 32)
meaning (unsigned_long w) = numeral (w % 2 ^ 64)
meaning (hexadecimal w) = b'0' ∷ b'x' ∷ zero_extend 16 (based 16 64 (w % 2 ^ 64) [])
meaning (in_base r w) = prefix r ++ numeral_in (base_of r) (w % 2 ^ width r)

-- Plain text has no percent sign.
abbrev pub IsPiece : Piece → Type 0
IsPiece (plain s) = Literal s
IsPiece _ = Unit

-- The same as a test of a list of pieces.
abbrev pub are_pieces : List Piece → Bool
are_pieces [] = true
are_pieces (plain s ∷ xs) = is_literal s && are_pieces xs
are_pieces (_ ∷ xs) = are_pieces xs

pub are_pieces_sound : (xs : List Piece) → are_pieces xs ≡ true → All IsPiece xs
are_pieces_sound [] h = tt
are_pieces_sound (plain s ∷ xs) h = (
  is_literal_sound s (and-left (is_literal s) _ h),
  are_pieces_sound xs (and-right (is_literal s) _ h),
)
are_pieces_sound (percent ∷ xs) h = (tt, are_pieces_sound xs h)
are_pieces_sound (characters s ∷ xs) h = (tt, are_pieces_sound xs h)
are_pieces_sound (character c ∷ xs) h = (tt, are_pieces_sound xs h)
are_pieces_sound (int w ∷ xs) h = (tt, are_pieces_sound xs h)
are_pieces_sound (long_int w ∷ xs) h = (tt, are_pieces_sound xs h)
are_pieces_sound (unsigned_int w ∷ xs) h = (tt, are_pieces_sound xs h)
are_pieces_sound (unsigned_long w ∷ xs) h = (tt, are_pieces_sound xs h)
are_pieces_sound (hexadecimal w ∷ xs) h = (tt, are_pieces_sound xs h)
are_pieces_sound (in_base r w ∷ xs) h = (tt, are_pieces_sound xs h)

abbrev pub formatted : List Piece → List ℕ
formatted [] = []
formatted (x ∷ xs) = spelled x ++ formatted xs

abbrev pub arguments : List Piece → List Argument
arguments [] = []
arguments (x ∷ xs) = argument x ++ arguments xs

abbrev pub meant : List Piece → List ℕ
meant [] = []
meant (x ∷ xs) = meaning x ++ meant xs
