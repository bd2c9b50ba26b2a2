-- ===== src/Kio/Format/Text.antt =====
-- What formats of root/orbit-kernel/util/kio.c print.
use relics.Prelude.{
  ℕ, ◌%◌, ◌^◌, ◌<◌, ◌≡◌, ◌≢◌, refl, arith, ap, sym, ◌∙◌, ne→eqb, Bool, true, false, not, ◌&&◌, ◌==◌,
  Bool-cases, inr, eqb→ne, Option, none, some, List, [], ◌∷◌, ◌++◌, All, length, inl, if-false,
}
use mathlib.Core.Bool.{false≢true}
use relics.Kio.Digits.{decimal_to_base}
use relics.Kio.Digits.Loop.{value}
use relics.Kio.Digits.Base.{decimal_to_base-width}
use relics.Kio.Format.{
  Argument, word, Printer, emit, take_word, print_base, unsigned_directive, Place, text, print_step,
  print_end, actual_print_from, actual_print,
}

pub append_assoc : {A : Type 0} (xs ys zs : List A) → (xs ++ ys) ++ zs ≡ xs ++ (ys ++ zs)
append_assoc [] ys zs = refl
append_assoc (x ∷ xs) ys zs = ap (λ t. x ∷ t) (append_assoc xs ys zs)

pub append-nil : {A : Type 0} (xs : List A) → xs ++ [] ≡ xs
append-nil [] = refl
append-nil (x ∷ xs) = ap (λ t. x ∷ t) (append-nil xs)

-- No character is a percent sign.
abbrev pub Literal : List ℕ → Type 0
Literal = All (λ c. c ≢ 37)

-- The same as a test.
abbrev pub is_literal : List ℕ → Bool
is_literal [] = true
is_literal (c ∷ s) = not (c == 37) && is_literal s

pub is_literal_sound : (s : List ℕ) → is_literal s ≡ true → Literal s
is_literal_sound [] h = tt
is_literal_sound (c ∷ s) h = elim (Bool-cases (c == 37)) [
  | inl e ↦ absurd (false≢true (sym (if-cut e) ∙ h))
  | inr e ↦ (eqb→ne c 37 e, is_literal_sound s (ap (λ b. not b && is_literal s) (sym e) ∙ h))
]
  where
    if-cut : (c == 37) ≡ true → (not (c == 37) && is_literal s) ≡ false
    if-cut e = rw e refl

emit-nil : (p : Printer) → emit [] p ≡ p
unfolding emit
emit-nil p = ap (λ t. record p { out = t }) (append-nil p.out)

emit-emit : (xs ys : List ℕ) (p : Printer) → emit ys (emit xs p) ≡ emit (xs ++ ys) p
unfolding emit
emit-emit xs ys p = ap (λ t. record p { out = t }) (append_assoc p.out xs ys)

-- Literal text is printed as it is, and the loop goes on behind it.
pub from-Literal :
    (str format : List ℕ) (p : Printer)
    → Literal str
    → actual_print_from text (str ++ format) p ≡ actual_print_from text format (emit str p)
unfolding actual_print_from print_step
from-Literal [] format p h = ap (actual_print_from text format) (sym (emit-nil p))
from-Literal (c ∷ str) format p h =
    let continue : Option (Place × Printer) → Option Printer =
      λ o. elim o [ none ↦ none | some (place, p') ↦ actual_print_from place (str ++ format) p' ] in
    ap continue (if-false _ _ (ne→eqb c 37 h.0))
    ∙ from-Literal str format (emit (c ∷ []) p) h.1
    ∙ ap (actual_print_from text format) (emit-emit (c ∷ []) str p)

-- A format without a percent sign prints itself, whatever the arguments.
pub actual_print-Literal :
    (format : List ℕ) (args : List Argument)
    → Literal format
    → actual_print format args ≡ some format
unfolding actual_print actual_print_from print_end emit
actual_print-Literal format args h =
    let start : Printer = record { zero_pad = false; args = args; out = [] } in
    let shown : Option Printer → Option (List ℕ) =
      λ o. elim o [ none ↦ none | some p ↦ some p.out ] in
    ap (λ f. shown (actual_print_from text f start)) (sym (append-nil format))
    ∙ ap shown (from-Literal format [] start h)

-- "%0lx"
abbrev pub padded_hex : List ℕ
padded_hex = 37 ∷ b'0' ∷ b'l' ∷ b'x' ∷ []

pub print_base-text :
    (prefix : List ℕ) (base n : ℕ) (p : Printer) (t : List ℕ) (pad : Bool)
    → decimal_to_base 65 n base p.zero_pad ≡ some (t, pad)
    → print_base prefix base n p ≡ some (record (emit (prefix ++ t) p) { zero_pad = pad })
unfolding print_base
print_base-text prefix base n p t pad e = rw (e, print_base) refl

pub from-padded_hex :
    (post : List ℕ) (w : ℕ) (rest : List Argument) (pad : Bool) (o t : List ℕ)
    → decimal_to_base 65 (w % 2 ^ 64) 16 true ≡ some (t, false)
    → actual_print_from text
        (padded_hex ++ post)
        (record { zero_pad = pad; args = word w ∷ rest; out = o })
      ≡ actual_print_from text post
          (record { zero_pad = false; args = rest; out = o ++ (b'0' ∷ b'x' ∷ t) })
unfolding actual_print_from print_step unsigned_directive take_word emit
from-padded_hex post w rest pad o t e =
    let back : Option Printer → Option (Place × Printer) =
      λ r. elim r [ none ↦ none | some p ↦ some (text, p) ] in
    let continue : Option (Place × Printer) → Option Printer =
      λ r. elim r [ none ↦ none | some (place, p) ↦ actual_print_from place post p ] in
    ap (λ r. continue (back r))
      (print_base-text (b'0' ∷ b'x' ∷ []) 16 (w % 2 ^ 64)
        (record { zero_pad = true; args = rest; out = o }) t false e)

-- "%0lx" between literal texts, with a 64-bit number, prints "0x" and sixteen characters in its
-- place, which are the number in base 16.
pub actual_print-padded_hex :
    (pre post : List ℕ) (w : ℕ)
    → Literal pre
    → Literal post
    → w < 2 ^ 64
    → (t : List ℕ) × (actual_print (pre ++ (padded_hex ++ post)) (word w ∷ [])
        ≡ some (pre ++ (b'0' ∷ b'x' ∷ (t ++ post))))
      × (length t ≡ 16)
      × (value 16 t ≡ w)
unfolding actual_print actual_print_from print_end emit
actual_print-padded_hex pre post w h k b =
    let d = decimal_to_base-width (w % 2 ^ 64) 16 (omega arith) (inl refl) in
    let shown : Option Printer → Option (List ℕ) =
      λ o. elim o [ none ↦ none | some p ↦ some p.out ] in
    let start : Printer = record { zero_pad = false; args = word w ∷ []; out = [] } in
    let after : Printer = record {
      zero_pad = false;
      args = [];
      out = pre ++ (b'0' ∷ b'x' ∷ d.0);
    } in
    (
      d.0,
      ap shown (from-Literal pre (padded_hex ++ post) start h)
          ∙ ap shown (from-padded_hex post w [] false pre d.0 d.1)
          ∙ ap (λ f. shown (actual_print_from text f after)) (sym (append-nil post))
          ∙ ap shown (from-Literal post [] after k)
          ∙ ap some (append_assoc pre (b'0' ∷ b'x' ∷ d.0) post),
      d.2,
      d.3 ∙ omega (arith, b),
    )

-- A format that ends in "%l" has no result: the loop reads past the format's NUL.
pub actual_print-cut :
    (pre : List ℕ) (args : List Argument)
    → Literal pre
    → actual_print (pre ++ (37 ∷ b'l' ∷ [])) args ≡ none
unfolding actual_print actual_print_from print_step print_end
actual_print-cut pre args h =
    let shown : Option Printer → Option (List ℕ) =
      λ o. elim o [ none ↦ none | some p ↦ some p.out ] in
    ap shown
      (from-Literal pre (37 ∷ b'l' ∷ []) (record { zero_pad = false; args = args; out = [] }) h)
