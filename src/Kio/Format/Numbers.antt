-- ===== src/Kio/Format/Numbers.antt =====
-- About the numbers that `actual_print` of root/orbit-kernel/util/kio.c prints.
use native.Mathlib.Nat.{mod-lt, one-le-pow}
use relics.Prelude.{
  ℕ, zero, suc, ◌+◌, ◌-◌, ◌%◌, ◌^◌, ◌<◌, ◌≤◌, ◌≡◌, ◌∙◌, ap, ap₂, refl, Option, none, some, List, [],
  ◌∷◌, All, All-map, Memory, length, if-true, if-false, eq→eqb, ne→eqb, ltb, Bool-cases, inl, inr,
  arith,
}
use relics.Prelude.Int.{ℤ, pos, negsuc}
use relics.Kio.Digits.Decimal.{Decimal, decimal-Decimal, length-decimal, places-le}
use relics.Kio.Digits.Buffer.{Holds}
use relics.Kio.Digits.Numeral.{numeral, integer, magnitude, lltoa-Written}
use relics.Kio.Format.{Printer, emit, signed, read_string, print_long_long}

pub read_string-Holds :
    (text : List ℕ) (fuel a : ℕ) (m : Memory)
    → All (λ c. 0 < c) text
    → Holds text a m
    → m (a + length text) ≡ 0
    → length text ≤ fuel
    → read_string fuel a m ≡ text
unfolding read_string
read_string-Holds [] zero a m p h n lt = refl
read_string-Holds (c ∷ text) zero a m p h n lt = absurd (omega arith)
read_string-Holds [] (suc fuel) a m p h n lt = if-true _ _ (eq→eqb (m a) 0 (ap m (omega arith) ∙ n))
read_string-Holds (c ∷ text) (suc fuel) a m p h n lt =
    if-false _ _ (ne→eqb (m a) 0 (omega (arith, p.0, h.0)))
    ∙ ap₂ (λ x xs. x ∷ xs) h.0
        (read_string-Holds text fuel (a + 1) m p.1 h.1 (ap m (omega arith) ∙ n) (omega arith))

digits-pos : (text : List ℕ) → Decimal text → All (λ c. 0 < c) text
digits-pos text h = All-map text (λ c d. omega (arith, d.0)) h

pub numeral-pos : (n : ℕ) → All (λ c. 0 < c) (numeral n)
numeral-pos zero = (omega arith, tt)
numeral-pos (suc n) = digits-pos (numeral (suc n)) (decimal-Decimal 63 (suc n) [] tt)

numeral-short : (n : ℕ) → length (numeral n) ≤ 63
numeral-short zero = omega arith
numeral-short (suc n) = omega (arith, length-decimal 63 (suc n) [], places-le 63 (suc n))

integer-pos : (num : ℤ) → All (λ c. 0 < c) (integer num)
integer-pos (pos n) = numeral-pos n
integer-pos (negsuc n) = (omega arith, numeral-pos (suc n))

integer-short : (num : ℤ) → length (integer num) ≤ 64
integer-short (pos n) = omega (arith, numeral-short n)
integer-short (negsuc n) = omega (arith, numeral-short (suc n))

pub print_long_long-emits :
    (num : ℤ) (p : Printer)
    → magnitude num < 10 ^ 63
    → print_long_long num p ≡ some (emit (integer num) p)
unfolding print_long_long
print_long_long-emits num p h =
    let w = lltoa-Written num 0 (λ a. 0) h in
    let go : Option Memory → Option Printer =
      λ o. elim o [ none ↦ none | some m ↦ some (emit (read_string 64 0 m) p) ] in
    ap go w.returns
    ∙ ap (λ t. some (emit t p))
        (read_string-Holds (integer num) 64 0 w.after (integer-pos num) w.holds w.nul
          (integer-short num))

pub signed-magnitude : (bits w : ℕ) → magnitude (signed bits w) ≤ 2 ^ bits
unfolding signed
signed-magnitude bits w = elim (Bool-cases (ltb (w % 2 ^ bits) (2 ^ (bits - 1)))) [
  | inl small ↦ rw small (omega (arith, mod-lt w {m = 2 ^ bits} (one-le-pow bits 2 (omega arith))))
  | inr large ↦ rw large (omega (arith, one-le-pow bits 2))
]
