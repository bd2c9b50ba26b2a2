-- ===== src/Kio/Digits/Based.antt =====
-- About the digit loop of `decimal_to_base` in root/orbit-kernel/util/kio.c: the digits by recursion.
use native.Mathlib.Nat.{pow-zero, pow-suc, div-add-mod}
use relics.Prelude.{
  ℕ, zero, suc, ◌+◌, ◌/◌, ◌%◌, ◌^◌, ◌<◌, ◌≤◌, ◌≡◌, ◌∙◌, ap, refl, Bool, true, false, Option, none,
  some, ne→eqb, ◌&&◌, if-false, List, [], ◌∷◌, if-true, lt→ltb, ◌==◌, eqb→eq, arith, all_below,
  all_below_sound,
}
use relics.Kio.Digits.{digit, digits_loop, zero_extend, pad_width, decimal_to_base}
use relics.Kio.Digits.Numeral.{numeral}
use relics.Kio.Digits.Decimal.{decimal, div-lt-pow}

-- The digits in any base.
abbrev pub based : (base fuel n : ℕ) → List ℕ → List ℕ
based base zero n num = num
based base (suc fuel) zero num = num
based base (suc fuel) (suc n) num = based base fuel (suc n / base) (digit (suc n % base) ∷ num)

div-lt-pow-base : (n base k : ℕ) → 2 ≤ base → n < base ^ suc k → n / base < base ^ k
div-lt-pow-base n base k b h = grind (arith, pow-suc, div-add-mod)

pub digits_loop-based :
    (base k n : ℕ) (num : List ℕ)
    → 2 ≤ base
    → n < base ^ k
    → digits_loop (suc k) n base num ≡ some (based base k n num)
unfolding digits_loop
digits_loop-based base zero zero num two h = refl
digits_loop-based base zero (suc n) num two h = absurd (omega (arith, pow-zero base))
digits_loop-based base (suc k) zero num two h = refl
digits_loop-based base (suc k) (suc n) num two h =
    if-true _ _ (lt→ltb 0 (suc n) (omega arith))
    ∙ digits_loop-based base k (suc n / base) (digit (suc n % base) ∷ num) two
        (div-lt-pow-base (suc n) base k two h)

digit_table : all_below 10 (λ d. digit d == d + b'0') ≡ true
unfolding all_below digit
digit_table = refl

-- In base 10 these are the decimal digits.
pub based-decimal : (k n : ℕ) (num : List ℕ) → based 10 k n num ≡ decimal k n num
based-decimal zero n num = refl
based-decimal (suc k) zero num = refl
based-decimal (suc k) (suc n) num =
    let d = suc n % 10 in
    let e : digit d ≡ d + b'0' =
      eqb→eq (digit d) (d + b'0')
        (all_below_sound (λ x. digit x == x + b'0') d 10 (omega arith) digit_table) in
    ap (λ c. based 10 k (suc n / 10) (c ∷ num)) e ∙ based-decimal k (suc n / 10) ((d + b'0') ∷ num)

decimal-more : (k n : ℕ) (num : List ℕ) → n < 10 ^ k → decimal (suc k) n num ≡ decimal k n num
decimal-more zero zero num h = refl
decimal-more zero (suc n) num h = absurd (omega (arith, pow-zero 10))
decimal-more (suc k) zero num h = refl
decimal-more (suc k) (suc n) num h =
    decimal-more k (suc n / 10) ((suc n % 10 + b'0') ∷ num) (div-lt-pow (suc n) k h)

nonzero : (n : ℕ) → (suc n == 0 && true) ≡ false
nonzero n = rw (ne→eqb (suc n) 0 (omega arith)) refl

-- What the branch without zero extension prints in base 10.
pub decimal_to_base-numeral :
    (n : ℕ) → n < 10 ^ 63 → decimal_to_base 65 n 10 false ≡ some (numeral n, false)
unfolding decimal_to_base
decimal_to_base-numeral zero h = refl
decimal_to_base-numeral (suc n) h =
    let go : Option (List ℕ) → Option (List ℕ × Bool) =
      λ o. elim o [ none ↦ none | some num ↦ some (num, false) ] in
    if-false _ _ (nonzero n)
    ∙ ap go (digits_loop-based 10 64 (suc n) [] (omega arith) (omega arith))
    ∙ ap (λ t. some (t, false)) (based-decimal 64 (suc n) [] ∙ decimal-more 63 (suc n) [] h)

-- What the branch with zero extension prints in base 16.
pub decimal_to_base-based :
    (n : ℕ)
    → n < 2 ^ 64
    → decimal_to_base 65 n 16 true ≡ some (zero_extend 16 (based 16 64 n []), false)
unfolding decimal_to_base pad_width
decimal_to_base-based n h =
    let go : Option (List ℕ) → Option (List ℕ × Bool) =
      λ o. elim o [ none ↦ none | some num ↦ some (zero_extend 16 num, false) ] in
    if-false _ _ (and_false (n == 0))
    ∙ ap go (digits_loop-based 16 64 n [] (omega arith) (omega arith))
  where
    and_false : (b : Bool) → (b && false) ≡ false
    and_false true = refl
    and_false false = refl

-- The text of a number in a base.
abbrev pub numeral_in : (base n : ℕ) → List ℕ
numeral_in base zero = b'0' ∷ []
numeral_in base (suc n) = based base 64 (suc n) []

-- What the branch without zero extension prints in any base.
pub decimal_to_base-numeral_in :
    (base n : ℕ)
    → 2 ≤ base
    → n < base ^ 64
    → decimal_to_base 65 n base false ≡ some (numeral_in base n, false)
unfolding decimal_to_base
decimal_to_base-numeral_in base zero two h = rw (ne→eqb base 0 (omega arith)) refl
decimal_to_base-numeral_in base (suc n) two h =
    let go : Option (List ℕ) → Option (List ℕ × Bool) =
      λ o. elim o [ none ↦ none | some num ↦ some (num, false) ] in
    if-false _ _ (ne→eqb base 0 (omega arith))
    ∙ if-false _ _ (nonzero n)
    ∙ ap go (digits_loop-based base 64 (suc n) [] two h)
