-- ===== src/Kio/Digits/Decimal.antt =====
-- The decimal digits of a number by recursion, which the loops of root/orbit-kernel/util/kio.c that
-- count and write digits are compared with.
use native.Mathlib.Nat.{pow-zero, pow-suc, div-add-mod}
use relics.Prelude.{
  ℕ, zero, suc, ◌+◌, ◌*◌, ◌/◌, ◌%◌, ◌^◌, ◌<◌, ◌≤◌, ◌≡◌, ◌∙◌, ap, some, List, ◌∷◌, All, length,
  lt→ltb, if-true, arith, u32,
}
use relics.Kio.Digits.{count_loop}
use relics.Kio.Digits.Loop.{digit_value, value}

-- The digits of a number in front of a text; 0 has none.
abbrev pub decimal : (fuel n : ℕ) → List ℕ → List ℕ
decimal zero n text = text
decimal (suc fuel) zero text = text
decimal (suc fuel) (suc n) text = decimal fuel (suc n / 10) ((suc n % 10 + b'0') ∷ text)

-- How many digits these are.
abbrev pub places : (fuel n : ℕ) → ℕ
places zero n = 0
places (suc fuel) zero = 0
places (suc fuel) (suc n) = suc (places fuel (suc n / 10))

pub div-lt-pow : (n k : ℕ) → n < 10 ^ suc k → n / 10 < 10 ^ k
div-lt-pow n k h = omega (arith, pow-suc 10 k)

pub count_loop-places :
    (k n count : ℕ)
    → n < 10 ^ k
    → count + k < 2 ^ 32
    → count_loop (suc k) n count ≡ some (count + places k n)
unfolding count_loop
count_loop-places zero zero count h b = ap some (omega arith)
count_loop-places zero (suc n) count h b = absurd (omega (arith, pow-zero 10))
count_loop-places (suc k) zero count h b = ap some (omega arith)
count_loop-places (suc k) (suc n) count h b =
    if-true _ _ (lt→ltb 0 (suc n) (omega arith))
    ∙ ap (count_loop (suc k) (suc n / 10)) {x = u32 (count + 1)} {y = count + 1} (omega arith)
    ∙ count_loop-places k (suc n / 10) (count + 1) (div-lt-pow (suc n) k h) (omega arith)
    ∙ ap some (omega arith)

pub places-pos : (k n : ℕ) → n < 10 ^ k → 0 < n → 0 < places k n
places-pos zero n h p = absurd (omega (arith, pow-zero 10))
places-pos (suc k) zero h p = absurd (omega arith)
places-pos (suc k) (suc n) h p = omega arith

pub places-le : (k n : ℕ) → places k n ≤ k
places-le zero n = omega arith
places-le (suc k) zero = omega arith
places-le (suc k) (suc n) = omega (arith, places-le k (suc n / 10))

pub length-decimal :
    (k n : ℕ) (text : List ℕ) → length (decimal k n text) ≡ places k n + length text
length-decimal zero n text = omega arith
length-decimal (suc k) zero text = omega arith
length-decimal (suc k) (suc n) text =
    omega (arith, length-decimal k (suc n / 10) ((suc n % 10 + b'0') ∷ text))

-- Every character is a decimal digit.
abbrev pub Decimal : List ℕ → Type 0
Decimal = All (λ c. (b'0' ≤ c) × (c ≤ b'9'))

pub decimal-Decimal : (k n : ℕ) (text : List ℕ) → Decimal text → Decimal (decimal k n text)
decimal-Decimal zero n text h = h
decimal-Decimal (suc k) zero text h = h
decimal-Decimal (suc k) (suc n) text h =
    decimal-Decimal k (suc n / 10) ((suc n % 10 + b'0') ∷ text) ((omega arith, omega arith), h)

digit_value-decimal : (d : ℕ) → d < 10 → digit_value (d + b'0') ≡ d
unfolding digit_value
digit_value-decimal d h = ground arith

-- The text's value is the number.
pub value-decimal :
    (k n : ℕ) (text : List ℕ)
    → n < 10 ^ k
    → value 10 (decimal k n text) ≡ n * 10 ^ length text + value 10 text
unfolding value
value-decimal zero zero text h = omega arith
value-decimal zero (suc n) text h = absurd (omega (arith, pow-zero 10))
value-decimal (suc k) zero text h = omega arith
value-decimal (suc k) (suc n) text h =
    let m = suc n in
    let l = length text in
    value-decimal k (m / 10) ((m % 10 + b'0') ∷ text) (div-lt-pow m k h)
    ∙ omega (
      arith,
      ap (λ (t : ℕ). t * 10 ^ l) (digit_value-decimal (m % 10) (omega arith)),
      ap (λ (t : ℕ). m / 10 * t) (pow-suc 10 l),
      ap (λ (t : ℕ). t * 10 ^ l) (div-add-mod m 10),
    )

-- A bound on the number bounds its digits.
pub places-le_pow : (k j n : ℕ) → n < 10 ^ j → places k n ≤ j
places-le_pow zero j n h = omega arith
places-le_pow (suc k) j zero h = omega arith
places-le_pow (suc k) zero (suc n) h = absurd (omega (arith, pow-zero 10))
places-le_pow (suc k) (suc j) (suc n) h =
    omega (arith, places-le_pow k j (suc n / 10) (div-lt-pow (suc n) j h))
