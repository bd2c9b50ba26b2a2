-- ===== src/Kio/Digits/Loop.antt =====
-- About the digit loop of `decimal_to_base` in root/orbit-kernel/util/kio.c.
use native.Mathlib.Nat.{pow-zero, pow-suc, div-add-mod, mod-lt}
use relics.Prelude.{
  ℕ, zero, suc, ◌+◌, ◌-◌, ◌*◌, ◌/◌, ◌%◌, ◌^◌, ◌<◌, ◌≤◌, ◌≡◌, ◌∙◌, ap, refl, true, Option, some,
  List, [], ◌∷◌, ltb, ◌==◌, eqb→eq, if◌then◌else◌, all_below, all_below_sound, length, lt→ltb,
  arith,
}
use relics.Kio.Digits.{digit, digits_loop}

-- The number that a digit character stands for, and a text, whose first character counts most.
unfoldable pub digit_value : ℕ → ℕ
digit_value c = if ltb c 97 then c - 48 else c - 87

unfoldable pub value : (base : ℕ) → List ℕ → ℕ
unfolding digit_value
value base [] = 0
value base (c ∷ cs) = digit_value c * base ^ length cs + value base cs

digit_table : all_below 16 (λ d. digit_value (digit d) == d) ≡ true
unfolding all_below digit_value digit
digit_table = refl

pub digit_value-digit : (d : ℕ) → d < 16 → digit_value (digit d) ≡ d
digit_value-digit d h =
    eqb→eq (digit_value (digit d)) d
      (all_below_sound (λ x. digit_value (digit x) == x) d 16 h digit_table)

-- The loop ended, with these characters in front of those that were there.
pub record Digits (n base k : ℕ) (num : List ℕ) (r : Option (List ℕ)) : Type 0 where
  pub out : List ℕ
  pub returns : r ≡ some out
  pub worth : value base out ≡ n * base ^ length num + value base num
  pub size : length out ≤ length num + k
  pub least : length num ≤ length out
  pub grows : 0 < n → length num < length out

div-lt-pow : (n base k : ℕ) → 2 ≤ base → n < base ^ suc k → n / base < base ^ k
div-lt-pow n base k b h = grind (arith, pow-suc, div-add-mod)

-- The lowest digit and the rest of a number, as the text counts them.
horner : (m base l v : ℕ) → m / base * base ^ suc l + (m % base * base ^ l + v) ≡ m * base ^ l + v
horner m base l v = omega (
  arith,
  ap (λ (t : ℕ). m / base * t) (pow-suc base l),
  ap (λ (t : ℕ). t * base ^ l) (div-add-mod m base),
)

pub digits_loop-Digits :
    (k fuel n base : ℕ) (num : List ℕ)
    → 2 ≤ base
    → base ≤ 16
    → n < base ^ k
    → k < fuel
    → Digits n base k num (digits_loop fuel n base num)
unfolding digits_loop value
digits_loop-Digits k zero n base num b c h f = absurd (omega arith)
digits_loop-Digits k (suc fuel) zero base num b c h f = record {
  out = num;
  returns = refl;
  worth = omega arith;
  size = omega arith;
  least = omega arith;
  grows = λ g. absurd (omega arith);
}
digits_loop-Digits zero (suc fuel) (suc n) base num b c h f = absurd (omega (arith, pow-zero base))
digits_loop-Digits (suc k) (suc fuel) (suc n) base num b c h f =
    let m = suc n in
    let ih =
      digits_loop-Digits k fuel (m / base) base (digit (m % base) ∷ num) b c
        (div-lt-pow m base k b h) (omega arith) in
    let d = digit_value-digit (m % base) (omega (arith, mod-lt m {m = base} (omega arith))) in
    rw (lt→ltb 0 m (omega arith)) (record {
      out = ih.out;
      returns = ih.returns;
      worth = ih.worth ∙ rw d (horner m base (length num) (value base num));
      size = omega (arith, ih.size);
      least = omega (arith, ih.least);
      grows = λ g. omega (arith, ih.least);
    })
