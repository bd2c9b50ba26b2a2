-- ===== src/Kio/Digits/Base.antt =====
-- About `decimal_to_base` of root/orbit-kernel/util/kio.c: the value and the width of its text.
use native.Mathlib.Nat.{pow-le-pow_left, pow-zero}
use relics.Prelude.{
  ℕ, zero, suc, ◌+◌, ◌-◌, ◌*◌, ◌^◌, ◌<◌, ◌≤◌, ◌≡◌, ◌⊎◌, ◌∙◌, ap, sym, refl, inl, inr, Bool, true,
  false, Option, some, List, [], ◌∷◌, ◌++◌, ◌==◌, eqb→eq, eqb→ne, ne→eqb, if◌then◌else◌, length,
  length-append, length-replicate, replicate, Bool-cases, arith,
}
use mathlib.Core.Bool.{false≢true}
use relics.Kio.Digits.{digits_loop, zero_extend, pad_width, decimal_to_base}
use relics.Kio.Digits.Loop.{value, digit_value, Digits, digits_loop-Digits}

-- Leading zeros do not change the value.
value-zeros : (base k : ℕ) (num : List ℕ) → value base (replicate k b'0' ++ num) ≡ value base num
unfolding value
value-zeros base zero num = refl
value-zeros base (suc k) num = omega (arith, value-zeros base k num)

pub value-zero_extend :
    (base width : ℕ) (num : List ℕ) → value base (zero_extend width num) ≡ value base num
unfolding zero_extend
value-zero_extend base width num = value-zeros base (width - length num) num

pub length-zero_extend :
    (width : ℕ) (num : List ℕ) → length (zero_extend width num) ≡ (width - length num) + length num
unfolding zero_extend
length-zero_extend width num = omega (
  arith,
  length-append (replicate (width - length num) b'0') num,
  length-replicate {A = ℕ} (width - length num) b'0',
)

-- The branch with zero extension, after its loop.
padded-eq :
    (n base : ℕ) (num : List ℕ)
    → 2 ≤ base
    → digits_loop 65 n base [] ≡ some num
    → decimal_to_base 65 n base true ≡ some (zero_extend (pad_width base) num, false)
unfolding decimal_to_base
padded-eq n base num two e = elim (Bool-cases (n == 0)) [
  | inl z ↦ rw (ne→eqb base 0 (omega arith), z, e, decimal_to_base)
  | inr z ↦ rw (ne→eqb base 0 (omega arith), z, e, decimal_to_base)
]

-- The run returned a text of at most 64 characters with the value n, and cleared the flag; without
-- zero extension it printed something.
pub record Prints (n base : ℕ) (zero_pad : Bool) (r : Option (List ℕ × Bool)) : Type 0 where
  pub out : List ℕ
  pub returns : r ≡ some (out, false)
  pub worth : value base out ≡ n
  pub size : length out ≤ 64
  pub shown : zero_pad ≡ false → 0 < length out

pad_width-le : (base : ℕ) → pad_width base ≤ 64
unfolding pad_width
pad_width-le base = ground arith

module _ (n base : ℕ) (two : 2 ≤ base) (sixteen : base ≤ 16) (h : n < 2 ^ 64) where
  found : Digits n base 64 [] (digits_loop 65 n base [])
  found =
      digits_loop-Digits 64 65 n base [] two sixteen
        (omega (arith, pow-le-pow_left {n = 2} {m = base} two 64)) (omega arith)

  found-worth : value base found.out ≡ n
  unfolding value
  found-worth = omega (arith, found.worth, ap (λ (t : ℕ). n * t) (pow-zero base))

  plain-Prints : Prints n base false (decimal_to_base 65 n base false)
  unfolding decimal_to_base value digit_value
  plain-Prints = elim (Bool-cases (n == 0)) [
    | inl zero_left ↦
        let e = eqb→eq n 0 zero_left in
        rw (ne→eqb base 0 (omega arith), zero_left)
          (record {
            out = b'0' ∷ [];
            returns = refl;
            worth = omega (arith, e);
            size = omega arith;
            shown = λ _. omega arith;
          })
    | inr some_left ↦
        let ne = eqb→ne n 0 some_left in
        rw (ne→eqb base 0 (omega arith), some_left, found.returns, decimal_to_base)
          (record {
            out = found.out;
            returns = refl;
            worth = found-worth;
            size = found.size;
            shown = λ _. found.grows (omega arith);
          })
  ]

  padded-Prints : Prints n base true (decimal_to_base 65 n base true)
  padded-Prints = record {
    out = zero_extend (pad_width base) found.out;
    returns = padded-eq n base found.out two found.returns;
    worth = value-zero_extend base (pad_width base) found.out ∙ found-worth;
    size =
        omega (arith, length-zero_extend (pad_width base) found.out, pad_width-le base, found.size);
    shown = λ e. absurd (false≢true (sym e));
  }

-- For a base from 2 to 16 and a 64-bit number `decimal_to_base` returns and clears the flag; the
-- text that it prints is the number in that base, and fits the array of 64 characters, with or
-- without zero extension. Without it at least one character is printed.
pub decimal_to_base-Prints :
    (n base : ℕ) (zero_pad : Bool)
    → 2 ≤ base
    → base ≤ 16
    → n < 2 ^ 64
    → Prints n base zero_pad (decimal_to_base 65 n base zero_pad)
decimal_to_base-Prints n base false two sixteen h = plain-Prints n base two sixteen h
decimal_to_base-Prints n base true two sixteen h = padded-Prints n base two sixteen h

exact-width :
    (n base : ℕ)
    → 2 ≤ base
    → base ≤ 16
    → pad_width base ≤ 64
    → n < base ^ pad_width base
    → (out : List ℕ) × (decimal_to_base 65 n base true ≡ some (out, false))
      × (length out ≡ pad_width base)
      × (value base out ≡ n)
unfolding value
exact-width n base two sixteen le h =
    let d = digits_loop-Digits (pad_width base) 65 n base [] two sixteen h (omega arith) in
    (
      zero_extend (pad_width base) d.out,
      padded-eq n base d.out two d.returns,
      omega (arith, length-zero_extend (pad_width base) d.out, d.size),
      value-zero_extend base (pad_width base) d.out
          ∙ omega (arith, d.worth, ap (λ (t : ℕ). n * t) (pow-zero base)),
    )

-- With zero extension the text of a 64-bit number has exactly 16 characters in base 16, 64 in
-- base 2 and 20 in base 10, and is the number.
pub decimal_to_base-width :
    (n base : ℕ)
    → n < 2 ^ 64
    → (base ≡ 16) ⊎ ((base ≡ 2) ⊎ (base ≡ 10))
    → (out : List ℕ) × (decimal_to_base 65 n base true ≡ some (out, false))
      × (length out ≡ (if base == 16 then 16 else if base == 2 then 64 else 20))
      × (value base out ≡ n)
unfolding pad_width
decimal_to_base-width n base h (inl e) =
    rw e (exact-width n 16 (omega arith) (omega arith) (omega arith) (omega arith))
decimal_to_base-width n base h (inr (inl e)) =
    rw e (exact-width n 2 (omega arith) (omega arith) (omega arith) (omega arith))
decimal_to_base-width n base h (inr (inr e)) =
    rw e (exact-width n 10 (omega arith) (omega arith) (omega arith) (omega arith))
