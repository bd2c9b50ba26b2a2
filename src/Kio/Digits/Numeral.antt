-- ===== src/Kio/Digits/Numeral.antt =====
-- About `digit_count`, `ulltoa` and `lltoa` of root/orbit-kernel/util/kio.c.
use relics.Prelude.{
  ℕ, zero, suc, ◌+◌, ◌-◌, ◌/◌, ◌%◌, ◌^◌, ◌<◌, ◌≤◌, ◌≡◌, ◌⊎◌, inl, inr, ◌∙◌, ap, sym, refl, Option,
  none, some, List, [], ◌∷◌, Memory, write, ◌==◌, ◌&&◌, ltb, if◌then◌else◌, Bool-cases, false,
  length, if-true, if-false, arith, tests, ne→eqb,
}
use mathlib.Core.Option
use relics.Prelude.Int.{ℤ, pos, negsuc}
use relics.Kio.Digits.{digit_count_unsigned, digit_count, put_digits, ulltoa, lltoa}
use relics.Kio.Digits.Decimal.{
  decimal, places, count_loop-places, places-pos, places-le, length-decimal,
}
use relics.Kio.Digits.Buffer.{Holds, Holds-frame, put_loop-Put, write-same, write-other}

-- The text of a number below 10 ^ 63.
abbrev pub numeral : ℕ → List ℕ
numeral zero = b'0' ∷ []
numeral (suc n) = decimal 63 (suc n) []

-- The call returned with a text and its NUL from an address on, and the other cells unchanged.
pub record Written (text : List ℕ) (at : ℕ) (m : Memory) (r : Option Memory) : Type 0 where
  pub after : Memory
  pub returns : r ≡ some after
  pub holds : Holds text at after
  pub nul : after (at + length text) ≡ 0
  pub frame : (b : ℕ) → (b < at) ⊎ (at + length text < b) → after b ≡ m b

pub Written-along :
    {text : List ℕ} {at at' : ℕ} {m : Memory} {r r' : Option Memory}
    → at' ≡ at
    → r ≡ r'
    → Written text at' m r'
    → Written text at m r
Written-along f e w = rw (e, sym f) w

pub digit_count_unsigned-length :
    (n : ℕ) → n < 10 ^ 63 → digit_count_unsigned 64 n ≡ some (length (numeral n))
unfolding digit_count_unsigned
digit_count_unsigned-length zero h = refl
digit_count_unsigned-length (suc n) h = elim (Bool-cases (ltb (suc n) 10)) [
  | inl small ↦
      let none_left : suc n / 10 ≡ 0 = omega (tests, small) in
      if-true _ _ small
      ∙ ap (λ q. some (length (decimal 62 q ((suc n % 10 + b'0') ∷ [])))) (sym none_left)
  | inr large ↦
      if-false _ _ large
      ∙ count_loop-places 63 (suc n) 0 h (omega arith)
      ∙ ap some (omega (arith, length-decimal 63 (suc n) []))
]

-- The digits of a positive number and the NUL behind them.
pub put_digits-Written :
    (limit n first number : ℕ) (m : Memory)
    → 0 < n
    → n < 10 ^ 63
    → first + 63 < limit
    → Written
        (decimal 63 n [])
        (number + first)
        m
        (put_digits 64 limit n (first + places 63 n) number m)
unfolding put_digits
put_digits-Written limit n first number m p h lt =
    let count = first + places 63 n in
    let positive : 0 < places 63 n = places-pos 63 n h p in
    let most : places 63 n ≤ 63 = places-le 63 n in
    let size : length (decimal 63 n []) ≡ places 63 n = omega (arith, length-decimal 63 n []) in
    let put =
      put_loop-Put 63 limit n (count - 1) number first [] m h (omega arith) (λ _. omega arith) tt in
    record {
      after = write put.after (number + count) 0;
      returns = ap (Option.map (λ m'. write m' (number + count) 0)) put.returns;
      holds =
          Holds-frame (decimal 63 n []) (number + first) put.after _
            (λ b lo hi. write-other put.after (number + count) b 0 (omega arith)) put.holds;
      nul = write-same put.after (number + count) _ 0 (omega arith);
      frame = λ b o. elim o [
        | inl below ↦
            write-other put.after (number + count) b 0 (omega arith) ∙ put.frame b (inl below)
        | inr above ↦
            write-other put.after (number + count) b 0 (omega arith)
            ∙ put.frame b (inr (omega arith))
      ];
    }

zero-Written :
    (number : ℕ) (m : Memory)
    → Written (b'0' ∷ []) number m (some (write (write m number b'0') (number + 1) 0))
zero-Written number m = record {
  after = write (write m number b'0') (number + 1) 0;
  returns = refl;
  holds = (
    write-other (write m number b'0') (number + 1) number 0 (omega arith)
        ∙ write-same m number number b'0' refl,
    tt,
  );
  nul = write-same (write m number b'0') (number + 1) (number + 1) 0 refl;
  frame = λ b o.
      write-other (write m number b'0') (number + 1) b 0 (ground arith)
      ∙ write-other m number b b'0' (ground arith);
}

pub ulltoa-Written :
    (n number : ℕ) (m : Memory) → n < 10 ^ 63 → Written (numeral n) number m (ulltoa 64 n number m)
unfolding ulltoa
ulltoa-Written zero number m h = zero-Written number m
ulltoa-Written (suc n) number m h =
    let go : Option ℕ → Option Memory = λ o. elim o [
      | none ↦ none
      | some dgcount ↦
          if suc n == 0 && dgcount == 1
          then some (write (write m number b'0') (number + 1) 0)
          else put_digits 64 (2 ^ 64) (suc n) dgcount number m
    ] in
    let size : length (numeral (suc n)) ≡ 0 + places 63 (suc n) =
      omega (arith, length-decimal 63 (suc n) []) in
    let nonzero : (suc n == 0 && length (numeral (suc n)) == 1) ≡ false =
      rw (ne→eqb (suc n) 0 (omega arith)) refl in
    Written-along (omega arith)
      (ap go (digit_count_unsigned-length (suc n) h)
        ∙ if-false _ _ nonzero
        ∙ ap (λ d. put_digits 64 (2 ^ 64) (suc n) d number m) size)
      (put_digits-Written (2 ^ 64) (suc n) 0 number m (omega arith) h (omega arith))

-- How `lltoa` writes an integer.
abbrev pub integer : ℤ → List ℕ
integer (pos n) = numeral n
integer (negsuc n) = 45 ∷ numeral (suc n)

-- The magnitude.
abbrev pub magnitude : ℤ → ℕ
magnitude (pos n) = n
magnitude (negsuc n) = suc n

pub lltoa-Written :
    (num : ℤ) (number : ℕ) (m : Memory)
    → magnitude num < 10 ^ 63
    → Written (integer num) number m (lltoa 64 num number m)
unfolding lltoa digit_count
lltoa-Written (pos zero) number m h = zero-Written number m
lltoa-Written (pos (suc n)) number m h =
    let go : Option ℕ → Option Memory = λ o. elim o [
      | none ↦ none
      | some dgcount ↦
          if suc n == 0 && dgcount == 1
          then some (write (write m number b'0') (number + 1) 0)
          else put_digits 64 (2 ^ 32) (suc n) dgcount number m
    ] in
    let nonzero : (suc n == 0 && 0 + places 63 (suc n) == 1) ≡ false =
      rw (ne→eqb (suc n) 0 (omega arith)) refl in
    Written-along (omega arith)
      (ap go (
          if-false _ _ (ne→eqb (suc n) 0 (omega arith))
          ∙ count_loop-places 63 (suc n) 0 h (omega arith))
        ∙ if-false _ _ nonzero)
      (put_digits-Written (2 ^ 32) (suc n) 0 number m (omega arith) h (omega arith))
lltoa-Written (negsuc n) number m h =
    let go : Option ℕ → Option Memory = λ o. elim o [
      | none ↦ none
      | some dgcount ↦ put_digits 64 (2 ^ 32) (suc n) dgcount number (write m number 45)
    ] in
    let digits =
      put_digits-Written (2 ^ 32) (suc n) 1 number (write m number 45) (omega arith) h
        (omega arith) in
    record {
      after = digits.after;
      returns = ap go (count_loop-places 63 (suc n) 1 h (omega arith)) ∙ digits.returns;
      holds = (
        digits.frame number (inl (omega arith)) ∙ write-same m number number 45 refl,
        digits.holds,
      );
      nul = ap digits.after (omega arith) ∙ digits.nul;
      frame = λ b o. elim o [
        | inl below ↦ digits.frame b (inl (omega arith)) ∙ write-other m number b 45 (omega arith)
        | inr above ↦ digits.frame b (inr (omega arith)) ∙ write-other m number b 45 (omega arith)
      ];
    }
