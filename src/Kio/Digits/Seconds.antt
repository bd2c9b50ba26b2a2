-- ===== src/Kio/Digits/Seconds.antt =====
-- About `zero_extend_3` and `milliseconds_as_seconds` of root/orbit-kernel/util/kio.c.
use relics.Prelude.{
  ℕ, zero, suc, ◌+◌, ◌-◌, ◌/◌, ◌%◌, ◌^◌, ◌<◌, ◌≤◌, ◌≡◌, inl, inr, ◌∙◌, ap, ap₂, sym, refl, Option,
  none, some, true, false, ◌&&◌, List, [], ◌∷◌, ◌++◌, Memory, write, ◌==◌, ltb, if◌then◌else◌,
  Bool-cases, length, length-append, length-replicate, replicate, if-true, if-false, arith, tests,
  ne→eqb, eqb→eq, all_below, all_below_sound,
}
use relics.Kio.Digits.{zero_extend, put_digits, lead_zeros, zero_extend_3, milliseconds_as_seconds}
use relics.Kio.Digits.Decimal.{places, length-decimal, places-le_pow}
use relics.Kio.Digits.Buffer.{Holds, Holds-at, Holds-frame, write-same, write-other}
use relics.Kio.Digits.Numeral.{
  numeral, Written, Written-along, digit_count_unsigned-length, put_digits-Written, ulltoa-Written,
}

-- A character that stood in front before the call belongs to the text.
Written-front :
    {text : List ℕ} {c at : ℕ} {m : Memory} {r : Option Memory}
    → Written text (at + 1) (write m at c) r
    → Written (c ∷ text) at m r
Written-front {text} {c} {at} {m} w = record {
  after = w.after;
  returns = w.returns;
  holds = (w.frame at (inl (omega arith)) ∙ write-same m at at c refl, w.holds);
  nul = ap w.after (omega arith) ∙ w.nul;
  frame = λ b o. elim o [
    | inl below ↦ w.frame b (inl (omega arith)) ∙ write-other m at b c (omega arith)
    | inr above ↦ w.frame b (inr (omega arith)) ∙ write-other m at b c (omega arith)
  ];
}

Holds-append :
    (xs ys : List ℕ) (a : ℕ) (m : Memory)
    → Holds xs a m
    → Holds ys (a + length xs) m
    → Holds (xs ++ ys) a m
Holds-append [] ys a m h k = Holds-at ys (omega arith) m k
Holds-append (x ∷ xs) ys a m h k =
    (h.0, Holds-append xs ys (a + 1) m h.1 (Holds-at ys (omega arith) m k))

-- A text that a second call writes over the first one's NUL.
Written-append :
    {xs ys : List ℕ} {at : ℕ} {m : Memory} {r r' : Option Memory} (w : Written xs at m r)
    → Written ys (at + length xs) w.after r'
    → Written (xs ++ ys) at m r'
Written-append {xs} {ys} {at} {m} w v = record {
  after = v.after;
  returns = v.returns;
  holds =
      Holds-append xs ys at v.after
        (Holds-frame xs at w.after v.after (λ b lo hi. v.frame b (inl hi)) w.holds) v.holds;
  nul = ap v.after (omega (arith, length-append xs ys)) ∙ v.nul;
  frame = λ b o. elim o [
    | inl below ↦ v.frame b (inl (omega arith)) ∙ w.frame b (inl below)
    | inr above ↦
        v.frame b (inr (omega (arith, length-append xs ys)))
        ∙ w.frame b (inr (omega (arith, length-append xs ys)))
  ];
}

places_below_1000 : ℕ → ℕ
places_below_1000 n = if n == 0 then 0 else if ltb n 10 then 1 else if ltb n 100 then 2 else 3

places_table : all_below 1000 (λ n. places 63 n == places_below_1000 n) ≡ true
unfolding all_below places_below_1000
places_table = refl

places-below_1000 : (n : ℕ) → n < 1000 → places 63 n ≡ places_below_1000 n
places-below_1000 n h =
    eqb→eq (places 63 n) (places_below_1000 n)
      (all_below_sound (λ n. places 63 n == places_below_1000 n) n 1000 h places_table)

zero_extend_3-leads :
    (n number : ℕ) (m : Memory) (lead : ℕ × Memory)
    → n < 999
    → lead_zeros (suc n) number m ≡ lead
    → zero_extend_3 64 (suc n) number m
      ≡ put_digits 64 (2 ^ 64) (suc n) (lead.0 + places 63 (suc n)) number lead.1
unfolding zero_extend_3
zero_extend_3-leads n number m lead h e =
    let go : Option ℕ → ℕ × Memory → Option Memory = λ o l. elim o [
      | none ↦ none
      | some count ↦
          if suc n == 0 && count + l.0 == 1
          then some (
              write (write (write (write l.1 number b'0') (number + 1) b'0') (number + 2) b'0')
                (number + 3) 0)
          else put_digits 64 (2 ^ 64) (suc n) (count + l.0) number l.1
    ] in
    let count = length (numeral (suc n)) in
    let nonzero : (suc n == 0 && count + lead.0 == 1) ≡ false =
      rw (ne→eqb (suc n) 0 (omega arith)) refl in
    ap₂ go (digit_count_unsigned-length (suc n) (omega arith)) e
    ∙ if-false _ _ nonzero
    ∙ ap (λ d. put_digits 64 (2 ^ 64) (suc n) d number lead.1) {x = count + lead.0}
        {y = lead.0 + places 63 (suc n)} (omega (arith, length-decimal 63 (suc n) []))

zero_extend-short :
    (n k : ℕ)
    → places 63 (suc n) ≡ k
    → zero_extend 3 (numeral (suc n)) ≡ replicate (3 - k) b'0' ++ numeral (suc n)
unfolding zero_extend
zero_extend-short n k e =
    ap (λ l. replicate l b'0' ++ numeral (suc n)) {x = 3 - length (numeral (suc n))} {y = 3 - k}
      (omega (arith, length-decimal 63 (suc n) [], e))

-- The digits behind the leading zeros.
zero_extend_3-digits :
    (n number : ℕ) (m : Memory) (lead : ℕ × Memory)
    → n < 999
    → lead_zeros (suc n) number m ≡ lead
    → lead.0 ≤ 2
    → Written (numeral (suc n)) (number + lead.0) lead.1 (zero_extend_3 64 (suc n) number m)
zero_extend_3-digits n number m lead h e le =
    Written-along refl (zero_extend_3-leads n number m lead h e) (
      put_digits-Written (2 ^ 64) (suc n) lead.0 number lead.1 (omega arith) (omega arith)
        (omega arith))

-- What three cases of the leading zeros give.
zero_extend_3-units :
    (n number : ℕ) (m : Memory)
    → ltb (suc n) 10 ≡ true
    → Written (zero_extend 3 (numeral (suc n))) number m (zero_extend_3 64 (suc n) number m)
unfolding lead_zeros places_below_1000
zero_extend_3-units n number m units =
    let few : n < 999 = omega (tests, units) in
    let one : places 63 (suc n) ≡ 1 =
      places-below_1000 (suc n) (omega arith)
      ∙ if-false _ _ (ne→eqb (suc n) 0 (omega arith))
      ∙ if-true _ _ units in
    rw (zero_extend-short n 1 one) (
      Written-front (
        Written-front (
          Written-along (omega arith) refl
            (zero_extend_3-digits n number m _ few (if-true _ _ units) (omega arith)))))

zero_extend_3-tens :
    (n number : ℕ) (m : Memory)
    → ltb (suc n) 10 ≡ false
    → ltb (suc n) 100 ≡ true
    → Written (zero_extend 3 (numeral (suc n))) number m (zero_extend_3 64 (suc n) number m)
unfolding lead_zeros places_below_1000
zero_extend_3-tens n number m more tens =
    let few : n < 999 = omega (tests, tens) in
    let two : places 63 (suc n) ≡ 2 =
      places-below_1000 (suc n) (omega arith)
      ∙ if-false _ _ (ne→eqb (suc n) 0 (omega arith))
      ∙ if-false _ _ more
      ∙ if-true _ _ tens in
    rw (zero_extend-short n 2 two) (
      Written-front (
        zero_extend_3-digits n number m _ few (if-false _ _ more ∙ if-true _ _ tens) (omega arith)))

zero_extend_3-hundreds :
    (n number : ℕ) (m : Memory)
    → n < 999
    → ltb (suc n) 10 ≡ false
    → ltb (suc n) 100 ≡ false
    → Written (zero_extend 3 (numeral (suc n))) number m (zero_extend_3 64 (suc n) number m)
unfolding lead_zeros places_below_1000
zero_extend_3-hundreds n number m few more hundreds =
    let three : places 63 (suc n) ≡ 3 =
      places-below_1000 (suc n) (omega arith)
      ∙ if-false _ _ (ne→eqb (suc n) 0 (omega arith))
      ∙ if-false _ _ more
      ∙ if-false _ _ hundreds in
    rw (zero_extend-short n 3 three) (
      Written-along (omega arith) refl (
        zero_extend_3-digits n number m _ few (if-false _ _ more ∙ if-false _ _ hundreds)
          (omega arith)))

zero_extend_3-Written :
    (n number : ℕ) (m : Memory)
    → n < 999
    → Written (zero_extend 3 (numeral (suc n))) number m (zero_extend_3 64 (suc n) number m)
zero_extend_3-Written n number m few = elim (Bool-cases (ltb (suc n) 10)) [
  | inl units ↦ zero_extend_3-units n number m units
  | inr more ↦ elim (Bool-cases (ltb (suc n) 100)) [
    | inl tens ↦ zero_extend_3-tens n number m more tens
    | inr hundreds ↦ zero_extend_3-hundreds n number m few more hundreds
  ]
]

-- A NUL behind a character that stays.
stays : (at c : ℕ) (m : Memory) → m at ≡ c → Written (c ∷ []) at m (some (write m (at + 1) 0))
stays at c m e = record {
  after = write m (at + 1) 0;
  returns = refl;
  holds = (write-other m (at + 1) at 0 (omega arith) ∙ e, tt);
  nul = write-same m (at + 1) (at + 1) 0 refl;
  frame = λ b o. elim o [
    | inl below ↦ write-other m (at + 1) b 0 (omega arith)
    | inr above ↦ write-other m (at + 1) b 0 (omega arith)
  ];
}

-- A whole second: two zeros and the character that stood there.
zero_extend_3-zero :
    (number : ℕ) (m : Memory)
    → Written (b'0' ∷ b'0' ∷ m (number + 2) ∷ []) number m (zero_extend_3 64 0 number m)
unfolding zero_extend_3 lead_zeros put_digits
zero_extend_3-zero number m =
    let zeros = write (write m number b'0') (number + 1) b'0' in
    Written-front (
      Written-front (
        Written-along (omega arith)
          (ap (λ a. some (write zeros a 0)) {x = number + 3} {y = number + 2 + 1} (omega arith))
          (stays (number + 2) (m (number + 2)) zeros (
            write-other (write m number b'0') (number + 1) (number + 2) b'0' (omega arith)
            ∙ write-other m number (number + 2) b'0' (omega arith)))))

-- Three digits of the milliseconds; of a whole second the last one is a character that is given.
abbrev pub thousandths : (millis stale : ℕ) → List ℕ
thousandths zero stale = b'0' ∷ b'0' ∷ stale ∷ []
thousandths (suc n) stale = zero_extend 3 (numeral (suc n))

thousandths-Written :
    (n number : ℕ) (m : Memory)
    → n < 1000
    → Written (thousandths n (m (number + 2))) number m (zero_extend_3 64 n number m)
thousandths-Written zero number m h = zero_extend_3-zero number m
thousandths-Written (suc n) number m h = zero_extend_3-Written n number m (omega arith)

length-thousandths : (n stale : ℕ) → n < 1000 → length (thousandths n stale) ≡ 3
unfolding zero_extend
length-thousandths zero stale h = refl
length-thousandths (suc n) stale h =
    let few : places 63 (suc n) ≤ 3 = places-le_pow 63 3 (suc n) (omega arith) in
    omega (
      arith,
      length-append (replicate (3 - length (numeral (suc n))) b'0') (numeral (suc n)),
      length-replicate {A = ℕ} (3 - length (numeral (suc n))) b'0',
      length-decimal 63 (suc n) [],
      few,
    )

length-seconds : (n : ℕ) → n < 10 ^ 17 → length (numeral n) ≤ 17
length-seconds zero h = omega arith
length-seconds (suc n) h =
    omega (arith, length-decimal 63 (suc n) [], places-le_pow 63 17 (suc n) h)

-- The time in seconds, with the character that stands at the end of the text before the call.
abbrev pub seconds_text : (num buf : ℕ) → Memory → List ℕ
seconds_text num buf m =
    let whole = numeral (num / 1000) in
    whole ++ 46 ∷ thousandths (num % 1000) (m (buf + length whole + 3))

seconds_text-short :
    (num buf : ℕ) (m : Memory) → num < 2 ^ 64 → length (seconds_text num buf m) < 64
seconds_text-short num buf m h =
    let whole = numeral (num / 1000) in
    let stale = m (buf + length whole + 3) in
    omega (
      arith,
      length-append whole (46 ∷ thousandths (num % 1000) stale),
      length-thousandths (num % 1000) stale (omega arith),
      length-seconds (num / 1000) (omega arith),
    )

Written-text :
    {xs ys : List ℕ} {at : ℕ} {m : Memory} {r : Option Memory}
    → xs ≡ ys
    → Written xs at m r
    → Written ys at m r
Written-text e w = rw (sym e) w

-- For any 64-bit number of milliseconds the call returns, the buffer holds the seconds in decimal,
-- a point and the three digits of the milliseconds, with a NUL behind them, and no other cell is
-- changed, so that the 64 bytes of the buffer are enough; but for a whole number of seconds the
-- third digit is not written, and the character that stood there before is read instead.
pub milliseconds_as_seconds-writes :
    (num buf : ℕ) (m : Memory)
    → num < 2 ^ 64
    → Written (seconds_text num buf m) buf m (milliseconds_as_seconds 64 num buf m)
      × (length (seconds_text num buf m) < 64)
unfolding milliseconds_as_seconds
milliseconds_as_seconds-writes num buf m h =
    let whole = numeral (num / 1000) in
    let first = ulltoa-Written (num / 1000) buf m (omega arith) in
    let dotted = write first.after (buf + length whole) 46 in
    let go : Option ℕ → Option Memory → Option Memory = λ o r. elim o [
      | none ↦ none
      | some idx ↦ elim r [
        | none ↦ none
        | some m' ↦ zero_extend_3 64 (num % 1000) (buf + idx + 1) (write m' (buf + idx) 46)
      ]
    ] in
    let second = thousandths-Written (num % 1000) (buf + length whole + 1) dotted (omega arith) in
    let stale : dotted (buf + length whole + 1 + 2) ≡ m (buf + length whole + 3) =
      write-other first.after (buf + length whole) (buf + length whole + 1 + 2) 46 (omega arith)
      ∙ first.frame (buf + length whole + 1 + 2) (inr (omega arith))
      ∙ ap m (omega arith) in
    let text : whole ++ 46 ∷ thousandths (num % 1000) (dotted (buf + length whole + 1 + 2))
        ≡ seconds_text num buf m =
      ap (λ c. whole ++ 46 ∷ thousandths (num % 1000) c) stale in
    (
      Written-text text (
          Written-along refl
            (ap₂ go (digit_count_unsigned-length (num / 1000) (omega arith)) first.returns)
            (Written-append first (Written-front second))),
      seconds_text-short num buf m h,
    )
