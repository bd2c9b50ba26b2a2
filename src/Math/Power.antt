-- ===== src/Math/Power.antt =====
-- About `ppowi` of root/orbit-kernel/util/math.c and the power modulo 2 ^ 32.
use native.Mathlib.Nat.{one-mul, pow-le-pow_right, pow-zero, pow-suc, mul_comm, mul_assoc}
use relics.Prelude.{
  ℕ, zero, suc, ◌+◌, ◌-◌, ◌*◌, ◌/◌, ◌%◌, ◌^◌, ◌<◌, ◌≤◌, ◌≡◌, ◌∙◌, ap, sym, refl, inl, inr, some,
  true, false, Bool, u32, lt→ltb, ◌==◌, eqb→eq, eqb→ne, ne→eqb, Bool-cases, if◌then◌else◌, arith,
  get_elem?, all_below, all_below_sound, Option, none, List, [], ◌∷◌, length,
}
use Prim.Native.Nat.{bit_and}
use relics.Prelude.Bits.{bit_and-mask}
use relics.Prelude.Modular.{mul-mod_left, mul-pow-mod, pow-square}
use relics.Math.{
  power_loop, calculate_power_using_lsb, ppowi, value, out_of_bounds, of_table, powers_of_two,
}

-- The parity test of the loop.
odd-test : (p : ℕ) → (bit_and p 1 == 0) ≡ (p % 2 == 0)
odd-test p = ap (λ t. t == 0) (bit_and-mask 1 p)

-- One round keeps answer * num ^ power.
round-invariant :
    (n p a : ℕ)
    → (if p % 2 == 0 then a else u32 (a * n)) * u32 (n * n) ^ (p / 2) % 2 ^ 32 ≡ a * n ^ p % 2 ^ 32
round-invariant n p a = elim (Bool-cases (p % 2 == 0)) [
  | inl even ↦
      let e : p / 2 + p / 2 ≡ p = omega (arith, eqb→eq (p % 2) 0 even) in
      rw even (
        mul-pow-mod a (n * n) (p / 2) (2 ^ 32)
        ∙ ap (λ t. a * t % 2 ^ 32) (pow-square n (p / 2) ∙ ap (λ t. n ^ t) e))
  | inr odd ↦
      let e : suc (p / 2 + p / 2) ≡ p = omega (arith, eqb→ne (p % 2) 0 odd) in
      rw odd (
        mul-pow-mod (u32 (a * n)) (n * n) (p / 2) (2 ^ 32)
        ∙ mul-mod_left (a * n) ((n * n) ^ (p / 2)) (2 ^ 32)
        ∙ ap (λ t. t % 2 ^ 32)
            (ap (λ t. a * n * t) (pow-square n (p / 2))
              ∙ mul_assoc a n (n ^ (p / 2 + p / 2))
              ∙ ap (λ t. a * t)
                  (mul_comm n (n ^ (p / 2 + p / 2))
                    ∙ sym (pow-suc n (p / 2 + p / 2))
                    ∙ ap (λ t. n ^ t) e)))
]

power_loop_lem :
    (fuel n p a : ℕ) → p < fuel → a < 2 ^ 32 → power_loop fuel n p a ≡ some (a * n ^ p % 2 ^ 32)
unfolding power_loop
power_loop_lem zero n p a h k = absurd (omega arith)
power_loop_lem (suc fuel) n zero a h k = ap some (rw (pow-zero) (omega arith))
power_loop_lem (suc fuel) n (suc p) a h k =
    rw (odd-test (suc p), lt→ltb 0 (suc p) (omega arith))
      (power_loop_lem fuel (u32 (n * n)) (suc p / 2) _ (omega arith) (ground arith)
        ∙ ap some (round-invariant n (suc p) a))

-- The table, entry by entry.
entry_correct : ℕ → Bool
entry_correct i = elim (get_elem? powers_of_two i) [ none ↦ false | some x ↦ x == 2 ^ (i + 1) ]

table_correct : all_below 31 entry_correct ≡ true
unfolding all_below entry_correct
table_correct = refl

entry_lem :
    (o : Option ℕ) (y : ℕ) → elim o [ none ↦ false | some x ↦ x == y ] ≡ true → of_table o ≡ value y
entry_lem none y h = cc
entry_lem (some x) y h = ap value (eqb→eq x y h)

of_table-power : (i : ℕ) → i < 31 → of_table (get_elem? powers_of_two i) ≡ value (2 ^ (i + 1))
unfolding entry_correct
of_table-power i h =
    entry_lem (get_elem? powers_of_two i) (2 ^ (i + 1))
      (all_below_sound entry_correct i 31 h table_correct)

-- With more rounds than the exponent `ppowi` returns num ^ power modulo 2 ^ 32, for every 32-bit
-- base other than 2, and for the base 2 up to the exponent 31.
pub ppowi-pow :
    (fuel num power : ℕ)
    → power < fuel
    → num < 2 ^ 32
    → (num ≡ 2 → power < 32)
    → ppowi fuel num power ≡ value (num ^ power % 2 ^ 32)
unfolding ppowi calculate_power_using_lsb
ppowi-pow fuel num power h n t = elim (Bool-cases (power == 0)) [
  | inl none_left ↦ let e = eqb→eq power 0 none_left in rw e (ap value (rw (pow-zero num)))
  | inr some_left ↦ elim (Bool-cases (power == 1)) [
    | inl one ↦
        let e = eqb→eq power 1 one in
        rw e (ap value (omega (arith, pow-suc num 0, ap (λ t. t * num) (pow-zero num))))
    | inr more ↦ elim (Bool-cases (num == 2)) [
      | inl two ↦
          let e = eqb→eq num 2 two in
          let low = t e in
          let p = eqb→ne power 0 some_left in
          let q : power - 1 + 1 ≡ power = omega arith in
          rw (some_left, more, two)
            (of_table-power (power - 1) (omega arith)
              ∙ ap value (
                  rw (e, q)
                    (omega (
                      arith,
                      pow-le-pow_right {n = 2} (omega arith) {i = power} {j = 31} (omega arith),
                    ))))
      | inr other ↦
          rw (some_left, more, other, power_loop_lem fuel num power 1 h (omega arith))
            (ap value (rw (one-mul (num ^ power))))
    ]
  ]
]

get_elem?-beyond : (xs : List ℕ) (i : ℕ) → length xs ≤ i → get_elem? xs i ≡ none
get_elem?-beyond [] i h = refl
get_elem?-beyond (x ∷ xs) zero h = absurd (omega arith)
get_elem?-beyond (x ∷ xs) (suc i) h = get_elem?-beyond xs i (omega arith)

-- For the base 2 the exponent 32 gives 2 ^ 32 - 1, where the power modulo 2 ^ 32 is 0, and from the
-- exponent 33 on the table is read behind its end.
pub ppowi_table_end :
    (fuel power : ℕ)
    → 32 < power
    → (ppowi fuel 2 32 ≡ value (2 ^ 32 - 1)) × (ppowi fuel 2 power ≡ out_of_bounds)
unfolding ppowi
ppowi_table_end fuel power h = (
  refl,
  rw (
    ne→eqb power 0 (omega arith),
    ne→eqb power 1 (omega arith),
    get_elem?-beyond powers_of_two (power - 1) (omega arith),
  ),
)
