-- ===== src/Math.antt =====
-- root/orbit-kernel/util/math.c: powers of 32-bit numbers.
pub mod Power
use Prim.Native.Nat.{bit_and}
use relics.Prelude.{
  ℕ, zero, suc, ◌+◌, ◌-◌, ◌*◌, ◌/◌, Option, none, some, List, [], ◌∷◌, u32, ltb, ◌==◌,
  if◌then◌else◌, get_elem?,
}

-- The `while` loop of `calculate_power_using_lsb`.
pub power_loop : (fuel num power answer : ℕ) → Option ℕ
power_loop zero num power answer = none
power_loop (suc fuel) num power answer =
    let answer' = if bit_and power 1 == 0 then answer else u32 (answer * num) in
    let rest = power_loop fuel (u32 (num * num)) (power / 2) answer' in
    if ltb 0 power then rest else some answer

unfoldable pub calculate_power_using_lsb : (fuel num power : ℕ) → Option ℕ
unfolding power_loop
calculate_power_using_lsb fuel num power = power_loop fuel num power 1

abbrev pub powers_of_two : List ℕ
powers_of_two =
    2 ∷ 4 ∷ 8 ∷ 16 ∷ 32 ∷ 64 ∷ 128 ∷ 256 ∷ 512 ∷ 1024 ∷ 2048 ∷ 4096 ∷ 8192 ∷ 16384 ∷ 32768 ∷ 65536
    ∷ 131072 ∷ 262144 ∷ 524288 ∷ 1048576 ∷ 2097152 ∷ 4194304 ∷ 8388608 ∷ 16777216 ∷ 33554432
    ∷ 67108864 ∷ 134217728 ∷ 268435456 ∷ 536870912 ∷ 1073741824 ∷ 2147483648 ∷ 4294967295 ∷ []

-- A read behind the end of the table has no value.
pub data Answer : Type 0 where
  value : ℕ → Answer
  out_of_bounds : Answer
  out_of_fuel : Answer

abbrev pub of_table : Option ℕ → Answer
of_table none = out_of_bounds
of_table (some x) = value x

abbrev pub of_loop : Option ℕ → Answer
of_loop none = out_of_fuel
of_loop (some x) = value x

unfoldable pub ppowi : (fuel num power : ℕ) → Answer
unfolding calculate_power_using_lsb
ppowi fuel num power =
    if power == 0
    then value 1
    else if power == 1
    then value num
    else if num == 2
    then of_table (get_elem? powers_of_two (power - 1))
    else of_loop (calculate_power_using_lsb fuel num power)
