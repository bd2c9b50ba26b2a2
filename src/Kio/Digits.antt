-- ===== src/Kio/Digits.antt =====
-- The number printers of root/orbit-kernel/util/kio.c. `decimal_to_base` fills a local array from
-- its low end and prints it from the high end: the array's filled part is a list with the last
-- written cell in front, so that the printed text is the list itself. `ulltoa`, `lltoa` and
-- `zero_extend_3` write into a buffer in memory.
pub mod Loop
pub mod Base
pub mod Decimal
pub mod Buffer
pub mod Numeral
pub mod Based
pub mod Seconds
use relics.Prelude.{
  ℕ, zero, suc, ◌+◌, ◌-◌, ◌*◌, ◌/◌, ◌%◌, ◌^◌, Bool, true, false, not, Option, none, some, List, [],
  ◌∷◌, ◌&&◌, Memory, write, u32, ltb, ◌==◌, if◌then◌else◌, length, get_elem?, replicate, ◌++◌,
}
use mathlib.Core.Option
use relics.Prelude.Int.{ℤ, pos, negsuc}

-- The loop of `digit_count` and `digit_count_unsigned`.
pub count_loop : (fuel num count : ℕ) → Option ℕ
count_loop zero num count = none
count_loop (suc fuel) num count =
    let rest = count_loop fuel (num / 10) (u32 (count + 1)) in
    if ltb 0 num then rest else some count

unfoldable pub digit_count_unsigned : (fuel num : ℕ) → Option ℕ
unfolding count_loop
digit_count_unsigned fuel num = if ltb num 10 then some 1 else count_loop fuel num 0

-- The sign counts as a digit.
unfoldable pub digit_count : (fuel : ℕ) → ℤ → Option ℕ
unfolding count_loop
digit_count fuel (pos n) = if n == 0 then some 1 else count_loop fuel n 0
digit_count fuel (negsuc n) = count_loop fuel (suc n) 1

-- "0123456789abcdef"
abbrev pub digits : List ℕ
digits = 48 ∷ 49 ∷ 50 ∷ 51 ∷ 52 ∷ 53 ∷ 54 ∷ 55 ∷ 56 ∷ 57 ∷ 97 ∷ 98 ∷ 99 ∷ 100 ∷ 101 ∷ 102 ∷ []

-- The string's NUL stands at index 16.
unfoldable pub digit : ℕ → ℕ
digit d = Option.get_or (get_elem? digits d) 0

-- `while (n > 0)`: the cells that are filled, the last one in front.
pub digits_loop : (fuel n base : ℕ) → List ℕ → Option (List ℕ)
unfolding digit
digits_loop zero n base num = none
digits_loop (suc fuel) n base num =
    let rest = digits_loop fuel (n / base) base (digit (n % base) ∷ num) in
    if ltb 0 n then rest else some num

-- The loops of the zero extension fill up to a width.
unfoldable pub zero_extend : (width : ℕ) → List ℕ → List ℕ
zero_extend width num = replicate (width - length num) b'0' ++ num

-- The width for each base that is padded, and 0 for the others.
unfoldable pub pad_width : ℕ → ℕ
pad_width base = if base == 16 then 16 else if base == 2 then 64 else if base == 10 then 20 else 0

-- The characters that are printed, in order, and the flag after the call.
unfoldable pub decimal_to_base : (fuel n base : ℕ) → Bool → Option (List ℕ × Bool)
unfolding digits_loop zero_extend pad_width
decimal_to_base fuel n base zero_pad =
    if base == 0
    then some ([], zero_pad)
    else if n == 0 && not zero_pad
    then some (b'0' ∷ [], zero_pad)
    else elim (digits_loop fuel n base []) [
      | none ↦ none
      | some num ↦ some (if zero_pad then zero_extend (pad_width base) num else num, false)
    ]

-- `while (num != 0) { number[index] = num % 10 + '0'; index--; num /= 10; }`, where `limit` is
-- the modulus of the type of `index`.
pub put_loop : (fuel limit num index number : ℕ) → Memory → Option Memory
put_loop zero limit num index number m = none
put_loop (suc fuel) limit num index number m =
    let rest =
      put_loop fuel limit (num / 10) ((index + limit - 1) % limit) number
        (write m (number + index) (num % 10 + b'0')) in
    if num == 0 then some m else rest

-- The digits and the NUL at `dgcount`, whose last digit goes to `dgcount - 1`.
unfoldable pub put_digits : (fuel limit num dgcount number : ℕ) → Memory → Option Memory
unfolding put_loop
put_digits fuel limit num dgcount number m =
    Option.map (λ m'. write m' (number + dgcount) 0)
      (put_loop fuel limit num (dgcount - 1) number m)

unfoldable pub ulltoa : (fuel num number : ℕ) → Memory → Option Memory
unfolding digit_count_unsigned put_digits
ulltoa fuel num number m = elim (digit_count_unsigned fuel num) [
  | none ↦ none
  | some dgcount ↦
      if num == 0 && dgcount == 1
      then some (write (write m number b'0') (number + 1) 0)
      else put_digits fuel (2 ^ 64) num dgcount number m
]

unfoldable pub lltoa : (fuel : ℕ) → ℤ → (number : ℕ) → Memory → Option Memory
unfolding digit_count put_digits
lltoa fuel num number m = elim (digit_count fuel num) [
  | none ↦ none
  | some dgcount ↦ elim num [
    | pos n ↦
        if n == 0 && dgcount == 1
        then some (write (write m number b'0') (number + 1) 0)
        else put_digits fuel (2 ^ 32) n dgcount number m
    | negsuc n ↦ put_digits fuel (2 ^ 32) (suc n) dgcount number (write m number b'-')
  ]
]

-- The leading zeros of `zero_extend_3`, and by how much they move the digits.
unfoldable pub lead_zeros : (num number : ℕ) → Memory → ℕ × Memory
lead_zeros num number m =
    if ltb num 10
    then (2, write (write m number b'0') (number + 1) b'0')
    else if ltb num 100
    then (1, write m number b'0')
    else (0, m)

unfoldable pub zero_extend_3 : (fuel num number : ℕ) → Memory → Option Memory
unfolding digit_count_unsigned put_digits lead_zeros
zero_extend_3 fuel num number m = elim (digit_count_unsigned fuel num) [
  | none ↦ none
  | some count ↦
      let (more, m') = lead_zeros num number m in
      let dgcount = count + more in
      if num == 0 && dgcount == 1
      then some (
          write (write (write (write m' number b'0') (number + 1) b'0') (number + 2) b'0')
            (number + 3) 0)
      else put_digits fuel (2 ^ 64) num dgcount number m'
]

unfoldable pub milliseconds_as_seconds : (fuel num buf : ℕ) → Memory → Option Memory
unfolding digit_count_unsigned ulltoa zero_extend_3
milliseconds_as_seconds fuel num buf m = elim (digit_count_unsigned fuel (num / 1000)) [
  | none ↦ none
  | some idx ↦ elim (ulltoa fuel (num / 1000) buf m) [
    | none ↦ none
    | some m' ↦ zero_extend_3 fuel (num % 1000) (buf + idx + 1) (write m' (buf + idx) b'.')
  ]
]
