-- ===== src/Malloc/Align.antt =====
-- About the macro `align_up` of root/orbit-kernel/util/malloc_freelist.c.
use relics.Prelude.{ℕ, ◌+◌, ◌-◌, ◌*◌, ◌/◌, ◌%◌, ◌^◌, ◌≤◌, ◌<◌, ◌≡◌, u64, arith}
use relics.Prelude.Bits.{bit_and-mask, bit_and-shifted}
use relics.Malloc.{align_up}

pub align_up_lem : (num : ℕ) → align_up num ≡ u64 (num + 7) / 8 * 8
unfolding align_up
align_up_lem num =
    let x = u64 (num + 7) in
    omega (arith, bit_and-shifted 3 x (2 ^ 61 - 1), bit_and-mask 61 (x / 2 ^ 3))

pub align_up_aligned : (num : ℕ) → align_up num % 8 ≡ 0
align_up_aligned num = omega (arith, align_up_lem num)

-- At the top of the address space the result is 0.
pub align_up_wraps : (num : ℕ) → 2 ^ 64 - 8 < num → num < 2 ^ 64 → align_up num ≡ 0
align_up_wraps num h k = omega (arith, align_up_lem num)

-- For every size that does not wrap the result is the smallest multiple of 8 that is no less.
pub align_up_bounds :
    (num : ℕ)
    → num ≤ 2 ^ 64 - 8
    → (align_up num % 8 ≡ 0)
      × (num ≤ align_up num)
      × (align_up num < num + 8)
      × (align_up num < 2 ^ 64)
align_up_bounds num h = omega (arith, align_up_lem num)
