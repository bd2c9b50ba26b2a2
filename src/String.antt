-- ===== src/String.antt =====
-- root/orbit-kernel/util/string.c: the byte loops, on a memory of bytes. A `for (i = 0; i < n;
-- i++)` recurs on the rounds that are left; a loop that waits for a NUL runs on fuel.
pub mod Length
pub mod Compare
pub mod Copy
pub mod Copied
use relics.Prelude.{
  ℕ, zero, suc, ◌+◌, ◌-◌, Option, none, some, Memory, write, u8, u32, ltb, ◌==◌, if◌then◌else◌,
}
use relics.Prelude.Int.{ℤ, pos, sub_ℕ}

-- `uint32_t length`: it counts modulo 2 ^ 32.
pub strlen_loop : (fuel : ℕ) → Memory → (s length : ℕ) → Option ℕ
strlen_loop zero m s length = none
strlen_loop (suc fuel) m s length =
    let rest = strlen_loop fuel m s (u32 (length + 1)) in
    if m (s + length) == 0 then some length else rest

unfoldable pub strlen : (fuel : ℕ) → Memory → (s : ℕ) → Option ℕ
unfolding strlen_loop
strlen fuel m s = strlen_loop fuel m s 0

-- The difference of two values of type `char`, which is signed: both are moved up by 128.
unfoldable pub char_difference : ℕ → ℕ → ℤ
char_difference a b = sub_ℕ (u8 (a + 128)) (u8 (b + 128))

pub memcmp_loop : (left i : ℕ) → Memory → (s1 s2 : ℕ) → ℤ
memcmp_loop zero i m s1 s2 = pos 0
memcmp_loop (suc left) i m s1 s2 =
    let rest = memcmp_loop left (i + 1) m s1 s2 in
    if m (s1 + i) == m (s2 + i) then rest else char_difference (m (s1 + i)) (m (s2 + i))

unfoldable pub memcmp : Memory → (s1 s2 n : ℕ) → ℤ
unfolding memcmp_loop char_difference
memcmp m s1 s2 n = memcmp_loop n 0 m s1 s2

unfoldable pub strcmp : (fuel : ℕ) → Memory → (s1 s2 : ℕ) → Option ℤ
unfolding strlen memcmp
strcmp fuel m s1 s2 = elim (strlen fuel m s1) [ none ↦ none | some n ↦ some (memcmp m s1 s2 n) ]

unfoldable pub strncmp : Memory → (s1 s2 n : ℕ) → ℤ
unfolding memcmp
strncmp m s1 s2 n = memcmp m s1 s2 n

pub memcpy_loop : (left i dest src : ℕ) → Memory → Memory
memcpy_loop zero i dest src m = m
memcpy_loop (suc left) i dest src m =
    memcpy_loop left (i + 1) dest src (write m (dest + i) (m (src + i)))

unfoldable pub memcpy : (dest src n : ℕ) → Memory → ℕ × Memory
unfolding memcpy_loop
memcpy dest src n m = (dest, memcpy_loop n 0 dest src m)

pub memset_loop : (left i s c : ℕ) → Memory → Memory
memset_loop zero i s c m = m
memset_loop (suc left) i s c m = memset_loop left (i + 1) s c (write m (s + i) (u8 c))

unfoldable pub memset : (s c n : ℕ) → Memory → ℕ × Memory
unfolding memset_loop
memset s c n m = (s, memset_loop n 0 s c m)

pub strcpy_loop : (fuel i dest src : ℕ) → Memory → Option Memory
strcpy_loop zero i dest src m = none
strcpy_loop (suc fuel) i dest src m =
    let rest = strcpy_loop fuel (i + 1) dest src (write m (dest + i) (m (src + i))) in
    if m (src + i) == 0 then some m else rest

unfoldable pub strcpy : (fuel dest src : ℕ) → Memory → Option (ℕ × Memory)
unfolding strcpy_loop
strcpy fuel dest src m = elim (strcpy_loop fuel 0 dest src m) [
  | none ↦ none
  | some m' ↦ some (dest, m')
]

-- The second loop of `kernel_strncpy`.
pub pad_loop : (left i dest : ℕ) → Memory → Memory
pad_loop zero i dest m = m
pad_loop (suc left) i dest m = pad_loop left (i + 1) dest (write m (dest + i) 0)

-- The first loop, which goes on with the second where it stops; `left` is n - i.
pub strncpy_loop : (left i dest src : ℕ) → Memory → Memory
unfolding pad_loop
strncpy_loop zero i dest src m = m
strncpy_loop (suc left) i dest src m =
    let rest = strncpy_loop left (i + 1) dest src (write m (dest + i) (m (src + i))) in
    let padded = pad_loop (suc left) i dest m in if m (src + i) == 0 then padded else rest

unfoldable pub kernel_strncpy : (dest src n : ℕ) → Memory → ℕ × Memory
unfolding strncpy_loop
kernel_strncpy dest src n m = (dest, strncpy_loop n 0 dest src m)
