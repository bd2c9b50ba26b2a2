-- ===== src/Gdt.antt =====
-- root/orbit-kernel/util/gdt.c: the descriptors are a table of 64-bit numbers.
pub mod Fields
use Prim.Native.Nat.{bit_and, bit_or}
use relics.Prelude.{
  ℕ, zero, suc, ◌+◌, ◌-◌, ◌*◌, ◌/◌, ◌^◌, u8, u16, u32, u64, ◌==◌, if◌then◌else◌, Memory, write, ltb,
}

-- `number | (value << bit)` on 64 bits.
unfoldable pub set_bit_value : (number bit value : ℕ) → ℕ
set_bit_value number bit value = bit_or number (u64 (value * 2 ^ bit))

-- The loop of `set_several_bits`, with the iterations to go.
unfoldable pub set_bits_loop : (left num idx i pattern : ℕ) → ℕ
unfolding set_bit_value
set_bits_loop zero num idx i pattern = num
set_bits_loop (suc left) num idx i pattern =
    set_bits_loop left (set_bit_value num idx (bit_and pattern (2 ^ i) / 2 ^ i)) (idx + 1) (i + 1)
      pattern

unfoldable pub set_several_bits : (num idx_inclusive idx_exclusive pattern : ℕ) → ℕ
unfolding set_bits_loop
set_several_bits num idx_inclusive idx_exclusive pattern =
    set_bits_loop (idx_exclusive - idx_inclusive) num idx_inclusive 0 pattern

-- The six calls, on the descriptor of the vector.
unfoldable pub fill_descriptor : (d base limit access flags : ℕ) → ℕ
fill_descriptor d base limit access flags =
    let d1 = set_several_bits d 0 16 (u16 (bit_and limit 0x0000FFFF)) in
    let d2 = set_several_bits d1 16 40 (bit_and base 0xFFFFFF) in
    let d3 = set_several_bits d2 40 48 access in
    let d4 = set_several_bits d3 48 52 (bit_and (limit / 2 ^ 16) 0xF) in
    let d5 = set_several_bits d4 52 56 (bit_and flags 0xF) in
    set_several_bits d5 56 64 (u8 (base / 2 ^ 24))

unfoldable pub fill_gdt_descriptor_item : (vector base limit access flags : ℕ) → Memory → Memory
unfolding fill_descriptor
fill_gdt_descriptor_item vector base limit access flags gdt_descriptors =
    write gdt_descriptors vector (fill_descriptor (gdt_descriptors vector) base limit access flags)

-- `memset` of all bytes of the table but the last.
unfoldable pub clear_descriptors : Memory → Memory
clear_descriptors gdt_descriptors v =
    if ltb v 8191
    then 0
    else if v == 8191
    then gdt_descriptors v / 2 ^ 56 * 2 ^ 56
    else gdt_descriptors v

-- PRESENT_BIT | DPL(0, 0) | DESCRIPTOR_TYPE_CODE_OR_DATA_SEGMENT | EXECUTABLE_BIT_CODE |
-- READ_WRITE_BIT(1), and the same with EXECUTABLE_BIT_DATA.
abbrev pub code_access : ℕ
code_access = bit_or (bit_or (bit_or (2 ^ 7) (2 ^ 4)) (2 ^ 3)) (2 ^ 1)

abbrev pub data_access : ℕ
data_access = bit_or (bit_or (2 ^ 7) (2 ^ 4)) (2 ^ 1)

-- The table that `gdt_reload` is given.
unfoldable pub gdt_init : Memory → Memory
unfolding clear_descriptors fill_gdt_descriptor_item
gdt_init gdt_descriptors = fill_gdt_descriptor_item 2 0 0xFFFFF data_access 0xA (
    fill_gdt_descriptor_item 1 0 0xFFFFF code_access 0xA
      (fill_gdt_descriptor_item 0 0 0 0 0 (clear_descriptors gdt_descriptors)))
