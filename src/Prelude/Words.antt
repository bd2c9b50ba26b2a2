-- ===== src/Prelude/Words.antt =====
-- The machine's unsigned types as native numbers: every result is reduced by the type's width.
-- A memory is a function from addresses to words.
use Prim.Native.Nat.{ℕ, ◌%◌, ◌^◌}
use relics.Prelude.Tests.{◌==◌, if◌then◌else◌}

abbrev pub u8 : ℕ → ℕ
u8 n = n % 2 ^ 8

abbrev pub u16 : ℕ → ℕ
u16 n = n % 2 ^ 16

abbrev pub u32 : ℕ → ℕ
u32 n = n % 2 ^ 32

abbrev pub u64 : ℕ → ℕ
u64 n = n % 2 ^ 64

-- The machine word or byte stored at each address.
abbrev pub Memory : Type 0
Memory = ℕ → ℕ

abbrev pub write : Memory → ℕ → ℕ → Memory
write m a v = λ b. if b == a then v else m b
