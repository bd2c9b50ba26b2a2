-- ===== src/Pic/Masks.antt =====
-- The interrupt masks that root/orbit-kernel/util/pic.c leaves.
use Prim.Native.Nat.{bit_and}
use relics.Prelude.{ℕ, zero, suc, ◌+◌, ◌-◌, ◌^◌, ◌≡◌, some, ◌++◌, u8}
use relics.Ports.{Trace, last_written}
use relics.Pic.{remap_writes}

-- A controller that has been initialised returns its mask, the last byte written to its data port,
-- whatever has been written since.
abbrev pub Latched : (Trace → ℕ → ℕ) → Type 0
Latched inb =
    (ws t : Trace) (offset a1 a2 port v : ℕ)
    → last_written port (ws ++ remap_writes inb offset a1 a2 t) ≡ some v
    → inb (ws ++ remap_writes inb offset a1 a2 t) port ≡ v

-- A mask with bits cleared from bit i on.
clear_bits : (left i v : ℕ) → ℕ
clear_bits zero i v = v
clear_bits (suc left) i v = clear_bits left (i + 1) (u8 (bit_and v (255 - u8 (2 ^ i))))

module _ (inb : Trace → ℕ → ℕ) (latched : Latched inb) (t : Trace) (offset a1 a2 : ℕ) where
  -- The trace of the initialisation, with later writes in front.
  abbrev after : Trace → Trace
  after ws = ws ++ remap_writes inb offset a1 a2 t
