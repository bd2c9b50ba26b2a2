-- ===== src/Pit.antt =====
-- root/orbit-kernel/util/pit.c: the timer's frequency and `millisleep`. Each `hlt` waits for one
-- interrupt: the interrupts that arrive are a list, and an empty list leaves the caller asleep.
pub mod Sleep
use Prim.Native.Nat.{bit_and, bit_or}
use relics.Prelude.{
  ℕ, ◌+◌, ◌*◌, ◌/◌, ◌^◌, u8, u16, Bool, true, false, ◌==◌, ltb, if◌then◌else◌, Option, none, some,
  List, [], ◌∷◌,
}
use relics.Ports.{Trace, outb}
use relics.Interrupts.{Registers, Interrupts, Outcome, returned, halted, handle}

pub record Pit : Type 0 where
  pub enabled : Bool
  pub ports : Trace

abbrev pub pit_frequency : ℕ
pit_frequency = 1193182

-- The division by `hz` comes before the test of `hz`: a zero traps.
unfoldable pub reprogram_timer : (hz : ℕ) → Pit → Option Pit
reprogram_timer hz t =
    if hz == 0
    then none
    else let divisor = u16 (pit_frequency / hz) in
      let command_byte = bit_or (3 * 2 ^ 1) (3 * 2 ^ 4) in
      some (record {
        enabled = true;
        ports =
            outb 0x40 (u8 (divisor / 2 ^ 8))
              (outb 0x40 (bit_and divisor 0xFF) (outb 0x43 command_byte t.ports));
      })

-- An interrupt that arrives: the pushed registers and the scan code that port 0x60 holds.
abbrev pub Wake : Type 0
Wake = Registers × ℕ

-- `while (countdown > 0) hlt`: the state and the interrupts that are left.
unfoldable pub sleep_loop : List Wake → Interrupts → Option (Interrupts × List Wake)
sleep_loop [] s = if ltb 0 s.countdown then none else some (s, [])
sleep_loop ((r, scan_code) ∷ wakes) s =
    let rest : Option (Interrupts × List Wake) = elim (handle 1 scan_code 0 r s) [
      | none ↦ none
      | some o ↦ elim o [ returned s' ↦ sleep_loop wakes s' | halted s' ↦ none ]
    ] in
    if ltb 0 s.countdown then rest else some (s, (r, scan_code) ∷ wakes)

unfoldable pub millisleep : (millis : ℕ) → List Wake → Interrupts → Option (Interrupts × List Wake)
unfolding sleep_loop
millisleep millis wakes s = sleep_loop wakes (record s { countdown = millis })
