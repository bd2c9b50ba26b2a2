-- ===== src/Kio/Log.antt =====
-- `printk` and `log_printk` of root/orbit-kernel/util/kio.c, with KERNEL_LOG defined as in the
-- Makefile, and root/orbit-kernel/util/irq.c, whose time stands in front of each line of the log.
pub mod Time
use relics.Prelude.{
  codes, ℕ, ◌+◌, Bool, true, false, Option, none, some, List, [], ◌∷◌, ◌++◌, Memory, if◌then◌else◌,
}
use mathlib.Core.Option
use relics.Kio.Digits.{milliseconds_as_seconds}
use relics.Kio.Format.{Argument, string, read_string, actual_print}

-- What follows text that is printed already.
unfoldable pub printk : List ℕ → (format : List ℕ) (args : List Argument) → Option (List ℕ)
printk printed format args = Option.map (λ t. printed ++ t) (actual_print format args)

-- The string that a `char *` points to: a literal, or the characters in a buffer.
pub data Pointer : Type 0 where
  literal : List ℕ → Pointer
  buffer : (buf : ℕ) → Memory → Pointer

-- `PIT_IRQ_timer_get_current_time_since_boot`; 64 turns are enough for a 64-bit number.
unfoldable pub time_since_boot : (enabled : Bool) (ticks buf : ℕ) → Memory → Option Pointer
time_since_boot enabled ticks buf m =
    if enabled
    then Option.map (λ m'. buffer buf m') (milliseconds_as_seconds 64 ticks buf m)
    else some (literal (codes "0.000"))

-- The characters of a string in a buffer of 64 bytes.
unfoldable pub characters_of : Pointer → List ℕ
characters_of (literal s) = s
characters_of (buffer buf m) = read_string 64 buf m

-- "[%s] " and the line.
unfoldable pub log_printk :
    (time : Option Pointer) → List ℕ → (format : List ℕ) (args : List Argument) → Option (List ℕ)
log_printk none printed format args = none
log_printk (some time) printed format args =
    elim (printk printed (codes "[%s] ") (string (characters_of time) ∷ [])) [
      | none ↦ none
      | some out ↦ printk out format args
    ]
