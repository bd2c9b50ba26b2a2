-- ===== src/Kernel/Boot.antt =====
-- About `init_kernel` of root/orbit-kernel/kernel.c: a boot to the shell.
use relics.Prelude.{codes, ℕ, ◌≡◌, Option, none, List, [], ◌∷◌, ◌++◌, length}
use relics.Kio.Format.Pieces.{Piece, plain, characters, meant}
use relics.Ports.{Trace}
use relics.Interrupts.{Interrupts, install_stubs, clear_idt}
use relics.Pit.{Pit, Wake, reprogram_timer}
use relics.Pit.Sleep.{Ticks}
use relics.Paging.{paging_init}
use relics.E820.{get_mem_map}
use relics.Kernel.{Machine, Kernel, show}

-- The interrupts before `idt_init`: no handler, and no tick.
pub record AtReset (s : Interrupts) : Type 0 where
  pub no_handlers : (i : ℕ) → s.irq_handlers i ≡ none
  pub no_ticks : s.timer_ticks ≡ 0

module _ (isr irq : ℕ → ℕ) (inb : Trace → ℕ → ℕ) (s : Interrupts) (h : AtReset s) where
  stubs : Interrupts
  stubs = install_stubs irq 32 15 32 (install_stubs isr 0 32 0 (clear_idt s))

version_line : List ℕ → List Piece
version_line version =
    plain (codes "--[Relics version ") ∷ characters version ∷ plain (codes "]--\n") ∷ []

-- The kernel behind the greeting.
greeted : (version : List ℕ) → Kernel → Kernel
unfolding version_line
greeted version k =
    show (codes "Raw Exokernel-LibraryOS Integrated Computing System\n")
      (show (meant (version_line version)) k)

-- The interrupts with which the sleep begins and ends.
module _ (machine : Machine) (k : Kernel) (ticks rest : List Wake)
    (arriving : machine.wakes ≡ ticks ++ rest) (second : length ticks ≡ 1000)
    (t : Ticks ticks) where
  pit_running : Option Pit
  pit_running = reprogram_timer 1000 k.pit
