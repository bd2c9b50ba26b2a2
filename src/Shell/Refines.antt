-- ===== src/Shell/Refines.antt =====
-- The shell of root/libraryOSes/relics-libOS/apps/shell.c with and without its text.
use relics.Prelude.{ℕ, Option, List}
use relics.Shell.{Shell, ShellOutcome}
use relics.Shell.Session.{Cpu, SessionOutcome, waiting, full, panicked, session_loop}

-- The outcome without the text.
abbrev pub forget : SessionOutcome → ShellOutcome
forget (waiting s printed) = ShellOutcome.waiting s
forget (full s printed) = ShellOutcome.full s
forget (panicked s printed) = ShellOutcome.panicked s

module _ (version : List ℕ) (cpu : Cpu) (prompt : List ℕ) where
  abbrev session : List ℕ → Shell → List ℕ → Option SessionOutcome
  session = session_loop version cpu prompt
