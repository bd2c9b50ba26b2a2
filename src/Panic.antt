-- ===== src/Panic.antt =====
-- root/orbit-kernel/util/panic.c: what a panic prints before it halts the machine. The code is the
-- 32 bits of an `int`.
pub mod Report
use relics.Prelude.{codes, ℕ, ◌-◌, ◌^◌, Option, none, some, List, [], ◌∷◌, ◌==◌, if◌then◌else◌}
use relics.Kio.Format.{Argument, word, string}
use relics.Kio.Log.{printk}

abbrev pub cpu_issue : ℕ
cpu_issue = 0

abbrev pub memory_issue : ℕ
memory_issue = 1

abbrev pub graphics_issue : ℕ
graphics_issue = 2

abbrev pub storage_issue : ℕ
storage_issue = 3

-- -1 as an `int`.
abbrev pub generic_issue : ℕ
generic_issue = 2 ^ 32 - 1

-- The `switch`, whose `default` falls through to GENERIC_ISSUE.
abbrev pub issue : (i : ℕ) → List ℕ
issue i =
    if i == cpu_issue
    then (codes "processor-related")
    else if i == memory_issue
    then (codes "memory-related")
    else if i == graphics_issue
    then (codes "graphics-related")
    else if i == storage_issue
    then (codes "storage-related")
    else (codes "generic")

-- The text that is printed; the loop behind it does not end.
unfoldable pub panic2 : (i : ℕ) (errmsg : List ℕ) → (printed : List ℕ) → Option (List ℕ)
panic2 i errmsg printed = elim (printk printed (codes "%s\n") (string errmsg ∷ [])) [
  | none ↦ none
  | some out ↦ printk out (codes "Error code: %d (%s)\n") (word i ∷ string (issue i) ∷ [])
]

-- ERR_MSG_DEFAULT
abbrev pub err_msg_default : List ℕ
err_msg_default =
    (codes
      "An unrecoverable error has occurred.\nThe system will now go into an infinite loop.\nPlease restart the system through hardware.")

unfoldable pub panic : (i : ℕ) → (printed : List ℕ) → Option (List ℕ)
panic i printed = panic2 i err_msg_default printed
