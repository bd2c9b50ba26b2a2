-- ===== src/Shell/Session.antt =====
-- What the shell of root/libraryOSes/relics-libOS/apps/shell.c shows: each typed character, what the
-- commands print, and the prompt. Calls that do more than print are in the list of commands of
-- `Shell`; the processor that `fetchme` asks and VERSION are arguments.
use relics.Prelude.{
  codes, ℕ, zero, suc, ◌+◌, Option, none, some, List, [], ◌∷◌, Memory, write, ◌==◌, ltb,
  if◌then◌else◌, ◌||◌,
}
use relics.Kio.Format.{word, string, read_string}
use relics.Kio.Log.{Pointer, printk}
use relics.Cpu.{
  Processor, CpuFeatures, FlagsOutcome, halted, known, set_cpu_vendor_name, until_nul, detect,
}
use relics.Panic.{generic_issue}
use relics.Shell.{
  Command, fetchme, echo, enable_cursor, disable_cursor, cursor_usage, nothing, panic, millisleep,
  unknown, Shell, select, is_panic, run_line,
}

-- The processor, the members of `cpu_features`, and the times of the lines that
-- `set_cpu_vendor_name` logs, which depend on what has been printed before.
pub record Cpu : Type 0 where
  pub processor : Processor
  pub features : CpuFeatures
  pub clock : List ℕ → ℕ → Pointer

-- The name of the vendor and the text behind its lines; none if the machine has halted.
abbrev pub identified : Processor → FlagsOutcome → Option (List ℕ × List ℕ)
identified p (halted f printed) = none
identified p (known f printed) =
    some (until_nul (set_cpu_vendor_name p.vendor_ebx p.vendor_edx p.vendor_ecx), printed)

-- The call of `set_cpu_vendor_name`, which leaves the name in `cpu_vendor_name`.
unfoldable pub identify : Cpu → List ℕ → Option (List ℕ × List ℕ)
identify cpu printed = elim (detect (cpu.clock printed) cpu.processor cpu.features printed) [
  | none ↦ none
  | some o ↦ identified cpu.processor o
]

-- What `fetchme_builtin` prints behind that call.
abbrev pub fetched : (version cpu_vendor_name printed : List ℕ) → Option (List ℕ)
fetched version cpu_vendor_name printed =
    printk printed
      (codes
        "OS: Relics version %s\nCPU: %s\nKernel: Orbit ExoKernel\nLibOS: Relics builtin libOS\nShell: Relics builtin shell\n")
      (string version ∷ string cpu_vendor_name ∷ [])

unfoldable pub fetchme_builtin : (version : List ℕ) → Cpu → List ℕ → Option (List ℕ)
fetchme_builtin version cpu printed = elim (identify cpu printed) [
  | none ↦ none
  | some (name, out) ↦ fetched version name out
]

-- The loop of `echo_builtin`.
unfoldable pub echo_loop : (fuel i : ℕ) → Memory → List ℕ → Option (List ℕ)
echo_loop zero i buf printed = none
echo_loop (suc fuel) i buf printed =
    let rest : Option (List ℕ) = elim (printk printed (codes "%c") (word (buf i) ∷ [])) [
      | none ↦ none
      | some out ↦ echo_loop fuel (i + 1) buf out
    ] in
    if buf i == 10 || buf i == 0 then printk printed (codes "\n") [] else rest

-- What a selected command prints; `buf` is the line. `version` is VERSION.
unfoldable pub run_command :
    (version : List ℕ) (cpu : Cpu) → Command → Memory → List ℕ → Option (List ℕ)
run_command version cpu fetchme buf printed = fetchme_builtin version cpu printed
run_command version cpu (echo text) buf printed = echo_loop 4092 5 buf printed
run_command version cpu enable_cursor buf printed = some printed
run_command version cpu disable_cursor buf printed = some printed
run_command version cpu cursor_usage buf printed =
    printk printed
      (codes
        "Options:\nCURSOR [options]\n  -e: enables blinking cursor\n  -d: disables blinking cursor\n")
      []
run_command version cpu nothing buf printed = some printed
run_command version cpu panic buf printed = relics.Panic.panic generic_issue printed
run_command version cpu (millisleep millis) buf printed = some printed
run_command version cpu unknown buf printed =
    printk printed (codes "`%s' is not a valid command.\n") (string (read_string 4096 0 buf) ∷ [])

-- The command and, unless it is the panic, the prompt; the line is cleared by `run_line`.
unfoldable pub finish_line :
    (version : List ℕ) (cpu : Cpu) (prompt : List ℕ) → Shell → List ℕ → Option (List ℕ)
finish_line version cpu prompt s printed =
    let command = select s.command_buf in
    elim (run_command version cpu command s.command_buf printed) [
      | none ↦ none
      | some out ↦
          if is_panic command then some out else printk out (codes "%s ") (string prompt ∷ [])
    ]

pub data SessionOutcome : Type 0 where
  waiting : Shell → (printed : List ℕ) → SessionOutcome
  full : Shell → (printed : List ℕ) → SessionOutcome
  panicked : Shell → (printed : List ℕ) → SessionOutcome

-- `relics_shell` behind the first prompt, with the text that is shown.
unfoldable pub session_loop :
    (version : List ℕ) (cpu : Cpu) (prompt : List ℕ)
    → List ℕ
    → Shell
    → List ℕ
    → Option SessionOutcome
session_loop version cpu prompt [] s printed =
    some (if ltb s.i 4096 then waiting s printed else full s printed)
session_loop version cpu prompt (c ∷ input) s printed =
    let next = session_loop version cpu prompt input in
    let typed : Option SessionOutcome = elim (printk printed (codes "%c") (word c ∷ [])) [
      | none ↦ none
      | some out ↦ next (record s { command_buf = write s.command_buf s.i c; i = s.i + 1 }) out
    ] in
    let line : Option SessionOutcome = elim (printk printed (codes "%c") (word c ∷ [])) [
      | none ↦ none
      | some out ↦ elim (finish_line version cpu prompt s out) [
        | none ↦ none
        | some out' ↦
            if is_panic (select s.command_buf)
            then some (panicked s out')
            else next (run_line s) out'
      ]
    ] in
    if ltb s.i 4096 then if c == 10 then line else typed else some (full s printed)

-- The text that follows `reset_video_memory`: the prompt, and the loop.
unfoldable pub relics_shell :
    (version : List ℕ) (cpu : Cpu) (prompt : List ℕ) → List ℕ → Memory → Option SessionOutcome
relics_shell version cpu prompt input command_buf =
    elim (printk [] (codes "%s ") (string prompt ∷ [])) [
      | none ↦ none
      | some out ↦
          session_loop version cpu prompt input
            (record { command_buf = command_buf; i = 0; ran = [] }) out
    ]
