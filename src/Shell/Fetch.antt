-- ===== src/Shell/Fetch.antt =====
-- About the command `fetchme` of root/libraryOSes/relics-libOS/apps/shell.c.
use relics.Prelude.{
  codes, ℕ, ◌≡◌, ◌∙◌, ap, ap₂, refl, arith, true, Option, none, some, List, [], ◌∷◌, ◌++◌, Memory,
}
use relics.Kio.Format.Pieces.{Piece, plain, characters, meant, are_pieces_sound}
use relics.Kio.Log.Time.{printk-pieces}
use relics.Cpu.{Processor, FlagsOutcome, has_fpu, has_eflag, set_cpu_vendor_name, until_nul}
use relics.Cpu.Report.{
  logged, sse_logged, processor_logged, flags_outcome, reported, detect-reports,
}
use relics.Shell.{Command, fetchme, starts_with, select, is_panic, clear_line}
use relics.String.{strncmp}
use relics.Shell.Line.{typed, at_prompt}
use relics.Shell.Session.{
  Cpu, identified, identify, fetched, fetchme_builtin, run_command, session_loop,
}
use relics.Shell.Shown.{AreShown, session_loop-line}

abbrev pub vendor : Processor → List ℕ
vendor p = set_cpu_vendor_name p.vendor_ebx p.vendor_edx p.vendor_ecx

-- What `set_cpu_vendor_name` has logged behind a text, where it does not halt.
abbrev pub identified_text : Cpu → List ℕ → List ℕ
identified_text cpu printed =
    let clock = cpu.clock printed in
    processor_logged clock cpu.processor (vendor cpu.processor) (
      sse_logged clock cpu.processor.features_edx
        (logged (clock 0) (codes "FPU available\n") printed))

-- The five lines of `fetchme`.
abbrev pub summary : (version name : List ℕ) → List Piece
summary version name =
    plain (codes "OS: Relics version ")
    ∷ characters version
    ∷ plain (codes "\nCPU: ")
    ∷ characters name
    ∷ plain (
        codes
          "\nKernel: Orbit ExoKernel\nLibOS: Relics builtin libOS\nShell: Relics builtin shell\n")
    ∷ []

module _ (version : List ℕ) (cpu : Cpu) (fpu : has_fpu cpu.processor.fsw cpu.processor.fcw ≡ true)
    (id_flag : has_eflag 0x200000 cpu.processor.flags cpu.processor.flags_flipped ≡ true) where
  identify-known :
      (printed : List ℕ)
      → identify cpu printed ≡ some (until_nul (vendor cpu.processor), identified_text cpu printed)
  unfolding identify
  identify-known printed =
      let p = cpu.processor in
      let clock = cpu.clock printed in
      let go : Option FlagsOutcome → Option (List ℕ × List ℕ) =
        λ o. elim o [ none ↦ none | some o' ↦ identified p o' ] in
      ap go (detect-reports clock p cpu.features printed)
      ∙ ap₂
          (λ a b.
            identified p
              (reported clock p (flags_outcome clock a b p.features_edx cpu.features printed)))
          fpu id_flag

  fetchme_builtin-shows :
      (printed : List ℕ)
      → fetchme_builtin version cpu printed
        ≡ some (
            identified_text cpu printed
            ++ meant (summary version (until_nul (vendor cpu.processor))))
  unfolding fetchme_builtin
  fetchme_builtin-shows printed =
      let name = until_nul (vendor cpu.processor) in
      let go : Option (List ℕ × List ℕ) → Option (List ℕ) =
        λ o. elim o [ none ↦ none | some (n, out) ↦ fetched version n out ] in
      ap go (identify-known printed)
      ∙ printk-pieces (identified_text cpu printed) (summary version name) []
          (are_pieces_sound (summary version name) refl)

-- The line selects the command.
select-fetchme : (buf : Memory) → select (typed (codes "fetchme") 0 buf) ≡ fetchme
unfolding select starts_with strncmp
select-fetchme buf = refl

fetchme-AreShown : AreShown (codes "fetchme")
fetchme-AreShown = (
  (omega arith, omega arith, omega arith),
  (
    (omega arith, omega arith, omega arith),
    (
      (omega arith, omega arith, omega arith),
      (
        (omega arith, omega arith, omega arith),
        (
          (omega arith, omega arith, omega arith),
          ((omega arith, omega arith, omega arith), ((omega arith, omega arith, omega arith), tt)),
        ),
      ),
    ),
  ),
)

-- On a processor with a floating point unit and the flag of `cpuid`, the line "fetchme", typed at
-- the start of a line, shows the line as it is typed, then the lines that `set_cpu_vendor_name` logs
-- (the floating point unit, SSE, the vendor, the model, the features), then the five lines of
-- `fetchme` with VERSION and the name of the vendor up to the first NUL, and the prompt; the shell is
-- at the start of a line again and goes on with the input that follows.
pub session_loop-fetches :
    (version : List ℕ) (cpu : Cpu) (prompt input : List ℕ) (buf : Memory) (ran : List Command)
    (printed : List ℕ)
    → has_fpu cpu.processor.fsw cpu.processor.fcw ≡ true
    → has_eflag 0x200000 cpu.processor.flags cpu.processor.flags_flipped ≡ true
    → session_loop version cpu prompt (codes "fetchme" ++ 10 ∷ input) (at_prompt buf ran) printed
      ≡ session_loop version cpu prompt input
          (at_prompt (clear_line 7 (typed (codes "fetchme") 0 buf)) (fetchme ∷ ran))
          ((identified_text cpu ((printed ++ codes "fetchme") ++ codes "\n")
              ++ meant (summary version (until_nul (vendor cpu.processor))))
            ++ (prompt ++ codes " "))
unfolding run_command
session_loop-fetches version cpu prompt input buf ran printed fpu id_flag =
    let line = typed (codes "fetchme") 0 buf in
    let before = (printed ++ codes "fetchme") ++ codes "\n" in
    let out =
      identified_text cpu before ++ meant (summary version (until_nul (vendor cpu.processor))) in
    session_loop-line version cpu prompt (codes "fetchme") input buf ran printed out
      fetchme-AreShown (omega arith) (ap is_panic (select-fetchme buf))
      (ap (λ c. run_command version cpu c line before) (select-fetchme buf)
        ∙ fetchme_builtin-shows version cpu fpu id_flag before)
    ∙ ap
        (λ c.
          session_loop version cpu prompt input (at_prompt (clear_line 7 line) (c ∷ ran))
            (out ++ (prompt ++ codes " ")))
        (select-fetchme buf)
