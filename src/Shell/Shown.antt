-- ===== src/Shell/Shown.antt =====
-- What a line that is typed into the shell of root/libraryOSes/relics-libOS/apps/shell.c shows.
use relics.Prelude.{
  codes, ℕ, ◌+◌, ◌<◌, ◌≤◌, ◌≡◌, ◌≢◌, ◌∙◌, ap, ap₂, sym, refl, arith, false, Option, none, some,
  List, [], ◌∷◌, ◌++◌, length, All, Memory, write, if◌then◌else◌, if-true, if-false, lt→ltb, ne→eqb,
}
use relics.Kio.Format.Text.{append_assoc, append-nil}
use relics.Kio.Format.Pieces.{Piece, plain, character, characters, are_pieces_sound}
use relics.Kio.Format.{word, string}
use relics.Kio.Log.{printk}
use relics.Kio.Log.Time.{printk-pieces}
use relics.Keyboard.Echo.{meant-character}
use relics.Shell.{Shell, Command, select, is_panic, clear_line, run_line}
use relics.Shell.Line.{typed, at_prompt}
use relics.Shell.Session.{Cpu, run_command, finish_line, SessionOutcome, panicked, session_loop}

-- Characters that are shown: ASCII, no NUL and no newline.
abbrev pub AreShown : List ℕ → Type 0
AreShown = All (λ c. (0 < c) × (c < 128) × (c ≢ 10))

pub printk-character :
    (c : ℕ) (printed : List ℕ)
    → 0 < c
    → c < 128
    → printk printed (codes "%c") (word c ∷ []) ≡ some (printed ++ c ∷ [])
printk-character c printed p h =
    printk-pieces printed (character c ∷ []) [] (tt, tt)
    ∙ ap (λ t. some (printed ++ t)) (meant-character c p h)

module _ (version : List ℕ) (cpu : Cpu) (prompt : List ℕ) where
  abbrev pub session : List ℕ → Shell → List ℕ → Option SessionOutcome
  session = session_loop version cpu prompt

  typing :
      (cs input : List ℕ) (s : Shell) (printed : List ℕ)
      → AreShown cs
      → s.i + length cs ≤ 4096
      → session (cs ++ input) s printed
        ≡ session input
            (record s { command_buf = typed cs s.i s.command_buf; i = s.i + length cs })
            (printed ++ cs)
  unfolding session_loop
  typing [] input s printed h le =
      ap₂ (λ k t. session input (record s { i = k }) t) (omega arith) (sym (append-nil printed))
  typing (c ∷ cs) input s printed h le =
      let s1 = record s { command_buf = write s.command_buf s.i c; i = s.i + 1 } in
      let go : Option (List ℕ) → Option SessionOutcome =
        λ o. elim o [ none ↦ none | some out ↦ session (cs ++ input) s1 out ] in
      if-true _ _ (lt→ltb s.i 4096 (omega arith))
      ∙ if-false _ _ (ne→eqb c 10 h.0.2)
      ∙ ap go (printk-character c printed h.0.0 h.0.1)
      ∙ typing cs input s1 (printed ++ c ∷ []) h.1 (omega arith)
      ∙ ap₂
          (λ k t.
            session input (record s { command_buf = typed (c ∷ cs) s.i s.command_buf; i = k }) t)
          (omega arith) (append_assoc printed (c ∷ []) cs)

  -- A line whose command returns: what it prints, and the prompt.
  pub session_loop-line :
      (cs input : List ℕ) (buf : Memory) (ran : List Command) (printed out : List ℕ)
      → AreShown cs
      → length cs < 4096
      → is_panic (select (typed cs 0 buf)) ≡ false
      → run_command version cpu
          (select (typed cs 0 buf))
          (typed cs 0 buf)
          ((printed ++ cs) ++ codes "\n")
        ≡ some out
      → session (cs ++ 10 ∷ input) (at_prompt buf ran) printed
        ≡ session input
            (at_prompt (clear_line (length cs) (typed cs 0 buf)) (select (typed cs 0 buf) ∷ ran))
            (out ++ (prompt ++ codes " "))
  unfolding session_loop finish_line
  session_loop-line cs input buf ran printed out h lt calm e =
      let line = typed cs 0 buf in
      let s1 : Shell = record { command_buf = line; i = length cs; ran = ran } in
      let shown : List Piece = characters prompt ∷ plain (32 ∷ []) ∷ [] in
      let ended : Option (List ℕ) → Option (List ℕ) = λ o. elim o [
        | none ↦ none
        | some t ↦
            if is_panic (select line) then some t else printk t (codes "%s ") (string prompt ∷ [])
      ] in
      let run : Option (List ℕ) → Option SessionOutcome = λ o. elim o [
        | none ↦ none
        | some t ↦
            if is_panic (select line) then some (panicked s1 t) else session input (run_line s1) t
      ] in
      let go : Option (List ℕ) → Option SessionOutcome =
        λ o. elim o [ none ↦ none | some t ↦ run (finish_line version cpu prompt s1 t) ] in
      typing cs (10 ∷ input) (at_prompt buf ran) printed h (omega arith)
      ∙ ap
          (λ k.
            session (10 ∷ input) (record { command_buf = line; i = k; ran = ran }) (printed ++ cs))
          {x = 0 + length cs} {y = length cs} (omega arith)
      ∙ if-true _ _ (lt→ltb (length cs) 4096 lt)
      ∙ ap go (printk-character 10 (printed ++ cs) (omega arith) (omega arith))
      ∙ ap (λ o. run (ended o)) e
      ∙ ap run (if-false _ _ calm ∙ printk-pieces out shown [] (are_pieces_sound shown refl))
      ∙ if-false _ _ calm
