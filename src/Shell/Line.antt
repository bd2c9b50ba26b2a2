-- ===== src/Shell/Line.antt =====
-- A line typed into the shell of root/libraryOSes/relics-libOS/apps/shell.c.
use relics.Prelude.{
  ℕ, zero, suc, ◌+◌, ◌<◌, ◌≤◌, ◌≡◌, ◌≢◌, refl, ap, ◌∙◌, arith, tests, true, false, List, [], ◌∷◌,
  ◌++◌, length, All, Memory, write, leb, if◌then◌else◌, if-true, if-false, lt→ltb, ne→eqb,
  Bool-cases, inl, inr, ◌⊎◌,
}
use relics.Shell.{Shell, Command, select, is_panic, clear_line, shell_loop}

-- The buffer with a line's characters from index i on.
abbrev pub typed : List ℕ → ℕ → Memory → Memory
typed [] i buf = buf
typed (c ∷ cs) i buf = typed cs (i + 1) (write buf i c)

typing :
    (cs input : List ℕ) (s : Shell)
    → All (λ c. c ≢ 10) cs
    → s.i + length cs ≤ 4096
    → shell_loop (cs ++ input) s
      ≡ shell_loop input
          (record s { command_buf = typed cs s.i s.command_buf; i = s.i + length cs })
unfolding shell_loop
typing [] input s h le = ap (λ k. shell_loop input (record s { i = k })) (omega arith)
typing (c ∷ cs) input s h le =
    if-true _ _ (lt→ltb s.i 4096 (omega arith))
    ∙ if-false _ _ (ne→eqb c 10 h.0)
    ∙ typing cs input (record s { command_buf = write s.command_buf s.i c; i = s.i + 1 }) h.1
        (omega arith)
    ∙ ap
        (λ k. shell_loop input (record s { command_buf = typed (c ∷ cs) s.i s.command_buf; i = k }))
        (omega arith)

clear_line_lem :
    (i : ℕ) (buf : Memory) (x : ℕ) → clear_line i buf x ≡ (if leb x i then 0 else buf x)
unfolding clear_line
clear_line_lem zero buf x = ground arith
clear_line_lem (suc i) buf x = clear_line_lem i (write buf (suc i) 0) x ∙ ground arith

pub typed-beyond :
    (cs : List ℕ) (i : ℕ) (buf : Memory) (x : ℕ) → i + length cs ≤ x → typed cs i buf x ≡ buf x
typed-beyond [] i buf x h = refl
typed-beyond (c ∷ cs) i buf x h =
    typed-beyond cs (i + 1) (write buf i c) x (omega arith) ∙ ground arith

-- The shell at the start of a line.
abbrev pub at_prompt : Memory → List Command → Shell
at_prompt buf ran = record { command_buf = buf; i = 0; ran = ran }

-- A line of fewer than 4096 characters and a newline, typed at the start of a line, runs the one
-- command that the buffer with these characters selects, unless that is the panic; the shell is
-- then at the start of a line again, and the buffer is zero as far as the line went and unchanged
-- beyond.
pub shell_loop-line :
    (cs input : List ℕ) (buf : Memory) (ran : List Command) (x : ℕ)
    → All (λ c. c ≢ 10) cs
    → length cs < 4096
    → is_panic (select (typed cs 0 buf)) ≡ false
    → (shell_loop (cs ++ 10 ∷ input) (at_prompt buf ran)
        ≡ shell_loop input
            (at_prompt (clear_line (length cs) (typed cs 0 buf)) (select (typed cs 0 buf) ∷ ran)))
      × (clear_line (length cs) (typed cs 0 buf) x ≡ (if leb x (length cs) then 0 else buf x))
unfolding shell_loop
shell_loop-line cs input buf ran x h lt calm = (
  typing cs (10 ∷ input) (at_prompt buf ran) h (omega arith)
      ∙ ap
          (λ k. shell_loop (10 ∷ input) (record { command_buf = typed cs 0 buf; i = k; ran = ran }))
          (omega arith)
      ∙ if-true _ _ (lt→ltb (length cs) 4096 lt)
      ∙ if-false _ _ calm,
  clear_line_lem (length cs) (typed cs 0 buf) x ∙ beyond (Bool-cases (leb x (length cs))),
)
  where
    beyond :
        (leb x (length cs) ≡ true) ⊎ (leb x (length cs) ≡ false)
        → (if leb x (length cs) then 0 else typed cs 0 buf x)
          ≡ (if leb x (length cs) then 0 else buf x)
    beyond (inl e) = rw (e) refl
    beyond (inr e) = rw (e) (typed-beyond cs 0 buf x (omega (tests, e)))
