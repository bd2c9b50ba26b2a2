-- ===== src/Interrupts/Runs.antt =====
-- The runs of the kernel behind root/orbit-kernel/util/idt.c: what a state owes to the interrupts
-- and calls that led to it, in whatever order they came.
use relics.Prelude.{
  ℕ, suc, ◌+◌, ◌^◌, ◌<◌, ◌≡◌, ◌∙◌, ap, sym, refl, arith, some, Bool-cases, true, false, ◌∷◌, ◌++◌,
  replicate, u64, ltb, ◌==◌, if◌then◌else◌, eq→eqb, ne→eqb, lt→ltb, le→ltb, if-true, if-false, ◌⊎◌,
  inl, inr, ◌≢◌,
}
use relics.Keyboard.{
  Keyboard, add_character_pressed, add_most_recent_char, get_most_recent_char, to_character,
}
use relics.Pic.{pic_acknowledge}
use relics.Interrupts.{Registers, Interrupts, returned, handle, acknowledge, run_kbd_irq_handler}
use relics.Interrupts.Dispatch.{Installed}
use relics.Interrupts.Steps.{
  arrives, takes, sleeps, Reach, here, next, Effect, tick, key, spurious, nothing, handle-Effect,
}

-- How many of the timer's interrupts came.
abbrev pub ticks : {s t : Interrupts} → Reach s t → ℕ
ticks here = 0
ticks (next run (arrives fuel scan_code cr2 r e)) =
    let before = ticks run in if r.irq == 32 then suc before else before
ticks (next run takes) = ticks run
ticks (next run (sleeps millis)) = ticks run

-- How many interrupts of the two controllers came.
abbrev pub served : {s t : Interrupts} → Reach s t → ℕ
served here = 0
served (next run (arrives fuel scan_code cr2 r e)) =
    let before = served run in if ltb r.irq 48 then suc before else before
served (next run takes) = served run
served (next run (sleeps millis)) = served run

-- The keyboard that the scan codes and the readers alone lead to.
abbrev pub press : (scan_code : ℕ) → Keyboard → Keyboard
press scan_code k =
    let (c, k') = to_character scan_code (add_character_pressed k) in add_most_recent_char c k'

abbrev pub keyboard_after : {s t : Interrupts} → Reach s t → Keyboard
keyboard_after {s} here = s.keyboard
keyboard_after (next run (arrives fuel scan_code cr2 r e)) =
    let before = keyboard_after run in if r.irq == 33 then press scan_code before else before
keyboard_after (next run takes) = (get_most_recent_char (keyboard_after run)).1
keyboard_after (next run (sleeps millis)) = keyboard_after run

-- What the last state of a run owes to it.
pub record Owes {s t : Interrupts} (run : Reach s t) : Type 0 where
  pub installed : Installed t
  pub same_idt : t.idt ≡ s.idt
  pub same_printed : t.printed ≡ s.printed
  pub time : t.timer_ticks ≡ u64 (s.timer_ticks + ticks run)
  pub ends : t.ports ≡ replicate (served run) (0x20, 0x20) ++ s.ports
  pub keys : t.keyboard ≡ keyboard_after run

module _ {s t u : Interrupts} (run : Reach s t) (fuel scan_code cr2 : ℕ) (r : Registers)
    (e : handle (suc fuel) scan_code cr2 r t ≡ some (returned u)) (h : Owes run) where
  -- The next state, from what the interrupt changed.
  owes :
      u.irq_handlers ≡ t.irq_handlers
      → u.idt ≡ t.idt
      → u.printed ≡ t.printed
      → u.timer_ticks ≡ u64 (t.timer_ticks + (if r.irq == 32 then 1 else 0))
      → u.ports ≡ replicate (if ltb r.irq 48 then 1 else 0) (0x20, 0x20) ++ t.ports
      → u.keyboard ≡ (if r.irq == 33 then press scan_code t.keyboard else t.keyboard)
      → Owes (next run (arrives fuel scan_code cr2 r e))
  owes handlers idt printed time ends keys = record {
    installed = λ i. ap (λ f. f i) handlers ∙ h.installed i;
    same_idt = idt ∙ h.same_idt;
    same_printed = printed ∙ h.same_printed;
    time = time ∙ counted (Bool-cases (r.irq == 32));
    ends =
        ends
        ∙ ap (λ p. replicate (if ltb r.irq 48 then 1 else 0) (0x20, 0x20) ++ p) h.ends
        ∙ ended (Bool-cases (ltb r.irq 48));
    keys = keys ∙ ap (λ k. if r.irq == 33 then press scan_code k else k) h.keys;
  }
    where
      counted :
          (r.irq == 32 ≡ true) ⊎ (r.irq == 32 ≡ false)
          → u64 (t.timer_ticks + (if r.irq == 32 then 1 else 0))
            ≡ u64 (s.timer_ticks + (if r.irq == 32 then suc (ticks run) else ticks run))
      counted (inl b) = rw b (omega (arith, h.time))
      counted (inr b) = rw b (omega (arith, h.time))

      ended :
          (ltb r.irq 48 ≡ true) ⊎ (ltb r.irq 48 ≡ false)
          → replicate (if ltb r.irq 48 then 1 else 0) (0x20, 0x20)
              ++ (replicate (served run) (0x20, 0x20) ++ s.ports)
            ≡ replicate (if ltb r.irq 48 then suc (served run) else served run) (0x20, 0x20)
              ++ s.ports
      ended (inl b) = rw b refl
      ended (inr b) = rw b refl

  no_tick : r.irq ≢ 32 → t.timer_ticks ≡ u64 (t.timer_ticks + (if r.irq == 32 then 1 else 0))
  no_tick ne =
      omega (arith, h.time)
      ∙ ap (λ n. u64 (t.timer_ticks + n)) {x = 0} (sym (if-false 1 0 (ne→eqb r.irq 32 ne)))

  one_end :
      r.irq < 48
      → (0x20, 0x20) ∷ t.ports ≡ replicate (if ltb r.irq 48 then 1 else 0) (0x20, 0x20) ++ t.ports
  one_end lt =
      ap (λ n. replicate n (0x20, 0x20) ++ t.ports) {x = 1} (sym (if-true 1 0 (lt→ltb r.irq 48 lt)))

  no_key :
      r.irq ≢ 33 → t.keyboard ≡ (if r.irq == 33 then press scan_code t.keyboard else t.keyboard)
  no_key ne = sym (if-false _ _ (ne→eqb r.irq 33 ne))

  arrives-Owes : Effect scan_code r t u → Owes (next run (arrives fuel scan_code cr2 r e))
  unfolding acknowledge pic_acknowledge run_kbd_irq_handler
  arrives-Owes (tick v eq) =
      owes (ap (λ x. x.irq_handlers) eq) (ap (λ x. x.idt) eq) (ap (λ x. x.printed) eq)
        (ap (λ x. x.timer_ticks) eq
          ∙ ap (λ n. u64 (t.timer_ticks + n)) {x = 1} (sym (if-true 1 0 (eq→eqb r.irq 32 v))))
        (ap (λ x. x.ports) eq ∙ one_end (omega (arith, v)))
        (ap (λ x. x.keyboard) eq ∙ no_key (omega (arith, v)))
  arrives-Owes (key v eq) =
      owes (ap (λ x. x.irq_handlers) eq) (ap (λ x. x.idt) eq) (ap (λ x. x.printed) eq)
        (ap (λ x. x.timer_ticks) eq ∙ no_tick (omega (arith, v)))
        (ap (λ x. x.ports) eq ∙ one_end (omega (arith, v)))
        (ap (λ x. x.keyboard) eq ∙ sym (if-true _ _ (eq→eqb r.irq 33 v)))
  arrives-Owes (spurious v eq) =
      owes (ap (λ x. x.irq_handlers) eq) (ap (λ x. x.idt) eq) (ap (λ x. x.printed) eq)
        (ap (λ x. x.timer_ticks) eq ∙ no_tick (ground (arith, v)))
        (ap (λ x. x.ports) eq ∙ one_end (ground (arith, v)))
        (ap (λ x. x.keyboard) eq ∙ no_key (ground (arith, v)))
  arrives-Owes (nothing v eq) =
      owes (ap (λ x. x.irq_handlers) eq) (ap (λ x. x.idt) eq) (ap (λ x. x.printed) eq)
        (ap (λ x. x.timer_ticks) eq ∙ no_tick (omega (arith, v)))
        (ap (λ x. x.ports) eq
          ∙ ap (λ n. replicate n (0x20, 0x20) ++ t.ports) {x = 0}
              (sym (if-false 1 0 (le→ltb r.irq 48 v))))
        (ap (λ x. x.keyboard) eq ∙ no_key (omega (arith, v)))

-- Whatever interrupts arrive and return, and however the main program's reads of the keyboard and
-- its sleeps come between them, the last state owes the following to the run from a state with the
-- installed handlers: the handlers and the descriptors are the same and nothing is printed; the
-- clock has advanced by the number of the timer's interrupts, modulo 2 ^ 64; every interrupt of the
-- controllers has sent one end of interrupt, and only to the first controller; and the keyboard is
-- what the scan codes and the reads alone, in their order, make of it.
pub Reach-Owes :
    {s t : Interrupts} (run : Reach s t) → Installed s → s.timer_ticks < 2 ^ 64 → Owes run
unfolding get_most_recent_char
Reach-Owes here h b = record {
  installed = h;
  same_idt = refl;
  same_printed = refl;
  time = omega (arith, b);
  ends = refl;
  keys = refl;
}
Reach-Owes (next run (arrives fuel scan_code cr2 r e)) h b =
    let before = Reach-Owes run h b in
    arrives-Owes run fuel scan_code cr2 r e before
      (handle-Effect fuel scan_code cr2 r _ _ before.installed e)
Reach-Owes (next run takes) h b =
    let before = Reach-Owes run h b in
    record {
      installed = before.installed;
      same_idt = before.same_idt;
      same_printed = before.same_printed;
      time = before.time;
      ends = before.ends;
      keys = ap (λ k. (get_most_recent_char k).1) before.keys;
    }
Reach-Owes (next run (sleeps millis)) h b =
    let before = Reach-Owes run h b in
    record {
      installed = before.installed;
      same_idt = before.same_idt;
      same_printed = before.same_printed;
      time = before.time;
      ends = before.ends;
      keys = before.keys;
    }
