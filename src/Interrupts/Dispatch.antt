-- ===== src/Interrupts/Dispatch.antt =====
-- About the common handler of root/orbit-kernel/util/idt.c, vector by vector.
use relics.Prelude.{
  ℕ, zero, suc, ◌+◌, ◌-◌, ◌≤◌, ◌<◌, ◌≡◌, ◌≢◌, ◌⊎◌, inl, inr, refl, arith, ap, ◌∙◌, u8, u64, ne→eqb,
  eq→eqb, lt→ltb, le→ltb, ltb, le→leb, if◌then◌else◌, none, some, List, [], ◌∷◌, get_elem?,
}
use relics.Keyboard.{
  add_most_recent_char, get_most_recent_char, to_character, add_character_pressed,
}
use relics.Pic.{pic_acknowledge}
use relics.Interrupts.{
  Registers, Handler, timer_handler, kbd_irq_handler, exception_handler, spurious_interrupt,
  Interrupts, returned, halted, irq_install_handler, fill_irq_table, run_timer_handler,
  run_kbd_irq_handler, acknowledge, then_acknowledge, call_handler, handle, report_fault,
}

-- The handlers of the sixteen lines.
abbrev pub installed : List Handler
installed =
    timer_handler ∷ kbd_irq_handler ∷ exception_handler ∷ exception_handler ∷ exception_handler
    ∷ exception_handler ∷ exception_handler ∷ spurious_interrupt ∷ exception_handler
    ∷ exception_handler ∷ exception_handler ∷ exception_handler ∷ exception_handler
    ∷ exception_handler ∷ exception_handler ∷ exception_handler ∷ []

abbrev pub Installed : Interrupts → Type 0
Installed s = (i : ℕ) → s.irq_handlers i ≡ get_elem? installed i

fill_irq_table-beyond :
    (s : Interrupts) (i : ℕ) → 16 ≤ i → (fill_irq_table s).irq_handlers i ≡ s.irq_handlers i
unfolding fill_irq_table irq_install_handler
fill_irq_table-beyond s i h =
    rw
      (
        ne→eqb i 15 (omega arith),
        ne→eqb i 14 (omega arith),
        ne→eqb i 13 (omega arith),
        ne→eqb i 12 (omega arith),
        ne→eqb i 11 (omega arith),
        ne→eqb i 10 (omega arith),
        ne→eqb i 9 (omega arith),
        ne→eqb i 8 (omega arith),
        ne→eqb i 7 (omega arith),
        ne→eqb i 6 (omega arith),
        ne→eqb i 5 (omega arith),
        ne→eqb i 4 (omega arith),
        ne→eqb i 3 (omega arith),
        ne→eqb i 2 (omega arith),
        ne→eqb i 1 (omega arith),
        ne→eqb i 0 (omega arith),
      )
      refl

-- The table that `fill_irq_table` fills, from the empty one of the static variable.
pub fill_irq_table-Installed :
    (s : Interrupts) → ((i : ℕ) → s.irq_handlers i ≡ none) → Installed (fill_irq_table s)
unfolding fill_irq_table irq_install_handler
fill_irq_table-Installed s h zero = refl
fill_irq_table-Installed s h (suc zero) = refl
fill_irq_table-Installed s h (suc (suc zero)) = refl
fill_irq_table-Installed s h (suc (suc (suc zero))) = refl
fill_irq_table-Installed s h (suc (suc (suc (suc zero)))) = refl
fill_irq_table-Installed s h (suc (suc (suc (suc (suc zero))))) = refl
fill_irq_table-Installed s h (suc (suc (suc (suc (suc (suc zero)))))) = refl
fill_irq_table-Installed s h (suc (suc (suc (suc (suc (suc (suc zero))))))) = refl
fill_irq_table-Installed s h (suc (suc (suc (suc (suc (suc (suc (suc zero)))))))) = refl
fill_irq_table-Installed s h (suc (suc (suc (suc (suc (suc (suc (suc (suc zero))))))))) = refl
fill_irq_table-Installed s h (suc (suc (suc (suc (suc (suc (suc (suc (suc (suc zero)))))))))) = refl
fill_irq_table-Installed s h
      (suc (suc (suc (suc (suc (suc (suc (suc (suc (suc (suc zero))))))))))) =
    refl
fill_irq_table-Installed s h
      (suc (suc (suc (suc (suc (suc (suc (suc (suc (suc (suc (suc zero)))))))))))) =
    refl
fill_irq_table-Installed s h
      (suc (suc (suc (suc (suc (suc (suc (suc (suc (suc (suc (suc (suc zero))))))))))))) =
    refl
fill_irq_table-Installed s h
      (suc (suc (suc (suc (suc (suc (suc (suc (suc (suc (suc (suc (suc (suc zero)))))))))))))) =
    refl
fill_irq_table-Installed s h
      (suc
        (suc (suc (suc (suc (suc (suc (suc (suc (suc (suc (suc (suc (suc (suc zero))))))))))))))) =
    refl
fill_irq_table-Installed s h
      (suc (
        suc
          (suc (suc (suc (suc (suc (suc (suc (suc (suc (suc (suc (suc (suc (suc i)))))))))))))))) =
    fill_irq_table-beyond s
      (suc
        (suc (suc (suc (suc (suc (suc (suc (suc (suc (suc (suc (suc (suc (suc (suc i))))))))))))))))
      (omega arith)
    ∙ h _

-- The branch that calls a handler.
handle-calls :
    (fuel scan_code cr2 : ℕ) (r : Registers) (s : Interrupts)
    → 32 ≤ r.irq
    → r.irq < 48
    → r.irq ≢ 39
    → r.irq ≢ 47
    → handle (suc fuel) scan_code cr2 r s
      ≡ then_acknowledge r.irq
          (call_handler scan_code (handle fuel scan_code cr2 r s) (s.irq_handlers (r.irq - 32)) s)
unfolding handle
handle-calls fuel scan_code cr2 r s lo hi a b =
    let e : u8 r.irq ≡ r.irq = omega (arith, hi) in
    rw
      (
        ne→eqb r.irq 39 a,
        ne→eqb r.irq 47 b,
        le→ltb r.irq 32 lo,
        le→leb 32 r.irq lo,
        lt→ltb r.irq 48 hi,
        e,
      )
      refl

-- The same with the installed table, for line i.
handle-line :
    (fuel scan_code cr2 : ℕ) (r : Registers) (s : Interrupts) (i : ℕ)
    → Installed s
    → r.irq ≡ 32 + i
    → i < 15
    → i ≢ 7
    → handle (suc fuel) scan_code cr2 r s
      ≡ then_acknowledge
          (32 + i)
          (call_handler scan_code (handle fuel scan_code cr2 r s) (get_elem? installed i) s)
handle-line fuel scan_code cr2 r s i h e lt ne =
    let again = handle fuel scan_code cr2 r s in
    handle-calls fuel scan_code cr2 r s (omega (arith, e)) (omega (arith, e, lt))
      (omega (arith, e, ne)) (omega (arith, e, lt))
    ∙ ap (λ o. then_acknowledge r.irq (call_handler scan_code again o s))
        (ap s.irq_handlers (omega (arith, e)) ∙ h i)
    ∙ ap (λ k. then_acknowledge k (call_handler scan_code again (get_elem? installed i) s)) e

-- With the installed handlers a timer interrupt, vector 32, does the following, on any fuel: one
-- tick modulo 2 ^ 64, the countdown towards zero, and an acknowledgement
-- of the first controller only.
pub handle-timer :
    (fuel scan_code cr2 : ℕ) (r : Registers) (s : Interrupts)
    → Installed s
    → r.irq ≡ 32
    → handle (suc fuel) scan_code cr2 r s
      ≡ some (
          returned (record s {
            timer_ticks = u64 (s.timer_ticks + 1);
            countdown = s.countdown - 1;
            ports = (0x20, 0x20) ∷ s.ports;
          }))
unfolding call_handler run_timer_handler then_acknowledge acknowledge pic_acknowledge
handle-timer fuel scan_code cr2 r s h e =
    handle-line fuel scan_code cr2 r s 0 h e (omega arith) (omega arith)
    ∙ ap
        (λ c. some (
          returned (record s {
            timer_ticks = u64 (s.timer_ticks + 1);
            countdown = c;
            ports = (0x20, 0x20) ∷ s.ports;
          })))
        (down s.countdown)
  where
    down : (c : ℕ) → (if ltb 0 c then c - 1 else c) ≡ c - 1
    down c = ground arith

-- With the installed handlers a keyboard interrupt, vector 33, on any fuel: it is acknowledged,
-- and the character of its scan code, in the modifier state before it, is what the next
-- `get_most_recent_char` returns.
pub handle-keyboard :
    (fuel scan_code cr2 : ℕ) (r : Registers) (s : Interrupts)
    → Installed s
    → r.irq ≡ 33
    → handle (suc fuel) scan_code cr2 r s
        ≡ some (returned (acknowledge 33 (run_kbd_irq_handler scan_code s)))
      × ((get_most_recent_char (run_kbd_irq_handler scan_code s).keyboard).0
          ≡ (to_character scan_code (add_character_pressed s.keyboard)).0)
unfolding call_handler then_acknowledge run_kbd_irq_handler get_most_recent_char
    add_most_recent_char
handle-keyboard fuel scan_code cr2 r s h e =
    (handle-line fuel scan_code cr2 r s 1 h e (omega arith) (omega arith), refl)

-- Spurious interrupts, lines 7 and 15: only the first controller is acknowledged.
pub handle-spurious :
    (fuel scan_code cr2 : ℕ) (r : Registers) (s : Interrupts)
    → (r.irq ≡ 39) ⊎ (r.irq ≡ 47)
    → handle (suc fuel) scan_code cr2 r s
      ≡ some (returned (record s { ports = (0x20, 0x20) ∷ s.ports }))
unfolding handle acknowledge pic_acknowledge
handle-spurious fuel scan_code cr2 r s (inl e) = rw (eq→eqb r.irq 39 e) refl
handle-spurious fuel scan_code cr2 r s (inr e) =
    rw (eq→eqb r.irq 47 e, ne→eqb r.irq 39 (omega (arith, e))) refl

-- An exception, vectors below 32, halts the machine after its report, with any fuel: the state is
-- unchanged but for what is printed.
pub handle-faults :
    (fuel scan_code cr2 : ℕ) (r : Registers) (s : Interrupts)
    → r.irq < 32
    → handle (suc fuel) scan_code cr2 r s ≡ some (halted (report_fault cr2 r s))
unfolding handle
handle-faults fuel scan_code cr2 r s h =
    rw (ne→eqb r.irq 39 (omega (arith, h)), ne→eqb r.irq 47 (omega (arith, h)), lt→ltb r.irq 32 h)
      refl

-- With the installed handlers the interrupts of the lines that have no driver, the vectors from 34
-- to 46 but 39, never return, whatever the fuel: their handler
-- is the common handler itself, which calls it again.
pub handle-loops :
    (fuel scan_code cr2 : ℕ) (r : Registers) (s : Interrupts)
    → Installed s
    → 34 ≤ r.irq
    → r.irq < 47
    → r.irq ≢ 39
    → handle fuel scan_code cr2 r s ≡ none
unfolding handle then_acknowledge call_handler
handle-loops zero scan_code cr2 r s h lo hi a = refl
handle-loops (suc fuel) scan_code cr2 r s h lo hi a =
    handle-calls fuel scan_code cr2 r s (omega arith) (omega arith) a (omega arith)
    ∙ ap (λ o. then_acknowledge r.irq (call_handler scan_code (handle fuel scan_code cr2 r s) o s))
        (h (r.irq - 32) ∙ exception (r.irq - 32) (omega arith) (omega arith) (omega arith))
    ∙ ap (then_acknowledge r.irq) (handle-loops fuel scan_code cr2 r s h lo hi a)
  where
    exception : (i : ℕ) → 2 ≤ i → i < 15 → i ≢ 7 → get_elem? installed i ≡ some exception_handler
    exception i lo hi a = ground arith
