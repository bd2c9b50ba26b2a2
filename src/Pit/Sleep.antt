-- ===== src/Pit/Sleep.antt =====
-- About `reprogram_timer` and `millisleep` of root/orbit-kernel/util/pit.c.
use Prim.Native.Nat.{bit_and}
use relics.Prelude.{
  ℕ, zero, suc, ◌+◌, ◌-◌, ◌/◌, ◌%◌, ◌^◌, ◌≤◌, ◌<◌, ◌≡◌, refl, arith, ap, ap₂, if-true, if-false,
  le→ltb, ◌∙◌, u8, u16, u64, ne→eqb, lt→ltb, Option, none, some, List, [], ◌∷◌, ◌++◌, length, All,
  true,
}
use native.Mathlib.Nat.{div-le_of_le-mul}
use relics.Prelude.Bits.{bit_and-mask}
use relics.Interrupts.{Interrupts, Outcome, returned, halted, handle}
use relics.Interrupts.Dispatch.{Installed, handle-timer}
use relics.Ports.{Trace}
use relics.Pit.{Pit, pit_frequency, reprogram_timer, Wake, sleep_loop, millisleep}

-- From 19 Hz on, the two bytes written to the channel are the low and the high byte of the whole
-- divisor of the frequency, and the timer counts as enabled.
pub reprogram_timer-divisor :
    (hz : ℕ) (t : Pit)
    → 19 ≤ hz
    → hz < 2 ^ 16
    → reprogram_timer hz t
      ≡ some (record {
        enabled = true;
        ports =
            (0x40, pit_frequency / hz / 256)
            ∷ (0x40, pit_frequency / hz % 256)
            ∷ (0x43, 0x36)
            ∷ t.ports;
      })
unfolding reprogram_timer
reprogram_timer-divisor hz t h b =
    let d = pit_frequency / hz in
    let small : d ≤ 62800 = div-le_of_le-mul hz (omega (arith, h)) in
    let e : u16 d ≡ d = omega (arith, small) in
    let f : u8 (d / 2 ^ 8) ≡ d / 256 = omega (arith, small) in
    let g : bit_and d 0xFF ≡ d % 256 = bit_and-mask 8 d in
    rw (ne→eqb hz 0 (omega (arith, h)), e, f, g) refl

-- Every interrupt of the list is the timer's.
abbrev pub Ticks : List Wake → Type 0
Ticks = All (λ (w : Wake). w.0.irq ≡ 32)

abbrev pub acknowledged : ℕ → Trace → Trace
acknowledged zero t = t
acknowledged (suc n) t = acknowledged n ((0x20, 0x20) ∷ t)

-- The state after n timer interrupts that a sleeper has waited for.
abbrev pub woken : ℕ → Interrupts → Interrupts
woken n s = record s {
  timer_ticks = u64 (s.timer_ticks + n);
  countdown = 0;
  ports = acknowledged n s.ports;
}

sleep_loop-stops :
    (wakes : List Wake) (s : Interrupts) → s.countdown ≡ 0 → sleep_loop wakes s ≡ some (s, wakes)
unfolding sleep_loop
sleep_loop-stops [] s e = if-false _ _ (le→ltb 0 s.countdown (omega (arith, e)))
sleep_loop-stops (w ∷ wakes) s e = if-false _ _ (le→ltb 0 s.countdown (omega (arith, e)))

sleep_loop-Ticks :
    (ticks rest : List Wake) (s : Interrupts)
    → Installed s
    → Ticks ticks
    → s.timer_ticks < 2 ^ 64
    → s.countdown ≡ length ticks
    → sleep_loop (ticks ++ rest) s ≡ some (woken (length ticks) s, rest)
unfolding sleep_loop
sleep_loop-Ticks [] rest s h t b e =
    sleep_loop-stops rest s e
    ∙ ap₂ (λ a c. some (record s { timer_ticks = a; countdown = c }, rest)) (omega (arith, b)) e
sleep_loop-Ticks ((r, scan_code) ∷ ticks) rest s h t b e =
    let s' = record s {
      timer_ticks = u64 (s.timer_ticks + 1);
      countdown = s.countdown - 1;
      ports = (0x20, 0x20) ∷ s.ports;
    } in
    let after : Option Outcome → Option (Interrupts × List Wake) = λ o. elim o [
      | none ↦ none
      | some o' ↦ elim o' [ returned s1 ↦ sleep_loop (ticks ++ rest) s1 | halted s1 ↦ none ]
    ] in
    if-true (after (handle 1 scan_code 0 r s)) _ (lt→ltb 0 s.countdown (omega (arith, e)))
    ∙ ap after (handle-timer 0 scan_code 0 r s h t.0)
    ∙ sleep_loop-Ticks ticks rest s' h t.1 (omega arith) (omega (arith, e))
    ∙ ap
        (λ a. some (
          record s {
            timer_ticks = a;
            countdown = 0;
            ports = acknowledged (length ticks) ((0x20, 0x20) ∷ s.ports);
          },
          rest,
        ))
        (omega arith)

-- With the installed handlers, and a tick count of 64 bits, `millisleep` returns after as many
-- timer interrupts as it is given milliseconds, with that many ticks counted modulo 2^64 and that
-- many acknowledgements, and takes no later interrupt.
pub millisleep-Ticks :
    (ticks rest : List Wake) (s : Interrupts)
    → Installed s
    → Ticks ticks
    → s.timer_ticks < 2 ^ 64
    → millisleep (length ticks) (ticks ++ rest) s ≡ some (woken (length ticks) s, rest)
unfolding millisleep
millisleep-Ticks ticks rest s h t b =
    sleep_loop-Ticks ticks rest (record s { countdown = length ticks }) h t b refl
