-- ===== src/Interrupts/Steps.antt =====
-- The kernel behind root/orbit-kernel/util/idt.c as a step relation: an interrupt that the common
-- handler returns from, and what the main program does to the variables that the handlers share.
use relics.Prelude.{
  ℕ, suc, ◌+◌, ◌-◌, ◌<◌, ◌≤◌, ◌≡◌, ◌≢◌, ◌⊎◌, ◌∙◌, inl, inr, ap, sym, refl, arith, tests, Option,
  none, some, Bool, true, false, ◌∷◌, u64, ltb, ◌==◌, Bool-cases, ne→eqb, eqb→eq, eqb→ne, le→ltb,
  le→leb,
}
use mathlib.Core.Bool.{false≢true}
use relics.Keyboard.{get_most_recent_char}
use relics.Interrupts.{
  Registers, Interrupts, Outcome, returned, halted, handle, acknowledge, run_kbd_irq_handler,
}
use relics.Interrupts.Dispatch.{
  Installed, handle-timer, handle-keyboard, handle-spurious, handle-faults, handle-loops,
}

-- A step of the kernel: an interrupt with its registers, scan code and cr2; `get_most_recent_char`;
-- the start of `millisleep`.
pub data Step : Interrupts → Interrupts → Type 0 where
  arrives :
      {s s' : Interrupts} (fuel scan_code cr2 : ℕ) (r : Registers)
      → handle (suc fuel) scan_code cr2 r s ≡ some (returned s')
      → Step s s'
  takes : {s : Interrupts} → Step s (record s { keyboard = (get_most_recent_char s.keyboard).1 })
  sleeps : {s : Interrupts} (millis : ℕ) → Step s (record s { countdown = millis })

-- The steps from one state to another, in order.
pub data Reach (s : Interrupts) : Interrupts → Type 0 where
  here : Reach s s
  next : {t u : Interrupts} → Reach s t → Step t u → Reach s u

-- What an interrupt that returns has done.
pub data Effect (scan_code : ℕ) (r : Registers) (s s' : Interrupts) : Type 0 where
  tick :
      r.irq ≡ 32
      → s' ≡ record s {
        timer_ticks = u64 (s.timer_ticks + 1);
        countdown = s.countdown - 1;
        ports = (0x20, 0x20) ∷ s.ports;
      }
      → Effect scan_code r s s'
  key : r.irq ≡ 33 → s' ≡ acknowledge 33 (run_kbd_irq_handler scan_code s) → Effect scan_code r s s'
  spurious :
      (r.irq ≡ 39) ⊎ (r.irq ≡ 47)
      → s' ≡ record s { ports = (0x20, 0x20) ∷ s.ports }
      → Effect scan_code r s s'
  nothing : 48 ≤ r.irq → s' ≡ s → Effect scan_code r s s'

-- The result of a handler, as far as it returned.
result : Interrupts → Option Outcome → Interrupts
result s none = s
result s (some (returned s')) = s'
result s (some (halted s')) = s'

returns : Option Outcome → Bool
returns none = false
returns (some (returned s)) = true
returns (some (halted s)) = false

handle-beyond :
    (fuel scan_code cr2 : ℕ) (r : Registers) (s : Interrupts)
    → 48 ≤ r.irq
    → handle (suc fuel) scan_code cr2 r s ≡ some (returned s)
unfolding handle
handle-beyond fuel scan_code cr2 r s h =
    rw
      (
        ne→eqb r.irq 39 (omega arith),
        ne→eqb r.irq 47 (omega arith),
        le→ltb r.irq 32 (omega arith),
        le→leb 32 r.irq (omega arith),
        le→ltb r.irq 48 h,
      )
      refl

-- The kinds of vectors.
data Vector (irq : ℕ) : Type 0 where
  fault : irq < 32 → Vector irq
  timer : irq ≡ 32 → Vector irq
  keyboard : irq ≡ 33 → Vector irq
  idle : (irq ≡ 39) ⊎ (irq ≡ 47) → Vector irq
  unserved : 34 ≤ irq → irq < 47 → irq ≢ 39 → Vector irq
  beyond : 48 ≤ irq → Vector irq

vector_from_34 : (irq : ℕ) → 34 ≤ irq → Vector irq
vector_from_34 irq h = elim (Bool-cases (ltb irq 48)) [
  | inr above ↦ beyond (omega (tests, above))
  | inl below ↦ elim (Bool-cases (irq == 39)) [
    | inl e ↦ idle (inl (eqb→eq irq 39 e))
    | inr e ↦ elim (Bool-cases (irq == 47)) [
      | inl f ↦ idle (inr (eqb→eq irq 47 f))
      | inr f ↦ unserved h (omega (tests, below, f)) (eqb→ne irq 39 e)
    ]
  ]
]

vector : (irq : ℕ) → Vector irq
vector irq = elim (Bool-cases (ltb irq 32)) [
  | inl low ↦ fault (omega (tests, low))
  | inr high ↦ elim (Bool-cases (irq == 32)) [
    | inl e ↦ timer (eqb→eq irq 32 e)
    | inr e ↦ elim (Bool-cases (irq == 33)) [
      | inl f ↦ keyboard (eqb→eq irq 33 f)
      | inr f ↦ vector_from_34 irq (omega (tests, high, e, f))
    ]
  ]
]

module _ (fuel scan_code cr2 : ℕ) (r : Registers) (s s' : Interrupts) (h : Installed s)
    (e : handle (suc fuel) scan_code cr2 r s ≡ some (returned s')) where
  same : (o : Option Outcome) → handle (suc fuel) scan_code cr2 r s ≡ o → s' ≡ result s o
  unfolding result
  same o f = ap (result s) (sym e ∙ f)

  not_lost : (o : Option Outcome) → handle (suc fuel) scan_code cr2 r s ≡ o → returns o ≡ true
  unfolding returns
  not_lost o f = ap returns (sym f ∙ e)

  effect : Vector r.irq → Effect scan_code r s s'
  unfolding result returns
  effect (fault lt) = absurd (false≢true (not_lost _ (handle-faults fuel scan_code cr2 r s lt)))
  effect (timer v) = tick v (same _ (handle-timer fuel scan_code cr2 r s h v))
  effect (keyboard v) = key v (same _ (handle-keyboard fuel scan_code cr2 r s h v).0)
  effect (idle v) = spurious v (same _ (handle-spurious fuel scan_code cr2 r s v))
  effect (unserved lo hi ne) =
      absurd (false≢true (not_lost _ (handle-loops (suc fuel) scan_code cr2 r s h lo hi ne)))
  effect (beyond le) = nothing le (same _ (handle-beyond fuel scan_code cr2 r s le))

-- With the installed handlers every interrupt that the common handler returns from, on any fuel, is
-- one of these: the timer's, with a tick, the countdown and an acknowledgement; the keyboard's,
-- with its character and an acknowledgement; a spurious one, which is acknowledged; or a vector from
-- 48 on, which changes nothing. The exceptions and the lines without a driver do not return.
pub handle-Effect :
    (fuel scan_code cr2 : ℕ) (r : Registers) (s s' : Interrupts)
    → Installed s
    → handle (suc fuel) scan_code cr2 r s ≡ some (returned s')
    → Effect scan_code r s s'
handle-Effect fuel scan_code cr2 r s s' h e = effect fuel scan_code cr2 r s s' h e (vector r.irq)
