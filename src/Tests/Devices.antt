-- ===== src/Tests/Devices.antt =====
-- Concrete inputs for the interrupts, the timer, the tables, the processor and the keyboard.
use relics.Prelude.{
  List, inl, inr, ◌++◌, ℕ, ◌+◌, ◌*◌, ◌-◌, ◌≡◌, refl, none, some, false, [], ◌∷◌, u64, arith, Memory,
}
use mathlib.Core.Option
use relics.Ports.{Trace, last_written}
use relics.Keyboard.{get_ascii_char, switch, Keyboard, get_most_recent_char}
use relics.Interrupts.{
  Registers, Interrupts, handle, acknowledge, run_kbd_irq_handler, fill_irq_table, idt_init,
  empty_entry,
}
use relics.Interrupts.Dispatch.{
  Installed, fill_irq_table-Installed, handle-timer, handle-loops, handle-keyboard,
}
use relics.Interrupts.Descriptors.{IsGate, address, stub, idt_init-Gates}
use relics.Interrupts.Steps.{Reach, here, next, arrives, takes, sleeps, Effect, handle-Effect}
use relics.Interrupts.Runs.{Owes, Reach-Owes}
use relics.Input.Typing.{Stroke}
use relics.Keyboard.Polled.{over, test_input}
use relics.Keyboard.Echo.{echo, test_input-echoes}
use relics.Pit.{millisleep}
use relics.Pit.Sleep.{woken, millisleep-Ticks}
use relics.Gdt.{gdt_init}
use relics.Gdt.Fields.{Descriptor, gdt_init-Descriptors}

abbrev keys : Keyboard
keys = record {
  char_pressed_state = false;
  most_recent_char = 0;
  is_shifted = false;
  is_alted = false;
  is_ctrled = false;
  is_caps_locked = false;
}

abbrev at_reset : Interrupts
at_reset = record {
  timer_ticks = 41;
  countdown = 0;
  irq_handlers = λ i. none;
  keyboard = keys;
  idt = λ v. empty_entry;
  ports = [];
  printed = [];
}

abbrev booted : Interrupts
booted = fill_irq_table at_reset

booted-Installed : Installed booted
booted-Installed = fill_irq_table-Installed at_reset (λ i. refl)

abbrev pushed : ℕ → Registers
pushed n = record {
  r15 = 0;
  r14 = 0;
  r13 = 0;
  r12 = 0;
  r11 = 0;
  r10 = 0;
  r9 = 0;
  r8 = 0;
  rbp = 0;
  rdi = 0;
  rsi = 0;
  rdx = 0;
  rcx = 0;
  rbx = 0;
  rax = 0;
  irq = n;
  error_code = 0;
  rip = 0;
  cs = 8;
  rflags = 0;
  rsp = 0;
  ss = 0;
}

handle-loops_example : handle 9 0 0 (pushed 34) booted ≡ none
handle-loops_example =
    handle-loops 9 0 0 (pushed 34) booted booted-Installed (omega arith) (omega arith) (omega arith)

abbrev stubs : ℕ → ℕ
stubs v = 0x100000 + 16 * v

abbrev silent : Trace → ℕ → ℕ
silent t port = 0

idt_init-Gates_example :
    IsGate ((idt_init stubs stubs silent at_reset).idt 33)
    × (address ((idt_init stubs stubs silent at_reset).idt 33) ≡ stub stubs stubs 33)
idt_init-Gates_example = idt_init-Gates stubs stubs silent at_reset 33 (omega arith) (omega arith)

millisleep-Ticks_example :
    millisleep 2 ((pushed 32, 0) ∷ (pushed 32, 0) ∷ (pushed 33, 30) ∷ []) booted
    ≡ some (woken 2 booted, (pushed 33, 30) ∷ [])
unfolding fill_irq_table
millisleep-Ticks_example =
    millisleep-Ticks ((pushed 32, 0) ∷ (pushed 32, 0) ∷ []) ((pushed 33, 30) ∷ []) booted
      booted-Installed (refl, (refl, tt)) (omega arith)

abbrev garbage : Memory
garbage v = 3

gdt_init-Descriptors_example :
    (gdt_init garbage 0 ≡ 0)
    × Descriptor (gdt_init garbage 1) 0 0xFFFFF 0x9A 0xA
    × Descriptor (gdt_init garbage 2) 0 0xFFFFF 0x92 0xA
    × (gdt_init garbage 5 ≡ 0)
gdt_init-Descriptors_example = gdt_init-Descriptors garbage 5 (omega arith) (omega arith)

-- A device that returns the last byte written to a port.
abbrev latch : Trace → ℕ → ℕ
latch t port = Option.get_or (last_written port t) 0

abbrev ticked : Interrupts
ticked = record booted {
  timer_ticks = u64 (booted.timer_ticks + 1);
  countdown = booted.countdown - 1;
  ports = (0x20, 0x20) ∷ booted.ports;
}

ticked-Installed : Installed ticked
ticked-Installed = booted-Installed

abbrev keyed : Interrupts
keyed = acknowledge 33 (run_kbd_irq_handler 30 ticked)

-- A tick, the key A, a read, and the start of a sleep.
abbrev a_run :
    Reach booted
      (record keyed { keyboard = (get_most_recent_char keyed.keyboard).1; countdown = 9 })
a_run =
    next
      (next
        (next
          (next here (
            arrives 0 0 0 (pushed 32)
              (handle-timer 0 0 0 (pushed 32) booted booted-Installed refl)))
          (arrives 0 30 0 (pushed 33)
            (handle-keyboard 0 30 0 (pushed 33) ticked ticked-Installed refl).0))
        takes)
      (sleeps 9)

Reach-Owes_example : Owes a_run
unfolding fill_irq_table
Reach-Owes_example = Reach-Owes a_run booted-Installed (omega arith)

handle-Effect_example : Effect 30 (pushed 32) booted ticked
handle-Effect_example =
    handle-Effect 0 30 0 (pushed 32) booted ticked booted-Installed
      (handle-timer 0 30 0 (pushed 32) booted booted-Installed refl)

-- The keys H and I, with ticks before them.
abbrev strokes : List Stroke
strokes =
    record { ticks = (pushed 32, 0) ∷ []; registers = pushed 33; scan_code = 35 }
    ∷ record { ticks = (pushed 32, 0) ∷ (pushed 32, 0) ∷ []; registers = pushed 33; scan_code = 23 }
    ∷ []

-- 1, Enter, 2 and a key without a character.
test_input-echoes_example :
    test_input (2 ∷ ((28 ∷ 3 ∷ []) ++ 0x3B ∷ 5 ∷ [])) []
    ≡ some (over ([] ++ (get_ascii_char 2 ∷ echo (28 ∷ 3 ∷ []))))
unfolding get_ascii_char switch
test_input-echoes_example =
    test_input-echoes 2 0x3B (28 ∷ 3 ∷ []) (5 ∷ []) [] (omega arith) (omega arith)
      (inl refl, (inr (omega arith), tt)) (omega arith) refl
