-- ===== src/Interrupts.antt =====
-- root/orbit-kernel/util/idt.c: the interrupt descriptors, the table of handlers and the common
-- handler of exceptions and interrupts. The static variables are a record; `inb(0x60)`, the scan
-- code, is an argument; what the assembly stubs push is the record of registers. A call of the
-- common handler returns, halts the machine, or runs out of fuel.
pub mod Descriptors
pub mod Dispatch
pub mod Steps
pub mod Runs
use Prim.Native.Nat.{bit_and, bit_or}
use relics.Prelude.{
  ℕ, zero, suc, ◌+◌, ◌-◌, ◌*◌, ◌/◌, ◌%◌, ◌^◌, u8, u16, u32, u64, Bool, true, false, ◌&&◌, ◌||◌,
  ◌==◌, leb, ltb, if◌then◌else◌, Option, none, some, List, [], ◌∷◌, write,
}
use relics.Ports.{Trace}
use relics.Pic.{pic_acknowledge, pic_enable}
use relics.Keyboard.{Keyboard, add_character_pressed, add_most_recent_char, to_character}

-- `regs_t`.
pub record Registers : Type 0 where
  pub r15 : ℕ
  pub r14 : ℕ
  pub r13 : ℕ
  pub r12 : ℕ
  pub r11 : ℕ
  pub r10 : ℕ
  pub r9 : ℕ
  pub r8 : ℕ
  pub rbp : ℕ
  pub rdi : ℕ
  pub rsi : ℕ
  pub rdx : ℕ
  pub rcx : ℕ
  pub rbx : ℕ
  pub rax : ℕ
  pub irq : ℕ
  pub error_code : ℕ
  pub rip : ℕ
  pub cs : ℕ
  pub rflags : ℕ
  pub rsp : ℕ
  pub ss : ℕ

-- `idt_entry_t`.
pub record IdtEntry : Type 0 where
  pub isr_low : ℕ
  pub kernel_cs : ℕ
  pub ist : ℕ
  pub zero_bits : ℕ
  pub type_bits : ℕ
  pub dpl : ℕ
  pub p : ℕ
  pub isr_mid : ℕ
  pub isr_high : ℕ
  pub reserved : ℕ

-- The functions that `irq_handlers` points to.
pub data Handler : Type 0 where
  timer_handler : Handler
  kbd_irq_handler : Handler
  exception_handler : Handler
  spurious_interrupt : Handler

-- What the handlers print.
pub data Message : Type 0 where
  kernel_fault : (irq rsp : ℕ) → Message
  reasons : Message
  external_hardware : Message
  selector_table : (table : ℕ) → Message
  selector_index : (index : ℕ) → Message
  page_fault_cause : (bit : ℕ) → Message
  exception_name : (irq : ℕ) → Message
  page_fault_at : (cr2 rip : ℕ) → Message
  halting : Message

pub record Interrupts : Type 0 where
  pub timer_ticks : ℕ
  pub countdown : ℕ
  pub irq_handlers : ℕ → Option Handler
  pub keyboard : Keyboard
  pub idt : ℕ → IdtEntry
  pub ports : Trace
  pub printed : List Message

pub data Outcome : Type 0 where
  returned : Interrupts → Outcome
  halted : Interrupts → Outcome

unfoldable pub print : Message → Interrupts → Interrupts
print m s = record s { printed = m ∷ s.printed }

unfoldable pub irq_install_handler : (irq : ℕ) → Handler → Interrupts → Interrupts
irq_install_handler irq handler s = record s {
  irq_handlers = λ i. if i == irq then some handler else s.irq_handlers i;
}

unfoldable pub decipher_error_code_nonpagefault : (error_code : ℕ) → Interrupts → Interrupts
unfolding print
decipher_error_code_nonpagefault error_code s =
    let s1 = print reasons s in
    let s2 = if error_code % 2 == 0 then s1 else print external_hardware s1 in
    let s3 = print (selector_table (bit_and (error_code / 2) 3)) s2 in
    print (selector_index (bit_and error_code 0x0000FFFF / 2 ^ 3)) s3

-- The chain of tests from bit i on: the first bit that is set is reported.
unfoldable pub first_cause : (left i error_code : ℕ) → Interrupts → Interrupts
unfolding print
first_cause zero i error_code s = s
first_cause (suc left) i error_code s =
    let rest = first_cause left (i + 1) error_code s in
    if bit_and error_code (2 ^ i) == 0 then rest else print (page_fault_cause i) s

unfoldable pub decipher_page_fault_error_code : (error_code : ℕ) → Interrupts → Interrupts
unfolding print first_cause
decipher_page_fault_error_code error_code s = first_cause 8 0 error_code (print reasons s)

-- The branch of the exceptions, up to the halt; `cr2` is the register that it reads.
unfoldable pub report_fault : (cr2 : ℕ) → Registers → Interrupts → Interrupts
unfolding print decipher_error_code_nonpagefault decipher_page_fault_error_code
report_fault cr2 r s =
    let s1 = print (kernel_fault r.irq r.rsp) s in
    let s2 =
      if r.irq == 0xe
      then decipher_page_fault_error_code r.error_code s1
      else decipher_error_code_nonpagefault r.error_code s1 in
    let s3 = print (exception_name r.irq) s2 in
    let s4 = if r.irq == 0xe then print (page_fault_at cr2 r.rip) s3 else s3 in print halting s4

unfoldable pub run_kbd_irq_handler : (scan_code : ℕ) → Interrupts → Interrupts
unfolding add_character_pressed to_character add_most_recent_char
run_kbd_irq_handler scan_code s =
    let (c, k) = to_character scan_code (add_character_pressed s.keyboard) in
    record s { keyboard = add_most_recent_char c k }

unfoldable pub run_timer_handler : Interrupts → Interrupts
run_timer_handler s = record s {
  countdown = if ltb 0 s.countdown then s.countdown - 1 else s.countdown;
  timer_ticks = u64 (s.timer_ticks + 1);
}

unfoldable pub acknowledge : (interrupt : ℕ) → Interrupts → Interrupts
unfolding pic_acknowledge
acknowledge interrupt s = record s { ports = pic_acknowledge interrupt s.ports }

-- `PIC_acknowledge` behind a handler that has returned.
unfoldable pub then_acknowledge : (interrupt : ℕ) → Option Outcome → Option Outcome
unfolding acknowledge
then_acknowledge interrupt none = none
then_acknowledge interrupt (some (returned s)) = some (returned (acknowledge interrupt s))
then_acknowledge interrupt (some (halted s)) = some (halted s)

-- One call of a handler, where `again` is a call of the common handler.
unfoldable pub call_handler :
    (scan_code : ℕ) (again : Option Outcome) → Option Handler → Interrupts → Option Outcome
unfolding run_timer_handler run_kbd_irq_handler
call_handler scan_code again none s = some (returned s)
call_handler scan_code again (some timer_handler) s = some (returned (run_timer_handler s))
call_handler scan_code again (some kbd_irq_handler) s =
    some (returned (run_kbd_irq_handler scan_code s))
call_handler scan_code again (some exception_handler) s = again
call_handler scan_code again (some spurious_interrupt) s = some (returned s)

unfoldable pub handle : (fuel scan_code cr2 : ℕ) → Registers → Interrupts → Option Outcome
unfolding acknowledge report_fault call_handler then_acknowledge
handle zero scan_code cr2 r s = none
handle (suc fuel) scan_code cr2 r s =
    let again = handle fuel scan_code cr2 r s in
    if r.irq == 7 + 0x20 || r.irq == 15 + 0x20
    then some (returned (acknowledge 0x20 s))
    else if ltb r.irq 32
    then some (halted (report_fault cr2 r s))
    else if leb 32 r.irq && ltb r.irq (32 + 16)
    then then_acknowledge (u8 r.irq) (call_handler scan_code again (s.irq_handlers (r.irq - 32)) s)
    else some (returned s)

unfoldable pub fill_irq_table : Interrupts → Interrupts
unfolding irq_install_handler
fill_irq_table s =
    let exception = exception_handler in
    let s1 = irq_install_handler 1 kbd_irq_handler (irq_install_handler 0 timer_handler s) in
    let s3 = irq_install_handler 3 exception (irq_install_handler 2 exception s1) in
    let s5 = irq_install_handler 5 exception (irq_install_handler 4 exception s3) in
    let s7 = irq_install_handler 7 spurious_interrupt (irq_install_handler 6 exception s5) in
    let s9 = irq_install_handler 9 exception (irq_install_handler 8 exception s7) in
    let s11 = irq_install_handler 11 exception (irq_install_handler 10 exception s9) in
    let s13 = irq_install_handler 13 exception (irq_install_handler 12 exception s11) in
    irq_install_handler 15 exception (irq_install_handler 14 exception s13)

-- IDT_FLAG_GATE_INT and GDT_CS64_OFFSET.
unfoldable pub descriptor : (isr : ℕ) → IdtEntry
descriptor isr = record {
  isr_low = u16 (bit_and isr 0xFFFF);
  kernel_cs = 0x8;
  ist = 0;
  zero_bits = 0;
  type_bits = 0xe;
  dpl = 0;
  p = 1;
  isr_mid = u16 (bit_and (isr / 2 ^ 16) 0xFFFF);
  isr_high = u32 (isr / 2 ^ 32);
  reserved = 0;
}

unfoldable pub idt_set_descriptor : (vector isr : ℕ) → Interrupts → Interrupts
unfolding descriptor
idt_set_descriptor vector isr s = record s {
  idt = λ v. if v == u8 vector then descriptor isr else s.idt v;
}

abbrev pub empty_entry : IdtEntry
empty_entry = record {
  isr_low = 0;
  kernel_cs = 0;
  ist = 0;
  zero_bits = 0;
  type_bits = 0;
  dpl = 0;
  p = 0;
  isr_mid = 0;
  isr_high = 0;
  reserved = 0;
}

-- `memset` of all bytes of the table but the last, which belongs to a reserved field.
unfoldable pub clear_idt : Interrupts → Interrupts
clear_idt s = record s {
  idt = λ v.
      if ltb v 255
      then empty_entry
      else if v == 255
      then record empty_entry { reserved = (s.idt v).reserved / 2 ^ 24 * 2 ^ 24 }
      else s.idt v;
}

-- `for (uint8_t vector = ...; ...; vector++)` with the iterations to go, over a table of stubs
-- that starts at vector `offset`.
unfoldable pub install_stubs :
    (stub_table : ℕ → ℕ) (offset : ℕ) (left vector : ℕ) → Interrupts → Interrupts
unfolding idt_set_descriptor
install_stubs stub_table offset zero vector s = s
install_stubs stub_table offset (suc left) vector s =
    install_stubs stub_table offset left (vector + 1)
      (idt_set_descriptor vector (stub_table (vector - offset)) s)

-- The stub tables are assembly code, and `inb` is a device; the size checks hold of the packed
-- structures.
unfoldable pub idt_init :
    (isr_stub_table irq_stub_table : ℕ → ℕ) → (inb : Trace → ℕ → ℕ) → Interrupts → Interrupts
idt_init isr_stub_table irq_stub_table inb s =
    let s1 = install_stubs isr_stub_table 0 32 0 (clear_idt s) in
    let s2 = fill_irq_table (install_stubs irq_stub_table 32 15 32 s1) in
    record s2 { ports = pic_enable inb s2.ports }
