-- ===== src/Tests/Boot.antt =====
-- Concrete inputs for the start of the kernel: panics, the memory map, the page tables and the
-- pixel screen.
use relics.Prelude.{
  codes, ℕ, replicate, ◌∷◌, ◌++◌, ◌+◌, ◌*◌, ◌≡◌, inr, refl, none, some, false, List, [], ◌++◌,
  Memory, u8, if◌then◌else◌,
}
use relics.Kio.Format.{signed}
use relics.Kio.Log.{Pointer, literal}
use relics.Panic.{cpu_issue, generic_issue}
use relics.Panic.Report.{report}
use relics.E820.{E820Map64, panicked}
use relics.Paging.{Paging, paging_init}
use relics.Paging.Tables.{paging_init-panics}
use relics.Interrupts.{Registers, Interrupts, empty_entry}
use relics.Pit.{Wake}
use relics.Kernel.{Machine, Kernel, white, black}
use relics.Vga.{clear_pixel_vga_buffer}
use relics.Vga.Pixels.{on_screen, clear_pixel_vga_buffer-fills}

report_text : report generic_issue (codes "?") ≡ codes "?\nError code: -1 (generic)\n"
unfolding signed
report_text = refl

abbrev at_zero : ℕ → Pointer
at_zero n = literal (codes "0.000")

abbrev low_and_high : ℕ → E820Map64
low_and_high i = record { baseaddr = i * 0x100000; length = 0x9FC00; entry_type = 1 + i }

abbrev zeros : Memory
zeros a = 0

abbrev tables : Paging
tables = record {
  page_directory = zeros;
  page_directory_ptr = zeros;
  pml4 = zeros;
  loaded = none;
  enabled = false;
}

paging_init-panics_example :
    (errmsg : List ℕ) × (paging_init (at_zero 0) (at_zero 1) 0x10000 tables []
      ≡ some (relics.Paging.panicked ([] ++ report cpu_issue errmsg)))
paging_init-panics_example = paging_init-panics (at_zero 0) (at_zero 1) 0x10000 tables [] (inr refl)

clear_pixel_vga_buffer-fills_example :
    clear_pixel_vga_buffer 4 zeros 0xA1000 ≡ (if on_screen 0xA1000 then u8 4 else zeros 0xA1000)
clear_pixel_vga_buffer-fills_example = clear_pixel_vga_buffer-fills 4 0xA1000 zeros

abbrev pushed : Registers
pushed = record {
  r15 = 0;
  r14 = 0;
  r13 = 0;
  r12 = 0;
  r11 = 0;
  r10 = 0;
  r9 = 0;
  r8 = 0;
  rbp = 0;
  rdi = 0;
  rsi = 0;
  rdx = 0;
  rcx = 0;
  rbx = 0;
  rax = 0;
  irq = 32;
  error_code = 0;
  rip = 0;
  cs = 8;
  rflags = 0;
  rsp = 0;
  ss = 0;
}

abbrev second : List Wake
second = replicate 1000 (pushed, 0)

abbrev computer : Machine
computer = record {
  isr_stub_table = λ v. 0x100000 + 16 * v;
  irq_stub_table = λ v. 0x100200 + 16 * v;
  inb = λ t port. 0;
  wakes = second ++ (pushed, 0) ∷ [];
  edx = 0x0781ABFF;
  paging_times = (at_zero 0, at_zero 1);
  map_times = at_zero;
  e820_count = 2;
  e820_map = low_and_high;
}

abbrev at_reset : Interrupts
at_reset = record {
  timer_ticks = 0;
  countdown = 0;
  irq_handlers = λ i. none;
  keyboard = record {
    char_pressed_state = false;
    most_recent_char = 0;
    is_shifted = false;
    is_alted = false;
    is_ctrled = false;
    is_caps_locked = false;
  };
  idt = λ v. empty_entry;
  ports = [];
  printed = [];
}

abbrev loaded : Kernel
loaded = record {
  console = record {
    vga_buffer = zeros;
    vga_index = 0;
    next_line_index = 1;
    g_fore_color = white;
    g_back_color = black;
    ports = [];
  };
  gdt = zeros;
  interrupts = at_reset;
  pit = record { enabled = false; ports = [] };
  paging = tables;
}
