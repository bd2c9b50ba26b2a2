-- ===== src/Kernel.antt =====
-- `init_kernel` of root/orbit-kernel/kernel.c: the order of the initialisations, up to the call of
-- the shell. What the hardware, the boot loader and the assembly code give is a record; the
-- components' states are those of their own modules. `sti` changes none of them.
pub mod Boot
use relics.Prelude.{codes, ℕ, Bool, Option, none, some, List, [], ◌∷◌, Memory}
use relics.Ports.{Trace}
use relics.Kio.Console.{Console, init_vga, reset_video_memory, print_string}
use relics.Kio.Format.{string}
use relics.Kio.Log.{Pointer, printk}
use relics.Gdt.{gdt_init}
use relics.Interrupts.{Interrupts, idt_init}
use relics.Pit.{Pit, Wake, reprogram_timer, millisleep}
use relics.Paging.{Paging, PagingOutcome, paging_init}
use relics.E820.{E820Map64, MapOutcome, get_mem_map}

-- The stub tables, port reads, the interrupts that arrive, the register edx of `cpuid`, the times of
-- the log, and the memory map.
pub record Machine : Type 0 where
  pub isr_stub_table : ℕ → ℕ
  pub irq_stub_table : ℕ → ℕ
  pub inb : Trace → ℕ → ℕ
  pub wakes : List Wake
  pub edx : ℕ
  pub paging_times : Pointer × Pointer
  pub map_times : ℕ → Pointer
  pub e820_count : ℕ
  pub e820_map : ℕ → E820Map64

pub record Kernel : Type 0 where
  pub console : Console
  pub gdt : Memory
  pub interrupts : Interrupts
  pub pit : Pit
  pub paging : Paging

-- WHITE and BLACK of `enum vga_color`.
abbrev pub white : ℕ
white = 15

abbrev pub black : ℕ
black = 0

-- A panic, or the call of the shell with the interrupts that are left and the map that the
-- allocator of pages was given.
pub data BootOutcome : Type 0 where
  panicked : Kernel → BootOutcome
  shell : Kernel → List Wake → (count : ℕ) (e820_map : ℕ → E820Map64) → BootOutcome

-- Text on the screen.
unfoldable pub show : List ℕ → Kernel → Kernel
show text k = record k { console = print_string text k.console }

-- `printk` onto the screen.
unfoldable pub say : (format : List ℕ) → Kernel → Option Kernel
say format k = elim (printk [] format []) [ none ↦ none | some text ↦ some (show text k) ]

-- The lines in front of the initialisations.
unfoldable pub greet : (version : List ℕ) → Kernel → Option Kernel
greet version k = elim (printk [] (codes "--[Relics version %s]--\n") (string version ∷ [])) [
  | none ↦ none
  | some text ↦ say (codes "Raw Exokernel-LibraryOS Integrated Computing System\n") (show text k)
]

-- The screen, the segment descriptors and the interrupt descriptors.
unfoldable pub init_tables : Machine → Kernel → Kernel
init_tables machine k = record k {
  console = reset_video_memory (init_vga white black k.console);
  gdt = gdt_init k.gdt;
  interrupts = idt_init machine.isr_stub_table machine.irq_stub_table machine.inb k.interrupts;
}

-- The timer, and a second of sleep.
unfoldable pub start_timer : Machine → Kernel → Option (Kernel × List Wake)
start_timer machine k = elim (reprogram_timer 1000 k.pit) [
  | none ↦ none
  | some pit ↦ elim (say (codes "Sleeping for one second!\n") (record k { pit = pit })) [
    | none ↦ none
    | some k' ↦ elim (millisleep 1000 machine.wakes k'.interrupts) [
      | none ↦ none
      | some (interrupts, wakes) ↦ some (record k' { interrupts = interrupts }, wakes)
    ]
  ]
]

-- The memory map, and the shell.
unfoldable pub start_shell : Machine → List Wake → Kernel → Option BootOutcome
start_shell machine wakes k =
    elim (get_mem_map machine.map_times machine.e820_count machine.e820_map []) [
      | none ↦ none
      | some outcome ↦ elim outcome [
        | relics.E820.panicked text ↦ some (panicked (show text k))
        | relics.E820.mapped count e820_map text ↦ some (shell (show text k) wakes count e820_map)
      ]
    ]

-- Paging, and what follows it.
unfoldable pub start_memory : Machine → List Wake → Kernel → Option BootOutcome
start_memory machine wakes k =
    elim (paging_init machine.paging_times.0 machine.paging_times.1 machine.edx k.paging []) [
      | none ↦ none
      | some outcome ↦ elim outcome [
        | relics.Paging.panicked text ↦ some (panicked (show text k))
        | relics.Paging.initialized paging text ↦
            start_shell machine wakes (show text (record k { paging = paging }))
      ]
    ]

unfoldable pub init_kernel : (version : List ℕ) → Machine → Kernel → Option BootOutcome
init_kernel version machine k = elim (greet version k) [
  | none ↦ none
  | some k1 ↦ elim (start_timer machine (init_tables machine k1)) [
    | none ↦ none
    | some (k2, wakes) ↦ start_memory machine wakes k2
  ]
]
