-- ===== src/Lib.antt =====
-- Relics: the Orbit kernel and its helpers, checked against its C sources.
--
-- The kernel (root/orbit-kernel) boots, loads its segment and interrupt tables, programs the
-- interrupt controllers and the timer, lists the memory that the BIOS reports (D code gives it to
-- the heap), and prints to the text screen; interrupts feed the keyboard's mailbox and the tick
-- counter. At the end of the boot the shell of the library OS reads lines from the keyboard.
--
-- Files and sources:
--   LinkedList           root/orbit-kernel/linked_list.h
--   Malloc               root/orbit-kernel/util/malloc_freelist.c
--   String               root/orbit-kernel/util/string.c
--   Math                 root/orbit-kernel/util/math.c
--   Kio.Digits           root/orbit-kernel/util/kio.c, numbers as text
--   Kio.Console          root/orbit-kernel/util/kio.c, the text screen
--   Kio.Format           root/orbit-kernel/util/kio.c, actual_print
--   Kio.Log              root/orbit-kernel/util/kio.c, printk and log_printk, and util/irq.c
--   Keyboard             root/orbit-kernel/util/ps2_keyboard.c, get_ascii_char.c
--   Keyboard.Polled      root/orbit-kernel/util/keyboard.c, with the key codes of keyboard.h (Keys)
--   Input                root/orbit-kernel/util/kio.c, getchark with the interrupts
--   Ports, Pic           root/orbit-kernel/util/pic.c with pic.h
--   Gdt                  root/orbit-kernel/util/gdt.c
--   Interrupts           root/orbit-kernel/util/idt.c with idt.h
--   Pit                  root/orbit-kernel/util/pit.c
--   Cpu                  root/orbit-kernel/util/cpu.c with cpu.h
--   Panic                root/orbit-kernel/util/panic.c
--   Paging               root/orbit-kernel/util/paging.c
--   E820                 root/orbit-kernel/util/e820.c with e820.h
--   Vga                  root/orbit-kernel/util/vga.c
--   Kernel               root/orbit-kernel/kernel.c
--   Shell                root/libraryOSes/relics-libOS/apps/shell.c
--   Prelude              shared numbers, lists, bits and memory
--   Malloc.Tests, Tests  the theorems on concrete inputs
--
-- State and operations. A C function is the definition of its name, or of its name in lower case; a
-- static variable is a field of the component's record, or the memory. A memory is a function from
-- addresses to words (Malloc, LinkedList), bytes (String) or screen cells (Kio.Console). Integers
-- are natural numbers that are reduced by the width of their type where the source can wrap. A loop
-- over a count recurs on the iterations to go; a loop that waits for a condition runs on fuel, and
-- `none` means that the fuel ran out (in Shell.Session also that the machine has halted). Port
-- writes are a trace with the latest in front; port reads, the assembly stubs and the results of
-- `cpuid` are arguments.
--
-- The interfaces: the heap invariant Malloc.State.IsHeap is what the allocator's operations keep,
-- Malloc.History has the histories of calls, Malloc.Booted those behind `kmalloc_init`, and
-- Malloc.Client states what a client sees; Malloc.Spec is the list-level specification.
-- Interrupts calls Pic for the acknowledgement and Keyboard for the scan code; Pit runs the common
-- handler of Interrupts for each interrupt that ends a `hlt`, and Input for each that comes between
-- two reads of the keyboard; Interrupts.Steps has the interrupts and the calls of the main program
-- as steps, and Interrupts.Runs their sequences. Kio.Format prints through Kio.Digits, and
-- Kio.Format.Pieces describes formats independently of it; Panic, E820, Paging, Cpu and Shell print
-- through Kio.Log. Shell selects a command with the `strncmp` of String; Shell.Session is the same
-- loop with the text that it shows, and its `fetchme` runs the whole of Cpu. Kernel calls
-- the initialisations of the others in their order.
--
-- Fuel: the walks of the allocator need more than the length of the free list; a number of 64 bits
-- has at most 64 digits, so 65 rounds, and 20 in base 10, where 64 rounds are given; `strlen` needs
-- one round more than the characters; powers need more rounds than the exponent; one round of the
-- common handler answers every interrupt whose handler is not the common handler itself.
--
-- Not modelled: assembly and D code (what it returns is an argument, what it is called with is
-- part of the outcome), root/orbit-kernel/util/memory.c and util/apploader.c, which are excluded by
-- the preprocessor, util/println_c.c, whose only call is commented out, the formats of floating
-- point numbers, which are not compiled, and the C runtime of the library OS, taken from musl.
pub mod Prelude
pub mod LinkedList
pub mod Malloc
pub mod String
pub mod Math
pub mod Kio
pub mod Keyboard
pub mod Ports
pub mod Pic
pub mod Gdt
pub mod Interrupts
pub mod Pit
pub mod Cpu
pub mod Shell
pub mod Tests
pub mod Panic
pub mod E820
pub mod Paging
pub mod Vga
pub mod Input
pub mod Kernel
