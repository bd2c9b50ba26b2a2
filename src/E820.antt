-- ===== src/E820.antt =====
-- root/orbit-kernel/util/e820.c and root/orbit-kernel/e820.h: the BIOS's memory map in the log. The
-- count and the entries that the boot loader leaves in low memory are arguments, and so are the
-- times of the log's lines, by their number. `pmem_map`, which is written in D, is given the map
-- last: the outcome holds what it is called with.
pub mod Listing
use relics.Prelude.{
  codes, ℕ, zero, suc, ◌+◌, ◌-◌, ◌^◌, u64, ◌==◌, ltb, if◌then◌else◌, Option, none, some, List, [],
  ◌∷◌,
}
use mathlib.Core.Option
use relics.Kio.Format.{Argument, word, string}
use relics.Kio.Log.{Pointer, log_printk}
use relics.Panic.{generic_issue, panic2}

-- `struct e820_map_64`.
pub record E820Map64 : Type 0 where
  pub baseaddr : ℕ
  pub length : ℕ
  pub entry_type : ℕ

abbrev pub e820_max_entries : ℕ
e820_max_entries = 100

-- The types are those of `enum e820_type`.
abbrev pub e820_type_human_name : (type : ℕ) → List ℕ
e820_type_human_name type =
    if type == 1
    then (codes "usable")
    else if type == 2
    then (codes "reserved")
    else if type == 3
    then (codes "ACPI data")
    else if type == 4
    then (codes "NVS")
    else if type == 5
    then (codes "unusable")
    else if type == 7
    then (codes "pmem")
    else (codes "unknown type")

-- One turn of the loop; the address of the last byte wraps in 64 bits.
unfoldable pub log_entry : (time : Pointer) → E820Map64 → List ℕ → Option (List ℕ)
log_entry time e printed = log_printk (some time) printed (codes "%0lx-%0lx %s\n") (
    word e.baseaddr
    ∷ word (u64 (e.baseaddr + e.length + 2 ^ 64 - 1))
    ∷ string (e820_type_human_name e.entry_type)
    ∷ [])

-- The loop with the iterations to go; `line` counts the lines of the log.
unfoldable pub iterate_over_map :
    (clock : ℕ → Pointer) (left i line : ℕ) (e820_map : ℕ → E820Map64) → List ℕ → Option (List ℕ)
iterate_over_map clock zero i line e820_map printed = some printed
iterate_over_map clock (suc left) i line e820_map printed =
    elim (log_entry (clock line) (e820_map i) printed) [
      | none ↦ none
      | some out ↦ iterate_over_map clock left (i + 1) (line + 1) e820_map out
    ]

-- A panic, or the map that `pmem_map` is given, with what is printed.
pub data MapOutcome : Type 0 where
  panicked : (printed : List ℕ) → MapOutcome
  mapped : (e820_count : ℕ) (e820_map : ℕ → E820Map64) (printed : List ℕ) → MapOutcome

-- The two lines in front of the entries.
unfoldable pub log_count : (clock : ℕ → Pointer) (count : ℕ) → List ℕ → Option (List ℕ)
log_count clock count printed =
    elim (log_printk (some (clock 0)) printed (codes "E820 Memory Map:\n") []) [
      | none ↦ none
      | some out ↦ log_printk (some (clock 1)) out (codes "entry count: %d\n") (word count ∷ [])
    ]

unfoldable pub get_mem_map :
    (clock : ℕ → Pointer) (count : ℕ) (e820_map : ℕ → E820Map64) → List ℕ → Option MapOutcome
get_mem_map clock count e820_map printed =
    if ltb e820_max_entries count
    then Option.map panicked (panic2 generic_issue (codes "Too many E820 entries!") printed)
    else elim (log_count clock count printed) [
      | none ↦ none
      | some out ↦
          Option.map (λ t. mapped count e820_map t) (iterate_over_map clock count 0 2 e820_map out)
    ]
