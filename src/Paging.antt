-- ===== src/Paging.antt =====
-- root/orbit-kernel/util/paging.c: the page tables and the start of paging. The register edx of
-- `cpuid` and the times of the log are arguments; `load_page_dir` and `enable_paging` are assembly
-- code: the state holds the table that the first is given, and that the second was called.
pub mod Tables
use Prim.Native.Nat.{bit_and, bit_or}
use relics.Prelude.{
  codes, ℕ, zero, suc, ◌+◌, ◌*◌, ◌^◌, u64, ◌==◌, if◌then◌else◌, Bool, true, Option, none, some,
  List, [], Memory, write,
}
use mathlib.Core.Option
use relics.Kio.Log.{Pointer, log_printk}
use relics.Panic.{cpu_issue, panic2}

abbrev pub page_dir_bit_present : ℕ
page_dir_bit_present = 1

abbrev pub page_dir_bit_rw : ℕ
page_dir_bit_rw = 2 ^ 1

abbrev pub page_dir_bit_supervisor : ℕ
page_dir_bit_supervisor = 0

abbrev pub page_dir_bit_pat : ℕ
page_dir_bit_pat = 2 ^ 12

-- The static tables, and what the assembly functions were called with.
pub record Paging : Type 0 where
  pub page_directory : Memory
  pub page_directory_ptr : Memory
  pub pml4 : Memory
  pub loaded : Option Memory
  pub enabled : Bool

pub data Checked : Type 0 where
  lacking : (printed : List ℕ) → Checked
  met : (printed : List ℕ) → Checked

-- The bits 16, 3 and 17 of edx: PAT, PSE and PSE36.
unfoldable pub check_requirements : (time : Pointer) (d : ℕ) → List ℕ → Option Checked
check_requirements time d printed =
    if bit_and d (2 ^ 16) == 0
    then Option.map lacking (panic2 cpu_issue (codes "CPU does not support PAT") printed)
    else if bit_and d (2 ^ 3) == 0
    then Option.map lacking (panic2 cpu_issue (codes "CPU does not support PSE") printed)
    else if bit_and d (2 ^ 17) == 0
    then some (met printed)
    else Option.map met (log_printk (some time) printed (codes "CPU supports 36 bits of PSE\n") [])

-- `for (i = ...; i < 512; i++) table[i] = ...` with the iterations to go.
unfoldable pub fill_entries : (entry : ℕ → ℕ) (left i : ℕ) → Memory → Memory
fill_entries entry zero i table = table
fill_entries entry (suc left) i table = fill_entries entry left (i + 1) (write table i (entry i))

abbrev pub directory_entry : ℕ → ℕ
directory_entry i =
    bit_or (bit_or (bit_or page_dir_bit_rw page_dir_bit_pat) page_dir_bit_supervisor)
      page_dir_bit_present

unfoldable pub blank_page_dir : Paging → Paging
blank_page_dir s = record s { page_directory = fill_entries directory_entry 512 0 s.page_directory }

abbrev pub pdp_entry : ℕ → ℕ
pdp_entry i =
    bit_or
      (bit_or (bit_or (bit_or (u64 (i * 2 ^ 30)) (2 ^ 20)) page_dir_bit_supervisor) page_dir_bit_rw)
      page_dir_bit_present

unfoldable pub fill_pdp : Paging → Paging
fill_pdp s = record s { page_directory_ptr = fill_entries pdp_entry 512 0 s.page_directory_ptr }

abbrev pub pml4_entry : ℕ → ℕ
pml4_entry i =
    bit_or (bit_or (bit_or (bit_or (u64 (i * 2 ^ 12)) (2 ^ 20)) (2 ^ 12)) page_dir_bit_rw)
      page_dir_bit_present

unfoldable pub fill_pml4 : Paging → Paging
fill_pml4 s = record s { pml4 = fill_entries pml4_entry 512 0 s.pml4 }

unfoldable pub load_page_dir : Memory → Paging → Paging
load_page_dir table s = record s { loaded = some table }

unfoldable pub enable_paging : Paging → Paging
enable_paging s = record s { enabled = true }

-- Behind the requirements: the tables, and the calls of the assembly functions.
unfoldable pub start_paging : Paging → Paging
unfolding blank_page_dir fill_pdp fill_pml4 load_page_dir enable_paging
start_paging s =
    let s3 = fill_pml4 (fill_pdp (blank_page_dir s)) in enable_paging (load_page_dir s3.pml4 s3)

pub data PagingOutcome : Type 0 where
  panicked : (printed : List ℕ) → PagingOutcome
  initialized : Paging → (printed : List ℕ) → PagingOutcome

-- The log's lines come at two times.
unfoldable pub paging_init :
    (before after : Pointer) (d : ℕ) → Paging → List ℕ → Option PagingOutcome
paging_init before after d s printed = elim (check_requirements before d printed) [
  | none ↦ none
  | some checked ↦ elim checked [
    | lacking out ↦ some (panicked out)
    | met out ↦
        Option.map (initialized (start_paging s))
          (log_printk (some after) out (codes "Paging initialized!\n") [])
  ]
]
