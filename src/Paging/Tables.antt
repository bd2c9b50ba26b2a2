-- ===== src/Paging/Tables.antt =====
-- About `paging_init` of root/orbit-kernel/util/paging.c.
use Prim.Native.Nat.{bit_and}
use relics.Prelude.{
  codes, ℕ, zero, suc, ◌+◌, ◌*◌, ◌/◌, ◌%◌, ◌^◌, ◌<◌, ◌≤◌, ◌≡◌, ◌∙◌, ap, sym, refl, arith, tests,
  true, false, Bool-cases, inl, inr, if-true, if-false, ◌==◌, eq→eqb, ne→eqb, eqb→eq, eqb→ne, ◌⊎◌,
  all_below, all_below_sound, Option, none, some, List, [], ◌∷◌, ◌++◌, Memory, write,
}
use mathlib.Core.Option
use relics.Kio.Format.Pieces.{Piece, plain}
use relics.Kio.Log.{Pointer, log_printk}
use relics.Panic.{cpu_issue, panic2}
use relics.Panic.Report.{report, panic2-reports}
use relics.Paging.{
  Paging, Checked, lacking, met, check_requirements, fill_entries, directory_entry, pdp_entry,
  pml4_entry, start_paging, PagingOutcome, panicked, initialized, paging_init,
}

fill_entries-outside :
    (entry : ℕ → ℕ) (left i b : ℕ) (table : Memory)
    → b < i
    → fill_entries entry left i table b ≡ table b
unfolding fill_entries
fill_entries-outside entry zero i b table h = refl
fill_entries-outside entry (suc left) i b table h =
    fill_entries-outside entry left (i + 1) b (write table i (entry i)) (omega arith)
    ∙ if-false _ _ (ne→eqb b i (omega arith))

fill_entries-inside :
    (entry : ℕ → ℕ) (left i b : ℕ) (table : Memory)
    → i ≤ b
    → b < i + left
    → fill_entries entry left i table b ≡ entry b
unfolding fill_entries
fill_entries-inside entry zero i b table lo hi = absurd (omega arith)
fill_entries-inside entry (suc left) i b table lo hi = elim (Bool-cases (b == i)) [
  | inl here ↦
      fill_entries-outside entry left (i + 1) b (write table i (entry i)) (omega (tests, here))
      ∙ if-true _ _ here
      ∙ ap entry (sym (eqb→eq b i here))
  | inr later ↦
      fill_entries-inside entry left (i + 1) b (write table i (entry i)) (omega (tests, later))
        (omega arith)
]

-- The entries as sums: the tables of the second and the fourth level.
pdp_table : all_below 512 (λ i. pdp_entry i == i * 2 ^ 30 + 2 ^ 20 + 3) ≡ true
unfolding all_below
pdp_table = refl

pml4_table : all_below 512 (λ i. pml4_entry i == (i / 2 % 128 * 2 + 257) * 2 ^ 12 + 3) ≡ true
unfolding all_below
pml4_table = refl

-- The tables hold their entries, the fourth level is loaded, and then paging is enabled.
pub record Started (s : Paging) : Type 0 where
  pub directory : (i : ℕ) → i < 512 → s.page_directory i ≡ 2 ^ 12 + 3
  pub pointers : (i : ℕ) → i < 512 → s.page_directory_ptr i ≡ i * 2 ^ 30 + 2 ^ 20 + 3
  pub fourth : (i : ℕ) → i < 512 → s.pml4 i ≡ (i / 2 % 128 * 2 + 257) * 2 ^ 12 + 3
  pub root : s.loaded ≡ some s.pml4
  pub on : s.enabled ≡ true

pub start_paging-Started : (s : Paging) → Started (start_paging s)
unfolding start_paging
start_paging-Started s = record {
  directory = λ i h. fill_entries-inside directory_entry 512 0 i s.page_directory (omega arith) h;
  pointers = λ i h.
      fill_entries-inside pdp_entry 512 0 i s.page_directory_ptr (omega arith) h
      ∙ eqb→eq (pdp_entry i) (i * 2 ^ 30 + 2 ^ 20 + 3)
          (all_below_sound (λ i. pdp_entry i == i * 2 ^ 30 + 2 ^ 20 + 3) i 512 h pdp_table);
  fourth = λ i h.
      fill_entries-inside pml4_entry 512 0 i s.pml4 (omega arith) h
      ∙ eqb→eq (pml4_entry i) ((i / 2 % 128 * 2 + 257) * 2 ^ 12 + 3) (
          all_below_sound (λ i. pml4_entry i == (i / 2 % 128 * 2 + 257) * 2 ^ 12 + 3) i 512 h
            pml4_table);
  root = refl;
  on = refl;
}

pse36 : List Piece
pse36 = plain (codes "CPU supports 36 bits of PSE\n") ∷ []

ready : List Piece
ready = plain (codes "Paging initialized!\n") ∷ []

-- Without PAT or without PSE the kernel panics with the processor's code and a message, and paging
-- does not start.
pub paging_init-panics :
    (before after : Pointer) (d : ℕ) (s : Paging) (printed : List ℕ)
    → (bit_and d (2 ^ 16) ≡ 0) ⊎ (bit_and d (2 ^ 3) ≡ 0)
    → (errmsg : List ℕ) × (paging_init before after d s printed
        ≡ some (panicked (printed ++ report cpu_issue errmsg)))
unfolding paging_init check_requirements
paging_init-panics before after d s printed h = elim (Bool-cases (bit_and d (2 ^ 16) == 0)) [
  | inl no_pat ↦ (
    codes "CPU does not support PAT",
    ap go (if-true _ _ no_pat ∙ lacks (codes "CPU does not support PAT")),
  )
  | inr pat ↦ (
    codes "CPU does not support PSE",
    ap go
        (if-false _ _ pat ∙ if-true _ _ (no_pse h pat) ∙ lacks (codes "CPU does not support PSE")),
  )
]
  where
    go : Option Checked → Option PagingOutcome
    go o = elim o [
      | none ↦ none
      | some checked ↦ elim checked [
        | lacking out ↦ some (panicked out)
        | met out ↦
            Option.map (initialized (start_paging s))
              (log_printk (some after) out (codes "Paging initialized!\n") [])
      ]
    ]

    lacks :
        (errmsg : List ℕ)
        → Option.map lacking (panic2 cpu_issue errmsg printed)
          ≡ some (lacking (printed ++ report cpu_issue errmsg))
    lacks errmsg = ap (Option.map lacking) (panic2-reports cpu_issue errmsg printed)

    no_pse :
        (bit_and d (2 ^ 16) ≡ 0) ⊎ (bit_and d (2 ^ 3) ≡ 0)
        → (bit_and d (2 ^ 16) == 0) ≡ false
        → (bit_and d (2 ^ 3) == 0) ≡ true
    no_pse (inl e) pat = absurd (eqb→ne (bit_and d (2 ^ 16)) 0 pat e)
    no_pse (inr e) pat = eq→eqb (bit_and d (2 ^ 3)) 0 e
