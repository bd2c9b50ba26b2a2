-- ===== src/Malloc/State.antt =====
-- The heap invariant: the free list is a ring in memory; free and allocated blocks are aligned, in
-- range, pairwise disjoint and apart from the list head; the headers of allocated blocks hold
-- their sizes.
use relics.Prelude.{
  ℕ, ◌+◌, ◌%◌, ◌^◌, ◌≤◌, ◌<◌, ◌≡◌, ◌≢◌, ◌⊎◌, ◌∙◌, List, [], ◌∷◌, ◌++◌, Memory, All, All-map,
  All-append, All-left, All-right, arith,
}
use relics.LinkedList.{Block, Ring, Off, Apart, Tidy}
use relics.LinkedList.Frame.{Off-next, Apart-symm}
use relics.Malloc.Spec.{Disjoint, Outside, end}

-- A block that fits the machine and does not touch the 16 bytes of the list head.
abbrev pub Fits : ℕ → Block → Type 0
Fits head b =
    (b.addr % 8 ≡ 0) × (0 < b.addr) × (end b ≤ 2 ^ 64) × ((end b ≤ head) ⊎ (head + 16 ≤ b.addr))

abbrev pub Recorded : Memory → Block → Type 0
Recorded m b = m (b.addr + 16) ≡ b.size

pub record IsHeap (head : ℕ) (free used : List Block) (m : Memory) : Type 0 where
  pub ring : Ring m head free
  pub fits : All (Fits head) free
  pub apart : Disjoint free
  pub fits_used : All (Fits head) used
  pub apart_used : Disjoint used
  pub cross : All (λ b. All (Apart b) used) free
  pub recorded : All (Recorded m) used

-- A memory that differs at most inside the blocks and at the list head.
abbrev pub SameOutside : ℕ → List Block → Memory → Memory → Type 0
SameOutside head bs m m' = (x : ℕ) → x ≢ head → x ≢ head + 8 → All (Outside x) bs → m' x ≡ m x

-- Pairwise disjointness does not depend on the order: a block can be taken out and put anywhere.
pub Disjoint-remove :
    (xs : List Block) (b : Block) (ys : List Block)
    → Disjoint (xs ++ b ∷ ys)
    → All (Apart b) (xs ++ ys) × Disjoint (xs ++ ys)
Disjoint-remove [] b ys d = d
Disjoint-remove (x ∷ xs) b ys d =
    let rest = Disjoint-remove xs b ys d.1 in
    let right = All-right (Apart x) xs (b ∷ ys) d.0 in
    (
      (Apart-symm x b right.0, rest.0),
      (All-append (Apart x) xs ys (All-left (Apart x) xs (b ∷ ys) d.0) right.1, rest.1),
    )

pub All-insert {κ} :
    (P : Block → Type κ) (xs : List Block) (b : Block) (ys : List Block)
    → P b
    → All P (xs ++ ys)
    → All P (xs ++ b ∷ ys)
All-insert P [] b ys h k = (h, k)
All-insert P (x ∷ xs) b ys h k = (k.0, All-insert P xs b ys h k.1)

pub All-remove {κ} :
    (P : Block → Type κ) (xs : List Block) (b : Block) (ys : List Block)
    → All P (xs ++ b ∷ ys)
    → P b × All P (xs ++ ys)
All-remove P [] b ys h = h
All-remove P (x ∷ xs) b ys h = let rest = All-remove P xs b ys h.1 in (rest.0, (h.0, rest.1))

pub Disjoint-insert :
    (xs : List Block) (b : Block) (ys : List Block)
    → All (Apart b) (xs ++ ys)
    → Disjoint (xs ++ ys)
    → Disjoint (xs ++ b ∷ ys)
Disjoint-insert [] b ys a d = (a, d)
Disjoint-insert (x ∷ xs) b ys a d =
    (All-insert (Apart x) xs b ys (Apart-symm b x a.0) d.0, Disjoint-insert xs b ys a.1 d.1)

-- Blocks that fit and are disjoint form a tidy chain from the list head.
pub Off-head : (head : ℕ) (b : Block) → Fits head b → Off head b
Off-head head b f = omega arith

pub Off-head-prev : (head : ℕ) (b : Block) → Fits head b → Off (head + 8) b
Off-head-prev head b f = omega arith

Tidy-from :
    (e p : ℕ) (bs : List Block)
    → p ≢ e
    → All (Off p) bs
    → All (Off e) bs
    → Disjoint bs
    → Tidy e p bs
Tidy-from e p [] ne op oe d = ne
Tidy-from e p (b ∷ bs) ne op oe d = (
  ne,
  op.0,
  oe.0,
  op.1,
  d.0,
  Tidy-from e b.addr bs (omega (arith, oe.0.0)) (All-map bs (Off-next b) d.0) oe.1 d.1,
)

pub Tidy-ring :
    (head : ℕ) (bs : List Block) → All (Fits head) bs → Disjoint bs → Tidy (head + 8) head bs
Tidy-ring head bs f d =
    Tidy-from (head + 8) head bs (omega arith) (All-map bs (Off-head head) f)
      (All-map bs (Off-head-prev head) f) d

-- An address outside a block is none of its header words.
pub Off-of_Outside : (x : ℕ) (b : Block) → Outside x b → Off x b
Off-of_Outside x b h = omega arith

-- An address inside a block lies outside every block that is apart from it.
pub Outside-of_Apart : (x : ℕ) (b c : Block) → Apart b c → c.addr ≤ x → x < end c → Outside x b
Outside-of_Apart x b c a lo hi = omega arith

-- All blocks of one list against one block of the other.
pub cross-column :
    (u : Block) (us bs : List Block)
    → All (λ b. All (Apart b) (u ∷ us)) bs
    → All (λ b. Apart b u) bs × All (λ b. All (Apart b) us) bs
cross-column u us [] c = (tt, tt)
cross-column u us (b ∷ bs) c =
    let rest = cross-column u us bs c.1 in ((c.0.0, rest.0), (c.0.1, rest.1))

pub cross-cons :
    (u : Block) (us bs : List Block)
    → All (λ b. Apart b u) bs
    → All (λ b. All (Apart b) us) bs
    → All (λ b. All (Apart b) (u ∷ us)) bs
cross-cons u us [] a c = tt
cross-cons u us (b ∷ bs) a c = ((a.0, c.0), cross-cons u us bs a.1 c.1)

-- A memory that is the same outside the free blocks still records the sizes of the others.
pub Recorded-frame :
    (head : ℕ) (bs us : List Block) (m m' : Memory)
    → All (Fits head) us
    → All (λ b. All (Apart b) us) bs
    → SameOutside head bs m m'
    → All (Recorded m) us
    → All (Recorded m') us
Recorded-frame head bs [] m m' f c same r = tt
Recorded-frame head bs (u ∷ us) m m' f c same r =
    let split = cross-column u us bs c in
    (
      same (u.addr + 16) (omega (arith, f.0)) (omega (arith, f.0)) (
            All-map bs (λ b a. Outside-of_Apart (u.addr + 16) b u a (omega arith) (omega arith))
              split.0)
          ∙ r.0,
      Recorded-frame head bs us m m' f.1 split.1 same r.1,
    )
