-- ===== src/Malloc/Order.antt =====
-- The order of the free list, at the level of the specification of
-- root/orbit-kernel/util/malloc_freelist.c.
use relics.Prelude.{
  ℕ, suc, le→ltb, ◌+◌, ◌≤◌, ◌<◌, ◌≡◌, ◌∙◌, ap, refl, inl, inr, Option, none, some, List, [], ◌∷◌,
  ltb, ltb→lt, ltb→le, lt→ltb, ne→eqb, eqb→eq, eqb→ne, ◌==◌, Bool-cases, All, All-map, length,
  arith,
}
use relics.LinkedList.{Block, Apart}
use relics.Malloc.Spec.{insert, join, end, coalesce_from, coalesce}

-- Ascending and without overlap.
abbrev pub Ordered : List Block → Type 0
Ordered [] = Unit
Ordered (b ∷ bs) = All (λ c. end b ≤ c.addr) bs × Ordered bs

-- Ascending, and no block ends where a later one begins.
abbrev pub Gapped : List Block → Type 0
Gapped [] = Unit
Gapped (b ∷ bs) = All (λ c. end b < c.addr) bs × Gapped bs

-- All blocks lie above the address k.
abbrev pub Above : ℕ → List Block → Type 0
Above k bs = All (λ c. k < c.addr) bs

coalesce_from-Above :
    (k : ℕ) (b : Block) (bs : List Block) → k < b.addr → Above k bs → Above k (coalesce_from b bs)
unfolding coalesce_from
coalesce_from-Above k b [] h a = (h, tt)
coalesce_from-Above k b (c ∷ cs) h a = elim (Bool-cases (end b == c.addr)) [
  | inl meet ↦ rw meet (coalesce_from-Above k (join b c) cs h a.1)
  | inr apart ↦ rw apart (h, coalesce_from-Above k c cs a.0 a.1)
]

coalesce_from-Gapped :
    (b : Block) (bs : List Block)
    → All (λ c. end b ≤ c.addr) bs
    → Ordered bs
    → Gapped (coalesce_from b bs)
unfolding coalesce_from
coalesce_from-Gapped b [] a o = (tt, tt)
coalesce_from-Gapped b (c ∷ cs) a o = elim (Bool-cases (end b == c.addr)) [
  | inl meet ↦
      let e = eqb→eq (end b) c.addr meet in
      rw meet (coalesce_from-Gapped (join b c) cs (All-map cs (λ z h. omega arith) o.0) o.1)
  | inr apart ↦
      let ne = eqb→ne (end b) c.addr apart in
      rw apart (
        coalesce_from-Above (end b) c cs (omega (arith, a.0))
            (All-map cs (λ z h. omega (arith, a.0)) o.0),
        coalesce_from-Gapped c cs o.0 o.1,
      )
]

-- Joining an ordered free list leaves no two blocks that touch.
pub coalesce-Gapped : (bs : List Block) → Ordered bs → Gapped (coalesce bs)
unfolding coalesce
coalesce-Gapped [] o = tt
coalesce-Gapped (b ∷ bs) o = coalesce_from-Gapped b bs o.0 o.1

-- The bytes that the free blocks occupy, headers included.
abbrev pub total : List Block → ℕ
total [] = 0
total (b ∷ bs) = 24 + b.size + total bs

total-coalesce_from : (b : Block) (bs : List Block) → total (coalesce_from b bs) ≡ total (b ∷ bs)
unfolding coalesce_from
total-coalesce_from b [] = refl
total-coalesce_from b (c ∷ cs) = elim (Bool-cases (end b == c.addr)) [
  | inl meet ↦ rw meet (omega (arith, total-coalesce_from (join b c) cs))
  | inr apart ↦ rw apart (omega (arith, total-coalesce_from c cs))
]

-- Joining neither loses nor invents a byte.
pub total-coalesce : (bs : List Block) → total (coalesce bs) ≡ total bs
unfolding coalesce
total-coalesce [] = refl
total-coalesce (b ∷ bs) = total-coalesce_from b bs

insert-above :
    (k : ℕ) (b : Block) (bs : List Block)
    → k ≤ b.addr
    → All (λ c. k ≤ c.addr) bs
    → All (λ c. k ≤ c.addr) (insert b bs)
unfolding insert
insert-above k b [] h a = (h, tt)
insert-above k b (c ∷ cs) h a = elim (Bool-cases (ltb b.addr c.addr)) [
  | inl before ↦ rw before (h, a)
  | inr after ↦ rw after (a.0, insert-above k b cs h a.1)
]

-- Insertion of a block that overlaps none keeps the order.
pub insert-Ordered :
    (b : Block) (bs : List Block) → All (Apart b) bs → Ordered bs → Ordered (insert b bs)
unfolding insert
insert-Ordered b [] a o = (tt, tt)
insert-Ordered b (c ∷ cs) a o = elim (Bool-cases (ltb b.addr c.addr)) [
  | inl before ↦
      let lt = ltb→lt b.addr c.addr before in
      let le : end b ≤ c.addr = omega (arith, a.0) in
      rw before ((le, All-map cs (λ z h. omega arith) o.0), o)
  | inr after ↦
      let ge = ltb→le b.addr c.addr after in
      rw after (insert-above (end c) b cs (omega (arith, a.0)) o.0, insert-Ordered b cs a.1 o.1)
]

-- A block below all others is inserted in front, and joins nothing across a gap.
pub insert-front : (b : Block) (bs : List Block) → Above b.addr bs → insert b bs ≡ b ∷ bs
unfolding insert
insert-front b [] a = refl
insert-front b (c ∷ cs) a = rw (lt→ltb b.addr c.addr a.0)

pub coalesce_from-gap :
    (b : Block) (bs : List Block) → Above (end b) bs → coalesce_from b bs ≡ b ∷ coalesce bs
unfolding coalesce_from coalesce
coalesce_from-gap b [] a = refl
coalesce_from-gap b (c ∷ cs) a = rw (ne→eqb (end b) c.addr (omega (arith, a.0)))

pub coalesce-of_Gapped : (bs : List Block) → Gapped bs → coalesce bs ≡ bs
unfolding coalesce
coalesce-of_Gapped [] g = refl
coalesce-of_Gapped (b ∷ bs) g =
    coalesce_from-gap b bs g.0 ∙ ap (λ l. b ∷ l) (coalesce-of_Gapped bs g.1)

pub insert-Above :
    (k : ℕ) (b : Block) (bs : List Block) → k < b.addr → Above k bs → Above k (insert b bs)
insert-Above k b bs h a = insert-above (suc k) b bs h a

-- A block above the first one is inserted behind it.
pub insert-behind :
    (b c : Block) (cs : List Block) → c.addr < b.addr → insert b (c ∷ cs) ≡ c ∷ insert b cs
unfolding insert
insert-behind b c cs h = rw (le→ltb b.addr c.addr (omega arith))

-- The block and the rest lie above k, and putting the block back gives the list.
abbrev pub Restores : ℕ → List Block → Option (Block × List Block) → Type 0
Restores k free none = Unit
Restores k free (some (c, rest)) =
    (k < c.addr) × Above k rest × (coalesce (insert c rest) ≡ free) × (length rest ≤ length free)
