-- ===== src/Malloc/Spec.antt =====
-- What the allocator does to its free list, as plain functions on lists of blocks: first fit with
-- splitting, insertion before the first higher address, and joining of neighbours.
use relics.Prelude.{
  ℕ, ◌+◌, ◌-◌, ◌≤◌, ◌<◌, ◌⊎◌, Option, none, some, List, [], ◌∷◌, ltb, leb, ◌==◌, if◌then◌else◌, All,
}
use relics.LinkedList.{Block, block, Apart}
use mathlib.Core.Option

-- The block that serves a request of n bytes from b, and what is left in front of the rest.
unfoldable pub carve : ℕ → Block → List Block → Block × List Block
carve n b bs =
    if leb 56 (b.size - n)
    then (block b.addr n, block (b.addr + 24 + n) (b.size - n - 24) ∷ bs)
    else (b, bs)

abbrev pub keep : Block → Block × List Block → Block × List Block
keep b r = (r.0, b ∷ r.1)

-- First fit.
unfoldable pub allocate : ℕ → List Block → Option (Block × List Block)
unfolding carve
allocate n [] = none
allocate n (b ∷ bs) =
    if leb n b.size then some (carve n b bs) else Option.map (keep b) (allocate n bs)

-- Insertion in front of the first block with a higher address.
unfoldable pub insert : Block → List Block → List Block
insert b [] = b ∷ []
insert b (c ∷ cs) = if ltb b.addr c.addr then b ∷ c ∷ cs else c ∷ insert b cs

-- b ends where c begins.
abbrev pub end : Block → ℕ
end b = b.addr + 24 + b.size

abbrev pub join : Block → Block → Block
join b c = block b.addr (b.size + (24 + c.size))

-- Each block takes in the following ones as long as they begin where it ends.
unfoldable pub coalesce_from : Block → List Block → List Block
coalesce_from b [] = b ∷ []
coalesce_from b (c ∷ cs) =
    let joined = coalesce_from (join b c) cs in
    let kept = b ∷ coalesce_from c cs in if end b == c.addr then joined else kept

unfoldable pub coalesce : List Block → List Block
unfolding coalesce_from
coalesce [] = []
coalesce (b ∷ bs) = coalesce_from b bs

-- Blocks that are pairwise apart.
abbrev pub Disjoint : List Block → Type 0
Disjoint [] = Unit
Disjoint (b ∷ bs) = All (Apart b) bs × Disjoint bs

-- The address x lies outside the block, header and payload.
abbrev pub Outside : ℕ → Block → Type 0
Outside x b = (x < b.addr) ⊎ (end b ≤ x)
