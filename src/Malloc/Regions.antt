-- ===== src/Malloc/Regions.antt =====
-- About `kmalloc_init` of root/orbit-kernel/util/malloc_freelist.c on a whole memory map.
use relics.Prelude.{ℕ, ◌+◌, ◌^◌, ◌≤◌, ◌<◌, ◌⊎◌, List, [], ◌∷◌, All}
use relics.LinkedList.{Block}
use relics.Malloc.Spec.{end}
use relics.Malloc.AddBlock.{region_block}

-- Base address and length of an entry of the map.
abbrev pub Region : Type 0
Region = ℕ × ℕ

-- Room for a header and a word, inside the address space, and not over the list head.
abbrev pub IsUsable : ℕ → Region → Type 0
IsUsable head r =
    (0 < r.0) × (31 ≤ r.1) × (r.0 + r.1 ≤ 2 ^ 64) × ((r.0 + r.1 ≤ head) ⊎ (head + 16 ≤ r.0))

abbrev pub AreApart : Region → Region → Type 0
AreApart r q = (r.0 + r.1 ≤ q.0) ⊎ (q.0 + q.1 ≤ r.0)

-- No two regions of a map overlap.
abbrev pub NoOverlap : List Region → Type 0
NoOverlap [] = Unit
NoOverlap (r ∷ rs) = All (AreApart r) rs × NoOverlap rs

-- A block lies beside a region.
abbrev Beside : Region → Block → Type 0
Beside r b = (end b ≤ r.0) ⊎ (r.0 + r.1 ≤ b.addr)

-- The blocks of the regions, the last one in front, and those that were there.
abbrev pub region_blocks : List Region → List Block → List Block
region_blocks [] free = free
region_blocks (r ∷ rs) free = region_blocks rs (region_block r.0 r.1 ∷ free)
