-- ===== src/Malloc/Booted.antt =====
-- About the heap of root/orbit-kernel/util/malloc_freelist.c from its start on a memory map.
use relics.Prelude.{ℕ, ◌+◌, List, [], ◌∷◌, Memory}
use relics.LinkedList.{list_init}
use relics.Malloc.{kmalloc_init}
use relics.Malloc.Regions.{Region}
use relics.Malloc.History.{Arena}

-- The bytes of a map.
abbrev pub lengths : List Region → ℕ
lengths [] = 0
lengths (r ∷ rs) = r.1 + lengths rs

-- The allocator behind `kmalloc_init`: nothing is held.
abbrev pub booted : (head : ℕ) → List Region → Memory → Arena
booted head rs m = record { used = []; memory = kmalloc_init head rs (list_init head m) }
