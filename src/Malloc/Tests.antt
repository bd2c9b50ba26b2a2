-- ===== src/Malloc/Tests.antt =====
-- A small heap, and the allocator's theorems on it.
use relics.Prelude.{
  ℕ, ◌+◌, ◌≡◌, ◌⊎◌, refl, some, List, [], ◌∷◌, Memory, write, ◌++◌, ◌==◌, if◌then◌else◌, arith,
}
use relics.LinkedList.{Block, block, list_del, list_add_between}
use relics.Malloc.{align_up, kmalloc, kfree, defrag_free_list, take_block, find_fit}
use relics.Malloc.Spec.{allocate, insert, coalesce}
use relics.Malloc.State.{IsHeap}
use relics.Malloc.Alloc.{Allocates, kmalloc-Allocates}
use relics.Malloc.Coalesce.{Freed, defrag-Freed}
use relics.Malloc.Free.{kfree-Freed}
use relics.Malloc.Order.{Gapped, total}
use relics.Malloc.Defragmented.{kfree-Gapped}
use relics.Malloc.RoundTrip.{kfree-kmalloc}
use relics.Malloc.Regions.{Region}
use relics.Malloc.History.{
  Arena, Reach, here, next, allocates, writes, Sound, Reach-Sound, Reach-returns, block_of,
}
use relics.Malloc.Booted.{booted}
use relics.Malloc.Client.{Serves, kmalloc-Serves}

-- The list head stands at 64; the block at 200 is free and the block at 104 allocated.
abbrev free_block : Block
free_block = block 200 104

abbrev used_block : Block
used_block = block 104 72

abbrev test_memory : Memory
test_memory x =
    if x == 64
    then 200
    else if x == 72
    then 200
    else if x == 200
    then 64
    else if x == 208
    then 64
    else if x == 216
    then 104
    else if x == 120
    then 72
    else 0

test-IsHeap : IsHeap 64 (free_block ∷ []) (used_block ∷ []) test_memory
test-IsHeap = record {
  ring = (refl, refl, refl, (refl, refl));
  fits = (omega arith, tt);
  apart = (tt, tt);
  fits_used = (omega arith, tt);
  apart_used = (tt, tt);
  cross = ((omega arith, tt), tt);
  recorded = (refl, tt);
}

kmalloc-Allocates_example :
    Allocates 64
      (free_block ∷ [])
      (used_block ∷ [])
      test_memory
      (allocate (align_up 10) (free_block ∷ []))
      (kmalloc 2 64 10 test_memory)
kmalloc-Allocates_example =
    kmalloc-Allocates 64 (used_block ∷ []) test_memory (free_block ∷ []) 2 10 test-IsHeap
      (omega arith) (omega arith)

kfree-Freed_example :
    Freed 64
      (insert used_block (free_block ∷ []))
      []
      test_memory
      (coalesce (insert used_block (free_block ∷ [])))
      (kfree 3 64 128 test_memory)
kfree-Freed_example =
    kfree-Freed 64 [] used_block [] test_memory 3 (free_block ∷ []) test-IsHeap (omega arith)

kmalloc-Serves_example :
    (p : ℕ) × (m' : Memory) × (kmalloc 2 64 10 test_memory ≡ some (p, m'))
    × (((p ≡ 0) × (m' ≡ test_memory)) ⊎ Serves 64 (used_block ∷ []) 10 test_memory p m')
kmalloc-Serves_example =
    kmalloc-Serves 64 (free_block ∷ []) (used_block ∷ []) test_memory test-IsHeap 2 10 (omega arith)
      (omega arith) (omega arith)

kfree-kmalloc_example :
    (p : ℕ) × (m' m'' : Memory) × (kmalloc 3 64 10 test_memory ≡ some (p, m'))
    × (kfree 3 64 p m' ≡ some m'')
    × IsHeap 64 (free_block ∷ []) (used_block ∷ []) m''
kfree-kmalloc_example =
    kfree-kmalloc 64 (free_block ∷ []) (used_block ∷ []) test_memory test-IsHeap 3 10 (omega arith)
      (omega arith) (tt, tt)

defrag-Freed_example :
    Freed 64
      (free_block ∷ [])
      (used_block ∷ [])
      test_memory
      (coalesce (free_block ∷ []))
      (defrag_free_list 2 64 test_memory)
defrag-Freed_example =
    defrag-Freed 64 (used_block ∷ []) 2 (free_block ∷ []) test_memory test-IsHeap (omega arith)

kfree-Gapped_example :
    (m' : Memory) × (rest : List Block) × (kfree 3 64 128 test_memory ≡ some m')
    × IsHeap 64 rest [] m'
    × Gapped rest
    × (total rest ≡ total (free_block ∷ []) + 24 + 72)
kfree-Gapped_example =
    kfree-Gapped 64 [] used_block [] (free_block ∷ []) test_memory 3 test-IsHeap (tt, tt)
      (omega arith)

-- Two regions of a map, and the heap that they make.
abbrev two_regions : List Region
two_regions = (1024, 100) ∷ (4096, 4096) ∷ []

-- A caller takes 16 bytes, writes to them, and gives the block at 104 back.
abbrev start : Arena
start = record { used = used_block ∷ []; memory = test_memory }

start-Sound : Sound 64 224 start
start-Sound = record { free = free_block ∷ []; heap = test-IsHeap; conserved = refl }

abbrev taken_memory : Memory
taken_memory = take_block 200 16 test_memory

kmalloc-taken : kmalloc 11 64 10 test_memory ≡ some (224, taken_memory)
unfolding kmalloc find_fit align_up
kmalloc-taken = refl

abbrev taken_block : Block
taken_block = block_of 224 taken_memory

taken-size : taken_memory 216 ≡ 16
unfolding take_block list_del list_add_between
taken-size = refl

abbrev written : Arena
written = record { used = taken_block ∷ used_block ∷ []; memory = write taken_memory 232 7 }

run_to_written : Reach 64 11 start written
run_to_written = next (next here (allocates 10 224 taken_memory (omega arith) kmalloc-taken)) (
    writes [] (used_block ∷ []) taken_block taken_memory 232 7 (omega arith)
      (omega (arith, taken-size)))

Reach-Sound_example : Sound 64 224 written
Reach-Sound_example = Reach-Sound 64 11 224 (omega arith) start written start-Sound run_to_written

Reach-returns_example :
    ((size : ℕ) → (p : ℕ) × (m : Memory) × (kmalloc 11 64 size written.memory ≡ some (p, m)))
    × ((us vs : List Block) (c : Block)
        → written.used ≡ us ++ c ∷ vs
        → (m : Memory) × (kfree 11 64 (c.addr + 24) written.memory ≡ some m))
Reach-returns_example =
    Reach-returns 64 11 224 (omega arith) start written start-Sound run_to_written

-- The first request behind `kmalloc_init`.
abbrev at_boot : Memory
at_boot = (booted 64 two_regions test_memory).memory
