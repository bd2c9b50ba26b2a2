-- ===== src/Malloc/Defragmented.antt =====
-- About the order of the free list after `kfree`, root/orbit-kernel/util/malloc_freelist.c.
use relics.Prelude.{
  ℕ, ◌+◌, ◌<◌, ◌≡◌, some, List, [], ◌∷◌, ◌++◌, Memory, length, ltb, All-map, Bool-cases, inl, inr,
  arith,
}
use relics.LinkedList.{Block, Apart}
use relics.LinkedList.Frame.{Apart-symm}
use relics.Malloc.{kfree}
use relics.Malloc.Spec.{insert, coalesce}
use relics.Malloc.State.{IsHeap, All-remove}
use relics.Malloc.Free.{kfree-Freed}
use relics.Malloc.Order.{Ordered, Gapped, coalesce-Gapped, insert-Ordered, total, total-coalesce}

pub total-insert : (b : Block) (bs : List Block) → total (insert b bs) ≡ 24 + b.size + total bs
unfolding insert
total-insert b [] = omega arith
total-insert b (c ∷ cs) = elim (Bool-cases (ltb b.addr c.addr)) [
  | inl before ↦ rw before (omega arith)
  | inr after ↦ rw after (omega (arith, total-insert b cs))
]

-- On a heap whose free list is in address order, and with enough fuel, `kfree` of an allocated
-- block returns; in the heap that is left the free list is in order, no two free blocks touch, and
-- the bytes of the free blocks, headers included, are those of before and of the freed block.
pub kfree-Gapped :
    (head : ℕ) (us : List Block) (b : Block) (vs free : List Block) (m : Memory) (fuel : ℕ)
    → IsHeap head free (us ++ b ∷ vs) m
    → Ordered free
    → length free + 1 < fuel
    → (m' : Memory) × (rest : List Block) × (kfree fuel head (b.addr + 24) m ≡ some m')
      × IsHeap head rest (us ++ vs) m'
      × Gapped rest
      × (total rest ≡ total free + 24 + b.size)
kfree-Gapped head us b vs free m fuel heap o enough =
    let freed = kfree-Freed head us b vs m fuel free heap enough in
    let apart =
      All-map free (λ c a. Apart-symm c b (All-remove (Apart c) us b vs a).0) heap.cross in
    (
      freed.out,
      coalesce (insert b free),
      freed.returns,
      freed.heap,
      coalesce-Gapped (insert b free) (insert-Ordered b free apart o),
      omega (arith, total-coalesce (insert b free), total-insert b free),
    )
