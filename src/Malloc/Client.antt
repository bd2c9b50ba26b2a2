-- ===== src/Malloc/Client.antt =====
-- The view of a caller of the allocator, root/orbit-kernel/util/malloc_freelist.c.
use relics.Prelude.{
  ℕ, ◌+◌, ◌-◌, ◌%◌, ◌^◌, ◌≤◌, ◌<◌, ◌≡◌, ◌⊎◌, refl, inl, inr, Option, none, some, List, [], ◌∷◌,
  Memory, leb, leb→le, Bool-cases, length, All, All-map, arith,
}
use mathlib.Core.Option
use relics.LinkedList.{Block, Apart}
use relics.Malloc.{align_up, kmalloc}
use relics.Malloc.Spec.{keep, allocate, end}
use relics.Malloc.State.{Fits, IsHeap, SameOutside, cross-column, Outside-of_Apart}
use relics.Malloc.Alloc.{Allocates, kmalloc-Allocates}
use relics.Malloc.Align.{align_up_bounds}

-- The words of a payload are the same in both memories.
abbrev pub SamePayload : Memory → Memory → Block → Type 0
SamePayload m m' u = (x : ℕ) → u.addr + 24 ≤ x → x < end u → m' x ≡ m x

-- A change that is confined to blocks and the list head spares the payloads of other blocks.
pub SamePayload-frame :
    (head : ℕ) (bs us : List Block) (m m' : Memory)
    → All (Fits head) us
    → All (λ b. All (Apart b) us) bs
    → SameOutside head bs m m'
    → All (SamePayload m m') us
SamePayload-frame head bs [] m m' f c same = tt
SamePayload-frame head bs (u ∷ us) m m' f c same =
    let split = cross-column u us bs c in
    (
      λ x lo hi.
          same x (omega (arith, f.0)) (omega (arith, f.0))
            (All-map bs (λ b a. Outside-of_Apart x b u a (omega arith) hi) split.0),
      SamePayload-frame head bs us m m' f.1 split.1 same,
    )

-- What first fit returns is big enough.
abbrev Enough : ℕ → Option (Block × List Block) → Type 0
Enough n none = Unit
Enough n (some r) = n ≤ r.0.size

Enough-keep :
    (n : ℕ) (b : Block) (r : Option (Block × List Block))
    → Enough n r
    → Enough n (Option.map (keep b) r)
Enough-keep n b none h = tt
Enough-keep n b (some r) h = h

allocate-Enough : (n : ℕ) (bs : List Block) → Enough n (allocate n bs)
unfolding allocate
allocate-Enough n [] = tt
allocate-Enough n (b ∷ bs) = elim (Bool-cases (leb n b.size)) [
  | inl fits ↦
      let le = leb→le n b.size fits in
      rw fits (elim (Bool-cases (leb 56 (b.size - n))) [
        | inl big ↦ rw big (omega arith)
        | inr small ↦ rw small le
      ])
  | inr misses ↦ rw misses (Enough-keep n b (allocate n bs) (allocate-Enough n bs))
]

-- The pointer p with memory m' serves a request of n bytes made in memory m: it is the aligned
-- payload of a block of the request's size that overlaps no allocated block, whose contents are
-- those of m; the block is allocated in the heap of m'.
pub record Serves (head : ℕ) (used : List Block) (size : ℕ) (m : Memory) (p : ℕ) (m' : Memory)
    : Type 0 where
  pub owner : Block
  pub rest : List Block
  pub points : p ≡ owner.addr + 24
  pub aligned : p % 8 ≡ 0
  pub big_enough : size ≤ owner.size
  pub separate : All (Apart owner) used
  pub kept : All (SamePayload m m') used
  pub heap : IsHeap head rest (owner ∷ used) m'

module _ (head : ℕ) (free used : List Block) (m : Memory) (heap : IsHeap head free used m) where
  Allocates-Serves :
      (size n : ℕ) (a : Option (Block × List Block)) (r : Option (ℕ × Memory))
      → size ≤ n
      → Enough n a
      → Allocates head free used m a r
      → (p : ℕ) × (m' : Memory) × (r ≡ some (p, m'))
        × (((p ≡ 0) × (m' ≡ m)) ⊎ Serves head used size m p m')
  Allocates-Serves size n none r le enough h = (0, m, h, inl (refl, refl))
  Allocates-Serves size n (some (c, rest)) r le enough (m', e, taken) = (
    c.addr + 24,
    m',
    e,
    inr (record {
      owner = c;
      rest = rest;
      points = refl;
      aligned = omega (arith, taken.heap.fits_used.0);
      big_enough = omega arith;
      separate = taken.heap.apart_used.0;
      kept = SamePayload-frame head free used m m' heap.fits_used heap.cross taken.same;
      heap = taken.heap;
    }),
  )

  -- On a heap `kmalloc` of a positive size that does not wrap returns: NULL with the memory
  -- unchanged, or an aligned pointer to at least that many bytes that overlap no allocated block;
  -- every allocated payload keeps its contents and the heap invariant holds with the new block.
  pub kmalloc-Serves :
      (fuel size : ℕ)
      → length free < fuel
      → 0 < size
      → size ≤ 2 ^ 64 - 8
      → (p : ℕ) × (m' : Memory) × (kmalloc fuel head size m ≡ some (p, m'))
        × (((p ≡ 0) × (m' ≡ m)) ⊎ Serves head used size m p m')
  kmalloc-Serves fuel size fuel_enough positive small =
      Allocates-Serves size (align_up size) (allocate (align_up size) free) _
        (align_up_bounds size small).1 (allocate-Enough (align_up size) free)
        (kmalloc-Allocates head used m free fuel size heap fuel_enough positive)
