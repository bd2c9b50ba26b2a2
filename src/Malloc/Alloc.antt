-- ===== src/Malloc/Alloc.antt =====
-- About `kmalloc` of root/orbit-kernel/util/malloc_freelist.c and first fit.
use relics.Prelude.{
  ℕ, ◌+◌, ◌-◌, ◌%◌, ◌≤◌, ◌<◌, ◌≡◌, ◌≢◌, ◌∙◌, refl, inl, inr, true, false, Option, none, some, List,
  [], ◌∷◌, ◌++◌, Memory, leb, leb→le, leb→lt, lt→ltb, le→leb, lt→leb, u64, Bool-cases, length, All,
  All-map, arith,
}
use mathlib.Core.Path.{subst}
use relics.LinkedList.{Block, block, list_del}
use relics.LinkedList.Delete.{Links-node}
use relics.Malloc.{sub64, header_size, align_up, take_block, kmalloc, Scan, hit, done, out_of_fuel}
use relics.Malloc.Spec.{carve, allocate, Outside}
use relics.Malloc.State.{Fits, IsHeap, All-insert, All-remove}
use relics.Malloc.Take.{Taken, take_whole, divided, sized-Ring, divided-IsHeap, divided-SameOutside}
use relics.Malloc.Search.{Walk, none_passes, passes, find_fit-Walk}
use relics.Malloc.Align.{align_up_aligned}

module _ (head : ℕ) (used : List Block) (m : Memory) (xs : List Block) (b : Block) (ys : List Block)
    (heap : IsHeap head (xs ++ b ∷ ys) used m) (n : ℕ) (aligned : n % 8 ≡ 0) where
  -- The memory in which `take_block` unlinks the found block.
  take_block-divided :
      (room : n + 56 ≤ b.size)
      → take_block b.addr n m ≡ list_del b.addr (divided head used m xs b ys heap n aligned room)
  unfolding take_block
  take_block-divided room =
      let node = Links-node m head xs b ys head heap.ring in
      let fits = (All-remove (Fits head) xs b ys heap.fits).0 in
      let left : sub64 b.size n ≡ b.size - n = omega arith in
      let at : u64 (b.addr + 24 + n) ≡ b.addr + 24 + n = omega arith in
      let rest : sub64 (b.size - n) 24 ≡ b.size - n - 24 = omega arith in
      let fit : leb 56 (b.size - n) ≡ true = le→leb 56 (b.size - n) (omega arith) in
      let ring = sized-Ring head used m xs b ys heap n aligned room in
      let behind = (Links-node _ head xs (block b.addr n) ys head ring).0 in
      rw (node.2, left, at, rest, fit, behind)

  take_block-whole : n ≤ b.size → b.size < n + 56 → take_block b.addr n m ≡ list_del b.addr m
  unfolding take_block
  take_block-whole enough small =
      let node = Links-node m head xs b ys head heap.ring in
      let fits = (All-remove (Fits head) xs b ys heap.fits).0 in
      let left : sub64 b.size n ≡ b.size - n = omega arith in
      let fit : leb 56 (b.size - n) ≡ false = lt→leb 56 (b.size - n) (omega arith) in
      rw (node.2, left, fit)

  -- The part of a block that is cut off in front lies outside whatever the block lies outside.
  Outside-divided :
      (room : n + 56 ≤ b.size) (x : ℕ)
      → All (Outside x) (xs ++ b ∷ ys)
      → All (Outside x) (xs ++ block b.addr n ∷ block (b.addr + 24 + n) (b.size - n - 24) ∷ ys)
  Outside-divided room x o =
      let out = All-remove (Outside x) xs b ys o in
      All-insert (Outside x) xs _ _ (omega (arith, out.0))
        (All-insert (Outside x) xs _ ys (omega (arith, out.0)) out.1)

  -- `take_block` takes what `carve` says.
  take_block-Taken :
      n ≤ b.size
      → Taken head
          (xs ++ b ∷ ys)
          used
          m
          (carve n b ys).0
          (xs ++ (carve n b ys).1)
          (take_block b.addr n m)
  unfolding carve
  take_block-Taken enough = elim (Bool-cases (leb 56 (b.size - n))) [
    | inl big ↦
        let room : n + 56 ≤ b.size = omega (arith, leb→le 56 (b.size - n) big) in
        let heap' = divided-IsHeap head used m xs b ys heap n aligned room in
        let whole = take_whole head used _ xs (block b.addr n) _ heap' in
        rw (big, take_block-divided room)
          (record {
            heap = whole.heap;
            same = λ x nh np o.
                whole.same x nh np (Outside-divided room x o)
                ∙ divided-SameOutside head used m xs b ys heap n aligned room x nh np o;
          })
    | inr small ↦
        let tight : b.size < n + 56 = omega (arith, leb→lt 56 (b.size - n) small) in
        rw (small, take_block-whole enough tight) (take_whole head used m xs b ys heap)
  ]

-- First fit on a list whose first block that is big enough is b.
allocate-at :
    (n : ℕ) (xs : List Block) (b : Block) (ys : List Block)
    → All (λ c. leb n c.size ≡ false) xs
    → leb n b.size ≡ true
    → allocate n (xs ++ b ∷ ys) ≡ some ((carve n b ys).0, xs ++ (carve n b ys).1)
unfolding allocate
allocate-at n [] b ys a t = rw t
allocate-at n (x ∷ xs) b ys a t = rw (a.0, allocate-at n xs b ys a.1 t)

allocate-none :
    (n : ℕ) (bs : List Block) → All (λ c. leb n c.size ≡ false) bs → allocate n bs ≡ none
unfolding allocate
allocate-none n [] a = refl
allocate-none n (b ∷ bs) a = rw (a.0, allocate-none n bs a.1)

carve-addr : (n : ℕ) (b : Block) (ys : List Block) → (carve n b ys).0.addr ≡ b.addr
unfolding carve
carve-addr n b ys = ground arith

-- What `kmalloc` must do, given what first fit does.
abbrev pub Allocates :
    ℕ
    → List Block
    → List Block
    → Memory
    → Option (Block × List Block)
    → Option (ℕ × Memory)
    → Type 0
Allocates head free used m none r = r ≡ some (0, m)
Allocates head free used m (some (c, rest)) r =
    (m' : Memory) × (r ≡ some (c.addr + 24, m')) × Taken head free used m c rest m'

module _ (head : ℕ) (used : List Block) (m : Memory) where
  found-Allocates :
      (n : ℕ) (bs : List Block) (r : Scan)
      → n % 8 ≡ 0
      → IsHeap head bs used m
      → Walk (λ b. leb n b.size) bs r
      → Allocates head bs used m (allocate n bs) (elim r [
        | out_of_fuel ↦ none
        | done ↦ some (0, m)
        | hit found ↦ some (found + header_size, take_block found n m)
      ])
  found-Allocates n bs out_of_fuel aligned heap w = elim w [ ]
  found-Allocates n bs done aligned heap (none_passes a) = rw (allocate-none n bs a)
  found-Allocates n bs (hit p) aligned heap (passes xs b ys at e a t) =
      let heap' = subst (λ w. IsHeap head w used m) e heap in
      rw (e, at, allocate-at n xs b ys a t)
        (
          take_block b.addr n m,
          rw (carve-addr n b ys),
          take_block-Taken head used m xs b ys heap' n aligned (leb→le n b.size t),
        )

  -- With enough fuel `kmalloc` of a positive size returns, and does what first fit for the rounded
  -- size does on the free list: if no block is big enough it returns NULL and changes nothing; or
  -- else it returns the payload address of the block that first fit takes, the free list is the one
  -- that first fit leaves, the block joins the allocated ones, the heap invariant holds, and no
  -- word outside the free blocks and the list head has changed.
  pub kmalloc-Allocates :
      (free : List Block) (fuel size : ℕ)
      → IsHeap head free used m
      → length free < fuel
      → 0 < size
      → Allocates head free used m (allocate (align_up size) free) (kmalloc fuel head size m)
  unfolding kmalloc
  kmalloc-Allocates free fuel size heap enough positive =
      let n = align_up size in
      let ne = All-map free (λ b f. ne_head head b f) heap.fits in
      let walk = find_fit-Walk m head fuel n head free enough ne heap.ring in
      rw (lt→ltb 0 size positive) (found-Allocates n free _ (align_up_aligned size) heap walk)
    where
      ne_head : (h : ℕ) (b : Block) → Fits h b → b.addr ≢ h
      ne_head h b f = omega arith
