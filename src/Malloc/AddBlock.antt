-- ===== src/Malloc/AddBlock.antt =====
-- About `malloc_addblock` and the start of a heap, root/orbit-kernel/util/malloc_freelist.c.
use mathlib.Core.Path.{subst, sym}
use relics.Prelude.{
  ℕ, ◌+◌, ◌-◌, ◌%◌, ◌^◌, ◌≤◌, ◌<◌, ◌≡◌, ◌≢◌, ◌⊎◌, ◌∙◌, List, [], ◌∷◌, Memory, All, All-map, u64,
  arith,
}
use relics.LinkedList.{Block, block, Ring, Apart, first, list_init, list_add, list_add_between}
use relics.LinkedList.Delete.{Links-first}
use relics.LinkedList.Frame.{ne-first, Links-write, Unread-of_Off, Off-size}
use relics.LinkedList.Insert.{Links-insert, list_add-other}
use relics.Malloc.{align_up, sub64, set_size, malloc_addblock}
use relics.Malloc.Align.{align_up_bounds, align_up_lem}
use relics.Malloc.Spec.{Disjoint, end}
use relics.Malloc.State.{Fits, IsHeap, SameOutside, Tidy-ring, Off-of_Outside, Recorded-frame}

-- The block that `malloc_addblock` makes of a region that has room for it.
abbrev pub region_block : ℕ → ℕ → Block
region_block addr size = block (align_up addr) (addr + size - align_up addr - 24)

-- The static list head, initialised to itself, is the heap without blocks.
pub list_init-IsHeap : (head : ℕ) (m : Memory) → IsHeap head [] [] (list_init head m)
unfolding list_init
list_init-IsHeap head m = record {
  ring = (ground arith, ground arith);
  fits = tt;
  apart = tt;
  fits_used = tt;
  apart_used = tt;
  cross = tt;
  recorded = tt;
}

module _ (head : ℕ) (free used : List Block) (m : Memory) (heap : IsHeap head free used m)
    (addr size : ℕ) (nonzero : 0 < addr) (room : 31 ≤ size) (top : addr + size ≤ 2 ^ 64)
    (clear : (addr + size ≤ head) ⊎ (head + 16 ≤ addr))
    (new_free : All (λ b. (end b ≤ addr) ⊎ (addr + size ≤ b.addr)) free)
    (new_used : All (λ b. (end b ≤ addr) ⊎ (addr + size ≤ b.addr)) used) where
  abbrev added : Block
  added = region_block addr size

  within :
      (addr ≤ added.addr) × (end added ≡ addr + size) × (added.addr % 8 ≡ 0) × (added.addr < 2 ^ 64)
  within = omega (arith, align_up_bounds addr (omega arith))

  added-Fits : Fits head added
  added-Fits = omega (arith, within)

  Apart-free : All (Apart added) free
  Apart-free = All-map free (λ b h. omega (arith, within)) new_free

  Apart-used : All (Apart added) used
  Apart-used = All-map used (λ b h. omega (arith, within)) new_used

  abbrev sized : Memory
  sized = set_size m added.addr added.size

  sized-Ring : Ring sized head free
  sized-Ring =
      Links-write m (added.addr + 16) added.size head free head
        (Unread-of_Off (added.addr + 16) head free head (omega (arith, added-Fits))
          (omega (arith, added-Fits)) (All-map free (Off-size added) Apart-free))
        heap.ring

  -- What `malloc_addblock` does to the memory, with its wraps gone.
  addblock-eq :
      malloc_addblock head addr size m ≡ list_add_between added.addr head (first free head) sized
  unfolding malloc_addblock list_add
  addblock-eq =
      let left : sub64 (sub64 (u64 (addr + size)) (align_up addr)) 24
          ≡ addr + size - align_up addr - 24 =
        omega (arith, within) in
      rw (left, Links-first sized head free head sized-Ring)

  addblock-SameOutside : SameOutside head (added ∷ free) m (malloc_addblock head addr size m)
  addblock-SameOutside x nh np o =
      let out = o.0 in
      let ne : x ≢ added.addr + 16 = omega (arith, out) in
      rw addblock-eq (
        list_add-other sized added.addr head (first free head) x
          (ne-first x free head np (All-map free (Off-of_Outside x) o.1)) (omega (arith, out))
          (omega (arith, out)) nh
        ∙ ground arith)

  addblock-IsHeap : IsHeap head (added ∷ free) used (malloc_addblock head addr size m)
  addblock-IsHeap =
      let fits : All (Fits head) (added ∷ free) = (added-Fits, heap.fits) in
      let apart : Disjoint (added ∷ free) = (Apart-free, heap.apart) in
      let cross : All (λ b. All (Apart b) used) (added ∷ free) = (Apart-used, heap.cross) in
      record {
        ring =
            subst (λ w. Ring w head (added ∷ free)) (sym addblock-eq)
              (Links-insert sized added (ground arith) head [] free head
                (Tidy-ring head (added ∷ free) fits apart) sized-Ring);
        fits = fits;
        apart = apart;
        fits_used = heap.fits_used;
        apart_used = heap.apart_used;
        cross = cross;
        recorded =
            Recorded-frame head (added ∷ free) used m _ heap.fits_used cross addblock-SameOutside
              heap.recorded;
      }

  -- `malloc_addblock` of a region of at least 31 bytes that overlaps no block and not the list head
  -- puts the aligned part of the region, less a header, in front of the free list, keeps the heap
  -- invariant, and changes no word outside the free blocks, the region's block and the list head.
  pub malloc_addblock-IsHeap :
      IsHeap head (added ∷ free) used (malloc_addblock head addr size m)
      × SameOutside head (added ∷ free) m (malloc_addblock head addr size m)
  malloc_addblock-IsHeap = (addblock-IsHeap, addblock-SameOutside)

-- A region too small for a header leaves a block whose size field has wrapped: the allocator
-- takes it for almost the whole address space.
pub malloc_addblock-wraps :
    (head addr size : ℕ) (m : Memory)
    → addr % 8 ≡ 0
    → addr + 16 ≢ head
    → addr + 16 ≢ m head + 8
    → addr + size < 2 ^ 64
    → size < 24
    → malloc_addblock head addr size m (addr + 16) ≡ 2 ^ 64 - 24 + size
unfolding malloc_addblock list_add
malloc_addblock-wraps head addr size m aligned n16 nn top small =
    let same : align_up addr ≡ addr = omega (arith, align_up_lem addr) in
    let left : sub64 (sub64 (u64 (addr + size)) addr) 24 ≡ 2 ^ 64 - 24 + size = omega arith in
    rw (same, left)
      (list_add-other _ addr head _ (addr + 16) (ground arith) (omega arith) (omega arith) n16
        ∙ ground arith)
