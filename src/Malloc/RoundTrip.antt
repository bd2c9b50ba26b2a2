-- ===== src/Malloc/RoundTrip.antt =====
-- About `kmalloc` followed by `kfree`, root/orbit-kernel/util/malloc_freelist.c.
use mathlib.Core.Path.{subst}
use relics.Prelude.{
  ℕ, ◌+◌, ◌-◌, ◌≤◌, ◌<◌, ◌≡◌, ◌∙◌, ap, refl, inl, inr, Option, none, some, List, [], ◌∷◌, Memory,
  leb, leb→le, eq→eqb, Bool-cases, All-map, length, arith,
}
use mathlib.Core.Option
use relics.LinkedList.{Block, block}
use relics.Malloc.{align_up, kmalloc, kfree}
use relics.Malloc.Spec.{carve, keep, allocate, insert, end, coalesce_from, coalesce}
use relics.Malloc.State.{IsHeap, Fits}
use relics.Malloc.Alloc.{Allocates, kmalloc-Allocates}
use relics.Malloc.Free.{kfree-Freed}
use relics.Malloc.Order.{
  Gapped, Above, Restores, insert-front, coalesce_from-gap, coalesce-of_Gapped, insert-Above,
  insert-behind,
}

carve-Restores :
    (k n : ℕ) (b : Block) (bs : List Block)
    → n ≤ b.size
    → k < b.addr
    → Gapped (b ∷ bs)
    → Restores k (b ∷ bs) (some (carve n b bs))
unfolding carve coalesce
carve-Restores k n b bs enough low g = elim (Bool-cases (leb 56 (b.size - n))) [
  | inl big ↦
      let room : 56 ≤ b.size - n = leb→le 56 (b.size - n) big in
      let c = block b.addr n in
      let d = block (b.addr + 24 + n) (b.size - n - 24) in
      let whole : n + (24 + (b.size - n - 24)) ≡ b.size = omega arith in
      let above : Above b.addr bs = All-map bs (λ z h. omega (arith, h)) g.0 in
      rw big (
        low,
        (omega arith, All-map bs (λ z h. omega arith) g.0),
        rw
            (
              insert-front c (d ∷ bs) ((omega arith), above),
              coalesce_from,
              eq→eqb (end c) d.addr refl,
              whole,
            )
            (coalesce_from-gap b bs g.0 ∙ ap (λ l. b ∷ l) (coalesce-of_Gapped bs g.1)),
        omega arith,
      )
  | inr small ↦ rw small (
    low,
    All-map bs (λ z h. omega arith) g.0,
    rw (insert-front b bs (All-map bs (λ z h. omega arith) g.0))
        (coalesce_from-gap b bs g.0 ∙ ap (λ l. b ∷ l) (coalesce-of_Gapped bs g.1)),
    omega arith,
  )
]

keep-Restores :
    (k : ℕ) (b : Block) (bs : List Block) (o : Option (Block × List Block))
    → k < b.addr
    → Restores (end b) bs o
    → Restores k (b ∷ bs) (Option.map (keep b) o)
unfolding coalesce
keep-Restores k b bs none low r = tt
keep-Restores k b bs (some (c, rest)) low r =
    let step : insert c (b ∷ rest) ≡ b ∷ insert c rest =
      insert-behind c b rest (omega (arith, r.0)) in
    (
      omega (arith, r.0),
      (low, All-map rest (λ z h. omega arith) r.1),
      rw (step, coalesce_from-gap b (insert c rest) (insert-Above (end b) c rest r.0 r.1))
          (ap (λ l. b ∷ l) r.2),
      omega (arith, r.3),
    )

pub allocate-Restores :
    (k n : ℕ) (bs : List Block) → Gapped bs → Above k bs → Restores k bs (allocate n bs)
unfolding allocate
allocate-Restores k n [] g a = tt
allocate-Restores k n (b ∷ bs) g a = elim (Bool-cases (leb n b.size)) [
  | inl fits ↦ rw fits (carve-Restores k n b bs (leb→le n b.size fits) a.0 g)
  | inr misses ↦ rw misses (keep-Restores k b bs _ a.0 (allocate-Restores (end b) n bs g.1 g.0))
]

module _ (head : ℕ) (free used : List Block) (m : Memory) (heap : IsHeap head free used m) where
  free-of_Taken :
      (a : Option (Block × List Block)) (r : Option (ℕ × Memory)) (fuel : ℕ)
      → length free + 1 < fuel
      → Restores 0 free a
      → Allocates head free used m a r
      → (p : ℕ) × (m' m'' : Memory) × (r ≡ some (p, m'))
        × (kfree fuel head p m' ≡ some m'')
        × IsHeap head free used m''
  unfolding kfree
  free-of_Taken none r fuel enough back h = (0, m, m, h, refl, heap)
  free-of_Taken (some (c, rest)) r fuel enough back (m', e, taken) =
      let run = kfree-Freed head [] c used m' fuel rest taken.heap (omega (arith, back.3)) in
      (
        c.addr + 24,
        m',
        run.out,
        e,
        run.returns,
        subst (λ w. IsHeap head w used run.out) back.2 run.heap,
      )

  -- On a heap whose free list is in address order with no two blocks that touch, and with
  -- enough fuel, `kmalloc` of a
  -- positive size returns, `kfree` of what it returned returns, and the heap that is left has the
  -- free list and the allocated blocks of the start.
  pub kfree-kmalloc :
      (fuel size : ℕ)
      → length free + 1 < fuel
      → 0 < size
      → Gapped free
      → (p : ℕ) × (m' m'' : Memory) × (kmalloc fuel head size m ≡ some (p, m'))
        × (kfree fuel head p m' ≡ some m'')
        × IsHeap head free used m''
  kfree-kmalloc fuel size enough positive gapped =
      let n = align_up size in
      let low = All-map free (λ b f. positive_addr head b f) heap.fits in
      free-of_Taken (allocate n free) (kmalloc fuel head size m) fuel enough
        (allocate-Restores 0 n free gapped low)
        (kmalloc-Allocates head used m free fuel size heap (omega arith) positive)
    where
      positive_addr : (h : ℕ) (b : Block) → Fits h b → 0 < b.addr
      positive_addr h b f = f.1
