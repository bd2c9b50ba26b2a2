-- ===== src/Malloc/History.antt =====
-- About the histories of a heap of root/orbit-kernel/util/malloc_freelist.c: calls of `kmalloc`, of
-- `kfree` on pointers that are held, and writes to held payloads, in any order.
use relics.Prelude.{
  ℕ, zero, suc, ◌+◌, ◌-◌, ◌*◌, ◌≤◌, ◌<◌, ◌≡◌, ◌≢◌, ◌∙◌, ap, ap₂, sym, refl, Option, none, some,
  List, ◌∷◌, ◌++◌, length, Memory, write, arith,
}
use mathlib.Core.Option.{some-injective}
use mathlib.Core.Path.{subst}
use relics.LinkedList.{Block, block}
use relics.Malloc.{align_up, kmalloc, kfree}
use relics.Malloc.Spec.{allocate, insert, coalesce, end}
use relics.Malloc.Conserved.{Conserves, allocate-Conserves, total-of_append, length-total}
use relics.Malloc.Payload.{payload-IsHeap}
use relics.Malloc.State.{IsHeap}
use relics.Malloc.Alloc.{Allocates, kmalloc-Allocates}
use relics.Malloc.Order.{total, total-coalesce}
use relics.Malloc.Free.{kfree-Freed}
use relics.Malloc.Defragmented.{total-insert}

-- The memory, and the blocks that the callers hold.
pub record Arena : Type 0 where
  pub used : List Block
  pub memory : Memory

-- The block in front of a pointer, with the size that its header holds.
abbrev pub block_of : (p : ℕ) → Memory → Block
block_of p m = block (p - 24) (m (p - 8))

-- A call that returned: a pointer, NULL, or a pointer that was given back; or a caller's write.
pub data Step (head fuel : ℕ) : Arena → Arena → Type 0 where
  allocates :
      {a : Arena} (size p : ℕ) (m : Memory)
      → p ≢ 0
      → kmalloc fuel head size a.memory ≡ some (p, m)
      → Step head fuel a (record { used = block_of p m ∷ a.used; memory = m })
  fails :
      {a : Arena} (size : ℕ) (m : Memory)
      → kmalloc fuel head size a.memory ≡ some (0, m)
      → Step head fuel a (record { used = a.used; memory = m })
  releases :
      (us vs : List Block) (b : Block) (m m' : Memory)
      → kfree fuel head (b.addr + 24) m ≡ some m'
      → Step head fuel
          (record { used = us ++ b ∷ vs; memory = m })
          (record { used = us ++ vs; memory = m' })
  -- A caller writes a word of the payload of a block that it holds.
  writes :
      (us vs : List Block) (b : Block) (m : Memory) (x v : ℕ)
      → b.addr + 24 ≤ x
      → x + 8 ≤ end b
      → Step head fuel
          (record { used = us ++ b ∷ vs; memory = m })
          (record { used = us ++ b ∷ vs; memory = write m x v })

pub data Reach (head fuel : ℕ) (a : Arena) : Arena → Type 0 where
  here : Reach head fuel a a
  next : {b c : Arena} → Reach head fuel a b → Step head fuel b c → Reach head fuel a c

-- A heap with so many bytes in its free and its allocated blocks.
pub record Sound (head bytes : ℕ) (a : Arena) : Type 0 where
  pub free : List Block
  pub heap : IsHeap head free a.used a.memory
  pub conserved : total free + total a.used ≡ bytes

block_of-pointer :
    (c : Block) (m : Memory) → m (c.addr + 16) ≡ c.size → block_of (c.addr + 24) m ≡ c
block_of-pointer c m h =
    let at : c.addr + 24 - 24 ≡ c.addr = omega arith in
    let field : c.addr + 24 - 8 ≡ c.addr + 16 = omega arith in ap₂ block at (ap m field ∙ h)

kmalloc-zero : (fuel head : ℕ) (m : Memory) → kmalloc fuel head 0 m ≡ some (0, m)
unfolding kmalloc
kmalloc-zero fuel head m = refl

module _ (head fuel bytes : ℕ) (enough : bytes + 24 < 24 * fuel) where
  -- A heap of so many bytes has fewer free blocks than the fuel.
  free-fuel : (a : Arena) (s : Sound head bytes a) → length s.free + 1 < fuel
  free-fuel a s = omega (arith, enough, length-total s.free, s.conserved)

  allocated-Sound :
      (a : Arena) (s : Sound head bytes a) (o : Option (Block × List Block))
      (r : Option (ℕ × Memory)) (p : ℕ) (m : Memory)
      → Conserves s.free o
      → Allocates head s.free a.used a.memory o r
      → r ≡ some (p, m)
      → p ≢ 0
      → Sound head bytes (record { used = block_of p m ∷ a.used; memory = m })
  allocated-Sound a s none r p m k h e ne =
      absurd (ne (sym (ap (λ w. w.0) (some-injective (0, a.memory) (p, m) (sym h ∙ e)))))
  allocated-Sound a s (some (c, rest)) r p m k (m', h, taken) e ne =
      subst (λ w. Sound head bytes (record { used = block_of w.0 w.1 ∷ a.used; memory = w.1 }))
        (some-injective (c.addr + 24, m') (p, m) (sym h ∙ e))
        (rw (block_of-pointer c m' taken.heap.recorded.0)
          (record { free = rest; heap = taken.heap; conserved = omega (arith, k, s.conserved) }))

  failed-Sound :
      (a : Arena) (s : Sound head bytes a) (o : Option (Block × List Block))
      (r : Option (ℕ × Memory)) (m : Memory)
      → Allocates head s.free a.used a.memory o r
      → r ≡ some (0, m)
      → Sound head bytes (record { used = a.used; memory = m })
  failed-Sound a s none r m h e =
      subst (λ w. Sound head bytes (record { used = a.used; memory = w.1 }))
        (some-injective (0, a.memory) (0, m) (sym h ∙ e)) s
  failed-Sound a s (some (c, rest)) r m (m', h, taken) e =
      let zero_address : c.addr + 24 ≡ 0 =
        ap (λ w. w.0) (some-injective (c.addr + 24, m') (0, m) (sym h ∙ e)) in
      absurd (omega (arith, zero_address))

  -- What first fit does for a request; a request of no bytes gets NULL.
  kmalloc-outcome :
      (a : Arena) (s : Sound head bytes a) (size : ℕ)
      → (o : Option (Block × List Block)) × Conserves s.free o
        × Allocates head s.free a.used a.memory o (kmalloc fuel head size a.memory)
  kmalloc-outcome a s zero = (none, tt, kmalloc-zero fuel head a.memory)
  kmalloc-outcome a s (suc k) =
      let n = align_up (suc k) in
      (
        allocate n s.free,
        allocate-Conserves n s.free,
        kmalloc-Allocates head a.used a.memory s.free fuel (suc k) s.heap
            (omega (arith, free-fuel a s)) (omega arith),
      )

  Step-Sound : (a b : Arena) → Sound head bytes a → Step head fuel a b → Sound head bytes b
  Step-Sound a _ s (allocates size p m ne e) =
      let (o, kept, out) = kmalloc-outcome a s size in allocated-Sound a s o _ p m kept out e ne
  Step-Sound a _ s (fails size m e) =
      let (o, kept, out) = kmalloc-outcome a s size in failed-Sound a s o _ m out e
  Step-Sound _ _ s (releases us vs b m m' e) =
      let freed = kfree-Freed head us b vs m fuel s.free s.heap (free-fuel _ s) in
      let same : freed.out ≡ m' = some-injective freed.out m' (sym freed.returns ∙ e) in
      record {
        free = coalesce (insert b s.free);
        heap = subst (λ w. IsHeap head (coalesce (insert b s.free)) (us ++ vs) w) same freed.heap;
        conserved = omega (
          arith,
          total-coalesce (insert b s.free),
          total-insert b s.free,
          total-of_append us b vs,
          s.conserved,
        );
      }
  Step-Sound _ _ s (writes us vs b m x v lo hi) = record {
    free = s.free;
    heap = payload-IsHeap head s.free us b vs m x v lo hi s.heap;
    conserved = s.conserved;
  }

  -- From any heap, any sequence of calls of `kmalloc`, of `kfree` on pointers that are held and of
  -- writes to held payloads leaves a heap: the held and the free blocks are disjoint, aligned and in
  -- range, and the bytes of all blocks, headers included, are as many as at the start. The fuel is
  -- more than one more than a 24th of the bytes.
  pub Reach-Sound : (a b : Arena) → Sound head bytes a → Reach head fuel a b → Sound head bytes b
  Reach-Sound a _ s here = s
  Reach-Sound a _ s (next {b = b} {c = c} run step) = Step-Sound b c (Reach-Sound a b s run) step

  returned :
      (o : Option (Block × List Block)) (free used : List Block) (m : Memory)
      (r : Option (ℕ × Memory))
      → Allocates head free used m o r
      → (p : ℕ) × (m' : Memory) × (r ≡ some (p, m'))
  returned none free used m r h = (0, m, h)
  returned (some (c, rest)) free used m r (m', h, taken) = (c.addr + 24, m', h)

  -- From any heap, after any sequence of calls of `kmalloc`, of `kfree` on pointers that are held
  -- and of writes to held payloads, every further `kmalloc` returns, and so does `kfree` of every
  -- block that is held. The fuel is more than one more than a 24th of the heap's bytes.
  pub Reach-returns :
      (a b : Arena)
      → Sound head bytes a
      → Reach head fuel a b
      → ((size : ℕ) → (p : ℕ) × (m : Memory) × (kmalloc fuel head size b.memory ≡ some (p, m)))
        × ((us vs : List Block) (c : Block)
            → b.used ≡ us ++ c ∷ vs
            → (m : Memory) × (kfree fuel head (c.addr + 24) b.memory ≡ some m))
  Reach-returns a b s run =
      let t = Reach-Sound a b s run in
      (
        λ size.
            let (o, kept, out) = kmalloc-outcome b t size in
            returned o t.free b.used b.memory _ out,
        λ us vs c e.
            let heap = subst (λ w. IsHeap head t.free w b.memory) e t.heap in
            let freed = kfree-Freed head us c vs b.memory fuel t.free heap (free-fuel b t) in
            (freed.out, freed.returns),
      )
