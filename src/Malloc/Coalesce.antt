-- ===== src/Malloc/Coalesce.antt =====
-- About `defrag_free_list` of root/orbit-kernel/util/malloc_freelist.c and `coalesce`.
use mathlib.Core.Path.{subst, subst₂}
use mathlib.Core.List.{append_assoc}
use relics.Prelude.{
  ℕ, zero, suc, ◌+◌, ◌<◌, ◌≡◌, ◌∙◌, sym, refl, inl, inr, Option, some, List, [], ◌∷◌, ◌++◌, ◌&&◌,
  not, Memory, u64, ◌==◌, Bool-cases, eqb→eq, eq→eqb, ne→eqb, length, All, arith,
}
use relics.LinkedList.{Block, first}
use relics.LinkedList.Delete.{Links-node, Links-node_after}
use relics.Malloc.{size_of, header_size, defrag_loop, defrag_free_list}
use relics.Malloc.Spec.{join, end, coalesce_from, coalesce, Outside}
use relics.Malloc.State.{Fits, IsHeap, SameOutside, All-insert, All-remove}
use relics.Malloc.Merge.{merged, merged-IsHeap, merged-SameOutside}

-- The run returned, and turned the free list into the given one.
pub record Freed (head : ℕ) (free used : List Block) (m : Memory) (rest : List Block)
    (r : Option Memory) : Type 0 where
  pub out : Memory
  pub returns : r ≡ some out
  pub heap : IsHeap head rest used out
  pub same : SameOutside head free m out

module _ (head : ℕ) (used : List Block) where
  -- An address outside two blocks that meet is outside their union.
  Outside-join :
      (x : ℕ) (xs : List Block) (l c : Block) (ys : List Block)
      → end l ≡ c.addr
      → All (Outside x) (xs ++ l ∷ c ∷ ys)
      → All (Outside x) (xs ++ join l c ∷ ys)
  Outside-join x xs l c ys meet o =
      let ol = All-remove (Outside x) xs l (c ∷ ys) o in
      let oc = All-remove (Outside x) xs c ys ol.1 in
      All-insert (Outside x) xs (join l c) ys (omega (arith, ol.0, oc.0)) oc.1

  -- The test of the loop, on blocks that fit.
  meet-test :
      (m : Memory) (l c : Block)
      → size_of m l.addr ≡ l.size
      → Fits head l
      → Fits head c
      → (not (l.addr == 0) && u64 (l.addr + header_size + size_of m l.addr) == c.addr)
        ≡ (end l == c.addr)
  meet-test m l c size fl fc = rw (size, ne→eqb l.addr 0 (omega (arith, fl.1))) (ground arith)

  pub defrag_loop-Freed :
      (fuel : ℕ) (xs : List Block) (l : Block) (rest : List Block) (m : Memory)
      → IsHeap head (xs ++ l ∷ rest) used m
      → length rest < fuel
      → Freed head
          (xs ++ l ∷ rest)
          used
          m
          (xs ++ coalesce_from l rest)
          (defrag_loop fuel head (first rest head) (m (first rest head)) l.addr m)
  unfolding defrag_loop coalesce_from
  defrag_loop-Freed zero xs l rest m heap enough = absurd (omega arith)
  defrag_loop-Freed (suc fuel) xs l [] m heap enough =
      rw (eq→eqb head head refl)
        (record { out = m; returns = refl; heap = heap; same = λ x nh np o. refl })
  defrag_loop-Freed (suc fuel) xs l (c ∷ cs) m heap enough =
      let node = Links-node_after m head xs l c cs head heap.ring in
      let own = Links-node m head xs l (c ∷ cs) head heap.ring in
      let fl = All-remove (Fits head) xs l (c ∷ cs) heap.fits in
      let fc = All-remove (Fits head) xs c cs fl.1 in
      let test = meet-test m l c own.2 fl.0 fc.0 in
      rw (ne→eqb c.addr head (omega (arith, fc.0)), test)
        (elim (Bool-cases (end l == c.addr)) [
          | inl yes_meet ↦
              let meet = eqb→eq (end l) c.addr yes_meet in
              let heap' = merged-IsHeap head used m xs l c cs heap meet in
              let ih = defrag_loop-Freed fuel xs (join l c) cs (merged m l c) heap' (omega arith) in
              rw (yes_meet, node.0)
                (record {
                  out = ih.out;
                  returns = ih.returns;
                  heap = ih.heap;
                  same = λ x nh np o.
                      ih.same x nh np (Outside-join x xs l c cs meet o)
                      ∙ merged-SameOutside head used m xs l c cs heap meet x nh np o;
                })
          | inr no_meet ↦
              let e = append_assoc xs (l ∷ []) (c ∷ cs) in
              let e' = append_assoc xs (l ∷ []) (coalesce_from c cs) in
              let heap' = subst (λ w. IsHeap head w used m) (sym e) heap in
              let ih = defrag_loop-Freed fuel (xs ++ l ∷ []) c cs m heap' (omega arith) in
              rw (no_meet, node.0)
                (subst₂
                  (λ w z.
                    Freed head w used m z
                      (defrag_loop fuel head (first cs head) (m (first cs head)) c.addr m))
                  e e' ih)
        ])

  -- On a heap, with more fuel than free blocks, `defrag_free_list` returns; each free block has
  -- taken in the following ones as long as they begin where it ends, the heap invariant holds with
  -- the same allocated blocks, and no word outside the free blocks and the list head has changed.
  pub defrag-Freed :
      (fuel : ℕ) (bs : List Block) (m : Memory)
      → IsHeap head bs used m
      → length bs < fuel
      → Freed head bs used m (coalesce bs) (defrag_free_list fuel head m)
  unfolding defrag_free_list coalesce defrag_loop
  defrag-Freed zero bs m heap enough = absurd (omega arith)
  defrag-Freed (suc fuel) [] m heap enough =
      rw (heap.ring.0, eq→eqb head head refl)
        (record { out = m; returns = refl; heap = heap; same = λ x nh np o. refl })
  defrag-Freed (suc fuel) (b ∷ bs) m heap enough =
      rw (heap.ring.0, ne→eqb b.addr head (omega (arith, heap.fits.0)))
        (rw (Links-node m head [] b bs head heap.ring).0
          (defrag_loop-Freed fuel [] b bs m heap (omega arith)))
