-- ===== src/Malloc/Free.antt =====
-- About `kfree` of root/orbit-kernel/util/malloc_freelist.c, insertion and joining.
use mathlib.Core.Path.{subst}
use mathlib.Core.List.{append-nil}
use relics.Prelude.{
  ℕ, ◌+◌, ◌<◌, ◌≡◌, ◌≢◌, ◌∙◌, sym, ap, refl, true, false, none, List, [], ◌∷◌, ◌++◌, Memory, ltb,
  ne→eqb, length, length-append, All, All-map, All-left, All-right, arith,
}
use relics.LinkedList.{Block, Apart, Off, first, last, prev, list_add_between, list_add_tail}
use relics.LinkedList.Delete.{Links-node, Links-last}
use relics.LinkedList.Insert.{Links-insert, list_add-other}
use relics.LinkedList.Frame.{ne-first, ne-last, Apart-symm}
use relics.Malloc.{Scan, hit, done, out_of_fuel, sub64, defrag_free_list, put_back, kfree}
use relics.Malloc.Spec.{insert, coalesce, Outside}
use relics.Malloc.State.{
  Fits, IsHeap, SameOutside, Disjoint-remove, Disjoint-insert, All-insert, All-remove, Tidy-ring,
  Off-of_Outside, Recorded-frame,
}
use relics.Malloc.Search.{Walk, none_passes, passes, find_above-Walk}
use relics.Malloc.Coalesce.{Freed, defrag-Freed}

module _ (head : ℕ) (us : List Block) (b : Block) (vs : List Block) (m : Memory) where
  module _ (xs ys : List Block) (heap : IsHeap head (xs ++ ys) (us ++ b ∷ vs) m) where
    abbrev linked : Memory
    linked = list_add_between b.addr (last head xs) (first ys head) m

    linked-SameOutside : SameOutside head (xs ++ b ∷ ys) m linked
    linked-SameOutside x nh np o =
        let out = All-remove (Outside x) xs b ys o in
        let off = All-map (xs ++ ys) (Off-of_Outside x) out.1 in
        list_add-other m b.addr (last head xs) (first ys head) x
          (ne-first x ys head np (All-right (Off x) xs ys off)) (omega (arith, out.0))
          (omega (arith, out.0)) (ne-last x head xs nh (All-left (Off x) xs ys off))

    linked-IsHeap : IsHeap head (xs ++ b ∷ ys) (us ++ vs) linked
    linked-IsHeap =
        let fits_used = All-remove (Fits head) us b vs heap.fits_used in
        let apart_used = Disjoint-remove us b vs heap.apart_used in
        let column =
          All-map (xs ++ ys) (λ f a. Apart-symm f b (All-remove (Apart f) us b vs a).0)
            heap.cross in
        let cross =
          All-insert (λ f. All (Apart f) (us ++ vs)) xs b ys apart_used.0
            (All-map (xs ++ ys) (λ f a. (All-remove (Apart f) us b vs a).1) heap.cross) in
        let fits = All-insert (Fits head) xs b ys fits_used.0 heap.fits in
        let apart = Disjoint-insert xs b ys column heap.apart in
        let recorded = All-remove (λ u. m (u.addr + 16) ≡ u.size) us b vs heap.recorded in
        record {
          ring =
              Links-insert m b recorded.0 head xs ys head (Tidy-ring head (xs ++ b ∷ ys) fits apart)
                heap.ring;
          fits = fits;
          apart = apart;
          fits_used = fits_used.1;
          apart_used = apart_used.1;
          cross = cross;
          recorded =
              Recorded-frame head (xs ++ b ∷ ys) (us ++ vs) m linked fits_used.1 cross
                linked-SameOutside recorded.1;
        }

    -- Linking and then joining.
    linked-Freed :
        (fuel : ℕ)
        → length (xs ++ b ∷ ys) < fuel
        → Freed head
            (xs ++ b ∷ ys)
            (us ++ vs)
            m
            (coalesce (xs ++ b ∷ ys))
            (defrag_free_list fuel head linked)
    linked-Freed fuel enough =
        let run = defrag-Freed head (us ++ vs) fuel (xs ++ b ∷ ys) linked linked-IsHeap enough in
        record {
          out = run.out;
          returns = run.returns;
          heap = run.heap;
          same = λ x nh np o. run.same x nh np o ∙ linked-SameOutside x nh np o;
        }

-- Where `insert` puts a block.
insert-at :
    (b : Block) (xs : List Block) (c : Block) (ys : List Block)
    → All (λ d. ltb b.addr d.addr ≡ false) xs
    → ltb b.addr c.addr ≡ true
    → insert b (xs ++ c ∷ ys) ≡ xs ++ b ∷ c ∷ ys
unfolding insert
insert-at b [] c ys a t = rw t
insert-at b (x ∷ xs) c ys a t = rw (a.0, insert-at b xs c ys a.1 t)

insert-end :
    (b : Block) (xs : List Block)
    → All (λ d. ltb b.addr d.addr ≡ false) xs
    → insert b xs ≡ xs ++ b ∷ []
unfolding insert
insert-end b [] a = refl
insert-end b (x ∷ xs) a = rw (a.0, insert-end b xs a.1)

module _ (head : ℕ) (us : List Block) (b : Block) (vs : List Block) (m : Memory) where
  found-Freed :
      (fuel : ℕ) (free : List Block) (r : Scan)
      → IsHeap head free (us ++ b ∷ vs) m
      → length free + 1 < fuel
      → Walk (λ c. ltb b.addr c.addr) free r
      → Freed head (insert b free) (us ++ vs) m (coalesce (insert b free)) (elim r [
        | out_of_fuel ↦ none
        | done ↦ defrag_free_list fuel head (list_add_tail b.addr head m)
        | hit above ↦ defrag_free_list fuel head (list_add_between b.addr (prev m above) above m)
      ])
  unfolding list_add_tail
  found-Freed fuel free out_of_fuel heap enough w = elim w [ ]
  found-Freed fuel free done heap enough (none_passes a) =
      let heap' = subst (λ w. IsHeap head w (us ++ b ∷ vs) m) (sym (append-nil free)) heap in
      rw (insert-end b free a, Links-last m head free head heap.ring)
        (linked-Freed head us b vs m free [] heap' fuel
          (omega (arith, length-append free (b ∷ []))))
  found-Freed fuel free (hit p) heap enough (passes xs c ys at e a t) =
      let heap' = subst (λ w. IsHeap head w (us ++ b ∷ vs) m) e heap in
      let node = Links-node m head xs c ys head heap'.ring in
      let size : length free ≡ length (xs ++ c ∷ ys) = ap length e in
      rw (e, at, insert-at b xs c ys a t, node.1)
        (linked-Freed head us b vs m xs (c ∷ ys) heap' fuel
          (omega (arith, size, length-append xs (c ∷ ys), length-append xs (b ∷ c ∷ ys))))

  put_back-Freed :
      (fuel : ℕ) (free : List Block)
      → IsHeap head free (us ++ b ∷ vs) m
      → length free + 1 < fuel
      → Freed head
          (insert b free)
          (us ++ vs)
          m
          (coalesce (insert b free))
          (put_back fuel head b.addr m)
  unfolding put_back
  put_back-Freed fuel free heap enough =
      let ne = All-map free (λ c f. ne_head head c f) heap.fits in
      let walk = find_above-Walk m head fuel b.addr head free (omega arith) ne heap.ring in
      found-Freed fuel free _ heap enough walk
    where
      ne_head : (h : ℕ) (c : Block) → Fits h c → c.addr ≢ h
      ne_head h c f = omega arith

  -- With enough fuel `kfree` of the pointer of an allocated block returns; the free list is the old
  -- one with the block inserted before the first higher address and neighbours joined, the block is
  -- no longer allocated, the heap invariant holds, and no word outside the free blocks, the freed
  -- block and the list head has changed.
  pub kfree-Freed :
      (fuel : ℕ) (free : List Block)
      → IsHeap head free (us ++ b ∷ vs) m
      → length free + 1 < fuel
      → Freed head
          (insert b free)
          (us ++ vs)
          m
          (coalesce (insert b free))
          (kfree fuel head (b.addr + 24) m)
  unfolding kfree
  kfree-Freed fuel free heap enough =
      let fits = All-remove (Fits head) us b vs heap.fits_used in
      let current : sub64 (b.addr + 24) 24 ≡ b.addr = omega (arith, fits.0) in
      rw (ne→eqb (b.addr + 24) 0 (omega arith), current) (put_back-Freed fuel free heap enough)
