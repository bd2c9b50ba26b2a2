-- ===== src/Malloc/Merge.antt =====
-- About one join of `defrag_free_list`, root/orbit-kernel/util/malloc_freelist.c.
use relics.Prelude.{
  ℕ, ◌+◌, ◌≡◌, ◌≢◌, fun_ext, List, ◌∷◌, ◌++◌, Memory, write, u64, All, All-both, All-map, All-right,
  arith,
}
use relics.LinkedList.{Block, Off, Apart, list_del, list_del_between}
use relics.LinkedList.Delete.{Links-node, Links-node_after, Links-delete_after, list_del-miss}
use relics.LinkedList.Frame.{Off-size, ne-first}
use relics.LinkedList.Insert.{Links-resize}
use relics.Malloc.{size_of, set_size, header_size}
use relics.Malloc.Spec.{join, end, Outside, Disjoint}
use relics.Malloc.State.{
  Fits, IsHeap, SameOutside, Disjoint-remove, Disjoint-insert, All-insert, All-remove, Tidy-ring,
  Off-of_Outside, Recorded-frame,
}

-- A store that `list_del` neither reads nor hits may be done after it.
list_del-write :
    (m : Memory) (c a v : ℕ)
    → a ≢ c
    → a ≢ c + 8
    → a ≢ m c + 8
    → a ≢ m (c + 8)
    → list_del c (write m a v) ≡ write (list_del c m) a v
unfolding list_del list_del_between
list_del-write m c a v n0 n1 n2 n3 = fun_ext (λ x. ground arith)

-- The store of the joined size and the removal of the neighbour, as `defrag_loop` does them.
abbrev pub merged : Memory → Block → Block → Memory
merged m l c =
    list_del c.addr
      (set_size m l.addr (u64 (size_of m l.addr + u64 (header_size + size_of m c.addr))))

module _ (head : ℕ) (used : List Block) (m : Memory) (xs : List Block) (l c : Block)
    (ys : List Block) (heap : IsHeap head (xs ++ l ∷ c ∷ ys) used m) (meet : end l ≡ c.addr) where
  -- Both blocks are apart from the others, and the list without the second one.
  pair-Apart : Apart l c × All (Apart l) (xs ++ ys) × All (Apart c) (xs ++ ys) × Disjoint (xs ++ ys)
  pair-Apart =
      let al = Disjoint-remove xs l (c ∷ ys) heap.apart in
      let ac = Disjoint-remove xs c ys al.1 in
      let alc = All-remove (Apart l) xs c ys al.0 in (alc.0, alc.1, ac.0, ac.1)

  pair-Fits : Fits head l × Fits head c × All (Fits head) (xs ++ ys)
  pair-Fits =
      let fl = All-remove (Fits head) xs l (c ∷ ys) heap.fits in
      let fc = All-remove (Fits head) xs c ys fl.1 in (fl.0, fc.0, fc.1)

  merged-eq : merged m l c ≡ write (list_del c.addr m) (l.addr + 16) (join l c).size
  merged-eq =
      let node = Links-node_after m head xs l c ys head heap.ring in
      let own = Links-node m head xs l (c ∷ ys) head heap.ring in
      let apart = pair-Apart in
      let fits = pair-Fits in
      let off = All-map (xs ++ ys) (Off-size l) apart.1 in
      let nf =
        ne-first (l.addr + 16) ys head (omega (arith, fits.0))
          (All-right (Off (l.addr + 16)) xs ys off) in
      let total : u64 (l.size + u64 (24 + c.size)) ≡ l.size + (24 + c.size) =
        omega (arith, fits.0, fits.1) in
      rw (own.2, node.2, total)
        (list_del-write m c.addr (l.addr + 16) (join l c).size (omega (arith, apart.0))
          (omega (arith, apart.0)) (rw node.0 nf) (rw node.1 (omega arith)))

  pub merged-SameOutside : SameOutside head (xs ++ l ∷ c ∷ ys) m (merged m l c)
  merged-SameOutside x nh np o =
      let node = Links-node_after m head xs l c ys head heap.ring in
      let ol = All-remove (Outside x) xs l (c ∷ ys) o in
      let oc = All-remove (Outside x) xs c ys ol.1 in
      let oy = All-map ys (Off-of_Outside x) (All-right (Outside x) xs ys oc.1) in
      let nf = ne-first x ys head np oy in
      let miss =
        list_del-miss m c.addr x (omega (arith, oc.0)) (omega (arith, oc.0)) (rw node.0 nf)
          (rw node.1 (omega (arith, ol.0))) in
      let ne : x ≢ l.addr + 16 = omega (arith, ol.0) in rw merged-eq (ground (arith, miss))

  pub merged-IsHeap : IsHeap head (xs ++ join l c ∷ ys) used (merged m l c)
  merged-IsHeap =
      let apart = pair-Apart in
      let fits = pair-Fits in
      let cl = All-remove (λ f. All (Apart f) used) xs l (c ∷ ys) heap.cross in
      let cc' = All-remove (λ f. All (Apart f) used) xs c ys cl.1 in
      let tidy = Tidy-ring head (xs ++ l ∷ c ∷ ys) heap.fits heap.apart in
      let tidy' =
        Tidy-ring head (xs ++ l ∷ ys) (All-insert (Fits head) xs l ys fits.0 fits.2)
          (Disjoint-insert xs l ys apart.1 apart.3) in
      record {
        ring = rw merged-eq (
            Links-resize (list_del c.addr m) (join l c).size head xs l ys head tidy'
              (Links-delete_after m head xs l c ys head heap.ring tidy));
        fits = All-insert (Fits head) xs (join l c) ys (omega (arith, fits.0, fits.1)) fits.2;
        apart =
            Disjoint-insert xs (join l c) ys
              (All-both (xs ++ ys) (λ z a b. omega arith) apart.1 apart.2) apart.3;
        fits_used = heap.fits_used;
        apart_used = heap.apart_used;
        cross =
            All-insert (λ f. All (Apart f) used) xs (join l c) ys
              (All-both used (λ z a b. omega arith) cl.0 cc'.0) cc'.1;
        recorded =
            Recorded-frame head (xs ++ l ∷ c ∷ ys) used m _ heap.fits_used heap.cross
              merged-SameOutside heap.recorded;
      }
