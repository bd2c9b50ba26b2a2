-- ===== src/Malloc/Take.antt =====
-- Taking a block out of the free list of a heap: whole, or after cutting it in two.
use relics.Prelude.{
  ℕ, ◌+◌, ◌-◌, ◌%◌, ◌≤◌, ◌≡◌, ◌∙◌, List, ◌∷◌, ◌++◌, Memory, All, All-map, All-left, All-right,
  arith,
}
use relics.LinkedList.{Block, block, Ring, Off, Apart, first, list_del, list_add_between}
use relics.LinkedList.Delete.{Links-delete, Links-delete-other, Links-node}
use relics.LinkedList.Frame.{Off-size, Apart-symm, Links-write, Unread-of_Off, ne-first}
use relics.LinkedList.Insert.{Links-resize, Links-insert_after, list_add-other}
use relics.Malloc.{set_size}
use relics.Malloc.Spec.{Outside}
use relics.Malloc.State.{
  Fits, IsHeap, SameOutside, Disjoint-remove, Disjoint-insert, Outside-of_Apart, All-insert,
  All-remove, Tidy-ring, Off-of_Outside, cross-cons, Recorded-frame,
}

-- What holds after block c has been taken from the free list of a heap.
pub record Taken (head : ℕ) (free used : List Block) (m : Memory) (c : Block) (rest : List Block)
    (m' : Memory) : Type 0 where
  pub heap : IsHeap head rest (c ∷ used) m'
  pub same : SameOutside head free m m'

module _ (head : ℕ) (used : List Block) (m : Memory) (xs : List Block) (b : Block) (ys : List Block)
    (heap : IsHeap head (xs ++ b ∷ ys) used m) where
  pub take_whole : Taken head (xs ++ b ∷ ys) used m b (xs ++ ys) (list_del b.addr m)
  take_whole =
      let tidy = Tidy-ring head (xs ++ b ∷ ys) heap.fits heap.apart in
      let fits = All-remove (Fits head) xs b ys heap.fits in
      let apart = Disjoint-remove xs b ys heap.apart in
      let cross = All-remove (λ f. All (Apart f) used) xs b ys heap.cross in
      let ring = heap.ring in
      let sizes = All-map (xs ++ ys) (Off-size b) apart.0 in
      let same : SameOutside head (xs ++ b ∷ ys) m (list_del b.addr m) = λ x nh np o.
        let out = All-map (xs ++ b ∷ ys) (Off-of_Outside x) o in
        let ob = All-right (Off x) xs (b ∷ ys) out in
        Links-delete-other m b x head xs ys head ring nh np ob.0.0 ob.0.1
          (All-left (Off x) xs (b ∷ ys) out) ob.1 in
      record {
        heap = record {
          ring = Links-delete m b head xs ys head tidy ring;
          fits = fits.1;
          apart = apart.1;
          fits_used = (fits.0, heap.fits_used);
          apart_used = (cross.0, heap.apart_used);
          cross = cross-cons b used (xs ++ ys) (All-map (xs ++ ys) (Apart-symm b) apart.0) cross.1;
          recorded = (
            Links-delete-other m b (b.addr + 16) head xs ys head ring (omega (arith, fits.0))
                  (omega (arith, fits.0)) (omega arith) (omega arith)
                  (All-left (Off (b.addr + 16)) xs ys sizes)
                  (All-right (Off (b.addr + 16)) xs ys sizes)
                ∙ (Links-node m head xs b ys head ring).2,
            Recorded-frame head (xs ++ b ∷ ys) used m _ heap.fits_used heap.cross same
                heap.recorded,
          );
        };
        same = same;
      }

  module _ (n : ℕ) (aligned : n % 8 ≡ 0) (room : n + 56 ≤ b.size) where
    abbrev pub head_part : Block
    head_part = block b.addr n

    abbrev pub tail_part : Block
    tail_part = block (b.addr + 24 + n) (b.size - n - 24)

    -- The two stores of sizes.
    abbrev pub sized : Memory
    sized = set_size (set_size m tail_part.addr tail_part.size) b.addr n

    abbrev pub divided : Memory
    divided = list_add_between tail_part.addr b.addr (first ys head) sized

    pub sized-Ring : Ring sized head (xs ++ head_part ∷ ys)
    sized-Ring =
        let tidy = Tidy-ring head (xs ++ b ∷ ys) heap.fits heap.apart in
        let fits = All-remove (Fits head) xs b ys heap.fits in
        let apart = Disjoint-remove xs b ys heap.apart in
        let x = tail_part.addr + 16 in
        let off : All (Off x) (xs ++ b ∷ ys) = All-insert (Off x) xs b ys (omega arith) (
          All-map (xs ++ ys)
            (λ z a.
              Off-of_Outside x z
                (Outside-of_Apart x z b (Apart-symm b z a) (omega arith) (omega arith)))
            apart.0) in
        Links-resize _ n head xs b ys head tidy (
          Links-write m x tail_part.size head (xs ++ b ∷ ys) head
            (Unread-of_Off x head (xs ++ b ∷ ys) head (omega (arith, fits.0))
              (omega (arith, fits.0)) off)
            heap.ring)

    pub divided-SameOutside : SameOutside head (xs ++ b ∷ ys) m divided
    divided-SameOutside x nh np o =
        let ob = All-remove (Outside x) xs b ys o in
        let oy = All-map ys (Off-of_Outside x) (All-right (Outside x) xs ys ob.1) in
        let out = ob.0 in
        list_add-other sized tail_part.addr b.addr (first ys head) x (ne-first x ys head np oy)
          (omega arith) (omega arith) (omega arith)
        ∙ ground arith

    pub divided-IsHeap : IsHeap head (xs ++ head_part ∷ tail_part ∷ ys) used divided
    divided-IsHeap =
        let fits = All-remove (Fits head) xs b ys heap.fits in
        let apart = Disjoint-remove xs b ys heap.apart in
        let cross = All-remove (λ f. All (Apart f) used) xs b ys heap.cross in
        let fits' =
          All-insert (Fits head) xs head_part (tail_part ∷ ys) (omega (arith, fits.0))
            (All-insert (Fits head) xs tail_part ys (omega (arith, fits.0)) fits.1) in
        let apart' =
          Disjoint-insert xs head_part (tail_part ∷ ys)
            (All-insert (Apart head_part) xs tail_part ys (omega arith)
              (All-map (xs ++ ys) (λ z a. omega arith) apart.0))
            (Disjoint-insert xs tail_part ys (All-map (xs ++ ys) (λ z a. omega arith) apart.0)
              apart.1) in
        record {
          ring =
              Links-insert_after sized tail_part head xs head_part ys head (ground arith)
                (Tidy-ring head (xs ++ head_part ∷ tail_part ∷ ys) fits' apart') sized-Ring;
          fits = fits';
          apart = apart';
          fits_used = heap.fits_used;
          apart_used = heap.apart_used;
          cross =
              All-insert (λ f. All (Apart f) used) xs head_part (tail_part ∷ ys)
                (All-map used (λ z a. omega arith) cross.0)
                (All-insert (λ f. All (Apart f) used) xs tail_part ys
                  (All-map used (λ z a. omega arith) cross.0) cross.1);
          recorded =
              Recorded-frame head (xs ++ b ∷ ys) used m divided heap.fits_used heap.cross
                divided-SameOutside heap.recorded;
        }
