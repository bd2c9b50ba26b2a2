-- ===== src/Malloc/Payload.antt =====
-- About what a caller writes to the payload of a block that it holds.
use relics.Prelude.{ℕ, ◌+◌, ◌≤◌, ◌≢◌, List, ◌∷◌, ◌++◌, Memory, write, All, All-map, All-both, arith}
use relics.LinkedList.{Block, Apart, Off}
use relics.LinkedList.Frame.{Links-write, Unread-of_Off}
use relics.Malloc.Spec.{end}
use relics.Malloc.State.{
  Fits, IsHeap, Recorded, All-insert, All-remove, Disjoint-remove, Off-of_Outside, Outside-of_Apart,
}

Recorded-write :
    (m : Memory) (x v : ℕ) (b : Block) → x ≢ b.addr + 16 → Recorded m b → Recorded (write m x v) b
Recorded-write m x v b ne h = ground arith

-- A word of the payload of a held block is no word that the heap depends on.
pub payload-IsHeap :
    (head : ℕ) (free us : List Block) (b : Block) (vs : List Block) (m : Memory) (x v : ℕ)
    → b.addr + 24 ≤ x
    → x + 8 ≤ end b
    → IsHeap head free (us ++ b ∷ vs) m
    → IsHeap head free (us ++ b ∷ vs) (write m x v)
payload-IsHeap head free us b vs m x v lo hi heap =
    let fits = All-remove (Fits head) us b vs heap.fits_used in
    let apart = Disjoint-remove us b vs heap.apart_used in
    let recorded = All-remove (Recorded m) us b vs heap.recorded in
    let off : All (Off x) free =
      All-map free
        (λ f a.
          Off-of_Outside x f
            (Outside-of_Apart x f b (All-remove (Apart f) us b vs a).0 (omega arith) (omega arith)))
        heap.cross in
    let unread =
      Unread-of_Off x head free head (omega (arith, fits.0)) (omega (arith, fits.0)) off in
    record {
      ring = Links-write m x v head free head unread heap.ring;
      fits = heap.fits;
      apart = heap.apart;
      fits_used = heap.fits_used;
      apart_used = heap.apart_used;
      cross = heap.cross;
      recorded =
          All-insert (Recorded (write m x v)) us b vs
            (Recorded-write m x v b (omega arith) recorded.0)
            (All-both (us ++ vs) (λ u a r. Recorded-write m x v u (omega (arith, a)) r) apart.0
              recorded.1);
    }
