-- ===== src/Malloc/Conserved.antt =====
-- About the bytes that first fit of root/orbit-kernel/util/malloc_freelist.c leaves.
use relics.Prelude.{
  ℕ, ◌+◌, ◌-◌, ◌*◌, ◌≤◌, ◌≡◌, inl, inr, refl, Option, none, some, Bool-cases, leb, leb→le, List, [],
  ◌∷◌, ◌++◌, length, arith,
}
use mathlib.Core.Option
use mathlib.Core.Option.{some-injective}
use relics.LinkedList.{Block}
use relics.Malloc.Spec.{carve, keep, allocate}
use relics.Malloc.Order.{total}

-- What first fit returns and what it leaves have all the bytes.
abbrev pub Conserves : List Block → Option (Block × List Block) → Type 0
Conserves bs none = Unit
Conserves bs (some r) = total r.1 + 24 + r.0.size ≡ total bs

carve-Conserves :
    (n : ℕ) (b : Block) (bs : List Block) → n ≤ b.size → Conserves (b ∷ bs) (some (carve n b bs))
unfolding carve
carve-Conserves n b bs le = elim (Bool-cases (leb 56 (b.size - n))) [
  | inl big ↦
      let room : n + 56 ≤ b.size = omega (arith, leb→le 56 (b.size - n) big) in
      rw big (omega (arith, room))
  | inr small ↦ rw small (omega arith)
]

keep-Conserves :
    (b : Block) (bs : List Block) (r : Option (Block × List Block))
    → Conserves bs r
    → Conserves (b ∷ bs) (Option.map (keep b) r)
keep-Conserves b bs none h = tt
keep-Conserves b bs (some r) h = omega arith

pub allocate-Conserves : (n : ℕ) (bs : List Block) → Conserves bs (allocate n bs)
unfolding allocate
allocate-Conserves n [] = tt
allocate-Conserves n (b ∷ bs) = elim (Bool-cases (leb n b.size)) [
  | inl fits ↦ rw fits (carve-Conserves n b bs (leb→le n b.size fits))
  | inr misses ↦ rw misses (keep-Conserves b bs (allocate n bs) (allocate-Conserves n bs))
]

pub total-of_append :
    (us : List Block) (b : Block) (vs : List Block)
    → total (us ++ b ∷ vs) ≡ 24 + b.size + total (us ++ vs)
total-of_append [] b vs = refl
total-of_append (u ∷ us) b vs = omega (arith, total-of_append us b vs)

pub length-total : (bs : List Block) → 24 * length bs ≤ total bs
length-total [] = omega arith
length-total (b ∷ bs) = omega (arith, length-total bs)
