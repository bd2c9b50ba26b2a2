-- ===== src/Malloc/Search.antt =====
-- About the two walks of the allocator, root/orbit-kernel/util/malloc_freelist.c.
use relics.Prelude.{
  ℕ, zero, suc, ◌<◌, ◌≡◌, ◌≢◌, ap, refl, Bool, true, false, inl, inr, List, [], ◌∷◌, ◌++◌, Memory,
  ltb, leb, Bool-cases, eq→eqb, ne→eqb, length, All, arith,
}
use relics.LinkedList.{Block, Links}
use relics.Malloc.{Scan, hit, done, find_fit, find_above}

-- How a walk over the blocks ends, for a test: at the first block that passes, or at the end.
pub data Walk (test : Block → Bool) (bs : List Block) : Scan → Type 0 where
  none_passes : All (λ b. test b ≡ false) bs → Walk test bs done
  passes :
      {a : ℕ} (xs : List Block) (b : Block) (ys : List Block)
      → a ≡ b.addr
      → bs ≡ xs ++ b ∷ ys
      → All (λ c. test c ≡ false) xs
      → test b ≡ true
      → Walk test bs (hit a)

Walk-cons :
    {test : Block → Bool} {b : Block} {bs : List Block} {r : Scan}
    → test b ≡ false
    → Walk test bs r
    → Walk test (b ∷ bs) r
Walk-cons f (none_passes a) = none_passes (f, a)
Walk-cons {b} f (passes xs c ys at e a t) = passes (b ∷ xs) c ys at (ap (λ l. b ∷ l) e) (f, a) t

module _ (m : Memory) (head : ℕ) where
  pub find_fit-Walk :
      (fuel n p : ℕ) (bs : List Block)
      → length bs < fuel
      → All (λ b. b.addr ≢ head) bs
      → Links m p bs head
      → Walk (λ b. leb n b.size) bs (find_fit fuel head n (m p) m)
  unfolding find_fit
  find_fit-Walk zero n p bs h a l = absurd (omega arith)
  find_fit-Walk (suc fuel) n p [] h a l = rw (l.0, eq→eqb head head refl) (none_passes tt)
  find_fit-Walk (suc fuel) n p (b ∷ bs) h a l =
      rw (l.0, ne→eqb b.addr head a.0, l.2)
        (elim (Bool-cases (leb n b.size)) [
          | inl t ↦ rw t (passes [] b bs refl refl tt t)
          | inr f ↦ rw f (Walk-cons f (find_fit-Walk fuel n b.addr bs (omega arith) a.1 l.3))
        ])

  pub find_above-Walk :
      (fuel current p : ℕ) (bs : List Block)
      → length bs < fuel
      → All (λ b. b.addr ≢ head) bs
      → Links m p bs head
      → Walk (λ b. ltb current b.addr) bs (find_above fuel head current (m p) m)
  unfolding find_above
  find_above-Walk zero current p bs h a l = absurd (omega arith)
  find_above-Walk (suc fuel) current p [] h a l = rw (l.0, eq→eqb head head refl) (none_passes tt)
  find_above-Walk (suc fuel) current p (b ∷ bs) h a l =
      rw (l.0, ne→eqb b.addr head a.0)
        (elim (Bool-cases (ltb current b.addr)) [
          | inl t ↦ rw t (passes [] b bs refl refl tt t)
          | inr f ↦
              rw f (Walk-cons f (find_above-Walk fuel current b.addr bs (omega arith) a.1 l.3))
        ])
