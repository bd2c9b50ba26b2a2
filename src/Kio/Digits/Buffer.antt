-- ===== src/Kio/Digits/Buffer.antt =====
-- About the loop of root/orbit-kernel/util/kio.c that writes digits into a buffer.
use native.Mathlib.Nat.{pow-zero, mod-lt, add-mod_right, mod-eq_of_lt}
use relics.Prelude.{
  ℕ, zero, suc, ◌+◌, ◌-◌, ◌/◌, ◌%◌, ◌^◌, ◌<◌, ◌≤◌, ◌≡◌, ◌≢◌, ◌⊎◌, ◌∙◌, ap, sym, refl, Option, some,
  List, [], ◌∷◌, Memory, write, eq→eqb, ne→eqb, if-true, if-false, length, arith,
}
use relics.Kio.Digits.{put_loop}
use relics.Kio.Digits.Decimal.{decimal, places, div-lt-pow, places-pos}

-- The memory holds a text from an address on.
abbrev pub Holds : List ℕ → ℕ → Memory → Type 0
Holds [] a m = Unit
Holds (c ∷ text) a m = (m a ≡ c) × Holds text (a + 1) m

pub write-same : (m : Memory) (a b v : ℕ) → b ≡ a → write m a v b ≡ v
write-same m a b v e = if-true _ _ (eq→eqb b a e)

pub write-other : (m : Memory) (a b v : ℕ) → b ≢ a → write m a v b ≡ m b
write-other m a b v e = if-false _ _ (ne→eqb b a e)

pub Holds-frame :
    (text : List ℕ) (a : ℕ) (m m' : Memory)
    → ((b : ℕ) → a ≤ b → b < a + length text → m' b ≡ m b)
    → Holds text a m
    → Holds text a m'
Holds-frame [] a m m' f h = tt
Holds-frame (c ∷ text) a m m' f h = (
  f a (omega arith) (omega arith) ∙ h.0,
  Holds-frame text (a + 1) m m' (λ b lo hi. f b (omega arith) (omega arith)) h.1,
)

pub Holds-at : (text : List ℕ) {a b : ℕ} → a ≡ b → (m : Memory) → Holds text a m → Holds text b m
Holds-at text e m h = rw (sym e) h

-- The loop ended; the digits stand before the text, and the other cells are unchanged.
pub record Put (k n at : ℕ) (text : List ℕ) (m : Memory) (r : Option Memory) : Type 0 where
  pub after : Memory
  pub returns : r ≡ some after
  pub holds : Holds (decimal k n text) at after
  pub frame : (b : ℕ) → (b < at) ⊎ (at + places k n ≤ b) → after b ≡ m b

down : (limit i : ℕ) → 0 < i → i < limit → (i + limit - 1) % limit ≡ i - 1
down limit i p h =
    ap (λ t. t % limit) {x = i + limit - 1} {y = i - 1 + limit} (omega arith)
    ∙ add-mod_right (i - 1) limit
    ∙ mod-eq_of_lt (omega arith)

pub put_loop-Put :
    (k limit n index number first : ℕ) (text : List ℕ) (m : Memory)
    → n < 10 ^ k
    → index < limit
    → (0 < n → index + 1 ≡ first + places k n)
    → Holds text (number + first + places k n) m
    → Put k n (number + first) text m (put_loop (suc k) limit n index number m)
unfolding put_loop
put_loop-Put zero limit zero index number first text m h lt e holds = record {
  after = m;
  returns = refl;
  holds = Holds-at text (omega arith) m holds;
  frame = λ b o. refl;
}
put_loop-Put zero limit (suc n) index number first text m h lt e holds =
    absurd (omega (arith, pow-zero 10))
put_loop-Put (suc k) limit zero index number first text m h lt e holds = record {
  after = m;
  returns = refl;
  holds = Holds-at text (omega arith) m holds;
  frame = λ b o. refl;
}
put_loop-Put (suc k) limit (suc n) index number first text m h lt e holds =
    let c = suc n % 10 + b'0' in
    let k' = places k (suc n / 10) in
    let at : index ≡ first + k' = omega (arith, e (omega arith)) in
    let less : suc n / 10 < 10 ^ k = div-lt-pow (suc n) k h in
    let before = write m (number + index) c in
    let ih =
      put_loop-Put k limit (suc n / 10) ((index + limit - 1) % limit) number first (c ∷ text) before
        less (mod-lt (index + limit - 1) (omega arith))
        (λ p.
          let positive : 0 < places k (suc n / 10) = places-pos k (suc n / 10) less p in
          omega (arith, down limit index (omega arith) lt))
        (
          write-same m (number + index) (number + first + k') c (omega arith),
          Holds-frame text (number + first + k' + 1) m before
              (λ b lo hi. write-other m (number + index) b c (omega arith))
              (Holds-at text (omega arith) m holds),
        ) in
    record {
      after = ih.after;
      returns = if-false _ _ (ne→eqb (suc n) 0 (omega arith)) ∙ ih.returns;
      holds = ih.holds;
      frame = λ b o. ih.frame b (ground arith) ∙ write-other m (number + index) b c (ground arith);
    }
