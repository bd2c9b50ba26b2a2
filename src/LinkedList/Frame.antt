-- ===== src/LinkedList/Frame.antt =====
-- The words that a chain of root/orbit-kernel/linked_list.h depends on.
use relics.Prelude.{ℕ, ◌+◌, ◌≢◌, List, [], ◌∷◌, Memory, write, All, arith}
use mathlib.Core.Path.{◌≡◌, refl}
use mathlib.Core.List.{◌++◌}
use relics.LinkedList.{Block, Links, last, first, Off, Apart}

-- The chain does not read the word at a.
abbrev pub Unread : ℕ → ℕ → List Block → ℕ → Type 0
Unread a p [] q = (a ≢ p) × (a ≢ q + 8)
Unread a p (b ∷ bs) q = (a ≢ p) × (a ≢ b.addr + 8) × (a ≢ b.addr + 16) × Unread a b.addr bs q

pub Links-write :
    (m : Memory) (a v p : ℕ) (bs : List Block) (q : ℕ)
    → Unread a p bs q
    → Links m p bs q
    → Links (write m a v) p bs q
Links-write m a v p [] q u l = (ground arith, ground arith)
Links-write m a v p (b ∷ bs) q u l =
    (ground arith, ground arith, ground arith, Links-write m a v b.addr bs q u.3 l.3)

pub Unread-of_Off :
    (a p : ℕ) (bs : List Block) (q : ℕ) → a ≢ p → a ≢ q + 8 → All (Off a) bs → Unread a p bs q
Unread-of_Off a p [] q np nq o = (np, nq)
Unread-of_Off a p (b ∷ bs) q np nq o = (np, o.0.1, o.0.2, Unread-of_Off a b.addr bs q o.0.0 nq o.1)

-- The header words of a block are off every block that does not overlap it.
pub Off-next : (b c : Block) → Apart b c → Off b.addr c
Off-next b c h = omega arith

pub Off-prev : (b c : Block) → Apart b c → Off (b.addr + 8) c
Off-prev b c h = omega arith

pub Off-size : (b c : Block) → Apart b c → Off (b.addr + 16) c
Off-size b c h = omega arith

pub Apart-symm : (b c : Block) → Apart b c → Apart c b
Apart-symm b c h = omega arith

pub ne-last : (x p : ℕ) (bs : List Block) → x ≢ p → All (Off x) bs → x ≢ last p bs
ne-last x p [] np o = np
ne-last x p (b ∷ bs) np o = ne-last x b.addr bs o.0.0 o.1

pub ne-first : (x : ℕ) (bs : List Block) (q : ℕ) → x ≢ q + 8 → All (Off x) bs → x ≢ first bs q + 8
ne-first x [] q nq o = nq
ne-first x (b ∷ bs) q nq o = o.0.1

pub last-snoc : (p : ℕ) (xs : List Block) (b : Block) → last p (xs ++ b ∷ []) ≡ b.addr
last-snoc p [] b = refl
last-snoc p (x ∷ xs) b = last-snoc x.addr xs b
