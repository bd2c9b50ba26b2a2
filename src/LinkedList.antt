-- ===== src/LinkedList.antt =====
-- root/orbit-kernel/linked_list.h: the intrusive doubly linked list, on a flat memory of 64-bit
-- words at byte addresses. A `struct ll_head` at p has `next` at p and `prev` at p + 8.
-- `Links` says what a ring in memory stands for; the children are about the operations.
pub mod Frame
pub mod Insert
pub mod Delete
use relics.Prelude.{ℕ, ◌+◌, ◌≤◌, ◌≡◌, ◌≢◌, ◌⊎◌, List, [], ◌∷◌, Memory, write, All}

abbrev pub next : Memory → ℕ → ℕ
next m p = m p

abbrev pub prev : Memory → ℕ → ℕ
prev m p = m (p + 8)

abbrev pub set_next : Memory → ℕ → ℕ → Memory
set_next m p v = write m p v

abbrev pub set_prev : Memory → ℕ → ℕ → Memory
set_prev m p v = write m (p + 8) v

-- The four stores of `list_add_`, in the source's order.
unfoldable pub list_add_between : (n prev next : ℕ) → Memory → Memory
list_add_between n before after m =
    set_next (set_prev (set_next (set_prev m after n) n after) n before) before n

unfoldable pub list_add : (n head : ℕ) → Memory → Memory
list_add n head m = list_add_between n head (next m head) m

unfoldable pub list_add_tail : (n head : ℕ) → Memory → Memory
list_add_tail n head m = list_add_between n (prev m head) head m

unfoldable pub list_del_between : (prev next : ℕ) → Memory → Memory
list_del_between before after m = set_next (set_prev m after before) before after

unfoldable pub list_del : ℕ → Memory → Memory
unfolding list_del_between
list_del entry m =
    let m' = list_del_between (prev m entry) (next m entry) m in
    set_prev (set_next m' entry 0) entry 0

-- LIST_INIT: the head points to itself.
unfoldable pub list_init : ℕ → Memory → Memory
list_init head m = set_prev (set_next m head head) head head

-- An `alloc_node_t`: its address and the value of its `size` field, which stands at addr + 16.
pub record Block : Type 0 where
  pub addr : ℕ
  pub size : ℕ

abbrev pub block : ℕ → ℕ → Block
block a s = record { addr = a; size = s }

-- From p the `next` pointers lead through the blocks to q, and the `prev` pointers lead back.
abbrev pub Links : Memory → ℕ → List Block → ℕ → Type 0
Links m p [] q = (m p ≡ q) × (m (q + 8) ≡ p)
Links m p (b ∷ bs) q =
    (m p ≡ b.addr) × (m (b.addr + 8) ≡ p) × (m (b.addr + 16) ≡ b.size) × Links m b.addr bs q

-- The ring of a list head.
abbrev pub Ring : Memory → ℕ → List Block → Type 0
Ring m head bs = Links m head bs head

-- The last node of a list that begins behind p, and the first of one that ends at q.
abbrev pub last : ℕ → List Block → ℕ
last p [] = p
last p (b ∷ bs) = last b.addr bs

abbrev pub first : List Block → ℕ → ℕ
first [] q = q
first (b ∷ _) q = b.addr

-- The address x is none of the three header words of the block.
abbrev pub Off : ℕ → Block → Type 0
Off x b = (x ≢ b.addr) × (x ≢ b.addr + 8) × (x ≢ b.addr + 16)

-- Two blocks, header and payload, that do not overlap.
abbrev pub Apart : Block → Block → Type 0
Apart b c = (b.addr + 24 + b.size ≤ c.addr) ⊎ (c.addr + 24 + c.size ≤ b.addr)

-- The words that a chain from p to the `prev` word e goes through are pairwise different.
abbrev pub Tidy : ℕ → ℕ → List Block → Type 0
Tidy e p [] = p ≢ e
Tidy e p (b ∷ bs) =
    (p ≢ e) × Off p b × Off e b × All (Off p) bs × All (Apart b) bs × Tidy e b.addr bs
