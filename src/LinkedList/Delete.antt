-- ===== src/LinkedList/Delete.antt =====
-- About `list_del` of root/orbit-kernel/linked_list.h.
use relics.Prelude.{
  ℕ, ◌+◌, ◌≡◌, ◌≢◌, ◌∙◌, List, [], ◌∷◌, ◌++◌, Memory, All, All-map, All-left, All-right, arith,
}
use mathlib.Core.Path.{sym, subst}
use mathlib.Core.List.{append_assoc}
use relics.LinkedList.{Block, Links, last, first, Off, Apart, Tidy, list_del_between, list_del}
use relics.LinkedList.Frame.{
  last-snoc, Links-write, Unread-of_Off, Off-next, Off-prev, Off-size, ne-last, ne-first,
  Apart-symm,
}

-- A node in the middle of a chain: what its three words hold.
pub Links-node :
    (m : Memory) (p : ℕ) (xs : List Block) (b : Block) (ys : List Block) (q : ℕ)
    → Links m p (xs ++ b ∷ ys) q
    → (m b.addr ≡ first ys q) × (m (b.addr + 8) ≡ last p xs) × (m (b.addr + 16) ≡ b.size)
Links-node m p [] b [] q l = (l.3.0, l.1, l.2)
Links-node m p [] b (d ∷ ds) q l = (l.3.0, l.1, l.2)
Links-node m p (x ∷ xs) b ys q l = Links-node m x.addr xs b ys q l.3

-- The two ends of a chain.
pub Links-first : (m : Memory) (p : ℕ) (bs : List Block) (q : ℕ) → Links m p bs q → m p ≡ first bs q
Links-first m p [] q l = l.0
Links-first m p (b ∷ bs) q l = l.0

pub Links-last :
    (m : Memory) (p : ℕ) (bs : List Block) (q : ℕ) → Links m p bs q → m (q + 8) ≡ last p bs
Links-last m p [] q l = l.1
Links-last m p (b ∷ bs) q l = Links-last m b.addr bs q l.3

-- In a tidy chain a node does not overlap the others, nor the words at the ends.
pub Tidy-Apart :
    (e p : ℕ) (xs : List Block) (b : Block) (ys : List Block)
    → Tidy e p (xs ++ b ∷ ys)
    → All (Apart b) (xs ++ ys)
Tidy-Apart e p [] b ys t = t.4
Tidy-Apart e p (x ∷ xs) b ys t =
    (Apart-symm x b (All-right (Apart x) xs (b ∷ ys) t.4).0, Tidy-Apart e x.addr xs b ys t.5)

pub Tidy-Off :
    (e p : ℕ) (xs : List Block) (b : Block) (ys : List Block)
    → Tidy e p (xs ++ b ∷ ys)
    → Off p b × Off e b
Tidy-Off e p [] b ys t = (t.1, t.2)
Tidy-Off e p (x ∷ xs) b ys t =
    ((All-right (Off p) xs (b ∷ ys) t.3).0, (Tidy-Off e x.addr xs b ys t.5).1)

module _ (m : Memory) (b : Block) where
  list_del-other :
      (x p : ℕ) (xs ys : List Block) (q : ℕ)
      → x ≢ p
      → x ≢ q + 8
      → All (Off x) xs
      → All (Off x) ys
      → list_del_between (last p xs) (first ys q) m x ≡ m x
  unfolding list_del_between
  list_del-other x p xs ys q np nq ox oy =
      let nf = ne-first x ys q nq oy in let nl = ne-last x p xs np ox in ground arith

  Links-unlink-head :
      (p : ℕ) (ys : List Block) (q : ℕ)
      → Tidy (q + 8) p (b ∷ ys)
      → Links m p (b ∷ ys) q
      → Links (list_del_between p (first ys q) m) p ys q
  unfolding list_del_between
  Links-unlink-head p [] q t l = (ground arith, ground arith)
  Links-unlink-head p (d ∷ ds) q t l = (
    ground arith,
    ground arith,
    ground arith,
    Links-write _ p d.addr d.addr ds q (Unread-of_Off p d.addr ds q (ground arith) t.0 t.3.1) (
        Links-write m (d.addr + 8) p d.addr ds q
          (Unread-of_Off (d.addr + 8) d.addr ds q (omega arith) (omega (arith, t.5.2.0))
            (All-map ds (Off-prev d) t.5.4))
          l.3.3),
  )

  Links-unlink :
      (p : ℕ) (xs ys : List Block) (q : ℕ)
      → Tidy (q + 8) p (xs ++ b ∷ ys)
      → Links m p (xs ++ b ∷ ys) q
      → Links (list_del_between (last p xs) (first ys q) m) p (xs ++ ys) q
  Links-unlink p [] ys q t l = Links-unlink-head p ys q t l
  Links-unlink p (x ∷ xs) ys q t l =
      let left = λ (y : ℕ) (o : All (Off y) (xs ++ b ∷ ys)). All-left (Off y) xs (b ∷ ys) o in
      let right = λ (y : ℕ) (o : All (Off y) (xs ++ b ∷ ys)). (All-right (Off y) xs (b ∷ ys) o).1 in
      let op = All-map (xs ++ b ∷ ys) (Off-prev x) t.4 in
      let os = All-map (xs ++ b ∷ ys) (Off-size x) t.4 in
      (
        list_del-other p x.addr xs ys q t.1.0 t.0 (left p t.3) (right p t.3) ∙ l.0,
        list_del-other (x.addr + 8) x.addr xs ys q (omega arith) (omega (arith, t.2.0))
              (left (x.addr + 8) op) (right (x.addr + 8) op)
            ∙ l.1,
        list_del-other (x.addr + 16) x.addr xs ys q (omega arith) (omega (arith, t.2.1))
              (left (x.addr + 16) os) (right (x.addr + 16) os)
            ∙ l.2,
        Links-unlink x.addr xs ys q t.5 l.3,
      )

  pub Links-delete :
      (p : ℕ) (xs ys : List Block) (q : ℕ)
      → Tidy (q + 8) p (xs ++ b ∷ ys)
      → Links m p (xs ++ b ∷ ys) q
      → Links (list_del b.addr m) p (xs ++ ys) q
  unfolding list_del
  Links-delete p xs ys q t l =
      let node = Links-node m p xs b ys q l in
      let apart = Tidy-Apart (q + 8) p xs b ys t in
      let ends = Tidy-Off (q + 8) p xs b ys t in
      Links-write _ (b.addr + 8) 0 p (xs ++ ys) q
        (Unread-of_Off (b.addr + 8) p (xs ++ ys) q (omega (arith, ends.0.1))
          (omega (arith, ends.1.1)) (All-map (xs ++ ys) (Off-prev b) apart))
        (Links-write _ b.addr 0 p (xs ++ ys) q
          (Unread-of_Off b.addr p (xs ++ ys) q (omega (arith, ends.0.0)) (omega (arith, ends.1.0))
            (All-map (xs ++ ys) (Off-next b) apart))
          (rw (node.0, node.1) (Links-unlink p xs ys q t l)))

  -- Nothing but the pointers of the node and of its neighbours is written.
  pub Links-delete-other :
      (x p : ℕ) (xs ys : List Block) (q : ℕ)
      → Links m p (xs ++ b ∷ ys) q
      → x ≢ p
      → x ≢ q + 8
      → x ≢ b.addr
      → x ≢ b.addr + 8
      → All (Off x) xs
      → All (Off x) ys
      → list_del b.addr m x ≡ m x
  unfolding list_del
  Links-delete-other x p xs ys q l np nq nb nb8 ox oy =
      let node = Links-node m p xs b ys q l in
      rw (node.0, node.1) (ground (arith, list_del-other x p xs ys q np nq ox oy))

-- A word that none of the four stores of `list_del` hits keeps its value.
pub list_del-miss :
    (m : Memory) (c x : ℕ) → x ≢ c → x ≢ c + 8 → x ≢ m c + 8 → x ≢ m (c + 8) → list_del c m x ≡ m x
unfolding list_del list_del_between
list_del-miss m c x n0 n1 n2 n3 = ground arith

-- The node behind l: what it holds, and its removal.
module _ (m : Memory) (p : ℕ) (xs : List Block) (l c : Block) (ys : List Block) (q : ℕ)
    (links : Links m p (xs ++ l ∷ c ∷ ys) q) where
  pub Links-node_after :
      (m c.addr ≡ first ys q) × (m (c.addr + 8) ≡ l.addr) × (m (c.addr + 16) ≡ c.size)
  Links-node_after =
      let e = append_assoc xs (l ∷ []) (c ∷ ys) in
      let node = Links-node m p (xs ++ l ∷ []) c ys q (subst (λ w. Links m p w q) (sym e) links) in
      (node.0, node.1 ∙ last-snoc p xs l, node.2)

  pub Links-delete_after :
      Tidy (q + 8) p (xs ++ l ∷ c ∷ ys) → Links (list_del c.addr m) p (xs ++ l ∷ ys) q
  Links-delete_after t =
      let e = append_assoc xs (l ∷ []) (c ∷ ys) in
      subst (λ w. Links (list_del c.addr m) p w q) (append_assoc xs (l ∷ []) ys)
        (Links-delete m c p (xs ++ l ∷ []) ys q (subst (λ w. Tidy (q + 8) p w) (sym e) t)
          (subst (λ w. Links m p w q) (sym e) links))
