-- ===== src/LinkedList/Insert.antt =====
-- About `list_add_` of root/orbit-kernel/linked_list.h.
use relics.Prelude.{
  ℕ, ◌+◌, ◌≡◌, ◌≢◌, List, [], ◌∷◌, ◌++◌, Memory, write, All, All-map, All-left, All-right, arith,
  ◌∙◌,
}
use mathlib.Core.Path.{sym, subst, subst₂}
use mathlib.Core.List.{append_assoc}
use relics.LinkedList.{Block, block, Links, last, first, Off, Apart, Tidy, list_add_between}
use relics.LinkedList.Frame.{
  last-snoc, Links-write, Unread-of_Off, Off-prev, Off-size, ne-last, ne-first,
}

-- A word that none of the four stores of an insertion hits keeps its value.
pub list_add-other :
    (m : Memory) (n before after x : ℕ)
    → x ≢ after + 8
    → x ≢ n
    → x ≢ n + 8
    → x ≢ before
    → list_add_between n before after m x ≡ m x
unfolding list_add_between
list_add-other m n before after x h k j i = ground arith

module _ (m : Memory) (c : Block) (size : m (c.addr + 16) ≡ c.size) where
  Links-push :
      (p : ℕ) (ys : List Block) (q : ℕ)
      → Tidy (q + 8) p (c ∷ ys)
      → Links m p ys q
      → Links (list_add_between c.addr p (first ys q) m) p (c ∷ ys) q
  unfolding list_add_between
  Links-push p [] q t l = (ground arith, ground arith, ground arith, (ground arith, ground arith))
  Links-push p (d ∷ ds) q t l = (
    ground arith,
    ground arith,
    ground arith,
    (
      ground arith,
      ground arith,
      ground arith,
      Links-write _ p c.addr d.addr ds q (Unread-of_Off p d.addr ds q (ground arith) t.0 t.3.1) (
          Links-write _ (c.addr + 8) p d.addr ds q
            (Unread-of_Off (c.addr + 8) d.addr ds q (ground arith) (ground arith)
              (All-map ds (Off-prev c) t.4.1))
            (Links-write _ c.addr d.addr d.addr ds q
              (Unread-of_Off c.addr d.addr ds q (ground arith) (ground arith) t.5.3)
              (Links-write m (d.addr + 8) c.addr d.addr ds q
                (Unread-of_Off (d.addr + 8) d.addr ds q (ground arith) (ground arith)
                  (All-map ds (Off-prev d) t.5.4))
                l.3))),
    ),
  )

  -- A word off every node of the chain and not its two ends survives an insertion anywhere.
  insert-other :
      (x p : ℕ) (xs ys : List Block) (q : ℕ)
      → x ≢ p
      → x ≢ q + 8
      → All (Off x) (xs ++ c ∷ ys)
      → list_add_between c.addr (last p xs) (first ys q) m x ≡ m x
  insert-other x p xs ys q np nq o =
      let oc = All-right (Off x) xs (c ∷ ys) o in
      list_add-other m c.addr (last p xs) (first ys q) x (ne-first x ys q nq oc.1) oc.0.0 oc.0.1
        (ne-last x p xs np (All-left (Off x) xs (c ∷ ys) o))

  pub Links-insert :
      (p : ℕ) (xs ys : List Block) (q : ℕ)
      → Tidy (q + 8) p (xs ++ c ∷ ys)
      → Links m p (xs ++ ys) q
      → Links (list_add_between c.addr (last p xs) (first ys q) m) p (xs ++ c ∷ ys) q
  Links-insert p [] ys q t l = Links-push p ys q t l
  Links-insert p (b ∷ xs) ys q t l = (
    insert-other p b.addr xs ys q t.1.0 t.0 t.3 ∙ l.0,
    insert-other (b.addr + 8) b.addr xs ys q (omega arith) (omega (arith, t.2.0))
          (All-map (xs ++ c ∷ ys) (Off-prev b) t.4)
        ∙ l.1,
    insert-other (b.addr + 16) b.addr xs ys q (omega arith) (omega (arith, t.2.1))
          (All-map (xs ++ c ∷ ys) (Off-size b) t.4)
        ∙ l.2,
    Links-insert b.addr xs ys q t.5 l.3,
  )

-- Writing the size of a node of a chain replaces the block by one of that size.
pub Links-resize :
    (m : Memory) (s p : ℕ) (xs : List Block) (b : Block) (ys : List Block) (q : ℕ)
    → Tidy (q + 8) p (xs ++ b ∷ ys)
    → Links m p (xs ++ b ∷ ys) q
    → Links (write m (b.addr + 16) s) p (xs ++ block b.addr s ∷ ys) q
Links-resize m s p [] b ys q t l = (
  ground arith,
  ground arith,
  ground arith,
  Links-write m (b.addr + 16) s b.addr ys q
      (Unread-of_Off (b.addr + 16) b.addr ys q (omega arith) (omega (arith, t.2.1))
        (All-map ys (Off-size b) t.4))
      l.3,
)
Links-resize m s p (x ∷ xs) b ys q t l =
    let o = (All-right (Off p) xs (b ∷ ys) t.3).0 in
    let a = (All-right (Apart x) xs (b ∷ ys) t.4).0 in
    (ground arith, ground arith, ground arith, Links-resize m s x.addr xs b ys q t.5 l.3)

-- An insertion behind the node b.
pub Links-insert_after :
    (m : Memory) (c : Block) (p : ℕ) (xs : List Block) (b : Block) (ys : List Block) (q : ℕ)
    → m (c.addr + 16) ≡ c.size
    → Tidy (q + 8) p (xs ++ b ∷ c ∷ ys)
    → Links m p (xs ++ b ∷ ys) q
    → Links (list_add_between c.addr b.addr (first ys q) m) p (xs ++ b ∷ c ∷ ys) q
Links-insert_after m c p xs b ys q size t l =
    let before = append_assoc xs (b ∷ []) ys in
    let after = append_assoc xs (b ∷ []) (c ∷ ys) in
    let t' = subst (λ w. Tidy (q + 8) p w) (sym after) t in
    let l' = subst (λ w. Links m p w q) (sym before) l in
    subst₂ (λ w z. Links (list_add_between c.addr w (first ys q) m) p z q) (last-snoc p xs b) after
      (Links-insert m c size p (xs ++ b ∷ []) ys q t' l')
