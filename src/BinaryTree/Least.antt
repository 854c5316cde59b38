-- ===== src/BinaryTree/Least.antt =====
-- The least node of a right subtree, which `erase_branch` puts in the place of an erased node.
use always_be_learning.Common.{◌≡◌, refl, ◌≢◌, none, [], ◌∷◌, arith}
use always_be_learning.BinaryTree.Order.{Ordered, less_asymm, ◌≺◌}
use always_be_learning.BinaryTree.Tree.{
  Tree, leaf, node, Link, into_left, plug, leftmost, erase_branch,
}
use always_be_learning.BinaryTree.Update.{Every, Every-imp, IsOrdered, lookup, lookup_below}

module _ {ℓ κ} {K : Type ℓ} {V : Type κ} where
  -- the smallest entry of a node's subtree, and the subtree without it
  pub least : Tree K V → K → V → K × V
  least leaf k v = (k, v)
  least (node ll lk lv lr) k v = least ll lk lv

  pub without_least : (l : Tree K V) → K → V → (r : Tree K V) → Tree K V
  without_least leaf k v r = r
  without_least (node ll lk lv lr) k v r = node (without_least ll lk lv lr) k v r

  leftmost-least :
      (l : Tree K V) (k : K) (v : V) (r : Tree K V) (path : Link K V)
      → let s = leftmost l k v r path in
        (s.0 ≡ (least l k v).0)
        × (s.1 ≡ (least l k v).1)
        × (plug s.3 s.2 ≡ plug path (without_least l k v r))
  unfolding leftmost least without_least plug
  leftmost-least leaf k v r path = (refl, refl, refl)
  leftmost-least (node ll lk lv lr) k v r path = leftmost-least ll lk lv lr (into_left k v r ∷ path)

  -- `erase_branch` puts the smallest entry of the right subtree in the place of the node
  pub erase_branch-least :
      (l rl : Tree K V) (rk : K) (rv : V) (rr : Tree K V)
      → erase_branch l rl rk rv rr
        ≡ node l (least rl rk rv).0 (least rl rk rv).1 (without_least rl rk rv rr)
  unfolding erase_branch
  erase_branch-least l rl rk rv rr =
      let (a, b, c) = leftmost-least rl rk rv rr [] in rw (a, b, c) (unfold plug in refl)

  pub Every-least :
      (P : K → Type 0) (l : Tree K V) (k : K) (v : V) (r : Tree K V)
      → Every P (node l k v r)
      → P (least l k v).0 × Every P (without_least l k v r)
  unfolding least without_least
  Every-least P leaf k v r a = (a.1, a.2)
  Every-least P (node ll lk lv lr) k v r a =
      let (p, rest) = Every-least P ll lk lv lr a.0 in (p, (rest, a.1, a.2))

module _ {ℓ κ} {K : Type ℓ} {V : Type κ} ⦃o : Ordered K⦄ where
  least-IsOrdered :
      (l : Tree K V) (k : K) (v : V) (r : Tree K V)
      → IsOrdered (node l k v r)
      → Every (λ x. (least l k v).0 ≺ x) (without_least l k v r) × IsOrdered (without_least l k v r)
  unfolding least without_least
  least-IsOrdered leaf k v r s = (s.1, s.3)
  least-IsOrdered (node ll lk lv lr) k v r s =
      let (above, ordered) = least-IsOrdered ll lk lv lr s.2 in
      let (low, rest) = Every-least (λ x. x ≺ k) ll lk lv lr s.0 in
      ((above, low, Every-imp (λ x. o.trans _ k x low) r s.1), (rest, s.1, ordered, s.3))

  -- a subtree reads like its least entry with the rest on its right
  lookup-least :
      (l : Tree K V) (k : K) (v : V) (r : Tree K V) (q : K)
      → IsOrdered (node l k v r)
      → lookup (node leaf (least l k v).0 (least l k v).1 (without_least l k v r)) q
        ≡ lookup (node l k v r) q
  unfolding least without_least lookup
  lookup-least leaf k v r q s = refl
  lookup-least (node ll lk lv lr) k v r q s = ground (
    arith,
    lookup-least ll lk lv lr q s.2,
    (Every-least (λ x. x ≺ k) ll lk lv lr s.0).0,
    o.trans (least ll lk lv).0 k q,
    less_asymm (least ll lk lv).0 q,
    less_asymm q k,
    less_asymm k q,
    o.trans q (least ll lk lv).0 k,
    o.total (least ll lk lv).0 q,
  )

  -- a node replaced by an entry that lies between its two new subtrees
  lookup-replace :
      (l : Tree K V) (k : K) (v : V) (r rest : Tree K V) (m : K) (x : V) (q : K)
      → Every (λ y. y ≺ k) l
      → k ≺ m
      → lookup (node leaf m x rest) q ≡ lookup r q
      → q ≢ k
      → lookup (node l m x rest) q ≡ lookup (node l k v r) q
  unfolding lookup
  lookup-replace l k v r rest m x q below low same n = ground (
    arith,
    o.total k q,
    lookup_below l k q below,
    less_asymm q k,
    less_asymm k q,
    less_asymm q m,
    o.trans q k m,
    less_asymm m q,
    o.total m q,
  )

  pub erase_branch-IsOrdered :
      (l : Tree K V) (k : K) (v : V) (rl : Tree K V) (rk : K) (rv : V) (rr : Tree K V)
      → IsOrdered (node l k v (node rl rk rv rr))
      → IsOrdered (erase_branch l rl rk rv rr)
  erase_branch-IsOrdered l k v rl rk rv rr s =
      let (above, ordered) = least-IsOrdered rl rk rv rr s.3 in
      let (low, rest) = Every-least (λ x. k ≺ x) rl rk rv rr s.1 in
      rw (erase_branch-least l rl rk rv rr)
        (Every-imp (λ x h. o.trans x k _ h low) l s.0, above, s.2, ordered)

  pub lookup-erase_branch :
      (l : Tree K V) (k : K) (v : V) (rl : Tree K V) (rk : K) (rv : V) (rr : Tree K V) (q : K)
      → IsOrdered (node l k v (node rl rk rv rr))
      → q ≢ k
      → lookup (erase_branch l rl rk rv rr) q ≡ lookup (node l k v (node rl rk rv rr)) q
  lookup-erase_branch l k v rl rk rv rr q s n =
      let (low, rest) = Every-least (λ x. k ≺ x) rl rk rv rr s.1 in
      rw (erase_branch-least l rl rk rv rr)
        (lookup-replace l k v (node rl rk rv rr) _ _ _ q s.0 low (lookup-least rl rk rv rr q s.3) n)

  pub lookup-erase_branch_self :
      (l : Tree K V) (k : K) (v : V) (rl : Tree K V) (rk : K) (rv : V) (rr : Tree K V)
      → IsOrdered (node l k v (node rl rk rv rr))
      → lookup (erase_branch l rl rk rv rr) k ≡ none
  lookup-erase_branch_self l k v rl rk rv rr s =
      let (low, rest) = Every-least (λ x. k ≺ x) rl rk rv rr s.1 in
      let same = lookup_below l k k s.0 (o.irrefl k) in
      rw (erase_branch-least l rl rk rv rr)
        (unfold lookup in ground (arith, low, same, less_asymm k (least rl rk rv).0))
