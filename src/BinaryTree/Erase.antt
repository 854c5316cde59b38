-- ===== src/BinaryTree/Erase.antt =====
-- `erase(key)` of binary_tree.hpp against the abstract map.
use always_be_learning.Common.{◌≡◌, refl, ◌∙◌, ◌≢◌, none, [], ◌∷◌, arith, to_nat, not}
use always_be_learning.BinaryTree.Order.{Ordered, less_asymm, ◌≺◌}
use always_be_learning.BinaryTree.Tree.{
  Tree, leaf, node, Link, into_left, into_right, plug, erase_semibranch, erase_node,
  find_node_with_link, erase_found, erase,
}
use always_be_learning.BinaryTree.Update.{
  Every, IsOrdered, lookup, lookup_below, lookup_above, plug-find_root, EndsAt, IsLocal,
}
use always_be_learning.BinaryTree.Writes.{is_none, root_value, lookup-find, Writes, update-Writes}
use always_be_learning.BinaryTree.Least.{
  lookup-erase_branch_self, lookup-erase_branch, Every-least, erase_branch-IsOrdered,
  erase_branch-least,
}

module _ {ℓ κ} {K : Type ℓ} {V : Type κ} ⦃o : Ordered K⦄ where
  -- what stands in the place of an erased node
  gone : Tree K V → Tree K V
  gone leaf = leaf
  gone (node l k v r) = erase_node l r

  Every-gone :
      (P : K → Type 0) (key : K) (t : Tree K V)
      → EndsAt key t
      → P key
      → Every P t
      → Every P (gone t)
  unfolding gone erase_node erase_semibranch
  Every-gone P key leaf e p a = tt
  Every-gone P key (node leaf k v leaf) e p a = tt
  Every-gone P key (node leaf k v (node rl rk rv rr)) e p a = a.2
  Every-gone P key (node (node ll lk lv lr) k v leaf) e p a = a.0
  Every-gone P key (node (node ll lk lv lr) k v (node rl rk rv rr)) e p a =
      let (low, rest) = Every-least P rl rk rv rr a.2 in
      rw (erase_branch-least (node ll lk lv lr) rl rk rv rr) (a.0, low, rest)

  gone-IsOrdered : (t : Tree K V) → IsOrdered t → IsOrdered (gone t)
  unfolding gone erase_node erase_semibranch
  gone-IsOrdered leaf s = tt
  gone-IsOrdered (node leaf k v leaf) s = tt
  gone-IsOrdered (node leaf k v (node rl rk rv rr)) s = s.3
  gone-IsOrdered (node (node ll lk lv lr) k v leaf) s = s.2
  gone-IsOrdered (node (node ll lk lv lr) k v (node rl rk rv rr)) s =
      erase_branch-IsOrdered (node ll lk lv lr) k v rl rk rv rr s

  lookup-gone_self :
      (l : Tree K V) (k : K) (v : V) (r : Tree K V)
      → IsOrdered (node l k v r)
      → lookup (erase_node l r) k ≡ none
  unfolding erase_node erase_semibranch
  lookup-gone_self leaf k v leaf s = unfold lookup in refl
  lookup-gone_self leaf k v (node rl rk rv rr) s =
      lookup_above (node rl rk rv rr) k k s.1 (o.irrefl k)
  lookup-gone_self (node ll lk lv lr) k v leaf s =
      lookup_below (node ll lk lv lr) k k s.0 (o.irrefl k)
  lookup-gone_self (node ll lk lv lr) k v (node rl rk rv rr) s =
      lookup-erase_branch_self (node ll lk lv lr) k v rl rk rv rr s

  lookup_only_right :
      (k : K) (v : V) (r : Tree K V) (q : K)
      → Every (λ x. k ≺ x) r
      → q ≢ k
      → lookup r q ≡ lookup (node leaf k v r) q
  unfolding lookup
  lookup_only_right k v r q above n = ground (arith, o.total k q, lookup_above r k q above)

  lookup_only_left :
      (k : K) (v : V) (l : Tree K V) (q : K)
      → Every (λ x. x ≺ k) l
      → q ≢ k
      → lookup l q ≡ lookup (node l k v leaf) q
  unfolding lookup
  lookup_only_left k v l q below n =
      ground (arith, o.total k q, lookup_below l k q below, less_asymm k q)

  lookup-gone :
      (l : Tree K V) (k : K) (v : V) (r : Tree K V) (q : K)
      → IsOrdered (node l k v r)
      → q ≢ k
      → lookup (erase_node l r) q ≡ lookup (node l k v r) q
  unfolding erase_node erase_semibranch
  lookup-gone leaf k v leaf q s n = lookup_only_right k v leaf q s.1 n
  lookup-gone leaf k v (node rl rk rv rr) q s n = lookup_only_right k v (node rl rk rv rr) q s.1 n
  lookup-gone (node ll lk lv lr) k v leaf q s n = lookup_only_left k v (node ll lk lv lr) q s.0 n
  lookup-gone (node ll lk lv lr) k v (node rl rk rv rr) q s n =
      lookup-erase_branch (node ll lk lv lr) k v rl rk rv rr q s n

  gone-IsLocal : (key : K) → IsLocal key (λ _. none) gone
  unfolding gone
  gone-IsLocal key = record {
    all = λ P t. Every-gone P key t;
    ordered = λ t e. gone-IsOrdered t;
    here = here;
    there = there;
  }
    where
      here : (t : Tree K V) → EndsAt key t → IsOrdered t → lookup (gone t) key ≡ none
      here leaf e s = unfold lookup in refl
      here (node l k v r) e s = rw e at (lookup-gone_self l k v r s)

      there :
          (t : Tree K V) (q : K)
          → EndsAt key t
          → IsOrdered t
          → q ≢ key
          → lookup (gone t) q ≡ lookup t q
      there leaf q e s n = refl
      there (node l k v r) q e s n = lookup-gone l k v r q s (rw e n)

  plug-find_same :
      (t : Tree K V) (key : K) (link : Link K V)
      → plug (find_node_with_link t key link).0 (find_node_with_link t key link).1 ≡ plug link t
  unfolding find_node_with_link plug
  plug-find_same leaf key link = refl
  plug-find_same (node l k v r) key link = ground (
    arith,
    plug-find_same r key (into_right l k v ∷ link),
    plug-find_same l key (into_left k v r ∷ link),
  )

  erase_found-gone :
      (root : Tree K V) (link : Link K V) (found : Tree K V)
      → plug link found ≡ root
      → erase_found root link found
        ≡ (plug link (gone found), to_nat (not (is_none (root_value found))))
  unfolding erase_found gone
  erase_found-gone root link leaf e = rw e
  erase_found-gone root link (node l k v r) e = refl

  -- In an ordered tree `erase` counts the entries under the key, one or none, and leaves an
  -- ordered tree that reads nothing under the key and the old values elsewhere.
  pub erase-Writes :
      (t : Tree K V) (key : K)
      → IsOrdered t
      → ((erase t key).1 ≡ to_nat (not (is_none (lookup t key))))
        × Writes t key none (erase t key).0
  unfolding erase
  erase-Writes t key s =
      let whole : plug (find_node_with_link t key []).0 (find_node_with_link t key []).1 ≡ t =
        plug-find_same t key [] ∙ unfold plug in refl in
      rw (erase_found-gone t _ _ whole, lookup-find t key [], plug-find_root gone t key)
        (refl, update-Writes (gone-IsLocal key) t s)
