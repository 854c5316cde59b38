-- ===== src/BinaryTree/Writes.antt =====
-- Searching the tree of binary_tree.hpp and writing one value, as the operations that insert use them.
use always_be_learning.Common.{
  ◌≡◌, refl, ◌≢◌, inl, inr, Bool, true, false, Option, none, some, [], ◌∷◌, arith, if◌then◌else◌,
  Bool-cases,
}
use always_be_learning.BinaryTree.Order.{Ordered}
use always_be_learning.BinaryTree.Tree.{
  Tree, leaf, node, Link, into_left, into_right, find_node_with_link,
}
use always_be_learning.BinaryTree.Update.{
  IsOrdered, lookup, update, IsLocal, update-IsOrdered, lookup-update_self, lookup-update_ne,
}

abbrev pub is_none {ℓ} : {A : Type ℓ} → Option A → Bool
is_none none = true
is_none (some _) = false

module _ {ℓ κ} {K : Type ℓ} {V : Type κ} where
  -- the value at the root of a subtree
  abbrev pub root_value : Tree K V → Option V
  root_value leaf = none
  root_value (node l k v r) = some v

module _ {ℓ κ} {K : Type ℓ} {V : Type κ} ⦃o : Ordered K⦄ where
  pub lookup-find :
      (t : Tree K V) (key : K) (link : Link K V)
      → lookup t key ≡ root_value (find_node_with_link t key link).1
  unfolding lookup find_node_with_link
  lookup-find leaf key link = refl
  lookup-find (node l k v r) key link = ground (
    arith,
    lookup-find r key (into_right l k v ∷ link),
    lookup-find l key (into_left k v r ∷ link),
  )

  find_ne_nil :
      (t : Tree K V) (key : K) (link : Link K V)
      → link ≢ []
      → (find_node_with_link t key link).0 ≢ []
  unfolding find_node_with_link
  find_ne_nil leaf key link n = n
  find_ne_nil (node l k v r) key link n = ground (
    arith,
    find_ne_nil r key (into_right l k v ∷ link),
    find_ne_nil l key (into_left k v r ∷ link),
  )

  -- in a tree with a root a failed search does not end at the address of `root`
  pub find_root :
      (t : Tree K V) (key : K)
      → t ≢ leaf
      → (find_node_with_link t key []).1 ≡ leaf
      → (find_node_with_link t key []).0 ≢ []
  unfolding find_node_with_link
  find_root leaf key n = absurd (n refl)
  find_root (node l k v r) key n =
      ground
        (arith, find_ne_nil r key (into_right l k v ∷ []), find_ne_nil l key (into_left k v r ∷ []))

  -- `t` reads as `s` with the entry under `key` set to `value`
  pub record Writes (s : Tree K V) (key : K) (value : Option V) (t : Tree K V) : Type (ℓ ⊔ κ) where
    pub ordered : IsOrdered t
    pub reads : (q : K) → lookup t q ≡ (if o.equal q key then value else lookup s q)

  pub update-Writes :
      {key : K} {w : Option V → Option V} {f : Tree K V → Tree K V}
      → IsLocal key w f
      → (t : Tree K V) → IsOrdered t
      → Writes t key (w (lookup t key)) (update f t key)
  update-Writes {key} {w} {f} loc t s = record {
    ordered = update-IsOrdered loc t s;
    reads = λ q. elim (Bool-cases (o.equal q key)) [
      | inl same ↦ let e = o.eq_of_equal q key same in rw same (rw e (lookup-update_self loc t s))
      | inr differ ↦ rw differ (lookup-update_ne loc t q s (other q differ))
    ];
  }
    where
      other : (q : K) → o.equal q key ≡ false → q ≢ key
      other q differ e = ground (arith, o.equal_refl q)
