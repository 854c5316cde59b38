-- ===== src/BinaryTree/Duplicates.antt =====
-- What `insert_at` of binary_tree.hpp does to a key that is there with another value.
use always_be_learning.Common.{◌≡◌, refl, ◌≢◌, inl, inr, true, some, arith, Bool-cases}
use always_be_learning.BinaryTree.Order.{Ordered, less_asymm, ◌≺◌}
use always_be_learning.BinaryTree.Tree.{Tree, leaf, node, ok, insert_at}
use always_be_learning.BinaryTree.Update.{Every, IsOrdered, lookup}
use always_be_learning.BinaryTree.Insert.{Holds, insert_at-Inserted}

module _ {ℓ κ} {K : Type ℓ} {V : Type κ} ⦃o : Ordered K⦄ where
  Holds-of_lookup : (t : Tree K V) (a : K) (b : V) → lookup t a ≡ some b → Holds a b t
  unfolding lookup
  Holds-of_lookup leaf a b h = cc
  Holds-of_lookup (node l k v r) a b h =
      ground (arith, Holds-of_lookup l a b, Holds-of_lookup r a b, o.total k a)

  Every-Holds : (P : K → Type 0) (t : Tree K V) (a : K) (b : V) → Every P t → Holds a b t → P a
  Every-Holds P leaf a b all h = absurd h.1
  Every-Holds P (node l k v r) a b all (inl h) = Every-Holds P l a b all.0 h
  Every-Holds P (node l k v r) a b all (inr (inl e)) = rw e.0 all.1
  Every-Holds P (node l k v r) a b all (inr (inr h)) = Every-Holds P r a b all.2 h

  lookup-Holds : (t : Tree K V) (a : K) (b : V) → IsOrdered t → Holds a b t → lookup t a ≡ some b
  unfolding lookup
  lookup-Holds leaf a b s h = absurd h.1
  lookup-Holds (node l k v r) a b s (inl h) =
      ground (arith, lookup-Holds l a b s.2 h, Every-Holds (λ x. x ≺ k) l a b s.0 h, less_asymm a k)
  lookup-Holds (node l k v r) a b s (inr (inl e)) = ground (arith, o.irrefl k)
  lookup-Holds (node l k v r) a b s (inr (inr h)) =
      ground (arith, lookup-Holds r a b s.3 h, Every-Holds (λ x. k ≺ x) r a b s.1 h)

module _ {ℓ κ} {K : Type ℓ} {V : Type κ} ⦃o : Ordered K⦄ ⦃w : Ordered V⦄ where
  -- In an ordered tree that has the key with another value, `insert_at` adds a second node for
  -- the key, and the tree is a search tree by keys no longer.
  pub insert_at_duplicate :
      (t : Tree K V) (key : K) (v x : V)
      → IsOrdered t
      → lookup t key ≡ some v
      → v ≢ x
      → (t' : Tree K V) × (insert_at t key x ≡ ok (t', true)) × ¬ IsOrdered t'
  insert_at_duplicate leaf key v x s h n = absurd (unfold lookup in cc)
  insert_at_duplicate (node l k u r) key v x s h n =
      let t = node l k u r in
      let (t', done, run, i) = insert_at-Inserted t key x (ground arith) in
      elim (Bool-cases done) [
        | inl e ↦ (
          t',
          rw e at run,
          λ ordered.
              let old =
                lookup-Holds t' key v ordered
                  ((i.holds key v).1 (inl (Holds-of_lookup t key v h))) in
              let new = lookup-Holds t' key x ordered ((i.holds key x).1 (inr (refl, refl))) in
              n (cc),
        )
        | inr e ↦ let same = lookup-Holds t key x s (i.refused e).1 in absurd (n (cc))
      ]
