-- ===== src/BinaryTree/Backward.antt =====
-- The iterator with the post-order tag of binary_tree.hpp, behind `rbegin()` and `rend()`: the
-- in-order iterator with left and right exchanged.
use always_be_learning.Common.{
  ℕ, zero, suc, ◌<◌, ◌≡◌, refl, ◌∙◌, ap, List, [], ◌∷◌, ◌++◌, map, arith, if◌then◌else◌,
}
use always_be_learning.BinaryTree.Order.{Ordered}
use always_be_learning.BinaryTree.Tree.{Tree, leaf, node, Run, ok, fault, diverges, ◌>>=◌}
use always_be_learning.BinaryTree.Insert.{size}
use always_be_learning.BinaryTree.Traversal.{inorder}
use always_be_learning.BinaryTree.Iterator.{
  Iterator, iter, end, traverse_minimum, begin, advance, visited_from, visited,
}
use always_be_learning.BinaryTree.Iteration.{visited-inorder}

module _ {ℓ κ} {K : Type ℓ} {V : Type κ} where
  -- the loop of `traverse_maximum`
  unfoldable pub traverse_maximum : Tree K V → List (Tree K V) → Iterator K V
  traverse_maximum leaf nodes = iter leaf nodes
  traverse_maximum (node l k v leaf) nodes = iter (node l k v leaf) nodes
  traverse_maximum (node l k v (node rl rk rv rr)) nodes =
      traverse_maximum (node rl rk rv rr) (node l k v (node rl rk rv rr) ∷ nodes)

  -- `rbegin()`, the constructor from the root
  unfoldable pub rbegin : Tree K V → Iterator K V
  unfolding traverse_maximum
  rbegin leaf = end
  rbegin (node l k v r) = traverse_maximum (node l k v r) []

  -- `operator++` at the iterator's fields
  unfoldable pub retreat : Tree K V → List (Tree K V) → Run (Iterator K V)
  unfolding traverse_maximum
  retreat leaf nodes = fault
  retreat (node (node ll lk lv lr) k v r) nodes = ok (traverse_maximum (node ll lk lv lr) nodes)
  retreat (node leaf k v r) [] = ok end
  retreat (node leaf k v r) (top ∷ nodes) = ok (iter top nodes)

  -- the entries that `*it` gives while `it` moves on to `rend()`
  unfoldable pub reverse_visited_from : ℕ → Tree K V → List (Tree K V) → Run (List (K × V))
  unfolding retreat
  reverse_visited_from zero t nodes = diverges
  reverse_visited_from (suc fuel) leaf nodes = ok []
  reverse_visited_from (suc fuel) (node l k v r) nodes = retreat (node l k v r) nodes >>= λ it.
      reverse_visited_from fuel it.current it.node_stack >>= λ xs. ok ((k, v) ∷ xs)

  unfoldable pub reverse_visited : ℕ → Tree K V → Run (List (K × V))
  unfolding rbegin reverse_visited_from
  reverse_visited fuel root =
      let it = rbegin root in reverse_visited_from fuel it.current it.node_stack

module _ {ℓ κ} {K : Type ℓ} {V : Type κ} ⦃o : Ordered K⦄ where
  -- the loop of the constructor from the root and a key
  unfoldable pub reverse_seek : ℕ → K → Tree K V → List (Tree K V) → Run (Iterator K V)
  unfolding retreat
  reverse_seek zero key t nodes = diverges
  reverse_seek (suc fuel) key leaf nodes = ok (iter leaf nodes)
  reverse_seek (suc fuel) key (node l k v r) nodes =
      let next =
        retreat (node l k v r) nodes >>= λ it. reverse_seek fuel key it.current it.node_stack in
      if o.equal k key then ok (iter (node l k v r) nodes) else next

  -- The constructor calls `traverse_maximum` once more, which reads the root of an empty tree.
  unfoldable pub reverse_find : ℕ → Tree K V → K → Run (Iterator K V)
  unfolding rbegin traverse_maximum reverse_seek
  reverse_find fuel leaf key = fault
  reverse_find fuel (node l k v r) key =
      let first = rbegin (node l k v r) in
      let it = traverse_maximum first.current first.node_stack in
      reverse_seek fuel key it.current it.node_stack

module _ {ℓ κ} {K : Type ℓ} {V : Type κ} where
  mirror : Tree K V → Tree K V
  mirror leaf = leaf
  mirror (node l k v r) = node (mirror r) k v (mirror l)

  mirror_it : Iterator K V → Iterator K V
  mirror_it it = iter (mirror it.current) (map mirror it.node_stack)

  traverse_maximum_lem :
      (t : Tree K V) (nodes : List (Tree K V))
      → mirror_it (traverse_maximum t nodes) ≡ traverse_minimum (mirror t) (map mirror nodes)
  unfolding traverse_maximum traverse_minimum mirror mirror_it
  traverse_maximum_lem leaf nodes = refl
  traverse_maximum_lem (node l k v leaf) nodes = refl
  traverse_maximum_lem (node l k v (node rl rk rv rr)) nodes =
      traverse_maximum_lem (node rl rk rv rr) (node l k v (node rl rk rv rr) ∷ nodes)

  reverse_visited_from_lem :
      (fuel : ℕ) (t : Tree K V) (nodes : List (Tree K V))
      → reverse_visited_from fuel t nodes ≡ visited_from fuel (mirror t) (map mirror nodes)
  unfolding reverse_visited_from visited_from retreat advance mirror mirror_it
  reverse_visited_from_lem zero t nodes = refl
  reverse_visited_from_lem (suc fuel) leaf nodes = refl
  reverse_visited_from_lem (suc fuel) (node (node ll lk lv lr) k v r) nodes =
      let it = traverse_maximum (node ll lk lv lr) nodes in
      let there = traverse_maximum_lem (node ll lk lv lr) nodes in
      rw (reverse_visited_from_lem fuel it.current it.node_stack)
        (ap (λ j. visited_from fuel j.current j.node_stack >>= λ xs. ok ((k, v) ∷ xs)) there)
  reverse_visited_from_lem (suc fuel) (node leaf k v r) [] =
      rw (reverse_visited_from_lem fuel leaf []) refl
  reverse_visited_from_lem (suc fuel) (node leaf k v r) (top ∷ nodes) =
      rw (reverse_visited_from_lem fuel top nodes) refl

  reverse_visited_lem : (fuel : ℕ) (t : Tree K V) → reverse_visited fuel t ≡ visited fuel (mirror t)
  unfolding reverse_visited visited rbegin begin mirror mirror_it
  reverse_visited_lem fuel leaf = reverse_visited_from_lem fuel leaf []
  reverse_visited_lem fuel (node l k v r) =
      let it = traverse_maximum (node l k v r) [] in
      reverse_visited_from_lem fuel it.current it.node_stack
      ∙ ap (λ j. visited_from fuel j.current j.node_stack) (traverse_maximum_lem (node l k v r) [])

  -- the entries from the greatest to the least
  abbrev pub descending : Tree K V → List (K × V)
  descending leaf = []
  descending (node l k v r) = descending r ++ (k, v) ∷ descending l

  inorder-mirror : (t : Tree K V) → inorder (mirror t) ≡ descending t
  unfolding mirror
  inorder-mirror leaf = refl
  inorder-mirror (node l k v r) = rw (inorder-mirror l, inorder-mirror r) refl

  size-mirror : (t : Tree K V) → size (mirror t) ≡ size t
  unfolding mirror
  size-mirror leaf = refl
  size-mirror (node l k v r) = omega (arith, size-mirror l, size-mirror r)

  -- Given more steps than the tree has nodes, the walk from `rbegin()` to `rend()` ends and gives
  -- the entries of the tree from the last to the first in order, each once.
  pub reverse_visited-descending :
      (fuel : ℕ) (t : Tree K V) → size t < fuel → reverse_visited fuel t ≡ ok (descending t)
  reverse_visited-descending fuel t f =
      reverse_visited_lem fuel t
      ∙ visited-inorder fuel (mirror t) (omega (arith, size-mirror t))
      ∙ ap ok (inorder-mirror t)
