-- ===== src/BinaryTree/Preorder.antt =====
-- The iterator with the pre-order tag of binary_tree.hpp, the default of the template.
use mathlib.Core.List.{append_assoc, append-nil}
use always_be_learning.Common.{
  ℕ, zero, suc, ◌+◌, ◌<◌, ◌≡◌, refl, ◌∙◌, ap, List, [], ◌∷◌, ◌++◌, arith, if◌then◌else◌,
}
use always_be_learning.BinaryTree.Order.{Ordered}
use always_be_learning.BinaryTree.Tree.{Tree, leaf, node, Run, ok, fault, diverges, ◌>>=◌, is_null}
use always_be_learning.BinaryTree.Insert.{size}
use always_be_learning.BinaryTree.Traversal.{preorder, pop_if_null}
use always_be_learning.BinaryTree.Visits.{AllNodes, preorders, sizes, pop_if_null_lem}
use always_be_learning.BinaryTree.Iterator.{Iterator, iter}

module _ {ℓ κ} {K : Type ℓ} {V : Type κ} where
  -- `operator++` at the iterator's fields
  unfoldable pub preorder_advance : Tree K V → List (Tree K V) → Run (Iterator K V)
  preorder_advance leaf nodes = fault
  preorder_advance (node l k v r) nodes =
      let next = pop_if_null l (if is_null r then nodes else r ∷ nodes) in ok (iter next.0 next.1)

  -- the entries that `*it` gives while `it` moves on from the fields to the end
  unfoldable pub preorder_visited_from : ℕ → Tree K V → List (Tree K V) → Run (List (K × V))
  unfolding preorder_advance
  preorder_visited_from zero t nodes = diverges
  preorder_visited_from (suc fuel) leaf nodes = ok []
  preorder_visited_from (suc fuel) (node l k v r) nodes =
      preorder_advance (node l k v r) nodes >>= λ it.
      preorder_visited_from fuel it.current it.node_stack >>= λ xs. ok ((k, v) ∷ xs)

  preorder_visited_from_lem :
      (fuel : ℕ) (t : Tree K V) (nodes : List (Tree K V))
      → size t + sizes nodes < fuel
      → AllNodes nodes
      → (t ≡ leaf → nodes ≡ [])
      → preorder_visited_from fuel t nodes ≡ ok (preorder t ++ preorders nodes)
  unfolding preorder_visited_from preorders sizes
  preorder_visited_from_lem zero t nodes f a e = absurd (omega arith)
  preorder_visited_from_lem (suc fuel) leaf nodes f a e = rw (e refl) refl
  preorder_visited_from_lem (suc fuel) (node l k v leaf) nodes f a e =
      let (same, total, all, done) = pop_if_null_lem l nodes a in
      rw (preorder_visited_from_lem fuel _ _ (omega arith) all done, same, append-nil) refl
  preorder_visited_from_lem (suc fuel) (node l k v (node rl rk rv rr)) nodes f a e =
      let right = node rl rk rv rr in
      let (same, total, all, done) = pop_if_null_lem l (right ∷ nodes) a in
      rw (preorder_visited_from_lem fuel _ _ (omega arith) all done, same) (simp append_assoc)

  -- Given more steps than the tree has nodes, the walk of the pre-order iterator from the root to
  -- the end ends and gives the entries of the tree in preorder, each once.
  pub preorder_visited_from-preorder :
      (fuel : ℕ) (t : Tree K V) → size t < fuel → preorder_visited_from fuel t [] ≡ ok (preorder t)
  unfolding preorders sizes
  preorder_visited_from-preorder fuel t f =
      preorder_visited_from_lem fuel t [] (omega arith) tt (λ e. refl) ∙ ap ok (append-nil _)

module _ {ℓ κ} {K : Type ℓ} {V : Type κ} ⦃o : Ordered K⦄ where
  -- the loop of the constructor from the root and a key
  unfoldable pub preorder_seek : ℕ → K → Tree K V → List (Tree K V) → Run (Iterator K V)
  unfolding preorder_advance
  preorder_seek zero key t nodes = diverges
  preorder_seek (suc fuel) key leaf nodes = ok (iter leaf nodes)
  preorder_seek (suc fuel) key (node l k v r) nodes =
      let next = preorder_advance (node l k v r) nodes >>= λ it.
      preorder_seek fuel key it.current it.node_stack in
      if o.equal k key then ok (iter (node l k v r) nodes) else next
