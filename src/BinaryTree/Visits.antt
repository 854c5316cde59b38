-- ===== src/BinaryTree/Visits.antt =====
-- What the traversals of binary_tree.hpp visit, in which order.
use mathlib.Core.List.{append_assoc, append-nil}
use always_be_learning.Common.{
  ℕ, zero, suc, ◌+◌, ◌<◌, ◌≤◌, ◌≡◌, refl, ◌∙◌, some, List, [], ◌∷◌, ◌++◌, arith,
}
use always_be_learning.BinaryTree.Tree.{Tree, leaf, node}
use always_be_learning.BinaryTree.Insert.{size}
use always_be_learning.BinaryTree.Traversal.{
  preorder, inorder, visit, visit-append, pop_if_null, preorder_loop, traverse_preorder, unwind,
  inorder_loop, traverse_inorder, postorder_loop, traverse_postorder, traverse_preorder_recursive,
}

module _ {ℓ κ} {K : Type ℓ} {V : Type κ} where
  -- the stacks hold nodes, never null
  abbrev pub AllNodes : List (Tree K V) → Type 0
  AllNodes [] = Unit
  AllNodes (leaf ∷ nodes) = ⊥
  AllNodes (node l k v r ∷ nodes) = AllNodes nodes

  unfoldable pub preorders : List (Tree K V) → List (K × V)
  preorders [] = []
  preorders (t ∷ nodes) = preorder t ++ preorders nodes

  unfoldable pub sizes : List (Tree K V) → ℕ
  sizes [] = 0
  sizes (t ∷ nodes) = size t + sizes nodes

  pub pop_if_null_lem :
      (t : Tree K V) (nodes : List (Tree K V))
      → AllNodes nodes
      → let next = pop_if_null t nodes in
        (preorder next.0 ++ preorders next.1 ≡ preorder t ++ preorders nodes)
        × (size next.0 + sizes next.1 ≡ size t + sizes nodes)
        × AllNodes next.1
        × (next.0 ≡ leaf → next.1 ≡ [])
  unfolding pop_if_null preorders sizes
  pop_if_null_lem leaf [] a = (refl, refl, tt, λ e. refl)
  pop_if_null_lem leaf (leaf ∷ nodes) a = absurd a
  pop_if_null_lem leaf (node l k v r ∷ nodes) a = (refl, omega arith, a, λ e. cc)
  pop_if_null_lem (node l k v r) nodes a = (refl, refl, a, λ e. cc)

  -- what is still to come for a stack whose nodes wait for their left subtrees
  pending : List (Tree K V) → List (K × V)
  pending [] = []
  pending (leaf ∷ nodes) = pending nodes
  pending (node l k v r ∷ nodes) = (k, v) ∷ (inorder r ++ pending nodes)

  right_sizes : List (Tree K V) → ℕ
  right_sizes [] = 0
  right_sizes (leaf ∷ nodes) = right_sizes nodes
  right_sizes (node l k v r ∷ nodes) = size r + right_sizes nodes

module _ {ℓ κ μ} {K : Type ℓ} {V : Type κ} {S : Type μ} (func : S → K × V → S) where
  preorder_loop-visit :
      (fuel : ℕ) (t : Tree K V) (nodes : List (Tree K V)) (s : S)
      → size t + sizes nodes < fuel
      → AllNodes nodes
      → (t ≡ leaf → nodes ≡ [])
      → preorder_loop func fuel t nodes s ≡ some (visit func s (preorder t ++ preorders nodes))
  unfolding preorder_loop preorders sizes
  preorder_loop-visit zero t nodes s f a e = absurd (omega arith)
  preorder_loop-visit (suc fuel) leaf nodes s f a e = rw (e refl)
  preorder_loop-visit (suc fuel) (node l k v leaf) nodes s f a e =
      let (same, total, all, done) = pop_if_null_lem l nodes a in
      preorder_loop-visit fuel _ _ (func s (k, v)) (omega arith) all done ∙ rw (same, append-nil)
  preorder_loop-visit (suc fuel) (node l k v (node rl rk rv rr)) nodes s f a e =
      let right = node rl rk rv rr in
      let (same, total, all, done) = pop_if_null_lem l (right ∷ nodes) a in
      preorder_loop-visit fuel _ _ (func s (k, v)) (omega arith) all done
      ∙ rw same (simp append_assoc)

  unwind_lem :
      (t : Tree K V) (nodes : List (Tree K V)) (s : S)
      → AllNodes nodes
      → let next = unwind func t nodes s in
        (visit func next.2 (inorder next.0 ++ pending next.1)
          ≡ visit func s (inorder t ++ pending nodes))
        × (size next.0 + right_sizes next.1 ≤ size t + right_sizes nodes)
        × AllNodes next.1
        × (next.0 ≡ leaf → next.1 ≡ [])
  unfolding unwind pending right_sizes
  unwind_lem leaf [] s a = (refl, omega arith, tt, λ e. refl)
  unwind_lem leaf (leaf ∷ nodes) s a = absurd a
  unwind_lem leaf (node l k v leaf ∷ nodes) s a =
      let (same, total, all, done) = unwind_lem leaf nodes (func s (k, v)) a in
      (same, omega arith, all, done)
  unwind_lem leaf (node l k v (node rl rk rv rr) ∷ nodes) s a = (refl, omega arith, a, λ e. cc)
  unwind_lem (node l k v r) nodes s a = (refl, omega arith, a, λ e. cc)

  inorder_loop-visit :
      (fuel : ℕ) (t : Tree K V) (nodes : List (Tree K V)) (s : S)
      → size t + right_sizes nodes < fuel
      → AllNodes nodes
      → (t ≡ leaf → nodes ≡ [])
      → inorder_loop func fuel t nodes s ≡ some (visit func s (inorder t ++ pending nodes))
  unfolding inorder_loop pending right_sizes
  inorder_loop-visit zero t nodes s f a e = absurd (omega arith)
  inorder_loop-visit (suc fuel) leaf nodes s f a e = rw (e refl)
  inorder_loop-visit (suc fuel) (node l k v r) nodes s f a e =
      let (same, total, all, done) = unwind_lem l (node l k v r ∷ nodes) s a in
      inorder_loop-visit fuel _ _ _ (omega arith) all done ∙ rw same (simp append_assoc)

  -- Given more rounds than the tree has nodes, both loops end and call the functor with every
  -- entry once: `traverse_preorder` in preorder, `traverse_inorder` in order.
  pub traverse-visit :
      (fuel : ℕ) (t : Tree K V) (s : S)
      → size t < fuel
      → (traverse_preorder func fuel t s ≡ some (visit func s (preorder t)))
        × (traverse_inorder func fuel t s ≡ some (visit func s (inorder t)))
  unfolding traverse_preorder traverse_inorder preorders pending sizes right_sizes
  traverse-visit fuel t s f = (
    rw (preorder_loop-visit fuel t [] s (omega arith) tt (λ e. refl), append-nil),
    rw (inorder_loop-visit fuel t [] s (omega arith) tt (λ e. refl), append-nil),
  )

  postorder_loop_skips :
      (fuel : ℕ) (t : Tree K V) (nodes : List (Tree K V)) (s : S)
      → size t < fuel
      → postorder_loop func fuel t nodes s ≡ some s
  unfolding postorder_loop
  postorder_loop_skips zero t nodes s f = absurd (omega arith)
  postorder_loop_skips (suc fuel) leaf nodes s f = refl
  postorder_loop_skips (suc fuel) (node l k v leaf) nodes s f =
      postorder_loop_skips fuel leaf (node l k v leaf ∷ nodes) s (omega arith)
  postorder_loop_skips (suc fuel) (node l k v (node rl rk rv rr)) nodes s f =
      postorder_loop_skips fuel (node rl rk rv rr) (node l k v (node rl rk rv rr) ∷ nodes) s
        (omega arith)

  -- Given more rounds than the tree has nodes, `traverse_postorder` ends without a call of the
  -- functor.
  pub traverse_postorder_skips :
      (fuel : ℕ) (t : Tree K V) (s : S) → size t < fuel → traverse_postorder func fuel t s ≡ some s
  unfolding traverse_postorder
  traverse_postorder_skips fuel t s f = postorder_loop_skips fuel t [] s f

  -- `traverse_preorder_recursive` calls the functor with every entry once, in preorder.
  preorder_recursive-visit :
      (t : Tree K V) (s : S) → traverse_preorder_recursive func t s ≡ visit func s (preorder t)
  unfolding traverse_preorder_recursive
  preorder_recursive-visit leaf s = refl
  preorder_recursive-visit (node l k v r) s =
      rw (visit-append, preorder_recursive-visit l (func s (k, v)))
        (preorder_recursive-visit r (visit func (func s (k, v)) (preorder l)))
