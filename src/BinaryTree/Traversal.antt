-- ===== src/BinaryTree/Traversal.antt =====
-- The traversals of binary_tree.hpp. The state `s` is what the functor that they call with each
-- node keeps; `none` says that the rounds ran out or a null pointer was read.
use always_be_learning.Common.{
  ℕ, zero, suc, ◌≡◌, refl, Option, none, some, List, [], ◌∷◌, ◌++◌, if◌then◌else◌,
}
use always_be_learning.BinaryTree.Tree.{Tree, leaf, node, is_null}

module _ {ℓ κ} {K : Type ℓ} {V : Type κ} where
  -- the entries in the three orders
  abbrev pub preorder : Tree K V → List (K × V)
  preorder leaf = []
  preorder (node l k v r) = (k, v) ∷ preorder l ++ preorder r

  abbrev pub inorder : Tree K V → List (K × V)
  inorder leaf = []
  inorder (node l k v r) = inorder l ++ (k, v) ∷ inorder r

  -- where the loops go from `node` with the stack `nodes`: a null node is replaced by the top
  unfoldable pub pop_if_null : Tree K V → List (Tree K V) → Tree K V × List (Tree K V)
  pop_if_null leaf (top ∷ nodes) = (top, nodes)
  pop_if_null leaf [] = (leaf, [])
  pop_if_null (node l k v r) nodes = (node l k v r, nodes)

module _ {ℓ κ μ} {K : Type ℓ} {V : Type κ} {S : Type μ} (func : S → K × V → S) where
  abbrev pub visit : S → List (K × V) → S
  visit s [] = s
  visit s (x ∷ xs) = visit (func s x) xs

  pub visit-append : (s : S) (xs ys : List (K × V)) → visit s (xs ++ ys) ≡ visit (visit s xs) ys
  visit-append s [] ys = refl
  visit-append s (x ∷ xs) ys = visit-append (func s x) xs ys

  unfoldable pub traverse_preorder_recursive : Tree K V → S → S
  traverse_preorder_recursive leaf s = s
  traverse_preorder_recursive (node l k v r) s =
      traverse_preorder_recursive r (traverse_preorder_recursive l (func s (k, v)))

  -- it descends by `traverse_preorder_recursive`
  unfoldable pub traverse_inorder_recursive : Tree K V → S → S
  traverse_inorder_recursive leaf s = s
  traverse_inorder_recursive (node l k v r) s =
      traverse_preorder_recursive r (func (traverse_preorder_recursive l s) (k, v))

  unfoldable pub traverse_postorder_recursive : Tree K V → S → S
  traverse_postorder_recursive leaf s = s
  traverse_postorder_recursive (node l k v r) s =
      func (traverse_preorder_recursive l (traverse_preorder_recursive r s)) (k, v)

  -- the loop of `traverse_preorder`
  unfoldable pub preorder_loop : ℕ → Tree K V → List (Tree K V) → S → Option S
  unfolding pop_if_null
  preorder_loop zero t nodes s = none
  preorder_loop (suc fuel) leaf nodes s = some s
  preorder_loop (suc fuel) (node l k v r) nodes s =
      let next = pop_if_null l (if is_null r then nodes else r ∷ nodes) in
      preorder_loop fuel next.0 next.1 (func s (k, v))

  unfoldable pub traverse_preorder : ℕ → Tree K V → S → Option S
  traverse_preorder fuel root s = preorder_loop fuel root [] s

  -- the inner loop of `traverse_inorder`: it pops, visits and goes right until it finds a node
  unfoldable pub unwind : Tree K V → List (Tree K V) → S → Tree K V × List (Tree K V) × S
  unwind leaf [] s = (leaf, [], s)
  unwind leaf (leaf ∷ nodes) s = (leaf, leaf ∷ nodes, s)
  unwind leaf (node l k v r ∷ nodes) s = unwind r nodes (func s (k, v))
  unwind (node l k v r) nodes s = (node l k v r, nodes, s)

  unfoldable pub inorder_loop : ℕ → Tree K V → List (Tree K V) → S → Option S
  unfolding unwind
  inorder_loop zero t nodes s = none
  inorder_loop (suc fuel) leaf nodes s = some s
  inorder_loop (suc fuel) (node l k v r) nodes s =
      let next = unwind l (node l k v r ∷ nodes) s in inorder_loop fuel next.0 next.1 next.2

  unfoldable pub traverse_inorder : ℕ → Tree K V → S → Option S
  traverse_inorder fuel root s = inorder_loop fuel root [] s

  -- The inner loop of `traverse_postorder` runs only while the stack is empty, and then reads the
  -- top of it.
  unfoldable pub postorder_inner :
      Tree K V → List (Tree K V) → S → Option (Tree K V × List (Tree K V) × S)
  postorder_inner leaf [] s = none
  postorder_inner t nodes s = some (t, nodes, s)

  unfoldable pub postorder_loop : ℕ → Tree K V → List (Tree K V) → S → Option S
  unfolding postorder_inner
  postorder_loop zero t nodes s = none
  postorder_loop (suc fuel) leaf nodes s = some s
  postorder_loop (suc fuel) (node l k v r) nodes s =
      elim (postorder_inner r (node l k v r ∷ nodes) s) [
        | none ↦ none
        | some next ↦ postorder_loop fuel next.0 next.1 next.2
      ]

  unfoldable pub traverse_postorder : ℕ → Tree K V → S → Option S
  unfolding postorder_loop
  traverse_postorder fuel root s = postorder_loop fuel root [] s
