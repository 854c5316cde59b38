-- ===== src/BinaryTree/Position.antt =====
-- `erase` at an iterator of binary_tree.hpp, with the iterator that it returns.
use always_be_learning.Common.{ℕ, ◌<◌, ◌≡◌, refl, []}
use always_be_learning.BinaryTree.Order.{Ordered}
use always_be_learning.BinaryTree.Tree.{
  Tree, leaf, node, Link, Run, ok, ◌>>=◌, plug, leftmost, erase_branch, erase_semibranch,
  erase_node, find_node_with_link, erase_found, erase,
}
use always_be_learning.BinaryTree.Insert.{size}
use always_be_learning.BinaryTree.Iterator.{Iterator, end, find}
use always_be_learning.BinaryTree.Iteration.{find-StandsAt}

module _ {ℓ κ} {K : Type ℓ} {V : Type κ} ⦃o : Ordered K⦄ where
  -- `iterator{root_, key}`, next to the tree
  unfoldable pub with_iterator : ℕ → Tree K V → K → Run (Tree K V × Iterator K V)
  with_iterator fuel root key = find fuel root key >>= λ it. ok (root, it)

  -- the branches of `erase(pos)`, which returns the iterator at what has taken the node's place
  unfoldable pub erase_position_found :
      ℕ → Tree K V → Link K V → Tree K V → Run (Tree K V × Iterator K V)
  erase_position_found fuel root link leaf = ok (root, end)
  erase_position_found fuel root link (node leaf k v leaf) = ok (plug link leaf, end)
  erase_position_found fuel root link (node leaf k v (node rl rk rv rr)) =
      with_iterator fuel (plug link (erase_semibranch leaf (node rl rk rv rr))) rk
  erase_position_found fuel root link (node (node ll lk lv lr) k v leaf) =
      with_iterator fuel (plug link (erase_semibranch (node ll lk lv lr) leaf)) lk
  erase_position_found fuel root link (node (node ll lk lv lr) k v (node rl rk rv rr)) =
      with_iterator fuel (plug link (erase_branch (node ll lk lv lr) rl rk rv rr))
        (leftmost rl rk rv rr []).0

  -- `erase(pos)` at an iterator that leads to `key`
  unfoldable pub erase_position : ℕ → Tree K V → K → Run (Tree K V × Iterator K V)
  erase_position fuel root key =
      let s = find_node_with_link root key [] in erase_position_found fuel root s.0 s.1

  with_iterator-ends :
      (fuel : ℕ) (t : Tree K V) (key : K)
      → size t < fuel
      → (it : Iterator K V) × (with_iterator fuel t key ≡ ok (t, it))
  unfolding with_iterator
  with_iterator-ends fuel t key f =
      let (it, run, stands) = find-StandsAt fuel t key f in (it, rw run refl)

  erase_position_found-ends :
      (fuel : ℕ) (root : Tree K V) (link : Link K V) (t : Tree K V)
      → size (erase_found root link t).0 < fuel
      → (it : Iterator K V) × (erase_position_found fuel root link t
          ≡ ok ((erase_found root link t).0, it))
  unfolding erase_position_found erase_found erase_node
  erase_position_found-ends fuel root link leaf f = (end, refl)
  erase_position_found-ends fuel root link (node leaf k v leaf) f = (end, refl)
  erase_position_found-ends fuel root link (node leaf k v (node rl rk rv rr)) f =
      with_iterator-ends fuel _ rk f
  erase_position_found-ends fuel root link (node (node ll lk lv lr) k v leaf) f =
      with_iterator-ends fuel _ lk f
  erase_position_found-ends fuel root link (node (node ll lk lv lr) k v (node rl rk rv rr)) f =
      with_iterator-ends fuel _ (leftmost rl rk rv rr []).0 f

  -- Given more steps than the tree that `erase` by key leaves has nodes, `erase` at an iterator
  -- with that key ends, in the same tree.
  pub erase_position-erase :
      (fuel : ℕ) (t : Tree K V) (key : K)
      → size (erase t key).0 < fuel
      → (it : Iterator K V) × (erase_position fuel t key ≡ ok ((erase t key).0, it))
  unfolding erase_position erase
  erase_position-erase fuel t key f =
      let s = find_node_with_link t key [] in erase_position_found-ends fuel t s.0 s.1 f
