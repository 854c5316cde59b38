-- ===== src/BinaryTree/Iterator.antt =====
-- The in-order iterator of binary_tree.hpp, and the lookups that return one.
use always_be_learning.Common.{ℕ, zero, suc, List, [], ◌∷◌, if◌then◌else◌}
use always_be_learning.BinaryTree.Order.{Ordered}
use always_be_learning.BinaryTree.Tree.{Tree, leaf, node, Run, ok, fault, diverges, ◌>>=◌}

-- `current` and `node_stack`; the end iterator has a null `current`
pub record Iterator {ℓ κ} (K : Type ℓ) (V : Type κ) : Type (ℓ ⊔ κ) where
  pub current : Tree K V
  pub node_stack : List (Tree K V)

module _ {ℓ κ} {K : Type ℓ} {V : Type κ} where
  abbrev pub iter : Tree K V → List (Tree K V) → Iterator K V
  iter t nodes = record { current = t; node_stack = nodes }

  -- `end()`
  abbrev pub end : Iterator K V
  end = iter leaf []

  -- the loop of `traverse_minimum`; a null `current` does not reach it
  unfoldable pub traverse_minimum : Tree K V → List (Tree K V) → Iterator K V
  traverse_minimum leaf nodes = iter leaf nodes
  traverse_minimum (node leaf k v r) nodes = iter (node leaf k v r) nodes
  traverse_minimum (node (node ll lk lv lr) k v r) nodes =
      traverse_minimum (node ll lk lv lr) (node (node ll lk lv lr) k v r ∷ nodes)

  -- `begin()`, the constructor from the root
  unfoldable pub begin : Tree K V → Iterator K V
  unfolding traverse_minimum
  begin leaf = end
  begin (node l k v r) = traverse_minimum (node l k v r) []

  -- `operator++` at the iterator's fields
  unfoldable pub advance : Tree K V → List (Tree K V) → Run (Iterator K V)
  unfolding traverse_minimum
  advance leaf nodes = fault
  advance (node l k v (node rl rk rv rr)) nodes = ok (traverse_minimum (node rl rk rv rr) nodes)
  advance (node l k v leaf) [] = ok end
  advance (node l k v leaf) (top ∷ nodes) = ok (iter top nodes)

  unfoldable pub increment : Iterator K V → Run (Iterator K V)
  unfolding advance
  increment it = advance it.current it.node_stack

  -- the entries that `*it` gives while `it` moves on to `end()`, as in `std::for_each`
  unfoldable pub visited_from : ℕ → Tree K V → List (Tree K V) → Run (List (K × V))
  unfolding advance
  visited_from zero t nodes = diverges
  visited_from (suc fuel) leaf nodes = ok []
  visited_from (suc fuel) (node l k v r) nodes = advance (node l k v r) nodes >>= λ it.
      visited_from fuel it.current it.node_stack >>= λ xs. ok ((k, v) ∷ xs)

  unfoldable pub visited : ℕ → Tree K V → Run (List (K × V))
  unfolding begin visited_from
  visited fuel root = let it = begin root in visited_from fuel it.current it.node_stack

module _ {ℓ κ} {K : Type ℓ} {V : Type κ} ⦃o : Ordered K⦄ where
  -- the loop of the constructor from the root and a key
  unfoldable pub seek : ℕ → K → Tree K V → List (Tree K V) → Run (Iterator K V)
  unfolding advance
  seek zero key t nodes = diverges
  seek (suc fuel) key leaf nodes = ok (iter leaf nodes)
  seek (suc fuel) key (node l k v r) nodes =
      let next = advance (node l k v r) nodes >>= λ it. seek fuel key it.current it.node_stack in
      if o.equal k key then ok (iter (node l k v r) nodes) else next

  -- `find` and `lower_bound`
  unfoldable pub find : ℕ → Tree K V → K → Run (Iterator K V)
  unfolding begin seek
  find fuel root key = let it = begin root in seek fuel key it.current it.node_stack

  -- `upper_bound`, the iterator behind `find`
  unfoldable pub upper_bound : ℕ → Tree K V → K → Run (Iterator K V)
  unfolding find increment
  upper_bound fuel root key = find fuel root key >>= increment

  -- `equal_range`
  unfoldable pub equal_range : ℕ → Tree K V → K → Run (Iterator K V × Iterator K V)
  unfolding find upper_bound
  equal_range fuel root key =
      find fuel root key >>= λ first. upper_bound fuel root key >>= λ last. ok (first, last)
