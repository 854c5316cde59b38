-- ===== src/BinaryTree/Tree.antt =====
-- The nodes of a `BinaryTree` and the operations on them. A node is owned by one link, so the
-- subtree that a `Node*` leads to is a value; a `Node**` is the path from the root to the link
-- that it points at, and a write through it plugs a subtree into that path.
use always_be_learning.Common.{ℕ, Bool, true, false, not, List, [], ◌∷◌, if◌then◌else◌}
use always_be_learning.BinaryTree.Order.{Ordered, pair_less}

-- `BT_Node`, with `leaf` for `nullptr`
pub data Tree {ℓ κ} (K : Type ℓ) (V : Type κ) : Type (ℓ ⊔ κ) where
  leaf : Tree K V
  node : Tree K V → K → V → Tree K V → Tree K V

-- a step down from a node: what it leaves behind is the node and its other subtree
pub data Crumb {ℓ κ} (K : Type ℓ) (V : Type κ) : Type (ℓ ⊔ κ) where
  into_left : K → V → Tree K V → Crumb K V
  into_right : Tree K V → K → V → Crumb K V

-- the last step first; the empty path is `&root_`
abbrev pub Link {ℓ κ} : Type ℓ → Type κ → Type (ℓ ⊔ κ)
Link K V = List (Crumb K V)

-- A run ends with a value, at a failed `JAM_ASSERT`, at a read or write through an invalid
-- pointer, or never.
pub data Run {ℓ} (B : Type ℓ) : Type ℓ where
  ok : B → Run B
  violated : Run B
  fault : Run B
  diverges : Run B

infixl 5 ◌>>=◌
abbrev pub ◌>>=◌ {ℓ κ} : {B : Type ℓ} {C : Type κ} → Run B → (B → Run C) → Run C
ok b >>= f = f b
violated >>= f = violated
fault >>= f = fault
diverges >>= f = diverges

module _ {ℓ κ} {K : Type ℓ} {V : Type κ} where
  abbrev pub is_null : Tree K V → Bool
  is_null leaf = true
  is_null (node l k v r) = false

  -- `*link = t`
  unfoldable pub plug : Link K V → Tree K V → Tree K V
  plug [] t = t
  plug (into_left k v r ∷ path) t = plug path (node t k v r)
  plug (into_right l k v ∷ path) t = plug path (node l k v t)

  -- the loop to the smallest node that follows `cur`, with the path that it takes
  unfoldable pub leftmost : Tree K V → K → V → Tree K V → Link K V → K × V × Tree K V × Link K V
  leftmost leaf k v r path = (k, v, r, path)
  leftmost (node ll lk lv lr) k v r path = leftmost ll lk lv lr (into_left k v r ∷ path)

  -- `erase_branch` at a node with the subtrees `l` and `node rl rk rv rr`
  unfoldable pub erase_branch : Tree K V → (rl : Tree K V) → K → V → (rr : Tree K V) → Tree K V
  unfolding leftmost plug
  erase_branch l rl rk rv rr =
      let (sk, sv, sr, path) = leftmost rl rk rv rr [] in node l sk sv (plug path sr)

  -- `erase_semibranch`: the child that is not null takes the place of the node
  unfoldable pub erase_semibranch : (left right : Tree K V) → Tree K V
  erase_semibranch left right = if not (is_null left) then left else right

  -- what `erase` leaves in the place of a node with two subtrees
  unfoldable pub erase_node : (left right : Tree K V) → Tree K V
  erase_node leaf leaf = leaf
  erase_node leaf (node rl rk rv rr) = erase_semibranch leaf (node rl rk rv rr)
  erase_node (node ll lk lv lr) leaf = erase_semibranch (node ll lk lv lr) leaf
  erase_node (node ll lk lv lr) (node rl rk rv rr) = erase_branch (node ll lk lv lr) rl rk rv rr

module _ {ℓ κ} {K : Type ℓ} {V : Type κ} ⦃o : Ordered K⦄ where
  -- `find_node_with_link`
  unfoldable pub find_node_with_link : Tree K V → K → Link K V → Link K V × Tree K V
  find_node_with_link leaf key link = (link, leaf)
  find_node_with_link (node l k v r) key link = elim (o.less k key) [
    | true ↦ find_node_with_link r key (into_right l k v ∷ link)
    | false ↦ elim (o.less key k) [
      | true ↦ find_node_with_link l key (into_left k v r ∷ link)
      | false ↦ (link, node l k v r)
    ]
  ]

  -- The static `find_node_with_link` starts from the address of its parameter: a new node for an
  -- empty tree is written through a pointer to a variable that is gone.
  unfoldable pub attach : Link K V → K → V → Run (Tree K V × Bool)
  unfolding plug
  attach [] key value = fault
  attach (c ∷ link) key value = ok (plug (c ∷ link) (node leaf key value leaf), true)

  -- `insert_or_assign_impl`, without the pointer to the node: the branches, and the search
  unfoldable pub assign_found : Link K V → Tree K V → K → V → Run (Tree K V × Bool)
  assign_found link leaf key value = attach link key value
  assign_found link (node l k v r) key value = ok (plug link (node l k value r), false)

  unfoldable pub insert_or_assign : Tree K V → K → V → Run (Tree K V × Bool)
  unfolding assign_found
  insert_or_assign root key value =
      let s = find_node_with_link root key [] in assign_found s.0 s.1 key value

  -- `try_emplace_impl`
  unfoldable pub emplace_found : Link K V → Tree K V → K → V → Run (Tree K V × Bool)
  emplace_found link leaf key value = attach link key value
  emplace_found link (node l k v r) key value = ok (plug link (node l k v r), false)

  unfoldable pub try_emplace : Tree K V → K → V → Run (Tree K V × Bool)
  unfolding emplace_found
  try_emplace root key value =
      let s = find_node_with_link root key [] in emplace_found s.0 s.1 key value

  -- `erase(key)`
  unfoldable pub erase_found : Tree K V → Link K V → Tree K V → Tree K V × ℕ
  erase_found root link leaf = (root, 0)
  erase_found root link (node l k v r) = (plug link (erase_node l r), 1)

  unfoldable pub erase : Tree K V → K → Tree K V × ℕ
  unfolding erase_found
  erase root key = let s = find_node_with_link root key [] in erase_found root s.0 s.1

  -- The loop of `contains`: at a key that is neither equal, less nor greater it does not move.
  unfoldable pub contains : Tree K V → K → Run Bool
  contains leaf key = ok false
  contains (node l k v r) key = elim (o.equal k key) [
    | true ↦ ok true
    | false ↦ elim (o.less k key) [
      | true ↦ contains r key
      | false ↦ elim (o.less key k) [ true ↦ contains l key | false ↦ diverges ]
    ]
  ]

module _ {ℓ κ} {K : Type ℓ} {V : Type κ} ⦃o : Ordered K⦄ ⦃w : Ordered V⦄ where
  -- `insert_at(root, n)` for a new node that holds `key` and `value`; it compares whole pairs
  unfoldable pub insert_at : Tree K V → K → V → Run (Tree K V × Bool)
  insert_at leaf key value = violated
  insert_at (node l k v r) key value = elim (pair_less key value k v) [
    | true ↦ elim (is_null l) [
      | true ↦ ok (node (node leaf key value leaf) k v r, true)
      | false ↦ insert_at l key value >>= λ s. ok (node s.0 k v r, s.1)
    ]
    | false ↦ elim (pair_less k v key value) [
      | true ↦ elim (is_null r) [
        | true ↦ ok (node l k v (node leaf key value leaf), true)
        | false ↦ insert_at r key value >>= λ s. ok (node l k v s.0, s.1)
      ]
      | false ↦ ok (node l k v r, false)
    ]
  ]

  -- the loop of `make_range` and of `insert(first, last)`
  unfoldable pub insert_range : Tree K V → List (K × V) → Run (Tree K V)
  unfolding insert_at
  insert_range root [] = ok root
  insert_range root (x ∷ xs) = insert_at root x.0 x.1 >>= λ s. insert_range s.0 xs

  unfoldable pub make_range : List (K × V) → Run (Tree K V)
  unfolding insert_range
  make_range [] = violated
  make_range (x ∷ xs) = insert_range (node leaf x.0 x.1 leaf) xs
