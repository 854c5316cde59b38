-- ===== src/BinaryTree/Assign.antt =====
-- `insert_or_assign`, `try_emplace` and `contains` of binary_tree.hpp against the abstract map.
use always_be_learning.Common.{◌≡◌, refl, ◌≢◌, true, not, Option, none, some, [], ◌∷◌, arith}
use always_be_learning.BinaryTree.Order.{Ordered}
use always_be_learning.BinaryTree.Tree.{
  Tree, leaf, node, Link, ok, fault, plug, find_node_with_link, attach, assign_found, emplace_found,
  insert_or_assign, try_emplace, contains,
}
use always_be_learning.BinaryTree.Update.{
  Every, IsOrdered, lookup, update, plug-find_root, EndsAt, IsLocal,
}
use always_be_learning.BinaryTree.Writes.{
  is_none, root_value, lookup-find, find_root, Writes, update-Writes,
}

unfoldable or_else {ℓ} : {A : Type ℓ} → Option A → A → A
or_else none x = x
or_else (some v) x = v

module _ {ℓ κ} {K : Type ℓ} {V : Type κ} ⦃o : Ordered K⦄ where
  assign : K → V → Tree K V → Tree K V
  assign key x leaf = node leaf key x leaf
  assign key x (node l k v r) = node l k x r

  assign-IsLocal : (key : K) (x : V) → IsLocal key (λ _. some x) (assign key x)
  unfolding assign lookup
  assign-IsLocal key x = record { all = all; ordered = ordered; here = here; there = there }
    where
      all :
          (P : K → Type 0) (t : Tree K V)
          → EndsAt key t
          → P key
          → Every P t
          → Every P (assign key x t)
      all P leaf e p a = (tt, p, tt)
      all P (node l k v r) e p a = a

      ordered : (t : Tree K V) → EndsAt key t → IsOrdered t → IsOrdered (assign key x t)
      ordered leaf e s = (tt, tt, tt, tt)
      ordered (node l k v r) e s = s

      here : (t : Tree K V) → EndsAt key t → IsOrdered t → lookup (assign key x t) key ≡ some x
      here leaf e s = ground (arith, o.irrefl key)
      here (node l k v r) e s = ground (arith, o.irrefl key)

      there :
          (t : Tree K V) (q : K)
          → EndsAt key t
          → IsOrdered t
          → q ≢ key
          → lookup (assign key x t) q ≡ lookup t q
      there leaf q e s n = ground (arith, o.total key q)
      there (node l k v r) q e s n = ground (arith, o.total key q)

  keep : K → V → Tree K V → Tree K V
  keep key x leaf = node leaf key x leaf
  keep key x (node l k v r) = node l k v r

  keep-IsLocal : (key : K) (x : V) → IsLocal key (λ old. some (or_else old x)) (keep key x)
  unfolding keep lookup or_else
  keep-IsLocal key x = record { all = all; ordered = ordered; here = here; there = there }
    where
      all :
          (P : K → Type 0) (t : Tree K V)
          → EndsAt key t
          → P key
          → Every P t
          → Every P (keep key x t)
      all P leaf e p a = (tt, p, tt)
      all P (node l k v r) e p a = a

      ordered : (t : Tree K V) → EndsAt key t → IsOrdered t → IsOrdered (keep key x t)
      ordered leaf e s = (tt, tt, tt, tt)
      ordered (node l k v r) e s = s

      here :
          (t : Tree K V)
          → EndsAt key t
          → IsOrdered t
          → lookup (keep key x t) key ≡ some (or_else (lookup t key) x)
      here leaf e s = ground (arith, o.irrefl key)
      here (node l k v r) e s = ground (arith, o.irrefl key)

      there :
          (t : Tree K V) (q : K)
          → EndsAt key t
          → IsOrdered t
          → q ≢ key
          → lookup (keep key x t) q ≡ lookup t q
      there leaf q e s n = ground (arith, o.total key q)
      there (node l k v r) q e s n = refl

  attach-ok :
      (link : Link K V) (key : K) (x : V)
      → link ≢ []
      → attach link key x ≡ ok (plug link (node leaf key x leaf), true)
  unfolding attach
  attach-ok [] key x n = absurd (n refl)
  attach-ok (c ∷ link) key x n = refl

  assign_found-ok :
      (link : Link K V) (found : Tree K V) (key : K) (x : V)
      → (found ≡ leaf → link ≢ [])
      → assign_found link found key x
        ≡ ok (plug link (assign key x found), is_none (root_value found))
  unfolding assign_found assign
  assign_found-ok link leaf key x n = attach-ok link key x (n refl)
  assign_found-ok link (node l k v r) key x n = refl

  emplace_found-ok :
      (link : Link K V) (found : Tree K V) (key : K) (x : V)
      → (found ≡ leaf → link ≢ [])
      → emplace_found link found key x
        ≡ ok (plug link (keep key x found), is_none (root_value found))
  unfolding emplace_found keep
  emplace_found-ok link leaf key x n = attach-ok link key x (n refl)
  emplace_found-ok link (node l k v r) key x n = refl

  -- In an ordered tree with a root, `insert_or_assign` says whether the key is new, leaves an
  -- ordered tree, and that reads the new value under the key and the old ones elsewhere.
  pub insert_or_assign-Writes :
      (t : Tree K V) (key : K) (x : V)
      → t ≢ leaf
      → IsOrdered t
      → (t' : Tree K V) × (insert_or_assign t key x ≡ ok (t', is_none (lookup t key)))
        × Writes t key (some x) t'
  unfolding insert_or_assign
  insert_or_assign-Writes t key x n s = (
    update (assign key x) t key,
    rw (
      assign_found-ok _ _ key x (find_root t key n),
      plug-find_root (assign key x) t key,
      lookup-find t key [],
    ),
    update-Writes (assign-IsLocal key x) t s,
  )

  -- In an ordered tree with a root, `try_emplace` says whether the key is new, leaves an ordered
  -- tree, keeps the value that was there under the key, and leaves the other keys as they were.
  try_emplace-Writes :
      (t : Tree K V) (key : K) (x : V)
      → t ≢ leaf
      → IsOrdered t
      → (t' : Tree K V) × (try_emplace t key x ≡ ok (t', is_none (lookup t key)))
        × Writes t key (some (or_else (lookup t key) x)) t'
  unfolding try_emplace
  try_emplace-Writes t key x n s = (
    update (keep key x) t key,
    rw (
      emplace_found-ok _ _ key x (find_root t key n),
      plug-find_root (keep key x) t key,
      lookup-find t key [],
    ),
    update-Writes (keep-IsLocal key x) t s,
  )

  -- On an empty tree `insert_or_assign` and `try_emplace` write through a pointer to a variable
  -- that is gone.
  assign_empty :
      (key : K) (x : V) → (insert_or_assign leaf key x ≡ fault) × (try_emplace leaf key x ≡ fault)
  unfolding insert_or_assign try_emplace attach find_node_with_link
  assign_empty key x = (refl, refl)

  -- On every tree `contains` ends, and says whether the descent by the key finds a value.
  pub contains-lookup :
      (t : Tree K V) (key : K) → contains t key ≡ ok (not (is_none (lookup t key)))
  unfolding contains lookup
  contains-lookup leaf key = refl
  contains-lookup (node l k v r) key = ground (
    arith,
    contains-lookup l key,
    contains-lookup r key,
    o.total k key,
    o.irrefl key,
    o.equal_refl key,
    o.eq_of_equal k key,
  )
