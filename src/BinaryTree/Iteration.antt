-- ===== src/BinaryTree/Iteration.antt =====
-- What the iterators of binary_tree.hpp go through.
use mathlib.Core.List.{append_assoc, append-nil}
use always_be_learning.Common.{
  ℕ, zero, suc, ◌<◌, ◌≡◌, refl, ◌∙◌, ap, ◌≢◌, inl, inr, Bool, false, ◌||◌, Bool-cases, List, [],
  ◌∷◌, ◌++◌, arith, if◌then◌else◌, length, length-append,
}
use always_be_learning.BinaryTree.Order.{Ordered}
use always_be_learning.BinaryTree.Tree.{Tree, leaf, node, ok, fault}
use always_be_learning.BinaryTree.Insert.{size}
use always_be_learning.BinaryTree.Traversal.{inorder}
use always_be_learning.BinaryTree.Iterator.{
  Iterator, iter, end, traverse_minimum, begin, advance, increment, visited_from, visited, seek,
  find, upper_bound, equal_range,
}

module _ {ℓ κ} {K : Type ℓ} {V : Type κ} where
  -- the entries of the stack's nodes and of their right subtrees
  unfoldable pub waiting : List (Tree K V) → List (K × V)
  waiting [] = []
  waiting (leaf ∷ nodes) = waiting nodes
  waiting (node l k v r ∷ nodes) = (k, v) ∷ (inorder r ++ waiting nodes)

  -- what an iterator has still to go through, its own entry first
  abbrev pub remaining : Iterator K V → List (K × V)
  remaining it = waiting (it.current ∷ it.node_stack)

  -- The stack holds nodes, and it is empty at the end.
  abbrev pub AllNodes : List (Tree K V) → Type 0
  AllNodes [] = Unit
  AllNodes (leaf ∷ nodes) = ⊥
  AllNodes (node l k v r ∷ nodes) = AllNodes nodes

  abbrev pub IsSound : Iterator K V → Type (ℓ ⊔ κ)
  IsSound it = AllNodes it.node_stack × (it.current ≡ leaf → it.node_stack ≡ [])

  traverse_minimum_lem :
      (t : Tree K V) (nodes : List (Tree K V))
      → t ≢ leaf
      → AllNodes nodes
      → IsSound (traverse_minimum t nodes)
        × (remaining (traverse_minimum t nodes) ≡ inorder t ++ waiting nodes)
  unfolding traverse_minimum waiting
  traverse_minimum_lem leaf nodes n a = absurd (n refl)
  traverse_minimum_lem (node leaf k v r) nodes n a = ((a, λ e. cc), refl)
  traverse_minimum_lem (node (node ll lk lv lr) k v r) nodes n a =
      let (sound, same) =
        traverse_minimum_lem (node ll lk lv lr) (node (node ll lk lv lr) k v r ∷ nodes)
          (ground arith) a in
      (sound, same ∙ simp append_assoc)

  -- `operator++` drops the first of the remaining entries
  advance_lem :
      (l : Tree K V) (k : K) (v : V) (r : Tree K V) (nodes : List (Tree K V))
      → AllNodes nodes
      → (it : Iterator K V) × (advance (node l k v r) nodes ≡ ok it)
        × IsSound it
        × (remaining it ≡ inorder r ++ waiting nodes)
  unfolding advance waiting
  advance_lem l k v (node rl rk rv rr) nodes a =
      let (sound, same) = traverse_minimum_lem (node rl rk rv rr) nodes (ground arith) a in
      (traverse_minimum (node rl rk rv rr) nodes, refl, sound, same)
  advance_lem l k v leaf [] a = (end, refl, (tt, λ e. refl), refl)
  advance_lem l k v leaf (leaf ∷ nodes) a = absurd a
  advance_lem l k v leaf (node tl tk tv tr ∷ nodes) a =
      (iter (node tl tk tv tr) nodes, refl, (a, λ e. cc), refl)

  begin_lem : (t : Tree K V) → IsSound (begin t) × (remaining (begin t) ≡ inorder t)
  unfolding begin
  begin_lem leaf = ((tt, λ e. refl), unfold waiting in refl)
  begin_lem (node l k v r) =
      let (sound, same) = traverse_minimum_lem (node l k v r) [] (ground arith) tt in
      (sound, same ∙ unfold waiting in append-nil _)

  visited_from_lem :
      (fuel : ℕ) (t : Tree K V) (nodes : List (Tree K V))
      → length (waiting (t ∷ nodes)) < fuel
      → IsSound (iter t nodes)
      → visited_from fuel t nodes ≡ ok (waiting (t ∷ nodes))
  unfolding visited_from
  visited_from_lem zero t nodes f s = absurd (omega arith)
  visited_from_lem (suc fuel) leaf nodes f s = rw (s.1 refl) (unfold waiting in refl)
  visited_from_lem (suc fuel) (node l k v r) nodes f s =
      let (it, run, sound, same) = advance_lem l k v r nodes s.0 in
      let all =
        visited_from_lem fuel it.current it.node_stack (unfold waiting in rw same (omega arith))
          sound in
      rw (run, all) (unfold waiting in ap (λ ys. ok ((k, v) ∷ ys)) same)

  length-inorder : (t : Tree K V) → length (inorder t) ≡ size t
  length-inorder leaf = refl
  length-inorder (node l k v r) =
      length-append (inorder l) ((k, v) ∷ inorder r)
      ∙ omega (arith, length-inorder l, length-inorder r)

  -- Given more steps than the tree has nodes, the walk from `begin()` to `end()` ends and gives
  -- the entries of the tree in order, each once.
  pub visited-inorder : (fuel : ℕ) (t : Tree K V) → size t < fuel → visited fuel t ≡ ok (inorder t)
  unfolding visited
  visited-inorder fuel t f =
      let (sound, same) = begin_lem t in
      visited_from_lem fuel (begin t).current (begin t).node_stack
        (rw same (omega (arith, length-inorder t))) sound
      ∙ ap ok same

module _ {ℓ κ} {K : Type ℓ} {V : Type κ} ⦃o : Ordered K⦄ where
  -- the entries from the first with the key on
  abbrev pub drop_to : K → List (K × V) → List (K × V)
  drop_to key [] = []
  drop_to key (x ∷ xs) = if o.equal x.0 key then x ∷ xs else drop_to key xs

  abbrev pub has_key : K → List (K × V) → Bool
  has_key key [] = false
  has_key key (x ∷ xs) = o.equal x.0 key || has_key key xs

  -- an iterator, with the entries that it has still to go through
  pub record StandsAt (xs : List (K × V)) (it : Iterator K V) : Type (ℓ ⊔ κ) where
    pub sound : IsSound it
    pub rest : remaining it ≡ xs

  seek_lem :
      (fuel : ℕ) (key : K) (t : Tree K V) (nodes : List (Tree K V))
      → length (waiting (t ∷ nodes)) < fuel
      → IsSound (iter t nodes)
      → (it : Iterator K V) × (seek fuel key t nodes ≡ ok it)
        × StandsAt (drop_to key (waiting (t ∷ nodes))) it
  unfolding seek waiting
  seek_lem zero key t nodes f s = absurd (omega arith)
  seek_lem (suc fuel) key leaf nodes f s =
      (iter leaf nodes, refl, record { sound = s; rest = rw (s.1 refl) (refl) })
  seek_lem (suc fuel) key (node l k v r) nodes f s = elim (Bool-cases (o.equal k key)) [
    | inl hit ↦ (iter (node l k v r) nodes, rw hit, record { sound = s; rest = rw hit })
    | inr miss ↦
        let (it, run, sound, same) = advance_lem l k v r nodes s.0 in
        let (it', run', stands) =
          seek_lem fuel key it.current it.node_stack (rw same (omega arith)) sound in
        (
          it',
          rw (miss, run) run',
          record { sound = stands.sound; rest = rw miss (stands.rest ∙ ap (drop_to key) same) },
        )
  ]

  -- Given more steps than the tree has nodes, `find` ends in the iterator at the first entry in
  -- order that has the key, from which the rest of the entries follow, and in `end()` if none
  -- has it.
  pub find-StandsAt :
      (fuel : ℕ) (t : Tree K V) (key : K)
      → size t < fuel
      → (it : Iterator K V) × (find fuel t key ≡ ok it) × StandsAt (drop_to key (inorder t)) it
  unfolding find
  find-StandsAt fuel t key f =
      let (sound, same) = begin_lem t in
      let (it, run, stands) =
        seek_lem fuel key (begin t).current (begin t).node_stack
          (rw same (omega (arith, length-inorder t))) sound in
      (it, run, record { sound = stands.sound; rest = stands.rest ∙ ap (drop_to key) same })

  drop_to_absent : (key : K) (xs : List (K × V)) → has_key key xs ≡ false → drop_to key xs ≡ []
  drop_to_absent key [] h = refl
  drop_to_absent key (x ∷ xs) h = ground (arith, drop_to_absent key xs)

  StandsAt-end : (it : Iterator K V) → StandsAt [] it → increment it ≡ fault
  unfolding increment advance
  StandsAt-end it s = go it.current s.rest
    where
      go : (t : Tree K V) → waiting (t ∷ it.node_stack) ≡ [] → advance t it.node_stack ≡ fault
      go leaf e = refl
      go (node l k v r) e = absurd (unfold waiting in cc)

  -- Given more steps than the tree has nodes, for a key that no entry has `upper_bound` and
  -- `equal_range` increment the end iterator, a read through a null pointer.
  pub upper_bound_absent :
      (fuel : ℕ) (t : Tree K V) (key : K)
      → size t < fuel
      → has_key key (inorder t) ≡ false
      → (upper_bound fuel t key ≡ fault) × (equal_range fuel t key ≡ fault)
  unfolding upper_bound equal_range
  upper_bound_absent fuel t key f h =
      let (it, run, stands) = find-StandsAt fuel t key f in
      let none_left : StandsAt [] it = record {
        sound = stands.sound;
        rest = stands.rest ∙ drop_to_absent key _ h;
      } in
      let fails = StandsAt-end it none_left in (rw (run, fails), rw (run, fails))
