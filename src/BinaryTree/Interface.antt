-- ===== src/BinaryTree/Interface.antt =====
-- The members of `BinaryTree` that wrap the functions on nodes: construction from a range,
-- insertion with the iterator that it returns, and counting.
use always_be_learning.Common.{
  ℕ, ◌+◌, ◌<◌, ◌≤◌, ◌≡◌, refl, ◌∙◌, ap, ◌≢◌, ◌⊎◌, inl, inr, Bool, true, false, not, Bool-cases,
  Option, some, List, [], ◌∷◌, arith, if◌then◌else◌, to_nat,
}
use always_be_learning.BinaryTree.Order.{Ordered, ◌≺◌}
use always_be_learning.BinaryTree.Tree
use always_be_learning.BinaryTree.Tree.{Tree, leaf, node, Run, ok, ◌>>=◌, insert_at, make_range}
use always_be_learning.BinaryTree.Update.{Every, Every-imp, IsOrdered, lookup}
use always_be_learning.BinaryTree.Writes.{is_none}
use always_be_learning.BinaryTree.Insert
use always_be_learning.BinaryTree.Insert.{Inserted, insert_at-Inserted}
use always_be_learning.BinaryTree.Traversal.{
  inorder, preorder, visit, visit-append, traverse_preorder, traverse_preorder_recursive,
}
use always_be_learning.BinaryTree.Visits.{traverse-visit}
use always_be_learning.BinaryTree.Iterator.{Iterator, end, find}
use always_be_learning.BinaryTree.Iteration.{waiting, StandsAt, drop_to, find-StandsAt}

module _ {ℓ κ} {K : Type ℓ} {V : Type κ} where
  -- `size()`: the traversal with a counter
  unfoldable pub size : ℕ → Tree K V → Option ℕ
  size fuel root = traverse_preorder (λ count e. count + 1) fuel root 0

  visit_counts :
      (t : Tree K V) (n : ℕ) → visit (λ count e. count + 1) n (preorder t) ≡ n + Insert.size t
  visit_counts leaf n = omega arith
  visit_counts (node l k v r) n =
      visit-append (λ count e. count + 1) (n + 1) (preorder l) (preorder r)
      ∙ ap (λ c. visit (λ count e. count + 1) c (preorder r)) (visit_counts l (n + 1))
      ∙ visit_counts r (n + 1 + Insert.size l)
      ∙ omega arith

  -- Given more rounds than the tree has nodes, `size()` ends in the number of its nodes.
  pub size-size :
      (fuel : ℕ) (t : Tree K V) → Insert.size t < fuel → size fuel t ≡ some (Insert.size t)
  unfolding size
  size-size fuel t f =
      (traverse-visit (λ count e. count + 1) fuel t 0 f).0
      ∙ ap some (visit_counts t 0 ∙ omega arith)

to_nat-le : (flag : Bool) → to_nat flag ≤ 1
to_nat-le true = omega arith
to_nat-le false = omega arith

step_counts : (flag : Bool) (n : ℕ) → (if flag then n + 1 else n) ≡ n + to_nat flag
step_counts true n = refl
step_counts false n = omega arith

module _ {ℓ} {K : Type ℓ} ⦃o : Ordered K⦄ where
  not_equal_below : (a b : K) → a ≺ b → o.equal a b ≡ false
  not_equal_below a b h = ground (arith, o.eq_of_equal a b, o.irrefl a)

  not_equal_above : (a b : K) → b ≺ a → o.equal a b ≡ false
  not_equal_above a b h = ground (arith, o.eq_of_equal a b, o.irrefl a)

module _ {ℓ κ} {K : Type ℓ} {V : Type κ} ⦃o : Ordered K⦄ where
  -- `count`, through `count_impl`
  unfoldable pub count : Tree K V → K → ℕ
  count root key = traverse_preorder_recursive (λ n e. if o.equal e.0 key then n + 1 else n) root 0

  occurrences : K → Tree K V → ℕ
  occurrences key leaf = 0
  occurrences key (node l k v r) = to_nat (o.equal k key) + occurrences key l + occurrences key r

  count_from :
      (key : K) (t : Tree K V) (n : ℕ)
      → traverse_preorder_recursive (λ n e. if o.equal e.0 key then n + 1 else n) t n
        ≡ n + occurrences key t
  unfolding traverse_preorder_recursive occurrences
  count_from key leaf n = omega arith
  count_from key (node l k v r) n =
      rw (step_counts (o.equal k key) n, count_from key l (n + to_nat (o.equal k key)))
        (count_from key r (n + to_nat (o.equal k key) + occurrences key l) ∙ omega arith)

  occurrences_absent :
      (key : K) (t : Tree K V) → Every (λ x. o.equal x key ≡ false) t → occurrences key t ≡ 0
  unfolding occurrences
  occurrences_absent key leaf a = refl
  occurrences_absent key (node l k v r) a =
      rw (a.1, occurrences_absent key l a.0, occurrences_absent key r a.2) refl

  occurrences_below :
      (k key : K) (t : Tree K V) → Every (λ x. x ≺ k) t → k ≺ key → occurrences key t ≡ 0
  occurrences_below k key t a h =
      occurrences_absent key t (Every-imp (λ x b. not_equal_below x key (o.trans x k key b h)) t a)

  occurrences_above :
      (k key : K) (t : Tree K V) → Every (λ x. k ≺ x) t → key ≺ k → occurrences key t ≡ 0
  occurrences_above k key t a h =
      occurrences_absent key t (Every-imp (λ x b. not_equal_above x key (o.trans key k x h b)) t a)

  occurrences_same :
      (key : K) (t : Tree K V)
      → (Every (λ x. x ≺ key) t) ⊎ (Every (λ x. key ≺ x) t)
      → occurrences key t ≡ 0
  occurrences_same key t (inl a) =
      occurrences_absent key t (Every-imp (λ x. not_equal_below x key) t a)
  occurrences_same key t (inr a) =
      occurrences_absent key t (Every-imp (λ x. not_equal_above x key) t a)

  occurrences-lookup :
      (key : K) (t : Tree K V)
      → IsOrdered t
      → occurrences key t ≡ to_nat (not (is_none (lookup t key)))
  unfolding occurrences lookup
  occurrences-lookup key leaf s = refl
  occurrences-lookup key (node l k v r) s = elim (Bool-cases (o.less k key)) [
    | inl below ↦
        rw (lookup, below, not_equal_below k key below, occurrences_below k key l s.0 below)
          (omega (arith, occurrences-lookup key r s.3))
    | inr not_below ↦ elim (Bool-cases (o.less key k)) [
      | inl above ↦
          rw
            (
              lookup,
              not_below,
              above,
              not_equal_above k key above,
              occurrences_above k key r s.1 above,
            )
            (omega (arith, occurrences-lookup key l s.2))
      | inr not_above ↦
          let same : k ≡ key = o.total k key not_below not_above in
          rw (lookup, not_below, not_above)
            (rw
              (
                same,
                o.equal_refl key,
                occurrences_same key l (inl (rw same at s.0)),
                occurrences_same key r (inr (rw same at s.1)),
              )
              refl)
    ]
  ]

  -- In an ordered tree `count` is 1 if the search for the key finds a value, and 0 otherwise.
  pub count-lookup :
      (t : Tree K V) (key : K) → IsOrdered t → count t key ≡ to_nat (not (is_none (lookup t key)))
  unfolding count
  count-lookup t key s = count_from key t 0 ∙ omega (arith, occurrences-lookup key t s)

  -- `insert_or_assign` and `try_emplace` with the iterator that they return
  unfoldable pub insert_or_assign : ℕ → Tree K V → K → V → Run (Tree K V × Iterator K V × Bool)
  insert_or_assign fuel root key x =
      Tree.insert_or_assign root key x >>= λ s. find fuel s.0 key >>= λ it. ok (s.0, it, s.1)

  unfoldable pub try_emplace : ℕ → Tree K V → K → V → Run (Tree K V × Iterator K V × Bool)
  try_emplace fuel root key x =
      Tree.try_emplace root key x >>= λ s. find fuel s.0 key >>= λ it. ok (s.0, it, s.1)

module _ {ℓ κ} {K : Type ℓ} {V : Type κ} ⦃o : Ordered K⦄ ⦃w : Ordered V⦄ where
  -- the constructors from a range, and from another tree through its iterators
  unfoldable pub from_range : List (K × V) → Run (Tree K V)
  from_range [] = ok leaf
  from_range (x ∷ xs) = make_range (x ∷ xs)

  -- `insert_node`, for `insert` and `emplace`
  unfoldable pub insert : ℕ → Tree K V → K → V → Run (Tree K V × Iterator K V × Bool)
  insert fuel root key x = insert_at root key x >>= λ s.
      if s.1 then (find fuel s.0 key >>= λ it. ok (s.0, it, true)) else ok (s.0, end, false)

  end-StandsAt : StandsAt {K = K} {V = V} [] end
  unfolding waiting
  end-StandsAt = record { sound = (tt, λ e. refl); rest = refl }

  -- On a tree with a root, given more steps than it has nodes and one, `insert` ends. The tree
  -- and the flag are as `insert_at` leaves them; the iterator stands at the first entry with the
  -- key if the entry is new, and is `end()` if it is not.
  pub insert-Inserted :
      (fuel : ℕ) (t : Tree K V) (key : K) (x : V)
      → t ≢ leaf
      → Insert.size t + 1 < fuel
      → (t' : Tree K V) × (it : Iterator K V) × (done : Bool) × (insert fuel t key x
          ≡ ok (t', it, done))
        × Inserted t key x t' done
        × StandsAt (if done then drop_to key (inorder t') else []) it
  unfolding insert
  insert-Inserted fuel t key x n f =
      let (t', done, run, i) = insert_at-Inserted t key x n in
      let bound : Insert.size t' < fuel = omega (arith, i.counted, to_nat-le done) in
      let (it, search, stands) = find-StandsAt fuel t' key bound in
      elim (Bool-cases done) [
        | inl e ↦ (t', it, true, (rw (run, e, search) refl), (rw e at i), stands)
        | inr e ↦ (t', end, false, (rw (run, e) refl), (rw e at i), end-StandsAt)
      ]
