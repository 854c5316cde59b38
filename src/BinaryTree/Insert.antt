-- ===== src/BinaryTree/Insert.antt =====
-- `insert_at` of binary_tree.hpp, through which `insert`, `emplace` and the range constructors go.
use always_be_learning.Common.{
  ℕ, suc, ◌+◌, ◌≡◌, refl, ◌≢◌, ◌⊎◌, ◌↔◌, inl, inr, Bool, true, false, List, [], ◌∷◌, arith, to_nat,
}
use always_be_learning.BinaryTree.Order.{Ordered, pair_less}
use always_be_learning.BinaryTree.Tree.{Tree, leaf, node, ok, insert_at, insert_range, make_range}

module _ {ℓ κ} {K : Type ℓ} {V : Type κ} where
  abbrev pub size : Tree K V → ℕ
  size leaf = 0
  size (node l k v r) = suc (size l + size r)

  -- the entry `a`, `b` stands somewhere in the tree
  abbrev pub Holds : K → V → Tree K V → Type (ℓ ⊔ κ)
  Holds a b leaf = Unit {ℓ ⊔ κ} × ⊥
  Holds a b (node l k v r) = Holds a b l ⊎ (a ≡ k) × (b ≡ v) ⊎ Holds a b r

  abbrev AllPairs : (K → V → Type 0) → Tree K V → Type 0
  AllPairs P leaf = Unit
  AllPairs P (node l k v r) = AllPairs P l × P k v × AllPairs P r

module _ {ℓ κ} {K : Type ℓ} {V : Type κ} ⦃o : Ordered K⦄ ⦃w : Ordered V⦄ where
  -- the search-tree invariant of `insert_at`, which compares pairs
  abbrev pub IsPairOrdered : Tree K V → Type 0
  IsPairOrdered leaf = Unit
  IsPairOrdered (node l k v r) =
      AllPairs (λ a b. pair_less a b k v ≡ true) l
      × AllPairs (λ a b. pair_less k v a b ≡ true) r
      × IsPairOrdered l
      × IsPairOrdered r

  -- the insertion that also serves an empty tree
  place : Tree K V → K → V → Tree K V × Bool
  place leaf key x = (node leaf key x leaf, true)
  place (node l k v r) key x = elim (pair_less key x k v) [
    | true ↦ (node (place l key x).0 k v r, (place l key x).1)
    | false ↦ elim (pair_less k v key x) [
      | true ↦ (node l k v (place r key x).0, (place r key x).1)
      | false ↦ (node l k v r, false)
    ]
  ]

  insert_at-place :
      (t : Tree K V) (key : K) (x : V) → t ≢ leaf → insert_at t key x ≡ ok (place t key x)
  unfolding insert_at place
  insert_at-place leaf key x n = absurd (n refl)
  insert_at-place (node leaf k v leaf) key x n = ground arith
  insert_at-place (node (node ll lk lv lr) k v leaf) key x n =
      ground (arith, insert_at-place (node ll lk lv lr) key x)
  insert_at-place (node leaf k v (node rl rk rv rr)) key x n =
      ground (arith, insert_at-place (node rl rk rv rr) key x)
  insert_at-place (node (node ll lk lv lr) k v (node rl rk rv rr)) key x n =
      ground
        (arith, insert_at-place (node ll lk lv lr) key x, insert_at-place (node rl rk rv rr) key x)

  AllPairs-place :
      (P : K → V → Type 0) (t : Tree K V) (key : K) (x : V)
      → P key x
      → AllPairs P t
      → AllPairs P (place t key x).0
  unfolding place
  AllPairs-place P leaf key x p a = (tt, p, tt)
  AllPairs-place P (node l k v r) key x p a =
      ground (arith, AllPairs-place P l key x, AllPairs-place P r key x)

  place-IsPairOrdered :
      (t : Tree K V) (key : K) (x : V) → IsPairOrdered t → IsPairOrdered (place t key x).0
  unfolding place
  place-IsPairOrdered leaf key x s = (tt, tt, tt, tt)
  place-IsPairOrdered (node l k v r) key x s = ground (
    arith,
    place-IsPairOrdered l key x,
    place-IsPairOrdered r key x,
    AllPairs-place (λ a b. pair_less a b k v ≡ true) l key x,
    AllPairs-place (λ a b. pair_less k v a b ≡ true) r key x,
  )

  size-place :
      (t : Tree K V) (key : K) (x : V) → size (place t key x).0 ≡ size t + to_nat (place t key x).1
  unfolding place
  size-place leaf key x = refl
  size-place (node l k v r) key x = ground (arith, size-place l key x, size-place r key x)

  place_refused :
      (t : Tree K V) (key : K) (x : V)
      → (place t key x).1 ≡ false
      → ((place t key x).0 ≡ t) × Holds key x t
  unfolding place
  place_refused leaf key x h = cc
  place_refused (node l k v r) key x h =
      ground (arith, place_refused l key x, place_refused r key x, o.total key k, w.total x v)

  Holds-place_self : (t : Tree K V) (key : K) (x : V) → Holds key x (place t key x).0
  unfolding place
  Holds-place_self leaf key x = inr (inl (refl, refl))
  Holds-place_self (node l k v r) key x =
      ground (arith, Holds-place_self l key x, Holds-place_self r key x, o.total key k, w.total x v)

  Holds-place :
      (t : Tree K V) (key : K) (x : V) (a : K) (b : V) → Holds a b t → Holds a b (place t key x).0
  unfolding place
  Holds-place leaf key x a b h = absurd h.1
  Holds-place (node l k v r) key x a b h =
      ground (arith, Holds-place l key x a b, Holds-place r key x a b)

  Holds-of_place :
      (t : Tree K V) (key : K) (x : V) (a : K) (b : V)
      → Holds a b (place t key x).0
      → Holds a b t ⊎ (a ≡ key) × (b ≡ x)
  unfolding place
  Holds-of_place leaf key x a b h = ground arith
  Holds-of_place (node l k v r) key x a b h =
      ground (arith, Holds-of_place l key x a b, Holds-of_place r key x a b)

  place-Holds :
      (t : Tree K V) (key : K) (x : V) (a : K) (b : V)
      → Holds a b (place t key x).0 ↔ (Holds a b t ⊎ (a ≡ key) × (b ≡ x))
  place-Holds t key x a b = (Holds-of_place t key x a b, back)
    where
      back : Holds a b t ⊎ (a ≡ key) × (b ≡ x) → Holds a b (place t key x).0
      back (inl h) = Holds-place t key x a b h
      back (inr e) = rw (e.0, e.1) (Holds-place_self t key x)

  -- the outcome of the insertion of an entry
  pub record Inserted (t : Tree K V) (key : K) (x : V) (t' : Tree K V) (done : Bool)
      : Type (ℓ ⊔ κ) where
    pub ordered : IsPairOrdered t → IsPairOrdered t'
    pub counted : size t' ≡ size t + to_nat done
    pub holds : (a : K) (b : V) → Holds a b t' ↔ (Holds a b t ⊎ (a ≡ key) × (b ≡ x))
    pub refused : done ≡ false → (t' ≡ t) × Holds key x t

  -- On a tree with a root `insert_at` ends; the new tree is ordered by pairs if the old one is,
  -- holds its entries, the new entry and no others, and has one node more if the result says
  -- so; the result says no only when the tree holds the entry, and the tree is then as it was.
  pub insert_at-Inserted :
      (t : Tree K V) (key : K) (x : V)
      → t ≢ leaf
      → (t' : Tree K V) × (done : Bool) × (insert_at t key x ≡ ok (t', done))
        × Inserted t key x t' done
  insert_at-Inserted t key x n = (
    (place t key x).0,
    (place t key x).1,
    insert_at-place t key x n,
    record {
      ordered = place-IsPairOrdered t key x;
      counted = size-place t key x;
      holds = place-Holds t key x;
      refused = place_refused t key x;
    },
  )

  place-ne-leaf : (t : Tree K V) (key : K) (x : V) → (place t key x).0 ≢ leaf
  unfolding place
  place-ne-leaf leaf key x = ground arith
  place-ne-leaf (node l k v r) key x = ground arith

  abbrev pub Among : K → V → List (K × V) → Type (ℓ ⊔ κ)
  Among a b [] = Unit {ℓ ⊔ κ} × ⊥
  Among a b (x ∷ xs) = (a ≡ x.0) × (b ≡ x.1) ⊎ Among a b xs

  insert_range-Holds :
      (t : Tree K V) (xs : List (K × V))
      → t ≢ leaf
      → IsPairOrdered t
      → (t' : Tree K V) × (insert_range t xs ≡ ok t')
        × IsPairOrdered t'
        × ((a : K) (b : V) → Holds a b t' ↔ (Holds a b t ⊎ Among a b xs))
  unfolding insert_range
  insert_range-Holds t [] n s = (t, refl, s, (λ a b. (inl, λ h. ground arith)))
  insert_range-Holds t (x ∷ xs) n s =
      let (t', run, ordered, holds) =
        insert_range-Holds (place t x.0 x.1).0 xs (place-ne-leaf t x.0 x.1)
          (place-IsPairOrdered t x.0 x.1 s) in
      (
        t',
        rw (insert_at-place t x.0 x.1 n) run,
        ordered,
        (λ a b.
            let (from, to) = holds a b in
            let (from', to') = place-Holds t x.0 x.1 a b in
            (λ h. ground (arith, from h, from'), λ h. ground (arith, to, to'))),
      )

  -- A tree made from a range that is not empty is ordered by pairs and holds the entries of the
  -- range and no others.
  pub make_range-Holds :
      (x : K × V) (xs : List (K × V))
      → (t : Tree K V) × (make_range (x ∷ xs) ≡ ok t)
        × IsPairOrdered t
        × ((a : K) (b : V) → Holds a b t ↔ Among a b (x ∷ xs))
  unfolding make_range
  make_range-Holds x xs =
      let (t, run, ordered, holds) =
        insert_range-Holds (node leaf x.0 x.1 leaf) xs (ground arith) (tt, tt, tt, tt) in
      (
        t,
        run,
        ordered,
        (λ a b.
            let (from, to) = holds a b in (λ h. ground (arith, from h), λ h. ground (arith, to))),
      )
