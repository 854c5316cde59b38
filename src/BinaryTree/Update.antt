-- ===== src/BinaryTree/Update.antt =====
-- Searching for a link and writing through it is an update along one path of the tree.
use always_be_learning.Common.{◌≡◌, refl, ◌≢◌, true, false, Option, none, some, [], ◌∷◌, arith}
use always_be_learning.BinaryTree.Order.{Ordered, ◌≺◌}
use always_be_learning.BinaryTree.Tree.{
  Tree, leaf, node, Link, into_left, into_right, plug, find_node_with_link,
}

module _ {ℓ κ} {K : Type ℓ} {V : Type κ} where
  -- the keys of the tree satisfy `P`
  abbrev pub Every {μ} : (K → Type μ) → Tree K V → Type μ
  Every P leaf = Unit
  Every P (node left key x right) = Every P left × P key × Every P right

  pub Every-imp {μ ν} :
      {P : K → Type μ} {Q : K → Type ν}
      → ((key : K) → P key → Q key)
      → (tree : Tree K V) → Every P tree
      → Every Q tree
  Every-imp weaken leaf h = tt
  Every-imp weaken (node left key x right) h =
      (Every-imp weaken left h.0, weaken key h.1, Every-imp weaken right h.2)

module _ {ℓ κ} {K : Type ℓ} {V : Type κ} ⦃o : Ordered K⦄ where
  -- the search-tree invariant
  abbrev pub IsOrdered : Tree K V → Type 0
  IsOrdered leaf = Unit
  IsOrdered (node l k v r) = Every (λ x. x ≺ k) l × Every (λ x. k ≺ x) r × IsOrdered l × IsOrdered r

  -- the value under a key, the abstract view of a tree
  unfoldable pub lookup : Tree K V → K → Option V
  lookup leaf q = none
  lookup (node l k v r) q = elim (o.less k q) [
    | true ↦ lookup r q
    | false ↦ elim (o.less q k) [ true ↦ lookup l q | false ↦ some v ]
  ]

  -- `f` applied to the subtree at which the search for `key` ends
  unfoldable pub update : (Tree K V → Tree K V) → Tree K V → K → Tree K V
  update f leaf key = f leaf
  update f (node l k v r) key = elim (o.less k key) [
    | true ↦ node l k v (update f r key)
    | false ↦ elim (o.less key k) [ true ↦ node (update f l key) k v r | false ↦ f (node l k v r) ]
  ]

  plug-find :
      (f : Tree K V → Tree K V) (t : Tree K V) (key : K) (link : Link K V)
      → plug (find_node_with_link t key link).0 (f (find_node_with_link t key link).1)
        ≡ plug link (update f t key)
  unfolding find_node_with_link update plug
  plug-find f leaf key link = refl
  plug-find f (node l k v r) key link = ground (
    arith,
    plug-find f r key (into_right l k v ∷ link),
    plug-find f l key (into_left k v r ∷ link),
  )

  pub plug-find_root :
      (f : Tree K V → Tree K V) (t : Tree K V) (key : K)
      → plug (find_node_with_link t key []).0 (f (find_node_with_link t key []).1) ≡ update f t key
  unfolding plug
  plug-find_root f t key = plug-find f t key []

  -- the subtree that the search for `key` may end at
  abbrev pub EndsAt : K → Tree K V → Type ℓ
  EndsAt key leaf = Unit
  EndsAt key (node l k v r) = k ≡ key

  -- `f` changes the entry at `key` by `w`, and no other, in the subtree where the search ends
  pub record IsLocal (key : K) (w : Option V → Option V) (f : Tree K V → Tree K V)
      : Type (ℓ ⊔ κ ⊔ 1) where
    pub all : (P : K → Type 0) (t : Tree K V) → EndsAt key t → P key → Every P t → Every P (f t)
    pub ordered : (t : Tree K V) → EndsAt key t → IsOrdered t → IsOrdered (f t)
    pub here : (t : Tree K V) → EndsAt key t → IsOrdered t → lookup (f t) key ≡ w (lookup t key)
    pub there :
        (t : Tree K V) (q : K) → EndsAt key t → IsOrdered t → q ≢ key → lookup (f t) q ≡ lookup t q

  pub lookup_below :
      (t : Tree K V) (b q : K) → Every (λ x. x ≺ b) t → o.less q b ≡ false → lookup t q ≡ none
  unfolding lookup
  lookup_below leaf b q a h = refl
  lookup_below (node l k v r) b q a h =
      ground (arith, lookup_below l b q, lookup_below r b q, o.total k q, o.trans q k b)

  pub lookup_above :
      (t : Tree K V) (b q : K) → Every (λ x. b ≺ x) t → o.less b q ≡ false → lookup t q ≡ none
  unfolding lookup
  lookup_above leaf b q a h = refl
  lookup_above (node l k v r) b q a h =
      ground (arith, lookup_above l b q, lookup_above r b q, o.total k q, o.trans b k q)

  module _ {key : K} {w : Option V → Option V} {f : Tree K V → Tree K V}
      (loc : IsLocal key w f) where
    Every-update : (P : K → Type 0) (t : Tree K V) → P key → Every P t → Every P (update f t key)
    unfolding update
    Every-update P leaf p a = loc.all P leaf tt p a
    Every-update P (node l k v r) p a =
        ground
          (arith, Every-update P l p, Every-update P r p, o.total k key, loc.all P (node l k v r))

    pub update-IsOrdered : (t : Tree K V) → IsOrdered t → IsOrdered (update f t key)
    unfolding update
    update-IsOrdered leaf s = loc.ordered leaf tt s
    update-IsOrdered (node l k v r) s = ground (
      arith,
      update-IsOrdered l,
      update-IsOrdered r,
      Every-update (λ x. x ≺ k) l,
      Every-update (λ x. k ≺ x) r,
      o.total k key,
      loc.ordered (node l k v r),
    )

    pub lookup-update_self :
        (t : Tree K V) → IsOrdered t → lookup (update f t key) key ≡ w (lookup t key)
    unfolding update lookup
    lookup-update_self leaf s = loc.here leaf tt s
    lookup-update_self (node l k v r) s =
        ground (
          arith,
          lookup-update_self l,
          lookup-update_self r,
          o.total k key,
          loc.here (node l k v r),
        )

    pub lookup-update_ne :
        (t : Tree K V) (q : K) → IsOrdered t → q ≢ key → lookup (update f t key) q ≡ lookup t q
    unfolding update lookup
    lookup-update_ne leaf q s n = loc.there leaf q tt s n
    lookup-update_ne (node l k v r) q s n = ground (
      arith,
      lookup-update_ne l q,
      lookup-update_ne r q,
      o.total k key,
      loc.there (node l k v r) q,
    )
