-- ===== src/Memory/Cells.antt =====
-- Chains of nodes in a heap: which cells, in which order, end where.
use always_be_learning.Common.{
  ◌≡◌, refl, ap, ◌∙◌, ◌≢◌, inl, inr, Bool, true, false, ◌||◌, Bool-cases, Option, none, some, List,
  [], ◌∷◌, ◌++◌, arith, ◌==◌,
}
use always_be_learning.Memory.{Ptr, null, Node, Heap, node, ok, write, load, link_nodes, free_node}

-- the address and the content of each node, in order
abbrev pub Cells {ℓ} : Type ℓ → Type ℓ
Cells A = List (Ptr × A)

module _ {ℓ} {A : Type ℓ} where
  abbrev pub has : Ptr → Cells A → Bool
  has a [] = false
  has a ((p, _) ∷ xs) = (a == p) || has a xs

  infix 40 ◌∈◌ ◌∉◌
  abbrev pub ◌∈◌ : Ptr → Cells A → Type 0
  a ∈ xs = has a xs ≡ true

  abbrev pub ◌∉◌ : Ptr → Cells A → Type 0
  a ∉ xs = has a xs ≡ false

  -- where a chain of cells begins, if it leads to `stop`
  abbrev pub entry : Cells A → Ptr → Ptr
  entry [] stop = stop
  entry ((p, _) ∷ xs) stop = p

  -- the cells `xs` are distinct nodes of `h`, each linked to the next and the last to `stop`
  abbrev pub Chain : Heap A → Cells A → Ptr → Type ℓ
  Chain h [] stop = Unit
  Chain h ((p, v) ∷ xs) stop =
      (p ≢ null) × (h p ≡ some (node v (entry xs stop))) × (p ∉ xs) × Chain h xs stop

  -- `xs` has become `ys`: no address is new, what is outside is untouched, and what left is freed
  pub record Rewrites (h : Heap A) (xs ys : Cells A) (g : Heap A) : Type ℓ where
    pub chain : Chain g ys null
    pub outside : (a : Ptr) → a ∉ xs → (a ∉ ys) × (g a ≡ h a)
    pub freed : (a : Ptr) → a ∈ xs → a ∉ ys → g a ≡ none

  -- a chain survives a change of the heap that spares its cells
  pub Chain-frame :
      (h g : Heap A) (xs : Cells A) (stop : Ptr)
      → Chain h xs stop
      → ((a : Ptr) → a ∈ xs → g a ≡ h a)
      → Chain g xs stop
  Chain-frame h g [] stop c same = tt
  Chain-frame h g ((p, v) ∷ xs) stop c same =
      let rest = Chain-frame h g xs stop c.3 (λ a i. same a (ground arith)) in
      (c.0, ground (arith, same p), c.2, rest)

  pub Chain-write :
      (h : Heap A) (xs : Cells A) (stop a : Ptr) (n : Option (Node A))
      → Chain h xs stop
      → a ∉ xs
      → Chain (write h a n) xs stop
  unfolding write
  Chain-write h xs stop a n c out = Chain-frame h _ xs stop c (λ b i. ground arith)

  -- an address without a node is in no chain
  pub not-mem_of_none :
      (h : Heap A) (a : Ptr) (xs : Cells A) (stop : Ptr) → Chain h xs stop → h a ≡ none → a ∉ xs
  not-mem_of_none h a [] stop c e = refl
  not-mem_of_none h a ((p, v) ∷ xs) stop c e = ground (arith, not-mem_of_none h a xs stop c.3 e)

  module _ (h : Heap A) (p : Ptr) {v : A} {q : Ptr} (ne : p ≢ null)
      (e : h p ≡ some (node v q)) where
    pub load-ok : load p h ≡ ok (node v q) h
    unfolding load
    load-ok = ground arith

    pub link_nodes-ok : (r : Ptr) → link_nodes p r h ≡ ok tt (write h p (some (node v r)))
    unfolding link_nodes
    link_nodes-ok r = rw load-ok

    pub free_node-ok : free_node p h ≡ ok tt (write h p none)
    unfolding free_node
    free_node-ok = rw load-ok

pub not_null : {p : Ptr} → p ≢ null → (p == null) ≡ false
not_null ne = ground arith

module _ {ℓ} {A : Type ℓ} where
  pub Rewrites-refl : (h : Heap A) (xs : Cells A) → Chain h xs null → Rewrites h xs xs h
  Rewrites-refl h xs c = record { chain = c; outside = λ a o. (o, refl); freed = λ a i o. cc }

  pub Rewrites-trans :
      {h g k : Heap A} {xs ys zs : Cells A}
      → Rewrites h xs ys g
      → Rewrites g ys zs k
      → Rewrites h xs zs k
  Rewrites-trans {h} {g} {k} {xs} {ys} {zs} r s = record {
    chain = s.chain;
    outside = λ a o. ground (arith, r.outside a o, s.outside a);
    freed = λ a i o. elim (Bool-cases (has a ys)) [
      | inl stays ↦ s.freed a stays o
      | inr leaves ↦ (s.outside a leaves).1 ∙ r.freed a i leaves
    ];
  }

  -- a change behind the node `p` that keeps its successor
  pub Rewrites-cons :
      {h g : Heap A} {xs ys : Cells A} (p : Ptr) (v : A)
      → Chain h ((p, v) ∷ xs) null
      → entry xs null ≡ entry ys null
      → Rewrites h xs ys g
      → Rewrites h ((p, v) ∷ xs) ((p, v) ∷ ys) g
  Rewrites-cons {h} {g} {xs} {ys} p v c same r =
      let out = r.outside p c.2 in
      record {
        chain = (c.0, out.1 ∙ c.1 ∙ ap (λ q. some (node v q)) same, out.0, r.chain);
        outside = λ a o. ground (arith, r.outside a);
        freed = λ a i o. ground (arith, r.freed a);
      }

  pub entry-append :
      (ws : Cells A) (y : Ptr × A) (xs ys : Cells A)
      → entry (ws ++ y ∷ xs) null ≡ entry (ws ++ y ∷ ys) null
  entry-append [] y xs ys = refl
  entry-append (w ∷ ws) y xs ys = refl

  pub Rewrites-prefix :
      {h g : Heap A} (ws : Cells A) (y : Ptr × A) {xs ys : Cells A}
      → Chain h (ws ++ y ∷ xs) null
      → Rewrites h (y ∷ xs) (y ∷ ys) g
      → Rewrites h (ws ++ y ∷ xs) (ws ++ y ∷ ys) g
  Rewrites-prefix [] y c r = r
  Rewrites-prefix (w ∷ ws) y {xs} {ys} c r =
      Rewrites-cons w.0 w.1 c (entry-append ws y xs ys) (Rewrites-prefix ws y c.3 r)

  pub Chain-suffix : (h : Heap A) (ws xs : Cells A) → Chain h (ws ++ xs) null → Chain h xs null
  Chain-suffix h [] xs c = c
  Chain-suffix h (w ∷ ws) xs c = Chain-suffix h ws xs c.3
