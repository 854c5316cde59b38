-- ===== src/SingleLinkedList/Construction.antt =====
-- The constructor of single_linked_list.hpp from a range, which the copy constructors go through.
use always_be_learning.Common.{
  ◌≡◌, refl, ap, ◌⊎◌, inl, inr, none, some, List, [], ◌∷◌, arith, Bool-cases, Option-cases, ◌≢◌,
  ◌∙◌,
}
use always_be_learning.Memory.{Ptr, null, Heap, Run, Node, node, write, ok, bad_alloc, Allocator}
use always_be_learning.Memory.Cells.{Cells, ◌∉◌, has, Chain, Chain-write, link_nodes-ok}
use always_be_learning.Memory.Growth.{Grows}
use always_be_learning.SingleLinkedList.Insert.{make_node-ok, make_node_fails}
use always_be_learning.SingleLinkedList.Modifiers.{extend, make_range, construct_range}

module _ {ℓ} {A : Type ℓ} where
  abbrev pub contents : Cells A → List A
  contents [] = []
  contents ((_, v) ∷ xs) = v ∷ contents xs

  -- The run hangs new nodes with the values behind the node `b`, which was the last, or ends with
  -- `std::bad_alloc` where the allocator gives no address.
  abbrev pub Appends {κ} :
      {B : Type κ} → Allocator A → Heap A → Ptr → A → List A → Run A B → Type (ℓ ⊔ κ)
  Appends {B} alloc h b u values r =
      ((g : Heap A) × (r ≡ bad_alloc g) × (alloc.allocate g ≡ none))
      ⊎ ((q : B) × (g : Heap A) × (xs : Cells A) × (r ≡ ok q g)
          × (contents xs ≡ values)
          × Grows h ((b, u) ∷ []) ((b, u) ∷ xs) g)

  node_ne_unused : (h : Heap A) (b p : Ptr) (n : Node A) → h b ≡ some n → h p ≡ none → b ≢ p
  node_ne_unused h b p n e unused same = ground (arith, e, unused)

  spared :
      (k g : Heap A) (b p : Ptr) (n : Node A) (v : A) (xs : Cells A)
      → Grows k ((p, v) ∷ []) ((p, v) ∷ xs) g
      → b ≢ p
      → k b ≡ some n
      → (b ∉ ((p, v) ∷ xs)) × (g b ≡ some n)
  spared k g b p n v xs r ne e = elim (Bool-cases (has b ((p, v) ∷ xs))) [
    | inr o ↦ (o, r.outside b o ∙ e)
    | inl i ↦ absurd (ground (arith, e, r.fresh b i (ground arith)))
  ]

  -- a node that is new, with what was hung behind it since
  linked-Grows :
      (h g : Heap A) (b p : Ptr) (u v : A) (xs : Cells A)
      → Chain h ((b, u) ∷ []) null
      → h p ≡ none
      → Grows
          (write (write h p (some (node v null))) b (some (node u p)))
          ((p, v) ∷ [])
          ((p, v) ∷ xs)
          g
      → Grows h ((b, u) ∷ []) ((b, u) ∷ (p, v) ∷ xs) g
  unfolding write
  linked-Grows h g b p u v xs c unused r =
      let ne = node_ne_unused h b p (node u null) c.1 unused in
      let (out, kept) = spared _ g b p (node u p) v xs r ne (ground arith) in
      record {
        chain = (c.0, kept, out, r.chain);
        outside = λ a o. ground (arith, r.outside a);
        fresh = λ a i o. ground (arith, r.fresh a);
      }

  -- a new node with what was hung behind it, linked last
  headed-Grows :
      (h g : Heap A) (b p : Ptr) (u v : A) (xs : Cells A)
      → Chain h ((b, u) ∷ []) null
      → h p ≡ none
      → Grows (write h p (some (node v null))) ((p, v) ∷ []) ((p, v) ∷ xs) g
      → (b ∉ ((p, v) ∷ xs))
        × (g b ≡ some (node u null))
        × Grows h ((b, u) ∷ []) ((b, u) ∷ (p, v) ∷ xs) (write g b (some (node u p)))
  unfolding write
  headed-Grows h g b p u v xs c unused r =
      let ne = node_ne_unused h b p (node u null) c.1 unused in
      let (out, kept) = spared _ g b p (node u null) v xs r ne (ground (arith, c.1)) in
      (
        out,
        kept,
        record {
          chain = (
            c.0,
            ground arith,
            out,
            Chain-write g ((p, v) ∷ xs) null b (some (node u p)) r.chain out,
          );
          outside = λ a o. ground (arith, r.outside a);
          fresh = λ a i o. ground (arith, r.fresh a);
        },
      )

module _ {ℓ} {A : Type ℓ} (alloc : Allocator A) where
  extend-Appends :
      (values : List A) (h : Heap A) (b : Ptr) (u : A)
      → Chain h ((b, u) ∷ []) null
      → Appends alloc h b u values (extend alloc values b h)
  unfolding extend
  extend-Appends [] h b u c =
      inr (b, h, [], refl, refl, record { chain = c; outside = λ a o. refl; fresh = λ a i o. cc })
  extend-Appends (v ∷ values) h b u c = elim (Option-cases (alloc.allocate h)) [
    | inl e ↦ inl (h, rw (make_node_fails alloc h v e) refl, e)
    | inr (p, e) ↦
        let ne = node_ne_unused h b p (node u null) c.1 (alloc.unused h p e) in
        let h₁ = write h p (some (node v null)) in
        let h₂ = write h₁ b (some (node u p)) in
        let at_b : h₁ b ≡ some (node u null) = unfold write in ground (arith, c.1) in
        let at_p : h₂ p ≡ some (node v null) = unfold write in ground arith in
        let made = make_node-ok alloc h v p e in
        let linked = link_nodes-ok h₁ b c.0 at_b p in
        elim (extend-Appends values h₂ p v (alloc.ne_null h p e, at_p, refl, tt)) [
          | inl (g, run, full) ↦ inl (g, rw (made, linked) run, full)
          | inr (q, g, xs, run, same, r) ↦ inr (
            q,
            g,
            (p, v) ∷ xs,
            rw (made, linked) run,
            ap (◌∷◌ v) same,
            linked-Grows h g b p u v xs c (alloc.unused h p e) r,
          )
        ]
  ]

  -- Behind the head of an empty list, the constructor from a range that is not empty ends with new
  -- nodes with the values of the range, in order, and every other node as it was; or with
  -- `std::bad_alloc`, at a heap in which the allocator gives no address.
  pub construct_range-Appends :
      (h : Heap A) (head : Ptr) (d v : A) (values : List A)
      → Chain h ((head, d) ∷ []) null
      → Appends alloc h head d (v ∷ values) (construct_range alloc head (v ∷ values) h)
  unfolding construct_range make_range
  construct_range-Appends h head d v values c = elim (Option-cases (alloc.allocate h)) [
    | inl e ↦ inl (h, rw (make_node_fails alloc h v e) refl, e)
    | inr (p, e) ↦
        let h₁ = write h p (some (node v null)) in
        let at_p : h₁ p ≡ some (node v null) = unfold write in ground arith in
        let made = make_node-ok alloc h v p e in
        elim (extend-Appends values h₁ p v (alloc.ne_null h p e, at_p, refl, tt)) [
          | inl (g, run, full) ↦ inl (g, rw (made, run) refl, full)
          | inr (q, g, xs, run, same, r) ↦
              let (out, kept, grown) = headed-Grows h g head p d v xs c (alloc.unused h p e) r in
              inr (
                tt,
                write g head (some (node d p)),
                (p, v) ∷ xs,
                rw (made, run, link_nodes-ok g head c.0 kept p) refl,
                ap (◌∷◌ v) same,
                grown,
              )
        ]
  ]
