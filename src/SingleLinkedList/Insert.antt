-- ===== src/SingleLinkedList/Insert.antt =====
-- `push_front`, `insert_after` and their `emplace` forms.
use always_be_learning.Common.{◌≡◌, refl, none, some, ◌∷◌, ◌++◌, arith}
use always_be_learning.Memory.{
  Ptr, null, Heap, node, write, ok, bad_alloc, violated, Returns, Allocator, make_node,
}
use always_be_learning.Memory.Cells.{
  Cells, entry, Chain, Chain-suffix, load-ok, link_nodes-ok, not_null, not-mem_of_none,
}
use always_be_learning.Memory.Growth.{Grows, insert-Grows, Grows-prefix}
use always_be_learning.SingleLinkedList.Modifiers.{push_front, insert_after}

module _ {ℓ} {A : Type ℓ} (alloc : Allocator A) where
  pub make_node-ok :
      (h : Heap A) (v : A) (p : Ptr)
      → alloc.allocate h ≡ some p
      → make_node alloc v h ≡ ok p (write h p (some (node v null)))
  unfolding make_node
  make_node-ok h v p e = ground arith

  pub make_node_fails :
      (h : Heap A) (v : A) → alloc.allocate h ≡ none → make_node alloc v h ≡ bad_alloc h
  unfolding make_node
  make_node_fails h v e = ground arith

  insert_after_suffix :
      (h : Heap A) (pos p : Ptr) (u v : A) (xs : Cells A)
      → alloc.allocate h ≡ some p
      → Chain h ((pos, u) ∷ xs) null
      → Returns
          (insert_after alloc pos v h)
          λ r g. (r ≡ p) × Grows h ((pos, u) ∷ xs) ((pos, u) ∷ (p, v) ∷ xs) g
  unfolding insert_after
  insert_after_suffix h pos p u v xs e c =
      let ne = alloc.ne_null h p e in
      let unused = alloc.unused h p e in
      let h₁ = write h p (some (node v null)) in
      let h₂ = write h₁ p (some (node v (entry xs null))) in
      let out = not-mem_of_none h p ((pos, u) ∷ xs) null c unused in
      let e₁ : h₁ p ≡ some (node v null) = unfold write in ground arith in
      let at₁ : h₁ pos ≡ some (node u (entry xs null)) = unfold write in ground arith in
      let at₂ : h₂ pos ≡ some (node u (entry xs null)) = unfold write in ground arith in
      (
        p,
        write h₂ pos (some (node u p)),
        rw (
          not_null c.0,
          make_node-ok h v p e,
          load-ok h₁ pos c.0 at₁,
          link_nodes-ok h₁ p ne e₁,
          link_nodes-ok h₂ pos c.0 at₂,
        ),
        (refl, insert-Grows h pos p u v xs ne unused c),
      )

  -- At any position of a list, the one before the first element included, when the allocator
  -- gives an address `insert_after` returns it as a new node directly behind the position, with
  -- every node outside of the list as it was; when the allocator gives none, it ends with
  -- `std::bad_alloc` and the heap as it was.
  pub insert_after-Grows :
      (h : Heap A) (pos : Ptr) (u v : A) (ws xs : Cells A)
      → Chain h (ws ++ (pos, u) ∷ xs) null
      → ((p : Ptr)
          → alloc.allocate h ≡ some p
          → Returns
              (insert_after alloc pos v h)
              λ r g. (r ≡ p) × Grows h (ws ++ (pos, u) ∷ xs) (ws ++ (pos, u) ∷ (p, v) ∷ xs) g)
        × (alloc.allocate h ≡ none → insert_after alloc pos v h ≡ bad_alloc h)
  unfolding insert_after
  insert_after-Grows h pos u v ws xs c =
      let s = Chain-suffix h ws ((pos, u) ∷ xs) c in
      (
        (λ p e.
            let (r, g, run, (same, grows)) = insert_after_suffix h pos p u v xs e s in
            (r, g, run, (same, Grows-prefix ws (pos, u) c grows))),
        (λ e. rw (not_null s.0, make_node_fails h v e)),
      )

  -- at `end()` it breaks its contract
  insert_after_end : (h : Heap A) (v : A) → insert_after alloc null v h ≡ violated
  unfolding insert_after
  insert_after_end h v = refl

  -- On a list `push_front` does what `insert_after` does at `before_begin()`.
  push_front-eq-insert_after :
      (h : Heap A) (head : Ptr) (d v : A) (xs : Cells A)
      → Chain h ((head, d) ∷ xs) null
      → push_front alloc head v h ≡ insert_after alloc head v h
  unfolding push_front insert_after
  push_front-eq-insert_after h head d v xs c = rw (not_null c.0)
