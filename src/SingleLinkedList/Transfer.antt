-- ===== src/SingleLinkedList/Transfer.antt =====
-- `swap`, move construction and the assignments of single_linked_list.hpp: lists that exchange or
-- hand over their nodes. The allocators are equal.
use always_be_learning.Common.{
  ℕ, zero, suc, ◌<◌, ◌≡◌, refl, ◌≢◌, false, some, List, [], ◌∷◌, arith, ◌==◌, if◌then◌else◌, length,
}
use always_be_learning.Memory.{
  Ptr, null, Heap, node, write, Cmd, Allocator, Returns, pure, ◌>>=◌, ◌>>◌, load, link_nodes,
  out_of_fuel,
}
use always_be_learning.Memory.Cells.{
  Cells, ◌∈◌, ◌∉◌, entry, Chain, Chain-write, Chain-frame, load-ok, link_nodes-ok,
}
use always_be_learning.SingleLinkedList.Modifiers.{clear, make_range}
use always_be_learning.SingleLinkedList.Erase.{clear-Rewrites}

module _ {ℓ} {A : Type ℓ} where
  unfoldable pub swap : (head other : Ptr) → Cmd A (Unit {0})
  swap head other = do
    l ← load head
    r ← load other
    link_nodes head r.next
    link_nodes other l.next

  -- `head_.next = std::exchange(other.head_.next, nullptr)`
  unfoldable pub move_construct : (head other : Ptr) → Cmd A (Unit {0})
  move_construct head other = do r ← load other; link_nodes other null; link_nodes head r.next

  unfoldable pub move_assign : ℕ → (head other : Ptr) → Cmd A (Unit {0})
  move_assign fuel head other =
      if head == other then pure tt else do clear fuel head; move_construct head other

  -- the values that the iterators of a list give
  unfoldable pub values_from : ℕ → Ptr → Cmd A (List A)
  values_from zero p = λ _. out_of_fuel
  values_from (suc fuel) p =
      if p == null
      then pure []
      else do n ← load p; values ← values_from fuel n.next; pure (n.content ∷ values)

  -- `operator=` from a constant list
  unfoldable pub copy_values : Allocator A → Ptr → List A → Cmd A (Unit {0})
  copy_values alloc head [] = link_nodes head null
  copy_values alloc head (value ∷ values) = do
    nodes ← make_range alloc (value ∷ values)
    link_nodes head nodes.0

  unfoldable pub copy_assign : Allocator A → ℕ → (head other : Ptr) → Cmd A (Unit {0})
  copy_assign alloc fuel head other = if head == other then pure tt else do
    clear fuel head
    r ← load other
    values ← values_from fuel r.next
    copy_values alloc head values

  -- Two lists with heads apart from one another and from the elements of the other list hold each
  -- other's elements after `swap`.
  pub swap-Chain :
      (h : Heap A) (head other : Ptr) (d e : A) (xs ys : Cells A)
      → Chain h ((head, d) ∷ xs) null
      → Chain h ((other, e) ∷ ys) null
      → head ≢ other
      → head ∉ ys
      → other ∉ xs
      → Returns
          (swap head other h)
          λ _ g. Chain g ((head, d) ∷ ys) null × Chain g ((other, e) ∷ xs) null
  unfolding swap write
  swap-Chain h head other d e xs ys c k apart out out' =
      let h₁ = write h head (some (node d (entry ys null))) in
      let h₂ = write h₁ other (some (node e (entry xs null))) in
      let other₁ : h₁ other ≡ some (node e (entry ys null)) = ground arith in
      let xs₂ = Chain-write h₁ xs null other _ (Chain-write h xs null head _ c.3 c.2) out' in
      let ys₂ = Chain-write h₁ ys null other _ (Chain-write h ys null head _ k.3 out) k.2 in
      (
        tt,
        h₂,
        rw (
          load-ok h head c.0 c.1,
          load-ok h other k.0 k.1,
          link_nodes-ok h head c.0 c.1,
          link_nodes-ok h₁ other k.0 other₁,
        ),
        ((c.0, ground arith, out, ys₂), (k.0, ground arith, out', xs₂)),
      )

  move_construct-Chain :
      (h : Heap A) (head other : Ptr) (d e : A) (ys : Cells A)
      → Chain h ((head, d) ∷ []) null
      → Chain h ((other, e) ∷ ys) null
      → head ≢ other
      → head ∉ ys
      → Returns
          (move_construct head other h)
          λ _ g. Chain g ((head, d) ∷ ys) null × Chain g ((other, e) ∷ []) null
  unfolding move_construct write
  move_construct-Chain h head other d e ys c k apart out =
      let h₁ = write h other (some (node e null)) in
      let h₂ = write h₁ head (some (node d (entry ys null))) in
      let head₁ : h₁ head ≡ some (node d null) = ground arith in
      let ys₂ = Chain-write h₁ ys null head _ (Chain-write h ys null other _ k.3 k.2) out in
      (
        tt,
        h₂,
        rw (
          load-ok h other k.0 k.1,
          link_nodes-ok h other k.0 k.1,
          link_nodes-ok h₁ head c.0 head₁,
        ),
        ((c.0, ground arith, out, ys₂), (k.0, ground arith, refl, tt)),
      )

  -- When a list is assigned by move from another that shares no node with it, given more rounds
  -- than it has elements, it ends with the nodes of the other list, which is empty then.
  pub move_assign-Chain :
      (fuel : ℕ) (h : Heap A) (head other : Ptr) (d e : A) (xs ys : Cells A)
      → length xs < fuel
      → Chain h ((head, d) ∷ xs) null
      → Chain h ((other, e) ∷ ys) null
      → ((a : Ptr) → a ∈ (other, e) ∷ ys → a ∉ (head, d) ∷ xs)
      → Returns
          (move_assign fuel head other h)
          λ _ g. Chain g ((head, d) ∷ ys) null × Chain g ((other, e) ∷ []) null
  unfolding move_assign
  move_assign-Chain fuel h head other d e xs ys f c k apart =
      let (u, g, run, r) = clear-Rewrites fuel h head d xs f c in
      let k' = Chain-frame h g ((other, e) ∷ ys) null k (λ a i. (r.outside a (apart a i)).1) in
      let ne : head ≢ other = ground (arith, apart other) in
      let out : head ∉ ys = ground (arith, apart head) in
      let (u', g', run', post) = move_construct-Chain g head other d e ys r.chain k' ne out in
      let test : (head == other) ≡ false = ground arith in (u', g', rw (test, run) run', post)
