-- ===== src/SingleLinkedList/Merge.antt =====
-- What `merge` of single_linked_list.hpp does to a run of several nodes of the other list.
use always_be_learning.Common.{
  ℕ, zero, suc, ◌+◌, ◌<◌, ◌≡◌, refl, Bool, some, [], ◌∷◌, arith, length,
}
use always_be_learning.Memory.{Ptr, null, Heap, node, ok, write, Returns}
use always_be_learning.Memory.Cells.{
  Cells, ◌∈◌, ◌∉◌, entry, Chain, load-ok, link_nodes-ok, not_null,
}
use always_be_learning.SingleLinkedList.Operations.{merge_left, merge_right, merge_loop, merge}

module _ {ℓ} {A : Type ℓ} (cmp : A → A → Bool) where
  -- with no node left on the left the second inner loop runs to the end of the right list
  merge_right_end :
      (fuel : ℕ) (h : Heap A) (ys : Cells A)
      → length ys < fuel
      → Chain h ys null
      → merge_right cmp fuel null (entry ys null) h ≡ ok null h
  unfolding merge_right
  merge_right_end zero h ys f c = absurd (omega arith)
  merge_right_end (suc fuel) h [] f c = refl
  merge_right_end (suc fuel) h ((p, v) ∷ ys) f c =
      rw (not_null c.0, load-ok h p c.0 c.1) (merge_right_end fuel h ys (omega arith) c.3)

  -- Given more than one round for each node, the merge of a list that is not empty into an
  -- empty list, with heads apart, ends with the first node alone in the one list and none in
  -- the other; the nodes behind the first are as they were, so they are in neither list and not
  -- freed.
  pub merge_loses_nodes :
      (fuel : ℕ) (h : Heap A) (head other p : Ptr) (d e v : A) (ys : Cells A)
      → length ys + 1 < fuel
      → Chain h ((head, d) ∷ []) null
      → Chain h ((other, e) ∷ (p, v) ∷ ys) null
      → head ∉ (other, e) ∷ (p, v) ∷ ys
      → Returns (merge cmp fuel head other h) λ _ g.
        Chain g ((head, d) ∷ (p, v) ∷ []) null
        × Chain g ((other, e) ∷ []) null
        × ((a : Ptr) → a ∈ ys → g a ≡ h a)
  unfolding merge merge_loop merge_left write
  merge_loses_nodes zero h head other p d e v ys f c k out = absurd (omega arith)
  merge_loses_nodes (suc zero) h head other p d e v ys f c k out = absurd (omega arith)
  merge_loses_nodes (suc (suc fuel)) h head other p d e v ys f c k out =
      let h₁ = write h head (some (node d p)) in
      let h₂ = write h₁ other (some (node e null)) in
      let h₃ = write h₂ p (some (node v null)) in
      let other₁ : h₁ other ≡ some (node e p) = ground arith in
      let p₂ : h₂ p ≡ some (node v (entry ys null)) = ground arith in
      (
        tt,
        h₃,
        rw (
          load-ok h head c.0 c.1,
          load-ok h other k.0 k.1,
          not_null k.3.0,
          load-ok h p k.3.0 k.3.1,
          merge_right_end (suc (suc fuel)) h ys (omega arith) k.3.3,
          link_nodes-ok h head c.0 c.1,
          link_nodes-ok h₁ other k.0 other₁,
          link_nodes-ok h₂ p k.3.0 p₂,
        ),
        (
          (c.0, ground arith, ground arith, (k.3.0, ground arith, refl, tt)),
          (k.0, ground arith, refl, tt),
          (λ a i. ground arith),
        ),
      )
