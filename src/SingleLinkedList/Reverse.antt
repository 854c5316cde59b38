-- ===== src/SingleLinkedList/Reverse.antt =====
-- `reverse` of single_linked_list.hpp against the reversal of a sequence.
use mathlib.Core.List
use mathlib.Core.List.{reverse_aux}
use always_be_learning.Common.{ℕ, zero, suc, ◌<◌, ◌≡◌, refl, ◌||◌, some, [], ◌∷◌, arith, length}
use always_be_learning.Memory.{Ptr, null, Heap, node, write, Returns}
use always_be_learning.Memory.Cells.{
  Cells, has, ◌∈◌, ◌∉◌, entry, Chain, Rewrites, Chain-write, load-ok, link_nodes-ok, not_null,
}
use always_be_learning.SingleLinkedList.Operations.{reverse_loop, reverse}

module _ {ℓ} {A : Type ℓ} where
  has-reverse_aux : (a : Ptr) (xs ys : Cells A) → has a (reverse_aux xs ys) ≡ (has a xs || has a ys)
  has-reverse_aux a [] ys = refl
  has-reverse_aux a ((p, v) ∷ xs) ys = ground (arith, has-reverse_aux a xs ((p, v) ∷ ys))

  -- `xs` is still to be turned round, `ys` already hangs behind the head
  reverse_loop-Chain :
      (fuel : ℕ) (h : Heap A) (head : Ptr) (d : A) (xs ys : Cells A)
      → length xs < fuel
      → Chain h xs null
      → Chain h ((head, d) ∷ ys) null
      → ((a : Ptr) → a ∈ xs → a ∉ (head, d) ∷ ys)
      → Returns (reverse_loop fuel head (entry xs null) h) λ _ g.
        Chain g ((head, d) ∷ reverse_aux xs ys) null × ((a : Ptr) → a ∉ (head, d) ∷ xs → g a ≡ h a)
  unfolding reverse_loop write
  reverse_loop-Chain zero h head d xs ys f c k apart = absurd (omega arith)
  reverse_loop-Chain (suc fuel) h head d [] ys f c k apart = (tt, h, refl, (k, λ a o. refl))
  reverse_loop-Chain (suc fuel) h head d ((p, v) ∷ xs) ys f c k apart =
      let new : p ∉ (head, d) ∷ ys = apart p (ground arith) in
      let h₁ = write h p (some (node v (entry ys null))) in
      let h₂ = write h₁ head (some (node d p)) in
      let head₁ : h₁ head ≡ some (node d (entry ys null)) = ground arith in
      let rest =
        Chain-write h₁ xs null head _ (Chain-write h xs null p _ c.3 c.2)
          (ground (arith, apart head)) in
      let tail = Chain-write h₁ ys null head _ (Chain-write h ys null p _ k.3 (ground arith)) k.2 in
      let (u, g, run, post) =
        reverse_loop-Chain fuel h₂ head d xs ((p, v) ∷ ys) (omega arith) rest
          (k.0, ground arith, ground arith, (c.0, ground arith, ground arith, tail))
          (λ a i. ground (arith, apart a)) in
      (
        u,
        g,
        rw
            (
              not_null c.0,
              load-ok h p c.0 c.1,
              load-ok h head k.0 k.1,
              link_nodes-ok h p c.0 c.1,
              link_nodes-ok h₁ head k.0 head₁,
            )
            run,
        (post.0, λ a o. ground (arith, post.1 a)),
      )

  -- On a list, given more rounds than it has elements, `reverse` ends with the same nodes
  -- linked in reverse order, and every node outside of the list as it was.
  pub reverse-Rewrites :
      (fuel : ℕ) (h : Heap A) (head : Ptr) (d : A) (xs : Cells A)
      → length xs < fuel
      → Chain h ((head, d) ∷ xs) null
      → Returns
          (reverse fuel head h)
          (λ _. Rewrites h ((head, d) ∷ xs) ((head, d) ∷ List.reverse xs))
  unfolding reverse write
  reverse-Rewrites fuel h head d xs f c =
      let h₁ = write h head (some (node d null)) in
      let (u, g, run, post) =
        reverse_loop-Chain fuel h₁ head d xs [] f (Chain-write h xs null head _ c.3 c.2)
          (c.0, ground arith, refl, tt) (λ a i. ground arith) in
      (
        u,
        g,
        rw (load-ok h head c.0 c.1, link_nodes-ok h head c.0 c.1) run,
        record {
          chain = post.0;
          outside = λ a o. (ground (arith, has-reverse_aux a xs []), ground (arith, post.1 a));
          freed = λ a i o. ground (arith, has-reverse_aux a xs []);
        },
      )
