-- ===== src/SingleLinkedList/Erase.antt =====
-- `pop_front`, `erase_after` and `clear`.
use mathlib.Core.List.{tail}
use always_be_learning.Common.{
  ℕ, zero, suc, ◌<◌, ◌≡◌, refl, none, some, [], ◌∷◌, ◌++◌, arith, length,
}
use always_be_learning.Memory.{Ptr, null, Heap, node, write, Returns}
use always_be_learning.Memory.Cells.{
  Cells, entry, Chain, Chain-suffix, Rewrites, Rewrites-refl, Rewrites-prefix, load-ok,
  link_nodes-ok, free_node-ok, not_null,
}
use always_be_learning.SingleLinkedList.Modifiers.{pop_front, erase_after, clear}
use always_be_learning.SingleLinkedList.Remove.{unlink-Chain, unlink-Rewrites}

module _ {ℓ} {A : Type ℓ} where
  -- At any position of a list that another node follows, `erase_after` ends with that node
  -- freed and the others linked as before; it returns the node behind, or null, and leaves
  -- every node outside of the list as it was.
  pub erase_after-Rewrites :
      (h : Heap A) (pos p : Ptr) (u v : A) (ws xs : Cells A)
      → Chain h (ws ++ (pos, u) ∷ (p, v) ∷ xs) null
      → Returns (erase_after pos h) λ r g.
        (r ≡ entry xs null) × Rewrites h (ws ++ (pos, u) ∷ (p, v) ∷ xs) (ws ++ (pos, u) ∷ xs) g
  unfolding erase_after
  erase_after-Rewrites h pos p u v ws xs c =
      let s = Chain-suffix h ws ((pos, u) ∷ (p, v) ∷ xs) c in
      let h₁ = write h pos (some (node u (entry xs null))) in
      let h₂ = write h₁ p none in
      let e₁ : h₁ p ≡ some (node v (entry xs null)) = unfold write in ground arith in
      let c₂ = unlink-Chain h pos p u v xs s in
      (
        entry xs null,
        h₂,
        rw (
          not_null s.0,
          load-ok h pos s.0 s.1,
          not_null s.3.0,
          load-ok h p s.3.0 s.3.1,
          link_nodes-ok h pos s.0 s.1,
          free_node-ok h₁ p s.3.0 e₁,
          load-ok h₂ pos c₂.0 c₂.1,
        ),
        (
          refl,
          Rewrites-prefix ws (pos, u) c (unlink-Rewrites pos p u v xs xs s (Rewrites-refl h₂ _ c₂)),
        ),
      )

  -- On a list `pop_front` ends with the first element freed, an empty list as it is, and every
  -- node outside of the list as it was.
  pub pop_front-Rewrites :
      (h : Heap A) (head : Ptr) (d : A) (xs : Cells A)
      → Chain h ((head, d) ∷ xs) null
      → Returns (pop_front head h) (λ _. Rewrites h ((head, d) ∷ xs) ((head, d) ∷ tail xs))
  unfolding pop_front
  pop_front-Rewrites h head d [] c = (tt, h, rw (load-ok h head c.0 c.1), Rewrites-refl h _ c)
  pop_front-Rewrites h head d ((p, v) ∷ xs) c =
      let h₁ = write h head (some (node d (entry xs null))) in
      let e₁ : h₁ p ≡ some (node v (entry xs null)) = unfold write in ground arith in
      let c₂ = unlink-Chain h head p d v xs c in
      (
        tt,
        write h₁ p none,
        rw (
          load-ok h head c.0 c.1,
          not_null c.3.0,
          load-ok h p c.3.0 c.3.1,
          link_nodes-ok h head c.0 c.1,
          free_node-ok h₁ p c.3.0 e₁,
        ),
        unlink-Rewrites head p d v xs xs c (Rewrites-refl _ _ c₂),
      )

  -- On a list, given more rounds than it has elements, `clear` ends with an empty list and
  -- every element freed, and every node outside of the list as it was.
  pub clear-Rewrites :
      (fuel : ℕ) (h : Heap A) (head : Ptr) (d : A) (xs : Cells A)
      → length xs < fuel
      → Chain h ((head, d) ∷ xs) null
      → Returns (clear fuel head h) (λ _. Rewrites h ((head, d) ∷ xs) ((head, d) ∷ []))
  unfolding clear
  clear-Rewrites zero h head d xs f c = absurd (omega arith)
  clear-Rewrites (suc fuel) h head d [] f c =
      (tt, h, rw (load-ok h head c.0 c.1), Rewrites-refl h _ c)
  clear-Rewrites (suc fuel) h head d ((p, v) ∷ xs) f c =
      let h₁ = write h head (some (node d (entry xs null))) in
      let e₁ : h₁ p ≡ some (node v (entry xs null)) = unfold write in ground arith in
      let c₂ = unlink-Chain h head p d v xs c in
      let (u, g, run, r) = clear-Rewrites fuel (write h₁ p none) head d xs (omega arith) c₂ in
      (
        u,
        g,
        rw
            (
              load-ok h head c.0 c.1,
              not_null c.3.0,
              load-ok h p c.3.0 c.3.1,
              link_nodes-ok h head c.0 c.1,
              free_node-ok h₁ p c.3.0 e₁,
            )
            run,
        unlink-Rewrites head p d v xs [] c r,
      )
