-- ===== src/SingleLinkedList/Sort.antt =====
-- `sort` of single_linked_list.hpp: a bubble sort that relinks nodes.
use mathlib.Core.List.{Perm}
use mathlib.Core.List.Perm
use always_be_learning.Common.{
  ℕ, zero, suc, ◌<◌, ◌≡◌, ◌≢◌, ◌≤◌, ◌∙◌, refl, inl, inr, Bool, true, false, ◌&&◌, some, [], ◌∷◌,
  arith, ◌==◌, Bool-cases, length,
}
use always_be_learning.Memory.{Ptr, null, Heap, node, write, Returns}
use always_be_learning.Memory.Cells.{
  Cells, entry, Chain, Rewrites, Rewrites-refl, Rewrites-cons, Rewrites-trans, Chain-write, load-ok,
  link_nodes-ok, not_null,
}
use always_be_learning.SingleLinkedList.Operations.{swap_nodes, sort_pass, sort_loop, sort}
use always_be_learning.SingleLinkedList.Bubble.{
  bubble, swaps, inversions, IsSorted, bubble-perm, inversions-bubble, bubble_still, bubble-ne-nil,
  length-bubble,
}

no_flag : (sorted : Bool) (n : ℕ) → false ≡ (sorted && (suc n == 0))
no_flag true n = ground arith
no_flag false n = refl

module _ {ℓ} {A : Type ℓ} (cmp : A → A → Bool) where
  -- the three writes of `swap_nodes` exchange two neighbours
  swap_nodes-Rewrites :
      (h : Heap A) (b p q : Ptr) (u v w : A) (xs : Cells A)
      → Chain h ((b, u) ∷ (p, v) ∷ (q, w) ∷ xs) null
      → Returns
          (swap_nodes b p q h)
          (λ _. Rewrites h ((b, u) ∷ (p, v) ∷ (q, w) ∷ xs) ((b, u) ∷ (q, w) ∷ (p, v) ∷ xs))
  unfolding swap_nodes write
  swap_nodes-Rewrites h b p q u v w xs c =
      let h₁ = write h b (some (node u q)) in
      let h₂ = write h₁ p (some (node v (entry xs null))) in
      let h₃ = write h₂ q (some (node w p)) in
      let eq₁ : h₁ q ≡ some (node w (entry xs null)) = ground arith in
      let ep₁ : h₁ p ≡ some (node v q) = ground arith in
      let eq₂ : h₂ q ≡ some (node w (entry xs null)) = ground arith in
      let t = c.3.3.3 in
      let t₁ = Chain-write h xs null b (some (node u q)) t (ground arith) in
      let t₂ = Chain-write h₁ xs null p (some (node v (entry xs null))) t₁ (ground arith) in
      let t₃ = Chain-write h₂ xs null q (some (node w p)) t₂ (ground arith) in
      (
        tt,
        h₃,
        rw (
          link_nodes-ok h b c.0 c.1,
          load-ok h₁ q c.3.3.0 eq₁,
          link_nodes-ok h₁ p c.3.0 ep₁,
          link_nodes-ok h₂ q c.3.3.0 eq₂,
        ),
        record {
          chain = (
            c.0,
            ground arith,
            ground arith,
            (c.3.3.0, ground arith, ground arith, (c.3.0, ground arith, ground arith, t₃)),
          );
          outside = λ a o. ground arith;
          freed = λ a i o. ground arith;
        },
      )

  -- one pass is `bubble`, and its flag says whether there was no swap
  sort_pass-Rewrites :
      (fuel : ℕ) (h : Heap A) (b p : Ptr) (u v : A) (xs : Cells A) (sorted : Bool)
      → length xs < fuel
      → Chain h ((b, u) ∷ (p, v) ∷ xs) null
      → Returns (sort_pass cmp fuel b p sorted h) λ s g.
        (s ≡ (sorted && (swaps cmp (p, v) xs == 0)))
        × Rewrites h ((b, u) ∷ (p, v) ∷ xs) ((b, u) ∷ bubble cmp (p, v) xs) g
  unfolding sort_pass bubble swaps
  sort_pass-Rewrites zero h b p u v xs sorted f c = absurd (omega arith)
  sort_pass-Rewrites (suc fuel) h b p u v [] sorted f c =
      (sorted, h, rw (load-ok h p c.3.0 c.3.1), (ground arith, Rewrites-refl h _ c))
  sort_pass-Rewrites (suc fuel) h b p u v ((q, w) ∷ xs) sorted f c = elim (Bool-cases (cmp w v)) [
    | inl e ↦
        let (_, g₁, run₁, r₁) = swap_nodes-Rewrites h b p q u v w xs c in
        let c₁ = r₁.chain in
        let (s, g, run, (flag, r)) =
          sort_pass-Rewrites fuel g₁ q p w v xs false (omega arith) c₁.3 in
        (
          s,
          g,
          rw
              (
                load-ok h p c.3.0 c.3.1,
                not_null c.3.3.0,
                load-ok h q c.3.3.0 c.3.3.1,
                e,
                run₁,
                load-ok g₁ b c₁.0 c₁.1,
              )
              run,
          rw e (
            flag ∙ no_flag sorted (swaps cmp (p, v) xs),
            Rewrites-trans r₁ (Rewrites-cons b u c₁ refl r),
          ),
        )
    | inr e ↦
        let (s, g, run, (flag, r)) =
          sort_pass-Rewrites fuel h p q v w xs sorted (omega arith) c.3 in
        (
          s,
          g,
          rw
              (
                load-ok h p c.3.0 c.3.1,
                not_null c.3.3.0,
                load-ok h q c.3.3.0 c.3.3.1,
                e,
                load-ok h b c.0 c.1,
              )
              run,
          rw e (flag, Rewrites-cons b u c refl r),
        )
  ]

  -- the outcome of a sort of `xs`
  abbrev pub Sorted : Heap A → Ptr × A → Cells A → Heap A → Type ℓ
  Sorted h head xs g =
      (ys : Cells A) × Perm ys xs × IsSorted cmp ys × Rewrites h (head ∷ xs) (head ∷ ys) g

  sort_loop-Sorted :
      ((u v : A) → cmp u v ≡ true → cmp v u ≡ false)
      → (rounds fuel : ℕ) (h : Heap A) (head : Ptr) (d : A) (xs : Cells A) → xs ≢ []
      → inversions cmp xs < rounds
      → length xs ≤ fuel
      → Chain h ((head, d) ∷ xs) null
      → Returns (sort_loop cmp rounds fuel head h) (λ _. Sorted h (head, d) xs)
  unfolding sort_loop
  sort_loop-Sorted asymm rounds fuel h head d [] ne f l c = absurd (ne refl)
  sort_loop-Sorted asymm zero fuel h head d ((p, v) ∷ xs) ne f l c = absurd (omega arith)
  sort_loop-Sorted asymm (suc rounds) fuel h head d ((p, v) ∷ xs) ne f l c =
      let (s, g₁, run₁, (flag, r₁)) =
        sort_pass-Rewrites fuel h head p d v xs true (omega arith) c in
      elim (Bool-cases (swaps cmp (p, v) xs == 0)) [
        | inl still ↦
            let (ordered, same) = bubble_still cmp (p, v) xs (ground arith) in
            (
              tt,
              g₁,
              rw (load-ok h head c.0 c.1, run₁, flag, still),
              ((p, v) ∷ xs, Perm.refl _, ordered, rw same at r₁),
            )
        | inr moved ↦
            let less = inversions-bubble cmp asymm (p, v) xs in
            let (u, g, run, (ys, perm, ordered, r)) =
              sort_loop-Sorted asymm rounds fuel g₁ head d (bubble cmp (p, v) xs)
                (bubble-ne-nil cmp (p, v) xs) (ground arith)
                (omega (arith, length-bubble cmp (p, v) xs)) r₁.chain in
            (
              u,
              g,
              rw (load-ok h head c.0 c.1, run₁, flag, moved) run,
              (ys, Perm.trans perm (bubble-perm cmp (p, v) xs), ordered, Rewrites-trans r₁ r),
            )
      ]

  -- On a list, for an asymmetric comparison, given more rounds than the list has inversions and
  -- a pass of as many steps as it has elements, `sort` ends with the same nodes in a sorted
  -- permutation, and every node outside of the list as it was.
  pub sort-Sorted :
      ((u v : A) → cmp u v ≡ true → cmp v u ≡ false)
      → (rounds fuel : ℕ) (h : Heap A) (head : Ptr) (d : A) (xs : Cells A)
      → inversions cmp xs < rounds
      → length xs ≤ fuel
      → Chain h ((head, d) ∷ xs) null
      → Returns (sort cmp rounds fuel head h) (λ _. Sorted h (head, d) xs)
  unfolding sort
  sort-Sorted asymm rounds fuel h head d [] f l c =
      (tt, h, rw (load-ok h head c.0 c.1), ([], Perm.refl _, tt, Rewrites-refl h _ c))
  sort-Sorted asymm rounds fuel h head d ((p, v) ∷ xs) f l c =
      let (u, g, run, post) =
        sort_loop-Sorted asymm rounds fuel h head d ((p, v) ∷ xs) (ground arith) f l c in
      (u, g, rw (load-ok h head c.0 c.1, not_null c.3.0) run, post)
