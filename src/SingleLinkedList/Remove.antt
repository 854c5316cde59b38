-- ===== src/SingleLinkedList/Remove.antt =====
-- `remove_if` of single_linked_list.hpp, through which `remove` goes.
use always_be_learning.Common.{
  ℕ, zero, suc, ◌+◌, ◌<◌, ◌≡◌, refl, inl, inr, Bool, some, none, [], ◌∷◌, arith, Bool-cases,
  if◌then◌else◌, length,
}
use always_be_learning.Memory.{Ptr, null, Heap, node, write, Returns}
use always_be_learning.Memory.Cells.{
  Cells, ◌∉◌, entry, Chain, Rewrites, Rewrites-refl, Rewrites-cons, Chain-write, load-ok,
  link_nodes-ok, free_node-ok, not_null,
}
use always_be_learning.SingleLinkedList.Operations.{remove_if_loop, remove_if}

module _ {ℓ} {A : Type ℓ} where
  -- the cells whose content the predicate does not hold of
  unfoldable pub kept : (A → Bool) → Cells A → Cells A
  kept pred [] = []
  kept pred ((p, v) ∷ xs) = if pred v then kept pred xs else (p, v) ∷ kept pred xs

  not-mem-kept : (pred : A → Bool) (a : Ptr) (xs : Cells A) → a ∉ xs → a ∉ kept pred xs
  unfolding kept
  not-mem-kept pred a [] o = refl
  not-mem-kept pred a ((p, v) ∷ xs) o = ground (arith, not-mem-kept pred a xs)

  -- the node `p` behind `b` is cut out and freed
  pub unlink-Chain :
      (h : Heap A) (b p : Ptr) (u v : A) (xs : Cells A)
      → Chain h ((b, u) ∷ (p, v) ∷ xs) null
      → Chain (write (write h b (some (node u (entry xs null)))) p none) ((b, u) ∷ xs) null
  unfolding write
  unlink-Chain h b p u v xs c =
      let step = Chain-write h xs null b (some (node u (entry xs null))) c.3.3 (ground arith) in
      (c.0, ground arith, ground arith, Chain-write _ xs null p none step c.3.2)

  -- a change after the node `p` behind `b` was freed
  pub unlink-Rewrites :
      {h g : Heap A} (b p : Ptr) (u v : A) (xs ys : Cells A)
      → Chain h ((b, u) ∷ (p, v) ∷ xs) null
      → Rewrites
          (write (write h b (some (node u (entry xs null)))) p none)
          ((b, u) ∷ xs)
          ((b, u) ∷ ys)
          g
      → Rewrites h ((b, u) ∷ (p, v) ∷ xs) ((b, u) ∷ ys) g
  unfolding write
  unlink-Rewrites b p u v xs ys c r = record {
    chain = r.chain;
    outside = λ a o. ground (arith, r.outside a);
    freed = λ a i o. ground (arith, r.outside p, r.freed a);
  }

  remove_if_loop-Rewrites :
      (pred : A → Bool) (fuel : ℕ) (h : Heap A) (b : Ptr) (u : A) (xs : Cells A) (count : ℕ)
      → length xs < fuel
      → Chain h ((b, u) ∷ xs) null
      → Returns (remove_if_loop pred fuel b (entry xs null) count h) λ n g.
        (n + length (kept pred xs) ≡ count + length xs)
        × Rewrites h ((b, u) ∷ xs) ((b, u) ∷ kept pred xs) g
  unfolding remove_if_loop kept
  remove_if_loop-Rewrites pred zero h b u xs count f c = absurd (omega arith)
  remove_if_loop-Rewrites pred (suc fuel) h b u [] count f c =
      (count, h, refl, (refl, Rewrites-refl h _ c))
  remove_if_loop-Rewrites pred (suc fuel) h b u ((p, v) ∷ xs) count f c =
      elim (Bool-cases (pred v)) [
        | inl hit ↦
            let h₁ = write h b (some (node u (entry xs null))) in
            let h₂ = write h₁ p none in
            let e₁ : h₁ p ≡ some (node v (entry xs null)) = unfold write in ground arith in
            let c₂ = unlink-Chain h b p u v xs c in
            let (n, g, run, (total, r)) =
              remove_if_loop-Rewrites pred fuel h₂ b u xs (count + 1) (omega arith) c₂ in
            (
              n,
              g,
              rw
                  (
                    not_null c.3.0,
                    load-ok h p c.3.0 c.3.1,
                    hit,
                    link_nodes-ok h b c.0 c.1,
                    free_node-ok h₁ p c.3.0 e₁,
                    load-ok h₂ b c₂.0 c₂.1,
                  )
                  run,
              rw hit (omega arith, unlink-Rewrites b p u v xs (kept pred xs) c r),
            )
        | inr miss ↦
            let (n, g, run, (total, r)) =
              remove_if_loop-Rewrites pred fuel h p v xs count (omega arith) c.3 in
            (
              n,
              g,
              rw (not_null c.3.0, load-ok h p c.3.0 c.3.1, miss) run,
              rw miss (omega arith, Rewrites-cons b u c refl r),
            )
      ]

  -- On a list, given more rounds than it has elements, `remove_if` ends with exactly the nodes
  -- that the predicate does not hold of, in order; it frees the others, returns how many they
  -- are, and leaves every node outside of the list as it was.
  pub remove_if-Rewrites :
      (pred : A → Bool) (fuel : ℕ) (h : Heap A) (head : Ptr) (d : A) (xs : Cells A)
      → length xs < fuel
      → Chain h ((head, d) ∷ xs) null
      → Returns (remove_if pred fuel head h) λ n g.
        (n + length (kept pred xs) ≡ length xs)
        × Rewrites h ((head, d) ∷ xs) ((head, d) ∷ kept pred xs) g
  unfolding remove_if
  remove_if-Rewrites pred fuel h head d xs f c =
      let (n, g, run, (total, r)) = remove_if_loop-Rewrites pred fuel h head d xs 0 f c in
      (n, g, rw (load-ok h head c.0 c.1) run, (omega arith, r))
