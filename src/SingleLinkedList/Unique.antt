-- ===== src/SingleLinkedList/Unique.antt =====
-- `unique` of single_linked_list.hpp against the removal of consecutive repetitions.
use always_be_learning.Common.{
  ℕ, zero, suc, ◌+◌, ◌<◌, ◌≤◌, ◌≡◌, ap, refl, inl, inr, Bool, some, none, [], ◌∷◌, arith,
  Bool-cases, if◌then◌else◌, length,
}
use always_be_learning.Memory.{Ptr, null, Heap, node, write, Returns}
use always_be_learning.Memory.Cells.{
  Cells, entry, Chain, Rewrites, Rewrites-refl, Rewrites-cons, Rewrites-trans, load-ok,
  link_nodes-ok, free_node-ok, not_null,
}
use always_be_learning.SingleLinkedList.Operations.{unique_run, unique_loop, unique}
use always_be_learning.SingleLinkedList.Remove.{unlink-Chain, unlink-Rewrites}

module _ {ℓ} {A : Type ℓ} (pred : A → A → Bool) where
  -- what is left when the cells that follow a kept content `u` and equal it are dropped
  unfoldable pub compact : A → Cells A → Cells A
  compact u [] = []
  compact u ((p, v) ∷ xs) = if pred u v then compact u xs else (p, v) ∷ compact v xs

  unfoldable pub distinct : Cells A → Cells A
  unfolding compact
  distinct [] = []
  distinct ((p, v) ∷ xs) = (p, v) ∷ compact v xs

  entry-distinct : (xs : Cells A) → entry xs null ≡ entry (distinct xs) null
  unfolding distinct
  entry-distinct [] = refl
  entry-distinct (x ∷ xs) = refl

  drop_run : A → Cells A → Cells A
  drop_run u [] = []
  drop_run u ((p, v) ∷ xs) = if pred u v then drop_run u xs else (p, v) ∷ xs

  distinct-drop_run : (u : A) (xs : Cells A) → distinct (drop_run u xs) ≡ compact u xs
  unfolding distinct drop_run
  distinct-drop_run u [] = refl
  distinct-drop_run u ((p, v) ∷ xs) = ground (arith, distinct-drop_run u xs)

  length-drop_run : (u : A) (xs : Cells A) → length (drop_run u xs) ≤ length xs
  unfolding drop_run
  length-drop_run u [] = omega arith
  length-drop_run u ((p, v) ∷ xs) = ground (arith, length-drop_run u xs)

  unique_run-Rewrites :
      (fuel : ℕ) (h : Heap A) (b : Ptr) (u : A) (xs : Cells A) (count : ℕ)
      → length xs < fuel
      → Chain h ((b, u) ∷ xs) null
      → Returns (unique_run pred fuel b (entry xs null) count h) λ r g.
        (r.0 ≡ entry (drop_run u xs) null)
        × (r.1 + length (drop_run u xs) ≡ count + length xs)
        × Rewrites h ((b, u) ∷ xs) ((b, u) ∷ drop_run u xs) g
  unfolding unique_run drop_run
  unique_run-Rewrites zero h b u xs count f c = absurd (omega arith)
  unique_run-Rewrites (suc fuel) h b u [] count f c =
      ((null, count), h, refl, (refl, refl, Rewrites-refl h _ c))
  unique_run-Rewrites (suc fuel) h b u ((p, v) ∷ xs) count f c = elim (Bool-cases (pred u v)) [
    | inl hit ↦
        let h₁ = write h b (some (node u (entry xs null))) in
        let h₂ = write h₁ p none in
        let e₁ : h₁ p ≡ some (node v (entry xs null)) = unfold write in ground arith in
        let c₂ = unlink-Chain h b p u v xs c in
        let (r, g, run, (next, total, rew)) =
          unique_run-Rewrites fuel h₂ b u xs (count + 1) (omega arith) c₂ in
        (
          r,
          g,
          rw
              (
                not_null c.3.0,
                load-ok h b c.0 c.1,
                load-ok h p c.3.0 c.3.1,
                hit,
                link_nodes-ok h b c.0 c.1,
                free_node-ok h₁ p c.3.0 e₁,
                load-ok h₂ b c₂.0 c₂.1,
              )
              run,
          rw hit (next, omega arith, unlink-Rewrites b p u v xs (drop_run u xs) c rew),
        )
    | inr miss ↦ (
      (p, count),
      h,
      rw (not_null c.3.0, load-ok h b c.0 c.1, load-ok h p c.3.0 c.3.1, miss),
      rw miss (refl, refl, Rewrites-refl h _ c),
    )
  ]

  unique_loop-Rewrites :
      (fuel : ℕ) (h : Heap A) (xs : Cells A) (count : ℕ)
      → length xs < fuel
      → Chain h xs null
      → Returns
          (unique_loop pred fuel (entry xs null) count h)
          λ n g. (n + length (distinct xs) ≡ count + length xs) × Rewrites h xs (distinct xs) g
  unfolding unique_loop distinct
  unique_loop-Rewrites zero h xs count f c = absurd (omega arith)
  unique_loop-Rewrites (suc fuel) h [] count f c = (count, h, refl, (refl, Rewrites-refl h _ c))
  unique_loop-Rewrites (suc fuel) h ((b, u) ∷ []) count f c =
      (count, h, rw (not_null c.0, load-ok h b c.0 c.1), (refl, Rewrites-refl h _ c))
  unique_loop-Rewrites (suc fuel) h ((b, u) ∷ (p, v) ∷ xs) count f c =
      let rest = (p, v) ∷ xs in
      let (r, g₁, run₁, (next, total₁, rew₁)) =
        unique_run-Rewrites (suc fuel) h b u rest count (omega arith) c in
      let left = drop_run u rest in
      let (n, g, run, (total, rew)) =
        unique_loop-Rewrites fuel g₁ left r.1 (omega (arith, length-drop_run u rest))
          rew₁.chain.3 in
      let same = distinct-drop_run u rest in
      let whole : Rewrites g₁ ((b, u) ∷ left) ((b, u) ∷ distinct left) g =
        Rewrites-cons b u rew₁.chain (entry-distinct left) rew in
      (
        n,
        g,
        rw (not_null c.0, load-ok h b c.0 c.1, not_null c.3.0, run₁, next) run,
        (omega (arith, ap length same), rw same at (Rewrites-trans rew₁ whole)),
      )

  -- On a list, given more rounds than it has elements, `unique` ends with the first node of
  -- every run of equal contents, in order; it frees the others, returns how many they are, and
  -- leaves every node outside of the list as it was.
  pub unique-Rewrites :
      (fuel : ℕ) (h : Heap A) (head : Ptr) (d : A) (xs : Cells A)
      → length xs < fuel
      → Chain h ((head, d) ∷ xs) null
      → Returns (unique pred fuel head h) λ n g.
        (n + length (distinct xs) ≡ length xs)
        × Rewrites h ((head, d) ∷ xs) ((head, d) ∷ distinct xs) g
  unfolding unique
  unique-Rewrites fuel h head d xs f c =
      let (n, g, run, (total, r)) = unique_loop-Rewrites fuel h xs 0 f c.3 in
      (
        n,
        g,
        rw (load-ok h head c.0 c.1) run,
        (omega arith, Rewrites-cons head d c (entry-distinct xs) r),
      )
