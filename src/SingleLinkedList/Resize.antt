-- ===== src/SingleLinkedList/Resize.antt =====
-- `resize` of single_linked_list.hpp to a count that the list has reached, and `erase_after` of a
-- range, through which it goes.
use always_be_learning.Common.{
  ℕ, zero, suc, ◌<◌, ◌≤◌, ◌≡◌, refl, ap, not, ◌==◌, some, none, List, [], ◌∷◌, ◌++◌, arith,
  if◌then◌else◌, length,
}
use mathlib.Core.Path.{subst}
use always_be_learning.Memory.{Ptr, null, Heap, ok, node, write, Returns, Allocator, pure, ◌>>◌}
use always_be_learning.Memory.Cells.{
  Cells, has, entry, Chain, Rewrites, Rewrites-refl, Rewrites-prefix, Chain-suffix, Chain-write,
  load-ok, link_nodes-ok, free_node-ok, not_null,
}
use always_be_learning.SingleLinkedList.Modifiers.{free_until, erase_range, seek, resize}

module _ {ℓ} {A : Type ℓ} where
  abbrev pub take : ℕ → List A → List A
  take zero xs = []
  take (suc n) [] = []
  take (suc n) (x ∷ xs) = x ∷ take n xs

module _ {ℓ} {A : Type ℓ} where
  freed_also :
      (h g : Heap A) (p : Ptr) (v : A) (xs : Cells A)
      → ((a : Ptr) → g a ≡ (if has a xs then none else write h p none a))
      → (a : Ptr) → g a ≡ (if has a ((p, v) ∷ xs) then none else h a)
  unfolding write
  freed_also h g p v xs gone a = ground (arith, gone a)

  -- the loop frees the nodes up to the end of the list and touches no other
  free_until-frees :
      (fuel : ℕ) (h : Heap A) (xs : Cells A)
      → length xs < fuel
      → Chain h xs null
      → Returns
          (free_until fuel (entry xs null) null h)
          λ q g. (a : Ptr) → g a ≡ (if has a xs then none else h a)
  unfolding free_until
  free_until-frees zero h xs f c = absurd (omega arith)
  free_until-frees (suc fuel) h [] f c = (null, h, refl, λ a. refl)
  free_until-frees (suc fuel) h ((p, v) ∷ xs) f c =
      let c₁ = Chain-write h xs null p none c.3 c.2 in
      let (q, g, run, gone) = free_until-frees fuel (write h p none) xs (omega arith) c₁ in
      (
        q,
        g,
        rw (not_null c.0, load-ok h p c.0 c.1, free_node-ok h p c.0 c.1) run,
        freed_also h g p v xs gone,
      )

  -- From a position of a list to its end, given more rounds than there are nodes behind the position,
  -- `erase_after` frees the nodes behind.
  pub erase_range-Rewrites :
      (fuel : ℕ) (h : Heap A) (b : Ptr) (u : A) (xs : Cells A)
      → length xs < fuel
      → Chain h ((b, u) ∷ xs) null
      → Returns (erase_range fuel b null h) (λ _. Rewrites h ((b, u) ∷ xs) ((b, u) ∷ []))
  unfolding erase_range
  erase_range-Rewrites fuel h b u xs f c =
      let h₁ = write h b (some (node u null)) in
      let c₁ = Chain-write h xs null b (some (node u null)) c.3 c.2 in
      let (q, g, run, gone) = free_until-frees fuel h₁ xs f c₁ in
      (
        q,
        g,
        rw (not_null c.0, load-ok h b c.0 c.1, link_nodes-ok h b c.0 c.1 null) run,
        record {
          chain = (c.0, unfold write in ground (arith, gone b, c.2), refl, tt);
          outside = λ a o. unfold write in ground (arith, gone a);
          freed = λ a i o. unfold write in ground (arith, gone a);
        },
      )

  seek-split :
      (count : ℕ) (h : Heap A) (b : Ptr) (u : A) (xs : Cells A)
      → count ≤ length xs
      → Chain h ((b, u) ∷ xs) null
      → (ws : Cells A) × (y : Ptr × A) × (zs : Cells A) × ((b, u) ∷ xs ≡ ws ++ y ∷ zs)
        × ((b, u) ∷ take count xs ≡ ws ++ y ∷ [])
        × (length zs ≤ length xs)
        × (seek count b (entry xs null) h ≡ ok (y.0, entry zs null, 0) h)
  unfolding seek
  seek-split zero h b u xs f c = ([], (b, u), xs, refl, refl, omega arith, refl)
  seek-split (suc count) h b u [] f c = absurd (omega arith)
  seek-split (suc count) h b u ((p, v) ∷ xs) f c =
      let (ws, y, zs, whole, taken, shorter, run) = seek-split count h p v xs (omega arith) c.3 in
      (
        (b, u) ∷ ws,
        y,
        zs,
        ap (◌∷◌ (b, u)) whole,
        ap (◌∷◌ (b, u)) taken,
        omega (arith, shorter),
        rw (not_null c.3.0, load-ok h p c.3.0 c.3.1, load-ok h b c.0 c.1) run,
      )

  -- the last branch of `resize`, where all of `count` was found
  cut-Rewrites :
      (fuel : ℕ) (h : Heap A) (y : Ptr × A) (zs : Cells A)
      → length zs < fuel
      → Chain h (y ∷ zs) null
      → Returns {B = Unit {0}}
          ((if not (entry zs null == null) then (erase_range fuel y.0 null >> pure tt) else pure tt)
            h)
          (λ _. Rewrites h (y ∷ zs) (y ∷ []))
  cut-Rewrites fuel h y [] f c = (tt, h, refl, Rewrites-refl h _ c)
  cut-Rewrites fuel h y (z ∷ zs) f c =
      let (q, g, run, r) = erase_range-Rewrites fuel h y.0 y.1 (z ∷ zs) f c in
      (tt, g, rw (not_null c.3.0, run) refl, r)

  -- On a list of at least `count` elements, given more rounds than it has elements, `resize` ends
  -- with the first `count` of them; it frees the others and leaves every node outside of the list
  -- as it was.
  pub resize-Rewrites :
      (alloc : Allocator A) (fuel : ℕ) (h : Heap A) (head : Ptr) (d : A) (xs : Cells A) (count : ℕ)
      (value : A)
      → length xs < fuel
      → count ≤ length xs
      → Chain h ((head, d) ∷ xs) null
      → Returns
          (resize alloc fuel head count value h)
          (λ _. Rewrites h ((head, d) ∷ xs) ((head, d) ∷ take count xs))
  unfolding resize
  resize-Rewrites alloc fuel h head d xs count value f short c =
      let (ws, y, zs, whole, taken, shorter, found) = seek-split count h head d xs short c in
      let chain : Chain h (ws ++ y ∷ zs) null = subst (λ cells. Chain h cells null) whole c in
      let (u, g, run, r) =
        cut-Rewrites fuel h y zs (omega (arith, shorter)) (Chain-suffix h ws (y ∷ zs) chain) in
      (
        u,
        g,
        (rw (load-ok h head c.0 c.1, found) run),
        rw (whole, taken) (Rewrites-prefix ws y chain r),
      )
