-- ===== src/Memory/Growth.antt =====
-- Changes of the heap that add nodes to a chain.
use always_be_learning.Common.{◌≡◌, ap, ◌∙◌, ◌≢◌, none, some, [], ◌∷◌, ◌++◌, arith}
use always_be_learning.Memory.{Ptr, null, Heap, node, write}
use always_be_learning.Memory.Cells.{
  Cells, ◌∈◌, ◌∉◌, entry, entry-append, Chain, Chain-write, not-mem_of_none,
}

module _ {ℓ} {A : Type ℓ} where
  -- `xs` has become `ys`: what is new was unused, and what is outside of `ys` is untouched
  pub record Grows (h : Heap A) (xs ys : Cells A) (g : Heap A) : Type ℓ where
    pub chain : Chain g ys null
    pub outside : (a : Ptr) → a ∉ ys → g a ≡ h a
    pub fresh : (a : Ptr) → a ∈ ys → a ∉ xs → h a ≡ none

  Grows-cons :
      {h g : Heap A} {xs ys : Cells A} (p : Ptr) (v : A)
      → Chain h ((p, v) ∷ xs) null
      → entry xs null ≡ entry ys null
      → Grows h xs ys g
      → Grows h ((p, v) ∷ xs) ((p, v) ∷ ys) g
  Grows-cons {h} {g} {xs} {ys} p v c same r =
      let out : p ∉ ys = ground (arith, r.fresh p) in
      record {
        chain = (c.0, r.outside p out ∙ c.1 ∙ ap (λ q. some (node v q)) same, out, r.chain);
        outside = λ a o. ground (arith, r.outside a);
        fresh = λ a i o. ground (arith, r.fresh a);
      }

  pub Grows-prefix :
      {h g : Heap A} (ws : Cells A) (y : Ptr × A) {xs ys : Cells A}
      → Chain h (ws ++ y ∷ xs) null
      → Grows h (y ∷ xs) (y ∷ ys) g
      → Grows h (ws ++ y ∷ xs) (ws ++ y ∷ ys) g
  Grows-prefix [] y c r = r
  Grows-prefix (w ∷ ws) y {xs} {ys} c r =
      Grows-cons w.0 w.1 c (entry-append ws y xs ys) (Grows-prefix ws y c.3 r)

  -- the unused address `p` becomes a node behind `b`
  pub insert-Grows :
      (h : Heap A) (b p : Ptr) (u v : A) (xs : Cells A)
      → p ≢ null
      → h p ≡ none
      → Chain h ((b, u) ∷ xs) null
      → Grows h ((b, u) ∷ xs) ((b, u) ∷ (p, v) ∷ xs) (
          write
            (write (write h p (some (node v null))) p (some (node v (entry xs null))))
            b
            (some (node u p)))
  unfolding write
  insert-Grows h b p u v xs ne unused c =
      let out = not-mem_of_none h p ((b, u) ∷ xs) null c unused in
      let new = some (node v (entry xs null)) in
      let t₀ = Chain-write h xs null p (some (node v null)) c.3 (ground arith) in
      let t₁ = Chain-write (write h p (some (node v null))) xs null p new t₀ (ground arith) in
      let t₂ =
        Chain-write (write (write h p (some (node v null))) p new) xs null b (some (node u p)) t₁
          (ground arith) in
      record {
        chain = (c.0, ground arith, ground arith, (ne, ground arith, ground arith, t₂));
        outside = λ a o. ground arith;
        fresh = λ a i o. ground arith;
      }
