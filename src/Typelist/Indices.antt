-- ===== src/Typelist/Indices.antt =====
-- Metaprogramming/typelist: find_index_of.hpp and nth_element.hpp.
use always_be_learning.Common.{
  ℕ, zero, suc, ◌+◌, ◌<◌, ◌%◌, ◌^◌, arith, true, ◌≡◌, sym, ap, ◌∙◌, List, [], ◌∷◌, length,
}
use always_be_learning.Typelist.Meta.{names, Types}
use always_be_learning.Typelist.Same.{is_same_v_refl, is_same_v_ne}
use always_be_learning.Typelist.Operations.{contains_v}
use always_be_learning.Typelist.Algorithms.{nth_element_t, find_index_of_from, find_index_of_v}

module _ {ℓ} {A : Type ℓ} ⦃t : Types A⦄ where
  -- the first place of a type in a list
  pub record FirstAt (xs : List A) (a : A) (k : ℕ) : Type ℓ where
    pub here : nth_element_t xs k ≡ names a
    pub not_before : (j : ℕ) → j < k → ¬ (nth_element_t xs j ≡ names a)

  at_front : {a b : A} (xs : List A) → a ≡ b → FirstAt (b ∷ xs) a 0
  unfolding nth_element_t
  at_front xs e = record { here = ap names (sym e); not_before = λ j h. absurd (omega arith) }

  behind : {a b : A} {xs : List A} {k : ℕ} → ¬ (a ≡ b) → FirstAt xs a k → FirstAt (b ∷ xs) a (suc k)
  unfolding nth_element_t
  behind {a} {b} {xs} {k} n found = record { here = found_here found.here; not_before = before }
    where
      found_here : nth_element_t xs k ≡ names a → nth_element_t (b ∷ xs) (suc k) ≡ names a
      found_here e = e

      before : (j : ℕ) → j < suc k → ¬ (nth_element_t (b ∷ xs) j ≡ names a)
      before zero h e = n cc
      before (suc j) h e = found.not_before j (omega arith) e

  find_index_of_from-FirstAt :
      (xs : List A) (a : A) (n : ℕ)
      → contains_v xs a ≡ true
      → n + length xs < 2 ^ 32
      → (k : ℕ) × (find_index_of_from xs a n ≡ names (n + k)) × FirstAt xs a k
  unfolding contains_v find_index_of_from
  find_index_of_from-FirstAt [] a n c h = absurd cc
  find_index_of_from-FirstAt (b ∷ xs) a n c h = elim (t.same a b) [
    | yes e ↦ (0, rw (find_index_of_from, is_same_v_refl e) (ap names (omega arith)), at_front xs e)
    | no d ↦
        let (k, found, first) =
          find_index_of_from-FirstAt xs a ((n + 1) % 2 ^ 32) (rw (is_same_v_ne d) at c)
            (omega arith) in
        (
          suc k,
          rw (find_index_of_from, is_same_v_ne d, found) (ap names (omega arith)),
          behind d first,
        )
  ]

  -- A type that `contains` sees is found at its first place, in a list of fewer than 2^32 types.
  pub find_index_of_v-FirstAt :
      (xs : List A) (a : A)
      → contains_v xs a ≡ true
      → length xs < 2 ^ 32
      → (k : ℕ) × (find_index_of_v xs a ≡ names k) × FirstAt xs a k
  find_index_of_v-FirstAt xs a c h =
      let (k, found, first) = find_index_of_from-FirstAt xs a 0 c (omega arith) in
      (k, found ∙ ap names (omega arith), first)
