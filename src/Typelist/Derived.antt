-- ===== src/Typelist/Derived.antt =====
-- Metaprogramming/typelist: most_derived.hpp and most_derived_first.hpp.
use always_be_learning.Common.{List, [], ◌∷◌}
use always_be_learning.Typelist.Meta.{
  Meta, names, ill_formed, ◌>>=◌, Types, is_derived_from_v, if_then_else_t,
}
use always_be_learning.Typelist.Operations.{push_front_t}
use always_be_learning.Typelist.Algorithms.{replace_t}

module _ {ℓ} {A : Type ℓ} ⦃t : Types A⦄ where
  -- the specialization for the empty list is commented out
  unfoldable pub most_derived_t : List A → A → Meta A
  most_derived_t [] base = ill_formed
  most_derived_t (a ∷ []) base = names (if_then_else_t (is_derived_from_v a base) a base)
  most_derived_t (a ∷ b ∷ rest) base = do
    candidate ← most_derived_t (b ∷ rest) base
    names (if_then_else_t (is_derived_from_v candidate a) candidate a)

  unfoldable pub most_derived_first_t : List A → Meta (List A)
  unfolding most_derived_t
  most_derived_first_t [] = ill_formed
  most_derived_first_t (a ∷ rest) = do
    the_most_derived ← most_derived_t rest a
    let new_tail = replace_t rest the_most_derived a
    names (push_front_t new_tail (the_most_derived ∷ []))
