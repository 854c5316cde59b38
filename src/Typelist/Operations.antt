-- ===== src/Typelist/Operations.antt =====
-- Metaprogramming/typelist/typelist.hpp: the elements of a list of types, at both ends. A template
-- that is specialized for `C<T, Ts...>` is a function by clauses on the list.
use always_be_learning.Common.{ℕ, zero, suc, Bool, true, false, ◌||◌, List, [], ◌∷◌, ◌++◌}
use always_be_learning.Typelist.Meta.{Meta, names, ill_formed, Types, is_same_v}

module _ {ℓ} {A : Type ℓ} where
  unfoldable pub back_t : List A → Meta A
  back_t [] = ill_formed
  back_t (a ∷ []) = names a
  back_t (head ∷ b ∷ rest) = back_t (b ∷ rest)

  abbrev pub front_t : List A → Meta A
  front_t [] = ill_formed
  front_t (a ∷ rest) = names a

  abbrev pub push_front_t : List A → List A → List A
  push_front_t list added = added ++ list

  abbrev pub push_back_t : List A → List A → List A
  push_back_t list added = list ++ added

  abbrev pub pop_front_t : List A → List A
  pop_front_t [] = []
  pop_front_t (a ∷ rest) = rest

  unfoldable pub typelist_count_v : List A → ℕ
  typelist_count_v [] = zero
  typelist_count_v (a ∷ rest) = suc (typelist_count_v rest)

  abbrev pub is_empty_v : List A → Bool
  is_empty_v [] = true
  is_empty_v (a ∷ rest) = false

  -- a disjunction over the pack
  unfoldable pub contains_v : ⦃t : Types A⦄ → List A → A → Bool
  contains_v [] a = false
  contains_v (b ∷ rest) a = is_same_v a b || contains_v rest a
