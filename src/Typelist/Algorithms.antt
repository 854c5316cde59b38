-- ===== src/Typelist/Algorithms.antt =====
-- Metaprogramming/typelist: accumulate, reverse, transform, pop_back, nth_element, replace, erase,
-- remove_duplicates, find_index_of and largest_type, as they are specialized on packs, and the
-- insertion sort of `insertion_sort_alt_impl`.
use always_be_learning.Common.{
  ℕ, zero, suc, ◌+◌, ◌%◌, ◌^◌, Bool, true, false, List, [], ◌∷◌, leb, if◌then◌else◌,
}
use always_be_learning.Typelist.Meta.{
  Meta, names, ill_formed, ◌>>=◌, Types, is_same_v, if_then_else_t,
}
use always_be_learning.Typelist.Operations.{push_front_t, push_back_t, pop_front_t}

module _ {ℓ κ} {A : Type ℓ} {B : Type κ} where
  unfoldable pub accumulate_t : List A → (B → A → Meta B) → B → Meta B
  accumulate_t [] f init = names init
  accumulate_t (a ∷ []) f init = f init a
  accumulate_t (a ∷ b ∷ rest) f init = f init a >>= λ next. accumulate_t (b ∷ rest) f next

  -- a pack expansion is ill formed when one of its members is
  unfoldable pub transform_t : List A → (A → Meta B) → Meta (List B)
  transform_t [] meta_f = names []
  transform_t (a ∷ rest) meta_f = do b ← meta_f a; bs ← transform_t rest meta_f; names (b ∷ bs)

module _ {ℓ} {A : Type ℓ} where
  unfoldable pub reverse_t : List A → List A
  reverse_t [] = []
  reverse_t (a ∷ rest) = push_back_t (reverse_t rest) (a ∷ [])

  unfoldable pub pop_back_t : List A → List A
  pop_back_t [] = []
  pop_back_t (a ∷ []) = []
  pop_back_t (a ∷ b ∷ rest) = push_front_t (pop_back_t (b ∷ rest)) (a ∷ [])

  unfoldable pub pop_back_alt_t : List A → List A
  unfolding reverse_t
  pop_back_alt_t list = reverse_t (pop_front_t (reverse_t list))

  unfoldable pub nth_element_t : List A → ℕ → Meta A
  nth_element_t [] n = ill_formed
  nth_element_t (a ∷ rest) zero = names a
  nth_element_t (a ∷ rest) (suc n) = nth_element_t rest n

  -- the tail is instantiated only when the element does not go in front
  unfoldable pub insert_sorted_alt_t : List A → A → (A → A → Bool) → List A
  insert_sorted_alt_t [] element compare = push_front_t [] (element ∷ [])
  insert_sorted_alt_t (a ∷ rest) element compare =
      let new_tail =
        if compare element a then a ∷ rest else insert_sorted_alt_t rest element compare in
      let new_head = if_then_else_t (compare element a) element a in
      push_front_t new_tail (new_head ∷ [])

  unfoldable pub insertion_sort_alt_t : List A → (A → A → Bool) → List A
  insertion_sort_alt_t [] compare = []
  insertion_sort_alt_t (a ∷ rest) compare =
      insert_sorted_alt_t (insertion_sort_alt_t rest compare) a compare

module _ {ℓ} {A : Type ℓ} ⦃t : Types A⦄ where
  unfoldable pub replace_t : List A → A → A → List A
  replace_t [] s r = []
  replace_t (a ∷ rest) s r = if_then_else_t (is_same_v a s) r a ∷ replace_t rest s r

  -- `replace_alt_impl` has no type for the empty list
  unfoldable pub replace_alt_t : List A → A → A → Meta (List A)
  replace_alt_t [] s r = ill_formed
  replace_alt_t (a ∷ []) s r = names (if_then_else_t (is_same_v a s) r a ∷ [])
  replace_alt_t (a ∷ b ∷ rest) s r = do
    tail ← replace_alt_t (b ∷ rest) s r
    names (push_front_t tail (if_then_else_t (is_same_v a s) r a ∷ []))

  abbrev pub replace_cmp : A → A → A → Meta A
  replace_cmp s r a = names (if_then_else_t (is_same_v a s) r a)

  unfoldable pub replace_using_transform_t : List A → A → A → Meta (List A)
  unfolding transform_t
  replace_using_transform_t list s r = transform_t list (replace_cmp s r)

  -- `erase_impl` is not defined for the empty list
  unfoldable pub erase_t : List A → A → Meta (List A)
  erase_t [] a = ill_formed
  erase_t (b ∷ []) a = names (if_then_else_t (is_same_v a b) [] (b ∷ []))
  erase_t (b ∷ c ∷ rest) a = do
    tail ← erase_t (c ∷ rest) a
    names (if_then_else_t (is_same_v a b) (c ∷ rest) (push_front_t tail (b ∷ [])))

  unfoldable pub erase_all_t : List A → A → Meta (List A)
  erase_all_t [] a = ill_formed
  erase_all_t (b ∷ []) a = names (if_then_else_t (is_same_v a b) [] (b ∷ []))
  erase_all_t (b ∷ c ∷ rest) a = do
    tail ← erase_all_t (c ∷ rest) a
    names (if_then_else_t (is_same_v a b) tail (push_front_t tail (b ∷ [])))

  unfoldable pub remove_duplicates_t : List A → Meta (List A)
  unfolding erase_t
  remove_duplicates_t [] = names []
  remove_duplicates_t (a ∷ []) = names (a ∷ [])
  remove_duplicates_t (a ∷ b ∷ rest) = do
    pruned_tail ← remove_duplicates_t (b ∷ rest)
    erased ← erase_t pruned_tail a
    names (push_front_t erased (a ∷ []))

  -- the index is an `unsigned`
  unfoldable pub find_index_of_from : List A → A → ℕ → Meta ℕ
  find_index_of_from [] a n = ill_formed
  find_index_of_from (b ∷ rest) a n = elim (is_same_v a b) [
    | true ↦ names n
    | false ↦ find_index_of_from rest a ((n + 1) % 2 ^ 32)
  ]

  abbrev pub find_index_of_v : List A → A → Meta ℕ
  find_index_of_v list a = find_index_of_from list a 0

  unfoldable pub largest_type_t : List A → A
  largest_type_t [] = t.char
  largest_type_t (a ∷ []) = a
  largest_type_t (a ∷ b ∷ rest) =
      let tail = largest_type_t (b ∷ rest) in if leb (t.size tail) (t.size a) then a else tail
