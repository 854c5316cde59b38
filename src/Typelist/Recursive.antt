-- ===== src/Typelist/Recursive.antt =====
-- Metaprogramming/typelist: the algorithms of the `*_alt_impl` namespaces and the insertion sort,
-- which take a list apart by `is_empty`, `front` and `pop_front` alone. `depth` bounds the nested
-- instantiations.
use always_be_learning.Common.{ℕ, zero, suc, ◌+◌, ◌%◌, ◌^◌, Bool, true, false, leb, if◌then◌else◌}
use always_be_learning.Typelist.Meta.{
  Meta, names, ill_formed, too_deep, ◌>>=◌, Types, is_same_v, if_then_else_t,
}
use always_be_learning.Typelist.Interface.{ListLike}

module _ {ℓ κ} {A : Type ℓ} {L : Type κ} (ops : ListLike A L) where
  unfoldable pub accumulate_alt_t {μ} : {B : Type μ} → ℕ → L → (B → A → Meta B) → B → Meta B
  accumulate_alt_t zero list f init = too_deep
  accumulate_alt_t (suc depth) list f init = elim (ops.is_empty list) [
    | true ↦ names init
    | false ↦ do
      rest ← ops.pop_front list
      a ← ops.front list
      next ← f init a
      accumulate_alt_t depth rest f next
  ]

  unfoldable pub reverse_alt_t : ℕ → L → Meta L
  reverse_alt_t zero list = too_deep
  reverse_alt_t (suc depth) list = elim (ops.is_empty list) [
    | true ↦ names list
    | false ↦ do
      rest ← ops.pop_front list
      reversed ← reverse_alt_t depth rest
      a ← ops.front list
      ops.push_back reversed a
  ]

  unfoldable pub transform_alt_t : ℕ → L → (A → Meta A) → Meta L
  transform_alt_t zero list meta_fun = too_deep
  transform_alt_t (suc depth) list meta_fun = elim (ops.is_empty list) [
    | true ↦ names list
    | false ↦ do
      rest ← ops.pop_front list
      transformed ← transform_alt_t depth rest meta_fun
      a ← ops.front list
      b ← meta_fun a
      ops.push_front transformed b
  ]

  -- the recursion is on the index, which `nth_element<List, 0>` ends
  unfoldable pub nth_element_alt_t : L → ℕ → Meta A
  nth_element_alt_t list zero = ops.front list
  nth_element_alt_t list (suc n) = ops.pop_front list >>= λ rest. nth_element_alt_t rest n

  -- the tail is instantiated only when the element does not go in front
  unfoldable pub insert_sorted_t : ℕ → L → A → (A → A → Bool) → Meta L
  insert_sorted_t zero list element compare = too_deep
  insert_sorted_t (suc depth) list element compare = elim (ops.is_empty list) [
    | true ↦ ops.push_front list element
    | false ↦ do
      a ← ops.front list
      new_tail ← elim (compare element a) [
        | true ↦ names list
        | false ↦ ops.pop_front list >>= λ rest. insert_sorted_t depth rest element compare
      ]
      let new_head = if_then_else_t (compare element a) element a
      ops.push_front new_tail new_head
  ]

  unfoldable pub insertion_sort_t : ℕ → L → (A → A → Bool) → Meta L
  unfolding insert_sorted_t
  insertion_sort_t zero list compare = too_deep
  insertion_sort_t (suc depth) list compare = elim (ops.is_empty list) [
    | true ↦ names list
    | false ↦ do
      rest ← ops.pop_front list
      sorted ← insertion_sort_t depth rest compare
      a ← ops.front list
      insert_sorted_t depth sorted a compare
  ]

  module _ ⦃t : Types A⦄ where
    unfoldable pub largest_type_alt_t : ℕ → L → Meta A
    largest_type_alt_t zero list = too_deep
    largest_type_alt_t (suc depth) list = elim (ops.is_empty list) [
      | true ↦ names t.char
      | false ↦ do
        head ← ops.front list
        rest ← ops.pop_front list
        tail ← largest_type_alt_t depth rest
        names (if leb (t.size tail) (t.size head) then head else tail)
    ]

    -- for the empty list there is no member `value`; the index is an `unsigned`
    unfoldable pub find_index_of_alt_from : ℕ → L → A → ℕ → Meta ℕ
    find_index_of_alt_from zero list a n = too_deep
    find_index_of_alt_from (suc depth) list a n = elim (ops.is_empty list) [
      | true ↦ ill_formed
      | false ↦ do
        b ← ops.front list
        elim (is_same_v b a) [
          | true ↦ names n
          | false ↦ do
            rest ← ops.pop_front list
            find_index_of_alt_from depth rest a ((n + 1) % 2 ^ 32)
        ]
    ]
