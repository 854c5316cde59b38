-- ===== src/Typelist/Interface.antt =====
-- Metaprogramming/typelist: the operations that a template like `typelist` is specialized for, and
-- the two templates that have them, `typelist` and the `valuelist` of value_lists.hpp.
use always_be_learning.Common.{Bool, ◌≡◌, List, [], ◌∷◌, ◌++◌}
use always_be_learning.Typelist.Meta.{Meta, names, ill_formed, ◌>>=◌}
use always_be_learning.Typelist.Operations.{
  front_t, push_front_t, push_back_t, pop_front_t, is_empty_v,
}

pub record ListLike {ℓ κ} (A : Type ℓ) (L : Type κ) : Type (ℓ ⊔ κ) where
  pub is_empty : L → Bool
  pub front : L → Meta A
  pub pop_front : L → Meta L
  pub push_front : L → A → Meta L
  pub push_back : L → A → Meta L

-- A template names a list with these elements.
pub record Gives {ℓ κ} {A : Type ℓ} {L : Type κ} (view : L → List A) (m : Meta L) (xs : List A)
    : Type (ℓ ⊔ κ) where
  pub list : L
  pub named : m ≡ names list
  pub elements : view list ≡ xs

-- The laws of the operations, by the elements of a list.
pub record Laws {ℓ κ} {A : Type ℓ} {L : Type κ} (ops : ListLike A L) : Type (ℓ ⊔ κ) where
  pub view : L → List A
  pub is_empty_law : (l : L) → ops.is_empty l ≡ is_empty_v (view l)
  pub front_law : (l : L) (a : A) (xs : List A) → view l ≡ a ∷ xs → ops.front l ≡ names a
  pub pop_front_law :
      (l : L) (a : A) (xs : List A) → view l ≡ a ∷ xs → Gives view (ops.pop_front l) xs
  pub push_front_law : (l : L) (a : A) → Gives view (ops.push_front l a) (a ∷ view l)
  pub push_back_law : (l : L) (a : A) → Gives view (ops.push_back l a) (view l ++ a ∷ [])

abbrev pub typelists {ℓ} : {A : Type ℓ} → ListLike A (List A)
typelists = record {
  is_empty = is_empty_v;
  front = front_t;
  pop_front = λ l. names (pop_front_t l);
  push_front = λ l a. names (push_front_t l (a ∷ []));
  push_back = λ l a. names (push_back_t l (a ∷ []));
}

-- `ct_value`, and its member `value`
pub record CtValue {ℓ} (V : Type ℓ) : Type ℓ where
  pub value : V

pub record Valuelist {ℓ} (V : Type ℓ) : Type ℓ where
  pub values : List V

module _ {ℓ} {V : Type ℓ} where
  abbrev pub values_is_empty : Valuelist V → Bool
  values_is_empty l = is_empty_v l.values

  abbrev pub values_front : Valuelist V → Meta (CtValue V)
  values_front l = elim l.values [ [] ↦ ill_formed | head ∷ tail ↦ names (record { value = head }) ]

  -- no specialization for the empty list
  abbrev pub values_pop_front : Valuelist V → Meta (Valuelist V)
  values_pop_front l = elim l.values [
    | [] ↦ ill_formed
    | head ∷ tail ↦ names (record { values = tail })
  ]

  abbrev pub values_push_front : Valuelist V → CtValue V → Meta (Valuelist V)
  values_push_front l new = names (record { values = new.value ∷ l.values })

  abbrev pub values_prepend : Valuelist V → Valuelist V → Meta (Valuelist V)
  values_prepend l new = names (record { values = new.values ++ l.values })

  abbrev pub values_push_back : Valuelist V → CtValue V → Meta (Valuelist V)
  values_push_back l new = names (record { values = l.values ++ new.value ∷ [] })

abbrev pub valuelists {ℓ} : {V : Type ℓ} → ListLike (CtValue V) (Valuelist V)
valuelists = record {
  is_empty = values_is_empty;
  front = values_front;
  pop_front = values_pop_front;
  push_front = values_push_front;
  push_back = values_push_back;
}

module _ {ℓ} {V : Type ℓ} where
  -- `greater_than`, by the comparison of the values
  abbrev pub greater_than : (V → V → Bool) → CtValue V → CtValue V → Bool
  greater_than greater first second = greater first.value second.value

  -- `multiply`, by the product of the values; a product that overflows is not a constant
  abbrev pub multiply : (V → V → Meta V) → CtValue V → CtValue V → Meta (CtValue V)
  multiply product first second =
      product first.value second.value >>= λ product. names (record { value = product })

  -- `ct_typelist`
  unfoldable pub ct_typelist : List V → List (CtValue V)
  ct_typelist [] = []
  ct_typelist (value ∷ values) = record { value = value } ∷ ct_typelist values
