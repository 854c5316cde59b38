-- ===== src/Tests/Metaprograms.antt =====
-- Runs of the typelist templates, with numbers for the names of types, and examples of the theorems.
use native.Mathlib.Decide.{ℕ_discrete}
use always_be_learning.Common.{
  ◌*◌, ◌==◌, ◌||◌, ℕ, suc, Bool, false, ltb, leb, ◌&&◌, ◌≡◌, refl, [], ◌∷◌,
}
use always_be_learning.Typelist.Meta.{names, ill_formed, Types, is_derived_from_v}
use always_be_learning.Typelist.Algorithms.{
  accumulate_t, erase_t, erase_all_t, replace_t, remove_duplicates_t,
}
use always_be_learning.Typelist.Derived.{most_derived_t, most_derived_first_t}
use always_be_learning.Typelist.Interface.{
  valuelists, CtValue, Valuelist, greater_than, multiply, ct_typelist,
}
use always_be_learning.Typelist.Recursive.{insertion_sort_t}

-- a chain of classes: a larger number derives from a smaller one, except for 9, which is unrelated
instance abbrev pub classes : Types ℕ
classes = record {
  same = ℕ_discrete;
  size = λ a. suc a;
  char = 0;
  converts = λ a b. (a == b) || (leb b a && ltb a 9);
  is_void = λ a. false;
}

abbrev pub integers : Valuelist ℕ
integers = record { values = 6 ∷ 2 ∷ 4 ∷ 9 ∷ 5 ∷ 2 ∷ 1 ∷ 7 ∷ [] }

abbrev pub larger : CtValue ℕ → CtValue ℕ → Bool
larger = greater_than λ a b. ltb b a

-- the product of the first primes, by `multiply`
primes_product :
    accumulate_t
      (ct_typelist (2 ∷ 3 ∷ 5 ∷ 7 ∷ 11 ∷ []))
      (multiply λ a b. names (a * b))
      (record { value = 1 })
    ≡ names (record { value = 2310 })
unfolding accumulate_t ct_typelist
primes_product = refl

sorted_integers :
    insertion_sort_t valuelists 9 integers larger
    ≡ names (record { values = 9 ∷ 7 ∷ 6 ∷ 5 ∷ 4 ∷ 2 ∷ 2 ∷ 1 ∷ [] })
unfolding insertion_sort_t
sorted_integers = refl

erased : erase_t {A = ℕ} (3 ∷ 1 ∷ 3 ∷ []) 3 ≡ names (1 ∷ 3 ∷ [])
unfolding erase_t ℕ_discrete
erased = refl

-- `erase` of the empty list is not defined
erased_nothing : erase_t {A = ℕ} [] 3 ≡ ill_formed
unfolding erase_t ℕ_discrete
erased_nothing = refl

erased_all : erase_all_t {A = ℕ} (3 ∷ 1 ∷ 3 ∷ []) 3 ≡ names (1 ∷ [])
unfolding erase_all_t ℕ_discrete
erased_all = refl

pruned : remove_duplicates_t {A = ℕ} (1 ∷ 2 ∷ 1 ∷ 3 ∷ 2 ∷ []) ≡ names (1 ∷ 2 ∷ 3 ∷ [])
unfolding remove_duplicates_t ℕ_discrete
pruned = refl

-- a type between that is not related hides the most derived one
hidden_most_derived : most_derived_t {A = ℕ} (1 ∷ 9 ∷ 2 ∷ []) 1 ≡ names 1
unfolding most_derived_t is_derived_from_v
hidden_most_derived = refl

most_derived_in_front : most_derived_first_t {A = ℕ} (1 ∷ 2 ∷ 3 ∷ []) ≡ names (3 ∷ 2 ∷ 1 ∷ [])
unfolding most_derived_first_t is_derived_from_v replace_t ℕ_discrete
most_derived_in_front = refl

-- both copies of the most derived type are replaced
most_derived_twice : most_derived_first_t {A = ℕ} (1 ∷ 2 ∷ 2 ∷ []) ≡ names (2 ∷ 1 ∷ 1 ∷ [])
unfolding most_derived_first_t is_derived_from_v replace_t ℕ_discrete
most_derived_twice = refl

-- `most_derived_first` is not defined for a list of one type
most_derived_alone : most_derived_first_t {A = ℕ} (1 ∷ []) ≡ ill_formed
unfolding most_derived_first_t
most_derived_alone = refl
