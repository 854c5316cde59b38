-- ===== src/Tests/TypeTheorems.antt =====
-- The theorems on the typelist templates at the lists of Tests/Metaprograms.antt.
use native.Mathlib.Decide.{ℕ_discrete, dec_le}
use mathlib.Core.HLevel.{⊥_prop}
use mathlib.Core.Logic.Or
use mathlib.Core.List.{
  Mem, Perm, Nodup, Nodup-cons, Nodup-nil, mem-cons, forall_mem-cons, not-mem-nil,
}
use native.Mathlib.Bridge.{le_prop}
use always_be_learning.Common.{ℕ, ◌<◌, ◌≤◌, ◌+◌, arith, true, ◌≡◌, refl, List, [], ◌∷◌, inl, inr}
use always_be_learning.Typelist.Meta.{names, is_derived_from_v}
use always_be_learning.Typelist.Operations.{contains_v}
use always_be_learning.Typelist.Algorithms.{accumulate_t, remove_duplicates_t, find_index_of_v}
use always_be_learning.Typelist.Derived.{most_derived_first_t}
use always_be_learning.Typelist.Interface.{typelists, valuelists, Valuelist}
use always_be_learning.Typelist.Recursive.{insertion_sort_t, accumulate_alt_t}
use always_be_learning.Typelist.Sorting.{StrictWeakOrder, IsSorted}
use always_be_learning.Typelist.Laws.{
  typelists-Laws, valuelists-Laws, view-values, view-typelists, insertion_sort_t-IsSorted,
}
use always_be_learning.Typelist.Duplicates.{Pruned, remove_duplicates_t-Pruned}
use always_be_learning.Typelist.MostDerived.{Family, Bottom, Derives}
use always_be_learning.Typelist.Fronted.{Exchanged, most_derived_first_t-Exchanged}
use always_be_learning.Typelist.Indices.{FirstAt, find_index_of_v-FirstAt}
use always_be_learning.Typelist.Folds.{accumulate_alt_t-accumulate_t}
use always_be_learning.Tests.Metaprograms.{classes, integers, larger}

larger-order : StrictWeakOrder larger
larger-order = record { asym = λ a b h. ground arith; negative_trans = λ a b c h k. ground arith }

insertion_sort_t-IsSorted_example :
    (r : Valuelist ℕ) × (insertion_sort_t valuelists 9 integers larger ≡ names r)
    × IsSorted larger (valuelists-Laws.view r)
    × Perm (valuelists-Laws.view r) (valuelists-Laws.view integers)
insertion_sort_t-IsSorted_example =
    insertion_sort_t-IsSorted valuelists-Laws larger larger-order integers 9
      (rw (view-values integers) (omega arith))

remove_duplicates_t-Pruned_example :
    (ys : List ℕ) × (remove_duplicates_t ⦃t = classes⦄ (1 ∷ 2 ∷ 1 ∷ 3 ∷ []) ≡ names ys)
    × Pruned ⦃t = classes⦄ (1 ∷ 2 ∷ 1 ∷ 3 ∷ []) ys
remove_duplicates_t-Pruned_example = remove_duplicates_t-Pruned ⦃t = classes⦄ (1 ∷ 2 ∷ 1 ∷ 3 ∷ [])

two_contained : contains_v ⦃t = classes⦄ (4 ∷ 2 ∷ 7 ∷ 2 ∷ []) 2 ≡ true
unfolding contains_v ℕ_discrete
two_contained = refl

find_index_of_v-FirstAt_example :
    (k : ℕ) × (find_index_of_v ⦃t = classes⦄ (4 ∷ 2 ∷ 7 ∷ 2 ∷ []) 2 ≡ names k)
    × FirstAt ⦃t = classes⦄ (4 ∷ 2 ∷ 7 ∷ 2 ∷ []) 2 k
find_index_of_v-FirstAt_example =
    find_index_of_v-FirstAt ⦃t = classes⦄ (4 ∷ 2 ∷ 7 ∷ 2 ∷ []) 2 two_contained (omega arith)

accumulate_alt_t-accumulate_t_example :
    accumulate_alt_t typelists 4 (5 ∷ 6 ∷ 7 ∷ []) (λ total a. names (total + a)) 0
    ≡ accumulate_t (5 ∷ 6 ∷ 7 ∷ []) (λ total a. names (total + a)) 0
accumulate_alt_t-accumulate_t_example =
    accumulate_alt_t-accumulate_t typelists-Laws (5 ∷ 6 ∷ 7 ∷ []) (5 ∷ 6 ∷ 7 ∷ []) 4
      (λ total a. names (total + a)) 0 (view-typelists _) (omega arith)

abbrev chain_front : List ℕ
chain_front = 2 ∷ 3 ∷ []

-- the chain 1, 2, 3, of which each derives from those before it
abbrev chain : List ℕ
chain = 2 ∷ 3 ∷ 1 ∷ []

Derives-at_least : (a b : ℕ) → a < 9 → b ≤ a → Derives ⦃t = classes⦄ a b
unfolding is_derived_from_v
Derives-at_least a b h k = ground arith

chain_small : (a : ℕ) → Mem a chain → a < 9
chain_small = (forall_mem-cons (λ a. le_prop)).1 (
  omega arith,
  (forall_mem-cons (λ a. le_prop)).1 (
    omega arith,
    (forall_mem-cons (λ a. le_prop)).1 (omega arith, λ a m. absurd (not-mem-nil m)),
  ),
)

Derives-trans :
    (a b c : ℕ) → Derives ⦃t = classes⦄ a b → Derives ⦃t = classes⦄ b c → Derives ⦃t = classes⦄ a c
unfolding is_derived_from_v
Derives-trans a b c h k = ground arith

chain-Family : Family ⦃t = classes⦄ chain
chain-Family = record {
  comparable = λ a b m n. elim (dec_le b a) [
    | yes h ↦ inl (Derives-at_least a b (chain_small a m) h)
    | no h ↦ inr (Derives-at_least b a (chain_small b n) (omega arith))
  ];
  trans = Derives-trans;
}

chain_front-Nodup : Nodup chain_front
chain_front-Nodup = Nodup-cons.1 (
  (λ m. Or.elim ⊥_prop (mem-cons.0 m) (λ e. omega arith) λ n. not-mem-nil n),
  Nodup-cons.1 (not-mem-nil, Nodup-nil),
)

most_derived_first_t-Exchanged_example :
    (m : ℕ) × (tail : List ℕ) × (most_derived_first_t ⦃t = classes⦄ (1 ∷ 2 ∷ 3 ∷ [])
      ≡ names (m ∷ tail))
    × Bottom ⦃t = classes⦄ chain m
    × Exchanged 1 (2 ∷ 3 ∷ []) m tail
most_derived_first_t-Exchanged_example =
    most_derived_first_t-Exchanged ⦃t = classes⦄ 1 2 (3 ∷ []) chain-Family chain_front-Nodup
