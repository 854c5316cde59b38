-- ===== src/Typelist/Sorting.antt =====
-- Metaprogramming/typelist/insertion_sort.hpp: the insertion sort of `insertion_sort_alt_impl` sorts.
use mathlib.Core.List.{Mem, Perm, Pairwise, Pairwise-singleton, forall_mem-cons}
use mathlib.Core.List.Perm
use always_be_learning.Common.{Bool, true, false, Bool-cases, ◌≡◌, inl, inr, List, [], ◌∷◌}
use always_be_learning.Typelist.Algorithms.{insert_sorted_alt_t, insertion_sort_alt_t}

-- what `Compare` is for a sort to make sense: a strict weak order
pub record StrictWeakOrder {ℓ} {A : Type ℓ} (compare : A → A → Bool) : Type ℓ where
  pub asym : (a b : A) → compare a b ≡ true → compare b a ≡ false
  pub negative_trans : (a b c : A) → compare b a ≡ false → compare c b ≡ false → compare c a ≡ false

module _ {ℓ} {A : Type ℓ} (compare : A → A → Bool) where
  -- no later element compares less
  abbrev pub IsSorted : List A → Type ℓ
  IsSorted = Pairwise (λ a b. compare b a ≡ false)

  abbrev pub IsBelow : A → List A → Type ℓ
  IsBelow a xs = (b : A) → Mem b xs → compare b a ≡ false

  insert_sorted_alt_t-perm :
      (xs : List A) (e : A) → Perm (insert_sorted_alt_t xs e compare) (e ∷ xs)
  unfolding insert_sorted_alt_t
  insert_sorted_alt_t-perm [] e = Perm.rfl
  insert_sorted_alt_t-perm (a ∷ xs) e = elim (Bool-cases (compare e a)) [
    | inl p ↦ rw (insert_sorted_alt_t, p) Perm.rfl
    | inr p ↦
        rw (insert_sorted_alt_t, p)
          (Perm.trans (Perm.cons a (insert_sorted_alt_t-perm xs e)) (Perm.swap e a xs))
  ]

  pub insertion_sort_alt_t-perm : (xs : List A) → Perm (insertion_sort_alt_t xs compare) xs
  unfolding insertion_sort_alt_t
  insertion_sort_alt_t-perm [] = Perm.rfl
  insertion_sort_alt_t-perm (a ∷ xs) =
      Perm.trans (insert_sorted_alt_t-perm (insertion_sort_alt_t xs compare) a)
        (Perm.cons a (insertion_sort_alt_t-perm xs))

  module _ (order : StrictWeakOrder compare) where
    IsBelow-cons : {a b : A} {xs : List A} → compare b a ≡ false → IsBelow a xs → IsBelow a (b ∷ xs)
    IsBelow-cons {a} p h = (forall_mem-cons (λ b. hlevel)).1 (p, h)

    insert_sorted_alt_t-IsSorted :
        (e : A) {xs : List A} → IsSorted xs → IsSorted (insert_sorted_alt_t xs e compare)
    unfolding insert_sorted_alt_t
    insert_sorted_alt_t-IsSorted e Pairwise.nil = Pairwise-singleton _ e
    insert_sorted_alt_t-IsSorted e (Pairwise.cons {a = a} {l = xs} below s) =
        elim (Bool-cases (compare e a)) [
          | inl p ↦
              let front = order.asym e a p in
              rw (insert_sorted_alt_t, p)
                (Pairwise.cons
                  (IsBelow-cons front λ b m. order.negative_trans e a b front (below b m))
                  (Pairwise.cons below s))
          | inr p ↦
              rw (insert_sorted_alt_t, p)
                (Pairwise.cons
                  (λ b m.
                    IsBelow-cons p below b ((Perm.mem_iff (insert_sorted_alt_t-perm xs e)).0 m))
                  (insert_sorted_alt_t-IsSorted e s))
        ]

    pub insertion_sort_alt_t-IsSorted : (xs : List A) → IsSorted (insertion_sort_alt_t xs compare)
    unfolding insertion_sort_alt_t
    insertion_sort_alt_t-IsSorted [] = Pairwise.nil
    insertion_sort_alt_t-IsSorted (a ∷ xs) =
        insert_sorted_alt_t-IsSorted a (insertion_sort_alt_t-IsSorted xs)
