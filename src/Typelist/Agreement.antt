-- ===== src/Typelist/Agreement.antt =====
-- Metaprogramming/typelist: the algorithms that take a list apart by `front` and `pop_front` name
-- the same types as those that are specialized on packs.
use always_be_learning.Common.{
  ℕ, zero, suc, ◌<◌, arith, Bool, Bool-cases, ◌≡◌, refl, ap, ◌∙◌, inl, inr, List, [], ◌∷◌, ◌++◌,
  length,
}
use always_be_learning.Typelist.Meta.{Meta, names, ◌>>=◌}
use always_be_learning.Typelist.Operations.{is_empty_v}
use always_be_learning.Typelist.Algorithms.{reverse_t, insert_sorted_alt_t, insertion_sort_alt_t}
use always_be_learning.Typelist.Interface.{ListLike, Laws, Gives}
use always_be_learning.Typelist.Recursive.{reverse_alt_t, insert_sorted_t, insertion_sort_t}

module _ {ℓ κ} {A : Type ℓ} {L : Type κ} {ops : ListLike A L} (laws : Laws ops) where
  pub Gives-bind :
      {m : Meta L} {k : L → Meta L} {xs ys : List A}
      → Gives laws.view m xs
      → ((l : L) → laws.view l ≡ xs → Gives laws.view (k l) ys)
      → Gives laws.view (m >>= k) ys
  Gives-bind g h = rw g.named (h g.list g.elements)

  pub names-Gives : {l : L} {xs : List A} → laws.view l ≡ xs → Gives laws.view (names l) xs
  names-Gives {l} e = record { list = l; named = refl; elements = e }

  pub is_empty_at : {xs : List A} (l : L) → laws.view l ≡ xs → ops.is_empty l ≡ is_empty_v xs
  is_empty_at l e = laws.is_empty_law l ∙ ap is_empty_v e

  pub push_front-Gives :
      {xs : List A} (l : L) (a : A)
      → laws.view l ≡ xs
      → Gives laws.view (ops.push_front l a) (a ∷ xs)
  push_front-Gives l a e = rw e at (laws.push_front_law l a)

  pub push_back-Gives :
      {xs : List A} (l : L) (a : A)
      → laws.view l ≡ xs
      → Gives laws.view (ops.push_back l a) (xs ++ a ∷ [])
  push_back-Gives l a e = rw e at (laws.push_back_law l a)

  pub reverse_alt_t-reverse_t :
      (xs : List A) (l : L) (depth : ℕ)
      → laws.view l ≡ xs
      → length xs < depth
      → Gives laws.view (reverse_alt_t ops depth l) (reverse_t xs)
  unfolding reverse_alt_t reverse_t
  reverse_alt_t-reverse_t xs l zero e h = absurd (omega arith)
  reverse_alt_t-reverse_t [] l (suc depth) e h = rw (reverse_alt_t, is_empty_at l e) (names-Gives e)
  reverse_alt_t-reverse_t (a ∷ xs) l (suc depth) e h =
      rw (reverse_alt_t, is_empty_at l e, laws.front_law l a xs e)
        (Gives-bind (laws.pop_front_law l a xs e) λ r er.
          Gives-bind (reverse_alt_t-reverse_t xs r depth er (omega arith))
            λ s es. push_back-Gives s a es)

  module _ (compare : A → A → Bool) where
    insert_sorted_t-alt :
        (xs : List A) (l : L) (depth : ℕ) (element : A)
        → laws.view l ≡ xs
        → length xs < depth
        → Gives laws.view
            (insert_sorted_t ops depth l element compare)
            (insert_sorted_alt_t xs element compare)
    unfolding insert_sorted_t insert_sorted_alt_t
    insert_sorted_t-alt xs l zero element e h = absurd (omega arith)
    insert_sorted_t-alt [] l (suc depth) element e h =
        rw (insert_sorted_t, is_empty_at l e) (push_front-Gives l element e)
    insert_sorted_t-alt (a ∷ xs) l (suc depth) element e h = elim (Bool-cases (compare element a)) [
      | inl p ↦
          rw (insert_sorted_t, is_empty_at l e, laws.front_law l a xs e, p)
            (push_front-Gives l element e)
      | inr p ↦
          rw (insert_sorted_t, is_empty_at l e, laws.front_law l a xs e, p)
            (Gives-bind
              (Gives-bind (laws.pop_front_law l a xs e)
                λ r er. insert_sorted_t-alt xs r depth element er (omega arith))
              λ s es. push_front-Gives s a es)
    ]

    length-insert :
        (xs : List A) (e : A) → length (insert_sorted_alt_t xs e compare) ≡ suc (length xs)
    unfolding insert_sorted_alt_t
    length-insert [] e = refl
    length-insert (a ∷ xs) e = elim (Bool-cases (compare e a)) [
      | inl p ↦ rw (insert_sorted_alt_t, p) refl
      | inr p ↦ rw (insert_sorted_alt_t, p) (ap suc (length-insert xs e))
    ]

    length-sort : (xs : List A) → length (insertion_sort_alt_t xs compare) ≡ length xs
    unfolding insertion_sort_alt_t
    length-sort [] = refl
    length-sort (a ∷ xs) =
        length-insert (insertion_sort_alt_t xs compare) a ∙ ap suc (length-sort xs)

    pub insertion_sort_t-alt :
        (xs : List A) (l : L) (depth : ℕ)
        → laws.view l ≡ xs
        → length xs < depth
        → Gives laws.view (insertion_sort_t ops depth l compare) (insertion_sort_alt_t xs compare)
    unfolding insertion_sort_t insertion_sort_alt_t
    insertion_sort_t-alt xs l zero e h = absurd (omega arith)
    insertion_sort_t-alt [] l (suc depth) e h =
        rw (insertion_sort_t, is_empty_at l e) (names-Gives e)
    insertion_sort_t-alt (a ∷ xs) l (suc depth) e h =
        rw (insertion_sort_t, is_empty_at l e, laws.front_law l a xs e)
          (Gives-bind (laws.pop_front_law l a xs e) λ r er.
            Gives-bind (insertion_sort_t-alt xs r depth er (omega arith)) λ s es.
              insert_sorted_t-alt (insertion_sort_alt_t xs compare) s depth a es
                (omega (arith, length-sort xs)))
