-- ===== src/OutputIterators/Filtering.antt =====
-- Metaprogramming/output_iterators: what is copied through a filter, a transformation and a partition.
use always_be_learning.Common.{
  Bool, not, Bool-cases, ◌≡◌, refl, inl, inr, List, [], ◌∷◌, map, if◌then◌else◌,
}
use always_be_learning.OutputIterators.Iterators.{
  OutputIterator, copy, output_filter, output_transform, output_partition,
}

unfoldable pub filter {ℓ} : {A : Type ℓ} → (A → Bool) → List A → List A
filter p [] = []
filter p (a ∷ as') = let rest = filter p as' in if p a then a ∷ rest else rest

module _ {ℓ κ} {S : Type ℓ} {A : Type κ} (it : OutputIterator S A) where
  copy-filter :
      (p : A → Bool) (values : List A) (s : S)
      → copy (output_filter it p) values s ≡ copy it (filter p values) s
  unfolding copy filter output_filter
  copy-filter p [] s = refl
  copy-filter p (value ∷ values) s = elim (Bool-cases (p value)) [
    | inl e ↦ rw e (copy-filter p values (it.increment (it.assign s value)))
    | inr e ↦ rw e (copy-filter p values s)
  ]

  copy-transform {μ} :
      {B : Type μ} (f : B → A) (values : List B) (s : S)
      → copy (output_transform it f) values s ≡ copy it (map f values) s
  unfolding copy output_transform
  copy-transform f [] s = refl
  copy-transform f (value ∷ values) s =
      copy-transform f values (it.increment (it.assign s (f value)))

  -- Copied to a partition, the values that meet the predicate go to the first iterator and the
  -- others to the second, both in their order.
  pub copy-partition {μ} :
      {T : Type μ} (false_it : OutputIterator T A) (p : A → Bool) (values : List A) (s : S) (t : T)
      → copy (output_partition it false_it p) values (s, t)
        ≡ (copy it (filter p values) s, copy false_it (filter (λ a. not (p a)) values) t)
  unfolding copy filter output_partition
  copy-partition false_it p [] s t = refl
  copy-partition false_it p (value ∷ values) s t = elim (Bool-cases (p value)) [
    | inl e ↦ rw e (copy-partition false_it p values (it.increment (it.assign s value)) t)
    | inr e ↦
        rw e (copy-partition false_it p values s (false_it.increment (false_it.assign t value)))
  ]
