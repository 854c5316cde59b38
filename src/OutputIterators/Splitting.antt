-- ===== src/OutputIterators/Splitting.antt =====
-- Metaprogramming/output_iterators: what is copied to the branches of a demux, and unzipping.
use always_be_learning.Common.{
  ℕ, zero, suc, not, Bool-cases, ◌≡◌, refl, ap, ◌∙◌, inl, inr, List, [], ◌∷◌, map,
}
use always_be_learning.OutputIterators.Tuple.{
  Tuple, tuple_for_each, elementwise_apply, map_tuple, getters,
}
use always_be_learning.OutputIterators.Iterators.{
  OutputIterator, copy, DemuxBranch, send, output_demux, output_multitransform, output_unzip,
  unzip_alt,
}
use always_be_learning.OutputIterators.Filtering.{filter}

module _ {ℓ κ} {S : Type ℓ} {A : Type κ} (it : OutputIterator S A) where
  -- each branch gets the values that it meets of those that no branch before it met
  unfoldable pub share : (n : ℕ) → List A → Tuple (DemuxBranch S A) n → Tuple (DemuxBranch S A) n
  unfolding copy filter
  share zero values branches = tt
  share (suc n) values (branch, rest) = (
    record branch { iterator = copy it (filter branch.predicate values) branch.iterator },
    share n (filter (λ a. not (branch.predicate a)) values) rest,
  )

  copy_first :
      (n : ℕ) (values : List A) (branch : DemuxBranch S A) (rest : Tuple (DemuxBranch S A) n)
      → copy (output_demux it (suc n)) values (branch, rest) ≡ (
        record branch { iterator = copy it (filter branch.predicate values) branch.iterator },
        copy (output_demux it n) (filter (λ a. not (branch.predicate a)) values) rest,
      )
  unfolding copy filter output_demux
  copy_first n [] branch rest = refl
  copy_first n (value ∷ values) branch rest = elim (Bool-cases (branch.predicate value)) [
    | inl e ↦ rw e (copy_first n values (send it value branch) rest)
    | inr e ↦ rw e (copy_first n values branch ((output_demux it n).assign rest value))
  ]

  copy_nothing : (values : List A) → copy (output_demux it 0) values tt ≡ tt
  copy_nothing values = refl

  -- Copied to a demux, every value goes to the first branch whose predicate it meets, and to no
  -- other, in the order of the values.
  pub copy-demux :
      (n : ℕ) (values : List A) (branches : Tuple (DemuxBranch S A) n)
      → copy (output_demux it n) values branches ≡ share n values branches
  unfolding share
  copy-demux zero values branches = refl
  copy-demux (suc n) values (branch, rest) =
      copy_first n values branch rest
      ∙ ap
          (λ later. (
            record branch { iterator = copy it (filter branch.predicate values) branch.iterator },
            later,
          ))
          (copy-demux n (filter (λ a. not (branch.predicate a)) values) rest)

elementwise-map {ℓ κ μ} :
    {A : Type ℓ} {B : Type κ} {C : Type μ} (n : ℕ) (f : A → C → A) (g : B → C) (as' : Tuple A n)
    (bs : Tuple B n)
    → elementwise_apply n f as' (map_tuple n g bs) ≡ elementwise_apply n (λ a b. f a (g b)) as' bs
unfolding elementwise_apply map_tuple
elementwise-map zero f g as' bs = refl
elementwise-map (suc n) f g (a, as') (b, bs) =
    ap (λ rest. (f a (g b), rest)) (elementwise-map n f g as' bs)

elementwise-getters {ℓ κ} :
    {S : Type ℓ} {A : Type κ} (n : ℕ) (f : S → A → S) (states : Tuple S n) (tuple : Tuple A n)
    → elementwise_apply n (λ s get. f s (get tuple)) states (getters A n)
      ≡ elementwise_apply n f states tuple
unfolding elementwise_apply getters
elementwise-getters {A} zero f states tuple = refl
elementwise-getters {A} (suc n) f (s, states) (a, tuple) =
    ap (λ rest. (f s a, rest))
      (elementwise-map n (λ s (get : Tuple A (suc n) → A). f s (get (a, tuple)))
          (λ get tuple. get tuple.1) states (getters A n)
        ∙ elementwise-getters n f states tuple)

module _ {ℓ κ} {S : Type ℓ} {A : Type κ} (it : OutputIterator S A) where
  -- Unzipping by the transformations that read one element of the tuple each writes what unzipping
  -- element by element does.
  pub unzip_alt-unzip :
      (n : ℕ) (values : List (Tuple A n)) (iterators : Tuple S n)
      → copy (unzip_alt it n) values iterators ≡ copy (output_unzip it n) values iterators
  unfolding copy unzip_alt output_unzip output_multitransform
  unzip_alt-unzip n [] iterators = refl
  unzip_alt-unzip n (value ∷ values) iterators =
      ap (λ s. copy (unzip_alt it n) values (tuple_for_each n it.increment s))
        (elementwise-getters n it.assign iterators value)
      ∙ unzip_alt-unzip n values _

  multitransform_first {μ} :
      {B : Type μ} (n : ℕ) (values : List B) (f : B → A) (fs : Tuple (B → A) n) (s : S)
      (states : Tuple S n)
      → copy (output_multitransform it (suc n) (f, fs)) values (s, states)
        ≡ (copy it (map f values) s, copy (output_multitransform it n fs) values states)
  unfolding copy output_multitransform
  multitransform_first n [] f fs s states = refl
  multitransform_first n (value ∷ values) f fs s states =
      multitransform_first n values f fs (it.increment (it.assign s (f value))) _

  multitransform_none {μ} :
      {B : Type μ} (values : List B) → copy (output_multitransform it 0 tt) values tt ≡ tt
  multitransform_none values = refl

  -- each iterator gets all values through its own function
  copy-multitransform {μ} :
      {B : Type μ} (n : ℕ) (values : List B) (functions : Tuple (B → A) n) (iterators : Tuple S n)
      → copy (output_multitransform it n functions) values iterators
        ≡ elementwise_apply n (λ s f. copy it (map f values) s) iterators functions
  unfolding elementwise_apply
  copy-multitransform zero values functions iterators = refl
  copy-multitransform (suc n) values (f, fs) (s, states) =
      multitransform_first n values f fs s states
      ∙ ap (λ rest. (copy it (map f values) s, rest)) (copy-multitransform n values fs states)
