-- ===== src/OutputIterators/Iterators.antt =====
-- Metaprogramming/output_iterators: output_filter_iterator, output_transform_iterator,
-- output_partition_iterator, output_demux_iterator, output_multitransform_iterator and
-- output_unzip_iterator. An iterator is its state, with `*it = value` and `++it`.
use always_be_learning.Common.{ℕ, Bool, List, [], ◌∷◌, ◌++◌, if◌then◌else◌}
use always_be_learning.OutputIterators.Tuple.{
  Tuple, tuple_for_each, tuple_apply_unique, elementwise_apply, getters,
}

pub record OutputIterator {ℓ κ} (S : Type ℓ) (A : Type κ) : Type (ℓ ⊔ κ) where
  pub assign : S → A → S
  pub increment : S → S

-- `std::copy`: every value is assigned, and the iterator incremented
unfoldable pub copy {ℓ κ} : {S : Type ℓ} {A : Type κ} → OutputIterator S A → List A → S → S
copy it [] s = s
copy it (value ∷ values) s = copy it values (it.increment (it.assign s value))

-- `std::back_inserter`
abbrev pub back_inserter {ℓ} : {A : Type ℓ} → OutputIterator (List A) A
back_inserter = record { assign = λ s value. s ++ value ∷ []; increment = λ s. s }

module _ {ℓ κ} {S : Type ℓ} {A : Type κ} where
  -- the increment is done by the assignment
  abbrev pub filter_assign : OutputIterator S A → (A → Bool) → S → A → S
  filter_assign it predicate s value =
      if predicate value then it.increment (it.assign s value) else s

  unfoldable pub output_filter : OutputIterator S A → (A → Bool) → OutputIterator S A
  output_filter it predicate = record { assign = filter_assign it predicate; increment = λ s. s }

  abbrev pub transform_assign {μ} : {B : Type μ} → OutputIterator S A → (B → A) → S → B → S
  transform_assign it function s value = it.assign s (function value)

  unfoldable pub output_transform {μ} :
      {B : Type μ} → OutputIterator S A → (B → A) → OutputIterator S B
  output_transform it function = record {
    assign = transform_assign it function;
    increment = it.increment;
  }

  abbrev pub partition_assign {μ} :
      {T : Type μ} → OutputIterator S A → OutputIterator T A → (A → Bool) → S × T → A → S × T
  partition_assign true_it false_it predicate (s, t) value =
      if predicate value
      then (true_it.increment (true_it.assign s value), t)
      else (s, false_it.increment (false_it.assign t value))

  unfoldable pub output_partition {μ} :
      {T : Type μ} → OutputIterator S A → OutputIterator T A → (A → Bool) → OutputIterator (S × T) A
  output_partition true_it false_it predicate = record {
    assign = partition_assign true_it false_it predicate;
    increment = λ s. s;
  }

-- `demux_branch`
pub record DemuxBranch {ℓ κ} (S : Type ℓ) (A : Type κ) : Type (ℓ ⊔ κ) where
  pub predicate : A → Bool
  pub iterator : S

module _ {ℓ κ} {S : Type ℓ} {A : Type κ} (it : OutputIterator S A) where
  abbrev pub send : A → DemuxBranch S A → DemuxBranch S A
  send value branch = record branch { iterator = it.increment (it.assign branch.iterator value) }

  unfoldable pub output_demux : (n : ℕ) → OutputIterator (Tuple (DemuxBranch S A) n) A
  unfolding tuple_apply_unique
  output_demux n = record {
    assign = λ branches value.
        tuple_apply_unique n (send value) (λ branch. branch.predicate value) branches;
    increment = λ branches. branches;
  }

  unfoldable pub output_multitransform {μ} :
      {B : Type μ} (n : ℕ) → Tuple (B → A) n → OutputIterator (Tuple S n) B
  unfolding elementwise_apply tuple_for_each
  output_multitransform n functions = record {
    assign = λ iterators value.
        elementwise_apply n (λ s function. it.assign s (function value)) iterators functions;
    increment = λ iterators. tuple_for_each n it.increment iterators;
  }

  unfoldable pub output_unzip : (n : ℕ) → OutputIterator (Tuple S n) (Tuple A n)
  unfolding elementwise_apply tuple_for_each
  output_unzip n = record {
    assign = λ iterators tuple. elementwise_apply n it.assign iterators tuple;
    increment = λ iterators. tuple_for_each n it.increment iterators;
  }

  -- `alt::unzip`
  unfoldable pub unzip_alt : (n : ℕ) → OutputIterator (Tuple S n) (Tuple A n)
  unfolding output_multitransform getters
  unzip_alt n = output_multitransform n (getters A n)
