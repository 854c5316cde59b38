-- ===== src/OutputIterators/Tuple.antt =====
-- Metaprogramming/tuple_algorithms: tuple_for_each, elementwise_apply and tuple_apply_unique on
-- `std::tuple`, with elements of one type. The size is part of the type, as the assertion of equal
-- sizes asks.
use always_be_learning.Common.{
  ℕ, zero, suc, ◌+◌, arith, Bool, true, false, Bool-cases, ◌≡◌, refl, ap, ◌∙◌, inl, inr, Option,
  none, some, if◌then◌else◌,
}

abbrev pub Tuple {ℓ} : Type ℓ → ℕ → Type ℓ
Tuple A zero = Unit
Tuple A (suc n) = A × Tuple A n

if_some : (b : Bool) (i j : ℕ) → (if b then some i else some j) ≡ some (if b then i else j)
if_some true i j = refl
if_some false i j = refl

module _ {ℓ} {A : Type ℓ} where
  unfoldable pub tuple_for_each : (n : ℕ) → (A → A) → Tuple A n → Tuple A n
  tuple_for_each zero function tuple = tt
  tuple_for_each (suc n) function (a, rest) = (function a, tuple_for_each n function rest)

  -- the first element that meets the predicate is changed
  unfoldable pub tuple_apply_unique : (n : ℕ) → (A → A) → (A → Bool) → Tuple A n → Tuple A n
  tuple_apply_unique zero action predicate tuple = tt
  tuple_apply_unique (suc n) action predicate (a, rest) =
      let later = tuple_apply_unique n action predicate rest in
      if predicate a then (action a, rest) else (a, later)

  -- there is no instance for the empty tuple
  unfoldable pub tuple_find_if_from : (n i : ℕ) → (A → Bool) → Tuple A n → Option ℕ
  tuple_find_if_from zero i predicate tuple = none
  tuple_find_if_from (suc zero) i predicate (a, rest) = if predicate a then some i else some (i + 1)
  tuple_find_if_from (suc (suc n)) i predicate (a, rest) =
      let later = tuple_find_if_from (suc n) (i + 1) predicate rest in
      if predicate a then some i else later

  unfoldable pub tuple_find_if : (n : ℕ) → (A → Bool) → Tuple A n → Option ℕ
  unfolding tuple_find_if_from
  tuple_find_if n predicate tuple = tuple_find_if_from n 0 predicate tuple

  -- `alt::tuple_find_if`, which ends with the size of the tuple
  unfoldable pub tuple_find_if_alt : (size n i : ℕ) → (A → Bool) → Tuple A n → ℕ
  tuple_find_if_alt size zero i predicate tuple = size
  tuple_find_if_alt size (suc n) i predicate (a, rest) =
      let later = tuple_find_if_alt size n (i + 1) predicate rest in
      if predicate a then i else later

  -- there is no instance for the empty tuple
  unfoldable pub tuple_accumulate {κ} :
      {T : Type κ} (n : ℕ) → Tuple A n → T → (T → A → T) → Option T
  tuple_accumulate zero tuple init function = none
  tuple_accumulate (suc zero) (a, rest) init function = some (function init a)
  tuple_accumulate (suc (suc n)) (a, rest) init function =
      tuple_accumulate (suc n) rest (function init a) function

  -- the two searches end with the same index
  tuple_find_if_from-alt :
      (n i : ℕ) (p : A → Bool) (tuple : Tuple A (suc n))
      → tuple_find_if_from (suc n) i p tuple
        ≡ some (tuple_find_if_alt (i + suc n) (suc n) i p tuple)
  unfolding tuple_find_if_from tuple_find_if_alt
  tuple_find_if_from-alt zero i p (a, rest) = if_some (p a) i (i + 1)
  tuple_find_if_from-alt (suc n) i p (a, rest) = elim (Bool-cases (p a)) [
    | inl e ↦ rw e refl
    | inr e ↦
        let sizes : i + 1 + suc n ≡ i + suc (suc n) = omega arith in
        let found = tuple_find_if_from-alt n (i + 1) p rest in
        rw e (found ∙ ap (λ size. some (tuple_find_if_alt size (suc n) (i + 1) p rest)) sizes)
  ]

module _ {ℓ κ} {A : Type ℓ} {B : Type κ} where
  -- the function changes the elements of the first tuple
  unfoldable pub elementwise_apply : (n : ℕ) → (A → B → A) → Tuple A n → Tuple B n → Tuple A n
  elementwise_apply zero function as' bs = tt
  elementwise_apply (suc n) function (a, as') (b, bs) =
      (function a b, elementwise_apply n function as' bs)

  unfoldable pub map_tuple : (n : ℕ) → (A → B) → Tuple A n → Tuple B n
  map_tuple zero f as' = tt
  map_tuple (suc n) f (a, as') = (f a, map_tuple n f as')

-- `std::get<Is>...`
unfoldable pub getters {ℓ} : (A : Type ℓ) (n : ℕ) → Tuple (Tuple A n → A) n
unfolding map_tuple
getters A zero = tt
getters A (suc n) = ((λ tuple. tuple.0), map_tuple n (λ get tuple. get tuple.1) (getters A n))
