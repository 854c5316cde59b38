-- ===== src/Typelist/Ends.antt =====
-- Metaprogramming/typelist: reverse, pop_back and replace, whose versions agree.
use mathlib.Core.List.{append_assoc}
use always_be_learning.Common.{◌≡◌, refl, sym, ap, ◌∙◌, List, [], ◌∷◌, ◌++◌}
use always_be_learning.Typelist.Meta.{names, Types}
use always_be_learning.Typelist.Operations.{pop_front_t, push_front_t, back_t, front_t}
use always_be_learning.Typelist.Algorithms.{
  accumulate_t, transform_t, reverse_t, pop_back_t, pop_back_alt_t, replace_t, replace_alt_t,
  replace_using_transform_t,
}

module _ {ℓ} {A : Type ℓ} where
  reverse_t-append : (xs : List A) (a : A) → reverse_t (xs ++ a ∷ []) ≡ a ∷ reverse_t xs
  unfolding reverse_t
  reverse_t-append [] a = refl
  reverse_t-append (x ∷ xs) a = ap (λ r. r ++ x ∷ []) (reverse_t-append xs a)

  pub reverse_t-reverse_t : (xs : List A) → reverse_t (reverse_t xs) ≡ xs
  unfolding reverse_t
  reverse_t-reverse_t [] = refl
  reverse_t-reverse_t (x ∷ xs) =
      reverse_t-append (reverse_t xs) x ∙ ap (◌∷◌ x) (reverse_t-reverse_t xs)

  pop_back_t-append : (xs : List A) (a : A) → pop_back_t (xs ++ a ∷ []) ≡ xs
  unfolding pop_back_t
  pop_back_t-append [] a = refl
  pop_back_t-append (x ∷ []) a = refl
  pop_back_t-append (x ∷ y ∷ xs) a = ap (◌∷◌ x) (pop_back_t-append (y ∷ xs) a)

  back_t-append : (xs : List A) (a : A) → back_t (xs ++ a ∷ []) ≡ names a
  unfolding back_t
  back_t-append [] a = refl
  back_t-append (x ∷ []) a = refl
  back_t-append (x ∷ y ∷ xs) a = back_t-append (y ∷ xs) a

  -- by the list in reverse, of which the last element is the first
  pop_back_of_reversed : (ys : List A) → pop_back_t (reverse_t ys) ≡ reverse_t (pop_front_t ys)
  unfolding reverse_t pop_back_t
  pop_back_of_reversed [] = refl
  pop_back_of_reversed (y ∷ ys) = pop_back_t-append (reverse_t ys) y

  pub pop_back_alt_t-pop_back_t : (xs : List A) → pop_back_alt_t xs ≡ pop_back_t xs
  unfolding pop_back_alt_t
  pop_back_alt_t-pop_back_t xs =
      sym (pop_back_of_reversed (reverse_t xs)) ∙ ap pop_back_t (reverse_t-reverse_t xs)

  back_of_reversed : (ys : List A) → back_t (reverse_t ys) ≡ front_t ys
  unfolding reverse_t back_t
  back_of_reversed [] = refl
  back_of_reversed (y ∷ ys) = back_t-append (reverse_t ys) y

  pub push_back_rebuilds :
      (xs : List A) (a : A) → back_t xs ≡ names a → pop_back_t xs ++ a ∷ [] ≡ xs
  unfolding back_t pop_back_t
  push_back_rebuilds [] a h = absurd cc
  push_back_rebuilds (x ∷ []) a h = cc
  push_back_rebuilds (x ∷ y ∷ xs) a h = ap (◌∷◌ x) (push_back_rebuilds (y ∷ xs) a h)

  accumulate_push_front :
      (xs acc : List A)
      → accumulate_t xs (λ list a. names (push_front_t list (a ∷ []))) acc
        ≡ names (reverse_t xs ++ acc)
  unfolding accumulate_t reverse_t
  accumulate_push_front [] acc = refl
  accumulate_push_front (x ∷ []) acc = refl
  accumulate_push_front (x ∷ y ∷ xs) acc =
      accumulate_push_front (y ∷ xs) (x ∷ acc)
      ∙ ap names (sym (append_assoc (reverse_t (y ∷ xs)) (x ∷ []) acc))

module _ {ℓ} {A : Type ℓ} ⦃t : Types A⦄ where
  replace_using_transform_t-replace_t :
      (xs : List A) (s r : A) → replace_using_transform_t xs s r ≡ names (replace_t xs s r)
  unfolding replace_using_transform_t replace_t transform_t
  replace_using_transform_t-replace_t [] s r = refl
  replace_using_transform_t-replace_t (x ∷ xs) s r =
      rw (replace_using_transform_t-replace_t xs s r) refl

  replace_alt_t-replace_t :
      (x : A) (xs : List A) (s r : A) → replace_alt_t (x ∷ xs) s r ≡ names (replace_t (x ∷ xs) s r)
  unfolding replace_alt_t replace_t
  replace_alt_t-replace_t x [] s r = refl
  replace_alt_t-replace_t x (y ∷ xs) s r = rw (replace_alt_t-replace_t y xs s r) refl
