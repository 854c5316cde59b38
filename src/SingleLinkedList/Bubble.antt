-- ===== src/SingleLinkedList/Bubble.antt =====
-- One pass of a bubble sort over cells, without the heap: what it permutes and how many
-- inversions it takes away.
use mathlib.Core.List.{Perm}
use mathlib.Core.List.Perm
use always_be_learning.Common.{
  ℕ, suc, ◌+◌, ◌≡◌, ◌≢◌, refl, inl, inr, Bool, true, false, [], ◌∷◌, arith, Bool-cases,
  if◌then◌else◌, length, to_nat,
}
use always_be_learning.Memory.{Ptr}
use always_be_learning.Memory.Cells.{Cells, has}

module _ {ℓ} {A : Type ℓ} (cmp : A → A → Bool) where
  -- one pass over the cells behind a carried cell
  unfoldable pub bubble : Ptr × A → Cells A → Cells A
  bubble x [] = x ∷ []
  bubble x (y ∷ xs) = if cmp y.1 x.1 then y ∷ bubble x xs else x ∷ bubble y xs

  unfoldable pub swaps : Ptr × A → Cells A → ℕ
  swaps x [] = 0
  swaps x (y ∷ xs) = if cmp y.1 x.1 then suc (swaps x xs) else swaps y xs

  -- how many of the cells precede the content `v`
  unfoldable pub below : A → Cells A → ℕ
  below v [] = 0
  below v (y ∷ xs) = to_nat (cmp y.1 v) + below v xs

  -- the pairs of cells in the wrong order: a bound for the rounds of `sort`
  unfoldable pub inversions : Cells A → ℕ
  unfolding below
  inversions [] = 0
  inversions (x ∷ xs) = below x.1 xs + inversions xs

  -- no cell precedes the one in front of it
  abbrev pub IsSorted : Cells A → Type 0
  IsSorted [] = Unit
  IsSorted (x ∷ []) = Unit
  IsSorted (x ∷ y ∷ xs) = (cmp y.1 x.1 ≡ false) × IsSorted (y ∷ xs)

  has-bubble : (a : Ptr) (x : Ptr × A) (xs : Cells A) → has a (bubble x xs) ≡ has a (x ∷ xs)
  unfolding bubble
  has-bubble a x [] = refl
  has-bubble a x (y ∷ xs) = ground (arith, has-bubble a x xs, has-bubble a y xs)

  pub bubble-perm : (x : Ptr × A) (xs : Cells A) → Perm (bubble x xs) (x ∷ xs)
  unfolding bubble
  bubble-perm x [] = Perm.refl _
  bubble-perm x (y ∷ xs) = elim (Bool-cases (cmp y.1 x.1)) [
    | inl e ↦ rw e (Perm.trans (Perm.cons y (bubble-perm x xs)) (Perm.swap x y xs))
    | inr e ↦ rw e (Perm.cons x (bubble-perm y xs))
  ]

  below-bubble : (v : A) (x : Ptr × A) (xs : Cells A) → below v (bubble x xs) ≡ below v (x ∷ xs)
  unfolding bubble below
  below-bubble v x [] = refl
  below-bubble v x (y ∷ xs) = ground (arith, below-bubble v x xs, below-bubble v y xs)

  -- every swap takes one inversion away
  pub inversions-bubble :
      ((u v : A) → cmp u v ≡ true → cmp v u ≡ false)
      → (x : Ptr × A) (xs : Cells A) → inversions (bubble x xs) + swaps x xs ≡ inversions (x ∷ xs)
  unfolding bubble inversions swaps
  inversions-bubble asymm x [] = refl
  inversions-bubble asymm x (y ∷ xs) = ground (
    arith,
    asymm y.1 x.1,
    below-bubble y.1 x xs,
    below-bubble x.1 y xs,
    inversions-bubble asymm x xs,
    inversions-bubble asymm y xs,
  )

  pub bubble_still :
      (x : Ptr × A) (xs : Cells A) → swaps x xs ≡ 0 → IsSorted (x ∷ xs) × (bubble x xs ≡ x ∷ xs)
  unfolding bubble swaps
  bubble_still x [] h = (tt, refl)
  bubble_still x (y ∷ xs) h = ground (arith, bubble_still y xs)

  pub bubble-ne-nil : (x : Ptr × A) (xs : Cells A) → bubble x xs ≢ []
  unfolding bubble
  bubble-ne-nil x [] = ground arith
  bubble-ne-nil x (y ∷ xs) = ground arith

  pub length-bubble : (x : Ptr × A) (xs : Cells A) → length (bubble x xs) ≡ suc (length xs)
  unfolding bubble
  length-bubble x [] = refl
  length-bubble x (y ∷ xs) = ground (arith, length-bubble x xs, length-bubble y xs)
