-- ===== src/Dictionary.antt =====
-- Maps by name as association lists.
use always_be_learning.Characters.{Text, same_text}
use always_be_learning.Common.{
  true, false, ◌==◌, eq_of_==, ==-refl, Bool-cases, ◌≡◌, refl, sym, ap, ◌∙◌, inl, inr, arith,
  Option, none, some, List, [], ◌∷◌, if◌then◌else◌,
}

-- `find` of a map
unfoldable pub find {ℓ} : {A : Type ℓ} → Text → List (Text × A) → Option A
find name [] = none
find name (entry ∷ entries) =
    let rest = find name entries in if same_text name entry.0 then some entry.1 else rest

-- the value at a key that is present is overwritten
unfoldable pub overwrite {ℓ} : {A : Type ℓ} → Text → A → List (Text × A) → List (Text × A)
overwrite name val [] = []
overwrite name val (entry ∷ entries) =
    let rest = overwrite name val entries in
    if same_text name entry.0 then (entry.0, val) ∷ entries else entry ∷ rest

pub eq_of_same_text : (s t : Text) → same_text s t ≡ true → s ≡ t
unfolding same_text
eq_of_same_text [] [] h = refl
eq_of_same_text [] (b ∷ t) h = ground arith
eq_of_same_text (a ∷ s) [] h = ground arith
eq_of_same_text (a ∷ s) (b ∷ t) h = elim (Bool-cases (a == b)) [
  | inl e ↦ rw (eq_of_== e, eq_of_same_text s t (ground arith)) refl
  | inr e ↦ ground arith
]

pub same_text_refl : (s : Text) → same_text s s ≡ true
unfolding same_text
same_text_refl [] = refl
same_text_refl (a ∷ s) = rw (==-refl a, same_text_refl s) refl

module _ {ℓ} {A : Type ℓ} where
  find_nil : (s : Text) → find {A = A} s [] ≡ none
  unfolding find
  find_nil s = refl

  pub find-head :
      (s : Text) (entry : Text × A) (entries : List (Text × A))
      → same_text s entry.0 ≡ true
      → find s (entry ∷ entries) ≡ some entry.1
  unfolding find
  find-head s entry entries e = rw e refl

  pub find-tail :
      (s : Text) (entry : Text × A) (entries : List (Text × A))
      → same_text s entry.0 ≡ false
      → find s (entry ∷ entries) ≡ find s entries
  unfolding find
  find-tail s entry entries e = rw e refl

  pub find-cons :
      (t : Text) (entry : Text × A) (entries : List (Text × A))
      → find t (entry ∷ entries) ≡ (if same_text t entry.0 then some entry.1 else find t entries)
  unfolding find
  find-cons t entry entries = refl

  -- Overwriting changes the value under the name, when there is one, and under no other name.
  pub find-overwrite :
      (s : Text) (a old : A) (entries : List (Text × A))
      → find s entries ≡ some old
      → find s (overwrite s a entries) ≡ some a
  unfolding overwrite
  find-overwrite s a old [] h = (let no : none ≡ some old = sym (find_nil s) ∙ h in absurd cc)
  find-overwrite s a old (entry ∷ entries) h = elim (Bool-cases (same_text s entry.0)) [
    | inl same ↦ rw (overwrite, same) (find-head s (entry.0, a) entries same)
    | inr other ↦
        rw (overwrite, other)
          (find-tail s entry (overwrite s a entries) other
            ∙ find-overwrite s a old entries (sym (find-tail s entry entries other) ∙ h))
  ]

  find-overwrite_other :
      (t s : Text) (a : A) (entries : List (Text × A))
      → same_text t s ≡ false
      → find t (overwrite s a entries) ≡ find t entries
  unfolding overwrite
  find-overwrite_other t s a [] h = refl
  find-overwrite_other t s a (entry ∷ entries) h = elim (Bool-cases (same_text s entry.0)) [
    | inl same ↦
        let other : same_text t entry.0 ≡ false =
          ap (same_text t) (sym (eq_of_same_text s entry.0 same)) ∙ h in
        rw (overwrite, same)
          (find-tail t (entry.0, a) entries other ∙ sym (find-tail t entry entries other))
    | inr other ↦ elim (Bool-cases (same_text t entry.0)) [
      | inl here ↦
          rw (overwrite, other)
            (find-head t entry (overwrite s a entries) here ∙ sym (find-head t entry entries here))
      | inr there ↦
          rw (overwrite, other)
            (find-tail t entry (overwrite s a entries) there
              ∙ find-overwrite_other t s a entries h
              ∙ sym (find-tail t entry entries there))
    ]
  ]

  pub find-overwrite_if :
      (t s : Text) (a old : A) (entries : List (Text × A))
      → find s entries ≡ some old
      → find t (overwrite s a entries) ≡ (if same_text t s then some a else find t entries)
  find-overwrite_if t s a old entries h = elim (Bool-cases (same_text t s)) [
    | inl same ↦ rw (same, eq_of_same_text t s same) (find-overwrite s a old entries h)
    | inr other ↦ rw other (find-overwrite_other t s a entries other)
  ]
