-- ===== src/HashMap/Entries.antt =====
-- What the operations of one `HashMapBucket` do to the value under each key.
use always_be_learning.Common.{
  ℕ, zero, suc, ◌+◌, ◌≡◌, refl, ◌∙◌, ap, inl, inr, Bool, true, false, Option, none, some, [], ◌∷◌,
  arith, Bool-cases, ◌==◌, if◌then◌else◌, length, to_nat, Option-cases,
}
use mathlib.Core.Option
use always_be_learning.HashMap.Key.{Key}
use always_be_learning.HashMap.Bucket.{
  Bucket, push_front, assign_at, find, insert_unique, insert_or_assign,
}
use always_be_learning.HashMap.Table.{entry_at}

abbrev pub is_none {ℓ} : {A : Type ℓ} → Option A → Bool
is_none none = true
is_none (some _) = false

abbrev pub get_or {ℓ} : {A : Type ℓ} → Option A → A → A
get_or none x = x
get_or (some v) x = v

module _ {ℓ κ} {K : Type ℓ} {V : Type κ} ⦃key : Key K⦄ where
  -- the first value under a key
  unfoldable pub assoc : K → Bucket K V → Option V
  assoc k [] = none
  assoc k (e ∷ b) = if key.equal e.0 k then some e.1 else assoc k b

  pub entry_at-find :
      (k : K) (b : Bucket K V) → entry_at b (find k b) ≡ Option.map (λ v. (k, v)) (assoc k b)
  unfolding entry_at find assoc
  entry_at-find k [] = refl
  entry_at-find k (e ∷ b) = elim (Bool-cases (key.equal e.0 k)) [
    | inl same ↦ rw same (rw (key.eq_of_equal e.0 k same) refl)
    | inr other ↦ rw other (entry_at-find k b)
  ]

  -- the keys of the entries satisfy `P`
  abbrev pub AllKeys : (K → Type 0) → Bucket K V → Type 0
  AllKeys P [] = Unit
  AllKeys P (e ∷ b) = P e.0 × AllKeys P b

  -- no two entries have one key
  abbrev pub IsDistinct : Bucket K V → Type κ
  IsDistinct [] = Unit
  IsDistinct (e ∷ b) = (assoc e.0 b ≡ none) × IsDistinct b

  pub find-assoc : (k : K) (b : Bucket K V) → (find k b == length b) ≡ is_none (assoc k b)
  unfolding find assoc
  find-assoc k [] = refl
  find-assoc k (e ∷ b) = ground (arith, find-assoc k b)

  -- `b` has become `b'`: the value under `k` is `value`, the other values are as they were, no
  -- key is new but `k`, and the entries stay distinct
  pub record Updates (k : K) (value : Option V) (b b' : Bucket K V) : Type (ℓ ⊔ κ ⊔ 1) where
    pub reads : (q : K) → assoc q b' ≡ (if key.equal k q then value else assoc q b)
    pub keys : (P : K → Type 0) → P k → AllKeys P b → AllKeys P b'
    pub distinct : IsDistinct b → IsDistinct b'

  pub push_front-Updates :
      (k : K) (v : V) (b : Bucket K V)
      → assoc k b ≡ none
      → Updates k (some v) b (push_front (k, v) b)
  unfolding push_front assoc
  push_front-Updates k v b h = record {
    reads = λ q. refl;
    keys = λ P p a. (p, a);
    distinct = λ d. (h, d);
  }

  pub length-push_front : (e : K × V) (b : Bucket K V) → length (push_front e b) ≡ suc (length b)
  unfolding push_front
  length-push_front e b = refl

  assign_at-reads :
      (k q : K) (v : V) (b : Bucket K V)
      → is_none (assoc k b) ≡ false
      → assoc q (assign_at (find k b) v b) ≡ (if key.equal k q then some v else assoc q b)
  unfolding assign_at find assoc
  assign_at-reads k q v [] h = cc
  assign_at-reads k q v (e ∷ b) h = ground (
    arith,
    assign_at-reads k q v b,
    key.eq_of_equal e.0 k,
    key.eq_of_equal k q,
    key.eq_of_equal e.0 q,
    key.equal_refl k,
    key.equal_refl e.0,
  )

  assign_at-keys :
      (P : K → Type 0) (i : ℕ) (v : V) (b : Bucket K V) → AllKeys P b → AllKeys P (assign_at i v b)
  unfolding assign_at
  assign_at-keys P i v [] a = tt
  assign_at-keys P zero v (e ∷ b) a = a
  assign_at-keys P (suc i) v (e ∷ b) a = (a.0, assign_at-keys P i v b a.1)

  assign_at-absent :
      (q : K) (i : ℕ) (v : V) (b : Bucket K V) → assoc q b ≡ none → assoc q (assign_at i v b) ≡ none
  unfolding assign_at assoc
  assign_at-absent q i v [] h = refl
  assign_at-absent q zero v (e ∷ b) h = ground arith
  assign_at-absent q (suc i) v (e ∷ b) h = ground (arith, assign_at-absent q i v b)

  assign_at-IsDistinct :
      (i : ℕ) (v : V) (b : Bucket K V) → IsDistinct b → IsDistinct (assign_at i v b)
  unfolding assign_at
  assign_at-IsDistinct i v [] d = tt
  assign_at-IsDistinct zero v (e ∷ b) d = d
  assign_at-IsDistinct (suc i) v (e ∷ b) d =
      (assign_at-absent e.0 i v b d.0, assign_at-IsDistinct i v b d.1)

  length-assign_at : (i : ℕ) (v : V) (b : Bucket K V) → length (assign_at i v b) ≡ length b
  unfolding assign_at
  length-assign_at i v [] = refl
  length-assign_at zero v (e ∷ b) = refl
  length-assign_at (suc i) v (e ∷ b) = ap suc (length-assign_at i v b)

  -- nothing has changed
  Updates-same :
      (k : K) (value : Option V) (b : Bucket K V) → assoc k b ≡ value → Updates k value b b
  Updates-same k value b h = record {
    reads = λ q. ground (arith, key.eq_of_equal k q);
    keys = λ P p a. a;
    distinct = λ d. d;
  }

  -- `insert_unique` reports and inserts a key that is new, and keeps the value of one that is not
  pub insert_unique-Updates :
      (k : K) (v : V) (b : Bucket K V)
      → let r = insert_unique (k, v) b in
        (r.2 ≡ is_none (assoc k b))
        × (length r.0 ≡ length b + to_nat r.2)
        × Updates k (some (get_or (assoc k b) v)) b r.0
  unfolding insert_unique
  insert_unique-Updates k v b = elim (Option-cases (assoc k b)) [
    | inl e ↦
        let test : (find k b == length b) ≡ true = find-assoc k b ∙ ap is_none e in
        rw (test, e) (refl, omega arith, push_front-Updates k v b e)
    | inr (u, e) ↦
        let test : (find k b == length b) ≡ false = find-assoc k b ∙ ap is_none e in
        rw (test, e) (refl, omega arith, Updates-same k (some u) b e)
  ]

  -- `insert_or_assign` leaves the new value under the key, and reports whether the key is new
  pub insert_or_assign-Updates :
      (k : K) (v : V) (b : Bucket K V)
      → let r = insert_or_assign k v b in
        (r.2 ≡ is_none (assoc k b))
        × (length r.0 ≡ length b + to_nat r.2)
        × Updates k (some v) b r.0
  unfolding insert_or_assign
  insert_or_assign-Updates k v b = elim (Option-cases (assoc k b)) [
    | inl e ↦
        let test : (find k b == length b) ≡ true = find-assoc k b ∙ ap is_none e in
        rw (test, e) (refl, omega arith, push_front-Updates k v b e)
    | inr (u, e) ↦
        let test : (find k b == length b) ≡ false = find-assoc k b ∙ ap is_none e in
        rw (test, e)
          (
            refl,
            omega (arith, length-assign_at (find k b) v b),
            record {
              reads = λ q. assign_at-reads k q v b (ap is_none e);
              keys = λ P p. assign_at-keys P (find k b) v b;
              distinct = assign_at-IsDistinct (find k b) v b;
            },
          )
  ]
