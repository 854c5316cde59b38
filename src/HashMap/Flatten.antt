-- ===== src/HashMap/Flatten.antt =====
-- The entries of a table one after the other, in the order of the iterators.
use always_be_learning.Common.{
  ℕ, zero, suc, ◌+◌, ◌<◌, ◌≡◌, refl, ◌∙◌, sym, ap, ◌⊎◌, inl, inr, Bool-cases, Option, none, some,
  List, [], ◌∷◌, ◌++◌, arith, ◌==◌, length, length-append, eq_of_==,
}
use always_be_learning.HashMap.Key.{Key}
use always_be_learning.HashMap.Bucket.{Bucket}
use always_be_learning.HashMap.Table.{HashMap, next_node, begin, entries_from}
use always_be_learning.HashMap.Entries.{assoc, AllKeys, IsDistinct}
use always_be_learning.HashMap.Slots.{slot, total, home, IsPlaced, IsValid, lookup}

abbrev pub or_else {ℓ} : {A : Type ℓ} → Option A → Option A → Option A
or_else none o = o
or_else (some v) o = some v

pub or_else-none {ℓ} : {A : Type ℓ} → (o : Option A) → or_else o none ≡ o
or_else-none none = refl
or_else-none (some v) = refl

module _ {ℓ κ} {K : Type ℓ} {V : Type κ} where
  abbrev pub flatten : List (Bucket K V) → List (K × V)
  flatten [] = []
  flatten (b ∷ bs) = b ++ flatten bs

  pub length-flatten : (bs : List (Bucket K V)) → length (flatten bs) ≡ total bs
  length-flatten [] = refl
  length-flatten (b ∷ bs) = omega (arith, length-append b (flatten bs), length-flatten bs)

  pub next_node-stays :
      (beyond : Bucket K V) (b : Bucket K V) (left : List (Bucket K V)) (e : K × V)
      (rest : Bucket K V)
      → next_node beyond (b ∷ left) (e ∷ rest) ≡ record { left = b ∷ left; node = e ∷ rest }
  unfolding next_node
  next_node-stays beyond b [] e rest = refl
  next_node-stays beyond b (b' ∷ left) e rest = refl

  entries_from-next_node :
      (beyond : Bucket K V) (fuel : ℕ) (b : Bucket K V) (left : List (Bucket K V))
      (node : Bucket K V)
      → length (node ++ flatten left) < fuel
      → let it = next_node beyond (b ∷ left) node in
        entries_from beyond fuel it.left it.node ≡ some (node ++ flatten left)
  unfolding entries_from
  entries_from-next_node beyond zero b left node h = absurd (omega arith)
  entries_from-next_node beyond (suc fuel) b [] [] h = refl
  entries_from-next_node beyond (suc fuel) b (b' ∷ left) [] h =
      entries_from-next_node beyond (suc fuel) b' left b' h
  entries_from-next_node beyond (suc fuel) b left (e ∷ rest) h =
      rw (next_node-stays beyond b left e rest) (
        ap (λ es. elim es [ none ↦ none | some es ↦ some (e ∷ es) ])
          (entries_from-next_node beyond fuel b left rest (omega arith)))

  -- Given fuel for one more than its entries, an iteration from `begin()` to `end()` visits every
  -- entry of the buckets once, bucket by bucket, whatever lies beyond the array.
  pub entries_from-begin :
      (beyond : Bucket K V) (fuel : ℕ) (bs : List (Bucket K V))
      → total bs < fuel
      → let it = begin beyond bs in entries_from beyond fuel it.left it.node ≡ some (flatten bs)
  unfolding begin entries_from
  entries_from-begin beyond zero bs h = absurd (omega arith)
  entries_from-begin beyond (suc fuel) [] h = refl
  entries_from-begin beyond (suc fuel) (b ∷ bs) h =
      entries_from-next_node beyond (suc fuel) b bs b
        (omega (arith, length-flatten bs, length-append b (flatten bs)))

module _ {ℓ κ} {K : Type ℓ} {V : Type κ} ⦃key : Key K⦄ where
  assoc-append :
      (q : K) (xs ys : Bucket K V) → assoc q (xs ++ ys) ≡ or_else (assoc q xs) (assoc q ys)
  unfolding assoc
  assoc-append q [] ys = refl
  assoc-append q (e ∷ xs) ys = ground (arith, assoc-append q xs ys)

  assoc_elsewhere :
      (n i : ℕ) (q : K) (b : Bucket K V)
      → AllKeys (λ k. home k n ≡ i) b
      → ¬ (home q n ≡ i)
      → assoc q b ≡ none
  unfolding assoc
  assoc_elsewhere n i q [] a h = refl
  assoc_elsewhere n i q (e ∷ b) a h = elim (Bool-cases (key.equal e.0 q)) [
    | inl same ↦ absurd (h (ap (λ k. home k n) (sym (key.eq_of_equal e.0 q same)) ∙ a.0))
    | inr other ↦ rw other (assoc_elsewhere n i q b a.1 h)
  ]

  assoc-flatten_before :
      (n i : ℕ) (q : K) (bs : List (Bucket K V))
      → IsPlaced n i bs
      → home q n < i
      → assoc q (flatten bs) ≡ none
  unfolding assoc
  assoc-flatten_before n i q [] p h = refl
  assoc-flatten_before n i q (b ∷ bs) p h =
      rw
        (
          assoc-append q b (flatten bs),
          assoc_elsewhere n i q b p.0 (λ e. omega arith),
          assoc-flatten_before n (suc i) q bs p.2 (omega arith),
        )
        refl

  assoc-flatten :
      (n i j : ℕ) (q : K) (bs : List (Bucket K V))
      → IsPlaced n i bs
      → home q n ≡ i + j
      → assoc q (flatten bs) ≡ assoc q (slot bs j)
  assoc-flatten n i j q [] p h = refl
  assoc-flatten n i zero q (b ∷ bs) p h =
      rw (assoc-append q b (flatten bs), assoc-flatten_before n (suc i) q bs p.2 (omega arith))
        (or_else-none _)
  assoc-flatten n i (suc j) q (b ∷ bs) p h =
      rw (assoc-append q b (flatten bs), assoc_elsewhere n i q b p.0 (λ e. omega arith))
        (assoc-flatten n (suc i) j q bs p.2 (omega arith))

  pub lookup-flatten :
      (m : HashMap K V) (q : K) → IsValid m → assoc q (flatten m.buckets) ≡ lookup m q
  unfolding lookup
  lookup-flatten m q valid =
      assoc-flatten m.bucket_count 0 (home q m.bucket_count) q m.buckets valid.placed (omega arith)

  IsDistinct-append :
      (xs ys : Bucket K V)
      → IsDistinct xs
      → IsDistinct ys
      → ((q : K) → (assoc q xs ≡ none) ⊎ (assoc q ys ≡ none))
      → IsDistinct (xs ++ ys)
  unfolding assoc
  IsDistinct-append [] ys d d' apart = d'
  IsDistinct-append (e ∷ xs) ys d d' apart =
      let there : assoc e.0 ys ≡ none = elim (apart e.0) [
        | inl h ↦ absurd (ground (arith, key.equal_refl e.0, h))
        | inr h ↦ h
      ] in
      (
        (rw (assoc-append e.0 xs ys, d.0) there),
        IsDistinct-append xs ys d.1 d'
            (λ q. elim (apart q) [ inl h ↦ inl (ground (arith, h)) | inr h ↦ inr h ]),
      )

  pub flatten-IsDistinct :
      (n i : ℕ) (bs : List (Bucket K V)) → IsPlaced n i bs → IsDistinct (flatten bs)
  flatten-IsDistinct n i [] p = tt
  flatten-IsDistinct n i (b ∷ bs) p =
      IsDistinct-append b (flatten bs) p.1 (flatten-IsDistinct n (suc i) bs p.2) (λ q.
        elim (Bool-cases (home q n == i)) [
          | inl h ↦ inr (assoc-flatten_before n (suc i) q bs p.2 (omega (arith, eq_of_== h)))
          | inr h ↦ inl (assoc_elsewhere n i q b p.0 (λ e. ground (arith, e, h)))
        ])
