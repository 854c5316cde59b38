-- ===== src/HashMap/Rehash.antt =====
-- The loops that fill a table from a range: the constructor's, and that of `rehash`.
use always_be_learning.Common.{
  ℕ, suc, ◌+◌, ◌<◌, ◌≡◌, refl, ◌∙◌, sym, ap, ◌⊎◌, inl, inr, Bool-cases, Option, none, some, List,
  [], ◌∷◌, arith, if◌then◌else◌, length, Option-cases,
}
use native.Mathlib.Nat.{add-zero}
use always_be_learning.HashMap.Key.{Key}
use always_be_learning.HashMap.Bucket
use always_be_learning.HashMap.Bucket.{Bucket, push_front}
use always_be_learning.HashMap.Table.{
  HashMap, ok, set, new, size, fill_buckets, safe_fill_buckets, from_range, rehash,
}
use always_be_learning.HashMap.Entries.{
  assoc, get_or, IsDistinct, Updates, insert_unique-Updates, push_front-Updates, length-push_front,
}
use always_be_learning.HashMap.Slots.{
  total, home, IsValid, bucket_of, lookup, get_bucket-ok, home-lt, total-set, Stores, set-Stores,
}
use always_be_learning.HashMap.Operations.{new-IsValid}
use always_be_learning.HashMap.Flatten.{
  or_else, or_else-none, flatten, length-flatten, entries_from-begin, lookup-flatten,
  flatten-IsDistinct,
}

module _ {ℓ κ} {K : Type ℓ} {V : Type κ} ⦃key : Key K⦄ where
  -- the table with the number of its entries as its count, which the loops set at their end
  abbrev pub recount : HashMap K V → HashMap K V
  recount m = record m { count = total m.buckets }

  abbrev put : HashMap K V → K → Bucket K V → HashMap K V
  put m k b = record m { buckets = set m.buckets (home k m.bucket_count) b }

  pub recount-IsValid : {m : HashMap K V} → IsValid m → IsValid (recount m)
  recount-IsValid valid = record {
    width = valid.width;
    positive = valid.positive;
    counted = refl;
    placed = valid.placed;
  }

  put-Stores :
      (m : HashMap K V) (k : K) (value : Option V) (b : Bucket K V)
      → IsValid (recount m)
      → Updates k value (bucket_of m k) b
      → Stores (recount m) k value (recount (put m k b))
  put-Stores m k value b valid up =
      let i = home k m.bucket_count in
      set-Stores k value b (total (set m.buckets i b)) valid up
        (total-set m.buckets i b (home-lt m valid.width valid.positive k))

  -- the range that is still to be read, behind what the table holds
  pub record Filled (m : HashMap K V) (xs : List (K × V)) (m' : HashMap K V) : Type (ℓ ⊔ κ) where
    pub valid : IsValid (recount m')
    pub same_width : m'.bucket_count ≡ m.bucket_count
    pub reads : (q : K) → lookup m' q ≡ or_else (lookup m q) (assoc q xs)

  first_wins :
      (look : K → Option V) (k q : K) (v : V) (o : Option V)
      → or_else (if key.equal k q then some (get_or (look k) v) else look q) o
        ≡ or_else (look q) (if key.equal k q then some v else o)
  first_wins look k q v o = elim (Bool-cases (key.equal k q)) [
    | inr other ↦ rw other refl
    | inl same ↦
        rw (same, key.eq_of_equal k q same)
          (elim (Option-cases (look q)) [ inl e ↦ rw e refl | inr (u, e) ↦ rw e refl ])
  ]

  safe_fill_buckets-Filled :
      (m : HashMap K V) (xs : List (K × V)) (count : ℕ)
      → IsValid (recount m)
      → (m' : HashMap K V) × (safe_fill_buckets m xs count ≡ ok (m', count + length xs))
        × Filled m xs m'
  unfolding safe_fill_buckets assoc lookup
  safe_fill_buckets-Filled m [] count valid = (
    m,
    rw add-zero refl,
    record { valid = valid; same_width = refl; reads = λ q. sym (or_else-none (lookup m q)) },
  )
  safe_fill_buckets-Filled m (x ∷ xs) count valid =
      let b = (Bucket.insert_unique x (bucket_of m x.0)).0 in
      let (_, _, up) = insert_unique-Updates x.0 x.1 (bucket_of m x.0) in
      let w = put-Stores m x.0 _ b valid up in
      let (m', run, filled) = safe_fill_buckets-Filled (put m x.0 b) xs (count + 1) w.valid in
      let shift : count + 1 + length xs ≡ count + suc (length xs) = omega arith in
      (
        m',
        (rw (get_bucket-ok m valid.width valid.positive x.0) (run ∙ ap (λ n. ok (m', n)) shift)),
        record {
          valid = filled.valid;
          same_width = filled.same_width;
          reads = λ q.
              filled.reads q
              ∙ ap (λ o. or_else o (assoc q xs)) (w.reads q)
              ∙ first_wins (lookup m) x.0 q x.1 (assoc q xs);
        },
      )

  -- The constructor from a range with one bucket or more ends with a table whose entries are
  -- placed and distinct, where each key of the range has its first value, and whose `size()` is
  -- the length of the range, so a key that comes twice is counted twice.
  pub from_range-first :
      (xs : List (K × V)) (n : ℕ)
      → 0 < n
      → (m : HashMap K V) × (from_range xs n ≡ ok m)
        × IsValid (record m { count = total m.buckets })
        × (size m ≡ length xs)
        × ((q : K) → lookup m q ≡ assoc q xs)
  unfolding from_range lookup size
  from_range-first xs n h =
      let (start, nothing) = new-IsValid K V n h in
      let (m', run, filled) = safe_fill_buckets-Filled (new n) xs 0 (recount-IsValid start) in
      (
        record m' { count = 0 + length xs },
        (rw run refl),
        filled.valid,
        omega arith,
        λ q. filled.reads q ∙ ap (λ o. or_else o (assoc q xs)) (nothing q),
      )

  pushed_apart :
      (look : K → Option V) (k q : K) (v : V) (o : Option V)
      → (k ≡ q → o ≡ none)
      → (look q ≡ none) ⊎ ((if key.equal k q then some v else o) ≡ none)
      → ((if key.equal k q then some v else look q) ≡ none) ⊎ (o ≡ none)
  pushed_apart look k q v o h apart = elim (Bool-cases (key.equal k q)) [
    | inl same ↦ inr (h (key.eq_of_equal k q same))
    | inr other ↦ rw other (rw other at apart)
  ]

  pub fill_buckets-Filled :
      (m : HashMap K V) (xs : List (K × V)) (count : ℕ)
      → IsValid (recount m)
      → IsDistinct xs
      → ((q : K) → (lookup m q ≡ none) ⊎ (assoc q xs ≡ none))
      → (m' : HashMap K V) × (fill_buckets m xs count ≡ ok (m', count + length xs))
        × Filled m xs m'
        × (total m'.buckets ≡ total m.buckets + length xs)
  unfolding fill_buckets assoc lookup
  fill_buckets-Filled m [] count valid d apart = (
    m,
    (rw add-zero refl),
    record { valid = valid; same_width = refl; reads = λ q. sym (or_else-none (lookup m q)) },
    omega arith,
  )
  fill_buckets-Filled m (x ∷ xs) count valid d apart =
      let absent : lookup m x.0 ≡ none = elim (apart x.0) [
        | inl h ↦ h
        | inr h ↦ absurd (ground (arith, key.equal_refl x.0, h))
      ] in
      let b = push_front x (bucket_of m x.0) in
      let w = put-Stores m x.0 _ b valid (push_front-Updates x.0 x.1 (bucket_of m x.0) absent) in
      let (m', run, filled, grown) =
        fill_buckets-Filled (put m x.0 b) xs (count + 1) w.valid d.1 (λ q.
          rw (w.reads q)
            (pushed_apart (lookup m) x.0 q x.1 (assoc q xs) (λ e. rw e at d.0) (apart q))) in
      let shift : count + 1 + length xs ≡ count + suc (length xs) = omega arith in
      (
        m',
        (rw (get_bucket-ok m valid.width valid.positive x.0) (run ∙ ap (λ n. ok (m', n)) shift)),
        record {
          valid = filled.valid;
          same_width = filled.same_width;
          reads = λ q.
              filled.reads q
              ∙ ap (λ o. or_else o (assoc q xs)) (w.reads q)
              ∙ (rw absent at (first_wins (lookup m) x.0 q x.1 (assoc q xs)));
        },
        omega (
          arith,
          grown,
          total-set m.buckets (home x.0 m.bucket_count) b
              (home-lt m valid.width valid.positive x.0),
          length-push_front x (bucket_of m x.0),
        ),
      )

  -- On a valid table `rehash` to one bucket or more, given fuel for one more than the entries,
  -- ends with a valid table of that many buckets, which has the same `size()` and reads as the
  -- old one, whatever lies beyond the array of buckets.
  pub rehash-lookup :
      (beyond : Bucket K V) (fuel : ℕ) (m : HashMap K V) (n : ℕ)
      → IsValid m
      → 0 < n
      → size m < fuel
      → (m' : HashMap K V) × (rehash beyond fuel m n ≡ ok m')
        × IsValid m'
        × (m'.bucket_count ≡ n)
        × (size m' ≡ size m)
        × ((q : K) → lookup m' q ≡ lookup m q)
  unfolding rehash lookup size new
  rehash-lookup beyond fuel m n valid h enough =
      let (start, nothing) = new-IsValid K V n h in
      let es = flatten m.buckets in
      let visits = entries_from-begin beyond fuel m.buckets (omega (arith, valid.counted)) in
      let (m', run, filled, grown) =
        fill_buckets-Filled (new n) es 0 (recount-IsValid start)
          (flatten-IsDistinct m.bucket_count 0 m.buckets valid.placed) (λ q. inl (nothing q)) in
      (
        record m' { count = m.count },
        (rw (rehash, visits, run) refl),
        record {
          width = filled.valid.width;
          positive = filled.valid.positive;
          counted = omega (arith, grown, start.counted, valid.counted, length-flatten m.buckets);
          placed = filled.valid.placed;
        },
        filled.same_width,
        refl,
        λ q.
            filled.reads q
            ∙ ap (λ o. or_else o (assoc q es)) (nothing q)
            ∙ lookup-flatten m q valid,
      )
