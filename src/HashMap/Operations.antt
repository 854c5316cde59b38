-- ===== src/HashMap/Operations.antt =====
-- The operations of `HashMap` as operations on the abstract map that the table stands for.
use mathlib.Core.Option
use always_be_learning.Common.{
  ℕ, zero, suc, ◌+◌, ◌<◌, ◌≤◌, ◌≡◌, refl, ◌∙◌, sym, ap, Bool, true, false, not, none, some, Option,
  List, [], ◌∷◌, arith, if◌then◌else◌, length, replicate, to_nat,
}
use always_be_learning.HashMap.Key.{Key}
use always_be_learning.HashMap.Bucket
use always_be_learning.HashMap.Bucket.{Bucket, push_front}
use always_be_learning.HashMap.Table.{
  size_sub, HashMap, ok, out_of_range, set, new, size, insert, insert_or_assign, erase, at,
  subscript, entry_at, Run,
}
use always_be_learning.HashMap.Erasure.{erase-Updates}
use always_be_learning.HashMap.Entries.{
  assoc, is_none, get_or, entry_at-find, insert_unique-Updates, insert_or_assign-Updates,
  push_front-Updates, length-push_front,
}
use always_be_learning.HashMap.Slots.{
  slot, total, home, IsPlaced, IsValid, bucket_of, lookup, get_bucket-ok, home-lt, IsPlaced-slot,
  Stores, set-Stores,
}

size_sub-eq : (a b : ℕ) → b ≤ a → size_sub a b + b ≡ a
unfolding size_sub
size_sub-eq a b h = ground arith

counted_up : (flag : Bool) (count : ℕ) → (if flag then count + 1 else count) ≡ count + to_nat flag
counted_up true count = refl
counted_up false count = omega arith

module _ {ℓ κ} (K : Type ℓ) (V : Type κ) where
  total-replicate : (n : ℕ) → total (replicate {A = Bucket K V} n []) ≡ 0
  unfolding replicate
  total-replicate zero = refl
  total-replicate (suc n) = omega (arith, total-replicate n)

  length-replicate : (n : ℕ) → length (replicate {A = Bucket K V} n []) ≡ n
  unfolding replicate
  length-replicate zero = refl
  length-replicate (suc n) = ap suc (length-replicate n)

module _ {ℓ κ} {K : Type ℓ} {V : Type κ} where
  slot-le-total : (bs : List (Bucket K V)) (i : ℕ) → length (slot bs i) ≤ total bs
  slot-le-total [] i = omega arith
  slot-le-total (b ∷ bs) zero = omega arith
  slot-le-total (b ∷ bs) (suc i) = omega (arith, slot-le-total bs i)

  slot-replicate : (n i : ℕ) → slot (replicate {A = Bucket K V} n []) i ≡ []
  unfolding replicate
  slot-replicate zero i = refl
  slot-replicate (suc n) zero = refl
  slot-replicate (suc n) (suc i) = slot-replicate n i

module _ {ℓ κ} (K : Type ℓ) (V : Type κ) ⦃key : Key K⦄ where
  IsPlaced-replicate : (n i w : ℕ) → IsPlaced w i (replicate {A = Bucket K V} n [])
  unfolding replicate
  IsPlaced-replicate zero i w = tt
  IsPlaced-replicate (suc n) i w = (tt, tt, IsPlaced-replicate n (suc i) w)

  -- A table made with one bucket or more is valid, and no key has a value in it.
  pub new-IsValid :
      (n : ℕ) → 0 < n → let m : HashMap K V = new n in IsValid m × ((q : K) → lookup m q ≡ none)
  unfolding new lookup assoc
  new-IsValid n h = (
    record {
      width = length-replicate K V n;
      positive = h;
      counted = sym (total-replicate K V n);
      placed = IsPlaced-replicate n 0 n;
    },
    λ q. ap (assoc q) (slot-replicate n (home q n)),
  )

module _ {ℓ κ} {K : Type ℓ} {V : Type κ} ⦃key : Key K⦄ where
  -- On a valid table `insert` ends with a valid table and the flag "the key was not there". The
  -- new table reads as the old one, except that the key, when it was not there, has the new
  -- value: a value that was there stays.
  pub insert-Stores :
      (m : HashMap K V) (k : K) (v : V)
      → IsValid m
      → (m' : HashMap K V) × (insert m k v ≡ ok (m', is_none (lookup m k)))
        × Stores m k (some (get_or (lookup m k) v)) m'
  unfolding insert lookup
  insert-Stores m k v valid =
      let (flag, grown, up) = insert_unique-Updates k v (bucket_of m k) in
      let r = Bucket.insert_unique (k, v) (bucket_of m k) in
      let count' = if r.2 then m.count + 1 else m.count in
      let m' : HashMap K V = record m {
        buckets = set m.buckets (home k m.bucket_count) r.0;
        count = count';
      } in
      (
        m',
        (rw (get_bucket-ok m valid.width valid.positive k, flag) refl),
        set-Stores k _ r.0 count' valid up (omega (arith, grown, counted_up r.2 m.count)),
      )

  -- On a valid table `insert_or_assign` ends with a valid table and the flag "the key was not
  -- there". The new table reads as the old one, except that the key has the new value.
  pub insert_or_assign-Stores :
      (m : HashMap K V) (k : K) (v : V)
      → IsValid m
      → (m' : HashMap K V) × (insert_or_assign m k v ≡ ok (m', is_none (lookup m k)))
        × Stores m k (some v) m'
  unfolding insert_or_assign lookup
  insert_or_assign-Stores m k v valid =
      let (flag, grown, up) = insert_or_assign-Updates k v (bucket_of m k) in
      let r = Bucket.insert_or_assign k v (bucket_of m k) in
      let count' = if r.2 then m.count + 1 else m.count in
      let m' : HashMap K V = record m {
        buckets = set m.buckets (home k m.bucket_count) r.0;
        count = count';
      } in
      (
        m',
        (rw (get_bucket-ok m valid.width valid.positive k, flag) refl),
        set-Stores k _ r.0 count' valid up (omega (arith, grown, counted_up r.2 m.count)),
      )

  -- On a valid table `erase` by key ends with a valid table and the number of entries under the
  -- key, 1 or 0. The new table reads as the old one, except that the key has no value.
  pub erase-Stores :
      (m : HashMap K V) (k : K)
      → IsValid m
      → (m' : HashMap K V) × (erase m k ≡ ok (m', to_nat (not (is_none (lookup m k)))))
        × Stores m k none m'
  unfolding erase lookup
  erase-Stores m k valid =
      let (_, distinct) =
        IsPlaced-slot m.bucket_count 0 (home k m.bucket_count) m.buckets valid.placed in
      let (number, shrunk, up) = erase-Updates k (bucket_of m k) distinct in
      let r = Bucket.erase k (bucket_of m k) in
      let count' = size_sub m.count r.1 in
      let m' : HashMap K V = record m {
        buckets = set m.buckets (home k m.bucket_count) r.0;
        count = count';
      } in
      (
        m',
        (rw (get_bucket-ok m valid.width valid.positive k, number) refl),
        set-Stores k none r.0 count' valid up (
            omega (
              arith,
              shrunk,
              valid.counted,
              slot-le-total m.buckets (home k m.bucket_count),
              size_sub-eq m.count r.1,
            )),
      )

  with_key :
      (k : K) (o : Option V)
      → (elim (Option.map {B = K × V} (λ v. (k, v)) o) as (λ _. Run (K × V)) [
        | some e ↦ ok e
        | none ↦ out_of_range
      ])
        ≡ elim o [ some v ↦ ok (k, v) | none ↦ out_of_range ]
  with_key k none = refl
  with_key k (some v) = refl

  -- On a valid table `at` returns the entry of the key with the key and its value, and throws
  -- `std::out_of_range` when there is none.
  pub at-lookup :
      (m : HashMap K V) (k : K)
      → IsValid m
      → at m k ≡ elim (lookup m k) [ some v ↦ ok (k, v) | none ↦ out_of_range ]
  unfolding at lookup
  at-lookup m k valid =
      let run : at m k ≡ elim (entry_at (bucket_of m k) (Bucket.find k (bucket_of m k))) [
        | some e ↦ ok e
        | none ↦ out_of_range
      ] =
        rw (get_bucket-ok m valid.width valid.positive k) refl in
      run ∙ rw (entry_at-find k (bucket_of m k)) (with_key k (assoc k (bucket_of m k)))

  -- On a valid table `operator[]` of a key that is not there puts the fresh value under the key
  -- and returns it, leaving `size()` as it was, so the table that results is not valid.
  pub subscript_miscounts :
      (fresh : V) (m : HashMap K V) (k : K)
      → IsValid m
      → lookup m k ≡ none
      → (m' : HashMap K V) × (subscript fresh m k ≡ ok (m', fresh))
        × (lookup m' k ≡ some fresh)
        × (size m' ≡ size m)
        × ¬ IsValid m'
  unfolding subscript lookup size
  subscript_miscounts fresh m k valid h =
      let i = home k m.bucket_count in
      let b = push_front (k, fresh) (bucket_of m k) in
      let up = push_front-Updates k fresh (bucket_of m k) h in
      let lt = home-lt m valid.width valid.positive k in
      let m' : HashMap K V = record m { buckets = set m.buckets i b } in
      let grown : m.count + 1 + length (bucket_of m k) ≡ m.count + length b =
        (omega (arith, length-push_front (k, fresh) (bucket_of m k))) in
      let absent : entry_at (bucket_of m k) (Bucket.find k (bucket_of m k)) ≡ none =
        entry_at-find k (bucket_of m k) ∙ rw h refl in
      let run : subscript fresh m k
          ≡ elim (entry_at (bucket_of m k) (Bucket.find k (bucket_of m k))) [
            | some e ↦ ok (m, e.1)
            | none ↦ ok (m', fresh)
          ] =
        rw (get_bucket-ok m valid.width valid.positive k) refl in
      let w = set-Stores k (some fresh) b (m.count + 1) valid up grown in
      (
        m',
        run ∙ rw absent refl,
        w.reads k ∙ rw (key.equal_refl k) refl,
        refl,
        λ bad. omega (arith, bad.counted, w.valid.counted),
      )
