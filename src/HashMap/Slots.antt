-- ===== src/HashMap/Slots.antt =====
-- The array of buckets: where entries stand, what the table means, and a write to one bucket.
use always_be_learning.Common.{
  ℕ, zero, suc, ◌+◌, ◌%◌, ◌<◌, ◌≡◌, refl, ◌∙◌, ap, inl, inr, true, Bool-cases, Option, List, [],
  ◌∷◌, arith, ◌==◌, if◌then◌else◌, length, ==-refl, eq_of_==,
}
use native.Mathlib.Nat.{add-zero}
use always_be_learning.HashMap.Key.{Key}
use always_be_learning.HashMap.Bucket.{Bucket}
use always_be_learning.HashMap.Table.{HashMap, ok, at_index, set, bucket_index, get_bucket}
use always_be_learning.HashMap.Entries.{assoc, AllKeys, IsDistinct, Updates}

module _ {ℓ κ} {K : Type ℓ} {V : Type κ} where
  abbrev pub slot : List (Bucket K V) → ℕ → Bucket K V
  slot [] i = []
  slot (b ∷ bs) zero = b
  slot (b ∷ bs) (suc i) = slot bs i

  abbrev pub total : List (Bucket K V) → ℕ
  total [] = 0
  total (b ∷ bs) = length b + total bs

  at_index-slot : (bs : List (Bucket K V)) (i : ℕ) → i < length bs → at_index bs i ≡ ok (slot bs i)
  unfolding at_index
  at_index-slot [] i h = absurd (omega arith)
  at_index-slot (b ∷ bs) zero h = refl
  at_index-slot (b ∷ bs) (suc i) h = at_index-slot bs i (omega arith)

  length-set : (bs : List (Bucket K V)) (i : ℕ) (b : Bucket K V) → length (set bs i b) ≡ length bs
  length-set [] i b = refl
  length-set (x ∷ bs) zero b = refl
  length-set (x ∷ bs) (suc i) b = ap suc (length-set bs i b)

  slot-set :
      (bs : List (Bucket K V)) (i j : ℕ) (b : Bucket K V)
      → i < length bs
      → slot (set bs i b) j ≡ (if i == j then b else slot bs j)
  slot-set [] i j b h = absurd (omega arith)
  slot-set (x ∷ bs) zero zero b h = refl
  slot-set (x ∷ bs) zero (suc j) b h = ground arith
  slot-set (x ∷ bs) (suc i) zero b h = ground arith
  slot-set (x ∷ bs) (suc i) (suc j) b h = ground (arith, slot-set bs i j b)

  pub total-set :
      (bs : List (Bucket K V)) (i : ℕ) (b : Bucket K V)
      → i < length bs
      → total (set bs i b) + length (slot bs i) ≡ total bs + length b
  total-set [] i b h = absurd (omega arith)
  total-set (x ∷ bs) zero b h = omega arith
  total-set (x ∷ bs) (suc i) b h = omega (arith, total-set bs i b (omega arith))

module _ {ℓ} {K : Type ℓ} ⦃key : Key K⦄ where
  abbrev pub home : K → ℕ → ℕ
  home k n = key.hash k % n

  bucket_index-ok : (n : ℕ) (k : K) → 0 < n → bucket_index k n ≡ ok (home k n)
  unfolding bucket_index
  bucket_index-ok zero k h = absurd (omega arith)
  bucket_index-ok (suc n) k h = refl

module _ {ℓ κ} {K : Type ℓ} {V : Type κ} ⦃key : Key K⦄ where
  -- the buckets from number `i` on hold distinct entries, each in the bucket of its key
  abbrev pub IsPlaced : ℕ → ℕ → List (Bucket K V) → Type κ
  IsPlaced n i [] = Unit
  IsPlaced n i (b ∷ bs) = AllKeys (λ k. home k n ≡ i) b × IsDistinct b × IsPlaced n (suc i) bs

  pub record IsValid (m : HashMap K V) : Type κ where
    pub width : length m.buckets ≡ m.bucket_count
    pub positive : 0 < m.bucket_count
    pub counted : m.count ≡ total m.buckets
    pub placed : IsPlaced m.bucket_count 0 m.buckets

  abbrev pub bucket_of : HashMap K V → K → Bucket K V
  bucket_of m k = slot m.buckets (home k m.bucket_count)

  -- the abstract map that a table stands for
  unfoldable pub lookup : HashMap K V → K → Option V
  lookup m k = assoc k (bucket_of m k)

  pub IsPlaced-slot :
      (n i j : ℕ) (bs : List (Bucket K V))
      → IsPlaced n i bs
      → AllKeys (λ k. home k n ≡ i + j) (slot bs j) × IsDistinct (slot bs j)
  IsPlaced-slot n i j [] p = (tt, tt)
  IsPlaced-slot n i zero (b ∷ bs) p = rw add-zero (p.0, p.1)
  IsPlaced-slot n i (suc j) (b ∷ bs) p =
      let e : suc i + j ≡ i + suc j = omega arith in rw e at (IsPlaced-slot n (suc i) j bs p.2)

  IsPlaced-set :
      (n i j : ℕ) (b : Bucket K V) (bs : List (Bucket K V))
      → IsPlaced n i bs
      → AllKeys (λ k. home k n ≡ i + j) b
      → IsDistinct b
      → IsPlaced n i (set bs j b)
  IsPlaced-set n i j b [] p a d = tt
  IsPlaced-set n i zero b (x ∷ bs) p a d = ((rw add-zero at a), d, p.2)
  IsPlaced-set n i (suc j) b (x ∷ bs) p a d =
      let e : i + suc j ≡ suc i + j = omega arith in
      (p.0, p.1, IsPlaced-set n (suc i) j b bs p.2 (rw e at a) d)

  module _ (m : HashMap K V) (width : length m.buckets ≡ m.bucket_count)
      (positive : 0 < m.bucket_count) (k : K) where
    pub home-lt : home k m.bucket_count < length m.buckets
    home-lt = omega arith

    pub get_bucket-ok : get_bucket m k ≡ ok (home k m.bucket_count, bucket_of m k)
    unfolding get_bucket
    get_bucket-ok =
        rw (bucket_index-ok m.bucket_count k positive, at_index-slot m.buckets _ home-lt)

  reads_slot :
      (n : ℕ) (k q : K) (value : Option V) (b : Bucket K V) (bs : List (Bucket K V))
      → Updates k value (slot bs (home k n)) b
      → assoc q (if home k n == home q n then b else slot bs (home q n))
        ≡ (if key.equal k q then value else assoc q (slot bs (home q n)))
  reads_slot n k q value b bs up = elim (Bool-cases (home k n == home q n)) [
    | inl hit ↦ let e : home k n ≡ home q n = eq_of_== hit in rw hit (rw e at (up.reads q))
    | inr miss ↦ elim (Bool-cases (key.equal k q)) [
      | inl same ↦
          let e : (home k n == home q n) ≡ true =
            rw (key.eq_of_equal k q same) (==-refl (home q n)) in
          absurd cc
      | inr other ↦ rw (miss, other) refl
    ]
  ]

  -- `m'` is valid and reads as `m` with the value under `k` replaced
  pub record Stores (m : HashMap K V) (k : K) (value : Option V) (m' : HashMap K V)
      : Type (ℓ ⊔ κ) where
    pub valid : IsValid m'
    pub reads : (q : K) → lookup m' q ≡ (if key.equal k q then value else lookup m q)

  -- the home bucket of `k` is replaced by `b`
  pub set-Stores :
      {m : HashMap K V} (k : K) (value : Option V) (b : Bucket K V) (count : ℕ)
      → IsValid m
      → Updates k value (bucket_of m k) b
      → count + length (bucket_of m k) ≡ m.count + length b
      → Stores m k value
          (record m { buckets = set m.buckets (home k m.bucket_count) b; count = count })
  unfolding lookup
  set-Stores {m} k value b count valid up grown =
      let lt = home-lt m valid.width valid.positive k in
      let i = home k m.bucket_count in
      let (keys, distinct) = IsPlaced-slot m.bucket_count 0 i m.buckets valid.placed in
      record {
        valid = record {
          width = length-set m.buckets i b ∙ valid.width;
          positive = valid.positive;
          counted = omega (arith, valid.counted, total-set m.buckets i b lt);
          placed =
              IsPlaced-set m.bucket_count 0 i b m.buckets valid.placed
                (up.keys (λ q. home q m.bucket_count ≡ 0 + i) (omega arith) keys)
                (up.distinct distinct);
        };
        reads = λ q.
            rw (slot-set m.buckets i (home q m.bucket_count) b lt)
              (reads_slot m.bucket_count k q value b m.buckets up);
      }
