-- ===== src/HashMap/Table.antt =====
-- The class `HashMap`. A bucket that is changed through a pointer is written back to the array.
use always_be_learning.Common.{
  ℕ, zero, suc, ◌+◌, ◌-◌, ◌%◌, ◌^◌, ltb, Bool, Option, none, some, List, [], ◌∷◌, ◌==◌,
  if◌then◌else◌, replicate,
}
use always_be_learning.HashMap.Key.{Key}
use always_be_learning.HashMap.Bucket
use always_be_learning.HashMap.Bucket.{Bucket}

-- `size_`, `buckets_`, `count_`
pub record HashMap {ℓ κ} (K : Type ℓ) (V : Type κ) : Type (ℓ ⊔ κ) where
  pub bucket_count : ℕ
  pub buckets : List (Bucket K V)
  pub count : ℕ

-- A run ends with a value, with `std::out_of_range`, at a failed JAM_ENSURE, in a division by zero or a
-- read through an invalid index or node, or out of the rounds that a loop was given.
pub data Run {ℓ} (B : Type ℓ) : Type ℓ where
  ok : B → Run B
  out_of_range : Run B
  violated : Run B
  fault : Run B
  out_of_fuel : Run B

infixl 5 ◌>>=◌
abbrev pub ◌>>=◌ {ℓ κ} : {B : Type ℓ} {C : Type κ} → Run B → (B → Run C) → Run C
ok b >>= f = f b
out_of_range >>= f = out_of_range
violated >>= f = violated
fault >>= f = fault
out_of_fuel >>= f = out_of_fuel

-- `a -= b` on `size_t`, which wraps below zero
unfoldable pub size_sub : ℕ → ℕ → ℕ
size_sub a b = if ltb a b then a + 2 ^ 64 - b else a - b

module _ {ℓ} {A : Type ℓ} where
  -- `buckets[i]`
  unfoldable pub at_index : List A → ℕ → Run A
  at_index [] i = fault
  at_index (x ∷ xs) zero = ok x
  at_index (x ∷ xs) (suc i) = at_index xs i

  abbrev pub set : List A → ℕ → A → List A
  set [] i v = []
  set (x ∷ xs) zero v = v ∷ xs
  set (x ∷ xs) (suc i) v = x ∷ set xs i v

module _ {ℓ κ} {K : Type ℓ} {V : Type κ} where
  -- the constructor from a bucket count, with `make_buckets`
  unfoldable pub new : ℕ → HashMap K V
  unfolding replicate
  new n = record { bucket_count = n; buckets = replicate n []; count = 0 }

  unfoldable pub empty : HashMap K V → Bool
  empty m = m.count == 0

  unfoldable pub size : HashMap K V → ℕ
  size m = m.count

module _ {ℓ} {K : Type ℓ} ⦃key : Key K⦄ where
  -- `hash_(key) % n`
  unfoldable pub bucket_index : K → ℕ → Run ℕ
  bucket_index k zero = fault
  bucket_index k (suc n) = ok (key.hash k % suc n)

module _ {ℓ κ} {K : Type ℓ} {V : Type κ} ⦃key : Key K⦄ where
  -- `get_bucket`: the index and what the pointer leads to
  unfoldable pub get_bucket : HashMap K V → K → Run (ℕ × Bucket K V)
  unfolding bucket_index at_index
  get_bucket m k = do i ← bucket_index k m.bucket_count; b ← at_index m.buckets i; ok (i, b)

  -- `insert`, `emplace` and `try_emplace`
  unfoldable pub insert : HashMap K V → K → V → Run (HashMap K V × Bool)
  insert m k v = do
    (i, b) ← get_bucket m k
    let res = Bucket.insert_unique (k, v) b
    let count' = if res.2 then m.count + 1 else m.count
    ok (record m { buckets = set m.buckets i res.0; count = count' }, res.2)

  unfoldable pub insert_or_assign : HashMap K V → K → V → Run (HashMap K V × Bool)
  insert_or_assign m k v = do
    (i, b) ← get_bucket m k
    let res = Bucket.insert_or_assign k v b
    let count' = if res.2 then m.count + 1 else m.count
    ok (record m { buckets = set m.buckets i res.0; count = count' }, res.2)

  -- `erase(key)`
  unfoldable pub erase : HashMap K V → K → Run (HashMap K V × ℕ)
  erase m k = do
    (i, b) ← get_bucket m k
    let res = Bucket.erase k b
    ok (record m { buckets = set m.buckets i res.0; count = size_sub m.count res.1 }, res.1)

  -- the element that an iterator into a bucket leads to
  unfoldable pub entry_at : Bucket K V → ℕ → Option (K × V)
  entry_at [] i = none
  entry_at (e ∷ b) zero = some e
  entry_at (e ∷ b) (suc i) = entry_at b i

  -- `at`, through `at_impl`, with the entry that the reference leads to
  unfoldable pub at : HashMap K V → K → Run (K × V)
  unfolding entry_at
  at m k = do
    (i, b) ← get_bucket m k
    elim (entry_at b (Bucket.find k b)) [ some e ↦ ok e | none ↦ out_of_range ]

  -- `operator[]`, with the value that the reference leads to; `fresh` is `mapped_type{}`
  unfoldable pub subscript : V → HashMap K V → K → Run (HashMap K V × V)
  unfolding entry_at
  subscript fresh m k = do
    (i, b) ← get_bucket m k
    elim (entry_at b (Bucket.find k b)) [
      | some e ↦ ok (m, e.1)
      | none ↦ ok (record m { buckets = set m.buckets i (Bucket.push_front (k, fresh) b) }, fresh)
    ]

  -- `count(key)`
  unfoldable pub count_key : HashMap K V → K → ℕ
  count_key m k = m.count

  -- `fill_buckets`: the loop over a range of entries, none of which is looked for
  unfoldable pub fill_buckets : HashMap K V → List (K × V) → ℕ → Run (HashMap K V × ℕ)
  fill_buckets m [] count = ok (m, count)
  fill_buckets m (x ∷ xs) count = do
    (i, b) ← get_bucket m x.0
    fill_buckets (record m { buckets = set m.buckets i (Bucket.push_front x b) }) xs (count + 1)

  -- `safe_fill_buckets`
  unfoldable pub safe_fill_buckets : HashMap K V → List (K × V) → ℕ → Run (HashMap K V × ℕ)
  safe_fill_buckets m [] count = ok (m, count)
  safe_fill_buckets m (x ∷ xs) count = do
    (i, b) ← get_bucket m x.0
    safe_fill_buckets (record m { buckets = set m.buckets i (Bucket.insert_unique x b).0 }) xs
        (count + 1)

  -- the constructor from a range
  unfoldable pub from_range : List (K × V) → ℕ → Run (HashMap K V)
  from_range xs n = do (m, count) ← safe_fill_buckets (new n) xs 0; ok (record m { count = count })

-- An iterator: the buckets from `bucket_` on, and the entries from `node_` on. At the end of the
-- array `node_` is the first node of what lies beyond it, the parameter `beyond`.
pub record Iterator {ℓ κ} (K : Type ℓ) (V : Type κ) : Type (ℓ ⊔ κ) where
  pub left : List (Bucket K V)
  pub node : Bucket K V

module _ {ℓ κ} {K : Type ℓ} {V : Type κ} (beyond : Bucket K V) where
  -- the loop of `next_node`, over the buckets from `bucket_` on
  unfoldable pub next_node : List (Bucket K V) → Bucket K V → Iterator K V
  next_node (b ∷ b' ∷ left) [] = next_node (b' ∷ left) b'
  next_node (b ∷ []) [] = record { left = []; node = beyond }
  next_node left node = record { left = left; node = node }

  unfoldable pub begin : List (Bucket K V) → Iterator K V
  unfolding next_node
  begin [] = record { left = []; node = beyond }
  begin (b ∷ left) = next_node (b ∷ left) b

  -- `operator++`
  unfoldable pub increment : Iterator K V → Iterator K V
  unfolding next_node
  increment it = elim it.node [ [] ↦ it | e ∷ rest ↦ next_node it.left rest ]

  -- The entries from an iterator to `end()`. The iterator is compared with an `end()` that is made
  -- right behind the increment, so where the buckets are both the end of the array the nodes are
  -- read there one behind the other and are the same.
  unfoldable pub entries_from : ℕ → List (Bucket K V) → Bucket K V → Option (List (K × V))
  unfolding next_node
  entries_from zero left node = none
  entries_from (suc fuel) [] node = some []
  entries_from (suc fuel) (b ∷ left) [] = none
  entries_from (suc fuel) (b ∷ left) (e ∷ rest) =
      let it = next_node (b ∷ left) rest in
      elim (entries_from fuel it.left it.node) [ none ↦ none | some es ↦ some (e ∷ es) ]

module _ {ℓ κ} {K : Type ℓ} {V : Type κ} ⦃key : Key K⦄ where
  -- `rehash(count)`: the loop over the entries from `begin()` to `end()` fills the new buckets
  unfoldable pub rehash : Bucket K V → ℕ → HashMap K V → ℕ → Run (HashMap K V)
  rehash beyond fuel m n =
      let start = begin beyond m.buckets in
      elim (entries_from beyond fuel start.left start.node) [
        | none ↦ fault
        | some es ↦ do
          (fresh, moved) ← fill_buckets (new n) es 0
          ok (record fresh { count = m.count })
      ]
