-- ===== src/HashMap/Copy.antt =====
-- The copies of a `HashMap`, and `equal_range`.
use always_be_learning.Common.{
  ℕ, zero, suc, List, ◌++◌, ◌+◌, ◌<◌, ◌≡◌, refl, ◌∙◌, ap, inl, not, false, ◌≢◌, none, [], ◌∷◌,
  arith, ◌==◌, ==-refl, if◌then◌else◌, length,
}
use always_be_learning.HashMap.Key.{Key}
use always_be_learning.HashMap.Bucket
use always_be_learning.HashMap.Bucket.{Bucket, push_front}
use always_be_learning.HashMap.Table.{
  HashMap, Iterator, Run, ok, fault, violated, out_of_range, out_of_fuel, ◌>>=◌, get_bucket, new,
  size, fill_buckets, begin, set, next_node,
}
use always_be_learning.HashMap.Entries.{assoc}
use always_be_learning.HashMap.Slots.{IsValid, lookup}
use always_be_learning.HashMap.Operations.{new-IsValid}
use always_be_learning.HashMap.Flatten.{
  or_else, flatten, length-flatten, next_node-stays, lookup-flatten, flatten-IsDistinct,
}
use always_be_learning.HashMap.Rehash.{recount-IsValid, fill_buckets-Filled}
use always_be_learning.HashMap.Lookups.{from}

bind-bind {ℓ κ} :
    {B : Type ℓ} {C D : Type κ} (r : Run B) (f : B → Run D) (g : B → Run C) (h : C → Run D)
    → ((x : B) → f x ≡ (g x >>= h))
    → (r >>= f) ≡ (r >>= g >>= h)
bind-bind (ok x) f g h e = e x
bind-bind out_of_range f g h e = refl
bind-bind violated f g h e = refl
bind-bind fault f g h e = refl
bind-bind out_of_fuel f g h e = refl

module _ {ℓ κ} {K : Type ℓ} {V : Type κ} ⦃key : Key K⦄ where
  -- `fill_buckets(other.cbegin(), other.cend())`, from an iterator into the other table on, when
  -- `count` entries were copied. The node of an iterator at the end of the array is read beyond it:
  -- `node_beyond n` is the pointer that is found there when `n` entries were copied. `last` has the
  -- one from before the loop, and where `first` finds another one the loop goes on with it.
  unfoldable pub fill_from :
      (ℕ → ℕ) → ℕ → List (Bucket K V) → Bucket K V → HashMap K V → ℕ → Run (HashMap K V × ℕ)
  fill_from node_beyond zero left node m count = out_of_fuel
  fill_from node_beyond (suc fuel) [] node m count =
      if node_beyond count == node_beyond 0 then ok (m, count) else fault
  fill_from node_beyond (suc fuel) (b ∷ left) [] m count = fault
  fill_from node_beyond (suc fuel) (b ∷ left) (e ∷ rest) m count = do
    (i, bucket) ← get_bucket m e.0
    let first = next_node [] (b ∷ left) rest
    fill_from node_beyond fuel first.left first.node
        (record m { buckets = set m.buckets i (push_front e bucket) }) (count + 1)

  -- new buckets, filled with the entries from `cbegin()` to `cend()`, and their count
  unfoldable pub refill : (ℕ → ℕ) → ℕ → HashMap K V → Run (HashMap K V × ℕ)
  unfolding fill_from
  refill node_beyond fuel other =
      let first = begin [] other.buckets in
      fill_from node_beyond fuel first.left first.node (new other.bucket_count) 0

  -- the copy constructor, with its `JAM_ENSURE`
  unfoldable pub copy_construct : (ℕ → ℕ) → ℕ → HashMap K V → Run (HashMap K V)
  copy_construct node_beyond fuel other = do
    (m, count) ← refill node_beyond fuel other
    if count == other.count then ok (record m { count = count }) else violated

  -- `operator=` from another table
  unfoldable pub copy_assign : (ℕ → ℕ) → ℕ → HashMap K V → Run (HashMap K V)
  copy_assign node_beyond fuel other = do
    (m, count) ← refill node_beyond fuel other
    ok (record m { count = count })

  -- the copy constructor with an allocator, which fills no bucket
  unfoldable pub copy_with_allocator : HashMap K V → HashMap K V
  unfolding new
  copy_with_allocator other = record (new other.bucket_count) { count = other.count }

  -- the loop of `equal_range` over the entries that have the key
  unfoldable pub range_end : K → Bucket K V → Bucket K V
  range_end k [] = []
  range_end k (e ∷ rest) = let next = range_end k rest in if key.equal e.0 k then next else e ∷ rest

  unfoldable pub equal_range : Bucket K V → HashMap K V → K → Run (Iterator K V × Iterator K V)
  unfolding range_end
  equal_range beyond m k = do
    (i, b) ← get_bucket m k
    let it = Bucket.find k b
    if not (it == length b)
        then ok (
          next_node beyond (from m.buckets i) (from b it),
          next_node beyond (from m.buckets i) (range_end k (from b it)),
        )
        else ok (record { left = []; node = beyond }, record { left = []; node = beyond })

  -- the last comparison with `cend()`
  abbrev meets_end : (ℕ → ℕ) → HashMap K V × ℕ → Run (HashMap K V × ℕ)
  meets_end node_beyond r = if node_beyond r.1 == node_beyond 0 then ok r else fault

  fill_from-fill_buckets :
      (node_beyond : ℕ → ℕ) (fuel : ℕ) (b : Bucket K V) (left : List (Bucket K V))
      (node : Bucket K V) (m : HashMap K V) (count : ℕ)
      → length (node ++ flatten left) < fuel
      → let first = next_node [] (b ∷ left) node in
        fill_from node_beyond fuel first.left first.node m count
        ≡ (fill_buckets m (node ++ flatten left) count >>= meets_end node_beyond)
  unfolding fill_from fill_buckets next_node
  fill_from-fill_buckets node_beyond zero b left node m count h = absurd (omega arith)
  fill_from-fill_buckets node_beyond (suc fuel) b [] [] m count h = refl
  fill_from-fill_buckets node_beyond (suc fuel) b (b' ∷ left) [] m count h =
      fill_from-fill_buckets node_beyond (suc fuel) b' left b' m count h
  fill_from-fill_buckets node_beyond (suc fuel) b left (e ∷ rest) m count h =
      rw (next_node-stays [] b left e rest) (
        bind-bind (get_bucket m e.0) _ _ (meets_end node_beyond) λ r.
          fill_from-fill_buckets node_beyond fuel b left rest
            (record m { buckets = set m.buckets r.0 (push_front e r.1) }) (count + 1) (omega arith))

  fill_from-begin :
      (node_beyond : ℕ → ℕ) (fuel : ℕ) (bs : List (Bucket K V)) (m : HashMap K V)
      → length (flatten bs) < fuel
      → let first = begin [] bs in
        fill_from node_beyond fuel first.left first.node m 0
        ≡ (fill_buckets m (flatten bs) 0 >>= meets_end node_beyond)
  unfolding fill_from fill_buckets begin
  fill_from-begin node_beyond zero bs m h = absurd (omega arith)
  fill_from-begin node_beyond (suc fuel) [] m h = refl
  fill_from-begin node_beyond (suc fuel) (b ∷ bs) m h =
      fill_from-fill_buckets node_beyond (suc fuel) b bs b m 0 h

  refill-fill_buckets :
      (node_beyond : ℕ → ℕ) (fuel : ℕ) (m : HashMap K V)
      → IsValid m
      → size m < fuel
      → refill node_beyond fuel m
        ≡ (fill_buckets (new m.bucket_count) (flatten m.buckets) 0 >>= meets_end node_beyond)
  unfolding refill size
  refill-fill_buckets node_beyond fuel m valid enough =
      fill_from-begin node_beyond fuel m.buckets (new m.bucket_count)
        (omega (arith, valid.counted, enough, length-flatten m.buckets))

  refill-Filled :
      (node_beyond : ℕ → ℕ) (fuel : ℕ) (m : HashMap K V)
      → IsValid m
      → size m < fuel
      → (m' : HashMap K V) × (refill node_beyond fuel m ≡ meets_end node_beyond (m', size m))
        × IsValid (record m' { count = size m })
        × ((q : K) → lookup m' q ≡ lookup m q)
  unfolding new size
  refill-Filled node_beyond fuel m valid enough =
      let n = m.bucket_count in
      let (start, nothing) = new-IsValid K V n valid.positive in
      let es = flatten m.buckets in
      let (m', run, filled, grown) =
        fill_buckets-Filled (new n) es 0 (recount-IsValid start)
          (flatten-IsDistinct n 0 m.buckets valid.placed) (λ q. inl (nothing q)) in
      let all : 0 + length es ≡ m.count = omega (arith, valid.counted, length-flatten m.buckets) in
      (
        m',
        refill-fill_buckets node_beyond fuel m valid enough
            ∙ rw run (ap (λ c. meets_end node_beyond (m', c)) all),
        record {
          width = filled.valid.width;
          positive = filled.valid.positive;
          counted = omega (arith, grown, start.counted, valid.counted, length-flatten m.buckets);
          placed = filled.valid.placed;
        },
        λ q.
            filled.reads q
            ∙ ap (λ o. or_else o (assoc q es)) (nothing q)
            ∙ lookup-flatten m q valid,
      )

  -- The copy of a valid table, by construction and by assignment, given fuel for one more than the
  -- entries, and where the pointer that is read beyond the array of buckets is the same before and
  -- behind the allocations of the copy, is a valid table of the same `size()` that reads as the
  -- original; the check of the constructor holds.
  pub copy-lookup :
      (node_beyond : ℕ → ℕ) (fuel : ℕ) (m : HashMap K V)
      → IsValid m
      → size m < fuel
      → node_beyond (size m) ≡ node_beyond 0
      → (m' : HashMap K V) × (copy_construct node_beyond fuel m ≡ ok m')
        × (copy_assign node_beyond fuel m ≡ ok m')
        × IsValid m'
        × (size m' ≡ size m)
        × ((q : K) → lookup m' q ≡ lookup m q)
  unfolding copy_construct copy_assign size lookup
  copy-lookup node_beyond fuel m valid enough same =
      let (m', run, valid', reads) = refill-Filled node_beyond fuel m valid enough in
      (
        record m' { count = m.count },
        (rw (run, same, ==-refl (node_beyond 0), ==-refl m.count) refl),
        (rw (run, same, ==-refl (node_beyond 0)) refl),
        valid',
        refl,
        reads,
      )

  -- Where that pointer has changed, both copies of a valid table go on from the end of the array with
  -- an invalid node.
  copy_passes_end :
      (node_beyond : ℕ → ℕ) (fuel : ℕ) (m : HashMap K V)
      → IsValid m
      → size m < fuel
      → node_beyond (size m) ≢ node_beyond 0
      → (copy_construct node_beyond fuel m ≡ fault) × (copy_assign node_beyond fuel m ≡ fault)
  unfolding copy_construct copy_assign size
  copy_passes_end node_beyond fuel m valid enough differ =
      let (m', run, valid', reads) = refill-Filled node_beyond fuel m valid enough in
      let other : (node_beyond m.count == node_beyond 0) ≡ false = ground (arith, differ) in
      (rw (run, other) refl, rw (run, other) refl)

  -- The copy of a valid table that is not empty with an allocator has its `size()` and no
  -- element, so it is not valid.
  copy_with_allocator_loses :
      (m : HashMap K V)
      → IsValid m
      → 0 < size m
      → (size (copy_with_allocator m) ≡ size m)
        × ((q : K) → lookup (copy_with_allocator m) q ≡ none)
        × ¬ IsValid (copy_with_allocator m)
  unfolding copy_with_allocator size lookup new
  copy_with_allocator_loses m valid some_left =
      let (start, nothing) = new-IsValid K V m.bucket_count valid.positive in
      (refl, nothing, λ bad. omega (arith, bad.counted, start.counted))
