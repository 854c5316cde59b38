-- ===== src/HashMap/Lookups.antt =====
-- `find`, `emplace` and `try_emplace`, and the count of elements in `load_factor`.
use mathlib.Core.Option.{some-injective}
use always_be_learning.Common.{
  ℕ, zero, suc, ◌+◌, ◌≡◌, refl, ◌∙◌, sym, ap, inl, inr, Bool, true, false, not, Option, none, some,
  Option-cases, Bool-cases, ◌<◌, List, [], ◌∷◌, arith, ◌==◌, if◌then◌else◌, length,
}
use always_be_learning.HashMap.Key.{Key}
use always_be_learning.HashMap.Bucket
use always_be_learning.HashMap.Bucket.{Bucket, insert_unique}
use always_be_learning.HashMap.Table.{HashMap, Iterator, Run, ok, ◌>>=◌, get_bucket, set, size}
use always_be_learning.HashMap.Entries.{assoc, is_none, find-assoc}
use always_be_learning.HashMap.Slots.{
  total, slot, home, IsValid, bucket_of, lookup, get_bucket-ok, home-lt,
}

module _ {ℓ} {A : Type ℓ} where
  -- what is left from number `i` on
  abbrev pub from : List A → ℕ → List A
  from xs zero = xs
  from [] (suc i) = []
  from (x ∷ xs) (suc i) = from xs i

module _ {ℓ κ} {K : Type ℓ} {V : Type κ} where
  -- the loop of `load_factor`
  unfoldable pub load_loop : ℕ → List (Bucket K V) → ℕ
  load_loop n [] = n
  load_loop n (b ∷ bs) = load_loop (n + Bucket.size b) bs

  size_loop-length : (n : ℕ) (b : Bucket K V) → Bucket.size_loop n b ≡ n + length b
  unfolding Bucket.size_loop
  size_loop-length n [] = omega arith
  size_loop-length n (e ∷ b) = size_loop-length (n + 1) b ∙ omega arith

  load_loop-total : (n : ℕ) (bs : List (Bucket K V)) → load_loop n bs ≡ n + total bs
  unfolding load_loop Bucket.size
  load_loop-total n [] = omega arith
  load_loop-total n (b ∷ bs) =
      load_loop-total (n + Bucket.size_loop 0 b) bs ∙ omega (arith, size_loop-length 0 b)

module _ {ℓ κ} {K : Type ℓ} {V : Type κ} ⦃key : Key K⦄ where
  -- On a valid table the sizes of the buckets, which `load_factor` adds up, make `size()`.
  load_loop-size : (m : HashMap K V) → IsValid m → load_loop 0 m.buckets ≡ size m
  unfolding size
  load_loop-size m valid = load_loop-total 0 m.buckets ∙ omega (arith, valid.counted)

  -- `emplace` and `try_emplace`
  unfoldable pub try_emplace : HashMap K V → K → V → Run (HashMap K V × Bool)
  try_emplace m k v = do
    (i, b) ← get_bucket m k
    let res = insert_unique (k, v) b
    let count' = if res.2 then m.count + 1 else m.count
    ok (record m { buckets = set m.buckets i res.0; count = count' }, res.2)

  -- `find`; `beyond` is the first node of what lies beyond the array
  unfoldable pub find : Bucket K V → HashMap K V → K → Run (Iterator K V)
  find beyond m k = do
    (i, b) ← get_bucket m k
    let it = Bucket.find k b
    if not (it == length b)
        then ok (record { left = from m.buckets i; node = from b it })
        else ok (record { left = []; node = beyond })

  -- the value at an iterator that is not `end()`
  abbrev pub value_at : Iterator K V → Option V
  value_at it = elim it.left [
    | [] ↦ none
    | b ∷ left ↦ elim it.node [ [] ↦ none | e ∷ rest ↦ some e.1 ]
  ]

  from-slot :
      (bs : List (Bucket K V)) (i : ℕ)
      → i < length bs
      → (rest : List (Bucket K V)) × (from bs i ≡ slot bs i ∷ rest)
  from-slot [] i h = absurd (omega arith)
  from-slot (b ∷ bs) zero h = (bs, refl)
  from-slot (b ∷ bs) (suc i) h = from-slot bs i (omega arith)

  from-find :
      (k : K) (b : Bucket K V) (v : V)
      → assoc k b ≡ some v
      → (e : K × V) × (rest : Bucket K V) × (from b (Bucket.find k b) ≡ e ∷ rest) × (e.1 ≡ v)
  unfolding Bucket.find assoc
  from-find k [] v h = absurd cc
  from-find k (e ∷ b) v h = elim (Bool-cases (key.equal e.0 k)) [
    | inl hit ↦ (e, b, (rw hit refl), some-injective e.1 v (rw hit at h))
    | inr miss ↦
        let (e', rest, at_it, same) = from-find k b v (rw miss at h) in
        (e', rest, (rw miss at_it), same)
  ]

  -- On a valid table `find` ends in an iterator that leads to the value under the key, and in
  -- `end()` when there is none.
  pub find-lookup :
      (beyond : Bucket K V) (m : HashMap K V) (k : K)
      → IsValid m
      → (it : Iterator K V) × (find beyond m k ≡ ok it) × (value_at it ≡ lookup m k)
  unfolding find lookup
  find-lookup beyond m k valid =
      let b = bucket_of m k in
      let i = home k m.bucket_count in
      let got = get_bucket-ok m valid.width valid.positive k in
      elim (Option-cases (assoc k b)) [
        | inl e ↦
            let test : (Bucket.find k b == length b) ≡ true = find-assoc k b ∙ ap is_none e in
            (record { left = []; node = beyond }, (rw (got, test) refl), sym e)
        | inr (v, e) ↦
            let test : (Bucket.find k b == length b) ≡ false = find-assoc k b ∙ ap is_none e in
            let (left, there) = from-slot m.buckets i (home-lt m valid.width valid.positive k) in
            let (x, rest, at_it, same) = from-find k b v e in
            (
              record { left = from m.buckets i; node = from b (Bucket.find k b) },
              (rw (got, test) refl),
              (rw (there, at_it) (ap some same ∙ sym e)),
            )
      ]
