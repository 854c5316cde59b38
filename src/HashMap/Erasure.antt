-- ===== src/HashMap/Erasure.antt =====
-- What `erase(key)` of a bucket does to the values under the keys.
use always_be_learning.Common.{
  ◌+◌, ◌≡◌, refl, not, none, [], ◌∷◌, arith, if◌then◌else◌, length, to_nat,
}
use always_be_learning.HashMap.Key.{Key}
use always_be_learning.HashMap.Bucket.{Bucket, erase}
use always_be_learning.HashMap.Entries.{AllKeys, is_none, assoc, IsDistinct, Updates}

module _ {ℓ κ} {K : Type ℓ} {V : Type κ} ⦃key : Key K⦄ where
  erase_absent : (k : K) (b : Bucket K V) → assoc k b ≡ none → erase k b ≡ (b, 0)
  unfolding erase assoc
  erase_absent k [] h = refl
  erase_absent k (e ∷ []) h = ground arith
  erase_absent k (e ∷ e' ∷ b) h = ground (arith, erase_absent k (e' ∷ b))

  -- what `erase` leaves of distinct entries
  without : K → Bucket K V → Bucket K V
  without k [] = []
  without k (e ∷ b) = if key.equal e.0 k then b else e ∷ without k b

  erase-without :
      (k : K) (b : Bucket K V)
      → IsDistinct b
      → erase k b ≡ (without k b, to_nat (not (is_none (assoc k b))))
  unfolding erase without assoc
  erase-without k [] d = refl
  erase-without k (e ∷ []) d = ground arith
  erase-without k (e ∷ e' ∷ b) d =
      ground (arith, erase_absent k b, erase-without k (e' ∷ b) d.1, key.eq_of_equal e.0 k)

  assoc-without :
      (k q : K) (b : Bucket K V)
      → IsDistinct b
      → assoc q (without k b) ≡ (if key.equal k q then none else assoc q b)
  unfolding without assoc
  assoc-without k q [] d = ground arith
  assoc-without k q (e ∷ b) d = ground (
    arith,
    assoc-without k q b d.1,
    key.eq_of_equal e.0 k,
    key.eq_of_equal k q,
    key.eq_of_equal e.0 q,
    key.equal_refl k,
  )

  without-keys : (P : K → Type 0) (k : K) (b : Bucket K V) → AllKeys P b → AllKeys P (without k b)
  unfolding without
  without-keys P k [] a = tt
  without-keys P k (e ∷ b) a = ground (arith, without-keys P k b)

  without-IsDistinct : (k : K) (b : Bucket K V) → IsDistinct b → IsDistinct (without k b)
  unfolding without
  without-IsDistinct k [] d = tt
  without-IsDistinct k (e ∷ b) d =
      ground (arith, without-IsDistinct k b d.1, assoc-without k e.0 b d.1)

  length-without :
      (k : K) (b : Bucket K V)
      → length (without k b) + to_nat (not (is_none (assoc k b))) ≡ length b
  unfolding without assoc
  length-without k [] = refl
  length-without k (e ∷ b) = ground (arith, length-without k b)

  -- `erase` takes the entry under the key out of distinct entries, and counts it
  pub erase-Updates :
      (k : K) (b : Bucket K V)
      → IsDistinct b
      → let r = erase k b in
        (r.1 ≡ to_nat (not (is_none (assoc k b))))
        × (length r.0 + r.1 ≡ length b)
        × Updates k none b r.0
  erase-Updates k b d = rw (erase-without k b d) (
    refl,
    length-without k b,
    record {
      reads = λ q. assoc-without k q b d;
      keys = λ P p. without-keys P k b;
      distinct = without-IsDistinct k b;
    },
  )
