-- ===== src/HashMap/Bucket.antt =====
-- `HashMapBucket`: the nodes behind `head_`, in order. Each node is owned by the link to it, so a
-- bucket is the list of its entries; an iterator is the number of nodes in front of it, and the
-- length of the bucket is `end()`.
use always_be_learning.Common.{
  ℕ, zero, suc, ◌+◌, Bool, true, false, not, List, [], ◌∷◌, ◌==◌, if◌then◌else◌, length,
}
use always_be_learning.HashMap.Key.{Key}

abbrev pub Bucket {ℓ κ} : Type ℓ → Type κ → Type (ℓ ⊔ κ)
Bucket K V = List (K × V)

module _ {ℓ κ} {K : Type ℓ} {V : Type κ} where
  -- `push_front`, `emplace_front`
  unfoldable pub push_front : K × V → Bucket K V → Bucket K V
  push_front value b = value ∷ b

  -- `it->second = value`
  unfoldable pub assign_at : ℕ → V → Bucket K V → Bucket K V
  assign_at i value [] = []
  assign_at zero value (e ∷ b) = (e.0, value) ∷ b
  assign_at (suc i) value (e ∷ b) = e ∷ assign_at i value b

  -- the loop of `size()`
  unfoldable pub size_loop : ℕ → Bucket K V → ℕ
  size_loop count [] = count
  size_loop count (e ∷ b) = size_loop (count + 1) b

  unfoldable pub size : Bucket K V → ℕ
  unfolding size_loop
  size b = size_loop 0 b

module _ {ℓ κ} {K : Type ℓ} {V : Type κ} ⦃key : Key K⦄ where
  -- `std::find_if` for a key
  unfoldable pub find : K → Bucket K V → ℕ
  find k [] = 0
  find k (e ∷ b) = if key.equal e.0 k then 0 else suc (find k b)

  -- `insert_unique`, `emplace_unique` and `try_emplace`: an entry that is there stays
  unfoldable pub insert_unique : K × V → Bucket K V → Bucket K V × ℕ × Bool
  unfolding find push_front
  insert_unique value b =
      let it = find value.0 b in
      if not (it == length b) then (b, it, false) else (push_front value b, 0, true)

  unfoldable pub insert_or_assign : K → V → Bucket K V → Bucket K V × ℕ × Bool
  unfolding find push_front assign_at
  insert_or_assign k value b =
      let it = find k b in
      if not (it == length b)
      then (assign_at it value b, it, false)
      else (push_front (k, value) b, 0, true)

  -- `erase(key)`, the loop from a node over the nodes behind it: when the next node is erased, `n`
  -- moves on to the one that has taken its place
  unfoldable pub erase : K → Bucket K V → Bucket K V × ℕ
  erase k [] = ([], 0)
  erase k (e ∷ []) = if key.equal e.0 k then ([], 1) else (e ∷ [], 0)
  erase k (e ∷ e' ∷ b) =
      let skipped = erase k b in
      let next = erase k (e' ∷ b) in
      if key.equal e.0 k then (e' ∷ skipped.0, suc skipped.1) else (e ∷ next.0, next.1)
