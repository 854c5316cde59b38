-- ===== src/HashMap/Key.antt =====
-- What the map asks of its keys: `operator==`, and the hasher, which is a template parameter.
use always_be_learning.Common.{ℕ, ◌≡◌, Bool, true}

pub record Key {ℓ} (K : Type ℓ) : Type ℓ where
  pub equal : K → K → Bool
  pub hash : K → ℕ
  pub equal_refl : (a : K) → equal a a ≡ true
  pub eq_of_equal : (a b : K) → equal a b ≡ true → a ≡ b
