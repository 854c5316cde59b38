-- ===== src/BinaryTree/Order.antt =====
-- What the tree asks of its keys and values: `operator<`, a strict total order, and `operator==`.
use always_be_learning.Common.{
  ℕ, ◌≡◌, Bool, true, false, not, ◌&&◌, ◌||◌, arith, ltb, ◌==◌, ==-refl, eq_of_==,
}

pub record Ordered {ℓ} (K : Type ℓ) : Type ℓ where
  pub less : K → K → Bool
  pub equal : K → K → Bool
  pub irrefl : (a : K) → less a a ≡ false
  pub trans : (a b c : K) → less a b ≡ true → less b c ≡ true → less a c ≡ true
  pub total : (a b : K) → less a b ≡ false → less b a ≡ false → a ≡ b
  pub equal_refl : (a : K) → equal a a ≡ true
  pub eq_of_equal : (a b : K) → equal a b ≡ true → a ≡ b

pub less_asymm {ℓ} : {K : Type ℓ} ⦃o : Ordered K⦄ (a b : K) → o.less a b ≡ true → o.less b a ≡ false
less_asymm ⦃o⦄ a b h = ground (arith, o.trans a b a, o.irrefl a)

module _ {ℓ κ} {K : Type ℓ} {V : Type κ} ⦃o : Ordered K⦄ ⦃w : Ordered V⦄ where
  -- `operator<` of `std::pair`
  abbrev pub pair_less : K → V → K → V → Bool
  pair_less k v k' v' = o.less k k' || (not (o.less k' k) && w.less v v')

infix 50 ◌≺◌
abbrev pub ◌≺◌ {ℓ} : {K : Type ℓ} ⦃o : Ordered K⦄ → K → K → Type 0
◌≺◌ ⦃o⦄ a b = o.less a b ≡ true

pub ltb_irrefl : (a : ℕ) → ltb a a ≡ false
ltb_irrefl a = ground arith

pub ltb_trans : (a b c : ℕ) → ltb a b ≡ true → ltb b c ≡ true → ltb a c ≡ true
ltb_trans a b c h k = ground arith

pub ltb_total : (a b : ℕ) → ltb a b ≡ false → ltb b a ≡ false → a ≡ b
ltb_total a b h k = ground arith

pub eq_of_native : (a b : ℕ) → (a == b) ≡ true → a ≡ b
eq_of_native a b h = eq_of_== h

instance abbrev pub nat_ordered : Ordered ℕ
nat_ordered = record {
  less = ltb;
  equal = ◌==◌;
  irrefl = ltb_irrefl;
  trans = ltb_trans;
  total = ltb_total;
  equal_refl = ==-refl;
  eq_of_equal = eq_of_native;
}
