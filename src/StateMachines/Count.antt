-- ===== src/StateMachines/Count.antt =====
-- State_machines: a count below the limit, for the machines over variants.
use always_be_learning.Common.{
  ℕ, ◌+◌, ◌<◌, ◌%◌, ◌^◌, arith, Bool, true, false, ◌≡◌, refl, if◌then◌else◌,
}

pub unwrapped : (limit n : ℕ) → limit < 2 ^ 32 → n < limit → (n + 1) % 2 ^ 32 ≡ n + 1
unwrapped limit n w h = omega arith

pub if_ap {ℓ κ} :
    {A : Type ℓ} {B : Type κ} (f : A → B) (b : Bool) (x y : A)
    → f (if b then x else y) ≡ (if b then f x else f y)
if_ap f true x y = refl
if_ap f false x y = refl
