-- ===== src/Typelist/Same.antt =====
-- Metaprogramming/typelist/is_same.hpp: whether two types are one.
use always_be_learning.Common.{Bool, true, false, ◌≡◌, refl, sym, ◌∙◌}
use always_be_learning.Typelist.Meta.{Types, is_same_v}

does_yes {ℓ} :
    {P : Type ℓ} (d : Dec P) → P → (elim d as (λ x. Bool) [ yes _ ↦ true | no _ ↦ false ]) ≡ true
does_yes (yes _) p = refl
does_yes (no n) p = absurd (n p)

does_no {ℓ} :
    {P : Type ℓ} (d : Dec P) → ¬ P → (elim d as (λ x. Bool) [ yes _ ↦ true | no _ ↦ false ]) ≡ false
does_no (yes p) n = absurd (n p)
does_no (no _) n = refl

module _ {ℓ} {A : Type ℓ} ⦃t : Types A⦄ where
  pub is_same_v_refl : {a b : A} → a ≡ b → is_same_v a b ≡ true
  is_same_v_refl {a} {b} e = does_yes (t.same a b) e

  pub is_same_v_ne : {a b : A} → ¬ (a ≡ b) → is_same_v a b ≡ false
  is_same_v_ne {a} {b} n = does_no (t.same a b) n

  pub is_same_v_comm : (a b : A) → is_same_v a b ≡ is_same_v b a
  is_same_v_comm a b = elim (t.same a b) [
    | yes p ↦ is_same_v_refl p ∙ sym (is_same_v_refl (sym p))
    | no n ↦ is_same_v_ne n ∙ sym (is_same_v_ne λ q. n (sym q))
  ]
