-- ===== src/Typelist/Meta.antt =====
-- Metaprogramming/typelist: what the instantiation of a template gives, and what the compiler knows
-- of types (is_same.hpp, is_derived.hpp and ifthenelse.hpp).
use always_be_learning.Common.{ℕ, Bool, true, false, not, ◌&&◌, ◌≡◌}

-- A template names a type, has no member of that name, or needs more nested instantiations than
-- it was given.
pub data Meta {ℓ} (A : Type ℓ) : Type ℓ where
  names : A → Meta A
  ill_formed too_deep : Meta A

infixl 5 ◌>>=◌
abbrev pub ◌>>=◌ {ℓ κ} : {A : Type ℓ} {B : Type κ} → Meta A → (A → Meta B) → Meta B
names a >>= k = k a
ill_formed >>= k = ill_formed
too_deep >>= k = too_deep

-- What the templates ask of the compiler: whether two types are one, `sizeof`, `char`, whether a
-- `Derived const*` converts to a `Base const*`, and whether `T const*` is `void const*`.
pub record Types {ℓ} (A : Type ℓ) : Type ℓ where
  pub same : (a b : A) → Dec (a ≡ b)
  pub size : A → ℕ
  pub char : A
  pub converts : A → A → Bool
  pub is_void : A → Bool

module _ {ℓ} {A : Type ℓ} ⦃t : Types A⦄ where
  abbrev pub is_same_v : A → A → Bool
  is_same_v a b = elim (t.same a b) [ yes _ ↦ true | no _ ↦ false ]

  unfoldable pub is_derived_from_v : A → A → Bool
  is_derived_from_v derived base = t.converts derived base && not (t.is_void derived)

abbrev pub if_then_else_t {ℓ} : {A : Type ℓ} → Bool → A → A → A
if_then_else_t true then_type else_type = then_type
if_then_else_t false then_type else_type = else_type
