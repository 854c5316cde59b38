-- ===== src/PunyPy/Variables.antt =====
-- The variables of a world.
use always_be_learning.Characters.{Text, same_text}
use always_be_learning.Common.{
  true, false, Bool, Option, none, some, Bool-cases, if◌then◌else◌, Option-cases, ◌≡◌, refl, sym,
  ap, ◌∙◌, inl, inr,
}
use always_be_learning.Dictionary.{find, find-cons, find-overwrite_if}
use always_be_learning.PunyPy.Int.{ℤ, pos}
use always_be_learning.PunyPy.World.{PunyPyWorld, get_var, set_var}

abbrev found : Option ℤ → ℤ × Bool
found (some val) = (val, true)
found none = (pos 0, false)

get_var-found : (s : Text) (w : PunyPyWorld) → get_var s w ≡ found (find s w.variables)
unfolding get_var
get_var-found s w = elim (Option-cases (find s w.variables)) [
  | inl e ↦ rw (get_var, found, e) refl
  | inr val ↦ rw (get_var, found, val.1) refl
]

find-set_var :
    (s t : Text) (val : ℤ) (w : PunyPyWorld)
    → find t (set_var s val w).variables ≡ (if same_text t s then some val else find t w.variables)
unfolding set_var
find-set_var s t val w = elim (Option-cases (find s w.variables)) [
  | inl e ↦ rw (set_var, e) (find-cons t (s, val) w.variables)
  | inr old ↦ rw (set_var, old.1) (find-overwrite_if t s val old.0 w.variables old.1)
]

-- After `set_var` of a name, whether or not it was there, `get_var` gives its value and that it is
-- there, and for every other name what it gave before.
pub get_var-set_var :
    (s t : Text) (val : ℤ) (w : PunyPyWorld)
    → get_var t (set_var s val w) ≡ (if same_text t s then (val, true) else get_var t w)
get_var-set_var s t val w =
    get_var-found t (set_var s val w)
    ∙ ap found (find-set_var s t val w)
    ∙ elim (Bool-cases (same_text t s)) [
      | inl e ↦ rw e refl
      | inr e ↦ rw e (sym (get_var-found t w))
    ]
