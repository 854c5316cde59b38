-- ===== src/Calculator/Variables.antt =====
-- `VariableMap`.
use always_be_learning.Characters.{Text, same_text}
use always_be_learning.Common.{none, some, if◌then◌else◌, ◌∷◌, ◌≡◌, refl}
use always_be_learning.Dictionary.{
  find, overwrite, same_text_refl, find-head, find-overwrite, find-cons, find-overwrite_if,
}
use always_be_learning.Run.{ok, thrown, redefinition, undefined_variable, ◌>>=◌}
use always_be_learning.Calculator.Double.{Double}
use always_be_learning.Calculator.Stream.{Calculator, define_variable, set_variable, get_variable}

module _ {D : Type 0} ⦃double : Double D⦄ where
  -- Setting a variable that is there gives its new value to the reads behind it and keeps the other
  -- variables; defining it again throws and changes nothing.
  pub set_variable-get_variable :
      (name t : Text) (val old : D) (s : Calculator D)
      → find name s.varmap ≡ some old
      → ((set_variable name val >>= λ _. get_variable name) s
          ≡ ok val (record s { varmap = overwrite name val s.varmap }))
        × ((find t (overwrite name val s.varmap)
              ≡ (if same_text t name then some val else find t s.varmap))
            × (define_variable name val s ≡ thrown redefinition s))
  unfolding define_variable set_variable get_variable
  set_variable-get_variable name t val old s e = (
    (rw (set_variable, e, get_variable, find-overwrite name val old s.varmap e) refl),
    (find-overwrite_if t name val old s.varmap e, (rw (define_variable, e) refl)),
  )

  -- Defining a variable that is not there makes it readable with its value and keeps the other
  -- variables; setting it instead throws and changes nothing.
  pub define_variable-get_variable :
      (name t : Text) (val : D) (s : Calculator D)
      → find name s.varmap ≡ none
      → ((define_variable name val >>= λ _. get_variable name) s
          ≡ ok val (record s { varmap = (name, val) ∷ s.varmap }))
        × ((find t ((name, val) ∷ s.varmap)
              ≡ (if same_text t name then some val else find t s.varmap))
            × (set_variable name val s ≡ thrown undefined_variable s))
  unfolding define_variable set_variable get_variable
  define_variable-get_variable name t val s e = (
    (rw
        (
          define_variable,
          e,
          get_variable,
          find-head name (name, val) s.varmap (same_text_refl name),
        )
        refl),
    (find-cons t (name, val) s.varmap, (rw (set_variable, e) refl)),
  )
