-- ===== src/PunyPy/Sound/Layers.antt =====
-- Lists of functions in which each one calls only those before it.
use always_be_learning.Dictionary.{eq_of_same_text}
use always_be_learning.Dictionary.{find}
use always_be_learning.Characters.{Text, same_text}
use always_be_learning.Common.{
  ◌<◌, none, some, List, [], ◌∷◌, length, Bool-cases, ◌≡◌, refl, sym, ap, ◌∙◌, inl, inr, arith,
}
use mathlib.Core.Option.{some-injective}
use always_be_learning.PunyPy.Syntax.{
  Production, eof_prod, expr_prod, funcdef_prod, funcbod_prod, funccall_prod, decl_prod,
  Productions, no_prods, prod,
}
use always_be_learning.PunyPy.World.{Function, Buildin}
use always_be_learning.PunyPy.Sound.{Extends, Closed, AllClosed, IsLayered}

pub Extends-cons :
    (entry : Text × Function) (fs : List (Text × Function))
    → find entry.0 fs ≡ none
    → Extends fs (entry ∷ fs)
unfolding find
Extends-cons entry fs fresh s f h = elim (Bool-cases (same_text s entry.0)) [
  | inl e ↦
      (let same = eq_of_same_text s entry.0 e in
        let none_some : none ≡ some f = sym fresh ∙ ap (λ t. find t fs) (sym same) ∙ h in absurd cc)
  | inr e ↦ rw e h
]

-- monotonicity, for a body
mutual
  pub Closed-Extends :
      (bs : List (Text × Buildin)) (fs gs : List (Text × Function)) (p : Production)
      → Extends fs gs
      → Closed bs fs p
      → Closed bs gs p
  Closed-Extends bs fs gs eof_prod ext h = tt
  Closed-Extends bs fs gs (expr_prod e) ext h = tt
  Closed-Extends bs fs gs (funcdef_prod s params body) ext h = tt
  Closed-Extends bs fs gs (funcbod_prod indent ps) ext h = AllClosed-Extends bs fs gs ps ext h
  Closed-Extends bs fs gs (funccall_prod s params) ext h = elim h [
    | inl b ↦ inl b
    | inr f ↦ inr (f.0, ext s f.0 f.1)
  ]
  Closed-Extends bs fs gs (decl_prod s val) ext h = tt

  pub AllClosed-Extends :
      (bs : List (Text × Buildin)) (fs gs : List (Text × Function)) (ps : Productions)
      → Extends fs gs
      → AllClosed bs fs ps
      → AllClosed bs gs ps
  AllClosed-Extends bs fs gs no_prods ext h = tt
  AllClosed-Extends bs fs gs (prod p ps) ext h =
      (Closed-Extends bs fs gs p ext h.0, AllClosed-Extends bs fs gs ps ext h.1)

-- A function that is found calls only functions of a shorter layered list.
pub find-IsLayered :
    (bs : List (Text × Buildin)) (fs : List (Text × Function)) (s : Text) (f : Function)
    → IsLayered bs fs
    → find s fs ≡ some f
    → (gs : List (Text × Function)) × ((IsLayered bs gs × Closed bs gs f.body)
        × (Extends gs fs × (length gs < length fs)))
unfolding find
find-IsLayered bs [] s f h e = absurd cc
find-IsLayered bs (entry ∷ fs) s f h e = elim (Bool-cases (same_text s entry.0)) [
  | inl same ↦
      let found : entry.1 ≡ f = some-injective entry.1 f (sym (rw same refl) ∙ e) in
      (fs, ((h.1.1, (rw (sym found) h.0)), (Extends-cons entry fs h.1.0, omega arith)))
  | inr other ↦
      let (gs, (layers, (ext, shorter))) =
        find-IsLayered bs fs s f h.1.1 (sym (rw other refl) ∙ e) in
      (
        gs,
        (
          layers,
          ((λ t g found. Extends-cons entry fs h.1.0 t g (ext t g found)), omega (arith, shorter)),
        ),
      )
]
