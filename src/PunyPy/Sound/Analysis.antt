-- ===== src/PunyPy/Sound/Analysis.antt =====
-- The world that an analysis reaches.
use always_be_learning.Dictionary.{find}
use always_be_learning.Characters.{Text}
use always_be_learning.Common.{
  ◌==◌, List, [], ◌∷◌, length, Bool-cases, Option-cases, ◌≡◌, refl, sym, inl, inr,
}
use always_be_learning.PunyPy.Int.{ℤ, pos}
use always_be_learning.Run.{ok, then_run, ◌>>=◌}
use always_be_learning.PunyPy.Syntax.{
  Expression, int_prod, var_prod, plus_prod, Parameters, Production, eof_prod, expr_prod,
  funcdef_prod, funcbod_prod, funccall_prod, decl_prod, Productions, no_prods, prod,
}
use always_be_learning.PunyPy.World.{
  Function, PunyPyWorld, Buildin, set_var, get_var, get_func, set_func, get_buildin,
}
use always_be_learning.PunyPy.Analyzer.{
  value, analyze_variable, analyze_expression, analyze_params, analyze_callee, analyze, analyze_all,
}
use always_be_learning.PunyPy.Sound.{
  Extends, Callable, Closed, AllClosed, IsLayered, IfOk, IfOk-then_run, IfOk-weaken,
}
use always_be_learning.PunyPy.Sound.Layers.{Extends-cons, Closed-Extends}

-- expressions and parameters leave the world as it is
pub analyze_expression-IfOk :
    (e : Expression) (w : PunyPyWorld) → IfOk (analyze_expression e w) (λ w'. w' ≡ w)
unfolding analyze_expression
analyze_expression-IfOk (int_prod i) w = refl
analyze_expression-IfOk (var_prod s) w = elim (Bool-cases (get_var s w).1) [
  | inl e ↦ rw (IfOk, analyze_variable, e) refl
  | inr e ↦ rw (IfOk, analyze_variable, e) tt
]
analyze_expression-IfOk (plus_prod left right) w =
    IfOk-then_run (analyze_expression left w) (λ _. analyze_expression right) (λ w'. w' ≡ w)
      (λ w'. w' ≡ w) (analyze_expression-IfOk left w)
      (λ a w' same. rw same (analyze_expression-IfOk right w))

pub analyze_params-IfOk :
    (params : Parameters) (w : PunyPyWorld) → IfOk (analyze_params params w) (λ w'. w' ≡ w)
unfolding analyze_params
analyze_params-IfOk [] w = refl
analyze_params-IfOk (p ∷ params) w =
    IfOk-then_run (analyze_expression p w) (λ _. analyze_params params) (λ w'. w' ≡ w)
      (λ w'. w' ≡ w) (analyze_expression-IfOk p w)
      (λ a w' same. rw same (analyze_params-IfOk params w))

pub set_var-functions :
    (s : Text) (i : ℤ) (w : PunyPyWorld)
    → ((set_var s i w).functions ≡ w.functions) × ((set_var s i w).buildins ≡ w.buildins)
unfolding set_var
set_var-functions s i w = elim (Option-cases (find s w.variables)) [
  | inl e ↦ rw (set_var, e) (refl, refl)
  | inr v ↦ rw (set_var, v.1) (refl, refl)
]

-- from `w` an analysis of code for which `C` then holds has reached `w'`
abbrev pub Reaches :
    List (Text × Buildin) → PunyPyWorld → (List (Text × Function) → Type 0) → PunyPyWorld → Type 0
Reaches bs w C w' =
    ((w'.buildins ≡ bs) × IsLayered bs w'.functions)
    × (Extends w.functions w'.functions × C w'.functions)

analyze_callee-IfOk :
    (bs : List (Text × Buildin)) (s : Text) (params : Parameters) (w : PunyPyWorld)
    → w.buildins ≡ bs
    → IsLayered bs w.functions
    → IfOk (analyze_callee s params w) (Reaches bs w (λ fs. Callable bs fs s))
unfolding analyze_callee get_buildin get_func
analyze_callee-IfOk bs s params w hb layers = elim (Option-cases (find s w.buildins)) [
  | inr b ↦
      rw (IfOk, analyze_callee, get_buildin, b.1)
        ((hb, layers), ((λ t f found. found), inl (b.0, rw (sym hb) b.1)))
  | inl none_b ↦ elim (Option-cases (find s w.functions)) [
    | inl e ↦ rw (IfOk, analyze_callee, get_buildin, get_func, none_b, e) tt
    | inr f ↦ elim (Bool-cases (length params == length f.0.params)) [
      | inl e ↦
          rw (IfOk, analyze_callee, get_buildin, get_func, none_b, f.1, e)
            ((hb, layers), ((λ t g found. found), inr f))
      | inr e ↦ rw (IfOk, analyze_callee, get_buildin, get_func, none_b, f.1, e) tt
    ]
  ]
]

set_func-IfOk :
    (bs : List (Text × Buildin)) (s : Text) (f : Function) (w : PunyPyWorld)
    → w.buildins ≡ bs
    → IsLayered bs w.functions
    → Closed bs w.functions f.body
    → IfOk (set_func s f w) (Reaches bs w (λ fs. Unit))
unfolding set_func
set_func-IfOk bs s f w hb layers closed = elim (Option-cases (find s w.functions)) [
  | inl e ↦
      rw (IfOk, set_func, e) ((hb, (closed, (e, layers))), (Extends-cons (s, f) w.functions e, tt))
  | inr g ↦ rw (IfOk, set_func, g.1) tt
]

assign-IfOk :
    (bs : List (Text × Buildin)) (s : Text) (val : Expression) (w : PunyPyWorld)
    → w.buildins ≡ bs
    → IsLayered bs w.functions
    → IfOk
        (then_run {B = Unit {0}} (value val w) (λ i. λ w'. ok tt (set_var s i w')))
        (Reaches bs w (λ fs. Unit))
unfolding value
assign-IfOk bs s (int_prod i) w hb layers =
    let kept = set_var-functions s (pos i) w in
    rw (kept.0, kept.1) ((hb, layers), ((λ t f found. found), tt))
assign-IfOk bs s (var_prod x) w hb layers = tt
assign-IfOk bs s (plus_prod l r) w hb layers = tt

mutual
  unfolding analyze analyze_all

  pub analyze-IfOk :
      (bs : List (Text × Buildin)) (p : Production) (w : PunyPyWorld)
      → w.buildins ≡ bs
      → IsLayered bs w.functions
      → IfOk (analyze p w) (Reaches bs w (λ fs. Closed bs fs p))
  analyze-IfOk bs eof_prod w hb layers = ((hb, layers), ((λ t f found. found), tt))
  analyze-IfOk bs (expr_prod e) w hb layers =
      IfOk-weaken (analyze_expression e w) (λ w'. w' ≡ w) (Reaches bs w (λ fs. Unit))
        (analyze_expression-IfOk e w)
        (λ w' same. rw same ((hb, layers), ((λ t f found. found), tt)))
  analyze-IfOk bs (funcdef_prod s params body) w hb layers =
      IfOk-then_run (analyze body w) (λ _. set_func s (record { params = params; body = body }))
        (Reaches bs w (λ fs. Closed bs fs body)) (Reaches bs w (λ fs. Unit))
        (analyze-IfOk bs body w hb layers)
        (λ a w' r.
          IfOk-weaken (set_func s (record { params = params; body = body }) w')
            (Reaches bs w' (λ fs. Unit)) (Reaches bs w (λ fs. Unit))
            (set_func-IfOk bs s (record { params = params; body = body }) w' r.0.0 r.0.1 r.1.1)
            (λ w'' r'. (r'.0, ((λ t f found. r'.1.0 t f (r.1.0 t f found)), tt))))
  analyze-IfOk bs (funcbod_prod indent ps) w hb layers = analyze_all-IfOk bs ps w hb layers
  analyze-IfOk bs (funccall_prod s params) w hb layers =
      IfOk-then_run (analyze_params params w) (λ _. analyze_callee s params) (λ w'. w' ≡ w)
        (Reaches bs w (λ fs. Callable bs fs s)) (analyze_params-IfOk params w)
        (λ a w' same. rw same (analyze_callee-IfOk bs s params w hb layers))
  analyze-IfOk bs (decl_prod s val) w hb layers =
      IfOk-then_run (analyze_expression val w)
        (λ _. value val >>= λ i. λ w'. ok tt (set_var s i w')) (λ w'. w' ≡ w)
        (Reaches bs w (λ fs. Unit)) (analyze_expression-IfOk val w)
        (λ a w' same. rw same (assign-IfOk bs s val w hb layers))

  pub analyze_all-IfOk :
      (bs : List (Text × Buildin)) (ps : Productions) (w : PunyPyWorld)
      → w.buildins ≡ bs
      → IsLayered bs w.functions
      → IfOk (analyze_all ps w) (Reaches bs w (λ fs. AllClosed bs fs ps))
  analyze_all-IfOk bs no_prods w hb layers = ((hb, layers), ((λ t f found. found), tt))
  analyze_all-IfOk bs (prod p ps) w hb layers =
      IfOk-then_run (analyze p w) (λ _. analyze_all ps) (Reaches bs w (λ fs. Closed bs fs p))
        (Reaches bs w (λ fs. AllClosed bs fs (prod p ps))) (analyze-IfOk bs p w hb layers)
        (λ a w' r.
          IfOk-weaken (analyze_all ps w') (Reaches bs w' (λ fs. AllClosed bs fs ps))
            (Reaches bs w (λ fs. AllClosed bs fs (prod p ps)))
            (analyze_all-IfOk bs ps w' r.0.0 r.0.1)
            (λ w'' r'. (
              r'.0,
              (
                (λ t f found. r'.1.0 t f (r.1.0 t f found)),
                (Closed-Extends bs w'.functions w''.functions p r'.1.0 r.1.1, r'.1.1),
              ),
            )))
