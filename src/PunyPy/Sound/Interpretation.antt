-- ===== src/PunyPy/Sound/Interpretation.antt =====
-- The interpreter on a world whose functions are layered.
use always_be_learning.Dictionary.{find}
use always_be_learning.Characters.{Text}
use always_be_learning.Common.{
  ℕ, zero, suc, ◌<◌, none, some, List, [], ◌∷◌, length, Bool-cases, Option-cases, ◌≡◌, refl, sym,
  ◌∙◌, inl, inr, arith,
}
use mathlib.Core.Path.{subst}
use always_be_learning.PunyPy.Int.{ℤ, pos, ◌+ℤ◌, fits_int}
use always_be_learning.Run.{Cmd, ok, then_run, pure, ◌>>=◌}
use always_be_learning.PunyPy.Syntax.{
  Expression, int_prod, var_prod, plus_prod, Parameters, Production, eof_prod, expr_prod,
  funcdef_prod, funcbod_prod, funccall_prod, decl_prod, Productions, no_prods, prod,
}
use always_be_learning.PunyPy.World.{
  Function, PunyPyWorld, Buildin, Output, set_var, get_func, get_buildin,
}
use always_be_learning.PunyPy.Analyzer.{analyze_all}
use always_be_learning.PunyPy.Interpreter.{
  add_int, interpret_expression, interpret_params, assign_params, call_buildin, interpret_call,
  interpret_with, interpret_body, interpret, interpret_all,
}
use always_be_learning.PunyPy.Sound.{
  Extends, Callable, Closed, AllClosed, IsLayered, Ends, IsSafe, Ends-then_run, IfOk,
}
use always_be_learning.PunyPy.Sound.Layers.{find-IsLayered}
use always_be_learning.PunyPy.Sound.Analysis.{set_var-functions, Reaches, analyze_all-IfOk}

add_int-IsSafe : (a b : ℤ) (out : Output) → IsSafe (add_int a b out)
unfolding add_int
add_int-IsSafe a b out = elim (Bool-cases (fits_int (a +ℤ b))) [ inl e ↦ rw e tt | inr e ↦ rw e tt ]

interpret_expression-IsSafe :
    (w : PunyPyWorld) (e : Expression) (out : Output) → IsSafe (interpret_expression w e out)
unfolding interpret_expression
interpret_expression-IsSafe w (int_prod i) out = tt
interpret_expression-IsSafe w (var_prod s) out = tt
interpret_expression-IsSafe w (plus_prod left right) out =
    Ends-then_run (interpret_expression w left out)
      (λ a. interpret_expression w right >>= λ b. add_int a b) (λ _. Unit) (λ _. Unit)
      (interpret_expression-IsSafe w left out)
      (λ a out' _.
        Ends-then_run (interpret_expression w right out') (λ b. add_int a b) (λ _. Unit) (λ _. Unit)
          (interpret_expression-IsSafe w right out') (λ b out'' _. add_int-IsSafe a b out''))

interpret_params-IsSafe :
    (w : PunyPyWorld) (params : Parameters) (out : Output) → IsSafe (interpret_params w params out)
unfolding interpret_params
interpret_params-IsSafe w [] out = tt
interpret_params-IsSafe w (p ∷ params) out =
    Ends-then_run (interpret_expression w p out)
      (λ a. interpret_params w params >>= λ vals. pure (a ∷ vals)) (λ _. Unit) (λ _. Unit)
      (interpret_expression-IsSafe w p out)
      (λ a out' _.
        Ends-then_run (interpret_params w params out') (λ vals. pure (a ∷ vals)) (λ _. Unit)
          (λ _. Unit) (interpret_params-IsSafe w params out') (λ b out'' _. tt))

-- two worlds with the same functions and buildins
abbrev Alike : PunyPyWorld → PunyPyWorld → Type 0
Alike w local = (local.functions ≡ w.functions) × (local.buildins ≡ w.buildins)

assign_params-Ends :
    (fparams : Parameters) (vals : List ℤ) (w local : PunyPyWorld) (out : Output)
    → Alike w local
    → Ends (assign_params fparams vals local out) (Alike w)
unfolding assign_params
assign_params-Ends [] vals w local out alike = alike
assign_params-Ends (var_prod s ∷ fparams) [] w local out alike = alike
assign_params-Ends (int_prod i ∷ fparams) [] w local out alike = alike
assign_params-Ends (plus_prod l r ∷ fparams) [] w local out alike = alike
assign_params-Ends (var_prod s ∷ fparams) (p ∷ vals) w local out alike =
    let kept = set_var-functions s p local in
    assign_params-Ends fparams vals w (set_var s p local) out (kept.0 ∙ alike.0, kept.1 ∙ alike.1)
assign_params-Ends (int_prod i ∷ fparams) (p ∷ vals) w local out alike = tt
assign_params-Ends (plus_prod l r ∷ fparams) (p ∷ vals) w local out alike = tt

module _ (call : PunyPyWorld → Production → Cmd Output ℤ) (bs : List (Text × Buildin))
    (fs : List (Text × Function))
    (calls : (s : Text) (f : Function) (local : PunyPyWorld) (out : Output)
      → find s fs ≡ some f
      → local.buildins ≡ bs
      → Extends fs local.functions
      → IsSafe (call local f.body out)) where
  body_call-IsSafe :
      (w : PunyPyWorld) (s : Text) (f : Function) (vals : List ℤ) (out : Output)
      → w.buildins ≡ bs
      → Extends fs w.functions
      → find s fs ≡ some f
      → IsSafe (then_run {B = ℤ} (assign_params f.params vals w out) (λ local. call local f.body))
  body_call-IsSafe w s f vals out hb ext found =
      Ends-then_run (assign_params f.params vals w out) (λ local. call local f.body) (Alike w)
        (λ _. Unit) (assign_params-Ends f.params vals w w out (refl, refl))
        (λ local out' alike.
          calls s f local out' found (alike.1 ∙ hb) (λ t g h. rw alike.0 (ext t g h)))

  interpret_call-IsSafe :
      (w : PunyPyWorld) (s : Text) (params : Parameters) (out : Output)
      → w.buildins ≡ bs
      → Extends fs w.functions
      → Callable bs fs s
      → IsSafe (interpret_call call w s params out)
  unfolding interpret_call
  interpret_call-IsSafe w s params out hb ext callable = elim (Option-cases (find s w.buildins)) [
    | inr b ↦
        rw (IsSafe, interpret_call, get_buildin, b.1)
          (Ends-then_run (interpret_params w params out) (call_buildin b.0) (λ _. Unit) (λ _. Unit)
            (interpret_params-IsSafe w params out) (λ vals out' _. tt))
    | inl e ↦ elim callable [
      | inl b ↦ (let both : none ≡ some b.0 = sym e ∙ rw hb b.1 in absurd cc)
      | inr f ↦
          rw (IsSafe, interpret_call, get_buildin, get_func, e, ext s f.0 f.1)
            (Ends-then_run (interpret_params w params out)
              (λ vals. assign_params f.0.params vals w >>= λ local. call local f.0.body) (λ _. Unit)
              (λ _. Unit) (interpret_params-IsSafe w params out)
              (λ vals out' _. body_call-IsSafe w s f.0 vals out' hb ext f.1))
    ]
  ]

  mutual
    unfolding interpret_with interpret_body

    interpret_with-IsSafe :
        (w : PunyPyWorld) (p : Production) (out : Output)
        → w.buildins ≡ bs
        → Extends fs w.functions
        → Closed bs fs p
        → IsSafe (interpret_with call w p out)
    interpret_with-IsSafe w eof_prod out hb ext closed = tt
    interpret_with-IsSafe w (expr_prod e) out hb ext closed = interpret_expression-IsSafe w e out
    interpret_with-IsSafe w (funcdef_prod s params body) out hb ext closed = tt
    interpret_with-IsSafe w (funcbod_prod indent ps) out hb ext closed =
        interpret_body-IsSafe w (pos 0) ps out hb ext closed
    interpret_with-IsSafe w (funccall_prod s params) out hb ext closed =
        interpret_call-IsSafe w s params out hb ext closed
    interpret_with-IsSafe w (decl_prod s val) out hb ext closed =
        interpret_expression-IsSafe w val out

    interpret_body-IsSafe :
        (w : PunyPyWorld) (res : ℤ) (ps : Productions) (out : Output)
        → w.buildins ≡ bs
        → Extends fs w.functions
        → AllClosed bs fs ps
        → IsSafe (interpret_body call w res ps out)
    interpret_body-IsSafe w res no_prods out hb ext closed = tt
    interpret_body-IsSafe w res (prod p ps) out hb ext closed =
        Ends-then_run (interpret_with call w p out) (λ res'. interpret_body call w res' ps)
          (λ _. Unit) (λ _. Unit) (interpret_with-IsSafe w p out hb ext closed.0)
          (λ res' out' _. interpret_body-IsSafe w res' ps out' hb ext closed.1)

interpret-IsSafe :
    (fuel : ℕ) (bs : List (Text × Buildin)) (fs : List (Text × Function)) (w : PunyPyWorld)
    (p : Production) (out : Output)
    → w.buildins ≡ bs
    → IsLayered bs fs
    → Extends fs w.functions
    → length fs < fuel
    → Closed bs fs p
    → IsSafe (interpret fuel w p out)
unfolding interpret
interpret-IsSafe zero bs fs w p out hb layers ext deep closed = absurd (omega arith)
interpret-IsSafe (suc fuel) bs fs w p out hb layers ext deep closed =
    interpret_with-IsSafe (interpret fuel) bs fs
      (λ s f local out' found hb' ext'.
        let (gs, (inner, (ext_gs, shorter))) = find-IsLayered bs fs s f layers found in
        interpret-IsSafe fuel bs gs local f.body out' hb' inner.0 (λ t g h. ext' t g (ext_gs t g h))
          (omega (arith, shorter, deep)) inner.1)
      w p out hb ext closed

interpret_all-IsSafe :
    (fuel : ℕ) (w : PunyPyWorld) (ps : Productions) (out : Output)
    → IsLayered w.buildins w.functions
    → length w.functions < fuel
    → AllClosed w.buildins w.functions ps
    → IsSafe (interpret_all fuel w ps out)
unfolding interpret_all
interpret_all-IsSafe fuel w no_prods out layers deep closed = tt
interpret_all-IsSafe fuel w (prod p ps) out layers deep closed =
    Ends-then_run (interpret fuel w p out) (λ _. interpret_all fuel w ps) (λ _. Unit) (λ _. Unit)
      (interpret-IsSafe fuel w.buildins w.functions w p out refl layers (λ s f found. found) deep
        closed.0)
      (λ _ out' _. interpret_all-IsSafe fuel w ps out' layers deep closed.1)

-- An analysis that succeeds, from a world without functions, leaves a world in which the program
-- runs, with any output before, without following a null function pointer and within as many nested
-- calls as there are functions.
pub analyze_all-interpret_all :
    (fuel : ℕ) (ps : Productions) (w w' : PunyPyWorld) (out : Output)
    → w.functions ≡ []
    → analyze_all ps w ≡ ok tt w'
    → length w'.functions < fuel
    → IsSafe (interpret_all fuel w' ps out)
analyze_all-interpret_all fuel ps w w' out none_yet analyzed deep =
    let r : Reaches w.buildins w (λ fs. AllClosed w.buildins fs ps) w' =
      subst (λ run. IfOk run (Reaches w.buildins w (λ fs. AllClosed w.buildins fs ps))) analyzed
        (analyze_all-IfOk w.buildins ps w refl (rw none_yet tt)) in
    interpret_all-IsSafe fuel w' ps out (rw r.0.0 r.0.1) deep (rw r.0.0 r.1.1)
