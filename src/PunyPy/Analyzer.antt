-- ===== src/PunyPy/Analyzer.antt =====
-- The `analyze` members of Production.h and Production.cpp, and `Analyzer`. The state is the world.
use always_be_learning.Characters.{Text}
use always_be_learning.Common.{◌==◌, none, some, [], ◌∷◌, length, if◌then◌else◌}
use always_be_learning.PunyPy.Int.{ℤ, pos}
use always_be_learning.Run.{Cmd, ok, thrown, pure, throw, then_run, ◌>>=◌, bad_production}
use always_be_learning.PunyPy.Syntax.{
  Expression, int_prod, var_prod, plus_prod, Parameters, Production, eof_prod, expr_prod,
  funcdef_prod, funcbod_prod, funccall_prod, decl_prod, Productions, no_prods, prod,
}
use always_be_learning.PunyPy.World.{PunyPyWorld, get_var, set_var, get_func, set_func, get_buildin}

-- `Expression::value`: a production other than `Int_prod` throws
unfoldable pub value : Expression → Cmd PunyPyWorld ℤ
value (int_prod i) = pure (pos i)
value _ = throw bad_production

-- `Var_prod::analyze`
unfoldable pub analyze_variable : Text → Cmd PunyPyWorld (Unit {0})
unfolding get_var
analyze_variable s w = if (get_var s w).1 then ok tt w else thrown bad_production w

unfoldable pub analyze_expression : Expression → Cmd PunyPyWorld (Unit {0})
unfolding analyze_variable
analyze_expression (int_prod i) w = ok tt w
analyze_expression (var_prod s) w = analyze_variable s w
analyze_expression (plus_prod left right) w =
    then_run (analyze_expression left w) (λ _. analyze_expression right)

-- `Params_prod::analyze`
unfoldable pub analyze_params : Parameters → Cmd PunyPyWorld (Unit {0})
unfolding analyze_expression
analyze_params [] w = ok tt w
analyze_params (p ∷ params) w = then_run (analyze_expression p w) (λ _. analyze_params params)

-- `FuncCall_prod::analyze` behind its parameters
unfoldable pub analyze_callee : Text → Parameters → Cmd PunyPyWorld (Unit {0})
unfolding get_buildin get_func
analyze_callee s params w = elim (get_buildin s w) [
  | some f ↦ ok tt w
  | none ↦ elim (get_func s w) [
    | some f ↦ if length params == length f.params then ok tt w else thrown bad_production w
    | none ↦ thrown bad_production w
  ]
]

unfoldable mutual
  unfolding value analyze_expression analyze_params analyze_callee set_var set_func

  -- `Production::analyze`
  pub analyze : Production → Cmd PunyPyWorld (Unit {0})
  analyze eof_prod w = ok tt w
  analyze (expr_prod e) w = analyze_expression e w
  analyze (funcdef_prod s params body) w =
      then_run (analyze body w) (λ _. set_func s (record { params = params; body = body }))
  analyze (funcbod_prod indent ps) w = analyze_all ps w
  analyze (funccall_prod s params) w =
      then_run (analyze_params params w) (λ _. analyze_callee s params)
  analyze (decl_prod s val) w =
      then_run (analyze_expression val w) (λ _. value val >>= λ i. λ w'. ok tt (set_var s i w'))

  -- the loops of `Funcbod_prod::analyze` and of `Analyzer::analyze`
  pub analyze_all : Productions → Cmd PunyPyWorld (Unit {0})
  analyze_all no_prods w = ok tt w
  analyze_all (prod p ps) w = then_run (analyze p w) (λ _. analyze_all ps)
