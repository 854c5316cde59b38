-- ===== src/PunyPy/Interpreter.antt =====
-- The `interpret` members of Production.h and Production.cpp, and `Interpreter`. The world is read
-- only, for a call gets a copy of it. The state is the output of the buildins.
use always_be_learning.Characters.{Text}
use always_be_learning.Common.{ℕ, zero, suc, none, some, List, [], ◌∷◌, ◌++◌, if◌then◌else◌}
use always_be_learning.PunyPy.Int.{ℤ, pos, ◌+ℤ◌, fits_int}
use always_be_learning.Run.{
  Cmd, ok, fault, overflow, null_function, out_of_fuel, pure, throw, ◌>>=◌, ◌>>◌, bad_production,
}
use always_be_learning.PunyPy.Syntax.{
  Expression, int_prod, var_prod, plus_prod, Parameters, Production, eof_prod, expr_prod,
  funcdef_prod, funcbod_prod, funccall_prod, decl_prod, Productions, no_prods, prod,
}
use always_be_learning.PunyPy.World.{
  PunyPyWorld, Buildin, Output, get_var, set_var, get_func, get_buildin,
}

-- `a + b` of `int`
unfoldable pub add_int : ℤ → ℤ → Cmd Output ℤ
unfolding fits_int ◌+ℤ◌
add_int a b out = if fits_int (a +ℤ b) then ok (a +ℤ b) out else fault overflow

unfoldable pub interpret_expression : PunyPyWorld → Expression → Cmd Output ℤ
unfolding add_int get_var
interpret_expression w (int_prod i) = pure (pos i)
interpret_expression w (var_prod s) = pure (get_var s w).0
interpret_expression w (plus_prod left right) = do
  a ← interpret_expression w left
  b ← interpret_expression w right
  add_int a b

-- `Params_prod::interpret`
unfoldable pub interpret_params : PunyPyWorld → Parameters → Cmd Output (List ℤ)
unfolding interpret_expression
interpret_params w [] = pure []
interpret_params w (p ∷ params) = do
  a ← interpret_expression w p
  vals ← interpret_params w params
  pure (a ∷ vals)

-- the loop that gives the parameters their values; `name()` throws for what is no variable
unfoldable pub assign_params : Parameters → List ℤ → PunyPyWorld → Cmd Output PunyPyWorld
unfolding set_var
assign_params (var_prod s ∷ fparams) (p ∷ params) local =
    assign_params fparams params (set_var s p local)
assign_params (e ∷ fparams) (p ∷ params) local = throw bad_production
assign_params _ _ local = pure local

-- `buildin(...)`
unfoldable pub call_buildin : Buildin → List ℤ → Cmd Output ℤ
call_buildin f vals out = let r = f vals in ok r.1 (out ++ r.0)

-- `FuncCall_prod::interpret`; `call` runs a body in its world
unfoldable pub interpret_call :
    (PunyPyWorld → Production → Cmd Output ℤ) → PunyPyWorld → Text → Parameters → Cmd Output ℤ
unfolding interpret_params assign_params call_buildin get_buildin get_func
interpret_call call w s params = elim (get_buildin s w) [
  | some f ↦ (do vals ← interpret_params w params; call_buildin f vals)
  | none ↦ (do
    vals ← interpret_params w params
    elim (get_func s w) [
      | some f ↦ (do local ← assign_params f.params vals w; call local f.body)
      | none ↦ (λ _. fault null_function)
    ])
]

unfoldable mutual
  unfolding interpret_expression interpret_call

  -- one level of calls of `Production::interpret`
  pub interpret_with :
      (PunyPyWorld → Production → Cmd Output ℤ) → PunyPyWorld → Production → Cmd Output ℤ
  interpret_with call w eof_prod = pure (pos 0)
  interpret_with call w (expr_prod e) = interpret_expression w e
  interpret_with call w (funcdef_prod s params body) = pure (pos 0)
  interpret_with call w (funcbod_prod indent ps) = interpret_body call w (pos 0) ps
  interpret_with call w (funccall_prod s params) = interpret_call call w s params
  interpret_with call w (decl_prod s val) = interpret_expression w val

  -- the loop of `Funcbod_prod::interpret`
  pub interpret_body :
      (PunyPyWorld → Production → Cmd Output ℤ) → PunyPyWorld → ℤ → Productions → Cmd Output ℤ
  interpret_body call w res no_prods = pure res
  interpret_body call w res (prod p ps) = do
    res' ← interpret_with call w p
    interpret_body call w res' ps

-- `Production::interpret`, with the depth to which calls may nest
unfoldable pub interpret : ℕ → PunyPyWorld → Production → Cmd Output ℤ
unfolding interpret_with
interpret zero w p out = out_of_fuel
interpret (suc fuel) w p out = interpret_with (interpret fuel) w p out

-- `Interpreter::interpret`
unfoldable pub interpret_all : ℕ → PunyPyWorld → Productions → Cmd Output (Unit {0})
unfolding interpret
interpret_all fuel w no_prods = pure tt
interpret_all fuel w (prod p ps) = interpret fuel w p >> interpret_all fuel w ps
