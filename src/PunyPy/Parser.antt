-- ===== src/PunyPy/Parser.antt =====
-- `Parser`, by recursive descent. `fuel` is the number of rounds that a loop is given.
use always_be_learning.Characters.{Text}
use always_be_learning.Common.{ℕ, zero, suc, [], ◌∷◌, ◌++◌, if◌then◌else◌}
use always_be_learning.PunyPy.Token.{
  Kind, Token, def, eof, name, int, indent, kind, same_kind, def_kind, name_kind, lparen_kind,
  rparen_kind, plus_kind, colon_kind, comma_kind, equals_kind, indent_kind,
}
use always_be_learning.Run.{Cmd, out_of_fuel, pure, throw, ◌>>=◌, ◌>>◌, bad_token}
use always_be_learning.PunyPy.Scanner.{Scanner, get, peek, ignore}
use always_be_learning.PunyPy.Syntax.{
  Expression, int_prod, var_prod, plus_prod, Parameters, Production, eof_prod, expr_prod,
  funcdef_prod, funcbod_prod, funccall_prod, decl_prod, Productions, no_prods, prod,
}

-- a token of one kind, or `Bad_token`
unfoldable pub expect : Kind → Cmd Scanner Token
expect k = do t ← get; if same_kind (kind t) k then pure t else throw bad_token

-- `plus(left)`; `again` is the call of `expression`
unfoldable pub parse_plus : Cmd Scanner Expression → Expression → Cmd Scanner Expression
parse_plus again left = do _ ← expect plus_kind; right ← again; pure (plus_prod left right)

-- `expression(name)`, and the same behind a number
unfoldable pub after_operand : Cmd Scanner Expression → Expression → Cmd Scanner Expression
after_operand again left = do
  t ← peek
  if same_kind (kind t) plus_kind then parse_plus again left else pure left

unfoldable pub operand : Cmd Scanner Expression → Token → Cmd Scanner Expression
operand again (name s) = after_operand again (var_prod s)
operand again (int i) = after_operand again (int_prod i)
operand again _ = throw bad_token

unfoldable pub expression : ℕ → Cmd Scanner Expression
expression zero = λ _. out_of_fuel
expression (suc fuel) = do t ← get; operand (expression fuel) t

-- the loop of `parameters`, entered at a token that is no `)`
unfoldable pub parameters_loop : ℕ → Parameters → Cmd Scanner Parameters
parameters_loop zero params = λ _. out_of_fuel
parameters_loop (suc fuel) params = do
  e ← expression (suc fuel)
  t ← peek
  if same_kind (kind t) comma_kind
      then ignore fuel comma_kind >> parameters_loop fuel (params ++ e ∷ [])
      else if same_kind (kind t) rparen_kind
      then pure (params ++ e ∷ [])
      else throw bad_token

unfoldable pub parameters : ℕ → Cmd Scanner Parameters
parameters fuel = do
  t ← peek
  if same_kind (kind t) rparen_kind then pure [] else parameters_loop fuel []

unfoldable pub function_call : ℕ → Text → Cmd Scanner Production
function_call fuel s = do
  _ ← expect lparen_kind
  params ← parameters fuel
  _ ← expect rparen_kind
  pure (funccall_prod s params)

unfoldable pub declaration : ℕ → Text → Cmd Scanner Production
declaration fuel s = do _ ← expect equals_kind; val ← expression fuel; pure (decl_prod s val)

-- one element of a function body, at the token that `peek` gives
unfoldable pub body_element : ℕ → Token → Cmd Scanner Production
body_element fuel (int i) = do e ← expression fuel; pure (expr_prod e)
body_element fuel (name s) = do
  _ ← ignore fuel name_kind
  t ← peek
  if same_kind (kind t) lparen_kind
      then function_call fuel s
      else (do e ← after_operand (expression fuel) (var_prod s); pure (expr_prod e))
body_element fuel _ = throw bad_token

-- the loop of `function_body`
unfoldable pub body_loop : ℕ → Cmd Scanner Productions
body_loop zero = λ _. out_of_fuel
body_loop (suc fuel) = do
  t ← peek
  p ← body_element (suc fuel) t
  t' ← peek
  if same_kind (kind t') indent_kind
      then (do _ ← ignore fuel indent_kind; ps ← body_loop fuel; pure (prod p ps))
      else pure (prod p no_prods)

unfoldable pub body_indented : ℕ → Token → Cmd Scanner Production
body_indented fuel (indent s) = do ps ← body_loop fuel; pure (funcbod_prod s ps)
body_indented fuel _ = throw bad_token

unfoldable pub function_body : ℕ → Cmd Scanner Production
function_body fuel = do t ← get; body_indented fuel t

-- `function_def` at its name
unfoldable pub named_def : ℕ → Token → Cmd Scanner Production
named_def fuel (name s) = do
  _ ← expect lparen_kind
  params ← parameters fuel
  _ ← expect rparen_kind
  _ ← expect colon_kind
  body ← function_body fuel
  pure (funcdef_prod s params body)
named_def fuel _ = throw bad_token

unfoldable pub function_def : ℕ → Cmd Scanner Production
function_def fuel = do t ← get; named_def fuel t

-- `root` at the token that `peek` gives
unfoldable pub root_at : ℕ → Token → Cmd Scanner Production
root_at fuel def = ignore fuel def_kind >> function_def fuel
root_at fuel (name s) = do
  _ ← ignore fuel name_kind
  t ← peek
  if same_kind (kind t) lparen_kind then function_call fuel s else declaration fuel s
root_at fuel eof = pure eof_prod
root_at fuel _ = throw bad_token

unfoldable pub root : ℕ → Cmd Scanner Production
root fuel = do t ← peek; root_at fuel t
