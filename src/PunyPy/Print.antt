-- ===== src/PunyPy/Print.antt =====
-- The tokens of the productions that the grammar of Parser.h has, and how many rounds they take.
use always_be_learning.Characters.{Text}
use always_be_learning.Common.{ℕ, suc, ◌+◌, ◌≤◌, false, arith, List, [], ◌∷◌, ◌≡◌}
use always_be_learning.PunyPy.Token.{
  Token, def, lparen, rparen, plus, colon, comma, equals, eof, name, int, indent, kind, same_kind,
  lparen_kind, plus_kind, indent_kind,
}
use always_be_learning.PunyPy.Syntax.{
  Expression, int_prod, var_prod, plus_prod, Parameters, Production, eof_prod, expr_prod,
  funcdef_prod, funcbod_prod, funccall_prod, decl_prod, Productions, no_prods, prod,
}

-- The tokens of a production stand in front of those that follow it.
unfoldable pub print_expression : Expression → List Token → List Token
print_expression (int_prod i) ts = int i ∷ ts
print_expression (var_prod s) ts = name s ∷ ts
print_expression (plus_prod left right) ts =
    print_expression left (plus ∷ print_expression right ts)

unfoldable pub print_params : Parameters → List Token → List Token
unfolding print_expression
print_params [] ts = ts
print_params (e ∷ []) ts = print_expression e ts
print_params (e ∷ e' ∷ params) ts = print_expression e (comma ∷ print_params (e' ∷ params) ts)

unfoldable mutual
  unfolding print_expression print_params

  pub print : Production → List Token → List Token
  print eof_prod ts = eof ∷ ts
  print (expr_prod e) ts = print_expression e ts
  print (funcdef_prod s params body) ts =
      def ∷ name s ∷ lparen ∷ print_params params (rparen ∷ colon ∷ print body ts)
  print (funcbod_prod sp ps) ts = indent sp ∷ print_body sp ps ts
  print (funccall_prod s params) ts = name s ∷ lparen ∷ print_params params (rparen ∷ ts)
  print (decl_prod s val) ts = name s ∷ equals ∷ print_expression val ts

  -- the elements of a body, each behind an indent but the first
  pub print_body : Text → Productions → List Token → List Token
  print_body sp no_prods ts = ts
  print_body sp (prod p no_prods) ts = print p ts
  print_body sp (prod p (prod p' ps)) ts = print p (indent sp ∷ print_body sp (prod p' ps) ts)

-- the parser nests sums to the right
abbrev pub IsOperand : Expression → Type 0
IsOperand (int_prod i) = Unit
IsOperand (var_prod s) = Unit
IsOperand (plus_prod left right) = ⊥

abbrev pub IsSum : Expression → Type 0
IsSum (int_prod i) = Unit
IsSum (var_prod s) = Unit
IsSum (plus_prod left right) = IsOperand left × IsSum right

abbrev pub AllSums : Parameters → Type 0
AllSums [] = Unit
AllSums (e ∷ params) = IsSum e × AllSums params

-- an element of a body is a sum or a call
abbrev pub IsElement : Production → Type 0
IsElement (expr_prod e) = IsSum e
IsElement (funccall_prod s params) = AllSums params
IsElement _ = ⊥

abbrev pub AllElements : Productions → Type 0
AllElements no_prods = Unit
AllElements (prod p ps) = IsElement p × AllElements ps

abbrev pub IsBody : Production → Type 0
IsBody (funcbod_prod sp (prod p ps)) = AllElements (prod p ps)
IsBody _ = ⊥

-- a production of `root`
abbrev pub IsRoot : Production → Type 0
IsRoot (funcdef_prod s params body) = AllSums params × IsBody body
IsRoot (funccall_prod s params) = AllSums params
IsRoot (decl_prod s val) = IsSum val
IsRoot _ = ⊥

abbrev pub size_expression : Expression → ℕ
size_expression (plus_prod left right) = suc (size_expression right)
size_expression _ = 1

abbrev pub size_params : Parameters → ℕ
size_params [] = 1
size_params (e ∷ params) = size_expression e + size_params params

abbrev pub size_element : Production → ℕ
size_element (expr_prod e) = suc (size_expression e)
size_element (funccall_prod s params) = suc (size_params params)
size_element (decl_prod s val) = size_expression val
size_element _ = 1

abbrev pub size_elements : Productions → ℕ
size_elements no_prods = 1
size_elements (prod p ps) = size_element p + size_elements ps

-- rounds that are enough for a production
abbrev pub size_body : Production → ℕ
size_body (funcbod_prod sp ps) = size_elements ps
size_body _ = 0

abbrev pub size : Production → ℕ
size (funcdef_prod s params body) = suc (size_params params + size_body body)
size p = suc (size_element p)

pub size_expression-pos : (e : Expression) → 1 ≤ size_expression e
size_expression-pos (int_prod i) = omega arith
size_expression-pos (var_prod s) = omega arith
size_expression-pos (plus_prod left right) = omega arith

pub size_params-pos : (params : Parameters) → 1 ≤ size_params params
size_params-pos [] = omega arith
size_params-pos (e ∷ params) = omega (arith, size_expression-pos e)

pub size_element-pos : (p : Production) → 1 ≤ size_element p
size_element-pos eof_prod = omega arith
size_element-pos (expr_prod e) = omega arith
size_element-pos (funcdef_prod s params body) = omega arith
size_element-pos (funcbod_prod sp ps) = omega arith
size_element-pos (funccall_prod s params) = omega arith
size_element-pos (decl_prod s val) = omega (arith, size_expression-pos val)

pub size_elements-pos : (ps : Productions) → 1 ≤ size_elements ps
size_elements-pos no_prods = omega arith
size_elements-pos (prod p ps) = omega (arith, size_element-pos p)

pub size-pos : (p : Production) → 1 ≤ size p
size-pos (funcdef_prod s params body) = omega arith
size-pos eof_prod = omega arith
size-pos (expr_prod e) = omega arith
size-pos (funcbod_prod sp ps) = omega arith
size-pos (funccall_prod s params) = omega arith
size-pos (decl_prod s val) = omega arith

-- a token that does not go on with a sum
abbrev pub StopsSum : Token → Type 0
StopsSum t = same_kind (kind t) plus_kind ≡ false

-- a token that does not go on with an element of a body
abbrev pub StopsElement : Token → Type 0
StopsElement t = StopsSum t × (same_kind (kind t) lparen_kind ≡ false)

-- a token that does not go on with a production
abbrev pub Stops : Token → Type 0
Stops t = StopsElement t × (same_kind (kind t) indent_kind ≡ false)
