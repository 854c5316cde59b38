-- ===== src/PunyPy/RoundTrip/Roots.antt =====
-- The parser gives back the bodies, definitions and productions of `root` whose tokens it reads.
use always_be_learning.Characters.{Text}
use always_be_learning.Common.{ℕ, zero, suc, ◌≤◌, false, List, ◌∷◌, ◌≡◌, refl, arith}
use always_be_learning.PunyPy.Token.{
  Token, def, lparen, rparen, plus, colon, equals, name, int, indent, kind, same_kind, number,
  lparen_kind,
}
use always_be_learning.PunyPy.Scanner.{peek}
use always_be_learning.PunyPy.Syntax.{
  Expression, int_prod, var_prod, plus_prod, Parameters, Production, eof_prod, expr_prod,
  funcdef_prod, funcbod_prod, funccall_prod, decl_prod, Productions, no_prods, prod,
}
use always_be_learning.PunyPy.Parser.{
  after_operand, expression, body_element, body_loop, body_indented, function_body, named_def,
  function_def, root_at, root,
}
use always_be_learning.PunyPy.Reading.{
  Reads, get-Reads, peek-Reads, ignore-Reads, pure-Reads, bind-Reads,
}
use always_be_learning.PunyPy.Print.{
  print_expression, print_params, print, print_body, AllSums, IsElement, AllElements, IsBody,
  IsRoot, size_element, size_elements, size, StopsElement, Stops, size_element-pos,
  size_elements-pos, size-pos,
}
use always_be_learning.PunyPy.RoundTrip.{
  expect-Reads, after_operand-stop, after_operand-plus, expression-Reads, parameters-Reads,
  function_call-Reads, declaration-Reads,
}

-- an element of a body is read at the token that `peek` gives
abbrev ElementReads : ℕ → Production → List Token → List Token → Type 0
ElementReads fuel p ts us = (t : Token) × (Reads peek ts t ts × Reads (body_element fuel t) ts p us)

-- a name that no `(` follows is the first operand of a sum
variable_element-Reads :
    (fuel : ℕ) (s : Text) (e : Expression) (t : Token) (ts us : List Token)
    → same_kind (kind t) lparen_kind ≡ false
    → Reads (after_operand (expression (suc fuel)) (var_prod s)) (t ∷ ts) e us
    → Reads (body_element (suc fuel) (name s)) (name s ∷ t ∷ ts) (expr_prod e) us
unfolding body_element kind
variable_element-Reads fuel s e t ts us other h =
    bind-Reads _ (ignore-Reads fuel (name s) (t ∷ ts))
      (bind-Reads _ (peek-Reads t ts) (rw other (bind-Reads _ h (pure-Reads (expr_prod e) us))))

element-ElementReads :
    (fuel : ℕ) (p : Production) (t : Token) (ts : List Token)
    → IsElement p
    → StopsElement t
    → size_element p ≤ suc fuel
    → ElementReads (suc fuel) p (print p (t ∷ ts)) (t ∷ ts)
unfolding print print_expression body_element same_kind number kind
element-ElementReads fuel (expr_prod (int_prod i)) t ts sum stop enough = (
  int i,
  (
    peek-Reads (int i) (t ∷ ts),
    bind-Reads _ (expression-Reads (suc fuel) (int_prod i) t ts tt stop.0 (omega arith))
        (pure-Reads (expr_prod (int_prod i)) (t ∷ ts)),
  ),
)
element-ElementReads fuel (expr_prod (var_prod s)) t ts sum stop enough = (
  name s,
  (
    peek-Reads (name s) (t ∷ ts),
    variable_element-Reads fuel s (var_prod s) t ts (t ∷ ts) stop.1
        (after_operand-stop (expression (suc fuel)) (var_prod s) t ts stop.0),
  ),
)
element-ElementReads fuel (expr_prod (plus_prod (int_prod i) right)) t ts sum stop enough = (
  int i,
  (
    peek-Reads (int i) _,
    bind-Reads _
        (expression-Reads (suc fuel) (plus_prod (int_prod i) right) t ts sum stop.0
          (omega (arith, enough)))
        (pure-Reads (expr_prod (plus_prod (int_prod i) right)) (t ∷ ts)),
  ),
)
element-ElementReads fuel (expr_prod (plus_prod (var_prod s) right)) t ts sum stop enough = (
  name s,
  (
    peek-Reads (name s) _,
    variable_element-Reads fuel s (plus_prod (var_prod s) right) plus
        (print_expression right (t ∷ ts)) (t ∷ ts) refl
        (after_operand-plus (expression (suc fuel)) (var_prod s) right
          (print_expression right (t ∷ ts)) (t ∷ ts)
          (expression-Reads (suc fuel) right t ts sum.1 stop.0 (omega (arith, enough)))),
  ),
)
element-ElementReads fuel (expr_prod (plus_prod (plus_prod l r) right)) t ts sum stop enough =
    absurd sum.0
element-ElementReads fuel (funccall_prod s params) t ts sums stop enough =
    let us = print_params params (rparen ∷ t ∷ ts) in
    (
      name s,
      (
        peek-Reads (name s) (lparen ∷ us),
        bind-Reads _ (ignore-Reads fuel (name s) (lparen ∷ us)) (
            bind-Reads _ (peek-Reads lparen us)
              (function_call-Reads (suc fuel) s params (t ∷ ts) sums (omega (arith, enough)))),
      ),
    )
element-ElementReads fuel eof_prod t ts sum stop enough = absurd sum
element-ElementReads fuel (funcdef_prod s params body) t ts sum stop enough = absurd sum
element-ElementReads fuel (funcbod_prod sp ps) t ts sum stop enough = absurd sum
element-ElementReads fuel (decl_prod s val) t ts sum stop enough = absurd sum

body_loop-Reads :
    (fuel : ℕ) (sp : Text) (p : Production) (ps : Productions) (t : Token) (ts : List Token)
    → AllElements (prod p ps)
    → Stops t
    → size_elements (prod p ps) ≤ fuel
    → Reads (body_loop fuel) (print_body sp (prod p ps) (t ∷ ts)) (prod p ps) (t ∷ ts)
unfolding body_loop print_body kind same_kind number
body_loop-Reads zero sp p ps t ts elements stop enough =
    absurd (omega (arith, size_elements-pos ps, enough))
body_loop-Reads (suc fuel) sp p no_prods t ts elements stop enough =
    let (first, (peeks, reads)) =
      element-ElementReads fuel p t ts elements.0 stop.0 (omega (arith, enough)) in
    bind-Reads _ peeks (
      bind-Reads _ reads
        (bind-Reads _ (peek-Reads t ts) (rw stop.1 (pure-Reads (prod p no_prods) (t ∷ ts)))))
body_loop-Reads (suc zero) sp p (prod p' ps) t ts elements stop enough =
    absurd (omega (arith, size_elements-pos ps, size_element-pos p, size_element-pos p', enough))
body_loop-Reads (suc (suc fuel)) sp p (prod p' ps) t ts elements stop enough =
    let us = print_body sp (prod p' ps) (t ∷ ts) in
    let (first, (peeks, reads)) =
      element-ElementReads (suc fuel) p (indent sp) us elements.0 (refl, refl)
        (omega (arith, enough)) in
    bind-Reads _ peeks (
      bind-Reads _ reads (
        bind-Reads _ (peek-Reads (indent sp) us) (
          bind-Reads _ (ignore-Reads fuel (indent sp) us) (
            bind-Reads _
              (body_loop-Reads (suc fuel) sp p' ps t ts elements.1 stop
                (omega (arith, size_element-pos p, enough)))
              (pure-Reads (prod p (prod p' ps)) (t ∷ ts))))))

function_def-Reads :
    (fuel : ℕ) (s : Text) (params : Parameters) (body : Production) (t : Token) (ts : List Token)
    → AllSums params
    → IsBody body
    → Stops t
    → size (funcdef_prod s params body) ≤ suc fuel
    → Reads
        (function_def fuel)
        (name s ∷ lparen ∷ print_params params (rparen ∷ colon ∷ print body (t ∷ ts)))
        (funcdef_prod s params body)
        (t ∷ ts)
unfolding function_def named_def function_body body_indented print kind
function_def-Reads fuel s params (funcbod_prod sp (prod p ps)) t ts sums elements stop enough =
    let body = funcbod_prod sp (prod p ps) in
    let us = print body (t ∷ ts) in
    bind-Reads _ (get-Reads (name s) (lparen ∷ print_params params (rparen ∷ colon ∷ us))) (
      bind-Reads _ (expect-Reads lparen (print_params params (rparen ∷ colon ∷ us))) (
        bind-Reads _ (parameters-Reads fuel params (colon ∷ us) sums (omega (arith, enough))) (
          bind-Reads _ (expect-Reads rparen (colon ∷ us)) (
            bind-Reads _ (expect-Reads colon us) (
              bind-Reads _
                (bind-Reads _ (get-Reads (indent sp) (print_body sp (prod p ps) (t ∷ ts))) (
                  bind-Reads _
                    (body_loop-Reads fuel sp p ps t ts elements stop (omega (arith, enough)))
                    (pure-Reads body (t ∷ ts))))
                (pure-Reads (funcdef_prod s params body) (t ∷ ts)))))))
function_def-Reads fuel s params (funcbod_prod sp no_prods) t ts sums elements stop enough =
    absurd elements
function_def-Reads fuel s params eof_prod t ts sums elements stop enough = absurd elements
function_def-Reads fuel s params (expr_prod e) t ts sums elements stop enough = absurd elements
function_def-Reads fuel s params (funcdef_prod s' ps b) t ts sums elements stop enough =
    absurd elements
function_def-Reads fuel s params (funccall_prod s' ps) t ts sums elements stop enough =
    absurd elements
function_def-Reads fuel s params (decl_prod s' val) t ts sums elements stop enough = absurd elements

-- `root` on the tokens of a definition, a call or a declaration gives it back, and reads no more
pub root-Reads :
    (fuel : ℕ) (p : Production) (t : Token) (ts : List Token)
    → IsRoot p
    → Stops t
    → size p ≤ fuel
    → Reads (root fuel) (print p (t ∷ ts)) p (t ∷ ts)
unfolding root root_at print kind same_kind number
root-Reads zero p t ts isroot stop enough = absurd (omega (arith, size-pos p, enough))
root-Reads (suc fuel) (funcdef_prod s params body) t ts (sums, elements) stop enough =
    let us = name s ∷ lparen ∷ print_params params (rparen ∷ colon ∷ print body (t ∷ ts)) in
    bind-Reads _ (peek-Reads def us) (
      bind-Reads _ (ignore-Reads fuel def us) (
        function_def-Reads (suc fuel) s params body t ts sums elements stop
          (omega (arith, enough))))
root-Reads (suc fuel) (funccall_prod s params) t ts sums stop enough =
    let us = print_params params (rparen ∷ t ∷ ts) in
    bind-Reads _ (peek-Reads (name s) (lparen ∷ us)) (
      bind-Reads _ (ignore-Reads fuel (name s) (lparen ∷ us)) (
        bind-Reads _ (peek-Reads lparen us)
          (function_call-Reads (suc fuel) s params (t ∷ ts) sums (omega (arith, enough)))))
root-Reads (suc fuel) (decl_prod s val) t ts sum stop enough =
    let us = print_expression val (t ∷ ts) in
    bind-Reads _ (peek-Reads (name s) (equals ∷ us)) (
      bind-Reads _ (ignore-Reads fuel (name s) (equals ∷ us)) (
        bind-Reads _ (peek-Reads equals us)
          (declaration-Reads (suc fuel) s val t ts sum stop.0.0 (omega (arith, enough)))))
root-Reads (suc fuel) eof_prod t ts isroot stop enough = absurd isroot
root-Reads (suc fuel) (expr_prod e) t ts isroot stop enough = absurd isroot
root-Reads (suc fuel) (funcbod_prod sp ps) t ts isroot stop enough = absurd isroot
