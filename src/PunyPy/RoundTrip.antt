-- ===== src/PunyPy/RoundTrip.antt =====
-- The parser gives back the expressions, parameters, calls and declarations whose tokens it reads.
pub mod Roots
use always_be_learning.Characters.{Text}
use always_be_learning.Common.{
  ℕ, zero, suc, ◌+◌, ◌<◌, ◌≤◌, Bool, true, false, List, [], ◌∷◌, ◌++◌, ◌≡◌, refl, sym, ap, ◌∙◌,
  if◌then◌else◌, ◌==◌, arith,
}
use mathlib.Core.List.{append_assoc}
use always_be_learning.Run.{Cmd, pure, ◌>>=◌, ◌>>◌, then_run, throw, bad_token, out_of_fuel}
use always_be_learning.PunyPy.Token.{
  Kind, Token, def, lparen, rparen, plus, minus, colon, comma, equals, eof, name, int, indent, kind,
  same_kind, number, def_kind, name_kind, int_kind, lparen_kind, rparen_kind, plus_kind, minus_kind,
  colon_kind, comma_kind, equals_kind, indent_kind, eof_kind,
}
use always_be_learning.PunyPy.Scanner.{Scanner, get, peek, ignore}
use always_be_learning.PunyPy.Syntax.{
  Expression, int_prod, var_prod, plus_prod, Parameters, Production, eof_prod, expr_prod,
  funcdef_prod, funcbod_prod, funccall_prod, decl_prod, Productions, no_prods, prod,
}
use always_be_learning.PunyPy.Parser.{
  expect, parse_plus, after_operand, operand, expression, parameters_loop, parameters,
  function_call, declaration, body_element, body_loop, body_indented, function_body, named_def,
  function_def, root_at, root,
}
use always_be_learning.PunyPy.Reading.{
  Reads, get-Reads, peek-Reads, peek_at-Reads, ignore-Reads, pure-Reads, bind-Reads, same_kind_refl,
}
use always_be_learning.PunyPy.Print.{
  print_expression, print_params, print, print_body, IsOperand, IsSum, AllSums, IsElement,
  AllElements, IsBody, IsRoot, size_expression, size_params, size_element, size_elements, size,
  StopsSum, StopsElement, Stops, size_expression-pos,
}

pub expect-Reads : (t : Token) (ts : List Token) → Reads (expect (kind t)) (t ∷ ts) t ts
unfolding expect
expect-Reads t ts =
    bind-Reads (λ t'. if same_kind (kind t') (kind t) then pure t' else throw bad_token)
      (get-Reads t ts) (rw (same_kind_refl (kind t)) (pure-Reads t ts))

-- behind an operand, a token other than `+` ends the expression
pub after_operand-stop :
    (again : Cmd Scanner Expression) (left : Expression) (t : Token) (ts : List Token)
    → StopsSum t
    → Reads (after_operand again left) (t ∷ ts) left (t ∷ ts)
unfolding after_operand
after_operand-stop again left t ts stop =
    bind-Reads (λ t'. if same_kind (kind t') plus_kind then parse_plus again left else pure left)
      (peek-Reads t ts) (rw stop (pure-Reads left (t ∷ ts)))

pub after_operand-plus :
    (again : Cmd Scanner Expression) (left right : Expression) (ts us : List Token)
    → Reads again ts right us
    → Reads (after_operand again left) (plus ∷ ts) (plus_prod left right) us
unfolding after_operand parse_plus same_kind number kind
after_operand-plus again left right ts us h =
    bind-Reads (λ t'. if same_kind (kind t') plus_kind then parse_plus again left else pure left)
      (peek-Reads plus ts)
      (bind-Reads (λ _. again >>= λ right. pure (plus_prod left right)) (expect-Reads plus ts)
        (bind-Reads (λ right. pure (plus_prod left right)) h
          (pure-Reads (plus_prod left right) us)))

pub expression-Reads :
    (fuel : ℕ) (e : Expression) (t : Token) (ts : List Token)
    → IsSum e
    → StopsSum t
    → size_expression e ≤ fuel
    → Reads (expression fuel) (print_expression e (t ∷ ts)) e (t ∷ ts)
unfolding expression operand print_expression
expression-Reads zero e t ts sum stop enough = absurd (omega (arith, size_expression-pos e, enough))
expression-Reads (suc fuel) (int_prod i) t ts sum stop enough =
    bind-Reads (operand (expression fuel)) (get-Reads (int i) (t ∷ ts))
      (after_operand-stop (expression fuel) (int_prod i) t ts stop)
expression-Reads (suc fuel) (var_prod s) t ts sum stop enough =
    bind-Reads (operand (expression fuel)) (get-Reads (name s) (t ∷ ts))
      (after_operand-stop (expression fuel) (var_prod s) t ts stop)
expression-Reads (suc fuel) (plus_prod (int_prod i) right) t ts sum stop enough =
    bind-Reads (operand (expression fuel))
      (get-Reads (int i) (plus ∷ print_expression right (t ∷ ts)))
      (after_operand-plus (expression fuel) (int_prod i) right (print_expression right (t ∷ ts))
        (t ∷ ts) (expression-Reads fuel right t ts sum.1 stop (omega (arith, enough))))
expression-Reads (suc fuel) (plus_prod (var_prod s) right) t ts sum stop enough =
    bind-Reads (operand (expression fuel))
      (get-Reads (name s) (plus ∷ print_expression right (t ∷ ts)))
      (after_operand-plus (expression fuel) (var_prod s) right (print_expression right (t ∷ ts))
        (t ∷ ts) (expression-Reads fuel right t ts sum.1 stop (omega (arith, enough))))
expression-Reads (suc fuel) (plus_prod (plus_prod l r) right) t ts sum stop enough = absurd sum.0

-- the first token of a sum
abbrev StartsSum : List Token → Type 0
StartsSum ts =
    (t : Token) × ((us : List Token) × ((ts ≡ t ∷ us) × (same_kind (kind t) rparen_kind ≡ false)))

print_expression-StartsSum :
    (e : Expression) (ts : List Token) → IsSum e → StartsSum (print_expression e ts)
unfolding print_expression same_kind number kind
print_expression-StartsSum (int_prod i) ts sum = (int i, (ts, (refl, refl)))
print_expression-StartsSum (var_prod s) ts sum = (name s, (ts, (refl, refl)))
print_expression-StartsSum (plus_prod (int_prod i) right) ts sum = (int i, (_, (refl, refl)))
print_expression-StartsSum (plus_prod (var_prod s) right) ts sum = (name s, (_, (refl, refl)))
print_expression-StartsSum (plus_prod (plus_prod l r) right) ts sum = absurd sum.0

print_params-StartsSum :
    (e : Expression) (params : Parameters) (ts : List Token)
    → IsSum e
    → StartsSum (print_params (e ∷ params) ts)
unfolding print_params
print_params-StartsSum e [] ts sum = print_expression-StartsSum e ts sum
print_params-StartsSum e (e' ∷ params) ts sum = print_expression-StartsSum e _ sum

parameters_loop-Reads :
    (fuel : ℕ) (acc : Parameters) (e : Expression) (params : Parameters) (ts : List Token)
    → AllSums (e ∷ params)
    → size_params (e ∷ params) ≤ fuel
    → Reads
        (parameters_loop fuel acc)
        (print_params (e ∷ params) (rparen ∷ ts))
        (acc ++ e ∷ params)
        (rparen ∷ ts)
unfolding parameters_loop print_params same_kind number kind
parameters_loop-Reads zero acc e params ts sums enough =
    absurd (omega (arith, size_expression-pos e, enough))
parameters_loop-Reads (suc fuel) acc e [] ts sums enough =
    bind-Reads _ (expression-Reads (suc fuel) e rparen ts sums.0 refl (omega (arith, enough)))
      (bind-Reads _ (peek-Reads rparen ts) (pure-Reads (acc ++ e ∷ []) (rparen ∷ ts)))
parameters_loop-Reads (suc zero) acc e (e' ∷ params) ts sums enough =
    absurd (omega (arith, size_expression-pos e, size_expression-pos e', enough))
parameters_loop-Reads (suc (suc fuel)) acc e (e' ∷ params) ts sums enough =
    let us = print_params (e' ∷ params) (rparen ∷ ts) in
    bind-Reads _ (expression-Reads (suc (suc fuel)) e comma us sums.0 refl (omega (arith, enough)))
      (bind-Reads _ (peek-Reads comma us) (
        bind-Reads _ (ignore-Reads fuel comma us) (
          rw (sym (append_assoc acc (e ∷ []) (e' ∷ params))) (
            parameters_loop-Reads (suc fuel) (acc ++ e ∷ []) e' params ts sums.1
              (omega (arith, size_expression-pos e, enough))))))

pub parameters-Reads :
    (fuel : ℕ) (params : Parameters) (ts : List Token)
    → AllSums params
    → size_params params ≤ fuel
    → Reads (parameters fuel) (print_params params (rparen ∷ ts)) params (rparen ∷ ts)
unfolding parameters print_params same_kind number kind
parameters-Reads fuel [] ts sums enough =
    bind-Reads _ (peek-Reads rparen ts) (pure-Reads [] (rparen ∷ ts))
parameters-Reads fuel (e ∷ params) ts sums enough =
    let us = print_params (e ∷ params) (rparen ∷ ts) in
    let (t, (rest, (starts, other))) = print_params-StartsSum e params (rparen ∷ ts) sums.0 in
    bind-Reads _ (peek_at-Reads us t rest starts)
      (rw other (parameters_loop-Reads fuel [] e params ts sums enough))

pub function_call-Reads :
    (fuel : ℕ) (s : Text) (params : Parameters) (ts : List Token)
    → AllSums params
    → size_params params ≤ fuel
    → Reads
        (function_call fuel s)
        (lparen ∷ print_params params (rparen ∷ ts))
        (funccall_prod s params)
        ts
unfolding function_call kind
function_call-Reads fuel s params ts sums enough =
    bind-Reads _ (expect-Reads lparen (print_params params (rparen ∷ ts))) (
      bind-Reads _ (parameters-Reads fuel params ts sums enough)
        (bind-Reads _ (expect-Reads rparen ts) (pure-Reads (funccall_prod s params) ts)))

pub declaration-Reads :
    (fuel : ℕ) (s : Text) (val : Expression) (t : Token) (ts : List Token)
    → IsSum val
    → StopsSum t
    → size_expression val ≤ fuel
    → Reads (declaration fuel s) (equals ∷ print_expression val (t ∷ ts)) (decl_prod s val) (t ∷ ts)
unfolding declaration kind
declaration-Reads fuel s val t ts sum stop enough =
    bind-Reads _ (expect-Reads equals (print_expression val (t ∷ ts))) (
      bind-Reads _ (expression-Reads fuel val t ts sum stop enough)
        (pure-Reads (decl_prod s val) (t ∷ ts)))
