-- ===== src/Calculator/Rounds.antt =====
-- The rounds of the loops of `expression` and `term` at a token that ends them.
use always_be_learning.Common.{false, List, ◌≡◌, refl}
use always_be_learning.Run.{Run, Cmd, ok, thrown, fault, out_of_fuel, pure, ◌>>◌, then_run}
use always_be_learning.Calculator.Double.{Double}
use always_be_learning.Calculator.Token.{
  Token, number, name, quit, print, let_key, open_paren, close_paren, plus, minus, multiply, divide,
  modulus, equals,
}
use always_be_learning.Calculator.Stream.{Calculator, putback}
use always_be_learning.Calculator.Evaluator.{expression_round, term_round}
use always_be_learning.Calculator.Meaning.{
  Addends, no_addend, plus_product, minus_product, write_addends, is_addition, is_multiplication,
  EndsProduct,
}

module _ {D : Type 0} ⦃double : Double D⦄ where
  pub then_run_ok : (r : Run (Unit {0}) D) → then_run r (λ d. λ _. ok d tt) ≡ r
  then_run_ok (ok d u) = refl
  then_run_ok (thrown e u) = refl
  then_run_ok (fault f) = refl
  then_run_ok out_of_fuel = refl

  -- a token that is no `+` or `-` is put back
  pub expression_round-putback :
      (term' : Cmd (Calculator D) D) (again : D → Cmd (Calculator D) D) (left : D) (t : Token D)
      → is_addition t ≡ false
      → expression_round term' again left t ≡ (putback t >> pure left)
  unfolding expression_round
  expression_round-putback term' again left (number d) e = refl
  expression_round-putback term' again left (name s) e = refl
  expression_round-putback term' again left quit e = refl
  expression_round-putback term' again left print e = refl
  expression_round-putback term' again left let_key e = refl
  expression_round-putback term' again left open_paren e = refl
  expression_round-putback term' again left close_paren e = refl
  expression_round-putback term' again left plus e = absurd cc
  expression_round-putback term' again left minus e = absurd cc
  expression_round-putback term' again left multiply e = refl
  expression_round-putback term' again left divide e = refl
  expression_round-putback term' again left modulus e = refl
  expression_round-putback term' again left equals e = refl

  pub term_round-putback :
      (primary' term' : Cmd (Calculator D) D) (again : D → Cmd (Calculator D) D) (left : D)
      (t : Token D)
      → is_multiplication t ≡ false
      → term_round primary' term' again left t ≡ (putback t >> pure left)
  unfolding term_round
  term_round-putback primary' term' again left (number d) e = refl
  term_round-putback primary' term' again left (name s) e = refl
  term_round-putback primary' term' again left quit e = refl
  term_round-putback primary' term' again left print e = refl
  term_round-putback primary' term' again left let_key e = refl
  term_round-putback primary' term' again left open_paren e = refl
  term_round-putback primary' term' again left close_paren e = refl
  term_round-putback primary' term' again left plus e = refl
  term_round-putback primary' term' again left minus e = refl
  term_round-putback primary' term' again left multiply e = absurd cc
  term_round-putback primary' term' again left divide e = absurd cc
  term_round-putback primary' term' again left modulus e = absurd cc
  term_round-putback primary' term' again left equals e = refl

  -- behind a product comes an addition or what follows the sum
  pub write_addends-EndsProduct :
      (ps : Addends D) (ts : List (Token D)) → EndsProduct ts → EndsProduct (write_addends ps ts)
  unfolding write_addends
  write_addends-EndsProduct no_addend ts ends = ends
  write_addends-EndsProduct (plus_product p ps) ts ends = refl
  write_addends-EndsProduct (minus_product p ps) ts ends = refl
