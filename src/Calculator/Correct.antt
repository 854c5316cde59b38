-- ===== src/Calculator/Correct.antt =====
-- The evaluator computes the value of the expression whose tokens it reads.
use always_be_learning.Characters.{Text}
use always_be_learning.Common.{ℕ, suc, zero, ◌≤◌, false, List, [], ◌∷◌, ◌≡◌, refl, sym, arith}
use always_be_learning.Run.{ok, pure, ◌>>=◌, then_run}
use always_be_learning.Calculator.Double.{Double}
use always_be_learning.Calculator.Token.{Token, close_paren}
use always_be_learning.Calculator.Stream.{Calculator, get}
use always_be_learning.Calculator.Evaluator.{
  divide_by, expression_round, term_round, primary_at, closed, expression, expression_loop, term,
  term_loop, primary,
}
use always_be_learning.Calculator.Meaning.{
  Sum, sum, Addends, no_addend, plus_product, minus_product, Product, product, Factors, no_factor,
  times_primary, over_primary, modulo_product, Primary, literal, variable, parens, negative,
  positive, write_sum, write_addends, write_product, write_factors, write_primary, size_sum,
  size_addends, size_product, size_factors, size_primary, is_addition, is_multiplication,
  EndsProduct, value_quotient, value_remainder, value_sum, value_addends, value_product,
  value_factors, value_primary,
}
use always_be_learning.Calculator.Reading.{
  Holds, EndsAs, Reads, get-Reads, putback-Reads, pure-Reads, bind-Reads, get_variable-Reads,
}
use always_be_learning.Calculator.Rounds.{
  expression_round-putback, write_addends-EndsProduct, term_round-putback, then_run_ok,
}
use always_be_learning.Calculator.Operators.{divide_by-Reads, modulo-Reads}

module _ {D : Type 0} ⦃double : Double D⦄ where
  module _ (vars : List (Text × D)) (out : List D) where
    mutual
      unfolding expression expression_loop term term_loop primary write_sum write_addends
          write_product write_factors write_primary value_sum value_addends value_product
          value_factors value_primary closed expression_round term_round primary_at

      pub expression-Reads :
          (fuel : ℕ) (e : Sum D) (t : Token D) (ts : List (Token D))
          → is_addition t ≡ false
          → is_multiplication t ≡ false
          → size_sum e ≤ fuel
          → Reads vars out (expression fuel) (write_sum e (t ∷ ts)) (value_sum vars e) (t ∷ ts)
      expression-Reads zero (sum p ps) t ts add mul enough = absurd (omega (arith, enough))
      expression-Reads (suc fuel) (sum p ps) t ts add mul enough =
          bind-Reads vars out (expression_loop fuel) (value_addends vars ps)
            (term-Reads fuel p (write_addends ps (t ∷ ts))
              (write_addends-EndsProduct ps (t ∷ ts) mul) (omega (arith, enough)))
            (λ left. expression_loop-Reads fuel ps left t ts add mul (omega (arith, enough)))

      expression_loop-Reads :
          (fuel : ℕ) (ps : Addends D) (left : D) (t : Token D) (ts : List (Token D))
          → is_addition t ≡ false
          → is_multiplication t ≡ false
          → size_addends ps ≤ fuel
          → Reads vars out
              (expression_loop fuel left)
              (write_addends ps (t ∷ ts))
              (value_addends vars ps left)
              (t ∷ ts)
      expression_loop-Reads zero no_addend left t ts add mul enough = absurd (omega (arith, enough))
      expression_loop-Reads zero (plus_product p ps) left t ts add mul enough =
          absurd (omega (arith, enough))
      expression_loop-Reads zero (minus_product p ps) left t ts add mul enough =
          absurd (omega (arith, enough))
      expression_loop-Reads (suc fuel) no_addend left t ts add mul enough =
          putback-Reads vars out (expression_round (term fuel) (expression_loop fuel) left) left t
            ts (expression_round-putback (term fuel) (expression_loop fuel) left t add)
      expression_loop-Reads (suc fuel) (plus_product p ps) left t ts add mul enough =
          get-Reads vars out (expression_round (term fuel) (expression_loop fuel) left) (
            bind-Reads vars out (λ right. expression_loop fuel (double.add left right))
              (λ right. value_addends vars ps (double.add left right))
              (term-Reads fuel p (write_addends ps (t ∷ ts))
                (write_addends-EndsProduct ps (t ∷ ts) mul) (omega (arith, enough)))
              (λ right.
                expression_loop-Reads fuel ps (double.add left right) t ts add mul
                  (omega (arith, enough))))
      expression_loop-Reads (suc fuel) (minus_product p ps) left t ts add mul enough =
          get-Reads vars out (expression_round (term fuel) (expression_loop fuel) left) (
            bind-Reads vars out (λ right. expression_loop fuel (double.subtract left right))
              (λ right. value_addends vars ps (double.subtract left right))
              (term-Reads fuel p (write_addends ps (t ∷ ts))
                (write_addends-EndsProduct ps (t ∷ ts) mul) (omega (arith, enough)))
              (λ right.
                expression_loop-Reads fuel ps (double.subtract left right) t ts add mul
                  (omega (arith, enough))))

      term-Reads :
          (fuel : ℕ) (p : Product D) (ts : List (Token D))
          → EndsProduct ts
          → size_product p ≤ fuel
          → Reads vars out (term fuel) (write_product p ts) (value_product vars p) ts
      term-Reads zero (product p fs) ts ends enough = absurd (omega (arith, enough))
      term-Reads (suc fuel) (product p fs) ts ends enough =
          bind-Reads vars out (term_loop fuel) (value_factors vars fs)
            (primary-Reads fuel p (write_factors fs ts) (omega (arith, enough)))
            (λ left. term_loop-Reads fuel fs left ts ends (omega (arith, enough)))

      term_loop-Reads :
          (fuel : ℕ) (fs : Factors D) (left : D) (ts : List (Token D))
          → EndsProduct ts
          → size_factors fs ≤ fuel
          → Reads vars out
              (term_loop fuel left)
              (write_factors fs ts)
              (value_factors vars fs left)
              ts
      term_loop-Reads zero no_factor left ts ends enough = absurd (omega (arith, enough))
      term_loop-Reads zero (times_primary p fs) left ts ends enough = absurd (omega (arith, enough))
      term_loop-Reads zero (over_primary p fs) left ts ends enough = absurd (omega (arith, enough))
      term_loop-Reads zero (modulo_product p) left ts ends enough = absurd (omega (arith, enough))
      term_loop-Reads (suc fuel) no_factor left [] ends enough = absurd ends
      term_loop-Reads (suc fuel) no_factor left (t ∷ ts) ends enough =
          putback-Reads vars out (term_round (primary fuel) (term fuel) (term_loop fuel) left) left
            t ts (term_round-putback (primary fuel) (term fuel) (term_loop fuel) left t ends)
      term_loop-Reads (suc fuel) (times_primary p fs) left ts ends enough =
          get-Reads vars out (term_round (primary fuel) (term fuel) (term_loop fuel) left) (
            bind-Reads vars out (λ right. term_loop fuel (double.multiply left right))
              (λ right. value_factors vars fs (double.multiply left right))
              (primary-Reads fuel p (write_factors fs ts) (omega (arith, enough)))
              (λ right.
                term_loop-Reads fuel fs (double.multiply left right) ts ends
                  (omega (arith, enough))))
      term_loop-Reads (suc fuel) (over_primary p fs) left ts ends enough =
          get-Reads vars out (term_round (primary fuel) (term fuel) (term_loop fuel) left) (
            bind-Reads vars out (λ right. divide_by left right >>= term_loop fuel)
              (λ right. then_run (value_quotient left right) (λ d. λ _. value_factors vars fs d))
              (primary-Reads fuel p (write_factors fs ts) (omega (arith, enough)))
              (λ right.
                bind-Reads vars out (term_loop fuel) (value_factors vars fs)
                  (divide_by-Reads vars out left right (write_factors fs ts))
                  (λ d. term_loop-Reads fuel fs d ts ends (omega (arith, enough)))))
      term_loop-Reads (suc zero) (modulo_product p) left ts ends enough =
          absurd (omega (arith, enough))
      term_loop-Reads (suc (suc fuel)) (modulo_product p) left ts ends enough =
          get-Reads vars out
            (term_round (primary (suc fuel)) (term (suc fuel)) (term_loop (suc fuel)) left)
            (rw (sym (then_run_ok (value_remainder left (value_product vars p)))) (
              bind-Reads vars out (term_loop (suc fuel)) (λ d. ok d tt)
                (modulo-Reads vars out left
                  (term-Reads (suc fuel) p ts ends (omega (arith, enough))))
                (λ d. term_loop-Reads (suc fuel) no_factor d ts ends (omega arith))))

      primary-Reads :
          (fuel : ℕ) (p : Primary D) (ts : List (Token D))
          → size_primary p ≤ fuel
          → Reads vars out (primary fuel) (write_primary p ts) (value_primary vars p) ts
      primary-Reads zero (literal d) ts enough = absurd (omega (arith, enough))
      primary-Reads zero (variable s) ts enough = absurd (omega (arith, enough))
      primary-Reads zero (parens e) ts enough = absurd (omega (arith, enough))
      primary-Reads zero (negative p) ts enough = absurd (omega (arith, enough))
      primary-Reads zero (positive p) ts enough = absurd (omega (arith, enough))
      primary-Reads (suc fuel) (literal d) ts enough =
          get-Reads vars out (primary_at (expression fuel) (primary fuel))
            (pure-Reads vars out d ts)
      primary-Reads (suc fuel) (variable s) ts enough =
          get-Reads vars out (primary_at (expression fuel) (primary fuel))
            (get_variable-Reads vars out s ts)
      primary-Reads (suc fuel) (parens e) ts enough =
          get-Reads vars out (primary_at (expression fuel) (primary fuel)) (
            rw (sym (then_run_ok (value_sum vars e))) (
              bind-Reads vars out (λ d. get >>= closed d) (λ d. ok d tt)
                (expression-Reads fuel e close_paren ts refl refl (omega (arith, enough)))
                (λ d. get-Reads vars out (closed d) (pure-Reads vars out d ts))))
      primary-Reads (suc fuel) (negative p) ts enough =
          get-Reads vars out (primary_at (expression fuel) (primary fuel)) (
            bind-Reads vars out (λ d. pure (double.negate d)) (λ d. ok (double.negate d) tt)
              (primary-Reads fuel p ts (omega (arith, enough)))
              (λ d. pure-Reads vars out (double.negate d) ts))
      primary-Reads (suc fuel) (positive p) ts enough =
          get-Reads vars out (primary_at (expression fuel) (primary fuel))
            (primary-Reads fuel p ts (omega (arith, enough)))

    -- On the tokens of an expression, up to a token that is no operator, and with as much fuel as its
    -- size, `expression` ends as the value of the expression does: with the value, the token and what
    -- is behind it left, or with the exception or the overflow of the first operation that has none.
    -- The right operand of `%` is the rest of the product, and its left operand is converted first.
    pub expression-value_sum :
        (fuel : ℕ) (e : Sum D) (t : Token D) (ts : List (Token D)) (s : Calculator D)
        → is_addition t ≡ false
        → is_multiplication t ≡ false
        → size_sum e ≤ fuel
        → Holds vars out s (write_sum e (t ∷ ts))
        → EndsAs vars out (expression fuel s) (value_sum vars e) (t ∷ ts)
    expression-value_sum fuel e t ts s add mul enough h =
        (expression-Reads fuel e t ts add mul enough).reads s h
