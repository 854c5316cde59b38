-- ===== src/Calculator/Evaluator.antt =====
-- The members of `Calculator` that read and compute. `fuel` bounds the depth of an expression and
-- the rounds of its loops.
use always_be_learning.Characters.{Text}
use always_be_learning.Common.{
  ℕ, zero, suc, ◌%◌, ◌^◌, ◌==◌, Bool, true, false, none, some, [], ◌∷◌, ◌++◌, if◌then◌else◌,
}
use always_be_learning.Run.{
  Run, Cmd, ok, thrown, fault, overflow, name_expected, equals_missing, paren_expected,
  primary_expected, divide_by_zero, out_of_fuel, pure, throw, ◌>>=◌, ◌>>◌,
}
use always_be_learning.PunyPy.Int.{ℤ, pos, negsuc}
use always_be_learning.Calculator.Double.{Double}
use always_be_learning.Calculator.Token.{
  Token, number, name, quit, print, let_key, open_paren, close_paren, plus, minus, multiply, divide,
  modulus, equals,
}
use always_be_learning.Calculator.Stream.{
  Calculator, get, putback, ignore, good, define_variable, get_variable,
}

-- `-a` of an `int`
abbrev minus_int : ℕ → ℤ
minus_int zero = pos 0
minus_int (suc n) = negsuc n

-- `i1 % i2`, with the sign of `i1`
unfoldable pub remainder : ℤ → ℤ → ℤ
remainder (pos a) (pos b) = pos (a % b)
remainder (pos a) (negsuc b) = pos (a % suc b)
remainder (negsuc a) (pos b) = minus_int (suc a % b)
remainder (negsuc a) (negsuc b) = minus_int (suc a % suc b)

-- the quotient of the least `int` and -1 is out of range
unfoldable pub remainder_overflows : ℤ → ℤ → Bool
remainder_overflows (negsuc a) (negsuc zero) = suc a == 2 ^ 31
remainder_overflows _ _ = false

abbrev pub is_zero_int : ℤ → Bool
is_zero_int (pos zero) = true
is_zero_int _ = false

module _ {D : Type 0} ⦃double : Double D⦄ where
  -- `left % right`, with both converted to `int`
  unfoldable pub modulo_int : {S : Type 0} → ℤ → ℤ → Cmd S D
  unfolding remainder remainder_overflows
  modulo_int i j =
      if is_zero_int j
      then throw divide_by_zero
      else if remainder_overflows i j
      then (λ _. fault overflow)
      else pure (double.of_int (remainder i j))

  -- `static_cast<int>(term())` and what is behind it, with `left` converted
  unfoldable pub modulo_by : {S : Type 0} → ℤ → D → Cmd S D
  unfolding modulo_int
  modulo_by i right = elim (double.to_int right) [
    | none ↦ (λ _. fault overflow)
    | some j ↦ modulo_int i j
  ]

  -- the case `%`: `left` is converted before the right operand is read
  unfoldable pub modulo : {S : Type 0} → Cmd S D → D → Cmd S D
  unfolding modulo_by
  modulo term left = elim (double.to_int left) [
    | none ↦ (λ _. fault overflow)
    | some i ↦ term >>= modulo_by i
  ]

  -- `left /= d`
  unfoldable pub divide_by : {S : Type 0} → D → D → Cmd S D
  divide_by left d = if double.is_zero d then throw divide_by_zero else pure (double.divide left d)

  -- one round of the loop of `expression`, at the token `t`; `again` is the next round
  unfoldable pub expression_round :
      Cmd (Calculator D) D → (D → Cmd (Calculator D) D) → D → Token D → Cmd (Calculator D) D
  expression_round term again left plus = term >>= λ right. again (double.add left right)
  expression_round term again left minus = term >>= λ right. again (double.subtract left right)
  expression_round term again left t = putback t >> pure left

  -- one round of the loop of `term`
  unfoldable pub term_round :
      Cmd (Calculator D) D
      → Cmd (Calculator D) D
      → (D → Cmd (Calculator D) D)
      → D
      → Token D
      → Cmd (Calculator D) D
  unfolding divide_by modulo
  term_round primary term again left multiply =
      primary >>= λ right. again (double.multiply left right)
  term_round primary term again left divide = primary >>= λ right. divide_by left right >>= again
  term_round primary term again left modulus = modulo term left >>= again
  term_round primary term again left t = putback t >> pure left

  -- behind `( expression`
  unfoldable pub closed : D → Token D → Cmd (Calculator D) D
  closed d close_paren = pure d
  closed d _ = throw paren_expected

  -- `primary` at the token `t`
  unfoldable pub primary_at :
      Cmd (Calculator D) D → Cmd (Calculator D) D → Token D → Cmd (Calculator D) D
  unfolding closed
  primary_at expression primary open_paren = expression >>= λ d. get >>= closed d
  primary_at expression primary (number d) = pure d
  primary_at expression primary (name s) = get_variable s
  primary_at expression primary minus = primary >>= λ d. pure (double.negate d)
  primary_at expression primary plus = primary
  primary_at expression primary _ = throw primary_expected

  unfoldable mutual
    unfolding expression_round term_round primary_at

    pub expression : ℕ → Cmd (Calculator D) D
    expression zero = λ _. out_of_fuel
    expression (suc fuel) = term fuel >>= expression_loop fuel

    pub expression_loop : ℕ → D → Cmd (Calculator D) D
    expression_loop zero left = λ _. out_of_fuel
    expression_loop (suc fuel) left =
        get >>= expression_round (term fuel) (expression_loop fuel) left

    pub term : ℕ → Cmd (Calculator D) D
    term zero = λ _. out_of_fuel
    term (suc fuel) = primary fuel >>= term_loop fuel

    pub term_loop : ℕ → D → Cmd (Calculator D) D
    term_loop zero left = λ _. out_of_fuel
    term_loop (suc fuel) left = get >>= term_round (primary fuel) (term fuel) (term_loop fuel) left

    pub primary : ℕ → Cmd (Calculator D) D
    primary zero = λ _. out_of_fuel
    primary (suc fuel) = get >>= primary_at (expression fuel) (primary fuel)

  -- `declaration` behind its name
  unfoldable pub value_declaration : ℕ → Text → Token D → Cmd (Calculator D) D
  unfolding expression define_variable
  value_declaration fuel s equals = expression fuel >>= λ d. define_variable s d
  value_declaration fuel s _ = throw equals_missing

  unfoldable pub named_declaration : ℕ → Token D → Cmd (Calculator D) D
  unfolding value_declaration
  named_declaration fuel (name s) = get >>= value_declaration fuel s
  named_declaration fuel _ = throw name_expected

  unfoldable pub declaration : ℕ → Cmd (Calculator D) D
  unfolding named_declaration
  declaration fuel = get >>= named_declaration fuel

  unfoldable pub statement_at : ℕ → Token D → Cmd (Calculator D) D
  unfolding declaration expression
  statement_at fuel let_key = declaration fuel
  statement_at fuel t = putback t >> expression fuel

  unfoldable pub statement : ℕ → Cmd (Calculator D) D
  unfolding statement_at
  statement fuel = get >>= statement_at fuel

  -- `while( t == TokenKind::Print ) t = ts_.get()`
  unfoldable pub skip_prints : ℕ → Token D → Cmd (Calculator D) (Token D)
  skip_prints zero t = λ _. out_of_fuel
  skip_prints (suc fuel) print = get >>= skip_prints fuel
  skip_prints (suc fuel) t = pure t

  -- `cout << result << ...`
  unfoldable pub print_result : D → Cmd (Calculator D) (Unit {0})
  print_result d s = ok tt (record s { printed = s.printed ++ d ∷ [] })

  -- the body of the `try` of `run`: true at `quit`
  unfoldable pub calculation_at : ℕ → Token D → Cmd (Calculator D) Bool
  unfolding statement print_result
  calculation_at fuel quit = pure true
  calculation_at fuel t = putback t >> (statement fuel >>= λ d. print_result d >> pure false)

  unfoldable pub calculation : ℕ → Cmd (Calculator D) Bool
  unfolding calculation_at skip_prints
  calculation fuel = get >>= skip_prints fuel >>= calculation_at fuel

  -- the `catch` of `run`
  unfoldable pub recover : ℕ → Run (Calculator D) Bool → Run (Calculator D) Bool
  recover fuel (thrown e s) = (ignore fuel >> pure false) s
  recover fuel (ok quits s) = ok quits s
  recover fuel (fault f) = fault f
  recover fuel out_of_fuel = out_of_fuel

  unfoldable pub run : ℕ → ℕ → Cmd (Calculator D) (Unit {0})
  unfolding calculation recover good
  run zero fuel = λ _. out_of_fuel
  run (suc rounds) fuel = λ s.
      if good s
      then ((λ s'. recover fuel (calculation fuel s')) >>= λ quits.
            if quits then pure tt else run rounds fuel)
          s
      else ok tt s

  -- `predefined_variables`
  unfoldable pub predefined_variables : Cmd (Calculator D) (Unit {0})
  unfolding define_variable
  predefined_variables = do
    _ ← define_variable (b'P' ∷ b'i' ∷ []) double.pi
    _ ← define_variable (b'e' ∷ []) double.euler
    pure tt
