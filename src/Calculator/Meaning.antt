-- ===== src/Calculator/Meaning.antt =====
-- Expressions as they are written, their tokens, and their values: sums and products associate to
-- the left, except that the right operand of `%` is the rest of the product. The left operand of `%` is converted
-- to `int` before the right one has a value.
use always_be_learning.Characters.{Text}
use always_be_learning.Common.{
  ℕ, suc, ◌+◌, Bool, true, false, none, some, List, [], ◌∷◌, ◌≡◌, if◌then◌else◌,
}
use always_be_learning.Dictionary.{find}
use always_be_learning.Run.{
  Run, ok, thrown, fault, overflow, divide_by_zero, undefined_variable, then_run,
}
use always_be_learning.Calculator.Double.{Double}
use always_be_learning.Calculator.Token.{
  Token, number, name, open_paren, close_paren, plus, minus, multiply, divide, modulus,
}
use always_be_learning.PunyPy.Int.{ℤ}
use always_be_learning.Calculator.Evaluator.{remainder, remainder_overflows, is_zero_int}

mutual
  pub data Sum (D : Type 0) : Type 0 where
    sum : Product D → Addends D → Sum D

  pub data Addends (D : Type 0) : Type 0 where
    no_addend : Addends D
    plus_product minus_product : Product D → Addends D → Addends D

  pub data Product (D : Type 0) : Type 0 where
    product : Primary D → Factors D → Product D

  pub data Factors (D : Type 0) : Type 0 where
    no_factor : Factors D
    times_primary over_primary : Primary D → Factors D → Factors D
    modulo_product : Product D → Factors D

  pub data Primary (D : Type 0) : Type 0 where
    literal : D → Primary D
    variable : Text → Primary D
    parens : Sum D → Primary D
    negative positive : Primary D → Primary D

module _ {D : Type 0} where
  -- the tokens in front of those that follow
  unfoldable mutual
    pub write_sum : Sum D → List (Token D) → List (Token D)
    write_sum (sum p ps) ts = write_product p (write_addends ps ts)

    pub write_addends : Addends D → List (Token D) → List (Token D)
    write_addends no_addend ts = ts
    write_addends (plus_product p ps) ts = plus ∷ write_product p (write_addends ps ts)
    write_addends (minus_product p ps) ts = minus ∷ write_product p (write_addends ps ts)

    pub write_product : Product D → List (Token D) → List (Token D)
    write_product (product p fs) ts = write_primary p (write_factors fs ts)

    pub write_factors : Factors D → List (Token D) → List (Token D)
    write_factors no_factor ts = ts
    write_factors (times_primary p fs) ts = multiply ∷ write_primary p (write_factors fs ts)
    write_factors (over_primary p fs) ts = divide ∷ write_primary p (write_factors fs ts)
    write_factors (modulo_product p) ts = modulus ∷ write_product p ts

    pub write_primary : Primary D → List (Token D) → List (Token D)
    write_primary (literal d) ts = number d ∷ ts
    write_primary (variable s) ts = name s ∷ ts
    write_primary (parens e) ts = open_paren ∷ write_sum e (close_paren ∷ ts)
    write_primary (negative p) ts = minus ∷ write_primary p ts
    write_primary (positive p) ts = plus ∷ write_primary p ts

  -- rounds and depth that are enough
  abbrev mutual
    pub size_sum : Sum D → ℕ
    size_sum (sum p ps) = suc (size_product p + size_addends ps)

    pub size_addends : Addends D → ℕ
    size_addends no_addend = 1
    size_addends (plus_product p ps) = suc (size_product p + size_addends ps)
    size_addends (minus_product p ps) = suc (size_product p + size_addends ps)

    pub size_product : Product D → ℕ
    size_product (product p fs) = suc (size_primary p + size_factors fs)

    pub size_factors : Factors D → ℕ
    size_factors no_factor = 1
    size_factors (times_primary p fs) = suc (size_primary p + size_factors fs)
    size_factors (over_primary p fs) = suc (size_primary p + size_factors fs)
    size_factors (modulo_product p) = suc (suc (size_product p))

    pub size_primary : Primary D → ℕ
    size_primary (literal d) = 1
    size_primary (variable s) = 1
    size_primary (parens e) = suc (size_sum e)
    size_primary (negative p) = suc (size_primary p)
    size_primary (positive p) = suc (size_primary p)

  abbrev pub is_addition : Token D → Bool
  is_addition plus = true
  is_addition minus = true
  is_addition _ = false

  abbrev pub is_multiplication : Token D → Bool
  is_multiplication multiply = true
  is_multiplication divide = true
  is_multiplication modulus = true
  is_multiplication _ = false

  -- the first token does not go on with a product
  abbrev pub EndsProduct : List (Token D) → Type 0
  EndsProduct [] = ⊥
  EndsProduct (t ∷ ts) = is_multiplication t ≡ false

module _ {D : Type 0} ⦃double : Double D⦄ where
  abbrev pub lookup : List (Text × D) → Text → Run (Unit {0}) D
  lookup vars s = elim (find s vars) [ some d ↦ ok d tt | none ↦ thrown undefined_variable tt ]

  -- the quotient, which a divisor of zero has not
  unfoldable pub value_quotient : D → D → Run (Unit {0}) D
  value_quotient left right =
      if double.is_zero right then thrown divide_by_zero tt else ok (double.divide left right) tt

  -- the remainder of two numbers that are converted to `int`
  unfoldable pub value_remainder_int : ℤ → ℤ → Run (Unit {0}) D
  value_remainder_int i j =
      if is_zero_int j
      then thrown divide_by_zero tt
      else if remainder_overflows i j
      then fault overflow
      else ok (double.of_int (remainder i j)) tt

  -- the remainder by an operand that has the value `right`, or ends otherwise
  unfoldable pub value_remainder : D → Run (Unit {0}) D → Run (Unit {0}) D
  unfolding value_remainder_int
  value_remainder left right = elim (double.to_int left) [
    | none ↦ fault overflow
    | some i ↦ then_run right λ d.
        λ _. elim (double.to_int d) [ none ↦ fault overflow | some j ↦ value_remainder_int i j ]
  ]

  unfoldable mutual
    unfolding value_quotient value_remainder

    pub value_sum : List (Text × D) → Sum D → Run (Unit {0}) D
    value_sum vars (sum p ps) =
        then_run (value_product vars p) (λ left. λ _. value_addends vars ps left)

    pub value_addends : List (Text × D) → Addends D → D → Run (Unit {0}) D
    value_addends vars no_addend left = ok left tt
    value_addends vars (plus_product p ps) left =
        then_run (value_product vars p)
          (λ right. λ _. value_addends vars ps (double.add left right))
    value_addends vars (minus_product p ps) left =
        then_run (value_product vars p)
          (λ right. λ _. value_addends vars ps (double.subtract left right))

    pub value_product : List (Text × D) → Product D → Run (Unit {0}) D
    value_product vars (product p fs) =
        then_run (value_primary vars p) (λ left. λ _. value_factors vars fs left)

    pub value_factors : List (Text × D) → Factors D → D → Run (Unit {0}) D
    value_factors vars no_factor left = ok left tt
    value_factors vars (times_primary p fs) left =
        then_run (value_primary vars p)
          (λ right. λ _. value_factors vars fs (double.multiply left right))
    value_factors vars (over_primary p fs) left =
        then_run (value_primary vars p)
          (λ right. λ _. then_run (value_quotient left right) (λ d. λ _. value_factors vars fs d))
    value_factors vars (modulo_product p) left = value_remainder left (value_product vars p)

    pub value_primary : List (Text × D) → Primary D → Run (Unit {0}) D
    value_primary vars (literal d) = ok d tt
    value_primary vars (variable s) = lookup vars s
    value_primary vars (parens e) = value_sum vars e
    value_primary vars (negative p) =
        then_run (value_primary vars p) (λ d. λ _. ok (double.negate d) tt)
    value_primary vars (positive p) = value_primary vars p
