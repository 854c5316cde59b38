-- ===== src/Tests/Calculations.antt =====
-- A calculator of natural numbers.
use always_be_learning.Characters.{Text, read_while, is_digit, same_text}
use always_be_learning.Common.{
  ℕ, ◌+◌, ◌-◌, ◌*◌, ◌/◌, ◌==◌, ◌^◌, ltb, if◌then◌else◌, ◌≡◌, refl, true, false, none, some, [], ◌∷◌,
  inl, arith,
}
use always_be_learning.Dictionary.{find, overwrite}
use always_be_learning.Run.{ok, thrown, fault, overflow, unassigned_read, redefinition, ◌>>=◌}
use always_be_learning.PunyPy.Int.{ℤ, pos, negsuc}
use always_be_learning.PunyPy.Scanner.{digits}
use always_be_learning.Calculator.Double.{Double}
use always_be_learning.Calculator.Token.{number, print, token_of}
use always_be_learning.Calculator.Stream.{
  Calculator, get, define_variable, set_variable, get_variable, scan_text, scan_char, scan_number,
}
use always_be_learning.Calculator.Evaluator.{expression, remainder, remainder_overflows}
use always_be_learning.Calculator.Meaning.{
  Sum, sum, no_addend, plus_product, product, no_factor, times_primary, modulo_product, literal,
  variable, value_sum, write_sum,
}
use always_be_learning.Calculator.Reading.{Source, state_on, Holds, EndsAs}
use always_be_learning.Calculator.Correct.{expression-value_sum}
use always_be_learning.Calculator.Variables.{set_variable-get_variable}

abbrev natural : ℤ → ℕ
natural (pos n) = n
natural (negsuc n) = 0

instance abbrev naturals : Double ℕ
naturals = record {
  add = λ a b. a + b;
  subtract = λ a b. a - b;
  multiply = λ a b. a * b;
  divide = λ a b. a / b;
  negate = λ a. 0;
  is_zero = λ a. a == 0;
  to_int = λ a. if ltb a (2 ^ 31) then some (pos a) else none;
  of_int = natural;
  read = λ cs. (digits 0 (read_while is_digit cs).0, (read_while is_digit cs).1, true);
  pi = 3;
  euler = 2;
}

-- 1 + 2 * 3
abbrev seven : Sum ℕ
seven =
    sum (product (literal 1) no_factor)
      (plus_product (product (literal 2) (times_primary (literal 3) no_factor)) no_addend)

abbrev on_text : Text → Source
on_text cs = record { left = cs; ended = false; broken = false }

abbrev on_seven : Calculator ℕ
on_seven =
    state_on (on_text (b'1' ∷ b' ' ∷ b'+' ∷ b'2' ∷ b'*' ∷ b'3' ∷ b';' ∷ [])) false (number 0) [] []

seven-Holds : Holds [] [] on_seven (write_sum seven (print ∷ []))
unfolding write_sum get scan_text scan_char scan_number token_of read_while digits
seven-Holds = inl (
  on_text (b'1' ∷ b' ' ∷ b'+' ∷ b'2' ∷ b'*' ∷ b'3' ∷ b';' ∷ []),
  (
    number 0,
    (
      refl,
      (
        on_text (b' ' ∷ b'+' ∷ b'2' ∷ b'*' ∷ b'3' ∷ b';' ∷ []),
        (
          (λ b vars out. refl),
          (
            on_text (b'2' ∷ b'*' ∷ b'3' ∷ b';' ∷ []),
            (
              (λ b vars out. refl),
              (
                on_text (b'*' ∷ b'3' ∷ b';' ∷ []),
                (
                  (λ b vars out. refl),
                  (
                    on_text (b'3' ∷ b';' ∷ []),
                    (
                      (λ b vars out. refl),
                      (
                        on_text (b';' ∷ []),
                        ((λ b vars out. refl), (on_text [], ((λ b vars out. refl), tt))),
                      ),
                    ),
                  ),
                ),
              ),
            ),
          ),
        ),
      ),
    ),
  ),
)

seven_value : value_sum [] seven ≡ ok 7 tt
unfolding value_sum
seven_value = refl

expression-value_sum_example :
    EndsAs [] [] (expression 20 on_seven) (value_sum [] seven) (print ∷ [])
expression-value_sum_example =
    expression-value_sum [] [] 20 seven print [] on_seven refl refl (omega arith) seven-Holds

-- `7 % 4 * 2` is 7 % (4 * 2)
modulo_of_product :
    value_sum {D = ℕ} [] (
      sum
        (product
          (literal 7)
          (modulo_product (product (literal 4) (times_primary (literal 2) no_factor))))
        no_addend)
    ≡ ok 7 tt
unfolding value_sum remainder remainder_overflows
modulo_of_product = refl

-- the left operand of `%` is converted before the right one is read
conversion_first :
    value_sum {D = ℕ} [] (
      sum
        (product (literal 3000000000) (modulo_product (product (variable (b'y' ∷ [])) no_factor)))
        no_addend)
    ≡ fault overflow
unfolding value_sum
conversion_first = refl

-- the end of the input without `quit`
read_at_end :
    get {D = ℕ} (state_on (on_text (b' ' ∷ [])) false (number 0) [] []) ≡ fault unassigned_read
unfolding get scan_text read_while
read_at_end = refl

abbrev with_x : Calculator ℕ
with_x = state_on (on_text []) false (number 0) ((b'x' ∷ [], 5) ∷ []) []

x-found : find (b'x' ∷ []) with_x.varmap ≡ some 5
unfolding find same_text
x-found = refl

set_variable-get_variable_example :
    ((set_variable (b'x' ∷ []) 6 >>= λ _. get_variable (b'x' ∷ [])) with_x
      ≡ ok 6 (record with_x { varmap = (b'x' ∷ [], 6) ∷ [] }))
    × ((find {A = ℕ} (b'x' ∷ []) ((b'x' ∷ [], 6) ∷ []) ≡ some 6)
        × (define_variable (b'x' ∷ []) 6 with_x ≡ thrown redefinition with_x))
unfolding overwrite same_text
set_variable-get_variable_example =
    set_variable-get_variable (b'x' ∷ []) (b'x' ∷ []) 6 5 with_x x-found
