-- ===== src/Calculator/Operators.antt =====
-- The operators `/` and `%` of Parsers/Calculator/Calculator.cpp: the division, and the remainder with its
-- conversions.
use always_be_learning.Characters.{Text}
use always_be_learning.Common.{Bool-cases, Option-cases, none, some, List, refl, inl, inr}
use always_be_learning.PunyPy.Int.{ℤ}
use always_be_learning.Calculator.Double.{Double}
use always_be_learning.Calculator.Token.{Token}
use always_be_learning.Calculator.Stream.{Calculator}
use always_be_learning.Run.{Run, Cmd, fault, overflow}
use always_be_learning.Calculator.Evaluator.{
  modulo_int, modulo_by, modulo, divide_by, remainder, remainder_overflows, is_zero_int,
}
use always_be_learning.Calculator.Meaning.{value_quotient, value_remainder_int, value_remainder}
use always_be_learning.Calculator.Reading.{Reads, pure-Reads, bind-Reads}

module _ {D : Type 0} ⦃double : Double D⦄ where
  module _ (vars : List (Text × D)) (out : List D) where
    pub divide_by-Reads :
        (left d : D) (ts : List (Token D))
        → Reads vars out (divide_by left d) ts (value_quotient left d) ts
    unfolding divide_by value_quotient
    divide_by-Reads left d ts = elim (Bool-cases (double.is_zero d)) [
      | inl e ↦ rw (divide_by, value_quotient, e) (record { reads = λ s h. (s, refl) })
      | inr e ↦ rw (divide_by, value_quotient, e) (pure-Reads vars out (double.divide left d) ts)
    ]

    modulo_int-Reads :
        (i j : ℤ) (ts : List (Token D))
        → Reads {A = D} vars out (modulo_int i j) ts (value_remainder_int i j) ts
    unfolding modulo_int value_remainder_int
    modulo_int-Reads i j ts = elim (Bool-cases (is_zero_int j)) [
      | inl e ↦ rw (modulo_int, value_remainder_int, e) (record { reads = λ s h. (s, refl) })
      | inr e ↦ elim (Bool-cases (remainder_overflows i j)) [
        | inl e' ↦ rw (modulo_int, value_remainder_int, e, e') (record { reads = λ s h. refl })
        | inr e' ↦
            rw (modulo_int, value_remainder_int, e, e')
              (pure-Reads vars out (double.of_int (remainder i j)) ts)
      ]
    ]

    -- the value of `%` behind a left operand that is converted
    abbrev remainder_by : ℤ → D → Run (Unit {0}) D
    remainder_by i d = elim (double.to_int d) [
      | none ↦ fault overflow
      | some j ↦ value_remainder_int i j
    ]

    modulo_by-Reads :
        (i : ℤ) (right : D) (ts : List (Token D))
        → Reads vars out (modulo_by i right) ts (remainder_by i right) ts
    unfolding modulo_by
    modulo_by-Reads i right ts = elim (Option-cases (double.to_int right)) [
      | inl e ↦ rw (modulo_by, remainder_by, e) (record { reads = λ s h. refl })
      | inr j ↦ rw (modulo_by, remainder_by, j.1) (modulo_int-Reads i j.0 ts)
    ]

    pub modulo-Reads :
        (left : D) {term : Cmd (Calculator D) D} {r : Run (Unit {0}) D} {ts us : List (Token D)}
        → Reads vars out term ts r us
        → Reads vars out (modulo term left) ts (value_remainder left r) us
    unfolding modulo value_remainder
    modulo-Reads left {us = us} h = elim (Option-cases (double.to_int left)) [
      | inl e ↦ rw (modulo, value_remainder, e) (record { reads = λ s k. refl })
      | inr i ↦
          rw (modulo, value_remainder, i.1)
            (bind-Reads vars out (modulo_by i.0) (λ right. remainder_by i.0 right) h
              (λ right. modulo_by-Reads i.0 right us))
    ]
