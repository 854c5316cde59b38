-- ===== src/Run.antt =====
-- The runs of code that reads and writes a state `S` and that can throw.

-- `std::runtime_error` at a character, `std::logic_error` of `putback`; the exceptions of PunyPy:
-- `Bad_token`, `Bad_production`, `Bad_declaration`; and the `std::runtime_error` of the calculator
pub data Error : Type 0 where
  invalid_token full_buffer bad_token bad_production bad_declaration : Error
  redefinition undefined_variable divide_by_zero : Error
  name_expected equals_missing paren_expected primary_expected : Error

-- undefined behaviour: a character that was never assigned is read, a null `Function*` is followed,
-- an `int` overflows
pub data Fault : Type 0 where
  unassigned_read null_function overflow : Fault

-- A run ends with a value, with an exception, at undefined behaviour, or out of the rounds or calls
-- that it was given.
pub data Run {ℓ} (S : Type 0) (A : Type ℓ) : Type ℓ where
  ok : A → S → Run S A
  thrown : Error → S → Run S A
  fault : Fault → Run S A
  out_of_fuel : Run S A

abbrev pub Cmd {ℓ} : Type 0 → Type ℓ → Type ℓ
Cmd S A = S → Run S A

abbrev pub pure {ℓ} : {S : Type 0} {A : Type ℓ} → A → Cmd S A
pure a s = ok a s

abbrev pub throw {ℓ} : {S : Type 0} {A : Type ℓ} → Error → Cmd S A
throw e s = thrown e s

abbrev pub then_run {ℓ κ} :
    {S : Type 0} {A : Type ℓ} {B : Type κ} → Run S A → (A → Cmd S B) → Run S B
then_run (ok a s) k = k a s
then_run (thrown e s) k = thrown e s
then_run (fault f) k = fault f
then_run out_of_fuel k = out_of_fuel

infixl 5 ◌>>=◌ ◌>>◌
abbrev pub ◌>>=◌ {ℓ κ} : {S : Type 0} {A : Type ℓ} {B : Type κ} → Cmd S A → (A → Cmd S B) → Cmd S B
◌>>=◌ m k s = then_run (m s) k

abbrev pub ◌>>◌ {ℓ κ} : {S : Type 0} {A : Type ℓ} {B : Type κ} → Cmd S A → Cmd S B → Cmd S B
◌>>◌ m n = m >>= λ _. n
