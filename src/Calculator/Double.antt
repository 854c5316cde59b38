-- ===== src/Calculator/Double.antt =====
-- The arithmetic of `double`, and `source_ >> val`.
use always_be_learning.Characters.{Text}
use always_be_learning.Common.{Bool, Option}
use always_be_learning.PunyPy.Int.{ℤ}

-- `to_int` is the conversion to `int`, without a value out of its range; `read` gives the value, the
-- text behind it and whether it was read.
pub record Double (D : Type 0) : Type 0 where
  pub add : D → D → D
  pub subtract : D → D → D
  pub multiply : D → D → D
  pub divide : D → D → D
  pub negate : D → D
  pub is_zero : D → Bool
  pub to_int : D → Option ℤ
  pub of_int : ℤ → D
  pub read : Text → D × Text × Bool
  pub pi : D
  pub euler : D
