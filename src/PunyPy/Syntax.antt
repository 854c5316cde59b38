-- ===== src/PunyPy/Syntax.antt =====
-- `Expression`, `Parameters` and `Production` of Production.h.
use always_be_learning.Characters.{Text}
use always_be_learning.Common.{ℕ, List}

-- `Int_prod`, `Var_prod`, `Plus_prod`
pub data Expression : Type 0 where
  int_prod : ℕ → Expression
  var_prod : Text → Expression
  plus_prod : Expression → Expression → Expression

abbrev pub Parameters : Type 0
Parameters = List Expression

mutual
  -- `Eof_prod`, an expression, `FuncDef_prod`, `Funcbod_prod`, `FuncCall_prod`, `Decl_prod`
  pub data Production : Type 0 where
    eof_prod : Production
    expr_prod : Expression → Production
    funcdef_prod : Text → Parameters → Production → Production
    funcbod_prod : Text → Productions → Production
    funccall_prod : Text → Parameters → Production
    decl_prod : Text → Expression → Production

  -- the list inside `Funcbod_prod`
  pub data Productions : Type 0 where
    no_prods : Productions
    prod : Production → Productions → Productions
