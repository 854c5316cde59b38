-- ===== src/PunyPy/World.antt =====
-- `PunyPyWorld` and `Function`. An `unordered_map` by name is an association list, newest first.
use always_be_learning.Dictionary.{find, overwrite}
use always_be_learning.Characters.{Text}
use always_be_learning.Common.{Option, true, false, none, some, List, ◌∷◌, Bool}
use always_be_learning.PunyPy.Int.{ℤ, pos}
use always_be_learning.Run.{Cmd, ok, thrown, bad_declaration}
use always_be_learning.PunyPy.Syntax.{Parameters, Production}

-- the parameters and the body of the `FuncDef_prod` that a `Function` holds
pub record Function : Type 0 where
  pub params : Parameters
  pub body : Production

-- the numbers that a run has printed
abbrev pub Output : Type 0
Output = List ℤ

-- a `std::function<int(const std::vector<int>&)>`, with what it prints
abbrev pub Buildin : Type 0
Buildin = List ℤ → Output × ℤ

pub record PunyPyWorld : Type 0 where
  pub variables : List (Text × ℤ)
  pub functions : List (Text × Function)
  pub buildins : List (Text × Buildin)

unfoldable pub get_var : Text → PunyPyWorld → ℤ × Bool
unfolding find
get_var name w = elim (find name w.variables) [ some val ↦ (val, true) | none ↦ (pos 0, false) ]

unfoldable pub set_var : Text → ℤ → PunyPyWorld → PunyPyWorld
unfolding find overwrite
set_var name val w = elim (find name w.variables) [
  | some old ↦ record w { variables = overwrite name val w.variables }
  | none ↦ record w { variables = (name, val) ∷ w.variables }
]

unfoldable pub get_func : Text → PunyPyWorld → Option Function
unfolding find
get_func name w = find name w.functions

unfoldable pub set_func : Text → Function → Cmd PunyPyWorld (Unit {0})
unfolding find
set_func name f w = elim (find name w.functions) [
  | some old ↦ thrown bad_declaration w
  | none ↦ ok tt (record w { functions = (name, f) ∷ w.functions })
]

unfoldable pub get_buildin : Text → PunyPyWorld → Option Buildin
unfolding find
get_buildin name w = find name w.buildins

unfoldable pub set_buildin : Text → Buildin → Cmd PunyPyWorld (Unit {0})
unfolding find
set_buildin name f w = elim (find name w.buildins) [
  | some old ↦ thrown bad_declaration w
  | none ↦ ok tt (record w { buildins = (name, f) ∷ w.buildins })
]
