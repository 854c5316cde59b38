-- ===== src/PunyPy/Program.antt =====
-- `main`: the loop that reads the productions, the world with its buildin, and what is run.
use always_be_learning.Characters.{Text}
use always_be_learning.Common.{
  ℕ, zero, suc, Bool, false, not, ◌&&◌, [], ◌∷◌, length, if◌then◌else◌, ◌≡◌, refl, ◌<◌,
}
use always_be_learning.PunyPy.Int.{pos}
use always_be_learning.Run.{Run, Cmd, ok, thrown, fault, out_of_fuel, pure, ◌>>=◌}
use always_be_learning.PunyPy.Token.{int}
use always_be_learning.PunyPy.Syntax.{Productions, no_prods, prod}
use always_be_learning.PunyPy.Scanner.{Scanner}
use always_be_learning.PunyPy.Parser.{root}
use always_be_learning.PunyPy.World.{PunyPyWorld, Buildin, Output, set_buildin}
use always_be_learning.PunyPy.Analyzer.{analyze_all}
use always_be_learning.PunyPy.Interpreter.{interpret_all}
use always_be_learning.PunyPy.Sound.{IsSafe}
use always_be_learning.PunyPy.Sound.Interpretation.{analyze_all-interpret_all}

-- `Scanner{src}`
abbrev pub initial : Text → Scanner
initial cs = record { chars = cs; at_eof = false; failed = false; full = false; buffer = int 0 }

-- `Scanner::operator bool`
unfoldable pub good : Scanner → Bool
good s = not s.at_eof && not s.failed

-- the `for` of `main`; an exception of `root` is thrown outside its `try`
unfoldable pub read_program : ℕ → ℕ → Cmd Scanner Productions
unfolding root good
read_program zero fuel = λ _. out_of_fuel
read_program (suc rounds) fuel = do
  p ← root fuel
  λ s.
      if good s
      then (read_program rounds fuel >>= λ ps. pure (prod p ps)) s
      else ok (prod p no_prods) s

-- the lambda that `main` sets as `print`
abbrev pub print_buildin : Buildin
print_buildin vals = (vals, pos 0)

abbrev pub print_name : Text
print_name = b'p' ∷ b'r' ∷ b'i' ∷ b'n' ∷ b't' ∷ []

-- `world` of `main`, before the analysis
abbrev pub initial_world : PunyPyWorld
initial_world = record {
  variables = [];
  functions = [];
  buildins = (print_name, print_buildin) ∷ [];
}

pub set_buildin-initial_world :
    set_buildin print_name print_buildin (record { variables = []; functions = []; buildins = [] })
    ≡ ok tt initial_world
unfolding set_buildin
set_buildin-initial_world = refl

-- the world behind the `try` around the analysis
abbrev pub analyzed_world : Run PunyPyWorld (Unit {0}) → PunyPyWorld
analyzed_world (ok a w) = w
analyzed_world (thrown e w) = w
analyzed_world (fault f) = initial_world
analyzed_world out_of_fuel = initial_world

-- the analysis and the interpretation of `main`: the latter also runs when the former has thrown
unfoldable pub run_productions : ℕ → Productions → Run Output (Unit {0})
unfolding analyze_all interpret_all
run_productions fuel ps =
    let w = analyzed_world (analyze_all ps initial_world) in interpret_all fuel w ps []

-- When the analysis of `main` succeeds, its interpretation follows no null function pointer and its
-- calls nest no deeper than there are functions.
pub run_productions-IsSafe :
    (fuel : ℕ) (ps : Productions) (w : PunyPyWorld)
    → analyze_all ps initial_world ≡ ok tt w
    → length w.functions < fuel
    → IsSafe (run_productions fuel ps)
unfolding run_productions
run_productions-IsSafe fuel ps w analyzed deep =
    rw (run_productions, analyzed)
      (analyze_all-interpret_all fuel ps initial_world w [] refl analyzed deep)
