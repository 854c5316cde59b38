-- ===== src/Tests/Programs.antt =====
-- Small programs of PunyPy.
use always_be_learning.Characters.{Text, same_text}
use always_be_learning.Common.{◌≡◌, refl, List, [], ◌∷◌, arith}
use always_be_learning.PunyPy.Int.{pos}
use always_be_learning.Run.{
  ok, thrown, fault, null_function, ◌>>=◌, unassigned_read, bad_production,
}
use always_be_learning.PunyPy.Token.{def, plus, equals, eof, name, int, kind, same_kind, number}
use always_be_learning.PunyPy.Scanner.{Scanner, digits, get}
use always_be_learning.PunyPy.Syntax.{
  int_prod, var_prod, plus_prod, Production, expr_prod, funcdef_prod, funcbod_prod, funccall_prod,
  decl_prod, Productions, no_prods, prod,
}
use always_be_learning.PunyPy.World.{PunyPyWorld}
use always_be_learning.PunyPy.Analyzer.{analyze_all}
use always_be_learning.PunyPy.Sound.{IsSafe}
use always_be_learning.PunyPy.Print.{print, print_expression}
use always_be_learning.PunyPy.Reading.{Holds}
use always_be_learning.PunyPy.Lexing.Lexemes.{Lexeme, text, IsSource, root-print}
use always_be_learning.PunyPy.Lexing.Tokens.{fresh}
use always_be_learning.PunyPy.Parser.{root}
use always_be_learning.PunyPy.Program.{
  initial, initial_world, print_name, run_productions, run_productions-IsSafe,
}
use always_be_learning.PunyPy.Rounds.{IsFinished, get-IsFinished}

abbrev x : Text
x = b'x' ∷ []

abbrev f : Text
f = b'f' ∷ []

-- def f(x): 1 + 2, then f(3), print(4) and x = 5
abbrev calls : Productions
calls =
    prod
      (funcdef_prod f (var_prod x ∷ []) (
        funcbod_prod (b' ' ∷ []) (prod (expr_prod (plus_prod (int_prod 1) (int_prod 2))) no_prods)))
      (prod (funccall_prod f (int_prod 3 ∷ [])) (
        prod (funccall_prod print_name (int_prod 4 ∷ []))
          (prod (decl_prod x (int_prod 5)) no_prods)))

abbrev calls_world : PunyPyWorld
calls_world = record initial_world {
  variables = (x, pos 5) ∷ [];
  functions =
      (
        f,
        record {
          params = var_prod x ∷ [];
          body =
              funcbod_prod (b' ' ∷ [])
                (prod (expr_prod (plus_prod (int_prod 1) (int_prod 2))) no_prods);
        },
      )
      ∷ [];
}

calls_analyzed : analyze_all calls initial_world ≡ ok tt calls_world
unfolding analyze_all same_text
calls_analyzed = refl

calls_printed : run_productions 2 calls ≡ ok tt (pos 4 ∷ [])
unfolding run_productions same_text
calls_printed = refl

run_productions-IsSafe_example : IsSafe (run_productions 2 calls)
run_productions-IsSafe_example =
    run_productions-IsSafe 2 calls calls_world calls_analyzed (omega arith)

-- a function that was not declared: the analysis throws, and the interpretation follows a null pointer
undeclared_call :
    (analyze_all (prod (funccall_prod f []) no_prods) initial_world
      ≡ thrown bad_production initial_world)
    × (run_productions 2 (prod (funccall_prod f []) no_prods) ≡ fault null_function)
unfolding run_productions analyze_all same_text
undeclared_call = (refl, refl)

-- `x = 1 + 2` is refused by the analysis
declared_sum :
    analyze_all (prod (decl_prod x (plus_prod (int_prod 1) (int_prod 2))) no_prods) initial_world
    ≡ thrown bad_production initial_world
unfolding analyze_all same_text
declared_sum = refl

-- the text "x =1+ x def "
abbrev sum_lexemes : List Lexeme
sum_lexemes =
    record { token = name x; spelling = x; gap = b' ' ∷ [] }
    ∷ record { token = equals; spelling = b'=' ∷ []; gap = [] }
    ∷ record { token = int 1; spelling = b'1' ∷ []; gap = [] }
    ∷ record { token = plus; spelling = b'+' ∷ []; gap = b' ' ∷ [] }
    ∷ record { token = name x; spelling = x; gap = b' ' ∷ [] }
    ∷ record { token = def; spelling = b'd' ∷ b'e' ∷ b'f' ∷ []; gap = b' ' ∷ [] }
    ∷ []

sum-IsSource : IsSource sum_lexemes
unfolding digits same_text
sum-IsSource = (
  (refl, (((refl, tt), refl), refl)),
  (
    (refl, tt),
    (
      refl,
      (
        tt,
        (
          ((((refl, tt), refl), refl), refl),
          (
            tt,
            (
              refl,
              (
                (refl, tt),
                (
                  (refl, (((refl, tt), refl), refl)),
                  ((refl, tt), ((refl, refl), ((refl, tt), tt))),
                ),
              ),
            ),
          ),
        ),
      ),
    ),
  ),
)

abbrev sum_declaration : Production
sum_declaration = decl_prod x (plus_prod (int_prod 1) (var_prod x))

root-print_example :
    (s : Scanner) × ((root 3 (fresh (text sum_lexemes) (int 0)) ≡ ok sum_declaration s)
      × Holds s (def ∷ eof ∷ []))
unfolding print print_expression kind same_kind number
root-print_example =
    root-print sum_declaration [] sum_lexemes def (eof ∷ []) (tt, tt) ((refl, refl), refl) tt
      sum-IsSource refl

get-IsFinished_example : IsFinished (get (initial (b' ' ∷ b'\n' ∷ b'x' ∷ [])))
get-IsFinished_example = get-IsFinished (initial (b' ' ∷ b'\n' ∷ b'x' ∷ [])) refl

-- a name at the end of the input leaves a stream on which the next `get` reads what was not assigned
name_at_end : (get >>= λ _. get) (initial x) ≡ fault unassigned_read
unfolding get
name_at_end = refl
