-- ===== src/PunyPy/Sound.antt =====
-- What the analyzer promises of the interpreter: the calls of an analyzed program find their
-- functions, and they end.
pub mod Layers
pub mod Analysis
pub mod Interpretation
use always_be_learning.Dictionary.{find}
use always_be_learning.Characters.{Text, same_text}
use always_be_learning.Common.{
  ℕ, zero, suc, ◌<◌, ◌≤◌, Option, none, some, List, [], ◌∷◌, length, Bool, true, false, Bool-cases,
  Option-cases, if◌then◌else◌, ◌≡◌, refl, sym, ap, ◌∙◌, ◌⊎◌, inl, inr, arith,
}
use always_be_learning.PunyPy.Int.{ℤ, pos}
use always_be_learning.Run.{
  Run, Cmd, ok, thrown, fault, overflow, null_function, unassigned_read, out_of_fuel, pure, throw,
  then_run, ◌>>=◌, ◌>>◌, bad_production,
}
use always_be_learning.PunyPy.Syntax.{
  Expression, int_prod, var_prod, plus_prod, Parameters, Production, eof_prod, expr_prod,
  funcdef_prod, funcbod_prod, funccall_prod, decl_prod, Productions, no_prods, prod,
}
use always_be_learning.PunyPy.World.{
  Function, PunyPyWorld, Buildin, Output, get_var, set_var, get_func, set_func, get_buildin,
}

-- a list of functions has everything that another one has
abbrev pub Extends : List (Text × Function) → List (Text × Function) → Type 0
Extends fs gs = (s : Text) (f : Function) → find s fs ≡ some f → find s gs ≡ some f

-- `s` is the name of a buildin or of a function
abbrev pub Callable : List (Text × Buildin) → List (Text × Function) → Text → Type 0
Callable bs fs s = ((b : Buildin) × (find s bs ≡ some b)) ⊎ ((f : Function) × (find s fs ≡ some f))

abbrev mutual
  -- every call in a production is one of a callable name
  pub Closed : List (Text × Buildin) → List (Text × Function) → Production → Type 0
  Closed bs fs eof_prod = Unit
  Closed bs fs (expr_prod e) = Unit
  Closed bs fs (funcdef_prod s params body) = Unit
  Closed bs fs (funcbod_prod indent ps) = AllClosed bs fs ps
  Closed bs fs (funccall_prod s params) = Callable bs fs s
  Closed bs fs (decl_prod s val) = Unit

  pub AllClosed : List (Text × Buildin) → List (Text × Function) → Productions → Type 0
  AllClosed bs fs no_prods = Unit
  AllClosed bs fs (prod p ps) = Closed bs fs p × AllClosed bs fs ps

-- every function calls only functions that were declared before it, and no name is declared twice
abbrev pub IsLayered : List (Text × Buildin) → List (Text × Function) → Type 0
IsLayered bs [] = Unit
IsLayered bs (entry ∷ fs) = Closed bs fs entry.1.body × ((find entry.0 fs ≡ none) × IsLayered bs fs)

-- a run that does not follow a null pointer and does not run out of calls, and whose value has `P`
abbrev pub Ends {ℓ} : {S : Type 0} {A : Type ℓ} → Run S A → (A → Type 0) → Type 0
Ends (ok a s) P = P a
Ends (thrown e s) P = Unit
Ends (fault null_function) P = ⊥
Ends (fault unassigned_read) P = ⊥
Ends (fault overflow) P = Unit
Ends out_of_fuel P = ⊥

abbrev pub IsSafe {ℓ} : {S : Type 0} {A : Type ℓ} → Run S A → Type 0
IsSafe r = Ends r (λ _. Unit)

-- the state that a run reaches when it does not throw has `P`
abbrev pub IfOk {ℓ} : {S : Type 0} {A : Type ℓ} → Run S A → (S → Type 0) → Type 0
IfOk (ok a s) P = P s
IfOk (thrown e s) P = Unit
IfOk (fault f) P = Unit
IfOk out_of_fuel P = Unit

pub Ends-then_run {ℓ κ} :
    {S : Type 0} {A : Type ℓ} {B : Type κ} (r : Run S A) (k : A → Cmd S B) (P : A → Type 0)
    (Q : B → Type 0)
    → Ends r P
    → ((a : A) (s : S) → P a → Ends (k a s) Q)
    → Ends (then_run r k) Q
Ends-then_run (ok a s) k P Q h hk = hk a s h
Ends-then_run (thrown e s) k P Q h hk = tt
Ends-then_run (fault null_function) k P Q h hk = h
Ends-then_run (fault unassigned_read) k P Q h hk = h
Ends-then_run (fault overflow) k P Q h hk = tt
Ends-then_run out_of_fuel k P Q h hk = h

pub IfOk-then_run {ℓ κ} :
    {S : Type 0} {A : Type ℓ} {B : Type κ} (r : Run S A) (k : A → Cmd S B) (P Q : S → Type 0)
    → IfOk r P
    → ((a : A) (s : S) → P s → IfOk (k a s) Q)
    → IfOk (then_run r k) Q
IfOk-then_run (ok a s) k P Q h hk = hk a s h
IfOk-then_run (thrown e s) k P Q h hk = tt
IfOk-then_run (fault f) k P Q h hk = tt
IfOk-then_run out_of_fuel k P Q h hk = tt

pub IfOk-weaken {ℓ} :
    {S : Type 0} {A : Type ℓ} (r : Run S A) (P Q : S → Type 0)
    → IfOk r P
    → ((s : S) → P s → Q s)
    → IfOk r Q
IfOk-weaken (ok a s) P Q h hk = hk s h
IfOk-weaken (thrown e s) P Q h hk = tt
IfOk-weaken (fault f) P Q h hk = tt
IfOk-weaken out_of_fuel P Q h hk = tt
