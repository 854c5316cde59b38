-- ===== src/Calculator/Reading.antt =====
-- What a calculator still has to read, and commands that read it and compute a value, or fail as
-- the value does.
use always_be_learning.Characters.{Text}
use always_be_learning.Common.{
  Bool, true, false, Option-cases, List, [], ◌∷◌, ◌≡◌, refl, ap, ◌∙◌, ◌⊎◌, inl, inr,
}
use always_be_learning.Dictionary.{find}
use always_be_learning.Run.{Run, Cmd, ok, thrown, fault, out_of_fuel, pure, ◌>>=◌, ◌>>◌, then_run}
use always_be_learning.Calculator.Double.{Double}
use always_be_learning.Calculator.Token.{Token}
use always_be_learning.Calculator.Stream.{Calculator, get, putback, get_variable}
use always_be_learning.Calculator.Meaning.{lookup}

-- the input stream of a calculator
pub record Source : Type 0 where
  pub left : Text
  pub ended : Bool
  pub broken : Bool

module _ {D : Type 0} where
  abbrev pub state_on : Source → Bool → Token D → List (Text × D) → List D → Calculator D
  state_on src full b vars out = record {
    chars = src.left;
    at_eof = src.ended;
    failed = src.broken;
    full = full;
    buffer = b;
    varmap = vars;
    printed = out;
  }

module _ {D : Type 0} ⦃double : Double D⦄ where
  abbrev pub Gives : Source → List (Token D) → Type 0
  Gives src [] = Unit
  Gives src (t ∷ ts) =
      (src' : Source) × (((b : Token D) (vars : List (Text × D)) (out : List D)
          → get (state_on src false b vars out) ≡ ok t (state_on src' false b vars out))
        × Gives src' ts)

  abbrev pub Unbuffered : List (Text × D) → List D → Calculator D → List (Token D) → Type 0
  Unbuffered vars out s ts =
      (src : Source) × ((b : Token D) × ((s ≡ state_on src false b vars out) × Gives src ts))

  abbrev pub Buffered : List (Text × D) → List D → Calculator D → List (Token D) → Type 0
  Buffered vars out s [] = ⊥
  Buffered vars out s (t ∷ ts) =
      (src : Source) × ((s ≡ state_on src true t vars out) × Gives src ts)

  -- the variables, the printed results and the tokens that are left
  abbrev pub Holds : List (Text × D) → List D → Calculator D → List (Token D) → Type 0
  Holds vars out s ts = Unbuffered vars out s ts ⊎ Buffered vars out s ts

  -- a run ends as `r` does, with the value in a state that holds `ts`
  abbrev pub EndsAs :
      {A : Type 0}
      → List (Text × D)
      → List D
      → Run (Calculator D) A
      → Run (Unit {0}) A
      → List (Token D)
      → Type 0
  EndsAs vars out m (ok a u) ts = (s : Calculator D) × ((m ≡ ok a s) × Holds vars out s ts)
  EndsAs vars out m (thrown e u) ts = (s : Calculator D) × (m ≡ thrown e s)
  EndsAs vars out m (fault f) ts = m ≡ fault f
  EndsAs vars out m out_of_fuel ts = ⊥

  pub record Reads {A : Type 0} (vars : List (Text × D)) (out : List D) (m : Cmd (Calculator D) A)
      (ts : List (Token D)) (r : Run (Unit {0}) A) (us : List (Token D)) : Type 0 where
    pub reads : (s : Calculator D) → Holds vars out s ts → EndsAs vars out (m s) r us

  module _ (vars : List (Text × D)) (out : List D) where
    get_then :
        (m : Token D → Cmd (Calculator D) D) (t : Token D) (ts us : List (Token D))
        (r : Run (Unit {0}) D)
        → ((s : Calculator D) → Unbuffered vars out s ts → EndsAs vars out (m t s) r us)
        → (s : Calculator D) → Holds vars out s (t ∷ ts)
        → EndsAs vars out ((get >>= m) s) r us
    unfolding get
    get_then m t ts us r h s (inl (src, (b, (e, (src', (step, rest)))))) =
        rw (e, step b vars out) (h (state_on src' false b vars out) (src', (b, (refl, rest))))
    get_then m t ts us r h s (inr (src, (e, rest))) =
        rw e (h (state_on src false t vars out) (src, (t, (refl, rest))))

    -- `get`, then what is done with the token
    pub get-Reads :
        (m : Token D → Cmd (Calculator D) D) {t : Token D} {ts us : List (Token D)}
        {r : Run (Unit {0}) D}
        → Reads vars out (m t) ts r us
        → Reads vars out (get >>= m) (t ∷ ts) r us
    get-Reads m {t} {ts} {us} {r} h = record {
      reads = get_then m t ts us r (λ s u. h.reads s (inl u));
    }

    -- a token that is read and put back is left
    pub putback-Reads :
        (m : Token D → Cmd (Calculator D) D) (d : D) (t : Token D) (ts : List (Token D))
        → m t ≡ (putback t >> pure d)
        → Reads vars out (get >>= m) (t ∷ ts) (ok d tt) (t ∷ ts)
    unfolding putback
    putback-Reads m d t ts e = record {
      reads = get_then m t ts (t ∷ ts) (ok d tt) (λ s (src, (b, (e', rest))).
          (state_on src true t vars out, ((rw (e, e') refl), inr (src, (refl, rest)))));
    }

    pub pure-Reads : (d : D) (ts : List (Token D)) → Reads vars out (pure d) ts (ok d tt) ts
    pure-Reads d ts = record { reads = λ s h. (s, (refl, h)) }

    bind_run :
        {A : Type 0} (m : Run (Calculator D) A) (k : A → Cmd (Calculator D) D)
        (r : Run (Unit {0}) A) (r' : A → Run (Unit {0}) D) (us vs : List (Token D))
        → EndsAs vars out m r us
        → ((a : A) → Reads vars out (k a) us (r' a) vs)
        → EndsAs vars out (then_run m k) (then_run r (λ a. λ _. r' a)) vs
    bind_run m k (ok a u) r' us vs (s, (e, h)) hk = rw e ((hk a).reads s h)
    bind_run m k (thrown x u) r' us vs (s, e) hk = (s, rw e refl)
    bind_run m k (fault f) r' us vs e hk = rw e refl
    bind_run m k out_of_fuel r' us vs h hk = absurd h

    pub bind-Reads :
        {A : Type 0} {m : Cmd (Calculator D) A} (k : A → Cmd (Calculator D) D)
        {r : Run (Unit {0}) A} (r' : A → Run (Unit {0}) D) {ts us vs : List (Token D)}
        → Reads vars out m ts r us
        → ((a : A) → Reads vars out (k a) us (r' a) vs)
        → Reads vars out (m >>= k) ts (then_run r (λ a. λ _. r' a)) vs
    bind-Reads {A} {m} k {r} r' {ts} {us} {vs} hm hk = record {
      reads = λ s h. bind_run (m s) k r r' us vs (hm.reads s h) hk;
    }

    varmap-Holds : (s : Calculator D) (ts : List (Token D)) → Holds vars out s ts → s.varmap ≡ vars
    varmap-Holds s ts (inl (src, (b, (e, rest)))) = rw e refl
    varmap-Holds s [] (inr none_left) = absurd none_left
    varmap-Holds s (t ∷ ts) (inr (src, (e, rest))) = rw e refl

    get_variable-EndsAs :
        (name : Text) (ts : List (Token D)) (s : Calculator D)
        → Holds vars out s ts
        → EndsAs vars out (get_variable name s) (lookup vars name) ts
    unfolding get_variable
    get_variable-EndsAs name ts s h = elim (Option-cases (find name vars)) [
      | inl e ↦
          rw (EndsAs, lookup, e)
            (s, rw (get_variable, ap (find name) (varmap-Holds s ts h) ∙ e) refl)
      | inr d ↦
          rw (EndsAs, lookup, d.1)
            (s, ((rw (get_variable, ap (find name) (varmap-Holds s ts h) ∙ d.1) refl), h))
    ]

    pub get_variable-Reads :
        (name : Text) (ts : List (Token D))
        → Reads vars out (get_variable name) ts (lookup vars name) ts
    get_variable-Reads name ts = record { reads = get_variable-EndsAs name ts }
