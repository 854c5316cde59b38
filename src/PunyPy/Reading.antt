-- ===== src/PunyPy/Reading.antt =====
-- What a scanner still has to give, whether or not its buffer is full, and commands that read it.
use always_be_learning.Characters.{Text}
use always_be_learning.Common.{
  ℕ, suc, Bool, true, false, List, [], ◌∷◌, ◌≡◌, refl, ◌⊎◌, inl, inr, ==-refl,
}
use always_be_learning.Run.{Cmd, ok, pure, ◌>>=◌}
use always_be_learning.PunyPy.Token.{Token, Kind, kind, number, same_kind}
use always_be_learning.PunyPy.Scanner.{Scanner, get, peek, ignore, ignore_loop}

-- the input stream of a scanner
pub record Source : Type 0 where
  pub left : Text
  pub ended : Bool
  pub broken : Bool

abbrev pub scanner_on : Source → Bool → Token → Scanner
scanner_on st full b = record {
  chars = st.left;
  at_eof = st.ended;
  failed = st.broken;
  full = full;
  buffer = b;
}

-- `get` takes the tokens off the stream, whatever an empty buffer holds
abbrev pub Gives : Source → List Token → Type 0
Gives st [] = Unit
Gives st (t ∷ ts) =
    (st' : Source) × (((b : Token) → get (scanner_on st false b) ≡ ok t (scanner_on st' false b))
      × Gives st' ts)

-- the tokens that are left, the first of them in a full buffer
abbrev pub Buffered : Scanner → List Token → Type 0
Buffered s [] = ⊥
Buffered s (t ∷ ts) = (st : Source) × ((s ≡ scanner_on st true t) × Gives st ts)

abbrev pub Unbuffered : Scanner → List Token → Type 0
Unbuffered s ts = (st : Source) × ((b : Token) × ((s ≡ scanner_on st false b) × Gives st ts))

abbrev pub Holds : Scanner → List Token → Type 0
Holds s ts = Unbuffered s ts ⊎ Buffered s ts

-- `m` gives `a` and takes the tokens from `ts` down to `us`
abbrev Reading : {A : Type 0} → Cmd Scanner A → List Token → A → List Token → Type 0
Reading m ts a us = (s : Scanner) → Holds s ts → (s' : Scanner) × ((m s ≡ ok a s') × Holds s' us)

pub record Reads {A : Type 0} (m : Cmd Scanner A) (ts : List Token) (a : A) (us : List Token)
    : Type 0 where
  pub reads : Reading m ts a us

get-Reading : (t : Token) (ts : List Token) → Reading get (t ∷ ts) t ts
unfolding get
get-Reading t ts s (inl (st, (b, (e, (st', (step, rest)))))) =
    (scanner_on st' false b, ((rw e (step b)), inl (st', (b, (refl, rest)))))
get-Reading t ts s (inr (st, (e, rest))) =
    (scanner_on st false t, ((rw (e, get) refl), inl (st, (t, (refl, rest)))))

peek-Reading : (t : Token) (ts : List Token) → Reading peek (t ∷ ts) t (t ∷ ts)
unfolding peek get
peek-Reading t ts s (inl (st, (b, (e, (st', (step, rest)))))) =
    (scanner_on st' true t, ((rw (e, peek, step b) refl), inr (st', (refl, rest))))
peek-Reading t ts s (inr (st, (e, rest))) =
    (scanner_on st true t, ((rw (e, peek) refl), inr (st, (refl, rest))))

pub same_kind_refl : (k : Kind) → same_kind k k ≡ true
unfolding same_kind
same_kind_refl k = ==-refl (number k)

ignore-Reading :
    (fuel : ℕ) (t : Token) (ts : List Token) → Reading (ignore (suc fuel) (kind t)) (t ∷ ts) tt ts
unfolding ignore ignore_loop
ignore-Reading fuel t ts s (inl (st, (b, (e, (st', (step, rest)))))) = (
  scanner_on st' false b,
  ((rw (e, step b, same_kind_refl (kind t)) refl), inl (st', (b, (refl, rest)))),
)
ignore-Reading fuel t ts s (inr (st, (e, rest))) =
    (scanner_on st false t, ((rw (e, same_kind_refl (kind t)) refl), inl (st, (t, (refl, rest)))))

pub pure-Reads : {A : Type 0} (a : A) (ts : List Token) → Reads (pure a) ts a ts
pure-Reads a ts = record { reads = λ s h. (s, (refl, h)) }

bind-Reading :
    {A B : Type 0} (m : Cmd Scanner A) (k : A → Cmd Scanner B) {ts us vs : List Token} {a : A}
    {b : B}
    → Reads m ts a us
    → Reads (k a) us b vs
    → Reading (m >>= k) ts b vs
bind-Reading m k hm hk s h =
    let (s', (e, h')) = hm.reads s h in
    let (s'', (e', h'')) = hk.reads s' h' in (s'', ((rw e e'), h''))

pub get-Reads : (t : Token) (ts : List Token) → Reads get (t ∷ ts) t ts
get-Reads t ts = record { reads = get-Reading t ts }

pub peek-Reads : (t : Token) (ts : List Token) → Reads peek (t ∷ ts) t (t ∷ ts)
peek-Reads t ts = record { reads = peek-Reading t ts }

pub peek_at-Reads :
    (ts : List Token) (t : Token) (us : List Token) → ts ≡ t ∷ us → Reads peek ts t ts
peek_at-Reads ts t us e = rw e (peek-Reads t us)

pub ignore-Reads :
    (fuel : ℕ) (t : Token) (ts : List Token) → Reads (ignore (suc fuel) (kind t)) (t ∷ ts) tt ts
ignore-Reads fuel t ts = record { reads = ignore-Reading fuel t ts }

pub bind-Reads :
    {A B : Type 0} {m : Cmd Scanner A} (k : A → Cmd Scanner B) {ts us vs : List Token} {a : A}
    {b : B}
    → Reads m ts a us
    → Reads (k a) us b vs
    → Reads (m >>= k) ts b vs
bind-Reads {m = m} k hm hk = record { reads = bind-Reading m k hm hk }
