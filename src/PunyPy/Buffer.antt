-- ===== src/PunyPy/Buffer.antt =====
-- The buffer of one token.
use always_be_learning.Common.{ℕ, true, false, ◌≡◌, refl, inl, inr, Bool-cases, if◌then◌else◌}
use always_be_learning.Run.{Run, ok, thrown, then_run, fault, out_of_fuel, full_buffer, Cmd, ◌>>=◌}
use always_be_learning.PunyPy.Token.{Token, kind}
use always_be_learning.PunyPy.Scanner.{Scanner, get, peek, putback, ignore}
use always_be_learning.PunyPy.Reading.{same_kind_refl}

-- A token that is put back into an empty buffer is the next one, to `get` and to `peek`, and the
-- stream is as before; into a full buffer, `putback` throws and keeps the token that is there.
pub putback-get :
    (s : Scanner) (t : Token)
    → ((putback t >>= λ _. get) s
        ≡ (if s.full then thrown full_buffer s else ok t (record s { full = false; buffer = t })))
      × ((putback t >>= λ _. peek) s
          ≡ (if s.full then thrown full_buffer s else ok t (record s { full = true; buffer = t })))
unfolding putback get peek
putback-get s t = elim (Bool-cases s.full) [
  | inl e ↦ ((rw (putback, e) refl), (rw (putback, e) refl))
  | inr e ↦ ((rw (putback, e) refl), (rw (putback, e) refl))
]

abbrev keep : Token → Cmd Scanner Token
keep t s = ok t (record s { full = true; buffer = t })

abbrev taken : Token → Cmd Scanner Token
taken t s = ok t (record s { full = false; buffer = t })

keep-get : (r : Run Scanner Token) → then_run (then_run r keep) (λ _. get) ≡ then_run r taken
unfolding get
keep-get (ok t s) = refl
keep-get (thrown e s) = refl
keep-get (fault f) = refl
keep-get out_of_fuel = refl

keep-ignore :
    (fuel : ℕ) (r : Run Scanner Token)
    → then_run (then_run r keep) (λ t. ignore fuel (kind t))
      ≡ then_run r (λ t. taken t >>= λ _. λ s. ok tt s)
unfolding ignore
keep-ignore fuel (ok t s) = rw (same_kind_refl (kind t)) refl
keep-ignore fuel (thrown e s) = refl
keep-ignore fuel (fault f) = refl
keep-ignore fuel out_of_fuel = refl

peek-full :
    (s : Scanner)
    → s.full ≡ true
    → (peek s ≡ ok s.buffer s) × (get s ≡ ok s.buffer (record s { full = false }))
unfolding peek get
peek-full s e = (rw (peek, e) refl, rw (get, e) refl)

peek-empty : (s : Scanner) → s.full ≡ false → peek s ≡ then_run (get s) keep
unfolding peek
peek-empty s e = rw (peek, e) refl

-- `get` behind `peek` does what `get` does alone, down to exceptions and undefined behaviour, and
-- leaves the token in the buffer, which is empty; `ignore` of the peeked kind, with any number of
-- rounds, leaves the same state.
pub peek-get :
    (s : Scanner)
    → ((peek >>= λ _. get) s ≡ (get >>= λ t. λ s'. ok t (record s' { full = false; buffer = t })) s)
      × ((fuel : ℕ)
          → (peek >>= λ t. ignore fuel (kind t)) s
            ≡ (get >>= λ t. λ s'. ok tt (record s' { full = false; buffer = t })) s)
unfolding ignore
peek-get s = elim (Bool-cases s.full) [
  | inl e ↦
      let (peeks, gets) = peek-full s e in
      rw (peeks, gets) (refl, (λ fuel. rw (e, same_kind_refl (kind s.buffer)) refl))
  | inr e ↦ rw (peek-empty s e) (keep-get (get s), (λ fuel. keep-ignore fuel (get s)))
]
