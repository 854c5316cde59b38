-- ===== src/PunyPy/Lexing.antt =====
-- The classes of characters that the scanner tells apart.
pub mod Tokens
pub mod Lexemes
use always_be_learning.Characters.{
  Text, is_digit, is_alpha, is_space, is_word, is_newline, is_blank, read_while,
}
use always_be_learning.Common.{
  ℕ, zero, suc, ◌+◌, ◌<◌, ◌≤◌, Bool, true, false, not, ◌&&◌, ◌||◌, ◌==◌, ltb, Option, none, some,
  List, [], ◌∷◌, ◌++◌, ◌≡◌, ◌≢◌, refl, sym, ap, ◌∙◌, ◌⊎◌, inl, inr, if◌then◌else◌, arith,
  Bool-cases,
}
use always_be_learning.PunyPy.Token.{make_kind}

-- characters that are no tokens by themselves
pub letter-make_kind : (c : ℕ) → is_alpha c ≡ true → make_kind c ≡ none
unfolding make_kind
letter-make_kind c h = ground arith

pub digit-make_kind : (c : ℕ) → is_digit c ≡ true → make_kind c ≡ none
unfolding make_kind
digit-make_kind c h = ground arith

pub blank-make_kind : (c : ℕ) → is_blank c ≡ true → make_kind c ≡ none
unfolding make_kind
blank-make_kind c h = ground arith

-- the classes are disjoint
pub alpha-classes :
    (c : ℕ)
    → is_alpha c ≡ true
    → (is_digit c ≡ false) × ((is_newline c ≡ false) × ((c == 255) ≡ false))
alpha-classes c h = (ground arith, (ground arith, ground arith))

pub blank-classes :
    (c : ℕ)
    → is_blank c ≡ true
    → ((is_digit c ≡ false) × ((is_newline c ≡ false) × ((c == 255) ≡ false)))
      × ((is_alpha c ≡ false) × (is_space c ≡ true))
blank-classes c h = ((ground arith, (ground arith, ground arith)), (ground arith, ground arith))

-- every character of a text has `p`
abbrev pub Every : (ℕ → Bool) → Text → Type 0
Every p [] = Unit
Every p (c ∷ cs) = (p c ≡ true) × Every p cs

-- a text whose first character ends a loop of `p`
abbrev pub Halts : (ℕ → Bool) → Text → Type 0
Halts p [] = ⊥
Halts p (c ∷ cs) = p c ≡ false

-- a loop reads the characters up to the first that ends it
pub read_while-append :
    (p : ℕ → Bool) (cs ds : Text) → Every p cs → Halts p ds → read_while p (cs ++ ds) ≡ (cs, ds)
unfolding read_while
read_while-append p [] [] every halts = absurd halts
read_while-append p [] (d ∷ ds) every halts = rw halts refl
read_while-append p (c ∷ cs) ds every halts =
    rw (every.0, read_while-append p cs ds every.1 halts) refl
