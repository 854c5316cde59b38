-- ===== src/PunyPy/Lexing/Lexemes.antt =====
-- Source text as a list of lexemes: the scanner gives their tokens, then `Eof`, and the parser
-- the production that they spell.
use always_be_learning.Characters.{Text, is_digit, is_alpha, is_blank, read_while, is_nil}
use always_be_learning.Common.{
  ℕ, suc, Bool, true, false, List, [], ◌∷◌, ◌++◌, ◌≡◌, refl, sym, ◌∙◌, inl, arith,
}
use mathlib.Core.List.{append-nil}
use always_be_learning.Run.{ok}
use always_be_learning.PunyPy.Token.{
  Token, def, lparen, rparen, plus, minus, colon, comma, equals, eof, name, int, indent,
}
use always_be_learning.PunyPy.Scanner.{Scanner, scan_other, scan_char, scan, get}
use always_be_learning.PunyPy.Syntax.{Production}
use always_be_learning.PunyPy.Parser.{root}
use always_be_learning.PunyPy.Reading.{Gives, Holds}
use always_be_learning.PunyPy.Print.{print, IsRoot, size, Stops}
use always_be_learning.PunyPy.RoundTrip.Roots.{root-Reads}
use always_be_learning.PunyPy.Lexing.{
  blank-make_kind, blank-classes, Every, Halts, read_while-append,
}
use always_be_learning.PunyPy.Lexing.Tokens.{Spells, fresh, scan-Spells, is_nil-Halts}

-- a token, how it is spelled, and the blanks behind it
pub record Lexeme : Type 0 where
  pub token : Token
  pub spelling : Text
  pub gap : Text

abbrev pub text : List Lexeme → Text
text [] = []
text (l ∷ ls) = l.spelling ++ (l.gap ++ text ls)

-- every lexeme spells its token in front of what follows it
abbrev pub IsSource : List Lexeme → Type 0
IsSource [] = Unit
IsSource (l ∷ ls) =
    Spells l.token l.spelling (l.gap ++ text ls) × (Every is_blank l.gap × IsSource ls)

abbrev pub tokens : List Lexeme → List Token
tokens [] = eof ∷ []
tokens (l ∷ ls) = l.token ∷ tokens ls

word-blank : (c : ℕ) → is_alpha c ≡ true → is_blank c ≡ false
word-blank c h = ground arith

digit-blank : (c : ℕ) → is_digit c ≡ true → is_blank c ≡ false
digit-blank c h = ground arith

-- no token begins with a blank
Spells-Halts : (t : Token) (cs rest : Text) → Spells t cs rest → Halts is_blank (cs ++ rest)
Spells-Halts def cs rest (e, halts) = rw e refl
Spells-Halts lparen cs rest e = rw e refl
Spells-Halts rparen cs rest e = rw e refl
Spells-Halts plus cs rest e = rw e refl
Spells-Halts minus cs rest e = rw e refl
Spells-Halts colon cs rest e = rw e refl
Spells-Halts comma cs rest e = rw e refl
Spells-Halts equals cs rest e = rw e refl
Spells-Halts eof cs rest e = absurd e
Spells-Halts (name []) cs rest (e, ((isword, other), halts)) = absurd isword
Spells-Halts (name (c ∷ s)) cs rest (e, ((isword, other), halts)) = rw e (word-blank c isword.0)
Spells-Halts (int i) [] rest ((isnumber, e), halts) = absurd isnumber
Spells-Halts (int i) (c ∷ cs) rest ((isnumber, e), halts) = digit-blank c isnumber.0.0
Spells-Halts (indent sp) cs rest (e, isindent) = rw e refl

read_while-Every : (p : ℕ → Bool) (cs : Text) → Every p cs → read_while p cs ≡ (cs, [])
unfolding read_while
read_while-Every p [] every = refl
read_while-Every p (c ∷ cs) every = rw (every.0, read_while-Every p cs every.1) refl

-- blanks in front of a token or of the end of the input are skipped
skip_blanks :
    (n : ℕ) (g : ℕ) (cs : Text) (b : Token)
    → is_blank g ≡ true
    → scan (suc n) (fresh (g ∷ cs) b)
      ≡ scan n (record (fresh ((read_while is_blank cs).1) b) {
        at_eof = is_nil (read_while is_blank cs).1;
      })
unfolding scan scan_char scan_other
skip_blanks n g cs b blank =
    let ((no_digit, (no_newline, no_eof)), (no_alpha, space)) = blank-classes g blank in
    rw (scan, scan_char, blank-make_kind g blank, no_digit, no_newline, no_eof, no_alpha, space)
      refl

get-Spells :
    (gap : Text) (t : Token) (cs rest : Text) (b : Token)
    → Every is_blank gap
    → Spells t cs rest
    → get (fresh (gap ++ (cs ++ rest)) b) ≡ ok t (fresh rest b)
unfolding get
get-Spells [] t cs rest b every spells = scan-Spells 2 t cs rest b spells
get-Spells (g ∷ gap) t cs rest b every spells =
    let halts = Spells-Halts t cs rest spells in
    skip_blanks 2 g (gap ++ (cs ++ rest)) b every.0
    ∙ rw
        (
          read_while-append is_blank gap (cs ++ rest) every.1 halts,
          is_nil-Halts is_blank (cs ++ rest) halts,
        )
        (scan-Spells 1 t cs rest b spells)

get-end :
    (gap : Text) (b : Token)
    → Every is_blank gap
    → get (fresh gap b) ≡ ok eof (record (fresh [] b) { at_eof = true; failed = true })
unfolding get scan scan_char
get-end [] b every = refl
get-end (g ∷ gap) b every =
    skip_blanks 2 g gap b every.0 ∙ rw (read_while-Every is_blank gap every.1) refl

-- The scanner gives the tokens of a source text, then `Eof`.
pub text-Gives :
    (gap : Text) (ls : List Lexeme)
    → Every is_blank gap
    → IsSource ls
    → Gives (record { left = gap ++ text ls; ended = false; broken = false }) (tokens ls)
text-Gives gap [] blanks source = (
  record { left = []; ended = true; broken = true },
  ((λ b. rw (append-nil gap) (get-end gap b blanks)), tt),
)
text-Gives gap (l ∷ ls) blanks (spells, (blanks', source)) = (
  record { left = l.gap ++ text ls; ended = false; broken = false },
  (
    (λ b. get-Spells gap l.token l.spelling (l.gap ++ text ls) b blanks spells),
    text-Gives l.gap ls blanks' source,
  ),
)

-- On a source text that begins with the tokens of a production of the grammar, up to a token that
-- does not go on with it, `root` gives the production back, and the rest of the text is left.
pub root-print :
    (p : Production) (gap : Text) (ls : List Lexeme) (t : Token) (ts : List Token)
    → IsRoot p
    → Stops t
    → Every is_blank gap
    → IsSource ls
    → tokens ls ≡ print p (t ∷ ts)
    → (s : Scanner) × ((root (size p) (fresh (gap ++ text ls) (int 0)) ≡ ok p s) × Holds s (t ∷ ts))
root-print p gap ls t ts isroot stops blanks source e =
    (root-Reads (size p) p t ts isroot stops (omega arith)).reads (fresh (gap ++ text ls) (int 0)) (
      inl (
        record { left = gap ++ text ls; ended = false; broken = false },
        (int 0, (refl, rw (sym e) (text-Gives gap ls blanks source))),
      ))
