-- ===== src/PunyPy/Lexing/Tokens.antt =====
-- Spellings of tokens, and the tokens that the scanner gives for them.
use always_be_learning.Characters.{
  Text, same_text, is_digit, is_alpha, is_space, is_word, is_newline, read_while, is_nil,
}
use always_be_learning.Common.{
  ℕ, suc, Bool, true, false, ltb, some, [], ◌∷◌, ◌++◌, ◌≡◌, refl, sym, ◌∙◌,
}
use always_be_learning.PunyPy.Int.{int_max}
use always_be_learning.Run.{ok}
use always_be_learning.PunyPy.Token.{
  Token, def, lparen, rparen, plus, minus, colon, comma, equals, eof, name, int, indent, make_kind,
}
use always_be_learning.PunyPy.Scanner.{
  Scanner, digits, word, unread, scan_int, scan_word, scan_line, scan_other, scan_char, scan,
}
use always_be_learning.PunyPy.Reading.{scanner_on}
use always_be_learning.PunyPy.Lexing.{
  letter-make_kind, digit-make_kind, alpha-classes, Every, Halts, read_while-append,
}

-- a word of the alphabet: a letter, then letters, digits and underscores
abbrev pub IsWord : Text → Type 0
IsWord [] = ⊥
IsWord (c ∷ cs) = (is_alpha c ≡ true) × Every is_word cs

-- an indent: blanks that do not begin with a newline
abbrev pub IsIndent : Text → Type 0
IsIndent [] = ⊥
IsIndent (c ∷ cs) = ((is_space c ≡ true) × (is_newline c ≡ false)) × Every is_space cs

-- digits of an `int`
abbrev pub IsNumber : Text → Type 0
IsNumber [] = ⊥
IsNumber (c ∷ cs) = (Every is_digit (c ∷ cs) × (ltb int_max (digits 0 (c ∷ cs)) ≡ false))

-- `cs` spells the token in front of `rest`
abbrev pub Spells : Token → Text → Text → Type 0
Spells def cs rest = (cs ≡ b'd' ∷ b'e' ∷ b'f' ∷ []) × Halts is_word rest
Spells lparen cs rest = cs ≡ b'(' ∷ []
Spells rparen cs rest = cs ≡ b')' ∷ []
Spells plus cs rest = cs ≡ b'+' ∷ []
Spells minus cs rest = cs ≡ b'-' ∷ []
Spells colon cs rest = cs ≡ b':' ∷ []
Spells comma cs rest = cs ≡ b',' ∷ []
Spells equals cs rest = cs ≡ b'=' ∷ []
Spells eof cs rest = ⊥
Spells (name s) cs rest =
    (cs ≡ s) × ((IsWord s × (same_text s (b'd' ∷ b'e' ∷ b'f' ∷ []) ≡ false)) × Halts is_word rest)
Spells (int i) cs rest = (IsNumber cs × (digits 0 cs ≡ i)) × Halts is_digit rest
Spells (indent sp) cs rest = (cs ≡ b'\n' ∷ sp) × (IsIndent sp × Halts is_space rest)

abbrev pub fresh : Text → Token → Scanner
fresh cs b = scanner_on (record { left = cs; ended = false; broken = false }) false b

-- A loop that ends before the end of the input leaves the stream in order.
unread-Halts :
    (p : ℕ → Bool) (cs ds : Text) (b : Token) → Halts p ds → unread ds (fresh cs b) ≡ fresh ds b
unfolding unread
unread-Halts p cs [] b halts = absurd halts
unread-Halts p cs (d ∷ ds) b halts = refl

pub is_nil-Halts : (p : ℕ → Bool) (ds : Text) → Halts p ds → is_nil ds ≡ false
is_nil-Halts p [] halts = absurd halts
is_nil-Halts p (d ∷ ds) halts = refl

scan-word :
    (n : ℕ) (c : ℕ) (cs rest : Text) (b : Token)
    → IsWord (c ∷ cs)
    → Halts is_word rest
    → scan (suc n) (fresh (c ∷ cs ++ rest) b) ≡ ok (word (c ∷ cs)) (fresh rest b)
unfolding scan scan_char scan_other scan_word
scan-word n c cs rest b (alpha, every) halts =
    let (no_digit, (no_newline, no_eof)) = alpha-classes c alpha in
    rw
      (
        scan,
        scan_char,
        letter-make_kind c alpha,
        no_digit,
        no_newline,
        no_eof,
        alpha,
        read_while-append is_word cs rest every halts,
        unread-Halts is_word (c ∷ cs ++ rest) rest b halts,
      )
      refl

scan_int-append :
    (ds rest cs : Text) (b : Token)
    → Every is_digit ds
    → ltb int_max (digits 0 ds) ≡ false
    → Halts is_digit rest
    → scan_int (ds ++ rest) (fresh cs b) ≡ ok (int (digits 0 ds)) (fresh rest b)
unfolding scan_int
scan_int-append ds rest cs b every in_range halts =
    rw
      (
        scan_int,
        read_while-append is_digit ds rest every halts,
        in_range,
        is_nil-Halts is_digit rest halts,
      )
      refl

scan-number :
    (n : ℕ) (c : ℕ) (cs rest : Text) (b : Token)
    → IsNumber (c ∷ cs)
    → Halts is_digit rest
    → scan (suc n) (fresh (c ∷ cs ++ rest) b) ≡ ok (int (digits 0 (c ∷ cs))) (fresh rest b)
unfolding scan scan_char scan_other
scan-number n c cs rest b (every, in_range) halts =
    rw (scan, scan_char, digit-make_kind c every.0, every.0)
      (scan_int-append (c ∷ cs) rest (c ∷ cs ++ rest) b every in_range halts)

scan-indent :
    (n : ℕ) (sp rest : Text) (b : Token)
    → IsIndent sp
    → Halts is_space rest
    → scan (suc n) (fresh (b'\n' ∷ sp ++ rest) b) ≡ ok (indent sp) (fresh rest b)
unfolding scan scan_char scan_other scan_line make_kind read_while
scan-indent n [] rest b isindent halts = absurd isindent
scan-indent n (c ∷ cs) rest b ((space, no_newline), every) halts =
    rw
      (
        no_newline,
        space,
        read_while-append is_space cs rest every halts,
        unread-Halts is_space (b'\n' ∷ c ∷ cs ++ rest) rest b halts,
      )
      refl

-- one of the characters that are tokens by themselves
scan-char :
    (n : ℕ) (c : ℕ) (t : Token) (rest : Text) (b : Token)
    → make_kind c ≡ some t
    → scan (suc n) (fresh (c ∷ rest) b) ≡ ok t (fresh rest b)
unfolding scan scan_char
scan-char n c t rest b e = rw (scan, scan_char, e) refl

-- With no blank in front, the scanner gives the token that is spelled.
pub scan-Spells :
    (n : ℕ) (t : Token) (cs rest : Text) (b : Token)
    → Spells t cs rest
    → scan (suc n) (fresh (cs ++ rest) b) ≡ ok t (fresh rest b)
unfolding make_kind word same_text
scan-Spells n def cs rest b (e, halts) =
    rw e (scan-word n b'd' (b'e' ∷ b'f' ∷ []) rest b (refl, (refl, (refl, tt))) halts)
scan-Spells n lparen cs rest b e = rw e (scan-char n b'(' lparen rest b refl)
scan-Spells n rparen cs rest b e = rw e (scan-char n b')' rparen rest b refl)
scan-Spells n plus cs rest b e = rw e (scan-char n b'+' plus rest b refl)
scan-Spells n minus cs rest b e = rw e (scan-char n b'-' minus rest b refl)
scan-Spells n colon cs rest b e = rw e (scan-char n b':' colon rest b refl)
scan-Spells n comma cs rest b e = rw e (scan-char n b',' comma rest b refl)
scan-Spells n equals cs rest b e = rw e (scan-char n b'=' equals rest b refl)
scan-Spells n eof cs rest b e = absurd e
scan-Spells n (name []) cs rest b (e, ((isword, other), halts)) = absurd isword
scan-Spells n (name (c ∷ s)) cs rest b (e, ((isword, other), halts)) =
    rw e (scan-word n c s rest b isword halts ∙ name_word)
  where
    name_word : ok (word (c ∷ s)) (fresh rest b) ≡ ok (name (c ∷ s)) (fresh rest b)
    name_word = rw (word, other) refl
scan-Spells n (int i) [] rest b ((isnumber, e), halts) = absurd isnumber
scan-Spells n (int i) (c ∷ cs) rest b ((isnumber, e), halts) =
    rw (sym e) (scan-number n c cs rest b isnumber halts)
scan-Spells n (indent sp) cs rest b (e, (isindent, halts)) =
    rw e (scan-indent n sp rest b isindent halts)
