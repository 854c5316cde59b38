-- ===== src/PunyPy/Token.antt =====
-- `Kind` and `Token` of Token.h. A string is the list of its character codes.
use always_be_learning.Characters.{Text}
use always_be_learning.Common.{ℕ, Bool, ◌==◌, Option, none, some, if◌then◌else◌}

pub data Kind : Type 0 where
  def_kind name_kind int_kind lparen_kind rparen_kind plus_kind minus_kind : Kind
  colon_kind comma_kind equals_kind indent_kind eof_kind : Kind

pub data Token : Type 0 where
  def lparen rparen plus minus colon comma equals eof : Token
  name : Text → Token
  int : ℕ → Token
  indent : Text → Token

unfoldable pub kind : Token → Kind
kind def = def_kind
kind lparen = lparen_kind
kind rparen = rparen_kind
kind plus = plus_kind
kind minus = minus_kind
kind colon = colon_kind
kind comma = comma_kind
kind equals = equals_kind
kind eof = eof_kind
kind (name s) = name_kind
kind (int i) = int_kind
kind (indent s) = indent_kind

-- the number of an enumerator
unfoldable pub number : Kind → ℕ
number def_kind = 0
number name_kind = 1
number int_kind = 2
number lparen_kind = 3
number rparen_kind = 4
number plus_kind = 5
number minus_kind = 6
number colon_kind = 7
number comma_kind = 8
number equals_kind = 9
number indent_kind = 10
number eof_kind = 11

unfoldable pub same_kind : Kind → Kind → Bool
unfolding number
same_kind a b = number a == number b

-- `make_kind`, for the characters that are tokens by themselves
unfoldable pub make_kind : ℕ → Option Token
make_kind c =
    if c == b'('
    then some lparen
    else if c == b')'
    then some rparen
    else if c == b'+'
    then some plus
    else if c == b'-'
    then some minus
    else if c == b':'
    then some colon
    else if c == b','
    then some comma
    else if c == b'='
    then some equals
    else none
