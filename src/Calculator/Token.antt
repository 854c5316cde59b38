-- ===== src/Calculator/Token.antt =====
-- `TokenKind` and `Token`.
use always_be_learning.Characters.{Text, same_text}
use always_be_learning.Common.{
  ℕ, ◌==◌, Bool, true, false, Option, none, some, [], ◌∷◌, if◌then◌else◌,
}

pub data Token (D : Type 0) : Type 0 where
  number : D → Token D
  name : Text → Token D
  quit print let_key open_paren close_paren plus minus multiply divide modulus equals : Token D

module _ {D : Type 0} where
  abbrev pub is_print : Token D → Bool
  is_print print = true
  is_print _ = false

  -- `Token( TokenKind(ch) )`, for the characters that are kinds
  unfoldable pub token_of : ℕ → Option (Token D)
  token_of c =
      if c == b';'
      then some print
      else if c == b'('
      then some open_paren
      else if c == b')'
      then some close_paren
      else if c == b'+'
      then some plus
      else if c == b'-'
      then some minus
      else if c == b'*'
      then some multiply
      else if c == b'/'
      then some divide
      else if c == b'%'
      then some modulus
      else if c == b'='
      then some equals
      else none

  -- a word: a key or a name
  unfoldable pub word_token : Text → Token D
  word_token s =
      if same_text s (b'l' ∷ b'e' ∷ b't' ∷ [])
      then let_key
      else if same_text s (b'q' ∷ b'u' ∷ b'i' ∷ b't' ∷ [])
      then quit
      else name s
