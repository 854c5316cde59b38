-- ===== src/PunyPy/Scanner.antt =====
-- `Scanner` over an input stream. The stream is the characters that are left and its `eofbit` and
-- `failbit`; the character classes are those of the "C" locale.
use always_be_learning.Characters.{
  Text, same_text, is_digit, is_alpha, is_space, is_word, is_newline, is_blank, read_while, is_nil,
}
use always_be_learning.Common.{
  ℕ, zero, suc, ◌+◌, ◌-◌, ◌*◌, Bool, true, false, ◌&&◌, ◌==◌, ltb, none, some, [], ◌∷◌,
  if◌then◌else◌,
}
use always_be_learning.PunyPy.Int.{int_max}
use always_be_learning.Run.{
  invalid_token, full_buffer, unassigned_read, Run, ok, thrown, fault, out_of_fuel, Cmd, pure,
  ◌>>=◌,
}
use always_be_learning.PunyPy.Token.{
  Kind, Token, def, eof, name, int, indent, kind, same_kind, make_kind,
}

-- `source_`, `full_`, `buffer_`
pub record Scanner : Type 0 where
  pub chars : Text
  pub at_eof : Bool
  pub failed : Bool
  pub full : Bool
  pub buffer : Token

-- `source_.putback(ch)` behind a loop that has read one character too many. At the end of the
-- input the loop has set both bits, and `putback` takes back the `eofbit` alone.
unfoldable pub unread : Text → Scanner → Scanner
unread cs s = record s { chars = cs; failed = is_nil cs }

-- the value of digits, `source_ >> val`
unfoldable pub digits : ℕ → Text → ℕ
digits n [] = n
digits n (c ∷ cs) = digits (n * 10 + (c - b'0')) cs

-- `source_ >> val`: a number out of range sets the `failbit` and gives the greatest `int`
unfoldable pub scan_int : Text → Scanner → Run Scanner Token
unfolding read_while digits
scan_int cs s =
    let r = read_while is_digit cs in
    let val = digits 0 r.0 in
    let over = ltb int_max val in
    ok (int (if over then int_max else val))
      (record s { chars = r.1; at_eof = is_nil r.1; failed = over })

-- a name or the keyword
unfoldable pub word : Text → Token
unfolding same_text
word cs = if same_text cs (b'd' ∷ b'e' ∷ b'f' ∷ []) then def else name cs

unfoldable pub scan_word : ℕ → Text → Scanner → Run Scanner Token
unfolding read_while word unread
scan_word c cs s = let r = read_while is_word cs in ok (word (c ∷ r.0)) (unread r.1 s)

-- behind the newlines: an indent, or the next token
unfoldable pub scan_line : Cmd Scanner Token → Text → Scanner → Run Scanner Token
unfolding read_while unread
scan_line again [] s = ok eof (record s { chars = []; at_eof = true; failed = true })
scan_line again (c ∷ cs) s =
    let r = read_while is_space cs in
    if is_space c then ok (indent (c ∷ r.0)) (unread r.1 s) else again (record s { chars = c ∷ cs })

-- the branches of `get` for a character that is no token by itself; `again` is the call of `get`
unfoldable pub scan_other : Cmd Scanner Token → ℕ → Text → Scanner → Run Scanner Token
unfolding read_while scan_word scan_line
scan_other again c cs s =
    let blanks = (read_while is_blank cs).1 in
    if is_digit c
    then scan_int (c ∷ cs) s
    else if is_newline c
    then scan_line again (read_while is_newline cs).1 s
    else if c == 255
    then ok eof (record s { chars = cs })
    else if is_alpha c
    then scan_word c cs s
    else if is_space c
    then again (record s { chars = blanks; at_eof = is_nil blanks })
    else thrown invalid_token (record s { chars = cs })

unfoldable pub scan_char : Cmd Scanner Token → Text → Scanner → Run Scanner Token
unfolding scan_other make_kind
scan_char again [] s = ok eof (record s { at_eof = true; failed = true })
scan_char again (c ∷ cs) s = elim (make_kind c) [
  | some t ↦ ok t (record s { chars = cs })
  | none ↦ scan_other again c cs s
]

-- `get` with an empty buffer: at the end of the input it is `Eof`, and on a stream that has failed
-- before, `ch` is not assigned
unfoldable pub scan : ℕ → Cmd Scanner Token
unfolding scan_char
scan zero s = out_of_fuel
scan (suc fuel) s =
    let token = scan_char (scan fuel) s.chars s in
    if s.at_eof
    then ok eof (record s { failed = true })
    else if s.failed
    then fault unassigned_read
    else token

-- `get` calls itself behind blanks and behind newlines, so on a stream that has not failed three rounds
-- are enough.
unfoldable pub get : Cmd Scanner Token
unfolding scan
get s = let token = scan 3 s in if s.full then ok s.buffer (record s { full = false }) else token

unfoldable pub peek : Cmd Scanner Token
peek s =
    let token = (do t ← get; λ s'. ok t (record s' { full = true; buffer = t })) in
    if s.full then ok s.buffer s else token s

unfoldable pub putback : Token → Cmd Scanner (Unit {0})
putback t s = if s.full then thrown full_buffer s else ok tt (record s { buffer = t; full = true })

-- the loop of `ignore`, to the next token of the kind
unfoldable pub ignore_loop : ℕ → Kind → Cmd Scanner (Unit {0})
ignore_loop zero k = λ _. out_of_fuel
ignore_loop (suc fuel) k = do t ← get; if same_kind (kind t) k then pure tt else ignore_loop fuel k

unfoldable pub ignore : ℕ → Kind → Cmd Scanner (Unit {0})
unfolding ignore_loop
ignore fuel k s =
    let search = ignore_loop fuel k (record s { full = false }) in
    if s.full && same_kind (kind s.buffer) k then ok tt (record s { full = false }) else search
