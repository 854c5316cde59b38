-- ===== src/Calculator/Stream.antt =====
-- `TokenStream` and `VariableMap`, in the state of a `Calculator`.
use always_be_learning.Characters.{Text, is_digit, is_alpha, is_space, is_word, read_while, is_nil}
use always_be_learning.Common.{
  ℕ, zero, suc, ◌==◌, Bool, true, false, not, ◌||◌, ◌&&◌, none, some, List, [], ◌∷◌, if◌then◌else◌,
}
use always_be_learning.Dictionary.{find, overwrite}
use always_be_learning.Run.{
  Cmd, ok, thrown, fault, unassigned_read, invalid_token, full_buffer, redefinition,
  undefined_variable, out_of_fuel, pure, ◌>>=◌,
}
use always_be_learning.Calculator.Double.{Double}
use always_be_learning.Calculator.Token.{Token, number, is_print, token_of, word_token}

-- `ts_` with its stream, `varmap_`, and the results that were printed
pub record Calculator (D : Type 0) : Type 0 where
  pub chars : Text
  pub at_eof : Bool
  pub failed : Bool
  pub full : Bool
  pub buffer : Token D
  pub varmap : List (Text × D)
  pub printed : List D

module _ {D : Type 0} ⦃double : Double D⦄ where
  -- `source_ >> val` behind `source_.putback(ch)`
  unfoldable pub scan_number : Text → Cmd (Calculator D) (Token D)
  scan_number cs s =
      let r = double.read cs in
      ok (number r.0) (record s { chars = r.1; at_eof = is_nil r.1; failed = not r.2 })

  -- a word; at the end of the input the loop leaves the `failbit` set
  unfoldable pub scan_word : ℕ → Text → Cmd (Calculator D) (Token D)
  unfolding read_while word_token
  scan_word c cs s =
      let r = read_while is_word cs in
      ok (word_token (c ∷ r.0)) (record s { chars = r.1; failed = is_nil r.1 })

  -- the switch of `get`
  unfoldable pub scan_char : ℕ → Text → Cmd (Calculator D) (Token D)
  unfolding token_of
  scan_char c cs s = elim (token_of {D = D} c) [
    | some t ↦ ok t (record s { chars = cs })
    | none ↦
        if (c == b'.') || is_digit c
        then scan_number (c ∷ cs) s
        else if is_alpha c
        then scan_word c cs s
        else thrown invalid_token (record s { chars = cs })
  ]

  -- `source_ >> ch` behind blanks; where there is none, `ch` is not assigned
  unfoldable pub scan_text : Text → Cmd (Calculator D) (Token D)
  scan_text [] s = fault unassigned_read
  scan_text (c ∷ cs) s = scan_char c cs s

  unfoldable pub get : Cmd (Calculator D) (Token D)
  get s =
      let token = scan_text (read_while is_space s.chars).1 s in
      if s.full
      then ok s.buffer (record s { full = false })
      else if s.at_eof || s.failed
      then fault unassigned_read
      else token

  unfoldable pub putback : Token D → Cmd (Calculator D) (Unit {0})
  putback t s =
      if s.full then thrown full_buffer s else ok tt (record s { buffer = t; full = true })

  -- the loop of `ignore( TokenKind::Print )`
  unfoldable pub ignore_loop : ℕ → Cmd (Calculator D) (Unit {0})
  ignore_loop zero = λ _. out_of_fuel
  ignore_loop (suc fuel) = do t ← get; if is_print t then pure tt else ignore_loop fuel

  unfoldable pub ignore : ℕ → Cmd (Calculator D) (Unit {0})
  unfolding ignore_loop
  ignore fuel s =
      let search = ignore_loop fuel (record s { full = false }) in
      if s.full && is_print s.buffer then ok tt (record s { full = false }) else search

  -- `explicit operator bool`
  unfoldable pub good : Calculator D → Bool
  good s = not s.at_eof && not s.failed

  unfoldable pub define_variable : Text → D → Cmd (Calculator D) D
  unfolding find
  define_variable name val s = elim (find name s.varmap) [
    | some old ↦ thrown redefinition s
    | none ↦ ok val (record s { varmap = (name, val) ∷ s.varmap })
  ]

  unfoldable pub set_variable : Text → D → Cmd (Calculator D) D
  unfolding find overwrite
  set_variable name val s = elim (find name s.varmap) [
    | some old ↦ ok val (record s { varmap = overwrite name val s.varmap })
    | none ↦ thrown undefined_variable s
  ]

  unfoldable pub get_variable : Text → Cmd (Calculator D) D
  unfolding find
  get_variable name s = elim (find name s.varmap) [
    | some val ↦ ok val s
    | none ↦ thrown undefined_variable s
  ]
