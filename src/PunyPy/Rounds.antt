-- ===== src/PunyPy/Rounds.antt =====
-- `Scanner::get` calls itself at most twice on a stream that has not failed.
use always_be_learning.Characters.{
  Text, is_digit, is_alpha, is_space, is_newline, is_blank, read_while, is_nil,
}
use always_be_learning.Common.{
  ℕ, suc, Bool, true, false, ◌==◌, Option-cases, [], ◌∷◌, ◌≡◌, refl, inl, inr, arith, Bool-cases,
}
use always_be_learning.Run.{Run, ok, thrown, fault, out_of_fuel}
use always_be_learning.PunyPy.Token.{Token, make_kind}
use always_be_learning.Run.{Cmd}
use always_be_learning.PunyPy.Scanner.{
  Scanner, scan_int, scan_line, scan_other, scan_char, scan, get,
}

-- a run that ends in a value or an exception: neither out of rounds nor undefined
abbrev pub IsFinished {ℓ} : {S : Type 0} {A : Type ℓ} → Run S A → Type 0
IsFinished (ok a s) = Unit
IsFinished (thrown e s) = Unit
IsFinished (fault f) = ⊥
IsFinished out_of_fuel = ⊥

-- nothing is left, or the first character ends a loop of `p`
abbrev Stopped : (ℕ → Bool) → Text → Type 0
Stopped p [] = Unit
Stopped p (c ∷ cs) = p c ≡ false

read_while-Stopped : (p : ℕ → Bool) (cs : Text) → Stopped p (read_while p cs).1
unfolding read_while
read_while-Stopped p [] = tt
read_while-Stopped p (c ∷ cs) = elim (Bool-cases (p c)) [
  | inl e ↦ rw e (read_while-Stopped p cs)
  | inr e ↦ rw e e
]

scan_line-IsFinished :
    (again : Cmd Scanner Token) (cs : Text) (s : Scanner)
    → ((c : ℕ) (ds : Text) → is_space c ≡ false → IsFinished (again (record s { chars = c ∷ ds })))
    → IsFinished (scan_line again cs s)
unfolding scan_line
scan_line-IsFinished again [] s h = tt
scan_line-IsFinished again (c ∷ cs) s h = elim (Bool-cases (is_space c)) [
  | inl e ↦ rw e tt
  | inr e ↦ rw e (h c cs e)
]

scan_other-IsFinished :
    (again : Cmd Scanner Token) (c : ℕ) (cs : Text) (s : Scanner)
    → (is_newline c ≡ true → IsFinished (scan_line again (read_while is_newline cs).1 s))
    → (is_blank c ≡ true
        → IsFinished (
            again (record s {
              chars = (read_while is_blank cs).1;
              at_eof = is_nil (read_while is_blank cs).1;
            })))
    → IsFinished (scan_other again c cs s)
unfolding scan_other scan_int
scan_other-IsFinished again c cs s line blank = elim (Bool-cases (is_digit c)) [
  | inl e ↦ rw (IsFinished, scan_other, e) tt
  | inr no_digit ↦ elim (Bool-cases (is_newline c)) [
    | inl e ↦ rw (IsFinished, scan_other, no_digit, e) (line e)
    | inr no_newline ↦ elim (Bool-cases (c == 255)) [
      | inl e ↦ rw (IsFinished, scan_other, no_digit, no_newline, e) tt
      | inr no_eof ↦ elim (Bool-cases (is_alpha c)) [
        | inl e ↦ rw (IsFinished, scan_other, no_digit, no_newline, no_eof, e) tt
        | inr no_alpha ↦ elim (Bool-cases (is_space c)) [
          | inl e ↦
              rw (IsFinished, scan_other, no_digit, no_newline, no_eof, no_alpha, e)
                (blank (rw (no_newline, e) refl))
          | inr e ↦ rw (IsFinished, scan_other, no_digit, no_newline, no_eof, no_alpha, e) tt
        ]
      ]
    ]
  ]
]

-- `scan` on a stream with a first character
scan-IsFinished :
    (n : ℕ) (c : ℕ) (cs : Text) (s : Scanner)
    → s.failed ≡ false
    → (is_newline c ≡ true
        → IsFinished
            (scan_line (scan n) (read_while is_newline cs).1 (record s { chars = c ∷ cs })))
    → (is_blank c ≡ true
        → IsFinished (
            scan n (record s {
              chars = (read_while is_blank cs).1;
              at_eof = is_nil (read_while is_blank cs).1;
            })))
    → IsFinished (scan (suc n) (record s { chars = c ∷ cs }))
unfolding scan scan_char
scan-IsFinished n c cs s good line blank = elim (Bool-cases s.at_eof) [
  | inl e ↦ rw (IsFinished, scan, e) tt
  | inr open_stream ↦ elim (Bool-cases s.failed) [
    | inl e ↦ absurd cc
    | inr in_order ↦ elim (Option-cases (make_kind c)) [
      | inr t ↦ rw (IsFinished, scan, scan_char, open_stream, in_order, t.1) tt
      | inl other ↦
          rw (IsFinished, scan, scan_char, open_stream, in_order, other)
            (scan_other-IsFinished (scan n) c cs (record s { chars = c ∷ cs }) line blank)
    ]
  ]
]

scan-end :
    (n : ℕ) (s : Scanner) → s.failed ≡ false → IsFinished (scan (suc n) (record s { chars = [] }))
unfolding scan scan_char
scan-end n s good = elim (Bool-cases s.at_eof) [
  | inl e ↦ rw (IsFinished, scan, e) tt
  | inr open_stream ↦ elim (Bool-cases s.failed) [
    | inl e ↦ absurd cc
    | inr in_order ↦ rw (IsFinished, scan, open_stream, in_order) tt
  ]
]

newline-space : (c : ℕ) → is_newline c ≡ true → is_space c ≡ true
newline-space c h = ground arith

blank-space : (c : ℕ) → is_blank c ≡ true → is_space c ≡ true
blank-space c h = ground arith

-- one round at a character that is no blank, two at one that is at most a newline
scan-one :
    (n c : ℕ) (cs : Text) (s : Scanner)
    → s.failed ≡ false
    → is_space c ≡ false
    → IsFinished (scan (suc n) (record s { chars = c ∷ cs }))
scan-one n c cs s good visible =
    scan-IsFinished n c cs s good (λ e. absurd (ground (arith, newline-space c e, visible)))
      (λ e. absurd (ground (arith, blank-space c e, visible)))

scan-two :
    (n : ℕ) (cs : Text) (s : Scanner)
    → s.failed ≡ false
    → Stopped is_blank cs
    → IsFinished (scan (suc (suc n)) (record s { chars = cs }))
scan-two n [] s good stopped = scan-end (suc n) s good
scan-two n (c ∷ cs) s good stopped =
    scan-IsFinished (suc n) c cs s good
      (λ e.
        scan_line-IsFinished (scan (suc n)) (read_while is_newline cs).1
          (record s { chars = c ∷ cs }) (λ d ds visible. scan-one n d ds s good visible))
      (λ e. absurd (ground (arith, e, stopped)))

scan-three :
    (n : ℕ) (cs : Text) (s : Scanner)
    → s.failed ≡ false
    → IsFinished (scan (suc (suc (suc n))) (record s { chars = cs }))
scan-three n [] s good = scan-end (suc (suc n)) s good
scan-three n (c ∷ cs) s good =
    scan-IsFinished (suc (suc n)) c cs s good
      (λ e.
        scan_line-IsFinished (scan (suc (suc n))) (read_while is_newline cs).1
          (record s { chars = c ∷ cs }) (λ d ds visible. scan-one (suc n) d ds s good visible))
      (λ e.
        scan-two n (read_while is_blank cs).1
          (record s { at_eof = is_nil (read_while is_blank cs).1 }) good
          (read_while-Stopped is_blank cs))

-- On every state of the scanner whose stream has not failed, also at the end of the input, `get` ends
-- within the two calls of itself, in a token or with the exception, and reads nothing unassigned.
pub get-IsFinished : (s : Scanner) → s.failed ≡ false → IsFinished (get s)
unfolding get
get-IsFinished s good = elim (Bool-cases s.full) [
  | inl e ↦ rw (IsFinished, get, e) tt
  | inr e ↦ rw (IsFinished, get, e) (scan-three 0 s.chars (record s { full = false }) good)
]
