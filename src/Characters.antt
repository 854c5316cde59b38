-- ===== src/Characters.antt =====
-- Texts and the character classes of the "C" locale, for the scanners.
use always_be_learning.Common.{
  ℕ, Bool, true, false, not, ◌&&◌, ◌||◌, ◌==◌, ltb, List, [], ◌∷◌, if◌then◌else◌,
}

abbrev pub Text : Type 0
Text = List ℕ

-- `operator==` of `std::string`
unfoldable pub same_text : Text → Text → Bool
same_text [] [] = true
same_text (a ∷ s) (b ∷ s') = (a == b) && same_text s s'
same_text _ _ = false

abbrev pub is_digit : ℕ → Bool
is_digit c = not (ltb c b'0') && not (ltb b'9' c)

abbrev pub is_alpha : ℕ → Bool
is_alpha c = (not (ltb c b'a') && not (ltb b'z' c)) || (not (ltb c b'A') && not (ltb b'Z' c))

abbrev pub is_space : ℕ → Bool
is_space c = (c == b' ') || (not (ltb c 9) && not (ltb 13 c))

abbrev pub is_word : ℕ → Bool
is_word c = is_alpha c || is_digit c || (c == b'_')

abbrev pub is_newline : ℕ → Bool
is_newline c = c == b'\n'

abbrev pub is_blank : ℕ → Bool
is_blank c = not (is_newline c) && is_space c

-- the characters that a loop reads, and those from the first on that ends it
unfoldable pub read_while : (ℕ → Bool) → Text → Text × Text
read_while p [] = ([], [])
read_while p (c ∷ cs) =
    let rest = read_while p cs in if p c then (c ∷ rest.0, rest.1) else ([], c ∷ cs)

abbrev pub is_nil : Text → Bool
is_nil [] = true
is_nil (c ∷ cs) = false
