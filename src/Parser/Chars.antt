-- ===== src/Parser/Chars.antt =====
-- factorengine/expression_parser.go: the classes of bytes. A byte stands for the code point of its
-- value, as in `rune(ch)`, so the classes of package unicode are those of Latin-1.
use risk_engine.Prelude.{ℕ, Bool, true, false, ◌&&◌, ◌||◌, [], ◌∷◌, ◌==◌, leb, Str}

abbrev between : ℕ → ℕ → ℕ → Bool
between low high c = leb low c && leb c high

-- `unicode.IsSpace`.
abbrev pub is_space : ℕ → Bool
is_space c = between 9 13 c || (c == 32) || (c == 133) || (c == 160)

abbrev is_ascii_letter : ℕ → Bool
is_ascii_letter c = between 97 122 c || between 65 90 c

abbrev is_latin_letter : ℕ → Bool
is_latin_letter c =
    (c == 170)
    || (c == 181)
    || (c == 186)
    || between 192 214 c
    || between 216 246 c
    || between 248 255 c

-- `unicode.IsLetter`.
abbrev pub is_letter : ℕ → Bool
is_letter c = is_ascii_letter c || is_latin_letter c

-- `isDigit`, and `unicode.IsDigit`, which has no more digits in Latin-1.
abbrev pub is_digit : ℕ → Bool
is_digit c = between 48 57 c

abbrev pub is_identifier_start : ℕ → Bool
is_identifier_start c = (c == 95) || is_letter c

abbrev pub is_identifier_part : ℕ → Bool
is_identifier_part c = (c == 95) || (c == 46) || is_letter c || is_digit c

-- The loops that advance over bytes of a class: what they pass, and what is left.
unfoldable pub take_while : (ℕ → Bool) → Str → Str
take_while p [] = []
take_while p (c ∷ cs) = elim (p c) [ true ↦ c ∷ take_while p cs | false ↦ [] ]

unfoldable pub drop_while : (ℕ → Bool) → Str → Str
drop_while p [] = []
drop_while p (c ∷ cs) = elim (p c) [ true ↦ drop_while p cs | false ↦ c ∷ cs ]
