-- ===== src/Parser/Tokens.antt =====
-- factorengine/expression_parser.go: `tokenizeExpression`.
use risk_engine.Prelude.{
  ℕ, zero, suc, Bool, true, false, not, ◌&&◌, ◌||◌, Option, none, some, List, [], ◌∷◌, ◌++◌, Str,
  bytes, str_eq, ◌==◌, length, if◌then◌else◌,
}
use risk_engine.Outcome.{Outcome, ok, err, ◌>>=◌, error_of, expression_invalid}
use risk_engine.Parser.Chars.{
  is_space, is_identifier_start, is_identifier_part, is_digit, take_while, drop_while,
}

-- The texts of operator tokens.
pub data Operator : Type 0 where
  or_or and_and eq_eq bang_eq less less_eq greater greater_eq : Operator
  plus minus star slash bang : Operator

-- The token types, with the text where it is not settled by the type. A Boolean token has the text
-- `true` or `false`.
pub data Token : Type 0 where
  identifier number string : Str → Token
  bool : Bool → Token
  null lparen rparen lbracket rbracket lbrace rbrace comma colon question eof : Token
  operator : Operator → Token

-- The switch over the words.
unfoldable pub word_token : Str → Token
unfolding str_eq
word_token word =
    if str_eq word (bytes "true")
    then bool true
    else if str_eq word (bytes "false")
    then bool false
    else if str_eq word (bytes "null")
    then null
    else identifier word

-- The part of a number behind its integer digits, if the input goes on with a point.
unfoldable pub fraction : Str → Str
unfolding take_while
fraction [] = []
fraction (c ∷ cs) = if c == b'.' then c ∷ take_while is_digit cs else []

unfoldable pub punctuation : ℕ → Option Token
punctuation c =
    if c == b'('
    then some lparen
    else if c == b')'
    then some rparen
    else if c == b'['
    then some lbracket
    else if c == b']'
    then some rbracket
    else if c == b'{'
    then some lbrace
    else if c == b'}'
    then some rbrace
    else if c == b','
    then some comma
    else if c == b':'
    then some colon
    else if c == b'?'
    then some question
    else none

-- Operators of two bytes.
unfoldable pub double_operator : ℕ → Str → Option Operator
double_operator c [] = none
double_operator c (d ∷ _) =
    if (c == b'&') && (d == b'&')
    then some and_and
    else if (c == b'|') && (d == b'|')
    then some or_or
    else if (c == b'=') && (d == b'=')
    then some eq_eq
    else if (c == b'!') && (d == b'=')
    then some bang_eq
    else if (c == b'<') && (d == b'=')
    then some less_eq
    else if (c == b'>') && (d == b'=')
    then some greater_eq
    else none

unfoldable pub single_operator : ℕ → Option Operator
single_operator c =
    if c == b'<'
    then some less
    else if c == b'>'
    then some greater
    else if c == b'+'
    then some plus
    else if c == b'-'
    then some minus
    else if c == b'*'
    then some star
    else if c == b'/'
    then some slash
    else if c == b'!'
    then some bang
    else none

-- The end of the loop's body: operators, and bytes that start nothing.
unfoldable pub operator_lexeme : ℕ → Str → Outcome (Option Token × ℕ)
unfolding double_operator single_operator
operator_lexeme c cs = elim (double_operator c cs) [
  | some op ↦ ok (some (operator op), 1)
  | none ↦ elim (single_operator c) [
    | some op ↦ ok (some (operator op), 0)
    | none ↦ err (error_of expression_invalid)
  ]
]

-- Behind an opening quote.
unfoldable pub string_lexeme : ℕ → Str → Outcome (Option Token × ℕ)
unfolding take_while
string_lexeme quote cs =
    let body = take_while (λ c. not (c == quote)) cs in
    if length body == length cs
    then err (error_of expression_invalid)
    else ok (some (string body), suc (length body))

-- One round of the loop at a byte and the input behind it: the token if there is one, and how many of the
-- bytes behind are passed.
unfoldable pub lexeme : ℕ → Str → Outcome (Option Token × ℕ)
unfolding word_token fraction punctuation operator_lexeme string_lexeme take_while drop_while
lexeme c cs =
    let word = take_while is_identifier_part cs in
    let digits = take_while is_digit cs ++ fraction (drop_while is_digit cs) in
    if is_space c
    then ok (none, 0)
    else if is_identifier_start c
    then ok (some (word_token (c ∷ word)), length word)
    else if is_digit c
    then ok (some (number (c ∷ digits)), length digits)
    else if (c == b'"') || (c == b'\'')
    then string_lexeme c cs
    else elim (punctuation c) [ some t ↦ ok (some t, 0) | none ↦ operator_lexeme c cs ]

abbrev pub with_token : Option Token → List Token → List Token
with_token none ts = ts
with_token (some t) ts = t ∷ ts

-- The loop; the number says how many bytes have been passed already.
unfoldable pub tokens_from : ℕ → Str → Outcome (List Token)
unfolding lexeme
tokens_from n [] = ok (eof ∷ [])
tokens_from (suc n) (c ∷ cs) = tokens_from n cs
tokens_from zero (c ∷ cs) = do (t, n) ← lexeme c cs; ts ← tokens_from n cs; ok (with_token t ts)

unfoldable pub tokenize_expression : Str → Outcome (List Token)
unfolding tokens_from
tokenize_expression raw = tokens_from 0 raw
