-- ===== src/Correct/Parsing/Lexing.antt =====
-- The tokenizer reads the texts of tokens, with a blank behind each.
use risk_engine.Prelude.{
  ℕ, suc, ◌+◌, ◌≡◌, refl, ap, Bool, true, false, not, some, List, [], ◌∷◌, ◌++◌, Str, bytes, ◌==◌,
  length, All, arith,
}
use mathlib.Core.List.{append_assoc}
use risk_engine.Outcome.{ok, ◌>>=◌}
use risk_engine.Parser.Chars.{
  is_space, is_digit, is_identifier_start, is_identifier_part, take_while, drop_while,
}
use risk_engine.Parser.Tokens.{
  Operator, or_or, and_and, eq_eq, bang_eq, less, less_eq, greater, greater_eq, plus, minus, star,
  slash, bang, Token, identifier, number, string, null, lparen, rparen, lbracket, rbracket, lbrace,
  rbrace, comma, colon, question, eof, operator, fraction, string_lexeme, lexeme, tokens_from,
}
use risk_engine.Correct.Parsing.Printer.{IsWord, IsQuotable}
use risk_engine.Correct.Parsing.Names.{IsDigits}

abbrev pub operator_text : Operator → Str
operator_text or_or = bytes "||"
operator_text and_and = bytes "&&"
operator_text eq_eq = bytes "=="
operator_text bang_eq = bytes "!="
operator_text less = bytes "<"
operator_text less_eq = bytes "<="
operator_text greater = bytes ">"
operator_text greater_eq = bytes ">="
operator_text plus = bytes "+"
operator_text minus = bytes "-"
operator_text star = bytes "*"
operator_text slash = bytes "/"
operator_text bang = bytes "!"

abbrev pub token_text : Token → Str
token_text (identifier s) = s
token_text (number s) = s
token_text (string s) = b'"' ∷ (s ++ b'"' ∷ [])
token_text (Token.bool true) = bytes "true"
token_text (Token.bool false) = bytes "false"
token_text null = bytes "null"
token_text lparen = bytes "("
token_text rparen = bytes ")"
token_text lbracket = bytes "["
token_text rbracket = bytes "]"
token_text lbrace = bytes "{"
token_text rbrace = bytes "}"
token_text comma = bytes ","
token_text colon = bytes ":"
token_text question = bytes "?"
token_text eof = []
token_text (operator op) = operator_text op

-- The text of tokens.
unfoldable pub render : List Token → Str
render [] = []
render (t ∷ ts) = token_text t ++ 32 ∷ render ts

-- Tokens with a text that is read back.
abbrev pub IsLexical : Token → Type 0
IsLexical (identifier s) = IsWord s × All (λ c. is_identifier_part c ≡ true) s
IsLexical (number []) = ⊥
IsLexical (number s) = IsDigits s
IsLexical (string s) = IsQuotable s
IsLexical eof = ⊥
IsLexical _ = Unit

take_while-append :
    (p : ℕ → Bool) (w : Str) (c : ℕ) (s : Str)
    → All (λ x. p x ≡ true) w
    → p c ≡ false
    → take_while p (w ++ c ∷ s) ≡ w
unfolding take_while
take_while-append p [] c s h e = rw e refl
take_while-append p (x ∷ w) c s (h, t) e = rw (h, take_while-append p w c s t e) refl

drop_while-append :
    (p : ℕ → Bool) (w : Str) (c : ℕ) (s : Str)
    → All (λ x. p x ≡ true) w
    → p c ≡ false
    → drop_while p (w ++ c ∷ s) ≡ c ∷ s
unfolding drop_while
drop_while-append p [] c s h e = rw e refl
drop_while-append p (x ∷ w) c s (h, t) e = rw (h, drop_while-append p w c s t e) refl

-- Bytes that are passed.
tokens_from-append : (w s : Str) → tokens_from (length w) (w ++ s) ≡ tokens_from 0 s
unfolding tokens_from
tokens_from-append [] s = refl
tokens_from-append (c ∷ w) s = tokens_from-append w s

-- The bytes of a token, and that they are one round of the loop.
abbrev Lexes : Token → Type 0
Lexes t =
    (c : ℕ) × (w : Str) × (token_text t ≡ c ∷ w)
    × ((s : Str) → lexeme c (w ++ 32 ∷ s) ≡ ok (some t, length w))

start_no_space : (c : ℕ) → is_identifier_start c ≡ true → is_space c ≡ false
start_no_space c h = ground (arith, h)

digit_no_space : (c : ℕ) → is_digit c ≡ true → is_space c ≡ false
digit_no_space c h = ground (arith, h)

digit_no_start : (c : ℕ) → is_digit c ≡ true → is_identifier_start c ≡ false
digit_no_start c h = ground (arith, h)

word-Lexes : (s : Str) → IsLexical (identifier s) → Lexes (identifier s)
unfolding lexeme
word-Lexes [] (word, parts) = absurd word
word-Lexes (c ∷ cs) ((start, same), (part, parts)) = (
  c,
  cs,
  refl,
  λ s.
      rw
        (
          lexeme,
          start_no_space c start,
          start,
          take_while-append is_identifier_part cs 32 s parts refl,
          same,
        )
        refl,
)

number-Lexes : (s : Str) → IsLexical (number s) → Lexes (number s)
unfolding lexeme fraction
number-Lexes [] h = absurd h
number-Lexes (c ∷ cs) ((digit, _), digits) =
    let all = digits_only cs digits in
    (
      c,
      cs,
      refl,
      λ s.
          rw
            (
              lexeme,
              digit_no_space c digit,
              digit_no_start c digit,
              digit,
              take_while-append is_digit cs 32 s all refl,
              drop_while-append is_digit cs 32 s all refl,
              append_nil cs,
            )
            refl,
    )
  where
    digits_only : (s : Str) → IsDigits s → All (λ c. is_digit c ≡ true) s
    digits_only [] h = tt
    digits_only (c ∷ cs) ((d, _), t) = (d, digits_only cs t)

    append_nil : (s : Str) → s ++ [] ≡ s
    append_nil [] = refl
    append_nil (c ∷ cs) = ap (◌∷◌ c) (append_nil cs)

length-append_one : (s : Str) (c : ℕ) → length (s ++ c ∷ []) ≡ suc (length s)
length-append_one [] c = refl
length-append_one (d ∷ s) c = omega (arith, length-append_one s c)

length-append : (s t : Str) → length (s ++ t) ≡ length s + length t
length-append [] t = omega arith
length-append (d ∷ s) t = omega (arith, length-append s t)

unquoted : (s : Str) → IsQuotable s → All (λ c. not (c == b'"') ≡ true) s
unquoted [] h = tt
unquoted (c ∷ cs) (e, t) = (rw e refl, unquoted cs t)

closed : (n k : ℕ) → (n == (n + suc k)) ≡ false
closed n k = ground arith

string-Lexes : (s : Str) → IsQuotable s → Lexes (string s)
unfolding lexeme string_lexeme
string-Lexes s h = (
  b'"',
  s ++ b'"' ∷ [],
  refl,
  λ rest.
      rw
        (
          append_assoc s (b'"' ∷ []) (32 ∷ rest),
          lexeme,
          string_lexeme,
          take_while-append (λ c. not (c == b'"')) s (b'"') (32 ∷ rest) (unquoted s h) refl,
          length-append s (b'"' ∷ 32 ∷ rest),
          closed (length s) (suc (length rest)),
          length-append_one s (b'"'),
        )
        refl,
)

operator-Lexes : (op : Operator) → Lexes (operator op)
unfolding lexeme
operator-Lexes or_or = (_, _, refl, λ s. refl)
operator-Lexes and_and = (_, _, refl, λ s. refl)
operator-Lexes eq_eq = (_, _, refl, λ s. refl)
operator-Lexes bang_eq = (_, _, refl, λ s. refl)
operator-Lexes less = (_, _, refl, λ s. refl)
operator-Lexes less_eq = (_, _, refl, λ s. refl)
operator-Lexes greater = (_, _, refl, λ s. refl)
operator-Lexes greater_eq = (_, _, refl, λ s. refl)
operator-Lexes plus = (_, _, refl, λ s. refl)
operator-Lexes minus = (_, _, refl, λ s. refl)
operator-Lexes star = (_, _, refl, λ s. refl)
operator-Lexes slash = (_, _, refl, λ s. refl)
operator-Lexes bang = (_, _, refl, λ s. refl)

token-Lexes : (t : Token) → IsLexical t → Lexes t
unfolding lexeme
token-Lexes (identifier s) h = word-Lexes s h
token-Lexes (number s) h = number-Lexes s h
token-Lexes (string s) h = string-Lexes s h
token-Lexes (operator op) h = operator-Lexes op
token-Lexes eof h = absurd h
token-Lexes (Token.bool true) h = (_, _, refl, λ s. refl)
token-Lexes (Token.bool false) h = (_, _, refl, λ s. refl)
token-Lexes null h = (_, _, refl, λ s. refl)
token-Lexes lparen h = (_, _, refl, λ s. refl)
token-Lexes rparen h = (_, _, refl, λ s. refl)
token-Lexes lbracket h = (_, _, refl, λ s. refl)
token-Lexes rbracket h = (_, _, refl, λ s. refl)
token-Lexes lbrace h = (_, _, refl, λ s. refl)
token-Lexes rbrace h = (_, _, refl, λ s. refl)
token-Lexes comma h = (_, _, refl, λ s. refl)
token-Lexes colon h = (_, _, refl, λ s. refl)
token-Lexes question h = (_, _, refl, λ s. refl)

blank : (s : Str) → tokens_from 0 (32 ∷ s) ≡ (tokens_from 0 s >>= λ us. ok us)
unfolding tokens_from lexeme
blank s = refl

-- The tokenizer reads the text of tokens as these tokens.
pub tokens_from-render :
    (ts : List Token) → All IsLexical ts → tokens_from 0 (render ts) ≡ ok (ts ++ eof ∷ [])
unfolding tokens_from render
tokens_from-render [] h = refl
tokens_from-render (t ∷ ts) (h, k) =
    let (c, w, text, round) = token-Lexes t h in
    rw
      (
        text,
        tokens_from,
        round (render ts),
        tokens_from-append w (32 ∷ render ts),
        blank (render ts),
        tokens_from-render ts k,
      )
      refl
