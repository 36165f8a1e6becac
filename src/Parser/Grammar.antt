-- ===== src/Parser/Grammar.antt =====
-- factorengine/expression_parser.go: the parser. Its state is the tokens from `pos` on. A call costs a unit
-- of fuel, since what another call leaves of the tokens is no structural part of them.
use risk_engine.Prelude.{
  ℕ, zero, suc, ◌+◌, ◌-◌, ◌*◌, ◌^◌, Bool, true, false, Option, none, some, List, [], ◌∷◌, Str,
  str_eq, bytes, ltb, leb, length, ◌==◌, if◌then◌else◌,
}
use risk_engine.Prelude.Int.{pos}
use risk_engine.Outcome.{Outcome, ok, err, panic, ValidationError, error_of, expression_invalid}
use risk_engine.Operators.{ValueType, BinaryOp, UnaryOp, FunctionName}
use risk_engine.Value.{Value}
use risk_engine.Expr.{
  Expr, literal, factor_ref, conditional, function_call, list, map, unary, binary, Exprs, nil, cons,
  Entries, empty, entry,
}
use risk_engine.Parser.Refs.{parse_factor_ref}
use risk_engine.Parser.Tokens.{
  Operator, or_or, and_and, eq_eq, bang_eq, less, less_eq, greater, greater_eq, plus, minus, star,
  slash, bang, Token, identifier, number, string, bool, null, lparen, rparen, lbracket, rbracket,
  lbrace, rbrace, comma, colon, question, eof, operator, tokenize_expression,
}

-- What `strconv.ParseFloat` reads, if it reads the text without an error.
pub record Decimals (D : Type 0) : Type 0 where
  pub parse_float : Str → Option D

-- The outcome of a call with the tokens that it leaves.
pub data Parse (A : Type 0) : Type 0 where
  parsed : A → List Token → Parse A
  failed : ValidationError → Parse A
  panicked starved : Parse A

infixl 1 ◌>>=◌
abbrev pub ◌>>=◌ : {A B : Type 0} → Parse A → (A × List Token → Parse B) → Parse B
parsed a ts >>= f = f (a, ts)
failed e >>= f = failed e
panicked >>= f = panicked
starved >>= f = starved

abbrev pub invalid : {A : Type 0} → Parse A
invalid = failed (error_of expression_invalid)

-- A call that takes no token.
abbrev pub lift : {A : Type 0} → Outcome A → List Token → Parse A
lift (ok a) ts = parsed a ts
lift (err e) ts = failed e
lift panic ts = panicked

unfoldable pub peek : List Token → Token
peek [] = eof
peek (t ∷ ts) = t

unfoldable pub rest : List Token → List Token
rest [] = []
rest (t ∷ ts) = ts

-- `operatorPrecedence`.
unfoldable pub operator_precedence : Operator → Option ℕ
operator_precedence or_or = some 1
operator_precedence and_and = some 2
operator_precedence eq_eq = some 3
operator_precedence bang_eq = some 3
operator_precedence less = some 4
operator_precedence less_eq = some 4
operator_precedence greater = some 4
operator_precedence greater_eq = some 4
operator_precedence plus = some 5
operator_precedence minus = some 5
operator_precedence star = some 6
operator_precedence slash = some 6
operator_precedence bang = none

-- The operator string of a binary expression.
unfoldable pub binary_op : Operator → BinaryOp
binary_op or_or = BinaryOp.or
binary_op and_and = BinaryOp.and
binary_op eq_eq = BinaryOp.eq
binary_op bang_eq = BinaryOp.ne
binary_op less = BinaryOp.lt
binary_op less_eq = BinaryOp.le
binary_op greater = BinaryOp.gt
binary_op greater_eq = BinaryOp.ge
binary_op plus = BinaryOp.add
binary_op minus = BinaryOp.sub
binary_op star = BinaryOp.mul
binary_op slash = BinaryOp.div
binary_op bang = BinaryOp.other (bytes "!")

-- The operators that start an operand.
unfoldable pub unary_op : Operator → Option UnaryOp
unary_op bang = some UnaryOp.not
unary_op minus = some UnaryOp.neg
unary_op _ = none

-- The names that the engine knows.
unfoldable pub function_name : Str → FunctionName
unfolding str_eq
function_name name =
    if str_eq name (bytes "isEmpty")
    then FunctionName.is_empty
    else if str_eq name (bytes "exists")
    then FunctionName.exists
    else if str_eq name (bytes "in")
    then FunctionName.in_list
    else if str_eq name (bytes "contains")
    then FunctionName.contains
    else if str_eq name (bytes "get")
    then FunctionName.get
    else FunctionName.other name

-- The number that decimal digits stand for, behind the value of those that precede.
unfoldable pub digits_value : ℕ → Str → ℕ
digits_value n [] = n
digits_value n (c ∷ cs) = digits_value (10 * n + (c - 48)) cs

unfoldable pub has_point : Str → Bool
has_point [] = false
has_point (c ∷ cs) = if c == b'.' then true else has_point cs

-- `strconv.ParseInt` on the digits of a number token, and the type of the literal. The value is not
-- negative, so the lower bound of the source's test holds.
unfoldable pub integer_literal : {D : Type 0} → Str → Outcome (Expr D)
unfolding digits_value
integer_literal raw =
    let n = digits_value 0 raw in
    if leb (2 ^ 63) n
    then err (error_of expression_invalid)
    else if leb n 2147483647
    then ok (literal (Value.int (pos n)) ValueType.int)
    else ok (literal (Value.int64 (pos n)) ValueType.long)

module _ {D : Type 0} (fmt : Decimals D) where
  unfoldable pub number_literal : Str → Outcome (Expr D)
  unfolding has_point integer_literal
  number_literal raw =
      if has_point raw
      then elim (fmt.parse_float raw) [
        | none ↦ err (error_of expression_invalid)
        | some x ↦ ok (literal (Value.float64 x) ValueType.double)
      ]
      else integer_literal raw

  unfoldable pub ref_literal : Str → Outcome (Expr D)
  unfolding parse_factor_ref
  ref_literal raw = elim (parse_factor_ref raw) [
    | ok r ↦ ok (factor_ref r)
    | err e ↦ err e
    | panic ↦ panic
  ]

-- The token at the front must be a certain one; it is consumed.
unfoldable pub expect : {A : Type 0} → Bool → A → List Token → Parse A
unfolding rest
expect true a ts = parsed a (rest ts)
expect false a ts = invalid

unfoldable pub is_comma : Token → Bool
is_comma comma = true
is_comma _ = false

unfoldable pub is_colon : Token → Bool
is_colon colon = true
is_colon _ = false

unfoldable pub is_rparen : Token → Bool
is_rparen rparen = true
is_rparen _ = false

unfoldable pub is_rbracket : Token → Bool
is_rbracket rbracket = true
is_rbracket _ = false

unfoldable pub is_rbrace : Token → Bool
is_rbrace rbrace = true
is_rbrace _ = false

unfoldable pub is_lparen : Token → Bool
is_lparen lparen = true
is_lparen _ = false

-- What the loop of `parseExpression` does at a token.
pub data Continuation : Type 0 where
  stop ternary : Continuation
  operand : Operator → ℕ → Continuation

unfoldable pub continuation : ℕ → Token → Continuation
unfolding operator_precedence
continuation min_prec question = if ltb 0 min_prec then stop else ternary
continuation min_prec (operator op) = elim (operator_precedence op) [
  | none ↦ stop
  | some prec ↦ if ltb prec min_prec then stop else operand op prec
]
continuation min_prec _ = stop

-- The key of a map entry with its colon.
unfoldable pub parse_key : List Token → Parse Str
unfolding expect is_colon peek
parse_key (string k ∷ ts) = expect (is_colon (peek ts)) k ts
parse_key _ = invalid

unfoldable mutual
  unfolding number_literal ref_literal peek rest expect is_comma is_colon is_rparen is_rbracket
      is_rbrace is_lparen continuation unary_op binary_op function_name parse_key

  pub parse_expression : {D : Type 0} → Decimals D → ℕ → ℕ → List Token → Parse (Expr D)
  parse_expression fmt zero min_prec ts = starved
  parse_expression fmt (suc f) min_prec ts =
      parse_prefix fmt f ts >>= λ (left, ts₁). parse_loop fmt f min_prec left ts₁

  -- The loop of `parseExpression`.
  pub parse_loop : {D : Type 0} → Decimals D → ℕ → ℕ → Expr D → List Token → Parse (Expr D)
  parse_loop fmt zero min_prec left ts = starved
  parse_loop fmt (suc f) min_prec left ts = elim (continuation min_prec (peek ts)) [
    | stop ↦ parsed left ts
    | ternary ↦ parse_expression fmt f 0 (rest ts) >>= λ (then_expr, ts₁).
        expect (is_colon (peek ts₁)) tt ts₁ >>= λ (_, ts₂).
        parse_expression fmt f 0 ts₂ >>= λ (else_expr, ts₃).
        parse_loop fmt f min_prec (conditional left then_expr else_expr) ts₃
    | operand op prec ↦ parse_expression fmt f (suc prec) (rest ts) >>= λ (right, ts₁).
        parse_loop fmt f min_prec (binary (binary_op op) left right) ts₁
  ]

  pub parse_prefix : {D : Type 0} → Decimals D → ℕ → List Token → Parse (Expr D)
  parse_prefix fmt zero ts = starved
  parse_prefix fmt (suc f) (identifier raw ∷ ts) = elim (is_lparen (peek ts)) [
    | true ↦ parse_function_call fmt f raw (rest ts)
    | false ↦ lift (ref_literal fmt raw) ts
  ]
  parse_prefix fmt (suc f) (number raw ∷ ts) = lift (number_literal fmt raw) ts
  parse_prefix fmt (suc f) (string s ∷ ts) = parsed (literal (Value.str s) ValueType.string) ts
  parse_prefix fmt (suc f) (bool b ∷ ts) = parsed (literal (Value.bool b) ValueType.bool) ts
  parse_prefix fmt (suc f) (null ∷ ts) = parsed (literal Value.null ValueType.null) ts
  parse_prefix fmt (suc f) (operator op ∷ ts) = elim (unary_op op) [
    | none ↦ invalid
    | some u ↦ parse_expression fmt f 7 ts >>= λ (e, ts₁). parsed (unary u e) ts₁
  ]
  parse_prefix fmt (suc f) (lparen ∷ ts) =
      parse_expression fmt f 0 ts >>= λ (e, ts₁). expect (is_rparen (peek ts₁)) e ts₁
  parse_prefix fmt (suc f) (lbracket ∷ ts) = parse_list_literal fmt f ts
  parse_prefix fmt (suc f) (lbrace ∷ ts) = parse_map_literal fmt f ts
  parse_prefix fmt (suc f) _ = invalid

  -- Behind the bracket.
  pub parse_list_literal : {D : Type 0} → Decimals D → ℕ → List Token → Parse (Expr D)
  parse_list_literal fmt zero ts = starved
  parse_list_literal fmt (suc f) ts = elim (is_rbracket (peek ts)) [
    | true ↦ parsed (list nil) (rest ts)
    | false ↦ parse_elements fmt f ts >>= λ (es, ts₁). expect (is_rbracket (peek ts₁)) (list es) ts₁
  ]

  -- Behind the brace.
  pub parse_map_literal : {D : Type 0} → Decimals D → ℕ → List Token → Parse (Expr D)
  parse_map_literal fmt zero ts = starved
  parse_map_literal fmt (suc f) ts = elim (is_rbrace (peek ts)) [
    | true ↦ parsed (map empty) (rest ts)
    | false ↦ parse_entries fmt f ts >>= λ (es, ts₁). expect (is_rbrace (peek ts₁)) (map es) ts₁
  ]

  -- Behind the opening parenthesis.
  pub parse_function_call : {D : Type 0} → Decimals D → ℕ → Str → List Token → Parse (Expr D)
  parse_function_call fmt zero name ts = starved
  parse_function_call fmt (suc f) name ts = elim (is_rparen (peek ts)) [
    | true ↦ parsed (function_call (function_name name) nil) (rest ts)
    | false ↦ parse_elements fmt f ts >>= λ (es, ts₁).
        expect (is_rparen (peek ts₁)) (function_call (function_name name) es) ts₁
  ]

  -- The loops over the elements of a list and the arguments of a call.
  pub parse_elements : {D : Type 0} → Decimals D → ℕ → List Token → Parse (Exprs D)
  parse_elements fmt zero ts = starved
  parse_elements fmt (suc f) ts = parse_expression fmt f 0 ts >>= λ (e, ts₁).
      elim (is_comma (peek ts₁)) [
        | true ↦ parse_elements fmt f (rest ts₁) >>= λ (es, ts₂). parsed (cons e es) ts₂
        | false ↦ parsed (cons e nil) ts₁
      ]

  pub parse_entries : {D : Type 0} → Decimals D → ℕ → List Token → Parse (Entries D)
  parse_entries fmt zero ts = starved
  parse_entries fmt (suc f) ts = parse_key ts >>= λ (k, ts₁).
      parse_expression fmt f 0 ts₁ >>= λ (e, ts₂). elim (is_comma (peek ts₂)) [
        | true ↦ parse_entries fmt f (rest ts₂) >>= λ (es, ts₃). parsed (entry k e es) ts₃
        | false ↦ parsed (entry k e empty) ts₂
      ]

unfoldable pub is_eof : Token → Bool
is_eof eof = true
is_eof _ = false

-- The end of `ParseExpression`: nothing may be left. `none` is a lack of fuel.
unfoldable pub finish : {D : Type 0} → Parse (Expr D) → Option (Outcome (Expr D))
unfolding peek is_eof
finish (parsed e ts) = some (if is_eof (peek ts) then ok e else err (error_of expression_invalid))
finish (failed e) = some (err e)
finish panicked = some panic
finish starved = none

-- More than four calls for each token are never nested.
abbrev pub enough : List Token → ℕ
enough ts = 4 * length ts + 4

unfoldable pub parse_tokens : {D : Type 0} → Decimals D → List Token → Option (Outcome (Expr D))
unfolding finish parse_expression
parse_tokens fmt ts = finish (parse_expression fmt (enough ts) 0 ts)

-- `ParseExpression`.
unfoldable pub parse : {D : Type 0} → Decimals D → Str → Option (Outcome (Expr D))
unfolding parse_tokens tokenize_expression
parse fmt raw = elim (tokenize_expression raw) [
  | ok ts ↦ parse_tokens fmt ts
  | err e ↦ some (err e)
  | panic ↦ some panic
]
