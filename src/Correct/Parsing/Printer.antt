-- ===== src/Correct/Parsing/Printer.antt =====
-- A printer for the trees that have a text, with no more parentheses than they need: the reference that
-- the parser is compared with.
unfoldable pub use risk_engine.Prelude.Text.{digits, decimal}
pub use risk_engine.Operators.{name_text}
use risk_engine.Prelude.{
  ℕ, suc, ◌^◌, ◌≤◌, ◌<◌, ◌≡◌, Bool, true, false, List, [], ◌∷◌, ◌++◌, Str, ltb, ◌==◌, All,
}
use risk_engine.Prelude.Int.{pos}
use risk_engine.Operators.{ValueType, BinaryOp, UnaryOp, FunctionName}
use risk_engine.Schema.{FactorRef}
use risk_engine.Value.{Value}
use risk_engine.Expr.{
  Expr, literal, factor_ref, conditional, function_call, list, map, unary, binary, Exprs, nil, cons,
  Entries, empty, entry,
}
use risk_engine.Parser.Chars.{is_identifier_part, is_identifier_start}
use risk_engine.Parser.Refs.{is_default_path}
use risk_engine.Parser.Tokens.{
  Operator, or_or, and_and, eq_eq, bang_eq, less, less_eq, greater, greater_eq, plus, minus, star,
  slash, bang, Token, identifier, number, string, null, lparen, rparen, lbracket, rbracket, lbrace,
  rbrace, comma, colon, question, operator, word_token,
}
use risk_engine.Parser.Grammar.{function_name}

unfoldable pub ref_text : Str → List Str → Str
ref_text code [] = code
ref_text code (segment ∷ rest) = code ++ b'.' ∷ ref_text segment rest

abbrev pub operator_of : BinaryOp → Operator
operator_of BinaryOp.or = or_or
operator_of BinaryOp.and = and_and
operator_of BinaryOp.eq = eq_eq
operator_of BinaryOp.ne = bang_eq
operator_of BinaryOp.lt = less
operator_of BinaryOp.le = less_eq
operator_of BinaryOp.gt = greater
operator_of BinaryOp.ge = greater_eq
operator_of BinaryOp.add = plus
operator_of BinaryOp.sub = minus
operator_of BinaryOp.mul = star
operator_of BinaryOp.div = slash
operator_of (BinaryOp.other s) = bang

abbrev pub binary_level : BinaryOp → ℕ
binary_level BinaryOp.or = 1
binary_level BinaryOp.and = 2
binary_level BinaryOp.eq = 3
binary_level BinaryOp.ne = 3
binary_level BinaryOp.lt = 4
binary_level BinaryOp.le = 4
binary_level BinaryOp.gt = 4
binary_level BinaryOp.ge = 4
binary_level BinaryOp.add = 5
binary_level BinaryOp.sub = 5
binary_level BinaryOp.mul = 6
binary_level BinaryOp.div = 6
binary_level (BinaryOp.other s) = 7

abbrev pub unary_operator : UnaryOp → Operator
unary_operator UnaryOp.not = bang
unary_operator UnaryOp.neg = minus
unary_operator (UnaryOp.other s) = bang

-- How strongly the outermost construct binds.
abbrev pub level : {D : Type 0} → Expr D → ℕ
level (binary op l r) = binary_level op
level (conditional c a b) = 0
level _ = 7

abbrev pub literal_token : {D : Type 0} → Value D → Token
literal_token (Value.int (pos n)) = number (decimal n)
literal_token (Value.int64 (pos n)) = number (decimal n)
literal_token (Value.bool b) = Token.bool b
literal_token (Value.str s) = string s
literal_token _ = null

abbrev pub wrap : Bool → List Token → List Token
wrap false ts = ts
wrap true ts = lparen ∷ (ts ++ rparen ∷ [])

unfoldable mutual
  unfolding ref_text

  -- The tokens of an expression where nothing around it binds more strongly.
  pub core : {D : Type 0} → Expr D → List Token
  core (literal v t) = literal_token v ∷ []
  core (factor_ref r) = identifier (ref_text r.factor_code r.path_segments) ∷ []
  core (unary op e) = operator (unary_operator op) ∷ wrap (ltb (level e) 7) (core e)
  core (binary op l r) =
      wrap (ltb (level l) (binary_level op)) (core l)
      ++ operator (operator_of op) ∷ wrap (ltb (level r) (suc (binary_level op))) (core r)
  core (conditional c a b) =
      wrap (ltb (level c) 1) (core c) ++ question ∷ (core a ++ colon ∷ core b)
  core (function_call name args) =
      identifier (name_text name) ∷ lparen ∷ (core_elements args ++ rparen ∷ [])
  core (list es) = lbracket ∷ (core_elements es ++ rbracket ∷ [])
  core (map es) = lbrace ∷ (core_entries es ++ rbrace ∷ [])

  pub core_elements : {D : Type 0} → Exprs D → List Token
  core_elements nil = []
  core_elements (cons e nil) = core e
  core_elements (cons e (cons e' es)) = core e ++ comma ∷ core_elements (cons e' es)

  pub core_entries : {D : Type 0} → Entries D → List Token
  core_entries empty = []
  core_entries (entry k e empty) = string k ∷ colon ∷ core e
  core_entries (entry k e (entry k' e' es)) =
      string k ∷ colon ∷ (core e ++ comma ∷ core_entries (entry k' e' es))

-- Behind an operator of strength `p`.
abbrev pub print : {D : Type 0} → ℕ → Expr D → List Token
print p e = wrap (ltb (level e) p) (core e)

-- Letters, digits and underscores of ASCII.
abbrev pub IsNameByte : ℕ → Type 0
IsNameByte c = (32 < c) × (c < 128) × (is_identifier_part c ≡ true) × ((c == b'.') ≡ false)

abbrev pub IsPart : Str → Type 0
IsPart [] = ⊥
IsPart (c ∷ cs) = All IsNameByte (c ∷ cs)

-- A name that starts with no digit, and is not one of the words with a meaning of their own.
abbrev pub IsWord : Str → Type 0
IsWord [] = ⊥
IsWord (c ∷ cs) = (is_identifier_start c ≡ true) × (word_token (c ∷ cs) ≡ identifier (c ∷ cs))

abbrev pub IsRef : FactorRef → Type 0
IsRef r =
    IsPart r.factor_code
    × All IsPart r.path_segments
    × IsWord (ref_text r.factor_code r.path_segments)
    × (r.is_default_value_ref ≡ is_default_path r.path_segments)

abbrev pub IsFunctionName : FunctionName → Type 0
IsFunctionName (FunctionName.other name) =
    IsPart name × IsWord name × (function_name name ≡ FunctionName.other name)
IsFunctionName _ = Unit

-- No double quote.
abbrev pub IsQuotable : Str → Type 0
IsQuotable s = All (λ c. (c == b'"') ≡ false) s

abbrev pub IsLiteral : {D : Type 0} → Value D → ValueType → Type 0
IsLiteral (Value.int (pos n)) ValueType.int = n ≤ 2147483647
IsLiteral (Value.int64 (pos n)) ValueType.long = (2147483647 < n) × (n < 2 ^ 63)
IsLiteral (Value.bool b) ValueType.bool = Unit
IsLiteral (Value.str s) ValueType.string = IsQuotable s
IsLiteral Value.null ValueType.null = Unit
IsLiteral _ _ = ⊥

abbrev pub IsBinary : BinaryOp → Type 0
IsBinary (BinaryOp.other s) = ⊥
IsBinary _ = Unit

abbrev pub IsUnary : UnaryOp → Type 0
IsUnary (UnaryOp.other s) = ⊥
IsUnary _ = Unit

-- The trees that have a text.
abbrev mutual
  pub IsPrintable : {D : Type 0} → Expr D → Type 0
  IsPrintable (literal v t) = IsLiteral v t
  IsPrintable (factor_ref r) = IsRef r
  IsPrintable (unary op e) = IsUnary op × IsPrintable e
  IsPrintable (binary op l r) = IsBinary op × IsPrintable l × IsPrintable r
  IsPrintable (conditional c a b) = IsPrintable c × IsPrintable a × IsPrintable b
  IsPrintable (function_call name args) = IsFunctionName name × ArePrintable args
  IsPrintable (list es) = ArePrintable es
  IsPrintable (map es) = EntriesArePrintable es

  pub ArePrintable : {D : Type 0} → Exprs D → Type 0
  ArePrintable nil = Unit
  ArePrintable (cons e es) = IsPrintable e × ArePrintable es

  pub EntriesArePrintable : {D : Type 0} → Entries D → Type 0
  EntriesArePrintable empty = Unit
  EntriesArePrintable (entry k e es) = IsQuotable k × IsPrintable e × EntriesArePrintable es
