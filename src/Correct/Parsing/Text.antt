-- ===== src/Correct/Parsing/Text.antt =====
-- The parser reads the text that is printed for a tree.
use risk_engine.Prelude.{
  ℕ, suc, ◌+◌, ◌/◌, ◌%◌, ◌≡◌, refl, Bool, true, false, some, List, [], ◌∷◌, ◌++◌, Str, All, ltb,
  Bool-cases, inl, inr,
}
use risk_engine.Prelude.Int.{pos}
use risk_engine.Outcome.{ok}
use risk_engine.Operators.{ValueType, FunctionName}
use risk_engine.Schema.{FactorRef}
use risk_engine.Value.{Value}
use risk_engine.Expr.{
  Expr, literal, factor_ref, conditional, function_call, list, map, unary, binary, Exprs, nil, cons,
  Entries, empty, entry,
}
use risk_engine.Parser.Chars.{is_identifier_part}
use risk_engine.Parser.Tokens.{Token, identifier, rparen, word_token, tokenize_expression}
use risk_engine.Parser.Grammar.{Decimals, parse}
use risk_engine.Correct.Parsing.Printer.{
  core, core_elements, core_entries, print, wrap, binary_level, literal_token, decimal, digits,
  name_text, ref_text, IsNameByte, IsFunctionName, IsPrintable, ArePrintable, EntriesArePrintable,
  IsLiteral, IsRef, IsQuotable,
}
use risk_engine.Correct.Parsing.Names.{IsDigits, digits-IsDigits, ref_text-bytes}
use risk_engine.Correct.Parsing.Lexing.{IsLexical, render, tokens_from-render}
use risk_engine.Correct.Parsing.RoundTrip.{parse_tokens-core}

-- A text for a tree: its tokens, with a blank behind each.
abbrev pub text : {D : Type 0} → Expr D → Str
text e = render (core e)

abbrev AreLexical : List Token → Type 0
AreLexical ts = All IsLexical ts

append-AreLexical : (ts us : List Token) → AreLexical ts → AreLexical us → AreLexical (ts ++ us)
append-AreLexical [] us h k = k
append-AreLexical (t ∷ ts) us (h, l) k = (h, append-AreLexical ts us l k)

wrap-AreLexical : (b : Bool) (ts : List Token) → AreLexical ts → AreLexical (wrap b ts)
wrap-AreLexical true ts h = (tt, append-AreLexical ts (rparen ∷ []) h (tt, tt))
wrap-AreLexical false ts h = h

snoc_full : (s : Str) (c : ℕ) → s ++ c ∷ [] ≡ [] → ⊥
snoc_full [] c h = cc
snoc_full (d ∷ s) c h = cc

decimal_full : (n : ℕ) → decimal n ≡ [] → ⊥
unfolding digits
decimal_full n = elim (Bool-cases (ltb n 10)) [
  | inl e ↦ rw (digits, e) (snoc_full [] (48 + n))
  | inr e ↦ rw (digits, e) (snoc_full (digits n (n / 10)) (48 + n % 10))
]

number-IsLexical : (s : Str) → IsDigits s → (s ≡ [] → ⊥) → IsLexical (Token.number s)
number-IsLexical [] h ne = absurd (ne refl)
number-IsLexical (c ∷ cs) h ne = h

digits-IsLexical : (n : ℕ) → IsLexical (Token.number (decimal n))
digits-IsLexical n = number-IsLexical (decimal n) (digits-IsDigits (suc n) n) (decimal_full n)

literal-IsLexical :
    {D : Type 0} (v : Value D) (t : ValueType) → IsLiteral v t → IsLexical (literal_token v)
literal-IsLexical (Value.int (pos n)) ValueType.int h = digits-IsLexical n
literal-IsLexical (Value.int64 (pos n)) ValueType.long h = digits-IsLexical n
literal-IsLexical (Value.bool b) ValueType.bool h = tt
literal-IsLexical (Value.str s) ValueType.string h = h
literal-IsLexical Value.null ValueType.null h = tt
literal-IsLexical v t h = absurd h

part_byte : (c : ℕ) → IsNameByte c → is_identifier_part c ≡ true
part_byte c (a, b, part, d) = part

ref-IsLexical :
    (r : FactorRef) → IsRef r → IsLexical (identifier (ref_text r.factor_code r.path_segments))
ref-IsLexical r (code, segments, word, flag) = (
  word,
  ref_text-bytes (λ c. is_identifier_part c ≡ true) r.factor_code r.path_segments part_byte refl
      code segments,
)

name-IsLexical :
    (name : FunctionName) → IsFunctionName name → IsLexical (identifier (name_text name))
unfolding ref_text word_token
name-IsLexical (FunctionName.other name) (part, word, same) =
    (word, ref_text-bytes (λ c. is_identifier_part c ≡ true) name [] part_byte refl part tt)
name-IsLexical FunctionName.is_empty h =
    ((refl, refl), (refl, (refl, (refl, (refl, (refl, (refl, (refl, tt))))))))
name-IsLexical FunctionName.exists h =
    ((refl, refl), (refl, (refl, (refl, (refl, (refl, (refl, tt)))))))
name-IsLexical FunctionName.in_list h = ((refl, refl), (refl, (refl, tt)))
name-IsLexical FunctionName.contains h =
    ((refl, refl), (refl, (refl, (refl, (refl, (refl, (refl, (refl, (refl, tt)))))))))
name-IsLexical FunctionName.get h = ((refl, refl), (refl, (refl, (refl, tt))))

element-AreLexical :
    {D : Type 0} (e : Expr D) (es : Exprs D)
    → AreLexical (core e)
    → AreLexical (core_elements es)
    → AreLexical (core_elements (cons e es))
unfolding core
element-AreLexical e nil h k = h
element-AreLexical e (cons e' es) h k = append-AreLexical (core e) _ h (tt, k)

entry-AreLexical :
    {D : Type 0} (key : Str) (e : Expr D) (es : Entries D)
    → IsQuotable key
    → AreLexical (core e)
    → AreLexical (core_entries es)
    → AreLexical (core_entries (entry key e es))
unfolding core
entry-AreLexical key e empty q h k = (q, (tt, h))
entry-AreLexical key e (entry k' e' es) q h k = (q, (tt, append-AreLexical (core e) _ h (tt, k)))

mutual
  unfolding core ref_text

  core-AreLexical : {D : Type 0} (e : Expr D) → IsPrintable e → AreLexical (core e)
  core-AreLexical (literal v t) h = (literal-IsLexical v t h, tt)
  core-AreLexical (factor_ref r) h = (ref-IsLexical r h, tt)
  core-AreLexical (unary op e) (h, k) = (tt, wrap-AreLexical _ (core e) (core-AreLexical e k))
  core-AreLexical (binary op x y) (h, k, l) =
      append-AreLexical (print (binary_level op) x) _
        (wrap-AreLexical _ (core x) (core-AreLexical x k))
        (tt, wrap-AreLexical _ (core y) (core-AreLexical y l))
  core-AreLexical (conditional c a b) (h, k, l) =
      append-AreLexical (print 1 c) _ (wrap-AreLexical _ (core c) (core-AreLexical c h))
        (tt, append-AreLexical (core a) _ (core-AreLexical a k) (tt, core-AreLexical b l))
  core-AreLexical (function_call name es) (h, k) = (
    name-IsLexical name h,
    (tt, append-AreLexical (core_elements es) (rparen ∷ []) (elements-AreLexical es k) (tt, tt)),
  )
  core-AreLexical (list es) h =
      (tt, append-AreLexical (core_elements es) _ (elements-AreLexical es h) (tt, tt))
  core-AreLexical (map es) h =
      (tt, append-AreLexical (core_entries es) _ (entries-AreLexical es h) (tt, tt))

  elements-AreLexical :
      {D : Type 0} (es : Exprs D) → ArePrintable es → AreLexical (core_elements es)
  elements-AreLexical nil h = tt
  elements-AreLexical (cons e es) (h, k) =
      element-AreLexical e es (core-AreLexical e h) (elements-AreLexical es k)

  entries-AreLexical :
      {D : Type 0} (es : Entries D) → EntriesArePrintable es → AreLexical (core_entries es)
  entries-AreLexical empty h = tt
  entries-AreLexical (entry k e es) (q, h, l) =
      entry-AreLexical k e es q (core-AreLexical e h) (entries-AreLexical es l)

-- The parser reads the text of a printable tree as the tree. In that text an operand has parentheses only
-- where its operator binds less strongly than its place demands, so the precedence of the operators, and
-- that they group to the left, are what is compared.
pub parse-text :
    {D : Type 0} (fmt : Decimals D) (e : Expr D) → IsPrintable e → parse fmt (text e) ≡ some (ok e)
unfolding parse tokenize_expression
parse-text fmt e h =
    rw (parse, tokens_from-render (core e) (core-AreLexical e h)) (parse_tokens-core fmt e h)
