-- ===== src/Correct/Parsing/Atoms.antt =====
-- How the parser reads the printed tokens of an operand, of parentheses and of a literal.
use mathlib.Core.List.{append_assoc}
use risk_engine.Prelude.{
  ℕ, suc, ◌≤◌, ◌≡◌, refl, false, some, List, [], ◌∷◌, ◌++◌, ltb, arith, Bool-cases, inl, inr,
}
use risk_engine.Prelude.Int.{pos}
use risk_engine.Operators.{ValueType, BinaryOp, UnaryOp}
use risk_engine.Value.{Value}
use risk_engine.Expr.{Expr, literal}
use risk_engine.Parser.Tokens.{Token, lparen, rparen}
use risk_engine.Parser.Grammar.{
  Decimals, Parse, parsed, ◌>>=◌, peek, rest, expect, is_rparen, is_lparen, continuation, stop,
  unary_op, binary_op, parse_expression, parse_loop, parse_prefix,
}
use risk_engine.Correct.Parsing.Printer.{
  core, print, level, binary_level, operator_of, unary_operator, literal_token, IsLiteral, IsBinary,
  IsUnary,
}
use risk_engine.Correct.Parsing.Names.{number-int, number-long}
use risk_engine.Correct.Parsing.Follow.{
  Gives, now, later, andthen, Follow, Closes, Closes-Follow, Follow-le, rparen-Closes,
}

pub binary_op-operator_of : (op : BinaryOp) → IsBinary op → binary_op (operator_of op) ≡ op
unfolding binary_op
binary_op-operator_of (BinaryOp.other s) h = absurd h
binary_op-operator_of op h = refl

pub unary_op-unary_operator : (op : UnaryOp) → IsUnary op → unary_op (unary_operator op) ≡ some op
unfolding unary_op
unary_op-unary_operator (UnaryOp.other s) h = absurd h
unary_op-unary_operator op h = refl

binary_level-le : (op : BinaryOp) → IsBinary op → binary_level op ≤ 6
binary_level-le (BinaryOp.other s) h = absurd h
binary_level-le op h = omega arith

module _ {D : Type 0} (fmt : Decimals D) where
  -- With a tree at hand the loop goes on at what follows its tokens.
  abbrev pub Reads : ℕ → List Token → Expr D → Type 0
  Reads p printed e =
      (m : ℕ) (ts : List Token) (r : Parse (Expr D))
      → m ≤ p
      → Follow p ts
      → Gives (λ f. parse_loop fmt f m e ts) r
      → Gives (λ f. parse_expression fmt f m (printed ++ ts)) r

  pub at_prefix :
      (m : ℕ) (ts us : List Token) (e : Expr D) (r : Parse (Expr D))
      → Gives (λ f. parse_prefix fmt f ts) (parsed e us)
      → Gives (λ f. parse_loop fmt f m e us) r
      → Gives (λ f. parse_expression fmt f m ts) r
  unfolding parse_expression
  at_prefix m ts us e r first then =
      later (λ f. parse_expression fmt f m ts)
        (λ f. parse_prefix fmt f ts >>= λ (left, ts₁). parse_loop fmt f m left ts₁) r (λ f. refl)
        (andthen (λ f. parse_prefix fmt f ts) (λ f (left, ts₁). parse_loop fmt f m left ts₁) e us r
          first then)

  pub loop_stops :
      (m : ℕ) (e : Expr D) (ts : List Token)
      → continuation m (peek ts) ≡ stop
      → Gives (λ f. parse_loop fmt f m e ts) (parsed e ts)
  unfolding parse_loop
  loop_stops m e ts h =
      later (λ f. parse_loop fmt f m e ts) (λ f. parsed e ts) (parsed e ts)
        (λ f. rw (parse_loop, h) refl) (now (parsed e ts))

  -- All of an expression is read.
  pub core_in_full :
      (m p : ℕ) (printed : List Token) (e : Expr D) (ts : List Token)
      → Reads p printed e
      → m ≤ p
      → Follow p ts
      → continuation m (peek ts) ≡ stop
      → Gives (λ f. parse_expression fmt f m (printed ++ ts)) (parsed e ts)
  core_in_full m p printed e ts reads le follow stops =
      reads m ts (parsed e ts) le follow (loop_stops m e ts stops)

  -- An expression up to a token that ends it.
  pub core_up_to :
      (p : ℕ) (printed : List Token) (e : Expr D) (t : Token) (ts : List Token)
      → Reads p printed e
      → Closes t
      → Gives (λ f. parse_expression fmt f 0 (printed ++ t ∷ ts)) (parsed e (t ∷ ts))
  unfolding peek
  core_up_to p printed e t ts reads closes =
      core_in_full 0 p printed e (t ∷ ts) reads (omega arith) (Closes-Follow p t ts closes)
        (closes.0 0)

  -- Parentheses where the strength demands them.
  pub wrap-Reads : (p : ℕ) (e : Expr D) → Reads (level e) (core e) e → Reads p (print p e) e
  unfolding expect is_rparen peek rest parse_prefix
  wrap-Reads p e reads m ts r le follow goes = elim (Bool-cases (ltb (level e) p)) [
    | inl b ↦
        rw (b, append_assoc (core e) (rparen ∷ []) ts)
          (at_prefix m (lparen ∷ (core e ++ rparen ∷ ts)) ts e r
            (later (λ f. parse_prefix fmt f (lparen ∷ (core e ++ rparen ∷ ts)))
              (λ f. parse_expression fmt f 0 (core e ++ rparen ∷ ts) >>= λ (x, ts₁).
                expect (is_rparen (peek ts₁)) x ts₁)
              (parsed e ts) (λ f. refl)
              (andthen (λ f. parse_expression fmt f 0 (core e ++ rparen ∷ ts))
                (λ f (x, ts₁). expect (is_rparen (peek ts₁)) x ts₁) e (rparen ∷ ts) (parsed e ts)
                (core_up_to (level e) (core e) e rparen ts reads rparen-Closes)
                (now (parsed e ts))))
            goes)
    | inr b ↦
        let stronger : p ≤ level e = ground (arith, b) in
        rw b (reads m ts r (omega arith) (Follow-le p (level e) ts stronger follow) goes)
  ]

  pub atom-Reads :
      (t : Token) (e : Expr D)
      → ((f : ℕ) (ts : List Token)
          → is_lparen (peek ts) ≡ false
          → parse_prefix fmt (suc f) (t ∷ ts) ≡ parsed e ts)
      → Reads 7 (t ∷ []) e
  atom-Reads t e step m ts r le (stops, zero_stops, plain) goes =
      at_prefix m (t ∷ ts) ts e r
        (later (λ f. parse_prefix fmt f (t ∷ ts)) (λ f. parsed e ts) (parsed e ts)
          (λ f. step f ts plain) (now (parsed e ts)))
        goes

  pub literal-Reads :
      (v : Value D) (t : ValueType) → IsLiteral v t → Reads 7 (literal_token v ∷ []) (literal v t)
  unfolding parse_prefix
  literal-Reads (Value.int (pos n)) ValueType.int h =
      atom-Reads _ _ λ f ts plain. rw (parse_prefix, number-int fmt n h) refl
  literal-Reads (Value.int64 (pos n)) ValueType.long (h, k) =
      atom-Reads _ _ λ f ts plain. rw (parse_prefix, number-long fmt n h k) refl
  literal-Reads (Value.bool b) ValueType.bool h = atom-Reads _ _ λ f ts plain. refl
  literal-Reads (Value.str s) ValueType.string h = atom-Reads _ _ λ f ts plain. refl
  literal-Reads Value.null ValueType.null h = atom-Reads _ _ λ f ts plain. refl
  literal-Reads v t h = absurd h
