-- ===== src/Correct/Parsing/Constructs.antt =====
-- The parser reads references, operators and conditionals when it reads their parts.
use mathlib.Core.List.{append_assoc}
use risk_engine.Prelude.{ℕ, zero, suc, ◌≤◌, ◌≡◌, refl, List, ◌∷◌, ◌++◌, arith}
use risk_engine.Operators.{BinaryOp, UnaryOp}
use risk_engine.Schema.{FactorRef}
use risk_engine.Expr.{Expr, factor_ref, conditional, unary, binary}
use risk_engine.Parser.Tokens.{Token, colon, question, operator}
use risk_engine.Parser.Grammar.{
  Decimals, parsed, ◌>>=◌, peek, rest, expect, is_colon, continuation, ternary, parse_expression,
  parse_loop, parse_prefix, ref_literal,
}
use risk_engine.Correct.Parsing.Printer.{
  core, print, level, binary_level, operator_of, unary_operator, IsBinary, IsUnary, IsRef,
}
use risk_engine.Correct.Parsing.Names.{parse_factor_ref-ref_text}
use risk_engine.Correct.Parsing.Follow.{
  now, later, andthen, Follow-le, operand_at, operator-Follow, question-Follow, colon-Closes,
  seven_stops,
}
use risk_engine.Correct.Parsing.Atoms.{
  binary_op-operator_of, unary_op-unary_operator, Reads, at_prefix, core_in_full, core_up_to,
  wrap-Reads, atom-Reads,
}

module _ {D : Type 0} (fmt : Decimals D) where
  pub ref-Reads :
      (r : FactorRef) → IsRef r → Reads fmt 7 (core {D = D} (factor_ref r)) (factor_ref r)
  unfolding core parse_prefix ref_literal peek
  ref-Reads r h =
      atom-Reads fmt _ _
        λ f ts plain. rw (parse_prefix, plain, ref_literal, parse_factor_ref-ref_text r h) refl

  pub unary-Reads :
      (op : UnaryOp) (e : Expr D)
      → IsUnary op
      → Reads fmt (level e) (core e) e
      → Reads fmt 7 (core (unary op e)) (unary op e)
  unfolding core parse_prefix
  unary-Reads op e h reads m ts r le follow goes =
      at_prefix fmt m (operator (unary_operator op) ∷ (print 7 e ++ ts)) ts (unary op e) r
        (later (λ f. parse_prefix fmt f (operator (unary_operator op) ∷ (print 7 e ++ ts)))
          (λ f. parse_expression fmt f 7 (print 7 e ++ ts) >>= λ (x, ts₁). parsed (unary op x) ts₁)
          (parsed (unary op e) ts) (λ f. rw (parse_prefix, unary_op-unary_operator op h) refl)
          (andthen (λ f. parse_expression fmt f 7 (print 7 e ++ ts))
            (λ f (x, ts₁). parsed (unary op x) ts₁) e ts (parsed (unary op e) ts)
            (core_in_full fmt 7 7 (print 7 e) e ts (wrap-Reads fmt 7 e reads) (omega arith) follow
              (seven_stops (peek ts) 7 (omega arith)))
            (now (parsed (unary op e) ts))))
        goes

  pub binary-Reads :
      (op : BinaryOp) (x y : Expr D)
      → IsBinary op
      → Reads fmt (level x) (core x) x
      → Reads fmt (level y) (core y) y
      → Reads fmt (binary_level op) (core (binary op x y)) (binary op x y)
  unfolding core parse_loop peek rest
  binary-Reads op x y h reads_x reads_y m ts r le follow goes =
      let p : ℕ = binary_level op in
      let right : List Token = print (suc p) y ++ ts in
      rw (append_assoc (print p x) (operator (operator_of op) ∷ print (suc p) y) ts) (
        wrap-Reads fmt p x reads_x m (operator (operator_of op) ∷ right) r le
          (operator-Follow op right h)
          (later (λ f. parse_loop fmt f m x (operator (operator_of op) ∷ right))
            (λ f. parse_expression fmt f (suc p) right >>= λ (e, ts₁).
              parse_loop fmt f m (binary op x e) ts₁)
            r (λ f. rw (parse_loop, operand_at op m h le, binary_op-operator_of op h) refl)
            (andthen (λ f. parse_expression fmt f (suc p) right)
              (λ f (e, ts₁). parse_loop fmt f m (binary op x e) ts₁) y ts r
              (core_in_full fmt (suc p) (suc p) (print (suc p) y) y ts
                (wrap-Reads fmt (suc p) y reads_y) (omega arith)
                (Follow-le p (suc p) ts (omega arith) follow) (follow.0 (suc p) (omega arith)))
              goes)))

  ternary_at : (m : ℕ) → m ≤ 0 → continuation m question ≡ ternary
  unfolding continuation
  ternary_at zero le = refl
  ternary_at (suc m) le = absurd (omega arith)

  pub conditional-Reads :
      (c a b : Expr D)
      → Reads fmt (level c) (core c) c
      → Reads fmt (level a) (core a) a
      → Reads fmt (level b) (core b) b
      → Reads fmt 0 (core (conditional c a b)) (conditional c a b)
  unfolding core parse_loop peek rest expect is_colon
  conditional-Reads c a b reads_c reads_a reads_b m ts r le follow goes =
      let after : List Token = core b ++ ts in
      let inner : List Token = core a ++ colon ∷ after in
      rw
        (
          append_assoc (print 1 c) (question ∷ (core a ++ colon ∷ core b)) ts,
          append_assoc (core a) (colon ∷ core b) ts,
        )
        (wrap-Reads fmt 1 c reads_c m (question ∷ inner) r (omega arith)
          (question-Follow 1 inner (omega arith))
          (later (λ f. parse_loop fmt f m c (question ∷ inner))
            (λ f. parse_expression fmt f 0 inner >>= λ (x, ts₁).
              expect (is_colon (peek ts₁)) tt ts₁ >>= λ (_, ts₂).
              parse_expression fmt f 0 ts₂ >>= λ (y, ts₃).
              parse_loop fmt f m (conditional c x y) ts₃)
            r (λ f. rw (parse_loop, ternary_at m le) refl)
            (andthen (λ f. parse_expression fmt f 0 inner)
              (λ f (x, ts₁). expect (is_colon (peek ts₁)) tt ts₁ >>= λ (_, ts₂).
                parse_expression fmt f 0 ts₂ >>= λ (y, ts₃).
                parse_loop fmt f m (conditional c x y) ts₃)
              a (colon ∷ after) r
              (core_up_to fmt (level a) (core a) a colon after reads_a colon-Closes)
              (andthen (λ f. parse_expression fmt f 0 after)
                (λ f (y, ts₃). parse_loop fmt f m (conditional c a y) ts₃) b ts r
                (core_in_full fmt 0 (level b) (core b) b ts reads_b (omega arith)
                  (Follow-le 0 (level b) ts (omega arith) follow) (follow.1 refl))
                goes))))
