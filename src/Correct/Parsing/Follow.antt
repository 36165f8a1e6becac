-- ===== src/Correct/Parsing/Follow.antt =====
-- What may stand behind and before printed tokens, and calls with enough fuel.
use Prim.Native.Nat.{max}
use risk_engine.Prelude.{
  ℕ, zero, suc, ◌≤◌, ◌<◌, ◌≡◌, refl, ◌∙◌, ap, Bool, true, false, List, [], ◌∷◌, ◌++◌, arith, lt→ltb,
  le→ltb,
}
use risk_engine.Prelude.Int.{pos}
use risk_engine.Operators.{BinaryOp}
use risk_engine.Value.{Value}
use risk_engine.Expr.{Expr, literal, conditional, binary}
use risk_engine.Parser.Tokens.{Token, rparen, rbracket, rbrace, comma, colon, question, operator}
use risk_engine.Parser.Grammar.{
  Parse, parsed, ◌>>=◌, peek, is_rparen, is_rbracket, is_lparen, continuation, stop, operand,
  operator_precedence,
}
use risk_engine.Correct.Parsing.Printer.{
  core, wrap, binary_level, operator_of, literal_token, IsBinary,
}

-- With enough fuel the call gives `r`.
abbrev pub Gives : {A : Type 0} → (ℕ → Parse A) → Parse A → Type 0
Gives P r = (n : ℕ) × ((f : ℕ) → n ≤ f → P f ≡ r)

pub now : {A : Type 0} (r : Parse A) → Gives (λ f. r) r
now r = (0, λ f le. refl)

-- A call that costs a unit of fuel.
pub later :
    {A : Type 0} (P Q : ℕ → Parse A) (r : Parse A)
    → ((f : ℕ) → P (suc f) ≡ Q f)
    → Gives Q r
    → Gives P r
later P Q r step (n, h) = (suc n, go)
  where
    go : (f : ℕ) → suc n ≤ f → P f ≡ r
    go zero le = absurd (omega arith)
    go (suc f) le = step f ∙ h f (omega arith)

pub andthen :
    {A B : Type 0} (M : ℕ → Parse A) (F : ℕ → A × List Token → Parse B) (a : A) (ts : List Token)
    (r : Parse B)
    → Gives M (parsed a ts)
    → Gives (λ f. F f (a, ts)) r
    → Gives (λ f. M f >>= F f) r
andthen M F a ts r (n, h) (k, g) =
    (max n k, λ f le. ap (λ m. m >>= F f) (h f (omega arith)) ∙ g f (omega arith))

-- What may stand behind a printed expression of a strength.
abbrev pub Follow : ℕ → List Token → Type 0
Follow p ts =
    ((k : ℕ) → p < k → continuation k (peek ts) ≡ stop)
    × (p ≡ 0 → continuation 0 (peek ts) ≡ stop)
    × (is_lparen (peek ts) ≡ false)

-- A token that ends every expression.
abbrev pub Closes : Token → Type 0
Closes t = ((k : ℕ) → continuation k t ≡ stop) × (is_lparen t ≡ false)

pub Closes-Follow : (p : ℕ) (t : Token) (ts : List Token) → Closes t → Follow p (t ∷ ts)
unfolding peek
Closes-Follow p t ts (stops, plain) = ((λ k less. stops k), (λ e. stops 0), plain)

pub Follow-le : (p q : ℕ) (ts : List Token) → p ≤ q → Follow p ts → Follow q ts
Follow-le p q ts le (stops, zero_stops, plain) =
    ((λ k less. stops k (omega arith)), (λ e. zero_stops (omega arith)), plain)

-- The first token ends no list.
abbrev pub Opens : List Token → Type 0
Opens [] = ⊥
Opens (t ∷ ts) = (is_rparen t ≡ false) × (is_rbracket t ≡ false)

pub Opens-append : (ts us : List Token) → Opens ts → Opens (ts ++ us)
Opens-append [] us h = absurd h
Opens-append (t ∷ ts) us h = h

pub Opens-wrap : (b : Bool) (ts : List Token) → Opens ts → Opens (wrap b ts)
unfolding is_rparen is_rbracket
Opens-wrap true ts h = (refl, refl)
Opens-wrap false ts h = h

pub literal-Opens : {D : Type 0} (v : Value D) → Opens (literal_token v ∷ [])
unfolding is_rparen is_rbracket
literal-Opens (Value.int (pos n)) = (refl, refl)
literal-Opens (Value.int64 (pos n)) = (refl, refl)
literal-Opens v = (refl, refl)

pub core-Opens : {D : Type 0} (e : Expr D) → Opens (core e)
unfolding core is_rparen is_rbracket
core-Opens (literal v t) = literal-Opens v
core-Opens (binary op l r) = Opens-append (wrap _ (core l)) _ (Opens-wrap _ (core l) (core-Opens l))
core-Opens (conditional c a b) =
    Opens-append (wrap _ (core c)) _ (Opens-wrap _ (core c) (core-Opens c))
core-Opens e = (refl, refl)

pub operand_at :
    (op : BinaryOp) (k : ℕ)
    → IsBinary op
    → k ≤ binary_level op
    → continuation k (operator (operator_of op)) ≡ operand (operator_of op) (binary_level op)
unfolding continuation operator_precedence
operand_at (BinaryOp.other s) k h le = absurd h
operand_at op k h le = rw (le→ltb (binary_level op) k le) refl

pub operator_stops :
    (op : BinaryOp) (k : ℕ)
    → IsBinary op
    → binary_level op < k
    → continuation k (operator (operator_of op)) ≡ stop
unfolding continuation operator_precedence
operator_stops (BinaryOp.other s) k h less = absurd h
operator_stops op k h less = rw (lt→ltb (binary_level op) k less) refl

pub operator-Follow :
    (op : BinaryOp) (ts : List Token)
    → IsBinary op
    → Follow (binary_level op) (operator (operator_of op) ∷ ts)
unfolding peek is_lparen
operator-Follow op ts h =
    ((λ k less. operator_stops op k h less), (λ e. absurd (positive op h e)), refl)
  where
    positive : (o : BinaryOp) → IsBinary o → binary_level o ≡ 0 → ⊥
    positive (BinaryOp.other s) x e = x
    positive o x e = omega arith

pub question_stops : (k : ℕ) → 0 < k → continuation k question ≡ stop
unfolding continuation
question_stops k less = rw (lt→ltb 0 k less) refl

pub question-Follow : (p : ℕ) (ts : List Token) → 0 < p → Follow p (question ∷ ts)
unfolding peek is_lparen
question-Follow p ts less =
    ((λ k m. question_stops k (omega arith)), (λ e. absurd (omega arith)), refl)

pub colon-Closes : Closes colon
unfolding continuation is_lparen
colon-Closes = ((λ k. refl), refl)

pub rparen-Closes : Closes rparen
unfolding continuation is_lparen
rparen-Closes = ((λ k. refl), refl)

pub rbracket-Closes : Closes rbracket
unfolding continuation is_lparen
rbracket-Closes = ((λ k. refl), refl)

pub rbrace-Closes : Closes rbrace
unfolding continuation is_lparen
rbrace-Closes = ((λ k. refl), refl)

pub comma-Closes : Closes comma
unfolding continuation is_lparen
comma-Closes = ((λ k. refl), refl)

-- No operator is strong enough behind the operand of a unary one.
pub seven_stops : (t : Token) (k : ℕ) → 6 < k → continuation k t ≡ stop
unfolding continuation operator_precedence
seven_stops question k less = rw (lt→ltb 0 k (omega arith)) refl
seven_stops (operator op) k less = ground arith
seven_stops t k less = refl
