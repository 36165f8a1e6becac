-- ===== src/Correct/Parsing/Fuel.antt =====
-- The parser has enough fuel: it returns on every text.
use risk_engine.Prelude.{
  ℕ, zero, suc, ◌+◌, ◌*◌, ◌≤◌, ◌<◌, ◌≡◌, refl, Bool, true, false, Option, some, List, [], ◌∷◌, Str,
  length, arith, Bool-cases, Option-cases, ◌⊎◌, inl, inr,
}
use risk_engine.Outcome.{Outcome, ok, err, panic}
use risk_engine.Expr.{Expr, conditional, binary}
use risk_engine.Correct.Parsing.Safety.{
  Safe, Safe-if, Safe-ref_literal, Safe-number_literal, Safe-tokens_from,
}
use risk_engine.Parser.Tokens.{
  Operator, Token, identifier, number, string, bool, null, lparen, lbracket, lbrace, operator,
  tokenize_expression,
}
use risk_engine.Parser.Grammar.{
  Decimals, Parse, parsed, failed, panicked, starved, ◌>>=◌, lift, peek, rest, expect, is_comma,
  is_colon, is_rparen, is_rbracket, is_rbrace, is_lparen, Continuation, stop, ternary, operand,
  continuation, unary_op, binary_op, parse_key, parse_expression, parse_loop, parse_prefix,
  parse_list_literal, parse_map_literal, parse_function_call, parse_elements, parse_entries, finish,
  is_eof, enough, parse_tokens, parse, ref_literal, number_literal,
}

-- The call had enough fuel, and leaves fewer tokens than `n` if it succeeds.
abbrev pub Leaves : {A : Type 0} → ℕ → Parse A → Type 0
Leaves n (parsed a ts) = length ts < n
Leaves n (failed e) = Unit
Leaves n panicked = ⊥
Leaves n starved = ⊥

Leaves-bind :
    {A B : Type 0} (n k : ℕ) (m : Parse A) (f : A × List Token → Parse B)
    → Leaves n m
    → ((a : A) (ts : List Token) → length ts < n → Leaves k (f (a, ts)))
    → Leaves k (m >>= f)
Leaves-bind n k (parsed a ts) f h g = g a ts h
Leaves-bind n k (failed e) f h g = tt
Leaves-bind n k panicked f h g = absurd h
Leaves-bind n k starved f h g = absurd h

Leaves-weaken : {A : Type 0} (n k : ℕ) (m : Parse A) → n ≤ k → Leaves n m → Leaves k m
Leaves-weaken n k (parsed a ts) le h = omega arith
Leaves-weaken n k (failed e) le h = tt
Leaves-weaken n k panicked le h = absurd h
Leaves-weaken n k starved le h = absurd h

Leaves-lift :
    {A : Type 0} (n : ℕ) (o : Outcome A) (ts : List Token)
    → Safe o
    → length ts < n
    → Leaves n (lift o ts)
Leaves-lift n (ok a) ts s h = h
Leaves-lift n (err e) ts s h = tt
Leaves-lift n panic ts s h = absurd s

rest-le : (ts : List Token) → length (rest ts) ≤ length ts
unfolding rest
rest-le [] = omega arith
rest-le (t ∷ ts) = omega arith

Leaves-expect :
    {A : Type 0} (n : ℕ) (b : Bool) (a : A) (ts : List Token)
    → length ts < n
    → Leaves n (expect b a ts)
unfolding expect
Leaves-expect n true a ts h = omega (arith, rest-le ts)
Leaves-expect n false a ts h = tt

pub Continuation-cases :
    (c : Continuation)
    → (c ≡ stop) ⊎ ((c ≡ ternary) ⊎ ((op : Operator) × (prec : ℕ) × (c ≡ operand op prec)))
Continuation-cases stop = inl refl
Continuation-cases ternary = inr (inl refl)
Continuation-cases (operand op prec) = inr (inr (op, prec, refl))

Leaves-parse_key : (ts : List Token) → Leaves (length ts) (parse_key ts)
unfolding parse_key
Leaves-parse_key (string k ∷ ts) = Leaves-expect _ (is_colon (peek ts)) k ts (omega arith)
Leaves-parse_key [] = tt
Leaves-parse_key (t ∷ ts) = tt

module _ {D : Type 0} (fmt : Decimals D) where
  mutual
    unfolding parse_expression peek rest

    Leaves-parse_expression :
        (f min_prec : ℕ) (ts : List Token)
        → 4 * length ts + 1 < f
        → Leaves (length ts) (parse_expression fmt f min_prec ts)
    Leaves-parse_expression zero min_prec ts h = absurd (omega arith)
    Leaves-parse_expression (suc f) min_prec ts h =
        Leaves-bind (length ts) (length ts) (parse_prefix fmt f ts) _
          (Leaves-parse_prefix f ts (omega arith))
          λ left ts₁ less. Leaves-parse_loop f (length ts) min_prec left ts₁ less (omega arith)

    Leaves-parse_loop :
        (f n min_prec : ℕ) (left : Expr D) (ts : List Token)
        → length ts < n
        → 4 * length ts + 1 < f
        → Leaves n (parse_loop fmt f min_prec left ts)
    Leaves-parse_loop zero n min_prec left ts m h = absurd (omega arith)
    Leaves-parse_loop (suc f) n min_prec left [] m h = m
    Leaves-parse_loop (suc f) n min_prec left (t ∷ ts) m h =
        elim (Continuation-cases (continuation min_prec t)) [
          | inl e ↦ rw (parse_loop, e) m
          | inr (inl e) ↦
              rw (parse_loop, e)
                (Leaves-bind (length ts) n (parse_expression fmt f 0 ts) _
                  (Leaves-parse_expression f 0 ts (omega arith))
                  λ a ts₁ l₁.
                    Leaves-bind (length ts) n (expect (is_colon (peek ts₁)) tt ts₁) _
                      (Leaves-expect (length ts) (is_colon (peek ts₁)) tt ts₁ l₁)
                      λ _ ts₂ l₂.
                        Leaves-bind (length ts) n (parse_expression fmt f 0 ts₂) _
                          (Leaves-weaken (length ts₂) (length ts) (parse_expression fmt f 0 ts₂)
                            (omega arith) (Leaves-parse_expression f 0 ts₂ (omega arith)))
                          λ b ts₃ l₃.
                            Leaves-parse_loop f n min_prec (conditional left a b) ts₃ (omega arith)
                              (omega arith))
          | inr (inr (op, prec, e)) ↦
              rw (parse_loop, e)
                (Leaves-bind (length ts) n (parse_expression fmt f (suc prec) ts) _
                  (Leaves-parse_expression f (suc prec) ts (omega arith))
                  λ right ts₁ l₁.
                    Leaves-parse_loop f n min_prec (binary (binary_op op) left right) ts₁
                      (omega arith) (omega arith))
        ]

    Leaves-parse_prefix :
        (f : ℕ) (ts : List Token) → 4 * length ts < f → Leaves (length ts) (parse_prefix fmt f ts)
    Leaves-parse_prefix zero ts h = absurd (omega arith)
    Leaves-parse_prefix (suc f) [] h = tt
    Leaves-parse_prefix (suc f) (identifier raw ∷ ts) h = elim (Bool-cases (is_lparen (peek ts))) [
      | inl e ↦
          rw (parse_prefix, e)
            (Leaves-weaken (suc (length (rest ts))) (suc (length ts))
              (parse_function_call fmt f raw (rest ts)) (omega (arith, rest-le ts))
              (Leaves-parse_function_call f raw (rest ts) (omega (arith, rest-le ts))))
      | inr e ↦
          rw (parse_prefix, e)
            (Leaves-lift _ (ref_literal fmt raw) ts (Safe-ref_literal fmt raw) (omega arith))
    ]
    Leaves-parse_prefix (suc f) (number raw ∷ ts) h =
        Leaves-lift _ (number_literal fmt raw) ts (Safe-number_literal fmt raw) (omega arith)
    Leaves-parse_prefix (suc f) (string s ∷ ts) h = omega arith
    Leaves-parse_prefix (suc f) (bool b ∷ ts) h = omega arith
    Leaves-parse_prefix (suc f) (null ∷ ts) h = omega arith
    Leaves-parse_prefix (suc f) (operator op ∷ ts) h = elim (Option-cases (unary_op op)) [
      | inl e ↦ rw (parse_prefix, e) tt
      | inr (u, e) ↦
          rw (parse_prefix, e)
            (Leaves-bind (length ts) (suc (length ts)) (parse_expression fmt f 7 ts) _
              (Leaves-parse_expression f 7 ts (omega arith)) λ x ts₁ l. omega arith)
    ]
    Leaves-parse_prefix (suc f) (lparen ∷ ts) h =
        Leaves-bind (length ts) (suc (length ts)) (parse_expression fmt f 0 ts) _
          (Leaves-parse_expression f 0 ts (omega arith))
          λ x ts₁ l. Leaves-expect _ (is_rparen (peek ts₁)) x ts₁ (omega arith)
    Leaves-parse_prefix (suc f) (lbracket ∷ ts) h = Leaves-parse_list_literal f ts (omega arith)
    Leaves-parse_prefix (suc f) (lbrace ∷ ts) h = Leaves-parse_map_literal f ts (omega arith)
    Leaves-parse_prefix (suc f) (t ∷ ts) h = tt

    Leaves-parse_list_literal :
        (f : ℕ) (ts : List Token)
        → 4 * length ts + 3 < f
        → Leaves (suc (length ts)) (parse_list_literal fmt f ts)
    Leaves-parse_list_literal zero ts h = absurd (omega arith)
    Leaves-parse_list_literal (suc f) ts h = elim (Bool-cases (is_rbracket (peek ts))) [
      | inl e ↦ rw (parse_list_literal, e) (omega (arith, rest-le ts))
      | inr e ↦
          rw (parse_list_literal, e)
            (Leaves-bind (length ts) (suc (length ts)) (parse_elements fmt f ts) _
              (Leaves-parse_elements f ts (omega arith))
              λ es ts₁ l. Leaves-expect _ (is_rbracket (peek ts₁)) (Expr.list es) ts₁ (omega arith))
    ]

    Leaves-parse_map_literal :
        (f : ℕ) (ts : List Token)
        → 4 * length ts + 3 < f
        → Leaves (suc (length ts)) (parse_map_literal fmt f ts)
    Leaves-parse_map_literal zero ts h = absurd (omega arith)
    Leaves-parse_map_literal (suc f) ts h = elim (Bool-cases (is_rbrace (peek ts))) [
      | inl e ↦ rw (parse_map_literal, e) (omega (arith, rest-le ts))
      | inr e ↦
          rw (parse_map_literal, e)
            (Leaves-bind (length ts) (suc (length ts)) (parse_entries fmt f ts) _
              (Leaves-parse_entries f ts (omega arith))
              λ es ts₁ l. Leaves-expect _ (is_rbrace (peek ts₁)) (Expr.map es) ts₁ (omega arith))
    ]

    Leaves-parse_function_call :
        (f : ℕ) (name : Str) (ts : List Token)
        → 4 * length ts + 3 < f
        → Leaves (suc (length ts)) (parse_function_call fmt f name ts)
    Leaves-parse_function_call zero name ts h = absurd (omega arith)
    Leaves-parse_function_call (suc f) name ts h = elim (Bool-cases (is_rparen (peek ts))) [
      | inl e ↦ rw (parse_function_call, e) (omega (arith, rest-le ts))
      | inr e ↦
          rw (parse_function_call, e)
            (Leaves-bind (length ts) (suc (length ts)) (parse_elements fmt f ts) _
              (Leaves-parse_elements f ts (omega arith))
              λ es ts₁ l. Leaves-expect _ (is_rparen (peek ts₁)) _ ts₁ (omega arith))
    ]

    Leaves-parse_elements :
        (f : ℕ) (ts : List Token)
        → 4 * length ts + 2 < f
        → Leaves (length ts) (parse_elements fmt f ts)
    Leaves-parse_elements zero ts h = absurd (omega arith)
    Leaves-parse_elements (suc f) ts h =
        Leaves-bind (length ts) (length ts) (parse_expression fmt f 0 ts) _
          (Leaves-parse_expression f 0 ts (omega arith))
          λ e ts₁ l. elim (Bool-cases (is_comma (peek ts₁))) [
            | inl c ↦ rw c (
                Leaves-bind (length (rest ts₁)) (length ts) (parse_elements fmt f (rest ts₁)) _
                  (Leaves-parse_elements f (rest ts₁) (omega (arith, rest-le ts₁)))
                  λ es ts₂ l₂. omega (arith, rest-le ts₁))
            | inr c ↦ rw c l
          ]

    Leaves-parse_entries :
        (f : ℕ) (ts : List Token)
        → 4 * length ts + 2 < f
        → Leaves (length ts) (parse_entries fmt f ts)
    Leaves-parse_entries zero ts h = absurd (omega arith)
    Leaves-parse_entries (suc f) ts h =
        Leaves-bind (length ts) (length ts) (parse_key ts) _ (Leaves-parse_key ts) λ k ts₁ l₁.
          Leaves-bind (length ts₁) (length ts) (parse_expression fmt f 0 ts₁) _
            (Leaves-parse_expression f 0 ts₁ (omega arith))
            λ e ts₂ l₂. elim (Bool-cases (is_comma (peek ts₂))) [
              | inl c ↦ rw c (
                  Leaves-bind (length (rest ts₂)) (length ts) (parse_entries fmt f (rest ts₂)) _
                    (Leaves-parse_entries f (rest ts₂) (omega (arith, rest-le ts₂)))
                    λ es ts₃ l₃. omega (arith, rest-le ts₂))
              | inr c ↦ rw c (omega arith)
            ]

  abbrev pub Returns : Option (Outcome (Expr D)) → Type 0
  Returns x = (o : Outcome (Expr D)) × (x ≡ some o) × (o ≡ panic → ⊥)

  not_panic : (o : Outcome (Expr D)) → Safe o → o ≡ panic → ⊥
  not_panic (ok e) s h = cc
  not_panic (err e) s h = cc
  not_panic panic s h = s

  finish-Returns : (n : ℕ) (r : Parse (Expr D)) → Leaves n r → Returns (finish r)
  unfolding finish
  finish-Returns n (parsed e ts) h = (_, refl, not_panic _ (Safe-if (is_eof (peek ts)) _ _ tt tt))
  finish-Returns n (failed e) h = (err e, refl, not_panic (err e) tt)
  finish-Returns n panicked h = absurd h
  finish-Returns n starved h = absurd h

  pub parse_tokens-Returns : (ts : List Token) → Returns (parse_tokens fmt ts)
  unfolding parse_tokens
  parse_tokens-Returns ts =
      finish-Returns (length ts) (parse_expression fmt (enough ts) 0 ts)
        (Leaves-parse_expression (enough ts) 0 ts (omega arith))

  tokenized-Returns :
      (raw : Str) (t : Outcome (List Token))
      → tokenize_expression raw ≡ t
      → Safe t
      → Returns (parse fmt raw)
  unfolding parse
  tokenized-Returns raw (ok ts) e s = rw (parse, e) (parse_tokens-Returns ts)
  tokenized-Returns raw (err x) e s = rw (parse, e) (err x, refl, not_panic (err x) tt)
  tokenized-Returns raw panic e s = absurd s

  -- The parser returns on every text, with a tree or an error: its fuel is enough, and no call panics.
  pub parse_returns :
      (raw : Str) → (o : Outcome (Expr D)) × (parse fmt raw ≡ some o) × (o ≡ panic → ⊥)
  unfolding tokenize_expression
  parse_returns raw = tokenized-Returns raw (tokenize_expression raw) refl (Safe-tokens_from 0 raw)
