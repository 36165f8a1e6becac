-- ===== src/Correct/Parsing/Stable.antt =====
-- Fuel that is not needed makes no difference.
use risk_engine.Prelude.{
  ℕ, zero, suc, ◌≤◌, ◌≡◌, refl, List, [], ◌∷◌, Str, arith, Bool-cases, Option-cases, inl, inr,
}
use risk_engine.Expr.{Expr, conditional, binary}
use risk_engine.Parser.Tokens.{Token, identifier, number, lparen, lbracket, lbrace, operator}
use risk_engine.Parser.Grammar.{
  Decimals, Parse, parsed, failed, panicked, starved, ◌>>=◌, lift, peek, rest, expect, is_comma,
  is_colon, is_rparen, is_rbracket, is_rbrace, is_lparen, continuation, unary_op, binary_op,
  parse_key, parse_expression, parse_loop, parse_prefix, parse_list_literal, parse_map_literal,
  parse_function_call, parse_elements, parse_entries, ref_literal, number_literal, function_name,
}
use risk_engine.Correct.Parsing.Fuel.{Continuation-cases}

-- The second is what the first is, unless the first lacks fuel.
abbrev pub Below : {A : Type 0} → Parse A → Parse A → Type 0
Below (parsed a ts) y = y ≡ parsed a ts
Below (failed e) y = y ≡ failed e
Below panicked y = y ≡ panicked
Below starved y = Unit

Below-refl : {A : Type 0} (x : Parse A) → Below x x
Below-refl (parsed a ts) = refl
Below-refl (failed e) = refl
Below-refl panicked = refl
Below-refl starved = tt

Below-bind :
    {A B : Type 0} (m m' : Parse A) (f f' : A × List Token → Parse B)
    → Below m m'
    → ((a : A) (ts : List Token) → Below (f (a, ts)) (f' (a, ts)))
    → Below (m >>= f) (m' >>= f')
Below-bind (parsed a ts) m' f f' h g = rw h (g a ts)
Below-bind (failed e) m' f f' h g = rw h refl
Below-bind panicked m' f f' h g = rw h refl
Below-bind starved m' f f' h g = tt

module _ {D : Type 0} (fmt : Decimals D) where
  mutual
    unfolding parse_expression

    pub parse_expression-Below :
        (f g min_prec : ℕ) (ts : List Token)
        → f ≤ g
        → Below (parse_expression fmt f min_prec ts) (parse_expression fmt g min_prec ts)
    parse_expression-Below zero g min_prec ts h = tt
    parse_expression-Below (suc f) zero min_prec ts h = absurd (omega arith)
    parse_expression-Below (suc f) (suc g) min_prec ts h =
        Below-bind (parse_prefix fmt f ts) (parse_prefix fmt g ts) _ _
          (parse_prefix-Below f g ts (omega arith))
          λ left ts₁. parse_loop-Below f g min_prec left ts₁ (omega arith)

    parse_loop-Below :
        (f g min_prec : ℕ) (left : Expr D) (ts : List Token)
        → f ≤ g
        → Below (parse_loop fmt f min_prec left ts) (parse_loop fmt g min_prec left ts)
    parse_loop-Below zero g min_prec left ts h = tt
    parse_loop-Below (suc f) zero min_prec left ts h = absurd (omega arith)
    parse_loop-Below (suc f) (suc g) min_prec left ts h =
        elim (Continuation-cases (continuation min_prec (peek ts))) [
          | inl e ↦ rw (parse_loop, e) refl
          | inr (inl e) ↦
              rw (parse_loop, e)
                (Below-bind (parse_expression fmt f 0 (rest ts))
                  (parse_expression fmt g 0 (rest ts)) _ _
                  (parse_expression-Below f g 0 (rest ts) (omega arith))
                  λ a ts₁.
                    Below-bind (expect (is_colon (peek ts₁)) tt ts₁) _ _ _
                      (Below-refl (expect (is_colon (peek ts₁)) tt ts₁))
                      λ _ ts₂.
                        Below-bind (parse_expression fmt f 0 ts₂) (parse_expression fmt g 0 ts₂) _ _
                          (parse_expression-Below f g 0 ts₂ (omega arith))
                          λ b ts₃.
                            parse_loop-Below f g min_prec (conditional left a b) ts₃ (omega arith))
          | inr (inr (op, prec, e)) ↦
              rw (parse_loop, e)
                (Below-bind (parse_expression fmt f (suc prec) (rest ts))
                  (parse_expression fmt g (suc prec) (rest ts)) _ _
                  (parse_expression-Below f g (suc prec) (rest ts) (omega arith))
                  λ right ts₁.
                    parse_loop-Below f g min_prec (binary (binary_op op) left right) ts₁
                      (omega arith))
        ]

    parse_prefix-Below :
        (f g : ℕ) (ts : List Token) → f ≤ g → Below (parse_prefix fmt f ts) (parse_prefix fmt g ts)
    parse_prefix-Below zero g ts h = tt
    parse_prefix-Below (suc f) zero ts h = absurd (omega arith)
    parse_prefix-Below (suc f) (suc g) [] h = refl
    parse_prefix-Below (suc f) (suc g) (identifier raw ∷ ts) h =
        elim (Bool-cases (is_lparen (peek ts))) [
          | inl e ↦ rw (parse_prefix, e) (parse_function_call-Below f g raw (rest ts) (omega arith))
          | inr e ↦ rw (parse_prefix, e) (Below-refl (lift (ref_literal fmt raw) ts))
        ]
    parse_prefix-Below (suc f) (suc g) (number raw ∷ ts) h =
        Below-refl (lift (number_literal fmt raw) ts)
    parse_prefix-Below (suc f) (suc g) (operator op ∷ ts) h = elim (Option-cases (unary_op op)) [
      | inl e ↦ rw (parse_prefix, e) refl
      | inr (u, e) ↦
          rw (parse_prefix, e)
            (Below-bind (parse_expression fmt f 7 ts) (parse_expression fmt g 7 ts) _ _
              (parse_expression-Below f g 7 ts (omega arith)) λ x ts₁. refl)
    ]
    parse_prefix-Below (suc f) (suc g) (lparen ∷ ts) h =
        Below-bind (parse_expression fmt f 0 ts) (parse_expression fmt g 0 ts) _ _
          (parse_expression-Below f g 0 ts (omega arith))
          λ x ts₁. Below-refl (expect (is_rparen (peek ts₁)) x ts₁)
    parse_prefix-Below (suc f) (suc g) (lbracket ∷ ts) h =
        parse_list_literal-Below f g ts (omega arith)
    parse_prefix-Below (suc f) (suc g) (lbrace ∷ ts) h =
        parse_map_literal-Below f g ts (omega arith)
    parse_prefix-Below (suc f) (suc g) (t ∷ ts) h = refl

    parse_list_literal-Below :
        (f g : ℕ) (ts : List Token)
        → f ≤ g
        → Below (parse_list_literal fmt f ts) (parse_list_literal fmt g ts)
    parse_list_literal-Below zero g ts h = tt
    parse_list_literal-Below (suc f) zero ts h = absurd (omega arith)
    parse_list_literal-Below (suc f) (suc g) ts h = elim (Bool-cases (is_rbracket (peek ts))) [
      | inl e ↦ rw (parse_list_literal, e) refl
      | inr e ↦
          rw (parse_list_literal, e)
            (Below-bind (parse_elements fmt f ts) (parse_elements fmt g ts) _ _
              (parse_elements-Below f g ts (omega arith))
              λ es ts₁. Below-refl (expect (is_rbracket (peek ts₁)) (Expr.list es) ts₁))
    ]

    parse_map_literal-Below :
        (f g : ℕ) (ts : List Token)
        → f ≤ g
        → Below (parse_map_literal fmt f ts) (parse_map_literal fmt g ts)
    parse_map_literal-Below zero g ts h = tt
    parse_map_literal-Below (suc f) zero ts h = absurd (omega arith)
    parse_map_literal-Below (suc f) (suc g) ts h = elim (Bool-cases (is_rbrace (peek ts))) [
      | inl e ↦ rw (parse_map_literal, e) refl
      | inr e ↦
          rw (parse_map_literal, e)
            (Below-bind (parse_entries fmt f ts) (parse_entries fmt g ts) _ _
              (parse_entries-Below f g ts (omega arith))
              λ es ts₁. Below-refl (expect (is_rbrace (peek ts₁)) (Expr.map es) ts₁))
    ]

    parse_function_call-Below :
        (f g : ℕ) (name : Str) (ts : List Token)
        → f ≤ g
        → Below (parse_function_call fmt f name ts) (parse_function_call fmt g name ts)
    parse_function_call-Below zero g name ts h = tt
    parse_function_call-Below (suc f) zero name ts h = absurd (omega arith)
    parse_function_call-Below (suc f) (suc g) name ts h = elim (Bool-cases (is_rparen (peek ts))) [
      | inl e ↦ rw (parse_function_call, e) refl
      | inr e ↦
          rw (parse_function_call, e)
            (Below-bind (parse_elements fmt f ts) (parse_elements fmt g ts) _ _
              (parse_elements-Below f g ts (omega arith))
              λ es ts₁.
                Below-refl
                  (expect (is_rparen (peek ts₁)) (Expr.function_call (function_name name) es) ts₁))
    ]

    parse_elements-Below :
        (f g : ℕ) (ts : List Token)
        → f ≤ g
        → Below (parse_elements fmt f ts) (parse_elements fmt g ts)
    parse_elements-Below zero g ts h = tt
    parse_elements-Below (suc f) zero ts h = absurd (omega arith)
    parse_elements-Below (suc f) (suc g) ts h =
        Below-bind (parse_expression fmt f 0 ts) (parse_expression fmt g 0 ts) _ _
          (parse_expression-Below f g 0 ts (omega arith))
          λ e ts₁. elim (Bool-cases (is_comma (peek ts₁))) [
            | inl c ↦ rw c (
                Below-bind (parse_elements fmt f (rest ts₁)) (parse_elements fmt g (rest ts₁)) _ _
                  (parse_elements-Below f g (rest ts₁) (omega arith)) λ es ts₂. refl)
            | inr c ↦ rw c refl
          ]

    parse_entries-Below :
        (f g : ℕ) (ts : List Token)
        → f ≤ g
        → Below (parse_entries fmt f ts) (parse_entries fmt g ts)
    parse_entries-Below zero g ts h = tt
    parse_entries-Below (suc f) zero ts h = absurd (omega arith)
    parse_entries-Below (suc f) (suc g) ts h =
        Below-bind (parse_key ts) (parse_key ts) _ _ (Below-refl (parse_key ts)) λ k ts₁.
          Below-bind (parse_expression fmt f 0 ts₁) (parse_expression fmt g 0 ts₁) _ _
            (parse_expression-Below f g 0 ts₁ (omega arith))
            λ e ts₂. elim (Bool-cases (is_comma (peek ts₂))) [
              | inl c ↦ rw c (
                  Below-bind (parse_entries fmt f (rest ts₂)) (parse_entries fmt g (rest ts₂)) _ _
                    (parse_entries-Below f g (rest ts₂) (omega arith)) λ es ts₃. refl)
              | inr c ↦ rw c refl
            ]
