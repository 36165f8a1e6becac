-- ===== src/Correct/Parsing/Safety.antt =====
-- The parts of the parser do not panic.
use risk_engine.Prelude.{
  ℕ, zero, suc, ◌^◌, Bool, true, false, not, ◌||◌, Option, none, some, [], ◌∷◌, Str, length, ◌==◌,
  leb, Bool-cases, Option-cases, inl, inr, if◌then◌else◌,
}
use risk_engine.Outcome.{Outcome, ok, err, panic, ◌>>=◌}
use risk_engine.Schema.{FactorRef}
use risk_engine.Expr.{Expr}
use risk_engine.Parser.Chars.{take_while, is_space, is_identifier_start, is_digit}
use risk_engine.Parser.Refs.{split, any_empty, ref_of, trim_space, parse_factor_ref}
use risk_engine.Parser.Tokens.{
  Token, lexeme, tokens_from, string_lexeme, operator_lexeme, punctuation, double_operator,
  single_operator,
}
use risk_engine.Parser.Grammar.{
  Decimals, ref_literal, number_literal, integer_literal, has_point, digits_value,
}

-- No panic.
abbrev pub Safe : {A : Type 0} → Outcome A → Type 0
Safe (ok a) = Unit
Safe (err e) = Unit
Safe panic = ⊥

pub Safe-if :
    {A : Type 0} (b : Bool) (o o' : Outcome A) → Safe o → Safe o' → Safe (if b then o else o')
Safe-if true o o' h k = h
Safe-if false o o' h k = k

Safe-bind :
    {A B : Type 0} (o : Outcome A) (f : A → Outcome B)
    → Safe o
    → ((a : A) → Safe (f a))
    → Safe (o >>= f)
Safe-bind (ok a) f h g = g a
Safe-bind (err e) f h g = tt
Safe-bind panic f h g = absurd h

Safe-ref_of : (s : Str) → Safe (ref_of s)
unfolding ref_of
Safe-ref_of [] = tt
Safe-ref_of (c ∷ cs) = Safe-if (any_empty ((split 46 (c ∷ cs)).0 ∷ (split 46 (c ∷ cs)).1)) _ _ tt tt

pub Safe-ref_literal : {D : Type 0} (fmt : Decimals D) (raw : Str) → Safe (ref_literal fmt raw)
unfolding ref_literal parse_factor_ref
Safe-ref_literal {D} fmt raw = go (ref_of (trim_space raw)) (Safe-ref_of (trim_space raw))
  where
    go :
        (o : Outcome FactorRef)
        → Safe o
        → Safe {A = Expr D}
            (elim o [ ok r ↦ ok (Expr.factor_ref r) | err e ↦ err e | panic ↦ panic ])
    go (ok r) h = tt
    go (err e) h = tt
    go panic h = h

pub Safe-number_literal :
    {D : Type 0} (fmt : Decimals D) (raw : Str) → Safe (number_literal fmt raw)
unfolding number_literal integer_literal
Safe-number_literal fmt raw = elim (Bool-cases (has_point raw)) [
  | inl h ↦ elim (Option-cases (fmt.parse_float raw)) [
    | inl e ↦ rw (number_literal, h, e) tt
    | inr (x, e) ↦ rw (number_literal, h, e) tt
  ]
  | inr h ↦
      rw (number_literal, h)
        (Safe-if (leb (2 ^ 63) (digits_value 0 raw)) _ _ tt
          (Safe-if (leb (digits_value 0 raw) 2147483647) _ _ tt tt))
]

Safe-operator_lexeme : (c : ℕ) (cs : Str) → Safe (operator_lexeme c cs)
unfolding operator_lexeme
Safe-operator_lexeme c cs = elim (Option-cases (double_operator c cs)) [
  | inl d ↦ elim (Option-cases (single_operator c)) [
    | inl s ↦ rw (operator_lexeme, d, s) tt
    | inr (op, s) ↦ rw (operator_lexeme, d, s) tt
  ]
  | inr (op, d) ↦ rw (operator_lexeme, d) tt
]

Safe-punctuation :
    (c : ℕ) (cs : Str) (t : Option Token)
    → Safe (elim t [ some a ↦ ok (some a, 0) | none ↦ operator_lexeme c cs ])
Safe-punctuation c cs none = Safe-operator_lexeme c cs
Safe-punctuation c cs (some t) = tt

Safe-string_lexeme : (quote : ℕ) (cs : Str) → Safe (string_lexeme quote cs)
unfolding string_lexeme
Safe-string_lexeme quote cs =
    Safe-if (length (take_while (λ c. not (c == quote)) cs) == length cs) _ _ tt tt

Safe-lexeme : (c : ℕ) (cs : Str) → Safe (lexeme c cs)
unfolding lexeme
Safe-lexeme c cs = Safe-if (is_space c) _ _ tt (
    Safe-if (is_identifier_start c) _ _ tt (
      Safe-if (is_digit c) _ _ tt (
        Safe-if ((c == b'"') || (c == b'\'')) _ _ (Safe-string_lexeme c cs)
          (Safe-punctuation c cs (punctuation c)))))

pub Safe-tokens_from : (n : ℕ) (s : Str) → Safe (tokens_from n s)
unfolding tokens_from
Safe-tokens_from n [] = tt
Safe-tokens_from (suc n) (c ∷ cs) = Safe-tokens_from n cs
Safe-tokens_from zero (c ∷ cs) =
    Safe-bind (lexeme c cs) _ (Safe-lexeme c cs)
      λ tn. Safe-bind (tokens_from tn.1 cs) _ (Safe-tokens_from tn.1 cs) λ ts. tt
