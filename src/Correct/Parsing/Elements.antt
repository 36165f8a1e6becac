-- ===== src/Correct/Parsing/Elements.antt =====
-- The parser reads lists and calls when it reads their elements.
use mathlib.Core.List.{append_assoc}
use risk_engine.Prelude.{ℕ, ◌≡◌, refl, true, false, List, [], ◌∷◌, ◌++◌, Str}
use risk_engine.Operators.{FunctionName}
use risk_engine.Expr.{Expr, function_call, list, Exprs, nil, cons}
use risk_engine.Parser.Tokens.{Token, identifier, lparen, rparen, lbracket, rbracket, comma}
use risk_engine.Parser.Grammar.{
  Decimals, Parse, parsed, ◌>>=◌, peek, rest, expect, is_comma, is_rparen, is_rbracket, is_lparen,
  parse_expression, parse_prefix, parse_list_literal, parse_function_call, parse_elements,
  function_name,
}
use risk_engine.Correct.Parsing.Printer.{core, core_elements, level, name_text, IsFunctionName}
use risk_engine.Correct.Parsing.Names.{function_name-name_text}
use risk_engine.Correct.Parsing.Follow.{
  Gives, now, later, andthen, Closes, Opens, Opens-append, core-Opens, rparen-Closes,
  rbracket-Closes, comma-Closes,
}
use risk_engine.Correct.Parsing.Atoms.{Reads, at_prefix, core_up_to}

module _ {D : Type 0} (fmt : Decimals D) where
  -- What stands behind an element.
  abbrev after_element : ℕ → Expr D × List Token → Parse (Exprs D)
  after_element f (e, ts) = elim (is_comma (peek ts)) [
    | true ↦ parse_elements fmt f (rest ts) >>= λ (es, us). parsed (cons e es) us
    | false ↦ parsed (cons e nil) ts
  ]

  -- The loop over elements reads them up to a token that ends the last one.
  abbrev pub Lists : Exprs D → Type 0
  Lists es =
      (t : Token) (ts : List Token)
      → Closes t
      → is_comma t ≡ false
      → Gives (λ f. parse_elements fmt f (core_elements es ++ t ∷ ts)) (parsed es (t ∷ ts))

  pub last-Lists : (e : Expr D) → Reads fmt (level e) (core e) e → Lists (cons e nil)
  unfolding core parse_elements peek
  last-Lists e reads t ts closes no_comma =
      later (λ f. parse_elements fmt f (core e ++ t ∷ ts))
        (λ f. parse_expression fmt f 0 (core e ++ t ∷ ts) >>= after_element f)
        (parsed (cons e nil) (t ∷ ts)) (λ f. refl)
        (andthen (λ f. parse_expression fmt f 0 (core e ++ t ∷ ts)) after_element e (t ∷ ts)
          (parsed (cons e nil) (t ∷ ts)) (core_up_to fmt (level e) (core e) e t ts reads closes)
          (0, λ f le. rw (after_element, no_comma) refl))

  pub more-Lists :
      (e e' : Expr D) (es : Exprs D)
      → Reads fmt (level e) (core e) e
      → Lists (cons e' es)
      → Lists (cons e (cons e' es))
  unfolding core parse_elements peek rest is_comma
  more-Lists e e' es reads lists t ts closes no_comma =
      let all : Exprs D = cons e (cons e' es) in
      let others : List Token = core_elements (cons e' es) ++ t ∷ ts in
      rw (append_assoc (core e) (comma ∷ core_elements (cons e' es)) (t ∷ ts)) (
        later (λ f. parse_elements fmt f (core e ++ comma ∷ others))
          (λ f. parse_expression fmt f 0 (core e ++ comma ∷ others) >>= after_element f)
          (parsed all (t ∷ ts)) (λ f. refl)
          (andthen (λ f. parse_expression fmt f 0 (core e ++ comma ∷ others)) after_element e
            (comma ∷ others) (parsed all (t ∷ ts))
            (core_up_to fmt (level e) (core e) e comma others reads comma-Closes)
            (andthen (λ f. parse_elements fmt f others) (λ f (xs, us). parsed (cons e xs) us)
              (cons e' es) (t ∷ ts) (parsed all (t ∷ ts)) (lists t ts closes no_comma)
              (now (parsed all (t ∷ ts))))))

  Opens-is_rbracket : (ts : List Token) → Opens ts → is_rbracket (peek ts) ≡ false
  unfolding peek
  Opens-is_rbracket [] h = absurd h
  Opens-is_rbracket (t ∷ ts) h = h.1

  Opens-is_rparen : (ts : List Token) → Opens ts → is_rparen (peek ts) ≡ false
  unfolding peek
  Opens-is_rparen [] h = absurd h
  Opens-is_rparen (t ∷ ts) h = h.0

  core_elements-Opens :
      (e : Expr D) (es : Exprs D) (ts : List Token) → Opens (core_elements (cons e es) ++ ts)
  unfolding core
  core_elements-Opens e nil ts = Opens-append (core e) ts (core-Opens e)
  core_elements-Opens e (cons e' es) ts =
      Opens-append (core_elements (cons e (cons e' es))) ts
        (Opens-append (core e) (comma ∷ core_elements (cons e' es)) (core-Opens e))

  -- A list of at least one element between its brackets.
  pub list-Reads :
      (e : Expr D) (es : Exprs D)
      → Lists (cons e es)
      → Reads fmt 7 (core (list (cons e es))) (list (cons e es))
  unfolding core parse_prefix parse_list_literal peek rest expect is_rbracket
  list-Reads e es lists m ts r le follow goes =
      let es' : Exprs D = cons e es in
      let inner : List Token = core_elements es' ++ rbracket ∷ ts in
      let front = Opens-is_rbracket inner (core_elements-Opens e es (rbracket ∷ ts)) in
      rw (append_assoc (core_elements es') (rbracket ∷ []) ts) (
        at_prefix fmt m (lbracket ∷ inner) ts (list es') r
          (later (λ f. parse_prefix fmt f (lbracket ∷ inner)) (λ f. parse_list_literal fmt f inner)
            (parsed (list es') ts) (λ f. refl)
            (later (λ f. parse_list_literal fmt f inner)
              (λ f. parse_elements fmt f inner >>= λ (xs, us).
                expect (is_rbracket (peek us)) (list xs) us)
              (parsed (list es') ts) (λ f. rw (parse_list_literal, front) refl)
              (andthen (λ f. parse_elements fmt f inner)
                (λ f (xs, us). expect (is_rbracket (peek us)) (list xs) us) es' (rbracket ∷ ts)
                (parsed (list es') ts) (lists rbracket ts rbracket-Closes refl)
                (now (parsed (list es') ts)))))
          goes)

  -- The call of a function with at least one argument.
  pub call-Reads :
      (name : FunctionName) (e : Expr D) (es : Exprs D)
      → IsFunctionName name
      → Lists (cons e es)
      → Reads fmt 7 (core (function_call name (cons e es))) (function_call name (cons e es))
  unfolding core parse_prefix parse_function_call peek rest expect is_rparen is_lparen
  call-Reads name e es h lists m ts r le follow goes =
      let es' : Exprs D = cons e es in
      let inner : List Token = core_elements es' ++ rparen ∷ ts in
      let front = Opens-is_rparen inner (core_elements-Opens e es (rparen ∷ ts)) in
      rw (append_assoc (core_elements es') (rparen ∷ []) ts) (
        at_prefix fmt m (identifier (name_text name) ∷ lparen ∷ inner) ts (function_call name es') r
          (later (λ f. parse_prefix fmt f (identifier (name_text name) ∷ lparen ∷ inner))
            (λ f. parse_function_call fmt f (name_text name) inner)
            (parsed (function_call name es') ts) (λ f. refl)
            (later (λ f. parse_function_call fmt f (name_text name) inner)
              (λ f. parse_elements fmt f inner >>= λ (xs, us).
                expect (is_rparen (peek us)) (function_call (function_name (name_text name)) xs) us)
              (parsed (function_call name es') ts) (λ f. rw (parse_function_call, front) refl)
              (andthen (λ f. parse_elements fmt f inner)
                (λ f (xs, us).
                  expect (is_rparen (peek us)) (function_call (function_name (name_text name)) xs)
                    us)
                es' (rparen ∷ ts) (parsed (function_call name es') ts)
                (lists rparen ts rparen-Closes refl)
                (0, λ f le. rw (function_name-name_text name h) refl))))
          goes)

  pub no_elements-Reads : Reads fmt 7 (core {D = D} (list nil)) (list nil)
  unfolding core parse_prefix parse_list_literal peek rest is_rbracket
  no_elements-Reads m ts r le follow goes =
      at_prefix fmt m (lbracket ∷ rbracket ∷ ts) ts (list nil) r
        (later (λ f. parse_prefix fmt f (lbracket ∷ rbracket ∷ ts))
          (λ f. parse_list_literal fmt f (rbracket ∷ ts)) (parsed (list nil) ts) (λ f. refl)
          (later (λ f. parse_list_literal fmt f (rbracket ∷ ts)) (λ f. parsed (list nil) ts)
            (parsed (list nil) ts) (λ f. refl) (now (parsed (list nil) ts))))
        goes

  pub no_arguments-Reads :
      (name : FunctionName)
      → IsFunctionName name
      → Reads fmt 7 (core {D = D} (function_call name nil)) (function_call name nil)
  unfolding core parse_prefix parse_function_call peek rest is_lparen is_rparen
  no_arguments-Reads name h m ts r le follow goes =
      let text : Str = name_text name in
      at_prefix fmt m (identifier text ∷ lparen ∷ rparen ∷ ts) ts (function_call name nil) r
        (later (λ f. parse_prefix fmt f (identifier text ∷ lparen ∷ rparen ∷ ts))
          (λ f. parse_function_call fmt f text (rparen ∷ ts)) (parsed (function_call name nil) ts)
          (λ f. refl)
          (later (λ f. parse_function_call fmt f text (rparen ∷ ts))
            (λ f. parsed (function_call (function_name text) nil) ts)
            (parsed (function_call name nil) ts) (λ f. refl)
            (0, λ f le. rw (function_name-name_text name h) refl)))
        goes
