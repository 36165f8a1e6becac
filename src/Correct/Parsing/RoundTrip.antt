-- ===== src/Correct/Parsing/RoundTrip.antt =====
-- The parser reads the tokens that are printed for a tree.
use Prim.Native.Nat.{max}
use risk_engine.Prelude.{◌≡◌, refl, sym, ◌∙◌, false, some, List, [], ◌∷◌, ◌++◌, Str, arith}
use risk_engine.Outcome.{Outcome, ok}
use risk_engine.Operators.{FunctionName}
use risk_engine.Expr.{
  Expr, literal, factor_ref, conditional, function_call, list, map, unary, binary, Exprs, nil, cons,
  Entries, empty, entry,
}
use risk_engine.Parser.Tokens.{Token, eof}
use risk_engine.Parser.Grammar.{
  Decimals, Parse, parsed, failed, panicked, starved, peek, is_rbrace, is_lparen, continuation,
  parse_expression,
}
use risk_engine.Correct.Parsing.Printer.{
  core, core_entries, level, IsPrintable, ArePrintable, EntriesArePrintable, IsFunctionName,
}
use risk_engine.Correct.Parsing.Follow.{Closes}
use risk_engine.Correct.Parsing.Atoms.{Reads, core_up_to, literal-Reads}
use risk_engine.Parser.Grammar.{enough, parse_tokens, finish, is_eof}
use risk_engine.Correct.Parsing.Fuel.{parse_tokens-Returns}
use risk_engine.Correct.Parsing.Stable.{Below, parse_expression-Below}
use risk_engine.Correct.Parsing.Constructs.{ref-Reads, unary-Reads, binary-Reads, conditional-Reads}
use risk_engine.Correct.Parsing.Elements.{
  Lists, last-Lists, more-Lists, list-Reads, call-Reads, no_elements-Reads, no_arguments-Reads,
}
use risk_engine.Correct.Parsing.MapEntries.{Maps, last-Maps, more-Maps, map-Reads, no_entries-Reads}

front :
    {D : Type 0} (k : Str) (e : Expr D) (es : Entries D) (ts : List Token)
    → is_rbrace (peek (core_entries (entry k e es) ++ ts)) ≡ false
unfolding core peek is_rbrace
front k e empty ts = refl
front k e (entry k' e' es) ts = refl

-- The lemmas for lists that have an element, and the others.
abbrev AnyLists : {D : Type 0} → Decimals D → Exprs D → Type 0
AnyLists fmt nil = Unit
AnyLists fmt (cons e es) = Lists fmt (cons e es)

abbrev AnyMaps : {D : Type 0} → Decimals D → Entries D → Type 0
AnyMaps fmt empty = Unit
AnyMaps fmt (entry k e es) = Maps fmt (entry k e es)

any_list :
    {D : Type 0} (fmt : Decimals D) (es : Exprs D)
    → AnyLists fmt es
    → Reads fmt 7 (core (list es)) (list es)
any_list fmt nil h = no_elements-Reads fmt
any_list fmt (cons e es) h = list-Reads fmt e es h

any_call :
    {D : Type 0} (fmt : Decimals D) (name : FunctionName) (es : Exprs D)
    → IsFunctionName name
    → AnyLists fmt es
    → Reads fmt 7 (core (function_call name es)) (function_call name es)
any_call fmt name nil k h = no_arguments-Reads fmt name k
any_call fmt name (cons e es) k h = call-Reads fmt name e es k h

any_map :
    {D : Type 0} (fmt : Decimals D) (es : Entries D)
    → AnyMaps fmt es
    → Reads fmt 7 (core (map es)) (map es)
any_map fmt empty h = no_entries-Reads fmt
any_map fmt (entry k e es) h = map-Reads fmt (entry k e es) (front k e es) h

any_element :
    {D : Type 0} (fmt : Decimals D) (e : Expr D) (es : Exprs D)
    → Reads fmt (level e) (core e) e
    → AnyLists fmt es
    → Lists fmt (cons e es)
any_element fmt e nil reads h = last-Lists fmt e reads
any_element fmt e (cons e' es) reads h = more-Lists fmt e e' es reads h

any_entry :
    {D : Type 0} (fmt : Decimals D) (k : Str) (e : Expr D) (es : Entries D)
    → Reads fmt (level e) (core e) e
    → AnyMaps fmt es
    → Maps fmt (entry k e es)
any_entry fmt k e empty reads h = last-Maps fmt k e reads
any_entry fmt k e (entry k' e' es) reads h = more-Maps fmt k e k' e' es reads h

mutual
  unfolding core

  core-Reads :
      {D : Type 0} (fmt : Decimals D) (e : Expr D) → IsPrintable e → Reads fmt (level e) (core e) e
  core-Reads fmt (literal v t) h = literal-Reads fmt v t h
  core-Reads fmt (factor_ref r) h = ref-Reads fmt r h
  core-Reads fmt (unary op e) (h, k) = unary-Reads fmt op e h (core-Reads fmt e k)
  core-Reads fmt (binary op x y) (h, k, l) =
      binary-Reads fmt op x y h (core-Reads fmt x k) (core-Reads fmt y l)
  core-Reads fmt (conditional c a b) (h, k, l) =
      conditional-Reads fmt c a b (core-Reads fmt c h) (core-Reads fmt a k) (core-Reads fmt b l)
  core-Reads fmt (function_call name es) (h, k) = any_call fmt name es h (elements-Lists fmt es k)
  core-Reads fmt (list es) h = any_list fmt es (elements-Lists fmt es h)
  core-Reads fmt (map es) h = any_map fmt es (entries-Maps fmt es h)

  elements-Lists :
      {D : Type 0} (fmt : Decimals D) (es : Exprs D) → ArePrintable es → AnyLists fmt es
  elements-Lists fmt nil h = tt
  elements-Lists fmt (cons e es) (h, k) =
      any_element fmt e es (core-Reads fmt e h) (elements-Lists fmt es k)

  entries-Maps :
      {D : Type 0} (fmt : Decimals D) (es : Entries D) → EntriesArePrintable es → AnyMaps fmt es
  entries-Maps fmt empty h = tt
  entries-Maps fmt (entry k e es) (q, h, l) =
      any_entry fmt k e es (core-Reads fmt e h) (entries-Maps fmt es l)

eof-Closes : Closes eof
unfolding continuation is_lparen
eof-Closes = ((λ k. refl), refl)

-- A call that did not starve has the result that more fuel gives.
settled :
    {A : Type 0} (x y : Parse A) (a : A) (ts : List Token)
    → Below x y
    → (x ≡ starved → ⊥)
    → y ≡ parsed a ts
    → x ≡ parsed a ts
settled (parsed b us) y a ts below fed e = sym below ∙ e
settled (failed x) y a ts below fed e = sym below ∙ e
settled panicked y a ts below fed e = sym below ∙ e
settled starved y a ts below fed e = absurd (fed refl)

fed : {D : Type 0} (r : Parse (Expr D)) (o : Outcome (Expr D)) → finish r ≡ some o → r ≡ starved → ⊥
unfolding finish
fed (parsed e ts) o h k = cc
fed (failed x) o h k = cc
fed panicked o h k = cc
fed starved o h k = cc

-- Among the tokens that end with the end of the text, the parser reads those of a tree as that tree.
pub parse_tokens-core :
    {D : Type 0} (fmt : Decimals D) (e : Expr D)
    → IsPrintable e
    → parse_tokens fmt (core e ++ eof ∷ []) ≡ some (ok e)
unfolding parse_tokens finish peek is_eof
parse_tokens-core fmt e h =
    let ts : List Token = core e ++ eof ∷ [] in
    let (n, gives) = core_up_to fmt (level e) (core e) e eof [] (core-Reads fmt e h) eof-Closes in
    let (o, returned, safe) = parse_tokens-Returns fmt ts in
    rw
      (
        parse_tokens,
        settled (parse_expression fmt (enough ts) 0 ts)
            (parse_expression fmt (max n (enough ts)) 0 ts) e (eof ∷ [])
            (parse_expression-Below fmt (enough ts) (max n (enough ts)) 0 ts (omega arith))
            (fed (parse_expression fmt (enough ts) 0 ts) o returned)
            (gives (max n (enough ts)) (omega arith)),
      )
      refl
