-- ===== src/Correct/Parsing/MapEntries.antt =====
-- The parser reads maps when it reads the values of their entries.
use mathlib.Core.List.{append_assoc}
use risk_engine.Prelude.{ℕ, ◌≡◌, refl, true, false, List, [], ◌∷◌, ◌++◌, Str}
use risk_engine.Expr.{Expr, map, Entries, empty, entry}
use risk_engine.Parser.Tokens.{Token, string, lbrace, rbrace, comma, colon}
use risk_engine.Parser.Grammar.{
  Decimals, Parse, parsed, ◌>>=◌, peek, rest, expect, is_comma, is_colon, is_rbrace, parse_key,
  parse_expression, parse_prefix, parse_map_literal, parse_entries,
}
use risk_engine.Correct.Parsing.Printer.{core, core_entries, level}
use risk_engine.Correct.Parsing.Follow.{Gives, now, later, andthen, rbrace-Closes, comma-Closes}
use risk_engine.Correct.Parsing.Atoms.{Reads, at_prefix, core_up_to}

module _ {D : Type 0} (fmt : Decimals D) where
  -- What stands behind the value of an entry.
  abbrev after_value : Str → ℕ → Expr D × List Token → Parse (Entries D)
  after_value k f (e, ts) = elim (is_comma (peek ts)) [
    | true ↦ parse_entries fmt f (rest ts) >>= λ (es, us). parsed (entry k e es) us
    | false ↦ parsed (entry k e empty) ts
  ]

  -- The loop over entries reads them up to the brace.
  abbrev pub Maps : Entries D → Type 0
  Maps es =
      (ts : List Token)
      → Gives (λ f. parse_entries fmt f (core_entries es ++ rbrace ∷ ts)) (parsed es (rbrace ∷ ts))

  pub last-Maps : (k : Str) (e : Expr D) → Reads fmt (level e) (core e) e → Maps (entry k e empty)
  unfolding core parse_entries parse_key expect is_colon peek rest is_comma
  last-Maps k e reads ts =
      later (λ f. parse_entries fmt f (string k ∷ colon ∷ (core e ++ rbrace ∷ ts)))
        (λ f. parse_expression fmt f 0 (core e ++ rbrace ∷ ts) >>= after_value k f)
        (parsed (entry k e empty) (rbrace ∷ ts)) (λ f. refl)
        (andthen (λ f. parse_expression fmt f 0 (core e ++ rbrace ∷ ts)) (after_value k) e
          (rbrace ∷ ts) (parsed (entry k e empty) (rbrace ∷ ts))
          (core_up_to fmt (level e) (core e) e rbrace ts reads rbrace-Closes)
          (now (parsed (entry k e empty) (rbrace ∷ ts))))

  pub more-Maps :
      (k : Str) (e : Expr D) (k' : Str) (e' : Expr D) (es : Entries D)
      → Reads fmt (level e) (core e) e
      → Maps (entry k' e' es)
      → Maps (entry k e (entry k' e' es))
  unfolding core parse_entries parse_key expect is_colon peek rest is_comma
  more-Maps k e k' e' es reads maps ts =
      let all : Entries D = entry k e (entry k' e' es) in
      let others : List Token = core_entries (entry k' e' es) ++ rbrace ∷ ts in
      rw (append_assoc (core e) (comma ∷ core_entries (entry k' e' es)) (rbrace ∷ ts)) (
        later (λ f. parse_entries fmt f (string k ∷ colon ∷ (core e ++ comma ∷ others)))
          (λ f. parse_expression fmt f 0 (core e ++ comma ∷ others) >>= after_value k f)
          (parsed all (rbrace ∷ ts)) (λ f. refl)
          (andthen (λ f. parse_expression fmt f 0 (core e ++ comma ∷ others)) (after_value k) e
            (comma ∷ others) (parsed all (rbrace ∷ ts))
            (core_up_to fmt (level e) (core e) e comma others reads comma-Closes)
            (andthen (λ f. parse_entries fmt f others) (λ f (xs, us). parsed (entry k e xs) us)
              (entry k' e' es) (rbrace ∷ ts) (parsed all (rbrace ∷ ts)) (maps ts)
              (now (parsed all (rbrace ∷ ts))))))

  -- A map of at least one entry between its braces.
  pub map-Reads :
      (es : Entries D)
      → ((ts : List Token) → is_rbrace (peek (core_entries es ++ ts)) ≡ false)
      → Maps es
      → Reads fmt 7 (core (map es)) (map es)
  unfolding core parse_prefix parse_map_literal peek rest expect is_rbrace
  map-Reads es front maps m ts r le follow goes =
      let inner : List Token = core_entries es ++ rbrace ∷ ts in
      rw (append_assoc (core_entries es) (rbrace ∷ []) ts) (
        at_prefix fmt m (lbrace ∷ inner) ts (map es) r
          (later (λ f. parse_prefix fmt f (lbrace ∷ inner)) (λ f. parse_map_literal fmt f inner)
            (parsed (map es) ts) (λ f. refl)
            (later (λ f. parse_map_literal fmt f inner)
              (λ f.
                parse_entries fmt f inner >>= λ (xs, us). expect (is_rbrace (peek us)) (map xs) us)
              (parsed (map es) ts) (λ f. rw (parse_map_literal, front (rbrace ∷ ts)) refl)
              (andthen (λ f. parse_entries fmt f inner)
                (λ f (xs, us). expect (is_rbrace (peek us)) (map xs) us) es (rbrace ∷ ts)
                (parsed (map es) ts) (maps ts) (now (parsed (map es) ts)))))
          goes)

  pub no_entries-Reads : Reads fmt 7 (core {D = D} (map empty)) (map empty)
  unfolding core parse_prefix parse_map_literal peek rest is_rbrace
  no_entries-Reads m ts r le follow goes =
      at_prefix fmt m (lbrace ∷ rbrace ∷ ts) ts (map empty) r
        (later (λ f. parse_prefix fmt f (lbrace ∷ rbrace ∷ ts))
          (λ f. parse_map_literal fmt f (rbrace ∷ ts)) (parsed (map empty) ts) (λ f. refl)
          (later (λ f. parse_map_literal fmt f (rbrace ∷ ts)) (λ f. parsed (map empty) ts)
            (parsed (map empty) ts) (λ f. refl) (now (parsed (map empty) ts))))
        goes
