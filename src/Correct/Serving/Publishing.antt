-- ===== src/Correct/Serving/Publishing.antt =====
-- What a publication compiles, whatever the cache holds, and when it succeeds.
use mathlib.Core.Path.{subst}
use risk_engine.Prelude.{
  ◌≡◌, refl, sym, ◌∙◌, ap, false, none, some, List, [], ◌∷◌, ◌++◌, Str, bytes, All, str_eq,
  eq_of_str_eq, Bool-cases, Option-cases, ◌⊎◌, inl, inr,
}
use risk_engine.Outcome.{Outcome, ok, err, panic, ◌>>=◌, bind-eq-ok, ValidationError}
use risk_engine.Schema.{FactorRegistry}
use risk_engine.Bytecode.Vm.{BytecodeVmConfig}
use risk_engine.Compiler.{CompiledExpr}
use risk_engine.Fingerprint.{registry_fingerprint}
use risk_engine.GoMap.{find, put, string_keys, find-put, find-put_same, find-put_other}
use risk_engine.Engine.{Setting, World, Engine, EngineCompiledExpr, engine_compile}
use risk_engine.Service.{RuleDefinition, check_rule, compile_rules, wrap_field_error, is_blank}
use risk_engine.Correct.Serving.Transparent.{IsFaithful, engine_compile-inner}

pub Outcome-cases : {A : Type 0} (o : Outcome A) → ((a : A) × (o ≡ ok a)) ⊎ ((a : A) → o ≡ ok a → ⊥)
Outcome-cases (ok a) = inl (a, refl)
Outcome-cases (err e) = inr (λ a h. cc)
Outcome-cases panic = inr (λ a h. cc)

-- The error of a rule is told of the rule.
abbrev pub relabel {ℓ} : {A : Type ℓ} → Str → Outcome A → Outcome A
relabel f (ok a) = ok a
relabel f (err e) = err (wrap_field_error e f)
relabel f panic = panic

-- No rule's code is that of a later one.
abbrev pub Distinct : List RuleDefinition → Type 0
Distinct [] = Unit
Distinct (rule ∷ rules) =
    All (λ r. str_eq rule.rule_code r.rule_code ≡ false) rules × Distinct rules

module _ {D O : Type 0} (setting : Setting D O) (registry : FactorRegistry)
    (vm_config : BytecodeVmConfig) where
  open setting use {encoders, cache, inner}

  abbrev pub with_config : CompiledExpr D → EngineCompiledExpr D
  with_config c = record { compiled = c; vm_config = vm_config }

  -- The loop of a publication with no cache and no observer.
  unfoldable pub compile_plain :
      List RuleDefinition
      → List (Str × Unit {0})
      → List (Str × EngineCompiledExpr D)
      → Outcome (List (Str × EngineCompiledExpr D))
  unfolding check_rule put
  compile_plain [] seen compiled = ok compiled
  compile_plain (rule ∷ rules) seen compiled = check_rule seen rule >>= λ _.
      relabel (bytes "rules." ++ rule.rule_code) (inner.compile rule.expression registry) >>= λ c.
      compile_plain rules (put rule.rule_code tt seen) (put rule.rule_code (with_config c) compiled)

  abbrev engine : Engine
  engine = record { registry = registry; vm_config = vm_config }

  module _ (fp : Str) (printed : registry_fingerprint encoders registry ≡ ok fp) where
    -- A round and what follows it, for any way in which the loop goes on.
    abbrev Plainly :
        List RuleDefinition
        → List (Str × Unit {0})
        → List (Str × EngineCompiledExpr D)
        → World setting
        → Type 0
    Plainly rules seen compiled w =
        ((compile_rules setting engine rules seen compiled w).0 ≡ compile_plain rules seen compiled)
        × IsFaithful setting registry (compile_rules setting engine rules seen compiled w).1.cache

    round-Plainly :
        (rule : RuleDefinition) (rules : List RuleDefinition) (seen : List (Str × Unit {0}))
        (compiled : List (Str × EngineCompiledExpr D)) (w : World setting) (k : Outcome (Unit {0}))
        (o : Outcome (CompiledExpr D))
        → check_rule seen rule ≡ k
        → inner.compile rule.expression registry ≡ o
        → IsFaithful setting registry w.cache
        → (engine_compile setting engine rule.expression w).0
          ≡ (inner.compile rule.expression registry >>= λ c. ok (with_config c))
        → IsFaithful setting registry (engine_compile setting engine rule.expression w).1.cache
        → ((c : CompiledExpr D)
            → Plainly rules
                (put rule.rule_code tt seen)
                (put rule.rule_code (with_config c) compiled)
                (engine_compile setting engine rule.expression w).1)
        → Plainly (rule ∷ rules) seen compiled w
    unfolding compile_rules compile_plain
    round-Plainly rule rules seen compiled w (err x) o k e h same kept rest =
        rw (compile_rules, k) (refl, h)
    round-Plainly rule rules seen compiled w panic o k e h same kept rest =
        rw (compile_rules, k) (refl, h)
    round-Plainly rule rules seen compiled w (ok _) (err x) k e h same kept rest =
        let made = (rw e at same) in rw (compile_rules, k, made, e) (refl, kept)
    round-Plainly rule rules seen compiled w (ok _) panic k e h same kept rest =
        let made = (rw e at same) in rw (compile_rules, k, made, e) (refl, kept)
    round-Plainly rule rules seen compiled w (ok _) (ok c) k e h same kept rest =
        let made = (rw e at same) in rw (compile_rules, k, made, e) (rest c)

    -- Neither the cache nor the observer changes what the loop gives.
    pub compile_rules-plain :
        (rules : List RuleDefinition) (seen : List (Str × Unit {0}))
        (compiled : List (Str × EngineCompiledExpr D)) (w : World setting)
        → IsFaithful setting registry w.cache
        → Plainly rules seen compiled w
    unfolding compile_rules compile_plain
    compile_rules-plain [] seen compiled w h = (refl, h)
    compile_rules-plain (rule ∷ rules) seen compiled w h =
        let (same, kept) =
          engine_compile-inner setting registry fp printed vm_config rule.expression w h in
        round-Plainly rule rules seen compiled w (check_rule seen rule)
          (inner.compile rule.expression registry) refl refl h same kept
          λ c.
            compile_rules-plain rules (put rule.rule_code tt seen)
              (put rule.rule_code (with_config c) compiled)
              (engine_compile setting engine rule.expression w).1 kept

  -- A rule that a publication takes.
  abbrev pub IsAcceptable : RuleDefinition → Type 0
  IsAcceptable rule =
      (is_blank rule.rule_code ≡ false)
      × (is_blank rule.expression ≡ false)
      × ((c : CompiledExpr D) × (inner.compile rule.expression registry ≡ ok c))

  -- What the rules with these codes were compiled to is under them.
  abbrev pub IsCompiled : List (Str × EngineCompiledExpr D) → RuleDefinition → Type 0
  IsCompiled out rule =
      (c : CompiledExpr D) × (inner.compile rule.expression registry ≡ ok c)
      × (find rule.rule_code out ≡ some (with_config c))

  -- No code of the rules has been seen.
  abbrev pub Unseen : List (Str × Unit {0}) → List RuleDefinition → Type 0
  Unseen seen rules = All (λ r. find r.rule_code seen ≡ none) rules

  check_rule-ok :
      (seen : List (Str × Unit {0})) (rule : RuleDefinition)
      → check_rule seen rule ≡ ok tt
      → (is_blank rule.rule_code ≡ false)
        × (is_blank rule.expression ≡ false)
        × (find rule.rule_code seen ≡ none)
  unfolding check_rule
  check_rule-ok seen rule h = elim (Bool-cases (is_blank rule.rule_code)) [
    | inl e ↦ absurd (failed (rw (check_rule, e) at h))
    | inr e ↦ elim (Bool-cases (is_blank rule.expression)) [
      | inl f ↦ absurd (failed (rw (check_rule, e, f) at h))
      | inr f ↦ elim (Option-cases (find rule.rule_code seen)) [
        | inl g ↦ (e, f, g)
        | inr (u, g) ↦ absurd (failed (rw (check_rule, e, f, g) at h))
      ]
    ]
  ]
    where
      failed : {x : ValidationError} → err x ≡ ok (tt {0}) → ⊥
      failed h = cc

  check_rule_passes :
      (seen : List (Str × Unit {0})) (rule : RuleDefinition)
      → is_blank rule.rule_code ≡ false
      → is_blank rule.expression ≡ false
      → find rule.rule_code seen ≡ none
      → check_rule seen rule ≡ ok tt
  unfolding check_rule
  check_rule_passes seen rule e f g = rw (check_rule, e, f, g) refl

  seen_later :
      (code : Str) (seen : List (Str × Unit {0})) (rules : List RuleDefinition)
      → Unseen seen rules
      → All (λ r. str_eq code r.rule_code ≡ false) rules
      → Unseen (put code tt seen) rules
  seen_later code seen [] h k = tt
  seen_later code seen (r ∷ rules) (h, t) (k, l) =
      (find-put_other code r.rule_code tt seen k ∙ h, seen_later code seen rules t l)

  -- A publication takes rules that are acceptable and have codes of their own.
  pub compile_plain-succeeds :
      (rules : List RuleDefinition) (seen : List (Str × Unit {0}))
      (compiled : List (Str × EngineCompiledExpr D))
      → Unseen seen rules
      → Distinct rules
      → All IsAcceptable rules
      → (out : List (Str × EngineCompiledExpr D)) × (compile_plain rules seen compiled ≡ ok out)
  unfolding compile_plain
  compile_plain-succeeds [] seen compiled u d a = (compiled, refl)
  compile_plain-succeeds (rule ∷ rules) seen compiled (u, us) (d, ds) ((code, text, (c, e)), as₁) =
      let (out, done) =
        compile_plain-succeeds rules (put rule.rule_code tt seen)
          (put rule.rule_code (with_config c) compiled) (seen_later rule.rule_code seen rules us d)
          ds as₁ in
      (out, rw (compile_plain, check_rule_passes seen rule code text u, e) done)

  before_put :
      (code : Str) (seen : List (Str × Unit {0})) (rules : List RuleDefinition)
      → Unseen (put code tt seen) rules
      → All (λ r. str_eq code r.rule_code ≡ false) rules × Unseen seen rules
  before_put code seen [] h = (tt, tt)
  before_put code seen (r ∷ rules) (h, t) =
      let (k, l) = before_put code seen rules t in
      elim (Bool-cases (str_eq code r.rule_code)) [
        | inl e ↦ absurd (found (sym (find-put code r.rule_code tt seen ∙ rw e refl) ∙ h))
        | inr e ↦ ((e, k), (sym (find-put_other code r.rule_code tt seen e) ∙ h, l))
      ]
    where
      found : some (tt {0}) ≡ none → ⊥
      found h = cc

  relabel-ok : {A : Type 0} (f : Str) (o : Outcome A) (a : A) → relabel f o ≡ ok a → o ≡ ok a
  relabel-ok f (ok b) a h = h
  relabel-ok f (err e) a h = cc
  relabel-ok f panic a h = cc

  -- What the loop leaves, when it succeeds.
  pub compile_plain-done :
      (rules : List RuleDefinition) (seen : List (Str × Unit {0}))
      (compiled out : List (Str × EngineCompiledExpr D))
      → compile_plain rules seen compiled ≡ ok out
      → Unseen seen rules
        × Distinct rules
        × All IsAcceptable rules
        × All (IsCompiled out) rules
        × ((j : Str) (u : Unit {0}) → find j seen ≡ some u → find j out ≡ find j compiled)
  unfolding compile_plain
  compile_plain-done [] seen compiled out h =
      (tt, tt, tt, tt, λ j u e. let same : compiled ≡ out = cc in ap (find j) (sym same))
  compile_plain-done (rule ∷ rules) seen compiled out h =
      let (t, passed, then_compiled) = bind-eq-ok (check_rule seen rule) _ h in
      let (c, made, later) =
        bind-eq-ok
          (relabel (bytes "rules." ++ rule.rule_code) (inner.compile rule.expression registry)) _
          then_compiled in
      let compiles = relabel-ok _ (inner.compile rule.expression registry) c made in
      let (code, text, new) = check_rule-ok seen rule passed in
      let (unseen, distinct, fine, done, kept) =
        compile_plain-done rules (put rule.rule_code tt seen)
          (put rule.rule_code (with_config c) compiled) out later in
      let (apart, unseen') = before_put rule.rule_code seen rules unseen in
      (
        (new, unseen'),
        (apart, distinct),
        ((code, text, (c, compiles)), fine),
        (
          (
            c,
            compiles,
            kept rule.rule_code tt (find-put_same rule.rule_code tt seen)
                ∙ find-put_same rule.rule_code (with_config c) compiled,
          ),
          done,
        ),
        λ j u e. elim (Bool-cases (str_eq rule.rule_code j)) [
          | inl same ↦ absurd (
              clash (
                sym (subst (λ x. find x seen ≡ none) (eq_of_str_eq rule.rule_code j same) new) ∙ e))
          | inr other ↦
              kept j u (find-put_other rule.rule_code j tt seen other ∙ e)
              ∙ find-put_other rule.rule_code j (with_config c) compiled other
        ],
      )
    where
      clash : {u : Unit {0}} → none ≡ some u → ⊥
      clash h = cc
