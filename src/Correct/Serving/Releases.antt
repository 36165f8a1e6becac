-- ===== src/Correct/Serving/Releases.antt =====
-- The service: what a publication changes, and what the rule sets that it serves are.
use mathlib.Core.Path.{subst}
use risk_engine.Prelude.{
  ◌≡◌, refl, sym, ◌∙◌, ap, true, false, ◌&&◌, none, some, List, [], ◌∷◌, Str, All, str_eq,
  str_eq_refl, eq_of_str_eq, Bool-cases, Option-cases, ◌↔◌, ◌⊎◌, inl, inr, if◌then◌else◌,
}
use risk_engine.Prelude.Int.{ℤ, pos, leb_ℤ, eqb_ℤ}
use risk_engine.Outcome.{Outcome, ok, err, panic, ◌>>=◌, bind-eq-ok, ValidationError}
use risk_engine.Fingerprint.{registry_fingerprint}
use risk_engine.GoMap.{find, put, string_keys, integer_keys, find-put, integer_self}
use risk_engine.Engine.{Setting, World, Engine, EngineCompiledExpr}
use risk_engine.Service.{
  RuleDefinition, RuleSetDefinition, PublishedRuleSet, EngineService, check_rule_set, compile_rules,
  is_blank, no_rules, latest_with, versions_of, store, load_rule_set, load_latest_rule_set,
  publish_rule_set,
}
use risk_engine.Correct.Serving.Transparent.{IsFaithful}
use risk_engine.Correct.Serving.Publishing.{
  compile_plain, compile_rules-plain, Distinct, IsAcceptable, IsCompiled, compile_plain-succeeds,
  compile_plain-done, Outcome-cases,
}

module _ {D : Type 0} where
  find-versions_of :
      (version : ℤ) (s : EngineService D) (code : Str)
      → find version (versions_of code s.rule_sets) ≡ load_rule_set code version s
  unfolding load_rule_set find
  find-versions_of version s code = elim (Option-cases (find code s.rule_sets)) [
    | inl e ↦ rw (load_rule_set, versions_of, e) refl
    | inr (vs, e) ↦ rw (load_rule_set, versions_of, e) refl
  ]

  pub load_latest_rule_set_lem :
      (version : ℤ) (s : EngineService D) (code : Str)
      → find code s.latest ≡ some version
      → load_latest_rule_set code s ≡ load_rule_set code version s
  unfolding load_latest_rule_set
  load_latest_rule_set_lem version s code e =
      rw (load_latest_rule_set, e) (find-versions_of version s code)

  -- What loading gives behind a publication: the new rule set under its code and version, and what was
  -- there under the others.
  pub load_rule_set-store :
      (def : RuleSetDefinition) (p : PublishedRuleSet D) (s : EngineService D) (code : Str)
      (version : ℤ)
      → load_rule_set code version (store def p s) ≡ (
          if str_eq def.rule_set_code code && eqb_ℤ def.version version
          then some p
          else load_rule_set code version s)
  unfolding load_rule_set store find
  load_rule_set-store def p s code version =
      let new : List (ℤ × PublishedRuleSet D) =
        put def.version p (versions_of def.rule_set_code s.rule_sets) in
      let law = find-put def.rule_set_code code new s.rule_sets in
      elim (Bool-cases (str_eq def.rule_set_code code)) [
        | inl e ↦
            let there : find code (put def.rule_set_code new s.rule_sets) ≡ some new =
              rw (law, e) refl in
            rw (load_rule_set, there, e)
              (find-put def.version version p (versions_of def.rule_set_code s.rule_sets)
                ∙ ap (λ x. if eqb_ℤ def.version version then some p else x)
                    (find-versions_of version s def.rule_set_code
                      ∙ ap (λ c. load_rule_set c version s)
                          (eq_of_str_eq def.rule_set_code code e)))
        | inr e ↦
            let there : find code (put def.rule_set_code new s.rule_sets) ≡ find code s.rule_sets =
              rw (law, e) refl in
            rw (load_rule_set, there, e) refl
      ]

  pub latest-store :
      (def : RuleSetDefinition) (p : PublishedRuleSet D) (s : EngineService D) (code : Str)
      → find code (store def p s).latest ≡ (
          if str_eq def.rule_set_code code
          then some (latest_with def.version (find def.rule_set_code s.latest))
          else find code s.latest)
  unfolding store
  latest-store def p s code =
      find-put def.rule_set_code code (latest_with def.version (find def.rule_set_code s.latest))
        s.latest

module _ {D O : Type 0} (setting : Setting D O) where
  open setting use {encoders, cache, inner}

  -- What a publication comes to with no cache and no observer.
  unfoldable pub publish_plain : RuleSetDefinition → EngineService D → Outcome (PublishedRuleSet D)
  unfolding check_rule_set compile_plain
  publish_plain def s = do
    _ ← check_rule_set def
    compiled ← compile_plain setting s.registry s.vm_config def.rules [] []
    ok (record {
      definition = def;
      engine = record { registry = s.registry; vm_config = s.vm_config };
      compiled = compiled;
    })

  -- The service behind a publication: a failed one changes nothing.
  abbrev pub after :
      RuleSetDefinition → Outcome (PublishedRuleSet D) → EngineService D → EngineService D
  after def (ok p) s = store def p s
  after def (err e) s = s
  after def panic s = s

  -- A definition that can be published.
  abbrev pub IsPublishable : EngineService D → RuleSetDefinition → Type 0
  IsPublishable s def =
      (is_blank def.rule_set_code ≡ false)
      × (leb_ℤ def.version (pos 0) ≡ false)
      × (no_rules def.rules ≡ false)
      × Distinct def.rules
      × All (IsAcceptable setting s.registry s.vm_config) def.rules

  check_rule_set_iff :
      (def : RuleSetDefinition)
      → (check_rule_set def ≡ ok tt) ↔ (
          (is_blank def.rule_set_code ≡ false)
          × (leb_ℤ def.version (pos 0) ≡ false)
          × (no_rules def.rules ≡ false))
  unfolding check_rule_set
  check_rule_set_iff def = elim (Bool-cases (is_blank def.rule_set_code)) [
    | inl a ↦ rw (check_rule_set, a) (cc_left, λ (x, y, z). absurd (clash x))
    | inr a ↦ elim (Bool-cases (leb_ℤ def.version (pos 0))) [
      | inl b ↦ rw (check_rule_set, a, b) (cc_left, λ (x, y, z). absurd (clash y))
      | inr b ↦ elim (Bool-cases (no_rules def.rules)) [
        | inl c ↦ rw (check_rule_set, a, b, c) (cc_left, λ (x, y, z). absurd (clash z))
        | inr c ↦ rw (check_rule_set, a, b, c) ((λ h. (refl, refl, refl)), λ h. refl)
      ]
    ]
  ]
    where
      clash : true ≡ false → ⊥
      clash h = cc

      cc_left : {A : Type 0} {e : ValidationError} → err e ≡ ok (tt {0}) → A
      cc_left h = absurd (let g = h in cc)

  publish_plain-succeeds :
      (def : RuleSetDefinition) (s : EngineService D)
      → IsPublishable s def
      → (p : PublishedRuleSet D) × (publish_plain def s ≡ ok p)
  unfolding publish_plain find
  publish_plain-succeeds def s (code, version, rules, distinct, fine) =
      let (out, done) =
        compile_plain-succeeds setting s.registry s.vm_config def.rules [] [] (unseen def.rules)
          distinct fine in
      (
        record {
          definition = def;
          engine = record { registry = s.registry; vm_config = s.vm_config };
          compiled = out;
        },
        rw (publish_plain, (check_rule_set_iff def).1 (code, version, rules), done) refl,
      )
    where
      unseen :
          (rules : List RuleDefinition) → All (λ r. find {V = Unit {0}} r.rule_code [] ≡ none) rules
      unseen [] = tt
      unseen (r ∷ rules) = (refl, unseen rules)

  pub publish_plain-done :
      (def : RuleSetDefinition) (s : EngineService D) (p : PublishedRuleSet D)
      → publish_plain def s ≡ ok p
      → IsPublishable s def
        × (p.definition ≡ def)
        × All (IsCompiled setting s.registry s.vm_config p.compiled) def.rules
  unfolding publish_plain
  publish_plain-done def s p h =
      let (t, checked, rest) = bind-eq-ok (check_rule_set def) _ h in
      let (out, compiled, whole) =
        bind-eq-ok (compile_plain setting s.registry s.vm_config def.rules [] []) _ rest in
      let (code, version, rules) = (check_rule_set_iff def).0 checked in
      let (unseen, distinct, fine, done, kept) =
        compile_plain-done setting s.registry s.vm_config def.rules [] [] out compiled in
      let same = ok_same whole in
      (
        (code, version, rules, distinct, fine),
        ap (λ x. x.definition) (sym same),
        subst (λ x. All (IsCompiled setting s.registry s.vm_config x.compiled) def.rules) same done,
      )
    where
      ok_same : {a b : PublishedRuleSet D} → ok a ≡ ok b → a ≡ b
      ok_same h = cc

  -- A publication, whatever the cache holds and the observer is told.
  module _ (s : EngineService D) (fp : Str)
      (printed : registry_fingerprint encoders s.registry ≡ ok fp) where
    pub publish_rule_set-plain :
        (def : RuleSetDefinition) (w : World setting)
        → IsFaithful setting s.registry w.cache
        → ((publish_rule_set setting def s w).0 ≡ publish_plain def s)
          × ((publish_rule_set setting def s w).1 ≡ after def (publish_plain def s) s)
          × IsFaithful setting s.registry (publish_rule_set setting def s w).2.cache
    unfolding publish_rule_set publish_plain
    publish_rule_set-plain def w h =
        let (same, kept) =
          compile_rules-plain setting s.registry s.vm_config fp printed def.rules [] [] w h in
        go (check_rule_set def) refl (compile_plain setting s.registry s.vm_config def.rules [] [])
          refl same kept
      where
        engine : Engine
        engine = record { registry = s.registry; vm_config = s.vm_config }

        go :
            (k : Outcome (Unit {0}))
            → check_rule_set def ≡ k
            → (o : Outcome (List (Str × EngineCompiledExpr D)))
            → compile_plain setting s.registry s.vm_config def.rules [] [] ≡ o
            → (compile_rules setting engine def.rules [] [] w).0
              ≡ compile_plain setting s.registry s.vm_config def.rules [] []
            → IsFaithful setting s.registry (compile_rules setting engine def.rules [] [] w).1.cache
            → ((publish_rule_set setting def s w).0 ≡ publish_plain def s)
              × ((publish_rule_set setting def s w).1 ≡ after def (publish_plain def s) s)
              × IsFaithful setting s.registry (publish_rule_set setting def s w).2.cache
        go (err x) k o e same kept = rw (publish_rule_set, publish_plain, k) (refl, refl, h)
        go panic k o e same kept = rw (publish_rule_set, publish_plain, k) (refl, refl, h)
        go (ok _) k (err x) e same kept =
            let made = (rw e at same) in
            rw (publish_rule_set, publish_plain, k, made, e) (refl, refl, kept)
        go (ok _) k panic e same kept =
            let made = (rw e at same) in
            rw (publish_rule_set, publish_plain, k, made, e) (refl, refl, kept)
        go (ok _) k (ok out) e same kept =
            let made = (rw e at same) in
            rw (publish_rule_set, publish_plain, k, made, e) (refl, refl, kept)

    -- Either the rule set has a code, a positive version and rules, and each rule has a code of its own and a
    -- text that compiles: then it is published, and loaded under its code and version. Or it is not
    -- published, and the service stays as it is.
    pub publish_rule_set-cases :
        (def : RuleSetDefinition) (w : World setting)
        → IsFaithful setting s.registry w.cache
        → (IsPublishable s def
            × ((p : PublishedRuleSet D) × ((publish_rule_set setting def s w).0 ≡ ok p)
                × (load_rule_set def.rule_set_code def.version (publish_rule_set setting def s w).1
                    ≡ some p)))
          ⊎ ((IsPublishable s def → ⊥)
              × ((publish_rule_set setting def s w).1 ≡ s)
              × (((p : PublishedRuleSet D) × ((publish_rule_set setting def s w).0 ≡ ok p)) → ⊥))
    publish_rule_set-cases def w h =
        let (outcome, service, kept) = publish_rule_set-plain def w h in
        elim (Outcome-cases (publish_plain def s)) [
          | inl (p, made) ↦ inl (
            (publish_plain-done def s p made).0,
            (
              p,
              outcome ∙ made,
              ap (load_rule_set def.rule_set_code def.version)
                    (service ∙ ap (λ o. after def o s) made)
                  ∙ load_rule_set-store def p s def.rule_set_code def.version
                  ∙ rw (str_eq_refl def.rule_set_code, integer_self def.version) refl,
            ),
          )
          | inr failed ↦ inr (
            (λ fine. let (p, made) = publish_plain-succeeds def s fine in failed p made),
            service ∙ stays (publish_plain def s) refl failed,
            λ (p, done). failed p (sym outcome ∙ done),
          )
        ]
      where
        stays :
            (o : Outcome (PublishedRuleSet D))
            → publish_plain def s ≡ o
            → ((p : PublishedRuleSet D) → publish_plain def s ≡ ok p → ⊥)
            → after def (publish_plain def s) s ≡ s
        stays (ok p) e failed = absurd (failed p e)
        stays (err x) e failed = rw e refl
        stays panic e failed = rw e refl
