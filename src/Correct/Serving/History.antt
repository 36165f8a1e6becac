-- ===== src/Correct/Serving/History.antt =====
-- The service after any publications: the latest versions, and what its rules evaluate to.
use mathlib.Core.Path.{subst}
use risk_engine.Prelude.{
  ℕ, ◌≡◌, refl, sym, ◌∙◌, ap, Bool, true, false, ◌&&◌, Option, none, some, List, [], ◌∷◌, Str, All,
  get_elem?, str_eq, str_eq_refl, eq_of_str_eq, Bool-cases, ◌⊎◌, inl, inr, arith, zero, suc,
}
use risk_engine.Prelude.Int.{ℤ, pos, leb_ℤ, eqb_ℤ}
use risk_engine.Outcome.{Outcome, ok, err, panic}
use risk_engine.Schema.{FactorRegistry}
use risk_engine.Accessor.{EvalContext}
use risk_engine.Runtime.{Floats}
use risk_engine.Bytecode.Vm.{BytecodeVmConfig, new_bytecode_vm_with_config, vm_eval}
use risk_engine.Compiler.{CompiledExpr}
use risk_engine.Fingerprint.{registry_fingerprint}
use risk_engine.GoMap.{find, string_keys, integer_keys, integer_self, integer_eq}
use risk_engine.Engine.{Setting, World, returned, eval_engine_compiled}
use risk_engine.Service.{
  RuleDefinition, RuleSetDefinition, PublishedRuleSet, EngineService, new_engine_service,
  latest_with, store, load_rule_set, publish_rule_set, eval_published, eval_rule, eval_latest_rule,
}
use risk_engine.Correct.Serving.Transparent.{IsFaithful}
use risk_engine.Correct.Serving.Publishing.{IsCompiled}
use risk_engine.Correct.Serving.Releases.{
  load_rule_set-store, load_latest_rule_set_lem, latest-store, publish_plain, after,
  publish_plain-done, publish_rule_set-plain,
}

leb_refl : (a : ℤ) → leb_ℤ a a ≡ true
leb_refl a = ground arith

leb_trans : (a b c : ℤ) → leb_ℤ a b ≡ true → leb_ℤ b c ≡ true → leb_ℤ a c ≡ true
leb_trans a b c h k = ground arith

leb_total : (a b : ℤ) → leb_ℤ a b ≡ false → leb_ℤ b a ≡ true
leb_total a b h = ground arith

some_same : {A : Type 0} {a b : A} → some a ≡ some b → a ≡ b
some_same h = cc

-- The new latest version is no less than the old one and than the published one.
latest_with-le : (v : ℤ) (o : Option ℤ) (u : ℤ) → o ≡ some u → leb_ℤ u (latest_with v o) ≡ true
latest_with-le v none u e = cc
latest_with-le v (some l) u e =
    rw (← some_same e)
      (elim (Bool-cases (leb_ℤ l v)) [ inl h ↦ rw (h, h) refl | inr h ↦ rw h (leb_refl l) ])

published-le : (v : ℤ) (o : Option ℤ) → leb_ℤ v (latest_with v o) ≡ true
published-le v none = leb_refl v
published-le v (some l) = elim (Bool-cases (leb_ℤ l v)) [
  | inl h ↦ rw h (leb_refl v)
  | inr h ↦ rw h (leb_total l v h)
]

-- It is one of the two.
latest_with-cases : (v : ℤ) (o : Option ℤ) → (latest_with v o ≡ v) ⊎ (o ≡ some (latest_with v o))
latest_with-cases v none = inl refl
latest_with-cases v (some l) = elim (Bool-cases (leb_ℤ l v)) [
  | inl h ↦ inl (rw h refl)
  | inr h ↦ inr (rw h refl)
]

both : (a b : Bool) → (a && b) ≡ true → (a ≡ true) × (b ≡ true)
both true b h = (refl, h)
both false b h = cc

module _ {D O : Type 0} (setting : Setting D O) (registry : FactorRegistry)
    (vm_config : BytecodeVmConfig) where
  open setting use {encoders, cache, inner}

  -- A rule set that is served under a code and a version: it is the definition with them, and its rules are
  -- what the compiler makes of their texts.
  pub record IsRelease (code : Str) (version : ℤ) (p : PublishedRuleSet D) : Type 0 where
    pub same_code : p.definition.rule_set_code ≡ code
    pub same_version : p.definition.version ≡ version
    pub is_positive : leb_ℤ version (pos 0) ≡ false
    pub right : All (IsCompiled setting registry vm_config p.compiled) p.definition.rules

  -- The state of a service.
  pub record IsServing (s : EngineService D) : Type 0 where
    pub same_registry : s.registry ≡ registry
    pub same_config : s.vm_config ≡ vm_config
    pub latest_loads :
        (code : Str) (v : ℤ)
        → find code s.latest ≡ some v
        → (p : PublishedRuleSet D) × (load_rule_set code v s ≡ some p)
    pub loads_latest :
        (code : Str) (v : ℤ) (p : PublishedRuleSet D)
        → load_rule_set code v s ≡ some p
        → (l : ℤ) × (find code s.latest ≡ some l) × (leb_ℤ v l ≡ true)
    pub releases :
        (code : Str) (v : ℤ) (p : PublishedRuleSet D)
        → load_rule_set code v s ≡ some p
        → IsRelease code v p

  new-IsServing : IsServing (new_engine_service registry vm_config)
  unfolding load_rule_set find
  new-IsServing = record {
    same_registry = refl;
    same_config = refl;
    latest_loads = λ code v e. absurd (nothing e);
    loads_latest = λ code v p e. absurd (nothing e);
    releases = λ code v p e. absurd (nothing e);
  }
    where
      nothing : {A : Type 0} {a : A} → none ≡ some a → ⊥
      nothing h = cc

  module _ (s : EngineService D) (i : IsServing s) (def : RuleSetDefinition)
      (p : PublishedRuleSet D) (made : publish_plain setting def s ≡ ok p) where
    -- What was loaded before is loaded still, or replaced.
    store_loads :
        (code : Str) (v : ℤ) (q : PublishedRuleSet D)
        → load_rule_set code v s ≡ some q
        → (p' : PublishedRuleSet D) × (load_rule_set code v (store def p s) ≡ some p')
    store_loads code v q e =
        elim (Bool-cases (str_eq def.rule_set_code code && eqb_ℤ def.version v)) [
          | inl h ↦ (p, load_rule_set-store def p s code v ∙ rw h refl)
          | inr h ↦ (q, load_rule_set-store def p s code v ∙ rw h e)
        ]

    -- What is loaded behind the publication: the published rule set, or what was loaded before.
    loaded :
        (code : Str) (v : ℤ) (q : PublishedRuleSet D)
        → load_rule_set code v (store def p s) ≡ some q
        → ((def.rule_set_code ≡ code) × (def.version ≡ v) × (p ≡ q))
          ⊎ (load_rule_set code v s ≡ some q)
    loaded code v q e = elim (Bool-cases (str_eq def.rule_set_code code && eqb_ℤ def.version v)) [
      | inl h ↦
          let (c, d) = both (str_eq def.rule_set_code code) (eqb_ℤ def.version v) h in
          let law : load_rule_set code v (store def p s) ≡ some p =
            load_rule_set-store def p s code v ∙ rw h refl in
          inl (
            eq_of_str_eq def.rule_set_code code c,
            integer_eq def.version v d,
            some_same (sym law ∙ e),
          )
      | inr h ↦
          let law : load_rule_set code v (store def p s) ≡ load_rule_set code v s =
            load_rule_set-store def p s code v ∙ rw h refl in
          inr (sym law ∙ e)
    ]

    published_loads : load_rule_set def.rule_set_code def.version (store def p s) ≡ some p
    published_loads =
        load_rule_set-store def p s def.rule_set_code def.version
        ∙ rw (str_eq_refl def.rule_set_code, integer_self def.version) refl

    latest_here :
        find def.rule_set_code (store def p s).latest
        ≡ some (latest_with def.version (find def.rule_set_code s.latest))
    latest_here = latest-store def p s def.rule_set_code ∙ rw (str_eq_refl def.rule_set_code) refl

    stored_latest :
        (code : Str) (v : ℤ)
        → find code (store def p s).latest ≡ some v
        → (q : PublishedRuleSet D) × (load_rule_set code v (store def p s) ≡ some q)
    stored_latest code v e = elim (Bool-cases (str_eq def.rule_set_code code)) [
      | inl same ↦
          let same_code = eq_of_str_eq def.rule_set_code code same in
          let w = latest_with def.version (find def.rule_set_code s.latest) in
          let is_w : w ≡ v =
            some_same (sym latest_here ∙ ap (λ c. find c (store def p s).latest) same_code ∙ e) in
          elim (latest_with-cases def.version (find def.rule_set_code s.latest)) [
            | inl new ↦ (
              p,
              ap (λ c. load_rule_set c v (store def p s)) (sym same_code)
                  ∙ ap (λ n. load_rule_set def.rule_set_code n (store def p s)) (sym is_w ∙ new)
                  ∙ published_loads,
            )
            | inr old ↦
                let (q, there) =
                  i.latest_loads code v
                    (ap (λ c. find c s.latest) (sym same_code) ∙ old ∙ ap some is_w) in
                store_loads code v q there
          ]
      | inr other ↦
          let law : find code (store def p s).latest ≡ find code s.latest =
            latest-store def p s code ∙ rw other refl in
          let (q, there) = i.latest_loads code v (sym law ∙ e) in store_loads code v q there
    ]

    stored_loads :
        (code : Str) (v : ℤ) (q : PublishedRuleSet D)
        → load_rule_set code v (store def p s) ≡ some q
        → (l : ℤ) × (find code (store def p s).latest ≡ some l) × (leb_ℤ v l ≡ true)
    stored_loads code v q e = elim (loaded code v q e) [
      | inl (c, d, same) ↦ (
        latest_with def.version (find def.rule_set_code s.latest),
        ap (λ c. find c (store def p s).latest) (sym c) ∙ latest_here,
        subst (λ n. leb_ℤ n (latest_with def.version (find def.rule_set_code s.latest)) ≡ true) d
            (published-le def.version (find def.rule_set_code s.latest)),
      )
      | inr before ↦
          let (l, known, le) = i.loads_latest code v q before in
          elim (Bool-cases (str_eq def.rule_set_code code)) [
            | inl same ↦
                let same_code = eq_of_str_eq def.rule_set_code code same in
                let o = find def.rule_set_code s.latest in
                (
                  latest_with def.version o,
                  ap (λ c. find c (store def p s).latest) (sym same_code) ∙ latest_here,
                  leb_trans v l (latest_with def.version o) le (
                      latest_with-le def.version o l (ap (λ c. find c s.latest) same_code ∙ known)),
                )
            | inr other ↦ (l, latest-store def p s code ∙ rw other known, le)
          ]
    ]

    stored_releases :
        (code : Str) (v : ℤ) (q : PublishedRuleSet D)
        → load_rule_set code v (store def p s) ≡ some q
        → IsRelease code v q
    stored_releases code v q e = elim (loaded code v q e) [
      | inl (c, d, same) ↦
          let (fine, is_def, right) = publish_plain-done setting def s p made in
          let (blank, positive, rest, distinct, good) = fine in
          subst (λ x. IsRelease code v x) same
            (record {
              same_code = ap (λ x. x.rule_set_code) is_def ∙ c;
              same_version = ap (λ x. x.version) is_def ∙ d;
              is_positive = subst (λ n. leb_ℤ n (pos 0) ≡ false) d positive;
              right =
                  subst (λ r. All (IsCompiled setting r vm_config p.compiled) p.definition.rules)
                    i.same_registry
                    (subst
                      (λ c. All (IsCompiled setting s.registry c p.compiled) p.definition.rules)
                      i.same_config
                      (subst
                        (λ x. All (IsCompiled setting s.registry s.vm_config p.compiled) x.rules)
                        (sym is_def) right));
            })
      | inr before ↦ i.releases code v q before
    ]

    store-IsServing : IsServing (store def p s)
    unfolding store
    store-IsServing = record {
      same_registry = i.same_registry;
      same_config = i.same_config;
      latest_loads = stored_latest;
      loads_latest = stored_loads;
      releases = stored_releases;
    }

  module _ (fp : Str) (printed : registry_fingerprint encoders registry ≡ ok fp) where
    -- Publications one after another.
    abbrev pub publish_all :
        List RuleSetDefinition → EngineService D → World setting → EngineService D × World setting
    publish_all [] s w = (s, w)
    publish_all (def ∷ defs) s w =
        let (o, s', w') = publish_rule_set setting def s w in publish_all defs s' w'

    after-IsServing :
        (s : EngineService D) (def : RuleSetDefinition) (o : Outcome (PublishedRuleSet D))
        → IsServing s
        → publish_plain setting def s ≡ o
        → IsServing (after setting def o s)
    after-IsServing s def (ok p) i made = store-IsServing s i def p made
    after-IsServing s def (err x) i made = i
    after-IsServing s def panic i made = i

    publish_all-from :
        (defs : List RuleSetDefinition) (s : EngineService D) (w : World setting)
        → IsServing s
        → IsFaithful setting registry w.cache
        → IsServing (publish_all defs s w).0
    publish_all-from [] s w i h = i
    publish_all-from (def ∷ defs) s w i h =
        let (outcome, service, kept) =
          publish_rule_set-plain setting s fp
            (subst (λ r. registry_fingerprint encoders r ≡ ok fp) (sym i.same_registry) printed) def
            w (subst (λ r. IsFaithful setting r w.cache) (sym i.same_registry) h) in
        publish_all-from defs (publish_rule_set setting def s w).1
          (publish_rule_set setting def s w).2
          (subst IsServing (sym service)
            (after-IsServing s def (publish_plain setting def s) i refl))
          (subst (λ r. IsFaithful setting r (publish_rule_set setting def s w).2.cache)
            i.same_registry kept)

    abbrev pub fresh_world : O → World setting
    fresh_world observed = record { cache = some cache.new; observer = observed; measured = 0 }

    -- Whatever is published on a new service with a new cache, successfully or not: the latest version of a
    -- code is loaded and no loaded version is greater, and each rule set that is loaded has the code and
    -- the positive version that it is loaded under, and its rules compiled as the compiler does. It takes
    -- a registry with a fingerprint.
    pub publish_all-IsServing :
        (defs : List RuleSetDefinition) (observed : O)
        → IsServing
            (publish_all defs (new_engine_service registry vm_config) (fresh_world observed)).0
    publish_all-IsServing defs observed =
        publish_all-from defs (new_engine_service registry vm_config) (fresh_world observed)
          new-IsServing (cache.new-Holds _)

    compiled_rule :
        (p : PublishedRuleSet D) (rules : List RuleDefinition) (n : ℕ) (rule : RuleDefinition)
        → All (IsCompiled setting registry vm_config p.compiled) rules
        → get_elem? rules n ≡ some rule
        → IsCompiled setting registry vm_config p.compiled rule
    compiled_rule p [] n rule h e = cc
    compiled_rule p (r ∷ rules) zero rule (h, t) e =
        subst (IsCompiled setting registry vm_config p.compiled) (some_same e) h
    compiled_rule p (r ∷ rules) (suc n) rule (h, t) e = compiled_rule p rules n rule t e

    -- The service behind publications on a new one with a new cache.
    abbrev pub served : List RuleSetDefinition → O → EngineService D
    served defs observed =
        (publish_all defs (new_engine_service registry vm_config) (fresh_world observed)).0

    module _ ⦃fl : Floats D⦄ where
      -- On such a service a rule of a rule set that is loaded evaluates to what the machine gives on the
      -- program that the compiler makes of the rule's text.
      pub eval_rule-served :
          (defs : List RuleSetDefinition) (observed : O) (code : Str) (v : ℤ)
          (p : PublishedRuleSet D) (n : ℕ) (rule : RuleDefinition)
          → load_rule_set code v (served defs observed) ≡ some p
          → get_elem? p.definition.rules n ≡ some rule
          → (c : CompiledExpr D) × (inner.compile rule.expression registry ≡ ok c)
            × ((ctx : EvalContext D) (w : World setting)
                → (eval_rule setting code v rule.rule_code ctx (served defs observed) w).0
                  ≡ returned (vm_eval (new_bytecode_vm_with_config vm_config) c.bytecode ctx))
      unfolding eval_rule eval_published eval_engine_compiled
      eval_rule-served defs observed code v p n rule there at_n =
          let i = publish_all-IsServing defs observed in
          let (c, made, under) =
            compiled_rule p p.definition.rules n rule (i.releases code v p there).right at_n in
          (c, made, λ ctx w. rw (eval_rule, there, eval_published, under) refl)

      -- Without a version, a rule is evaluated as that of the greatest version that is loaded for the code,
      -- when any is loaded.
      pub eval_latest_rule-served :
          (defs : List RuleSetDefinition) (observed : O) (code rule_code : Str) (v : ℤ)
          (p : PublishedRuleSet D) (ctx : EvalContext D) (w : World setting)
          → load_rule_set code v (served defs observed) ≡ some p
          → (l : ℤ) × ((u : ℤ) (q : PublishedRuleSet D)
              → load_rule_set code u (served defs observed) ≡ some q
              → leb_ℤ u l ≡ true)
            × ((q : PublishedRuleSet D) × (load_rule_set code l (served defs observed) ≡ some q))
            × (eval_latest_rule setting code rule_code ctx (served defs observed) w
                ≡ eval_rule setting code l rule_code ctx (served defs observed) w)
      unfolding eval_rule eval_latest_rule
      eval_latest_rule-served defs observed code rule_code v p ctx w there =
          let i = publish_all-IsServing defs observed in
          let (l, known, le) = i.loads_latest code v p there in
          let loads = i.latest_loads code l known in
          (
            l,
            (λ u q e.
                let (m, known', le') = i.loads_latest code u q e in
                subst (λ x. leb_ℤ u x ≡ true) (some_same (sym known' ∙ known)) le'),
            loads,
            rw
                (
                  eval_latest_rule,
                  load_latest_rule_set_lem l (served defs observed) code known,
                  eval_rule,
                  loads.1,
                )
                refl,
          )
