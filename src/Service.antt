-- ===== src/Service.antt =====
-- factorengine/engine_service.go: rule sets are published, loaded and evaluated. A Go call that fails
-- before it takes the lock leaves the maps as they are.
use risk_engine.Prelude.{
  Bool, true, false, Option, none, some, List, [], ◌∷◌, ◌++◌, Str, bytes, if◌then◌else◌,
}
use risk_engine.Prelude.Int.{ℤ, pos, ltb_ℤ, leb_ℤ}
use risk_engine.Prelude.Sorting.{sort}
use risk_engine.Outcome.{Outcome, ok, err, panic, ValidationError, error_at, definition_invalid}
use risk_engine.Schema.{FactorRegistry}
use risk_engine.Value.{Value}
use risk_engine.Accessor.{EvalContext}
use risk_engine.Runtime.{Floats}
use risk_engine.Bytecode.Vm.{BytecodeVmConfig}
use risk_engine.GoMap.{find, put, string_keys, integer_keys}
use risk_engine.Engine.{
  Engine, EngineCompiledExpr, Setting, World, engine_compile, eval_engine_compiled,
}

pub record RuleDefinition : Type 0 where
  pub rule_code : Str
  pub expression : Str

pub record RuleSetDefinition : Type 0 where
  pub rule_set_code : Str
  pub version : ℤ
  pub rules : List RuleDefinition

pub record PublishedRuleSet (D : Type 0) : Type 0 where
  pub definition : RuleSetDefinition
  pub engine : Engine
  pub compiled : List (Str × EngineCompiledExpr D)

pub record EngineService (D : Type 0) : Type 0 where
  pub registry : FactorRegistry
  pub vm_config : BytecodeVmConfig
  pub rule_sets : List (Str × List (ℤ × PublishedRuleSet D))
  pub latest : List (Str × ℤ)

abbrev pub new_engine_service : {D : Type 0} → FactorRegistry → BytecodeVmConfig → EngineService D
new_engine_service registry vm_config = record {
  registry = registry;
  vm_config = vm_config;
  rule_sets = [];
  latest = [];
}

-- `wrapFieldError`: the error is told of another field.
abbrev pub wrap_field_error : ValidationError → Str → ValidationError
wrap_field_error e f = record e { field = f }

-- The error of a definition at a field.
abbrev pub invalid_at {ℓ} : {A : Type ℓ} → Str → Outcome A
invalid_at f = err (error_at definition_invalid f)

abbrev pub is_blank : Str → Bool
is_blank [] = true
is_blank (c ∷ cs) = false

abbrev pub no_rules : List RuleDefinition → Bool
no_rules [] = true
no_rules (r ∷ rs) = false

-- The checks at the head of `PublishRuleSet`.
unfoldable pub check_rule_set : RuleSetDefinition → Outcome (Unit {0})
check_rule_set def =
    if is_blank def.rule_set_code
    then invalid_at (bytes "rule_set_code")
    else if leb_ℤ def.version (pos 0)
    then invalid_at (bytes "version")
    else if no_rules def.rules
    then invalid_at (bytes "rules")
    else ok tt

-- The checks of a rule in the loop, against the codes that have been seen.
unfoldable pub check_rule : List (Str × Unit {0}) → RuleDefinition → Outcome (Unit {0})
unfolding find
check_rule seen rule =
    if is_blank rule.rule_code
    then invalid_at (bytes "rule_code")
    else if is_blank rule.expression
    then invalid_at rule.rule_code
    else elim (find rule.rule_code seen) [ some _ ↦ invalid_at rule.rule_code | none ↦ ok tt ]

abbrev pub latest_with : ℤ → Option ℤ → ℤ
latest_with version none = version
latest_with version (some latest) = if leb_ℤ latest version then version else latest

module _ {D : Type 0} where
  -- The versions of a rule set; of a code that is not there there are none.
  abbrev pub versions_of :
      Str → List (Str × List (ℤ × PublishedRuleSet D)) → List (ℤ × PublishedRuleSet D)
  unfolding find
  versions_of code m = elim (find code m) [ none ↦ [] | some versions ↦ versions ]

  -- What `PublishRuleSet` writes under the lock.
  unfoldable pub store : RuleSetDefinition → PublishedRuleSet D → EngineService D → EngineService D
  unfolding put find
  store def published s = record s {
    rule_sets =
        put def.rule_set_code
          (put def.version published (versions_of def.rule_set_code s.rule_sets)) s.rule_sets;
    latest =
        put def.rule_set_code (latest_with def.version (find def.rule_set_code s.latest)) s.latest;
  }

  unfoldable pub load_rule_set : Str → ℤ → EngineService D → Option (PublishedRuleSet D)
  unfolding find
  load_rule_set code version s = elim (find code s.rule_sets) [
    | none ↦ none
    | some versions ↦ find version versions
  ]

  unfoldable pub load_latest_rule_set : Str → EngineService D → Option (PublishedRuleSet D)
  unfolding find
  load_latest_rule_set code s = elim (find code s.latest) [
    | none ↦ none
    | some version ↦ find version (versions_of code s.rule_sets)
  ]

  abbrev pub versions : List (ℤ × PublishedRuleSet D) → List ℤ
  versions [] = []
  versions ((v, p) ∷ m) = v ∷ versions m

  unfoldable pub list_rule_set_versions : Str → EngineService D → List ℤ
  unfolding sort find
  list_rule_set_versions code s = sort ltb_ℤ (versions (versions_of code s.rule_sets))

module _ {D O : Type 0} (setting : Setting D O) where
  -- The loop over the rules: what is compiled, and the codes that have been seen.
  unfoldable pub compile_rules :
      Engine
      → List RuleDefinition
      → List (Str × Unit {0})
      → List (Str × EngineCompiledExpr D)
      → World setting
      → Outcome (List (Str × EngineCompiledExpr D)) × World setting
  unfolding check_rule engine_compile put
  compile_rules e [] seen compiled w = (ok compiled, w)
  compile_rules e (rule ∷ rules) seen compiled w = elim (check_rule seen rule) [
    | err x ↦ (err x, w)
    | panic ↦ (panic, w)
    | ok _ ↦
        let (o, w') = engine_compile setting e rule.expression w in
        elim o [
          | err x ↦ (err (wrap_field_error x (bytes "rules." ++ rule.rule_code)), w')
          | panic ↦ (panic, w')
          | ok c ↦
              compile_rules e rules (put rule.rule_code tt seen) (put rule.rule_code c compiled) w'
        ]
  ]

  unfoldable pub publish_rule_set :
      RuleSetDefinition
      → EngineService D
      → World setting
      → Outcome (PublishedRuleSet D) × EngineService D × World setting
  unfolding check_rule_set compile_rules store
  publish_rule_set def s w =
      let engine : Engine = record { registry = s.registry; vm_config = s.vm_config } in
      elim (check_rule_set def) [
        | err x ↦ (err x, s, w)
        | panic ↦ (panic, s, w)
        | ok _ ↦
            let (o, w') = compile_rules engine def.rules [] [] w in
            elim o [
              | err x ↦ (err x, s, w')
              | panic ↦ (panic, s, w')
              | ok compiled ↦
                  let published : PublishedRuleSet D = record {
                    definition = def;
                    engine = engine;
                    compiled = compiled;
                  } in
                  (ok published, store def published s, w')
            ]
      ]

  -- `Compiled[ruleCode]` and its `Eval`.
  unfoldable pub eval_published :
      ⦃fl : Floats D⦄
      → Str
      → EvalContext D
      → PublishedRuleSet D
      → World setting
      → Outcome (Value D) × World setting
  unfolding find eval_engine_compiled
  eval_published rule_code ctx p w = elim (find rule_code p.compiled) [
    | none ↦ (invalid_at rule_code, w)
    | some c ↦ eval_engine_compiled setting c ctx w
  ]

  unfoldable pub eval_rule :
      ⦃fl : Floats D⦄
      → Str
      → ℤ
      → Str
      → EvalContext D
      → EngineService D
      → World setting
      → Outcome (Value D) × World setting
  unfolding load_rule_set eval_published
  eval_rule rule_set_code version rule_code ctx s w = elim (load_rule_set rule_set_code version s) [
    | none ↦ (invalid_at rule_set_code, w)
    | some p ↦ eval_published rule_code ctx p w
  ]

  unfoldable pub eval_latest_rule :
      ⦃fl : Floats D⦄
      → Str
      → Str
      → EvalContext D
      → EngineService D
      → World setting
      → Outcome (Value D) × World setting
  unfolding load_latest_rule_set eval_published
  eval_latest_rule rule_set_code rule_code ctx s w = elim (load_latest_rule_set rule_set_code s) [
    | none ↦ (invalid_at rule_set_code, w)
    | some p ↦ eval_published rule_code ctx p w
  ]
