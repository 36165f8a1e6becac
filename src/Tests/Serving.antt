-- ===== src/Tests/Serving.antt =====
-- Caches, engines and the service at runs: a cache of one entry, and the rule `age >= 10 + 8 && true`.
use risk_engine.Prelude.{
  ◌⊎◌, ℕ, ◌≡◌, refl, true, false, none, some, List, [], ◌∷◌, Str, bytes, str_eq,
}
use risk_engine.Prelude.Int.{ℤ, pos, leb_ℤ}
use risk_engine.Outcome.{Outcome, ok}
use risk_engine.Accessor.{EvalContext}
use risk_engine.GoMap.{find, put, string_keys}
use risk_engine.Cache.Lru
use risk_engine.Cache.Lru.{LruProgramCache, clamp_capacity, new_lru_program_cache}
use risk_engine.Fingerprint.{Encoders, registry_fingerprint, build_compile_cache_key}
use risk_engine.Observer.{RuleObserverStats, in_memory_rule_observer, new_in_memory_rule_observer}
use risk_engine.Bytecode.Vm.{BytecodeVmConfig, new_bytecode_vm_with_config, vm_eval}
use risk_engine.Evaluator.{run_binary}
use risk_engine.Binder.{bind}
use risk_engine.Bytecode.Compile.{compile}
use risk_engine.Compiler.{CompiledExpr, compile_rule, type_check}
use risk_engine.Engine.{Setting, World, new_rule_compiler, returned}
use risk_engine.Service.{
  RuleSetDefinition, PublishedRuleSet, EngineService, new_engine_service, publish_rule_set,
  load_rule_set, list_rule_set_versions, eval_rule, eval_latest_rule,
}
use risk_engine.Correct.Caching.Recency.{
  Request, get_key, set_key, delete_key, serve_all, serve_all_recent, IsConsistent,
  serve_all-new_lru_program_cache, serve_all-IsConsistent,
}
use risk_engine.Correct.Caching.Interfaces.{lru_cache}
use risk_engine.Correct.Serving.Transparent.{eval_all, all_directly, eval_all-directly}
use risk_engine.Correct.Serving.Releases.{IsPublishable, publish_rule_set-cases}
use risk_engine.Correct.Counting.{Event, Counts, observe_all, observe_all-Counts}
use risk_engine.Correct.Serving.Listing.{
  Ascending, member, is_there, list_rule_set_versions-load_rule_set,
}
use risk_engine.Correct.Serving.History.{
  IsServing, served, publish_all-IsServing, eval_rule-served, eval_latest_rule-served,
}
use risk_engine.Tests.{integers, fmt, registry, context, outputs_context, program, bound}
use risk_engine.Tests.Parsing.{decimals, raw, compiled}

abbrev requests : List (Request ℕ)
requests =
    set_key (bytes "a") 1
    ∷ set_key (bytes "b") 2
    ∷ get_key (bytes "a")
    ∷ get_key (bytes "b")
    ∷ delete_key (bytes "b")
    ∷ []

serve_all-new_lru_program_cache_example :
    (serve_all requests (new_lru_program_cache (pos 0))).0
    ≡ serve_all_recent (clamp_capacity (pos 0)) requests []
serve_all-new_lru_program_cache_example = serve_all-new_lru_program_cache (pos 0) requests

serve_all-IsConsistent_example : IsConsistent (serve_all requests (new_lru_program_cache (pos 1))).1
serve_all-IsConsistent_example = serve_all-IsConsistent (pos 1) requests

-- The evicted key is not found.
requests_answered : serve_all_recent 1 requests [] ≡ none ∷ none ∷ none ∷ some 2 ∷ none ∷ []
unfolding find str_eq
requests_answered = refl

abbrev encoders : Encoders
encoders = record { marshal = λ m. ok (bytes "{}"); sha256_hex = λ s. s }

abbrev setting : Setting ℤ RuleObserverStats
setting = record {
  encoders = encoders;
  fingerprint = λ p. [];
  elapsed = λ n. pos n;
  observer = in_memory_rule_observer;
  cache = lru_cache (pos 1);
  inner = new_rule_compiler decimals fmt;
}

abbrev printed_registry : Str
unfolding registry_fingerprint
printed_registry = or_empty (registry_fingerprint encoders registry)
  where
    or_empty : Outcome Str → Str
    or_empty (ok s) = s
    or_empty _ = []

registry_printed : registry_fingerprint encoders registry ≡ ok printed_registry
unfolding registry_fingerprint printed_registry
registry_printed = refl

abbrev vm_config : BytecodeVmConfig
vm_config = record { cancelled = λ n. false; max_steps = pos 0; max_stack_depth = pos 0 }

abbrev rules : RuleSetDefinition
rules = record {
  rule_set_code = bytes "adults";
  version = pos 2;
  rules = record { rule_code = bytes "r"; expression = raw } ∷ [];
}

abbrev calls : List (Str × EvalContext ℤ)
calls = (raw, outputs_context) ∷ (raw, context) ∷ []

eval_all-directly_example :
    eval_all setting registry printed_registry registry_printed vm_config calls (record {
      cache = some setting.cache.new;
      observer = new_in_memory_rule_observer;
      measured = 0;
    })
    ≡ all_directly setting registry printed_registry registry_printed vm_config calls
eval_all-directly_example =
    eval_all-directly setting registry printed_registry registry_printed vm_config calls
      new_in_memory_rule_observer

abbrev start : World setting
start = record {
  cache = some setting.cache.new;
  observer = new_in_memory_rule_observer;
  measured = 0;
}

abbrev service : EngineService ℤ
service = new_engine_service registry vm_config

publish_rule_set-cases_example :
    (IsPublishable setting service rules
      × ((p : PublishedRuleSet ℤ) × ((publish_rule_set setting rules service start).0 ≡ ok p)
          × (load_rule_set (bytes "adults") (pos 2) (publish_rule_set setting rules service start).1
              ≡ some p)))
    ⊎ ((IsPublishable setting service rules → ⊥)
        × ((publish_rule_set setting rules service start).1 ≡ service)
        × (((p : PublishedRuleSet ℤ) × ((publish_rule_set setting rules service start).0 ≡ ok p))
            → ⊥))
publish_rule_set-cases_example =
    publish_rule_set-cases setting service printed_registry registry_printed rules start
      (setting.cache.new-Holds _)

abbrev served_rules : EngineService ℤ
served_rules =
    served setting registry vm_config printed_registry registry_printed (rules ∷ [])
      new_in_memory_rule_observer

publish_all-IsServing_example : IsServing setting registry vm_config served_rules
publish_all-IsServing_example =
    publish_all-IsServing setting registry vm_config printed_registry registry_printed (rules ∷ [])
      new_in_memory_rule_observer

abbrev published : PublishedRuleSet ℤ
published = record {
  definition = rules;
  engine = record { registry = registry; vm_config = vm_config };
  compiled = (bytes "r", record { compiled = compiled; vm_config = vm_config }) ∷ [];
}

rules_served : load_rule_set (bytes "adults") (pos 2) served_rules ≡ some published
unfolding load_rule_set publish_rule_set type_check compile_rule program bound run_binary bind
    compile build_compile_cache_key Lru.get Lru.set new_lru_program_cache find put
rules_served = refl

eval_rule-served_example :
    (c : CompiledExpr ℤ) × (setting.inner.compile raw registry ≡ ok c)
    × ((ctx : EvalContext ℤ) (w : World setting)
        → (eval_rule setting (bytes "adults") (pos 2) (bytes "r") ctx served_rules w).0
          ≡ returned (vm_eval (new_bytecode_vm_with_config vm_config) c.bytecode ctx))
eval_rule-served_example =
    eval_rule-served setting registry vm_config printed_registry registry_printed (rules ∷ [])
      new_in_memory_rule_observer (bytes "adults") (pos 2) published 0
      (record { rule_code = bytes "r"; expression = raw }) rules_served refl

eval_latest_rule-served_example :
    (l : ℤ) × ((u : ℤ) (q : PublishedRuleSet ℤ)
      → load_rule_set (bytes "adults") u served_rules ≡ some q
      → leb_ℤ u l ≡ true)
    × ((q : PublishedRuleSet ℤ) × (load_rule_set (bytes "adults") l served_rules ≡ some q))
    × (eval_latest_rule setting (bytes "adults") (bytes "r") context served_rules start
        ≡ eval_rule setting (bytes "adults") l (bytes "r") context served_rules start)
eval_latest_rule-served_example =
    eval_latest_rule-served setting registry vm_config printed_registry registry_printed
      (rules ∷ []) new_in_memory_rule_observer (bytes "adults") (bytes "r") (pos 2) published
      context start rules_served

-- A service with three versions that were published out of order.
abbrev three_versions : EngineService ℤ
three_versions = record {
  registry = registry;
  vm_config = vm_config;
  rule_sets =
      (bytes "adults", (pos 3, published) ∷ (pos 1, published) ∷ (pos 2, published) ∷ []) ∷ [];
  latest = (bytes "adults", pos 3) ∷ [];
}

three_listed : list_rule_set_versions (bytes "adults") three_versions ≡ pos 1 ∷ pos 2 ∷ pos 3 ∷ []
unfolding list_rule_set_versions str_eq
three_listed = refl

list_rule_set_versions-load_rule_set_example :
    Ascending (list_rule_set_versions (bytes "adults") three_versions)
    × ((v : ℤ)
        → member v (list_rule_set_versions (bytes "adults") three_versions)
          ≡ is_there (load_rule_set (bytes "adults") v three_versions))
list_rule_set_versions-load_rule_set_example =
    list_rule_set_versions-load_rule_set (bytes "adults") three_versions

abbrev events : List Event
events =
    Event.looked_up
      (record { expr = bytes "7"; key = bytes "k"; fingerprint = bytes "f"; hit = false })
    ∷ Event.compiled
        (record { expr = bytes "7"; fingerprint = bytes "f"; duration = pos 30; error = none })
    ∷ Event.looked_up
        (record { expr = bytes "7"; key = bytes "k"; fingerprint = bytes "f"; hit = true })
    ∷ []

observe_all-Counts_example : Counts events (observe_all events new_in_memory_rule_observer)
observe_all-Counts_example = observe_all-Counts events
