-- ===== src/Observer.antt =====
-- factorengine/observer.go: what observers are told, the observer that counts, and the one that does
-- nothing. A duration is an int64 of nanoseconds.
use risk_engine.Prelude.{ℕ, ◌+◌, ◌%◌, ◌^◌, Bool, Option, none, some, Str, if◌then◌else◌}
use risk_engine.Prelude.Int.{ℤ, pattern64}
use risk_engine.Outcome.{ValidationError}
use risk_engine.Cache.{bump}

-- `CompileObservation`, and `EvalObservation`, which has the same fields.
pub record Observation : Type 0 where
  pub expr : Str
  pub fingerprint : Str
  pub duration : ℤ
  pub error : Option ValidationError

pub record CacheObservation : Type 0 where
  pub expr : Str
  pub key : Str
  pub fingerprint : Str
  pub hit : Bool

-- `RuleObserver`: `O` is the state of the observer.
pub record RuleObserver (O : Type 0) : Type 0 where
  pub observe_compile : Observation → O → O
  pub observe_eval : Observation → O → O
  pub observe_cache : CacheObservation → O → O

abbrev pub noop_rule_observer : RuleObserver (Unit {0})
noop_rule_observer = record {
  observe_compile = λ obs o. o;
  observe_eval = λ obs o. o;
  observe_cache = λ obs o. o;
}

-- `RuleObserverStats`, which is also what `InMemoryRuleObserver` keeps.
pub record RuleObserverStats : Type 0 where
  pub compile_count : ℕ
  pub compile_errors : ℕ
  pub compile_duration_nanos : ℕ
  pub eval_count : ℕ
  pub eval_errors : ℕ
  pub eval_duration_nanos : ℕ
  pub cache_requests : ℕ
  pub cache_hits : ℕ
  pub cache_misses : ℕ

abbrev pub new_in_memory_rule_observer : RuleObserverStats
new_in_memory_rule_observer = record {
  compile_count = 0;
  compile_errors = 0;
  compile_duration_nanos = 0;
  eval_count = 0;
  eval_errors = 0;
  eval_duration_nanos = 0;
  cache_requests = 0;
  cache_hits = 0;
  cache_misses = 0;
}

-- `Add` of a `uint64`.
abbrev pub add_uint64 : ℕ → ℕ → ℕ
add_uint64 a b = (a + b) % 2 ^ 64

abbrev pub bump_error : Option ValidationError → ℕ → ℕ
bump_error none n = n
bump_error (some e) n = bump n

unfoldable pub observe_compile : Observation → RuleObserverStats → RuleObserverStats
observe_compile obs o = record o {
  compile_count = bump o.compile_count;
  compile_duration_nanos = add_uint64 o.compile_duration_nanos (pattern64 obs.duration);
  compile_errors = bump_error obs.error o.compile_errors;
}

unfoldable pub observe_eval : Observation → RuleObserverStats → RuleObserverStats
observe_eval obs o = record o {
  eval_count = bump o.eval_count;
  eval_duration_nanos = add_uint64 o.eval_duration_nanos (pattern64 obs.duration);
  eval_errors = bump_error obs.error o.eval_errors;
}

unfoldable pub observe_cache : CacheObservation → RuleObserverStats → RuleObserverStats
observe_cache obs o =
    let counted : RuleObserverStats = record o { cache_requests = bump o.cache_requests } in
    if obs.hit
    then record counted { cache_hits = bump o.cache_hits }
    else record counted { cache_misses = bump o.cache_misses }

abbrev pub in_memory_rule_observer : RuleObserver RuleObserverStats
unfolding observe_compile observe_eval observe_cache
in_memory_rule_observer = record {
  observe_compile = observe_compile;
  observe_eval = observe_eval;
  observe_cache = observe_cache;
}
