-- ===== src/Engine.antt =====
-- factorengine/engine.go, with `CachedRuleCompiler` of compiler_cache.go and `observedRuleCompiler` of
-- observer.go: an engine compiles through a cache, if it has one, and tells an observer.
use risk_engine.Prelude.{ℕ, suc, true, false, Option, none, some, [], Str, ◌≡◌}
use risk_engine.Prelude.Int.{ℤ}
use risk_engine.Outcome.{Outcome, ok, err, panic, ◌>>=◌, ValidationError}
use risk_engine.Operators.{ValueType}
use risk_engine.Schema.{FactorRegistry}
use risk_engine.Value.{Value}
use risk_engine.Accessor.{EvalContext}
use risk_engine.Runtime.{Floats}
use risk_engine.Parser.Grammar.{Decimals}
use risk_engine.Bytecode.{BytecodeProgram, Formatter}
use risk_engine.Bytecode.Vm.{BytecodeVmConfig, new_bytecode_vm_with_config, vm_eval}
use risk_engine.Compiler.{CompiledExpr, type_check, compile_rule}
use risk_engine.Fingerprint.{Encoders, build_compile_cache_key}
use risk_engine.Observer.{RuleObserver}

-- The `RuleCompiler` interface.
pub record RuleCompiler (D : Type 0) : Type 0 where
  pub check : Str → FactorRegistry → Outcome ValueType
  pub compile : Str → FactorRegistry → Outcome (CompiledExpr D)

-- A result with the fuel that it takes; a lack of fuel would be a panic.
abbrev pub returned {ℓ} : {A : Type ℓ} → Option (Outcome A) → Outcome A
returned none = panic
returned (some o) = o

-- `NewRuleCompiler`.
abbrev pub new_rule_compiler :
    {D : Type 0} ⦃fl : Floats D⦄ → Decimals D → Formatter D → RuleCompiler D
unfolding type_check compile_rule
new_rule_compiler decimals fmt = record {
  check = λ expr registry. returned (type_check decimals expr registry);
  compile = λ expr registry. returned (compile_rule decimals fmt expr registry);
}

-- The `ProgramCache` interface over states, and what a client relies on: a value that `get` finds was
-- given to `set` for the key, so what held of the values that were set holds of it.
pub record ProgramCache (V : Type 0) : Type 1 where
  pub State : Type 0
  pub get : Str → State → Option V × State
  pub set : Str → V → State → State
  pub Holds : (Str → V → Type 0) → State → Type 0
  pub new : State
  pub new-Holds : (P : Str → V → Type 0) → Holds P new
  pub get-Holds : (P : Str → V → Type 0) (k : Str) (s : State) → Holds P s → Holds P (get k s).1
  pub get_found :
      (P : Str → V → Type 0) (k : Str) (s : State) (v : V)
      → Holds P s
      → (get k s).0 ≡ some v
      → P k v
  pub set-Holds :
      (P : Str → V → Type 0) (k : Str) (v : V) (s : State) → Holds P s → P k v → Holds P (set k v s)

-- `engineCompiledExpr`.
pub record EngineCompiledExpr (D : Type 0) : Type 0 where
  pub compiled : CompiledExpr D
  pub vm_config : BytecodeVmConfig

pub record Engine : Type 0 where
  pub registry : FactorRegistry
  pub vm_config : BytecodeVmConfig

-- What the calls share: the state of the cache, if there is one, and of the observer, and how often a
-- duration has been measured.
pub record Shared (C O : Type 0) : Type 0 where
  pub cache : Option C
  pub observer : O
  pub measured : ℕ

abbrev pub error_in {ℓ} : {A : Type ℓ} → Outcome A → Option ValidationError
error_in (err e) = some e
error_in _ = none

-- What an engine is made of, its registry aside: `elapsed n` is the n-th duration that is measured.
pub record Setting (D O : Type 0) : Type 1 where
  pub encoders : Encoders
  pub fingerprint : BytecodeProgram D → Str
  pub elapsed : ℕ → ℤ
  pub observer : RuleObserver O
  pub cache : ProgramCache (CompiledExpr D)
  pub inner : RuleCompiler D

module _ {D O : Type 0} (setting : Setting D O) where
  open setting use {encoders, fingerprint, elapsed, observer, cache, inner}

  abbrev pub World : Type 0
  World = Shared setting.cache.State O

  -- `CachedRuleCompiler.Compile` behind the miss.
  unfoldable pub compile_missed :
      Str → FactorRegistry → Str → cache.State → World → Outcome (CompiledExpr D) × World
  compile_missed expr registry key s w =
      let told : World = record w {
        cache = some s;
        observer =
            observer.observe_cache
              (record { expr = expr; key = key; fingerprint = []; hit = false }) w.observer;
      } in
      elim (inner.compile expr registry) [
        | ok c ↦ (ok c, record told { cache = some (cache.set key c s) })
        | err e ↦ (err e, told)
        | panic ↦ (panic, told)
      ]

  unfoldable pub compile_found :
      Str → Str → CompiledExpr D → cache.State → World → Outcome (CompiledExpr D) × World
  compile_found expr key c s w = (
    ok c,
    record w {
      cache = some s;
      observer =
          observer.observe_cache
            (record { expr = expr; key = key; fingerprint = fingerprint c.bytecode; hit = true })
            w.observer;
    },
  )

  unfoldable pub compile_keyed :
      Str → FactorRegistry → Str → cache.State → World → Outcome (CompiledExpr D) × World
  unfolding compile_missed compile_found
  compile_keyed expr registry key s w =
      let (found, s') = cache.get key s in
      elim found [
        | some c ↦ compile_found expr key c s' w
        | none ↦ compile_missed expr registry key s' w
      ]

  -- `CachedRuleCompiler.Compile`.
  unfoldable pub compile_cached :
      Str → FactorRegistry → cache.State → World → Outcome (CompiledExpr D) × World
  unfolding compile_keyed
  compile_cached expr registry s w = elim (build_compile_cache_key encoders expr registry) [
    | err e ↦ (err e, w)
    | panic ↦ (panic, w)
    | ok key ↦ compile_keyed expr registry key s w
  ]

  -- The compiler under the observed one: `NewEngine` puts the cache in front of it if there is one.
  unfoldable pub compile_layer : Str → FactorRegistry → World → Outcome (CompiledExpr D) × World
  unfolding compile_cached
  compile_layer expr registry w = elim w.cache [
    | none ↦ (inner.compile expr registry, w)
    | some s ↦ compile_cached expr registry s w
  ]

  abbrev fingerprint_in : Outcome (CompiledExpr D) → Str
  fingerprint_in (ok c) = fingerprint c.bytecode
  fingerprint_in _ = []

  -- The end of `observedRuleCompiler.Compile`; a panic passes it by.
  unfoldable pub observe_compiled :
      Str → Outcome (CompiledExpr D) × World → Outcome (CompiledExpr D) × World
  observe_compiled expr (panic, w) = (panic, w)
  observe_compiled expr (o, w) = (
    o,
    record w {
      observer =
          observer.observe_compile
            (record {
              expr = expr;
              fingerprint = fingerprint_in o;
              duration = elapsed w.measured;
              error = error_in o;
            })
            w.observer;
      measured = suc w.measured;
    },
  )

  -- `Engine.Compile`.
  unfoldable pub engine_compile : Engine → Str → World → Outcome (EngineCompiledExpr D) × World
  unfolding observe_compiled compile_layer
  engine_compile e expr w =
      let (o, w') = observe_compiled expr (compile_layer expr e.registry w) in
      ((o >>= λ c. ok (record { compiled = c; vm_config = e.vm_config })), w')

  -- `engineCompiledExpr.Eval`.
  unfoldable pub eval_engine_compiled :
      ⦃fl : Floats D⦄ → EngineCompiledExpr D → EvalContext D → World → Outcome (Value D) × World
  unfolding vm_eval new_bytecode_vm_with_config
  eval_engine_compiled c ctx w =
      let result =
        returned (vm_eval (new_bytecode_vm_with_config c.vm_config) c.compiled.bytecode ctx) in
      (
        result,
        record w {
          observer =
              observer.observe_eval
                (record {
                  expr = c.compiled.source;
                  fingerprint = fingerprint c.compiled.bytecode;
                  duration = elapsed w.measured;
                  error = error_in result;
                })
                w.observer;
          measured = suc w.measured;
        },
      )

  -- `Engine.Eval`.
  unfoldable pub engine_eval :
      ⦃fl : Floats D⦄ → Engine → Str → EvalContext D → World → Outcome (Value D) × World
  unfolding engine_compile eval_engine_compiled
  engine_eval e expr ctx w =
      let (o, w') = engine_compile e expr w in
      elim o [ ok c ↦ eval_engine_compiled c ctx w' | err x ↦ (err x, w') | panic ↦ (panic, w') ]

  -- `Engine.TypeCheck`, which the cache and the observer leave to the compiler.
  unfoldable pub engine_type_check : Engine → Str → Outcome ValueType
  engine_type_check e expr = inner.check expr e.registry
