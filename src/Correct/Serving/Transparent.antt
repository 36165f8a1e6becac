-- ===== src/Correct/Serving/Transparent.antt =====
-- A cache does not change what an engine compiles, nor what its rules evaluate to.
use risk_engine.Prelude.{
  ◌≡◌, refl, sym, ◌∙◌, ap, Option, none, some, List, [], ◌∷◌, ◌++◌, Str, bytes, Option-cases, inl,
  inr,
}
use mathlib.Core.List.{append_cancel_right}
use mathlib.Core.Path.{subst}
use risk_engine.Outcome.{Outcome, ok, err, panic, ◌>>=◌}
use risk_engine.Schema.{FactorRegistry}
use risk_engine.Value.{Value}
use risk_engine.Accessor.{EvalContext}
use risk_engine.Runtime.{Floats}
use risk_engine.Bytecode.Vm.{BytecodeVmConfig, new_bytecode_vm_with_config, vm_eval}
use risk_engine.Compiler.{CompiledExpr}
use risk_engine.Fingerprint.{build_compile_cache_key, registry_fingerprint}
use risk_engine.Engine.{
  Setting, World, Engine, returned, compile_missed, compile_found, compile_keyed, compile_cached,
  compile_layer, observe_compiled, engine_compile, eval_engine_compiled, engine_eval,
}

module _ {D O : Type 0} (setting : Setting D O) (registry : FactorRegistry) where
  open setting use {encoders, fingerprint, elapsed, observer, cache, inner}

  -- A program under the key of a rule is what the compiler makes of the rule.
  abbrev pub IsRight : Str → CompiledExpr D → Type 0
  IsRight key c =
      (expr : Str)
      → build_compile_cache_key encoders expr registry ≡ ok key
      → inner.compile expr registry ≡ ok c

  -- So it is for all that the cache holds.
  abbrev pub IsFaithful : Option cache.State → Type 0
  IsFaithful none = Unit
  IsFaithful (some s) = cache.Holds IsRight s

  module _ (fp : Str) (printed : registry_fingerprint encoders registry ≡ ok fp) where
    key_made :
        (expr : Str)
        → build_compile_cache_key encoders expr registry ≡ ok (expr ++ (bytes "::" ++ fp))
    unfolding build_compile_cache_key
    key_made expr = rw (build_compile_cache_key, printed) refl

    -- What is compiled for a rule is right under its key, as no other rule has it.
    compiled-IsRight :
        (expr : Str) (c : CompiledExpr D)
        → inner.compile expr registry ≡ ok c
        → IsRight (expr ++ (bytes "::" ++ fp)) c
    compiled-IsRight expr c made expr' same =
        subst (λ e. inner.compile e registry ≡ ok c)
          (append_cancel_right expr expr' (bytes "::" ++ fp)
            (sym (ok_same (sym (key_made expr') ∙ same))))
          made
      where
        ok_same : {a b : Str} → ok a ≡ ok b → a ≡ b
        ok_same h = cc

    -- A call gives what the compiler gives, and keeps the cache faithful.
    abbrev Transparent : Str → Outcome (CompiledExpr D) × World setting → Type 0
    Transparent expr r = (r.0 ≡ inner.compile expr registry) × IsFaithful r.1.cache

    compile_missed-Transparent :
        (expr : Str) (s : cache.State) (w : World setting) (o : Outcome (CompiledExpr D))
        → inner.compile expr registry ≡ o
        → cache.Holds IsRight s
        → Transparent expr (compile_missed setting expr registry (expr ++ (bytes "::" ++ fp)) s w)
    unfolding compile_missed
    compile_missed-Transparent expr s w (ok c) e holds =
        rw (compile_missed, e)
          (refl, cache.set-Holds IsRight _ c s holds (compiled-IsRight expr c e))
    compile_missed-Transparent expr s w (err x) e holds = rw (compile_missed, e) (refl, holds)
    compile_missed-Transparent expr s w panic e holds = rw (compile_missed, e) (refl, holds)

    compile_cached-Transparent :
        (expr : Str) (s : cache.State) (w : World setting)
        → cache.Holds IsRight s
        → Transparent expr (compile_cached setting expr registry s w)
    unfolding compile_cached compile_found compile_missed
    compile_cached-Transparent expr s w holds =
        let key : Str = expr ++ (bytes "::" ++ fp) in
        rw (compile_cached, key_made expr)
          (elim (Option-cases (cache.get key s).0) [
            | inl e ↦
                rw (compile_keyed, e)
                  (compile_missed-Transparent expr (cache.get key s).1 w
                    (inner.compile expr registry) refl (cache.get-Holds IsRight key s holds))
            | inr (c, e) ↦
                rw (compile_keyed, e)
                  (
                    sym (cache.get_found IsRight key s c holds e expr (key_made expr)),
                    cache.get-Holds IsRight key s holds,
                  )
          ])

    compile_layer-Transparent :
        (expr : Str) (w : World setting)
        → IsFaithful w.cache
        → Transparent expr (compile_layer setting expr registry w)
    unfolding compile_layer
    compile_layer-Transparent expr w h = go w.cache refl h
      where
        go :
            (s : Option cache.State)
            → w.cache ≡ s
            → IsFaithful s
            → Transparent expr (compile_layer setting expr registry w)
        go none e h = rw (compile_layer, e) (refl, subst IsFaithful (sym e) tt)
        go (some s) e h = rw (compile_layer, e) (compile_cached-Transparent expr s w h)

    observe_compiled-Transparent :
        (expr : Str) (o : Outcome (CompiledExpr D)) (w : World setting)
        → ((observe_compiled setting expr (o, w)).0 ≡ o)
          × ((observe_compiled setting expr (o, w)).1.cache ≡ w.cache)
    unfolding observe_compiled
    observe_compiled-Transparent expr (ok c) w = (refl, refl)
    observe_compiled-Transparent expr (err x) w = (refl, refl)
    observe_compiled-Transparent expr panic w = (refl, refl)

    module _ (vm_config : BytecodeVmConfig) where
      abbrev the_engine : Engine
      the_engine = record { registry = registry; vm_config = vm_config }

      -- `Engine.Compile` gives the compiler's result, with the configuration of the engine.
      pub engine_compile-inner :
          (expr : Str) (w : World setting)
          → IsFaithful w.cache
          → ((engine_compile setting the_engine expr w).0 ≡ (
              inner.compile expr registry >>= λ c.
              ok (record { compiled = c; vm_config = vm_config })))
            × IsFaithful (engine_compile setting the_engine expr w).1.cache
      unfolding engine_compile
      engine_compile-inner expr w h =
          let r = compile_layer setting expr registry w in
          let (same, kept) = compile_layer-Transparent expr w h in
          let (o, cached) = observe_compiled-Transparent expr r.0 r.1 in
          (
            ap (λ m. m >>= λ c. ok (record { compiled = c; vm_config = vm_config })) (o ∙ same),
            subst IsFaithful (sym cached) kept,
          )

      module _ ⦃fl : Floats D⦄ where
        -- What a rule gives without a cache and an observer.
        abbrev pub eval_directly : Str → EvalContext D → Outcome (Value D)
        eval_directly expr ctx = inner.compile expr registry >>= λ c.
            returned (vm_eval (new_bytecode_vm_with_config vm_config) c.bytecode ctx)

        -- Evaluations one after another.
        abbrev pub eval_all : List (Str × EvalContext D) → World setting → List (Outcome (Value D))
        eval_all [] w = []
        eval_all ((expr, ctx) ∷ calls) w =
            let (o, w') = engine_eval setting the_engine expr ctx w in o ∷ eval_all calls w'

        abbrev pub all_directly : List (Str × EvalContext D) → List (Outcome (Value D))
        all_directly [] = []
        all_directly ((expr, ctx) ∷ calls) = eval_directly expr ctx ∷ all_directly calls

        engine_eval-directly :
            (expr : Str) (ctx : EvalContext D) (w : World setting)
            → IsFaithful w.cache
            → ((engine_eval setting the_engine expr ctx w).0 ≡ eval_directly expr ctx)
              × IsFaithful (engine_eval setting the_engine expr ctx w).1.cache
        unfolding engine_eval eval_engine_compiled
        engine_eval-directly expr ctx w h =
            let (same, kept) = engine_compile-inner expr w h in
            go (inner.compile expr registry) refl same kept
          where
            go :
                (o : Outcome (CompiledExpr D))
                → inner.compile expr registry ≡ o
                → ((engine_compile setting the_engine expr w).0 ≡ (
                    inner.compile expr registry >>= λ c.
                    ok (record { compiled = c; vm_config = vm_config })))
                → IsFaithful (engine_compile setting the_engine expr w).1.cache
                → ((engine_eval setting the_engine expr ctx w).0 ≡ eval_directly expr ctx)
                  × IsFaithful (engine_eval setting the_engine expr ctx w).1.cache
            go (ok c) e same kept =
                let made = (rw e at same) in rw (engine_eval, made, e) (refl, kept)
            go (err x) e same kept =
                let made = (rw e at same) in rw (engine_eval, made, e) (refl, kept)
            go panic e same kept =
                let made = (rw e at same) in rw (engine_eval, made, e) (refl, kept)

        eval_all-from :
            (calls : List (Str × EvalContext D)) (w : World setting)
            → IsFaithful w.cache
            → eval_all calls w ≡ all_directly calls
        eval_all-from [] w h = refl
        eval_all-from ((expr, ctx) ∷ calls) w h =
            let (same, kept) = engine_eval-directly expr ctx w h in
            λ i. same i ∷ eval_all-from calls (engine_eval setting the_engine expr ctx w).1 kept i

        -- However many rules an engine evaluates one after another, with a cache that is new at first,
        -- each evaluation gives what compiling its rule and running the program gives. It takes a
        -- registry with a fingerprint: no definition in it is nil, and its mappings are printed.
        pub eval_all-directly :
            (calls : List (Str × EvalContext D)) (observed : O)
            → eval_all calls (record { cache = some cache.new; observer = observed; measured = 0 })
              ≡ all_directly calls
        eval_all-directly calls observed = eval_all-from calls _ (cache.new-Holds IsRight)
