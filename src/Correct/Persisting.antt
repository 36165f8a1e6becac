-- ===== src/Correct/Persisting.antt =====
-- factorengine/persistent_cache.go: what a persistent cache answers after any calls.
pub mod Calls
pub mod Records
pub mod Locals
pub mod Reliable
pub mod Refinement
use mathlib.Core.Path.{subst}
use risk_engine.Prelude.{
  ◌≡◌, refl, sym, ◌∙◌, ap, Bool, true, false, Option, none, some, List, [], ◌∷◌, Str, str_eq,
  str_eq_refl, Bool-cases, Option-cases, ◌⊎◌, inl, inr,
}
use risk_engine.Prelude.Int.{ℤ, ◌+ℤ◌}
use risk_engine.Outcome.{Outcome, ok, err, panic, ◌>>=◌}
use risk_engine.Accessor.{EvalContext}
use risk_engine.Runtime.{Floats}
use risk_engine.Bytecode.{BytecodeProgram}
use risk_engine.Compiler.{CompiledExpr, eval_compiled}
use risk_engine.Snapshot.{CompiledExprSnapshot, snapshot_compiled_expr, restore_compiled_expr}
use risk_engine.GoMap.{
  find, put, remove, string_keys, find-put_same, find-put_other, find-remove_other,
}
use risk_engine.Correct.Restoring.{restore_compiled_expr-snapshot_compiled_expr}
use risk_engine.Persistent.{
  PersistedProgramEntry, PersistentProgramStore, LocalCache, PersistentProgramCache, StoreResult,
  done, failed, has_expired, local_entry_expired, delete_local, use_entry, get_stored, save_entry,
  new_persistent_program_cache, clamp_ttl,
}
use risk_engine.Persistent
use risk_engine.Cache.{bump}
use risk_engine.Correct.Persisting.Calls.{
  Call, get_at, set_at, invalidate_at, without_trees, WasSet, WasSet-later, WasSet-first,
  WasSet-up_to_trees,
}
use risk_engine.Correct.Persisting.Records.{
  IsRecorded, StoreHolds, Answers, get-Answers, set-IsRecorded, invalidate-IsRecorded,
}

module _ {D : Type 0} ⦃fl : Floats D⦄ (fingerprint : BytecodeProgram D → Str)
    (store : PersistentProgramStore D) (local : LocalCache (CompiledExpr D)) where
  abbrev Cache : Type 0
  Cache = PersistentProgramCache store.State local.State

  unfoldable pub run : Call D → Cache → Cache
  run (get_at now k) c = (Persistent.get fingerprint store local now k c).1
  run (set_at now k e) c = Persistent.set fingerprint store local now k e c
  run (invalidate_at k) c = (Persistent.invalidate fingerprint store local k c).1

  unfoldable pub run_all : List (Call D) → Cache → Cache
  unfolding run
  run_all [] c = c
  run_all (call ∷ calls) c = run_all calls (run call c)

  -- A new store, or none.
  abbrev pub new_store : Bool → Option store.State
  new_store true = some store.new
  new_store false = none

  -- The cache after calls, new on a new store or on none.
  abbrev pub reached : Bool → ℤ → List (Call D) → Cache
  reached stored ttl calls =
      run_all calls (new_persistent_program_cache (new_store stored) local.new ttl)

-- The local cache is one that can delete.
module _ {D : Type 0} ⦃fl : Floats D⦄ (fingerprint : BytecodeProgram D → Str)
    (store : PersistentProgramStore D) (local : LocalCache (CompiledExpr D))
    (delete_key : Str → local.State → local.State) (deletes : local.delete ≡ some delete_key) where
  module _ (ttl : ℤ) (P : Str → CompiledExpr D → ℤ → Type 0)
      (up_to_trees : (k : Str) (v w : CompiledExpr D) (t : ℤ)
        → without_trees v ≡ without_trees w
        → P k w t
        → P k v t) where
    abbrev Recorded : PersistentProgramCache store.State local.State → Type 0
    Recorded = IsRecorded fingerprint store local delete_key deletes ttl P up_to_trees

    run-IsRecorded :
        (call : Call D) (c : PersistentProgramCache store.State local.State)
        → ((k : Str) (v : CompiledExpr D) (t : ℤ) → WasSet ttl (call ∷ []) k v t → P k v t)
        → Recorded c
        → Recorded (run fingerprint store local call c)
    unfolding run
    run-IsRecorded (get_at now k) c h i =
        (get-Answers fingerprint store local delete_key deletes ttl P up_to_trees now k c i).state
    run-IsRecorded (set_at now k v) c h i =
        set-IsRecorded fingerprint store local delete_key deletes ttl P up_to_trees now k v c i
          (h k v (now +ℤ ttl) (inl (refl, refl, refl)))
    run-IsRecorded (invalidate_at k) c h i =
        invalidate-IsRecorded fingerprint store local delete_key deletes ttl P up_to_trees k c i

    run_all-IsRecorded :
        (calls : List (Call D)) (c : PersistentProgramCache store.State local.State)
        → ((k : Str) (v : CompiledExpr D) (t : ℤ) → WasSet ttl calls k v t → P k v t)
        → Recorded c
        → Recorded (run_all fingerprint store local calls c)
    unfolding run_all
    run_all-IsRecorded [] c h i = i
    run_all-IsRecorded (call ∷ calls) c h i =
        run_all-IsRecorded calls (run fingerprint store local call c)
          (λ k v t w. h k v t (WasSet-later ttl call calls k v t w))
          (run-IsRecorded call c (λ k v t w. h k v t (WasSet-first ttl call calls k v t w)) i)

  -- What is recorded after calls on a new cache: what they set.
  module _ (stored : Bool) (ttl : ℤ) (calls : List (Call D)) where
    abbrev SetThere : Str → CompiledExpr D → ℤ → Type 0
    SetThere = WasSet (clamp_ttl ttl) calls

    reached-IsRecorded :
        IsRecorded fingerprint store local delete_key deletes
          (clamp_ttl ttl)
          SetThere
          (WasSet-up_to_trees (clamp_ttl ttl) calls)
          (reached fingerprint store local stored ttl calls)
    reached-IsRecorded =
        run_all-IsRecorded (clamp_ttl ttl) SetThere (WasSet-up_to_trees (clamp_ttl ttl) calls) calls
          _ (λ j w t h. h)
          (record { same_ttl = refl; kept = local.new-Holds _; saved = start stored })
      where
        start :
            (stored : Bool)
            → StoreHolds fingerprint store local delete_key deletes
                (clamp_ttl ttl)
                SetThere
                (WasSet-up_to_trees (clamp_ttl ttl) calls)
                (new_store fingerprint store local stored)
        start true = store.new-Holds _
        start false = tt

    -- A persistent cache whose local cache can delete, new on a new store or on none, answers after any calls,
    -- whatever the store fails at, either nothing or a program that was set in one of the calls under the
    -- same key, up to its trees, and that is not expired then.
    pub get-reached :
        (now : ℤ) (k : Str) (v : CompiledExpr D)
        → (Persistent.get fingerprint store local now k
            (reached fingerprint store local stored ttl calls)).0
          ≡ some v
        → (t : ℤ) × WasSet (clamp_ttl ttl) calls k v t × (has_expired now t ≡ false)
    get-reached now k v found =
        let answers : Answers fingerprint store local delete_key deletes (clamp_ttl ttl) SetThere
            (WasSet-up_to_trees (clamp_ttl ttl) calls) now k
            (Persistent.get fingerprint store local now k
              (reached fingerprint store local stored ttl calls)) =
          get-Answers fingerprint store local delete_key deletes (clamp_ttl ttl) SetThere
            (WasSet-up_to_trees (clamp_ttl ttl) calls) now k
            (reached fingerprint store local stored ttl calls) reached-IsRecorded in
        answers.right v found
