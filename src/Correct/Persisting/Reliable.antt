-- ===== src/Correct/Persisting/Reliable.antt =====
-- factorengine/persistent_cache.go over a store that does not fail: what its cache answers is a map's answers.
use risk_engine.Prelude.{◌≡◌, Option, none, some, List, [], ◌∷◌, Str, str_eq, if◌then◌else◌}
use risk_engine.Prelude.Int.{ℤ, ◌+ℤ◌}
use risk_engine.Runtime.{Floats}
use risk_engine.Bytecode.{BytecodeProgram}
use risk_engine.Compiler.{CompiledExpr}
use risk_engine.GoMap.{string_keys}
use risk_engine.Persistent
use risk_engine.Persistent.{
  PersistedProgramEntry, PersistentProgramStore, LocalCache, PersistentProgramCache, done,
  has_expired, local_entry_expired, delete_local, use_entry, get_stored, save_entry,
  new_persistent_program_cache, clamp_ttl,
}
use risk_engine.Correct.Persisting.Calls.{Call, get_at, set_at, invalidate_at, without_trees}

-- A store that does not fail: `entries` says what it has.
pub record Reliable {D : Type 0} (store : PersistentProgramStore D) : Type 0 where
  pub entries : store.State → Str → Option (PersistedProgramEntry D)
  pub new_entries : (k : Str) → entries store.new k ≡ none
  pub loads : (k : Str) (s : store.State) → (store.load k s).0 ≡ done (entries s k)
  pub load_keeps : (k j : Str) (s : store.State) → entries (store.load k s).1 j ≡ entries s j
  pub save_entries :
      (e : PersistedProgramEntry D) (j : Str) (s : store.State)
      → entries (store.save e s).1 j ≡ (if str_eq e.key j then some e else entries s j)
  pub delete_entries :
      (k j : Str) (s : store.State)
      → entries (store.delete k s).1 j ≡ (if str_eq k j then none else entries s j)

-- The specification: under a key a program, and until when.
abbrev pub Served : Type 0 → Type 0
Served A = Str → Option (A × ℤ)

abbrev pub served_with : {A : Type 0} → Str → Option (A × ℤ) → Served A → Served A
served_with k p m j = if str_eq k j then p else m j

-- An entry that has expired is dropped when it is asked for.
abbrev pub found_at : {A : Type 0} → ℤ → Str → Option (A × ℤ) → Served A → Option A × Served A
found_at now k none m = (none, m)
found_at now k (some (v, t)) m =
    if has_expired now t then (none, served_with k none m) else (some v, m)

module _ {D : Type 0} where
  abbrev pub serve :
      ℤ → Call D → Served (CompiledExpr D) → Option (CompiledExpr D) × Served (CompiledExpr D)
  serve ttl (get_at now k) m = found_at now k (m k) m
  serve ttl (set_at now k v) m = (none, served_with k (some (v, now +ℤ ttl)) m)
  serve ttl (invalidate_at k) m = (none, served_with k none m)

  abbrev pub serve_all :
      ℤ → List (Call D) → Served (CompiledExpr D) → List (Option (CompiledExpr D))
  serve_all ttl [] m = []
  serve_all ttl (call ∷ calls) m = let (a, m') = serve ttl call m in a ∷ serve_all ttl calls m'

  abbrev pub stripped : Option (CompiledExpr D) → Option (CompiledExpr D)
  stripped none = none
  stripped (some v) = some (without_trees v)

module _ {D : Type 0} ⦃fl : Floats D⦄ (fingerprint : BytecodeProgram D → Str)
    (store : PersistentProgramStore D) (local : LocalCache (CompiledExpr D)) where
  abbrev pub Cache : Type 0
  Cache = PersistentProgramCache store.State local.State

  -- Only `Get` answers.
  abbrev pub answer : Call D → Cache → Option (CompiledExpr D) × Cache
  answer (get_at now k) c = Persistent.get fingerprint store local now k c
  answer (set_at now k v) c = (none, Persistent.set fingerprint store local now k v c)
  answer (invalidate_at k) c = (none, (Persistent.invalidate fingerprint store local k c).1)

  abbrev pub answers : List (Call D) → Cache → List (Option (CompiledExpr D))
  answers [] c = []
  answers (call ∷ calls) c = let (a, c') = answer call c in a ∷ answers calls c'
