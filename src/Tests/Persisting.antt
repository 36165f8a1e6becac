-- ===== src/Tests/Persisting.antt =====
-- A persistent cache at runs: a store that keeps its entries and never fails, and a rule that is set at 100.
use mathlib.Core.Path.{subst}
use risk_engine.Prelude.{
  map, ◌≡◌, refl, true, false, Option, none, some, List, [], ◌∷◌, Str, bytes, str_eq, eq_of_str_eq,
  Bool-cases, inl, inr, if◌then◌else◌,
}
use risk_engine.Prelude.Int.{ℤ, pos, ◌+ℤ◌}
use risk_engine.Bytecode.{BytecodeProgram, OpCode, instr}
use risk_engine.Persistent
use risk_engine.Persistent.{
  PersistedProgramEntry, PersistentProgramStore, LocalCache, StoreResult, done, has_expired,
  clamp_ttl, new_persistent_program_cache,
}
use risk_engine.Correct.Persisting.{run_all, reached, get-reached}
use risk_engine.Correct.Persisting.Calls.{
  Call, set_at, invalidate_at, get_at, WasSet, without_trees,
}
use risk_engine.Correct.Persisting.Locals.{lru_local}
use risk_engine.Correct.Persisting.Reliable.{Reliable, answers, serve_all, stripped}
use risk_engine.Correct.Persisting.Refinement.{answers-serve_all}
use risk_engine.Tests.{integers}
use risk_engine.Compiler.{CompiledExpr}
use risk_engine.Operators.{ValueType}
use risk_engine.Value.{Value}
use risk_engine.Expr.{Expr}
use risk_engine.Cache.Lru

abbrev Entries : Type 0
Entries = Str → Option (PersistedProgramEntry ℤ)

abbrev Everywhere : (Str → PersistedProgramEntry ℤ → Type 0) → Entries → Type 0
Everywhere P s = (k : Str) (e : PersistedProgramEntry ℤ) → s k ≡ some e → P k e

abbrev stores : PersistedProgramEntry ℤ → Entries → Entries
stores e s k = if str_eq e.key k then some e else s k

abbrev deletes : Str → Entries → Entries
deletes k s j = if str_eq k j then none else s j

some_same : {a b : PersistedProgramEntry ℤ} → some a ≡ some b → a ≡ b
some_same h = cc

stores-Everywhere :
    (P : Str → PersistedProgramEntry ℤ → Type 0) (e : PersistedProgramEntry ℤ) (s : Entries)
    → Everywhere P s
    → P e.key e
    → Everywhere P (stores e s)
stores-Everywhere P e s h p k x found = elim (Bool-cases (str_eq e.key k)) [
  | inl same ↦
      let kept : some e ≡ some x = (rw same at found) in
      subst (λ y. P k y) (some_same kept) (subst (λ j. P j e) (eq_of_str_eq e.key k same) p)
  | inr other ↦ h k x (rw other at found)
]

deletes-Everywhere :
    (P : Str → PersistedProgramEntry ℤ → Type 0) (k : Str) (s : Entries)
    → Everywhere P s
    → Everywhere P (deletes k s)
deletes-Everywhere P k s h j x found = elim (Bool-cases (str_eq k j)) [
  | inl same ↦ absurd (let kept : none ≡ some x = (rw same at found) in cc)
  | inr other ↦ h j x (rw other at found)
]

done_same : {a b : Option (PersistedProgramEntry ℤ)} → done a ≡ done b → a ≡ b
done_same h = cc

no_entry : {e : PersistedProgramEntry ℤ} → none ≡ some e → ⊥
no_entry h = cc

abbrev entries_store : PersistentProgramStore ℤ
entries_store = record {
  State = Str → Option (PersistedProgramEntry ℤ);
  load = λ k s. (done (s k), s);
  save = λ e s. (done tt, stores e s);
  delete = λ k s. (done tt, deletes k s);
  Holds = λ P s. Everywhere P s;
  new = λ k. none;
  new-Holds = λ P k e h. absurd (no_entry h);
  load-Holds = λ P k s h. h;
  load_found = λ P k s e h found. h k e (done_same found);
  save-Holds = λ P e s h p. stores-Everywhere P e s h p;
  delete-Holds = λ P k s h. deletes-Everywhere P k s h;
}

abbrev printed : BytecodeProgram ℤ → Str
printed p = bytes "program"

-- `7`, compiled.
abbrev rule : CompiledExpr ℤ
rule = record {
  source = bytes "7";
  ast = some (Expr.literal (Value.int (pos 7)) ValueType.int);
  bound = none;
  bytecode = record {
    instructions = instr OpCode.push_const 0 ∷ [];
    constants = Value.int (pos 7) ∷ [];
    accessors = [];
    builtins = [];
    result_type = ValueType.int;
  };
  result_type = ValueType.int;
}

-- The second entry evicts the first one from a local cache of capacity 1.
abbrev calls : List (Call ℤ)
calls =
    set_at (pos 100) (bytes "k") rule
    ∷ set_at (pos 110) (bytes "m") rule
    ∷ get_at (pos 115) (bytes "m")
    ∷ invalidate_at (bytes "m")
    ∷ []

found :
    (Persistent.get printed entries_store
      (lru_local (pos 1))
      (pos 120)
      (bytes "k")
      (reached printed entries_store (lru_local (pos 1)) true (pos 50) calls)).0
    ≡ some (without_trees rule)
unfolding Persistent.get Lru.get run_all Persistent.invalidate Persistent.set Lru.set
    Lru.new_lru_program_cache ◌+ℤ◌ Lru.delete
found = refl

get-reached_example :
    (t : ℤ) × WasSet (pos 50) calls (bytes "k") (without_trees rule) t
    × (has_expired (pos 120) t ≡ false)
get-reached_example =
    get-reached printed entries_store (lru_local (pos 1)) Lru.delete refl true (pos 50) calls
      (pos 120) (bytes "k") (without_trees rule) found

expired :
    (Persistent.get printed entries_store
      (lru_local (pos 1))
      (pos 150)
      (bytes "k")
      (reached printed entries_store (lru_local (pos 1)) true (pos 50) calls)).0
    ≡ none
unfolding Persistent.get Lru.get run_all Persistent.invalidate Persistent.set Lru.set
    Lru.new_lru_program_cache ◌+ℤ◌ Lru.delete
expired = refl

-- The entries of a store that does not fail.
abbrev entries_reliable : Reliable entries_store
entries_reliable = record {
  entries = λ s. s;
  new_entries = λ k. refl;
  loads = λ k s. refl;
  load_keeps = λ k j s. refl;
  save_entries = λ e j s. refl;
  delete_entries = λ k j s. refl;
}

-- `k` is read from the store when `m` has evicted it, `m` is invalidated, and `k` expires.
abbrev more_calls : List (Call ℤ)
more_calls =
    set_at (pos 100) (bytes "k") rule
    ∷ set_at (pos 110) (bytes "m") rule
    ∷ get_at (pos 120) (bytes "k")
    ∷ invalidate_at (bytes "m")
    ∷ get_at (pos 130) (bytes "m")
    ∷ get_at (pos 150) (bytes "k")
    ∷ []

more_served :
    serve_all (pos 50) more_calls (λ k. none) ≡ none ∷ none ∷ some rule ∷ none ∷ none ∷ none ∷ []
unfolding has_expired str_eq ◌+ℤ◌
more_served = refl

answers-serve_all_example :
    map stripped (
      answers printed entries_store
        (lru_local (pos 1))
        more_calls
        (new_persistent_program_cache (some entries_store.new) (lru_local (pos 1)).new (pos 50)))
    ≡ map stripped (serve_all (clamp_ttl (pos 50)) more_calls (λ k. none))
answers-serve_all_example =
    answers-serve_all printed entries_store entries_reliable (lru_local (pos 1)) Lru.delete refl
      (pos 50) more_calls

never : {A : Type 0} {d : A} → none ≡ some d → ⊥
never e = cc

-- Behind a local cache that cannot delete, an entry that has expired is dropped from the times and served by
-- the next call.
abbrev undeletable : LocalCache (CompiledExpr ℤ)
undeletable = record (lru_local (pos 1)) { delete = none; delete-Holds = λ d e. absurd (never e) }

served_for_good :
    (Persistent.get printed entries_store undeletable (pos 1000) (bytes "k") (
      reached printed entries_store undeletable true
        (pos 50)
        (set_at (pos 100) (bytes "k") rule ∷ get_at (pos 200) (bytes "k") ∷ []))).0
    ≡ some rule
unfolding Persistent.get Lru.get run_all Persistent.invalidate Persistent.set Lru.set
    Lru.new_lru_program_cache ◌+ℤ◌ Lru.delete
served_for_good = refl
