-- ===== src/Accessor.antt =====
-- factorengine/accessor.go, and `ResolveValue` of evaluator.go: reading a factor from a context.
use risk_engine.Prelude.{Option, none, some, List, [], ◌∷◌, Str, bytes, str_eq, if◌then◌else◌}
use risk_engine.Outcome.{Outcome, ok, panic, ◌>>=◌}
use risk_engine.Schema.{FactorRef, FactorDefinition, resolve_factor_ref, default_path}
use risk_engine.Value.{Value, null, object, ValueMap, lookup}

-- The context of an evaluation, from factor codes to values.
abbrev pub EvalContext : Type 0 → Type 0
EvalContext D = ValueMap D

-- A step holds its key alone.
pub record FactorValueAccessor : Type 0 where
  pub factor_code : Str
  pub steps : List Str

-- `ResolveFactorRef` has been checked, so the path is the reference's own or `value`.
unfoldable pub compile_factor_accessor :
    FactorRef → Option FactorDefinition → Outcome FactorValueAccessor
unfolding resolve_factor_ref default_path
compile_factor_accessor r none = do _ ← resolve_factor_ref r none; panic
compile_factor_accessor r (some factor) = do
  _ ← resolve_factor_ref r (some factor)
  ok (record {
    factor_code = r.factor_code;
    steps = default_path r.path_segments factor.output_schema;
  })

module _ {D : Type 0} where
  -- `value.(map[string]any)` and an index.
  unfoldable pub member : Str → Value D → Option (Value D)
  unfolding lookup
  member k (object m) = lookup k m
  member k _ = none

  -- A walk along a path, every step of which must be there: the loop of `ResolveValue`, and the
  -- steps of `Get` after the first.
  unfoldable pub walk : List Str → Value D → Option (Value D)
  unfolding member
  walk [] current = some current
  walk (k ∷ rest) current = elim (member k current) [ none ↦ none | some next ↦ walk rest next ]

  -- The first step of `Get`: `value` on what is no map is the value itself.
  unfoldable pub first_step : Str → List Str → Value D → Option (Value D)
  unfolding walk str_eq lookup
  first_step k rest (object m) = elim (lookup k m) [ none ↦ none | some next ↦ walk rest next ]
  first_step k rest current = if str_eq k (bytes "value") then some current else none

  unfoldable pub get_steps : List Str → Value D → Option (Value D)
  unfolding first_step
  get_steps [] current = some current
  get_steps (k ∷ rest) current = first_step k rest current

  unfoldable pub get : FactorValueAccessor → EvalContext D → Option (Value D)
  unfolding get_steps lookup
  get a ctx = elim (lookup a.factor_code ctx) [
    | none ↦ none
    | some current ↦ get_steps a.steps current
  ]

  -- An empty path reads the member `value` of a map that has one.
  unfoldable pub resolve_root : List Str → Value D → Option (Value D)
  unfolding walk member
  resolve_root [] root = elim (member (bytes "value") root) [ none ↦ some root | some v ↦ some v ]
  resolve_root (k ∷ rest) root = walk (k ∷ rest) root

  unfoldable pub resolve_value : EvalContext D → FactorRef → Option (Value D)
  unfolding resolve_root lookup
  resolve_value ctx r = elim (lookup r.factor_code ctx) [
    | none ↦ none
    | some root ↦ resolve_root r.path_segments root
  ]

  -- A value that is not there is nil.
  abbrev pub or_null : Option (Value D) → Value D
  or_null none = null
  or_null (some v) = v
