-- ===== src/Correct/Reading.antt =====
-- The compiled accessor of a factor reference against `ResolveValue`.
use mathlib.Core.Path.{subst}
use risk_engine.Prelude.{
  ◌≡◌, refl, sym, ap, true, false, Option, Option-cases, none, some, ◌⊎◌, str_eq, eq_of_str_eq,
  if◌then◌else◌, List, [], ◌∷◌, Str, bytes, Bool-cases, inl, inr,
}
use risk_engine.Outcome.{ok, err, error_at, factor_ref_ambiguous, bind-eq-ok}
use risk_engine.Schema.{
  FactorRef, FactorDefinition, Schema, resolve_factor_ref, default_path,
  schema_has_single_value_field,
}
use risk_engine.Value.{Value, null, bool, str, int, int64, float64, list, object, ValueMap, lookup}
use risk_engine.Accessor.{
  EvalContext, FactorValueAccessor, compile_factor_accessor, get, get_steps, first_step,
  resolve_root, resolve_value, walk, member,
}
use risk_engine.Correct.Opcodes.{ok_injective}

-- The path that the accessor of a reference takes.
steps_of :
    (r : FactorRef) (factor : FactorDefinition) (a : FactorValueAccessor)
    → compile_factor_accessor r (some factor) ≡ ok a
    → (a ≡ record {
      factor_code = r.factor_code;
      steps = default_path r.path_segments factor.output_schema;
    })
      × ((f : _) × (resolve_factor_ref r (some factor) ≡ ok f))
unfolding compile_factor_accessor
steps_of r factor a h =
    let (f, found, same) = bind-eq-ok (resolve_factor_ref r (some factor)) _ h in
    (sym (ok_injective same), (f, found))

-- A reference without a path resolves where the schema is the single field `value`.
pub resolves_single :
    (r : FactorRef) (factor : FactorDefinition) (f : _)
    → resolve_factor_ref r (some factor) ≡ ok f
    → r.path_segments ≡ []
    → schema_has_single_value_field factor.output_schema ≡ true
unfolding resolve_factor_ref default_path
resolves_single r factor f h e =
    elim (Bool-cases (schema_has_single_value_field factor.output_schema)) [
      | inl single ↦ single
      | inr other ↦ absurd (impossible other)
    ]
  where
    impossible : schema_has_single_value_field factor.output_schema ≡ false → ⊥
    impossible other =
        let failed : err (error_at factor_ref_ambiguous r.factor_code) ≡ ok f =
          rw (resolve_factor_ref, e, default_path, other) at h in
        cc

-- It reads the member `value`.
value_step :
    (r : FactorRef) (factor : FactorDefinition) (f : _)
    → resolve_factor_ref r (some factor) ≡ ok f
    → r.path_segments ≡ []
    → default_path [] factor.output_schema ≡ bytes "value" ∷ []
unfolding default_path
value_step r factor f h e = rw (default_path, resolves_single r factor f h e) refl

module _ {D : Type 0} where
  same_reading :
      (path : List Str) (m : ValueMap D) (schema : Schema)
      → (path ≡ [] → default_path [] schema ≡ bytes "value" ∷ [])
      → (path ≡ [] → (v : Value D) × (lookup (bytes "value") m ≡ some v))
      → get_steps (default_path path schema) (object m) ≡ resolve_root path (object m)
  unfolding get_steps resolve_root default_path walk member first_step
  same_reading [] m schema single has =
      let (v, e) = has refl in rw (single refl, get_steps, first_step, resolve_root, member, e) refl
  same_reading (k ∷ rest) m schema single has = refl

  -- On a factor whose value is a map, the accessor that is compiled for a reference reads what
  -- `ResolveValue` reads, a missing step included, when the map has the member `value` or the
  -- reference has a path.
  pub get-resolve_value :
      (r : FactorRef) (factor : FactorDefinition) (a : FactorValueAccessor) (ctx : EvalContext D)
      (m : ValueMap D)
      → compile_factor_accessor r (some factor) ≡ ok a
      → lookup r.factor_code ctx ≡ some (object m)
      → (r.path_segments ≡ [] → (v : Value D) × (lookup (bytes "value") m ≡ some v))
      → get a ctx ≡ resolve_value ctx r
  unfolding get resolve_value
  get-resolve_value r factor a ctx m made found has =
      let (same, (f, resolved)) = steps_of r factor a made in
      subst (λ b. get b ctx ≡ resolve_value ctx r) (sym same)
        (rw (get, resolve_value, found)
          (same_reading r.path_segments m factor.output_schema (value_step r factor f resolved)
            has))

  -- What the accessor of a reference with the path `path` and `ResolveValue` may find in a factor's value.
  -- They differ in two cases: without a path on a map that has no member `value`, where the accessor finds
  -- nothing and `ResolveValue` the map; and on a path from `value` in a value that is no map, where the
  -- accessor finds that value and `ResolveValue` nothing.
  pub data Reads (path : List Str) (root : Value D)
      : Option (Value D) → Option (Value D) → Type 0 where
    alike : (o : Option (Value D)) → Reads path root o o
    whole_map :
        (m : ValueMap D)
        → path ≡ []
        → root ≡ object m
        → lookup (bytes "value") m ≡ none
        → Reads path root none (some root)
    past_scalar :
        (rest : List Str)
        → path ≡ bytes "value" ∷ rest
        → ((m : ValueMap D) → root ≡ object m → ⊥)
        → Reads path root (some root) none

  -- A value that is no map.
  pub record IsScalar (root : Value D) : Type 0 where
    pub no_map : (m : ValueMap D) → root ≡ object m → ⊥
    pub no_member : (k : Str) → member k root ≡ none
    pub step :
        (k : Str) (rest : List Str)
        → first_step k rest root ≡ (if str_eq k (bytes "value") then some root else none)

  map-cases : (root : Value D) → ((m : ValueMap D) × (root ≡ object m)) ⊎ IsScalar root
  unfolding member first_step
  map-cases null = inr (record { no_map = λ m e. cc; no_member = λ k. refl; step = λ k rest. refl })
  map-cases (bool b) =
      inr (record { no_map = λ m e. cc; no_member = λ k. refl; step = λ k rest. refl })
  map-cases (str s) =
      inr (record { no_map = λ m e. cc; no_member = λ k. refl; step = λ k rest. refl })
  map-cases (int n) =
      inr (record { no_map = λ m e. cc; no_member = λ k. refl; step = λ k rest. refl })
  map-cases (int64 n) =
      inr (record { no_map = λ m e. cc; no_member = λ k. refl; step = λ k rest. refl })
  map-cases (float64 x) =
      inr (record { no_map = λ m e. cc; no_member = λ k. refl; step = λ k rest. refl })
  map-cases (list vs) =
      inr (record { no_map = λ m e. cc; no_member = λ k. refl; step = λ k rest. refl })
  map-cases (object m) = inl (m, refl)

  map-Reads :
      (m : ValueMap D)
      → Reads [] (object m) (get_steps (bytes "value" ∷ []) (object m)) (resolve_root [] (object m))
  unfolding get_steps resolve_root member first_step walk
  map-Reads m = elim (Option-cases (lookup (bytes "value") m)) [
    | inl gone ↦ rw (get_steps, first_step, gone, resolve_root, member) (whole_map m refl refl gone)
    | inr (v, there) ↦ rw (get_steps, first_step, there, resolve_root, member) (alike (some v))
  ]

  reading-Reads :
      (path : List Str) (root : Value D) (schema : Schema)
      → (path ≡ [] → default_path [] schema ≡ bytes "value" ∷ [])
      → Reads path root (get_steps (default_path path schema) root) (resolve_root path root)
  unfolding get_steps resolve_root default_path walk member first_step
  reading-Reads [] root schema single = elim (map-cases root) [
    | inl (m, e) ↦ rw (single refl) (
        subst (λ x. Reads [] x (get_steps (bytes "value" ∷ []) x) (resolve_root [] x)) (sym e)
          (map-Reads m))
    | inr s ↦
        rw
          (
            single refl,
            get_steps,
            s.step (bytes "value") [],
            resolve_root,
            s.no_member (bytes "value"),
          )
          (alike (some root))
  ]
  reading-Reads (k ∷ rest) root schema single = elim (map-cases root) [
    | inl (m, e) ↦ rw e (alike _)
    | inr s ↦ elim (Bool-cases (str_eq k (bytes "value"))) [
      | inl e ↦
          rw (get_steps, s.step k rest, e, resolve_root, walk, s.no_member k)
            (past_scalar rest (ap (λ x. x ∷ rest) (eq_of_str_eq k (bytes "value") e)) s.no_map)
      | inr e ↦ rw (get_steps, s.step k rest, e, resolve_root, walk, s.no_member k) (alike none)
    ]
  ]

  -- In a factor's value the accessor that is compiled for a reference and `ResolveValue` find the same, a
  -- missing step included, or one of the two cases holds in which they differ.
  pub get-Reads :
      (r : FactorRef) (factor : FactorDefinition) (a : FactorValueAccessor) (ctx : EvalContext D)
      (root : Value D)
      → compile_factor_accessor r (some factor) ≡ ok a
      → lookup r.factor_code ctx ≡ some root
      → Reads r.path_segments root (get a ctx) (resolve_value ctx r)
  unfolding get resolve_value
  get-Reads r factor a ctx root made found =
      let (same, (f, resolved)) = steps_of r factor a made in
      subst (λ b. Reads r.path_segments root (get b ctx) (resolve_value ctx r)) (sym same)
        (rw (get, resolve_value, found)
          (reading-Reads r.path_segments root factor.output_schema
            (value_step r factor f resolved)))
