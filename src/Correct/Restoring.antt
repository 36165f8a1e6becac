-- ===== src/Correct/Restoring.antt =====
-- Restoring a snapshot gives back what was saved.
use risk_engine.Prelude.{◌≡◌, refl, none, List, [], ◌∷◌, bytes, str_eq, false}
use risk_engine.Prelude.Int.{pos}
use risk_engine.Outcome.{Outcome, ok, ◌>>=◌}
use risk_engine.Value.{Value, Values, ValueMap}
use risk_engine.Accessor.{EvalContext, FactorValueAccessor}
use risk_engine.Runtime.{Floats}
use risk_engine.Bytecode.{BytecodeProgram}
use risk_engine.Compiler.{CompiledExpr, eval_compiled}
use risk_engine.Snapshot.{
  value_snapshot, ValueSnapshots, SnapshotMap, each, snapshot_value, snapshot_values, snapshot_map,
  restore_value, restore_values, restore_map, snapshot_accessor, restore_accessor,
  snapshot_bytecode_program, restore_bytecode_program, snapshot_compiled_expr,
  restore_compiled_expr,
}

-- A snapshot is made, and restoring it gives the value.
abbrev Restores {ℓ κ} : {A : Type ℓ} {B : Type κ} → Outcome B → (B → Outcome A) → A → Type (ℓ ⊔ κ)
Restores saved restore a = (s : _) × (saved ≡ ok s) × (restore s ≡ ok a)

mutual
  unfolding snapshot_value restore_value

  value-Restores :
      {D : Type 0} ⦃fl : Floats D⦄ (v : Value D) → Restores (snapshot_value v) restore_value v
  value-Restores Value.null = (_, refl, refl)
  value-Restores (Value.bool v) = (_, refl, refl)
  value-Restores (Value.str v) = (_, refl, refl)
  value-Restores (Value.int v) = (_, refl, refl)
  value-Restores (Value.int64 v) = (_, refl, refl)
  value-Restores (Value.float64 v) = (_, refl, refl)
  value-Restores ⦃fl⦄ (Value.list vs) =
      let (s, saved, same) = values-Restores vs in
      (
        value_snapshot (bytes "list") false [] (pos 0) (pos 0) fl.zero s SnapshotMap.empty,
        rw saved refl,
        rw same refl,
      )
  value-Restores ⦃fl⦄ (Value.object m) =
      let (s, saved, same) = map-Restores m in
      (
        value_snapshot (bytes "map") false [] (pos 0) (pos 0) fl.zero ValueSnapshots.nil s,
        rw saved refl,
        rw same refl,
      )

  values-Restores :
      {D : Type 0} ⦃fl : Floats D⦄ (vs : Values D) → Restores (snapshot_values vs) restore_values vs
  values-Restores Values.nil = (_, refl, refl)
  values-Restores (Values.cons v vs) =
      let (s, saved, same) = value-Restores v in
      let (t, saved', same') = values-Restores vs in
      (ValueSnapshots.cons s t, rw (saved, saved') refl, rw (same, same') refl)

  map-Restores :
      {D : Type 0} ⦃fl : Floats D⦄ (m : ValueMap D) → Restores (snapshot_map m) restore_map m
  map-Restores ValueMap.empty = (_, refl, refl)
  map-Restores (ValueMap.entry k v m) =
      let (s, saved, same) = value-Restores v in
      let (t, saved', same') = map-Restores m in
      (SnapshotMap.entry k s t, rw (saved, saved') refl, rw (same, same') refl)

each-Restores {ℓ κ} :
    {A : Type ℓ} {B : Type κ} (save : A → Outcome B) (restore : B → Outcome A) (xs : List A)
    → ((x : A) → Restores (save x) restore x)
    → Restores (each save xs) (each restore) xs
unfolding each
each-Restores save restore [] h = ([], refl, refl)
each-Restores save restore (x ∷ xs) h =
    let (s, saved, same) = h x in
    let (t, saved', same') = each-Restores save restore xs h in
    (s ∷ t, rw (saved, saved') refl, rw (same, same') refl)

accessor-Restores : (a : FactorValueAccessor) → Restores (snapshot_accessor a) restore_accessor a
unfolding snapshot_accessor restore_accessor str_eq
accessor-Restores a = (_, refl, refl)

module _ {D : Type 0} ⦃fl : Floats D⦄ where
  program-Restores :
      (p : BytecodeProgram D) → Restores (snapshot_bytecode_program p) restore_bytecode_program p
  unfolding snapshot_bytecode_program restore_bytecode_program
  program-Restores p =
      let (s, saved, same) =
        each-Restores snapshot_value restore_value p.constants value-Restores in
      let (t, saved', same') =
        each-Restores snapshot_accessor restore_accessor p.accessors accessor-Restores in
      (
        record {
          instructions = p.instructions;
          constants = s;
          accessors = t;
          builtins = p.builtins;
          result_type = p.result_type;
        },
        rw (saved, saved') refl,
        rw (same, same') refl,
      )

  -- Every compiled expression has a snapshot, and what is restored from it is the expression without its
  -- trees: the source, the program and the result type are the same, so it evaluates as before in every
  -- context.
  pub restore_compiled_expr-snapshot_compiled_expr :
      (c : CompiledExpr D)
      → (c' : CompiledExpr D) × ((snapshot_compiled_expr c >>= restore_compiled_expr) ≡ ok c')
        × (c' ≡ record c { ast = none; bound = none })
        × ((ctx : EvalContext D) → eval_compiled c' ctx ≡ eval_compiled c ctx)
  unfolding snapshot_compiled_expr restore_compiled_expr eval_compiled
  restore_compiled_expr-snapshot_compiled_expr c =
      let (s, saved, same) = program-Restores c.bytecode in
      (record c { ast = none; bound = none }, rw (saved, same) refl, refl, λ ctx. refl)
