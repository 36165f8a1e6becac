-- ===== src/Snapshot.antt =====
-- factorengine/compiler_snapshot.go: compiled expressions as records that JSON can hold, and back. A Go
-- map holds a key once, so a new map that is filled in a loop over another one has the same keys.
use risk_engine.Prelude.{Bool, false, none, List, [], ◌∷◌, Str, bytes, str_eq, if◌then◌else◌}
use risk_engine.Prelude.Int.{ℤ, pos}
use risk_engine.Outcome.{Outcome, ok, err, ◌>>=◌, error_at, definition_invalid}
use risk_engine.Operators.{ValueType, FunctionName}
use risk_engine.Value.{Value, Values, ValueMap}
use risk_engine.Accessor.{FactorValueAccessor}
use risk_engine.Runtime.{Floats}
use risk_engine.Bytecode.{Instruction, BytecodeProgram}
use risk_engine.Compiler.{CompiledExpr}

-- `valueSnapshot`: Kind, Bool, String, Int, Int64, Double, List, Map.
mutual
  pub data ValueSnapshot (D : Type 0) : Type 0 where
    value_snapshot :
        Str → Bool → Str → ℤ → ℤ → D → ValueSnapshots D → SnapshotMap D → ValueSnapshot D

  pub data ValueSnapshots (D : Type 0) : Type 0 where
    nil : ValueSnapshots D
    cons : ValueSnapshot D → ValueSnapshots D → ValueSnapshots D

  pub data SnapshotMap (D : Type 0) : Type 0 where
    empty : SnapshotMap D
    entry : Str → ValueSnapshot D → SnapshotMap D → SnapshotMap D

pub record AccessorSnapshot : Type 0 where
  pub kind : Str
  pub factor_code : Str
  pub steps : List Str

pub record BytecodeProgramSnapshot (D : Type 0) : Type 0 where
  pub instructions : List Instruction
  pub constants : List (ValueSnapshot D)
  pub accessors : List AccessorSnapshot
  pub builtins : List FunctionName
  pub result_type : ValueType

pub record CompiledExprSnapshot (D : Type 0) : Type 0 where
  pub source : Str
  pub result_type : ValueType
  pub bytecode : BytecodeProgramSnapshot D

-- The loops that stop at the first error.
unfoldable pub each {ℓ κ} : {A : Type ℓ} {B : Type κ} → (A → Outcome B) → List A → Outcome (List B)
each f [] = ok []
each f (x ∷ xs) = do y ← f x; ys ← each f xs; ok (y ∷ ys)

module _ {D : Type 0} ⦃fl : Floats D⦄ where
  -- A snapshot with a kind and nothing else.
  abbrev pub of_kind : Str → ValueSnapshot D
  of_kind kind = value_snapshot kind false [] (pos 0) (pos 0) fl.zero nil empty

unfoldable mutual
  pub snapshot_value : {D : Type 0} ⦃fl : Floats D⦄ → Value D → Outcome (ValueSnapshot D)
  snapshot_value Value.null = ok (of_kind (bytes "null"))
  snapshot_value ⦃fl⦄ (Value.bool v) =
      ok (value_snapshot (bytes "bool") v [] (pos 0) (pos 0) fl.zero nil empty)
  snapshot_value ⦃fl⦄ (Value.str v) =
      ok (value_snapshot (bytes "string") false v (pos 0) (pos 0) fl.zero nil empty)
  snapshot_value ⦃fl⦄ (Value.int v) =
      ok (value_snapshot (bytes "int") false [] v (pos 0) fl.zero nil empty)
  snapshot_value ⦃fl⦄ (Value.int64 v) =
      ok (value_snapshot (bytes "int64") false [] (pos 0) v fl.zero nil empty)
  snapshot_value ⦃fl⦄ (Value.float64 v) =
      ok (value_snapshot (bytes "double") false [] (pos 0) (pos 0) v nil empty)
  snapshot_value ⦃fl⦄ (Value.list vs) = do
    list ← snapshot_values vs
    ok (value_snapshot (bytes "list") false [] (pos 0) (pos 0) fl.zero list empty)
  snapshot_value ⦃fl⦄ (Value.object m) = do
    mapped ← snapshot_map m
    ok (value_snapshot (bytes "map") false [] (pos 0) (pos 0) fl.zero nil mapped)

  pub snapshot_values : {D : Type 0} ⦃fl : Floats D⦄ → Values D → Outcome (ValueSnapshots D)
  snapshot_values Values.nil = ok nil
  snapshot_values (Values.cons v vs) = do
    s ← snapshot_value v
    ss ← snapshot_values vs
    ok (cons s ss)

  pub snapshot_map : {D : Type 0} ⦃fl : Floats D⦄ → ValueMap D → Outcome (SnapshotMap D)
  snapshot_map ValueMap.empty = ok empty
  snapshot_map (ValueMap.entry k v m) = do
    s ← snapshot_value v
    rest ← snapshot_map m
    ok (entry k s rest)

-- The kinds of the switch in `restoreValue`.
pub data Kind : Type 0 where
  null_kind bool_kind string_kind int_kind int64_kind double_kind list_kind map_kind : Kind
  other_kind : Kind

unfoldable pub kind_of : Str → Kind
unfolding str_eq
kind_of kind =
    if str_eq kind (bytes "null")
    then null_kind
    else if str_eq kind (bytes "bool")
    then bool_kind
    else if str_eq kind (bytes "string")
    then string_kind
    else if str_eq kind (bytes "int")
    then int_kind
    else if str_eq kind (bytes "int64")
    then int64_kind
    else if str_eq kind (bytes "double")
    then double_kind
    else if str_eq kind (bytes "list")
    then list_kind
    else if str_eq kind (bytes "map")
    then map_kind
    else other_kind

unfoldable mutual
  unfolding kind_of

  pub restore_value : {D : Type 0} → ValueSnapshot D → Outcome (Value D)
  restore_value (value_snapshot kind b s i i64 d list mapped) = elim (kind_of kind) [
    | null_kind ↦ ok Value.null
    | bool_kind ↦ ok (Value.bool b)
    | string_kind ↦ ok (Value.str s)
    | int_kind ↦ ok (Value.int i)
    | int64_kind ↦ ok (Value.int64 i64)
    | double_kind ↦ ok (Value.float64 d)
    | list_kind ↦ restore_values list >>= λ vs. ok (Value.list vs)
    | map_kind ↦ restore_map mapped >>= λ m. ok (Value.object m)
    | other_kind ↦ err (error_at definition_invalid (bytes "constant"))
  ]

  pub restore_values : {D : Type 0} → ValueSnapshots D → Outcome (Values D)
  restore_values nil = ok Values.nil
  restore_values (cons s ss) = do v ← restore_value s; vs ← restore_values ss; ok (Values.cons v vs)

  pub restore_map : {D : Type 0} → SnapshotMap D → Outcome (ValueMap D)
  restore_map empty = ok ValueMap.empty
  restore_map (entry k s ss) = do v ← restore_value s; m ← restore_map ss; ok (ValueMap.entry k v m)

-- The one type of accessor that there is.
unfoldable pub snapshot_accessor : FactorValueAccessor → Outcome AccessorSnapshot
snapshot_accessor a =
    ok (record { kind = bytes "factor"; factor_code = a.factor_code; steps = a.steps })

unfoldable pub restore_accessor : AccessorSnapshot → Outcome FactorValueAccessor
unfolding str_eq
restore_accessor s =
    if str_eq s.kind (bytes "factor")
    then ok (record { factor_code = s.factor_code; steps = s.steps })
    else err (error_at definition_invalid (bytes "accessor"))

module _ {D : Type 0} where
  unfoldable pub snapshot_bytecode_program :
      ⦃fl : Floats D⦄ → BytecodeProgram D → Outcome (BytecodeProgramSnapshot D)
  unfolding each snapshot_value snapshot_accessor
  snapshot_bytecode_program program = do
    constants ← each snapshot_value program.constants
    accessors ← each snapshot_accessor program.accessors
    ok (record {
      instructions = program.instructions;
      constants = constants;
      accessors = accessors;
      builtins = program.builtins;
      result_type = program.result_type;
    })

  unfoldable pub restore_bytecode_program : BytecodeProgramSnapshot D → Outcome (BytecodeProgram D)
  unfolding each restore_value restore_accessor
  restore_bytecode_program snapshot = do
    constants ← each restore_value snapshot.constants
    accessors ← each restore_accessor snapshot.accessors
    ok (record {
      instructions = snapshot.instructions;
      constants = constants;
      accessors = accessors;
      builtins = snapshot.builtins;
      result_type = snapshot.result_type;
    })

  unfoldable pub snapshot_compiled_expr :
      ⦃fl : Floats D⦄ → CompiledExpr D → Outcome (CompiledExprSnapshot D)
  unfolding snapshot_bytecode_program
  snapshot_compiled_expr expr = do
    bytecode ← snapshot_bytecode_program expr.bytecode
    ok (record { source = expr.source; result_type = expr.result_type; bytecode = bytecode })

  -- The trees are not restored.
  unfoldable pub restore_compiled_expr : CompiledExprSnapshot D → Outcome (CompiledExpr D)
  unfolding restore_bytecode_program
  restore_compiled_expr snapshot = do
    bytecode ← restore_bytecode_program snapshot.bytecode
    ok (record {
      source = snapshot.source;
      ast = none;
      bound = none;
      bytecode = bytecode;
      result_type = snapshot.result_type;
    })
