-- ===== src/Bytecode/Emit.antt =====
-- factorengine/bytecode.go: `emitExpr` and the tables of constants, accessors and built-ins. The
-- compiler and the instructions emitted so far are passed along.
use risk_engine.Prelude.{
  ℕ, zero, suc, Bool, true, false, Option, none, some, List, [], ◌∷◌, ◌++◌, Str, str_eq, length,
  if◌then◌else◌,
}
use risk_engine.Outcome.{Outcome, ok, err, ◌>>=◌, error_of, unsupported_operator}
use risk_engine.Operators.{BinaryOp, UnaryOp, FunctionName}
use risk_engine.Value.{Value, bool, str}
use risk_engine.Accessor.{FactorValueAccessor}
use risk_engine.Bound.{
  BoundExpr, literal, factor_ref, unary, binary, conditional, function_call, list, map, BoundExprs,
  nil, cons, BoundEntries, empty, entry, args_length, entries_length,
}
use risk_engine.Bytecode.{
  OpCode, push_const, load_factor, make_list, make_map, unary_not, unary_neg, binary_lt, binary_le,
  binary_gt, binary_ge, binary_eq, binary_ne, binary_add, binary_sub, binary_mul, binary_div,
  jump_if_false, jump_if_true, jump, call_builtin, Instruction, instr, Formatter,
}

-- An index of a table: the Go map from keys to positions.
abbrev pub Index : Type 0
Index = List (Str × ℕ)

unfoldable pub find_key : Str → Index → Option ℕ
unfolding str_eq
find_key k [] = none
find_key k ((j, i) ∷ rest) = if str_eq j k then some i else find_key k rest

-- The name that a built-in is interned by.
unfoldable pub function_eq : FunctionName → FunctionName → Bool
unfolding str_eq
function_eq FunctionName.is_empty FunctionName.is_empty = true
function_eq FunctionName.exists FunctionName.exists = true
function_eq FunctionName.in_list FunctionName.in_list = true
function_eq FunctionName.contains FunctionName.contains = true
function_eq FunctionName.get FunctionName.get = true
function_eq (FunctionName.other s) (FunctionName.other t) = str_eq s t
function_eq _ _ = false

unfoldable pub find_builtin : FunctionName → List (FunctionName × ℕ) → Option ℕ
unfolding function_eq
find_builtin name [] = none
find_builtin name ((known, i) ∷ rest) =
    if function_eq known name then some i else find_builtin name rest

pub record BytecodeCompiler (D : Type 0) : Type 0 where
  pub const_index : Index
  pub accessor_index : Index
  pub builtin_index : List (FunctionName × ℕ)
  pub constants : List (Value D)
  pub accessors : List FactorValueAccessor
  pub builtins : List FunctionName

abbrev pub new_bytecode_compiler : {D : Type 0} → BytecodeCompiler D
new_bytecode_compiler = record {
  const_index = [];
  accessor_index = [];
  builtin_index = [];
  constants = [];
  accessors = [];
  builtins = [];
}

-- The compiler together with the instructions that it appends to.
pub record Emission (D : Type 0) : Type 0 where
  pub compiler : BytecodeCompiler D
  pub instructions : List Instruction

module _ {D : Type 0} where
  unfoldable pub intern_const : Formatter D → Value D → BytecodeCompiler D → BytecodeCompiler D × ℕ
  unfolding find_key
  intern_const fmt v c = elim (find_key (fmt.const_key v) c.const_index) [
    | some i ↦ (c, i)
    | none ↦ (
      record c {
        constants = c.constants ++ v ∷ [];
        const_index = (fmt.const_key v, length c.constants) ∷ c.const_index;
      },
      length c.constants,
    )
  ]

  unfoldable pub intern_accessor :
      Formatter D → FactorValueAccessor → BytecodeCompiler D → BytecodeCompiler D × ℕ
  unfolding find_key
  intern_accessor fmt a c = elim (find_key (fmt.accessor_key a) c.accessor_index) [
    | some i ↦ (c, i)
    | none ↦ (
      record c {
        accessors = c.accessors ++ a ∷ [];
        accessor_index = (fmt.accessor_key a, length c.accessors) ∷ c.accessor_index;
      },
      length c.accessors,
    )
  ]

  unfoldable pub intern_builtin : FunctionName → BytecodeCompiler D → BytecodeCompiler D × ℕ
  unfolding find_builtin
  intern_builtin name c = elim (find_builtin name c.builtin_index) [
    | some i ↦ (c, i)
    | none ↦ (
      record c {
        builtins = c.builtins ++ name ∷ [];
        builtin_index = (name, length c.builtins) ∷ c.builtin_index;
      },
      length c.builtins,
    )
  ]

  -- `*instructions = append(*instructions, inst)`.
  unfoldable pub append : Instruction → Emission D → Emission D
  append inst s = record s { instructions = s.instructions ++ inst ∷ [] }

  -- An instruction whose operand is a place in a table.
  unfoldable pub append_interned : OpCode → ℕ → BytecodeCompiler D × ℕ → Emission D → Emission D
  append_interned op aux (c, i) s = record {
    compiler = c;
    instructions = s.instructions ++ record { op = op; arg = i; aux = aux } ∷ [];
  }

  unfoldable pub push_constant : Formatter D → Value D → Emission D → Emission D
  unfolding intern_const append_interned
  push_constant fmt v s = append_interned push_const 0 (intern_const fmt v s.compiler) s

-- `(*instructions)[i].Arg = target`.
unfoldable pub set_arg : List Instruction → ℕ → ℕ → List Instruction
set_arg [] i target = []
set_arg (x ∷ xs) zero target = record x { arg = target } ∷ xs
set_arg (x ∷ xs) (suc i) target = x ∷ set_arg xs i target

-- The jump at `i` is made to go behind what has been emitted.
unfoldable pub patch : {D : Type 0} → ℕ → Emission D → Emission D
unfolding set_arg
patch i s = record s { instructions = set_arg s.instructions i (length s.instructions) }

unfoldable pub binary_opcode : BinaryOp → Outcome OpCode
binary_opcode BinaryOp.lt = ok binary_lt
binary_opcode BinaryOp.le = ok binary_le
binary_opcode BinaryOp.gt = ok binary_gt
binary_opcode BinaryOp.ge = ok binary_ge
binary_opcode BinaryOp.eq = ok binary_eq
binary_opcode BinaryOp.ne = ok binary_ne
binary_opcode BinaryOp.add = ok binary_add
binary_opcode BinaryOp.sub = ok binary_sub
binary_opcode BinaryOp.mul = ok binary_mul
binary_opcode BinaryOp.div = ok binary_div
binary_opcode _ = err (error_of unsupported_operator)

unfoldable pub unary_opcode : UnaryOp → Outcome OpCode
unary_opcode UnaryOp.not = ok unary_not
unary_opcode UnaryOp.neg = ok unary_neg
unary_opcode (UnaryOp.other s) = err (error_of unsupported_operator)

-- What `emitExpr` does with the emission of each part, in turn. `part >>= k` emits a part first.
module _ {D : Type 0} where
  -- `emitExpr` on a conditional.
  unfoldable pub emit_conditional :
      (Emission D → Outcome (Emission D))
      → (Emission D → Outcome (Emission D))
      → (Emission D → Outcome (Emission D))
      → Emission D
      → Outcome (Emission D)
  unfolding append patch
  emit_conditional cond then_part else_part s = do
    s₁ ← cond s
    let jump_false_index = length s₁.instructions
    s₂ ← then_part (append (instr jump_if_false 0) s₁)
    let jump_end_index = length s₂.instructions
    s₃ ← else_part (patch jump_false_index (append (instr jump 0) s₂))
    ok (patch jump_end_index s₃)

  -- `emitShortCircuitBinary`, with the conditional jump and the constant of the short way.
  unfoldable pub emit_short_circuit :
      Formatter D
      → OpCode
      → Bool
      → (Emission D → Outcome (Emission D))
      → (Emission D → Outcome (Emission D))
      → Emission D
      → Outcome (Emission D)
  unfolding append patch push_constant
  emit_short_circuit fmt op short left right s = do
    s₁ ← left s
    let jump_short_index = length s₁.instructions
    s₂ ← right (append (instr op 0) s₁)
    let jump_end_index = length s₂.instructions
    ok (
        patch jump_end_index
          (push_constant fmt (bool short) (patch jump_short_index (append (instr jump 0) s₂))))

  unfoldable pub emit_binary :
      Formatter D
      → BinaryOp
      → (Emission D → Outcome (Emission D))
      → (Emission D → Outcome (Emission D))
      → Emission D
      → Outcome (Emission D)
  unfolding emit_short_circuit append binary_opcode
  emit_binary fmt BinaryOp.and left right s =
      emit_short_circuit fmt jump_if_false false left right s
  emit_binary fmt BinaryOp.or left right s = emit_short_circuit fmt jump_if_true true left right s
  emit_binary fmt op left right s = do
    s₁ ← left s
    s₂ ← right s₁
    code ← binary_opcode op
    ok (append (instr code 0) s₂)

unfoldable mutual
  unfolding push_constant append append_interned intern_accessor intern_builtin emit_conditional
      emit_binary unary_opcode

  pub emit_expr : {D : Type 0} → Formatter D → BoundExpr D → Emission D → Outcome (Emission D)
  emit_expr fmt (literal v t f) s = ok (push_constant fmt v s)
  emit_expr fmt (factor_ref r a t f) s =
      ok (append_interned load_factor 0 (intern_accessor fmt a s.compiler) s)
  emit_expr fmt (list es t u f) s = do
    s₁ ← emit_args fmt es s
    ok (append (instr make_list (args_length es)) s₁)
  emit_expr fmt (map es t u f) s = do
    s₁ ← emit_entries fmt es s
    ok (append (instr make_map (entries_length es)) s₁)
  emit_expr fmt (unary op e t f ev) s = do
    s₁ ← emit_expr fmt e s
    code ← unary_opcode op
    ok (append (instr code 0) s₁)
  emit_expr fmt (conditional c a b t f) s =
      emit_conditional (emit_expr fmt c) (emit_expr fmt a) (emit_expr fmt b) s
  emit_expr fmt (binary op l r t f ev) s = emit_binary fmt op (emit_expr fmt l) (emit_expr fmt r) s
  emit_expr fmt (function_call name args t f ev) s = do
    s₁ ← emit_args fmt args s
    ok (append_interned call_builtin (args_length args) (intern_builtin name s₁.compiler) s₁)

  pub emit_args : {D : Type 0} → Formatter D → BoundExprs D → Emission D → Outcome (Emission D)
  emit_args fmt nil s = ok s
  emit_args fmt (cons e es) s = do s₁ ← emit_expr fmt e s; emit_args fmt es s₁

  pub emit_entries : {D : Type 0} → Formatter D → BoundEntries D → Emission D → Outcome (Emission D)
  emit_entries fmt empty s = ok s
  emit_entries fmt (entry k e es) s = do
    s₁ ← emit_expr fmt e (push_constant fmt (str k) s)
    emit_entries fmt es s₁
