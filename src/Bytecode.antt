-- ===== src/Bytecode.antt =====
-- factorengine/bytecode.go: instructions and programs. An operand of an instruction is a natural
-- number: the compiler makes no other.
pub mod Fold
pub mod Emit
pub mod Peephole
pub mod Vm
pub mod Compile
use risk_engine.Prelude.{ℕ, List, Str}
use risk_engine.Operators.{ValueType, FunctionName}
use risk_engine.Value.{Value}
use risk_engine.Accessor.{FactorValueAccessor}

-- The opcodes, and any other byte.
pub data OpCode : Type 0 where
  push_const load_factor make_list make_map unary_not unary_neg : OpCode
  binary_lt binary_le binary_gt binary_ge binary_eq binary_ne : OpCode
  binary_add binary_sub binary_mul binary_div : OpCode
  jump_if_false jump_if_true jump call_builtin : OpCode
  unknown : ℕ → OpCode

pub record Instruction : Type 0 where
  pub op : OpCode
  pub arg : ℕ
  pub aux : ℕ

-- `Instruction{Op: op, Arg: arg}` and `Instruction{Op: op}`.
abbrev pub instr : OpCode → ℕ → Instruction
instr op arg = record { op = op; arg = arg; aux = 0 }

pub record BytecodeProgram (D : Type 0) : Type 0 where
  pub instructions : List Instruction
  pub constants : List (Value D)
  pub accessors : List FactorValueAccessor
  pub builtins : List FunctionName
  pub result_type : ValueType

-- How Go's `fmt` prints a constant (`%T:%#v`) and an accessor (`%#v`): the keys of the tables.
pub record Formatter (D : Type 0) : Type 0 where
  pub const_key : Value D → Str
  pub accessor_key : FactorValueAccessor → Str
