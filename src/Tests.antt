-- ===== src/Tests.antt =====
-- Runs of the model on the rule `age >= 10 + 8 && true`, and the theorems at them.
mod Parsing
mod Serving
mod Persisting
mod Validating
use mathlib.Core.Path.{◌≡◌, refl, sym, subst}
use risk_engine.Prelude.{
  none, str_eq, Bool-cases, inl, inr, ℕ, suc, true, false, some, List, [], ◌∷◌, Str, bytes, arith,
}
use risk_engine.Prelude.Int.{ℤ, pos, negsuc, ◌+ℤ◌, ◌-ℤ◌, ◌*ℤ◌, div_ℤ, ltb_ℤ, leb_ℤ, eqb_ℤ}
use risk_engine.Outcome.{Outcome, ok, panic}
use risk_engine.Operators.{ValueType, BinaryOp}
use risk_engine.Schema.{
  FieldSchema, FieldPtr, Schema, FactorRef, FactorDefinition, FactorRegistry, lookup_factor,
  schema_has_single_value_field,
}
use risk_engine.Value.{Value, ValueMap, lookup}
use risk_engine.Accessor.{
  EvalContext, FactorValueAccessor, compile_factor_accessor, get, resolve_value,
}
use risk_engine.Runtime.{Floats, arithmetic}
use risk_engine.Expr.{Expr}
use risk_engine.Bound.{BoundExpr, eval}
use risk_engine.Binder.{bind}
use risk_engine.Bytecode.{OpCode, Instruction, instr, BytecodeProgram, Formatter}
use risk_engine.Bytecode.Fold.{optimize_bound_expr}
use risk_engine.Bytecode.Emit.{new_bytecode_compiler, intern_const}
use risk_engine.Bytecode.Compile.{compile}
use risk_engine.Bytecode.Vm.{BytecodeVm, vm_eval, recovered, pop_many}
use risk_engine.Bytecode.Peephole.{keeps, optimize_instructions}
use risk_engine.Correct.Agreement.{Fits, eval-bind}
use risk_engine.Evaluator.{eval_expr, run_binary, eval_binary_op}
use risk_engine.Correct.WellBound.{WellBound, IsBool}
use risk_engine.Correct.Opcodes.{ok_injective}
use risk_engine.Correct.Binding.{bind-WellBound}
use risk_engine.Correct.Layout.{pop_many-reverse_aux}
use risk_engine.Correct.Dense.{optimize_instructions-Kept}
use risk_engine.Correct.FoldingWhole.{eval-optimize_bound_expr}
use risk_engine.Correct.Program.{vm_eval-compile, start-Indexed}
use risk_engine.Correct.Reading.{Reads, get-Reads}
use risk_engine.Correct.Compaction.{Compacts, optimize_instructions-Compacts}
use risk_engine.Correct.Ranges.{InRange, arithmetic-InRange}
use risk_engine.Correct.Termination.{vm_eval-returns}
use risk_engine.Correct.Tables.{KeysSound, Interned, intern_const-Interned}

-- Integers in the place of floating-point numbers.
instance abbrev pub integers : Floats ℤ
integers = record {
  add = λ a b. a +ℤ b;
  sub = λ a b. a -ℤ b;
  mul = λ a b. a *ℤ b;
  div = div_ℤ;
  neg = λ a. pos 0 -ℤ a;
  lt = ltb_ℤ;
  le = leb_ℤ;
  eq = eqb_ℤ;
  of_int = λ a. a;
  zero = pos 0;
}

-- A string with an end mark, in front of the rest.
abbrev pub mark : Str → Str → Str
mark [] rest = 0 ∷ rest
mark (c ∷ s) rest = suc c ∷ mark s rest

abbrev pub marks : List Str → Str
marks [] = []
marks (s ∷ ss) = mark s (marks ss)

abbrev pub key_of : Value ℤ → Str
key_of (Value.bool true) = 1 ∷ []
key_of (Value.bool false) = 2 ∷ []
key_of (Value.str s) = 3 ∷ s
key_of (Value.int (pos n)) = 4 ∷ n ∷ []
key_of (Value.int (negsuc n)) = 5 ∷ n ∷ []
key_of (Value.int64 (pos n)) = 6 ∷ n ∷ []
key_of (Value.int64 (negsuc n)) = 7 ∷ n ∷ []
key_of _ = []

abbrev pub fmt : Formatter ℤ
fmt = record { const_key = key_of; accessor_key = λ a. mark a.factor_code (marks a.steps) }

abbrev pub IsScalar : Value ℤ → Type 0
IsScalar (Value.bool b) = Unit
IsScalar (Value.str s) = Unit
IsScalar (Value.int n) = Unit
IsScalar (Value.int64 n) = Unit
IsScalar _ = ⊥

mark_injective : (s t r u : Str) → mark s r ≡ mark t u → (s ≡ t) × (r ≡ u)
mark_injective [] [] r u h = (refl, cc)
mark_injective [] (d ∷ t) r u h = cc
mark_injective (c ∷ s) [] r u h = cc
mark_injective (c ∷ s) (d ∷ t) r u h =
    let (e, f) = mark_injective s t r u cc in let same : c ≡ d = cc in (cc, f)

marks_injective : (s t : List Str) → marks s ≡ marks t → s ≡ t
marks_injective [] [] h = refl
marks_injective [] ([] ∷ t) h = cc
marks_injective [] ((c ∷ s) ∷ t) h = cc
marks_injective ([] ∷ t) [] h = cc
marks_injective ((c ∷ s) ∷ t) [] h = cc
marks_injective (x ∷ s) (y ∷ t) h =
    let (e, f) = mark_injective x y (marks s) (marks t) h in let g = marks_injective s t f in cc

accessor_key_injective :
    (a b : FactorValueAccessor) → fmt.accessor_key a ≡ fmt.accessor_key b → a ≡ b
accessor_key_injective a b h =
    let (e, f) = mark_injective a.factor_code b.factor_code (marks a.steps) (marks b.steps) h in
    let g = marks_injective a.steps b.steps f in λ i. record { factor_code = e i; steps = g i }

key_injective : (v w : Value ℤ) → IsScalar v → IsScalar w → key_of v ≡ key_of w → v ≡ w
key_injective (Value.bool true) (Value.bool true) p q h = refl
key_injective (Value.bool false) (Value.bool false) p q h = refl
key_injective (Value.str s) (Value.str t) p q h = cc
key_injective (Value.int (pos m)) (Value.int (pos n)) p q h = cc
key_injective (Value.int (negsuc m)) (Value.int (negsuc n)) p q h = cc
key_injective (Value.int64 (pos m)) (Value.int64 (pos n)) p q h = cc
key_injective (Value.int64 (negsuc m)) (Value.int64 (negsuc n)) p q h = cc
key_injective v w p q h = ground arith

pub keys : KeysSound fmt IsScalar
keys = record {
  constants = key_injective;
  accessors = accessor_key_injective;
  strings = λ s. tt;
  bools = λ b. tt;
}

-- A factor `age` with the single output field `value`.
abbrev pub age : Str
age = bytes "age"

abbrev pub age_factor : FactorDefinition
age_factor = record {
  factor_code = age;
  factor_category = bytes "rpc";
  factor_type = bytes "online";
  input_schema = Schema.empty;
  output_schema =
      Schema.field (bytes "value")
        (FieldPtr.ref (FieldSchema.field_schema ValueType.int true Schema.empty FieldPtr.nil))
        Schema.empty;
  dependencies = [];
  config = record {
    idl_code = [];
    idl_version = pos 1;
    service = [];
    method = [];
    request_mapping = [];
    response_mapping = [];
  };
  published = true;
}

abbrev pub registry : FactorRegistry
registry = (age, some age_factor) ∷ []

abbrev pub age_ref : FactorRef
age_ref = record { factor_code = age; path_segments = []; is_default_value_ref = true }

abbrev pub number : ℕ → Expr ℤ
number n = Expr.literal (Value.int (pos n)) ValueType.int

abbrev pub rule : Expr ℤ
rule =
    Expr.binary BinaryOp.and
      (Expr.binary BinaryOp.ge (Expr.factor_ref age_ref)
        (Expr.binary BinaryOp.add (number 10) (number 8)))
      (Expr.literal (Value.bool true) ValueType.bool)

abbrev pub context : EvalContext ℤ
context = ValueMap.entry age (Value.int (pos 20)) ValueMap.empty

abbrev pub vm : BytecodeVm
vm = record { cancelled = λ n. false; max_steps = 100; max_stack_depth = 10 }

-- A jump to itself.
abbrev endless : BytecodeProgram ℤ
endless = record {
  instructions = instr OpCode.jump 0 ∷ [];
  constants = [];
  accessors = [];
  builtins = [];
  result_type = ValueType.bool;
}

abbrev pub or_else : {A : Type 0} → A → Outcome A → A
or_else d (ok a) = a
or_else d _ = d

abbrev pub no_expr : BoundExpr ℤ
no_expr = BoundExpr.literal Value.null ValueType.bool FieldPtr.nil

abbrev pub bound : BoundExpr ℤ
unfolding bind
bound = or_else no_expr (bind registry rule)

pub rule_bound : bind registry rule ≡ ok bound
unfolding bind bound
rule_bound = refl

abbrev pub folded : BoundExpr ℤ
unfolding optimize_bound_expr bound
folded = or_else no_expr (optimize_bound_expr bound)

pub bound_folded : optimize_bound_expr bound ≡ ok folded
unfolding optimize_bound_expr bound folded run_binary
bound_folded = refl

abbrev pub no_program : BytecodeProgram ℤ
no_program = record {
  instructions = [];
  constants = [];
  accessors = [];
  builtins = [];
  result_type = ValueType.bool;
}

abbrev pub program : BytecodeProgram ℤ
unfolding compile bound
program = or_else no_program (compile fmt bound)

pub bound_compiled : compile fmt bound ≡ ok program
unfolding compile bound program run_binary
bound_compiled = refl

program_run : vm_eval vm program context ≡ some (ok (Value.bool true))
unfolding vm_eval program bound run_binary
program_run = refl

vm_eval-compile_example :
    vm_eval vm program context ≡ some (recovered (bytes "bytecode_eval") (eval bound context))
unfolding bound folded program optimize_bound_expr compile eval run_binary eval_binary_op
vm_eval-compile_example =
    vm_eval-compile fmt IsScalar keys bound folded program vm context
      (bind-WellBound registry rule bound rule_bound) bound_folded ((tt, tt), tt) bound_compiled
      (
        (λ _ v h. subst IsBool (ok_injective h) tt),
        ((λ z v h. absurd z), tt, ((λ z v h. absurd z), tt, tt)),
        tt,
      )
      (λ n. refl) (omega arith) (omega arith)

eval-optimize_bound_expr_example :
    ((ctx : EvalContext ℤ) → eval folded ctx ≡ eval bound ctx) × WellBound folded
eval-optimize_bound_expr_example =
    eval-optimize_bound_expr bound folded bound_folded
      (bind-WellBound registry rule bound rule_bound)

vm_eval-returns_example :
    (r : Outcome (Value ℤ)) × (vm_eval vm endless context ≡ some r) × (r ≡ panic → ⊥)
vm_eval-returns_example = vm_eval-returns vm endless context

bind-WellBound_example : WellBound bound
bind-WellBound_example = bind-WellBound registry rule bound rule_bound

abbrev age_outputs : ValueMap ℤ
age_outputs = ValueMap.entry (bytes "value") (Value.int (pos 20)) ValueMap.empty

abbrev age_accessor : FactorValueAccessor
age_accessor = record { factor_code = age; steps = bytes "value" ∷ [] }

abbrev pub outputs_context : EvalContext ℤ
outputs_context = ValueMap.entry age (Value.object age_outputs) ValueMap.empty

arithmetic-InRange_example :
    InRange {D = ℤ}
      (arithmetic (Value.int64 (pos 9223372036854775807)) (Value.int (pos 1)) BinaryOp.add)
arithmetic-InRange_example =
    arithmetic-InRange (Value.int64 (pos 9223372036854775807)) (Value.int (pos 1)) BinaryOp.add

pub registry-Fits : Fits registry outputs_context
unfolding lookup lookup_factor schema_has_single_value_field
registry-Fits r factor found = elim (Bool-cases (str_eq age r.factor_code)) [
  | inl e ↦
      let same : some (some age_factor) ≡ some (some factor) = rw (lookup_factor, e) at found in
      let is_age : age_factor ≡ factor = cc in
      (
        age_outputs,
        rw (lookup, e) refl,
        (λ single. (Value.int (pos 20), refl)),
        (λ other. absurd (
            impossible (
              subst (λ f. schema_has_single_value_field f.output_schema ≡ false) (sym is_age)
                other))),
      )
  | inr e ↦ absurd (missing (rw (lookup_factor, e) at found))
]
  where
    missing : none ≡ some (some factor) → ⊥
    missing h = cc

    impossible : true ≡ false → ⊥
    impossible h = cc

eval-bind_example : eval bound outputs_context ≡ eval_expr rule outputs_context
eval-bind_example = eval-bind registry outputs_context registry-Fits rule bound rule_bound

abbrev valueless : EvalContext ℤ
valueless = ValueMap.entry age (Value.object ValueMap.empty) ValueMap.empty

-- On a map without the member `value` the two readings differ.
get-Reads_example :
    Reads {D = ℤ} []
      (Value.object ValueMap.empty)
      (get age_accessor valueless)
      (resolve_value valueless age_ref)
unfolding compile_factor_accessor lookup
get-Reads_example =
    get-Reads age_ref age_factor age_accessor valueless (Value.object ValueMap.empty) refl refl

-- The jump at 0 goes to 1 and is dropped; the one at 2 goes to 4, which is 3 then.
abbrev with_idle_jump : List Instruction
with_idle_jump =
    instr OpCode.jump 1
    ∷ instr OpCode.push_const 0
    ∷ instr OpCode.jump_if_false 4
    ∷ instr OpCode.push_const 1
    ∷ []

with_idle_jump_compacted :
    optimize_instructions with_idle_jump
    ≡ instr OpCode.push_const 0 ∷ instr OpCode.jump_if_false 3 ∷ instr OpCode.push_const 1 ∷ []
unfolding optimize_instructions
with_idle_jump_compacted = refl

optimize_instructions-Compacts_example :
    Compacts with_idle_jump (optimize_instructions with_idle_jump)
optimize_instructions-Compacts_example = optimize_instructions-Compacts with_idle_jump
