-- ===== src/Bytecode/Vm.antt =====
-- factorengine/bytecode.go: the machine. The stack is a list with its top first. `Context.Err()` is
-- asked once before each instruction: the model takes the answers as a function of their number.
use risk_engine.Prelude.{
  ℕ, zero, suc, ◌*◌, Bool, true, not, Option, none, some, List, [], ◌∷◌, Str, bytes, ltb, leb,
  length, get_elem?, take, drop, if◌then◌else◌,
}
use risk_engine.Prelude.Int.{ℤ, pos, negsuc}
use mathlib.Core.List.{reverse}
use risk_engine.Outcome.{
  Outcome, ok, err, panic, ◌>>=◌, error_of, error_at, expression_invalid, type_mismatch,
  execution_budget, execution_cancelled, internal_panic, unsupported_operator,
}
use risk_engine.Operators.{BinaryOp, UnaryOp}
use risk_engine.Value.{Value, bool, str, list, object, ValueMap, values, insert}
use risk_engine.Accessor.{EvalContext, get, or_null}
use risk_engine.Runtime.{
  Floats, truthy_bool, eval_unary_value, ordered_compare, equality_compare, arithmetic,
  eval_builtin_values,
}
use risk_engine.Bytecode.{OpCode, Instruction, BytecodeProgram}

pub record BytecodeVmConfig : Type 0 where
  pub cancelled : ℕ → Bool
  pub max_steps : ℤ
  pub max_stack_depth : ℤ

-- The configuration with its defaults filled in.
pub record BytecodeVm : Type 0 where
  pub cancelled : ℕ → Bool
  pub max_steps : ℕ
  pub max_stack_depth : ℕ

abbrev default_max_steps : ℕ
default_max_steps = 10000

abbrev default_max_stack_depth : ℕ
default_max_stack_depth = 1024

-- A limit that is not positive is the default.
abbrev or_default : ℤ → ℕ → ℕ
or_default (pos zero) d = d
or_default (pos (suc n)) d = suc n
or_default (negsuc n) d = d

unfoldable pub new_bytecode_vm_with_config : BytecodeVmConfig → BytecodeVm
new_bytecode_vm_with_config config = record {
  cancelled = config.cancelled;
  max_steps = or_default config.max_steps default_max_steps;
  max_stack_depth = or_default config.max_stack_depth default_max_stack_depth;
}

unfoldable pub check_execution_limits : BytecodeVm → ℕ → ℕ → Outcome (Unit {0})
check_execution_limits vm executed stack_depth =
    if vm.cancelled executed
    then err (error_of execution_cancelled)
    else if leb vm.max_steps executed
    then err (error_at execution_budget (bytes "steps"))
    else if ltb vm.max_stack_depth stack_depth
    then err (error_at execution_budget (bytes "stack"))
    else ok tt

unfoldable pub validate_jump_target : ℕ → ℕ → Outcome (Unit {0})
validate_jump_target target count =
    if ltb count target then err (error_at expression_invalid (bytes "jump")) else ok tt

abbrev pub invalid {ℓ} : {A : Type ℓ} → Outcome A
invalid = err (error_of expression_invalid)

-- `program.Constants[i]` and the like, with the check of the index.
unfoldable pub fetch {ℓ} : {A : Type ℓ} → List A → ℕ → Outcome A
fetch table i = elim (get_elem? table i) [ none ↦ invalid | some a ↦ ok a ]

unfoldable pub pop : {D : Type 0} → List (Value D) → Outcome (Value D × List (Value D))
pop [] = invalid
pop (v ∷ stack) = ok (v, stack)

-- The last `n` entries, in the order in which they were pushed, and the stack without them.
unfoldable pub pop_many :
    {D : Type 0} → ℕ → List (Value D) → Outcome (List (Value D) × List (Value D))
pop_many n stack =
    if ltb (length stack) n then invalid else ok (reverse (take n stack), drop n stack)

-- The loop of MAKE_MAP over keys and values.
unfoldable pub build_map : {D : Type 0} → List (Value D) → ValueMap D → Outcome (ValueMap D)
unfolding insert
build_map [] m = ok m
build_map (str k ∷ v ∷ rest) m = build_map rest (insert k v m)
build_map (str k ∷ []) m = panic
build_map (_ ∷ rest) m = err (error_of type_mismatch)

-- Where an instruction leaves the machine: the stack, and the target of a jump that was taken.
abbrev pub Effect : Type 0 → Type 0
Effect D = List (Value D) × Option ℕ

module _ {D : Type 0} ⦃fl : Floats D⦄ where
  unfoldable pub eval_binary_values : OpCode → Value D → Value D → Outcome (Value D)
  unfolding ordered_compare equality_compare arithmetic
  eval_binary_values op left right =
      let compared : BinaryOp → Outcome (Value D) =
        λ o. ordered_compare left right o >>= λ b. ok (bool b) in
      elim op [
        | OpCode.binary_lt ↦ compared BinaryOp.lt
        | OpCode.binary_le ↦ compared BinaryOp.le
        | OpCode.binary_gt ↦ compared BinaryOp.gt
        | OpCode.binary_ge ↦ compared BinaryOp.ge
        | OpCode.binary_eq ↦ ok (bool (equality_compare left right))
        | OpCode.binary_ne ↦ ok (bool (not (equality_compare left right)))
        | OpCode.binary_add ↦ arithmetic left right BinaryOp.add
        | OpCode.binary_sub ↦ arithmetic left right BinaryOp.sub
        | OpCode.binary_mul ↦ arithmetic left right BinaryOp.mul
        | OpCode.binary_div ↦ arithmetic left right BinaryOp.div
        | _ ↦ err (error_of unsupported_operator)
      ]

  unary_instruction : UnaryOp → List (Value D) → Outcome (Effect D)
  unfolding pop eval_unary_value
  unary_instruction op stack = do
    (v, rest) ← pop stack
    result ← eval_unary_value op v
    ok (result ∷ rest, none)

  binary_instruction : OpCode → List (Value D) → Outcome (Effect D)
  unfolding pop eval_binary_values
  binary_instruction op stack = do
    (right, s₁) ← pop stack
    (left, s₂) ← pop s₁
    result ← eval_binary_values op left right
    ok (result ∷ s₂, none)

  -- The three jumps, by whether the jump is taken.
  jump_instruction : BytecodeProgram D → Bool → ℕ → List (Value D) → Outcome (Effect D)
  unfolding validate_jump_target
  jump_instruction p taken target stack =
      if taken
      then (validate_jump_target target (length p.instructions) >>= λ _. ok (stack, some target))
      else ok (stack, none)

  -- The switch over the opcode of an instruction.
  unfoldable pub exec_instruction :
      BytecodeProgram D → EvalContext D → OpCode → ℕ → ℕ → List (Value D) → Outcome (Effect D)
  unfolding unary_instruction binary_instruction jump_instruction fetch pop pop_many build_map
      truthy_bool get eval_builtin_values
  exec_instruction p ctx OpCode.push_const arg aux stack = do
    v ← fetch p.constants arg
    ok (v ∷ stack, none)
  exec_instruction p ctx OpCode.load_factor arg aux stack = do
    a ← fetch p.accessors arg
    ok (or_null (get a ctx) ∷ stack, none)
  exec_instruction p ctx OpCode.make_list arg aux stack = do
    (vs, rest) ← pop_many arg stack
    ok (list (values vs) ∷ rest, none)
  exec_instruction p ctx OpCode.make_map arg aux stack = do
    (vs, rest) ← pop_many (arg * 2) stack
    m ← build_map vs ValueMap.empty
    ok (object m ∷ rest, none)
  exec_instruction p ctx OpCode.unary_not arg aux stack = unary_instruction UnaryOp.not stack
  exec_instruction p ctx OpCode.unary_neg arg aux stack = unary_instruction UnaryOp.neg stack
  exec_instruction p ctx OpCode.jump_if_false arg aux stack = do
    (v, rest) ← pop stack
    jump_instruction p (not (truthy_bool v)) arg rest
  exec_instruction p ctx OpCode.jump_if_true arg aux stack = do
    (v, rest) ← pop stack
    jump_instruction p (truthy_bool v) arg rest
  exec_instruction p ctx OpCode.jump arg aux stack = jump_instruction p true arg stack
  exec_instruction p ctx OpCode.call_builtin arg aux stack = do
    name ← fetch p.builtins arg
    (args, rest) ← pop_many aux stack
    result ← eval_builtin_values name args
    ok (result ∷ rest, none)
  exec_instruction p ctx (OpCode.unknown n) arg aux stack = invalid
  exec_instruction p ctx op arg aux stack = binary_instruction op stack

-- `recover` in a deferred function, at the place that it names.
unfoldable pub recovered {ℓ} : {A : Type ℓ} → Str → Outcome A → Outcome A
recovered place (ok a) = ok a
recovered place (err e) = err e
recovered place panic = err (error_at internal_panic place)

-- The variables of the loop of `evalSafe`.
pub record State (D : Type 0) : Type 0 where
  pub ip : ℕ
  pub stack : List (Value D)
  pub executed : ℕ

abbrev pub state : {D : Type 0} → ℕ → List (Value D) → ℕ → State D
state ip stack executed = record { ip = ip; stack = stack; executed = executed }

-- What one round of the loop comes to.
pub data Round (D : Type 0) : Type 0 where
  stop : Outcome (Value D) → Round D
  continue : State D → Round D

-- Behind the loop: the one value that is left.
unfoldable pub finish : {D : Type 0} → List (Value D) → Outcome (Value D)
finish (v ∷ []) = ok v
finish _ = invalid

-- The end of a round: a jump goes to its target at once, and other instructions have the depth of
-- the stack checked before the next one.
unfoldable pub advance : {D : Type 0} → BytecodeVm → ℕ → ℕ → Outcome (Effect D) → Round D
advance vm ip executed (ok (stack, some target)) = continue (state target stack executed)
advance vm ip executed (ok (stack, none)) =
    if ltb vm.max_stack_depth (length stack)
    then stop (err (error_at execution_budget (bytes "stack")))
    else continue (state (suc ip) stack executed)
advance vm ip executed (err e) = stop (err e)
advance vm ip executed panic = stop panic

module _ {D : Type 0} ⦃fl : Floats D⦄ where
  -- A round on an instruction, when the limits have been checked.
  execute :
      BytecodeVm
      → BytecodeProgram D
      → EvalContext D
      → State D
      → Instruction
      → Outcome (Unit {0})
      → Round D
  unfolding advance exec_instruction
  execute vm p ctx s inst (ok _) =
      advance vm s.ip (suc s.executed) (exec_instruction p ctx inst.op inst.arg inst.aux s.stack)
  execute vm p ctx s inst (err e) = stop (err e)
  execute vm p ctx s inst panic = stop panic

  unfoldable pub round : BytecodeVm → BytecodeProgram D → EvalContext D → State D → Round D
  unfolding execute check_execution_limits finish
  round vm p ctx s = elim (get_elem? p.instructions s.ip) [
    | none ↦ stop (finish s.stack)
    | some inst ↦ execute vm p ctx s inst (check_execution_limits vm s.executed (length s.stack))
  ]

  -- The loop, on fuel.
  unfoldable pub run :
      ℕ → BytecodeVm → BytecodeProgram D → EvalContext D → State D → Option (Outcome (Value D))
  unfolding round
  run zero vm p ctx s = none
  run (suc fuel) vm p ctx s = elim (round vm p ctx s) [
    | stop r ↦ some r
    | continue s' ↦ run fuel vm p ctx s'
  ]

  -- `BytecodeVM.Eval`. One round more than the allowed steps is enough fuel.
  unfoldable pub vm_eval :
      BytecodeVm → BytecodeProgram D → EvalContext D → Option (Outcome (Value D))
  unfolding run recovered
  vm_eval vm p ctx = elim (run (suc vm.max_steps) vm p ctx (state 0 [] 0)) [
    | none ↦ none
    | some r ↦ some (recovered (bytes "bytecode_eval") r)
  ]
