-- ===== src/Correct/Opcodes.antt =====
-- What each instruction of a compiled operator does, beside the evaluator of the operator.
use mathlib.Core.Path.{subst}
use mathlib.Core.List.{reverse_aux}
use risk_engine.Prelude.{
  ℕ, ◌*◌, ◌≡◌, refl, sym, true, not, none, some, List, ◌∷◌, length, get_elem?, le→ltb, Bool-cases,
  inl, inr,
}
use risk_engine.Outcome.{Outcome, ok, ◌>>=◌, bind_assoc}
use risk_engine.Operators.{BinaryOp, UnaryOp}
use risk_engine.Value.{Value, list, object, ValueMap, values}
use risk_engine.Accessor.{EvalContext}
use risk_engine.Runtime.{Floats, truthy_bool, eval_builtin_values}
use risk_engine.Evaluator.{eval_binary_op, run_binary, eval_operands}
use risk_engine.Bound.{UnaryEvaluator, FunctionEvaluator, run_unary, run_function}
use risk_engine.Bytecode.{OpCode, BytecodeProgram}
use risk_engine.Bytecode.Emit.{unary_opcode, binary_opcode}
use risk_engine.Bytecode.Peephole.{keeps}
use risk_engine.Bytecode.Vm.{exec_instruction, eval_binary_values, build_map, fetch}
use risk_engine.Correct.WellBound.{unary_op_of, function_name_of}
use risk_engine.Correct.Layout.{pop_many-reverse_aux}
use risk_engine.Correct.Branch.{Forks}

pub ok_injective {ℓ} : {A : Type ℓ} {a b : A} → ok a ≡ ok b → a ≡ b
ok_injective e = cc

pub fetch_found {ℓ} :
    {A : Type ℓ} (table : List A) (i : ℕ) {a : A}
    → get_elem? table i ≡ some a
    → fetch table i ≡ ok a
unfolding fetch
fetch_found table i h = rw (h, fetch) refl

-- An opcode that is no jump.
abbrev pub StaysPut : OpCode → Type 0
StaysPut op = (i arg aux : ℕ) → keeps i (record { op = op; arg = arg; aux = aux }) ≡ true

module _ (D : Type 0) ⦃fl : Floats D⦄ where
  run_function_lem :
      (ev : FunctionEvaluator) (vs : List (Value D))
      → eval_builtin_values (function_name_of ev) vs ≡ run_function ev vs
  unfolding run_function
  run_function_lem FunctionEvaluator.eval_func_is_empty vs = refl
  run_function_lem _ vs = refl

  pub record UnaryCode (code : OpCode) (ev : UnaryEvaluator) : Type 0 where
    pub plain : StaysPut code
    pub exec :
        (p : BytecodeProgram D) (ctx : EvalContext D) (v : Value D) (stack : List (Value D))
        → exec_instruction p ctx code 0 0 (v ∷ stack)
          ≡ (run_unary ev v >>= λ w. ok (w ∷ stack, none))

  pub unary_opcode-UnaryCode :
      (op : UnaryOp) (ev : UnaryEvaluator) {code : OpCode}
      → unary_opcode op ≡ ok code
      → op ≡ unary_op_of ev
      → UnaryCode code ev
  unfolding unary_opcode exec_instruction run_unary keeps
  unary_opcode-UnaryCode UnaryOp.not UnaryEvaluator.eval_not h e =
      subst (λ c. UnaryCode c UnaryEvaluator.eval_not) (ok_injective h)
        (record { plain = λ i arg aux. refl; exec = λ p ctx v stack. refl })
  unary_opcode-UnaryCode UnaryOp.neg UnaryEvaluator.eval_negate h e =
      subst (λ c. UnaryCode c UnaryEvaluator.eval_negate) (ok_injective h)
        (record { plain = λ i arg aux. refl; exec = λ p ctx v stack. refl })
  unary_opcode-UnaryCode UnaryOp.not UnaryEvaluator.eval_negate h e = cc
  unary_opcode-UnaryCode UnaryOp.neg UnaryEvaluator.eval_not h e = cc
  unary_opcode-UnaryCode (UnaryOp.other s) ev h e = cc

  pub record BinaryCode (code : OpCode) (op : BinaryOp) : Type 0 where
    pub plain : StaysPut code
    pub meaning :
        (left right : Outcome (Value D))
        → run_binary (eval_binary_op op) left right
          ≡ (eval_operands left right >>= λ lr. eval_binary_values code lr.0 lr.1)
    pub exec :
        (p : BytecodeProgram D) (ctx : EvalContext D) (l r : Value D) (stack : List (Value D))
        → exec_instruction p ctx code 0 0 (r ∷ l ∷ stack)
          ≡ (eval_binary_values code l r >>= λ w. ok (w ∷ stack, none))

  pub binary_opcode-BinaryCode :
      (op : BinaryOp) {code : OpCode} → binary_opcode op ≡ ok code → BinaryCode code op
  unfolding binary_opcode exec_instruction run_binary eval_binary_op eval_operands
      eval_binary_values keeps
  binary_opcode-BinaryCode BinaryOp.and h = cc
  binary_opcode-BinaryCode BinaryOp.or h = cc
  binary_opcode-BinaryCode (BinaryOp.other s) h = cc
  binary_opcode-BinaryCode op h =
      subst (λ c. BinaryCode c op) (ok_injective h)
        (record {
          plain = λ i arg aux. refl;
          meaning = λ l r. refl;
          exec = λ p ctx l r stack. refl;
        })

  pub Forks-if_false : Forks {D = D} OpCode.jump_if_false (λ v. not (truthy_bool v))
  unfolding exec_instruction
  Forks-if_false = record {
    exec = λ p ctx target v stack h. elim (Bool-cases (truthy_bool v)) [
      | inl e ↦ rw e refl
      | inr e ↦ rw (e, le→ltb (length p.instructions) target h) refl
    ];
  }

  pub Forks-if_true : Forks {D = D} OpCode.jump_if_true truthy_bool
  unfolding exec_instruction
  Forks-if_true = record {
    exec = λ p ctx target v stack h. elim (Bool-cases (truthy_bool v)) [
      | inl e ↦ rw (e, le→ltb (length p.instructions) target h) refl
      | inr e ↦ rw e refl
    ];
  }

  -- A call takes its arguments off the stack and runs the evaluator of its name.
  pub exec-call_builtin :
      (p : BytecodeProgram D) (ctx : EvalContext D) (i n : ℕ) (ev : FunctionEvaluator)
      (vs stack : List (Value D))
      → get_elem? p.builtins i ≡ some (function_name_of ev)
      → length vs ≡ n
      → exec_instruction p ctx OpCode.call_builtin i n (reverse_aux vs stack)
        ≡ (run_function ev vs >>= λ w. ok (w ∷ stack, none))
  unfolding exec_instruction
  exec-call_builtin p ctx i n ev vs stack found size =
      rw
        (
          fetch_found p.builtins i found,
          pop_many-reverse_aux vs stack n size,
          run_function_lem ev vs,
        )
        refl

  pub exec-make_list :
      (p : BytecodeProgram D) (ctx : EvalContext D) (n : ℕ) (vs stack : List (Value D))
      → length vs ≡ n
      → exec_instruction p ctx OpCode.make_list n 0 (reverse_aux vs stack)
        ≡ ok (list (values vs) ∷ stack, none)
  unfolding exec_instruction
  exec-make_list p ctx n vs stack size = rw (pop_many-reverse_aux vs stack n size) refl

  pub exec-make_map :
      (p : BytecodeProgram D) (ctx : EvalContext D) (n : ℕ) (vs stack : List (Value D))
      → length vs ≡ n * 2
      → exec_instruction p ctx OpCode.make_map n 0 (reverse_aux vs stack)
        ≡ ((build_map vs ValueMap.empty >>= λ m. ok (object m)) >>= λ w. ok (w ∷ stack, none))
  unfolding exec_instruction
  exec-make_map p ctx n vs stack size = rw (pop_many-reverse_aux vs stack (n * 2) size) (
      sym
        (bind_assoc (build_map vs ValueMap.empty) (λ m. ok (object m)) (λ w. ok (w ∷ stack, none))))
