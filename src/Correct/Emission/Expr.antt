-- ===== src/Correct/Emission/Expr.antt =====
-- The code that `emitExpr` emits for an expression computes what the expression evaluates to.
use Prim.Native.Nat.{max}
use mathlib.Core.Path.{subst}
use mathlib.Core.List.{reverse_aux}
use risk_engine.Prelude.{
  ℕ, ◌+◌, ◌≡◌, refl, sym, ◌∙◌, ap, Bool, true, false, not, some, List, ◌∷◌, length, get_elem?,
  arith, Bool-cases, inl, inr, if◌then◌else◌,
}
use risk_engine.Outcome.{Outcome, ok, err, panic, ◌>>=◌, bind_assoc}
use risk_engine.Operators.{BinaryOp}
use risk_engine.Value.{Value, bool, list, object, ValueMap, values}
use risk_engine.Accessor.{EvalContext, FactorValueAccessor, get, or_null}
use risk_engine.Runtime.{Floats, truthy_bool}
use risk_engine.Evaluator.{eval_binary_op, run_binary, eval_operands, eval_conditional}
use risk_engine.Bound.{
  BoundExpr, list, BoundExprs, BoundEntries, args_length, entries_length, eval, eval_args,
  eval_entries, run_function,
}
use risk_engine.Bytecode.{OpCode, instr, Formatter}
use risk_engine.Bytecode.Emit.{
  Emission, append, append_interned, push_constant, intern_const, intern_accessor, intern_builtin,
  patch, binary_opcode,
}
use risk_engine.Bytecode.Peephole.{keeps}
use risk_engine.Bytecode.Vm.{exec_instruction, build_map, eval_binary_values}
use risk_engine.Correct.WellBound.{
  BoolOperands, BoolOperandsArgs, BoolOperandsEntries, NeedsBool, IsBool, function_name_of,
}
use risk_engine.Correct.Layout.{length-reverse_aux}
use risk_engine.Correct.Tables.{
  KeysSound, Indexed, intern_const-Interned, intern_accessor-Interned, intern_builtin-Interned,
}
use risk_engine.Correct.Needs.{
  stack_need, stack_need_args, stack_need_entries, stack_need-pos, args_length-le,
  entries_length-le, length-eval_args, entry_values, length-entry_values, eval_entries-build_map,
}
use risk_engine.Correct.Computes.{push_one}
use risk_engine.Correct.Branch.{Forks}
use risk_engine.Correct.Opcodes.{
  fetch_found, binary_opcode-BinaryCode, Forks-if_false, exec-call_builtin, exec-make_list,
  exec-make_map,
}
use risk_engine.Correct.Emission.{
  Emitted, Emitted-map, Emitted-weaken, Emitted-leaf, Emitted-finish, Emitted-seq,
}
use risk_engine.Correct.Emission.Branch.{Emitted-branch}

-- A Boolean is its own truth.
bool_result :
    {D : Type 0} (m : Outcome (Value D))
    → ((v : Value D) → m ≡ ok v → IsBool v)
    → m ≡ (m >>= λ v. ok (bool (truthy_bool v)))
unfolding truthy_bool
bool_result (ok (bool b)) h = refl
bool_result (ok v) h = elim (h v refl) [ ]
bool_result (err e) h = refl
bool_result panic h = refl

-- The way that is taken when the test fails comes first in the code.
swap_ways :
    {D : Type 0} (o first second : Outcome (Value D))
    → (o >>= λ v. if truthy_bool v then first else second)
      ≡ (o >>= λ v. if not (truthy_bool v) then second else first)
swap_ways (ok v) first second = elim (Bool-cases (truthy_bool v)) [
  | inl e ↦ rw e refl
  | inr e ↦ rw e refl
]
swap_ways (err e) first second = refl
swap_ways panic first second = refl

module _ {D : Type 0} ⦃fl : Floats D⦄ (fmt : Formatter D) (P : Value D → Type 0)
    (sound : KeysSound fmt P) where
  pub push_constant-Emitted :
      {Q : EvalContext D → Type 0} (v : Value D) (s : Emission D)
      → P v
      → Indexed fmt P s.compiler
      → Emitted fmt P s (push_constant fmt v s) 1 1 Q (λ _. ok v) push_one
  unfolding push_constant exec_instruction keeps
  push_constant-Emitted v s pv ix =
      let i = intern_const-Interned fmt P sound v s.compiler pv ix in
      Emitted-leaf fmt P s (push_constant fmt v s)
        (instr OpCode.push_const (intern_const fmt v s.compiler).1) refl i.indexed i.extends
        (λ _. refl)
        (λ p ctx stack tables. rw (fetch_found p.constants _ (tables.constants _ v i.found)) refl)

  pub load_factor-Emitted :
      {Q : EvalContext D → Type 0} (a : FactorValueAccessor) (s : Emission D)
      → Indexed fmt P s.compiler
      → Emitted fmt P s
          (append_interned OpCode.load_factor 0 (intern_accessor fmt a s.compiler) s)
          1
          1
          Q
          (λ ctx. ok (or_null (get a ctx)))
          push_one
  unfolding append_interned exec_instruction keeps
  load_factor-Emitted a s ix =
      let i = intern_accessor-Interned fmt P sound a s.compiler ix in
      Emitted-leaf fmt P s _ (instr OpCode.load_factor (intern_accessor fmt a s.compiler).1) refl
        i.indexed i.extends (λ _. refl)
        (λ p ctx stack tables. rw (fetch_found p.accessors _ (tables.accessors _ a i.found)) refl)

  -- An operator that evaluates both operands.
  pub strict-Emitted :
      {s s₁ s₂ : Emission D} (l r : BoundExpr D) (op : BinaryOp) (code : OpCode)
      → binary_opcode op ≡ ok code
      → Emitted fmt P s s₁ (stack_need l) 1 (BoolOperands l) (eval l) push_one
      → Emitted fmt P s₁ s₂ (stack_need r) 1 (BoolOperands r) (eval r) push_one
      → Emitted fmt P s
          (append (instr code 0) s₂)
          (max 1 (max (stack_need l) (1 + stack_need r)))
          1
          (λ ctx. BoolOperands l ctx × BoolOperands r ctx)
          (λ ctx. run_binary (eval_binary_op op) (eval l ctx) (eval r ctx))
          push_one
  unfolding append eval_operands
  strict-Emitted {s} {s₁} {s₂} l r op code known el er =
      let facts = binary_opcode-BinaryCode D op known in
      let pair : Value D → Value D → Value D × Value D = λ a b. (a, b) in
      let push : Value D × Value D → List (Value D) → List (Value D) =
        λ ab stack. ab.1 ∷ ab.0 ∷ stack in
      Emitted-map fmt P
        (Emitted-finish fmt P (append (instr code 0) s₂) (instr code 0)
          (λ ab. eval_binary_values code ab.0 ab.1)
          (Emitted-seq fmt P 1 pair push el er (λ a stack. omega arith) (λ a b stack. refl)) refl
          er.indexed (λ p h. h) (λ i. facts.plain i 0 0)
          (λ ctx ab stack e. omega (arith, stack_need-pos r))
          (λ p ctx ab stack tables e. facts.exec p ctx ab.0 ab.1 stack))
        (λ ctx q. (q, facts.meaning (eval l ctx) (eval r ctx)))

  -- `&&` and `||`: the right operand is the value, when it decides.
  pub short_circuit-Emitted :
      {s s₁ s₂ : Emission D} (l r : BoundExpr D) (op : BinaryOp) (fork : OpCode) (short : Bool)
      (test : Value D → Bool)
      → Forks fork test
      → ((i target : ℕ) → keeps i (instr fork target) ≡ true)
      → NeedsBool op
      → ((o : Outcome (Value D)) (m : Outcome (Value D))
          → m ≡ (m >>= λ v. ok (bool (truthy_bool v)))
          → run_binary (eval_binary_op op) o m ≡ (o >>= λ v. if test v then ok (bool short) else m))
      → Emitted fmt P s s₁ (stack_need l) 1 (BoolOperands l) (eval l) push_one
      → Emitted fmt P
          (append (instr fork 0) s₁)
          s₂
          (stack_need r)
          1
          (BoolOperands r)
          (eval r)
          push_one
      → Emitted fmt P s
          (patch (length s₂.instructions) (
            push_constant fmt
              (bool short)
              (patch (length s₁.instructions) (append (instr OpCode.jump 0) s₂))))
          (max 1 (max (stack_need l) (1 + stack_need r)))
          1
          (λ ctx.
            (NeedsBool op → (v : Value D) → eval r ctx ≡ ok v → IsBool v)
            × BoolOperands l ctx
            × BoolOperands r ctx)
          (λ ctx. run_binary (eval_binary_op op) (eval l ctx) (eval r ctx))
          push_one
  unfolding append patch
  short_circuit-Emitted {s} {s₁} {s₂} l r op fork short test forks plain needs meaning el er =
      Emitted-map fmt P
        (Emitted-weaken fmt P
          (Emitted-branch fmt P fork test forks (λ target i. plain i target) el er
            (push_constant-Emitted {Q = λ _. Unit} (bool short)
              (patch (length s₁.instructions) (append (instr OpCode.jump 0) s₂)) (sound.bools short)
              er.indexed))
          (omega arith) (omega arith))
        (λ ctx q. (
          (q.1, q.2, tt),
          meaning (eval l ctx) (eval r ctx) (bool_result (eval r ctx) (q.0 needs)),
        ))

  pub and_meaning :
      (o m : Outcome (Value D))
      → m ≡ (m >>= λ v. ok (bool (truthy_bool v)))
      → run_binary (eval_binary_op BinaryOp.and) o m
        ≡ (o >>= λ v. if not (truthy_bool v) then ok (bool false) else m)
  unfolding run_binary eval_binary_op
  and_meaning (ok v) m e = elim (Bool-cases (truthy_bool v)) [
    | inl t ↦ rw t (sym e)
    | inr t ↦ rw t refl
  ]
  and_meaning (err x) m e = refl
  and_meaning panic m e = refl

  pub or_meaning :
      (o m : Outcome (Value D))
      → m ≡ (m >>= λ v. ok (bool (truthy_bool v)))
      → run_binary (eval_binary_op BinaryOp.or) o m
        ≡ (o >>= λ v. if truthy_bool v then ok (bool true) else m)
  unfolding run_binary eval_binary_op
  or_meaning (ok v) m e = elim (Bool-cases (truthy_bool v)) [
    | inl t ↦ rw t refl
    | inr t ↦ rw t (sym e)
  ]
  or_meaning (err x) m e = refl
  or_meaning panic m e = refl

  pub plain_if_false : (i target : ℕ) → keeps i (instr OpCode.jump_if_false target) ≡ true
  unfolding keeps
  plain_if_false i target = refl

  pub plain_if_true : (i target : ℕ) → keeps i (instr OpCode.jump_if_true target) ≡ true
  unfolding keeps
  plain_if_true i target = refl

  pub conditional-Emitted :
      {s s₁ s₂ s₃ : Emission D} (c a b : BoundExpr D)
      → Emitted fmt P s s₁ (stack_need c) 1 (BoolOperands c) (eval c) push_one
      → Emitted fmt P
          (append (instr OpCode.jump_if_false 0) s₁)
          s₂
          (stack_need a)
          1
          (BoolOperands a)
          (eval a)
          push_one
      → Emitted fmt P
          (patch (length s₁.instructions) (append (instr OpCode.jump 0) s₂))
          s₃
          (stack_need b)
          1
          (BoolOperands b)
          (eval b)
          push_one
      → Emitted fmt P s
          (patch (length s₂.instructions) s₃)
          (max 1 (max (stack_need c) (max (stack_need a) (stack_need b))))
          1
          (λ ctx. BoolOperands c ctx × BoolOperands a ctx × BoolOperands b ctx)
          (λ ctx. eval_conditional (eval c ctx) (eval a ctx) (eval b ctx))
          push_one
  unfolding eval_conditional
  conditional-Emitted c a b ec ea eb =
      Emitted-map fmt P
        (Emitted-branch fmt P OpCode.jump_if_false (λ v. not (truthy_bool v)) (Forks-if_false D)
          (λ target i. plain_if_false i target) ec ea eb)
        (λ ctx q. (q, swap_ways (eval c ctx) (eval a ctx) (eval b ctx)))

  abbrev pub ArgsEmitted : Emission D → Emission D → BoundExprs D → Type 0
  ArgsEmitted s s' es =
      Emitted fmt P s s' (stack_need_args es) 0 (BoolOperandsArgs es) (eval_args es) reverse_aux

  pub call-Emitted :
      {s s₁ : Emission D} (name : _) (ev : _) (args : BoundExprs D)
      → name ≡ function_name_of ev
      → ArgsEmitted s s₁ args
      → Emitted fmt P s
          (append_interned OpCode.call_builtin
            (args_length args)
            (intern_builtin name s₁.compiler)
            s₁)
          (max 1 (stack_need_args args))
          1
          (BoolOperandsArgs args)
          (λ ctx. eval_args args ctx >>= run_function ev)
          push_one
  unfolding append_interned keeps
  call-Emitted {s} {s₁} name ev args same ea =
      let i = intern_builtin-Interned fmt P name s₁.compiler ea.indexed in
      Emitted-finish fmt P _ _ (run_function ev) ea refl i.indexed i.extends (λ _. refl)
        (λ ctx vs stack e.
          omega
            (arith, length-reverse_aux vs stack, length-eval_args args ctx e, args_length-le args))
        (λ p ctx vs stack tables e.
          exec-call_builtin D p ctx _ (args_length args) ev vs stack
            (subst (λ f. get_elem? p.builtins (intern_builtin name s₁.compiler).1 ≡ some f) same
              (tables.builtins _ name i.found))
            (length-eval_args args ctx e))

  pub list-Emitted :
      {s s₁ : Emission D} (es : BoundExprs D)
      → ArgsEmitted s s₁ es
      → Emitted fmt P s
          (append (instr OpCode.make_list (args_length es)) s₁)
          (max 1 (stack_need_args es))
          1
          (BoolOperandsArgs es)
          (λ ctx. eval_args es ctx >>= λ vs. ok (list (values vs)))
          push_one
  unfolding append keeps
  list-Emitted {s} {s₁} es ea =
      Emitted-finish fmt P _ _ (λ vs. ok (list (values vs))) ea refl ea.indexed (λ p h. h)
        (λ _. refl)
        (λ ctx vs stack e.
          omega (arith, length-reverse_aux vs stack, length-eval_args es ctx e, args_length-le es))
        (λ p ctx vs stack tables e.
          exec-make_list D p ctx (args_length es) vs stack (length-eval_args es ctx e))

  pub map-Emitted :
      {s s₁ : Emission D} (es : BoundEntries D)
      → Emitted fmt P s s₁
          (stack_need_entries es)
          0
          (BoolOperandsEntries es)
          (entry_values es)
          reverse_aux
      → Emitted fmt P s
          (append (instr OpCode.make_map (entries_length es)) s₁)
          (max 1 (stack_need_entries es))
          1
          (BoolOperandsEntries es)
          (λ ctx. eval_entries es ctx ValueMap.empty >>= λ m. ok (object m))
          push_one
  unfolding append keeps
  map-Emitted {s} {s₁} es ea =
      Emitted-map fmt P
        (Emitted-finish fmt P _ _ (λ vs. build_map vs ValueMap.empty >>= λ m. ok (object m)) ea refl
          ea.indexed (λ p h. h) (λ _. refl)
          (λ ctx vs stack e. omega (
            arith,
            length-reverse_aux vs stack,
            length-entry_values es ctx e,
            entries_length-le es,
          ))
          (λ p ctx vs stack tables e.
            exec-make_map D p ctx (entries_length es) vs stack (length-entry_values es ctx e)))
        (λ ctx q. (
          q,
          ap (λ o. o >>= λ m. ok (object m)) (eval_entries-build_map es ctx ValueMap.empty)
              ∙ bind_assoc (entry_values es ctx) (λ vs. build_map vs ValueMap.empty)
                  (λ m. ok (object m)),
        ))
