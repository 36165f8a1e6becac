-- ===== src/Correct/Compiling.antt =====
-- From the text of a rule to the value that the machine gives.
use risk_engine.Prelude.{ℕ, ◌≤◌, ◌≡◌, sym, ◌∙◌, ap, false, Option, none, some, length, Str, bytes}
use risk_engine.Outcome.{Outcome, ok, bind-eq-ok}
use risk_engine.Schema.{FactorRegistry}
use risk_engine.Value.{Value}
use risk_engine.Accessor.{EvalContext}
use risk_engine.Runtime.{Floats}
use risk_engine.Expr.{Expr}
use risk_engine.Evaluator.{eval_expr}
use risk_engine.Bound.{BoundExpr, result_type}
use risk_engine.Binder.{bind}
use risk_engine.Parser.Grammar.{Decimals, parse}
use risk_engine.Bytecode.{Formatter}
use risk_engine.Bytecode.Fold.{optimize_bound_expr}
use risk_engine.Bytecode.Compile.{compile}
use risk_engine.Bytecode.Vm.{BytecodeVm, vm_eval, recovered}
use risk_engine.Compiler.{CompiledExpr, then_do, bind_string, compile_rule}
use risk_engine.Correct.WellBound.{BoolOperands, ConstantsIn}
use risk_engine.Correct.Opcodes.{ok_injective}
use risk_engine.Correct.Needs.{stack_need}
use risk_engine.Correct.Tables.{KeysSound}
use risk_engine.Correct.Agreement.{Fits, eval-bind}
use risk_engine.Correct.Binding.{bind-WellBound}
use risk_engine.Correct.Program.{vm_eval-compile}

some_injective : {A : Type 0} {a b : A} → some a ≡ some b → a ≡ b
some_injective h = cc

then_do-eq-ok :
    {A B : Type 0} (m : Option (Outcome A)) (f : A → Outcome B) {b : B}
    → then_do m f ≡ some (ok b)
    → (a : A) × (m ≡ some (ok a)) × (f a ≡ ok b)
then_do-eq-ok none f h = cc
then_do-eq-ok (some m) f h = let (a, e, g) = bind-eq-ok m f (some_injective h) in (a, ap some e, g)

module _ {D : Type 0} ⦃fl : Floats D⦄ (decimals : Decimals D) (fmt : Formatter D) where
  -- A compilation that succeeds, when the tree and the bound tree are known.
  compiled_program :
      (registry : FactorRegistry) (raw : Str) (e : Expr D) (b : BoundExpr D) (c : CompiledExpr D)
      → parse decimals raw ≡ some (ok e)
      → bind registry e ≡ ok b
      → compile_rule decimals fmt raw registry ≡ some (ok c)
      → (compile fmt b ≡ ok c.bytecode) × (c.result_type ≡ result_type b)
  unfolding compile_rule bind_string
  compiled_program registry raw e b c parsed bound made =
      let run = (rw (compile_rule, bind_string, parsed, bound) at made) in
      let (p, compiled, same) = bind-eq-ok (compile fmt b) _ (some_injective run) in
      let whole = ok_injective same in
      (compiled ∙ ap (λ x. ok x.bytecode) whole, ap (λ x. x.result_type) (sym whole))

  -- When the text of a rule parses, binds and compiles, the machine on the program returns what the
  -- evaluator gives for the tree of the text, a recovered panic included. It takes a context that fits the
  -- registry and in which the right operands of `&&` and `||` have Boolean values, keys that tell the
  -- constants of the folded expression apart, a run that is not cancelled, and limits that leave a step for
  -- each instruction and the room on the stack that the expression needs.
  pub vm_eval-compile_rule :
      (P : Value D → Type 0) (sound : KeysSound fmt P) (registry : FactorRegistry) (raw : Str)
      (e : Expr D) (b b' : BoundExpr D) (c : CompiledExpr D) (vm : BytecodeVm) (ctx : EvalContext D)
      → parse decimals raw ≡ some (ok e)
      → bind registry e ≡ ok b
      → optimize_bound_expr b ≡ ok b'
      → compile_rule decimals fmt raw registry ≡ some (ok c)
      → Fits registry ctx
      → ConstantsIn P b'
      → BoolOperands b ctx
      → ((n : ℕ) → vm.cancelled n ≡ false)
      → length c.bytecode.instructions ≤ vm.max_steps
      → stack_need b' ≤ vm.max_stack_depth
      → vm_eval vm c.bytecode ctx ≡ some (recovered (bytes "bytecode_eval") (eval_expr e ctx))
  vm_eval-compile_rule P sound registry raw e b b' c vm ctx parsed bound fold made fits constants
        bools calm steps room =
      vm_eval-compile fmt P sound b b' c.bytecode vm ctx (bind-WellBound registry e b bound) fold
        constants (compiled_program registry raw e b c parsed bound made).0 bools calm steps room
      ∙ ap (λ r. some (recovered (bytes "bytecode_eval") r)) (eval-bind registry ctx fits e b bound)
