-- ===== src/Compiler.antt =====
-- factorengine/compiler.go and `BindString` of binder.go: from the text of a rule to a program. `none` is
-- a lack of fuel in the parser or in the machine.
use risk_engine.Prelude.{Option, none, some, false, Str}
use risk_engine.Prelude.Int.{pos}
use risk_engine.Outcome.{Outcome, ok, ◌>>=◌}
use risk_engine.Operators.{ValueType}
use risk_engine.Schema.{FactorRegistry}
use risk_engine.Value.{Value}
use risk_engine.Accessor.{EvalContext}
use risk_engine.Runtime.{Floats}
use risk_engine.Expr.{Expr}
use risk_engine.Bound.{BoundExpr, result_type}
use risk_engine.Binder.{bind}
use risk_engine.Parser.Grammar.{Decimals, parse}
use risk_engine.Bytecode.{BytecodeProgram, Formatter}
use risk_engine.Bytecode.Compile.{compile}
use risk_engine.Bytecode.Vm.{BytecodeVm, new_bytecode_vm_with_config, vm_eval}

-- `compiledExpr`; the tree and the bound tree may be nil.
pub record CompiledExpr (D : Type 0) : Type 0 where
  pub source : Str
  pub ast : Option (Expr D)
  pub bound : Option (BoundExpr D)
  pub bytecode : BytecodeProgram D
  pub result_type : ValueType

-- What follows on a result that may lack fuel.
abbrev pub then_do {ℓ} : {A B : Type ℓ} → Option (Outcome A) → (A → Outcome B) → Option (Outcome B)
then_do none f = none
then_do (some m) f = some (m >>= f)

module _ {D : Type 0} (decimals : Decimals D) where
  unfoldable pub bind_string : FactorRegistry → Str → Option (Outcome (Expr D × BoundExpr D))
  unfolding parse bind
  bind_string registry raw =
      then_do (parse decimals raw) λ ast. do bound ← bind registry ast; ok (ast, bound)

  -- `DefaultRuleCompiler.TypeCheck`.
  unfoldable pub type_check : Str → FactorRegistry → Option (Outcome ValueType)
  unfolding bind_string result_type
  type_check expr registry =
      then_do (bind_string registry expr) λ (ast, bound). ok (result_type bound)

  -- `DefaultRuleCompiler.Compile`.
  unfoldable pub compile_rule :
      ⦃fl : Floats D⦄ → Formatter D → Str → FactorRegistry → Option (Outcome (CompiledExpr D))
  unfolding bind_string compile result_type
  compile_rule fmt expr registry = then_do (bind_string registry expr) λ (ast, bound). do
    program ← compile fmt bound
    ok (record {
      source = expr;
      ast = some ast;
      bound = some bound;
      bytecode = program;
      result_type = result_type bound;
    })

-- `NewBytecodeVM`: the background context is never cancelled.
abbrev pub new_bytecode_vm : BytecodeVm
new_bytecode_vm =
    new_bytecode_vm_with_config
      (record { cancelled = λ n. false; max_steps = pos 0; max_stack_depth = pos 0 })

-- `compiledExpr.Eval`.
unfoldable pub eval_compiled :
    {D : Type 0} ⦃fl : Floats D⦄ → CompiledExpr D → EvalContext D → Option (Outcome (Value D))
unfolding vm_eval
eval_compiled c ctx = vm_eval new_bytecode_vm c.bytecode ctx
