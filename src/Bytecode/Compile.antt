-- ===== src/Bytecode/Compile.antt =====
-- factorengine/bytecode.go: `BytecodeCompiler.Compile` for a new compiler.
use risk_engine.Prelude.{[], bytes}
use risk_engine.Outcome.{Outcome, ok, ◌>>=◌}
use risk_engine.Runtime.{Floats}
use risk_engine.Bound.{BoundExpr, result_type}
use risk_engine.Bytecode.{BytecodeProgram, Formatter}
use risk_engine.Bytecode.Fold.{optimize_bound_expr}
use risk_engine.Bytecode.Emit.{Emission, new_bytecode_compiler, emit_expr}
use risk_engine.Bytecode.Peephole.{optimize_instructions}
use risk_engine.Bytecode.Vm.{recovered}

module _ {D : Type 0} ⦃fl : Floats D⦄ (fmt : Formatter D) where
  -- The program of an emission, its instructions as they were emitted.
  unfoldable pub program_of : BoundExpr D → Emission D → BytecodeProgram D
  unfolding result_type
  program_of e s = record {
    instructions = s.instructions;
    constants = s.compiler.constants;
    accessors = s.compiler.accessors;
    builtins = s.compiler.builtins;
    result_type = result_type e;
  }

  unfoldable pub compile_steps : BoundExpr D → Outcome (BytecodeProgram D)
  unfolding optimize_bound_expr emit_expr optimize_instructions program_of
  compile_steps e = do
    e' ← optimize_bound_expr e
    s ← emit_expr fmt e' (record { compiler = new_bytecode_compiler; instructions = [] })
    let p = program_of e' s
    ok (record p { instructions = optimize_instructions p.instructions })

  unfoldable pub compile : BoundExpr D → Outcome (BytecodeProgram D)
  unfolding compile_steps recovered
  compile e = recovered (bytes "bytecode_compile") (compile_steps e)
