-- ===== src/Tests/Parsing.antt =====
-- The parser, the compiler of rules and the snapshots at the rule `age >= 10 + 8 && true` as a text.
use mathlib.Core.Path.{subst}
use risk_engine.Prelude.{◌≡◌, refl, none, some, length, Str, bytes, arith}
use risk_engine.Prelude.Int.{ℤ, pos}
use risk_engine.Outcome.{Outcome, ok, panic, ◌>>=◌}
use risk_engine.Accessor.{EvalContext}
use risk_engine.Expr.{Expr}
use risk_engine.Parser.Grammar.{Decimals, parse}
use risk_engine.Evaluator.{run_binary, eval_expr}
use risk_engine.Bound.{eval}
use risk_engine.Binder.{bind}
use risk_engine.Parser.Refs.{is_default_path}
use risk_engine.Parser.Tokens.{word_token}
use risk_engine.Correct.Parsing.Printer.{ref_text}
use risk_engine.Bytecode.Fold.{optimize_bound_expr}
use risk_engine.Bytecode.Compile.{compile}
use risk_engine.Bytecode.Vm.{vm_eval, recovered}
use risk_engine.Compiler.{CompiledExpr, compile_rule, eval_compiled}
use risk_engine.Snapshot.{snapshot_compiled_expr, restore_compiled_expr}
use risk_engine.Correct.WellBound.{IsBool}
use risk_engine.Correct.Opcodes.{ok_injective}
use risk_engine.Correct.Parsing.Fuel.{parse_returns}
use risk_engine.Correct.Parsing.Text.{text, parse-text}
use risk_engine.Correct.Compiling.{vm_eval-compile_rule}
use risk_engine.Correct.Restoring.{restore_compiled_expr-snapshot_compiled_expr}
use risk_engine.Tests.{
  integers, fmt, IsScalar, keys, registry, registry-Fits, rule, rule_bound, bound, folded,
  bound_folded, program, vm, outputs_context,
}

-- No text has the point.
abbrev pub decimals : Decimals ℤ
decimals = record { parse_float = λ s. some (pos (length s)) }

abbrev pub raw : Str
raw = bytes "age >= 10 + 8 && true"

raw_parsed : parse decimals raw ≡ some (ok rule)
unfolding parse
raw_parsed = refl

abbrev pub compiled : CompiledExpr ℤ
unfolding program
compiled = record {
  source = raw;
  ast = some rule;
  bound = some bound;
  bytecode = program;
  result_type = program.result_type;
}

raw_compiled : compile_rule decimals fmt raw registry ≡ some (ok compiled)
unfolding compile_rule compile bound program run_binary compiled bind
raw_compiled = refl

parse_returns_example :
    (o : Outcome (Expr ℤ)) × (parse decimals (bytes "a ? (b") ≡ some o) × (o ≡ panic → ⊥)
parse_returns_example = parse_returns decimals (bytes "a ? (b")

parse-text_example : parse decimals (text rule) ≡ some (ok rule)
unfolding word_token ref_text is_default_path
parse-text_example = parse-text decimals rule (
  tt,
  (
    tt,
    (
      (
        (omega arith, omega arith, refl, refl),
        ((omega arith, omega arith, refl, refl), ((omega arith, omega arith, refl, refl), tt)),
      ),
      tt,
      (refl, refl),
      refl,
    ),
    (tt, omega arith, omega arith),
  ),
  tt,
)

vm_eval-compile_rule_example :
    vm_eval vm compiled.bytecode outputs_context
    ≡ some (recovered (bytes "bytecode_eval") (eval_expr rule outputs_context))
unfolding bound folded program compiled optimize_bound_expr compile run_binary bind eval
vm_eval-compile_rule_example =
    vm_eval-compile_rule decimals fmt IsScalar keys registry raw rule bound folded compiled vm
      outputs_context raw_parsed rule_bound bound_folded raw_compiled registry-Fits ((tt, tt), tt)
      (
        (λ _ v h. subst IsBool (ok_injective h) tt),
        ((λ z v h. absurd z), tt, ((λ z v h. absurd z), tt, tt)),
        tt,
      )
      (λ n. refl) (omega arith) (omega arith)

restore_compiled_expr-snapshot_compiled_expr_example :
    (c' : CompiledExpr ℤ) × ((snapshot_compiled_expr compiled >>= restore_compiled_expr) ≡ ok c')
    × (c' ≡ record compiled { ast = none; bound = none })
    × ((ctx : EvalContext ℤ) → eval_compiled c' ctx ≡ eval_compiled compiled ctx)
restore_compiled_expr-snapshot_compiled_expr_example =
    restore_compiled_expr-snapshot_compiled_expr compiled
