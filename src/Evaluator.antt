-- ===== src/Evaluator.antt =====
-- factorengine/evaluator.go: the operators as functions of their operands, and the evaluator of the
-- syntax tree. An operand that is evaluated late is passed as the outcome of its evaluation, which
-- has no other effect.
use risk_engine.Prelude.{true, false, not, List, [], ◌∷◌, if◌then◌else◌}
use risk_engine.Outcome.{
  Outcome, ok, err, ◌>>=◌, error_of, error_at, unsupported_operator, unknown_function,
}
use risk_engine.Operators.{BinaryOp, FunctionName}
use risk_engine.Value.{Value, bool, list, object, ValueMap, values, insert}
use risk_engine.Expr.{
  Expr, literal, factor_ref, conditional, function_call, unary, binary, Exprs, nil, cons, Entries,
}
use risk_engine.Accessor.{EvalContext, resolve_value, or_null}
use risk_engine.Runtime.{
  Floats, truthy_bool, eval_unary_value, ordered_compare, equality_compare, arithmetic,
  eval_builtin_values,
}

-- The function values `evalAnd`, `evalOr`, … that a bound expression holds, and the one that
-- `evalBinaryOp` returns for an operator that it does not know.
pub data BinaryEvaluator : Type 0 where
  eval_and eval_or eval_lt eval_le eval_gt eval_ge eval_eq eval_ne : BinaryEvaluator
  eval_add eval_sub eval_mul eval_div eval_unsupported : BinaryEvaluator

unfoldable pub eval_binary_op : BinaryOp → BinaryEvaluator
eval_binary_op BinaryOp.and = eval_and
eval_binary_op BinaryOp.or = eval_or
eval_binary_op BinaryOp.lt = eval_lt
eval_binary_op BinaryOp.le = eval_le
eval_binary_op BinaryOp.gt = eval_gt
eval_binary_op BinaryOp.ge = eval_ge
eval_binary_op BinaryOp.eq = eval_eq
eval_binary_op BinaryOp.ne = eval_ne
eval_binary_op BinaryOp.add = eval_add
eval_binary_op BinaryOp.sub = eval_sub
eval_binary_op BinaryOp.mul = eval_mul
eval_binary_op BinaryOp.div = eval_div
eval_binary_op (BinaryOp.other s) = eval_unsupported

module _ {D : Type 0} ⦃fl : Floats D⦄ where
  unfoldable pub eval_operands : Outcome (Value D) → Outcome (Value D) → Outcome (Value D × Value D)
  eval_operands left right = do l ← left; r ← right; ok (l, r)

  eval_ordered : Outcome (Value D) → Outcome (Value D) → BinaryOp → Outcome (Value D)
  unfolding eval_operands
  eval_ordered left right op = do
    (l, r) ← eval_operands left right
    b ← ordered_compare l r op
    ok (bool b)

  eval_arithmetic : Outcome (Value D) → Outcome (Value D) → BinaryOp → Outcome (Value D)
  unfolding eval_operands
  eval_arithmetic left right op = do (l, r) ← eval_operands left right; arithmetic l r op

  -- A call of the function value.
  unfoldable pub run_binary :
      BinaryEvaluator → Outcome (Value D) → Outcome (Value D) → Outcome (Value D)
  unfolding eval_ordered eval_arithmetic eval_operands truthy_bool ordered_compare equality_compare
      arithmetic
  run_binary eval_and left right = do
    l ← left
    if truthy_bool l then (right >>= λ r. ok (bool (truthy_bool r))) else ok (bool false)
  run_binary eval_or left right = do
    l ← left
    if truthy_bool l then ok (bool true) else (right >>= λ r. ok (bool (truthy_bool r)))
  run_binary eval_lt left right = eval_ordered left right BinaryOp.lt
  run_binary eval_le left right = eval_ordered left right BinaryOp.le
  run_binary eval_gt left right = eval_ordered left right BinaryOp.gt
  run_binary eval_ge left right = eval_ordered left right BinaryOp.ge
  run_binary eval_eq left right = do
    (l, r) ← eval_operands left right
    ok (bool (equality_compare l r))
  run_binary eval_ne left right = do
    (l, r) ← eval_operands left right
    ok (bool (not (equality_compare l r)))
  run_binary eval_add left right = eval_arithmetic left right BinaryOp.add
  run_binary eval_sub left right = eval_arithmetic left right BinaryOp.sub
  run_binary eval_mul left right = eval_arithmetic left right BinaryOp.mul
  run_binary eval_div left right = eval_arithmetic left right BinaryOp.div
  run_binary eval_unsupported left right = err (error_of unsupported_operator)

  -- `evalConditional` and `evalConditionalExpr`.
  unfoldable pub eval_conditional :
      Outcome (Value D) → Outcome (Value D) → Outcome (Value D) → Outcome (Value D)
  unfolding truthy_bool
  eval_conditional cond then_value else_value = do
    c ← cond
    if truthy_bool c then then_value else else_value

  -- An unknown name is refused before the arguments are evaluated.
  unfoldable pub eval_function_call : FunctionName → Outcome (List (Value D)) → Outcome (Value D)
  unfolding eval_builtin_values
  eval_function_call (FunctionName.other name) args = err (error_at unknown_function name)
  eval_function_call FunctionName.is_empty args = args >>= eval_builtin_values FunctionName.is_empty
  eval_function_call FunctionName.exists args = args >>= eval_builtin_values FunctionName.exists
  eval_function_call FunctionName.in_list args = args >>= eval_builtin_values FunctionName.in_list
  eval_function_call FunctionName.contains args = args >>= eval_builtin_values FunctionName.contains
  eval_function_call FunctionName.get args = args >>= eval_builtin_values FunctionName.get

unfoldable mutual
  unfolding eval_binary_op run_binary eval_conditional eval_function_call resolve_value
      eval_unary_value insert

  pub eval_expr : {D : Type 0} ⦃fl : Floats D⦄ → Expr D → EvalContext D → Outcome (Value D)
  eval_expr (literal value type) ctx = ok value
  eval_expr (factor_ref r) ctx = ok (or_null (resolve_value ctx r))
  eval_expr (conditional c t e) ctx =
      eval_conditional (eval_expr c ctx) (eval_expr t ctx) (eval_expr e ctx)
  eval_expr (function_call name args) ctx = eval_function_call name (eval_exprs args ctx)
  eval_expr (Expr.list elems) ctx = do vs ← eval_exprs elems ctx; ok (list (values vs))
  eval_expr (Expr.map entries) ctx = do m ← eval_entries entries ctx ValueMap.empty; ok (object m)
  eval_expr (unary op e) ctx = do v ← eval_expr e ctx; eval_unary_value op v
  eval_expr (binary op l r) ctx = run_binary (eval_binary_op op) (eval_expr l ctx) (eval_expr r ctx)

  pub eval_exprs : {D : Type 0} ⦃fl : Floats D⦄ → Exprs D → EvalContext D → Outcome (List (Value D))
  eval_exprs nil ctx = ok []
  eval_exprs (cons e es) ctx = do v ← eval_expr e ctx; vs ← eval_exprs es ctx; ok (v ∷ vs)

  pub eval_entries :
      {D : Type 0} ⦃fl : Floats D⦄ → Entries D → EvalContext D → ValueMap D → Outcome (ValueMap D)
  eval_entries Entries.empty ctx m = ok m
  eval_entries (Entries.entry k e es) ctx m = do
    v ← eval_expr e ctx
    eval_entries es ctx (insert k v m)
