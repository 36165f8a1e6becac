-- ===== src/Binder.antt =====
-- factorengine/binder.go: `ExpressionBinder`, the static checks.
mod Fields
mod Calls
unfoldable pub use Fields.*
unfoldable pub use Calls.*
use risk_engine.Prelude.{Bool, true, false, List, [], ◌∷◌, Str, ◌&&◌, if◌then◌else◌}
use risk_engine.Outcome.{
  Outcome, ok, err, panic, ◌>>=◌, error_of, error_at, type_mismatch, unsupported_operator,
  invalid_argument_count,
}
use risk_engine.Operators.{
  ValueType, BinaryOp, UnaryOp, FunctionName, type_eq, is_numeric_type, merge_numeric_type,
  are_comparable_ordered_types, are_equality_compatible, are_branch_compatible,
  merge_comparable_type,
}
use risk_engine.Schema.{FactorRegistry, FieldPtr}
use risk_engine.Expr.{
  Expr, literal, factor_ref, conditional, function_call, list, map, unary, binary, Exprs, nil, cons,
  Entries, empty, entry,
}
use risk_engine.Bound
use risk_engine.Bound.{
  BoundExpr, BoundExprs, BoundEntries, result_type, bound_field, UnaryEvaluator,
}
use risk_engine.Evaluator.{BinaryEvaluator}

-- The result type of a binary operator on operands of two types; which operands it takes.
unfoldable pub binary_result_type : BinaryOp → ValueType → ValueType → Outcome ValueType
unfolding type_eq is_numeric_type merge_numeric_type are_comparable_ordered_types
    are_equality_compatible
binary_result_type op l r =
    let logical : Outcome ValueType =
      if type_eq l ValueType.bool && type_eq r ValueType.bool
      then ok ValueType.bool
      else err (error_of type_mismatch) in
    let comparison : Outcome ValueType =
      if are_comparable_ordered_types l r
      then ok ValueType.bool
      else err (error_of type_mismatch) in
    let equality : Outcome ValueType =
      if are_equality_compatible l r then ok ValueType.bool else err (error_of type_mismatch) in
    let numeric : Outcome ValueType =
      if is_numeric_type l && is_numeric_type r
      then ok (merge_numeric_type l r)
      else err (error_of type_mismatch) in
    elim op [
      | BinaryOp.and ↦ logical
      | BinaryOp.or ↦ logical
      | BinaryOp.lt ↦ comparison
      | BinaryOp.le ↦ comparison
      | BinaryOp.gt ↦ comparison
      | BinaryOp.ge ↦ comparison
      | BinaryOp.eq ↦ equality
      | BinaryOp.ne ↦ equality
      | BinaryOp.add ↦ numeric
      | BinaryOp.sub ↦ numeric
      | BinaryOp.mul ↦ numeric
      | BinaryOp.div ↦ numeric
      | BinaryOp.other s ↦ err (error_of unsupported_operator)
    ]

-- The type of the elements so far, with the next one: the loops of `bindList` and `bindMap`. The
-- Boolean says whether it is the first.
-- The evaluator that the switch of `bindBinary` picks. An operator with no case does not get there.
unfoldable pub binary_evaluator : BinaryOp → BinaryEvaluator
binary_evaluator BinaryOp.and = BinaryEvaluator.eval_and
binary_evaluator BinaryOp.or = BinaryEvaluator.eval_or
binary_evaluator BinaryOp.lt = BinaryEvaluator.eval_lt
binary_evaluator BinaryOp.le = BinaryEvaluator.eval_le
binary_evaluator BinaryOp.gt = BinaryEvaluator.eval_gt
binary_evaluator BinaryOp.ge = BinaryEvaluator.eval_ge
binary_evaluator BinaryOp.eq = BinaryEvaluator.eval_eq
binary_evaluator BinaryOp.ne = BinaryEvaluator.eval_ne
binary_evaluator BinaryOp.add = BinaryEvaluator.eval_add
binary_evaluator BinaryOp.sub = BinaryEvaluator.eval_sub
binary_evaluator BinaryOp.mul = BinaryEvaluator.eval_mul
binary_evaluator BinaryOp.div = BinaryEvaluator.eval_div
binary_evaluator (BinaryOp.other s) = BinaryEvaluator.eval_unsupported

unfoldable pub element_type : Bool → ValueType → ValueType → Outcome ValueType
unfolding are_equality_compatible merge_comparable_type
element_type true t u = ok u
element_type false t u =
    if are_equality_compatible t u
    then ok (merge_comparable_type t u)
    else err (error_of type_mismatch)

module _ {D : Type 0} where
  -- `bindUnary` on the bound operand.
  unfoldable pub bind_unary : UnaryOp → BoundExpr D → Outcome (BoundExpr D)
  unfolding result_type type_eq is_numeric_type scalar_field
  bind_unary UnaryOp.not e =
      if type_eq (result_type e) ValueType.bool
      then ok (
          BoundExpr.unary UnaryOp.not e ValueType.bool (scalar_field ValueType.bool)
            UnaryEvaluator.eval_not)
      else err (error_of type_mismatch)
  bind_unary UnaryOp.neg e =
      if is_numeric_type (result_type e)
      then ok (
          BoundExpr.unary UnaryOp.neg e (result_type e) (scalar_field (result_type e))
            UnaryEvaluator.eval_negate)
      else err (error_of type_mismatch)
  bind_unary (UnaryOp.other s) e = err (error_of unsupported_operator)

  -- `bindBinary` on the bound operands.
  unfoldable pub bind_binary : BinaryOp → BoundExpr D → BoundExpr D → Outcome (BoundExpr D)
  unfolding binary_result_type result_type scalar_field binary_evaluator
  bind_binary op l r = do
    t ← binary_result_type op (result_type l) (result_type r)
    ok (BoundExpr.binary op l r t (scalar_field t) (binary_evaluator op))

  -- `bindConditional` on the bound condition.
  unfoldable pub check_condition : BoundExpr D → Outcome (Unit {0})
  unfolding result_type type_eq
  check_condition c =
      if type_eq (result_type c) ValueType.bool then ok tt else err (error_of type_mismatch)

  -- `bindConditional` on the bound parts.
  unfoldable pub bind_branches : BoundExpr D → BoundExpr D → BoundExpr D → Outcome (BoundExpr D)
  unfolding result_type bound_field are_branch_compatible merge_comparable_type merge_field_schema
  bind_branches c a b =
      let t = merge_comparable_type (result_type a) (result_type b) in
      if are_branch_compatible (result_type a) (result_type b)
      then ok (BoundExpr.conditional c a b t (merge_field_schema (bound_field a) (bound_field b) t))
      else err (error_of type_mismatch)

-- `Bind`, with the loops over the parts of an expression. The type of no elements is `""`.
unfoldable mutual
  unfolding bind_unary bind_binary check_condition bind_branches element_type bind_factor_ref
      bind_get_container bind_get finish_function_call scalar_field result_type

  pub bind : {D : Type 0} → FactorRegistry → Expr D → Outcome (BoundExpr D)
  bind registry (literal v t) = ok (BoundExpr.literal v t (scalar_field t))
  bind registry (factor_ref r) = bind_factor_ref registry r
  bind registry (conditional c a b) = do
    c' ← bind registry c
    _ ← check_condition c'
    a' ← bind registry a
    b' ← bind registry b
    bind_branches c' a' b'
  bind registry (function_call FunctionName.get args) = bind_get_args registry args
  bind registry (function_call name args) = do
    args' ← bind_args registry args
    finish_function_call name args'
  bind registry (list elems) = do
    (elems', t) ← bind_elements registry elems true (ValueType.other [])
    ok (BoundExpr.list elems' ValueType.list t (container_field ValueType.list t))
  bind registry (map entries) = do
    (entries', t) ← bind_entries registry entries true (ValueType.other [])
    ok (BoundExpr.map entries' ValueType.map t (container_field ValueType.map t))
  bind registry (unary op e) = do e' ← bind registry e; bind_unary op e'
  bind registry (binary op l r) = do
    l' ← bind registry l
    r' ← bind registry r
    bind_binary op l' r'

  pub bind_args : {D : Type 0} → FactorRegistry → Exprs D → Outcome (BoundExprs D)
  bind_args registry nil = ok BoundExprs.nil
  bind_args registry (cons e es) = do
    e' ← bind registry e
    es' ← bind_args registry es
    ok (BoundExprs.cons e' es')

  -- `bindGetFunction`.
  pub bind_get_args : {D : Type 0} → FactorRegistry → Exprs D → Outcome (BoundExpr D)
  bind_get_args registry (cons container (cons key nil)) = do
    container' ← bind_get_container registry container (bind registry container)
    key' ← bind registry key
    bind_get container' key'
  bind_get_args registry _ = err (error_at invalid_argument_count get_name)

  pub bind_elements :
      {D : Type 0}
      → FactorRegistry
      → Exprs D
      → Bool
      → ValueType
      → Outcome (BoundExprs D × ValueType)
  bind_elements registry nil first t = ok (BoundExprs.nil, t)
  bind_elements registry (cons e es) first t = do
    e' ← bind registry e
    u ← element_type first t (result_type e')
    (es', w) ← bind_elements registry es false u
    ok (BoundExprs.cons e' es', w)

  pub bind_entries :
      {D : Type 0}
      → FactorRegistry
      → Entries D
      → Bool
      → ValueType
      → Outcome (BoundEntries D × ValueType)
  bind_entries registry empty first t = ok (BoundEntries.empty, t)
  bind_entries registry (entry k e es) first t = do
    e' ← bind registry e
    u ← element_type first t (result_type e')
    (es', w) ← bind_entries registry es false u
    ok (BoundEntries.entry k e' es', w)
