-- ===== src/Bytecode/Fold.antt =====
-- factorengine/bytecode.go: `optimizeBoundExpr`, the folding of constants.
use risk_engine.Prelude.{Bool, true, false, ◌&&◌, Option, none, some, if◌then◌else◌}
use risk_engine.Outcome.{Outcome, ok, err, panic, ◌>>=◌}
use risk_engine.Operators.{ValueType, BinaryOp}
use risk_engine.Schema.{FieldPtr}
use risk_engine.Value.{Value, bool, ValueMap}
use risk_engine.Runtime.{Floats, truthy_bool}
use risk_engine.Evaluator.{BinaryEvaluator, run_binary}
use risk_engine.Bound.{
  BoundExpr, literal, factor_ref, unary, binary, conditional, function_call, list, map, BoundExprs,
  nil, cons, BoundEntries, empty, entry, eval, run_unary,
}

unfoldable pub as_literal : {D : Type 0} → BoundExpr D → Option (Value D)
as_literal (literal v t f) = some v
as_literal _ = none

unfoldable pub is_literal : {D : Type 0} → BoundExpr D → Bool
is_literal (literal v t f) = true
is_literal _ = false

unfoldable pub all_literal : {D : Type 0} → BoundExprs D → Bool
unfolding is_literal
all_literal nil = true
all_literal (cons e es) = is_literal e && all_literal es

unfoldable pub all_literal_entries : {D : Type 0} → BoundEntries D → Bool
unfolding is_literal
all_literal_entries empty = true
all_literal_entries (entry k e es) = is_literal e && all_literal_entries es

module _ {D : Type 0} ⦃fl : Floats D⦄ where
  -- Put the literal in the place of an expression, unless its evaluation failed.
  unfoldable pub fold_to :
      BoundExpr D → ValueType → FieldPtr → Outcome (Value D) → Outcome (BoundExpr D)
  fold_to e t f (ok v) = ok (literal v t f)
  fold_to e t f (err x) = ok e
  fold_to e t f panic = panic

  -- A node whose parts are all literals is evaluated in no context.
  unfoldable pub fold_node : Bool → BoundExpr D → ValueType → FieldPtr → Outcome (BoundExpr D)
  unfolding fold_to
  fold_node literals e t f = if literals then fold_to e t f (eval e ValueMap.empty) else ok e

  unfoldable pub fold_unary : BoundExpr D → Option (Value D) → Outcome (BoundExpr D)
  unfolding fold_to
  fold_unary (unary op e t f ev) (some v) = fold_to (unary op e t f ev) t f (run_unary ev v)
  fold_unary e _ = ok e

  -- The end of `foldBinaryIfPossible`: both operands must be literals.
  unfoldable pub fold_literals :
      BoundExpr D
      → ValueType
      → FieldPtr
      → BinaryEvaluator
      → Option (Value D)
      → Option (Value D)
      → Outcome (BoundExpr D)
  unfolding fold_to
  fold_literals e t f ev (some l) (some r) = fold_to e t f (run_binary ev (ok l) (ok r))
  fold_literals e t f ev _ _ = ok e

  -- `foldBinaryIfPossible`, on the literals that the operands are.
  unfoldable pub fold_binary :
      BoundExpr D
      → BinaryOp
      → ValueType
      → FieldPtr
      → BinaryEvaluator
      → Option (Value D)
      → Option (Value D)
      → Outcome (BoundExpr D)
  unfolding fold_literals truthy_bool
  fold_binary e BinaryOp.and t f ev (some l) none =
      if truthy_bool l then ok e else ok (literal (bool false) t f)
  fold_binary e BinaryOp.and t f ev (some l) (some r) =
      if truthy_bool l
      then ok (literal (bool (truthy_bool r)) t f)
      else ok (literal (bool false) t f)
  fold_binary e BinaryOp.or t f ev (some l) none =
      if truthy_bool l then ok (literal (bool true) t f) else ok e
  fold_binary e BinaryOp.or t f ev (some l) (some r) =
      if truthy_bool l
      then ok (literal (bool true) t f)
      else ok (literal (bool (truthy_bool r)) t f)
  fold_binary e op t f ev l r = fold_literals e t f ev l r

  -- A literal condition picks its branch.
  unfoldable pub fold_conditional :
      BoundExpr D → BoundExpr D → BoundExpr D → ValueType → FieldPtr → BoundExpr D
  unfolding as_literal truthy_bool
  fold_conditional c a b t f = elim (as_literal c) [
    | none ↦ conditional c a b t f
    | some v ↦ if truthy_bool v then a else b
  ]

unfoldable mutual
  unfolding fold_node fold_unary fold_binary fold_conditional as_literal all_literal
      all_literal_entries

  pub optimize_bound_expr : {D : Type 0} ⦃fl : Floats D⦄ → BoundExpr D → Outcome (BoundExpr D)
  optimize_bound_expr (literal v t f) = ok (literal v t f)
  optimize_bound_expr (factor_ref r a t f) = ok (factor_ref r a t f)
  optimize_bound_expr (list es t u f) = do
    es' ← optimize_args es
    fold_node (all_literal es') (list es' t u f) t f
  optimize_bound_expr (map es t u f) = do
    es' ← optimize_entries es
    fold_node (all_literal_entries es') (map es' t u f) t f
  optimize_bound_expr (unary op e t f ev) = do
    e' ← optimize_bound_expr e
    fold_unary (unary op e' t f ev) (as_literal e')
  optimize_bound_expr (binary op l r t f ev) = do
    l' ← optimize_bound_expr l
    r' ← optimize_bound_expr r
    fold_binary (binary op l' r' t f ev) op t f ev (as_literal l') (as_literal r')
  optimize_bound_expr (conditional c a b t f) = do
    c' ← optimize_bound_expr c
    a' ← optimize_bound_expr a
    b' ← optimize_bound_expr b
    ok (fold_conditional c' a' b' t f)
  optimize_bound_expr (function_call name args t f ev) = do
    args' ← optimize_args args
    fold_node (all_literal args') (function_call name args' t f ev) t f

  pub optimize_args : {D : Type 0} ⦃fl : Floats D⦄ → BoundExprs D → Outcome (BoundExprs D)
  optimize_args nil = ok nil
  optimize_args (cons e es) = do
    e' ← optimize_bound_expr e
    es' ← optimize_args es
    ok (cons e' es')

  pub optimize_entries : {D : Type 0} ⦃fl : Floats D⦄ → BoundEntries D → Outcome (BoundEntries D)
  optimize_entries empty = ok empty
  optimize_entries (entry k e es) = do
    e' ← optimize_bound_expr e
    es' ← optimize_entries es
    ok (entry k e' es')
