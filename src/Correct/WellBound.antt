-- ===== src/Correct/WellBound.antt =====
-- Bound expressions as the binder makes them: each evaluator is the one of its operator or name.
use risk_engine.Prelude.{◌≡◌, refl}
use risk_engine.Outcome.{ok}
use risk_engine.Operators.{BinaryOp, UnaryOp, FunctionName}
use risk_engine.Value.{Value, bool}
use risk_engine.Accessor.{EvalContext}
use risk_engine.Runtime.{Floats}
use risk_engine.Evaluator.{eval_binary_op}
use risk_engine.Binder.{binary_evaluator}
use risk_engine.Bound.{
  UnaryEvaluator, eval_not, eval_negate, FunctionEvaluator, BoundExpr, literal, factor_ref, unary,
  binary, conditional, function_call, list, map, BoundExprs, nil, cons, BoundEntries, empty, entry,
  eval,
}

abbrev pub unary_op_of : UnaryEvaluator → UnaryOp
unary_op_of eval_not = UnaryOp.not
unary_op_of eval_negate = UnaryOp.neg

abbrev pub function_name_of : FunctionEvaluator → FunctionName
function_name_of FunctionEvaluator.eval_func_is_empty = FunctionName.is_empty
function_name_of FunctionEvaluator.eval_func_exists = FunctionName.exists
function_name_of FunctionEvaluator.eval_func_in = FunctionName.in_list
function_name_of FunctionEvaluator.eval_func_contains = FunctionName.contains
function_name_of FunctionEvaluator.eval_func_get = FunctionName.get

abbrev mutual
  pub WellBound : {D : Type 0} → BoundExpr D → Type 0
  WellBound (literal v t f) = Unit
  WellBound (factor_ref r a t f) = Unit
  WellBound (unary op e t f ev) = (op ≡ unary_op_of ev) × WellBound e
  WellBound (binary op l r t f ev) = (ev ≡ eval_binary_op op) × WellBound l × WellBound r
  WellBound (conditional c a b t f) = WellBound c × WellBound a × WellBound b
  WellBound (function_call name args t f ev) = (name ≡ function_name_of ev) × WellBoundArgs args
  WellBound (list es t u f) = WellBoundArgs es
  WellBound (map es t u f) = WellBoundEntries es

  pub WellBoundArgs : {D : Type 0} → BoundExprs D → Type 0
  WellBoundArgs nil = Unit
  WellBoundArgs (cons e es) = WellBound e × WellBoundArgs es

  pub WellBoundEntries : {D : Type 0} → BoundEntries D → Type 0
  WellBoundEntries empty = Unit
  WellBoundEntries (entry k e es) = WellBound e × WellBoundEntries es

-- What the right operand of `&&` and `||` gives, if it gives a value, is a Boolean.
abbrev pub IsBool : {D : Type 0} → Value D → Type 0
IsBool (bool b) = Unit
IsBool _ = ⊥

abbrev pub NeedsBool : BinaryOp → Type 0
NeedsBool BinaryOp.and = Unit
NeedsBool BinaryOp.or = Unit
NeedsBool _ = ⊥

abbrev mutual
  pub BoolOperands : {D : Type 0} ⦃fl : Floats D⦄ → BoundExpr D → EvalContext D → Type 0
  BoolOperands (literal v t f) ctx = Unit
  BoolOperands (factor_ref r a t f) ctx = Unit
  BoolOperands (unary op e t f ev) ctx = BoolOperands e ctx
  BoolOperands {D} (binary op l r t f ev) ctx =
      (NeedsBool op → (v : Value D) → eval r ctx ≡ ok v → IsBool v)
      × BoolOperands l ctx
      × BoolOperands r ctx
  BoolOperands (conditional c a b t f) ctx =
      BoolOperands c ctx × BoolOperands a ctx × BoolOperands b ctx
  BoolOperands (function_call name args t f ev) ctx = BoolOperandsArgs args ctx
  BoolOperands (list es t u f) ctx = BoolOperandsArgs es ctx
  BoolOperands (map es t u f) ctx = BoolOperandsEntries es ctx

  pub BoolOperandsArgs : {D : Type 0} ⦃fl : Floats D⦄ → BoundExprs D → EvalContext D → Type 0
  BoolOperandsArgs nil ctx = Unit
  BoolOperandsArgs (cons e es) ctx = BoolOperands e ctx × BoolOperandsArgs es ctx

  pub BoolOperandsEntries : {D : Type 0} ⦃fl : Floats D⦄ → BoundEntries D → EvalContext D → Type 0
  BoolOperandsEntries empty ctx = Unit
  BoolOperandsEntries (entry k e es) ctx = BoolOperands e ctx × BoolOperandsEntries es ctx

-- Every constant of the expression is in a class: its literals' values.
abbrev mutual
  pub ConstantsIn : {D : Type 0} → (Value D → Type 0) → BoundExpr D → Type 0
  ConstantsIn P (literal v t f) = P v
  ConstantsIn P (factor_ref r a t f) = Unit
  ConstantsIn P (unary op e t f ev) = ConstantsIn P e
  ConstantsIn P (binary op l r t f ev) = ConstantsIn P l × ConstantsIn P r
  ConstantsIn P (conditional c a b t f) = ConstantsIn P c × ConstantsIn P a × ConstantsIn P b
  ConstantsIn P (function_call name args t f ev) = ConstantsInArgs P args
  ConstantsIn P (list es t u f) = ConstantsInArgs P es
  ConstantsIn P (map es t u f) = ConstantsInEntries P es

  pub ConstantsInArgs : {D : Type 0} → (Value D → Type 0) → BoundExprs D → Type 0
  ConstantsInArgs P nil = Unit
  ConstantsInArgs P (cons e es) = ConstantsIn P e × ConstantsInArgs P es

  pub ConstantsInEntries : {D : Type 0} → (Value D → Type 0) → BoundEntries D → Type 0
  ConstantsInEntries P empty = Unit
  ConstantsInEntries P (entry k e es) = ConstantsIn P e × ConstantsInEntries P es

-- The binder and `evalBinaryOp` name the same evaluators.
pub binary_evaluator-eval_binary_op : (op : BinaryOp) → binary_evaluator op ≡ eval_binary_op op
unfolding binary_evaluator eval_binary_op
binary_evaluator-eval_binary_op BinaryOp.and = refl
binary_evaluator-eval_binary_op BinaryOp.or = refl
binary_evaluator-eval_binary_op BinaryOp.lt = refl
binary_evaluator-eval_binary_op BinaryOp.le = refl
binary_evaluator-eval_binary_op BinaryOp.gt = refl
binary_evaluator-eval_binary_op BinaryOp.ge = refl
binary_evaluator-eval_binary_op BinaryOp.eq = refl
binary_evaluator-eval_binary_op BinaryOp.ne = refl
binary_evaluator-eval_binary_op BinaryOp.add = refl
binary_evaluator-eval_binary_op BinaryOp.sub = refl
binary_evaluator-eval_binary_op BinaryOp.mul = refl
binary_evaluator-eval_binary_op BinaryOp.div = refl
binary_evaluator-eval_binary_op (BinaryOp.other s) = refl
