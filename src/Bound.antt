-- ===== src/Bound.antt =====
-- factorengine/binder.go: bound expressions, their types and their evaluation. A field `Evaluator`
-- holds the name of the Go function instead of the function.
use risk_engine.Prelude.{ℕ, suc, List, [], ◌∷◌, Str}
use risk_engine.Outcome.{Outcome, ok, ◌>>=◌}
use risk_engine.Operators.{ValueType, BinaryOp, UnaryOp, FunctionName}
use risk_engine.Schema.{FactorRef, FieldPtr}
use risk_engine.Value.{Value, object, ValueMap, values, insert}
use risk_engine.Accessor.{EvalContext, FactorValueAccessor, get, or_null}
use risk_engine.Runtime.{Floats, eval_unary_value, eval_builtin_values}
use risk_engine.Evaluator.{BinaryEvaluator, run_binary, eval_conditional}

pub data UnaryEvaluator : Type 0 where
  eval_not eval_negate : UnaryEvaluator

pub data FunctionEvaluator : Type 0 where
  eval_func_is_empty eval_func_exists eval_func_in : FunctionEvaluator
  eval_func_contains eval_func_get : FunctionEvaluator

-- Behind the parts: the result type, the field schema, the evaluator; a list and a map have the
-- type of their elements too.
mutual
  pub data BoundExpr (D : Type 0) : Type 0 where
    literal : Value D → ValueType → FieldPtr → BoundExpr D
    factor_ref : FactorRef → FactorValueAccessor → ValueType → FieldPtr → BoundExpr D
    unary : UnaryOp → BoundExpr D → ValueType → FieldPtr → UnaryEvaluator → BoundExpr D
    binary :
        BinaryOp → BoundExpr D → BoundExpr D → ValueType → FieldPtr → BinaryEvaluator → BoundExpr D
    conditional : BoundExpr D → BoundExpr D → BoundExpr D → ValueType → FieldPtr → BoundExpr D
    function_call :
        FunctionName → BoundExprs D → ValueType → FieldPtr → FunctionEvaluator → BoundExpr D
    list : BoundExprs D → ValueType → ValueType → FieldPtr → BoundExpr D
    map : BoundEntries D → ValueType → ValueType → FieldPtr → BoundExpr D

  pub data BoundExprs (D : Type 0) : Type 0 where
    nil : BoundExprs D
    cons : BoundExpr D → BoundExprs D → BoundExprs D

  pub data BoundEntries (D : Type 0) : Type 0 where
    empty : BoundEntries D
    entry : Str → BoundExpr D → BoundEntries D → BoundEntries D

unfoldable pub result_type : {D : Type 0} → BoundExpr D → ValueType
result_type (literal v t f) = t
result_type (factor_ref r a t f) = t
result_type (unary op e t f ev) = t
result_type (binary op l r t f ev) = t
result_type (conditional c a b t f) = t
result_type (function_call name args t f ev) = t
result_type (list es t u f) = t
result_type (map es t u f) = t

unfoldable pub bound_field : {D : Type 0} → BoundExpr D → FieldPtr
bound_field (literal v t f) = f
bound_field (factor_ref r a t f) = f
bound_field (unary op e t f ev) = f
bound_field (binary op l r t f ev) = f
bound_field (conditional c a b t f) = f
bound_field (function_call name args t f ev) = f
bound_field (list es t u f) = f
bound_field (map es t u f) = f

abbrev pub args_length : {D : Type 0} → BoundExprs D → ℕ
args_length nil = 0
args_length (cons e es) = suc (args_length es)

abbrev pub entries_length : {D : Type 0} → BoundEntries D → ℕ
entries_length empty = 0
entries_length (entry k e es) = suc (entries_length es)

module _ {D : Type 0} ⦃fl : Floats D⦄ where
  unfoldable pub run_unary : UnaryEvaluator → Value D → Outcome (Value D)
  unfolding eval_unary_value
  run_unary eval_not v = eval_unary_value UnaryOp.not v
  run_unary eval_negate v = eval_unary_value UnaryOp.neg v

  unfoldable pub run_function : FunctionEvaluator → List (Value D) → Outcome (Value D)
  unfolding eval_builtin_values
  run_function eval_func_is_empty args = eval_builtin_values FunctionName.is_empty args
  run_function eval_func_exists args = eval_builtin_values FunctionName.exists args
  run_function eval_func_in args = eval_builtin_values FunctionName.in_list args
  run_function eval_func_contains args = eval_builtin_values FunctionName.contains args
  run_function eval_func_get args = eval_builtin_values FunctionName.get args

-- The `Eval` methods; `eval_args` is `evalBoundArgs` and the loop of a list.
unfoldable mutual
  unfolding run_binary run_unary run_function eval_conditional get insert

  pub eval : {D : Type 0} ⦃fl : Floats D⦄ → BoundExpr D → EvalContext D → Outcome (Value D)
  eval (literal v t f) ctx = ok v
  eval (factor_ref r accessor t f) ctx = ok (or_null (get accessor ctx))
  eval (unary op e t f ev) ctx = do v ← eval e ctx; run_unary ev v
  eval (binary op l r t f ev) ctx = run_binary ev (eval l ctx) (eval r ctx)
  eval (conditional c a b t f) ctx = eval_conditional (eval c ctx) (eval a ctx) (eval b ctx)
  eval (function_call name args t f ev) ctx = do vs ← eval_args args ctx; run_function ev vs
  eval (list es t u f) ctx = do vs ← eval_args es ctx; ok (Value.list (values vs))
  eval (map es t u f) ctx = do m ← eval_entries es ctx ValueMap.empty; ok (object m)

  pub eval_args :
      {D : Type 0} ⦃fl : Floats D⦄ → BoundExprs D → EvalContext D → Outcome (List (Value D))
  eval_args nil ctx = ok []
  eval_args (cons e es) ctx = do v ← eval e ctx; vs ← eval_args es ctx; ok (v ∷ vs)

  pub eval_entries :
      {D : Type 0} ⦃fl : Floats D⦄
      → BoundEntries D
      → EvalContext D
      → ValueMap D
      → Outcome (ValueMap D)
  eval_entries empty ctx m = ok m
  eval_entries (entry k e es) ctx m = do v ← eval e ctx; eval_entries es ctx (insert k v m)
