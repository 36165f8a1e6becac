-- ===== src/Binder/Calls.antt =====
-- factorengine/binder.go: the binding of factor references and of function calls.
use risk_engine.Prelude.{Bool, true, ◌&&◌, ◌||◌, none, some, [], Str, bytes, if◌then◌else◌}
use risk_engine.Outcome.{
  Outcome, ok, err, panic, ◌>>=◌, error_at, type_mismatch, unknown_function, unknown_identifier,
  invalid_argument_count,
}
use risk_engine.Operators.{ValueType, FunctionName, type_eq, are_equality_compatible}
use risk_engine.Schema.{
  field_schema, nil, ref, FactorRef, FactorRegistry, lookup_factor, schema_has_single_value_field,
  resolve_factor_ref,
}
use risk_engine.Expr.{Expr}
use risk_engine.Accessor.{compile_factor_accessor}
use risk_engine.Bound.{
  BoundExpr, BoundExprs, cons, factor_ref, list, function_call, result_type, bound_field,
  FunctionEvaluator, eval_func_is_empty, eval_func_exists, eval_func_in, eval_func_contains,
  eval_func_get,
}
use risk_engine.Binder.Fields.{scalar_field, resolve_get_result_field, type_of_field, get_name}

abbrev contains_name : Str
contains_name = bytes "contains"

abbrev in_name : Str
in_name = bytes "in"

module _ {D : Type 0} where
  -- `bindFactorRef`.
  unfoldable pub bind_factor_ref : FactorRegistry → FactorRef → Outcome (BoundExpr D)
  unfolding lookup_factor resolve_factor_ref compile_factor_accessor type_of_field
  bind_factor_ref registry r = elim (lookup_factor r.factor_code registry) [
    | none ↦ err (error_at unknown_identifier r.factor_code)
    | some factor ↦ do
      f ← resolve_factor_ref r factor
      accessor ← compile_factor_accessor r factor
      t ← type_of_field f
      ok (factor_ref r accessor t f)
  ]

  -- `bindRootObjectFactorRefIfNeeded` on a reference without a path.
  unfoldable pub bind_root_object : FactorRegistry → FactorRef → Outcome (BoundExpr D)
  unfolding lookup_factor schema_has_single_value_field bind_factor_ref
  bind_root_object registry r = elim (lookup_factor r.factor_code registry) [
    | none ↦ err (error_at unknown_identifier r.factor_code)
    | some none ↦ panic
    | some (some factor) ↦
        if schema_has_single_value_field factor.output_schema
        then bind_factor_ref registry r
        else ok (
            factor_ref r (record { factor_code = r.factor_code; steps = [] }) ValueType.object
              (ref (field_schema ValueType.object true factor.output_schema nil)))
  ]

  unfoldable pub bind_root_object_factor_ref_if_needed :
      FactorRegistry → FactorRef → Outcome (BoundExpr D)
  unfolding bind_root_object bind_factor_ref
  bind_root_object_factor_ref_if_needed registry r = elim r.path_segments [
    | [] ↦ bind_root_object registry r
    | _ ↦ bind_factor_ref registry r
  ]

  -- `bindGetContainer`; the last argument is what `Bind` gives for the expression.
  unfoldable pub bind_get_container :
      FactorRegistry → Expr D → Outcome (BoundExpr D) → Outcome (BoundExpr D)
  unfolding bind_root_object_factor_ref_if_needed
  bind_get_container registry (Expr.factor_ref r) bound =
      bind_root_object_factor_ref_if_needed registry r
  bind_get_container registry _ bound = bound

  -- The end of `bindGetFunction`, on the bound container and key.
  unfoldable pub bind_get : BoundExpr D → BoundExpr D → Outcome (BoundExpr D)
  unfolding resolve_get_result_field type_of_field result_type bound_field type_eq
  bind_get container key =
      if type_eq (result_type key) ValueType.string
      then (resolve_get_result_field (bound_field container) key >>= λ f. type_of_field f >>= λ t.
          ok (
            function_call FunctionName.get (cons container (cons key BoundExprs.nil)) t f
              eval_func_get))
      else err (error_at type_mismatch get_name)

  bool_call : FunctionName → BoundExprs D → FunctionEvaluator → BoundExpr D
  unfolding scalar_field
  bool_call name args ev = function_call name args ValueType.bool (scalar_field ValueType.bool) ev

  -- The loop of `in` over the candidates.
  pub all_compatible : ValueType → BoundExprs D → Bool
  unfolding are_equality_compatible result_type
  all_compatible t BoundExprs.nil = true
  all_compatible t (cons e es) = are_equality_compatible t (result_type e) && all_compatible t es

  -- Which container `contains` takes for an item: the switch over the container's node.
  pub contains_accepts : BoundExpr D → BoundExpr D → Bool
  unfolding are_equality_compatible result_type type_eq
  contains_accepts (list es t elem_type f) item =
      are_equality_compatible elem_type (result_type item)
  contains_accepts (factor_ref r a t f) item = type_eq t ValueType.string
  contains_accepts container item =
      type_eq (result_type container) ValueType.string
      || type_eq (result_type container) ValueType.list

  -- The switch of `bindFunctionCall` on the bound arguments.
  unfoldable pub finish_function_call : FunctionName → BoundExprs D → Outcome (BoundExpr D)
  unfolding bool_call all_compatible contains_accepts bind_get result_type
  finish_function_call FunctionName.is_empty (cons e BoundExprs.nil) =
      ok (bool_call FunctionName.is_empty (cons e BoundExprs.nil) eval_func_is_empty)
  finish_function_call FunctionName.is_empty args =
      err (error_at invalid_argument_count (bytes "isEmpty"))
  finish_function_call FunctionName.exists (cons e BoundExprs.nil) =
      ok (bool_call FunctionName.exists (cons e BoundExprs.nil) eval_func_exists)
  finish_function_call FunctionName.exists args =
      err (error_at invalid_argument_count (bytes "exists"))
  finish_function_call FunctionName.in_list (cons target (cons e es)) =
      if all_compatible (result_type target) (cons e es)
      then ok (bool_call FunctionName.in_list (cons target (cons e es)) eval_func_in)
      else err (error_at type_mismatch in_name)
  finish_function_call FunctionName.in_list args = err (error_at invalid_argument_count in_name)
  finish_function_call FunctionName.contains (cons container (cons item BoundExprs.nil)) =
      if contains_accepts container item
      then ok (
          bool_call FunctionName.contains (cons container (cons item BoundExprs.nil))
            eval_func_contains)
      else err (error_at type_mismatch contains_name)
  finish_function_call FunctionName.contains args =
      err (error_at invalid_argument_count contains_name)
  finish_function_call FunctionName.get (cons container (cons key BoundExprs.nil)) =
      bind_get container key
  finish_function_call FunctionName.get args = err (error_at invalid_argument_count get_name)
  finish_function_call (FunctionName.other name) args = err (error_at unknown_function name)
