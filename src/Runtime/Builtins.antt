-- ===== src/Runtime/Builtins.antt =====
-- factorengine/evaluator.go: the built-in functions on evaluated arguments. An argument that is
-- not there is an index out of range, a panic.
use risk_engine.Prelude.{Bool, true, false, ◌||◌, none, some, List, [], ◌∷◌, str_eq, str_contains}
use risk_engine.Outcome.{
  Outcome, ok, err, panic, error_of, error_at, type_mismatch, unknown_function,
}
use risk_engine.Operators.{FunctionName}
use risk_engine.Value.{Value, Values, nil, cons, empty, null, bool, str, list, object, lookup}
use risk_engine.Runtime.Numbers.{Floats, equality_compare}

is_empty_value : {D : Type 0} → Value D → Bool
unfolding str_eq
is_empty_value null = true
is_empty_value (str s) = str_eq s []
is_empty_value (list nil) = true
is_empty_value (object empty) = true
is_empty_value _ = false

unfoldable pub builtin_is_empty : {D : Type 0} → List (Value D) → Outcome (Value D)
unfolding is_empty_value
builtin_is_empty [] = panic
builtin_is_empty (v ∷ _) = ok (bool (is_empty_value v))

exists_value : {D : Type 0} → Value D → Bool
exists_value null = false
exists_value _ = true

unfoldable pub builtin_exists : {D : Type 0} → List (Value D) → Outcome (Value D)
unfolding exists_value
builtin_exists [] = panic
builtin_exists (v ∷ _) = ok (bool (exists_value v))

unfoldable pub builtin_get : {D : Type 0} → List (Value D) → Outcome (Value D)
unfolding lookup
builtin_get (object m ∷ str k ∷ _) = elim (lookup k m) [ none ↦ ok null | some v ↦ ok v ]
builtin_get (_ ∷ _ ∷ _) = err (error_of type_mismatch)
builtin_get _ = panic

module _ {D : Type 0} ⦃fl : Floats D⦄ where
  -- The loop of `builtinIn`.
  unfoldable pub any_equal : Value D → List (Value D) → Bool
  any_equal target [] = false
  any_equal target (candidate ∷ rest) = equality_compare target candidate || any_equal target rest

  -- The loop of `builtinContains`.
  unfoldable pub any_equal_values : Values D → Value D → Bool
  any_equal_values nil item = false
  any_equal_values (cons candidate rest) item =
      equality_compare candidate item || any_equal_values rest item

  unfoldable pub builtin_in : List (Value D) → Outcome (Value D)
  unfolding any_equal equality_compare
  builtin_in [] = panic
  builtin_in (target ∷ candidates) = ok (bool (any_equal target candidates))

  unfoldable pub builtin_contains : List (Value D) → Outcome (Value D)
  unfolding any_equal_values equality_compare str_contains
  builtin_contains (str s ∷ str sub ∷ _) = ok (bool (str_contains s sub))
  builtin_contains (list vs ∷ item ∷ _) = ok (bool (any_equal_values vs item))
  builtin_contains (_ ∷ _ ∷ _) = ok (bool false)
  builtin_contains _ = panic

  -- bytecode.go: the dispatch of CALL_BUILTIN.
  unfoldable pub eval_builtin_values : FunctionName → List (Value D) → Outcome (Value D)
  unfolding builtin_is_empty builtin_exists builtin_in builtin_contains builtin_get
  eval_builtin_values FunctionName.is_empty args = builtin_is_empty args
  eval_builtin_values FunctionName.exists args = builtin_exists args
  eval_builtin_values FunctionName.in_list args = builtin_in args
  eval_builtin_values FunctionName.contains args = builtin_contains args
  eval_builtin_values FunctionName.get args = builtin_get args
  eval_builtin_values (FunctionName.other name) args = err (error_at unknown_function name)
