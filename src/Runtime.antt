-- ===== src/Runtime.antt =====
-- factorengine/evaluator.go: the operations on values that the evaluators and the machine share.
mod Builtins
mod Numbers
unfoldable pub use Builtins.{
  builtin_is_empty, builtin_exists, builtin_in, builtin_contains, builtin_get, eval_builtin_values,
  any_equal, any_equal_values,
}
pub use Numbers.{Floats, Number, NormalizedNumber}
unfoldable pub use Numbers.{
  number_value, number_type, to_float64, to_int64, normalize_numbers, ordered, ordered_compare,
  compare_numbers, equality_compare, arithmetic, arithmetic_doubles, arithmetic_integers, quotient,
  arithmetic_numbers, truthy_bool, eval_unary_value,
}
