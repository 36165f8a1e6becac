-- ===== src/Runtime/Numbers.antt =====
-- factorengine/evaluator.go: truth, unary operators, comparison and arithmetic on values.
use risk_engine.Prelude.{Bool, true, false, not, Option, none, some, str_eq, str_lt, if◌then◌else◌}
use risk_engine.Prelude.Int.{ℤ, pos, ◌+ℤ◌, ◌-ℤ◌, ◌*ℤ◌, div_ℤ, ltb_ℤ, leb_ℤ, eqb_ℤ, wrap64}
use risk_engine.Outcome.{
  Outcome, ok, err, panic, ◌>>=◌, error_of, type_mismatch, unsupported_operator, division_by_zero,
}
use risk_engine.Operators.{ValueType, BinaryOp, UnaryOp, merge_numeric_type}
use risk_engine.Value.{Value, null, bool, str, int, int64, float64}

-- Go's `/` on int64: a zero divisor is a panic.
unfoldable pub quotient : ℤ → ℤ → Outcome ℤ
unfolding wrap64 div_ℤ
quotient l r = if eqb_ℤ r (pos 0) then panic else ok (wrap64 (div_ℤ l r))

-- What the engine uses of Go's `float64`.
pub record Floats (D : Type 0) : Type 0 where
  pub add : D → D → D
  pub sub : D → D → D
  pub mul : D → D → D
  pub div : D → D → D
  pub neg : D → D
  pub lt : D → D → Bool
  pub le : D → D → Bool
  pub eq : D → D → Bool
  pub of_int : ℤ → D
  pub zero : D

-- What `numberValue` finds: the type together with the value asserted to it.
pub data Number (D : Type 0) : Type 0 where
  int_number : ℤ → Number D
  long_number : ℤ → Number D
  double_number : D → Number D

pub record NormalizedNumber (D : Type 0) : Type 0 where
  pub as_int64 : ℤ
  pub as_float64 : D

unfoldable pub truthy_bool : {D : Type 0} → Value D → Bool
truthy_bool (bool b) = b
truthy_bool _ = false

unfoldable pub number_value : {D : Type 0} → Value D → Option (Number D)
number_value (Value.int v) = some (int_number v)
number_value (Value.int64 v) = some (long_number v)
number_value (Value.float64 v) = some (double_number v)
number_value _ = none

unfoldable pub number_type : {D : Type 0} → Number D → ValueType
number_type (int_number v) = ValueType.int
number_type (long_number v) = ValueType.long
number_type (double_number v) = ValueType.double

unfoldable pub to_int64 : {D : Type 0} → Number D → ℤ
to_int64 (int_number v) = v
to_int64 (long_number v) = v
to_int64 (double_number v) = pos 0

-- The four ordered operators, by the strict and the weak order of a type.
unfoldable pub ordered :
    {A : Type 0} → (A → A → Bool) → (A → A → Bool) → BinaryOp → A → A → Option Bool
ordered less less_eq BinaryOp.lt a b = some (less a b)
ordered less less_eq BinaryOp.le a b = some (less_eq a b)
ordered less less_eq BinaryOp.gt a b = some (less b a)
ordered less less_eq BinaryOp.ge a b = some (less_eq b a)
ordered less less_eq _ a b = none

module _ {D : Type 0} ⦃fl : Floats D⦄ where
  unfoldable pub to_float64 : Number D → D
  to_float64 (int_number v) = fl.of_int v
  to_float64 (long_number v) = fl.of_int v
  to_float64 (double_number v) = v

  unfoldable pub eval_unary_value : UnaryOp → Value D → Outcome (Value D)
  unfolding ◌-ℤ◌ wrap64
  eval_unary_value UnaryOp.not null = ok (bool false)
  eval_unary_value UnaryOp.not (bool b) = ok (bool (not b))
  eval_unary_value UnaryOp.not _ = err (error_of type_mismatch)
  eval_unary_value UnaryOp.neg null = ok null
  eval_unary_value UnaryOp.neg (int v) = ok (int (wrap64 (pos 0 -ℤ v)))
  eval_unary_value UnaryOp.neg (int64 v) = ok (int64 (wrap64 (pos 0 -ℤ v)))
  eval_unary_value UnaryOp.neg (float64 v) = ok (float64 (fl.neg v))
  eval_unary_value UnaryOp.neg _ = err (error_of type_mismatch)
  eval_unary_value (UnaryOp.other s) _ = err (error_of unsupported_operator)

  unfoldable pub normalize_numbers :
      Value D → Value D → Option (NormalizedNumber D × NormalizedNumber D × ValueType)
  unfolding number_value number_type to_float64 to_int64 merge_numeric_type
  normalize_numbers left right = elim (number_value left) [
    | none ↦ none
    | some l ↦ elim (number_value right) [
      | none ↦ none
      | some r ↦ some (elim (merge_numeric_type (number_type l) (number_type r)) [
        | ValueType.double ↦ (
          record { as_int64 = pos 0; as_float64 = to_float64 l },
          record { as_int64 = pos 0; as_float64 = to_float64 r },
          ValueType.double,
        )
        | kind ↦ (
          record { as_int64 = to_int64 l; as_float64 = fl.zero },
          record { as_int64 = to_int64 r; as_float64 = fl.zero },
          kind,
        )
      ])
    ]
  ]

  -- The switch of `orderedCompare` over the kind of two numbers.
  unfoldable pub compare_numbers :
      NormalizedNumber D → NormalizedNumber D → ValueType → BinaryOp → Outcome Bool
  unfolding ordered
  compare_numbers l r kind op =
      let answer : Option Bool = elim kind [
        | ValueType.double ↦ ordered fl.lt fl.le op l.as_float64 r.as_float64
        | ValueType.int ↦ ordered ltb_ℤ leb_ℤ op l.as_int64 r.as_int64
        | ValueType.long ↦ ordered ltb_ℤ leb_ℤ op l.as_int64 r.as_int64
        | _ ↦ none
      ] in
      elim answer [ some b ↦ ok b | none ↦ err (error_of unsupported_operator) ]

  -- `orderedCompare` from `normalizeNumbers` on.
  ordered_compare_numbers : Value D → Value D → BinaryOp → Outcome Bool
  unfolding compare_numbers normalize_numbers
  ordered_compare_numbers left right op = elim (normalize_numbers left right) [
    | none ↦ err (error_of type_mismatch)
    | some (l, r, kind) ↦ compare_numbers l r kind op
  ]

  unfoldable pub ordered_compare : Value D → Value D → BinaryOp → Outcome Bool
  unfolding ordered ordered_compare_numbers str_lt
  ordered_compare null right op = ok false
  ordered_compare (str l) null op = ok false
  ordered_compare (str l) (str r) op = elim (ordered str_lt (λ a b. not (str_lt b a)) op l r) [
    | some b ↦ ok b
    | none ↦ ordered_compare_numbers (str l) (str r) op
  ]
  ordered_compare (str l) _ op = err (error_of type_mismatch)
  ordered_compare left null op = ok false
  ordered_compare left right op = ordered_compare_numbers left right op

  -- `equalityCompare` from `normalizeNumbers` on.
  equal_numbers : Value D → Value D → Bool
  unfolding normalize_numbers
  equal_numbers left right = elim (normalize_numbers left right) [
    | none ↦ false
    | some (l, r, kind) ↦ elim kind [
      | ValueType.double ↦ fl.eq l.as_float64 r.as_float64
      | _ ↦ eqb_ℤ l.as_int64 r.as_int64
    ]
  ]

  unfoldable pub equality_compare : Value D → Value D → Bool
  unfolding equal_numbers str_eq
  equality_compare null null = true
  equality_compare null _ = false
  equality_compare (bool l) (bool r) = if l then r else not r
  equality_compare (bool l) _ = false
  equality_compare (str l) (str r) = str_eq l r
  equality_compare (str l) _ = false
  equality_compare left null = false
  equality_compare left right = equal_numbers left right

  unfoldable pub arithmetic_doubles : D → D → BinaryOp → Outcome (Value D)
  arithmetic_doubles l r BinaryOp.add = ok (float64 (fl.add l r))
  arithmetic_doubles l r BinaryOp.sub = ok (float64 (fl.sub l r))
  arithmetic_doubles l r BinaryOp.mul = ok (float64 (fl.mul l r))
  arithmetic_doubles l r BinaryOp.div =
      if fl.eq r fl.zero then err (error_of division_by_zero) else ok (float64 (fl.div l r))
  arithmetic_doubles l r _ = err (error_of unsupported_operator)

  unfoldable pub arithmetic_integers : ℤ → ℤ → BinaryOp → Outcome (Value D)
  unfolding wrap64 ◌+ℤ◌ ◌-ℤ◌ ◌*ℤ◌ quotient
  arithmetic_integers l r BinaryOp.add = ok (int64 (wrap64 (l +ℤ r)))
  arithmetic_integers l r BinaryOp.sub = ok (int64 (wrap64 (l -ℤ r)))
  arithmetic_integers l r BinaryOp.mul = ok (int64 (wrap64 (l *ℤ r)))
  arithmetic_integers l r BinaryOp.div =
      if eqb_ℤ r (pos 0)
      then err (error_of division_by_zero)
      else quotient l r >>= λ n. ok (int64 n)
  arithmetic_integers l r _ = err (error_of unsupported_operator)

  -- `arithmetic` from `normalizeNumbers` on.
  unfoldable pub arithmetic_numbers : Value D → Value D → BinaryOp → Outcome (Value D)
  unfolding normalize_numbers arithmetic_doubles arithmetic_integers
  arithmetic_numbers left right op = elim (normalize_numbers left right) [
    | none ↦ err (error_of type_mismatch)
    | some (l, r, kind) ↦ elim kind [
      | ValueType.double ↦ arithmetic_doubles l.as_float64 r.as_float64 op
      | _ ↦ arithmetic_integers l.as_int64 r.as_int64 op
    ]
  ]

  unfoldable pub arithmetic : Value D → Value D → BinaryOp → Outcome (Value D)
  unfolding arithmetic_numbers
  arithmetic null right op = ok null
  arithmetic left null op = ok null
  arithmetic left right op = arithmetic_numbers left right op
