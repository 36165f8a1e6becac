-- ===== src/Binder/Fields.antt =====
-- factorengine/binder.go: the schemas that the binder computes.
use risk_engine.Prelude.{Bool, true, false, ◌&&◌, Option, none, some, [], Str, bytes, if◌then◌else◌}
use risk_engine.Outcome.{Outcome, ok, err, panic, error_at, type_mismatch, field_not_found}
use risk_engine.Operators.{ValueType, type_eq}
use risk_engine.Schema.{
  FieldSchema, field_schema, FieldPtr, nil, ref, Schema, empty, field, field_type, field_fields,
  field_elem_type, lookup_field,
}
use risk_engine.Value.{Value, str}
use risk_engine.Bound.{BoundExpr, literal}

unfoldable pub scalar_field : ValueType → FieldPtr
scalar_field t = ref (field_schema t true empty nil)

-- The field of a list or a map literal with elements of a type.
abbrev pub container_field : ValueType → ValueType → FieldPtr
unfolding scalar_field
container_field container t = ref (field_schema container true empty (scalar_field t))

abbrev pub get_name : Str
get_name = bytes "get"

unfoldable pub is_set : FieldPtr → Bool
is_set nil = false
is_set (ref f) = true

unfoldable pub has_fields : Schema → Bool
has_fields empty = false
has_fields (field k f s) = true

-- `mergeFieldSchema` on two fields that are there.
unfoldable pub merge_fields : FieldSchema → FieldSchema → ValueType → FieldPtr
unfolding type_eq is_set has_fields scalar_field
merge_fields left right t =
    if type_eq (field_type left) ValueType.null
    then ref right
    else if type_eq (field_type right) ValueType.null
    then ref left
    else if type_eq t ValueType.map && is_set (field_elem_type left)
    then ref left
    else if type_eq t ValueType.list && is_set (field_elem_type left)
    then ref left
    else if type_eq t ValueType.object && has_fields (field_fields left)
    then ref left
    else scalar_field t

unfoldable pub merge_field_schema : FieldPtr → FieldPtr → ValueType → FieldPtr
unfolding merge_fields
merge_field_schema nil right t = right
merge_field_schema (ref left) nil t = ref left
merge_field_schema (ref left) (ref right) t = merge_fields left right t

-- The text of a string literal; `""` for another value.
literal_text : {D : Type 0} → Value D → Str
literal_text (str s) = s
literal_text _ = []

-- The key, if it is a literal of type STRING.
literal_key : {D : Type 0} → BoundExpr D → Option Str
unfolding literal_text type_eq
literal_key (literal v t f) = if type_eq t ValueType.string then some (literal_text v) else none
literal_key _ = none

object_result_field : {D : Type 0} → Schema → BoundExpr D → Outcome FieldPtr
unfolding literal_key lookup_field
object_result_field fields key = elim (literal_key key) [
  | none ↦ err (error_at type_mismatch get_name)
  | some k ↦ elim (lookup_field k fields) [
    | none ↦ err (error_at field_not_found k)
    | some f ↦ ok f
  ]
]

map_result_field : FieldPtr → Outcome FieldPtr
map_result_field nil = err (error_at type_mismatch get_name)
map_result_field (ref f) = ok (ref f)

unfoldable pub resolve_get_result_field : {D : Type 0} → FieldPtr → BoundExpr D → Outcome FieldPtr
unfolding object_result_field map_result_field
resolve_get_result_field nil key = err (error_at type_mismatch get_name)
resolve_get_result_field (ref f) key = elim (field_type f) [
  | ValueType.map ↦ map_result_field (field_elem_type f)
  | ValueType.object ↦ object_result_field (field_fields f) key
  | _ ↦ err (error_at type_mismatch get_name)
]

-- `field.Type`: a nil field is a panic.
unfoldable pub type_of_field : FieldPtr → Outcome ValueType
type_of_field nil = panic
type_of_field (ref f) = ok (field_type f)
