-- ===== src/Schema.antt =====
-- factorengine/types.go and schema.go: field schemas, factor definitions, and the resolution of a
-- factor reference in a schema. A Go map is an association list that holds a key once; the pointer
-- to a field schema is `nil` or `ref`.
use risk_engine.Prelude.{
  ℕ, suc, ◌==◌, ◌&&◌, Bool, true, false, Option, none, some, List, [], ◌∷◌, Str, bytes, str_eq,
  if◌then◌else◌,
}
use risk_engine.Prelude.Int.{ℤ}
use risk_engine.Outcome.{
  Outcome, ok, err, panic, error_at, error_of, factor_ref_not_found, factor_ref_ambiguous,
  field_not_found,
}
use risk_engine.Operators.{ValueType, type_eq}

mutual
  -- Type, Required, Fields, ElemType.
  pub data FieldSchema : Type 0 where
    field_schema : ValueType → Bool → Schema → FieldPtr → FieldSchema

  pub data FieldPtr : Type 0 where
    nil : FieldPtr
    ref : FieldSchema → FieldPtr

  pub data Schema : Type 0 where
    empty : Schema
    field : Str → FieldPtr → Schema → Schema

abbrev pub field_type : FieldSchema → ValueType
field_type (field_schema t required fields elem) = t

abbrev pub field_required : FieldSchema → Bool
field_required (field_schema t required fields elem) = required

abbrev pub field_fields : FieldSchema → Schema
field_fields (field_schema t required fields elem) = fields

abbrev pub field_elem_type : FieldSchema → FieldPtr
field_elem_type (field_schema t required fields elem) = elem

unfoldable pub lookup_field : Str → Schema → Option FieldPtr
unfolding str_eq
lookup_field k empty = none
lookup_field k (field j f s) = if str_eq j k then some f else lookup_field k s

abbrev pub schema_length : Schema → ℕ
schema_length empty = 0
schema_length (field k f s) = suc (schema_length s)

pub record RpcFactorConfig : Type 0 where
  pub idl_code : Str
  pub idl_version : ℤ
  pub service : Str
  pub method : Str
  pub request_mapping : List (Str × Str)
  pub response_mapping : List (Str × Str)

pub record FactorDefinition : Type 0 where
  pub factor_code : Str
  pub factor_category : Str
  pub factor_type : Str
  pub input_schema : Schema
  pub output_schema : Schema
  pub dependencies : List Str
  pub config : RpcFactorConfig
  pub published : Bool

pub record FactorRef : Type 0 where
  pub factor_code : Str
  pub path_segments : List Str
  pub is_default_value_ref : Bool

-- A registry maps a factor code to a pointer, which may be nil.
abbrev pub FactorRegistry : Type 0
FactorRegistry = List (Str × Option FactorDefinition)

unfoldable pub lookup_factor : Str → FactorRegistry → Option (Option FactorDefinition)
unfolding str_eq
lookup_factor k [] = none
lookup_factor k ((j, f) ∷ r) = if str_eq j k then some f else lookup_factor k r

unfoldable pub schema_has_single_value_field : Schema → Bool
unfolding lookup_field
schema_has_single_value_field schema =
    (schema_length schema == 1)
    && elim (lookup_field (bytes "value") schema) [ none ↦ false | some _ ↦ true ]

-- The loop of `resolveSchemaPath`; reading the type of a nil field is a panic.
unfoldable pub resolve_schema_path : Schema → List Str → Outcome FieldPtr
unfolding lookup_field type_eq
resolve_schema_path current [] = err (error_of field_not_found)
resolve_schema_path current (segment ∷ []) = elim (lookup_field segment current) [
  | none ↦ err (error_at field_not_found segment)
  | some node ↦ ok node
]
resolve_schema_path current (segment ∷ next ∷ rest) = elim (lookup_field segment current) [
  | none ↦ err (error_at field_not_found segment)
  | some nil ↦ panic
  | some (ref node) ↦ elim (type_eq (field_type node) ValueType.object) [
    | true ↦ resolve_schema_path (field_fields node) (next ∷ rest)
    | false ↦ err (error_at field_not_found segment)
  ]
]

-- The path that a reference stands for: an empty one names the single field `value`.
unfoldable pub default_path : List Str → Schema → List Str
unfolding schema_has_single_value_field
default_path [] schema = if schema_has_single_value_field schema then bytes "value" ∷ [] else []
default_path (segment ∷ rest) schema = segment ∷ rest

unfoldable pub resolve_factor_ref : FactorRef → Option FactorDefinition → Outcome FieldPtr
unfolding default_path resolve_schema_path
resolve_factor_ref r none = err (error_at factor_ref_not_found r.factor_code)
resolve_factor_ref r (some factor) = elim (default_path r.path_segments factor.output_schema) [
  | [] ↦ err (error_at factor_ref_ambiguous r.factor_code)
  | segment ∷ rest ↦ resolve_schema_path factor.output_schema (segment ∷ rest)
]
