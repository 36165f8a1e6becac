-- ===== src/Validator.antt =====
-- factorengine/validator.go: `ValidateRPCFactor`, with the descriptors of factorengine/types.go and
-- `ResolveResponsePath` of factorengine/schema.go. A Go map is met in the order of its association list.
use risk_engine.Prelude.{
  ◌==◌, Bool, true, false, not, ◌&&◌, ◌||◌, Option, none, some, List, [], ◌∷◌, ◌++◌, Str, bytes,
  str_eq, if◌then◌else◌,
}
use risk_engine.Prelude.Int.{ℤ, pos, eqb_ℤ}
use risk_engine.Outcome.{
  Outcome, ok, err, panic, ◌>>=◌, ValidationError, error_at, error_of, definition_invalid,
  factor_ref_not_found, dependency_mismatch, factor_not_published, request_field_missing,
  response_path_invalid, unsupported_value_type, type_mismatch,
}
use risk_engine.Operators.{ValueType, type_eq}
use risk_engine.Schema.{
  FieldSchema, FieldPtr, Schema, FactorDefinition, FactorRegistry, FactorRef, nil, ref, empty,
  field, field_type, field_required, lookup_field, schema_length, lookup_factor, resolve_factor_ref,
}
use risk_engine.Parser.Refs.{parse_factor_ref, parse_response_path}
use risk_engine.Service.{wrap_field_error}

mutual
  -- Type, Required, Fields.
  pub data TypeDescriptor : Type 0 where
    type_descriptor : ValueType → Bool → Descriptors → TypeDescriptor

  pub data DescriptorPtr : Type 0 where
    no_descriptor : DescriptorPtr
    to_descriptor : TypeDescriptor → DescriptorPtr

  pub data Descriptors : Type 0 where
    none_described : Descriptors
    described : Str → DescriptorPtr → Descriptors → Descriptors

abbrev pub descriptor_type : TypeDescriptor → ValueType
descriptor_type (type_descriptor t required fields) = t

abbrev pub descriptor_required : TypeDescriptor → Bool
descriptor_required (type_descriptor t required fields) = required

abbrev pub descriptor_fields : TypeDescriptor → Descriptors
descriptor_fields (type_descriptor t required fields) = fields

pub record ThriftMethod : Type 0 where
  pub request : Descriptors
  pub response : Descriptors

-- `LookupMethod`, whose pointer may be nil.
pub record ThriftIdl : Type 0 where
  pub lookup_method : Str → ℤ → Str → Str → Option (Option ThriftMethod)

unfoldable pub lookup_descriptor : Str → Descriptors → Option DescriptorPtr
unfolding str_eq
lookup_descriptor k none_described = none
lookup_descriptor k (described j d m) = if str_eq j k then some d else lookup_descriptor k m

-- The loop of `ResolveResponsePath`; `raw` is the text of the path.
unfoldable pub resolve_response_path : Str → Descriptors → List Str → Outcome DescriptorPtr
unfolding lookup_descriptor type_eq
resolve_response_path raw current [] = err (error_at response_path_invalid raw)
resolve_response_path raw current (segment ∷ []) = elim (lookup_descriptor segment current) [
  | none ↦ err (error_at response_path_invalid raw)
  | some node ↦ ok node
]
resolve_response_path raw current (segment ∷ next ∷ rest) =
    elim (lookup_descriptor segment current) [
      | none ↦ err (error_at response_path_invalid raw)
      | some no_descriptor ↦ panic
      | some (to_descriptor node) ↦ elim (type_eq (descriptor_type node) ValueType.object) [
        | true ↦ resolve_response_path raw (descriptor_fields node) (next ∷ rest)
        | false ↦ err (error_at response_path_invalid raw)
      ]
    ]

-- The errors that a check appends.
abbrev pub Errors : Type 0
Errors = List ValidationError

-- `if !holds { errs = append(errs, e) }`.
abbrev pub unless : Bool → ValidationError → Errors
unless true e = []
unless false e = e ∷ []

-- `if err != nil { errs = append(errs, wrapFieldError(err, at)); continue }`, before `k`.
abbrev pub reporting : {A : Type 0} → Outcome A → Str → (A → Outcome Errors) → Outcome Errors
reporting (ok a) at k = k a
reporting (err e) at k = ok (wrap_field_error e at ∷ [])
reporting panic at k = panic

-- `if !ok { errs = append(errs, e); continue }`, before `k`.
abbrev pub present :
    {A : Type 0} → Option A → ValidationError → (A → Outcome Errors) → Outcome Errors
present none e k = ok (e ∷ [])
present (some a) e k = k a

-- Pointers that are read: a nil one is a panic.
abbrev pub the_field : FieldPtr → Outcome FieldSchema
the_field nil = panic
the_field (ref f) = ok f

abbrev pub the_descriptor : DescriptorPtr → Outcome TypeDescriptor
the_descriptor no_descriptor = panic
the_descriptor (to_descriptor d) = ok d

abbrev pub pointed : {A : Type 0} → Option A → Outcome A
pointed none = panic
pointed (some a) = ok a

unfoldable pub ensure_type_compatible : ValueType → ValueType → Str → Errors
unfolding type_eq
ensure_type_compatible source target at =
    if type_eq source target
    then []
    else if type_eq source ValueType.int && type_eq target ValueType.long
    then []
    else if type_eq source ValueType.object
    then error_at unsupported_value_type at ∷ []
    else error_at type_mismatch at ∷ []

-- A membership test, for Go's sets of strings.
unfoldable pub contains : Str → List Str → Bool
unfolding str_eq
contains k [] = false
contains k (j ∷ js) = if str_eq j k then true else contains k js

abbrev pub no_entries : List (Str × Str) → Bool
no_entries [] = true
no_entries (x ∷ xs) = false

-- The checks before the method is looked up.
unfoldable pub definition_errors : FactorDefinition → Errors
unfolding str_eq
definition_errors def =
    unless (str_eq def.factor_category (bytes "RPC"))
      (error_at definition_invalid (bytes "factor_category"))
    ++ unless (str_eq def.factor_type (bytes "THRIFT_INVOKER"))
        (error_at definition_invalid (bytes "factor_type"))
    ++ unless (not (schema_length def.input_schema == 0))
        (error_at definition_invalid (bytes "input_schema"))
    ++ unless (not (schema_length def.output_schema == 0))
        (error_at definition_invalid (bytes "output_schema"))
    ++ unless (not (no_entries def.config.request_mapping))
        (error_at definition_invalid (bytes "config.request_mapping"))
    ++ unless (not (no_entries def.config.response_mapping))
        (error_at definition_invalid (bytes "config.response_mapping"))
    ++ unless
        (not (
          str_eq def.config.idl_code []
          || eqb_ℤ def.config.idl_version (pos 0)
          || str_eq def.config.service []
          || str_eq def.config.method []))
        (error_at definition_invalid (bytes "config"))

-- A loop that appends errors.
unfoldable pub errors_of : {A : Type 0} → (A → Outcome Errors) → List A → Outcome Errors
errors_of check [] = ok []
errors_of check (x ∷ xs) = do errs ← check x; more ← errors_of check xs; ok (errs ++ more)

-- The fields of a request that a reference to `dep` goes to.
unfoldable pub reference_errors :
    FactorDefinition → Option ThriftMethod → Str → FactorRef → FactorDefinition → Outcome Errors
unfolding resolve_factor_ref lookup_descriptor ensure_type_compatible
reference_errors def method request_field r dep =
    let at = bytes "config.request_mapping." ++ request_field in
    reporting (resolve_factor_ref r (some dep)) at λ source_ptr. do
      m ← pointed method
      present (lookup_descriptor request_field m.request)
          (error_at request_field_missing request_field)
          λ target_ptr. do
            source ← the_field source_ptr
            target ← the_descriptor target_ptr
            ok (ensure_type_compatible (field_type source) (descriptor_type target) at)

-- One entry of the request mapping.
unfoldable pub request_errors :
    FactorRegistry → FactorDefinition → Option ThriftMethod → Str × Str → Outcome Errors
unfolding parse_factor_ref lookup_factor contains reference_errors
request_errors registry def method (request_field, raw) =
    reporting (parse_factor_ref raw) (bytes "config.request_mapping." ++ request_field) λ r.
      present (lookup_factor r.factor_code registry) (error_at factor_ref_not_found request_field)
        λ dep_ptr. do
          dep ← pointed dep_ptr
          errs ← reference_errors def method request_field r dep
          ok (
              unless (contains r.factor_code def.dependencies)
                (error_at dependency_mismatch request_field)
              ++ unless dep.published (error_at factor_not_published request_field)
              ++ errs)

-- One entry of the response mapping.
unfoldable pub response_errors : FactorDefinition → Option ThriftMethod → Str × Str → Outcome Errors
unfolding lookup_field parse_response_path resolve_response_path ensure_type_compatible
response_errors def method (output_field, raw) =
    let at = bytes "config.response_mapping." ++ output_field in
    present (lookup_field output_field def.output_schema) (error_at definition_invalid at)
      λ target_ptr. reporting (parse_response_path raw) at λ path. do
        m ← pointed method
        reporting (resolve_response_path path.raw m.response path.segments) at λ source_ptr. do
          target ← the_field target_ptr
          source ← the_descriptor source_ptr
          ok (
              ensure_type_compatible (field_type target) (descriptor_type source) at
              ++ unless (not (field_required target && not (descriptor_required source)))
                  (error_at definition_invalid at))

-- The keys of the response mapping that the output schema has.
unfoldable pub covered_fields : Schema → List (Str × Str) → List Str
unfolding lookup_field
covered_fields output [] = []
covered_fields output ((k, raw) ∷ mapping) =
    let rest = covered_fields output mapping in
    elim (lookup_field k output) [ none ↦ rest | some target ↦ k ∷ rest ]

unfoldable pub uncovered_errors : List Str → Schema → Errors
unfolding contains
uncovered_errors covered empty = []
uncovered_errors covered (field k f output) =
    unless (contains k covered) (error_at definition_invalid (bytes "output_schema." ++ k))
    ++ uncovered_errors covered output

-- `ValidateRPCFactor` once the method is found.
unfoldable pub mapping_errors :
    FactorRegistry → FactorDefinition → Option ThriftMethod → Outcome Errors
unfolding errors_of request_errors response_errors uncovered_errors covered_fields
mapping_errors registry def method = do
  requests ← errors_of (request_errors registry def method) def.config.request_mapping
  responses ← errors_of (response_errors def method) def.config.response_mapping
  ok (
      requests
      ++ responses
      ++ uncovered_errors (covered_fields def.output_schema def.config.response_mapping)
          def.output_schema)

-- The list of errors that is returned, or a panic.
unfoldable pub validate_rpc_factor :
    Option FactorDefinition → FactorRegistry → ThriftIdl → Outcome Errors
unfolding definition_errors mapping_errors
validate_rpc_factor none registry idl = ok (error_of definition_invalid ∷ [])
validate_rpc_factor (some def) registry idl = elim (definition_errors def) [
  | e ∷ es ↦ ok (e ∷ es)
  | [] ↦
      let config = def.config in
      elim (idl.lookup_method config.idl_code config.idl_version config.service config.method) [
        | none ↦ ok (error_at definition_invalid (bytes "config") ∷ [])
        | some method ↦ mapping_errors registry def method
      ]
]
