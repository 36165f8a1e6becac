-- ===== src/Correct/Validating.antt =====
-- factorengine/validator.go: a definition has no errors exactly when it is valid.
pub mod Checks
pub mod Entries
use risk_engine.Prelude.{
  ◌==◌, ◌≡◌, refl, true, false, not, ◌&&◌, ◌||◌, Option, some, List, [], ◌∷◌, Str, bytes, str_eq,
  str_eq_refl, All, map, if◌then◌else◌,
}
use risk_engine.Prelude.Int.{ℤ, pos, eqb_ℤ}
use risk_engine.Outcome.{
  Outcome, err, panic, ◌>>=◌, ValidationError, dependency_mismatch, factor_not_published,
}
use risk_engine.Operators.{ValueType, type_eq}
use risk_engine.Schema.{
  FieldSchema, FieldPtr, Schema, FactorDefinition, FactorRegistry, FactorRef, RpcFactorConfig, nil,
  ref, empty, field, field_type, field_required, lookup_field, schema_length, lookup_factor,
  resolve_factor_ref,
}
use risk_engine.Parser.Refs.{ResponsePath, parse_factor_ref, parse_response_path}
use risk_engine.Validator.{
  TypeDescriptor, DescriptorPtr, no_descriptor, to_descriptor, descriptor_type, descriptor_required,
  ThriftMethod, ThriftIdl, reporting, present, the_field, the_descriptor, pointed,
  lookup_descriptor, resolve_response_path, ensure_type_compatible, contains, no_entries,
  reference_errors,
}
use risk_engine.Correct.Validating.Checks.{
  reporting-eq-nil, present-eq-nil, pointed-eq-ok, the_field-eq-ok, the_descriptor-eq-ok,
  compatible, ensure_type_compatible-eq-nil, ensure_type_compatible-nil,
}
use risk_engine.Correct.Validating.Entries.{RequestFits, ResponseFits}

-- The keys of a map.
abbrev pub keys_of : List (Str × Str) → List Str
keys_of [] = []
keys_of ((k, v) ∷ m) = k ∷ keys_of m

-- An output field that the response mapping fills.
abbrev pub IsCovered : Schema → List (Str × Str) → Str → Type 0
unfolding contains lookup_field
IsCovered output mapping k =
    (contains k (keys_of mapping) ≡ true) × ((f : FieldPtr) × (lookup_field k output ≡ some f))

contains-head : (k : Str) (ks : List Str) → contains k (k ∷ ks) ≡ true
unfolding contains
contains-head k ks = rw (contains, str_eq_refl k) refl

-- Every field of a schema.
abbrev pub EachField : (Str → Type 0) → Schema → Type 0
EachField P empty = Unit
EachField P (field k f output) = P k × EachField P output

module _ (registry : FactorRegistry) (def : FactorDefinition) (method : Option ThriftMethod) where
  -- The mappings of a definition.
  pub record IsMapped : Type 0 where
    pub requests : All (RequestFits registry def method) def.config.request_mapping
    pub responses : All (ResponseFits registry def method) def.config.response_mapping
    pub covered :
        EachField (IsCovered def.output_schema def.config.response_mapping) def.output_schema

-- What is checked before the method is looked up.
pub record IsWritten (def : FactorDefinition) : Type 0 where
  pub category : def.factor_category ≡ bytes "RPC"
  pub kind : def.factor_type ≡ bytes "THRIFT_INVOKER"
  pub has_input : not (schema_length def.input_schema == 0) ≡ true
  pub has_output : not (schema_length def.output_schema == 0) ≡ true
  pub has_requests : not (no_entries def.config.request_mapping) ≡ true
  pub has_responses : not (no_entries def.config.response_mapping) ≡ true
  pub has_config :
      not (
        str_eq def.config.idl_code []
        || eqb_ℤ def.config.idl_version (pos 0)
        || str_eq def.config.service []
        || str_eq def.config.method [])
      ≡ true

module _ (registry : FactorRegistry) (idl : ThriftIdl) (def : FactorDefinition) where
  -- The conditions on a definition: it is written, its method is there, and its mappings meet theirs.
  abbrev pub IsValid : Type 0
  IsValid =
      IsWritten def
      × ((method : Option ThriftMethod) × (idl.lookup_method def.config.idl_code
              def.config.idl_version def.config.service def.config.method
            ≡ some method)
          × IsMapped registry def method)
