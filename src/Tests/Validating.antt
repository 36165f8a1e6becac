-- ===== src/Tests/Validating.antt =====
-- A definition that is valid: it maps the field `id` of the request from an INT to a LONG.
use risk_engine.Prelude.{◌≡◌, refl, true, some, [], ◌∷◌, bytes}
use risk_engine.Prelude.Int.{pos}
use risk_engine.Outcome.{ok, error_at, dependency_mismatch, type_mismatch}
use risk_engine.Operators.{ValueType}
use risk_engine.Schema.{
  Schema, FactorDefinition, FactorRegistry, RpcFactorConfig, field_schema, field, empty, nil, ref,
}
use risk_engine.Validator.{
  type_descriptor, ThriftMethod, ThriftIdl, to_descriptor, none_described, described,
  validate_rpc_factor,
}

abbrev output : ValueType → Schema
output t = field (bytes "value") (ref (field_schema t true empty nil)) empty

abbrev config : RpcFactorConfig
config = record {
  idl_code = bytes "users";
  idl_version = pos 1;
  service = bytes "Users";
  method = bytes "Age";
  request_mapping = (bytes "id", bytes "user.value") ∷ [];
  response_mapping = (bytes "value", bytes "age") ∷ [];
}

abbrev user : FactorDefinition
user = record {
  factor_code = bytes "user";
  factor_category = bytes "RPC";
  factor_type = bytes "THRIFT_INVOKER";
  input_schema = empty;
  output_schema = output ValueType.int;
  dependencies = [];
  config = config;
  published = true;
}

abbrev age : FactorDefinition
age = record user {
  factor_code = bytes "age";
  input_schema = output ValueType.string;
  dependencies = bytes "user" ∷ [];
}

abbrev registry : FactorRegistry
registry = (bytes "user", some user) ∷ []

abbrev method : ThriftMethod
method = record {
  request =
      described (bytes "id") (to_descriptor (type_descriptor ValueType.long true none_described))
        none_described;
  response =
      described (bytes "age") (to_descriptor (type_descriptor ValueType.int true none_described))
        none_described;
}

abbrev idl : ThriftIdl
idl = record { lookup_method = λ code version service name. some (some method) }

refused :
    validate_rpc_factor (some (record age { dependencies = [] })) registry idl
    ≡ ok (error_at dependency_mismatch (bytes "id") ∷ [])
unfolding validate_rpc_factor
refused = refl

-- A response field of the type `t` for the output field of `age`.
abbrev responding : ValueType → ThriftIdl
responding t = record {
  lookup_method = λ code version service name. some (
      some (record method {
        response =
            described (bytes "age") (to_descriptor (type_descriptor t true none_described))
              none_described;
      }));
}

-- A LONG response is accepted for an INT output field, and an INT response is refused for a LONG one.
narrowed : validate_rpc_factor (some age) registry (responding ValueType.long) ≡ ok []
unfolding validate_rpc_factor
narrowed = refl

not_widened :
    validate_rpc_factor
      (some (record age { output_schema = output ValueType.long }))
      registry
      (responding ValueType.int)
    ≡ ok (error_at type_mismatch (bytes "config.response_mapping.value") ∷ [])
unfolding validate_rpc_factor
not_widened = refl
