-- ===== src/Fingerprint.antt =====
-- factorengine/compiler_cache.go: the key of a compilation, `BuildCompileCacheKey` with
-- `RegistryFingerprint`; and `Fingerprint` of factorengine/bytecode.go.
use risk_engine.Prelude.{
  ℕ, suc, Bool, true, false, Option, none, some, List, [], ◌∷◌, ◌++◌, Str, bytes, str_lt, join,
  decimal,
}
use risk_engine.Prelude.Int.{ℤ, pos, negsuc}
use risk_engine.Prelude.Sorting.{sort}
use risk_engine.Outcome.{Outcome, ok, panic, ◌>>=◌}
use risk_engine.Operators.{type_text, name_text}
use risk_engine.Schema.{
  FieldSchema, field_schema, FieldPtr, nil, ref, Schema, empty, field, FactorDefinition,
  FactorRegistry, RpcFactorConfig,
}
use risk_engine.Value.{Value}
use risk_engine.Accessor.{FactorValueAccessor}
use risk_engine.Bytecode.{OpCode, Instruction, BytecodeProgram}

-- `json.Marshal` of a map of strings, and `hex.EncodeToString` of `sha256.Sum256`.
pub record Encoders : Type 0 where
  pub marshal : List (Str × Str) → Outcome Str
  pub sha256_hex : Str → Str

-- `%d`, and `strconv.FormatBool`.
abbrev pub format_int : ℤ → Str
format_int (pos n) = decimal n
format_int (negsuc n) = b'-' ∷ decimal (suc n)

abbrev pub format_bool : Bool → Str
format_bool true = bytes "true"
format_bool false = bytes "false"

-- The order of `sort.Strings` on entries by their keys.
abbrev pub key_less : {V : Type 0} → Str × V → Str × V → Bool
key_less (j, v) (k, w) = str_lt j k

-- `key + ":" + fieldFingerprint`.
write_parts : List (Str × Str) → List Str
write_parts [] = []
write_parts ((k, p) ∷ parts) = (k ++ b':' ∷ p) ∷ write_parts parts

-- The entries in the order of their keys, in braces.
braces : List (Str × Str) → Str
unfolding write_parts sort str_lt join
braces parts = b'{' ∷ (join (bytes ",") (write_parts (sort key_less parts)) ++ bytes "}")

mutual
  unfolding braces

  -- `fieldSchemaFingerprint`.
  field_fingerprint : FieldSchema → Str
  field_fingerprint (field_schema t required fields elem) =
      type_text t ++ b':' ∷ (format_bool required ++ (elem_part elem ++ fields_part fields))

  pointer_fingerprint : FieldPtr → Str
  pointer_fingerprint nil = bytes "null"
  pointer_fingerprint (ref f) = field_fingerprint f

  elem_part : FieldPtr → Str
  elem_part nil = []
  elem_part (ref f) = bytes ":elem=" ++ field_fingerprint f

  fields_part : Schema → Str
  fields_part empty = []
  fields_part (field k f s) =
      bytes ":fields=" ++ braces ((k, pointer_fingerprint f) ∷ field_fingerprints s)

  field_fingerprints : Schema → List (Str × Str)
  field_fingerprints empty = []
  field_fingerprints (field k f s) = (k, pointer_fingerprint f) ∷ field_fingerprints s

-- `schemaFingerprint`; it has no error but those of the fields, which have none.
unfoldable pub schema_fingerprint : Schema → Str
unfolding field_fingerprints braces
schema_fingerprint empty = bytes "{}"
schema_fingerprint (field k f s) = braces (field_fingerprints (field k f s))

module _ (enc : Encoders) where
  unfoldable pub rpc_config_fingerprint : RpcFactorConfig → Outcome Str
  rpc_config_fingerprint config = do
    request_mapping ← enc.marshal config.request_mapping
    response_mapping ← enc.marshal config.response_mapping
    ok (
        join (bytes "|") (
          config.idl_code
          ∷ format_int config.idl_version
          ∷ config.service
          ∷ config.method
          ∷ request_mapping
          ∷ response_mapping
          ∷ []))

  -- One round of the loop of `RegistryFingerprint`; a nil definition is a panic.
  unfoldable pub factor_fingerprint : Str → Option FactorDefinition → Outcome Str
  unfolding schema_fingerprint rpc_config_fingerprint sort
  factor_fingerprint factor_code none = panic
  factor_fingerprint factor_code (some def) = do
    config ← rpc_config_fingerprint def.config
    ok (
        join (bytes "|") (
          factor_code
          ∷ def.factor_category
          ∷ def.factor_type
          ∷ format_bool def.published
          ∷ schema_fingerprint def.input_schema
          ∷ schema_fingerprint def.output_schema
          ∷ join (bytes ",") (sort str_lt def.dependencies)
          ∷ config
          ∷ [])
        ++ bytes ";")

  unfoldable pub write_factors : FactorRegistry → Outcome Str
  unfolding factor_fingerprint
  write_factors [] = ok []
  write_factors ((factor_code, def) ∷ factors) = do
    s ← factor_fingerprint factor_code def
    rest ← write_factors factors
    ok (s ++ rest)

  unfoldable pub registry_fingerprint : FactorRegistry → Outcome Str
  unfolding write_factors sort
  registry_fingerprint registry = write_factors (sort key_less registry)

  unfoldable pub build_compile_cache_key : Str → FactorRegistry → Outcome Str
  unfolding registry_fingerprint
  build_compile_cache_key expr registry = do
    fingerprint ← registry_fingerprint registry
    ok (expr ++ (bytes "::" ++ fingerprint))

-- The numbers of the opcodes.
unfoldable pub op_number : OpCode → ℕ
op_number OpCode.push_const = 0
op_number OpCode.load_factor = 1
op_number OpCode.make_list = 2
op_number OpCode.make_map = 3
op_number OpCode.unary_not = 4
op_number OpCode.unary_neg = 5
op_number OpCode.binary_lt = 6
op_number OpCode.binary_le = 7
op_number OpCode.binary_gt = 8
op_number OpCode.binary_ge = 9
op_number OpCode.binary_eq = 10
op_number OpCode.binary_ne = 11
op_number OpCode.binary_add = 12
op_number OpCode.binary_sub = 13
op_number OpCode.binary_mul = 14
op_number OpCode.binary_div = 15
op_number OpCode.jump_if_false = 16
op_number OpCode.jump_if_true = 17
op_number OpCode.jump = 18
op_number OpCode.call_builtin = 19
op_number (OpCode.unknown n) = n

unfoldable pub write_all : {A : Type 0} → (A → Str) → List A → Str
write_all f [] = []
write_all f (x ∷ xs) = f x ++ write_all f xs

unfoldable pub write_instruction : Instruction → Str
unfolding op_number
write_instruction inst =
    decimal (op_number inst.op)
    ++ b':' ∷ (decimal inst.arg ++ b':' ∷ (decimal inst.aux ++ bytes ";"))

-- What `fmt` prints for a constant (`%T=%#v`) and for an accessor (`%#v`).
pub record Printer (D : Type 0) : Type 0 where
  pub const_text : Value D → Str
  pub accessor_text : FactorValueAccessor → Str

module _ {D : Type 0} (printer : Printer D) where
  unfoldable pub fingerprint_source : BytecodeProgram D → Str
  unfolding write_all write_instruction
  fingerprint_source p =
      bytes "result="
      ++ (type_text p.result_type
          ++ b'|'
            ∷ (write_all write_instruction p.instructions
                ++ b'|'
                  ∷ (write_all (λ v. printer.const_text v ++ bytes ";") p.constants
                      ++ b'|'
                        ∷ (write_all (λ a. printer.accessor_text a ++ bytes ";") p.accessors
                            ++ b'|' ∷ write_all (λ name. name_text name ++ bytes ";") p.builtins))))

  unfoldable pub fingerprint : Encoders → BytecodeProgram D → Str
  unfolding fingerprint_source
  fingerprint enc p = enc.sha256_hex (fingerprint_source p)
