-- ===== src/Correct/Validating/Entries.antt =====
-- The entries of the mappings that factorengine/validator.go finds no fault in.
use risk_engine.Prelude.{
  sym, ◌≡◌, refl, ◌∙◌, ap, Bool, true, not, ◌&&◌, Option, some, [], ◌++◌, Str, bytes,
}
use risk_engine.Outcome.{
  ok, bind-eq-ok, error_at, dependency_mismatch, factor_not_published, definition_invalid,
}
use risk_engine.Correct.Opcodes.{ok_injective}
use risk_engine.Schema.{
  FieldSchema, FactorDefinition, FactorRegistry, FactorRef, ref, field_type, field_required,
  lookup_field, lookup_factor, resolve_factor_ref,
}
use risk_engine.Parser.Refs.{ResponsePath, parse_factor_ref, parse_response_path}
use risk_engine.Validator.{
  TypeDescriptor, to_descriptor, descriptor_type, descriptor_required, ThriftMethod, unless,
  the_field, the_descriptor, pointed, lookup_descriptor, resolve_response_path,
  ensure_type_compatible, contains, reference_errors, request_errors, response_errors,
}
use risk_engine.Correct.Validating.Checks.{
  append-eq-nil, unless-eq-nil, reporting-eq-nil, present-eq-nil, pointed-eq-ok, the_field-eq-ok,
  the_descriptor-eq-ok, compatible, fills, fills-compatible, ensure_type_compatible-eq-nil,
  ensure_type_compatible-nil,
}

module _ (registry : FactorRegistry) (def : FactorDefinition) (method : Option ThriftMethod) where
  -- An entry of the request mapping refers to a field of a published dependency, and the request has a
  -- field of a type that the field fits.
  pub record RequestFits (entry : Str × Str) : Type 0 where
    pub factor_ref : FactorRef
    pub dep : FactorDefinition
    pub source : FieldSchema
    pub thrift_method : ThriftMethod
    pub target : TypeDescriptor
    pub parsed : parse_factor_ref entry.1 ≡ ok factor_ref
    pub registered : lookup_factor factor_ref.factor_code registry ≡ some (some dep)
    pub depended_on : contains factor_ref.factor_code def.dependencies ≡ true
    pub is_published : dep.published ≡ true
    pub resolved : resolve_factor_ref factor_ref (some dep) ≡ ok (ref source)
    pub is_method : method ≡ some thrift_method
    pub wanted : lookup_descriptor entry.0 thrift_method.request ≡ some (to_descriptor target)
    pub fits : compatible (field_type source) (descriptor_type target) ≡ true

  -- An entry of the response mapping names an output field, and its path leads to a field of the response
  -- of its type, or to a LONG for an INT output field, which is required if the output field is.
  pub record ResponseFits (entry : Str × Str) : Type 0 where
    pub path : ResponsePath
    pub target : FieldSchema
    pub thrift_method : ThriftMethod
    pub source : TypeDescriptor
    pub declared : lookup_field entry.0 def.output_schema ≡ some (ref target)
    pub parsed : parse_response_path entry.1 ≡ ok path
    pub is_method : method ≡ some thrift_method
    pub resolved :
        resolve_response_path path.raw thrift_method.response path.segments
        ≡ ok (to_descriptor source)
    pub fits : fills (descriptor_type source) (field_type target) ≡ true
    pub provided : not (field_required target && not (descriptor_required source)) ≡ true

  pub request_errors-eq-nil :
      (entry : Str × Str) → request_errors registry def method entry ≡ ok [] → RequestFits entry
  unfolding request_errors reference_errors
  request_errors-eq-nil (k, raw) h =
      let (r, parsed, h1) = reporting-eq-nil (parse_factor_ref raw) _ _ h in
      let (dep_ptr, looked, h2) = present-eq-nil (lookup_factor r.factor_code registry) _ _ h1 in
      let (dep, there, h3) = bind-eq-ok (pointed dep_ptr) _ h2 in
      let (errs, linked, h4) = bind-eq-ok (reference_errors def method k r dep) _ h3 in
      let (linked_well, none_left) = append-eq-nil _ errs (ok_injective h4) in
      let (a, b) =
        append-eq-nil
          (unless (contains r.factor_code def.dependencies) (error_at dependency_mismatch k))
          (unless dep.published (error_at factor_not_published k)) linked_well in
      let (source_ptr, resolved, h6) =
        reporting-eq-nil (resolve_factor_ref r (some dep)) _ _ (linked ∙ ap ok none_left) in
      let (m, has_method, h7) = bind-eq-ok (pointed method) _ h6 in
      let (target_ptr, wanted, h8) = present-eq-nil (lookup_descriptor k m.request) _ _ h7 in
      let (source, is_source, h9) = bind-eq-ok (the_field source_ptr) _ h8 in
      let (target, is_target, last) = bind-eq-ok (the_descriptor target_ptr) _ h9 in
      record {
        factor_ref = r;
        dep = dep;
        source = source;
        thrift_method = m;
        target = target;
        parsed = parsed;
        registered = looked ∙ ap some (pointed-eq-ok dep_ptr there);
        depended_on = unless-eq-nil (contains r.factor_code def.dependencies) _ a;
        is_published = unless-eq-nil dep.published _ b;
        resolved = resolved ∙ ap ok (the_field-eq-ok source_ptr is_source);
        is_method = pointed-eq-ok method has_method;
        wanted = wanted ∙ ap some (the_descriptor-eq-ok target_ptr is_target);
        fits =
            ensure_type_compatible-eq-nil (field_type source) (descriptor_type target)
              (bytes "config.request_mapping." ++ k) (ok_injective last);
      }

  pub request_errors-nil :
      (entry : Str × Str) → RequestFits entry → request_errors registry def method entry ≡ ok []
  unfolding request_errors reference_errors
  request_errors-nil (k, raw) fit =
      rw
        (
          request_errors,
          fit.parsed,
          fit.registered,
          reference_errors,
          fit.resolved,
          fit.is_method,
          fit.wanted,
          ensure_type_compatible-nil _ _ (bytes "config.request_mapping." ++ k) fit.fits,
          fit.depended_on,
          fit.is_published,
        )
        refl

  pub response_errors-eq-nil :
      (entry : Str × Str) → response_errors def method entry ≡ ok [] → ResponseFits entry
  unfolding response_errors
  response_errors-eq-nil (k, raw) h =
      let (target_ptr, declared, h1) = present-eq-nil (lookup_field k def.output_schema) _ _ h in
      let (path, parsed, h2) = reporting-eq-nil (parse_response_path raw) _ _ h1 in
      let (m, has_method, h3) = bind-eq-ok (pointed method) _ h2 in
      let (source_ptr, resolved, h4) =
        reporting-eq-nil (resolve_response_path path.raw m.response path.segments) _ _ h3 in
      let (target, is_target, h5) = bind-eq-ok (the_field target_ptr) _ h4 in
      let (source, is_source, last) = bind-eq-ok (the_descriptor source_ptr) _ h5 in
      let at : Str = bytes "config.response_mapping." ++ k in
      let provides : Bool = not (field_required target && not (descriptor_required source)) in
      let (a, b) =
        append-eq-nil (ensure_type_compatible (field_type target) (descriptor_type source) at)
          (unless provides (error_at definition_invalid at)) (ok_injective last) in
      record {
        path = path;
        target = target;
        thrift_method = m;
        source = source;
        declared = declared ∙ ap some (the_field-eq-ok target_ptr is_target);
        parsed = parsed;
        is_method = pointed-eq-ok method has_method;
        resolved = resolved ∙ ap ok (the_descriptor-eq-ok source_ptr is_source);
        fits =
            fills-compatible (descriptor_type source) (field_type target)
            ∙ ensure_type_compatible-eq-nil (field_type target) (descriptor_type source) at a;
        provided = unless-eq-nil provides _ b;
      }

  pub response_errors-nil :
      (entry : Str × Str) → ResponseFits entry → response_errors def method entry ≡ ok []
  unfolding response_errors
  response_errors-nil (k, raw) fit =
      let source = descriptor_type fit.source in
      let target = field_type fit.target in
      let wide : compatible target source ≡ true =
        sym (fills-compatible source target) ∙ fit.fits in
      rw
        (
          response_errors,
          fit.declared,
          fit.parsed,
          fit.is_method,
          fit.resolved,
          ensure_type_compatible-nil target source (bytes "config.response_mapping." ++ k) wide,
          fit.provided,
        )
        refl
