-- ===== src/Correct/Validating/Checks.antt =====
-- When the checks of factorengine/validator.go append nothing.
use risk_engine.Prelude.{
  ◌≡◌, refl, ◌∙◌, ap, Bool, true, false, ◌&&◌, ◌||◌, Bool-cases, Option, none, some, List, [], ◌∷◌,
  ◌++◌, Str, All, inl, inr,
}
use risk_engine.Outcome.{Outcome, ok, err, panic, bind-eq-ok, ValidationError}
use risk_engine.Correct.Opcodes.{ok_injective}
use risk_engine.Operators.{ValueType, type_eq}
use risk_engine.Schema.{FieldSchema, FieldPtr, nil, ref}
use risk_engine.Validator.{
  TypeDescriptor, DescriptorPtr, no_descriptor, to_descriptor, Errors, unless, reporting, present,
  the_field, the_descriptor, pointed, ensure_type_compatible, errors_of,
}

pub append-eq-nil : {A : Type 0} (xs ys : List A) → xs ++ ys ≡ [] → (xs ≡ []) × (ys ≡ [])
append-eq-nil [] ys h = (refl, h)
append-eq-nil (x ∷ xs) ys h = cc

pub unless-eq-nil : (b : Bool) (e : ValidationError) → unless b e ≡ [] → b ≡ true
unless-eq-nil true e h = refl
unless-eq-nil false e h = cc

pub reporting-eq-nil :
    {A : Type 0} (m : Outcome A) (at : Str) (k : A → Outcome Errors)
    → reporting m at k ≡ ok []
    → (a : A) × (m ≡ ok a) × (k a ≡ ok [])
reporting-eq-nil (ok a) at k h = (a, refl, h)
reporting-eq-nil (err e) at k h = absurd (let g = ok_injective h in cc)
reporting-eq-nil panic at k h = cc

pub present-eq-nil :
    {A : Type 0} (o : Option A) (e : ValidationError) (k : A → Outcome Errors)
    → present o e k ≡ ok []
    → (a : A) × (o ≡ some a) × (k a ≡ ok [])
present-eq-nil none e k h = absurd (let g = ok_injective h in cc)
present-eq-nil (some a) e k h = (a, refl, h)

pub pointed-eq-ok : {A : Type 0} (o : Option A) {a : A} → pointed o ≡ ok a → o ≡ some a
pointed-eq-ok none h = cc
pointed-eq-ok (some x) h = ap some (ok_injective h)

pub the_field-eq-ok : (p : FieldPtr) {f : FieldSchema} → the_field p ≡ ok f → p ≡ ref f
the_field-eq-ok nil h = cc
the_field-eq-ok (ref x) h = ap ref (ok_injective h)

pub the_descriptor-eq-ok :
    (p : DescriptorPtr) {d : TypeDescriptor} → the_descriptor p ≡ ok d → p ≡ to_descriptor d
the_descriptor-eq-ok no_descriptor h = cc
the_descriptor-eq-ok (to_descriptor x) h = ap to_descriptor (ok_injective h)

-- A value of the first type may go into a request field of the second: only an INT widens, to a LONG.
abbrev pub compatible : ValueType → ValueType → Bool
unfolding type_eq
compatible s t = type_eq s t || (type_eq s ValueType.int && type_eq t ValueType.long)

-- What the code lets a response field fill: an output field of its type, and a LONG an INT output field. The
-- other way around, an INT does not fill a LONG output field.
abbrev pub fills : ValueType → ValueType → Bool
unfolding type_eq
fills response output =
    type_eq output response || (type_eq response ValueType.long && type_eq output ValueType.int)

pub fills-compatible : (s t : ValueType) → fills s t ≡ compatible t s
unfolding type_eq
fills-compatible s t =
    ap (λ b. type_eq t s || b) (swap (type_eq s ValueType.long) (type_eq t ValueType.int))
  where
    swap : (a b : Bool) → (a && b) ≡ (b && a)
    swap true true = refl
    swap true false = refl
    swap false true = refl
    swap false false = refl

pub ensure_type_compatible-eq-nil :
    (s t : ValueType) (at : Str) → ensure_type_compatible s t at ≡ [] → compatible s t ≡ true
unfolding ensure_type_compatible
ensure_type_compatible-eq-nil s t at h = elim (Bool-cases (type_eq s t)) [
  | inl e ↦ rw e refl
  | inr e ↦ elim (Bool-cases (type_eq s ValueType.int && type_eq t ValueType.long)) [
    | inl f ↦ rw (e, f) refl
    | inr f ↦ elim (Bool-cases (type_eq s ValueType.object)) [
      | inl g ↦ absurd (let k = (rw (ensure_type_compatible, e, f, g) at h) in cc)
      | inr g ↦ absurd (let k = (rw (ensure_type_compatible, e, f, g) at h) in cc)
    ]
  ]
]

pub ensure_type_compatible-nil :
    (s t : ValueType) (at : Str) → compatible s t ≡ true → ensure_type_compatible s t at ≡ []
unfolding ensure_type_compatible
ensure_type_compatible-nil s t at h = elim (Bool-cases (type_eq s t)) [
  | inl e ↦ rw (ensure_type_compatible, e) refl
  | inr e ↦
      let f : (type_eq s ValueType.int && type_eq t ValueType.long) ≡ true = (rw e at h) in
      rw (ensure_type_compatible, e, f) refl
]

module _ {A : Type 0} (check : A → Outcome Errors) where
  pub errors_of-eq-nil : (xs : List A) → errors_of check xs ≡ ok [] → All (λ x. check x ≡ ok []) xs
  unfolding errors_of
  errors_of-eq-nil [] h = tt
  errors_of-eq-nil (x ∷ xs) h =
      let (errs, e, h') = bind-eq-ok (check x) _ h in
      let (more, f, h'') = bind-eq-ok (errors_of check xs) _ h' in
      let (a, b) = append-eq-nil errs more (ok_injective h'') in
      (e ∙ ap ok a, errors_of-eq-nil xs (f ∙ ap ok b))

  pub errors_of-nil : (xs : List A) → All (λ x. check x ≡ ok []) xs → errors_of check xs ≡ ok []
  unfolding errors_of
  errors_of-nil [] h = refl
  errors_of-nil (x ∷ xs) (e, h) = rw (errors_of, e, errors_of-nil xs h) refl
