-- ===== src/Outcome.antt =====
-- factorengine/types.go: validation errors. A Go call returns a value, returns an error, or panics.
use risk_engine.Prelude.{◌≡◌, refl, Str, []}

pub data ValidationErrorCode : Type 0 where
  factor_ref_not_found factor_ref_ambiguous factor_ref_invalid field_not_found : ValidationErrorCode
  request_field_missing response_path_invalid type_mismatch : ValidationErrorCode
  definition_invalid dependency_mismatch factor_not_published : ValidationErrorCode
  unsupported_value_type expression_invalid unknown_identifier : ValidationErrorCode
  unsupported_operator unknown_function invalid_argument_count : ValidationErrorCode
  division_by_zero execution_budget execution_cancelled internal_panic : ValidationErrorCode

-- The message, a text for people, is left out.
pub record ValidationError : Type 0 where
  pub code : ValidationErrorCode
  pub field : Str

abbrev pub error_at : ValidationErrorCode → Str → ValidationError
error_at c f = record { code = c; field = f }

-- An error without a field.
abbrev pub error_of : ValidationErrorCode → ValidationError
error_of c = error_at c []

pub data Outcome {ℓ} (A : Type ℓ) : Type ℓ where
  ok : A → Outcome A
  err : ValidationError → Outcome A
  panic : Outcome A

infixl 5 ◌>>=◌
abbrev pub ◌>>=◌ {ℓ κ} : {A : Type ℓ} {B : Type κ} → Outcome A → (A → Outcome B) → Outcome B
ok a >>= f = f a
err e >>= f = err e
panic >>= f = panic

pub bind-ok {ℓ} : {A : Type ℓ} (m : Outcome A) → (m >>= ok) ≡ m
bind-ok (ok a) = refl
bind-ok (err e) = refl
bind-ok panic = refl

module _ {ℓ κ} {A : Type ℓ} {B : Type κ} where
  pub bind_assoc {μ} :
      {C : Type μ} (m : Outcome A) (f : A → Outcome B) (g : B → Outcome C)
      → (m >>= f >>= g) ≡ (m >>= λ a. f a >>= g)
  bind_assoc (ok a) f g = refl
  bind_assoc (err e) f g = refl
  bind_assoc panic f g = refl

  pub bind_congr :
      (m : Outcome A) {f g : A → Outcome B} → ((a : A) → f a ≡ g a) → (m >>= f) ≡ (m >>= g)
  bind_congr m p = λ i. m >>= λ a. p a i

  -- Inversion of a successful bind.
  pub bind-eq-ok :
      (m : Outcome A) (f : A → Outcome B) {b : B}
      → (m >>= f) ≡ ok b
      → (a : A) × (m ≡ ok a) × (f a ≡ ok b)
  bind-eq-ok (ok a) f h = (a, refl, h)
  bind-eq-ok (err e) f h = cc
  bind-eq-ok panic f h = cc
