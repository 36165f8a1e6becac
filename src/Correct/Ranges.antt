-- ===== src/Correct/Ranges.antt =====
-- What arithmetic gives is in the range of its type.
use risk_engine.Prelude.{Bool-cases, Option-cases, inl, inr}
use risk_engine.Prelude.Int.{ℤ, pos, eqb_ℤ, IsInt64, wrap64-IsInt64, div_ℤ}
use risk_engine.Outcome.{Outcome, ok, err, panic}
use risk_engine.Operators.{BinaryOp, ValueType}
use risk_engine.Value.{Value, null, int64, float64}
use risk_engine.Runtime.{
  Floats, arithmetic, quotient, arithmetic_numbers, arithmetic_integers, arithmetic_doubles,
  normalize_numbers,
}

-- No value, a floating-point number, or an integer of 64 bits; never a panic.
abbrev pub InRange : {D : Type 0} → Outcome (Value D) → Type 0
InRange (ok null) = Unit
InRange (ok (int64 n)) = IsInt64 n
InRange (ok (float64 x)) = Unit
InRange (ok _) = ⊥
InRange (err e) = Unit
InRange panic = ⊥

integers-InRange :
    (D : Type 0) ⦃fl : Floats D⦄ (l r : ℤ) (op : BinaryOp)
    → InRange {D = D} (arithmetic_integers l r op)
unfolding arithmetic_integers
integers-InRange D l r BinaryOp.add = wrap64-IsInt64 _
integers-InRange D l r BinaryOp.sub = wrap64-IsInt64 _
integers-InRange D l r BinaryOp.mul = wrap64-IsInt64 _
integers-InRange D l r BinaryOp.div = elim (Bool-cases (eqb_ℤ r (pos 0))) [
  | inl e ↦ rw e tt
  | inr e ↦ rw (e, quotient) (wrap64-IsInt64 (div_ℤ l r))
]
integers-InRange D l r op = tt

module _ {D : Type 0} ⦃fl : Floats D⦄ where
  doubles-InRange : (l r : D) (op : BinaryOp) → InRange (arithmetic_doubles l r op)
  unfolding arithmetic_doubles
  doubles-InRange l r BinaryOp.div = elim (Bool-cases (fl.eq r fl.zero)) [
    | inl e ↦ rw e tt
    | inr e ↦ rw e tt
  ]
  doubles-InRange l r op = tt

  numbers-InRange : (l r : Value D) (op : BinaryOp) → InRange (arithmetic_numbers l r op)
  unfolding arithmetic_numbers
  numbers-InRange left right op = elim (Option-cases (normalize_numbers left right)) [
    | inl e ↦ rw (arithmetic_numbers, e) tt
    | inr ((l, r, ValueType.double), e) ↦
        rw (arithmetic_numbers, e) (doubles-InRange l.as_float64 r.as_float64 op)
    | inr ((l, r, _), e) ↦ rw (arithmetic_numbers, e) (integers-InRange D l.as_int64 r.as_int64 op)
  ]

  -- Arithmetic on any two values gives nil, a floating-point number, an integer of 64 bits, or an
  -- error; it never panics, as Go's division of integers by zero would.
  pub arithmetic-InRange : (l r : Value D) (op : BinaryOp) → InRange (arithmetic l r op)
  unfolding arithmetic
  arithmetic-InRange null r op = tt
  arithmetic-InRange l null op = tt
  arithmetic-InRange l r op = numbers-InRange l r op
