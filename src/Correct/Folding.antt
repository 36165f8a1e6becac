-- ===== src/Correct/Folding.antt =====
-- The folding of constants keeps the meaning of a bound expression.
use mathlib.Core.Path.{subst}
use risk_engine.Prelude.{
  ◌≡◌, refl, sym, ◌∙◌, Bool, true, false, Option, none, some, arith, if◌then◌else◌,
}
use risk_engine.Outcome.{Outcome, ok, err, panic}
use risk_engine.Operators.{BinaryOp, ValueType}
use risk_engine.Schema.{FieldPtr}
use risk_engine.Value.{Value, bool}
use risk_engine.Accessor.{EvalContext}
use risk_engine.Runtime.{Floats, truthy_bool}
use risk_engine.Evaluator.{eval_binary_op, run_binary}
use risk_engine.Bound.{BoundExpr, literal, binary, eval}
use risk_engine.Bytecode.Fold.{as_literal, fold_to, fold_literals, fold_binary}
use risk_engine.Correct.WellBound.{WellBound, BoolOperands}
use risk_engine.Correct.Opcodes.{ok_injective}

module _ {D : Type 0} ⦃fl : Floats D⦄ where
  -- The second expression may stand for the first.
  pub record Preserves (e e' : BoundExpr D) : Type 0 where
    pub bound : WellBound e'
    pub same : (ctx : EvalContext D) → eval e' ctx ≡ eval e ctx
    pub bools : (ctx : EvalContext D) → BoolOperands e ctx → BoolOperands e' ctx

  pub Preserves-trans :
      {e₁ e₂ e₃ : BoundExpr D} → Preserves e₁ e₂ → Preserves e₂ e₃ → Preserves e₁ e₃
  Preserves-trans p q = record {
    bound = q.bound;
    same = λ ctx. q.same ctx ∙ p.same ctx;
    bools = λ ctx h. q.bools ctx (p.bools ctx h);
  }

  pub Preserves-refl : {e : BoundExpr D} → WellBound e → Preserves e e
  Preserves-refl w = record { bound = w; same = λ ctx. refl; bools = λ ctx h. h }

  -- A literal stands for what evaluates to it in every context.
  pub literal-Preserves :
      (e : BoundExpr D) (v : Value D) (t : ValueType) (f : FieldPtr)
      → ((ctx : EvalContext D) → eval e ctx ≡ ok v)
      → Preserves e (literal v t f)
  unfolding eval
  literal-Preserves e v t f h = record {
    bound = tt;
    same = λ ctx. sym (h ctx);
    bools = λ ctx q. tt;
  }

  pub fold_to-Preserves :
      (e e' : BoundExpr D) (t : ValueType) (f : FieldPtr) (o : Outcome (Value D))
      → fold_to e t f o ≡ ok e'
      → WellBound e
      → ((ctx : EvalContext D) → eval e ctx ≡ o)
      → Preserves e e'
  unfolding fold_to
  fold_to-Preserves e e' t f (ok v) h w same =
      subst (Preserves e) (ok_injective h) (literal-Preserves e v t f same)
  fold_to-Preserves e e' t f (err x) h w same =
      subst (Preserves e) (ok_injective h) (Preserves-refl w)
  fold_to-Preserves e e' t f panic h w same = cc

  pub as_literal-eval :
      (e : BoundExpr D) (v : Value D)
      → as_literal e ≡ some v
      → (ctx : EvalContext D) → eval e ctx ≡ ok v
  unfolding as_literal eval
  as_literal-eval (literal w t f) v h ctx = ground arith
  as_literal-eval e v h ctx = cc

  -- What it takes of the operands to know a folded operator.
  module _ (l r : BoundExpr D) (t : ValueType) (f : FieldPtr) where
    and_left :
        (v : Value D) (ctx : EvalContext D)
        → eval l ctx ≡ ok v
        → truthy_bool v ≡ false
        → eval (binary BinaryOp.and l r t f (eval_binary_op BinaryOp.and)) ctx ≡ ok (bool false)
    unfolding eval run_binary eval_binary_op
    and_left v ctx e h = rw (e, h) refl

    and_both :
        (v w : Value D) (ctx : EvalContext D)
        → eval l ctx ≡ ok v
        → eval r ctx ≡ ok w
        → truthy_bool v ≡ true
        → eval (binary BinaryOp.and l r t f (eval_binary_op BinaryOp.and)) ctx
          ≡ ok (bool (truthy_bool w))
    unfolding eval run_binary eval_binary_op
    and_both v w ctx e e' h = rw (e, h, e') refl

    or_left :
        (v : Value D) (ctx : EvalContext D)
        → eval l ctx ≡ ok v
        → truthy_bool v ≡ true
        → eval (binary BinaryOp.or l r t f (eval_binary_op BinaryOp.or)) ctx ≡ ok (bool true)
    unfolding eval run_binary eval_binary_op
    or_left v ctx e h = rw (e, h) refl

    or_both :
        (v w : Value D) (ctx : EvalContext D)
        → eval l ctx ≡ ok v
        → eval r ctx ≡ ok w
        → truthy_bool v ≡ false
        → eval (binary BinaryOp.or l r t f (eval_binary_op BinaryOp.or)) ctx
          ≡ ok (bool (truthy_bool w))
    unfolding eval run_binary eval_binary_op
    or_both v w ctx e e' h = rw (e, h, e') refl

    fold_literals-Preserves :
        (op : BinaryOp) (ol or : Option (Value D)) (e' : BoundExpr D)
        → fold_literals (binary op l r t f (eval_binary_op op)) t f (eval_binary_op op) ol or
          ≡ ok e'
        → WellBound l
        → WellBound r
        → ((v : Value D) → ol ≡ some v → (ctx : EvalContext D) → eval l ctx ≡ ok v)
        → ((v : Value D) → or ≡ some v → (ctx : EvalContext D) → eval r ctx ≡ ok v)
        → Preserves (binary op l r t f (eval_binary_op op)) e'
    unfolding fold_literals eval
    fold_literals-Preserves op (some v) (some w) e' h wl wr el er =
        fold_to-Preserves (binary op l r t f (eval_binary_op op)) e' t f _ h (refl, wl, wr)
          (λ ctx. rw (el v refl ctx, er w refl ctx) refl)
    fold_literals-Preserves op (some v) none e' h wl wr el er =
        subst (Preserves (binary op l r t f (eval_binary_op op))) (ok_injective h)
          (Preserves-refl (refl, wl, wr))
    fold_literals-Preserves op none or e' h wl wr el er =
        subst (Preserves (binary op l r t f (eval_binary_op op))) (ok_injective h)
          (Preserves-refl (refl, wl, wr))

    -- Whether the left literal decides.
    choose-Preserves :
        (e a b e' : BoundExpr D) (c : Bool)
        → (if c then ok a else ok b) ≡ ok e'
        → (c ≡ true → Preserves e a)
        → (c ≡ false → Preserves e b)
        → Preserves e e'
    choose-Preserves e a b e' true h p q = subst (Preserves e) (ok_injective h) (p refl)
    choose-Preserves e a b e' false h p q = subst (Preserves e) (ok_injective h) (q refl)

    pub fold_binary-Preserves :
        (op : BinaryOp) (ol or : Option (Value D)) (e' : BoundExpr D)
        → fold_binary (binary op l r t f (eval_binary_op op)) op t f (eval_binary_op op) ol or
          ≡ ok e'
        → WellBound l
        → WellBound r
        → ((v : Value D) → ol ≡ some v → (ctx : EvalContext D) → eval l ctx ≡ ok v)
        → ((v : Value D) → or ≡ some v → (ctx : EvalContext D) → eval r ctx ≡ ok v)
        → Preserves (binary op l r t f (eval_binary_op op)) e'
    unfolding fold_binary
    fold_binary-Preserves BinaryOp.and (some v) none e' h wl wr el er =
        choose-Preserves _ _ _ e' (truthy_bool v) h (λ c. Preserves-refl (refl, wl, wr))
          (λ c. literal-Preserves _ (bool false) t f (λ ctx. and_left v ctx (el v refl ctx) c))
    fold_binary-Preserves BinaryOp.and (some v) (some w) e' h wl wr el er =
        choose-Preserves _ _ _ e' (truthy_bool v) h
          (λ c.
            literal-Preserves _ (bool (truthy_bool w)) t f
              (λ ctx. and_both v w ctx (el v refl ctx) (er w refl ctx) c))
          (λ c. literal-Preserves _ (bool false) t f (λ ctx. and_left v ctx (el v refl ctx) c))
    fold_binary-Preserves BinaryOp.or (some v) none e' h wl wr el er =
        choose-Preserves _ _ _ e' (truthy_bool v) h
          (λ c. literal-Preserves _ (bool true) t f (λ ctx. or_left v ctx (el v refl ctx) c))
          (λ c. Preserves-refl (refl, wl, wr))
    fold_binary-Preserves BinaryOp.or (some v) (some w) e' h wl wr el er =
        choose-Preserves _ _ _ e' (truthy_bool v) h
          (λ c. literal-Preserves _ (bool true) t f (λ ctx. or_left v ctx (el v refl ctx) c))
          (λ c.
            literal-Preserves _ (bool (truthy_bool w)) t f
              (λ ctx. or_both v w ctx (el v refl ctx) (er w refl ctx) c))
    fold_binary-Preserves op ol or e' h wl wr el er =
        fold_literals-Preserves op ol or e' h wl wr el er
