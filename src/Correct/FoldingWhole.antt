-- ===== src/Correct/FoldingWhole.antt =====
-- `optimizeBoundExpr` keeps the meaning of every bound expression: induction on the expression.
use mathlib.Core.Path.{subst}
use risk_engine.Prelude.{
  ◌≡◌, refl, sym, ◌∙◌, ap, Bool, true, false, Option, none, some, Bool-cases, inl, inr,
}
use risk_engine.Outcome.{Outcome, ok, ◌>>=◌, bind-eq-ok, bind_congr}
use mathlib.Core.Bool.{and-eq-true_iff}
use risk_engine.Operators.{BinaryOp, UnaryOp, ValueType, FunctionName}
use risk_engine.Schema.{FieldPtr}
use risk_engine.Value.{Value, list, object, ValueMap, values, insert}
use risk_engine.Accessor.{EvalContext}
use risk_engine.Runtime.{Floats, truthy_bool}
use risk_engine.Evaluator.{eval_binary_op, eval_conditional}
use risk_engine.Bound.{
  BoundExpr, literal, factor_ref, unary, binary, conditional, function_call, BoundExprs, nil, cons,
  BoundEntries, empty, entry, eval, eval_args, eval_entries, run_unary, UnaryEvaluator,
  FunctionEvaluator, run_function,
}
use risk_engine.Bytecode.Fold.{
  as_literal, is_literal, all_literal, all_literal_entries, optimize_bound_expr, optimize_args,
  optimize_entries, fold_node, fold_unary, fold_binary, fold_conditional,
}
use risk_engine.Correct.WellBound.{
  WellBound, WellBoundArgs, WellBoundEntries, BoolOperands, BoolOperandsArgs, BoolOperandsEntries,
  unary_op_of, function_name_of,
}
use risk_engine.Correct.Opcodes.{ok_injective}
use risk_engine.Correct.Folding.{
  Preserves, Preserves-trans, Preserves-refl, fold_to-Preserves, as_literal-eval,
  fold_binary-Preserves,
}

module _ {D : Type 0} ⦃fl : Floats D⦄ where
  -- The same for the arguments of a call and for the entries of a map.
  record PreservesArgs (es es' : BoundExprs D) : Type 0 where
    bound : WellBoundArgs es'
    same : (ctx : EvalContext D) → eval_args es' ctx ≡ eval_args es ctx
    bools : (ctx : EvalContext D) → BoolOperandsArgs es ctx → BoolOperandsArgs es' ctx

  record PreservesEntries (es es' : BoundEntries D) : Type 0 where
    bound : WellBoundEntries es'
    same : (ctx : EvalContext D) (m : ValueMap D) → eval_entries es' ctx m ≡ eval_entries es ctx m
    bools : (ctx : EvalContext D) → BoolOperandsEntries es ctx → BoolOperandsEntries es' ctx

  -- A literal needs no context.
  literal_closed :
      (e : BoundExpr D) (ctx ctx' : EvalContext D) → is_literal e ≡ true → eval e ctx ≡ eval e ctx'
  unfolding is_literal eval
  literal_closed (literal v t f) ctx ctx' h = refl
  literal_closed e ctx ctx' h = cc

  args_closed :
      (es : BoundExprs D) (ctx ctx' : EvalContext D)
      → all_literal es ≡ true
      → eval_args es ctx ≡ eval_args es ctx'
  unfolding all_literal eval
  args_closed nil ctx ctx' h = refl
  args_closed (cons e es) ctx ctx' h =
      let (h₁, h₂) = (and-eq-true_iff (is_literal e) (all_literal es)).0 h in
      rw (literal_closed e ctx ctx' h₁, args_closed es ctx ctx' h₂) refl

  entries_closed :
      (es : BoundEntries D) (ctx ctx' : EvalContext D) (m : ValueMap D)
      → all_literal_entries es ≡ true
      → eval_entries es ctx m ≡ eval_entries es ctx' m
  unfolding all_literal_entries eval
  entries_closed empty ctx ctx' m h = refl
  entries_closed (entry k e es) ctx ctx' m h =
      let (h₁, h₂) = (and-eq-true_iff (is_literal e) (all_literal_entries es)).0 h in
      ap (λ o. o >>= λ v. eval_entries es ctx (insert k v m)) (literal_closed e ctx ctx' h₁)
      ∙ bind_congr (eval e ctx') (λ v. entries_closed es ctx ctx' (insert k v m) h₂)

  fold_node-Preserves :
      (literals : Bool) (e e' : BoundExpr D) (t : ValueType) (f : FieldPtr)
      → fold_node literals e t f ≡ ok e'
      → WellBound e
      → (literals ≡ true → (ctx : EvalContext D) → eval e ctx ≡ eval e ValueMap.empty)
      → Preserves e e'
  unfolding fold_node
  fold_node-Preserves true e e' t f h w closed = fold_to-Preserves e e' t f _ h w (closed refl)
  fold_node-Preserves false e e' t f h w closed =
      subst (Preserves e) (ok_injective h) (Preserves-refl w)

  fold_unary-Preserves :
      (op : UnaryOp) (e e' : BoundExpr D) (t : ValueType) (f : FieldPtr) (ev : UnaryEvaluator)
      (o : Option (Value D))
      → fold_unary (unary op e t f ev) o ≡ ok e'
      → WellBound (unary op e t f ev)
      → ((v : Value D) → o ≡ some v → (ctx : EvalContext D) → eval e ctx ≡ ok v)
      → Preserves (unary op e t f ev) e'
  unfolding fold_unary eval
  fold_unary-Preserves op e e' t f ev none h w known =
      subst (Preserves (unary op e t f ev)) (ok_injective h) (Preserves-refl w)
  fold_unary-Preserves op e e' t f ev (some v) h w known =
      fold_to-Preserves (unary op e t f ev) e' t f (run_unary ev v) h w
        (λ ctx. rw (known v refl ctx) refl)

  pick-Preserves :
      (c a b : BoundExpr D) (t : ValueType) (f : FieldPtr) (o : Option (Value D))
      → as_literal c ≡ o
      → WellBound (conditional c a b t f)
      → Preserves (conditional c a b t f) (fold_conditional c a b t f)
  unfolding fold_conditional eval eval_conditional
  pick-Preserves c a b t f none e w = rw (fold_conditional, e) (Preserves-refl w)
  pick-Preserves c a b t f (some v) e w = elim (Bool-cases (truthy_bool v)) [
    | inl h ↦
        rw (fold_conditional, e, h)
          (record {
            bound = w.1;
            same = λ ctx. rw (as_literal-eval c v e ctx, h) refl;
            bools = λ ctx q. q.1;
          })
    | inr h ↦
        rw (fold_conditional, e, h)
          (record {
            bound = w.2;
            same = λ ctx. rw (as_literal-eval c v e ctx, h) refl;
            bools = λ ctx q. q.2;
          })
  ]

  -- The nodes over parts that are kept.
  unary-Preserves :
      (op : UnaryOp) (e e' : BoundExpr D) (t : ValueType) (f : FieldPtr) (ev : UnaryEvaluator)
      → op ≡ unary_op_of ev
      → Preserves e e'
      → Preserves (unary op e t f ev) (unary op e' t f ev)
  unfolding eval
  unary-Preserves op e e' t f ev w p = record {
    bound = (w, p.bound);
    same = λ ctx. ap (λ o. o >>= run_unary ev) (p.same ctx);
    bools = p.bools;
  }

  binary-Preserves :
      (op : BinaryOp) (l l' r r' : BoundExpr D) (t : ValueType) (f : FieldPtr)
      → Preserves l l'
      → Preserves r r'
      → Preserves (binary op l r t f (eval_binary_op op)) (binary op l' r' t f (eval_binary_op op))
  unfolding eval
  binary-Preserves op l l' r r' t f p q = record {
    bound = (refl, p.bound, q.bound);
    same = λ ctx. rw (p.same ctx, q.same ctx) refl;
    bools = λ ctx h.
        (λ needs v e. h.0 needs v (sym (q.same ctx) ∙ e), p.bools ctx h.1, q.bools ctx h.2);
  }

  conditional-Preserves :
      (c c' a a' b b' : BoundExpr D) (t : ValueType) (f : FieldPtr)
      → Preserves c c'
      → Preserves a a'
      → Preserves b b'
      → Preserves (conditional c a b t f) (conditional c' a' b' t f)
  unfolding eval
  conditional-Preserves c c' a a' b b' t f p q r = record {
    bound = (p.bound, q.bound, r.bound);
    same = λ ctx. rw (p.same ctx, q.same ctx, r.same ctx) refl;
    bools = λ ctx h. (p.bools ctx h.0, q.bools ctx h.1, r.bools ctx h.2);
  }

  call-Preserves :
      (name : FunctionName) (es es' : BoundExprs D) (t : ValueType) (f : FieldPtr)
      (ev : FunctionEvaluator)
      → name ≡ function_name_of ev
      → PreservesArgs es es'
      → Preserves (function_call name es t f ev) (function_call name es' t f ev)
  unfolding eval
  call-Preserves name es es' t f ev w p = record {
    bound = (w, p.bound);
    same = λ ctx. ap (λ o. o >>= run_function ev) (p.same ctx);
    bools = p.bools;
  }

  list-Preserves :
      (es es' : BoundExprs D) (t u : ValueType) (f : FieldPtr)
      → PreservesArgs es es'
      → Preserves (BoundExpr.list es t u f) (BoundExpr.list es' t u f)
  unfolding eval
  list-Preserves es es' t u f p = record {
    bound = p.bound;
    same = λ ctx. ap (λ o. o >>= λ vs. ok (list (values vs))) (p.same ctx);
    bools = p.bools;
  }

  map-Preserves :
      (es es' : BoundEntries D) (t u : ValueType) (f : FieldPtr)
      → PreservesEntries es es'
      → Preserves (BoundExpr.map es t u f) (BoundExpr.map es' t u f)
  unfolding eval
  map-Preserves es es' t u f p = record {
    bound = p.bound;
    same = λ ctx. ap (λ o. o >>= λ m. ok (object m)) (p.same ctx ValueMap.empty);
    bools = p.bools;
  }

  mutual
    unfolding optimize_bound_expr eval

    optimize-Preserves :
        (e e' : BoundExpr D) → optimize_bound_expr e ≡ ok e' → WellBound e → Preserves e e'
    optimize-Preserves (literal v t f) e' h w =
        subst (Preserves (literal v t f)) (ok_injective h) (Preserves-refl w)
    optimize-Preserves (factor_ref r a t f) e' h w =
        subst (Preserves (factor_ref r a t f)) (ok_injective h) (Preserves-refl w)
    optimize-Preserves (BoundExpr.list es t u f) e' h w =
        let (es', h₁, h₂) =
          bind-eq-ok (optimize_args es)
            (λ es'. fold_node (all_literal es') (BoundExpr.list es' t u f) t f) h in
        let p = optimize_args-Preserves es es' h₁ w in
        Preserves-trans (list-Preserves es es' t u f p) (
          fold_node-Preserves (all_literal es') (BoundExpr.list es' t u f) e' t f h₂ p.bound
            (λ closed ctx.
              ap (λ o. o >>= λ vs. ok (list (values vs)))
                (args_closed es' ctx ValueMap.empty closed)))
    optimize-Preserves (BoundExpr.map es t u f) e' h w =
        let (es', h₁, h₂) =
          bind-eq-ok (optimize_entries es)
            (λ es'. fold_node (all_literal_entries es') (BoundExpr.map es' t u f) t f) h in
        let p = optimize_entries-Preserves es es' h₁ w in
        Preserves-trans (map-Preserves es es' t u f p) (
          fold_node-Preserves (all_literal_entries es') (BoundExpr.map es' t u f) e' t f h₂ p.bound
            (λ closed ctx.
              ap (λ o. o >>= λ m. ok (object m))
                (entries_closed es' ctx ValueMap.empty ValueMap.empty closed)))
    optimize-Preserves (unary op e t f ev) e' h w =
        let (x, h₁, h₂) =
          bind-eq-ok (optimize_bound_expr e) (λ x. fold_unary (unary op x t f ev) (as_literal x))
            h in
        let p = optimize-Preserves e x h₁ w.1 in
        Preserves-trans (unary-Preserves op e x t f ev w.0 p)
          (fold_unary-Preserves op x e' t f ev (as_literal x) h₂ (w.0, p.bound) (as_literal-eval x))
    optimize-Preserves (binary op l r t f ev) e' h w =
        let fold : BoundExpr D → BoundExpr D → Outcome (BoundExpr D) =
          λ x y. fold_binary (binary op x y t f ev) op t f ev (as_literal x) (as_literal y) in
        let (x, h₁, h₂) =
          bind-eq-ok (optimize_bound_expr l) (λ x. optimize_bound_expr r >>= λ y. fold x y) h in
        let (y, h₃, h₄) = bind-eq-ok (optimize_bound_expr r) (λ y. fold x y) h₂ in
        let p = optimize-Preserves l x h₁ w.1 in
        let q = optimize-Preserves r y h₃ w.2 in
        subst (λ z. Preserves (binary op l r t f z) e') (sym w.0)
          (Preserves-trans (binary-Preserves op l x r y t f p q) (
            fold_binary-Preserves x y t f op (as_literal x) (as_literal y) e'
              (subst
                (λ z.
                  fold_binary (binary op x y t f z) op t f z (as_literal x) (as_literal y) ≡ ok e')
                w.0 h₄)
              p.bound q.bound (as_literal-eval x) (as_literal-eval y)))
    optimize-Preserves (conditional c a b t f) e' h w =
        let (x, h₁, h₂) =
          bind-eq-ok (optimize_bound_expr c)
            (λ x. optimize_bound_expr a >>= λ y.
              optimize_bound_expr b >>= λ z. ok (fold_conditional x y z t f))
            h in
        let (y, h₃, h₄) =
          bind-eq-ok (optimize_bound_expr a)
            (λ y. optimize_bound_expr b >>= λ z. ok (fold_conditional x y z t f)) h₂ in
        let (z, h₅, h₆) =
          bind-eq-ok (optimize_bound_expr b) (λ z. ok (fold_conditional x y z t f)) h₄ in
        let p = optimize-Preserves c x h₁ w.0 in
        let q = optimize-Preserves a y h₃ w.1 in
        let r = optimize-Preserves b z h₅ w.2 in
        subst (Preserves (conditional c a b t f)) (ok_injective h₆) (
          Preserves-trans (conditional-Preserves c x a y b z t f p q r)
            (pick-Preserves x y z t f (as_literal x) refl (p.bound, q.bound, r.bound)))
    optimize-Preserves (function_call name es t f ev) e' h w =
        let (es', h₁, h₂) =
          bind-eq-ok (optimize_args es)
            (λ es'. fold_node (all_literal es') (function_call name es' t f ev) t f) h in
        let p = optimize_args-Preserves es es' h₁ w.1 in
        Preserves-trans (call-Preserves name es es' t f ev w.0 p) (
          fold_node-Preserves (all_literal es') (function_call name es' t f ev) e' t f h₂
            (w.0, p.bound)
            (λ closed ctx.
              ap (λ o. o >>= run_function ev) (args_closed es' ctx ValueMap.empty closed)))

    optimize_args-Preserves :
        (es es' : BoundExprs D)
        → optimize_args es ≡ ok es'
        → WellBoundArgs es
        → PreservesArgs es es'
    optimize_args-Preserves nil es' h w =
        subst (PreservesArgs nil) (ok_injective h)
          (record { bound = tt; same = λ ctx. refl; bools = λ ctx q. tt })
    optimize_args-Preserves (cons e es) es' h w =
        let (x, h₁, h₂) =
          bind-eq-ok (optimize_bound_expr e) (λ x. optimize_args es >>= λ xs. ok (cons x xs)) h in
        let (xs, h₃, h₄) = bind-eq-ok (optimize_args es) (λ xs. ok (cons x xs)) h₂ in
        let p = optimize-Preserves e x h₁ w.0 in
        let q = optimize_args-Preserves es xs h₃ w.1 in
        subst (PreservesArgs (cons e es)) (ok_injective h₄) (record {
          bound = (p.bound, q.bound);
          same = λ ctx. rw (p.same ctx, q.same ctx) refl;
          bools = λ ctx b. (p.bools ctx b.0, q.bools ctx b.1);
        })

    optimize_entries-Preserves :
        (es es' : BoundEntries D)
        → optimize_entries es ≡ ok es'
        → WellBoundEntries es
        → PreservesEntries es es'
    optimize_entries-Preserves empty es' h w =
        subst (PreservesEntries empty) (ok_injective h)
          (record { bound = tt; same = λ ctx m. refl; bools = λ ctx q. tt })
    optimize_entries-Preserves (entry k e es) es' h w =
        let (x, h₁, h₂) =
          bind-eq-ok (optimize_bound_expr e) (λ x. optimize_entries es >>= λ xs. ok (entry k x xs))
            h in
        let (xs, h₃, h₄) = bind-eq-ok (optimize_entries es) (λ xs. ok (entry k x xs)) h₂ in
        let p = optimize-Preserves e x h₁ w.0 in
        let q = optimize_entries-Preserves es xs h₃ w.1 in
        subst (PreservesEntries (entry k e es)) (ok_injective h₄) (record {
          bound = (p.bound, q.bound);
          same = λ ctx m.
              ap (λ o. o >>= λ v. eval_entries xs ctx (insert k v m)) (p.same ctx)
              ∙ bind_congr (eval e ctx) (λ v. q.same ctx (insert k v m));
          bools = λ ctx b. (p.bools ctx b.0, q.bools ctx b.1);
        })

  -- Constant folding keeps what a well-bound expression evaluates to, value, error or panic, in
  -- every context, and the result is well bound.
  pub eval-optimize_bound_expr :
      (e e' : BoundExpr D)
      → optimize_bound_expr e ≡ ok e'
      → WellBound e
      → ((ctx : EvalContext D) → eval e' ctx ≡ eval e ctx) × WellBound e'
  eval-optimize_bound_expr e e' h w = let p = optimize-Preserves e e' h w in (p.same, p.bound)

  pub optimize_bound_expr-BoolOperands :
      (e e' : BoundExpr D)
      → optimize_bound_expr e ≡ ok e'
      → WellBound e
      → (ctx : EvalContext D) → BoolOperands e ctx
      → BoolOperands e' ctx
  optimize_bound_expr-BoolOperands e e' h w = (optimize-Preserves e e' h w).bools
