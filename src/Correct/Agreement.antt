-- ===== src/Correct/Agreement.antt =====
-- The evaluator of the syntax tree against the evaluator of what the binder makes of it.
use mathlib.Core.Path.{subst}
use risk_engine.Prelude.{
  ◌≡◌, refl, ◌∙◌, ap, Bool, true, false, none, some, [], ◌∷◌, bytes, Bool-cases, Option-cases, inl,
  inr,
}
use risk_engine.Outcome.{Outcome, ok, err, panic, ◌>>=◌, bind_congr}
use risk_engine.Operators.{
  BinaryOp, UnaryOp, FunctionName, ValueType, type_eq, is_numeric_type, are_branch_compatible,
}
use risk_engine.Schema.{
  FactorRegistry, FactorDefinition, FactorRef, lookup_factor, resolve_factor_ref,
  schema_has_single_value_field,
}
use risk_engine.Value.{Value, object, ValueMap, values, lookup, insert}
use risk_engine.Accessor.{
  EvalContext, compile_factor_accessor, get, resolve_value, resolve_root, get_steps, or_null,
  member,
}
use risk_engine.Runtime.{Floats, eval_unary_value}
use risk_engine.Evaluator
use risk_engine.Bound
use risk_engine.Evaluator.{
  eval_expr, eval_exprs, eval_function_call, run_binary, eval_binary_op, eval_conditional,
}
use risk_engine.Expr.{
  Expr, literal, factor_ref, unary, binary, conditional, function_call, list, map, Exprs, Entries,
}
use risk_engine.Bound.{
  BoundExpr, BoundExprs, BoundEntries, result_type, bound_field, nil, cons, eval, eval_args,
  run_unary, run_function,
}
use risk_engine.Binder.{
  bind, bind_args, bind_get_args, bind_elements, bind_entries, bind_unary, bind_binary,
  check_condition, bind_branches, bind_factor_ref, bind_get_container, bind_get,
  finish_function_call, bind_root_object_factor_ref_if_needed, bind_root_object, binary_result_type,
  resolve_get_result_field, type_of_field, element_type, all_compatible, contains_accepts,
}
use risk_engine.Correct.Binding.{Gives, Gives-bind, Gives-any}
use risk_engine.Correct.WellBound.{binary_evaluator-eval_binary_op}
use risk_engine.Correct.Reading.{get-resolve_value, resolves_single}

module _ {D : Type 0} where
  -- Every registered factor has a map as its value in the context, and the map has the member `value`
  -- exactly when the factor's schema is a single field of that name.
  abbrev pub Fits : FactorRegistry → EvalContext D → Type 0
  Fits registry ctx =
      (r : FactorRef) (factor : FactorDefinition)
      → lookup_factor r.factor_code registry ≡ some (some factor)
      → (m : ValueMap D) × (lookup r.factor_code ctx ≡ some (object m))
        × (schema_has_single_value_field factor.output_schema ≡ true
            → (v : Value D) × (lookup (bytes "value") m ≡ some v))
        × (schema_has_single_value_field factor.output_schema ≡ false
            → lookup (bytes "value") m ≡ none)

module _ {D : Type 0} ⦃fl : Floats D⦄ where
  bind_get-Gives :
      (ctx : EvalContext D) (c k : BoundExpr D)
      → Gives
          (λ b.
            eval b ctx ≡ eval_function_call FunctionName.get (eval_args (cons c (cons k nil)) ctx))
          (bind_get c k)
  unfolding bind_get eval eval_function_call run_function
  bind_get-Gives ctx c k =
      let Same : BoundExpr D → Type 0 = λ b.
        eval b ctx ≡ eval_function_call FunctionName.get (eval_args (cons c (cons k nil)) ctx) in
      elim (Bool-cases (type_eq (result_type k) ValueType.string)) [
        | inl h ↦
            rw (bind_get, h)
              (Gives-bind (λ _. Unit) Same (resolve_get_result_field (bound_field c) k) _
                (Gives-any (resolve_get_result_field (bound_field c) k))
                λ f _.
                  Gives-bind (λ _. Unit) Same (type_of_field f) _ (Gives-any (type_of_field f))
                    λ t _. refl)
        | inr h ↦ rw (bind_get, h) tt
      ]

  finish_function_call-Gives :
      (ctx : EvalContext D) (name : FunctionName) (args : BoundExprs D)
      → Gives
          (λ b. eval b ctx ≡ eval_function_call name (eval_args args ctx))
          (finish_function_call name args)
  unfolding finish_function_call eval eval_function_call run_function
  finish_function_call-Gives ctx FunctionName.is_empty (cons e nil) = refl
  finish_function_call-Gives ctx FunctionName.is_empty nil = tt
  finish_function_call-Gives ctx FunctionName.is_empty (cons e (cons e' es)) = tt
  finish_function_call-Gives ctx FunctionName.exists (cons e nil) = refl
  finish_function_call-Gives ctx FunctionName.exists nil = tt
  finish_function_call-Gives ctx FunctionName.exists (cons e (cons e' es)) = tt
  finish_function_call-Gives ctx FunctionName.in_list (cons e (cons e' es)) =
      elim (Bool-cases (all_compatible (result_type e) (cons e' es))) [
        | inl h ↦ rw (finish_function_call, h) refl
        | inr h ↦ rw (finish_function_call, h) tt
      ]
  finish_function_call-Gives ctx FunctionName.in_list nil = tt
  finish_function_call-Gives ctx FunctionName.in_list (cons e nil) = tt
  finish_function_call-Gives ctx FunctionName.contains (cons c (cons e nil)) =
      elim (Bool-cases (contains_accepts c e)) [
        | inl h ↦ rw (finish_function_call, h) refl
        | inr h ↦ rw (finish_function_call, h) tt
      ]
  finish_function_call-Gives ctx FunctionName.contains nil = tt
  finish_function_call-Gives ctx FunctionName.contains (cons e nil) = tt
  finish_function_call-Gives ctx FunctionName.contains (cons e (cons e' (cons e'' es))) = tt
  finish_function_call-Gives ctx FunctionName.get (cons c (cons e nil)) = bind_get-Gives ctx c e
  finish_function_call-Gives ctx FunctionName.get nil = tt
  finish_function_call-Gives ctx FunctionName.get (cons e nil) = tt
  finish_function_call-Gives ctx FunctionName.get (cons e (cons e' (cons e'' es))) = tt
  finish_function_call-Gives ctx (FunctionName.other name) args = tt

  bind_unary-Gives :
      (ctx : EvalContext D) (op : UnaryOp) (e : BoundExpr D)
      → Gives (λ b. eval b ctx ≡ (eval e ctx >>= λ v. eval_unary_value op v)) (bind_unary op e)
  unfolding bind_unary eval run_unary
  bind_unary-Gives ctx UnaryOp.not e = elim (Bool-cases (type_eq (result_type e) ValueType.bool)) [
    | inl h ↦ rw (bind_unary, h) refl
    | inr h ↦ rw (bind_unary, h) tt
  ]
  bind_unary-Gives ctx UnaryOp.neg e = elim (Bool-cases (is_numeric_type (result_type e))) [
    | inl h ↦ rw (bind_unary, h) refl
    | inr h ↦ rw (bind_unary, h) tt
  ]
  bind_unary-Gives ctx (UnaryOp.other s) e = tt

  bind_binary-Gives :
      (ctx : EvalContext D) (op : BinaryOp) (l r : BoundExpr D)
      → Gives
          (λ b. eval b ctx ≡ run_binary (eval_binary_op op) (eval l ctx) (eval r ctx))
          (bind_binary op l r)
  unfolding bind_binary eval
  bind_binary-Gives ctx op l r =
      Gives-bind (λ _. Unit)
        (λ b. eval b ctx ≡ run_binary (eval_binary_op op) (eval l ctx) (eval r ctx))
        (binary_result_type op (result_type l) (result_type r)) _
        (Gives-any (binary_result_type op (result_type l) (result_type r)))
        λ t _. ap (λ e. run_binary e (eval l ctx) (eval r ctx)) (binary_evaluator-eval_binary_op op)

  bind_branches-Gives :
      (ctx : EvalContext D) (c a b : BoundExpr D)
      → Gives
          (λ x. eval x ctx ≡ eval_conditional (eval c ctx) (eval a ctx) (eval b ctx))
          (bind_branches c a b)
  unfolding bind_branches eval
  bind_branches-Gives ctx c a b =
      elim (Bool-cases (are_branch_compatible (result_type a) (result_type b))) [
        | inl h ↦ rw (bind_branches, h) refl
        | inr h ↦ rw (bind_branches, h) tt
      ]

Gives-self : {A : Type 0} (m : Outcome A) → Gives (λ a. m ≡ ok a) m
Gives-self (ok a) = refl
Gives-self (err e) = tt
Gives-self panic = tt

Gives-map :
    {A : Type 0} (K L : A → Type 0) (m : Outcome A) → Gives K m → ((a : A) → K a → L a) → Gives L m
Gives-map K L (ok a) h f = f a h
Gives-map K L (err e) h f = tt
Gives-map K L panic h f = tt

module _ {D : Type 0} ⦃fl : Floats D⦄ (registry : FactorRegistry) (ctx : EvalContext D)
    (fits : Fits registry ctx) where
  abbrev Reads : FactorRef → BoundExpr D → Type 0
  Reads r b = eval b ctx ≡ ok (or_null (resolve_value ctx r))

  bind_factor_ref-Gives : (r : FactorRef) → Gives (Reads r) (bind_factor_ref registry r)
  unfolding bind_factor_ref resolve_factor_ref eval
  bind_factor_ref-Gives r = elim (Option-cases (lookup_factor r.factor_code registry)) [
    | inl e ↦ rw (bind_factor_ref, e) tt
    | inr (none, e) ↦ rw (bind_factor_ref, e) tt
    | inr (some factor, e) ↦
        let (m, found, single, other) = fits r factor e in
        rw (bind_factor_ref, e)
          (Gives-bind (λ f. resolve_factor_ref r (some factor) ≡ ok f) (Reads r)
            (resolve_factor_ref r (some factor)) _ (Gives-self (resolve_factor_ref r (some factor)))
            λ f resolved.
              Gives-bind (λ a. compile_factor_accessor r (some factor) ≡ ok a) (Reads r)
                (compile_factor_accessor r (some factor)) _
                (Gives-self (compile_factor_accessor r (some factor)))
                λ a compiled.
                  Gives-bind (λ _. Unit) (Reads r) (type_of_field f) _ (Gives-any (type_of_field f))
                    λ t _.
                      ap (λ o. ok (or_null o))
                        (get-resolve_value r factor a ctx m compiled found
                          λ path. single (resolves_single r factor f resolved path)))
  ]

  root_value :
      (r : FactorRef) (m : ValueMap D)
      → lookup r.factor_code ctx ≡ some (object m)
      → r.path_segments ≡ []
      → lookup (bytes "value") m ≡ none
      → get (record { factor_code = r.factor_code; steps = [] }) ctx ≡ resolve_value ctx r
  unfolding get get_steps resolve_value resolve_root member
  root_value r m found path missing =
      rw (get, resolve_value, found, path, get_steps, resolve_root, member, missing) refl

  bind_root_object-Gives :
      (r : FactorRef) → r.path_segments ≡ [] → Gives (Reads r) (bind_root_object registry r)
  unfolding bind_root_object eval get get_steps resolve_value resolve_root member
  bind_root_object-Gives r path = elim (Option-cases (lookup_factor r.factor_code registry)) [
    | inl e ↦ rw (bind_root_object, e) tt
    | inr (none, e) ↦ rw (bind_root_object, e) tt
    | inr (some factor, e) ↦
        let (m, found, single, other) = fits r factor e in
        elim (Bool-cases (schema_has_single_value_field factor.output_schema)) [
          | inl h ↦ rw (bind_root_object, e, h) (bind_factor_ref-Gives r)
          | inr h ↦
              rw (bind_root_object, e, h)
                (ap (λ o. ok (or_null o)) (root_value r m found path (other h)))
        ]
  ]

  root_needed-Gives :
      (K : BoundExpr D → Type 0) (r : FactorRef) (segments : _)
      → r.path_segments ≡ segments
      → (r.path_segments ≡ [] → Gives K (bind_root_object registry r))
      → Gives K (bind_factor_ref registry r)
      → Gives K (bind_root_object_factor_ref_if_needed registry r)
  unfolding bind_root_object_factor_ref_if_needed
  root_needed-Gives K r [] e h g = rw (bind_root_object_factor_ref_if_needed, e) (h e)
  root_needed-Gives K r (x ∷ xs) e h g = rw (bind_root_object_factor_ref_if_needed, e) g

  abbrev Same : Expr D → BoundExpr D → Type 0
  Same e b = eval b ctx ≡ eval_expr e ctx

  abbrev SameArgs : Exprs D → BoundExprs D → Type 0
  SameArgs es bs = eval_args bs ctx ≡ eval_exprs es ctx

  bind_get_container-Gives :
      (e : Expr D)
      → Gives (Same e) (bind registry e)
      → Gives (Same e) (bind_get_container registry e (bind registry e))
  unfolding bind_get_container eval_expr
  bind_get_container-Gives (factor_ref r) h =
      root_needed-Gives (Reads r) r _ refl (bind_root_object-Gives r) (bind_factor_ref-Gives r)
  bind_get_container-Gives e h = h

  -- The maps that the entries of a literal map give, from the same start.
  abbrev SameEntries : Entries D → BoundEntries D → Type 0
  SameEntries es bs =
      (m : ValueMap D) → Bound.eval_entries bs ctx m ≡ Evaluator.eval_entries es ctx m

  mutual
    unfolding bind eval eval_expr

    bind-Gives : (e : Expr D) → Gives (Same e) (bind registry e)
    bind-Gives (literal v t) = refl
    bind-Gives (factor_ref r) = bind_factor_ref-Gives r
    bind-Gives (unary op e) =
        Gives-bind (Same e) (Same (unary op e)) (bind registry e) _ (bind-Gives e) λ e' h.
          subst
            (λ o. Gives (λ b. eval b ctx ≡ (o >>= λ v. eval_unary_value op v)) (bind_unary op e')) h
            (bind_unary-Gives ctx op e')
    bind-Gives (binary op l r) =
        Gives-bind (Same l) (Same (binary op l r)) (bind registry l) _ (bind-Gives l) λ l' h.
          Gives-bind (Same r) (Same (binary op l r)) (bind registry r) _ (bind-Gives r) λ r' k.
            Gives-map (λ x. eval x ctx ≡ run_binary (eval_binary_op op) (eval l' ctx) (eval r' ctx))
              (Same (binary op l r)) (bind_binary op l' r') (bind_binary-Gives ctx op l' r')
              λ x same. same ∙ rw (h, k) refl
    bind-Gives (conditional c a b) =
        Gives-bind (Same c) (Same (conditional c a b)) (bind registry c) _ (bind-Gives c) λ c' h.
          Gives-bind (λ _. Unit) (Same (conditional c a b)) (check_condition c') _
            (Gives-any (check_condition c'))
            λ _ _.
              Gives-bind (Same a) (Same (conditional c a b)) (bind registry a) _ (bind-Gives a)
                λ a' k.
                  Gives-bind (Same b) (Same (conditional c a b)) (bind registry b) _ (bind-Gives b)
                    λ b' l.
                      Gives-map
                        (λ x.
                          eval x ctx ≡ eval_conditional (eval c' ctx) (eval a' ctx) (eval b' ctx))
                        (Same (conditional c a b)) (bind_branches c' a' b')
                        (bind_branches-Gives ctx c' a' b') λ x same. same ∙ rw (h, k, l) refl
    bind-Gives (function_call FunctionName.get args) = bind_get_args-Gives args
    bind-Gives (function_call name args) =
        Gives-bind (SameArgs args) (Same (function_call name args)) (bind_args registry args) _
          (bind_args-Gives args)
          λ args' h.
            Gives-map (λ b. eval b ctx ≡ eval_function_call name (eval_args args' ctx))
              (Same (function_call name args)) (finish_function_call name args')
              (finish_function_call-Gives ctx name args')
              λ b same. same ∙ ap (eval_function_call name) h
    bind-Gives (list es) =
        Gives-bind (λ p. SameArgs es p.0) (Same (list es))
          (bind_elements registry es true (ValueType.other [])) _
          (bind_elements-Gives es true (ValueType.other []))
          λ p h. ap (λ o. o >>= λ vs. ok (Value.list (values vs))) h
    bind-Gives (map es) =
        Gives-bind (λ p. SameEntries es p.0) (Same (map es))
          (bind_entries registry es true (ValueType.other [])) _
          (bind_entries-Gives es true (ValueType.other []))
          λ p h. ap (λ o. o >>= λ m. ok (object m)) (h ValueMap.empty)

    bind_args-Gives : (es : Exprs D) → Gives (SameArgs es) (bind_args registry es)
    bind_args-Gives Exprs.nil = refl
    bind_args-Gives (Exprs.cons e es) =
        Gives-bind (Same e) (SameArgs (Exprs.cons e es)) (bind registry e) _ (bind-Gives e) λ e' h.
          Gives-bind (SameArgs es) (SameArgs (Exprs.cons e es)) (bind_args registry es) _
            (bind_args-Gives es) λ es' k. rw (h, k) refl

    bind_get_args-Gives :
        (es : Exprs D)
        → Gives (Same (function_call FunctionName.get es)) (bind_get_args registry es)
    bind_get_args-Gives Exprs.nil = tt
    bind_get_args-Gives (Exprs.cons c Exprs.nil) = tt
    bind_get_args-Gives (Exprs.cons c (Exprs.cons k Exprs.nil)) =
        let es : Exprs D = Exprs.cons c (Exprs.cons k Exprs.nil) in
        Gives-bind (Same c) (Same (function_call FunctionName.get es))
          (bind_get_container registry c (bind registry c)) _
          (bind_get_container-Gives c (bind-Gives c))
          λ c' h.
            Gives-bind (Same k) (Same (function_call FunctionName.get es)) (bind registry k) _
              (bind-Gives k)
              λ k' l.
                Gives-map
                  (λ b.
                    eval b ctx
                    ≡ eval_function_call FunctionName.get (eval_args (cons c' (cons k' nil)) ctx))
                  (Same (function_call FunctionName.get es)) (bind_get c' k')
                  (bind_get-Gives ctx c' k') λ b same. same ∙ rw (h, l) refl
    bind_get_args-Gives (Exprs.cons c (Exprs.cons k (Exprs.cons e es))) = tt

    bind_elements-Gives :
        (es : Exprs D) (first : Bool) (t : ValueType)
        → Gives (λ p. SameArgs es p.0) (bind_elements registry es first t)
    bind_elements-Gives Exprs.nil first t = refl
    bind_elements-Gives (Exprs.cons e es) first t =
        Gives-bind (Same e) (λ p. SameArgs (Exprs.cons e es) p.0) (bind registry e) _ (bind-Gives e)
          λ e' h.
            Gives-bind (λ _. Unit) (λ p. SameArgs (Exprs.cons e es) p.0)
              (element_type first t (result_type e')) _
              (Gives-any (element_type first t (result_type e')))
              λ u _.
                Gives-bind (λ p. SameArgs es p.0) (λ p. SameArgs (Exprs.cons e es) p.0)
                  (bind_elements registry es false u) _ (bind_elements-Gives es false u)
                  λ p k. rw (h, k) refl

    bind_entries-Gives :
        (es : Entries D) (first : Bool) (t : ValueType)
        → Gives (λ p. SameEntries es p.0) (bind_entries registry es first t)
    bind_entries-Gives Entries.empty first t = λ m. refl
    bind_entries-Gives (Entries.entry k e es) first t =
        Gives-bind (Same e) (λ p. SameEntries (Entries.entry k e es) p.0) (bind registry e) _
          (bind-Gives e)
          λ e' h.
            Gives-bind (λ _. Unit) (λ p. SameEntries (Entries.entry k e es) p.0)
              (element_type first t (result_type e')) _
              (Gives-any (element_type first t (result_type e')))
              λ u _.
                Gives-bind (λ p. SameEntries es p.0) (λ p. SameEntries (Entries.entry k e es) p.0)
                  (bind_entries registry es false u) _ (bind_entries-Gives es false u)
                  λ p l m. rw h (bind_congr (eval_expr e ctx) λ v. l (insert k v m))

  -- What the binder makes of an expression evaluates to what the expression itself does, value, error
  -- or panic, in a context that fits the registry.
  pub eval-bind :
      (e : Expr D) (b : BoundExpr D) → bind registry e ≡ ok b → eval b ctx ≡ eval_expr e ctx
  eval-bind e b h = subst (Gives (Same e)) h (bind-Gives e)
