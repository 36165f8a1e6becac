-- ===== src/Correct/Binding.antt =====
-- What `Bind` makes is well bound.
use risk_engine.Prelude.{
  ◌≡◌, refl, Bool, true, false, none, some, [], ◌∷◌, Bool-cases, Option-cases, inl, inr,
  if◌then◌else◌,
}
use risk_engine.Outcome.{Outcome, ok, err, panic, ◌>>=◌}
use mathlib.Core.Path.{subst}
use risk_engine.Operators.{
  BinaryOp, UnaryOp, FunctionName, ValueType, type_eq, is_numeric_type, are_branch_compatible,
}
use risk_engine.Schema.{
  FactorRegistry, FactorRef, lookup_factor, resolve_factor_ref, schema_has_single_value_field,
}
use risk_engine.Accessor.{compile_factor_accessor}
use risk_engine.Expr.{
  Expr, literal, factor_ref, unary, binary, conditional, function_call, list, map, Exprs, Entries,
}
use risk_engine.Bound.{BoundExpr, BoundExprs, BoundEntries, result_type, bound_field, nil, cons}
use risk_engine.Binder.{
  bind, bind_args, bind_get_args, bind_elements, bind_entries, bind_unary, bind_binary,
  check_condition, bind_branches, bind_factor_ref, bind_get_container, bind_get,
  finish_function_call, bind_root_object_factor_ref_if_needed, bind_root_object, binary_result_type,
  resolve_get_result_field, type_of_field, element_type, all_compatible, contains_accepts,
}
use risk_engine.Correct.WellBound.{
  binary_evaluator-eval_binary_op, WellBound, WellBoundArgs, WellBoundEntries,
}

-- A result, if there is one, is well bound.
abbrev Makes : {D : Type 0} → Outcome (BoundExpr D) → Type 0
Makes (ok e) = WellBound e
Makes _ = Unit

module _ {D : Type 0} where
  Makes-if :
      (c : Bool) (o o' : Outcome (BoundExpr D)) → Makes o → Makes o' → Makes (if c then o else o')
  Makes-if true o o' h k = h
  Makes-if false o o' h k = k

  Makes-bind :
      {A : Type 0} (m : Outcome A) (f : A → Outcome (BoundExpr D))
      → ((a : A) → m ≡ ok a → Makes (f a))
      → Makes (m >>= f)
  Makes-bind (ok a) f h = h a refl
  Makes-bind (err x) f h = tt
  Makes-bind panic f h = tt

  of_Makes : (o : Outcome (BoundExpr D)) (e : BoundExpr D) → Makes o → o ≡ ok e → WellBound e
  of_Makes o e h same = subst Makes same h

  bind_unary-Makes : (op : UnaryOp) (e : BoundExpr D) → WellBound e → Makes (bind_unary op e)
  unfolding bind_unary
  bind_unary-Makes UnaryOp.not e w = elim (Bool-cases (type_eq (result_type e) ValueType.bool)) [
    | inl h ↦ rw (bind_unary, h) (refl, w)
    | inr h ↦ rw (bind_unary, h) tt
  ]
  bind_unary-Makes UnaryOp.neg e w = elim (Bool-cases (is_numeric_type (result_type e))) [
    | inl h ↦ rw (bind_unary, h) (refl, w)
    | inr h ↦ rw (bind_unary, h) tt
  ]
  bind_unary-Makes (UnaryOp.other s) e w = tt

  bind_binary-Makes :
      (op : BinaryOp) (l r : BoundExpr D) → WellBound l → WellBound r → Makes (bind_binary op l r)
  unfolding bind_binary
  bind_binary-Makes op l r v w =
      Makes-bind (binary_result_type op (result_type l) (result_type r)) _
        λ t _. (binary_evaluator-eval_binary_op op, v, w)

  bind_branches-Makes :
      (c a b : BoundExpr D) → WellBound c → WellBound a → WellBound b → Makes (bind_branches c a b)
  unfolding bind_branches
  bind_branches-Makes c a b u v w =
      elim (Bool-cases (are_branch_compatible (result_type a) (result_type b))) [
        | inl h ↦ rw (bind_branches, h) (u, v, w)
        | inr h ↦ rw (bind_branches, h) tt
      ]

bind_factor_ref-Makes :
    (D : Type 0) (registry : FactorRegistry) (r : FactorRef)
    → Makes {D = D} (bind_factor_ref registry r)
unfolding bind_factor_ref
bind_factor_ref-Makes D registry r = elim (Option-cases (lookup_factor r.factor_code registry)) [
  | inl e ↦ rw (bind_factor_ref, e) tt
  | inr (factor, e) ↦
      rw (bind_factor_ref, e)
        (Makes-bind (resolve_factor_ref r factor) _ λ f _.
          Makes-bind (compile_factor_accessor r factor) _
            λ a _. Makes-bind (type_of_field f) _ λ t _. tt)
]

bind_root_object-Makes :
    (D : Type 0) (registry : FactorRegistry) (r : FactorRef) (found : _)
    → lookup_factor r.factor_code registry ≡ found
    → Makes {D = D} (bind_root_object registry r)
unfolding bind_root_object
bind_root_object-Makes D registry r none e = rw (bind_root_object, e) tt
bind_root_object-Makes D registry r (some none) e = rw (bind_root_object, e) tt
bind_root_object-Makes D registry r (some (some factor)) e =
    rw (bind_root_object, e)
      (Makes-if (schema_has_single_value_field factor.output_schema) _ _
        (bind_factor_ref-Makes D registry r) tt)

root_needed-Makes :
    (D : Type 0) (registry : FactorRegistry) (r : FactorRef) (segments : _)
    → r.path_segments ≡ segments
    → Makes {D = D} (bind_root_object_factor_ref_if_needed registry r)
unfolding bind_root_object_factor_ref_if_needed
root_needed-Makes D registry r [] e =
    rw (bind_root_object_factor_ref_if_needed, e) (bind_root_object-Makes D registry r _ refl)
root_needed-Makes D registry r (x ∷ xs) e =
    rw (bind_root_object_factor_ref_if_needed, e) (bind_factor_ref-Makes D registry r)

module _ {D : Type 0} where
  bind_get_container-Makes :
      (registry : FactorRegistry) (e : Expr D)
      → Makes (bind registry e)
      → Makes (bind_get_container registry e (bind registry e))
  unfolding bind_get_container
  bind_get_container-Makes registry (factor_ref r) h = root_needed-Makes D registry r _ refl
  bind_get_container-Makes registry e h = h

  bind_get-Makes :
      (container key : BoundExpr D)
      → WellBound container
      → WellBound key
      → Makes (bind_get container key)
  unfolding bind_get
  bind_get-Makes container key v w =
      elim (Bool-cases (type_eq (result_type key) ValueType.string)) [
        | inl h ↦
            rw (bind_get, h)
              (Makes-bind (resolve_get_result_field (bound_field container) key) _
                λ f _. Makes-bind (type_of_field f) _ λ t _. (refl, (v, (w, tt))))
        | inr h ↦ rw (bind_get, h) tt
      ]

  finish_function_call-Makes :
      (name : FunctionName) (args : BoundExprs D)
      → WellBoundArgs args
      → Makes (finish_function_call name args)
  unfolding finish_function_call
  finish_function_call-Makes FunctionName.is_empty (cons e nil) w = (refl, w)
  finish_function_call-Makes FunctionName.is_empty nil w = tt
  finish_function_call-Makes FunctionName.is_empty (cons e (cons e' es)) w = tt
  finish_function_call-Makes FunctionName.exists (cons e nil) w = (refl, w)
  finish_function_call-Makes FunctionName.exists nil w = tt
  finish_function_call-Makes FunctionName.exists (cons e (cons e' es)) w = tt
  finish_function_call-Makes FunctionName.in_list (cons e (cons e' es)) w =
      elim (Bool-cases (all_compatible (result_type e) (cons e' es))) [
        | inl h ↦ rw (finish_function_call, h) (refl, w)
        | inr h ↦ rw (finish_function_call, h) tt
      ]
  finish_function_call-Makes FunctionName.in_list nil w = tt
  finish_function_call-Makes FunctionName.in_list (cons e nil) w = tt
  finish_function_call-Makes FunctionName.contains (cons c (cons e nil)) w =
      elim (Bool-cases (contains_accepts c e)) [
        | inl h ↦ rw (finish_function_call, h) (refl, w)
        | inr h ↦ rw (finish_function_call, h) tt
      ]
  finish_function_call-Makes FunctionName.contains nil w = tt
  finish_function_call-Makes FunctionName.contains (cons e nil) w = tt
  finish_function_call-Makes FunctionName.contains (cons e (cons e' (cons e'' es))) w = tt
  finish_function_call-Makes FunctionName.get (cons c (cons e nil)) w = bind_get-Makes c e w.0 w.1.0
  finish_function_call-Makes FunctionName.get nil w = tt
  finish_function_call-Makes FunctionName.get (cons e nil) w = tt
  finish_function_call-Makes FunctionName.get (cons e (cons e' (cons e'' es))) w = tt
  finish_function_call-Makes (FunctionName.other name) args w = tt

-- The same of the results of a class.
abbrev pub Gives : {A : Type 0} → (A → Type 0) → Outcome A → Type 0
Gives K (ok a) = K a
Gives K _ = Unit

Makes-Gives :
    {A D : Type 0} (K : A → Type 0) (m : Outcome A) (f : A → Outcome (BoundExpr D))
    → Gives K m
    → ((a : A) → K a → Makes (f a))
    → Makes (m >>= f)
Makes-Gives K (ok a) f h g = g a h
Makes-Gives K (err x) f h g = tt
Makes-Gives K panic f h g = tt

Gives-Makes :
    {A D : Type 0} (K : A → Type 0) (m : Outcome (BoundExpr D)) (f : BoundExpr D → Outcome A)
    → Makes m
    → ((e : BoundExpr D) → WellBound e → Gives K (f e))
    → Gives K (m >>= f)
Gives-Makes K (ok a) f h g = g a h
Gives-Makes K (err x) f h g = tt
Gives-Makes K panic f h g = tt

pub Gives-bind :
    {A B : Type 0} (K : A → Type 0) (L : B → Type 0) (m : Outcome A) (f : A → Outcome B)
    → Gives K m
    → ((a : A) → K a → Gives L (f a))
    → Gives L (m >>= f)
Gives-bind K L (ok a) f h g = g a h
Gives-bind K L (err x) f h g = tt
Gives-bind K L panic f h g = tt

pub Gives-any : {A : Type 0} (m : Outcome A) → Gives (λ _. Unit) m
Gives-any (ok a) = tt
Gives-any (err x) = tt
Gives-any panic = tt

abbrev Elements : {D : Type 0} → BoundExprs D × ValueType → Type 0
Elements p = WellBoundArgs p.0

abbrev EntriesOf : {D : Type 0} → BoundEntries D × ValueType → Type 0
EntriesOf p = WellBoundEntries p.0

mutual
  unfolding bind

  bind-Makes : {D : Type 0} (registry : FactorRegistry) (e : Expr D) → Makes (bind registry e)
  bind-Makes registry (literal v t) = tt
  bind-Makes registry (factor_ref r) = bind_factor_ref-Makes _ registry r
  bind-Makes registry (unary op e) =
      Makes-Gives WellBound (bind registry e) _ (bind-Makes registry e)
        λ e' w. bind_unary-Makes op e' w
  bind-Makes registry (binary op l r) =
      Makes-Gives WellBound (bind registry l) _ (bind-Makes registry l) λ l' v.
        Makes-Gives WellBound (bind registry r) _ (bind-Makes registry r)
          λ r' w. bind_binary-Makes op l' r' v w
  bind-Makes registry (conditional c a b) =
      Makes-Gives WellBound (bind registry c) _ (bind-Makes registry c) λ c' u.
        Makes-Gives (λ _. Unit) (check_condition c') _ (Gives-any (check_condition c'))
          λ _ _. Makes-Gives WellBound (bind registry a) _ (bind-Makes registry a) λ a' v.
            Makes-Gives WellBound (bind registry b) _ (bind-Makes registry b)
              λ b' w. bind_branches-Makes c' a' b' u v w
  bind-Makes registry (function_call FunctionName.get args) = bind_get_args-Makes registry args
  bind-Makes registry (function_call name args) =
      Makes-Gives WellBoundArgs (bind_args registry args) _ (bind_args-Gives registry args)
        λ es w. finish_function_call-Makes name es w
  bind-Makes registry (list es) =
      Makes-Gives Elements (bind_elements registry es true (ValueType.other [])) _
        (bind_elements-Gives registry es true (ValueType.other [])) λ p w. w
  bind-Makes registry (map es) =
      Makes-Gives EntriesOf (bind_entries registry es true (ValueType.other [])) _
        (bind_entries-Gives registry es true (ValueType.other [])) λ p w. w

  bind_args-Gives :
      {D : Type 0} (registry : FactorRegistry) (es : Exprs D)
      → Gives WellBoundArgs (bind_args registry es)
  bind_args-Gives registry Exprs.nil = tt
  bind_args-Gives registry (Exprs.cons e es) =
      Gives-Makes WellBoundArgs (bind registry e) _ (bind-Makes registry e) λ e' v.
        Gives-bind WellBoundArgs WellBoundArgs (bind_args registry es) _
          (bind_args-Gives registry es) λ es' w. (v, w)

  bind_get_args-Makes :
      {D : Type 0} (registry : FactorRegistry) (es : Exprs D) → Makes (bind_get_args registry es)
  bind_get_args-Makes registry Exprs.nil = tt
  bind_get_args-Makes registry (Exprs.cons c Exprs.nil) = tt
  bind_get_args-Makes registry (Exprs.cons c (Exprs.cons k Exprs.nil)) =
      Makes-Gives WellBound (bind_get_container registry c (bind registry c)) _
        (bind_get_container-Makes registry c (bind-Makes registry c))
        λ c' v.
          Makes-Gives WellBound (bind registry k) _ (bind-Makes registry k)
            λ k' w. bind_get-Makes c' k' v w
  bind_get_args-Makes registry (Exprs.cons c (Exprs.cons k (Exprs.cons e es))) = tt

  bind_elements-Gives :
      {D : Type 0} (registry : FactorRegistry) (es : Exprs D) (first : Bool) (t : ValueType)
      → Gives Elements (bind_elements registry es first t)
  bind_elements-Gives registry Exprs.nil first t = tt
  bind_elements-Gives registry (Exprs.cons e es) first t =
      Gives-Makes Elements (bind registry e) _ (bind-Makes registry e) λ e' v.
        Gives-bind (λ _. Unit) Elements (element_type first t (result_type e')) _
          (Gives-any (element_type first t (result_type e')))
          λ u _.
            Gives-bind Elements Elements (bind_elements registry es false u) _
              (bind_elements-Gives registry es false u) λ es' w. (v, w)

  bind_entries-Gives :
      {D : Type 0} (registry : FactorRegistry) (es : Entries D) (first : Bool) (t : ValueType)
      → Gives EntriesOf (bind_entries registry es first t)
  bind_entries-Gives registry Entries.empty first t = tt
  bind_entries-Gives registry (Entries.entry k e es) first t =
      Gives-Makes EntriesOf (bind registry e) _ (bind-Makes registry e) λ e' v.
        Gives-bind (λ _. Unit) EntriesOf (element_type first t (result_type e')) _
          (Gives-any (element_type first t (result_type e')))
          λ u _.
            Gives-bind EntriesOf EntriesOf (bind_entries registry es false u) _
              (bind_entries-Gives registry es false u) λ es' w. (v, w)

-- Whatever the binder accepts is well bound: each operator and each function name is paired with its
-- own evaluator, in every part of the expression.
pub bind-WellBound :
    {D : Type 0} (registry : FactorRegistry) (e : Expr D) (b : BoundExpr D)
    → bind registry e ≡ ok b
    → WellBound b
bind-WellBound registry e b h = of_Makes (bind registry e) b (bind-Makes registry e) h
