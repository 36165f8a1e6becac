-- ===== src/Correct/Needs.antt =====
-- The room that an expression takes on the stack, and what its parts leave there.
use Prim.Native.Nat.{max}
use risk_engine.Prelude.{ℕ, ◌+◌, ◌*◌, ◌≤◌, ◌≡◌, refl, List, [], ◌∷◌, Str, length, arith, sym, ◌∙◌}
use risk_engine.Outcome.{Outcome, ok, err, panic, ◌>>=◌, bind_assoc, bind-eq-ok}
use risk_engine.Value.{Value, str, ValueMap, insert}
use risk_engine.Accessor.{EvalContext}
use risk_engine.Runtime.{Floats}
use risk_engine.Bound.{
  BoundExpr, literal, factor_ref, unary, binary, conditional, function_call, list, map, BoundExprs,
  nil, cons, BoundEntries, empty, entry, args_length, entries_length, eval, eval_args, eval_entries,
}
use risk_engine.Bytecode.Vm.{build_map}

-- A bound of the depth that the evaluation of an expression adds to the stack.
abbrev mutual
  pub stack_need : {D : Type 0} → BoundExpr D → ℕ
  stack_need (literal v t f) = 1
  stack_need (factor_ref r a t f) = 1
  stack_need (unary op e t f ev) = max 1 (stack_need e)
  stack_need (binary op l r t f ev) = max 1 (max (stack_need l) (1 + stack_need r))
  stack_need (conditional c a b t f) =
      max 1 (max (stack_need c) (max (stack_need a) (stack_need b)))
  stack_need (function_call name args t f ev) = max 1 (stack_need_args args)
  stack_need (list es t u f) = max 1 (stack_need_args es)
  stack_need (map es t u f) = max 1 (stack_need_entries es)

  pub stack_need_args : {D : Type 0} → BoundExprs D → ℕ
  stack_need_args nil = 0
  stack_need_args (cons e es) = max (stack_need e) (1 + stack_need_args es)

  pub stack_need_entries : {D : Type 0} → BoundEntries D → ℕ
  stack_need_entries empty = 0
  stack_need_entries (entry k e es) = max (max 1 (1 + stack_need e)) (2 + stack_need_entries es)

module _ {D : Type 0} where
  pub stack_need-pos : (e : BoundExpr D) → 1 ≤ stack_need e
  stack_need-pos (literal v t f) = omega arith
  stack_need-pos e = omega arith

  pub args_length-le : (es : BoundExprs D) → args_length es ≤ stack_need_args es
  args_length-le nil = omega arith
  args_length-le (cons e es) = omega (arith, args_length-le es)

  pub entries_length-le : (es : BoundEntries D) → entries_length es * 2 ≤ stack_need_entries es
  entries_length-le empty = omega arith
  entries_length-le (entry k e es) = omega (arith, entries_length-le es)

module _ {D : Type 0} ⦃fl : Floats D⦄ where
  pub length-eval_args :
      (es : BoundExprs D) (ctx : EvalContext D) {vs : List (Value D)}
      → eval_args es ctx ≡ ok vs
      → length vs ≡ args_length es
  unfolding eval
  length-eval_args nil ctx h = ground arith
  length-eval_args (cons e es) ctx {vs} h =
      let (v, _, h₁) = bind-eq-ok (eval e ctx) (λ v. eval_args es ctx >>= λ vs. ok (v ∷ vs)) h in
      let (ws, h₂, h₃) = bind-eq-ok (eval_args es ctx) (λ vs. ok (v ∷ vs)) h₁ in
      let ih = length-eval_args es ctx h₂ in ground (arith, ih)

  -- A key together with the value of its entry.
  abbrev pub key_value : Str → Outcome (Value D) → Outcome (Value D × Value D)
  key_value k (ok v) = ok (str k, v)
  key_value k (err x) = err x
  key_value k panic = panic

  -- The keys and values of a map literal, in the order in which they are pushed.
  unfoldable pub entry_values : BoundEntries D → EvalContext D → Outcome (List (Value D))
  entry_values empty ctx = ok []
  entry_values (entry k e es) ctx =
      key_value k (eval e ctx) >>= λ kv. entry_values es ctx >>= λ vs. ok (kv.0 ∷ kv.1 ∷ vs)

  pub length-entry_values :
      (es : BoundEntries D) (ctx : EvalContext D) {vs : List (Value D)}
      → entry_values es ctx ≡ ok vs
      → length vs ≡ entries_length es * 2
  unfolding entry_values
  length-entry_values empty ctx h = ground arith
  length-entry_values (entry k e es) ctx {vs} h =
      let (kv, _, h₁) =
        bind-eq-ok (key_value k (eval e ctx))
          (λ kv. entry_values es ctx >>= λ vs. ok (kv.0 ∷ kv.1 ∷ vs)) h in
      let (ws, h₂, h₃) = bind-eq-ok (entry_values es ctx) (λ vs. ok (kv.0 ∷ kv.1 ∷ vs)) h₁ in
      let ih = length-entry_values es ctx h₂ in ground (arith, ih)

  -- One entry: what the loop does with its value, and what is pushed.
  build_entry :
      (k : Str) (es : BoundEntries D) (ctx : EvalContext D) (m : ValueMap D) (o : Outcome (Value D))
      → ((v : Value D)
          → eval_entries es ctx (insert k v m)
            ≡ (entry_values es ctx >>= λ vs. build_map vs (insert k v m)))
      → (o >>= λ v. eval_entries es ctx (insert k v m)) ≡ (
          key_value k o >>= (λ kv. entry_values es ctx >>= λ vs. ok (kv.0 ∷ kv.1 ∷ vs)) >>= λ vs.
          build_map vs m)
  unfolding build_map
  build_entry k es ctx m (ok v) ih =
      ih v
      ∙ sym (bind_assoc (entry_values es ctx) (λ vs. ok (str k ∷ v ∷ vs)) (λ vs. build_map vs m))
  build_entry k es ctx m (err x) ih = refl
  build_entry k es ctx m panic ih = refl

  -- The map of the entries is built from those.
  pub eval_entries-build_map :
      (es : BoundEntries D) (ctx : EvalContext D) (m : ValueMap D)
      → eval_entries es ctx m ≡ (entry_values es ctx >>= λ vs. build_map vs m)
  unfolding eval entry_values build_map
  eval_entries-build_map empty ctx m = refl
  eval_entries-build_map (entry k e es) ctx m =
      build_entry k es ctx m (eval e ctx) (λ v. eval_entries-build_map es ctx (insert k v m))
