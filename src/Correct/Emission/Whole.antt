-- ===== src/Correct/Emission/Whole.antt =====
-- Whatever `emitExpr` emits computes what the expression evaluates to: induction on the expression.
use Prim.Native.Nat.{max}
use mathlib.Core.Path.{subst}
use mathlib.Core.List.{reverse_aux}
use risk_engine.Prelude.{
  ◌+◌, ◌≡◌, refl, sym, ap, Bool, true, false, not, List, [], ◌∷◌, Str, length, arith,
}
use risk_engine.Outcome.{Outcome, ok, err, panic, ◌>>=◌, bind-eq-ok}
use risk_engine.Operators.{BinaryOp, ValueType}
use risk_engine.Schema.{FieldPtr}
use risk_engine.Value.{Value, bool, str, list}
use risk_engine.Runtime.{Floats, truthy_bool}
use risk_engine.Evaluator.{eval_binary_op, run_binary}
use risk_engine.Bound.{
  BoundExpr, literal, factor_ref, unary, binary, conditional, function_call, list, map, BoundExprs,
  nil, cons, BoundEntries, empty, entry, eval, run_unary,
}
use risk_engine.Bytecode.{OpCode, instr, Formatter}
use risk_engine.Bytecode.Emit.{
  Emission, append, push_constant, patch, unary_opcode, binary_opcode, emit_expr, emit_args,
  emit_entries, emit_binary, emit_short_circuit, emit_conditional,
}
use risk_engine.Correct.WellBound.{
  WellBound, WellBoundArgs, WellBoundEntries, BoolOperands, BoolOperandsEntries, ConstantsIn,
  ConstantsInArgs, ConstantsInEntries, NeedsBool, IsBool, unary_op_of,
}
use risk_engine.Correct.Tables.{KeysSound, Indexed}
use risk_engine.Correct.Needs.{
  stack_need, stack_need_entries, stack_need-pos, entry_values, key_value,
}
use risk_engine.Correct.Computes.{push_one}
use risk_engine.Correct.Opcodes.{
  ok_injective, unary_opcode-UnaryCode, Forks-if_false, Forks-if_true,
}
use risk_engine.Correct.Emission.{
  Emitted, Emitted-map, Emitted-nothing, Emitted-finish, Emitted-seq,
}
use risk_engine.Correct.Emission.Expr.{
  push_constant-Emitted, load_factor-Emitted, strict-Emitted, short_circuit-Emitted, and_meaning,
  or_meaning, plain_if_false, plain_if_true, conditional-Emitted, ArgsEmitted, call-Emitted,
  list-Emitted, map-Emitted,
}

abbrev key_with : {D : Type 0} → Str → Value D → Value D × Value D
key_with k v = (str k, v)

key_value_bind :
    {D : Type 0} ⦃fl : Floats D⦄ (k : Str) (o : Outcome (Value D))
    → key_value k o ≡ (o >>= λ v. ok (key_with k v))
key_value_bind k (ok v) = refl
key_value_bind k (err e) = refl
key_value_bind k panic = refl

module _ {D : Type 0} ⦃fl : Floats D⦄ (fmt : Formatter D) (P : Value D → Type 0)
    (sound : KeysSound fmt P) where
  abbrev ExprEmitted : Emission D → Emission D → BoundExpr D → Type 0
  ExprEmitted s s' e = Emitted fmt P s s' (stack_need e) 1 (BoolOperands e) (eval e) push_one

  -- The emission of a part, from any state.
  abbrev Emits : BoundExpr D → Type 0
  Emits e =
      (s s' : Emission D)
      → emit_expr fmt e s ≡ ok s'
      → Indexed fmt P s.compiler
      → ExprEmitted s s' e

  unary-Emitted :
      (op : _) (e : BoundExpr D) (t : _) (f : _) (ev : _) (s s' : Emission D)
      → (emit_expr fmt e s >>= λ s₁. unary_opcode op >>= λ code. ok (append (instr code 0) s₁))
        ≡ ok s'
      → op ≡ unary_op_of ev
      → Emits e
      → Indexed fmt P s.compiler
      → ExprEmitted s s' (unary op e t f ev)
  unfolding eval append
  unary-Emitted op e t f ev s s' h same ee ix =
      let (s₁, h₁, h₂) =
        bind-eq-ok (emit_expr fmt e s)
          (λ s₁. unary_opcode op >>= λ code. ok (append (instr code 0) s₁)) h in
      let (code, h₃, h₄) =
        bind-eq-ok (unary_opcode op) (λ code. ok (append (instr code 0) s₁)) h₂ in
      let facts = unary_opcode-UnaryCode D op ev h₃ same in
      let part = ee s s₁ h₁ ix in
      subst (λ z. ExprEmitted s z (unary op e t f ev)) (ok_injective h₄)
        (Emitted-finish fmt P (append (instr code 0) s₁) (instr code 0) (run_unary ev) part refl
          part.indexed (λ p h. h) (λ i. facts.plain i 0 0)
          (λ ctx v stack _. omega (arith, stack_need-pos e))
          (λ p ctx v stack tables _. facts.exec p ctx v stack))

  abbrev BinaryEmitted : Emission D → Emission D → BinaryOp → BoundExpr D → BoundExpr D → Type 0
  BinaryEmitted s s' op l r =
      Emitted fmt P s s' (max 1 (max (stack_need l) (1 + stack_need r))) 1
        (λ ctx.
          (NeedsBool op → (v : Value D) → eval r ctx ≡ ok v → IsBool v)
          × BoolOperands l ctx
          × BoolOperands r ctx)
        (λ ctx. run_binary (eval_binary_op op) (eval l ctx) (eval r ctx)) push_one

  -- `emitShortCircuitBinary`.
  short-Emitted :
      (op : BinaryOp) (fork : OpCode) (short : Bool) (l r : BoundExpr D) (s s' : Emission D)
      → emit_short_circuit fmt fork short (emit_expr fmt l) (emit_expr fmt r) s ≡ ok s'
      → ((s₁ s₂ : Emission D)
          → ExprEmitted s s₁ l
          → ExprEmitted (append (instr fork 0) s₁) s₂ r
          → BinaryEmitted s
              (patch (length s₂.instructions) (
                push_constant fmt
                  (bool short)
                  (patch (length s₁.instructions) (append (instr OpCode.jump 0) s₂))))
              op
              l
              r)
      → Emits l
      → Emits r
      → Indexed fmt P s.compiler
      → BinaryEmitted s s' op l r
  unfolding emit_short_circuit append
  short-Emitted op fork short l r s s' h join el er ix =
      let finish : Emission D → Emission D → Emission D = λ s₁ s₂. patch (length s₂.instructions) (
        push_constant fmt (bool short)
          (patch (length s₁.instructions) (append (instr OpCode.jump 0) s₂))) in
      let (s₁, h₁, h₂) =
        bind-eq-ok (emit_expr fmt l s)
          (λ s₁. emit_expr fmt r (append (instr fork 0) s₁) >>= λ s₂. ok (finish s₁ s₂)) h in
      let (s₂, h₃, h₄) =
        bind-eq-ok (emit_expr fmt r (append (instr fork 0) s₁)) (λ s₂. ok (finish s₁ s₂)) h₂ in
      let first = el s s₁ h₁ ix in
      subst (λ z. BinaryEmitted s z op l r) (ok_injective h₄)
        (join s₁ s₂ first (er (append (instr fork 0) s₁) s₂ h₃ first.indexed))

  -- The other binary operators.
  plain-Emitted :
      (op : BinaryOp) (l r : BoundExpr D) (s s' : Emission D)
      → (emit_expr fmt l s >>= λ s₁.
          emit_expr fmt r s₁ >>= λ s₂. binary_opcode op >>= λ code. ok (append (instr code 0) s₂))
        ≡ ok s'
      → Emits l
      → Emits r
      → Indexed fmt P s.compiler
      → BinaryEmitted s s' op l r
  plain-Emitted op l r s s' h el er ix =
      let (s₁, h₁, h₂) =
        bind-eq-ok (emit_expr fmt l s)
          (λ s₁.
            emit_expr fmt r s₁ >>= λ s₂. binary_opcode op >>= λ code. ok (append (instr code 0) s₂))
          h in
      let (s₂, h₃, h₄) =
        bind-eq-ok (emit_expr fmt r s₁)
          (λ s₂. binary_opcode op >>= λ code. ok (append (instr code 0) s₂)) h₂ in
      let (code, h₅, h₆) =
        bind-eq-ok (binary_opcode op) (λ code. ok (append (instr code 0) s₂)) h₄ in
      let first = el s s₁ h₁ ix in
      subst (λ z. BinaryEmitted s z op l r) (ok_injective h₆)
        (Emitted-map fmt P
          (strict-Emitted fmt P sound l r op code h₅ first (er s₁ s₂ h₃ first.indexed))
          (λ ctx q. ((q.1, q.2), refl)))

  binary-Emitted :
      (op : BinaryOp) (l r : BoundExpr D) (s s' : Emission D)
      → emit_binary fmt op (emit_expr fmt l) (emit_expr fmt r) s ≡ ok s'
      → Emits l
      → Emits r
      → Indexed fmt P s.compiler
      → BinaryEmitted s s' op l r
  unfolding emit_binary
  binary-Emitted BinaryOp.and l r s s' h =
      short-Emitted BinaryOp.and OpCode.jump_if_false false l r s s' h (λ s₁ s₂.
        short_circuit-Emitted fmt P sound l r BinaryOp.and OpCode.jump_if_false false
          (λ v. not (truthy_bool v)) (Forks-if_false D) (plain_if_false fmt P sound) tt
          (and_meaning fmt P sound))
  binary-Emitted BinaryOp.or l r s s' h =
      short-Emitted BinaryOp.or OpCode.jump_if_true true l r s s' h (λ s₁ s₂.
        short_circuit-Emitted fmt P sound l r BinaryOp.or OpCode.jump_if_true true truthy_bool
          (Forks-if_true D) (plain_if_true fmt P sound) tt (or_meaning fmt P sound))
  binary-Emitted op l r s s' h = plain-Emitted op l r s s' h

  abbrev EmitsArgs : BoundExprs D → Type 0
  EmitsArgs es =
      (s s' : Emission D)
      → emit_args fmt es s ≡ ok s'
      → Indexed fmt P s.compiler
      → ArgsEmitted fmt P sound s s' es

  abbrev EmitsEntries : BoundEntries D → Type 0
  EmitsEntries es =
      (s s' : Emission D)
      → emit_entries fmt es s ≡ ok s'
      → Indexed fmt P s.compiler
      → Emitted fmt P s s' (stack_need_entries es) 0 (BoolOperandsEntries es) (entry_values es)
          reverse_aux

  cons-Emits :
      (e : BoundExpr D) (es : BoundExprs D) → Emits e → EmitsArgs es → EmitsArgs (cons e es)
  unfolding emit_expr eval
  cons-Emits e es ee ees s s' h ix =
      let (s₁, h₁, h₂) = bind-eq-ok (emit_expr fmt e s) (λ s₁. emit_args fmt es s₁) h in
      let first = ee s s₁ h₁ ix in
      Emitted-seq fmt P 1 (λ v vs. v ∷ vs) reverse_aux first (ees s₁ s' h₂ first.indexed)
        (λ v stack. omega arith) (λ v vs stack. refl)

  entry-Emits :
      (k : Str) (e : BoundExpr D) (es : BoundEntries D)
      → Emits e
      → EmitsEntries es
      → EmitsEntries (entry k e es)
  unfolding emit_expr entry_values
  entry-Emits k e es ee ees s s' h ix =
      let (s₁, h₁, h₂) =
        bind-eq-ok (emit_expr fmt e (push_constant fmt (str k) s)) (λ s₁. emit_entries fmt es s₁)
          h in
      let key = push_constant-Emitted fmt P sound {Q = λ _. Unit} (str k) s (sound.strings k) ix in
      let value = ee (push_constant fmt (str k) s) s₁ h₁ key.indexed in
      let pair : Value D → Value D → Value D × Value D = λ a b. (a, b) in
      let push : Value D × Value D → List (Value D) → List (Value D) =
        λ ab stack. ab.1 ∷ ab.0 ∷ stack in
      let both =
        Emitted-seq fmt P 1 pair push key value (λ a stack. omega arith) (λ a b stack. refl) in
      let all =
        Emitted-seq fmt P 2 (λ ab vs. ab.0 ∷ ab.1 ∷ vs) reverse_aux both
          (ees s₁ s' h₂ value.indexed) (λ ab stack. omega arith) (λ ab vs stack. refl) in
      Emitted-map fmt P all (λ ctx q. (
        ((tt, q.0), q.1),
        ap (λ o. o >>= λ kv. entry_values es ctx >>= λ vs. ok (kv.0 ∷ kv.1 ∷ vs))
            (key_value_bind k (eval e ctx)),
      ))

  -- `emitExpr` on a conditional.
  branches-Emitted :
      (x a b : BoundExpr D) (t : ValueType) (f : FieldPtr) (s s' : Emission D)
      → emit_conditional (emit_expr fmt x) (emit_expr fmt a) (emit_expr fmt b) s ≡ ok s'
      → Emits x
      → Emits a
      → Emits b
      → Indexed fmt P s.compiler
      → ExprEmitted s s' (conditional x a b t f)
  unfolding emit_conditional append patch eval
  branches-Emitted x a b t f s s' h ex ea eb ix =
      let fork : Emission D → Emission D = append (instr OpCode.jump_if_false 0) in
      let leave : Emission D → Emission D → Emission D =
        λ s₁ s₂. patch (length s₁.instructions) (append (instr OpCode.jump 0) s₂) in
      let (s₁, h₁, h₂) =
        bind-eq-ok (emit_expr fmt x s)
          (λ s₁. emit_expr fmt a (fork s₁) >>= λ s₂.
            emit_expr fmt b (leave s₁ s₂) >>= λ s₃. ok (patch (length s₂.instructions) s₃))
          h in
      let (s₂, h₃, h₄) =
        bind-eq-ok (emit_expr fmt a (fork s₁))
          (λ s₂. emit_expr fmt b (leave s₁ s₂) >>= λ s₃. ok (patch (length s₂.instructions) s₃))
          h₂ in
      let (s₃, h₅, h₆) =
        bind-eq-ok (emit_expr fmt b (leave s₁ s₂)) (λ s₃. ok (patch (length s₂.instructions) s₃))
          h₄ in
      let on = ex s s₁ h₁ ix in
      let first = ea (fork s₁) s₂ h₃ on.indexed in
      let second = eb (leave s₁ s₂) s₃ h₅ first.indexed in
      subst (λ z. ExprEmitted s z (conditional x a b t f)) (ok_injective h₆)
        (conditional-Emitted fmt P sound x a b on first second)

  mutual
    unfolding emit_expr eval entry_values

    pub emit_expr-Emits : (e : BoundExpr D) → WellBound e → ConstantsIn P e → Emits e
    emit_expr-Emits (literal v t f) w c s s' h ix =
        subst (λ z. ExprEmitted s z (literal v t f)) (ok_injective h)
          (push_constant-Emitted fmt P sound v s c ix)
    emit_expr-Emits (factor_ref r a t f) w c s s' h ix =
        subst (λ z. ExprEmitted s z (factor_ref r a t f)) (ok_injective h)
          (load_factor-Emitted fmt P sound a s ix)
    emit_expr-Emits (unary op e t f ev) w c s s' h ix =
        unary-Emitted op e t f ev s s' h w.0 (emit_expr-Emits e w.1 c) ix
    emit_expr-Emits (binary op l r t f ev) w c s s' h ix =
        subst (λ z. ExprEmitted s s' (binary op l r t f z)) (sym w.0)
          (binary-Emitted op l r s s' h (emit_expr-Emits l w.1 c.0) (emit_expr-Emits r w.2 c.1) ix)
    emit_expr-Emits (conditional x a b t f) w c s s' h ix =
        branches-Emitted x a b t f s s' h (emit_expr-Emits x w.0 c.0) (emit_expr-Emits a w.1 c.1)
          (emit_expr-Emits b w.2 c.2) ix
    emit_expr-Emits (function_call name args t f ev) w c s s' h ix =
        let (s₁, h₁, h₂) = bind-eq-ok (emit_args fmt args s) _ h in
        subst (λ z. ExprEmitted s z (function_call name args t f ev)) (ok_injective h₂)
          (call-Emitted fmt P sound name ev args w.0 (emit_args-Emits args w.1 c s s₁ h₁ ix))
    emit_expr-Emits (list es t u f) w c s s' h ix =
        let (s₁, h₁, h₂) = bind-eq-ok (emit_args fmt es s) _ h in
        subst (λ z. ExprEmitted s z (list es t u f)) (ok_injective h₂)
          (list-Emitted fmt P sound es (emit_args-Emits es w c s s₁ h₁ ix))
    emit_expr-Emits (map es t u f) w c s s' h ix =
        let (s₁, h₁, h₂) = bind-eq-ok (emit_entries fmt es s) _ h in
        subst (λ z. ExprEmitted s z (map es t u f)) (ok_injective h₂)
          (map-Emitted fmt P sound es (emit_entries-Emits es w c s s₁ h₁ ix))

    emit_args-Emits : (es : BoundExprs D) → WellBoundArgs es → ConstantsInArgs P es → EmitsArgs es
    emit_args-Emits nil w c s s' h ix =
        subst (λ z. ArgsEmitted fmt P sound s z nil) (ok_injective h)
          (Emitted-nothing fmt P s [] reverse_aux ix (λ stack. refl))
    emit_args-Emits (cons e es) w c s s' h ix =
        cons-Emits e es (emit_expr-Emits e w.0 c.0) (emit_args-Emits es w.1 c.1) s s' h ix

    emit_entries-Emits :
        (es : BoundEntries D) → WellBoundEntries es → ConstantsInEntries P es → EmitsEntries es
    emit_entries-Emits empty w c s s' h ix =
        subst
          (λ z. Emitted fmt P s z 0 0 (BoolOperandsEntries empty) (entry_values empty) reverse_aux)
          (ok_injective h) (Emitted-nothing fmt P s [] reverse_aux ix (λ stack. refl))
    emit_entries-Emits (entry k e es) w c s s' h ix =
        entry-Emits k e es (emit_expr-Emits e w.0 c.0) (emit_entries-Emits es w.1 c.1) s s' h ix
