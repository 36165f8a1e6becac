-- ===== src/Correct/Program.antt =====
-- The whole of `BytecodeCompiler.Compile` followed by `BytecodeVM.Eval`.
use mathlib.Core.Path.{subst}
use mathlib.Core.List.{append-nil}
use risk_engine.Prelude.{
  ℕ, suc, ◌+◌, ◌≤◌, ◌≡◌, refl, sym, ◌∙◌, ap, false, none, some, List, [], ◌∷◌, Str, bytes, length,
  get_elem?, arith,
}
use risk_engine.Outcome.{Outcome, ok, err, panic, bind-eq-ok}
use risk_engine.Value.{Value}
use risk_engine.Accessor.{EvalContext}
use risk_engine.Runtime.{Floats}
use risk_engine.Bound.{BoundExpr, eval}
use risk_engine.Bytecode.{BytecodeProgram, Formatter, Instruction}
use risk_engine.Bytecode.Fold.{optimize_bound_expr}
use risk_engine.Bytecode.Emit.{Emission, new_bytecode_compiler, emit_expr, find_key, find_builtin}
use risk_engine.Bytecode.Peephole.{optimize_instructions}
use risk_engine.Bytecode.Compile.{program_of, compile_steps, compile}
use risk_engine.Bytecode.Vm.{BytecodeVm, state, recovered, vm_eval}
use risk_engine.Correct.WellBound.{WellBound, BoolOperands, ConstantsIn}
use risk_engine.Correct.Halting.{After-self, Halts, Halts-end}
use risk_engine.Correct.Layout.{At, At-whole}
use risk_engine.Correct.Tables.{KeysSound, Indexed}
use risk_engine.Correct.Needs.{stack_need}
use risk_engine.Correct.Computes.{push_one}
use risk_engine.Correct.Opcodes.{ok_injective}
use risk_engine.Correct.Dense.{optimize_instructions-Kept}
use risk_engine.Correct.FoldingWhole.{eval-optimize_bound_expr, optimize_bound_expr-BoolOperands}
use risk_engine.Correct.Emission.{Emitted}
use risk_engine.Correct.Emission.Whole.{emit_expr-Emits}

recovered-eq-ok :
    {A : Type 0} (place : Str) (o : Outcome A) {a : A} → recovered place o ≡ ok a → o ≡ ok a
unfolding recovered
recovered-eq-ok place (ok b) h = h
recovered-eq-ok place (err e) h = cc
recovered-eq-ok place panic h = cc

end_of : (xs : List Instruction) → get_elem? xs (length xs) ≡ none
end_of [] = refl
end_of (x ∷ xs) = end_of xs

At-self : (xs : List Instruction) → At xs 0 xs
At-self xs = subst (λ l. At l 0 xs) (append-nil xs) (At-whole [] xs [])

module _ {D : Type 0} ⦃fl : Floats D⦄ (fmt : Formatter D) (P : Value D → Type 0) where
  abbrev start : Emission D
  start = record { compiler = new_bytecode_compiler; instructions = [] }

  pub start-Indexed : Indexed fmt P new_bytecode_compiler
  unfolding find_key find_builtin
  start-Indexed = record {
    constants = λ k i h. cc;
    accessors = λ k i h. cc;
    builtins = λ k i h. cc;
  }

  whole :
      (s : Emission D) (e : BoundExpr D)
      → Emitted fmt P start s (stack_need e) 1 (BoolOperands e) (eval e) push_one
      → optimize_instructions s.instructions ≡ s.instructions
  whole s e d =
      subst (λ l. optimize_instructions l ≡ l) (sym d.appended)
        (optimize_instructions-Kept d.code d.kept)

  -- `whole` is what the code is, and it stands at the start of the program of it.
  program-Halts :
      (vm : BytecodeVm) (ctx : EvalContext D) (e : BoundExpr D) (s : Emission D)
      → Emitted fmt P start s (stack_need e) 1 (BoolOperands e) (eval e) push_one
      → ((n : ℕ) → vm.cancelled n ≡ false)
      → BoolOperands e ctx
      → length s.instructions ≤ vm.max_steps
      → stack_need e ≤ vm.max_stack_depth
      → Halts vm (program_of fmt e s) ctx (state 0 [] 0) (eval e ctx)
  unfolding program_of
  program-Halts vm ctx e s d calm bools steps room =
      d.computes.leads vm (program_of fmt e s) ctx calm
        (subst (λ l. At l 0 d.code) (sym d.appended) (At-self d.code))
        (record { constants = λ i v h. h; accessors = λ i a h. h; builtins = λ i f h. h }) bools []
        0 (eval e ctx) (omega arith) (omega (arith, size))
        (After-self (eval e ctx) λ v same n below. rw same (
          Halts-end vm (program_of fmt e s) ctx (0 + length d.code) n v
            (subst (λ l. get_elem? l (0 + length d.code) ≡ none) (sym d.appended)
              (rw (zero_add (length d.code)) (end_of d.code)))
            (omega (arith, size))))
    where
      zero_add : (n : ℕ) → 0 + n ≡ n
      zero_add n = omega arith

      size : length s.instructions ≡ length d.code
      size = ap length d.appended

  -- The parts of a compilation that succeeds.
  compile_parts :
      (e : BoundExpr D) (p : BytecodeProgram D)
      → compile fmt e ≡ ok p
      → (e' : BoundExpr D) × (s : Emission D) × (optimize_bound_expr e ≡ ok e')
        × (emit_expr fmt e' start ≡ ok s)
        × (record (program_of fmt e' s) { instructions = optimize_instructions s.instructions } ≡ p)
  unfolding compile compile_steps program_of
  compile_parts e p h =
      let (e', h₁, h₂) =
        bind-eq-ok (optimize_bound_expr e) _
          (recovered-eq-ok (bytes "bytecode_compile") (compile_steps fmt e) h) in
      let (s, h₃, h₄) = bind-eq-ok (emit_expr fmt e' start) _ h₂ in (e', s, h₁, h₃, ok_injective h₄)

  vm_eval-Halts :
      (vm : BytecodeVm) (p : BytecodeProgram D) (ctx : EvalContext D) (r : Outcome (Value D))
      → Halts vm p ctx (state 0 [] 0) r
      → vm_eval vm p ctx ≡ some (recovered (bytes "bytecode_eval") r)
  unfolding vm_eval
  vm_eval-Halts vm p ctx r h = rw (vm_eval, h.halts (suc vm.max_steps) (omega arith)) refl

  -- The machine on the program that the compiler makes of a well-bound expression returns, and gives
  -- what the evaluator gives, a recovered panic included. It takes keys that tell the constants of
  -- the folded expression apart, a context in which the right operands of `&&` and `||` have
  -- Boolean values, a run that is not cancelled, and limits that leave a step for each instruction
  -- and the room on the stack that the expression needs.
  pub vm_eval-compile :
      (sound : KeysSound fmt P) (e e' : BoundExpr D) (p : BytecodeProgram D) (vm : BytecodeVm)
      (ctx : EvalContext D)
      → WellBound e
      → optimize_bound_expr e ≡ ok e'
      → ConstantsIn P e'
      → compile fmt e ≡ ok p
      → BoolOperands e ctx
      → ((n : ℕ) → vm.cancelled n ≡ false)
      → length p.instructions ≤ vm.max_steps
      → stack_need e' ≤ vm.max_stack_depth
      → vm_eval vm p ctx ≡ some (recovered (bytes "bytecode_eval") (eval e ctx))
  unfolding program_of
  vm_eval-compile sound e e' p vm ctx bound fold constants made bools calm steps room =
      let (e₁, s, h₁, h₂, h₃) = compile_parts e p made in
      let same : e₁ ≡ e' = ok_injective (sym h₁ ∙ fold) in
      let (means, bound') = eval-optimize_bound_expr e e' fold bound in
      let d =
        emit_expr-Emits fmt P sound e' bound' constants start s (rw same at h₂) start-Indexed in
      let program : program_of fmt e' s ≡ p =
        ap (λ l. record (program_of fmt e' s) { instructions = l }) (sym (whole s e' d))
        ∙ (rw same at h₃) in
      let fits : length s.instructions ≤ vm.max_steps =
        subst (λ q. length q.instructions ≤ vm.max_steps) (sym program) steps in
      rw (← means ctx) (
        vm_eval-Halts vm p ctx (eval e' ctx) (
          subst (λ q. Halts vm q ctx (state 0 [] 0) (eval e' ctx)) program
            (program-Halts vm ctx e' s d calm
              (optimize_bound_expr-BoolOperands e e' fold bound ctx bools) fits room)))
