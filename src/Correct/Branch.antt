-- ===== src/Correct/Branch.antt =====
-- Code that branches: a condition, a jump that may be taken, the two ways, and the jump behind the
-- first way over the second.
use Prim.Native.Nat.{max}
use mathlib.Core.Path.{subst}
use mathlib.Core.List.{append_assoc}
use risk_engine.Prelude.{
  ℕ, suc, ◌+◌, ◌<◌, ◌≤◌, ◌≡◌, refl, Bool, false, none, some, List, [], ◌∷◌, ◌++◌, length,
  length-append, get_elem?, get_elem?-lt, sym, ◌∙◌, le→ltb, arith, Bool-cases, inl, inr,
  if◌then◌else◌,
}
use risk_engine.Outcome.{Outcome, ok, ◌>>=◌}
use risk_engine.Value.{Value}
use risk_engine.Accessor.{EvalContext}
use risk_engine.Runtime.{Floats}
use risk_engine.Bytecode.{OpCode, Instruction, instr, BytecodeProgram}
use risk_engine.Bytecode.Emit.{BytecodeCompiler}
use risk_engine.Bytecode.Vm.{BytecodeVm, state, exec_instruction}
use risk_engine.Correct.Halting.{After, After-bind, After-map, Halts, Halts-jump, Halts-pass}
use risk_engine.Correct.Layout.{At, At-append}
use risk_engine.Correct.Tables.{HasTables, Extends}
use risk_engine.Correct.Computes.{At-le, Computes, push_one}

module _ {D : Type 0} ⦃fl : Floats D⦄ where
  exec-jump :
      (p : BytecodeProgram D) (ctx : EvalContext D) (target : ℕ) (stack : List (Value D))
      → target ≤ length p.instructions
      → exec_instruction p ctx OpCode.jump target 0 stack ≡ ok (stack, some target)
  unfolding exec_instruction
  exec-jump p ctx target stack h = rw (le→ltb _ _ h) refl

  -- The way that was not jumped to: its code, and the jump over the other way.
  Halts-first_way :
      (vm : BytecodeVm) (p : BytecodeProgram D) (ctx : EvalContext D) {code : List Instruction}
      {start need : ℕ} {c : BytecodeCompiler D} {Q : EvalContext D → Type 0}
      {m : EvalContext D → Outcome (Value D)} (end : ℕ)
      → Computes need code start c Q m push_one
      → ((n : ℕ) → vm.cancelled n ≡ false)
      → At p.instructions start (code ++ instr OpCode.jump end ∷ [])
      → end ≤ length p.instructions
      → HasTables p c
      → Q ctx
      → (stack : List (Value D)) (n : ℕ) (r : Outcome (Value D))
      → length stack + need ≤ vm.max_stack_depth
      → length stack < vm.max_stack_depth
      → n + length code + 1 ≤ vm.max_steps
      → After
          (λ v. (n' : ℕ) → n' ≤ n + length code + 1 → Halts vm p ctx (state end (v ∷ stack) n') r)
          r
          (m ctx)
      → Halts vm p ctx (state start stack n) r
  Halts-first_way vm p ctx {code} {start} {m = m} end computes calm at inside tables q stack n r
        room space steps h =
      let (here, (leave, _)) =
        At-append p.instructions start code (instr OpCode.jump end ∷ []) at in
      computes.leads vm p ctx calm here tables q stack n r room (omega arith) (
        After-map (m ctx) h λ v _ go n' le.
          Halts-jump vm p ctx (start + length code) n' end leave
            (record { calm = calm n'; steps = omega arith; room = omega arith })
            (exec-jump p ctx end (v ∷ stack) inside) (go (suc n') (omega arith)))

-- The condition, the fork, the first way with its jump to the end, and the second way.
abbrev pub branch_code :
    OpCode → ℕ → ℕ → List Instruction → List Instruction → List Instruction → List Instruction
branch_code fork else_base end cond_code then_code else_code =
    cond_code ++ instr fork else_base ∷ (then_code ++ instr OpCode.jump end ∷ else_code)

pub length-branch_code :
    (fork : OpCode) (else_base end : ℕ) (xs ys zs : List Instruction)
    → length (branch_code fork else_base end xs ys zs)
      ≡ length xs + suc (length ys + suc (length zs))
length-branch_code fork else_base end xs ys zs = omega (
  arith,
  length-append xs (instr fork else_base ∷ (ys ++ instr OpCode.jump end ∷ zs)),
  length-append ys (instr OpCode.jump end ∷ zs),
)

-- The four pieces of the code at their places.
At-branch_code :
    (all : List Instruction) (base : ℕ) (fork : OpCode) (else_base end : ℕ)
    (xs ys zs : List Instruction)
    → At all base (branch_code fork else_base end xs ys zs)
    → At all base xs
      × (get_elem? all (base + length xs) ≡ some (instr fork else_base))
      × At all (suc (base + length xs)) (ys ++ instr OpCode.jump end ∷ [])
      × At all (suc (suc (base + length xs) + length ys)) zs
At-branch_code all base fork else_base end xs ys zs at =
    let (at₁, (here, rest)) =
      At-append all base xs (instr fork else_base ∷ (ys ++ instr OpCode.jump end ∷ zs)) at in
    let (at₂, at₃) =
      At-append all (suc (base + length xs)) (ys ++ instr OpCode.jump end ∷ []) zs
        (rw (append_assoc ys (instr OpCode.jump end ∷ []) zs) rest) in
    (at₁, here, at₂, rw (place (suc (base + length xs)) ys) at at₃)
  where
    place :
        (b : ℕ) (l : List Instruction)
        → b + length (l ++ instr OpCode.jump end ∷ []) ≡ suc (b + length l)
    place b l = omega (arith, length-append l (instr OpCode.jump end ∷ []))

module _ {D : Type 0} ⦃fl : Floats D⦄ where
  -- The fork jumps on the values that `test` accepts, after taking them off the stack.
  pub record Forks (fork : OpCode) (test : Value D → Bool) : Type 0 where
    pub exec :
        (p : BytecodeProgram D) (ctx : EvalContext D) (target : ℕ) (v : Value D)
        (stack : List (Value D))
        → target ≤ length p.instructions
        → exec_instruction p ctx fork target 0 (v ∷ stack)
          ≡ ok (stack, if test v then some target else none)

  pub Computes-branch :
      {xs ys zs : List Instruction} {base needₓ needᵧ need : ℕ} {c₁ c₂ c₃ : BytecodeCompiler D}
      {Q₁ Q₂ Q₃ : EvalContext D → Type 0} {cond first second : EvalContext D → Outcome (Value D)}
      (fork : OpCode) (test : Value D → Bool) (else_base end : ℕ)
      → Forks fork test
      → else_base ≡ suc (suc (base + length xs) + length ys)
      → end ≡ else_base + length zs
      → Computes needₓ xs base c₁ Q₁ cond push_one
      → Computes needᵧ ys (suc (base + length xs)) c₂ Q₂ first push_one
      → Computes need zs else_base c₃ Q₃ second push_one
      → Extends c₁ c₃
      → Extends c₂ c₃
      → Computes
          (max 1 (max needₓ (max needᵧ need)))
          (branch_code fork else_base end xs ys zs)
          base
          c₃
          (λ ctx. Q₁ ctx × Q₂ ctx × Q₃ ctx)
          (λ ctx. cond ctx >>= λ v. if test v then second ctx else first ctx)
          push_one
  Computes-branch {xs} {ys} {zs} {base} {cond = cond} {first = first} {second = second} fork test
        else_base end forks e₁ e₂ on left right ext₁ ext₂ =
      record {
        leads = λ vm p ctx calm at tables q stack n r room steps h.
            let size = length-branch_code fork else_base end xs ys zs in
            let (at₁, here, at₂, at₃) =
              At-branch_code p.instructions base fork else_base end xs ys zs at in
            let (_, (leave, _)) =
              At-append p.instructions (suc (base + length xs)) ys (instr OpCode.jump end ∷ [])
                at₂ in
            let else_inside : else_base ≤ length p.instructions =
              omega (arith, get_elem?-lt p.instructions _ _ leave) in
            let at₃' = subst (λ i. At p.instructions i zs) (sym e₁) at₃ in
            let inside : end ≤ length p.instructions =
              omega (arith, At-le p.instructions else_base zs at₃' else_inside) in
            let place : base + length (branch_code fork else_base end xs ys zs) ≡ end =
              omega (arith, size) in
            on.leads vm p ctx calm at₁ (ext₁ p tables) q.0 stack n r (omega arith)
              (omega (arith, size))
              (After-map (cond ctx)
                (After-bind (cond ctx) (λ v. if test v then second ctx else first ctx) h)
                λ v _ k n' le. elim (Bool-cases (test v)) [
                  | inl taken ↦
                      Halts-jump vm p ctx (base + length xs) n' else_base here
                        (record { calm = calm n'; steps = omega (arith, size); room = omega arith })
                        (forks.exec p ctx else_base v stack else_inside ∙ rw taken refl)
                        (right.leads vm p ctx calm at₃' tables q.2 stack (suc n') r (omega arith)
                          (omega (arith, size))
                          (After-map (second ctx) (rw taken at k) λ w _ go m le'.
                            subst (λ i. Halts vm p ctx (state i (w ∷ stack) m) r) (place ∙ e₂)
                              (go m (omega (arith, size)))))
                  | inr stays ↦
                      Halts-pass vm p ctx (base + length xs) n' here
                        (record { calm = calm n'; steps = omega (arith, size); room = omega arith })
                        (forks.exec p ctx else_base v stack else_inside ∙ rw stays refl)
                        (omega arith)
                        (Halts-first_way vm p ctx end left calm at₂ inside (ext₂ p tables) q.1 stack
                          (suc n') r (omega arith) (omega arith) (omega (arith, size))
                          (After-map (first ctx) (rw stays at k) λ w _ go m le'.
                            subst (λ i. Halts vm p ctx (state i (w ∷ stack) m) r) place
                              (go m (omega (arith, size)))))
                ]);
      }
