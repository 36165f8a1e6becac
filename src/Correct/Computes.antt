-- ===== src/Correct/Computes.antt =====
-- What it is for code to compute something on the machine, and how it is put together.
use Prim.Native.Nat.{max}
use mathlib.Core.Path.{subst}
use risk_engine.Prelude.{
  ℕ, suc, ◌+◌, ◌≤◌, ◌≡◌, false, none, List, [], ◌∷◌, ◌++◌, length, length-append, get_elem?-lt,
  arith,
}
use risk_engine.Outcome.{Outcome, ok, ◌>>=◌}
use risk_engine.Value.{Value}
use risk_engine.Accessor.{EvalContext}
use risk_engine.Runtime.{Floats}
use risk_engine.Bytecode.{Instruction, BytecodeProgram}
use risk_engine.Bytecode.Emit.{BytecodeCompiler}
use risk_engine.Bytecode.Vm.{BytecodeVm, state, exec_instruction}
use risk_engine.Correct.Halting.{After, value, After-bind, After-map, Halts, Halts-push}
use risk_engine.Correct.Layout.{At, At-append}
use risk_engine.Correct.Tables.{HasTables, Extends}

-- Code ends inside the program that it stands in.
pub At-le :
    (all : List Instruction) (base : ℕ) (xs : List Instruction)
    → At all base xs
    → base ≤ length all
    → base + length xs ≤ length all
At-le all base [] at h = omega arith
At-le all base (x ∷ xs) (e, at) h =
    omega (arith, At-le all (suc base) xs at (get_elem?-lt all base x e))

-- What follows a value that is there.
after_value : {A B : Type 0} {K : A → Type 0} {r : Outcome B} {a : A} → After K r (ok a) → K a
after_value (value h) = h

module _ {D : Type 0} ⦃fl : Floats D⦄ where
  -- In every program that holds the code at `base` and the tables, and in every context in `Q`, the
  -- code computes `m`: it pushes its value by `push` and goes on behind its end, or fails with it.
  -- `need` is the room that it takes on the stack.
  pub record Computes {A : Type 0} (need : ℕ) (code : List Instruction) (base : ℕ)
      (c : BytecodeCompiler D) (Q : EvalContext D → Type 0) (m : EvalContext D → Outcome A)
      (push : A → List (Value D) → List (Value D)) : Type 0 where
    pub leads :
        (vm : BytecodeVm) (p : BytecodeProgram D) (ctx : EvalContext D)
        → ((n : ℕ) → vm.cancelled n ≡ false)
        → At p.instructions base code
        → HasTables p c
        → Q ctx
        → (stack : List (Value D)) (n : ℕ) (r : Outcome (Value D))
        → length stack + need ≤ vm.max_stack_depth
        → n + length code ≤ vm.max_steps
        → After
            (λ a.
              (n' : ℕ)
              → n' ≤ n + length code
              → Halts vm p ctx (state (base + length code) (push a stack) n') r)
            r
            (m ctx)
        → Halts vm p ctx (state base stack n) r

  abbrev pub push_one : Value D → List (Value D) → List (Value D)
  push_one v stack = v ∷ stack

  module _ {A : Type 0} {push : A → List (Value D) → List (Value D)} where
    -- The meaning may be put in other words, and the contexts restricted.
    pub Computes-map :
        {need : ℕ} {code : List Instruction} {base : ℕ} {c : BytecodeCompiler D}
        {Q Q' : EvalContext D → Type 0} {m m' : EvalContext D → Outcome A}
        → Computes need code base c Q m push
        → ((ctx : EvalContext D) → Q' ctx → Q ctx × (m' ctx ≡ m ctx))
        → Computes need code base c Q' m' push
    Computes-map computes same = record {
      leads = λ vm p ctx calm at tables q stack n r room steps h.
          computes.leads vm p ctx calm at tables (same ctx q).0 stack n r room steps
            (subst (After _ r) (same ctx q).1 h);
    }

    -- More room does no harm.
    pub Computes-weaken :
        {need need' : ℕ} {code : List Instruction} {base : ℕ} {c : BytecodeCompiler D}
        {Q : EvalContext D → Type 0} {m : EvalContext D → Outcome A}
        → Computes need code base c Q m push
        → need ≤ need'
        → Computes need' code base c Q m push
    Computes-weaken computes le = record {
      leads = λ vm p ctx calm at tables q stack n r room steps h.
          computes.leads vm p ctx calm at tables q stack n r (omega arith) steps h;
    }

    -- An instruction behind the code that takes what was pushed and pushes one value.
    pub Computes-finish :
        {need : ℕ} {code : List Instruction} {base : ℕ} {c c' : BytecodeCompiler D}
        {Q : EvalContext D → Type 0} {m : EvalContext D → Outcome A} (inst : Instruction)
        (f : A → Outcome (Value D))
        → Computes need code base c Q m push
        → Extends c c'
        → ((ctx : EvalContext D) (a : A) (stack : List (Value D))
            → m ctx ≡ ok a
            → length (push a stack) ≤ length stack + need)
        → ((p : BytecodeProgram D) (ctx : EvalContext D) (a : A) (stack : List (Value D))
            → HasTables p c'
            → m ctx ≡ ok a
            → exec_instruction p ctx inst.op inst.arg inst.aux (push a stack)
              ≡ (f a >>= λ v. ok (v ∷ stack, none)))
        → Computes (max 1 need) (code ++ inst ∷ []) base c' Q (λ ctx. m ctx >>= f) push_one
    Computes-finish {need} {code} {base} {m = m} inst f computes extends small exec = record {
      leads = λ vm p ctx calm at tables q stack n r room steps h.
          let size = length-append code (inst ∷ []) in
          let (here, (last, _)) = At-append p.instructions base code (inst ∷ []) at in
          computes.leads vm p ctx calm here (extends p tables) q stack n r (omega arith)
            (omega (arith, size))
            (After-map (m ctx) (After-bind (m ctx) f h) λ a e k n' le.
              Halts-push vm p ctx (base + length code) n' (f a) last
                (record {
                  calm = calm n';
                  steps = omega (arith, size);
                  room = omega (arith, small ctx a stack e);
                })
                (exec p ctx a stack tables e) (omega arith)
                (After-map (f a) k λ v _ go.
                  subst (λ i. Halts vm p ctx (state i (v ∷ stack) (suc n')) r)
                    (place base code inst) (go (suc n') (omega (arith, size)))));
    }
      where
        place :
            (b : ℕ) (xs : List Instruction) (x : Instruction)
            → b + length (xs ++ x ∷ []) ≡ suc (b + length xs)
        place b xs x = omega (arith, length-append xs (x ∷ []))

  -- One instruction that pushes a value.
  pub Computes-leaf :
      {base : ℕ} {c : BytecodeCompiler D} {Q : EvalContext D → Type 0}
      {m : EvalContext D → Outcome (Value D)} (inst : Instruction)
      → ((p : BytecodeProgram D) (ctx : EvalContext D) (stack : List (Value D))
          → HasTables p c
          → exec_instruction p ctx inst.op inst.arg inst.aux stack
            ≡ (m ctx >>= λ v. ok (v ∷ stack, none)))
      → Computes 1 (inst ∷ []) base c Q m push_one
  Computes-leaf {base} {m = m} inst exec = record {
    leads = λ vm p ctx calm (here, _) tables q stack n r room steps h.
        Halts-push vm p ctx base n (m ctx) here
          (record { calm = calm n; steps = omega arith; room = omega arith })
          (exec p ctx stack tables) (omega arith)
          (After-map (m ctx) h λ v _ go.
            subst (λ i. Halts vm p ctx (state i (v ∷ stack) (suc n)) r) (place base)
              (go (suc n) (omega arith)));
  }
    where
      place : (b : ℕ) → b + 1 ≡ suc b
      place b = omega arith

  -- No code computes a value that leaves the stack alone.
  pub Computes-nothing :
      {A : Type 0} {base : ℕ} {c : BytecodeCompiler D} {Q : EvalContext D → Type 0} (a : A)
      (push : A → List (Value D) → List (Value D))
      → ((stack : List (Value D)) → push a stack ≡ stack)
      → Computes 0 [] base c Q (λ _. ok a) push
  Computes-nothing {base = base} a push same = record {
    leads = λ vm p ctx calm at tables q stack n r room steps h.
        subst (λ i. Halts vm p ctx (state i stack n) r) (place base)
          (subst (λ s. Halts vm p ctx (state (base + 0) s n) r) (same stack)
            (after_value h n (omega arith)));
  }
    where
      place : (b : ℕ) → b + 0 ≡ b
      place b = omega arith

  -- One computation behind another; `width` is what the first leaves on the stack.
  pub Computes-seq :
      {A B C : Type 0} {need₁ need₂ base : ℕ} {code₁ code₂ : List Instruction}
      {c₁ c₂ : BytecodeCompiler D} {Q₁ Q₂ : EvalContext D → Type 0} {m₁ : EvalContext D → Outcome A}
      {m₂ : EvalContext D → Outcome B} {push₁ : A → List (Value D) → List (Value D)}
      {push₂ : B → List (Value D) → List (Value D)} (width : ℕ) (pair : A → B → C)
      (push : C → List (Value D) → List (Value D))
      → Computes need₁ code₁ base c₁ Q₁ m₁ push₁
      → Computes need₂ code₂ (base + length code₁) c₂ Q₂ m₂ push₂
      → Extends c₁ c₂
      → ((a : A) (stack : List (Value D)) → length (push₁ a stack) ≡ length stack + width)
      → ((a : A) (b : B) (stack : List (Value D)) → push (pair a b) stack ≡ push₂ b (push₁ a stack))
      → Computes
          (max need₁ (width + need₂))
          (code₁ ++ code₂)
          base
          c₂
          (λ ctx. Q₁ ctx × Q₂ ctx)
          (λ ctx. m₁ ctx >>= λ a. m₂ ctx >>= λ b. ok (pair a b))
          push
  Computes-seq {base = base} {code₁ = code₁} {code₂ = code₂} {m₁ = m₁} {m₂ = m₂} {push₁ = push₁}
        {push₂ = push₂} width pair push first second extends wide same =
      record {
        leads = λ vm p ctx calm at tables q stack n r room steps h.
            let size = length-append code₁ code₂ in
            let (at₁, at₂) = At-append p.instructions base code₁ code₂ at in
            first.leads vm p ctx calm at₁ (extends p tables) q.0 stack n r (omega arith)
              (omega (arith, size))
              (After-map (m₁ ctx) (After-bind (m₁ ctx) (λ a. m₂ ctx >>= λ b. ok (pair a b)) h)
                λ a _ k n₁ le₁.
                  second.leads vm p ctx calm at₂ tables q.1 (push₁ a stack) n₁ r
                    (omega (arith, wide a stack)) (omega (arith, size))
                    (After-map (m₂ ctx) (After-bind (m₂ ctx) (λ b. ok (pair a b)) k)
                      λ b _ go n₂ le₂.
                        subst (λ i. Halts vm p ctx (state i (push₂ b (push₁ a stack)) n₂) r)
                          (place base code₁ code₂)
                          (subst
                            (λ s. Halts vm p ctx (state (base + length (code₁ ++ code₂)) s n₂) r)
                            (same a b stack) (after_value go n₂ (omega (arith, size))))));
      }
    where
      place : (b : ℕ) (xs ys : List Instruction) → b + length (xs ++ ys) ≡ b + length xs + length ys
      place b xs ys = omega (arith, length-append xs ys)
