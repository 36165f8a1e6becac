-- ===== src/Correct/Emission.antt =====
-- What an emission adds to the instructions, and how emissions are put together.
pub mod Branch
pub mod Expr
pub mod Whole
use Prim.Native.Nat.{max}
use mathlib.Core.Path.{subst}
use mathlib.Core.List.{append_assoc, append-nil, reverse_aux}
use risk_engine.Prelude.{
  ℕ, zero, suc, ◌+◌, ◌≤◌, ◌<◌, ◌≡◌, refl, sym, ◌∙◌, ap, Bool, true, false, none, List, [], ◌∷◌,
  ◌++◌, Str, length, length-append, arith, ◌==◌, if◌then◌else◌,
}
use risk_engine.Outcome.{Outcome, ok, err, panic, ◌>>=◌}
use risk_engine.Value.{Value, bool, str}
use risk_engine.Accessor.{EvalContext}
use risk_engine.Runtime.{Floats}
use risk_engine.Bytecode.{OpCode, Instruction, instr, BytecodeProgram, Formatter}
use risk_engine.Bytecode.Emit.{
  BytecodeCompiler, Emission, append, append_interned, push_constant, intern_const,
}
use risk_engine.Bytecode.Peephole.{keeps}
use risk_engine.Bytecode.Vm.{exec_instruction, fetch}
use risk_engine.Correct.Layout.{Kept, Kept-append}
use risk_engine.Correct.Tables.{
  KeysSound, HasTables, Extends, Indexed, Interned, intern_const-Interned,
}
use risk_engine.Correct.Computes.{
  Computes, push_one, Computes-map, Computes-weaken, Computes-finish, Computes-leaf,
  Computes-nothing, Computes-seq,
}

module _ {D : Type 0} ⦃fl : Floats D⦄ (fmt : Formatter D) (P : Value D → Type 0) where
  -- From `s` to `s'` code of at least `least` instructions is emitted, which computes `m`.
  pub record Emitted {A : Type 0} (s s' : Emission D) (need least : ℕ) (Q : EvalContext D → Type 0)
      (m : EvalContext D → Outcome A) (push : A → List (Value D) → List (Value D)) : Type 0 where
    pub code : List Instruction
    pub appended : s'.instructions ≡ s.instructions ++ code
    pub indexed : Indexed fmt P s'.compiler
    pub extends : Extends s.compiler s'.compiler
    pub kept : Kept (length s.instructions) code
    pub size : least ≤ length code
    pub computes : Computes need code (length s.instructions) s'.compiler Q m push

  -- An instruction that is no jump.
  abbrev pub IsPlain : Instruction → Type 0
  IsPlain inst = (i : ℕ) → keeps i inst ≡ true

  length-appended :
      {A : Type 0} {s s' : Emission D} {need least : ℕ} {Q : EvalContext D → Type 0}
      {m : EvalContext D → Outcome A} {push : A → List (Value D) → List (Value D)}
      (e : Emitted s s' need least Q m push)
      → length s'.instructions ≡ length s.instructions + length e.code
  length-appended {s = s} e = ap length e.appended ∙ length-append s.instructions e.code

  pub Emitted-map :
      {A : Type 0} {s s' : Emission D} {need least : ℕ} {Q Q' : EvalContext D → Type 0}
      {m m' : EvalContext D → Outcome A} {push : A → List (Value D) → List (Value D)}
      → Emitted s s' need least Q m push
      → ((ctx : EvalContext D) → Q' ctx → Q ctx × (m' ctx ≡ m ctx))
      → Emitted s s' need least Q' m' push
  Emitted-map e same = record {
    code = e.code;
    appended = e.appended;
    indexed = e.indexed;
    extends = e.extends;
    kept = e.kept;
    size = e.size;
    computes = Computes-map e.computes same;
  }

  pub Emitted-weaken :
      {A : Type 0} {s s' : Emission D} {need need' least least' : ℕ} {Q : EvalContext D → Type 0}
      {m : EvalContext D → Outcome A} {push : A → List (Value D) → List (Value D)}
      → Emitted s s' need least Q m push
      → need ≤ need'
      → least' ≤ least
      → Emitted s s' need' least' Q m push
  Emitted-weaken e le le' = record {
    code = e.code;
    appended = e.appended;
    indexed = e.indexed;
    extends = e.extends;
    kept = e.kept;
    size = omega (arith, e.size);
    computes = Computes-weaken e.computes le;
  }

  pub Emitted-nothing :
      {A : Type 0} {Q : EvalContext D → Type 0} (s : Emission D) (a : A)
      (push : A → List (Value D) → List (Value D))
      → Indexed fmt P s.compiler
      → ((stack : List (Value D)) → push a stack ≡ stack)
      → Emitted s s 0 0 Q (λ _. ok a) push
  Emitted-nothing s a push ix same = record {
    code = [];
    appended = sym (append-nil s.instructions);
    indexed = ix;
    extends = λ p h. h;
    kept = tt;
    size = omega arith;
    computes = Computes-nothing a push same;
  }

  -- An instruction with an operand in a table, which pushes one value.
  pub Emitted-leaf :
      {Q : EvalContext D → Type 0} {m : EvalContext D → Outcome (Value D)} (s s' : Emission D)
      (inst : Instruction)
      → s'.instructions ≡ s.instructions ++ inst ∷ []
      → Indexed fmt P s'.compiler
      → Extends s.compiler s'.compiler
      → IsPlain inst
      → ((p : BytecodeProgram D) (ctx : EvalContext D) (stack : List (Value D))
          → HasTables p s'.compiler
          → exec_instruction p ctx inst.op inst.arg inst.aux stack
            ≡ (m ctx >>= λ v. ok (v ∷ stack, none)))
      → Emitted s s' 1 1 Q m push_one
  Emitted-leaf s s' inst e ix ext plain exec = record {
    code = inst ∷ [];
    appended = e;
    indexed = ix;
    extends = ext;
    kept = (plain _, tt);
    size = omega arith;
    computes = Computes-leaf inst exec;
  }

  -- A last instruction, on what has been pushed.
  pub Emitted-finish :
      {A : Type 0} {s s₁ : Emission D} {need least : ℕ} {Q : EvalContext D → Type 0}
      {m : EvalContext D → Outcome A} {push : A → List (Value D) → List (Value D)} (s' : Emission D)
      (inst : Instruction) (f : A → Outcome (Value D))
      → Emitted s s₁ need least Q m push
      → s'.instructions ≡ s₁.instructions ++ inst ∷ []
      → Indexed fmt P s'.compiler
      → Extends s₁.compiler s'.compiler
      → IsPlain inst
      → ((ctx : EvalContext D) (a : A) (stack : List (Value D))
          → m ctx ≡ ok a
          → length (push a stack) ≤ length stack + need)
      → ((p : BytecodeProgram D) (ctx : EvalContext D) (a : A) (stack : List (Value D))
          → HasTables p s'.compiler
          → m ctx ≡ ok a
          → exec_instruction p ctx inst.op inst.arg inst.aux (push a stack)
            ≡ (f a >>= λ v. ok (v ∷ stack, none)))
      → Emitted s s' (max 1 need) 1 Q (λ ctx. m ctx >>= f) push_one
  Emitted-finish {s = s} s' inst f e eq ix ext plain small exec = record {
    code = e.code ++ inst ∷ [];
    appended =
        eq ∙ (ap (λ l. l ++ inst ∷ []) e.appended ∙ append_assoc s.instructions e.code (inst ∷ []));
    indexed = ix;
    extends = λ p h. e.extends p (ext p h);
    kept = Kept-append _ e.code (inst ∷ []) e.kept (plain _, tt);
    size = omega (arith, length-append e.code (inst ∷ []));
    computes = Computes-finish inst f e.computes ext small exec;
  }

  -- One emission behind another.
  pub Emitted-seq :
      {A B C : Type 0} {s s₁ s₂ : Emission D} {need₁ need₂ least₁ least₂ : ℕ}
      {Q₁ Q₂ : EvalContext D → Type 0} {m₁ : EvalContext D → Outcome A}
      {m₂ : EvalContext D → Outcome B} {push₁ : A → List (Value D) → List (Value D)}
      {push₂ : B → List (Value D) → List (Value D)} (width : ℕ) (pair : A → B → C)
      (push : C → List (Value D) → List (Value D))
      → Emitted s s₁ need₁ least₁ Q₁ m₁ push₁
      → Emitted s₁ s₂ need₂ least₂ Q₂ m₂ push₂
      → ((a : A) (stack : List (Value D)) → length (push₁ a stack) ≡ length stack + width)
      → ((a : A) (b : B) (stack : List (Value D)) → push (pair a b) stack ≡ push₂ b (push₁ a stack))
      → Emitted s s₂
          (max need₁ (width + need₂))
          0
          (λ ctx. Q₁ ctx × Q₂ ctx)
          (λ ctx. m₁ ctx >>= λ a. m₂ ctx >>= λ b. ok (pair a b))
          push
  Emitted-seq {s = s} {s₂ = s₂} {need₂ = need₂} {Q₂ = Q₂} {m₂ = m₂} {push₂ = push₂} width pair push
        e₁ e₂ wide same =
      record {
        code = e₁.code ++ e₂.code;
        appended =
            e₂.appended
            ∙ (ap (λ l. l ++ e₂.code) e₁.appended ∙ append_assoc s.instructions e₁.code e₂.code);
        indexed = e₂.indexed;
        extends = λ p h. e₁.extends p (e₂.extends p h);
        kept =
            Kept-append _ e₁.code e₂.code e₁.kept
              (subst (λ i. Kept i e₂.code) (length-appended e₁) e₂.kept);
        size = omega arith;
        computes =
            Computes-seq width pair push e₁.computes
              (subst (λ i. Computes need₂ e₂.code i s₂.compiler Q₂ m₂ push₂) (length-appended e₁)
                e₂.computes)
              e₂.extends wide same;
      }
