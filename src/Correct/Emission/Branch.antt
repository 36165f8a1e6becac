-- ===== src/Correct/Emission/Branch.antt =====
-- The emission of code that branches: the two jumps are patched when their targets are known.
use Prim.Native.Nat.{max}
use mathlib.Core.Path.{subst}
use mathlib.Core.List.{append_assoc}
use risk_engine.Prelude.{
  ℕ, suc, ◌+◌, ◌<◌, ◌≡◌, sym, ◌∙◌, ap, Bool, true, [], ◌∷◌, ◌++◌, length, length-append, arith,
  if◌then◌else◌,
}
use risk_engine.Outcome.{Outcome, ◌>>=◌}
use risk_engine.Value.{Value}
use risk_engine.Accessor.{EvalContext}
use risk_engine.Runtime.{Floats}
use risk_engine.Bytecode.{OpCode, Instruction, instr, Formatter}
use risk_engine.Bytecode.Emit.{Emission, append, patch, set_arg}
use risk_engine.Bytecode.Peephole.{keeps}
use risk_engine.Correct.Layout.{Kept, Kept-append, two_jumps, length-set_arg}
use risk_engine.Correct.Computes.{Computes, push_one}
use risk_engine.Correct.Branch.{branch_code, length-branch_code, Forks, Computes-branch}
use risk_engine.Correct.Emission.{Emitted, IsPlain}

keeps-jump : (i n : ℕ) → 0 < n → keeps i (instr OpCode.jump (suc i + n)) ≡ true
unfolding keeps
keeps-jump i n h = ground arith

module _ {D : Type 0} ⦃fl : Floats D⦄ (fmt : Formatter D) (P : Value D → Type 0) where
  pub Emitted-branch :
      {s s₁ s₂ s₃ : Emission D} {needₓ needᵧ need : ℕ} {Q₁ Q₂ Q₃ : EvalContext D → Type 0}
      {cond first second : EvalContext D → Outcome (Value D)} (fork : OpCode)
      (test : Value D → Bool)
      → Forks fork test
      → ((target : ℕ) → IsPlain fmt P (instr fork target))
      → Emitted fmt P s s₁ needₓ 1 Q₁ cond push_one
      → Emitted fmt P (append (instr fork 0) s₁) s₂ needᵧ 1 Q₂ first push_one
      → Emitted fmt P
          (patch (length s₁.instructions) (append (instr OpCode.jump 0) s₂))
          s₃
          need
          1
          Q₃
          second
          push_one
      → Emitted fmt P s
          (patch (length s₂.instructions) s₃)
          (max 1 (max needₓ (max needᵧ need)))
          1
          (λ ctx. Q₁ ctx × Q₂ ctx × Q₃ ctx)
          (λ ctx. cond ctx >>= λ v. if test v then second ctx else first ctx)
          push_one
  unfolding append patch
  Emitted-branch {s} {s₁} {s₂} {s₃} {needₓ} {needᵧ} {need} {Q₁} {Q₂} {Q₃} {cond} {first} {second}
        fork test forks plain e₁ e₂ e₃ =
      record {
        code = branch_code fork else_base end e₁.code e₂.code e₃.code;
        appended = appended;
        indexed = e₃.indexed;
        extends = λ p h. e₁.extends p (e₂.extends p (e₃.extends p h));
        kept = kept;
        size = omega (arith, length-branch_code fork else_base end e₁.code e₂.code e₃.code);
        computes =
            Computes-branch fork test else_base end forks (place₃ ∙ ap suc place₂) (end_place)
              e₁.computes
              (subst (λ i. Computes needᵧ e₂.code i s₂.compiler Q₂ first push_one) place₁
                e₂.computes)
              (subst (λ i. Computes need e₃.code i s₃.compiler Q₃ second push_one) place₄
                e₃.computes)
              (λ p h. e₂.extends p (e₃.extends p h)) e₃.extends;
      }
    where
      fork₀ : Instruction
      fork₀ = instr fork 0

      leave₀ : Instruction
      leave₀ = instr OpCode.jump 0

      base : ℕ
      base = length s.instructions

      else_base : ℕ
      else_base = length (s₂.instructions ++ leave₀ ∷ [])

      end : ℕ
      end = length s₃.instructions

      place₀ : length s₁.instructions ≡ base + length e₁.code
      place₀ = ap length e₁.appended ∙ length-append s.instructions e₁.code

      place₁ : length (s₁.instructions ++ fork₀ ∷ []) ≡ suc (base + length e₁.code)
      place₁ = omega (arith, place₀, length-append s₁.instructions (fork₀ ∷ []))

      place₂ : length s₂.instructions ≡ suc (base + length e₁.code) + length e₂.code
      place₂ =
          ap length e₂.appended
          ∙ omega (arith, place₁, length-append (s₁.instructions ++ fork₀ ∷ []) e₂.code)

      place₃ : else_base ≡ suc (length s₂.instructions)
      place₃ = omega (arith, length-append s₂.instructions (leave₀ ∷ []))

      place₄ :
          length (set_arg (s₂.instructions ++ leave₀ ∷ []) (length s₁.instructions) else_base)
          ≡ else_base
      place₄ = length-set_arg (s₂.instructions ++ leave₀ ∷ []) (length s₁.instructions) else_base

      end_place : end ≡ else_base + length e₃.code
      end_place =
          ap length e₃.appended ∙ (length-append _ e₃.code ∙ ap (λ k. k + length e₃.code) place₄)

      before : s₂.instructions ≡ s₁.instructions ++ fork₀ ∷ e₂.code
      before = e₂.appended ∙ append_assoc s₁.instructions (fork₀ ∷ []) e₂.code

      appended :
          set_arg s₃.instructions (length s₂.instructions) end
          ≡ s.instructions ++ branch_code fork else_base end e₁.code e₂.code e₃.code
      appended =
          ap (λ l. set_arg l (length s₂.instructions) end) e₃.appended
          ∙ (ap
                (λ l.
                  set_arg (set_arg (l ++ leave₀ ∷ []) (length s₁.instructions) else_base ++ e₃.code)
                    (length l) end)
                before
              ∙ (two_jumps s₁.instructions e₂.code e₃.code fork₀ leave₀ else_base end
                  ∙ (ap
                        (λ l.
                          l ++ instr fork else_base ∷ (e₂.code ++ instr OpCode.jump end ∷ e₃.code))
                        e₁.appended
                      ∙ append_assoc s.instructions e₁.code _)))

      tail_kept : Kept (suc (base + length e₁.code)) (e₂.code ++ instr OpCode.jump end ∷ e₃.code)
      tail_kept =
          Kept-append _ e₂.code (instr OpCode.jump end ∷ e₃.code)
            (subst (λ i. Kept i e₂.code) place₁ e₂.kept)
            (
              subst
                  (λ t.
                    keeps (suc (base + length e₁.code) + length e₂.code) (instr OpCode.jump t)
                    ≡ true)
                  (sym (end_place ∙ ap (λ k. k + length e₃.code) (place₃ ∙ ap suc place₂)))
                  (keeps-jump (suc (base + length e₁.code) + length e₂.code) (length e₃.code)
                    (omega (arith, e₃.size))),
              subst (λ i. Kept i e₃.code) (place₄ ∙ (place₃ ∙ ap suc place₂)) e₃.kept,
            )

      kept : Kept base (branch_code fork else_base end e₁.code e₂.code e₃.code)
      kept = Kept-append base e₁.code _ e₁.kept (plain else_base (base + length e₁.code), tail_kept)
