-- ===== src/Correct/Halting.antt =====
-- The machine on a fixed program and context: when a state leads to a result.
use risk_engine.Prelude.{
  ℕ, zero, suc, ◌+◌, ◌≤◌, ◌<◌, ◌≡◌, refl, false, Option, none, some, List, [], ◌∷◌, ◌∙◌, length,
  get_elem?, arith, le→ltb,
}
use risk_engine.Outcome.{Outcome, ok, err, panic, ◌>>=◌, ValidationError}
use risk_engine.Value.{Value}
use risk_engine.Accessor.{EvalContext}
use risk_engine.Runtime.{Floats}
use risk_engine.Bytecode.{Instruction, BytecodeProgram}
use risk_engine.Bytecode.Vm.{
  BytecodeVm, State, state, stop, continue, round, run, advance, check_execution_limits,
  exec_instruction, finish,
}

-- `K` of the value, or the result is the failure.
pub data After {A B : Type 0} (K : A → Type 0) (r : Outcome B) : Outcome A → Type 0 where
  value : {a : A} → K a → After K r (ok a)
  error : {e : ValidationError} → r ≡ err e → After K r (err e)
  panics : r ≡ panic → After K r panic

pub After-bind :
    {A B C : Type 0} {K : B → Type 0} {r : Outcome C} (m : Outcome A) (f : A → Outcome B)
    → After K r (m >>= f)
    → After (λ a. After K r (f a)) r m
After-bind (ok a) f h = value h
After-bind (err e) f (error h) = error h
After-bind panic f (panics h) = panics h

pub After-map :
    {A B : Type 0} {K K' : A → Type 0} {r : Outcome B} (m : Outcome A)
    → After K r m
    → ((a : A) → m ≡ ok a → K a → K' a)
    → After K' r m
After-map (ok a) (value h) f = value (f a refl h)
After-map (err e) (error h) f = error h
After-map panic (panics h) f = panics h

-- The result itself comes after it.
pub After-self :
    {A : Type 0} {K : A → Type 0} (m : Outcome A) → ((a : A) → m ≡ ok a → K a) → After K m m
After-self (ok a) f = value (f a refl)
After-self (err e) f = error refl
After-self panic f = panics refl

module _ {D : Type 0} ⦃fl : Floats D⦄ (vm : BytecodeVm) (p : BytecodeProgram D)
    (ctx : EvalContext D) where
  -- With the steps that are left the loop returns `r`.
  pub record Halts (s : State D) (r : Outcome (Value D)) : Type 0 where
    pub halts : (fuel : ℕ) → vm.max_steps < fuel + s.executed → run fuel vm p ctx s ≡ some r

  run-continue :
      (fuel : ℕ) (s : State D) {t : State D} {r : Option (Outcome (Value D))}
      → round vm p ctx s ≡ continue t
      → run fuel vm p ctx t ≡ r
      → run (suc fuel) vm p ctx s ≡ r
  unfolding run
  run-continue fuel s e h = rw (e, run) h

  run-stop :
      (fuel : ℕ) (s : State D) {r : Outcome (Value D)}
      → round vm p ctx s ≡ stop r
      → run (suc fuel) vm p ctx s ≡ some r
  unfolding run
  run-stop fuel s e = rw (e, run) refl

  pub Halts-continue :
      {s t : State D} {r : Outcome (Value D)}
      → round vm p ctx s ≡ continue t
      → t.executed ≡ suc s.executed
      → s.executed < vm.max_steps
      → Halts t r
      → Halts s r
  Halts-continue {s} {t} {r} e n below h = record { halts = go }
    where
      go : (fuel : ℕ) → vm.max_steps < fuel + s.executed → run fuel vm p ctx s ≡ some r
      go zero m = absurd (omega arith)
      go (suc fuel) m = run-continue fuel s e (h.halts fuel (omega arith))

  pub Halts-stop :
      {s : State D} {r : Outcome (Value D)}
      → round vm p ctx s ≡ stop r
      → s.executed ≤ vm.max_steps
      → Halts s r
  Halts-stop {s} {r} e below = record { halts = go }
    where
      go : (fuel : ℕ) → vm.max_steps < fuel + s.executed → run fuel vm p ctx s ≡ some r
      go zero m = absurd (omega arith)
      go (suc fuel) m = run-stop fuel s e

  -- The limits are not met.
  pub record Allows (n depth : ℕ) : Type 0 where
    pub calm : vm.cancelled n ≡ false
    pub steps : n < vm.max_steps
    pub room : depth ≤ vm.max_stack_depth

  check-Allows : {n depth : ℕ} → Allows n depth → check_execution_limits vm n depth ≡ ok tt
  unfolding check_execution_limits
  check-Allows a = rw a.calm (ground (arith, a.steps, a.room))

  round-advance :
      (ip n : ℕ) (stack : List (Value D)) {inst : Instruction}
      → get_elem? p.instructions ip ≡ some inst
      → Allows n (length stack)
      → round vm p ctx (state ip stack n)
        ≡ advance vm ip (suc n) (exec_instruction p ctx inst.op inst.arg inst.aux stack)
  unfolding round
  round-advance ip n stack e a = rw (round, e, check-Allows a)

  -- A step that pushes the value of `m` on `rest`.
  pub Halts-push :
      (ip n : ℕ) {stack rest : List (Value D)} {inst : Instruction} (m : Outcome (Value D))
      {r : Outcome (Value D)}
      → get_elem? p.instructions ip ≡ some inst
      → Allows n (length stack)
      → exec_instruction p ctx inst.op inst.arg inst.aux stack ≡ (m >>= λ v. ok (v ∷ rest, none))
      → length rest < vm.max_stack_depth
      → After (λ v. Halts (state (suc ip) (v ∷ rest) (suc n)) r) r m
      → Halts (state ip stack n) r
  unfolding advance
  Halts-push ip n {stack} {rest} (ok v) e a x room (value h) =
      Halts-continue
        (round-advance ip n stack e a ∙ rw (x, le→ltb vm.max_stack_depth (suc (length rest)) room))
        refl a.steps h
  Halts-push ip n {stack} (err y) e a x room (error h) =
      Halts-stop (rw (round-advance ip n stack e a, x, h)) (omega (arith, a.steps))
  Halts-push ip n {stack} panic e a x room (panics h) =
      Halts-stop (rw (round-advance ip n stack e a, x, h)) (omega (arith, a.steps))

  -- A step that pops its argument, or does nothing, and goes on or jumps.
  pub Halts-jump :
      (ip n target : ℕ) {stack rest : List (Value D)} {inst : Instruction} {r : Outcome (Value D)}
      → get_elem? p.instructions ip ≡ some inst
      → Allows n (length stack)
      → exec_instruction p ctx inst.op inst.arg inst.aux stack ≡ ok (rest, some target)
      → Halts (state target rest (suc n)) r
      → Halts (state ip stack n) r
  unfolding advance
  Halts-jump ip n target {stack} e a x h =
      Halts-continue (rw (round-advance ip n stack e a, x)) refl a.steps h

  pub Halts-pass :
      (ip n : ℕ) {stack rest : List (Value D)} {inst : Instruction} {r : Outcome (Value D)}
      → get_elem? p.instructions ip ≡ some inst
      → Allows n (length stack)
      → exec_instruction p ctx inst.op inst.arg inst.aux stack ≡ ok (rest, none)
      → length rest ≤ vm.max_stack_depth
      → Halts (state (suc ip) rest (suc n)) r
      → Halts (state ip stack n) r
  unfolding advance
  Halts-pass ip n {stack} {rest} e a x room h =
      Halts-continue
        (round-advance ip n stack e a ∙ rw (x, le→ltb vm.max_stack_depth (length rest) room)) refl
        a.steps h

  -- Behind the last instruction the one value is the result.
  pub Halts-end :
      (ip n : ℕ) (v : Value D)
      → get_elem? p.instructions ip ≡ none
      → n ≤ vm.max_steps
      → Halts (state ip (v ∷ []) n) (ok v)
  unfolding round finish
  Halts-end ip n v e m = Halts-stop (rw (round, e)) m
