-- ===== src/Correct/Termination.antt =====
-- The loop of `evalSafe` comes to an end, and a panic does not leave `Eval`.
use risk_engine.Prelude.{
  ℕ, zero, suc, ◌+◌, ◌≤◌, ◌<◌, ◌≡◌, refl, none, some, [], length, get_elem?, ltb, arith, Bool-cases,
  Option-cases, ◌⊎◌, inl, inr, Str, bytes,
}
use risk_engine.Outcome.{Outcome, ok, err, panic}
use risk_engine.Value.{Value}
use risk_engine.Accessor.{EvalContext}
use risk_engine.Runtime.{Floats}
use risk_engine.Bytecode.{BytecodeProgram}
use risk_engine.Bytecode.Vm.{
  BytecodeVm, State, state, Round, stop, continue, round, run, advance, check_execution_limits,
  exec_instruction, Effect, vm_eval, recovered,
}

recovered-panic : {A : Type 0} (place : Str) (o : Outcome A) → recovered place o ≡ panic → ⊥
unfolding recovered
recovered-panic place (ok a) h = cc
recovered-panic place (err e) h = cc
recovered-panic place panic h = cc

-- A round stops, or goes on with one step more, below the limit.
data Progress {D : Type 0} (vm : BytecodeVm) (s : State D) : Round D → Type 0 where
  stops : {r : Outcome (Value D)} → Progress vm s (stop r)
  goes_on :
      {t : State D}
      → t.executed ≡ suc s.executed
      → s.executed < vm.max_steps
      → Progress vm s (continue t)

module _ {D : Type 0} ⦃fl : Floats D⦄ (vm : BytecodeVm) (p : BytecodeProgram D)
    (ctx : EvalContext D) where
  advance-Progress :
      (s : State D) (o : Outcome (Effect D))
      → s.executed < vm.max_steps
      → Progress vm s (advance vm s.ip (suc s.executed) o)
  unfolding advance
  advance-Progress s (ok (stack, some target)) below = goes_on refl below
  advance-Progress s (ok (stack, none)) below =
      elim (Bool-cases (ltb vm.max_stack_depth (length stack))) [
        | inl e ↦ rw e stops
        | inr e ↦ rw e (goes_on refl below)
      ]
  advance-Progress s (err e) below = stops
  advance-Progress s panic below = stops

  check-cases :
      (n depth : ℕ)
      → ((e : _) × (check_execution_limits vm n depth ≡ err e))
        ⊎ ((check_execution_limits vm n depth ≡ ok tt) × (n < vm.max_steps))
  unfolding check_execution_limits
  check-cases n depth = ground arith

  round-Progress : (s : State D) → Progress vm s (round vm p ctx s)
  unfolding round
  round-Progress s = elim (Option-cases (get_elem? p.instructions s.ip)) [
    | inl e ↦ rw (round, e) stops
    | inr (inst, e) ↦ elim (check-cases s.executed (length s.stack)) [
      | inl (x, h) ↦ rw (round, e, h) stops
      | inr (h, below) ↦
          rw (round, e, h)
            (advance-Progress s (exec_instruction p ctx inst.op inst.arg inst.aux s.stack) below)
    ]
  ]

  abbrev Returns : ℕ → State D → Type 0
  Returns fuel s = (r : Outcome (Value D)) × (run fuel vm p ctx s ≡ some r)

  run-round :
      (fuel : ℕ) (s : State D) (o : Round D)
      → round vm p ctx s ≡ o
      → Progress vm s o
      → ((t : State D) → t.executed ≡ suc s.executed → s.executed < vm.max_steps → Returns fuel t)
      → Returns (suc fuel) s
  unfolding run
  run-round fuel s (stop r) e stops later = (r, rw (run, e) refl)
  run-round fuel s (continue t) e (goes_on more below) later =
      let (r, ran) = later t more below in (r, rw (run, e) ran)

  run-Returns :
      (fuel : ℕ) (s : State D)
      → vm.max_steps < fuel + s.executed
      → s.executed ≤ vm.max_steps
      → Returns fuel s
  run-Returns zero s h k = absurd (omega arith)
  run-Returns (suc fuel) s h k =
      run-round fuel s (round vm p ctx s) refl (round-Progress s)
        λ t more below. run-Returns fuel t (omega arith) (omega arith)

  -- The machine returns on every program, however it jumps, within one round more than the steps that
  -- are allowed, and what it returns is a value or an error, never a panic.
  pub vm_eval-returns : (r : Outcome (Value D)) × (vm_eval vm p ctx ≡ some r) × (r ≡ panic → ⊥)
  unfolding vm_eval
  vm_eval-returns =
      let (r, ran) = run-Returns (suc vm.max_steps) (state 0 [] 0) (omega arith) (omega arith) in
      (recovered (bytes "bytecode_eval") r, rw (vm_eval, ran) refl, recovered-panic _ r)
