-- ===== src/Execute/Steps.antt =====
-- The loop of RVSim::Execute as a step relation: the loop is its closure, and the fuel only bounds it.
use riscv_sim.Prelude.{
  ℕ, zero, suc, ◌<◌, ◌≡◌, ap, sym, subst, ◌∙◌, arith, true, false, Bool-cases, inl, inr, some,
}
use riscv_sim.Outcome.{Outcome, ok, fault, Fault, Outcome-cases}
use riscv_sim.Host.{Host}
use riscv_sim.Machine.State.{Machine}
use riscv_sim.Execute.{execute_insn, after_insn, loop_round, execute_loop}

-- `n` rounds of the loop lead from one state to the other.
pub data Steps (h : Host) : ℕ → Machine → Machine → Type 0 where
  done : {s : Machine} → Steps h 0 s s
  more :
      {n : ℕ} {s s' s'' : Machine}
      → s.should_stop ≡ false
      → execute_insn h s ≡ ok (tt, s')
      → Steps h n s' s''
      → Steps h (suc n) s s''

-- How a run ends: stopped by a system call, or by a fault of the next instruction.
pub data Ends (h : Host) (s : Machine) : Outcome Machine → Type 0 where
  stopped : s.should_stop ≡ true → Ends h s (ok s)
  failed : {e : Fault} → s.should_stop ≡ false → execute_insn h s ≡ fault e → Ends h s (fault e)

module _ (h : Host) where
  run_ended :
      (fuel : ℕ) (s : Machine) {o : Outcome Machine}
      → Ends h s o
      → execute_loop h (suc fuel) s ≡ some o
  unfolding execute_loop
  run_ended fuel s (stopped e) = ap (loop_round h (execute_loop h fuel) s) e
  run_ended fuel s (failed go e) =
      ap (loop_round h (execute_loop h fuel) s) go ∙ ap (after_insn h (execute_loop h fuel)) e

  -- If n rounds lead from one state to another that ends a run (the stop flag is set, or the next
  -- instruction fails), then the loop started in the first state with more than n rounds of fuel
  -- answers with that end.
  pub execute_loop-Steps :
      {n : ℕ} {s s' : Machine} {o : Outcome Machine} (fuel : ℕ)
      → Steps h n s s'
      → Ends h s' o
      → n < fuel
      → execute_loop h fuel s ≡ some o
  unfolding execute_loop
  execute_loop-Steps zero steps ends lt = absurd (omega arith)
  execute_loop-Steps {s = s} (suc fuel) done ends lt = run_ended fuel s ends
  execute_loop-Steps {s = s} (suc fuel) (more go e steps) ends lt =
      ap (loop_round h (execute_loop h fuel) s) go
      ∙ (ap (after_insn h (execute_loop h fuel)) e
          ∙ execute_loop-Steps fuel steps ends (omega arith))

  -- Whatever the loop answers is the end of a run: some number of rounds below the fuel leads from
  -- the start to a state where the stop flag is set, which is the answer, or whose next instruction
  -- fails with the answer.
  pub Steps-execute_loop :
      (fuel : ℕ) (s : Machine) {o : Outcome Machine}
      → execute_loop h fuel s ≡ some o
      → (n : ℕ) × (s' : Machine) × Steps h n s s' × Ends h s' o × (n < fuel)
  unfolding execute_loop
  Steps-execute_loop zero s e = cc
  Steps-execute_loop (suc fuel) s {o} e = elim (Bool-cases s.should_stop) [
    | inl stop ↦
        let eq : ok s ≡ o = cc (e, ap (loop_round h (execute_loop h fuel) s) stop) in
        (0, s, done, subst (λ o. Ends h s o) eq (stopped stop), omega arith)
    | inr go ↦ elim (Outcome-cases (execute_insn h s)) [
      | inr (f, bad) ↦
          let eq : fault f ≡ o = cc (e, round_eq go bad) in
          (0, s, done, subst (λ o. Ends h s o) eq (failed go bad), omega arith)
      | inl ((_, s₁), good) ↦
          let (n, s', steps, ends, lt) = Steps-execute_loop fuel s₁ (sym (round_eq go good) ∙ e) in
          (suc n, s', more go good steps, ends, omega arith)
    ]
  ]
    where
      round_eq :
          {r : Outcome (Unit {0} × Machine)}
          → s.should_stop ≡ false
          → execute_insn h s ≡ r
          → execute_loop h (suc fuel) s ≡ after_insn h (execute_loop h fuel) r
      round_eq go e =
          ap (loop_round h (execute_loop h fuel) s) go ∙ ap (after_insn h (execute_loop h fuel)) e
