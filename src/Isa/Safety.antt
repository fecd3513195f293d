-- ===== src/Isa/Safety.antt =====
-- No instruction does more to a state than let it evolve: the templates of the callbacks, and
-- SoftFloat's and the system calls' glue.
pub mod System
use riscv_sim.Prelude.{
  Bool-cases, ℕ, zero, Bool, true, false, ◌==◌, if◌then◌else◌, inl, inr, arith, List, [], ◌∷◌, ◌++◌,
  Option, none, some, refl, subst, ℤ, length, bit_and, bit_or,
}
use riscv_sim.Outcome.{Outcome, ok, fault, assert_failed, Outcome-cases}
use riscv_sim.Host.{Host, sys_read, sys_write}
use riscv_sim.Machine.State.{Machine, M, ◌>>=◌, writing}
use riscv_sim.Machine.{get_csr, set_csr, csr_fflags}
use riscv_sim.Machine.Evolution.{Evolves, Safe, >>=-Safe, Safe-same, pure-Safe, fail-Safe}
use riscv_sim.Machine.Safety.{
  Safe-to, Evolves-control, step-Safe, set_ip-Safe, get_ip-Safe, set_should_stop-Safe, reading-Safe,
  writing-Safe, copy_host_to_guest-KeepsLayout,
}
use riscv_sim.Machine.Accessors.{
  if-Safe, set_xreg-Safe, get_xreg-Safe, set_freg-Safe, get_freg-Safe, set_csr-Safe, get_csr-Safe,
  get_rm-Safe,
}
use riscv_sim.Isa.Shapes.{
  lift, execute_rrr_bin_op, execute_rri_bin_op, execute_rri_shift, execute_branch,
}
use riscv_sim.Isa.Zbb.{execute_rr_op}
use riscv_sim.Isa.Float.{execute_sign_op}
use riscv_sim.Isa.Float.Shapes.{
  call, rounding, set_rounding_mode, soft_float_set_rm, soft_float_clear_fexcp,
  soft_float_set_fexcp, execute_rrrf_bin_op, execute_rrrrf_tern_op, execute_rrr_cmp_op,
}
use riscv_sim.Isa.Syscall.{host_read, host_write, syscall_read, syscall_write, syscall_handler}

pub lift-Safe : {A : Type 0} (o : Outcome A) → Safe (lift o)
lift-Safe o = Safe-same (λ s _ s' e. elim (Outcome-cases o) [
  | inl (a, good) ↦ ground arith
  | inr (err, bad) ↦ ground arith
])

pub ruleset safe_rules = (
  >>=-Safe, if-Safe, pure-Safe, fail-Safe, lift-Safe, reading-Safe, writing-Safe, step-Safe,
  set_ip-Safe, get_ip-Safe, set_should_stop-Safe, set_xreg-Safe, get_xreg-Safe, set_freg-Safe,
  get_freg-Safe, get_csr-Safe, set_csr-Safe, get_rm-Safe,
)

pub call-Safe : {A : Type 0} (r : A × ℕ) → Safe (call r)
call-Safe (v, raised) =
    Safe-to (λ s. record s { exception_flags = bit_or s.exception_flags raised })
      (λ s _ s' e. ground arith) (λ s. Evolves-control s _ _ _ _)

pub rounding-Safe : {A : Type 0} (f : ℕ → A × ℕ) → Safe (rounding f)
rounding-Safe f = record { evolves = λ s e. (call-Safe (f s.rounding_mode)).evolves s e }

pub set_rounding_mode-Safe : (r : ℕ) → Safe (set_rounding_mode r)
set_rounding_mode-Safe r =
    Safe-to (λ s. record s { rounding_mode = r }) (λ s _ s' e. ground arith)
      (λ s. Evolves-control s _ _ _ _)

pub soft_float_clear_fexcp-Safe : Safe soft_float_clear_fexcp
unfolding soft_float_clear_fexcp
soft_float_clear_fexcp-Safe =
    Safe-to (λ s. record s { exception_flags = 0 }) (λ s _ s' e. ground arith)
      (λ s. Evolves-control s _ _ _ _)

module _ (h : Host) where
  assert_or_zero-Safe : Safe (λ s. if h.asserts then fault assert_failed else ok (zero, s))
  assert_or_zero-Safe = Safe-same (λ s _ s' e. ground arith)

  pub soft_float_set_rm-Safe : (mode : ℕ) → Safe (soft_float_set_rm h mode)
  unfolding soft_float_set_rm
  soft_float_set_rm-Safe mode =
      search (safe_rules, set_rounding_mode-Safe, assert_or_zero-Safe) depth 9

  pub soft_float_set_fexcp-Safe : Safe (soft_float_set_fexcp h)
  unfolding soft_float_set_fexcp
  soft_float_set_fexcp-Safe = record {
    evolves = λ s e. elim (Bool-cases (bit_and s.exception_flags 0x1f == 0)) [
      | inl clear ↦ (pure-Safe tt).evolves s (rw clear at e)
      | inr raised ↦ (add_flags-Safe (bit_and s.exception_flags 0x1f)).evolves s (rw raised at e)
    ];
  }
    where
      add_flags-Safe :
          (excp_flags : ℕ)
          → Safe (
              get_csr h csr_fflags >>= λ sim_flags.
              set_csr h csr_fflags (bit_or sim_flags excp_flags))
      add_flags-Safe excp_flags = search safe_rules

  pub execute_rrr_bin_op-Safe :
      (raw : ℕ) (bin_op : ℕ → ℕ → Outcome ℕ) → Safe (execute_rrr_bin_op h raw bin_op)
  unfolding execute_rrr_bin_op
  execute_rrr_bin_op-Safe raw bin_op = search safe_rules depth 8

  pub execute_rri_bin_op-Safe :
      (raw : ℕ) (bin_op : ℕ → ℕ → Outcome ℕ) → Safe (execute_rri_bin_op h raw bin_op)
  unfolding execute_rri_bin_op
  execute_rri_bin_op-Safe raw bin_op = search safe_rules depth 8

  pub execute_rri_shift-Safe :
      (raw : ℕ) (bin_op : ℕ → ℕ → Outcome ℕ) → Safe (execute_rri_shift h raw bin_op)
  unfolding execute_rri_shift
  execute_rri_shift-Safe raw bin_op = search safe_rules depth 8

  pub execute_branch-Safe : (raw : ℕ) (pred : ℕ → ℕ → Bool) → Safe (execute_branch h raw pred)
  unfolding execute_branch
  execute_branch-Safe raw pred = search safe_rules depth 8

  pub execute_rr_op-Safe : (raw : ℕ) (op : ℕ → ℕ) → Safe (execute_rr_op h raw op)
  unfolding execute_rr_op
  execute_rr_op-Safe raw op = search safe_rules depth 8

  pub execute_sign_op-Safe : (raw : ℕ) (op : ℕ → ℕ → ℕ) → Safe (execute_sign_op h raw op)
  unfolding execute_sign_op
  execute_sign_op-Safe raw op = search safe_rules depth 8

  pub execute_rrrf_bin_op-Safe :
      (raw : ℕ) (fbin_op : ℕ → ℕ → M ℕ)
      → ((a b : ℕ) → Safe (fbin_op a b))
      → Safe (execute_rrrf_bin_op h raw fbin_op)
  unfolding execute_rrrf_bin_op
  execute_rrrf_bin_op-Safe raw fbin_op p =
      search
        (safe_rules, soft_float_clear_fexcp-Safe, soft_float_set_rm-Safe, soft_float_set_fexcp-Safe)
        depth 11

  pub execute_rrrrf_tern_op-Safe :
      (raw : ℕ) (ftern_op : ℕ → ℕ → ℕ → M ℕ)
      → ((a b c : ℕ) → Safe (ftern_op a b c))
      → Safe (execute_rrrrf_tern_op h raw ftern_op)
  unfolding execute_rrrrf_tern_op
  execute_rrrrf_tern_op-Safe raw ftern_op p =
      search
        (safe_rules, soft_float_clear_fexcp-Safe, soft_float_set_rm-Safe, soft_float_set_fexcp-Safe)
        depth 11

  pub execute_rrr_cmp_op-Safe :
      (raw : ℕ) (fcmp_op : ℕ → ℕ → M Bool)
      → ((a b : ℕ) → Safe (fcmp_op a b))
      → Safe (execute_rrr_cmp_op h raw fcmp_op)
  unfolding execute_rrr_cmp_op
  execute_rrr_cmp_op-Safe raw fcmp_op p =
      search (safe_rules, soft_float_clear_fexcp-Safe, soft_float_set_fexcp-Safe) depth 11
