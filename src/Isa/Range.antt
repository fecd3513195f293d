-- ===== src/Isa/Range.antt =====
-- The widths of the values of a state, over the templates of the callbacks and the glue of SoftFloat.
pub mod Values
pub mod BitValues
pub mod System
use riscv_sim.Bits.{bit_and-lt}
use riscv_sim.Prelude.{
  ℕ, ◌+◌, ◌*◌, ◌^◌, ◌<◌, ◌≡◌, refl, subst, arith, inl, inr, Bool, ◌==◌, if◌then◌else◌, Bool-cases,
  bit_and, bit_or,
}
use riscv_sim.Outcome.{Outcome, ok, fault, assert_failed, Outcome-cases}
use riscv_sim.Host.{Host}
use riscv_sim.Machine.State.{Machine, M, ◌>>=◌}
use riscv_sim.Machine.{get_csr, set_csr, csr_fflags}
use riscv_sim.Machine.Range.{
  IsWord, word, mod-IsWord, if-IsWord, bit_or-IsWord, Bounded, InRange, Keeps, Any, Keeps-same,
  Keeps-to, >>=-Keeps_word, >>=-Keeps-Any, if-Keeps, pure-Keeps, fail-Keeps,
}
use riscv_sim.Machine.Range.Operations.{
  InRange-control, step-Keeps, set_ip-Keeps, get_ip-Keeps, set_should_stop-Keeps, set_xreg-Keeps,
  get_xreg-Keeps, set_freg-Keeps, get_freg-Keeps, set_csr-Keeps, get_csr-Keeps, get_rm-Keeps,
}
use riscv_sim.Machine.Range.Transfers.{
  load_u32-Keeps, load_u16-Keeps, load_u8-Keeps, copy_guest_to_host-Keeps, writing-Keeps,
  store_sized-KeepsBytes, copy_host_to_guest-KeepsBytes,
}
use riscv_sim.Isa.Shapes.{
  lift, execute_rrr_bin_op, execute_rri_bin_op, execute_rri_shift, execute_branch,
}
use riscv_sim.Isa.Zbb.{execute_rr_op}
use riscv_sim.Isa.Float.{execute_sign_op}
use riscv_sim.Isa.Float.Shapes.{
  call, rounding, set_rounding_mode, soft_float_set_rm, soft_float_clear_fexcp,
  soft_float_set_fexcp, execute_rrrf_bin_op, execute_rrrrf_tern_op, execute_rrr_cmp_op,
}
use riscv_sim.Insn.{shamt}
use riscv_sim.Insn.Fields.{shamt_lem}
use Values.{imm_i-IsWord, zero-IsWord, one-IsWord}

pub lift-Keeps : (o : Outcome ℕ) → Bounded o → Keeps IsWord (lift o)
lift-Keeps o p = Keeps-same (λ s a s' r e. elim (Outcome-cases o) [
  | inl (v, good) ↦ (p.bounded (ground arith), ground arith)
  | inr (err, bad) ↦ ground arith
])

pub ruleset range_rules = (
  >>=-Keeps_word, >>=-Keeps-Any, if-Keeps, pure-Keeps, fail-Keeps, lift-Keeps, load_u32-Keeps,
  load_u16-Keeps, load_u8-Keeps, copy_guest_to_host-Keeps, writing-Keeps, store_sized-KeepsBytes,
  copy_host_to_guest-KeepsBytes, step-Keeps, set_ip-Keeps, get_ip-Keeps, set_should_stop-Keeps,
  set_xreg-Keeps, get_xreg-Keeps, set_freg-Keeps, get_freg-Keeps, set_csr-Keeps, get_csr-Keeps,
  get_rm-Keeps,
)

-- A call of a SoftFloat routine: its value goes by what is known of the routine.
pub call-Keeps : {A : Type 0} {P : A → Type 0} (r : A × ℕ) → P r.0 → Keeps P (call r)
call-Keeps {P} (v, raised) p = record {
  keeps = λ s r e. (
    subst P (ground arith) p,
    subst InRange (ground arith) (
        InRange-control s (record s { exception_flags = bit_or s.exception_flags raised }) r.ip_word
          refl refl refl refl r),
  );
}

pub call_word-Keeps : (r : ℕ × ℕ) → IsWord r.0 → Keeps IsWord (call r)
call_word-Keeps r p = call-Keeps r p

pub call_flag-Keeps : (r : Bool × ℕ) → Keeps Any (call r)
call_flag-Keeps r = call-Keeps r tt

pub rounding-Keeps : (f : ℕ → ℕ × ℕ) → ((mode : ℕ) → IsWord (f mode).0) → Keeps IsWord (rounding f)
rounding-Keeps f p = record {
  keeps = λ s r e. (call_word-Keeps (f s.rounding_mode) (p s.rounding_mode)).keeps s r e;
}

set_rounding_mode-Keeps : (r : ℕ) → Keeps Any (set_rounding_mode r)
set_rounding_mode-Keeps m = record {
  keeps = λ s r e. (
    tt,
    subst InRange (ground arith)
        (InRange-control s (record s { rounding_mode = m }) r.ip_word refl refl refl refl r),
  );
}

pub soft_float_clear_fexcp-Keeps : Keeps Any soft_float_clear_fexcp
unfolding soft_float_clear_fexcp
soft_float_clear_fexcp-Keeps =
    Keeps-to (λ s. record s { exception_flags = 0 }) (λ s s' _ e. ground arith)
      (λ s r. InRange-control s _ r.ip_word refl refl refl refl r)

module _ (h : Host) where
  assert_or_zero-Keeps :
      Keeps {A = ℕ} Any (λ s. if h.asserts then fault assert_failed else ok (0, s))
  assert_or_zero-Keeps = Keeps-same (λ s _ s' r e. (tt, ground arith))

  pure_mode-Keeps : (n : ℕ) → Keeps Any (λ s. ok (n, s))
  pure_mode-Keeps n = pure-Keeps n tt

  pub soft_float_set_rm-Keeps : (mode : ℕ) → Keeps Any (soft_float_set_rm h mode)
  unfolding soft_float_set_rm
  soft_float_set_rm-Keeps mode =
      search (if-Keeps, pure_mode-Keeps, set_rounding_mode-Keeps, assert_or_zero-Keeps) depth 9

  pub soft_float_set_fexcp-Keeps : Keeps Any (soft_float_set_fexcp h)
  unfolding soft_float_set_fexcp
  soft_float_set_fexcp-Keeps = record {
    keeps = λ s r e. elim (Bool-cases (bit_and s.exception_flags 0x1f == 0)) [
      | inl clear ↦ (pure-Keeps {P = Any} tt tt).keeps s r (rw clear at e)
      | inr raised ↦ (add_flags-Keeps (bit_and s.exception_flags 0x1f)).keeps s r (rw raised at e)
    ];
  }
    where
      add_flags-Keeps :
          (excp_flags : ℕ)
          → Keeps Any (
              get_csr h csr_fflags >>= λ sim_flags.
              set_csr h csr_fflags (bit_or sim_flags excp_flags))
      add_flags-Keeps excp_flags = search range_rules

  pub execute_rrr_bin_op-Keeps :
      (raw : ℕ) (bin_op : ℕ → ℕ → Outcome ℕ)
      → ((a b : ℕ) → IsWord a → IsWord b → Bounded (bin_op a b))
      → Keeps Any (execute_rrr_bin_op h raw bin_op)
  unfolding execute_rrr_bin_op
  execute_rrr_bin_op-Keeps raw bin_op p = search (range_rules, p) depth 9

  pub execute_rri_bin_op-Keeps :
      (raw : ℕ) (bin_op : ℕ → ℕ → Outcome ℕ)
      → ((a b : ℕ) → IsWord a → IsWord b → Bounded (bin_op a b))
      → Keeps Any (execute_rri_bin_op h raw bin_op)
  unfolding execute_rri_bin_op
  execute_rri_bin_op-Keeps raw bin_op p = search (range_rules, imm_i-IsWord, p) depth 9

  pub execute_rri_shift-Keeps :
      (raw : ℕ) (bin_op : ℕ → ℕ → Outcome ℕ)
      → ((a b : ℕ) → IsWord a → IsWord b → Bounded (bin_op a b))
      → Keeps Any (execute_rri_shift h raw bin_op)
  unfolding execute_rri_shift
  execute_rri_shift-Keeps raw bin_op p =
      let amount : IsWord (shamt raw) = word _ (omega (arith, shamt_lem raw)) in
      search (range_rules, amount, p) depth 9

  pub execute_branch-Keeps : (raw : ℕ) (pred : ℕ → ℕ → Bool) → Keeps Any (execute_branch h raw pred)
  unfolding execute_branch
  execute_branch-Keeps raw pred = search (range_rules, mod-IsWord) depth 9

  pub execute_rr_op-Keeps :
      (raw : ℕ) (op : ℕ → ℕ)
      → ((a : ℕ) → IsWord a → IsWord (op a))
      → Keeps Any (execute_rr_op h raw op)
  unfolding execute_rr_op
  execute_rr_op-Keeps raw op p = search (range_rules, p) depth 9

  pub execute_sign_op-Keeps :
      (raw : ℕ) (op : ℕ → ℕ → ℕ)
      → ((a b : ℕ) → IsWord a → IsWord b → IsWord (op a b))
      → Keeps Any (execute_sign_op h raw op)
  unfolding execute_sign_op
  execute_sign_op-Keeps raw op p = search (range_rules, p) depth 9

  pub execute_rrrf_bin_op-Keeps :
      (raw : ℕ) (fbin_op : ℕ → ℕ → M ℕ)
      → ((a b : ℕ) → IsWord a → IsWord b → Keeps IsWord (fbin_op a b))
      → Keeps Any (execute_rrrf_bin_op h raw fbin_op)
  unfolding execute_rrrf_bin_op
  execute_rrrf_bin_op-Keeps raw fbin_op p =
      search
        (
          range_rules, p, soft_float_clear_fexcp-Keeps, soft_float_set_rm-Keeps,
          soft_float_set_fexcp-Keeps,
        )
        depth 12

  pub execute_rrrrf_tern_op-Keeps :
      (raw : ℕ) (ftern_op : ℕ → ℕ → ℕ → M ℕ)
      → ((a b c : ℕ) → IsWord a → IsWord b → IsWord c → Keeps IsWord (ftern_op a b c))
      → Keeps Any (execute_rrrrf_tern_op h raw ftern_op)
  unfolding execute_rrrrf_tern_op
  execute_rrrrf_tern_op-Keeps raw ftern_op p =
      search
        (
          range_rules, p, soft_float_clear_fexcp-Keeps, soft_float_set_rm-Keeps,
          soft_float_set_fexcp-Keeps,
        )
        depth 12

  pub execute_rrr_cmp_op-Keeps :
      (raw : ℕ) (fcmp_op : ℕ → ℕ → M Bool)
      → ((a b : ℕ) → Keeps Any (fcmp_op a b))
      → Keeps Any (execute_rrr_cmp_op h raw fcmp_op)
  unfolding execute_rrr_cmp_op
  execute_rrr_cmp_op-Keeps raw fcmp_op p =
      search
        (
          range_rules, p, if-IsWord, zero-IsWord, one-IsWord, soft_float_clear_fexcp-Keeps,
          soft_float_set_fexcp-Keeps,
        )
        depth 12
