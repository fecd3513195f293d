-- ===== src/Isa/Float/Compare.antt =====
-- Comparisons of floats.
use riscv_sim.Bits.{zero-bit_or}
use riscv_sim.Prelude.{
  ℕ, ◌<◌, ◌≡◌, refl, ap, ◌∙◌, arith, Bool, ◌==◌, if◌then◌else◌, Bool-cases, inl, inr,
}
use riscv_sim.Outcome.{ok}
use riscv_sim.Insn.{rd, rs1, rs2}
use riscv_sim.Host.{Host}
use riscv_sim.Machine.State.{Machine, M, ◌>>=◌}
use riscv_sim.Machine.{step}
use riscv_sim.Machine.Registers.{
  HasRegisters, f_reg, write_reg, advance, set_xreg_lem, get_freg_lem,
}
use riscv_sim.Isa.Effects.{rd-lt, rs1-lt, rs2-lt}
use riscv_sim.Isa.Float.Shapes.{
  call, soft_float_clear_fexcp, soft_float_set_fexcp, execute_rrr_cmp_op,
}
use riscv_sim.Isa.Float.Effects.{accrued, soft_float_set_fexcp_lem}
use riscv_sim.Isa.Float.{callback_fle_s, callback_flt_s, callback_feq_s}

fcsr-write_reg : (s : Machine) (i v : ℕ) → (write_reg s i v).fcsr ≡ s.fcsr
unfolding write_reg
fcsr-write_reg s i v = elim (Bool-cases (i == 0)) [
  | inl x0 ↦ rw x0 refl
  | inr other ↦ rw other refl
]

flags-write_reg : (s : Machine) (i v : ℕ) → (write_reg s i v).exception_flags ≡ s.exception_flags
unfolding write_reg
flags-write_reg s i v = elim (Bool-cases (i == 0)) [
  | inl x0 ↦ rw x0 refl
  | inr other ↦ rw other refl
]

-- An integer result: in rd, with its flags united with those of fcsr.
abbrev pub integer : Machine → ℕ → ℕ → ℕ → Machine
integer s i v raised = advance (record (write_reg (record s { exception_flags = raised }) i v) {
  fcsr = accrued s.fcsr raised;
})

module _ (h : Host) where
  -- The flags that SoftFloat raised, after a write of a register.
  pub set_fexcp-write_reg :
      (s : Machine) (i v : ℕ)
      → s.fcsr < 256
      → soft_float_set_fexcp h (write_reg s i v)
        ≡ ok (tt, record (write_reg s i v) { fcsr = accrued s.fcsr s.exception_flags })
  set_fexcp-write_reg s i v lt =
      soft_float_set_fexcp_lem h (write_reg s i v) (omega (arith, fcsr-write_reg s i v))
      ∙ (ap
            (λ c. ok (
              tt {0},
              record (write_reg s i v) { fcsr = accrued c (write_reg s i v).exception_flags },
            ))
            (fcsr-write_reg s i v)
          ∙ ap (λ f. ok (tt {0}, record (write_reg s i v) { fcsr = accrued s.fcsr f }))
              (flags-write_reg s i v))

  pub data Compares : (ℕ → M (Unit {0})) → (ℕ → ℕ → Bool × ℕ) → Type 0 where
    compares_fle : Compares (callback_fle_s h) h.f32_le
    compares_flt : Compares (callback_flt_s h) h.f32_lt
    compares_feq : Compares (callback_feq_s h) h.f32_eq

  module _ (s : Machine) (raw : ℕ) (r : HasRegisters s) where
    execute_rrr_cmp_op_lem :
        (f : ℕ → ℕ → Bool × ℕ)
        → s.fcsr < 256
        → let p = f (f_reg s (rs1 raw)) (f_reg s (rs2 raw)) in
          execute_rrr_cmp_op h raw (λ a b. call (f a b)) s
          ≡ ok (tt, integer s (rd raw) (if p.0 then 1 else 0) p.1)
    unfolding execute_rrr_cmp_op f_reg soft_float_clear_fexcp step advance
    execute_rrr_cmp_op_lem f lt =
        let s1 = record s { exception_flags = 0 } in
        let r1 : HasRegisters s1 = record { x_length = r.x_length; f_length = r.f_length } in
        let p = f (f_reg s (rs1 raw)) (f_reg s (rs2 raw)) in
        let s2 = record s { exception_flags = p.1 } in
        let r2 : HasRegisters s2 = record { x_length = r.x_length; f_length = r.f_length } in
        rw
          (
            get_freg_lem h s1 r1 (rs1 raw) (rs1-lt raw),
            ◌>>=◌,
            get_freg_lem h s1 r1 (rs2 raw) (rs2-lt raw),
            ◌>>=◌,
            zero-bit_or p.1,
            set_xreg_lem h s2 r2 (rd raw) (rd-lt raw),
            ◌>>=◌,
            set_fexcp-write_reg s2 (rd raw) (if p.0 then 1 else 0) lt,
            ◌>>=◌,
          )
          refl

    -- On a machine with its 32 registers and an fcsr below 256: FLE, FLT and FEQ write to rd
    -- (unless that is x0) 1 where the host's comparison of the float registers rs1 and rs2 holds
    -- and 0 where it does not, unite the flags that it raised with those of fcsr, and advance the
    -- program counter by 4.
    pub compare_lem :
        {callback : ℕ → M (Unit {0})} {f : ℕ → ℕ → Bool × ℕ}
        → Compares callback f
        → s.fcsr < 256
        → let p = f (f_reg s (rs1 raw)) (f_reg s (rs2 raw)) in
          callback raw s ≡ ok (tt, integer s (rd raw) (if p.0 then 1 else 0) p.1)
    unfolding callback_fle_s callback_flt_s callback_feq_s
    compare_lem compares_fle lt = execute_rrr_cmp_op_lem _ lt
    compare_lem compares_flt lt = execute_rrr_cmp_op_lem _ lt
    compare_lem compares_feq lt = execute_rrr_cmp_op_lem _ lt
