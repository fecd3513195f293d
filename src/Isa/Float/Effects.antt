-- ===== src/Isa/Float/Effects.antt =====
-- The rounding mode and the exception flags of the arithmetic instructions.
use riscv_sim.Bits.{bit_and_mask, bit_or-lt, bit_or-zero, zero-bit_or}
use riscv_sim.Prelude.{
  ℕ, zero, suc, ◌+◌, ◌*◌, ◌/◌, ◌%◌, ◌^◌, ◌<◌, ◌≡◌, refl, ap, arith, bit_or, ◌==◌, ==_iff,
  Bool-cases, if◌then◌else◌, inl, inr, set,
}
use riscv_sim.Outcome.{ok}
use riscv_sim.Insn.{rd, rs1, rs2, rm}
use riscv_sim.Host.{Host}
use riscv_sim.Machine.State.{Machine, ◌>>=◌}
use riscv_sim.Machine.{step, set_csr, get_csr, get_rm, csr_fflags}
use riscv_sim.Machine.Csr.{csr_value-fflags, csr_value-frm, csr_update-fflags}
use riscv_sim.Machine.Registers.{HasRegisters, f_reg, advance, get_freg_lem, set_freg_lem}
use riscv_sim.Isa.Effects.{rd-lt, rs1-lt, rs2-lt}
use riscv_sim.Isa.Float.Shapes.{
  rounding, soft_float_set_rm, soft_float_clear_fexcp, soft_float_set_fexcp, execute_rrrf_bin_op,
}

-- fcsr with more flags raised: the five low bits are united, the others stay.
unfoldable pub accrued : ℕ → ℕ → ℕ
accrued fcsr raised = fcsr / 32 * 32 + bit_or (fcsr % 32) (raised % 32)

-- No flag changes nothing.
accrued-none : (fcsr raised : ℕ) → raised % 32 ≡ 0 → fcsr ≡ accrued fcsr raised
unfolding accrued
accrued-none fcsr raised e = rw (e, bit_or-zero (fcsr % 32)) (omega arith)

module _ (h : Host) where
  get_csr-fflags : (s : Machine) → get_csr h csr_fflags s ≡ ok (s.fcsr % 32, s)
  unfolding get_csr
  get_csr-fflags s = rw (get_csr, csr_value-fflags s.fcsr) refl

  set_csr-fflags :
      (s : Machine) (v : ℕ)
      → s.fcsr < 256
      → set_csr h csr_fflags v s ≡ ok (tt, record s { fcsr = s.fcsr / 32 * 32 + v % 32 })
  unfolding set_csr
  set_csr-fflags s v lt = rw (set_csr, csr_update-fflags v s.fcsr lt) refl

  -- The flags that SoftFloat raised are united with those of fcsr, on either branch.
  pub soft_float_set_fexcp_lem :
      (s : Machine)
      → s.fcsr < 256
      → soft_float_set_fexcp h s ≡ ok (tt, record s { fcsr = accrued s.fcsr s.exception_flags })
  unfolding soft_float_set_fexcp
  soft_float_set_fexcp_lem s lt =
      let flags = s.exception_flags % 32 in
      let small : bit_or (s.fcsr % 32) flags < 2 ^ 5 =
        bit_or-lt 5 (s.fcsr % 32) flags (omega arith) (omega arith) in
      rw (bit_and_mask 5 s.exception_flags) (elim (Bool-cases (flags == 0)) [
        | inl clear ↦ rw clear (
            ap (λ c. ok (tt {0}, record s { fcsr = c }))
              (accrued-none s.fcsr s.exception_flags ((==_iff flags 0).0 clear)))
        | inr raised ↦
            rw (raised, get_csr-fflags s, ◌>>=◌, set_csr-fflags s (bit_or (s.fcsr % 32) flags) lt)
              (ap (λ c. ok (tt {0}, record s { fcsr = c })) (united small))
      ])
    where
      united :
          bit_or (s.fcsr % 32) (s.exception_flags % 32) < 2 ^ 5
          → s.fcsr / 32 * 32 + bit_or (s.fcsr % 32) (s.exception_flags % 32) % 32
            ≡ accrued s.fcsr s.exception_flags
      united small = unfold accrued in omega arith

  -- SoftFloat's name for a rounding mode that is no DYN.
  abbrev pub mode_value : ℕ → ℕ
  mode_value zero = h.round_near_even
  mode_value (suc zero) = h.round_min_mag
  mode_value (suc (suc zero)) = h.round_min
  mode_value (suc (suc (suc zero))) = h.round_max
  mode_value (suc (suc (suc (suc n)))) = h.round_near_max_mag

  pub soft_float_set_rm_lem :
      (s : Machine) (mode : ℕ)
      → mode < 5
      → soft_float_set_rm h mode s
        ≡ ok (mode_value mode, record s { rounding_mode = mode_value mode })
  unfolding soft_float_set_rm
  soft_float_set_rm_lem s zero lt = refl
  soft_float_set_rm_lem s (suc zero) lt = refl
  soft_float_set_rm_lem s (suc (suc zero)) lt = refl
  soft_float_set_rm_lem s (suc (suc (suc zero))) lt = refl
  soft_float_set_rm_lem s (suc (suc (suc (suc zero)))) lt = refl
  soft_float_set_rm_lem s (suc (suc (suc (suc (suc n))))) lt = absurd (omega arith)

  -- The mode that an instruction asks for: its own, or the one in frm.
  abbrev pub asked_mode : ℕ → ℕ → ℕ
  asked_mode fcsr mode = if mode == 7 then fcsr / 32 % 8 else mode

  pub get_rm_lem : (s : Machine) (mode : ℕ) → get_rm h mode s ≡ ok (asked_mode s.fcsr mode, s)
  unfolding get_rm get_csr
  get_rm_lem s mode = elim (Bool-cases (mode == 7)) [
    | inl dynamic ↦ rw (dynamic, get_csr, csr_value-frm s.fcsr) refl
    | inr static ↦ rw static refl
  ]

  -- What an arithmetic instruction leaves: the rounded value in rd, the mode and the flags that it
  -- set in SoftFloat, the flags united with those of fcsr.
  abbrev pub rounded : Machine → ℕ → ℕ → ℕ × ℕ → Machine
  rounded s mode i (v, raised) = advance (record s {
    fregs = set s.fregs i v;
    rounding_mode = mode_value mode;
    exception_flags = raised;
    fcsr = accrued s.fcsr raised;
  })

  -- The template of FADD, FSUB, FMUL and FDIV, on a machine with its 32 registers and an fcsr below
  -- 256, when the instruction's rounding mode, or the one in frm if it is 7, is below 5: the host's
  -- value for that mode on the two registers goes to rd, the flags that it raised are united with
  -- those of fcsr and with no earlier ones of SoftFloat, frm stays, and the program counter
  -- advances by 4.
  pub execute_rrrf_bin_op_lem :
      (s : Machine) (raw : ℕ) (f : ℕ → ℕ → ℕ → ℕ × ℕ)
      → HasRegisters s
      → s.fcsr < 256
      → asked_mode s.fcsr (rm raw) < 5
      → let mode = asked_mode s.fcsr (rm raw) in
        execute_rrrf_bin_op h raw (λ a b. rounding (λ r. f r a b)) s
        ≡ ok (
          tt,
          rounded s mode (rd raw) (f (mode_value mode) (f_reg s (rs1 raw)) (f_reg s (rs2 raw))),
        )
  unfolding execute_rrrf_bin_op f_reg soft_float_clear_fexcp step advance
  execute_rrrf_bin_op_lem s raw f r lt legal =
      let mode = asked_mode s.fcsr (rm raw) in
      let s1 = record s { exception_flags = 0 } in
      let s2 = record s1 { rounding_mode = mode_value mode } in
      let p = f (mode_value mode) (f_reg s (rs1 raw)) (f_reg s (rs2 raw)) in
      let s3 = record s2 { exception_flags = p.1 } in
      let r3 : HasRegisters s3 = record { x_length = r.x_length; f_length = r.f_length } in
      let s4 = record s3 { fregs = set s.fregs (rd raw) p.0 } in
      let r2 : HasRegisters s2 = record { x_length = r.x_length; f_length = r.f_length } in
      rw
        (
          get_rm_lem s1 (rm raw),
          ◌>>=◌,
          soft_float_set_rm_lem s1 mode legal,
          ◌>>=◌,
          get_freg_lem h s2 r2 (rs1 raw) (rs1-lt raw),
          ◌>>=◌,
          get_freg_lem h s2 r2 (rs2 raw) (rs2-lt raw),
          ◌>>=◌,
          zero-bit_or p.1,
          set_freg_lem h s3 r3 (rd raw) (rd-lt raw) p.0,
          ◌>>=◌,
          soft_float_set_fexcp_lem s4 lt,
          ◌>>=◌,
        )
        refl
