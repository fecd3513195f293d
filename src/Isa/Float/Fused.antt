-- ===== src/Isa/Float/Fused.antt =====
-- The fused multiply-add instructions.
use riscv_sim.Bits.{zero-bit_or}
use riscv_sim.Prelude.{ℕ, ◌<◌, ◌≡◌, refl, arith, bit_or, set}
use riscv_sim.Outcome.{ok}
use riscv_sim.Insn.{rd, rs1, rs2, rs3, rm}
use riscv_sim.Insn.Fields.{rs3_lem}
use riscv_sim.Host.{Host}
use riscv_sim.Machine.State.{Machine, M, ◌>>=◌}
use riscv_sim.Machine.{step}
use riscv_sim.Machine.Registers.{HasRegisters, f_reg, advance, get_freg_lem, set_freg_lem}
use riscv_sim.Isa.Effects.{rd-lt, rs1-lt, rs2-lt}
use riscv_sim.Isa.Float.Shapes.{f32_neg, soft_float_clear_fexcp, execute_rrrrf_tern_op}
use riscv_sim.Isa.Float.Effects.{
  soft_float_set_fexcp_lem, mode_value, soft_float_set_rm_lem, asked_mode, get_rm_lem, rounded,
}
use riscv_sim.Isa.Float.{callback_fmadd_s, callback_fmsub_s, callback_fnmsub_s, callback_fnmadd_s}

module _ (h : Host) where
  -- What an instruction computes from a rounding mode and three registers, with the flags.
  pub data Fuses : (ℕ → M (Unit {0})) → (ℕ → ℕ → ℕ → ℕ → ℕ × ℕ) → Type 0 where
    fuses_fmadd : Fuses (callback_fmadd_s h) (λ r a b c. h.f32_mul_add r a b c)
    fuses_fmsub : Fuses (callback_fmsub_s h) (λ r a b c. h.f32_mul_add r a b (f32_neg c))
    fuses_fnmsub : Fuses (callback_fnmsub_s h) (λ r a b c. h.f32_mul_add r (f32_neg a) b c)
    fuses_fnmadd :
        Fuses
          (callback_fnmadd_s h)
          (λ r a b c. (f32_neg (h.f32_mul_add r a b c).0, (h.f32_mul_add r a b c).1))

  module _ (s : Machine) (raw : ℕ) (r : HasRegisters s) where
    execute_rrrrf_tern_op_lem :
        (op : ℕ → ℕ → ℕ → M ℕ) (f : ℕ → ℕ → ℕ → ℕ → ℕ × ℕ)
        → ((t : Machine) (a b c : ℕ)
            → op a b c t
              ≡ ok (
                (f t.rounding_mode a b c).0,
                record t { exception_flags = bit_or t.exception_flags (f t.rounding_mode a b c).1 },
              ))
        → s.fcsr < 256
        → asked_mode h s.fcsr (rm raw) < 5
        → let mode = asked_mode h s.fcsr (rm raw) in
          execute_rrrrf_tern_op h raw op s
          ≡ ok (
            tt,
            rounded h s mode
                (rd raw)
                (f (mode_value h mode) (f_reg s (rs1 raw)) (f_reg s (rs2 raw)) (f_reg s (rs3 raw))),
          )
    unfolding execute_rrrrf_tern_op f_reg soft_float_clear_fexcp step advance
    execute_rrrrf_tern_op_lem op f op_lem lt legal =
        let mode = asked_mode h s.fcsr (rm raw) in
        let s1 = record s { exception_flags = 0 } in
        let s2 = record s1 { rounding_mode = mode_value h mode } in
        let p = f (mode_value h mode) (f_reg s (rs1 raw)) (f_reg s (rs2 raw)) (f_reg s (rs3 raw)) in
        let s3 = record s2 { exception_flags = p.1 } in
        let r3 : HasRegisters s3 = record { x_length = r.x_length; f_length = r.f_length } in
        let s4 = record s3 { fregs = set s.fregs (rd raw) p.0 } in
        let r2 : HasRegisters s2 = record { x_length = r.x_length; f_length = r.f_length } in
        rw
          (
            get_rm_lem h s1 (rm raw),
            ◌>>=◌,
            soft_float_set_rm_lem h s1 mode legal,
            ◌>>=◌,
            get_freg_lem h s2 r2 (rs1 raw) (rs1-lt raw),
            ◌>>=◌,
            get_freg_lem h s2 r2 (rs2 raw) (rs2-lt raw),
            ◌>>=◌,
            get_freg_lem h s2 r2 (rs3 raw) (omega (arith, rs3_lem raw)),
            ◌>>=◌,
            op_lem s2 (f_reg s (rs1 raw)) (f_reg s (rs2 raw)) (f_reg s (rs3 raw)),
            ◌>>=◌,
            zero-bit_or p.1,
            set_freg_lem h s3 r3 (rd raw) (rd-lt raw) p.0,
            ◌>>=◌,
            soft_float_set_fexcp_lem h s4 lt,
            ◌>>=◌,
          )
          refl

    -- On a machine with its 32 registers and an fcsr below 256, when the instruction's rounding
    -- mode, or the one in frm if it is 7, is below 5: FMADD, FMSUB, FNMSUB and FNMADD write to rd
    -- what the host's fused routine gives in that mode for the registers rs1, rs2 and rs3, with rs3
    -- negated before for FMSUB, rs1 negated before for FNMSUB and the result negated afterwards for
    -- FNMADD; the flags that it raised are united with those of fcsr, frm stays, and the program
    -- counter advances by 4.
    pub fused_lem :
        {callback : ℕ → M (Unit {0})} {f : ℕ → ℕ → ℕ → ℕ → ℕ × ℕ}
        → Fuses callback f
        → s.fcsr < 256
        → asked_mode h s.fcsr (rm raw) < 5
        → let mode = asked_mode h s.fcsr (rm raw) in
          callback raw s
          ≡ ok (
            tt,
            rounded h s mode
                (rd raw)
                (f (mode_value h mode) (f_reg s (rs1 raw)) (f_reg s (rs2 raw)) (f_reg s (rs3 raw))),
          )
    unfolding callback_fmadd_s callback_fmsub_s callback_fnmsub_s callback_fnmadd_s
    fused_lem fuses_fmadd lt legal = execute_rrrrf_tern_op_lem _ _ (λ t a b c. refl) lt legal
    fused_lem fuses_fmsub lt legal = execute_rrrrf_tern_op_lem _ _ (λ t a b c. refl) lt legal
    fused_lem fuses_fnmsub lt legal = execute_rrrrf_tern_op_lem _ _ (λ t a b c. refl) lt legal
    fused_lem fuses_fnmadd lt legal = execute_rrrrf_tern_op_lem _ _ (λ t a b c. refl) lt legal
