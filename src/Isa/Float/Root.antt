-- ===== src/Isa/Float/Root.antt =====
-- The square root.
use riscv_sim.Bits.{zero-bit_or}
use riscv_sim.Prelude.{ℕ, ◌<◌, ◌≡◌, refl, set}
use riscv_sim.Outcome.{ok}
use riscv_sim.Insn.{rd, rs1, rm}
use riscv_sim.Host.{Host}
use riscv_sim.Machine.State.{Machine, ◌>>=◌}
use riscv_sim.Machine.{step}
use riscv_sim.Machine.Registers.{HasRegisters, f_reg, advance, get_freg_lem, set_freg_lem}
use riscv_sim.Isa.Effects.{rd-lt, rs1-lt}
use riscv_sim.Isa.Float.Shapes.{soft_float_clear_fexcp}
use riscv_sim.Isa.Float.Effects.{
  soft_float_set_fexcp_lem, mode_value, soft_float_set_rm_lem, asked_mode, get_rm_lem, rounded,
}
use riscv_sim.Isa.Float.{callback_fsqrt_s}

module _ (h : Host) (s : Machine) (raw : ℕ) (r : HasRegisters s) where
  pub callback_fsqrt_s_lem :
      s.fcsr < 256
      → asked_mode h s.fcsr (rm raw) < 5
      → let mode = asked_mode h s.fcsr (rm raw) in
        callback_fsqrt_s h raw s
        ≡ ok (tt, rounded h s mode (rd raw) (h.f32_sqrt (mode_value h mode) (f_reg s (rs1 raw))))
  unfolding callback_fsqrt_s f_reg soft_float_clear_fexcp step advance
  callback_fsqrt_s_lem lt legal =
      let mode = asked_mode h s.fcsr (rm raw) in
      let s1 = record s { exception_flags = 0 } in
      let s2 = record s1 { rounding_mode = mode_value h mode } in
      let p = h.f32_sqrt (mode_value h mode) (f_reg s (rs1 raw)) in
      let s3 = record s2 { exception_flags = p.1 } in
      let r2 : HasRegisters s2 = record { x_length = r.x_length; f_length = r.f_length } in
      let r3 : HasRegisters s3 = record { x_length = r.x_length; f_length = r.f_length } in
      rw
        (
          get_rm_lem h s1 (rm raw),
          ◌>>=◌,
          soft_float_set_rm_lem h s1 mode legal,
          ◌>>=◌,
          get_freg_lem h s2 r2 (rs1 raw) (rs1-lt raw),
          ◌>>=◌,
          zero-bit_or p.1,
          set_freg_lem h s3 r3 (rd raw) (rd-lt raw) p.0,
          ◌>>=◌,
          soft_float_set_fexcp_lem h (record s3 { fregs = set s.fregs (rd raw) p.0 }) lt,
          ◌>>=◌,
        )
        refl
