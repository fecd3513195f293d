-- ===== src/Isa/Float/Convert.antt =====
-- Conversions between floats and integers.
use riscv_sim.Bits.{zero-bit_or}
use riscv_sim.Prelude.{ℕ, ◌<◌, ◌≡◌, refl, ◌∙◌, set, true}
use riscv_sim.Outcome.{ok}
use riscv_sim.Insn.{rd, rs1, rm}
use riscv_sim.Host.{Host}
use riscv_sim.Machine.State.{Machine, M, ◌>>=◌, ◌>>◌}
use riscv_sim.Machine.{step, set_xreg, get_xreg, set_freg, get_freg, get_rm}
use riscv_sim.Machine.Registers.{
  HasRegisters, x_reg, f_reg, advance, get_xreg_lem, set_xreg_lem, get_freg_lem, set_freg_lem,
}
use riscv_sim.Isa.Effects.{rd-lt, rs1-lt}
use riscv_sim.Isa.Float.Shapes.{
  call, rounding, soft_float_set_rm, soft_float_clear_fexcp, soft_float_set_fexcp,
}
use riscv_sim.Isa.Float.Effects.{
  accrued, soft_float_set_fexcp_lem, mode_value, soft_float_set_rm_lem, asked_mode, get_rm_lem,
}
use riscv_sim.Isa.Float.{
  callback_fcvt_w_s, callback_fcvt_wu_s, callback_fcvt_s_w, callback_fcvt_s_wu,
}
use riscv_sim.Isa.Float.Compare.{integer, set_fexcp-write_reg}

-- A float result, the same way.
abbrev pub floating : Machine → ℕ → ℕ × ℕ → Machine
floating s i (v, raised) =
    advance
      (record s { fregs = set s.fregs i v; exception_flags = raised; fcsr = accrued s.fcsr raised })

module _ (h : Host) where
  pub data ToInteger : (ℕ → M (Unit {0})) → (ℕ → ℕ → ℕ × ℕ) → Type 0 where
    to_integer_w : ToInteger (callback_fcvt_w_s h) (λ a r. h.f32_to_i32 a r true)
    to_integer_wu : ToInteger (callback_fcvt_wu_s h) (λ a r. h.f32_to_ui32 a r true)

  pub data FromInteger : (ℕ → M (Unit {0})) → (ℕ → ℕ → ℕ × ℕ) → Type 0 where
    from_integer_w : FromInteger (callback_fcvt_s_w h) h.i32_to_f32
    from_integer_wu : FromInteger (callback_fcvt_s_wu h) h.ui32_to_f32

  module _ (s : Machine) (raw : ℕ) (r : HasRegisters s) where
    -- The body that FCVT.W.S and FCVT.WU.S share, and that of FCVT.S.W and FCVT.S.WU.
    abbrev to_integer : (ℕ → ℕ → ℕ × ℕ) → M (Unit {0})
    to_integer f = do
      soft_float_clear_fexcp
      a ← get_freg h (rs1 raw)
      asked ← get_rm h (rm raw)
      mode ← soft_float_set_rm h asked
      conv ← call (f a mode)
      set_xreg h (rd raw) conv
      soft_float_set_fexcp h
      step

    abbrev from_integer : (ℕ → ℕ → ℕ × ℕ) → M (Unit {0})
    from_integer f = do
      soft_float_clear_fexcp
      a ← get_xreg h (rs1 raw)
      conv ← rounding (λ mode. f mode a)
      set_freg h (rd raw) conv
      soft_float_set_fexcp h
      step

    to_integer_effect :
        (f : ℕ → ℕ → ℕ × ℕ)
        → s.fcsr < 256
        → asked_mode h s.fcsr (rm raw) < 5
        → let mode = mode_value h (asked_mode h s.fcsr (rm raw)) in
          let p = f (f_reg s (rs1 raw)) mode in
          to_integer f s ≡ ok (tt, integer (record s { rounding_mode = mode }) (rd raw) p.0 p.1)
    unfolding f_reg soft_float_clear_fexcp step advance
    to_integer_effect f lt legal =
        let asked = asked_mode h s.fcsr (rm raw) in
        let mode = mode_value h asked in
        let s1 = record s { exception_flags = 0 } in
        let r1 : HasRegisters s1 = record { x_length = r.x_length; f_length = r.f_length } in
        let p = f (f_reg s (rs1 raw)) mode in
        let s2 = record s { rounding_mode = mode; exception_flags = p.1 } in
        let r2 : HasRegisters s2 = record { x_length = r.x_length; f_length = r.f_length } in
        rw
          (
            get_freg_lem h s1 r1 (rs1 raw) (rs1-lt raw),
            ◌>>=◌,
            get_rm_lem h s1 (rm raw),
            ◌>>=◌,
            soft_float_set_rm_lem h s1 asked legal,
            ◌>>=◌,
            zero-bit_or p.1,
            set_xreg_lem h s2 r2 (rd raw) (rd-lt raw),
            ◌>>=◌,
            set_fexcp-write_reg h s2 (rd raw) p.0 lt,
            ◌>>=◌,
          )
          refl

    from_integer_effect :
        (f : ℕ → ℕ → ℕ × ℕ)
        → s.fcsr < 256
        → from_integer f s ≡ ok (tt, floating s (rd raw) (f s.rounding_mode (x_reg s (rs1 raw))))
    unfolding x_reg soft_float_clear_fexcp step advance
    from_integer_effect f lt =
        let s1 = record s { exception_flags = 0 } in
        let r1 : HasRegisters s1 = record { x_length = r.x_length; f_length = r.f_length } in
        let p = f s.rounding_mode (x_reg s (rs1 raw)) in
        let s2 = record s { exception_flags = p.1 } in
        let r2 : HasRegisters s2 = record { x_length = r.x_length; f_length = r.f_length } in
        rw
          (
            get_xreg_lem h s1 r1 (rs1 raw) (rs1-lt raw),
            ◌>>=◌,
            zero-bit_or p.1,
            set_freg_lem h s2 r2 (rd raw) (rd-lt raw),
            ◌>>=◌,
            soft_float_set_fexcp_lem h (record s2 { fregs = set s.fregs (rd raw) p.0 }) lt,
            ◌>>=◌,
          )
          refl

    to_integer_lem :
        {callback : ℕ → M (Unit {0})} {f : ℕ → ℕ → ℕ × ℕ}
        → ToInteger callback f
        → callback raw s ≡ to_integer f s
    unfolding callback_fcvt_w_s callback_fcvt_wu_s
    to_integer_lem to_integer_w = refl
    to_integer_lem to_integer_wu = refl

    from_integer_lem :
        {callback : ℕ → M (Unit {0})} {f : ℕ → ℕ → ℕ × ℕ}
        → FromInteger callback f
        → callback raw s ≡ from_integer f s
    unfolding callback_fcvt_s_w callback_fcvt_s_wu
    from_integer_lem from_integer_w = refl
    from_integer_lem from_integer_wu = refl

    -- On a machine with its 32 registers and an fcsr below 256, when the instruction's rounding
    -- mode, or the one in frm if it is 7, is below 5: FCVT.W.S and FCVT.WU.S write to rd (unless
    -- that is x0) the host's conversion of the float register rs1 in that mode, and FCVT.S.W and
    -- FCVT.S.WU write to rd the host's conversion of the register rs1 in the mode that an earlier
    -- instruction left; each unites the flags that the host raised with those of fcsr and advances
    -- the program counter by 4.
    pub conversions_lem :
        {to from : ℕ → M (Unit {0})} {f g : ℕ → ℕ → ℕ × ℕ}
        → ToInteger to f
        → FromInteger from g
        → s.fcsr < 256
        → asked_mode h s.fcsr (rm raw) < 5
        → let mode = mode_value h (asked_mode h s.fcsr (rm raw)) in
          let p = f (f_reg s (rs1 raw)) mode in
          (to raw s ≡ ok (tt, integer (record s { rounding_mode = mode }) (rd raw) p.0 p.1))
          × (from raw s ≡ ok (tt, floating s (rd raw) (g s.rounding_mode (x_reg s (rs1 raw)))))
    conversions_lem {f = f} {g = g} t u lt legal = (
      to_integer_lem t ∙ to_integer_effect f lt legal,
      from_integer_lem u ∙ from_integer_effect g lt,
    )
