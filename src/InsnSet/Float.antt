-- ===== src/InsnSet/Float.antt =====
-- The floating-point instructions, apart from the callbacks: what each makes of a machine, by the
-- fields of its word.
pub mod Correct
use riscv_sim.Prelude.{
  ℕ, ◌+◌, ◌*◌, ◌/◌, ◌%◌, ◌^◌, ◌<◌, ◌≡◌, refl, ◌∙◌, ap, sym, ◌++◌, if◌then◌else◌, Bool, true,
}
use riscv_sim.Outcome.{Outcome, ok}
use riscv_sim.Mnemonic.{InsnMnemonic}
use riscv_sim.Insn.{rd, rs1, rs2, rs3, rm, imm_i, imm_s}
use riscv_sim.Decode.Table.{
  InsnEntry, entry, insn_decode_table, ext_i, ext_m, ext_zbb, ext_zicsr, ext_f,
}
use riscv_sim.Decode.Unique.{IsRow, Matches, decode-IsRow}
use riscv_sim.Host.{Host}
use riscv_sim.Memory.{fetch, load_u32, store_u32}
use riscv_sim.Machine.State.{Machine}
use riscv_sim.Machine.Registers.{HasRegisters, x_reg, f_reg, write_reg, advance}
use riscv_sim.Isa.LoadStore.Effects.{after_store}
use riscv_sim.Isa.Float.Shapes.{f32_neg, fsgnj, fsgnjn, fsgnjx}
use riscv_sim.Isa.Float.Laws.{class_bit}
use riscv_sim.Isa.Float.{
  callback_fadd_s, callback_fsub_s, callback_fmul_s, callback_fdiv_s, callback_fsgnj_s,
  callback_fsgnjn_s, callback_fsgnjx_s,
}
use riscv_sim.Isa.Float.Effects.{asked_mode, mode_value, rounded, execute_rrrf_bin_op_lem}
use riscv_sim.Isa.Float.Fused.{
  Fuses, fuses_fmadd, fuses_fmsub, fuses_fnmsub, fuses_fnmadd, fused_lem,
}
use riscv_sim.Isa.Float.Compare.{integer, compares_fle, compares_flt, compares_feq, compare_lem}
use riscv_sim.Isa.Float.Convert.{
  floating, to_integer_w, to_integer_wu, from_integer_w, from_integer_wu, conversions_lem,
}
use riscv_sim.Isa.Float.Root.{callback_fsqrt_s_lem}
use riscv_sim.Isa.Float.Moves.{
  write_freg, after_float_load, raising, execute_sign_op_lem, min_max_lem, moves_lem, memory_lem,
}
use riscv_sim.Execute.{instr_callback, execute_insn}
use riscv_sim.Execute.Decoded.{execute_insn-IsRow}
use riscv_sim.InsnSet.Rows.{AllRows, no_rows, ◌&◌, AllRows-IsRow, IsRow-after}

module _ (h : Host) where
  -- The effect of a routine that rounds in the mode that the word asks for.
  abbrev pub rounding_to : (ℕ → ℕ → Machine → ℕ × ℕ) → ℕ → Machine → Outcome (Unit {0} × Machine)
  rounding_to f raw s =
      let mode = asked_mode h s.fcsr (rm raw) in
      ok (tt, rounded h s mode (rd raw) (f (mode_value h mode) raw s))

  abbrev pub first : ℕ → Machine → ℕ
  first raw s = f_reg s (rs1 raw)

  abbrev pub second : ℕ → Machine → ℕ
  second raw s = f_reg s (rs2 raw)

  abbrev pub third : ℕ → Machine → ℕ
  third raw s = f_reg s (rs3 raw)

  -- The effect of a comparison: 1 or 0 in rd.
  abbrev pub comparing : (ℕ → ℕ → Bool × ℕ) → ℕ → Machine → Outcome (Unit {0} × Machine)
  comparing f raw s =
      let p = f (first raw s) (second raw s) in
      ok (tt, integer s (rd raw) (if p.0 then 1 else 0) p.1)

  -- The effect of a conversion to an integer, in the mode that the word asks for.
  abbrev pub to_integer : (ℕ → ℕ → ℕ × ℕ) → ℕ → Machine → Outcome (Unit {0} × Machine)
  to_integer f raw s =
      let mode = mode_value h (asked_mode h s.fcsr (rm raw)) in
      let p = f (first raw s) mode in
      ok (tt, integer (record s { rounding_mode = mode }) (rd raw) p.0 p.1)

  -- What each instruction makes of a word and a machine.
  pub data Floats : InsnMnemonic → (ℕ → Machine → Outcome (Unit {0} × Machine)) → Type 0 where
    floats_flw : Floats InsnMnemonic.flw (λ raw s.
        after_float_load s
          (rd raw)
          (load_u32 h.asserts s.memory ((x_reg s (rs1 raw) + imm_i raw) % 2 ^ 32)))
    floats_fsw : Floats InsnMnemonic.fsw (λ raw s.
        after_store s
          (store_u32 h.asserts s.memory ((x_reg s (rs1 raw) + imm_s raw) % 2 ^ 32) (second raw s)))
    floats_fadd :
        Floats InsnMnemonic.fadd_s
          (rounding_to (λ mode raw s. h.f32_add mode (first raw s) (second raw s)))
    floats_fsub :
        Floats InsnMnemonic.fsub_s
          (rounding_to (λ mode raw s. h.f32_sub mode (first raw s) (second raw s)))
    floats_fmul :
        Floats InsnMnemonic.fmul_s
          (rounding_to (λ mode raw s. h.f32_mul mode (first raw s) (second raw s)))
    floats_fdiv :
        Floats InsnMnemonic.fdiv_s
          (rounding_to (λ mode raw s. h.f32_div mode (first raw s) (second raw s)))
    floats_fsqrt :
        Floats InsnMnemonic.fsqrt_s (rounding_to (λ mode raw s. h.f32_sqrt mode (first raw s)))
    floats_fmadd :
        Floats InsnMnemonic.fmadd_s (
          rounding_to (λ mode raw s. h.f32_mul_add mode (first raw s) (second raw s) (third raw s)))
    floats_fmsub : Floats InsnMnemonic.fmsub_s (
        rounding_to
          (λ mode raw s. h.f32_mul_add mode (first raw s) (second raw s) (f32_neg (third raw s))))
    floats_fnmsub : Floats InsnMnemonic.fnmsub_s (
        rounding_to
          (λ mode raw s. h.f32_mul_add mode (f32_neg (first raw s)) (second raw s) (third raw s)))
    floats_fnmadd : Floats InsnMnemonic.fnmadd_s (
        rounding_to (λ mode raw s.
          let p = h.f32_mul_add mode (first raw s) (second raw s) (third raw s) in
          (f32_neg p.0, p.1)))
    floats_fsgnj :
        Floats InsnMnemonic.fsgnj_s
          (λ raw s. ok (tt, write_freg s (rd raw) (fsgnj (first raw s) (second raw s))))
    floats_fsgnjn :
        Floats InsnMnemonic.fsgnjn_s
          (λ raw s. ok (tt, write_freg s (rd raw) (fsgnjn (first raw s) (second raw s))))
    floats_fsgnjx :
        Floats InsnMnemonic.fsgnjx_s
          (λ raw s. ok (tt, write_freg s (rd raw) (fsgnjx (first raw s) (second raw s))))
    floats_fmin : Floats InsnMnemonic.fmin_s (λ raw s.
        let p = h.f32_le (first raw s) (second raw s) in
        ok (tt, write_freg (raising s p.1) (rd raw) (if p.0 then first raw s else second raw s)))
    floats_fmax : Floats InsnMnemonic.fmax_s (λ raw s.
        let p = h.f32_le (first raw s) (second raw s) in
        ok (tt, write_freg (raising s p.1) (rd raw) (if p.0 then second raw s else first raw s)))
    floats_fle : Floats InsnMnemonic.fle_s (comparing h.f32_le)
    floats_flt : Floats InsnMnemonic.flt_s (comparing h.f32_lt)
    floats_feq : Floats InsnMnemonic.feq_s (comparing h.f32_eq)
    floats_fcvt_w : Floats InsnMnemonic.fcvt_w_s (to_integer (λ a mode. h.f32_to_i32 a mode true))
    floats_fcvt_wu :
        Floats InsnMnemonic.fcvt_wu_s (to_integer (λ a mode. h.f32_to_ui32 a mode true))
    floats_from_w :
        Floats InsnMnemonic.fcvt_s_w
          (λ raw s. ok (tt, floating s (rd raw) (h.i32_to_f32 s.rounding_mode (x_reg s (rs1 raw)))))
    floats_from_wu :
        Floats InsnMnemonic.fcvt_s_wu (λ raw s.
          ok (tt, floating s (rd raw) (h.ui32_to_f32 s.rounding_mode (x_reg s (rs1 raw)))))
    floats_fmv_x_w :
        Floats InsnMnemonic.fmv_x_w (λ raw s. ok (tt, advance (write_reg s (rd raw) (first raw s))))
    floats_fclass : Floats InsnMnemonic.fclass_s (λ raw s. ok (
      tt,
      advance
          (write_reg s (rd raw) (class_bit (h.f32_is_signaling_nan (first raw s)) (first raw s))),
    ))
    floats_fmv_w_x :
        Floats InsnMnemonic.fmv_w_x (λ raw s. ok (tt, write_freg s (rd raw) (x_reg s (rs1 raw))))
