-- ===== src/InsnSet/Float/Correct.antt =====
-- The loop of the simulator against the floating-point instructions of InsnSet.
use riscv_sim.Prelude.{ℕ, ◌<◌, ◌≡◌, ap, ◌∙◌}
use riscv_sim.Outcome.{Outcome, ok}
use riscv_sim.Mnemonic.{InsnMnemonic}
use riscv_sim.Insn.{rd, rm}
use riscv_sim.Decode.Table.{
  InsnEntry, entry, insn_decode_table, ext_i, ext_m, ext_zbb, ext_zicsr, ext_f,
}
use riscv_sim.Decode.Unique.{IsRow, Matches, decode-IsRow}
use riscv_sim.Host.{Host}
use riscv_sim.Memory.{fetch}
use riscv_sim.Machine.State.{Machine}
use riscv_sim.Machine.Registers.{HasRegisters, write_reg, advance}
use riscv_sim.Isa.Float.Shapes.{fsgnj, fsgnjn, fsgnjx}
use riscv_sim.Isa.Float.{
  callback_fadd_s, callback_fsub_s, callback_fmul_s, callback_fdiv_s, callback_fsgnj_s,
  callback_fsgnjn_s, callback_fsgnjx_s,
}
use riscv_sim.Isa.Float.Effects.{asked_mode, execute_rrrf_bin_op_lem}
use riscv_sim.Isa.Float.Fused.{fuses_fmadd, fuses_fmsub, fuses_fnmsub, fuses_fnmadd, fused_lem}
use riscv_sim.Isa.Float.Compare.{compares_fle, compares_flt, compares_feq, compare_lem}
use riscv_sim.Isa.Float.Convert.{
  to_integer_w, to_integer_wu, from_integer_w, from_integer_wu, conversions_lem,
}
use riscv_sim.Isa.Float.Laws.{fclass-class_bit}
use riscv_sim.Isa.Float.Root.{callback_fsqrt_s_lem}
use riscv_sim.Isa.Float.Moves.{execute_sign_op_lem, min_max_lem, moves_lem, memory_lem}
use riscv_sim.Execute.{instr_callback, execute_insn}
use riscv_sim.Execute.Decoded.{execute_insn-IsRow}
use riscv_sim.InsnSet.Rows.{AllRows, no_rows, ◌&◌, AllRows-IsRow, IsRow-after}
use riscv_sim.InsnSet.Float.{
  Floats, floats_flw, floats_fsw, floats_fadd, floats_fsub, floats_fmul, floats_fdiv, floats_fsqrt,
  floats_fmadd, floats_fmsub, floats_fnmsub, floats_fnmadd, floats_fsgnj, floats_fsgnjn,
  floats_fsgnjx, floats_fmin, floats_fmax, floats_fle, floats_flt, floats_feq, floats_fcvt_w,
  floats_fcvt_wu, floats_from_w, floats_from_wu, floats_fmv_x_w, floats_fclass, floats_fmv_w_x,
}

module _ (h : Host) where
  -- A row of the F extension.
  data CoveredFloat : InsnEntry → Type 0 where
    covered_float :
        {m : InsnMnemonic} {mask match : ℕ} {act : ℕ → Machine → Outcome (Unit {0} × Machine)}
        → Floats h m act
        → CoveredFloat (entry m mask match)

  CoveredFloat-Floats :
      {e : InsnEntry}
      → CoveredFloat e
      → (act : ℕ → Machine → Outcome (Unit {0} × Machine)) × Floats h e.mnem act
  CoveredFloat-Floats (covered_float {act = act} f) = (act, f)

  ext_f-CoveredFloat : AllRows CoveredFloat ext_f
  unfolding ext_f
  ext_f-CoveredFloat =
      covered_float floats_flw
      & covered_float floats_fsw
      & covered_float floats_fadd
      & covered_float floats_fsub
      & covered_float floats_fmul
      & covered_float floats_fdiv
      & covered_float floats_fsqrt
      & covered_float floats_fmadd
      & covered_float floats_fmsub
      & covered_float floats_fnmsub
      & covered_float floats_fnmadd
      & covered_float floats_fsgnj
      & covered_float floats_fsgnjn
      & covered_float floats_fsgnjx
      & covered_float floats_fmin
      & covered_float floats_fmax
      & covered_float floats_fle
      & covered_float floats_flt
      & covered_float floats_feq
      & covered_float floats_fcvt_w
      & covered_float floats_fcvt_wu
      & covered_float floats_from_w
      & covered_float floats_from_wu
      & covered_float floats_fmv_x_w
      & covered_float floats_fclass
      & covered_float floats_fmv_w_x
      & no_rows

  pub IsRow-Floats :
      {e : InsnEntry}
      → IsRow e ext_f
      → (act : ℕ → Machine → Outcome (Unit {0} × Machine)) × Floats h e.mnem act
  IsRow-Floats row = CoveredFloat-Floats (AllRows-IsRow ext_f-CoveredFloat row)

  module _ (s : Machine) (r : HasRegisters s) where
    instr_callback-Floats :
        {m : InsnMnemonic} {act : ℕ → Machine → Outcome (Unit {0} × Machine)} (raw : ℕ)
        → s.fcsr < 256
        → asked_mode h s.fcsr (rm raw) < 5
        → Floats h m act
        → instr_callback h m raw s ≡ act raw s
    unfolding instr_callback callback_fadd_s callback_fsub_s callback_fmul_s callback_fdiv_s
        callback_fsgnj_s callback_fsgnjn_s callback_fsgnjx_s
    instr_callback-Floats raw lt ok_mode floats_flw = (memory_lem h s raw r).0
    instr_callback-Floats raw lt ok_mode floats_fsw = (memory_lem h s raw r).1
    instr_callback-Floats raw lt ok_mode floats_fadd =
        execute_rrrf_bin_op_lem h s raw h.f32_add r lt ok_mode
    instr_callback-Floats raw lt ok_mode floats_fsub =
        execute_rrrf_bin_op_lem h s raw h.f32_sub r lt ok_mode
    instr_callback-Floats raw lt ok_mode floats_fmul =
        execute_rrrf_bin_op_lem h s raw h.f32_mul r lt ok_mode
    instr_callback-Floats raw lt ok_mode floats_fdiv =
        execute_rrrf_bin_op_lem h s raw h.f32_div r lt ok_mode
    instr_callback-Floats raw lt ok_mode floats_fsqrt = callback_fsqrt_s_lem h s raw r lt ok_mode
    instr_callback-Floats raw lt ok_mode floats_fmadd = fused_lem h s raw r fuses_fmadd lt ok_mode
    instr_callback-Floats raw lt ok_mode floats_fmsub = fused_lem h s raw r fuses_fmsub lt ok_mode
    instr_callback-Floats raw lt ok_mode floats_fnmsub = fused_lem h s raw r fuses_fnmsub lt ok_mode
    instr_callback-Floats raw lt ok_mode floats_fnmadd = fused_lem h s raw r fuses_fnmadd lt ok_mode
    instr_callback-Floats raw lt ok_mode floats_fsgnj = execute_sign_op_lem h s raw r fsgnj
    instr_callback-Floats raw lt ok_mode floats_fsgnjn = execute_sign_op_lem h s raw r fsgnjn
    instr_callback-Floats raw lt ok_mode floats_fsgnjx = execute_sign_op_lem h s raw r fsgnjx
    instr_callback-Floats raw lt ok_mode floats_fmin = (min_max_lem h s raw r).0
    instr_callback-Floats raw lt ok_mode floats_fmax = (min_max_lem h s raw r).1
    instr_callback-Floats raw lt ok_mode floats_fle = compare_lem h s raw r compares_fle lt
    instr_callback-Floats raw lt ok_mode floats_flt = compare_lem h s raw r compares_flt lt
    instr_callback-Floats raw lt ok_mode floats_feq = compare_lem h s raw r compares_feq lt
    instr_callback-Floats raw lt ok_mode floats_fcvt_w =
        (conversions_lem h s raw r to_integer_w from_integer_w lt ok_mode).0
    instr_callback-Floats raw lt ok_mode floats_fcvt_wu =
        (conversions_lem h s raw r to_integer_wu from_integer_w lt ok_mode).0
    instr_callback-Floats raw lt ok_mode floats_from_w =
        (conversions_lem h s raw r to_integer_w from_integer_w lt ok_mode).1
    instr_callback-Floats raw lt ok_mode floats_from_wu =
        (conversions_lem h s raw r to_integer_w from_integer_wu lt ok_mode).1
    instr_callback-Floats raw lt ok_mode floats_fmv_x_w = (moves_lem h s raw r).0
    instr_callback-Floats raw lt ok_mode floats_fclass =
        (moves_lem h s raw r).2
        ∙ ap (λ v. ok (tt, advance (write_reg s (rd raw) v))) (fclass-class_bit h _)
    instr_callback-Floats raw lt ok_mode floats_fmv_w_x = (moves_lem h s raw r).1

    -- On a machine with its 32 registers and an fcsr below 256, a round that fetches a word which a
    -- row of the F extension matches, where the rounding mode of the word, or the one in frm if it
    -- is 7, is below 5, has the effect that InsnSet gives for the row's mnemonic on the word and
    -- the machine, the failure of a load or store included.
    pub execute_insn-Floats :
        {act : ℕ → Machine → Outcome (Unit {0} × Machine)} (raw : ℕ) (e : InsnEntry)
        → s.fcsr < 256
        → asked_mode h s.fcsr (rm raw) < 5
        → IsRow e ext_f
        → Matches raw e
        → Floats h e.mnem act
        → fetch h.asserts s.memory s.ip ≡ ok raw
        → execute_insn h s ≡ act raw s
    unfolding insn_decode_table
    execute_insn-Floats raw e lt ok_mode row hit f fetched =
        let table : IsRow e insn_decode_table =
          IsRow-after ext_i _
            (IsRow-after ext_m _ (IsRow-after ext_zbb _ (IsRow-after ext_zicsr _ row))) in
        execute_insn-IsRow h s raw e table (decode-IsRow raw e table hit) fetched
        ∙ instr_callback-Floats raw lt ok_mode f
