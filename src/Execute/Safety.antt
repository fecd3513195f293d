-- ===== src/Execute/Safety.antt =====
-- Every instruction, and so every run, only lets a state evolve.
use riscv_sim.Prelude.{ℕ}
use riscv_sim.Mnemonic.{InsnMnemonic}
use riscv_sim.Host.{Host}
use riscv_sim.Memory.{store_u8, store_u16, store_u32}
use riscv_sim.Machine.State.{Machine}
use riscv_sim.Machine.Evolution.{Evolves, Evolves-refl, Evolves-trans, Safe}
use riscv_sim.Machine.Safety.{store_sized-KeepsLayout}
use riscv_sim.Isa.Safety.{
  safe_rules, call-Safe, rounding-Safe, soft_float_clear_fexcp-Safe, soft_float_set_rm-Safe,
  soft_float_set_fexcp-Safe, execute_rrr_bin_op-Safe, execute_rri_bin_op-Safe,
  execute_rri_shift-Safe, execute_branch-Safe, execute_rr_op-Safe, execute_sign_op-Safe,
  execute_rrrf_bin_op-Safe, execute_rrrrf_tern_op-Safe, execute_rrr_cmp_op-Safe,
}
use riscv_sim.Isa.Safety.System.{syscall_handler-Safe}
use riscv_sim.Isa.Arith.{
  callback_lui, callback_auipc, callback_addi, callback_slti, callback_sltiu, callback_xori,
  callback_ori, callback_andi, callback_slli, callback_srli, callback_srai, callback_add,
  callback_sub, callback_sll, callback_slt, callback_sltu, callback_xor, callback_srl, callback_sra,
  callback_or, callback_and,
}
use riscv_sim.Isa.Control.{
  callback_jal, callback_jalr, callback_beq, callback_bne, callback_blt, callback_bge,
  callback_bltu, callback_bgeu, callback_fence, callback_fence_i, callback_ecall, callback_ebreak,
}
use riscv_sim.Isa.LoadStore.{
  callback_lb, callback_lh, callback_lw, callback_lbu, callback_lhu, callback_sb, callback_sh,
  callback_sw, callback_flw, callback_fsw,
}
use riscv_sim.Isa.MulDiv.{
  callback_mul, callback_mulh, callback_mulhsu, callback_mulhu, callback_div, callback_divu,
  callback_rem, callback_remu,
}
use riscv_sim.Isa.Zbb.{
  callback_andn, callback_orn, callback_xnor, callback_min, callback_minu, callback_max,
  callback_maxu, callback_sext_b, callback_sext_h, callback_zext_h, callback_clz, callback_ctz,
  callback_cpop, callback_rol, callback_ror, callback_rori, callback_rev8, callback_orc_b,
}
use riscv_sim.Isa.Zicsr.{
  callback_csrrw, callback_csrrs, callback_csrrc, callback_csrrwi, callback_csrrsi, callback_csrrci,
}
use riscv_sim.Isa.Float.{
  callback_fadd_s, callback_fsub_s, callback_fmul_s, callback_fdiv_s, callback_fsqrt_s,
  callback_fmadd_s, callback_fmsub_s, callback_fnmsub_s, callback_fnmadd_s, callback_fsgnj_s,
  callback_fsgnjn_s, callback_fsgnjx_s, callback_fmin_s, callback_fmax_s, callback_fle_s,
  callback_flt_s, callback_feq_s, callback_fcvt_w_s, callback_fcvt_wu_s, callback_fcvt_s_w,
  callback_fcvt_s_wu, callback_fmv_x_w, callback_fclass_s, callback_fmv_w_x,
}
use riscv_sim.Execute.{instr_callback, execute_insn}
use riscv_sim.Execute.Steps.{Steps, done, more}

ruleset callback_rules = (
  safe_rules, call-Safe, rounding-Safe, soft_float_clear_fexcp-Safe, soft_float_set_rm-Safe,
  soft_float_set_fexcp-Safe, execute_rrr_bin_op-Safe, execute_rri_bin_op-Safe,
  execute_rri_shift-Safe, execute_branch-Safe, execute_rr_op-Safe, execute_sign_op-Safe,
  execute_rrrf_bin_op-Safe, execute_rrrrf_tern_op-Safe, execute_rrr_cmp_op-Safe,
  store_sized-KeepsLayout, syscall_handler-Safe,
)

module _ (h : Host) where
  instr_callback-Safe : (m : InsnMnemonic) (raw : ℕ) → Safe (instr_callback h m raw)
  unfolding instr_callback store_u8 store_u16 store_u32 callback_lui callback_auipc callback_addi
      callback_slti callback_sltiu callback_xori callback_ori callback_andi callback_slli
      callback_srli callback_srai callback_add callback_sub callback_sll callback_slt callback_sltu
      callback_xor callback_srl callback_sra callback_or callback_and callback_jal callback_jalr
      callback_beq callback_bne callback_blt callback_bge callback_bltu callback_bgeu callback_fence
      callback_fence_i callback_ecall callback_ebreak callback_lb callback_lh callback_lw
      callback_lbu callback_lhu callback_sb callback_sh callback_sw callback_flw callback_fsw
      callback_mul callback_mulh callback_mulhsu callback_mulhu callback_div callback_divu
      callback_rem callback_remu callback_andn callback_orn callback_xnor callback_min callback_minu
      callback_max callback_maxu callback_sext_b callback_sext_h callback_zext_h callback_clz
      callback_ctz callback_cpop callback_rol callback_ror callback_rori callback_rev8
      callback_orc_b callback_csrrw callback_csrrs callback_csrrc callback_csrrwi callback_csrrsi
      callback_csrrci callback_fadd_s callback_fsub_s callback_fmul_s callback_fdiv_s
      callback_fsqrt_s callback_fmadd_s callback_fmsub_s callback_fnmsub_s callback_fnmadd_s
      callback_fsgnj_s callback_fsgnjn_s callback_fsgnjx_s callback_fmin_s callback_fmax_s
      callback_fle_s callback_flt_s callback_feq_s callback_fcvt_w_s callback_fcvt_wu_s
      callback_fcvt_s_w callback_fcvt_s_wu callback_fmv_x_w callback_fclass_s callback_fmv_w_x
  instr_callback-Safe InsnMnemonic.lui raw = search callback_rules depth 11
  instr_callback-Safe InsnMnemonic.auipc raw = search callback_rules depth 11
  instr_callback-Safe InsnMnemonic.jal raw = search callback_rules depth 11
  instr_callback-Safe InsnMnemonic.jalr raw = search callback_rules depth 11
  instr_callback-Safe InsnMnemonic.beq raw = search callback_rules depth 11
  instr_callback-Safe InsnMnemonic.bne raw = search callback_rules depth 11
  instr_callback-Safe InsnMnemonic.blt raw = search callback_rules depth 11
  instr_callback-Safe InsnMnemonic.bge raw = search callback_rules depth 11
  instr_callback-Safe InsnMnemonic.bltu raw = search callback_rules depth 11
  instr_callback-Safe InsnMnemonic.bgeu raw = search callback_rules depth 11
  instr_callback-Safe InsnMnemonic.lb raw = search callback_rules depth 11
  instr_callback-Safe InsnMnemonic.lh raw = search callback_rules depth 11
  instr_callback-Safe InsnMnemonic.lw raw = search callback_rules depth 11
  instr_callback-Safe InsnMnemonic.lbu raw = search callback_rules depth 11
  instr_callback-Safe InsnMnemonic.lhu raw = search callback_rules depth 11
  instr_callback-Safe InsnMnemonic.sb raw = search callback_rules depth 11
  instr_callback-Safe InsnMnemonic.sh raw = search callback_rules depth 11
  instr_callback-Safe InsnMnemonic.sw raw = search callback_rules depth 11
  instr_callback-Safe InsnMnemonic.addi raw = search callback_rules depth 11
  instr_callback-Safe InsnMnemonic.slti raw = search callback_rules depth 11
  instr_callback-Safe InsnMnemonic.sltiu raw = search callback_rules depth 11
  instr_callback-Safe InsnMnemonic.xori raw = search callback_rules depth 11
  instr_callback-Safe InsnMnemonic.ori raw = search callback_rules depth 11
  instr_callback-Safe InsnMnemonic.andi raw = search callback_rules depth 11
  instr_callback-Safe InsnMnemonic.slli raw = search callback_rules depth 11
  instr_callback-Safe InsnMnemonic.srli raw = search callback_rules depth 11
  instr_callback-Safe InsnMnemonic.srai raw = search callback_rules depth 11
  instr_callback-Safe InsnMnemonic.add raw = search callback_rules depth 11
  instr_callback-Safe InsnMnemonic.sub raw = search callback_rules depth 11
  instr_callback-Safe InsnMnemonic.sll raw = search callback_rules depth 11
  instr_callback-Safe InsnMnemonic.slt raw = search callback_rules depth 11
  instr_callback-Safe InsnMnemonic.sltu raw = search callback_rules depth 11
  instr_callback-Safe InsnMnemonic.xor raw = search callback_rules depth 11
  instr_callback-Safe InsnMnemonic.srl raw = search callback_rules depth 11
  instr_callback-Safe InsnMnemonic.sra raw = search callback_rules depth 11
  instr_callback-Safe InsnMnemonic.or raw = search callback_rules depth 11
  instr_callback-Safe InsnMnemonic.and raw = search callback_rules depth 11
  instr_callback-Safe InsnMnemonic.fence raw = search callback_rules depth 11
  instr_callback-Safe InsnMnemonic.fence_i raw = search callback_rules depth 11
  instr_callback-Safe InsnMnemonic.ecall raw = search callback_rules depth 11
  instr_callback-Safe InsnMnemonic.ebreak raw = search callback_rules depth 11
  instr_callback-Safe InsnMnemonic.mul raw = search callback_rules depth 11
  instr_callback-Safe InsnMnemonic.mulh raw = search callback_rules depth 11
  instr_callback-Safe InsnMnemonic.mulhsu raw = search callback_rules depth 11
  instr_callback-Safe InsnMnemonic.mulhu raw = search callback_rules depth 11
  instr_callback-Safe InsnMnemonic.div raw = search callback_rules depth 11
  instr_callback-Safe InsnMnemonic.divu raw = search callback_rules depth 11
  instr_callback-Safe InsnMnemonic.rem raw = search callback_rules depth 11
  instr_callback-Safe InsnMnemonic.remu raw = search callback_rules depth 11
  instr_callback-Safe InsnMnemonic.andn raw = search callback_rules depth 11
  instr_callback-Safe InsnMnemonic.orn raw = search callback_rules depth 11
  instr_callback-Safe InsnMnemonic.xnor raw = search callback_rules depth 11
  instr_callback-Safe InsnMnemonic.min raw = search callback_rules depth 11
  instr_callback-Safe InsnMnemonic.minu raw = search callback_rules depth 11
  instr_callback-Safe InsnMnemonic.max raw = search callback_rules depth 11
  instr_callback-Safe InsnMnemonic.maxu raw = search callback_rules depth 11
  instr_callback-Safe InsnMnemonic.sext_b raw = search callback_rules depth 11
  instr_callback-Safe InsnMnemonic.sext_h raw = search callback_rules depth 11
  instr_callback-Safe InsnMnemonic.zext_h raw = search callback_rules depth 11
  instr_callback-Safe InsnMnemonic.clz raw = search callback_rules depth 11
  instr_callback-Safe InsnMnemonic.ctz raw = search callback_rules depth 11
  instr_callback-Safe InsnMnemonic.cpop raw = search callback_rules depth 11
  instr_callback-Safe InsnMnemonic.rol raw = search callback_rules depth 11
  instr_callback-Safe InsnMnemonic.ror raw = search callback_rules depth 11
  instr_callback-Safe InsnMnemonic.rori raw = search callback_rules depth 11
  instr_callback-Safe InsnMnemonic.rev8 raw = search callback_rules depth 11
  instr_callback-Safe InsnMnemonic.orc_b raw = search callback_rules depth 11
  instr_callback-Safe InsnMnemonic.csrrw raw = search callback_rules depth 11
  instr_callback-Safe InsnMnemonic.csrrs raw = search callback_rules depth 11
  instr_callback-Safe InsnMnemonic.csrrc raw = search callback_rules depth 11
  instr_callback-Safe InsnMnemonic.csrrwi raw = search callback_rules depth 11
  instr_callback-Safe InsnMnemonic.csrrsi raw = search callback_rules depth 11
  instr_callback-Safe InsnMnemonic.csrrci raw = search callback_rules depth 11
  instr_callback-Safe InsnMnemonic.flw raw = search callback_rules depth 11
  instr_callback-Safe InsnMnemonic.fsw raw = search callback_rules depth 11
  instr_callback-Safe InsnMnemonic.fadd_s raw = search callback_rules depth 11
  instr_callback-Safe InsnMnemonic.fsub_s raw = search callback_rules depth 11
  instr_callback-Safe InsnMnemonic.fmul_s raw = search callback_rules depth 11
  instr_callback-Safe InsnMnemonic.fdiv_s raw = search callback_rules depth 11
  instr_callback-Safe InsnMnemonic.fsqrt_s raw = search callback_rules depth 11
  instr_callback-Safe InsnMnemonic.fmadd_s raw = search callback_rules depth 11
  instr_callback-Safe InsnMnemonic.fmsub_s raw = search callback_rules depth 11
  instr_callback-Safe InsnMnemonic.fnmsub_s raw = search callback_rules depth 11
  instr_callback-Safe InsnMnemonic.fnmadd_s raw = search callback_rules depth 11
  instr_callback-Safe InsnMnemonic.fsgnj_s raw = search callback_rules depth 11
  instr_callback-Safe InsnMnemonic.fsgnjn_s raw = search callback_rules depth 11
  instr_callback-Safe InsnMnemonic.fsgnjx_s raw = search callback_rules depth 11
  instr_callback-Safe InsnMnemonic.fmin_s raw = search callback_rules depth 11
  instr_callback-Safe InsnMnemonic.fmax_s raw = search callback_rules depth 11
  instr_callback-Safe InsnMnemonic.fle_s raw = search callback_rules depth 11
  instr_callback-Safe InsnMnemonic.flt_s raw = search callback_rules depth 11
  instr_callback-Safe InsnMnemonic.feq_s raw = search callback_rules depth 11
  instr_callback-Safe InsnMnemonic.fcvt_w_s raw = search callback_rules depth 11
  instr_callback-Safe InsnMnemonic.fcvt_wu_s raw = search callback_rules depth 11
  instr_callback-Safe InsnMnemonic.fcvt_s_w raw = search callback_rules depth 11
  instr_callback-Safe InsnMnemonic.fcvt_s_wu raw = search callback_rules depth 11
  instr_callback-Safe InsnMnemonic.fmv_x_w raw = search callback_rules depth 11
  instr_callback-Safe InsnMnemonic.fclass_s raw = search callback_rules depth 11
  instr_callback-Safe InsnMnemonic.fmv_w_x raw = search callback_rules depth 11
  instr_callback-Safe InsnMnemonic.k_count raw = search callback_rules depth 11
  instr_callback-Safe InsnMnemonic.k_invalid raw = search callback_rules depth 11

  execute_insn-Safe : Safe (execute_insn h)
  unfolding execute_insn
  execute_insn-Safe = search (safe_rules, instr_callback-Safe) depth 8

  -- Over any number of rounds of the loop, with any instructions and any host: the two register
  -- files keep their sizes, the slot of x0 its contents, every segment of memory its bounds,
  -- permissions and number of bytes, fcsr stays below 256 once it is, and the system calls made are
  -- only added to.
  pub Steps-Evolves : {n : ℕ} {s s' : Machine} → Steps h n s s' → Evolves s s'
  Steps-Evolves {s = s} done = Evolves-refl s
  Steps-Evolves {s = s} (more go e steps) =
      Evolves-trans (execute_insn-Safe.evolves s e) (Steps-Evolves steps)
