-- ===== src/Execute/Range.antt =====
-- The widths of the values of a state, over all instructions and runs.
use riscv_sim.Prelude.{ℕ, Bool}
use riscv_sim.Mnemonic.{InsnMnemonic}
use riscv_sim.Host.{Host}
use riscv_sim.Memory.{store_u8, store_u16, store_u32, fetch}
use riscv_sim.Machine.State.{Machine}
use riscv_sim.Machine.Range.{IsWord, InRange, Keeps, Any, pure-Keeps_word}
use riscv_sim.Isa.Range.{
  range_rules, call_word-Keeps, call_flag-Keeps, rounding-Keeps, soft_float_clear_fexcp-Keeps,
  soft_float_set_rm-Keeps, soft_float_set_fexcp-Keeps, execute_rrr_bin_op-Keeps,
  execute_rri_bin_op-Keeps, execute_rri_shift-Keeps, execute_branch-Keeps, execute_rr_op-Keeps,
  execute_sign_op-Keeps, execute_rrrf_bin_op-Keeps, execute_rrrrf_tern_op-Keeps,
  execute_rrr_cmp_op-Keeps,
}
use riscv_sim.Isa.Range.System.{syscall_handler-Keeps}
use riscv_sim.Isa.Range.BitValues.{word_rules}
use riscv_sim.Isa.Arith.{
  callback_lui, callback_auipc, callback_addi, callback_slti, callback_sltiu, callback_xori,
  callback_ori, callback_andi, callback_slli, callback_srli, callback_srai, callback_add,
  callback_sub, callback_sll, callback_slt, callback_sltu, callback_xor, callback_srl, callback_sra,
  callback_or, callback_and,
}
use riscv_sim.Isa.Control.{
  callback_jal, callback_jalr, callback_beq, callback_bne, callback_blt, callback_bge,
  callback_bltu, callback_bgeu, callback_fence, callback_fence_i, callback_ecall, callback_ebreak,
}
use riscv_sim.Isa.LoadStore.{
  callback_lb, callback_lh, callback_lw, callback_lbu, callback_lhu, callback_sb, callback_sh,
  callback_sw, callback_flw, callback_fsw,
}
use riscv_sim.Isa.MulDiv.{
  callback_mul, callback_mulh, callback_mulhsu, callback_mulhu, callback_div, callback_divu,
  callback_rem, callback_remu,
}
use riscv_sim.Isa.Zbb.{
  callback_andn, callback_orn, callback_xnor, callback_min, callback_minu, callback_max,
  callback_maxu, callback_sext_b, callback_sext_h, callback_zext_h, callback_clz, callback_ctz,
  callback_cpop, callback_rol, callback_ror, callback_rori, callback_rev8, callback_orc_b,
}
use riscv_sim.Isa.Zicsr.{
  callback_csrrw, callback_csrrs, callback_csrrc, callback_csrrwi, callback_csrrsi, callback_csrrci,
}
use riscv_sim.Isa.Float.{
  callback_fadd_s, callback_fsub_s, callback_fmul_s, callback_fdiv_s, callback_fsqrt_s,
  callback_fmadd_s, callback_fmsub_s, callback_fnmsub_s, callback_fnmadd_s, callback_fsgnj_s,
  callback_fsgnjn_s, callback_fsgnjx_s, callback_fmin_s, callback_fmax_s, callback_fle_s,
  callback_flt_s, callback_feq_s, callback_fcvt_w_s, callback_fcvt_wu_s, callback_fcvt_s_w,
  callback_fcvt_s_wu, callback_fmv_x_w, callback_fclass_s, callback_fmv_w_x,
}
use riscv_sim.Execute.{instr_callback, execute_insn}
use riscv_sim.Execute.Steps.{Steps, done, more}

ruleset keep_rules = (
  range_rules, word_rules, pure-Keeps_word, call_word-Keeps, call_flag-Keeps, rounding-Keeps,
  soft_float_clear_fexcp-Keeps, soft_float_set_rm-Keeps, soft_float_set_fexcp-Keeps,
  execute_rrr_bin_op-Keeps, execute_rri_bin_op-Keeps, execute_rri_shift-Keeps, execute_branch-Keeps,
  execute_rr_op-Keeps, execute_sign_op-Keeps, execute_rrrf_bin_op-Keeps,
  execute_rrrrf_tern_op-Keeps, execute_rrr_cmp_op-Keeps, syscall_handler-Keeps,
)

-- On words, the results of SoftFloat are words: a float32_t and the integers that it converts to
-- have 32 bits.
pub record GivesWords (h : Host) : Type 0 where
  pub add_word : (r a b : ℕ) → IsWord a → IsWord b → IsWord (h.f32_add r a b).0
  pub sub_word : (r a b : ℕ) → IsWord a → IsWord b → IsWord (h.f32_sub r a b).0
  pub mul_word : (r a b : ℕ) → IsWord a → IsWord b → IsWord (h.f32_mul r a b).0
  pub div_word : (r a b : ℕ) → IsWord a → IsWord b → IsWord (h.f32_div r a b).0
  pub sqrt_word : (r a : ℕ) → IsWord a → IsWord (h.f32_sqrt r a).0
  pub mul_add_word :
      (r a b c : ℕ) → IsWord a → IsWord b → IsWord c → IsWord (h.f32_mul_add r a b c).0
  pub to_i32_word : (a r : ℕ) (exact : Bool) → IsWord a → IsWord (h.f32_to_i32 a r exact).0
  pub to_ui32_word : (a r : ℕ) (exact : Bool) → IsWord a → IsWord (h.f32_to_ui32 a r exact).0
  pub of_i32_word : (r a : ℕ) → IsWord a → IsWord (h.i32_to_f32 r a).0
  pub of_ui32_word : (r a : ℕ) → IsWord a → IsWord (h.ui32_to_f32 r a).0

module _ (h : Host) (g : GivesWords h) where
  instr_callback-Keeps :
      (m : InsnMnemonic) (raw : ℕ) → IsWord raw → Keeps Any (instr_callback h m raw)
  unfolding instr_callback store_u8 store_u16 store_u32 callback_lui callback_auipc callback_addi
      callback_slti callback_sltiu callback_xori callback_ori callback_andi callback_slli
      callback_srli callback_srai callback_add callback_sub callback_sll callback_slt callback_sltu
      callback_xor callback_srl callback_sra callback_or callback_and callback_jal callback_jalr
      callback_beq callback_bne callback_blt callback_bge callback_bltu callback_bgeu callback_fence
      callback_fence_i callback_ecall callback_ebreak callback_lb callback_lh callback_lw
      callback_lbu callback_lhu callback_sb callback_sh callback_sw callback_flw callback_fsw
      callback_mul callback_mulh callback_mulhsu callback_mulhu callback_div callback_divu
      callback_rem callback_remu callback_andn callback_orn callback_xnor callback_min callback_minu
      callback_max callback_maxu callback_sext_b callback_sext_h callback_zext_h callback_clz
      callback_ctz callback_cpop callback_rol callback_ror callback_rori callback_rev8
      callback_orc_b callback_csrrw callback_csrrs callback_csrrc callback_csrrwi callback_csrrsi
      callback_csrrci callback_fadd_s callback_fsub_s callback_fmul_s callback_fdiv_s
      callback_fsqrt_s callback_fmadd_s callback_fmsub_s callback_fnmsub_s callback_fnmadd_s
      callback_fsgnj_s callback_fsgnjn_s callback_fsgnjx_s callback_fmin_s callback_fmax_s
      callback_fle_s callback_flt_s callback_feq_s callback_fcvt_w_s callback_fcvt_wu_s
      callback_fcvt_s_w callback_fcvt_s_wu callback_fmv_x_w callback_fclass_s callback_fmv_w_x
  instr_callback-Keeps InsnMnemonic.lui raw w = search keep_rules depth 12
  instr_callback-Keeps InsnMnemonic.auipc raw w = search keep_rules depth 12
  instr_callback-Keeps InsnMnemonic.jal raw w = search keep_rules depth 12
  instr_callback-Keeps InsnMnemonic.jalr raw w = search keep_rules depth 12
  instr_callback-Keeps InsnMnemonic.beq raw w = search keep_rules depth 12
  instr_callback-Keeps InsnMnemonic.bne raw w = search keep_rules depth 12
  instr_callback-Keeps InsnMnemonic.blt raw w = search keep_rules depth 12
  instr_callback-Keeps InsnMnemonic.bge raw w = search keep_rules depth 12
  instr_callback-Keeps InsnMnemonic.bltu raw w = search keep_rules depth 12
  instr_callback-Keeps InsnMnemonic.bgeu raw w = search keep_rules depth 12
  instr_callback-Keeps InsnMnemonic.lb raw w = search keep_rules depth 12
  instr_callback-Keeps InsnMnemonic.lh raw w = search keep_rules depth 12
  instr_callback-Keeps InsnMnemonic.lw raw w = search keep_rules depth 12
  instr_callback-Keeps InsnMnemonic.lbu raw w = search keep_rules depth 12
  instr_callback-Keeps InsnMnemonic.lhu raw w = search keep_rules depth 12
  instr_callback-Keeps InsnMnemonic.sb raw w = search keep_rules depth 12
  instr_callback-Keeps InsnMnemonic.sh raw w = search keep_rules depth 12
  instr_callback-Keeps InsnMnemonic.sw raw w = search keep_rules depth 12
  instr_callback-Keeps InsnMnemonic.addi raw w = search keep_rules depth 12
  instr_callback-Keeps InsnMnemonic.slti raw w = search keep_rules depth 12
  instr_callback-Keeps InsnMnemonic.sltiu raw w = search keep_rules depth 12
  instr_callback-Keeps InsnMnemonic.xori raw w = search keep_rules depth 12
  instr_callback-Keeps InsnMnemonic.ori raw w = search keep_rules depth 12
  instr_callback-Keeps InsnMnemonic.andi raw w = search keep_rules depth 12
  instr_callback-Keeps InsnMnemonic.slli raw w = search keep_rules depth 12
  instr_callback-Keeps InsnMnemonic.srli raw w = search keep_rules depth 12
  instr_callback-Keeps InsnMnemonic.srai raw w = search keep_rules depth 12
  instr_callback-Keeps InsnMnemonic.add raw w = search keep_rules depth 12
  instr_callback-Keeps InsnMnemonic.sub raw w = search keep_rules depth 12
  instr_callback-Keeps InsnMnemonic.sll raw w = search keep_rules depth 12
  instr_callback-Keeps InsnMnemonic.slt raw w = search keep_rules depth 12
  instr_callback-Keeps InsnMnemonic.sltu raw w = search keep_rules depth 12
  instr_callback-Keeps InsnMnemonic.xor raw w = search keep_rules depth 12
  instr_callback-Keeps InsnMnemonic.srl raw w = search keep_rules depth 12
  instr_callback-Keeps InsnMnemonic.sra raw w = search keep_rules depth 12
  instr_callback-Keeps InsnMnemonic.or raw w = search keep_rules depth 12
  instr_callback-Keeps InsnMnemonic.and raw w = search keep_rules depth 12
  instr_callback-Keeps InsnMnemonic.fence raw w = search keep_rules depth 12
  instr_callback-Keeps InsnMnemonic.fence_i raw w = search keep_rules depth 12
  instr_callback-Keeps InsnMnemonic.ecall raw w = search keep_rules depth 12
  instr_callback-Keeps InsnMnemonic.ebreak raw w = search keep_rules depth 12
  instr_callback-Keeps InsnMnemonic.mul raw w = search keep_rules depth 12
  instr_callback-Keeps InsnMnemonic.mulh raw w = search keep_rules depth 12
  instr_callback-Keeps InsnMnemonic.mulhsu raw w = search keep_rules depth 12
  instr_callback-Keeps InsnMnemonic.mulhu raw w = search keep_rules depth 12
  instr_callback-Keeps InsnMnemonic.div raw w = search keep_rules depth 12
  instr_callback-Keeps InsnMnemonic.divu raw w = search keep_rules depth 12
  instr_callback-Keeps InsnMnemonic.rem raw w = search keep_rules depth 12
  instr_callback-Keeps InsnMnemonic.remu raw w = search keep_rules depth 12
  instr_callback-Keeps InsnMnemonic.andn raw w = search keep_rules depth 12
  instr_callback-Keeps InsnMnemonic.orn raw w = search keep_rules depth 12
  instr_callback-Keeps InsnMnemonic.xnor raw w = search keep_rules depth 12
  instr_callback-Keeps InsnMnemonic.min raw w = search keep_rules depth 12
  instr_callback-Keeps InsnMnemonic.minu raw w = search keep_rules depth 12
  instr_callback-Keeps InsnMnemonic.max raw w = search keep_rules depth 12
  instr_callback-Keeps InsnMnemonic.maxu raw w = search keep_rules depth 12
  instr_callback-Keeps InsnMnemonic.sext_b raw w = search keep_rules depth 12
  instr_callback-Keeps InsnMnemonic.sext_h raw w = search keep_rules depth 12
  instr_callback-Keeps InsnMnemonic.zext_h raw w = search keep_rules depth 12
  instr_callback-Keeps InsnMnemonic.clz raw w = search keep_rules depth 12
  instr_callback-Keeps InsnMnemonic.ctz raw w = search keep_rules depth 12
  instr_callback-Keeps InsnMnemonic.cpop raw w = search keep_rules depth 12
  instr_callback-Keeps InsnMnemonic.rol raw w = search keep_rules depth 12
  instr_callback-Keeps InsnMnemonic.ror raw w = search keep_rules depth 12
  instr_callback-Keeps InsnMnemonic.rori raw w = search keep_rules depth 12
  instr_callback-Keeps InsnMnemonic.rev8 raw w = search keep_rules depth 12
  instr_callback-Keeps InsnMnemonic.orc_b raw w = search keep_rules depth 12
  instr_callback-Keeps InsnMnemonic.csrrw raw w = search keep_rules depth 12
  instr_callback-Keeps InsnMnemonic.csrrs raw w = search keep_rules depth 12
  instr_callback-Keeps InsnMnemonic.csrrc raw w = search keep_rules depth 12
  instr_callback-Keeps InsnMnemonic.csrrwi raw w = search keep_rules depth 12
  instr_callback-Keeps InsnMnemonic.csrrsi raw w = search keep_rules depth 12
  instr_callback-Keeps InsnMnemonic.csrrci raw w = search keep_rules depth 12
  instr_callback-Keeps InsnMnemonic.flw raw w = search keep_rules depth 12
  instr_callback-Keeps InsnMnemonic.fsw raw w = search keep_rules depth 12
  instr_callback-Keeps InsnMnemonic.fadd_s raw w = search (keep_rules, g.add_word) depth 12
  instr_callback-Keeps InsnMnemonic.fsub_s raw w = search (keep_rules, g.sub_word) depth 12
  instr_callback-Keeps InsnMnemonic.fmul_s raw w = search (keep_rules, g.mul_word) depth 12
  instr_callback-Keeps InsnMnemonic.fdiv_s raw w = search (keep_rules, g.div_word) depth 12
  instr_callback-Keeps InsnMnemonic.fsqrt_s raw w = search (keep_rules, g.sqrt_word) depth 12
  instr_callback-Keeps InsnMnemonic.fmadd_s raw w = search (keep_rules, g.mul_add_word) depth 12
  instr_callback-Keeps InsnMnemonic.fmsub_s raw w = search (keep_rules, g.mul_add_word) depth 12
  instr_callback-Keeps InsnMnemonic.fnmsub_s raw w = search (keep_rules, g.mul_add_word) depth 12
  instr_callback-Keeps InsnMnemonic.fnmadd_s raw w = search (keep_rules, g.mul_add_word) depth 12
  instr_callback-Keeps InsnMnemonic.fsgnj_s raw w = search keep_rules depth 12
  instr_callback-Keeps InsnMnemonic.fsgnjn_s raw w = search keep_rules depth 12
  instr_callback-Keeps InsnMnemonic.fsgnjx_s raw w = search keep_rules depth 12
  instr_callback-Keeps InsnMnemonic.fmin_s raw w = search keep_rules depth 12
  instr_callback-Keeps InsnMnemonic.fmax_s raw w = search keep_rules depth 12
  instr_callback-Keeps InsnMnemonic.fle_s raw w = search keep_rules depth 12
  instr_callback-Keeps InsnMnemonic.flt_s raw w = search keep_rules depth 12
  instr_callback-Keeps InsnMnemonic.feq_s raw w = search keep_rules depth 12
  instr_callback-Keeps InsnMnemonic.fcvt_w_s raw w = search (keep_rules, g.to_i32_word) depth 12
  instr_callback-Keeps InsnMnemonic.fcvt_wu_s raw w = search (keep_rules, g.to_ui32_word) depth 12
  instr_callback-Keeps InsnMnemonic.fcvt_s_w raw w = search (keep_rules, g.of_i32_word) depth 12
  instr_callback-Keeps InsnMnemonic.fcvt_s_wu raw w = search (keep_rules, g.of_ui32_word) depth 12
  instr_callback-Keeps InsnMnemonic.fmv_x_w raw w = search keep_rules depth 12
  instr_callback-Keeps InsnMnemonic.fclass_s raw w = search keep_rules depth 12
  instr_callback-Keeps InsnMnemonic.fmv_w_x raw w = search keep_rules depth 12
  instr_callback-Keeps InsnMnemonic.k_count raw w = search keep_rules depth 12
  instr_callback-Keeps InsnMnemonic.k_invalid raw w = search keep_rules depth 12

  execute_insn-Keeps : Keeps Any (execute_insn h)
  unfolding execute_insn fetch
  execute_insn-Keeps = search (range_rules, instr_callback-Keeps) depth 8

  pub Steps-InRange : {n : ℕ} {s s' : Machine} → Steps h n s s' → InRange s → InRange s'
  Steps-InRange done r = r
  Steps-InRange {s = s} (more go e steps) r = Steps-InRange steps (execute_insn-Keeps.keeps s r e).1
