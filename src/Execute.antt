-- ===== src/Execute.antt =====
-- src/sim/source/dispatch.cpp and src/sim/source/rv_sim.cpp: the table of callbacks and the loop.
pub mod Steps
pub mod Range
pub mod Safety
pub mod Decoded
pub mod Register
pub mod Immediate
pub mod Transfer
pub mod Upper
pub mod Exit
pub mod Csr
pub mod UnknownCsr
pub mod Unary
use riscv_sim.Prelude.{
  ℕ, zero, suc, Bool, true, false, Option, if◌then◌else◌, none, some, get_elem?,
}
use riscv_sim.Outcome.{Outcome, ok, fault, undefined, thrown, unknown_instruction}
use riscv_sim.Mnemonic.{InsnMnemonic}
use riscv_sim.Decode.{decode}
use riscv_sim.Memory.{fetch}
use riscv_sim.Host.{Host}
use riscv_sim.Machine.State.{Machine, M, fail, ◌>>=◌, reading}
use riscv_sim.Machine.{element, get_ip, a0}
use riscv_sim.Isa.Arith.{
  callback_lui, callback_auipc, callback_addi, callback_slti, callback_sltiu, callback_xori,
  callback_ori, callback_andi, callback_slli, callback_srli, callback_srai, callback_add,
  callback_sub, callback_sll, callback_slt, callback_sltu, callback_xor, callback_srl, callback_sra,
  callback_or, callback_and,
}
use riscv_sim.Isa.Control.{
  callback_jal, callback_jalr, callback_beq, callback_bne, callback_blt, callback_bge,
  callback_bltu, callback_bgeu, callback_fence, callback_fence_i, callback_ecall, callback_ebreak,
}
use riscv_sim.Isa.LoadStore.{
  callback_lb, callback_lh, callback_lw, callback_lbu, callback_lhu, callback_sb, callback_sh,
  callback_sw, callback_flw, callback_fsw,
}
use riscv_sim.Isa.MulDiv.{
  callback_mul, callback_mulh, callback_mulhsu, callback_mulhu, callback_div, callback_divu,
  callback_rem, callback_remu,
}
use riscv_sim.Isa.Zbb.{
  callback_andn, callback_orn, callback_xnor, callback_min, callback_minu, callback_max,
  callback_maxu, callback_sext_b, callback_sext_h, callback_zext_h, callback_clz, callback_ctz,
  callback_cpop, callback_rol, callback_ror, callback_rori, callback_rev8, callback_orc_b,
}
use riscv_sim.Isa.Zicsr.{
  callback_csrrw, callback_csrrs, callback_csrrc, callback_csrrwi, callback_csrrsi, callback_csrrci,
}
use riscv_sim.Isa.Float.{
  callback_fadd_s, callback_fsub_s, callback_fmul_s, callback_fdiv_s, callback_fsqrt_s,
  callback_fmadd_s, callback_fmsub_s, callback_fnmsub_s, callback_fnmadd_s, callback_fsgnj_s,
  callback_fsgnjn_s, callback_fsgnjx_s, callback_fmin_s, callback_fmax_s, callback_fle_s,
  callback_flt_s, callback_feq_s, callback_fcvt_w_s, callback_fcvt_wu_s, callback_fcvt_s_w,
  callback_fcvt_s_wu, callback_fmv_x_w, callback_fclass_s, callback_fmv_w_x,
}

module _ (h : Host) where
  -- `callback_table[mnem]`; kCount and kInvalid lie outside of the table.
  unfoldable pub instr_callback : InsnMnemonic → ℕ → M (Unit {0})
  instr_callback InsnMnemonic.lui = callback_lui h
  instr_callback InsnMnemonic.auipc = callback_auipc h
  instr_callback InsnMnemonic.jal = callback_jal h
  instr_callback InsnMnemonic.jalr = callback_jalr h
  instr_callback InsnMnemonic.beq = callback_beq h
  instr_callback InsnMnemonic.bne = callback_bne h
  instr_callback InsnMnemonic.blt = callback_blt h
  instr_callback InsnMnemonic.bge = callback_bge h
  instr_callback InsnMnemonic.bltu = callback_bltu h
  instr_callback InsnMnemonic.bgeu = callback_bgeu h
  instr_callback InsnMnemonic.lb = callback_lb h
  instr_callback InsnMnemonic.lh = callback_lh h
  instr_callback InsnMnemonic.lw = callback_lw h
  instr_callback InsnMnemonic.lbu = callback_lbu h
  instr_callback InsnMnemonic.lhu = callback_lhu h
  instr_callback InsnMnemonic.sb = callback_sb h
  instr_callback InsnMnemonic.sh = callback_sh h
  instr_callback InsnMnemonic.sw = callback_sw h
  instr_callback InsnMnemonic.addi = callback_addi h
  instr_callback InsnMnemonic.slti = callback_slti h
  instr_callback InsnMnemonic.sltiu = callback_sltiu h
  instr_callback InsnMnemonic.xori = callback_xori h
  instr_callback InsnMnemonic.ori = callback_ori h
  instr_callback InsnMnemonic.andi = callback_andi h
  instr_callback InsnMnemonic.slli = callback_slli h
  instr_callback InsnMnemonic.srli = callback_srli h
  instr_callback InsnMnemonic.srai = callback_srai h
  instr_callback InsnMnemonic.add = callback_add h
  instr_callback InsnMnemonic.sub = callback_sub h
  instr_callback InsnMnemonic.sll = callback_sll h
  instr_callback InsnMnemonic.slt = callback_slt h
  instr_callback InsnMnemonic.sltu = callback_sltu h
  instr_callback InsnMnemonic.xor = callback_xor h
  instr_callback InsnMnemonic.srl = callback_srl h
  instr_callback InsnMnemonic.sra = callback_sra h
  instr_callback InsnMnemonic.or = callback_or h
  instr_callback InsnMnemonic.and = callback_and h
  instr_callback InsnMnemonic.fence = callback_fence h
  instr_callback InsnMnemonic.fence_i = callback_fence_i h
  instr_callback InsnMnemonic.ecall = callback_ecall h
  instr_callback InsnMnemonic.ebreak = callback_ebreak h
  instr_callback InsnMnemonic.mul = callback_mul h
  instr_callback InsnMnemonic.mulh = callback_mulh h
  instr_callback InsnMnemonic.mulhsu = callback_mulhsu h
  instr_callback InsnMnemonic.mulhu = callback_mulhu h
  instr_callback InsnMnemonic.div = callback_div h
  instr_callback InsnMnemonic.divu = callback_divu h
  instr_callback InsnMnemonic.rem = callback_rem h
  instr_callback InsnMnemonic.remu = callback_remu h
  instr_callback InsnMnemonic.andn = callback_andn h
  instr_callback InsnMnemonic.orn = callback_orn h
  instr_callback InsnMnemonic.xnor = callback_xnor h
  instr_callback InsnMnemonic.min = callback_min h
  instr_callback InsnMnemonic.minu = callback_minu h
  instr_callback InsnMnemonic.max = callback_max h
  instr_callback InsnMnemonic.maxu = callback_maxu h
  instr_callback InsnMnemonic.sext_b = callback_sext_b h
  instr_callback InsnMnemonic.sext_h = callback_sext_h h
  instr_callback InsnMnemonic.zext_h = callback_zext_h h
  instr_callback InsnMnemonic.clz = callback_clz h
  instr_callback InsnMnemonic.ctz = callback_ctz h
  instr_callback InsnMnemonic.cpop = callback_cpop h
  instr_callback InsnMnemonic.rol = callback_rol h
  instr_callback InsnMnemonic.ror = callback_ror h
  instr_callback InsnMnemonic.rori = callback_rori h
  instr_callback InsnMnemonic.rev8 = callback_rev8 h
  instr_callback InsnMnemonic.orc_b = callback_orc_b h
  instr_callback InsnMnemonic.csrrw = callback_csrrw h
  instr_callback InsnMnemonic.csrrs = callback_csrrs h
  instr_callback InsnMnemonic.csrrc = callback_csrrc h
  instr_callback InsnMnemonic.csrrwi = callback_csrrwi h
  instr_callback InsnMnemonic.csrrsi = callback_csrrsi h
  instr_callback InsnMnemonic.csrrci = callback_csrrci h
  instr_callback InsnMnemonic.flw = callback_flw h
  instr_callback InsnMnemonic.fsw = callback_fsw h
  instr_callback InsnMnemonic.fadd_s = callback_fadd_s h
  instr_callback InsnMnemonic.fsub_s = callback_fsub_s h
  instr_callback InsnMnemonic.fmul_s = callback_fmul_s h
  instr_callback InsnMnemonic.fdiv_s = callback_fdiv_s h
  instr_callback InsnMnemonic.fsqrt_s = callback_fsqrt_s h
  instr_callback InsnMnemonic.fmadd_s = callback_fmadd_s h
  instr_callback InsnMnemonic.fmsub_s = callback_fmsub_s h
  instr_callback InsnMnemonic.fnmsub_s = callback_fnmsub_s h
  instr_callback InsnMnemonic.fnmadd_s = callback_fnmadd_s h
  instr_callback InsnMnemonic.fsgnj_s = callback_fsgnj_s h
  instr_callback InsnMnemonic.fsgnjn_s = callback_fsgnjn_s h
  instr_callback InsnMnemonic.fsgnjx_s = callback_fsgnjx_s h
  instr_callback InsnMnemonic.fmin_s = callback_fmin_s h
  instr_callback InsnMnemonic.fmax_s = callback_fmax_s h
  instr_callback InsnMnemonic.fle_s = callback_fle_s h
  instr_callback InsnMnemonic.flt_s = callback_flt_s h
  instr_callback InsnMnemonic.feq_s = callback_feq_s h
  instr_callback InsnMnemonic.fcvt_w_s = callback_fcvt_w_s h
  instr_callback InsnMnemonic.fcvt_wu_s = callback_fcvt_wu_s h
  instr_callback InsnMnemonic.fcvt_s_w = callback_fcvt_s_w h
  instr_callback InsnMnemonic.fcvt_s_wu = callback_fcvt_s_wu h
  instr_callback InsnMnemonic.fmv_x_w = callback_fmv_x_w h
  instr_callback InsnMnemonic.fclass_s = callback_fclass_s h
  instr_callback InsnMnemonic.fmv_w_x = callback_fmv_w_x h
  instr_callback InsnMnemonic.k_count = λ raw. fail undefined
  instr_callback InsnMnemonic.k_invalid = λ raw. fail undefined

  unfoldable pub is_invalid : InsnMnemonic → Bool
  is_invalid InsnMnemonic.k_invalid = true
  is_invalid _ = false

  -- One round of the loop of RVSim::Execute.
  unfoldable pub execute_insn : M (Unit {0})
  execute_insn = do
    ip ← get_ip
    undecoded_insn ← reading (λ mem. fetch h.asserts mem ip)
    let mnem = decode undecoded_insn
    if is_invalid mnem
        then fail (thrown unknown_instruction)
        else instr_callback mnem undecoded_insn

  -- The rest of a round, after `should_stop_` is read, and after the instruction.
  abbrev pub after_insn :
      (Machine → Option (Outcome Machine)) → Outcome (Unit {0} × Machine) → Option (Outcome Machine)
  after_insn next (fault e) = some (fault e)
  after_insn next (ok (_, s')) = next s'

  abbrev pub loop_round :
      (Machine → Option (Outcome Machine)) → Machine → Bool → Option (Outcome Machine)
  loop_round next s true = some (ok s)
  loop_round next s false = after_insn next (execute_insn s)

  -- The loop, with fuel for its rounds; `none` is that the fuel has run out.
  unfoldable pub execute_loop : ℕ → Machine → Option (Outcome Machine)
  execute_loop zero s = none
  execute_loop (suc fuel) s = loop_round (execute_loop fuel) s s.should_stop

  -- RVSim::Execute: its result is the pattern of the int, and the final state is kept.
  unfoldable pub execute : ℕ → Machine → Option (Outcome (ℕ × Machine))
  unfolding execute_loop
  execute fuel s = elim (execute_loop fuel s) [
    | none ↦ none
    | some (fault e) ↦ some (fault e)
    | some (ok s') ↦ some (element s'.xregs a0 s')
  ]
