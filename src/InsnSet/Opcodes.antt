-- ===== src/InsnSet/Opcodes.antt =====
-- The fixed bits of the instructions, from the instruction listings of the RISC-V manual: the
-- opcode, funct3 and funct7, and what stands in a field that an instruction does not use.
use riscv_sim.Prelude.{ℕ, ◌+◌, ◌*◌, ◌^◌}
use riscv_sim.Mnemonic.{InsnMnemonic}

-- The opcodes that several instructions share.
abbrev branch_op : ℕ
branch_op = 0x63

abbrev load_op : ℕ
load_op = 0x03

abbrev store_op : ℕ
store_op = 0x23

abbrev op_imm : ℕ
op_imm = 0x13

abbrev op : ℕ
op = 0x33

abbrev misc_mem : ℕ
misc_mem = 0x0f

abbrev system_op : ℕ
system_op = 0x73

abbrev op_fp : ℕ
op_fp = 0x53

abbrev r_type : ℕ → ℕ → ℕ → ℕ
r_type funct7 funct3 opcode = funct7 * 2 ^ 25 + funct3 * 2 ^ 12 + opcode

abbrev i_type : ℕ → ℕ → ℕ
i_type funct3 opcode = funct3 * 2 ^ 12 + opcode

abbrev unary_type : ℕ → ℕ → ℕ → ℕ
unary_type funct12 funct3 opcode = funct12 * 2 ^ 20 + funct3 * 2 ^ 12 + opcode

-- A word of an instruction with 0 in all the fields that the program chooses.
abbrev pub fixed_bits : InsnMnemonic → ℕ
fixed_bits InsnMnemonic.lui = 0x37
fixed_bits InsnMnemonic.auipc = 0x17
fixed_bits InsnMnemonic.jal = 0x6f
fixed_bits InsnMnemonic.jalr = i_type 0 0x67
fixed_bits InsnMnemonic.beq = i_type 0 branch_op
fixed_bits InsnMnemonic.bne = i_type 1 branch_op
fixed_bits InsnMnemonic.blt = i_type 4 branch_op
fixed_bits InsnMnemonic.bge = i_type 5 branch_op
fixed_bits InsnMnemonic.bltu = i_type 6 branch_op
fixed_bits InsnMnemonic.bgeu = i_type 7 branch_op
fixed_bits InsnMnemonic.lb = i_type 0 load_op
fixed_bits InsnMnemonic.lh = i_type 1 load_op
fixed_bits InsnMnemonic.lw = i_type 2 load_op
fixed_bits InsnMnemonic.lbu = i_type 4 load_op
fixed_bits InsnMnemonic.lhu = i_type 5 load_op
fixed_bits InsnMnemonic.sb = i_type 0 store_op
fixed_bits InsnMnemonic.sh = i_type 1 store_op
fixed_bits InsnMnemonic.sw = i_type 2 store_op
fixed_bits InsnMnemonic.addi = i_type 0 op_imm
fixed_bits InsnMnemonic.slti = i_type 2 op_imm
fixed_bits InsnMnemonic.sltiu = i_type 3 op_imm
fixed_bits InsnMnemonic.xori = i_type 4 op_imm
fixed_bits InsnMnemonic.ori = i_type 6 op_imm
fixed_bits InsnMnemonic.andi = i_type 7 op_imm
fixed_bits InsnMnemonic.slli = r_type 0x00 1 op_imm
fixed_bits InsnMnemonic.srli = r_type 0x00 5 op_imm
fixed_bits InsnMnemonic.srai = r_type 0x20 5 op_imm
fixed_bits InsnMnemonic.add = r_type 0x00 0 op
fixed_bits InsnMnemonic.sub = r_type 0x20 0 op
fixed_bits InsnMnemonic.sll = r_type 0x00 1 op
fixed_bits InsnMnemonic.slt = r_type 0x00 2 op
fixed_bits InsnMnemonic.sltu = r_type 0x00 3 op
fixed_bits InsnMnemonic.xor = r_type 0x00 4 op
fixed_bits InsnMnemonic.srl = r_type 0x00 5 op
fixed_bits InsnMnemonic.sra = r_type 0x20 5 op
fixed_bits InsnMnemonic.or = r_type 0x00 6 op
fixed_bits InsnMnemonic.and = r_type 0x00 7 op
fixed_bits InsnMnemonic.fence = i_type 0 misc_mem
fixed_bits InsnMnemonic.fence_i = i_type 1 misc_mem
fixed_bits InsnMnemonic.ecall = 0x73
fixed_bits InsnMnemonic.ebreak = 0x0010_0073
fixed_bits InsnMnemonic.mul = r_type 0x01 0 op
fixed_bits InsnMnemonic.mulh = r_type 0x01 1 op
fixed_bits InsnMnemonic.mulhsu = r_type 0x01 2 op
fixed_bits InsnMnemonic.mulhu = r_type 0x01 3 op
fixed_bits InsnMnemonic.div = r_type 0x01 4 op
fixed_bits InsnMnemonic.divu = r_type 0x01 5 op
fixed_bits InsnMnemonic.rem = r_type 0x01 6 op
fixed_bits InsnMnemonic.remu = r_type 0x01 7 op
fixed_bits InsnMnemonic.andn = r_type 0x20 7 op
fixed_bits InsnMnemonic.orn = r_type 0x20 6 op
fixed_bits InsnMnemonic.xnor = r_type 0x20 4 op
fixed_bits InsnMnemonic.min = r_type 0x05 4 op
fixed_bits InsnMnemonic.minu = r_type 0x05 5 op
fixed_bits InsnMnemonic.max = r_type 0x05 6 op
fixed_bits InsnMnemonic.maxu = r_type 0x05 7 op
fixed_bits InsnMnemonic.sext_b = unary_type 0x604 1 op_imm
fixed_bits InsnMnemonic.sext_h = unary_type 0x605 1 op_imm
fixed_bits InsnMnemonic.zext_h = r_type 0x04 4 op
fixed_bits InsnMnemonic.clz = unary_type 0x600 1 op_imm
fixed_bits InsnMnemonic.ctz = unary_type 0x601 1 op_imm
fixed_bits InsnMnemonic.cpop = unary_type 0x602 1 op_imm
fixed_bits InsnMnemonic.rol = r_type 0x30 1 op
fixed_bits InsnMnemonic.ror = r_type 0x30 5 op
fixed_bits InsnMnemonic.rori = r_type 0x30 5 op_imm
fixed_bits InsnMnemonic.rev8 = unary_type 0x698 5 op_imm
fixed_bits InsnMnemonic.orc_b = unary_type 0x287 5 op_imm
fixed_bits InsnMnemonic.csrrw = i_type 1 system_op
fixed_bits InsnMnemonic.csrrs = i_type 2 system_op
fixed_bits InsnMnemonic.csrrc = i_type 3 system_op
fixed_bits InsnMnemonic.csrrwi = i_type 5 system_op
fixed_bits InsnMnemonic.csrrsi = i_type 6 system_op
fixed_bits InsnMnemonic.csrrci = i_type 7 system_op
fixed_bits InsnMnemonic.flw = i_type 2 0x07
fixed_bits InsnMnemonic.fsw = i_type 2 0x27
fixed_bits InsnMnemonic.fadd_s = r_type 0x00 0 op_fp
fixed_bits InsnMnemonic.fsub_s = r_type 0x04 0 op_fp
fixed_bits InsnMnemonic.fmul_s = r_type 0x08 0 op_fp
fixed_bits InsnMnemonic.fdiv_s = r_type 0x0c 0 op_fp
fixed_bits InsnMnemonic.fsqrt_s = unary_type (0x2c * 32 + 0) 0 op_fp
fixed_bits InsnMnemonic.fmadd_s = 0x43
fixed_bits InsnMnemonic.fmsub_s = 0x47
fixed_bits InsnMnemonic.fnmsub_s = 0x4b
fixed_bits InsnMnemonic.fnmadd_s = 0x4f
fixed_bits InsnMnemonic.fsgnj_s = r_type 0x10 0 op_fp
fixed_bits InsnMnemonic.fsgnjn_s = r_type 0x10 1 op_fp
fixed_bits InsnMnemonic.fsgnjx_s = r_type 0x10 2 op_fp
fixed_bits InsnMnemonic.fmin_s = r_type 0x14 0 op_fp
fixed_bits InsnMnemonic.fmax_s = r_type 0x14 1 op_fp
fixed_bits InsnMnemonic.fle_s = r_type 0x50 0 op_fp
fixed_bits InsnMnemonic.flt_s = r_type 0x50 1 op_fp
fixed_bits InsnMnemonic.feq_s = r_type 0x50 2 op_fp
fixed_bits InsnMnemonic.fcvt_w_s = unary_type (0x60 * 32 + 0) 0 op_fp
fixed_bits InsnMnemonic.fcvt_wu_s = unary_type (0x60 * 32 + 1) 0 op_fp
fixed_bits InsnMnemonic.fcvt_s_w = unary_type (0x68 * 32 + 0) 0 op_fp
fixed_bits InsnMnemonic.fcvt_s_wu = unary_type (0x68 * 32 + 1) 0 op_fp
fixed_bits InsnMnemonic.fmv_x_w = unary_type (0x70 * 32 + 0) 0 op_fp
fixed_bits InsnMnemonic.fclass_s = unary_type (0x70 * 32 + 0) 1 op_fp
fixed_bits InsnMnemonic.fmv_w_x = unary_type (0x78 * 32 + 0) 0 op_fp
fixed_bits InsnMnemonic.k_count = 0
fixed_bits InsnMnemonic.k_invalid = 0

-- Ones where a word of a floating-point instruction is fixed: the opcode, for all but the fused
-- ones funct7, funct3 where it is not the rounding mode, and rs2 where there is no second operand.
abbrev pub float_mask : InsnMnemonic → ℕ
float_mask InsnMnemonic.flw = i_type 7 0x7f
float_mask InsnMnemonic.fsw = i_type 7 0x7f
float_mask InsnMnemonic.fadd_s = r_type 0x7f 0 0x7f
float_mask InsnMnemonic.fsub_s = r_type 0x7f 0 0x7f
float_mask InsnMnemonic.fmul_s = r_type 0x7f 0 0x7f
float_mask InsnMnemonic.fdiv_s = r_type 0x7f 0 0x7f
float_mask InsnMnemonic.fsqrt_s = unary_type 0xfff 0 0x7f
float_mask InsnMnemonic.fmadd_s = r_type 3 0 0x7f
float_mask InsnMnemonic.fmsub_s = r_type 3 0 0x7f
float_mask InsnMnemonic.fnmsub_s = r_type 3 0 0x7f
float_mask InsnMnemonic.fnmadd_s = r_type 3 0 0x7f
float_mask InsnMnemonic.fsgnj_s = r_type 0x7f 7 0x7f
float_mask InsnMnemonic.fsgnjn_s = r_type 0x7f 7 0x7f
float_mask InsnMnemonic.fsgnjx_s = r_type 0x7f 7 0x7f
float_mask InsnMnemonic.fmin_s = r_type 0x7f 7 0x7f
float_mask InsnMnemonic.fmax_s = r_type 0x7f 7 0x7f
float_mask InsnMnemonic.fle_s = r_type 0x7f 7 0x7f
float_mask InsnMnemonic.flt_s = r_type 0x7f 7 0x7f
float_mask InsnMnemonic.feq_s = r_type 0x7f 7 0x7f
float_mask InsnMnemonic.fcvt_w_s = unary_type 0xfff 0 0x7f
float_mask InsnMnemonic.fcvt_wu_s = unary_type 0xfff 0 0x7f
float_mask InsnMnemonic.fcvt_s_w = unary_type 0xfff 0 0x7f
float_mask InsnMnemonic.fcvt_s_wu = unary_type 0xfff 0 0x7f
float_mask InsnMnemonic.fmv_x_w = unary_type 0xfff 7 0x7f
float_mask InsnMnemonic.fclass_s = unary_type 0xfff 7 0x7f
float_mask InsnMnemonic.fmv_w_x = unary_type 0xfff 7 0x7f
float_mask InsnMnemonic.lui = 0
float_mask InsnMnemonic.auipc = 0
float_mask InsnMnemonic.jal = 0
float_mask InsnMnemonic.jalr = 0
float_mask InsnMnemonic.beq = 0
float_mask InsnMnemonic.bne = 0
float_mask InsnMnemonic.blt = 0
float_mask InsnMnemonic.bge = 0
float_mask InsnMnemonic.bltu = 0
float_mask InsnMnemonic.bgeu = 0
float_mask InsnMnemonic.lb = 0
float_mask InsnMnemonic.lh = 0
float_mask InsnMnemonic.lw = 0
float_mask InsnMnemonic.lbu = 0
float_mask InsnMnemonic.lhu = 0
float_mask InsnMnemonic.sb = 0
float_mask InsnMnemonic.sh = 0
float_mask InsnMnemonic.sw = 0
float_mask InsnMnemonic.addi = 0
float_mask InsnMnemonic.slti = 0
float_mask InsnMnemonic.sltiu = 0
float_mask InsnMnemonic.xori = 0
float_mask InsnMnemonic.ori = 0
float_mask InsnMnemonic.andi = 0
float_mask InsnMnemonic.slli = 0
float_mask InsnMnemonic.srli = 0
float_mask InsnMnemonic.srai = 0
float_mask InsnMnemonic.add = 0
float_mask InsnMnemonic.sub = 0
float_mask InsnMnemonic.sll = 0
float_mask InsnMnemonic.slt = 0
float_mask InsnMnemonic.sltu = 0
float_mask InsnMnemonic.xor = 0
float_mask InsnMnemonic.srl = 0
float_mask InsnMnemonic.sra = 0
float_mask InsnMnemonic.or = 0
float_mask InsnMnemonic.and = 0
float_mask InsnMnemonic.fence = 0
float_mask InsnMnemonic.fence_i = 0
float_mask InsnMnemonic.ecall = 0
float_mask InsnMnemonic.ebreak = 0
float_mask InsnMnemonic.mul = 0
float_mask InsnMnemonic.mulh = 0
float_mask InsnMnemonic.mulhsu = 0
float_mask InsnMnemonic.mulhu = 0
float_mask InsnMnemonic.div = 0
float_mask InsnMnemonic.divu = 0
float_mask InsnMnemonic.rem = 0
float_mask InsnMnemonic.remu = 0
float_mask InsnMnemonic.andn = 0
float_mask InsnMnemonic.orn = 0
float_mask InsnMnemonic.xnor = 0
float_mask InsnMnemonic.min = 0
float_mask InsnMnemonic.minu = 0
float_mask InsnMnemonic.max = 0
float_mask InsnMnemonic.maxu = 0
float_mask InsnMnemonic.sext_b = 0
float_mask InsnMnemonic.sext_h = 0
float_mask InsnMnemonic.zext_h = 0
float_mask InsnMnemonic.clz = 0
float_mask InsnMnemonic.ctz = 0
float_mask InsnMnemonic.cpop = 0
float_mask InsnMnemonic.rol = 0
float_mask InsnMnemonic.ror = 0
float_mask InsnMnemonic.rori = 0
float_mask InsnMnemonic.rev8 = 0
float_mask InsnMnemonic.orc_b = 0
float_mask InsnMnemonic.csrrw = 0
float_mask InsnMnemonic.csrrs = 0
float_mask InsnMnemonic.csrrc = 0
float_mask InsnMnemonic.csrrwi = 0
float_mask InsnMnemonic.csrrsi = 0
float_mask InsnMnemonic.csrrci = 0
float_mask InsnMnemonic.k_count = 0
float_mask InsnMnemonic.k_invalid = 0
