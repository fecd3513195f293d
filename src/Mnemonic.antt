-- ===== src/Mnemonic.antt =====
-- src/isa/include/isa/mnemonics.hpp and src/isa/source/mnemonics.cpp, with the names that
-- src/isa/include/isa/isa_ext.inc lists, in its order.
use Prim.Native.String.{String}

pub data InsnMnemonic : Type 0 where
  lui auipc jal jalr beq bne blt bge bltu bgeu lb lh lw lbu lhu sb sh sw addi slti sltiu :
      InsnMnemonic
  xori ori andi slli srli srai add sub sll slt sltu xor srl sra or and fence fence_i ecall :
      InsnMnemonic
  ebreak : InsnMnemonic
  mul mulh mulhsu mulhu div divu rem remu : InsnMnemonic
  andn orn xnor min minu max maxu sext_b sext_h zext_h clz ctz cpop rol ror rori rev8 : InsnMnemonic
  orc_b : InsnMnemonic
  csrrw csrrs csrrc csrrwi csrrsi csrrci : InsnMnemonic
  flw fsw fadd_s fsub_s fmul_s fdiv_s fsqrt_s fmadd_s fmsub_s fnmsub_s fnmadd_s fsgnj_s :
      InsnMnemonic
  fsgnjn_s fsgnjx_s fmin_s fmax_s fle_s flt_s feq_s fcvt_w_s fcvt_wu_s fcvt_s_w fcvt_s_wu :
      InsnMnemonic
  fmv_x_w fclass_s fmv_w_x : InsnMnemonic
  k_count k_invalid : InsnMnemonic

unfoldable pub mnemonic_to_str : InsnMnemonic → String
mnemonic_to_str InsnMnemonic.lui = "LUI"
mnemonic_to_str InsnMnemonic.auipc = "AUIPC"
mnemonic_to_str InsnMnemonic.jal = "JAL"
mnemonic_to_str InsnMnemonic.jalr = "JALR"
mnemonic_to_str InsnMnemonic.beq = "BEQ"
mnemonic_to_str InsnMnemonic.bne = "BNE"
mnemonic_to_str InsnMnemonic.blt = "BLT"
mnemonic_to_str InsnMnemonic.bge = "BGE"
mnemonic_to_str InsnMnemonic.bltu = "BLTU"
mnemonic_to_str InsnMnemonic.bgeu = "BGEU"
mnemonic_to_str InsnMnemonic.lb = "LB"
mnemonic_to_str InsnMnemonic.lh = "LH"
mnemonic_to_str InsnMnemonic.lw = "LW"
mnemonic_to_str InsnMnemonic.lbu = "LBU"
mnemonic_to_str InsnMnemonic.lhu = "LHU"
mnemonic_to_str InsnMnemonic.sb = "SB"
mnemonic_to_str InsnMnemonic.sh = "SH"
mnemonic_to_str InsnMnemonic.sw = "SW"
mnemonic_to_str InsnMnemonic.addi = "ADDI"
mnemonic_to_str InsnMnemonic.slti = "SLTI"
mnemonic_to_str InsnMnemonic.sltiu = "SLTIU"
mnemonic_to_str InsnMnemonic.xori = "XORI"
mnemonic_to_str InsnMnemonic.ori = "ORI"
mnemonic_to_str InsnMnemonic.andi = "ANDI"
mnemonic_to_str InsnMnemonic.slli = "SLLI"
mnemonic_to_str InsnMnemonic.srli = "SRLI"
mnemonic_to_str InsnMnemonic.srai = "SRAI"
mnemonic_to_str InsnMnemonic.add = "ADD"
mnemonic_to_str InsnMnemonic.sub = "SUB"
mnemonic_to_str InsnMnemonic.sll = "SLL"
mnemonic_to_str InsnMnemonic.slt = "SLT"
mnemonic_to_str InsnMnemonic.sltu = "SLTU"
mnemonic_to_str InsnMnemonic.xor = "XOR"
mnemonic_to_str InsnMnemonic.srl = "SRL"
mnemonic_to_str InsnMnemonic.sra = "SRA"
mnemonic_to_str InsnMnemonic.or = "OR"
mnemonic_to_str InsnMnemonic.and = "AND"
mnemonic_to_str InsnMnemonic.fence = "FENCE"
mnemonic_to_str InsnMnemonic.fence_i = "FENCE_I"
mnemonic_to_str InsnMnemonic.ecall = "ECALL"
mnemonic_to_str InsnMnemonic.ebreak = "EBREAK"
mnemonic_to_str InsnMnemonic.mul = "MUL"
mnemonic_to_str InsnMnemonic.mulh = "MULH"
mnemonic_to_str InsnMnemonic.mulhsu = "MULHSU"
mnemonic_to_str InsnMnemonic.mulhu = "MULHU"
mnemonic_to_str InsnMnemonic.div = "DIV"
mnemonic_to_str InsnMnemonic.divu = "DIVU"
mnemonic_to_str InsnMnemonic.rem = "REM"
mnemonic_to_str InsnMnemonic.remu = "REMU"
mnemonic_to_str InsnMnemonic.andn = "ANDN"
mnemonic_to_str InsnMnemonic.orn = "ORN"
mnemonic_to_str InsnMnemonic.xnor = "XNOR"
mnemonic_to_str InsnMnemonic.min = "MIN"
mnemonic_to_str InsnMnemonic.minu = "MINU"
mnemonic_to_str InsnMnemonic.max = "MAX"
mnemonic_to_str InsnMnemonic.maxu = "MAXU"
mnemonic_to_str InsnMnemonic.sext_b = "SEXT_B"
mnemonic_to_str InsnMnemonic.sext_h = "SEXT_H"
mnemonic_to_str InsnMnemonic.zext_h = "ZEXT_H"
mnemonic_to_str InsnMnemonic.clz = "CLZ"
mnemonic_to_str InsnMnemonic.ctz = "CTZ"
mnemonic_to_str InsnMnemonic.cpop = "CPOP"
mnemonic_to_str InsnMnemonic.rol = "ROL"
mnemonic_to_str InsnMnemonic.ror = "ROR"
mnemonic_to_str InsnMnemonic.rori = "RORI"
mnemonic_to_str InsnMnemonic.rev8 = "REV8"
mnemonic_to_str InsnMnemonic.orc_b = "ORC_B"
mnemonic_to_str InsnMnemonic.csrrw = "CSRRW"
mnemonic_to_str InsnMnemonic.csrrs = "CSRRS"
mnemonic_to_str InsnMnemonic.csrrc = "CSRRC"
mnemonic_to_str InsnMnemonic.csrrwi = "CSRRWI"
mnemonic_to_str InsnMnemonic.csrrsi = "CSRRSI"
mnemonic_to_str InsnMnemonic.csrrci = "CSRRCI"
mnemonic_to_str InsnMnemonic.flw = "FLW"
mnemonic_to_str InsnMnemonic.fsw = "FSW"
mnemonic_to_str InsnMnemonic.fadd_s = "FADD_S"
mnemonic_to_str InsnMnemonic.fsub_s = "FSUB_S"
mnemonic_to_str InsnMnemonic.fmul_s = "FMUL_S"
mnemonic_to_str InsnMnemonic.fdiv_s = "FDIV_S"
mnemonic_to_str InsnMnemonic.fsqrt_s = "FSQRT_S"
mnemonic_to_str InsnMnemonic.fmadd_s = "FMADD_S"
mnemonic_to_str InsnMnemonic.fmsub_s = "FMSUB_S"
mnemonic_to_str InsnMnemonic.fnmsub_s = "FNMSUB_S"
mnemonic_to_str InsnMnemonic.fnmadd_s = "FNMADD_S"
mnemonic_to_str InsnMnemonic.fsgnj_s = "FSGNJ_S"
mnemonic_to_str InsnMnemonic.fsgnjn_s = "FSGNJN_S"
mnemonic_to_str InsnMnemonic.fsgnjx_s = "FSGNJX_S"
mnemonic_to_str InsnMnemonic.fmin_s = "FMIN_S"
mnemonic_to_str InsnMnemonic.fmax_s = "FMAX_S"
mnemonic_to_str InsnMnemonic.fle_s = "FLE_S"
mnemonic_to_str InsnMnemonic.flt_s = "FLT_S"
mnemonic_to_str InsnMnemonic.feq_s = "FEQ_S"
mnemonic_to_str InsnMnemonic.fcvt_w_s = "FCVT_W_S"
mnemonic_to_str InsnMnemonic.fcvt_wu_s = "FCVT_WU_S"
mnemonic_to_str InsnMnemonic.fcvt_s_w = "FCVT_S_W"
mnemonic_to_str InsnMnemonic.fcvt_s_wu = "FCVT_S_WU"
mnemonic_to_str InsnMnemonic.fmv_x_w = "FMV_X_W"
mnemonic_to_str InsnMnemonic.fclass_s = "FCLASS_S"
mnemonic_to_str InsnMnemonic.fmv_w_x = "FMV_W_X"
mnemonic_to_str InsnMnemonic.k_count = "<unknown>"
mnemonic_to_str InsnMnemonic.k_invalid = "<unknown>"
