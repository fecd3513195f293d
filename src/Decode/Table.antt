-- ===== src/Decode/Table.antt =====
-- The rows of src/isa/include/isa/ext_*.inc: mnemonic, mask, match.
use riscv_sim.Prelude.{ℕ, List, [], ◌∷◌, ◌++◌}
use riscv_sim.Mnemonic.{InsnMnemonic}

pub record InsnEntry : Type 0 where
  pub mnem : InsnMnemonic
  pub mask : ℕ
  pub match : ℕ

abbrev pub entry : InsnMnemonic → ℕ → ℕ → InsnEntry
entry mnem mask match = record { mnem = mnem; mask = mask; match = match }

unfoldable pub ext_i : List InsnEntry
ext_i =
    entry InsnMnemonic.lui 0x0000_007f 0x0000_0037
    ∷ entry InsnMnemonic.auipc 0x0000_007f 0x0000_0017
    ∷ entry InsnMnemonic.jal 0x0000_007f 0x0000_006f
    ∷ entry InsnMnemonic.jalr 0x0000_707f 0x0000_0067
    ∷ entry InsnMnemonic.beq 0x0000_707f 0x0000_0063
    ∷ entry InsnMnemonic.bne 0x0000_707f 0x0000_1063
    ∷ entry InsnMnemonic.blt 0x0000_707f 0x0000_4063
    ∷ entry InsnMnemonic.bge 0x0000_707f 0x0000_5063
    ∷ entry InsnMnemonic.bltu 0x0000_707f 0x0000_6063
    ∷ entry InsnMnemonic.bgeu 0x0000_707f 0x0000_7063
    ∷ entry InsnMnemonic.lb 0x0000_707f 0x0000_0003
    ∷ entry InsnMnemonic.lh 0x0000_707f 0x0000_1003
    ∷ entry InsnMnemonic.lw 0x0000_707f 0x0000_2003
    ∷ entry InsnMnemonic.lbu 0x0000_707f 0x0000_4003
    ∷ entry InsnMnemonic.lhu 0x0000_707f 0x0000_5003
    ∷ entry InsnMnemonic.sb 0x0000_707f 0x0000_0023
    ∷ entry InsnMnemonic.sh 0x0000_707f 0x0000_1023
    ∷ entry InsnMnemonic.sw 0x0000_707f 0x0000_2023
    ∷ entry InsnMnemonic.addi 0x0000_707f 0x0000_0013
    ∷ entry InsnMnemonic.slti 0x0000_707f 0x0000_2013
    ∷ entry InsnMnemonic.sltiu 0x0000_707f 0x0000_3013
    ∷ entry InsnMnemonic.xori 0x0000_707f 0x0000_4013
    ∷ entry InsnMnemonic.ori 0x0000_707f 0x0000_6013
    ∷ entry InsnMnemonic.andi 0x0000_707f 0x0000_7013
    ∷ entry InsnMnemonic.slli 0xfe00_707f 0x0000_1013
    ∷ entry InsnMnemonic.srli 0xfe00_707f 0x0000_5013
    ∷ entry InsnMnemonic.srai 0xfe00_707f 0x4000_5013
    ∷ entry InsnMnemonic.add 0xfe00_707f 0x0000_0033
    ∷ entry InsnMnemonic.sub 0xfe00_707f 0x4000_0033
    ∷ entry InsnMnemonic.sll 0xfe00_707f 0x0000_1033
    ∷ entry InsnMnemonic.slt 0xfe00_707f 0x0000_2033
    ∷ entry InsnMnemonic.sltu 0xfe00_707f 0x0000_3033
    ∷ entry InsnMnemonic.xor 0xfe00_707f 0x0000_4033
    ∷ entry InsnMnemonic.srl 0xfe00_707f 0x0000_5033
    ∷ entry InsnMnemonic.sra 0xfe00_707f 0x4000_5033
    ∷ entry InsnMnemonic.or 0xfe00_707f 0x0000_6033
    ∷ entry InsnMnemonic.and 0xfe00_707f 0x0000_7033
    ∷ entry InsnMnemonic.fence 0x0000_707f 0x0000_000f
    ∷ entry InsnMnemonic.fence_i 0x0000_707f 0x0000_100f
    ∷ entry InsnMnemonic.ecall 0xffff_ffff 0x0000_0073
    ∷ entry InsnMnemonic.ebreak 0xffff_ffff 0x0010_0073
    ∷ []

unfoldable pub ext_m : List InsnEntry
ext_m =
    entry InsnMnemonic.mul 0xfe00_707f 0x0200_0033
    ∷ entry InsnMnemonic.mulh 0xfe00_707f 0x0200_1033
    ∷ entry InsnMnemonic.mulhsu 0xfe00_707f 0x0200_2033
    ∷ entry InsnMnemonic.mulhu 0xfe00_707f 0x0200_3033
    ∷ entry InsnMnemonic.div 0xfe00_707f 0x0200_4033
    ∷ entry InsnMnemonic.divu 0xfe00_707f 0x0200_5033
    ∷ entry InsnMnemonic.rem 0xfe00_707f 0x0200_6033
    ∷ entry InsnMnemonic.remu 0xfe00_707f 0x0200_7033
    ∷ []

unfoldable pub ext_zbb : List InsnEntry
ext_zbb =
    entry InsnMnemonic.andn 0xfe00_707f 0x4000_7033
    ∷ entry InsnMnemonic.orn 0xfe00_707f 0x4000_6033
    ∷ entry InsnMnemonic.xnor 0xfe00_707f 0x4000_4033
    ∷ entry InsnMnemonic.min 0xfe00_707f 0x0a00_4033
    ∷ entry InsnMnemonic.minu 0xfe00_707f 0x0a00_5033
    ∷ entry InsnMnemonic.max 0xfe00_707f 0x0a00_6033
    ∷ entry InsnMnemonic.maxu 0xfe00_707f 0x0a00_7033
    ∷ entry InsnMnemonic.sext_b 0xfff0_707f 0x6040_1013
    ∷ entry InsnMnemonic.sext_h 0xfff0_707f 0x6050_1013
    ∷ entry InsnMnemonic.zext_h 0xfe00_707f 0x0800_4033
    ∷ entry InsnMnemonic.clz 0xfff0_707f 0x6000_1013
    ∷ entry InsnMnemonic.ctz 0xfff0_707f 0x6010_1013
    ∷ entry InsnMnemonic.cpop 0xfff0_707f 0x6020_1013
    ∷ entry InsnMnemonic.rol 0xfe00_707f 0x6000_1033
    ∷ entry InsnMnemonic.ror 0xfe00_707f 0x6000_5033
    ∷ entry InsnMnemonic.rori 0xfe00_707f 0x6000_5013
    ∷ entry InsnMnemonic.rev8 0xfff0_707f 0x6980_5013
    ∷ entry InsnMnemonic.orc_b 0xfff0_707f 0x2870_5013
    ∷ []

unfoldable pub ext_zicsr : List InsnEntry
ext_zicsr =
    entry InsnMnemonic.csrrw 0x0000_707f 0x0000_1073
    ∷ entry InsnMnemonic.csrrs 0x0000_707f 0x0000_2073
    ∷ entry InsnMnemonic.csrrc 0x0000_707f 0x0000_3073
    ∷ entry InsnMnemonic.csrrwi 0x0000_707f 0x0000_5073
    ∷ entry InsnMnemonic.csrrsi 0x0000_707f 0x0000_6073
    ∷ entry InsnMnemonic.csrrci 0x0000_707f 0x0000_7073
    ∷ []

unfoldable pub ext_f : List InsnEntry
ext_f =
    entry InsnMnemonic.flw 0x0000_707f 0x0000_2007
    ∷ entry InsnMnemonic.fsw 0x0000_707f 0x0000_2027
    ∷ entry InsnMnemonic.fadd_s 0xfe00_007f 0x0000_0053
    ∷ entry InsnMnemonic.fsub_s 0xfe00_007f 0x0800_0053
    ∷ entry InsnMnemonic.fmul_s 0xfe00_007f 0x1000_0053
    ∷ entry InsnMnemonic.fdiv_s 0xfe00_007f 0x1800_0053
    ∷ entry InsnMnemonic.fsqrt_s 0xfff0_007f 0x5800_0053
    ∷ entry InsnMnemonic.fmadd_s 0x0600_007f 0x0000_0043
    ∷ entry InsnMnemonic.fmsub_s 0x0600_007f 0x0000_0047
    ∷ entry InsnMnemonic.fnmsub_s 0x0600_007f 0x0000_004b
    ∷ entry InsnMnemonic.fnmadd_s 0x0600_007f 0x0000_004f
    ∷ entry InsnMnemonic.fsgnj_s 0xfe00_707f 0x2000_0053
    ∷ entry InsnMnemonic.fsgnjn_s 0xfe00_707f 0x2000_1053
    ∷ entry InsnMnemonic.fsgnjx_s 0xfe00_707f 0x2000_2053
    ∷ entry InsnMnemonic.fmin_s 0xfe00_707f 0x2800_0053
    ∷ entry InsnMnemonic.fmax_s 0xfe00_707f 0x2800_1053
    ∷ entry InsnMnemonic.fle_s 0xfe00_707f 0xa000_0053
    ∷ entry InsnMnemonic.flt_s 0xfe00_707f 0xa000_1053
    ∷ entry InsnMnemonic.feq_s 0xfe00_707f 0xa000_2053
    ∷ entry InsnMnemonic.fcvt_w_s 0xfff0_007f 0xc000_0053
    ∷ entry InsnMnemonic.fcvt_wu_s 0xfff0_007f 0xc010_0053
    ∷ entry InsnMnemonic.fcvt_s_w 0xfff0_007f 0xd000_0053
    ∷ entry InsnMnemonic.fcvt_s_wu 0xfff0_007f 0xd010_0053
    ∷ entry InsnMnemonic.fmv_x_w 0xfff0_707f 0xe000_0053
    ∷ entry InsnMnemonic.fclass_s 0xfff0_707f 0xe000_1053
    ∷ entry InsnMnemonic.fmv_w_x 0xfff0_707f 0xf000_0053
    ∷ []

-- isa_ext.inc includes the five lists in this order.
unfoldable pub insn_decode_table : List InsnEntry
unfolding ext_i ext_m ext_zbb ext_zicsr ext_f
insn_decode_table = ext_i ++ (ext_m ++ (ext_zbb ++ (ext_zicsr ++ ext_f)))
