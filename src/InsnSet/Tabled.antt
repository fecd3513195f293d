-- ===== src/InsnSet/Tabled.antt =====
-- The fixed bits of the instructions stand in the decode table, with the mask of their format.
use riscv_sim.Prelude.{ℕ, zero, suc, ◌≡◌, refl, subst, arith, Bool, List, [], ◌∷◌, get_elem?, some}
use mathlib.Core.Option.{some-injective}
use riscv_sim.Outcome.{Outcome}
use riscv_sim.Mnemonic.{InsnMnemonic}
use riscv_sim.Decode.Table.{
  InsnEntry, entry, insn_decode_table, ext_i, ext_m, ext_zbb, ext_zicsr, ext_f,
}
use riscv_sim.Decode.Unique.{IsRow, here, there}
use riscv_sim.Host.{Host}
use riscv_sim.Memory.{Memory}
use riscv_sim.Machine.State.{Machine}
use riscv_sim.Execute.Register.{
  Computes, computes_add, computes_sub, computes_sll, computes_slt, computes_sltu, computes_xor,
  computes_srl, computes_sra, computes_or, computes_and, computes_mul, computes_mulh,
  computes_mulhsu, computes_mulhu, computes_div, computes_divu, computes_rem, computes_remu,
  computes_andn, computes_orn, computes_xnor, computes_min, computes_minu, computes_max,
  computes_maxu, computes_zext_h, computes_rol, computes_ror,
}
use riscv_sim.Execute.Immediate.{
  ActsI, acts_jalr, acts_lb, acts_lh, acts_lw, acts_lbu, acts_lhu, acts_addi, acts_slti, acts_sltiu,
  acts_xori, acts_ori, acts_andi,
}
use riscv_sim.Execute.Transfer.{
  Stores, stores_sb, stores_sh, stores_sw, Branches, branches_beq, branches_bne, branches_blt,
  branches_bge, branches_bltu, branches_bgeu,
}
use riscv_sim.Execute.Upper.{Uppers, uppers_lui, uppers_auipc}
use riscv_sim.Execute.Csr.{
  ActsCsr, acts_csrrw, acts_csrrs, acts_csrrc, acts_csrrwi, acts_csrrsi, acts_csrrci,
}
use riscv_sim.Execute.Unary.{
  Maps, maps_sext_b, maps_sext_h, maps_clz, maps_ctz, maps_cpop, maps_rev8, maps_orc_b, Shifts,
  shifts_slli, shifts_srli, shifts_srai, shifts_rori,
}
use riscv_sim.InsnSet.Opcodes.{fixed_bits, float_mask}
use riscv_sim.InsnSet.Float.{
  Floats, floats_flw, floats_fsw, floats_fadd, floats_fsub, floats_fmul, floats_fdiv, floats_fsqrt,
  floats_fmadd, floats_fmsub, floats_fnmsub, floats_fnmadd, floats_fsgnj, floats_fsgnjn,
  floats_fsgnjx, floats_fmin, floats_fmax, floats_fle, floats_flt, floats_feq, floats_fcvt_w,
  floats_fcvt_wu, floats_from_w, floats_from_wu, floats_fmv_x_w, floats_fclass, floats_fmv_w_x,
}
use riscv_sim.InsnSet.{Passes, passes_fence, passes_fence_i}

-- The entry at an index is a row.
IsRow-at : {e : InsnEntry} (es : List InsnEntry) (n : ℕ) → get_elem? es n ≡ some e → IsRow e es
IsRow-at [] n found = ground arith
IsRow-at (e' ∷ es) zero found = subst (λ e. IsRow e (e' ∷ es)) (some-injective e' _ found) here
IsRow-at (e' ∷ es) (suc n) found = there (IsRow-at es n found)

pub Computes-IsRow :
    {m : InsnMnemonic} {op : ℕ → ℕ → Outcome ℕ}
    → Computes m op
    → IsRow (entry m 0xfe00_707f (fixed_bits m)) insn_decode_table
unfolding insn_decode_table ext_i ext_m ext_zbb ext_zicsr ext_f
Computes-IsRow computes_add = IsRow-at _ 27 refl
Computes-IsRow computes_sub = IsRow-at _ 28 refl
Computes-IsRow computes_sll = IsRow-at _ 29 refl
Computes-IsRow computes_slt = IsRow-at _ 30 refl
Computes-IsRow computes_sltu = IsRow-at _ 31 refl
Computes-IsRow computes_xor = IsRow-at _ 32 refl
Computes-IsRow computes_srl = IsRow-at _ 33 refl
Computes-IsRow computes_sra = IsRow-at _ 34 refl
Computes-IsRow computes_or = IsRow-at _ 35 refl
Computes-IsRow computes_and = IsRow-at _ 36 refl
Computes-IsRow computes_mul = IsRow-at _ 41 refl
Computes-IsRow computes_mulh = IsRow-at _ 42 refl
Computes-IsRow computes_mulhsu = IsRow-at _ 43 refl
Computes-IsRow computes_mulhu = IsRow-at _ 44 refl
Computes-IsRow computes_div = IsRow-at _ 45 refl
Computes-IsRow computes_divu = IsRow-at _ 46 refl
Computes-IsRow computes_rem = IsRow-at _ 47 refl
Computes-IsRow computes_remu = IsRow-at _ 48 refl
Computes-IsRow computes_andn = IsRow-at _ 49 refl
Computes-IsRow computes_orn = IsRow-at _ 50 refl
Computes-IsRow computes_xnor = IsRow-at _ 51 refl
Computes-IsRow computes_min = IsRow-at _ 52 refl
Computes-IsRow computes_minu = IsRow-at _ 53 refl
Computes-IsRow computes_max = IsRow-at _ 54 refl
Computes-IsRow computes_maxu = IsRow-at _ 55 refl
Computes-IsRow computes_zext_h = IsRow-at _ 58 refl
Computes-IsRow computes_rol = IsRow-at _ 62 refl
Computes-IsRow computes_ror = IsRow-at _ 63 refl

pub ActsI-IsRow :
    {h : Host} {m : InsnMnemonic} {act : Machine → ℕ → ℕ → ℕ → Outcome (Unit {0} × Machine)}
    → ActsI h m act
    → IsRow (entry m 0x707f (fixed_bits m)) insn_decode_table
unfolding insn_decode_table ext_i ext_m ext_zbb ext_zicsr ext_f
ActsI-IsRow acts_jalr = IsRow-at _ 3 refl
ActsI-IsRow acts_lb = IsRow-at _ 10 refl
ActsI-IsRow acts_lh = IsRow-at _ 11 refl
ActsI-IsRow acts_lw = IsRow-at _ 12 refl
ActsI-IsRow acts_lbu = IsRow-at _ 13 refl
ActsI-IsRow acts_lhu = IsRow-at _ 14 refl
ActsI-IsRow acts_addi = IsRow-at _ 18 refl
ActsI-IsRow acts_slti = IsRow-at _ 19 refl
ActsI-IsRow acts_sltiu = IsRow-at _ 20 refl
ActsI-IsRow acts_xori = IsRow-at _ 21 refl
ActsI-IsRow acts_ori = IsRow-at _ 22 refl
ActsI-IsRow acts_andi = IsRow-at _ 23 refl

pub Stores-IsRow :
    {m : InsnMnemonic} {put : Bool → Memory → ℕ → ℕ → Outcome Memory}
    → Stores m put
    → IsRow (entry m 0x707f (fixed_bits m)) insn_decode_table
unfolding insn_decode_table ext_i ext_m ext_zbb ext_zicsr ext_f
Stores-IsRow stores_sb = IsRow-at _ 15 refl
Stores-IsRow stores_sh = IsRow-at _ 16 refl
Stores-IsRow stores_sw = IsRow-at _ 17 refl

pub Branches-IsRow :
    {m : InsnMnemonic} {pred : ℕ → ℕ → Bool}
    → Branches m pred
    → IsRow (entry m 0x707f (fixed_bits m)) insn_decode_table
unfolding insn_decode_table ext_i ext_m ext_zbb ext_zicsr ext_f
Branches-IsRow branches_beq = IsRow-at _ 4 refl
Branches-IsRow branches_bne = IsRow-at _ 5 refl
Branches-IsRow branches_blt = IsRow-at _ 6 refl
Branches-IsRow branches_bge = IsRow-at _ 7 refl
Branches-IsRow branches_bltu = IsRow-at _ 8 refl
Branches-IsRow branches_bgeu = IsRow-at _ 9 refl

pub Uppers-IsRow :
    {m : InsnMnemonic} {value : ℕ → ℕ → ℕ}
    → Uppers m value
    → IsRow (entry m 0x7f (fixed_bits m)) insn_decode_table
unfolding insn_decode_table ext_i ext_m ext_zbb ext_zicsr ext_f
Uppers-IsRow uppers_lui = IsRow-at _ 0 refl
Uppers-IsRow uppers_auipc = IsRow-at _ 1 refl

pub Maps-IsRow :
    {m : InsnMnemonic} {op : ℕ → ℕ}
    → Maps m op
    → IsRow (entry m 0xfff0_707f (fixed_bits m)) insn_decode_table
unfolding insn_decode_table ext_i ext_m ext_zbb ext_zicsr ext_f
Maps-IsRow maps_sext_b = IsRow-at _ 56 refl
Maps-IsRow maps_sext_h = IsRow-at _ 57 refl
Maps-IsRow maps_clz = IsRow-at _ 59 refl
Maps-IsRow maps_ctz = IsRow-at _ 60 refl
Maps-IsRow maps_cpop = IsRow-at _ 61 refl
Maps-IsRow maps_rev8 = IsRow-at _ 65 refl
Maps-IsRow maps_orc_b = IsRow-at _ 66 refl

pub Shifts-IsRow :
    {m : InsnMnemonic} {op : ℕ → ℕ → Outcome ℕ}
    → Shifts m op
    → IsRow (entry m 0xfe00_707f (fixed_bits m)) insn_decode_table
unfolding insn_decode_table ext_i ext_m ext_zbb ext_zicsr ext_f
Shifts-IsRow shifts_slli = IsRow-at _ 24 refl
Shifts-IsRow shifts_srli = IsRow-at _ 25 refl
Shifts-IsRow shifts_srai = IsRow-at _ 26 refl
Shifts-IsRow shifts_rori = IsRow-at _ 64 refl

pub ActsCsr-IsRow :
    {m : InsnMnemonic} {operand : Machine → ℕ → ℕ} {update : ℕ → ℕ → ℕ}
    → ActsCsr m operand update
    → IsRow (entry m 0x707f (fixed_bits m)) insn_decode_table
unfolding insn_decode_table ext_i ext_m ext_zbb ext_zicsr ext_f
ActsCsr-IsRow acts_csrrw = IsRow-at _ 67 refl
ActsCsr-IsRow acts_csrrs = IsRow-at _ 68 refl
ActsCsr-IsRow acts_csrrc = IsRow-at _ 69 refl
ActsCsr-IsRow acts_csrrwi = IsRow-at _ 70 refl
ActsCsr-IsRow acts_csrrsi = IsRow-at _ 71 refl
ActsCsr-IsRow acts_csrrci = IsRow-at _ 72 refl

pub Passes-IsRow :
    {m : InsnMnemonic} → Passes m → IsRow (entry m 0x707f (fixed_bits m)) insn_decode_table
unfolding insn_decode_table ext_i ext_m ext_zbb ext_zicsr ext_f
Passes-IsRow passes_fence = IsRow-at _ 37 refl
Passes-IsRow passes_fence_i = IsRow-at _ 38 refl

pub jal-IsRow : IsRow (entry InsnMnemonic.jal 0x7f (fixed_bits InsnMnemonic.jal)) insn_decode_table
unfolding insn_decode_table ext_i ext_m ext_zbb ext_zicsr ext_f
jal-IsRow = IsRow-at _ 2 refl

pub Floats-IsRow :
    {h : Host} {m : InsnMnemonic} {act : ℕ → Machine → Outcome (Unit {0} × Machine)}
    → Floats h m act
    → IsRow (entry m (float_mask m) (fixed_bits m)) ext_f
unfolding ext_f
Floats-IsRow floats_flw = IsRow-at _ 0 refl
Floats-IsRow floats_fsw = IsRow-at _ 1 refl
Floats-IsRow floats_fadd = IsRow-at _ 2 refl
Floats-IsRow floats_fsub = IsRow-at _ 3 refl
Floats-IsRow floats_fmul = IsRow-at _ 4 refl
Floats-IsRow floats_fdiv = IsRow-at _ 5 refl
Floats-IsRow floats_fsqrt = IsRow-at _ 6 refl
Floats-IsRow floats_fmadd = IsRow-at _ 7 refl
Floats-IsRow floats_fmsub = IsRow-at _ 8 refl
Floats-IsRow floats_fnmsub = IsRow-at _ 9 refl
Floats-IsRow floats_fnmadd = IsRow-at _ 10 refl
Floats-IsRow floats_fsgnj = IsRow-at _ 11 refl
Floats-IsRow floats_fsgnjn = IsRow-at _ 12 refl
Floats-IsRow floats_fsgnjx = IsRow-at _ 13 refl
Floats-IsRow floats_fmin = IsRow-at _ 14 refl
Floats-IsRow floats_fmax = IsRow-at _ 15 refl
Floats-IsRow floats_fle = IsRow-at _ 16 refl
Floats-IsRow floats_flt = IsRow-at _ 17 refl
Floats-IsRow floats_feq = IsRow-at _ 18 refl
Floats-IsRow floats_fcvt_w = IsRow-at _ 19 refl
Floats-IsRow floats_fcvt_wu = IsRow-at _ 20 refl
Floats-IsRow floats_from_w = IsRow-at _ 21 refl
Floats-IsRow floats_from_wu = IsRow-at _ 22 refl
Floats-IsRow floats_fmv_x_w = IsRow-at _ 23 refl
Floats-IsRow floats_fclass = IsRow-at _ 24 refl
Floats-IsRow floats_fmv_w_x = IsRow-at _ 25 refl
