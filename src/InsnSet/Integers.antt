-- ===== src/InsnSet/Integers.antt =====
-- The rows of the integer extensions, each with its instruction, and what that says of the decoder.
use riscv_sim.Prelude.{
  ℕ, ◌+◌, ◌*◌, ◌/◌, ◌%◌, ◌^◌, ◌<◌, ◌≡◌, sym, subst, arith, ◌⊎◌, inl, inr, Bool-cases, ◌==◌, ==_iff,
}
use riscv_sim.Mnemonic.{InsnMnemonic}
use riscv_sim.Decode.{decode}
use riscv_sim.Decode.Table.{
  InsnEntry, entry, insn_decode_table, ext_i, ext_m, ext_zbb, ext_zicsr, ext_f,
}
use riscv_sim.Decode.Unique.{IsRow, Matches, decode_inv}
use riscv_sim.Host.{Host}
use riscv_sim.Machine.{csr_fflags, csr_frm, csr_fcsr}
use riscv_sim.Machine.Csr.{IsCsr, fflags_field, frm_field, whole_fcsr}
use riscv_sim.Machine.State.{Machine}
use riscv_sim.Execute.Register.{
  computes_add, computes_sub, computes_sll, computes_srl, computes_sra, computes_slt, computes_sltu,
  computes_xor, computes_or, computes_and, computes_mul, computes_mulh, computes_mulhsu,
  computes_mulhu, computes_div, computes_divu, computes_rem, computes_remu, computes_andn,
  computes_orn, computes_xnor, computes_min, computes_max, computes_minu, computes_maxu,
  computes_rol, computes_ror, computes_zext_h,
}
use riscv_sim.Execute.Immediate.{
  acts_addi, acts_slti, acts_sltiu, acts_xori, acts_ori, acts_andi, acts_lb, acts_lh, acts_lw,
  acts_lbu, acts_lhu, acts_jalr,
}
use riscv_sim.Execute.Transfer.{
  stores_sb, stores_sh, stores_sw, branches_beq, branches_bne, branches_blt, branches_bge,
  branches_bltu, branches_bgeu,
}
use riscv_sim.Execute.Upper.{uppers_lui, uppers_auipc}
use riscv_sim.Execute.Csr.{
  ActsCsr, IsUnknown, acts_csrrw, acts_csrrs, acts_csrrc, acts_csrrwi, acts_csrrsi, acts_csrrci,
}
use riscv_sim.Execute.Unary.{
  maps_sext_b, maps_sext_h, maps_clz, maps_ctz, maps_cpop, maps_rev8, maps_orc_b, shifts_slli,
  shifts_srli, shifts_srai, shifts_rori,
}
use riscv_sim.InsnSet.{passes_fence, passes_fence_i, control, unknown_control}
use riscv_sim.InsnSet.Opcodes.{fixed_bits}
use riscv_sim.InsnSet.Rows.{AllRows, no_rows, ◌&◌, AllRows-IsRow, IsRow-++}
use riscv_sim.InsnSet.Words.{word_funct3}
use riscv_sim.InsnSet.Complete.{
  Covered, InSet, as_word, Matches-InSet, covered_register, covered_immediate, covered_storing,
  covered_branch, covered_upper, covered_jump, covered_unary, covered_shift, covered_fence,
  covered_ecall, covered_ebreak,
}

module _ (h : Host) where
  ext_i-Covered : AllRows (Covered h) ext_i
  unfolding ext_i
  ext_i-Covered =
      covered_upper uppers_lui
      & covered_upper uppers_auipc
      & covered_jump
      & covered_immediate acts_jalr
      & covered_branch branches_beq
      & covered_branch branches_bne
      & covered_branch branches_blt
      & covered_branch branches_bge
      & covered_branch branches_bltu
      & covered_branch branches_bgeu
      & covered_immediate acts_lb
      & covered_immediate acts_lh
      & covered_immediate acts_lw
      & covered_immediate acts_lbu
      & covered_immediate acts_lhu
      & covered_storing stores_sb
      & covered_storing stores_sh
      & covered_storing stores_sw
      & covered_immediate acts_addi
      & covered_immediate acts_slti
      & covered_immediate acts_sltiu
      & covered_immediate acts_xori
      & covered_immediate acts_ori
      & covered_immediate acts_andi
      & covered_shift shifts_slli
      & covered_shift shifts_srli
      & covered_shift shifts_srai
      & covered_register computes_add
      & covered_register computes_sub
      & covered_register computes_sll
      & covered_register computes_slt
      & covered_register computes_sltu
      & covered_register computes_xor
      & covered_register computes_srl
      & covered_register computes_sra
      & covered_register computes_or
      & covered_register computes_and
      & covered_fence passes_fence
      & covered_fence passes_fence_i
      & covered_ecall
      & covered_ebreak
      & no_rows

  ext_m-Covered : AllRows (Covered h) ext_m
  unfolding ext_m
  ext_m-Covered =
      covered_register computes_mul
      & covered_register computes_mulh
      & covered_register computes_mulhsu
      & covered_register computes_mulhu
      & covered_register computes_div
      & covered_register computes_divu
      & covered_register computes_rem
      & covered_register computes_remu
      & no_rows

  ext_zbb-Covered : AllRows (Covered h) ext_zbb
  unfolding ext_zbb
  ext_zbb-Covered =
      covered_register computes_andn
      & covered_register computes_orn
      & covered_register computes_xnor
      & covered_register computes_min
      & covered_register computes_minu
      & covered_register computes_max
      & covered_register computes_maxu
      & covered_unary maps_sext_b
      & covered_unary maps_sext_h
      & covered_register computes_zext_h
      & covered_unary maps_clz
      & covered_unary maps_ctz
      & covered_unary maps_cpop
      & covered_register computes_rol
      & covered_register computes_ror
      & covered_shift shifts_rori
      & covered_unary maps_rev8
      & covered_unary maps_orc_b
      & no_rows

  -- A row of Zicsr.
  data CoveredCsr : InsnEntry → Type 0 where
    covered_control :
        {m : InsnMnemonic} {operand : Machine → ℕ → ℕ} {update : ℕ → ℕ → ℕ}
        → ActsCsr m operand update
        → CoveredCsr (entry m 0x707f (fixed_bits m))

  ext_zicsr-CoveredCsr : AllRows CoveredCsr ext_zicsr
  unfolding ext_zicsr
  ext_zicsr-CoveredCsr =
      covered_control acts_csrrw
      & covered_control acts_csrrs
      & covered_control acts_csrrc
      & covered_control acts_csrrwi
      & covered_control acts_csrrsi
      & covered_control acts_csrrci
      & no_rows

  IsCsr-cases : (n : ℕ) → ((low : ℕ) × (width : ℕ) × IsCsr n low width) ⊎ IsUnknown n
  IsCsr-cases n = elim (Bool-cases (n == csr_fflags)) [
    | inl same ↦ inl (0, 5, subst (λ i. IsCsr i 0 5) (sym ((==_iff _ _).0 same)) fflags_field)
    | inr not_fflags ↦ elim (Bool-cases (n == csr_frm)) [
      | inl same ↦ inl (5, 3, subst (λ i. IsCsr i 5 3) (sym ((==_iff _ _).0 same)) frm_field)
      | inr not_frm ↦ elim (Bool-cases (n == csr_fcsr)) [
        | inl same ↦ inl (0, 8, subst (λ i. IsCsr i 0 8) (sym ((==_iff _ _).0 same)) whole_fcsr)
        | inr not_fcsr ↦ inr (ground arith, ground arith, ground arith)
      ]
    ]
  ]

  csr-InSet : (raw : ℕ) (e : InsnEntry) → CoveredCsr e → raw < 2 ^ 32 → Matches raw e → InSet h raw
  csr-InSet raw _ (covered_control {m = m} acts) lt hit =
      let index = raw / 2 ^ 20 in
      let h1 : raw / 2 ^ 15 % 32 < 32 = omega arith in
      let hd : raw / 2 ^ 7 % 32 < 32 = omega arith in
      let same : raw
          ≡ fixed_bits m + index * 2 ^ 20 + raw / 2 ^ 15 % 32 * 2 ^ 15 + raw / 2 ^ 7 % 32 * 2 ^ 7 =
        omega (arith, word_funct3 raw (fixed_bits m) lt hit) in
      elim (IsCsr-cases index) [
        | inl (low, width, is) ↦ as_word h same (control acts is h1 hd)
        | inr unknown ↦ as_word h same (unknown_control acts unknown (omega arith) h1 hd)
      ]

  pub decode-InSet :
      (raw : ℕ)
      → raw < 2 ^ 32
      → (decode raw ≡ InsnMnemonic.k_invalid)
        ⊎ ((e : InsnEntry) × IsRow e ext_f × Matches raw e)
        ⊎ InSet h raw
  unfolding insn_decode_table
  decode-InSet raw lt = elim (decode_inv raw) [
    | inl refused ↦ inl refused
    | inr (e, row, hit, _) ↦ elim (IsRow-++ ext_i _ row) [
      | inl in_i ↦ inr (inr (Matches-InSet h raw e (AllRows-IsRow ext_i-Covered in_i) lt hit))
      | inr rest ↦ elim (IsRow-++ ext_m _ rest) [
        | inl in_m ↦ inr (inr (Matches-InSet h raw e (AllRows-IsRow ext_m-Covered in_m) lt hit))
        | inr rest ↦ elim (IsRow-++ ext_zbb _ rest) [
          | inl in_zbb ↦
              inr (inr (Matches-InSet h raw e (AllRows-IsRow ext_zbb-Covered in_zbb) lt hit))
          | inr rest ↦ elim (IsRow-++ ext_zicsr ext_f rest) [
            | inl in_zicsr ↦
                inr (inr (csr-InSet raw e (AllRows-IsRow ext_zicsr-CoveredCsr in_zicsr) lt hit))
            | inr in_f ↦ inr (inl (e, in_f, hit))
          ]
        ]
      ]
    ]
  ]
