-- ===== src/Execute/Immediate.antt =====
-- The I-format instructions from their encoding to their effect.
use riscv_sim.Prelude.{
  ℕ, ◌+◌, ◌*◌, ◌/◌, ◌%◌, ◌^◌, ◌<◌, ◌≡◌, refl, ap, sym, ◌∙◌, arith, if◌then◌else◌, ltb, ltb_ℤ,
  bit_and, bit_or, bit_xor,
}
use riscv_sim.Bits.{bit_and_high_mask}
use riscv_sim.Outcome.{Outcome, ok, fault}
use riscv_sim.Word.{reg_to_ireg, add32, bit_not}
use riscv_sim.Word.Digits.{extended, sign_ext_8-extended, sign_ext_16-extended}
use riscv_sim.Insn.{rd, rs1, imm_i}
use riscv_sim.Insn.RoundTrip.{encode_i, Fits, imm_i-encode_i}
use riscv_sim.Mnemonic.{InsnMnemonic}
use riscv_sim.Decode.{decode}
use riscv_sim.Decode.Table.{InsnEntry, insn_decode_table}
use riscv_sim.Decode.Unique.{IsRow}
use riscv_sim.Decode.Encoded.{decode-encoded_funct3, match-funct3}
use riscv_sim.Host.{Host}
use riscv_sim.Memory.{fetch, load_u32, load_u16, load_u8}
use riscv_sim.Machine.State.{Machine, ◌>>=◌}
use riscv_sim.Machine.{step, get_ip, set_ip}
use riscv_sim.Machine.Registers.{
  HasRegisters, x_reg, write_reg, advance, get_xreg_lem, set_xreg_lem,
}
use riscv_sim.Isa.Effects.{retire, rd-lt, rs1-lt, execute_rri_bin_op_lem}
use riscv_sim.Isa.Arith.{
  callback_addi, callback_slti, callback_sltiu, callback_xori, callback_ori, callback_andi,
}
use riscv_sim.Isa.Control.{callback_jalr}
use riscv_sim.Isa.LoadStore.Effects.{after_load, loads_lem}
use riscv_sim.Execute.{instr_callback, execute_insn}
use riscv_sim.Execute.Decoded.{execute_insn-IsRow}

-- What an I-format instruction makes of a machine, the value of rs1, the immediate and rd.
pub data ActsI (h : Host)
    : InsnMnemonic → (Machine → ℕ → ℕ → ℕ → Outcome (Unit {0} × Machine)) → Type 0 where
  acts_addi : ActsI h InsnMnemonic.addi (λ s a imm d. retire s d (ok ((a + imm) % 2 ^ 32)))
  acts_slti :
      ActsI h InsnMnemonic.slti
        (λ s a imm d. retire s d (ok (if ltb_ℤ (reg_to_ireg a) (reg_to_ireg imm) then 1 else 0)))
  acts_sltiu :
      ActsI h InsnMnemonic.sltiu (λ s a imm d. retire s d (ok (if ltb a imm then 1 else 0)))
  acts_xori : ActsI h InsnMnemonic.xori (λ s a imm d. retire s d (ok (bit_xor a imm)))
  acts_ori : ActsI h InsnMnemonic.ori (λ s a imm d. retire s d (ok (bit_or a imm)))
  acts_andi : ActsI h InsnMnemonic.andi (λ s a imm d. retire s d (ok (bit_and a imm)))
  acts_lb :
      ActsI h InsnMnemonic.lb
        (λ s a imm d. after_load s d (extended 8) (load_u8 h.asserts s.memory ((a + imm) % 2 ^ 32)))
  acts_lh :
      ActsI h InsnMnemonic.lh (λ s a imm d.
        after_load s d (extended 16) (load_u16 h.asserts s.memory ((a + imm) % 2 ^ 32)))
  acts_lw :
      ActsI h InsnMnemonic.lw
        (λ s a imm d. after_load s d (λ v. v) (load_u32 h.asserts s.memory ((a + imm) % 2 ^ 32)))
  acts_lbu :
      ActsI h InsnMnemonic.lbu
        (λ s a imm d. after_load s d (λ v. v) (load_u8 h.asserts s.memory ((a + imm) % 2 ^ 32)))
  acts_lhu :
      ActsI h InsnMnemonic.lhu
        (λ s a imm d. after_load s d (λ v. v) (load_u16 h.asserts s.memory ((a + imm) % 2 ^ 32)))
  -- The jump clears the lowest bit of its target; rd receives the address of the next instruction.
  acts_jalr : ActsI h InsnMnemonic.jalr (λ s a imm d.
      ok (tt, write_reg (record s { ip = (a + imm) % 2 ^ 32 / 2 * 2 }) d ((s.ip + 4) % 2 ^ 32)))

module _ (h : Host) (s : Machine) (r : HasRegisters s) where
  even_target : (v : ℕ) → v < 2 ^ 32 → bit_and v (bit_not 1) ≡ v / 2 * 2
  even_target v lt = ground (arith, bit_and_high_mask 31 1 (v / 2) (v % 2))

  widened_load :
      {widen widen' : ℕ → ℕ} (d : ℕ) (o : Outcome ℕ)
      → ((v : ℕ) → widen v ≡ widen' v)
      → after_load s d widen o ≡ after_load s d widen' o
  widened_load d (ok v) same = ap (λ w. ok (tt, advance (write_reg s d w))) (same v)
  widened_load d (fault e) same = refl

  instr_callback-ActsI :
      {m : InsnMnemonic} {act : Machine → ℕ → ℕ → ℕ → Outcome (Unit {0} × Machine)} (raw : ℕ)
      → ActsI h m act
      → instr_callback h m raw s ≡ act s (x_reg s (rs1 raw)) (imm_i raw) (rd raw)
  unfolding instr_callback callback_addi callback_slti callback_sltiu callback_xori callback_ori
      callback_andi callback_jalr get_ip set_ip step advance
  instr_callback-ActsI raw acts_addi = execute_rri_bin_op_lem h s raw r _
  instr_callback-ActsI raw acts_xori = execute_rri_bin_op_lem h s raw r _
  instr_callback-ActsI raw acts_ori = execute_rri_bin_op_lem h s raw r _
  instr_callback-ActsI raw acts_andi = execute_rri_bin_op_lem h s raw r _
  instr_callback-ActsI raw acts_slti =
      rw
        (
          get_xreg_lem h s r (rs1 raw) (rs1-lt raw),
          ◌>>=◌,
          set_xreg_lem h s r (rd raw) (rd-lt raw),
          ◌>>=◌,
        )
        refl
  instr_callback-ActsI raw acts_sltiu =
      rw
        (
          get_xreg_lem h s r (rs1 raw) (rs1-lt raw),
          ◌>>=◌,
          set_xreg_lem h s r (rd raw) (rd-lt raw),
          ◌>>=◌,
        )
        refl
  instr_callback-ActsI raw acts_lb =
      (loads_lem h s r raw).0 ∙ widened_load (rd raw) (load_u8 _ _ _) sign_ext_8-extended
  instr_callback-ActsI raw acts_lh =
      (loads_lem h s r raw).1 ∙ widened_load (rd raw) (load_u16 _ _ _) sign_ext_16-extended
  instr_callback-ActsI raw acts_lw = (loads_lem h s r raw).2
  instr_callback-ActsI raw acts_lbu = (loads_lem h s r raw).3
  instr_callback-ActsI raw acts_lhu = (loads_lem h s r raw).4
  instr_callback-ActsI raw acts_jalr =
      let target = add32 (x_reg s (rs1 raw)) (imm_i raw) in
      let s₁ = record s { ip = target / 2 * 2 } in
      let r₁ : HasRegisters s₁ = record { x_length = r.x_length; f_length = r.f_length } in
      rw
        (
          get_xreg_lem h s r (rs1 raw) (rs1-lt raw),
          ◌>>=◌,
          even_target target (omega arith),
          set_xreg_lem h s₁ r₁ (rd raw) (rd-lt raw),
        )
        refl

  -- On a machine with its 32 registers, for every row of the decode table of the I format, any
  -- immediate from -2^11 to 2^11 - 1 and registers rs1 and rd below 32: a round that fetches the
  -- row's match value with the immediate and the registers put in does what its mnemonic names with
  -- rs1 and the immediate. ADDI, SLTI, SLTIU, XORI, ORI and ANDI write their value to rd (unless
  -- that is x0) and advance the program counter by 4; LB, LH, LW, LBU and LHU do so with what
  -- memory holds at rs1 plus the immediate modulo 2^32, extended by sign or not, and fail as the
  -- load does; JALR writes the address of the next instruction to rd and jumps to rs1 plus the
  -- immediate with the lowest bit cleared.
  pub execute_insn-encoded_i :
      (e : InsnEntry) {act : Machine → ℕ → ℕ → ℕ → Outcome (Unit {0} × Machine)} (imm r1 d : ℕ)
      → IsRow e insn_decode_table
      → e.mask ≡ 0x707f
      → ActsI h e.mnem act
      → Fits 11 imm
      → r1 < 32
      → d < 32
      → fetch h.asserts s.memory s.ip
        ≡ ok (e.match + imm % 2 ^ 12 * 2 ^ 20 + r1 * 2 ^ 15 + d * 2 ^ 7)
      → execute_insn h s ≡ act s (x_reg s r1) imm d
  execute_insn-encoded_i e {act} imm r1 d row mask acts fits h1 hd fetched =
      let raw = e.match + imm % 2 ^ 12 * 2 ^ 20 + r1 * 2 ^ 15 + d * 2 ^ 7 in
      let f3 = e.match / 2 ^ 12 % 8 in
      let op = e.match % 128 in
      let shape = match-funct3 e row mask in
      let same : encode_i imm r1 f3 d op ≡ raw = omega arith in
      let top : e.match + (imm % 2 ^ 12 * 32 + r1) * 2 ^ 15 + d * 2 ^ 7 ≡ raw = omega arith in
      let (decoded, _, _, _) =
        decode-encoded_funct3 e (imm % 2 ^ 12 * 32 + r1) d row mask (omega arith) hd in
      let (ei, e1, ed) = imm_i-encode_i imm r1 f3 d op fits h1 (omega arith) hd (omega arith) in
      execute_insn-IsRow h s raw e row (ap decode (sym top) ∙ decoded) fetched
      ∙ (instr_callback-ActsI raw acts ∙ cc (ei, e1, ed, same))
