-- ===== src/Execute/Unary.antt =====
-- The one-operand instructions of Zbb, and the shifts and rotations by an immediate, from their
-- encoding to their effect.
use riscv_sim.Prelude.{
  ℕ, ◌+◌, ◌*◌, ◌/◌, ◌%◌, ◌^◌, ◌<◌, ◌≡◌, refl, ap, sym, ◌∙◌, arith, true, ltb, lt→ltb, ◌-◌, bit_or,
  if◌then◌else◌, ◌==◌,
}
use riscv_sim.Outcome.{Outcome, ok, fault, undefined}
use riscv_sim.Word.{sign_ext_to}
use riscv_sim.Word.Shift.{filled_shift, arithm_right_shift_value}
use riscv_sim.Word.Digits.{trunc_high_lem, sign_ext_8, sign_ext_16, extended}
use riscv_sim.Insn.{rd, rs1, shamt}
use riscv_sim.Insn.Fields.{shamt_lem, rs2_lem}
use riscv_sim.Mnemonic.{InsnMnemonic}
use riscv_sim.Decode.Table.{InsnEntry, insn_decode_table}
use riscv_sim.Decode.Unique.{IsRow}
use riscv_sim.Decode.Encoded.{decode-encoded_r}
use riscv_sim.Decode.Unary.{decode-encoded_unary}
use riscv_sim.Host.{Host}
use riscv_sim.Memory.{fetch}
use riscv_sim.Machine.State.{Machine}
use riscv_sim.Machine.Registers.{HasRegisters, x_reg}
use riscv_sim.Isa.Effects.{execute_rr_op_lem, retire, execute_rri_shift_lem}
use riscv_sim.Isa.Arith.{callback_slli, callback_srli, callback_srai}
use riscv_sim.Isa.Zbb.{
  callback_sext_b, callback_sext_h, callback_clz, callback_ctz, callback_cpop, callback_rev8,
  callback_orc_b, callback_rori,
}
use riscv_sim.Isa.Zbb.Counts.{ones, cpop_lem}
use riscv_sim.Isa.Zbb.Bytes.{word, rev8-word}
use riscv_sim.Isa.Zbb.Zeros.{
  leading_zeros, trailing_zeros, spread, clz-leading_zeros, ctz-trailing_zeros, orc_b_value,
  rotate_right_value,
}
use riscv_sim.Execute.{instr_callback, execute_insn}
use riscv_sim.Execute.Decoded.{execute_insn-IsRow}

-- What the one-operand instructions compute from rs1.
pub data Maps : InsnMnemonic → (ℕ → ℕ) → Type 0 where
  maps_sext_b : Maps InsnMnemonic.sext_b (extended 8)
  maps_sext_h : Maps InsnMnemonic.sext_h (extended 16)
  maps_clz : Maps InsnMnemonic.clz (leading_zeros 32)
  maps_ctz : Maps InsnMnemonic.ctz (trailing_zeros 32)
  maps_cpop : Maps InsnMnemonic.cpop (ones 32)
  maps_rev8 :
      Maps InsnMnemonic.rev8
        (λ a. word (a / 2 ^ 24 % 256) (a / 2 ^ 16 % 256) (a / 2 ^ 8 % 256) (a % 256))
  maps_orc_b : Maps InsnMnemonic.orc_b (λ a.
      word
        (spread (a % 256))
        (spread (a / 2 ^ 8 % 256))
        (spread (a / 2 ^ 16 % 256))
        (spread (a / 2 ^ 24 % 256)))

-- What the shifts and rotations by an immediate compute from rs1 and the amount.
pub data Shifts : InsnMnemonic → (ℕ → ℕ → Outcome ℕ) → Type 0 where
  shifts_slli : Shifts InsnMnemonic.slli (λ a b. ok (a * 2 ^ b % 2 ^ 32))
  shifts_srli : Shifts InsnMnemonic.srli (λ a b. ok (a / 2 ^ b))
  shifts_srai : Shifts InsnMnemonic.srai (λ a b. ok (filled_shift a b))
  shifts_rori : Shifts InsnMnemonic.rori (λ a b.
      if b == 0 then fault undefined else ok (bit_or (a / 2 ^ b) (a * 2 ^ (32 - b) % 2 ^ 32)))

module _ (h : Host) (s : Machine) (r : HasRegisters s) where
  instr_callback-Maps :
      {m : InsnMnemonic} {op : ℕ → ℕ} (raw : ℕ)
      → Maps m op
      → instr_callback h m raw s ≡ retire s (rd raw) (ok (op (x_reg s (rs1 raw))))
  unfolding instr_callback callback_sext_b callback_sext_h callback_clz callback_ctz callback_cpop
      callback_rev8 callback_orc_b
  instr_callback-Maps raw maps_sext_b =
      execute_rr_op_lem h s raw r _
      ∙ ap (λ v. retire s (rd raw) (ok v))
          (ap (sign_ext_to 32 8) (trunc_high_lem 8 _) ∙ sign_ext_8 _ (omega arith))
  instr_callback-Maps raw maps_sext_h =
      execute_rr_op_lem h s raw r _
      ∙ ap (λ v. retire s (rd raw) (ok v))
          (ap (sign_ext_to 32 16) (trunc_high_lem 16 _) ∙ sign_ext_16 _ (omega arith))
  instr_callback-Maps raw maps_clz =
      execute_rr_op_lem h s raw r _ ∙ ap (λ v. retire s (rd raw) (ok v)) (clz-leading_zeros _)
  instr_callback-Maps raw maps_ctz =
      execute_rr_op_lem h s raw r _ ∙ ap (λ v. retire s (rd raw) (ok v)) (ctz-trailing_zeros _)
  instr_callback-Maps raw maps_cpop =
      execute_rr_op_lem h s raw r _ ∙ ap (λ v. retire s (rd raw) (ok v)) (cpop_lem _)
  instr_callback-Maps raw maps_rev8 =
      execute_rr_op_lem h s raw r _ ∙ ap (λ v. retire s (rd raw) (ok v)) (rev8-word _)
  instr_callback-Maps raw maps_orc_b =
      execute_rr_op_lem h s raw r _ ∙ ap (λ v. retire s (rd raw) (ok v)) (orc_b_value _)

  -- On a machine with its 32 registers, for every row of the decode table of SEXT.B, SEXT.H, CLZ,
  -- CTZ, CPOP, REV8 or ORC.B and registers below 32: a round that fetches the row's match value
  -- with rs1 and rd put in writes to rd (unless that is x0), advances the program counter by 4 and
  -- changes nothing else. It writes the low 8 or 16 bits of rs1 with the upper bits of the word all
  -- ones where the sign bit is set; the number of zero digits before the first one from digit 31
  -- down or from digit 0 up, 32 if there is none; the sum of the 32 digits; the four bytes in
  -- reverse order; or the four bytes with 255 for each that is not 0.
  pub execute_insn-encoded_unary :
      (e : InsnEntry) {op : ℕ → ℕ} (r1 d : ℕ)
      → IsRow e insn_decode_table
      → e.mask ≡ 0xfff0_707f
      → Maps e.mnem op
      → r1 < 32
      → d < 32
      → fetch h.asserts s.memory s.ip ≡ ok (e.match + r1 * 2 ^ 15 + d * 2 ^ 7)
      → execute_insn h s ≡ retire s d (ok (op (x_reg s r1)))
  execute_insn-encoded_unary e {op} r1 d row mask c h1 hd fetched =
      let raw = e.match + r1 * 2 ^ 15 + d * 2 ^ 7 in
      let (decoded, e1, ed) = decode-encoded_unary e r1 d row mask h1 hd in
      execute_insn-IsRow h s raw e row decoded fetched ∙ (instr_callback-Maps raw c ∙ cc (e1, ed))

  shamt-lt : (raw : ℕ) → ltb (shamt raw) 32 ≡ true
  shamt-lt raw = lt→ltb (shamt raw) 32 (omega (arith, shamt_lem raw))

  instr_callback-Shifts :
      {m : InsnMnemonic} {op : ℕ → ℕ → Outcome ℕ} (raw : ℕ)
      → Shifts m op
      → instr_callback h m raw s ≡ retire s (rd raw) (op (x_reg s (rs1 raw)) (shamt raw))
  unfolding instr_callback callback_slli callback_srli callback_srai callback_rori
  instr_callback-Shifts raw shifts_slli = execute_rri_shift_lem h s raw r _ ∙ rw (shamt-lt raw) refl
  instr_callback-Shifts raw shifts_srli = execute_rri_shift_lem h s raw r _ ∙ rw (shamt-lt raw) refl
  instr_callback-Shifts raw shifts_srai =
      execute_rri_shift_lem h s raw r _
      ∙ ap (λ v. retire s (rd raw) (ok v))
          (arithm_right_shift_value _ _ (omega (arith, shamt_lem raw)))
  instr_callback-Shifts raw shifts_rori =
      execute_rri_shift_lem h s raw r _
      ∙ ap (retire s (rd raw)) (rotate_right_value _ _ (omega (arith, shamt_lem raw)))

  -- On a machine with its 32 registers, for every row of the decode table of SLLI, SRLI, SRAI or
  -- RORI, any amount below 32 and registers below 32: a round that fetches the row's match value
  -- with the amount, rs1 and rd put in writes rs1 shifted or rotated by the amount to rd (unless
  -- that is x0), advances the program counter by 4 and changes nothing else, or is undefined where
  -- the rotation is.
  pub execute_insn-encoded_shift :
      (e : InsnEntry) {op : ℕ → ℕ → Outcome ℕ} (amount r1 d : ℕ)
      → IsRow e insn_decode_table
      → e.mask ≡ 0xfe00_707f
      → Shifts e.mnem op
      → amount < 32
      → r1 < 32
      → d < 32
      → fetch h.asserts s.memory s.ip ≡ ok (e.match + amount * 2 ^ 20 + r1 * 2 ^ 15 + d * 2 ^ 7)
      → execute_insn h s ≡ retire s d (op (x_reg s r1) amount)
  execute_insn-encoded_shift e {op} amount r1 d row mask c ha h1 hd fetched =
      let raw = e.match + amount * 2 ^ 20 + r1 * 2 ^ 15 + d * 2 ^ 7 in
      let (decoded, e2, e1, ed) = decode-encoded_r e amount r1 d row mask ha h1 hd in
      let ea : shamt raw ≡ amount = shamt_lem raw ∙ (sym (rs2_lem raw) ∙ e2) in
      execute_insn-IsRow h s raw e row decoded fetched
      ∙ (instr_callback-Shifts raw c ∙ cc (e1, ed, ea))
