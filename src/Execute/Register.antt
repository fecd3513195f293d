-- ===== src/Execute/Register.antt =====
-- Register-register instructions from their encoding to their effect.
use riscv_sim.Bits.{bit_and_mask}
use riscv_sim.Prelude.{
  ℕ, ◌+◌, ◌-◌, ◌*◌, ◌/◌, ◌%◌, ◌^◌, ◌<◌, ◌≡◌, refl, ap, ◌∙◌, if◌then◌else◌, ltb, ltb_ℤ, Bool,
  bit_and, bit_or, bit_xor, ◌==◌, ◌*ℤ◌, ◌/ℤ◌, ◌%ℤ◌, low_word, high_word, arith,
}
use riscv_sim.Outcome.{Outcome, ok, fault, undefined}
use riscv_sim.Word.{reg_to_ireg}
use riscv_sim.Word.Shift.{filled_shift, arithm_right_shift_value}
use riscv_sim.Insn.{rd, rs1, rs2}
use riscv_sim.Mnemonic.{InsnMnemonic}
use riscv_sim.Decode.Table.{InsnEntry, insn_decode_table}
use riscv_sim.Decode.Unique.{IsRow}
use riscv_sim.Decode.Encoded.{decode-encoded_r}
use riscv_sim.Host.{Host}
use riscv_sim.Memory.{fetch}
use riscv_sim.Machine.State.{Machine, ◌>>=◌, ◌>>◌}
use riscv_sim.Machine.{step, get_xreg, set_xreg}
use riscv_sim.Machine.Registers.{HasRegisters, x_reg, advance, get_xreg_lem, set_xreg_lem}
use riscv_sim.Word.Digits.{trunc_high_lem}
use riscv_sim.Isa.Effects.{execute_rr_op_lem, retire, rd-lt, rs1-lt, rs2-lt, execute_rrr_bin_op_lem}
use riscv_sim.Isa.Arith.{
  callback_add, callback_sub, callback_sll, callback_slt, callback_sltu, callback_xor, callback_srl,
  callback_sra, callback_or, callback_and,
}
use riscv_sim.Isa.MulDiv.Laws.{mul_value, mulhu_value, div-rem_value}
use riscv_sim.Isa.MulDiv.High.{mulh_value, mulhsu_value}
use riscv_sim.Isa.Zbb.Zeros.{rotate_left_value, rotate_right_value}
use riscv_sim.Isa.MulDiv.{
  divu, remu, callback_mul, callback_mulh, callback_mulhsu, callback_mulhu, callback_div,
  callback_divu, callback_rem, callback_remu,
}
use riscv_sim.Isa.Zbb.{
  callback_andn, callback_orn, callback_xnor, callback_min, callback_max, callback_minu,
  callback_maxu, callback_zext_h, callback_rol, callback_ror,
}
use riscv_sim.Isa.Zbb.Words.{min_s, max_s, min_u, max_u}
use riscv_sim.Execute.{instr_callback, execute_insn}
use riscv_sim.Execute.Decoded.{execute_insn-IsRow}

-- What the register-register instructions of the I, M and Zbb extensions compute from rs1 and rs2.
pub data Computes : InsnMnemonic → (ℕ → ℕ → Outcome ℕ) → Type 0 where
  computes_add : Computes InsnMnemonic.add (λ a b. ok ((a + b) % 2 ^ 32))
  computes_sub : Computes InsnMnemonic.sub (λ a b. ok ((a + 2 ^ 32 - b) % 2 ^ 32))
  computes_sll :
      Computes InsnMnemonic.sll
        (λ a b. if ltb b 32 then ok (a * 2 ^ b % 2 ^ 32) else fault undefined)
  computes_srl :
      Computes InsnMnemonic.srl (λ a b. if ltb b 32 then ok (a / 2 ^ b) else fault undefined)
  computes_sra : Computes InsnMnemonic.sra (λ a b. ok (filled_shift a (b % 32)))
  computes_slt :
      Computes InsnMnemonic.slt (λ a b. ok (if ltb_ℤ (reg_to_ireg a) (reg_to_ireg b) then 1 else 0))
  computes_sltu : Computes InsnMnemonic.sltu (λ a b. ok (if ltb a b then 1 else 0))
  computes_xor : Computes InsnMnemonic.xor (λ a b. ok (bit_xor a b))
  computes_or : Computes InsnMnemonic.or (λ a b. ok (bit_or a b))
  computes_and : Computes InsnMnemonic.and (λ a b. ok (bit_and a b))
  computes_mul : Computes InsnMnemonic.mul (λ a b. ok (a * b % 2 ^ 32))
  -- MULH and MULHSU are those of the code, not of the instruction set: MULH takes both operands
  -- without a sign and is undefined for a product from 2^63 on, MULHSU takes both with a sign.
  computes_mulh :
      Computes InsnMnemonic.mulh
        (λ a b. if ltb (a * b) (2 ^ 63) then ok (a * b / 2 ^ 32) else fault undefined)
  computes_mulhsu :
      Computes InsnMnemonic.mulhsu
        (λ a b. ok (high_word (reg_to_ireg (a % 2 ^ 32) *ℤ reg_to_ireg b)))
  computes_mulhu : Computes InsnMnemonic.mulhu (λ a b. ok (a * b / 2 ^ 32 % 2 ^ 32))
  computes_div :
      Computes InsnMnemonic.div
        (λ a b. ok (if b == 0 then 2 ^ 32 - 1 else low_word (reg_to_ireg a /ℤ reg_to_ireg b)))
  computes_divu : Computes InsnMnemonic.divu (λ a b. ok (if b == 0 then 2 ^ 32 - 1 else a / b))
  computes_rem : Computes InsnMnemonic.rem (λ a b.
      ok (if b == 0 then low_word (reg_to_ireg a) else low_word (reg_to_ireg a %ℤ reg_to_ireg b)))
  computes_remu : Computes InsnMnemonic.remu (λ a b. ok (if b == 0 then a else a % b))
  computes_andn : Computes InsnMnemonic.andn (λ a b. ok (bit_and a (2 ^ 32 - 1 - b)))
  computes_orn : Computes InsnMnemonic.orn (λ a b. ok (bit_or a (2 ^ 32 - 1 - b)))
  computes_xnor : Computes InsnMnemonic.xnor (λ a b. ok (2 ^ 32 - 1 - bit_xor a b))
  computes_min :
      Computes InsnMnemonic.min (λ a b. ok (if ltb_ℤ (reg_to_ireg a) (reg_to_ireg b) then a else b))
  computes_max :
      Computes InsnMnemonic.max (λ a b. ok (if ltb_ℤ (reg_to_ireg a) (reg_to_ireg b) then b else a))
  computes_minu : Computes InsnMnemonic.minu (λ a b. ok (if ltb a b then a else b))
  computes_maxu : Computes InsnMnemonic.maxu (λ a b. ok (if ltb a b then b else a))
  computes_rol : Computes InsnMnemonic.rol (λ a b.
      if b % 32 == 0
      then fault undefined
      else ok (bit_or (a * 2 ^ (b % 32) % 2 ^ 32) (a / 2 ^ (32 - b % 32))))
  computes_ror : Computes InsnMnemonic.ror (λ a b.
      if b % 32 == 0
      then fault undefined
      else ok (bit_or (a / 2 ^ (b % 32)) (a * 2 ^ (32 - b % 32) % 2 ^ 32)))
  -- ZEXT.H has an rs2 field that it does not look at.
  computes_zext_h : Computes InsnMnemonic.zext_h (λ a b. ok (a % 2 ^ 16))

-- A shift or rotation by the 5 low bits of a register.
low_amount :
    {A : Type 0} {rotate expected : ℕ → ℕ → A}
    → ((x k : ℕ) → k < 32 → rotate x k ≡ expected x k)
    → (x k : ℕ) → rotate x (bit_and k 31) ≡ expected x (k % 32)
low_amount {rotate} value x k = ap (rotate x) (bit_and_mask 5 k) ∙ value x (k % 32) (omega arith)

module _ (h : Host) (s : Machine) (r : HasRegisters s) where
  -- The body that SLT and SLTU share.
  flag_lem :
      (raw : ℕ) (pred : ℕ → ℕ → Bool)
      → (do
        a ← get_xreg h (rs1 raw)
        b ← get_xreg h (rs2 raw)
        set_xreg h (rd raw) (if pred a b then 1 else 0)
        step)
          s
        ≡ retire s (rd raw) (ok (if pred (x_reg s (rs1 raw)) (x_reg s (rs2 raw)) then 1 else 0))
  unfolding step advance
  flag_lem raw pred =
      rw
        (
          get_xreg_lem h s r (rs1 raw) (rs1-lt raw),
          ◌>>=◌,
          get_xreg_lem h s r (rs2 raw) (rs2-lt raw),
          ◌>>=◌,
          set_xreg_lem h s r (rd raw) (rd-lt raw),
          ◌>>=◌,
        )
        refl

  instr_callback-Computes :
      {m : InsnMnemonic} {op : ℕ → ℕ → Outcome ℕ} (raw : ℕ)
      → Computes m op
      → instr_callback h m raw s ≡ retire s (rd raw) (op (x_reg s (rs1 raw)) (x_reg s (rs2 raw)))
  unfolding instr_callback callback_add callback_sub callback_sll callback_slt callback_sltu
      callback_xor callback_srl callback_sra callback_or callback_and callback_mul callback_mulh
      callback_mulhsu callback_mulhu callback_div callback_divu callback_rem callback_remu divu remu
      callback_andn callback_orn callback_xnor callback_min callback_max callback_minu callback_maxu
      callback_rol callback_ror callback_zext_h min_s max_s min_u max_u step advance
  instr_callback-Computes raw computes_add = execute_rrr_bin_op_lem h s raw r _
  instr_callback-Computes raw computes_sub = execute_rrr_bin_op_lem h s raw r _
  instr_callback-Computes raw computes_sll = execute_rrr_bin_op_lem h s raw r _
  instr_callback-Computes raw computes_srl = execute_rrr_bin_op_lem h s raw r _
  instr_callback-Computes raw computes_sra =
      execute_rrr_bin_op_lem h s raw r _
      ∙ ap (λ v. retire s (rd raw) (ok v))
          (low_amount {expected = filled_shift} arithm_right_shift_value _ _)
  instr_callback-Computes raw computes_slt = flag_lem raw _
  instr_callback-Computes raw computes_sltu = flag_lem raw _
  instr_callback-Computes raw computes_xor = execute_rrr_bin_op_lem h s raw r _
  instr_callback-Computes raw computes_or = execute_rrr_bin_op_lem h s raw r _
  instr_callback-Computes raw computes_and = execute_rrr_bin_op_lem h s raw r _
  instr_callback-Computes raw computes_mul =
      execute_rrr_bin_op_lem h s raw r _ ∙ ap (retire s (rd raw)) (mul_value _ _)
  instr_callback-Computes raw computes_mulh =
      execute_rrr_bin_op_lem h s raw r _ ∙ ap (retire s (rd raw)) (mulh_value _ _)
  instr_callback-Computes raw computes_mulhsu =
      execute_rrr_bin_op_lem h s raw r _ ∙ ap (retire s (rd raw)) (mulhsu_value _ _)
  instr_callback-Computes raw computes_mulhu =
      execute_rrr_bin_op_lem h s raw r _ ∙ ap (retire s (rd raw)) (mulhu_value _ _)
  instr_callback-Computes raw computes_div =
      execute_rrr_bin_op_lem h s raw r _ ∙ ap (retire s (rd raw)) (div-rem_value _ _).0
  instr_callback-Computes raw computes_divu = execute_rrr_bin_op_lem h s raw r _
  instr_callback-Computes raw computes_rem =
      execute_rrr_bin_op_lem h s raw r _ ∙ ap (retire s (rd raw)) (div-rem_value _ _).1
  instr_callback-Computes raw computes_remu = execute_rrr_bin_op_lem h s raw r _
  instr_callback-Computes raw computes_andn = execute_rrr_bin_op_lem h s raw r _
  instr_callback-Computes raw computes_orn = execute_rrr_bin_op_lem h s raw r _
  instr_callback-Computes raw computes_xnor = execute_rrr_bin_op_lem h s raw r _
  instr_callback-Computes raw computes_min = execute_rrr_bin_op_lem h s raw r _
  instr_callback-Computes raw computes_max = execute_rrr_bin_op_lem h s raw r _
  instr_callback-Computes raw computes_minu = execute_rrr_bin_op_lem h s raw r _
  instr_callback-Computes raw computes_maxu = execute_rrr_bin_op_lem h s raw r _
  instr_callback-Computes raw computes_rol =
      execute_rrr_bin_op_lem h s raw r _ ∙ ap (retire s (rd raw)) (low_amount rotate_left_value _ _)
  instr_callback-Computes raw computes_ror =
      execute_rrr_bin_op_lem h s raw r _
      ∙ ap (retire s (rd raw)) (low_amount rotate_right_value _ _)
  instr_callback-Computes raw computes_zext_h =
      execute_rr_op_lem h s raw r _
      ∙ ap (λ v. retire s (rd raw) (ok v)) (trunc_high_lem 16 (x_reg s (rs1 raw)))

  -- On a machine with its 32 registers, for every instruction on two registers of the I, M and Zbb
  -- extensions and any three registers below 32: a round of the loop that fetches the match value
  -- of the instruction's row with rs2, rs1 and rd put in writes the value that Computes gives for
  -- the two registers to rd (unless that is x0), advances the program counter by 4 and changes
  -- nothing else; where Computes is undefined, so is the round. Computes writes the values out in
  -- arithmetic and on bits. It is what the manual says with these exceptions, where it is what the
  -- code does: MULH takes both operands without a sign and is undefined for a product from 2^63 on,
  -- MULHSU takes both with a sign (which tests/mul.s contradicts for both); SLL and SRL are
  -- undefined for an amount of 32 or more, ROL and ROR for one that is 0 modulo 32; and ZEXT.H is
  -- run with any rs2 field.
  pub execute_insn-encoded_r :
      (e : InsnEntry) {op : ℕ → ℕ → Outcome ℕ} (r2 r1 d : ℕ)
      → IsRow e insn_decode_table
      → e.mask ≡ 0xfe00_707f
      → Computes e.mnem op
      → r2 < 32
      → r1 < 32
      → d < 32
      → fetch h.asserts s.memory s.ip ≡ ok (e.match + r2 * 2 ^ 20 + r1 * 2 ^ 15 + d * 2 ^ 7)
      → execute_insn h s ≡ retire s d (op (x_reg s r1) (x_reg s r2))
  execute_insn-encoded_r e {op} r2 r1 d row mask c h2 h1 hd fetched =
      let raw = e.match + r2 * 2 ^ 20 + r1 * 2 ^ 15 + d * 2 ^ 7 in
      let (decoded, e2, e1, ed) = decode-encoded_r e r2 r1 d row mask h2 h1 hd in
      execute_insn-IsRow h s raw e row decoded fetched
      ∙ (instr_callback-Computes raw c
          ∙ (ap (λ i. retire s i (op (x_reg s (rs1 raw)) (x_reg s (rs2 raw)))) ed
              ∙ (ap (λ i. retire s d (op (x_reg s i) (x_reg s (rs2 raw)))) e1
                  ∙ ap (λ i. retire s d (op (x_reg s r1) (x_reg s i))) e2)))
