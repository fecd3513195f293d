-- ===== src/InsnSet/Complete.antt =====
-- The rows of the integer extensions by format, and the words that they match.
use riscv_sim.Bits.{bit_and_mask}
use riscv_sim.Prelude.{ℕ, ◌+◌, ◌*◌, ◌/◌, ◌%◌, ◌^◌, ◌<◌, ◌≡◌, sym, subst, arith, Bool}
use riscv_sim.Outcome.{Outcome}
use riscv_sim.Insn.Fields.{widened, offset_b, offset_j}
use riscv_sim.Mnemonic.{InsnMnemonic}
use riscv_sim.Decode.Table.{InsnEntry, entry}
use riscv_sim.Decode.Unique.{Matches}
use riscv_sim.Host.{Host}
use riscv_sim.Memory.{Memory}
use riscv_sim.Machine.State.{Machine}
use riscv_sim.Execute.Register.{Computes}
use riscv_sim.Execute.Immediate.{ActsI}
use riscv_sim.Execute.Transfer.{Stores, Branches}
use riscv_sim.Execute.Upper.{Uppers}
use riscv_sim.Execute.Unary.{Maps, Shifts}
use riscv_sim.InsnSet.Opcodes.{fixed_bits}
use riscv_sim.InsnSet.{
  Passes, Instruction, register, immediate, storing, branch, upper, jump, unary, shift, fence,
  ecall, ebreak,
}
use riscv_sim.InsnSet.Words.{
  word_funct3, word_funct7, word_funct12, word_opcode, widened-Fits_12, widened-Fits_13,
  widened-Fits_21, widened-mod_12, widened-mod_13, widened-mod_21,
}

module _ (h : Host) where
  -- A row with the mask and the fixed bits of its instruction and what its instruction does, by format.
  pub data Covered : InsnEntry → Type 0 where
    covered_register :
        {m : InsnMnemonic} {op : ℕ → ℕ → Outcome ℕ}
        → Computes m op
        → Covered (entry m 0xfe00_707f (fixed_bits m))
    covered_immediate :
        {m : InsnMnemonic} {act : Machine → ℕ → ℕ → ℕ → Outcome (Unit {0} × Machine)}
        → ActsI h m act
        → Covered (entry m 0x707f (fixed_bits m))
    covered_storing :
        {m : InsnMnemonic} {put : Bool → Memory → ℕ → ℕ → Outcome Memory}
        → Stores m put
        → Covered (entry m 0x707f (fixed_bits m))
    covered_branch :
        {m : InsnMnemonic} {pred : ℕ → ℕ → Bool}
        → Branches m pred
        → Covered (entry m 0x707f (fixed_bits m))
    covered_upper :
        {m : InsnMnemonic} {value : ℕ → ℕ → ℕ}
        → Uppers m value
        → Covered (entry m 0x7f (fixed_bits m))
    covered_jump : Covered (entry InsnMnemonic.jal 0x7f (fixed_bits InsnMnemonic.jal))
    covered_unary :
        {m : InsnMnemonic} {op : ℕ → ℕ} → Maps m op → Covered (entry m 0xfff0_707f (fixed_bits m))
    covered_shift :
        {m : InsnMnemonic} {op : ℕ → ℕ → Outcome ℕ}
        → Shifts m op
        → Covered (entry m 0xfe00_707f (fixed_bits m))
    covered_fence : {m : InsnMnemonic} → Passes m → Covered (entry m 0x707f (fixed_bits m))
    covered_ecall : Covered (entry InsnMnemonic.ecall 0xffff_ffff 0x73)
    covered_ebreak : Covered (entry InsnMnemonic.ebreak 0xffff_ffff 0x0010_0073)

  abbrev pub InSet : ℕ → Type 0
  InSet raw = (act : Machine → Outcome (Unit {0} × Machine)) × Instruction h raw act

  pub as_word :
      {raw w : ℕ} {act : Machine → Outcome (Unit {0} × Machine)}
      → raw ≡ w
      → Instruction h w act
      → InSet raw
  as_word {act = act} e i = (act, subst (λ w. Instruction h w act) (sym e) i)

  pub Matches-InSet :
      (raw : ℕ) (e : InsnEntry) → Covered e → raw < 2 ^ 32 → Matches raw e → InSet raw
  Matches-InSet raw _ (covered_register {m = m} c) lt hit =
      as_word (word_funct7 raw (fixed_bits m) lt hit)
        (register c (omega arith) (omega arith) (omega arith))
  Matches-InSet raw _ (covered_immediate {m = m} c) lt hit =
      let v = raw / 2 ^ 20 in
      let small : v < 2 ^ 12 = omega arith in
      let h1 : raw / 2 ^ 15 % 32 < 32 = omega arith in
      let hd : raw / 2 ^ 7 % 32 < 32 = omega arith in
      as_word (omega (arith, word_funct3 raw (fixed_bits m) lt hit, widened-mod_12 v small))
        (immediate {imm = widened 11 v} c (widened-Fits_12 v small) h1 hd)
  Matches-InSet raw _ (covered_storing {m = m} c) lt hit =
      let v = raw / 2 ^ 25 * 32 + raw / 2 ^ 7 % 32 in
      let small : v < 2 ^ 12 = omega arith in
      let h2 : raw / 2 ^ 20 % 32 < 32 = omega arith in
      let h1 : raw / 2 ^ 15 % 32 < 32 = omega arith in
      as_word (omega (arith, word_funct3 raw (fixed_bits m) lt hit, widened-mod_12 v small))
        (storing {imm = widened 11 v} c (widened-Fits_12 v small) h2 h1)
  Matches-InSet raw _ (covered_branch {m = m} c) lt hit =
      let v = offset_b raw in
      let small : v < 2 ^ 13 = omega arith in
      let h2 : raw / 2 ^ 20 % 32 < 32 = omega arith in
      let h1 : raw / 2 ^ 15 % 32 < 32 = omega arith in
      as_word (omega (arith, word_funct3 raw (fixed_bits m) lt hit, widened-mod_13 v small)) (
        branch {imm = widened 12 v} c (widened-Fits_13 v small)
          (omega (arith, widened-mod_13 v small)) h2 h1)
  Matches-InSet raw _ (covered_upper {m = m} c) lt hit =
      as_word (word_opcode raw (fixed_bits m) hit) (upper c (omega arith) (omega arith))
  Matches-InSet raw _ covered_jump lt hit =
      let v = offset_j raw in
      let small : v < 2 ^ 21 = omega arith in
      let hd : raw / 2 ^ 7 % 32 < 32 = omega arith in
      as_word
        (omega (arith, word_opcode raw (fixed_bits InsnMnemonic.jal) hit, widened-mod_21 v small))
        (jump {imm = widened 20 v} (widened-Fits_21 v small) (omega (arith, widened-mod_21 v small))
          hd)
  Matches-InSet raw _ (covered_unary {m = m} c) lt hit =
      as_word (word_funct12 raw (fixed_bits m) lt hit) (unary c (omega arith) (omega arith))
  Matches-InSet raw _ (covered_shift {m = m} c) lt hit =
      as_word (word_funct7 raw (fixed_bits m) lt hit)
        (shift c (omega arith) (omega arith) (omega arith))
  Matches-InSet raw _ (covered_fence {m = m} c) lt hit =
      as_word (word_funct3 raw (fixed_bits m) lt hit) (fence c (omega arith) (omega arith))
  Matches-InSet raw _ covered_ecall lt hit = as_word (omega (arith, bit_and_mask 32 raw, hit)) ecall
  Matches-InSet raw _ covered_ebreak lt hit =
      as_word (omega (arith, bit_and_mask 32 raw, hit)) ebreak
