-- ===== src/Isa/Arith.antt =====
-- src/isa/source/ext_i_cb.cpp: LUI, AUIPC, and arithmetic on registers and immediates.
use riscv_sim.Prelude.{ℕ, bit_and, bit_or, bit_xor, ltb, if◌then◌else◌, ltb_ℤ}
use riscv_sim.Outcome.{ok}
use riscv_sim.Word.{add32, sub32, reg_to_ireg, arithm_right_shift}
use riscv_sim.Insn.{rd, rs1, rs2, imm_i, imm_u}
use riscv_sim.Host.{Host}
use riscv_sim.Machine.State.{M, ◌>>=◌, ◌>>◌}
use riscv_sim.Machine.{step, get_ip, set_xreg, get_xreg}
use riscv_sim.Isa.Shapes.{
  shift_left, shift_right, execute_rrr_bin_op, execute_rri_bin_op, execute_rri_shift,
}

module _ (h : Host) where
  unfoldable pub callback_lui : ℕ → M (Unit {0})
  callback_lui raw = do set_xreg h (rd raw) (imm_u raw); step

  unfoldable pub callback_auipc : ℕ → M (Unit {0})
  callback_auipc raw = do ip ← get_ip; set_xreg h (rd raw) (add32 ip (imm_u raw)); step

  unfoldable pub callback_addi : ℕ → M (Unit {0})
  callback_addi raw = execute_rri_bin_op h raw (λ a b. ok (add32 a b))

  unfoldable pub callback_slti : ℕ → M (Unit {0})
  callback_slti raw = do
    a ← get_xreg h (rs1 raw)
    let irs1 = reg_to_ireg a
    let imm = reg_to_ireg (imm_i raw)
    set_xreg h (rd raw) (if ltb_ℤ irs1 imm then 1 else 0)
    step

  unfoldable pub callback_sltiu : ℕ → M (Unit {0})
  callback_sltiu raw = do
    a ← get_xreg h (rs1 raw)
    set_xreg h (rd raw) (if ltb a (imm_i raw) then 1 else 0)
    step

  unfoldable pub callback_xori : ℕ → M (Unit {0})
  callback_xori raw = execute_rri_bin_op h raw (λ a b. ok (bit_xor a b))

  unfoldable pub callback_ori : ℕ → M (Unit {0})
  callback_ori raw = execute_rri_bin_op h raw (λ a b. ok (bit_or a b))

  unfoldable pub callback_andi : ℕ → M (Unit {0})
  callback_andi raw = execute_rri_bin_op h raw (λ a b. ok (bit_and a b))

  unfoldable pub callback_slli : ℕ → M (Unit {0})
  callback_slli raw = execute_rri_shift h raw shift_left

  unfoldable pub callback_srli : ℕ → M (Unit {0})
  callback_srli raw = execute_rri_shift h raw shift_right

  unfoldable pub callback_srai : ℕ → M (Unit {0})
  callback_srai raw = execute_rri_shift h raw (λ a b. ok (arithm_right_shift a b))

  unfoldable pub callback_add : ℕ → M (Unit {0})
  callback_add raw = execute_rrr_bin_op h raw (λ a b. ok (add32 a b))

  unfoldable pub callback_sub : ℕ → M (Unit {0})
  callback_sub raw = execute_rrr_bin_op h raw (λ a b. ok (sub32 a b))

  -- The shift is by the whole of rs2.
  unfoldable pub callback_sll : ℕ → M (Unit {0})
  callback_sll raw = execute_rrr_bin_op h raw shift_left

  unfoldable pub callback_slt : ℕ → M (Unit {0})
  callback_slt raw = do
    a ← get_xreg h (rs1 raw)
    b ← get_xreg h (rs2 raw)
    let irs1 = reg_to_ireg a
    let irs2 = reg_to_ireg b
    set_xreg h (rd raw) (if ltb_ℤ irs1 irs2 then 1 else 0)
    step

  unfoldable pub callback_sltu : ℕ → M (Unit {0})
  callback_sltu raw = do
    a ← get_xreg h (rs1 raw)
    b ← get_xreg h (rs2 raw)
    set_xreg h (rd raw) (if ltb a b then 1 else 0)
    step

  unfoldable pub callback_xor : ℕ → M (Unit {0})
  callback_xor raw = execute_rrr_bin_op h raw (λ a b. ok (bit_xor a b))

  unfoldable pub callback_srl : ℕ → M (Unit {0})
  callback_srl raw = execute_rrr_bin_op h raw shift_right

  unfoldable pub callback_sra : ℕ → M (Unit {0})
  callback_sra raw = execute_rrr_bin_op h raw (λ a b. ok (arithm_right_shift a (bit_and b 31)))

  unfoldable pub callback_or : ℕ → M (Unit {0})
  callback_or raw = execute_rrr_bin_op h raw (λ a b. ok (bit_or a b))

  unfoldable pub callback_and : ℕ → M (Unit {0})
  callback_and raw = execute_rrr_bin_op h raw (λ a b. ok (bit_and a b))
