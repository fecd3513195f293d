-- ===== src/Isa/Control.antt =====
-- src/isa/source/ext_i_cb.cpp: jumps, branches, fences and system instructions.
use riscv_sim.Prelude.{ℕ, not, bit_and, ltb, leb, ◌==◌, ltb_ℤ}
use riscv_sim.Word.{add32, bit_not, reg_to_ireg}
use riscv_sim.Insn.{rd, rs1, imm_i, imm_j}
use riscv_sim.Host.{Host}
use riscv_sim.Machine.State.{M, ◌>>=◌, ◌>>◌}
use riscv_sim.Machine.{step, get_ip, set_ip, set_xreg, get_xreg}
use riscv_sim.Isa.Shapes.{execute_branch}
use riscv_sim.Isa.Syscall.{syscall_handler}

module _ (h : Host) where
  unfoldable pub callback_jal : ℕ → M (Unit {0})
  callback_jal raw = do
    ip ← get_ip
    set_xreg h (rd raw) (add32 ip 4)
    ip' ← get_ip
    set_ip (add32 ip' (imm_j raw))

  unfoldable pub callback_jalr : ℕ → M (Unit {0})
  callback_jalr raw = do
    ip ← get_ip
    let hold_pc = add32 ip 4
    a ← get_xreg h (rs1 raw)
    set_ip (bit_and (add32 a (imm_i raw)) (bit_not 1))
    set_xreg h (rd raw) hold_pc

  unfoldable pub callback_beq : ℕ → M (Unit {0})
  callback_beq raw = execute_branch h raw (λ a b. a == b)

  unfoldable pub callback_bne : ℕ → M (Unit {0})
  callback_bne raw = execute_branch h raw (λ a b. not (a == b))

  unfoldable pub callback_blt : ℕ → M (Unit {0})
  callback_blt raw = execute_branch h raw (λ a b. ltb_ℤ (reg_to_ireg a) (reg_to_ireg b))

  unfoldable pub callback_bge : ℕ → M (Unit {0})
  callback_bge raw = execute_branch h raw (λ a b. not (ltb_ℤ (reg_to_ireg a) (reg_to_ireg b)))

  unfoldable pub callback_bltu : ℕ → M (Unit {0})
  callback_bltu raw = execute_branch h raw (λ a b. ltb a b)

  unfoldable pub callback_bgeu : ℕ → M (Unit {0})
  callback_bgeu raw = execute_branch h raw (λ a b. leb b a)

  unfoldable pub callback_fence : ℕ → M (Unit {0})
  callback_fence raw = step

  unfoldable pub callback_fence_i : ℕ → M (Unit {0})
  callback_fence_i raw = step

  unfoldable pub callback_ecall : ℕ → M (Unit {0})
  callback_ecall raw = do syscall_handler h; step

  unfoldable pub callback_ebreak : ℕ → M (Unit {0})
  callback_ebreak raw = step
