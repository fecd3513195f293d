-- ===== src/Isa/Zicsr.antt =====
-- src/isa/source/ext_zicsr_cb.cpp.
use riscv_sim.Prelude.{ℕ, bit_and, bit_or}
use riscv_sim.Word.{bit_not}
use riscv_sim.Insn.{rd, rs1, imm_csr}
use riscv_sim.Host.{Host}
use riscv_sim.Machine.State.{M, ◌>>=◌, ◌>>◌}
use riscv_sim.Machine.{step, set_xreg, get_xreg, set_csr, get_csr}

module _ (h : Host) where
  unfoldable pub callback_csrrw : ℕ → M (Unit {0})
  callback_csrrw raw = do
    let csr_idx = imm_csr raw
    tmp ← get_csr h csr_idx
    a ← get_xreg h (rs1 raw)
    set_csr h csr_idx a
    set_xreg h (rd raw) tmp
    step

  unfoldable pub callback_csrrs : ℕ → M (Unit {0})
  callback_csrrs raw = do
    let csr_idx = imm_csr raw
    tmp ← get_csr h csr_idx
    a ← get_xreg h (rs1 raw)
    set_csr h csr_idx (bit_or tmp a)
    set_xreg h (rd raw) tmp
    step

  unfoldable pub callback_csrrc : ℕ → M (Unit {0})
  callback_csrrc raw = do
    let csr_idx = imm_csr raw
    tmp ← get_csr h csr_idx
    a ← get_xreg h (rs1 raw)
    set_csr h csr_idx (bit_and tmp (bit_not a))
    set_xreg h (rd raw) tmp
    step

  -- The immediate is encoded as rs1.
  unfoldable pub callback_csrrwi : ℕ → M (Unit {0})
  callback_csrrwi raw = do
    let csr_idx = imm_csr raw
    tmp ← get_csr h csr_idx
    let uimm = rs1 raw
    set_csr h csr_idx uimm
    set_xreg h (rd raw) tmp
    step

  unfoldable pub callback_csrrsi : ℕ → M (Unit {0})
  callback_csrrsi raw = do
    let csr_idx = imm_csr raw
    tmp ← get_csr h csr_idx
    let uimm = rs1 raw
    set_csr h csr_idx (bit_or tmp uimm)
    set_xreg h (rd raw) tmp
    step

  unfoldable pub callback_csrrci : ℕ → M (Unit {0})
  callback_csrrci raw = do
    let csr_idx = imm_csr raw
    tmp ← get_csr h csr_idx
    let uimm = rs1 raw
    set_csr h csr_idx (bit_and tmp (bit_not uimm))
    set_xreg h (rd raw) tmp
    step
