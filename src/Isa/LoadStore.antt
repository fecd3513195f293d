-- ===== src/Isa/LoadStore.antt =====
-- src/isa/source/ext_i_cb.cpp: loads and stores; FLW and FSW of ext_f_cb.cpp.
pub mod Effects
use riscv_sim.Prelude.{ℕ}
use riscv_sim.Word.{add32, trunc_high, sign_ext_to}
use riscv_sim.Insn.{rd, rs1, rs2, imm_i, imm_s}
use riscv_sim.Memory.{load_u32, load_u16, load_u8, store_u32, store_u16, store_u8}
use riscv_sim.Host.{Host}
use riscv_sim.Machine.State.{M, ◌>>=◌, ◌>>◌, reading, writing}
use riscv_sim.Machine.{step, set_xreg, get_xreg, set_freg, get_freg}

module _ (h : Host) where
  unfoldable pub callback_lb : ℕ → M (Unit {0})
  callback_lb raw = do
    a ← get_xreg h (rs1 raw)
    let addr = add32 a (imm_i raw)
    mem_val ← reading (λ mem. load_u8 h.asserts mem addr)
    set_xreg h (rd raw) (sign_ext_to 32 8 mem_val)
    step

  unfoldable pub callback_lh : ℕ → M (Unit {0})
  callback_lh raw = do
    a ← get_xreg h (rs1 raw)
    let addr = add32 a (imm_i raw)
    mem_val ← reading (λ mem. load_u16 h.asserts mem addr)
    set_xreg h (rd raw) (sign_ext_to 32 16 mem_val)
    step

  unfoldable pub callback_lw : ℕ → M (Unit {0})
  callback_lw raw = do
    a ← get_xreg h (rs1 raw)
    let addr = add32 a (imm_i raw)
    mem_val ← reading (λ mem. load_u32 h.asserts mem addr)
    set_xreg h (rd raw) mem_val
    step

  unfoldable pub callback_lbu : ℕ → M (Unit {0})
  callback_lbu raw = do
    a ← get_xreg h (rs1 raw)
    let addr = add32 a (imm_i raw)
    mem_val ← reading (λ mem. load_u8 h.asserts mem addr)
    set_xreg h (rd raw) mem_val
    step

  unfoldable pub callback_lhu : ℕ → M (Unit {0})
  callback_lhu raw = do
    a ← get_xreg h (rs1 raw)
    let addr = add32 a (imm_i raw)
    mem_val ← reading (λ mem. load_u16 h.asserts mem addr)
    set_xreg h (rd raw) mem_val
    step

  unfoldable pub callback_sb : ℕ → M (Unit {0})
  callback_sb raw = do
    a ← get_xreg h (rs1 raw)
    let addr = add32 a (imm_s raw)
    b ← get_xreg h (rs2 raw)
    writing (λ mem. store_u8 h.asserts mem addr (trunc_high 8 b))
    step

  unfoldable pub callback_sh : ℕ → M (Unit {0})
  callback_sh raw = do
    a ← get_xreg h (rs1 raw)
    let addr = add32 a (imm_s raw)
    b ← get_xreg h (rs2 raw)
    writing (λ mem. store_u16 h.asserts mem addr (trunc_high 16 b))
    step

  unfoldable pub callback_sw : ℕ → M (Unit {0})
  callback_sw raw = do
    a ← get_xreg h (rs1 raw)
    let addr = add32 a (imm_s raw)
    b ← get_xreg h (rs2 raw)
    writing (λ mem. store_u32 h.asserts mem addr b)
    step

  unfoldable pub callback_flw : ℕ → M (Unit {0})
  callback_flw raw = do
    a ← get_xreg h (rs1 raw)
    let addr = add32 a (imm_i raw)
    v ← reading (λ mem. load_u32 h.asserts mem addr)
    set_freg h (rd raw) v
    step

  unfoldable pub callback_fsw : ℕ → M (Unit {0})
  callback_fsw raw = do
    a ← get_xreg h (rs1 raw)
    let addr = add32 a (imm_s raw)
    mem_val ← get_freg h (rs2 raw)
    writing (λ mem. store_u32 h.asserts mem addr mem_val)
    step
