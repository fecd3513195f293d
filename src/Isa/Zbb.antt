-- ===== src/Isa/Zbb.antt =====
-- src/isa/source/ext_zbb_cb.cpp. Each callback reads its registers, computes, writes rd and steps:
-- the one-operand ones by `execute_rr_op`, the others by `execute_rrr_bin_op`. The computation is
-- a function of its own.
pub mod Words
pub mod Counts
pub mod Bytes
pub mod Rotate
pub mod Zeros
use riscv_sim.Prelude.{ℕ, ◌-◌, ◌*◌, ◌/◌, ◌%◌, ◌^◌, bit_and, bit_or, bit_xor}
use riscv_sim.Outcome.{Outcome, ok}
use riscv_sim.Word.{bit_not, trunc_high, sign_ext_to}
use riscv_sim.Insn.{rd, rs1}
use riscv_sim.Host.{Host}
use riscv_sim.Machine.State.{M, ◌>>=◌, ◌>>◌}
use riscv_sim.Machine.{step, set_xreg, get_xreg}
use riscv_sim.Isa.Shapes.{execute_rrr_bin_op, execute_rri_shift}
use Words.{min_s, min_u, max_s, max_u, clz, ctz, cpop, rotate_left, rotate_right, rev8, orc_b}

module _ (h : Host) where
  unfoldable pub execute_rr_op : ℕ → (ℕ → ℕ) → M (Unit {0})
  execute_rr_op raw op = do rs ← get_xreg h (rs1 raw); set_xreg h (rd raw) (op rs); step

  unfoldable pub callback_andn : ℕ → M (Unit {0})
  callback_andn raw = execute_rrr_bin_op h raw (λ a b. ok (bit_and a (bit_not b)))

  unfoldable pub callback_orn : ℕ → M (Unit {0})
  callback_orn raw = execute_rrr_bin_op h raw (λ a b. ok (bit_or a (bit_not b)))

  unfoldable pub callback_xnor : ℕ → M (Unit {0})
  callback_xnor raw = execute_rrr_bin_op h raw (λ a b. ok (bit_not (bit_xor a b)))

  unfoldable pub callback_min : ℕ → M (Unit {0})
  callback_min raw = execute_rrr_bin_op h raw (λ a b. ok (min_s a b))

  unfoldable pub callback_minu : ℕ → M (Unit {0})
  callback_minu raw = execute_rrr_bin_op h raw (λ a b. ok (min_u a b))

  unfoldable pub callback_max : ℕ → M (Unit {0})
  callback_max raw = execute_rrr_bin_op h raw (λ a b. ok (max_s a b))

  unfoldable pub callback_maxu : ℕ → M (Unit {0})
  callback_maxu raw = execute_rrr_bin_op h raw (λ a b. ok (max_u a b))

  unfoldable pub callback_sext_b : ℕ → M (Unit {0})
  callback_sext_b raw = execute_rr_op raw (λ rs. sign_ext_to 32 8 (trunc_high 8 rs))

  unfoldable pub callback_sext_h : ℕ → M (Unit {0})
  callback_sext_h raw = execute_rr_op raw (λ rs. sign_ext_to 32 16 (trunc_high 16 rs))

  unfoldable pub callback_zext_h : ℕ → M (Unit {0})
  callback_zext_h raw = execute_rr_op raw (λ rs. trunc_high 16 rs)

  unfoldable pub callback_clz : ℕ → M (Unit {0})
  callback_clz raw = execute_rr_op raw clz

  unfoldable pub callback_ctz : ℕ → M (Unit {0})
  callback_ctz raw = execute_rr_op raw ctz

  unfoldable pub callback_cpop : ℕ → M (Unit {0})
  callback_cpop raw = execute_rr_op raw cpop

  unfoldable pub callback_rol : ℕ → M (Unit {0})
  callback_rol raw = execute_rrr_bin_op h raw (λ a b. rotate_left a (bit_and b 31))

  unfoldable pub callback_ror : ℕ → M (Unit {0})
  callback_ror raw = execute_rrr_bin_op h raw (λ a b. rotate_right a (bit_and b 31))

  unfoldable pub callback_rori : ℕ → M (Unit {0})
  callback_rori raw = execute_rri_shift h raw rotate_right

  unfoldable pub callback_rev8 : ℕ → M (Unit {0})
  callback_rev8 raw = execute_rr_op raw rev8

  unfoldable pub callback_orc_b : ℕ → M (Unit {0})
  callback_orc_b raw = execute_rr_op raw orc_b
