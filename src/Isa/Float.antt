-- ===== src/Isa/Float.antt =====
-- src/isa/source/ext_f_cb.cpp: the callbacks of the F extension. The SoftFloat routines are the
-- host's; `call` adds the flags that one raises to the library's global.
pub mod Shapes
pub mod Laws
pub mod Effects
pub mod Fused
pub mod Compare
pub mod Convert
pub mod Root
pub mod Moves
use riscv_sim.Prelude.{ℕ, ◌-◌, ◌*◌, ◌/◌, ◌%◌, ◌^◌, true, bit_and, bit_or, bit_xor, if◌then◌else◌}
use riscv_sim.Word.{◌<<<◌, bit_not}
use riscv_sim.Insn.{rd, rs1, rs2, rm}
use riscv_sim.Host.{Host}
use riscv_sim.Machine.State.{M, pure, ◌>>=◌, ◌>>◌}
use riscv_sim.Machine.{step, set_xreg, get_xreg, set_freg, get_freg, get_rm}
use Shapes.{
  call, rounding, soft_float_set_rm, soft_float_clear_fexcp, soft_float_set_fexcp, f32_neg, fclass,
  fsgnj, fsgnjn, fsgnjx, execute_rrrf_bin_op, execute_rrrrf_tern_op, execute_rrr_cmp_op,
}

module _ (h : Host) where
  unfoldable pub callback_fadd_s : ℕ → M (Unit {0})
  callback_fadd_s raw = execute_rrrf_bin_op h raw (λ a b. rounding (λ r. h.f32_add r a b))

  unfoldable pub callback_fsub_s : ℕ → M (Unit {0})
  callback_fsub_s raw = execute_rrrf_bin_op h raw (λ a b. rounding (λ r. h.f32_sub r a b))

  unfoldable pub callback_fmul_s : ℕ → M (Unit {0})
  callback_fmul_s raw = execute_rrrf_bin_op h raw (λ a b. rounding (λ r. h.f32_mul r a b))

  unfoldable pub callback_fdiv_s : ℕ → M (Unit {0})
  callback_fdiv_s raw = execute_rrrf_bin_op h raw (λ a b. rounding (λ r. h.f32_div r a b))

  unfoldable pub callback_fsqrt_s : ℕ → M (Unit {0})
  callback_fsqrt_s raw = do
    soft_float_clear_fexcp
    mode ← get_rm h (rm raw)
    _ ← soft_float_set_rm h mode
    a ← get_freg h (rs1 raw)
    res ← rounding (λ r. h.f32_sqrt r a)
    set_freg h (rd raw) res
    soft_float_set_fexcp h
    step

  unfoldable pub callback_fmadd_s : ℕ → M (Unit {0})
  callback_fmadd_s raw =
      execute_rrrrf_tern_op h raw (λ a b c. rounding (λ r. h.f32_mul_add r a b c))

  unfoldable pub callback_fmsub_s : ℕ → M (Unit {0})
  callback_fmsub_s raw =
      execute_rrrrf_tern_op h raw (λ a b c. rounding (λ r. h.f32_mul_add r a b (f32_neg c)))

  unfoldable pub callback_fnmsub_s : ℕ → M (Unit {0})
  callback_fnmsub_s raw =
      execute_rrrrf_tern_op h raw (λ a b c. rounding (λ r. h.f32_mul_add r (f32_neg a) b c))

  unfoldable pub callback_fnmadd_s : ℕ → M (Unit {0})
  callback_fnmadd_s raw =
      execute_rrrrf_tern_op h raw
        (λ a b c. rounding (λ r. h.f32_mul_add r a b c) >>= λ v. pure (f32_neg v))

  unfoldable pub execute_sign_op : ℕ → (ℕ → ℕ → ℕ) → M (Unit {0})
  execute_sign_op raw op = do
    a ← get_freg h (rs1 raw)
    b ← get_freg h (rs2 raw)
    set_freg h (rd raw) (op a b)
    step

  unfoldable pub callback_fsgnj_s : ℕ → M (Unit {0})
  callback_fsgnj_s raw = execute_sign_op raw fsgnj

  unfoldable pub callback_fsgnjn_s : ℕ → M (Unit {0})
  callback_fsgnjn_s raw = execute_sign_op raw fsgnjn

  unfoldable pub callback_fsgnjx_s : ℕ → M (Unit {0})
  callback_fsgnjx_s raw = execute_sign_op raw fsgnjx

  -- f32_min and f32_max: no flag is cleared before, or handed on after.
  unfoldable pub callback_fmin_s : ℕ → M (Unit {0})
  callback_fmin_s raw = do
    a ← get_freg h (rs1 raw)
    b ← get_freg h (rs2 raw)
    le ← call (h.f32_le a b)
    set_freg h (rd raw) (if le then a else b)
    step

  unfoldable pub callback_fmax_s : ℕ → M (Unit {0})
  callback_fmax_s raw = do
    a ← get_freg h (rs1 raw)
    b ← get_freg h (rs2 raw)
    le ← call (h.f32_le a b)
    set_freg h (rd raw) (if le then b else a)
    step

  unfoldable pub callback_fle_s : ℕ → M (Unit {0})
  callback_fle_s raw = execute_rrr_cmp_op h raw (λ a b. call (h.f32_le a b))

  unfoldable pub callback_flt_s : ℕ → M (Unit {0})
  callback_flt_s raw = execute_rrr_cmp_op h raw (λ a b. call (h.f32_lt a b))

  unfoldable pub callback_feq_s : ℕ → M (Unit {0})
  callback_feq_s raw = execute_rrr_cmp_op h raw (λ a b. call (h.f32_eq a b))

  unfoldable pub callback_fcvt_w_s : ℕ → M (Unit {0})
  callback_fcvt_w_s raw = do
    soft_float_clear_fexcp
    frs1 ← get_freg h (rs1 raw)
    mode ← get_rm h (rm raw)
    r ← soft_float_set_rm h mode
    conv ← call (h.f32_to_i32 frs1 r true)
    set_xreg h (rd raw) conv
    soft_float_set_fexcp h
    step

  unfoldable pub callback_fcvt_wu_s : ℕ → M (Unit {0})
  callback_fcvt_wu_s raw = do
    soft_float_clear_fexcp
    frs1 ← get_freg h (rs1 raw)
    mode ← get_rm h (rm raw)
    r ← soft_float_set_rm h mode
    conv ← call (h.f32_to_ui32 frs1 r true)
    set_xreg h (rd raw) conv
    soft_float_set_fexcp h
    step

  -- The rounding mode stays what the last instruction that set it left.
  unfoldable pub callback_fcvt_s_w : ℕ → M (Unit {0})
  callback_fcvt_s_w raw = do
    soft_float_clear_fexcp
    a ← get_xreg h (rs1 raw)
    conv ← rounding (λ r. h.i32_to_f32 r a)
    set_freg h (rd raw) conv
    soft_float_set_fexcp h
    step

  unfoldable pub callback_fcvt_s_wu : ℕ → M (Unit {0})
  callback_fcvt_s_wu raw = do
    soft_float_clear_fexcp
    a ← get_xreg h (rs1 raw)
    conv ← rounding (λ r. h.ui32_to_f32 r a)
    set_freg h (rd raw) conv
    soft_float_set_fexcp h
    step

  unfoldable pub callback_fmv_x_w : ℕ → M (Unit {0})
  callback_fmv_x_w raw = do frs1 ← get_freg h (rs1 raw); set_xreg h (rd raw) frs1; step

  unfoldable pub callback_fmv_w_x : ℕ → M (Unit {0})
  callback_fmv_w_x raw = do a ← get_xreg h (rs1 raw); set_freg h (rd raw) a; step

  unfoldable pub callback_fclass_s : ℕ → M (Unit {0})
  callback_fclass_s raw = do rs ← get_freg h (rs1 raw); set_xreg h (rd raw) (fclass h rs); step
