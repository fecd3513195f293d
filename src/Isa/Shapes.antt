-- ===== src/Isa/Shapes.antt =====
-- The templates of src/isa/source/ext_i_cb.cpp that the callbacks of one form share.
use riscv_sim.Prelude.{ℕ, Bool, ltb, if◌then◌else◌}
use riscv_sim.Outcome.{Outcome, ok, fault, undefined}
use riscv_sim.Word.{◌<<<◌, ◌>>>◌, add32}
use riscv_sim.Insn.{rd, rs1, rs2, shamt, imm_i, imm_b}
use riscv_sim.Host.{Host}
use riscv_sim.Machine.State.{M, ◌>>=◌, ◌>>◌}
use riscv_sim.Machine.{step, get_ip, set_ip, set_xreg, get_xreg}

abbrev pub lift : {A : Type 0} → Outcome A → M A
lift o s = elim o [ fault e ↦ fault e | ok a ↦ ok (a, s) ]

-- `a << b` and `a >> b` on uint32_t, which are undefined from b = 32 on.
abbrev pub shift_left : ℕ → ℕ → Outcome ℕ
shift_left a b = if ltb b 32 then ok (a <<< b) else fault undefined

abbrev pub shift_right : ℕ → ℕ → Outcome ℕ
shift_right a b = if ltb b 32 then ok (a >>> b) else fault undefined

module _ (h : Host) where
  unfoldable pub execute_rrr_bin_op : ℕ → (ℕ → ℕ → Outcome ℕ) → M (Unit {0})
  execute_rrr_bin_op raw bin_op = do
    a ← get_xreg h (rs1 raw)
    b ← get_xreg h (rs2 raw)
    r ← lift (bin_op a b)
    set_xreg h (rd raw) r
    step

  unfoldable pub execute_rri_bin_op : ℕ → (ℕ → ℕ → Outcome ℕ) → M (Unit {0})
  execute_rri_bin_op raw bin_op = do
    a ← get_xreg h (rs1 raw)
    r ← lift (bin_op a (imm_i raw))
    set_xreg h (rd raw) r
    step

  unfoldable pub execute_rri_shift : ℕ → (ℕ → ℕ → Outcome ℕ) → M (Unit {0})
  execute_rri_shift raw bin_op = do
    a ← get_xreg h (rs1 raw)
    r ← lift (bin_op a (shamt raw))
    set_xreg h (rd raw) r
    step

  unfoldable pub execute_branch : ℕ → (ℕ → ℕ → Bool) → M (Unit {0})
  execute_branch raw pred = do
    a ← get_xreg h (rs1 raw)
    b ← get_xreg h (rs2 raw)
    ip ← get_ip
    if pred a b then set_ip (add32 ip (imm_b raw)) else step
