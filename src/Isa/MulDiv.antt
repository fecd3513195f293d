-- ===== src/Isa/MulDiv.antt =====
-- src/isa/source/ext_m_cb.cpp. Each callback reads rs1 and rs2, computes, and writes rd; the
-- computation is a function of its own where it branches.
pub mod Laws
pub mod High
use riscv_sim.Prelude.{ℕ, ◌+◌, ◌-◌, ◌*◌, ◌/◌, ◌%◌, ◌^◌, ◌&&◌, ltb, ◌==◌, if◌then◌else◌}
use riscv_sim.Prelude.{ℤ, pos, negsuc, pos_part, neg_part, eqb_ℤ, ◌*ℤ◌, ◌/ℤ◌, ◌%ℤ◌}
use riscv_sim.Prelude.{Bool}
use riscv_sim.Outcome.{Outcome, ok, fault, undefined, ◌>>=◌}
use riscv_sim.Word.{reg_to_ireg, ireg_to_reg, wreg_to_wireg, wireg_to_wreg}
use riscv_sim.Word.{trunc_high, trunc_low, sign_ext_to}
use riscv_sim.Host.{Host}
use riscv_sim.Machine.State.{M}
use riscv_sim.Isa.Shapes.{execute_rrr_bin_op}

abbrev pub ireg_min : ℤ
ireg_min = negsuc (2 ^ 31 - 1)

-- The registers are widened to uint64_t.
unfoldable pub mul : ℕ → ℕ → Outcome ℕ
unfolding trunc_high
mul rs1 rs2 = let product = (rs1 * rs2) % 2 ^ 64 in ok (trunc_high 32 product)

-- A product of int64_t, which is undefined where it does not fit.
unfoldable pub mul_wireg : ℤ → ℤ → Outcome ℕ
mul_wireg a b =
    let product = a *ℤ b in
    if ltb (pos_part product) (2 ^ 63) && ltb (neg_part product) (2 ^ 63 + 1)
    then ok (wireg_to_wreg product)
    else fault undefined

-- `TruncLow<Register>(mul)` of a product.
unfoldable pub high_half : Outcome ℕ → Outcome ℕ
high_half (ok product) = ok (trunc_low 64 32 product)
high_half (fault e) = fault e

-- uint32_t to int64_t keeps the value: both operands are taken without a sign.
unfoldable pub mulh : ℕ → ℕ → Outcome ℕ
mulh rs1 rs2 = high_half (mul_wireg (pos rs1) (pos rs2))

-- rs2 goes through RegToIReg: both operands are taken with a sign.
unfoldable pub mulhsu : ℕ → ℕ → Outcome ℕ
mulhsu rs1 rs2 = high_half (mul_wireg (wreg_to_wireg (sign_ext_to 64 32 rs1)) (reg_to_ireg rs2))

unfoldable pub mulhu : ℕ → ℕ → Outcome ℕ
unfolding trunc_low
mulhu rs1 rs2 = let product = (rs1 * rs2) % 2 ^ 64 in ok (trunc_low 64 32 product)

-- Whether an int32_t holds an integer.
abbrev pub fits_ireg : ℤ → Bool
fits_ireg z = ltb (pos_part z) (2 ^ 31) && ltb (neg_part z) (2 ^ 31 + 1)

-- `/` and `%` of int32_t, which are undefined for a divisor of 0 and where the quotient does not
-- fit.
unfoldable pub div_ireg : ℤ → ℤ → Outcome ℤ
unfolding ◌/ℤ◌
div_ireg a b =
    if eqb_ℤ b (pos 0)
    then fault undefined
    else if fits_ireg (a /ℤ b)
    then ok (a /ℤ b)
    else fault undefined

unfoldable pub rem_ireg : ℤ → ℤ → Outcome ℤ
unfolding ◌/ℤ◌ ◌%ℤ◌
rem_ireg a b =
    if eqb_ℤ b (pos 0)
    then fault undefined
    else if fits_ireg (a /ℤ b)
    then ok (a %ℤ b)
    else fault undefined

unfoldable pub div : ℕ → ℕ → Outcome ℕ
unfolding reg_to_ireg ireg_to_reg
div a b =
    let rs1 = reg_to_ireg a in
    let rs2 = reg_to_ireg b in
    if eqb_ℤ rs2 (pos 0)
    then ok (ireg_to_reg (negsuc 0))
    else if eqb_ℤ rs1 ireg_min && eqb_ℤ rs2 (negsuc 0)
    then ok (ireg_to_reg ireg_min)
    else div_ireg rs1 rs2 >>= λ quotient. ok (ireg_to_reg quotient)

unfoldable pub divu : ℕ → ℕ → ℕ
divu rs1 rs2 = if rs2 == 0 then 2 ^ 32 - 1 else rs1 / rs2

unfoldable pub rem : ℕ → ℕ → Outcome ℕ
unfolding reg_to_ireg ireg_to_reg
rem a b =
    let rs1 = reg_to_ireg a in
    let rs2 = reg_to_ireg b in
    if eqb_ℤ rs2 (pos 0)
    then ok (ireg_to_reg rs1)
    else if eqb_ℤ rs1 ireg_min && eqb_ℤ rs2 (negsuc 0)
    then ok 0
    else rem_ireg rs1 rs2 >>= λ remainder. ok (ireg_to_reg remainder)

unfoldable pub remu : ℕ → ℕ → ℕ
remu rs1 rs2 = if rs2 == 0 then rs1 else rs1 % rs2

module _ (h : Host) where
  unfoldable pub callback_mul : ℕ → M (Unit {0})
  callback_mul raw = execute_rrr_bin_op h raw mul

  unfoldable pub callback_mulh : ℕ → M (Unit {0})
  callback_mulh raw = execute_rrr_bin_op h raw mulh

  unfoldable pub callback_mulhsu : ℕ → M (Unit {0})
  callback_mulhsu raw = execute_rrr_bin_op h raw mulhsu

  unfoldable pub callback_mulhu : ℕ → M (Unit {0})
  callback_mulhu raw = execute_rrr_bin_op h raw mulhu

  unfoldable pub callback_div : ℕ → M (Unit {0})
  callback_div raw = execute_rrr_bin_op h raw div

  unfoldable pub callback_divu : ℕ → M (Unit {0})
  callback_divu raw = execute_rrr_bin_op h raw (λ a b. ok (divu a b))

  unfoldable pub callback_rem : ℕ → M (Unit {0})
  callback_rem raw = execute_rrr_bin_op h raw rem

  unfoldable pub callback_remu : ℕ → M (Unit {0})
  callback_remu raw = execute_rrr_bin_op h raw (λ a b. ok (remu a b))
