-- ===== src/Isa/Float/Shapes.antt =====
-- The helpers and templates of src/isa/source/ext_f_cb.cpp.
use riscv_sim.Prelude.{ℕ, ◌/◌, ◌%◌, ◌^◌, Bool, bit_and, bit_or, bit_xor, ◌==◌, if◌then◌else◌}
use riscv_sim.Outcome.{ok, fault, assert_failed}
use riscv_sim.Word.{◌<<<◌, bit_not}
use riscv_sim.Insn.{rd, rs1, rs2, rs3, rm}
use riscv_sim.Host.{Host}
use riscv_sim.Machine.Enums.{RoundingMode, mode_number}
use riscv_sim.Machine.State.{M, pure, ◌>>=◌, ◌>>◌}
use riscv_sim.Machine.{step, set_xreg, set_freg, get_freg, set_csr, get_csr, get_rm, csr_fflags}

-- A call of a SoftFloat routine.
abbrev pub call : {A : Type 0} → A × ℕ → M A
call (v, raised) s = ok (v, record s { exception_flags = bit_or s.exception_flags raised })

-- A call of one that rounds as `softfloat_roundingMode` says.
abbrev pub rounding : {A : Type 0} → (ℕ → A × ℕ) → M A
rounding f s = call (f s.rounding_mode) s

abbrev pub set_rounding_mode : ℕ → M ℕ
set_rounding_mode r s = ok (r, record s { rounding_mode = r })

unfoldable pub soft_float_clear_fexcp : M (Unit {0})
soft_float_clear_fexcp s = ok (tt, record s { exception_flags = 0 })

abbrev pub sign_bit : ℕ
sign_bit = 2 ^ 31

unfoldable pub f32_neg : ℕ → ℕ
f32_neg v = bit_or (bit_and (bit_xor v sign_bit) sign_bit) (bit_and v (bit_not sign_bit))

unfoldable pub fsgnj : ℕ → ℕ → ℕ
fsgnj rs1 rs2 = bit_or (bit_and rs2 sign_bit) (bit_and rs1 (bit_not sign_bit))

unfoldable pub fsgnjn : ℕ → ℕ → ℕ
fsgnjn rs1 rs2 = bit_or (bit_and (bit_xor rs2 sign_bit) sign_bit) (bit_and rs1 (bit_not sign_bit))

unfoldable pub fsgnjx : ℕ → ℕ → ℕ
fsgnjx rs1 rs2 =
    bit_or (bit_xor (bit_and rs1 sign_bit) (bit_and rs2 sign_bit)) (bit_and rs1 (bit_not sign_bit))

-- std::fpclassify and std::signbit on the 32 bits of a float.
pub data FpClass : Type 0 where
  fp_infinite fp_nan fp_normal fp_subnormal fp_zero : FpClass

unfoldable pub fpclassify : ℕ → FpClass
fpclassify v =
    let exponent = v / 2 ^ 23 % 2 ^ 8 in
    let fraction = v % 2 ^ 23 in
    if exponent == 255
    then (if fraction == 0 then fp_infinite else fp_nan)
    else if exponent == 0
    then (if fraction == 0 then fp_zero else fp_subnormal)
    else fp_normal

unfoldable pub signbit : ℕ → Bool
signbit v = v / 2 ^ 31 % 2 == 1

-- The switch of FCLASS: whether a NaN signals, the class and the sign.
unfoldable pub class_shift : Bool → FpClass → Bool → ℕ
class_shift signaling fp_infinite sign = if sign then 0 else 7
class_shift signaling fp_nan sign = if signaling then 8 else 9
class_shift signaling fp_normal sign = if sign then 1 else 6
class_shift signaling fp_subnormal sign = if sign then 2 else 5
class_shift signaling fp_zero sign = if sign then 3 else 4

module _ (h : Host) where
  -- The function returns the SoftFloat mode; on DYN (with asserts off) and on the values that are no
  -- enumerator it sets nothing and returns 0.
  unfoldable pub soft_float_set_rm : ℕ → M ℕ
  soft_float_set_rm mode =
      if mode == mode_number RoundingMode.rne
      then set_rounding_mode h.round_near_even
      else if mode == mode_number RoundingMode.rtz
      then set_rounding_mode h.round_min_mag
      else if mode == mode_number RoundingMode.rdn
      then set_rounding_mode h.round_min
      else if mode == mode_number RoundingMode.rup
      then set_rounding_mode h.round_max
      else if mode == mode_number RoundingMode.rmm
      then set_rounding_mode h.round_near_max_mag
      else if mode == mode_number RoundingMode.dyn
      then (λ s. if h.asserts then fault assert_failed else ok (0, s))
      else pure 0

  unfoldable pub soft_float_set_fexcp : M (Unit {0})
  soft_float_set_fexcp s =
      let excp_flags = bit_and s.exception_flags 0x1f in
      if excp_flags == 0
      then ok (tt, s)
      else (do sim_flags ← get_csr h csr_fflags; set_csr h csr_fflags (bit_or sim_flags excp_flags))
          s

  -- The shift of FCLASS's hot bit, and the bit.
  unfoldable pub fclass_shift : ℕ → ℕ
  unfolding fpclassify signbit class_shift
  fclass_shift rs = class_shift (h.f32_is_signaling_nan rs) (fpclassify rs) (signbit rs)

  unfoldable pub fclass : ℕ → ℕ
  unfolding fclass_shift
  fclass rs = 1 <<< fclass_shift rs

  unfoldable pub execute_rrrf_bin_op : ℕ → (ℕ → ℕ → M ℕ) → M (Unit {0})
  execute_rrrf_bin_op raw fbin_op = do
    soft_float_clear_fexcp
    mode ← get_rm h (rm raw)
    _ ← soft_float_set_rm mode
    a ← get_freg h (rs1 raw)
    b ← get_freg h (rs2 raw)
    res ← fbin_op a b
    set_freg h (rd raw) res
    soft_float_set_fexcp
    step

  unfoldable pub execute_rrrrf_tern_op : ℕ → (ℕ → ℕ → ℕ → M ℕ) → M (Unit {0})
  execute_rrrrf_tern_op raw ftern_op = do
    soft_float_clear_fexcp
    mode ← get_rm h (rm raw)
    _ ← soft_float_set_rm mode
    a ← get_freg h (rs1 raw)
    b ← get_freg h (rs2 raw)
    c ← get_freg h (rs3 raw)
    res ← ftern_op a b c
    set_freg h (rd raw) res
    soft_float_set_fexcp
    step

  unfoldable pub execute_rrr_cmp_op : ℕ → (ℕ → ℕ → M Bool) → M (Unit {0})
  execute_rrr_cmp_op raw fcmp_op = do
    soft_float_clear_fexcp
    a ← get_freg h (rs1 raw)
    b ← get_freg h (rs2 raw)
    cmp ← fcmp_op a b
    set_xreg h (rd raw) (if cmp then 1 else 0)
    soft_float_set_fexcp
    step
