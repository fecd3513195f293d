-- ===== src/Isa/Range/Values.antt =====
-- The widths of what the integer instructions compute.
use native.Mathlib.Nat.{mod-le, div-le_self}
use riscv_sim.Bits.{bit_and_mask}
use riscv_sim.Prelude.{ℕ, ◌-◌, ◌/◌, ◌%◌, ◌^◌, sym, subst, arith, ◌==◌, bit_and, ℤ, pos, negsuc}
use riscv_sim.Outcome.{Outcome, ok, fault, ◌>>=◌}
use riscv_sim.Word.{ireg_to_reg, trunc_high, trunc_low, sign_ext_to, arithm_right_shift}
use riscv_sim.Word.Digits.{trunc_high_lem}
use riscv_sim.Insn.{sign_extend, imm_i, imm_u}
use riscv_sim.Machine.Range.{
  IsWord, word, IsWord-lt, mod-IsWord, bit_and-IsWord, bit_or-IsWord, bit_not-IsWord, shift-IsWord,
  if-IsWord, Bounded, ok-Bounded, fault-Bounded, if-Bounded,
}
use riscv_sim.Isa.MulDiv.{mul, mulh, mulhsu, mulhu, high_half, div, divu, rem, remu}

pub zero-IsWord : IsWord 0
zero-IsWord = word 0 (omega arith)

pub one-IsWord : IsWord 1
one-IsWord = word 1 (omega arith)

pub ireg_to_reg-IsWord : (n : ℤ) → IsWord (ireg_to_reg n)
unfolding ireg_to_reg
ireg_to_reg-IsWord (pos n) = mod-IsWord n
ireg_to_reg-IsWord (negsuc n) = bit_not-IsWord (n % 2 ^ 32)

pub sign_extend-IsWord : (v bits : ℕ) → IsWord (sign_extend v bits)
unfolding sign_extend
sign_extend-IsWord v bits = mod-IsWord _

pub imm_i-IsWord : (raw : ℕ) → IsWord (imm_i raw)
unfolding imm_i
imm_i-IsWord raw = sign_extend-IsWord _ 12

pub imm_u-IsWord : (raw : ℕ) → IsWord raw → IsWord (imm_u raw)
unfolding imm_u
imm_u-IsWord raw w = bit_and-IsWord raw _ w (word _ (omega arith))

pub masked-IsWord : (k x : ℕ) → IsWord x → IsWord (bit_and x (2 ^ k - 1))
masked-IsWord k x w =
    subst IsWord (sym (bit_and_mask k x)) (word _ (omega (arith, mod-le x (2 ^ k), IsWord-lt x w)))

pub trunc_high-IsWord : (k x : ℕ) → IsWord x → IsWord (trunc_high k x)
unfolding trunc_high
trunc_high-IsWord k x w = masked-IsWord k x w

pub sign_ext_to-IsWord : (k x : ℕ) → IsWord x → IsWord (sign_ext_to 32 k x)
unfolding sign_ext_to
sign_ext_to-IsWord k x w =
    let low = masked-IsWord k x w in
    if-IsWord _ _ _ low (bit_or-IsWord _ _ low (bit_not-IsWord (2 ^ k - 1)))

pub arithm_right_shift-IsWord : (x k : ℕ) → IsWord x → IsWord (arithm_right_shift x k)
unfolding arithm_right_shift
arithm_right_shift-IsWord x k w =
    let ones = word (2 ^ 32 - 1) (omega arith) in
    search (ones, w, if-IsWord, zero-IsWord, shift-IsWord, bit_or-IsWord, mod-IsWord)

pub mul-Bounded : (a b : ℕ) → Bounded (mul a b)
unfolding mul
mul-Bounded a b = ok-Bounded _ (subst IsWord (sym (trunc_high_lem 32 _)) (mod-IsWord _))

trunc_low-IsWord : (x : ℕ) → IsWord (trunc_low 64 32 x)
unfolding trunc_low
trunc_low-IsWord x = subst IsWord (sym (bit_and_mask 32 (x / 2 ^ 32))) (mod-IsWord _)

high_half-Bounded : (o : Outcome ℕ) → Bounded (high_half o)
unfolding high_half
high_half-Bounded (ok p) = ok-Bounded _ (trunc_low-IsWord p)
high_half-Bounded (fault e) = fault-Bounded e

pub mulh-Bounded : (a b : ℕ) → Bounded (mulh a b)
unfolding mulh
mulh-Bounded a b = high_half-Bounded _

pub mulhsu-Bounded : (a b : ℕ) → Bounded (mulhsu a b)
unfolding mulhsu
mulhsu-Bounded a b = high_half-Bounded _

pub mulhu-Bounded : (a b : ℕ) → Bounded (mulhu a b)
unfolding mulhu
mulhu-Bounded a b = ok-Bounded _ (trunc_low-IsWord _)

register-Bounded : (o : Outcome ℤ) → Bounded (o >>= λ z. ok (ireg_to_reg z))
register-Bounded (ok z) = ok-Bounded _ (ireg_to_reg-IsWord z)
register-Bounded (fault e) = fault-Bounded e

pub div-Bounded : (a b : ℕ) → Bounded (div a b)
unfolding div
div-Bounded a b = search (if-Bounded, ok-Bounded, register-Bounded, ireg_to_reg-IsWord)

pub rem-Bounded : (a b : ℕ) → Bounded (rem a b)
unfolding rem
rem-Bounded a b = search (if-Bounded, ok-Bounded, register-Bounded, ireg_to_reg-IsWord, zero-IsWord)

pub divu-IsWord : (a b : ℕ) → IsWord a → IsWord (divu a b)
unfolding divu
divu-IsWord a b w =
    let quotient : IsWord (a / b) = word _ (omega (arith, div-le_self a b, IsWord-lt a w)) in
    if-IsWord (b == 0) _ _ (word _ (omega arith)) quotient

pub remu-IsWord : (a b : ℕ) → IsWord a → IsWord (remu a b)
unfolding remu
remu-IsWord a b w =
    let rest : IsWord (a % b) = word _ (omega (arith, mod-le a b, IsWord-lt a w)) in
    if-IsWord (b == 0) _ _ w rest
