-- ===== src/Isa/Range/BitValues.antt =====
-- The widths of what the bit manipulation and the float instructions compute.
use riscv_sim.Prelude.{ℕ, zero, suc, ◌+◌, ◌-◌, ◌*◌, ◌^◌, ◌≤◌, arith, inl, inr, Bool-cases}
use riscv_sim.Word.{get_byte, set_byte, is_bit_set}
use riscv_sim.Host.{Host}
use riscv_sim.Machine.Range.{
  IsWord, word, IsWord-lt, mod-IsWord, bit_and-IsWord, bit_or-IsWord, bit_xor-IsWord,
  bit_not-IsWord, shift-IsWord, if-IsWord, Bounded, ok-Bounded, fault-Bounded, if-Bounded,
  >>=-Bounded,
}
use riscv_sim.Isa.Zbb.Words.{
  min_s, min_u, max_s, max_u, zeros_above, clz, lowest_set, ctz, bcount_from, cpop, rotate_left,
  rotate_right, rev8_from, rev8, orc_b_from, orc_b,
}
use riscv_sim.Isa.Float.Shapes.{f32_neg, fsgnj, fsgnjn, fsgnjx, fclass}
use riscv_sim.Isa.Range.Values.{
  zero-IsWord, one-IsWord, ireg_to_reg-IsWord, sign_extend-IsWord, imm_i-IsWord, imm_u-IsWord,
  masked-IsWord, trunc_high-IsWord, sign_ext_to-IsWord, arithm_right_shift-IsWord, mul-Bounded,
  mulh-Bounded, mulhsu-Bounded, mulhu-Bounded, div-Bounded, rem-Bounded, divu-IsWord, remu-IsWord,
}

pub min_s-IsWord : (a b : ℕ) → IsWord a → IsWord b → IsWord (min_s a b)
unfolding min_s
min_s-IsWord a b p q = if-IsWord _ _ _ p q

pub min_u-IsWord : (a b : ℕ) → IsWord a → IsWord b → IsWord (min_u a b)
unfolding min_u
min_u-IsWord a b p q = if-IsWord _ _ _ p q

pub max_s-IsWord : (a b : ℕ) → IsWord a → IsWord b → IsWord (max_s a b)
unfolding max_s
max_s-IsWord a b p q = if-IsWord _ _ _ q p

pub max_u-IsWord : (a b : ℕ) → IsWord a → IsWord b → IsWord (max_u a b)
unfolding max_u
max_u-IsWord a b p q = if-IsWord _ _ _ q p

pub clz-IsWord : (a : ℕ) → IsWord (clz a)
unfolding clz zeros_above
clz-IsWord a = mod-IsWord _

lowest_set-lt : (rs left i : ℕ) → i + left ≤ 32 → lowest_set rs left i ≤ 32
unfolding lowest_set
lowest_set-lt rs zero i h = omega arith
lowest_set-lt rs (suc left) i h = ground (arith, lowest_set-lt rs left (i + 1))

pub ctz-IsWord : (a : ℕ) → IsWord (ctz a)
unfolding ctz
ctz-IsWord a = word _ (omega (arith, lowest_set-lt a 32 0 (omega arith)))

bcount_from-le : (rs left i n : ℕ) → bcount_from rs left i n ≤ n + left
unfolding bcount_from
bcount_from-le rs zero i n = omega arith
bcount_from-le rs (suc left) i n = elim (Bool-cases (is_bit_set rs i)) [
  | inl one ↦ rw one (omega (arith, bcount_from-le rs left (i + 1) (n + 1)))
  | inr nought ↦ rw nought (omega (arith, bcount_from-le rs left (i + 1) n))
]

pub cpop-IsWord : (a : ℕ) → IsWord (cpop a)
unfolding cpop
cpop-IsWord a = word _ (omega (arith, bcount_from-le a 32 0 0))

set_byte-IsWord : (val b i : ℕ) → IsWord val → IsWord (set_byte val b i)
unfolding set_byte
set_byte-IsWord val b i w = bit_or-IsWord _ _ (masked-IsWord (i * 8) val w) (mod-IsWord _)

rev8_from-IsWord : (rs left i j val : ℕ) → IsWord val → IsWord (rev8_from rs left i j val)
unfolding rev8_from
rev8_from-IsWord rs zero i j val w = w
rev8_from-IsWord rs (suc left) i j val w =
    rev8_from-IsWord rs left (i + 1) (j - 1) (set_byte val (get_byte rs j) i)
      (set_byte-IsWord val (get_byte rs j) i w)

pub rev8-IsWord : (a : ℕ) → IsWord (rev8 a)
unfolding rev8
rev8-IsWord a = rev8_from-IsWord a 4 0 3 0 zero-IsWord

orc_b_from-IsWord : (rs left i val : ℕ) → IsWord val → IsWord (orc_b_from rs left i val)
unfolding orc_b_from
orc_b_from-IsWord rs zero i val w = w
orc_b_from-IsWord rs (suc left) i val w =
    orc_b_from-IsWord rs left (i + 1) _
      (if-IsWord _ _ _ (set_byte-IsWord val 0 i w) (set_byte-IsWord val 255 i w))

pub orc_b-IsWord : (a : ℕ) → IsWord (orc_b a)
unfolding orc_b
orc_b-IsWord a = orc_b_from-IsWord a 4 0 0 zero-IsWord

pub f32_neg-IsWord : (v : ℕ) → IsWord v → IsWord (f32_neg v)
unfolding f32_neg
f32_neg-IsWord v w =
    let sign = word (2 ^ 31) (omega arith) in
    search (w, sign, bit_or-IsWord, bit_and-IsWord, bit_xor-IsWord, bit_not-IsWord)

pub fsgnj-IsWord : (a b : ℕ) → IsWord a → IsWord b → IsWord (fsgnj a b)
unfolding fsgnj
fsgnj-IsWord a b p q =
    let sign = word (2 ^ 31) (omega arith) in
    search (p, q, sign, bit_or-IsWord, bit_and-IsWord, bit_xor-IsWord, bit_not-IsWord)

pub fsgnjn-IsWord : (a b : ℕ) → IsWord a → IsWord b → IsWord (fsgnjn a b)
unfolding fsgnjn
fsgnjn-IsWord a b p q =
    let sign = word (2 ^ 31) (omega arith) in
    search (p, q, sign, bit_or-IsWord, bit_and-IsWord, bit_xor-IsWord, bit_not-IsWord)

pub fsgnjx-IsWord : (a b : ℕ) → IsWord a → IsWord b → IsWord (fsgnjx a b)
unfolding fsgnjx
fsgnjx-IsWord a b p q =
    let sign = word (2 ^ 31) (omega arith) in
    search (p, q, sign, bit_or-IsWord, bit_and-IsWord, bit_xor-IsWord, bit_not-IsWord)

pub fclass-IsWord : (h : Host) (a : ℕ) → IsWord (fclass h a)
unfolding fclass
fclass-IsWord h a = mod-IsWord _

pub rotate_left-Bounded : (a b : ℕ) → IsWord a → Bounded (rotate_left a b)
unfolding rotate_left
rotate_left-Bounded a b w =
    search
      (
        w, >>=-Bounded, if-Bounded, ok-Bounded, fault-Bounded, mod-IsWord, shift-IsWord,
        bit_or-IsWord,
      )
      depth 9

pub rotate_right-Bounded : (a b : ℕ) → IsWord a → Bounded (rotate_right a b)
unfolding rotate_right
rotate_right-Bounded a b w =
    search
      (
        w, >>=-Bounded, if-Bounded, ok-Bounded, fault-Bounded, mod-IsWord, shift-IsWord,
        bit_or-IsWord,
      )
      depth 9

pub ruleset word_rules = (
  zero-IsWord, one-IsWord, mod-IsWord, bit_and-IsWord, bit_or-IsWord, bit_xor-IsWord,
  bit_not-IsWord, shift-IsWord, if-IsWord, ok-Bounded, fault-Bounded, if-Bounded,
  ireg_to_reg-IsWord, imm_i-IsWord, imm_u-IsWord, trunc_high-IsWord, sign_ext_to-IsWord,
  arithm_right_shift-IsWord, mul-Bounded, mulh-Bounded, mulhsu-Bounded, mulhu-Bounded, div-Bounded,
  rem-Bounded, divu-IsWord, remu-IsWord, min_s-IsWord, min_u-IsWord, max_s-IsWord, max_u-IsWord,
  clz-IsWord, ctz-IsWord, cpop-IsWord, rev8-IsWord, orc_b-IsWord, rotate_left-Bounded,
  rotate_right-Bounded, f32_neg-IsWord, fsgnj-IsWord, fsgnjn-IsWord, fsgnjx-IsWord, fclass-IsWord,
)
