-- ===== src/Word/Digits.antt =====
-- Single bits of a word, signs, and the helpers of isa_hlp.hpp as arithmetic.
use native.Mathlib.Nat.{pow-le-pow_right, one-le-pow, mod-mod}
use riscv_sim.Bits.{bit_and-one, bit_and_top, bit_and_mask, two-pow-suc, bit_or_fields'}
use riscv_sim.Prelude.{ℕ, zero, suc, ◌+◌, ◌-◌, ◌*◌, ◌/◌, ◌%◌, ◌^◌, ◌<◌, ◌≡◌, ap, sym, ◌∙◌, arith}
use riscv_sim.Prelude.{ltb, ◌==◌, if◌then◌else◌, bit_and, bit_or}
use riscv_sim.Word.{
  reg_to_ireg, ireg_to_reg, is_bit_set, trunc_high, trunc_low, get_byte, set_byte, sign_ext_to,
}

abbrev pub digit : ℕ → ℕ → ℕ
digit x i = x / 2 ^ i % 2

pub two-pow-lt : (i : ℕ) → i < 32 → 2 ^ i < 2 ^ 32
two-pow-lt i h = omega (
  arith,
  pow-le-pow_right {n = 2} (omega arith) {i = suc i} {j = 32} h,
  two-pow-suc i,
  one-le-pow i 2 (omega arith),
)

pub is_bit_set_lem : (x i : ℕ) → i < 32 → is_bit_set x i ≡ (digit x i == 1)
unfolding is_bit_set
is_bit_set_lem x i h = ground (
  arith,
  two-pow-lt i h,
  one-le-pow i 2,
  bit_and_top i (x / 2 ^ i) (x % 2 ^ i),
  bit_and-one (x / 2 ^ i),
)

pub ireg_to_reg-reg_to_ireg : (w : ℕ) → w < 2 ^ 32 → ireg_to_reg (reg_to_ireg w) ≡ w
unfolding ireg_to_reg reg_to_ireg
ireg_to_reg-reg_to_ireg w h = ground arith

-- The two sign extensions that the callbacks use.
pub sign_ext_8 :
    (x : ℕ) → x < 2 ^ 8 → sign_ext_to 32 8 x ≡ (if ltb x (2 ^ 7) then x else x + (2 ^ 32 - 2 ^ 8))
unfolding sign_ext_to
sign_ext_8 x h = ground (
  arith,
  bit_and_mask 8 x,
  bit_and_top 7 (x / 2 ^ 7) (x % 2 ^ 7),
  bit_and-one (x / 2 ^ 7),
  bit_or_fields' 8 (2 ^ 24 - 1) x,
)

pub sign_ext_16 :
    (x : ℕ)
    → x < 2 ^ 16
    → sign_ext_to 32 16 x ≡ (if ltb x (2 ^ 15) then x else x + (2 ^ 32 - 2 ^ 16))
unfolding sign_ext_to
sign_ext_16 x h = ground (
  arith,
  bit_and_mask 16 x,
  bit_and_top 15 (x / 2 ^ 15) (x % 2 ^ 15),
  bit_and-one (x / 2 ^ 15),
  bit_or_fields' 16 (2 ^ 16 - 1) x,
)

pub sign_ext_32 :
    (x : ℕ)
    → x < 2 ^ 32
    → sign_ext_to 64 32 x ≡ (if ltb x (2 ^ 31) then x else x + (2 ^ 64 - 2 ^ 32))
unfolding sign_ext_to
sign_ext_32 x h = ground (
  arith,
  bit_and_mask 32 x,
  bit_and_top 31 (x / 2 ^ 31) (x % 2 ^ 31),
  bit_and-one (x / 2 ^ 31),
  bit_or_fields' 32 (2 ^ 32 - 1) x,
)

-- A sign extension reads only the low bits.
pub sign_ext_to-mod : (to from x : ℕ) → sign_ext_to to from x ≡ sign_ext_to to from (x % 2 ^ from)
unfolding sign_ext_to
sign_ext_to-mod to from x =
    let low : bit_and x (2 ^ from - 1) ≡ bit_and (x % 2 ^ from) (2 ^ from - 1) =
      bit_and_mask from x ∙ sym (bit_and_mask from (x % 2 ^ from) ∙ mod-mod x (2 ^ from)) in
    ap (λ v. if bit_and v (2 ^ (from - 1)) == 0 then v else bit_or v (2 ^ to - 1 - (2 ^ from - 1)))
      low

-- The low n bits of a value, with the other bits of the word all ones where the highest is set.
abbrev pub extended : ℕ → ℕ → ℕ
extended n v = let low = v % 2 ^ n in if ltb low (2 ^ (n - 1)) then low else low + (2 ^ 32 - 2 ^ n)

pub sign_ext_8-extended : (v : ℕ) → sign_ext_to 32 8 v ≡ extended 8 v
sign_ext_8-extended v = sign_ext_to-mod 32 8 v ∙ sign_ext_8 (v % 2 ^ 8) (omega arith)

pub sign_ext_16-extended : (v : ℕ) → sign_ext_to 32 16 v ≡ extended 16 v
sign_ext_16-extended v = sign_ext_to-mod 32 16 v ∙ sign_ext_16 (v % 2 ^ 16) (omega arith)

pub trunc_high_lem : (k x : ℕ) → trunc_high k x ≡ x % 2 ^ k
unfolding trunc_high
trunc_high_lem k x = bit_and_mask k x

pub trunc_low_lem : (x : ℕ) → x < 2 ^ 64 → trunc_low 64 32 x ≡ x / 2 ^ 32
unfolding trunc_low
trunc_low_lem x h = omega (arith, bit_and_mask 32 (x / 2 ^ 32))

pub get_byte_lem : (x i : ℕ) → get_byte x i ≡ x / 2 ^ (i * 8) % 256
unfolding get_byte
get_byte_lem x i = trunc_high_lem 8 (x / 2 ^ (i * 8))

-- SetByte keeps the bytes below the index and clears those above it.
pub set_byte_lem :
    (val byte index : ℕ)
    → index < 4
    → byte < 256
    → set_byte val byte index ≡ val % 2 ^ (index * 8) + byte * 2 ^ (index * 8)
unfolding set_byte
set_byte_lem val byte zero hi hb = ground (arith, bit_and_mask 0 val, bit_or_fields' 0 byte 0)
set_byte_lem val byte (suc zero) hi hb =
    ground (arith, bit_and_mask 8 val, bit_or_fields' 8 byte (val % 2 ^ 8))
set_byte_lem val byte (suc (suc zero)) hi hb =
    ground (arith, bit_and_mask 16 val, bit_or_fields' 16 byte (val % 2 ^ 16))
set_byte_lem val byte (suc (suc (suc zero))) hi hb =
    ground (arith, bit_and_mask 24 val, bit_or_fields' 24 byte (val % 2 ^ 24))
set_byte_lem val byte (suc (suc (suc (suc i)))) hi hb = absurd (omega arith)
