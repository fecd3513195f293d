-- ===== src/Isa/Zbb/Zeros.antt =====
-- CLZ and CTZ by their digits, and the rotations and ORC_B by arithmetic, for any operand.
use native.Mathlib.Nat.{div-one}
use riscv_sim.Prelude.{
  ℕ, zero, suc, ◌+◌, ◌-◌, ◌*◌, ◌/◌, ◌%◌, ◌^◌, ◌<◌, ◌≤◌, ◌≡◌, refl, ap, sym, ◌∙◌, arith, inl, inr,
  if◌then◌else◌, ◌==◌, false, Bool-cases, bit_or, lt→ltb,
}
use riscv_sim.Outcome.{ok, fault, undefined}
use riscv_sim.Word.{is_bit_set}
use riscv_sim.Word.Digits.{is_bit_set_lem, get_byte_lem}
use riscv_sim.Isa.Zbb.Words.{
  highest_set, zeros_above, clz, lowest_set, ctz, rotate_left, rotate_right, orc_b,
}
use riscv_sim.Isa.Zbb.Counts.{zeros_above-pos, zeros_above-none, digit-next}
use riscv_sim.Isa.Zbb.Bytes.{word, orc_b-word}

-- The number of zeros before the first one among the n low digits, highest first.
unfoldable pub leading_zeros : ℕ → ℕ → ℕ
leading_zeros zero x = 0
leading_zeros (suc n) x = let rest = leading_zeros n x in if x / 2 ^ n % 2 == 1 then 0 else 1 + rest

-- The number of zeros before the first one among n digits, lowest first.
unfoldable pub trailing_zeros : ℕ → ℕ → ℕ
trailing_zeros zero x = 0
trailing_zeros (suc n) x = let rest = trailing_zeros n (x / 2) in if x % 2 == 1 then 0 else 1 + rest

highest_set-leading_zeros :
    (x n : ℕ) → n ≤ 32 → zeros_above (highest_set x n) ≡ (32 - n) + leading_zeros n x
unfolding highest_set leading_zeros
highest_set-leading_zeros x zero le = zeros_above-none
highest_set-leading_zeros x (suc n) le = elim (Bool-cases (is_bit_set x n)) [
  | inl set ↦ rw (set, sym (is_bit_set_lem x n le) ∙ set) (omega (arith, zeros_above-pos n le))
  | inr clear ↦
      rw (clear, sym (is_bit_set_lem x n le) ∙ clear)
        (omega (arith, highest_set-leading_zeros x n (omega arith)))
]

-- CLZ is the number of zeros before the first one, from digit 31 down.
pub clz-leading_zeros : (x : ℕ) → clz x ≡ leading_zeros 32 x
unfolding clz
clz-leading_zeros x = highest_set-leading_zeros x 32 (omega arith) ∙ omega arith

lowest_set-trailing_zeros :
    (x left i : ℕ) → i + left ≡ 32 → lowest_set x left i ≡ i + trailing_zeros left (x / 2 ^ i)
unfolding lowest_set trailing_zeros
lowest_set-trailing_zeros x zero i e = omega arith
lowest_set-trailing_zeros x (suc left) i e = elim (Bool-cases (is_bit_set x i)) [
  | inl set ↦ rw (set, sym (is_bit_set_lem x i (omega arith)) ∙ set) (omega arith)
  | inr clear ↦
      rw (clear, sym (is_bit_set_lem x i (omega arith)) ∙ clear)
        (lowest_set-trailing_zeros x left (i + 1) (omega arith)
          ∙ omega (arith, ap (trailing_zeros left) (digit-next x i)))
]

-- CTZ is the number of zeros before the first one, from digit 0 up.
pub ctz-trailing_zeros : (x : ℕ) → ctz x ≡ trailing_zeros 32 x
unfolding ctz
ctz-trailing_zeros x =
    lowest_set-trailing_zeros x 32 0 (omega arith)
    ∙ omega (arith, ap (trailing_zeros 32) (div-one x))

-- The byte that ORC_B puts for a byte.
abbrev pub spread : ℕ → ℕ
spread byte = if byte == 0 then 0 else 255

pub orc_b_value :
    (x : ℕ)
    → orc_b x
      ≡ word
          (spread (x % 256))
          (spread (x / 2 ^ 8 % 256))
          (spread (x / 2 ^ 16 % 256))
          (spread (x / 2 ^ 24 % 256))
orc_b_value x =
    rw
      (
        orc_b-word x,
        get_byte_lem x 0,
        get_byte_lem x 1,
        get_byte_lem x 2,
        get_byte_lem x 3,
        div-one x,
      )
      refl

not_zero : (k : ℕ) → (suc k == 0) ≡ false
not_zero k = ground arith

-- The rotations by the low 5 bits of an operand.
pub rotate_left_value :
    (x k : ℕ)
    → k < 32
    → rotate_left x k
      ≡ (if k == 0 then fault undefined else ok (bit_or (x * 2 ^ k % 2 ^ 32) (x / 2 ^ (32 - k))))
unfolding rotate_left
rotate_left_value x zero h = refl
rotate_left_value x (suc k) h =
    rw (lt→ltb (suc k) 32 h, lt→ltb (32 - suc k) 32 (omega arith), not_zero k) refl

pub rotate_right_value :
    (x k : ℕ)
    → k < 32
    → rotate_right x k
      ≡ (if k == 0 then fault undefined else ok (bit_or (x / 2 ^ k) (x * 2 ^ (32 - k) % 2 ^ 32)))
unfolding rotate_right
rotate_right_value x zero h = refl
rotate_right_value x (suc k) h =
    rw (lt→ltb (suc k) 32 h, lt→ltb (32 - suc k) 32 (omega arith), not_zero k) refl
