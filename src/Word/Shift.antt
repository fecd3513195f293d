-- ===== src/Word/Shift.antt =====
-- The arithmetic right shift of ext_i_cb.cpp is a floor division of the signed value.
use native.Mathlib.Nat.{
  pow-le-pow_right, one-le-pow, div-lt_iff_lt-mul, div-eq_of_lt-le, div-add-mod, mod-lt,
  div-le_self,
}
use riscv_sim.Bits.{bit_or_fields', two-pow-add, bit_or-zero}
use riscv_sim.Prelude.{
  ℕ, zero, suc, ◌+◌, ◌-◌, ◌*◌, ◌/◌, ◌%◌, ◌^◌, ◌<◌, ◌≤◌, ◌≡◌, ap, sym, ◌∙◌, arith,
}
use riscv_sim.Prelude.{ℤ, pos, negsuc, ltb, if◌then◌else◌, ◌==◌, bit_or}
use riscv_sim.Word.{reg_to_ireg, arithm_right_shift}
use riscv_sim.Word.Digits.{is_bit_set_lem}

-- Floor division by 2 ^ k: -(n + 1) goes to -(n / 2 ^ k + 1).
abbrev pub floor_shift : ℤ → ℕ → ℤ
floor_shift (pos n) k = pos (n / 2 ^ k)
floor_shift (negsuc n) k = negsuc (n / 2 ^ k)

two-pow-mul : (k : ℕ) → k ≤ 32 → 2 ^ k * 2 ^ (32 - k) ≡ 2 ^ 32
two-pow-mul k h =
    let e : k + (32 - k) ≡ 32 = omega arith in sym (two-pow-add k (32 - k)) ∙ ap (λ n. 2 ^ n) e

-- The mask of `k` ones at the top, with p = 2 ^ k and q = 2 ^ (32 - k).
top_ones : (p q : ℕ) → 0 < p → 0 < q → p * q ≡ 2 ^ 32 → (2 ^ 32 - 1) * q % 2 ^ 32 ≡ (p - 1) * q
top_ones zero q hp hq e = absurd (omega arith)
top_ones (suc p) zero hp hq e = absurd (omega arith)
top_ones (suc p) (suc q) hp hq e = grind arith

floor_complement :
    (n p a b k x : ℕ) → b < p → p * a + b ≡ x → p * (k + a + 1) ≡ n → (n - x - 1) / p ≡ k
floor_complement n p a b k x h d e = div-eq_of_lt-le p (omega arith) (omega arith)

shift_negative :
    (p q x : ℕ)
    → 0 < p
    → p * q ≡ 2 ^ 32
    → x < 2 ^ 32
    → (x / p < q) × ((2 ^ 32 - x - 1) / p ≡ q - 1 - x / p)
shift_negative p q x hp e h =
    let below : x / p < q = (div-lt_iff_lt-mul hp).1 (omega arith) in
    let split : q - 1 - x / p + x / p + 1 ≡ q = omega arith in
    (
      below,
      floor_complement (2 ^ 32) p (x / p) (x % p) (q - 1 - x / p) x (mod-lt x hp) (div-add-mod x p)
          (rw split e),
    )

-- The pattern that the function computes, for a shift below the width.
pub arithm_right_shift_pattern :
    (x k : ℕ)
    → x < 2 ^ 32
    → k < 32
    → arithm_right_shift x k
      ≡ (if ltb x (2 ^ 31) then x / 2 ^ k else 2 ^ 32 - 2 ^ (32 - k) + x / 2 ^ k)
unfolding arithm_right_shift
arithm_right_shift_pattern x zero hx hk = ground (arith, is_bit_set_lem x 31)
arithm_right_shift_pattern x (suc k) hx hk =
    let p = 2 ^ suc k in
    let q = 2 ^ (32 - suc k) in
    let pq : p * q ≡ 2 ^ 32 = two-pow-mul (suc k) (omega arith) in
    let hp : 0 < p = one-le-pow (suc k) 2 (omega arith) in
    let hq : 0 < q = one-le-pow (32 - suc k) 2 (omega arith) in
    ground (
      arith,
      is_bit_set_lem x 31,
      top_ones p q hp hq pq,
      shift_negative p q x hp pq hx,
      bit_or_fields' (32 - suc k) (p - 1) (x / p),
      complement p q hp pq,
    )
  where
    complement : (p q : ℕ) → 0 < p → p * q ≡ 2 ^ 32 → (p - 1) * q ≡ 2 ^ 32 - q
    complement zero q hp e = absurd (omega arith)
    complement (suc p) q hp e = grind arith

-- The arithmetic right shift of a 32-bit word by less than 32 is, on signed values, the floor
-- division by the power of two.
pub arithm_right_shift_floor :
    (x k : ℕ)
    → x < 2 ^ 32
    → k < 32
    → reg_to_ireg (arithm_right_shift x k) ≡ floor_shift (reg_to_ireg x) k
unfolding reg_to_ireg
arithm_right_shift_floor x zero hx hk = ground (arith, arithm_right_shift_pattern x 0)
arithm_right_shift_floor x (suc k) hx hk =
    let p = 2 ^ suc k in
    let q = 2 ^ (32 - suc k) in
    let pq : p * q ≡ 2 ^ 32 = two-pow-mul (suc k) (omega arith) in
    let hp : 0 < p = one-le-pow (suc k) 2 (omega arith) in
    ground (
      arith,
      arithm_right_shift_pattern x (suc k),
      shift_negative p q x hp pq hx,
      half_bound,
      div-le_self x p,
    )
  where
    half_bound : 2 ^ (32 - suc k) ≤ 2 ^ 31
    half_bound = pow-le-pow_right {n = 2} (omega arith) {i = 32 - suc k} {j = 31} (omega arith)

-- The shifted word with as many ones before it as it was shifted by, where digit 31 is set.
abbrev pub filled_shift : ℕ → ℕ → ℕ
filled_shift x k =
    if x / 2 ^ 31 % 2 == 1
    then bit_or (x / 2 ^ k) ((2 ^ 32 - 1) * 2 ^ (32 - k) % 2 ^ 32)
    else x / 2 ^ k

pub arithm_right_shift_value : (x k : ℕ) → k < 32 → arithm_right_shift x k ≡ filled_shift x k
unfolding arithm_right_shift
arithm_right_shift_value x zero h = ground (arith, bit_or-zero x)
arithm_right_shift_value x (suc k) h = ground (arith, is_bit_set_lem x 31)
