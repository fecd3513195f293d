-- ===== src/Bits/Step.antt =====
-- The native bit operations, one binary digit at a time.
use Prim.Native.Nat.{digits, bitwise, differ, bit_and-bitwise, bit_or-bitwise, bit_xor-bitwise}
use riscv_sim.Prelude.{ℕ, zero, suc, ◌+◌, ◌*◌, ◌/◌, ◌%◌, ◌≤◌, ◌<◌, min, max, ◌≡◌, refl, arith}
use riscv_sim.Prelude.{bit_and, bit_or, bit_xor}

-- `absent` is what the operation does to a number that has no more digits to pair with.
module _ (absent : ℕ → ℕ) (digit_op : ℕ → ℕ → ℕ) where
  -- Any two amounts of fuel that cover the first number give one result.
  digits_irrel :
      (fuel more x y : ℕ)
      → x ≤ fuel
      → x ≤ more
      → digits absent digit_op fuel x y ≡ digits absent digit_op more x y
  digits_irrel zero zero x y hx hm = refl
  digits_irrel (suc fuel) zero zero y hx hm = refl
  digits_irrel zero (suc more) zero y hx hm = refl
  digits_irrel (suc fuel) (suc more) zero y hx hm = refl
  digits_irrel (suc fuel) zero (suc x) y hx hm = absurd (omega arith)
  digits_irrel zero (suc more) (suc x) y hx hm = absurd (omega arith)
  digits_irrel (suc fuel) (suc more) (suc x) y hx hm =
      let halves = digits_irrel fuel more (suc x / 2) (y / 2) (omega arith) (omega arith) in
      rw halves refl

  bitwise_step :
      (x y : ℕ)
      → 0 < x
      → bitwise absent digit_op x y
        ≡ digit_op (x % 2) (y % 2) + 2 * bitwise absent digit_op (x / 2) (y / 2)
  bitwise_step zero y h = absurd (omega arith)
  bitwise_step (suc x) y h =
      let halves = digits_irrel x (suc x / 2) (suc x / 2) (y / 2) (omega arith) (omega arith) in
      omega (arith, halves)

pub bit_and_step : (x y : ℕ) → bit_and x y ≡ min (x % 2) (y % 2) + 2 * bit_and (x / 2) (y / 2)
bit_and_step zero b = simp bit_and-bitwise (omega arith)
bit_and_step (suc a) b = omega (
  arith,
  bit_and-bitwise (suc a) b,
  bit_and-bitwise (suc a / 2) (b / 2),
  bitwise_step (λ y. 0) min (suc a) b (omega arith),
)

pub bit_or_step : (x y : ℕ) → bit_or x y ≡ max (x % 2) (y % 2) + 2 * bit_or (x / 2) (y / 2)
bit_or_step zero b = simp bit_or-bitwise (omega arith)
bit_or_step (suc a) b = omega (
  arith,
  bit_or-bitwise (suc a) b,
  bit_or-bitwise (suc a / 2) (b / 2),
  bitwise_step (λ y. y) max (suc a) b (omega arith),
)

differ-eq-mod : (x y : ℕ) → x < 2 → y < 2 → differ x y ≡ (x + y) % 2
differ-eq-mod zero y hx hy = omega arith
differ-eq-mod (suc zero) zero hx hy = refl
differ-eq-mod (suc zero) (suc zero) hx hy = refl
differ-eq-mod (suc zero) (suc (suc y)) hx hy = absurd (omega arith)
differ-eq-mod (suc (suc x)) y hx hy = absurd (omega arith)

pub bit_xor_step : (a b : ℕ) → bit_xor a b ≡ bit_xor (a / 2) (b / 2) * 2 + (a + b) % 2
bit_xor_step zero b = simp bit_xor-bitwise (omega arith)
bit_xor_step (suc a) b = omega (
  arith,
  bit_xor-bitwise (suc a) b,
  bit_xor-bitwise (suc a / 2) (b / 2),
  bitwise_step (λ y. y) differ (suc a) b (omega arith),
  differ-eq-mod (suc a % 2) (b % 2) (omega arith) (omega arith),
)
