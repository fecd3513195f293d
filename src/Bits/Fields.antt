-- ===== src/Bits/Fields.antt =====
-- Masks and packed fields as arithmetic.
use native.Mathlib.Nat.{one-le-pow}
use riscv_sim.Bits.Split.{bit_and_split, bit_or_split, bit_xor_split}
use riscv_sim.Bits.Algebra.{bit_and-zero, bit_and_ones, bit_or-zero, zero-bit_or, bit_xor-zero}
use riscv_sim.Prelude.{ℕ, ◌+◌, ◌*◌, ◌-◌, ◌/◌, ◌%◌, ◌^◌, ◌<◌}
use riscv_sim.Prelude.{bit_and, bit_or, bit_xor, ◌≡◌, arith}

-- A mask of `k` low ones is the remainder by `2 ^ k`.
pub bit_and_mask : (k a : ℕ) → bit_and a (2 ^ k - 1) ≡ a % 2 ^ k
bit_and_mask k a = ground (
  arith,
  one-le-pow k 2,
  bit_and_split k (a / 2 ^ k) (a % 2 ^ k) 0 (2 ^ k - 1),
  bit_and-zero (a / 2 ^ k),
  bit_and_ones k (a % 2 ^ k),
)

-- `(q << k) | r` is a sum where `r` fits `k` bits, in either order.
pub bit_or_fields : (k q r : ℕ) → r < 2 ^ k → bit_or (q * 2 ^ k) r ≡ q * 2 ^ k + r
bit_or_fields k q r h =
    ground (arith, one-le-pow k 2, bit_or_split k q 0 0 r, bit_or-zero q, zero-bit_or r)

pub bit_or_fields' : (k q r : ℕ) → r < 2 ^ k → bit_or r (q * 2 ^ k) ≡ q * 2 ^ k + r
bit_or_fields' k q r h =
    ground (arith, one-le-pow k 2, bit_or_split k 0 r q 0, zero-bit_or q, bit_or-zero r)

-- A mask whose ones begin at bit `k` of a field of `w` bits clears the low `k` bits.
pub bit_and_high_mask :
    (w k q r : ℕ)
    → r < 2 ^ k
    → q < 2 ^ w
    → bit_and (q * 2 ^ k + r) ((2 ^ w - 1) * 2 ^ k) ≡ q * 2 ^ k
bit_and_high_mask w k q r h hq =
    ground
      (arith, one-le-pow k 2, bit_and_split k q r (2 ^ w - 1) 0, bit_and_ones w q, bit_and-zero r)

-- Exclusive or with the single bit `2 ^ k` flips the digit above the low `k`.
pub bit_xor_top :
    (k q r : ℕ) → r < 2 ^ k → bit_xor (q * 2 ^ k + r) (2 ^ k) ≡ bit_xor q 1 * 2 ^ k + r
bit_xor_top k q r h = ground (arith, one-le-pow k 2, bit_xor_split k q r 1 0, bit_xor-zero r)

-- The single bit `2 ^ k` as a mask reads the digit above the low `k`.
pub bit_and_top : (k q r : ℕ) → r < 2 ^ k → bit_and (q * 2 ^ k + r) (2 ^ k) ≡ bit_and q 1 * 2 ^ k
bit_and_top k q r h = ground (arith, one-le-pow k 2, bit_and_split k q r 1 0, bit_and-zero r)

pub bit_and-one : (a : ℕ) → bit_and a 1 ≡ a % 2
bit_and-one a = bit_and_mask 1 a
