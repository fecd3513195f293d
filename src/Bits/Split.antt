-- ===== src/Bits/Split.antt =====
-- The bit operations act on a high and a low field apart, and keep within a width.
use native.Mathlib.Nat.{pow-suc}
use riscv_sim.Bits.Step.{bit_or_step, bit_and_step, bit_xor_step}
use riscv_sim.Prelude.{ℕ, zero, suc, ◌+◌, ◌*◌, ◌/◌, ◌^◌, ◌<◌}
use riscv_sim.Prelude.{bit_and, bit_or, bit_xor, ◌≡◌, ap, arith}

pub mul-two-pow-suc : (m k : ℕ) → m * 2 ^ suc k ≡ m * 2 ^ k * 2
mul-two-pow-suc m k = omega (arith, ap (λ (power : ℕ). m * power) (pow-suc 2 k))

pub two-pow-suc : (k : ℕ) → 2 ^ suc k ≡ 2 * 2 ^ k
two-pow-suc k = omega (arith, pow-suc 2 k)

pub two-pow-add : (j k : ℕ) → 2 ^ (j + k) ≡ 2 ^ j * 2 ^ k
two-pow-add zero k = ground arith
two-pow-add (suc j) k =
    let e : suc j + k ≡ suc (j + k) = omega arith in
    rw e (
      omega
        (arith, two-pow-suc (j + k), two-pow-add j k, ap (λ (t : ℕ). t * 2 ^ k) (two-pow-suc j)))

pub bit_and_split :
    (k q r q' r' : ℕ)
    → r < 2 ^ k
    → r' < 2 ^ k
    → bit_and (q * 2 ^ k + r) (q' * 2 ^ k + r') ≡ bit_and q q' * 2 ^ k + bit_and r r'
bit_and_split zero q r q' r' h h' = ground arith
bit_and_split (suc k) q r q' r' h h' = ground (
  arith,
  bit_and_step (q * 2 ^ suc k + r) (q' * 2 ^ suc k + r'),
  bit_and_step r r',
  mul-two-pow-suc q k,
  mul-two-pow-suc q' k,
  mul-two-pow-suc (bit_and q q') k,
  two-pow-suc k,
  bit_and_split k q (r / 2) q' (r' / 2) (omega (arith, two-pow-suc k))
      (omega (arith, two-pow-suc k)),
)

pub bit_or_split :
    (k q r q' r' : ℕ)
    → r < 2 ^ k
    → r' < 2 ^ k
    → bit_or (q * 2 ^ k + r) (q' * 2 ^ k + r') ≡ bit_or q q' * 2 ^ k + bit_or r r'
bit_or_split zero q r q' r' h h' = ground arith
bit_or_split (suc k) q r q' r' h h' = ground (
  arith,
  bit_or_step (q * 2 ^ suc k + r) (q' * 2 ^ suc k + r'),
  bit_or_step r r',
  mul-two-pow-suc q k,
  mul-two-pow-suc q' k,
  mul-two-pow-suc (bit_or q q') k,
  two-pow-suc k,
  bit_or_split k q (r / 2) q' (r' / 2) (omega (arith, two-pow-suc k))
      (omega (arith, two-pow-suc k)),
)

pub bit_xor_split :
    (k q r q' r' : ℕ)
    → r < 2 ^ k
    → r' < 2 ^ k
    → bit_xor (q * 2 ^ k + r) (q' * 2 ^ k + r') ≡ bit_xor q q' * 2 ^ k + bit_xor r r'
bit_xor_split zero q r q' r' h h' = ground arith
bit_xor_split (suc k) q r q' r' h h' = ground (
  arith,
  bit_xor_step (q * 2 ^ suc k + r) (q' * 2 ^ suc k + r'),
  bit_xor_step r r',
  mul-two-pow-suc q k,
  mul-two-pow-suc q' k,
  mul-two-pow-suc (bit_xor q q') k,
  two-pow-suc k,
  bit_xor_split k q (r / 2) q' (r' / 2) (omega (arith, two-pow-suc k))
      (omega (arith, two-pow-suc k)),
)

-- Each operation keeps within a width that holds both arguments.
pub bit_and-lt : (k a b : ℕ) → a < 2 ^ k → b < 2 ^ k → bit_and a b < 2 ^ k
bit_and-lt zero a b ha hb = ground arith
bit_and-lt (suc k) a b ha hb =
    ground (arith, bit_and_step a b, two-pow-suc k, bit_and-lt k (a / 2) (b / 2))

pub bit_or-lt : (k a b : ℕ) → a < 2 ^ k → b < 2 ^ k → bit_or a b < 2 ^ k
bit_or-lt zero a b ha hb = ground arith
bit_or-lt (suc k) a b ha hb =
    ground (arith, bit_or_step a b, two-pow-suc k, bit_or-lt k (a / 2) (b / 2))

pub bit_xor-lt : (k a b : ℕ) → a < 2 ^ k → b < 2 ^ k → bit_xor a b < 2 ^ k
bit_xor-lt zero a b ha hb = ground arith
bit_xor-lt (suc k) a b ha hb =
    ground (arith, bit_xor_step a b, two-pow-suc k, bit_xor-lt k (a / 2) (b / 2))
