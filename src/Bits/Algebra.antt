-- ===== src/Bits/Algebra.antt =====
-- Commutativity, associativity, units and complements, at every width.
use riscv_sim.Bits.Step.{bit_or_step, bit_and_step, bit_xor_step}
use Prim.Native.Nat.{bit_or-bitwise}
use riscv_sim.Bits.Split.{two-pow-suc}
use riscv_sim.Prelude.{ℕ, zero, suc, ◌+◌, ◌-◌, ◌/◌, ◌^◌, ◌<◌}
use riscv_sim.Prelude.{bit_and, bit_or, bit_xor, ◌≡◌, arith}

-- A number fits in as many digits as it counts.
lt-two-pow : (n : ℕ) → n < 2 ^ n
lt-two-pow zero = omega arith
lt-two-pow (suc n) = omega (arith, two-pow-suc n, lt-two-pow n)

and_comm_at : (k a b : ℕ) → a < 2 ^ k → b < 2 ^ k → bit_and a b ≡ bit_and b a
and_comm_at zero a b ha hb = ground arith
and_comm_at (suc k) a b ha hb =
    ground (arith, bit_and_step a b, bit_and_step b a, two-pow-suc k, and_comm_at k (a / 2) (b / 2))

pub bit_and_comm : (a b : ℕ) → bit_and a b ≡ bit_and b a
bit_and_comm a b =
    and_comm_at (a + b) a b (omega (arith, lt-two-pow (a + b))) (omega (arith, lt-two-pow (a + b)))

and_zero_at : (k a : ℕ) → a < 2 ^ k → bit_and a 0 ≡ 0
and_zero_at zero a h = ground arith
and_zero_at (suc k) a h = ground (arith, bit_and_step a 0, two-pow-suc k, and_zero_at k (a / 2))

pub bit_and-zero : (a : ℕ) → bit_and a 0 ≡ 0
bit_and-zero a = and_zero_at a a (lt-two-pow a)

or_zero_at : (k a : ℕ) → a < 2 ^ k → bit_or a 0 ≡ a
or_zero_at zero a h = ground arith
or_zero_at (suc k) a h = ground (arith, bit_or_step a 0, two-pow-suc k, or_zero_at k (a / 2))

pub bit_or-zero : (a : ℕ) → bit_or a 0 ≡ a
bit_or-zero a = or_zero_at a a (lt-two-pow a)

xor_zero_at : (k a : ℕ) → a < 2 ^ k → bit_xor a 0 ≡ a
xor_zero_at zero a h = ground arith
xor_zero_at (suc k) a h = ground (arith, bit_xor_step a 0, two-pow-suc k, xor_zero_at k (a / 2))

pub bit_xor-zero : (a : ℕ) → bit_xor a 0 ≡ a
bit_xor-zero a = xor_zero_at a a (lt-two-pow a)

pub bit_xor_self : (k a : ℕ) → a < 2 ^ k → bit_xor a a ≡ 0
bit_xor_self zero a h = ground arith
bit_xor_self (suc k) a h = ground (arith, bit_xor_step a a, two-pow-suc k, bit_xor_self k (a / 2))

and_assoc_at :
    (k a b c : ℕ)
    → a < 2 ^ k
    → b < 2 ^ k
    → c < 2 ^ k
    → bit_and (bit_and a b) c ≡ bit_and a (bit_and b c)
and_assoc_at zero a b c ha hb hc = ground arith
and_assoc_at (suc k) a b c ha hb hc = ground (
  arith,
  bit_and_step a b,
  bit_and_step b c,
  bit_and_step (bit_and a b) c,
  bit_and_step a (bit_and b c),
  two-pow-suc k,
  and_assoc_at k (a / 2) (b / 2) (c / 2),
)

pub bit_and_assoc : (a b c : ℕ) → bit_and (bit_and a b) c ≡ bit_and a (bit_and b c)
bit_and_assoc a b c =
    let n = a + b + c in
    and_assoc_at n a b c (omega (arith, lt-two-pow n)) (omega (arith, lt-two-pow n))
      (omega (arith, lt-two-pow n))

xor_assoc_at :
    (k a b c : ℕ)
    → a < 2 ^ k
    → b < 2 ^ k
    → c < 2 ^ k
    → bit_xor (bit_xor a b) c ≡ bit_xor a (bit_xor b c)
xor_assoc_at zero a b c ha hb hc = ground arith
xor_assoc_at (suc k) a b c ha hb hc = ground (
  arith,
  bit_xor_step a b,
  bit_xor_step b c,
  bit_xor_step (bit_xor a b) c,
  bit_xor_step a (bit_xor b c),
  two-pow-suc k,
  xor_assoc_at k (a / 2) (b / 2) (c / 2),
)

pub bit_xor_assoc : (a b c : ℕ) → bit_xor (bit_xor a b) c ≡ bit_xor a (bit_xor b c)
bit_xor_assoc a b c =
    let n = a + b + c in
    xor_assoc_at n a b c (omega (arith, lt-two-pow n)) (omega (arith, lt-two-pow n))
      (omega (arith, lt-two-pow n))

-- Exclusive or with all ones is the complement; and with all ones does nothing.
pub bit_xor_ones : (k a : ℕ) → a < 2 ^ k → bit_xor a (2 ^ k - 1) ≡ 2 ^ k - 1 - a
bit_xor_ones zero a h = ground arith
bit_xor_ones (suc k) a h =
    ground (arith, bit_xor_step a (2 ^ suc k - 1), two-pow-suc k, bit_xor_ones k (a / 2))

pub bit_and_ones : (k a : ℕ) → a < 2 ^ k → bit_and a (2 ^ k - 1) ≡ a
bit_and_ones zero a h = ground arith
bit_and_ones (suc k) a h =
    ground (arith, bit_and_step a (2 ^ suc k - 1), two-pow-suc k, bit_and_ones k (a / 2))

pub bit_or_ones : (k a : ℕ) → a < 2 ^ k → bit_or a (2 ^ k - 1) ≡ 2 ^ k - 1
bit_or_ones zero a h = ground arith
bit_or_ones (suc k) a h =
    ground (arith, bit_or_step a (2 ^ suc k - 1), two-pow-suc k, bit_or_ones k (a / 2))

pub zero-bit_and : (a : ℕ) → bit_and 0 a ≡ 0
zero-bit_and a = omega (arith, bit_and_comm 0 a, bit_and-zero a)

pub zero-bit_or : (a : ℕ) → bit_or 0 a ≡ a
zero-bit_or a = bit_or-bitwise 0 a
