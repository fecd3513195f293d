-- ===== src/Isa/Zbb/Counts.antt =====
-- CLZ, CTZ and CPOP count bits.
use native.Mathlib.Nat.{
  one-le-pow, div-lt_iff_lt-mul, mod-lt, mul-add-mod_self_right, mod-eq_of_lt, add_comm,
  div-div-eq-div-mul, div-one, div-add-mod,
}
use native.Mathlib.Numerals.{add-one}
use riscv_sim.Bits.{two-pow-suc}
use riscv_sim.Prelude.{
  ℕ, zero, suc, ◌+◌, ◌-◌, ◌*◌, ◌/◌, ◌%◌, ◌^◌, ◌<◌, ◌≤◌, ◌≡◌, ◌≢◌, refl, ap, sym, ◌∙◌, arith, ◌⊎◌,
  inl, inr,
}
use riscv_sim.Prelude.{true, false, ==_iff, Bool-cases, ℤ, pos, negsuc}
use riscv_sim.Word.{is_bit_set}
use riscv_sim.Word.Digits.{digit, is_bit_set_lem}
use riscv_sim.Isa.Zbb.Words.{highest_set, zeros_above, clz, lowest_set, ctz, bcount_from, cpop}

-- What the loop of CLZ finds among the `n` low bits of a number below 2 ^ n.
data Highest (x : ℕ) : ℤ → Type 0 where
  no_bit : x ≡ 0 → Highest x (negsuc 0)
  top_bit : (i : ℕ) → i < 32 → 2 ^ i ≤ x → x < 2 ^ suc i → Highest x (pos i)

below_of_digit : (x p : ℕ) → 0 < p → x < 2 * p → x / p % 2 ≢ 1 → x < p
below_of_digit x p hp h d =
    let q : x / p < 2 = (div-lt_iff_lt-mul hp).1 h in
    let one : x < 1 * p = (div-lt_iff_lt-mul hp).0 (omega arith) in omega arith

above_of_digit : (x p : ℕ) → 0 < p → x / p % 2 ≡ 1 → p ≤ x
above_of_digit x p hp d = grind arith

low_digit : (x i : ℕ) → x < 2 ^ suc i → digit x i ≢ 1 → x < 2 ^ i
low_digit x i h d =
    below_of_digit x (2 ^ i) (one-le-pow i 2 (omega arith)) (omega (arith, two-pow-suc i)) d

top_digit : (x i : ℕ) → digit x i ≡ 1 → 2 ^ i ≤ x
top_digit x i d = above_of_digit x (2 ^ i) (one-le-pow i 2 (omega arith)) d

highest_set-Highest : (x n : ℕ) → n ≤ 32 → x < 2 ^ n → Highest x (highest_set x n)
unfolding highest_set
highest_set-Highest x zero le h = no_bit (omega arith)
highest_set-Highest x (suc n) le h = elim (Bool-cases (is_bit_set x n)) [
  | inl set ↦
      rw set (top_bit n le (top_digit x n ((==_iff _ 1).0 (sym (is_bit_set_lem x n le) ∙ set))) h)
  | inr clear ↦ rw clear (
      highest_set-Highest x n (omega arith) (
        low_digit x n h
          (λ d. cc (sym (is_bit_set_lem x n le) ∙ clear, (==_iff (digit x n) 1).1 d))))
]

pub zeros_above-pos : (i : ℕ) → i < 32 → zeros_above (pos i) ≡ 31 - i
unfolding zeros_above
zeros_above-pos i h = omega arith

pub zeros_above-none : zeros_above (negsuc 0) ≡ 32
unfolding zeros_above
zeros_above-none = refl

-- What CLZ makes of the highest bit.
abbrev pub CountsLeading : ℕ → ℕ → Type 0
CountsLeading x n = ((x ≡ 0) × (n ≡ 32)) ⊎ ((n < 32) × (2 ^ (31 - n) ≤ x) × (x < 2 ^ (32 - n)))

CountsLeading-Highest : (x : ℕ) {z : ℤ} → Highest x z → CountsLeading x (zeros_above z)
CountsLeading-Highest x (no_bit e) = inl (e, unfold zeros_above in refl)
CountsLeading-Highest x (top_bit i lt lo hi) =
    let low : 31 - (31 - i) ≡ i = omega arith in
    let high : 32 - (31 - i) ≡ suc i = omega arith in
    rw (zeros_above-pos i lt) (inr (omega arith, rw low lo, rw high hi))

-- CLZ of a 32-bit word is 32 for 0, and otherwise the n below 32 for which the word lies between
-- 2^(31-n) and 2^(32-n).
pub clz-CountsLeading : (x : ℕ) → x < 2 ^ 32 → CountsLeading x (clz x)
unfolding clz
clz-CountsLeading x h = CountsLeading-Highest x (highest_set-Highest x 32 (omega arith) h)

is_bit_set-digit : (x i : ℕ) → i < 32 → is_bit_set x i ≡ true → digit x i ≡ 1
is_bit_set-digit x i h e = (==_iff _ 1).0 (sym (is_bit_set_lem x i h) ∙ e)

not-is_bit_set-digit : (x i : ℕ) → i < 32 → is_bit_set x i ≡ false → digit x i ≡ 0
not-is_bit_set-digit x i h e = ground (arith, is_bit_set_lem x i h)

halves : (x p q h d r : ℕ) → h * 2 + d ≡ q → q * p + r ≡ x → h * (2 * p) + (d * p + r) ≡ x
halves x p q h d r e f =
    let ring : h * (2 * p) + (d * p + r) ≡ (h * 2 + d) * p + r = grind arith in
    ring ∙ (ap (λ t. t * p + r) e ∙ f)

mod-double : (x p : ℕ) → 0 < p → x % (2 * p) ≡ x % p + x / p % 2 * p
mod-double x p hp =
    let q = x / p in
    let r = x % p in
    let small : q % 2 * p + r < 2 * p = grind (arith, mod-lt x hp) in
    let split : q / 2 * (2 * p) + (q % 2 * p + r) ≡ x =
      halves x p q (q / 2) (q % 2) r (omega arith) (grind (arith, div-add-mod x p)) in
    sym (ap (λ t. t % (2 * p)) split)
    ∙ (mul-add-mod_self_right (q / 2) (2 * p) (q % 2 * p + r) ∙ (mod-eq_of_lt small ∙ add_comm _ _))

-- The remainder by a power of two grows by one digit.
mod-two-pow-suc : (x i : ℕ) → x % 2 ^ suc i ≡ x % 2 ^ i + digit x i * 2 ^ i
mod-two-pow-suc x i = rw (two-pow-suc i) (mod-double x (2 ^ i) (one-le-pow i 2 (omega arith)))

pub digit-next : (x i : ℕ) → x / 2 ^ (i + 1) ≡ x / 2 ^ i / 2
digit-next x i =
    let e : 2 ^ (i + 1) ≡ 2 ^ i * 2 = omega (arith, rw (← add-one i) at (two-pow-suc i)) in
    rw e (sym (div-div-eq-div-mul x (2 ^ i) 2))

-- CTZ from index i: the low i bits are zero.
lowest_set_lem :
    (x left i : ℕ)
    → i + left ≡ 32
    → x < 2 ^ 32
    → x % 2 ^ i ≡ 0
    → ((x ≡ 0) × (lowest_set x left i ≡ 32))
      ⊎ ((lowest_set x left i < 32)
          × (x % 2 ^ lowest_set x left i ≡ 0)
          × (digit x (lowest_set x left i) ≡ 1))
unfolding lowest_set
lowest_set_lem x zero i e h z =
    let full : i ≡ 32 = omega arith in inl (omega (arith, rw full at z), refl)
lowest_set_lem x (suc left) i e h z = elim (Bool-cases (is_bit_set x i)) [
  | inl set ↦ rw set (inr (omega arith, z, is_bit_set-digit x i (omega arith) set))
  | inr clear ↦ rw clear (
      lowest_set_lem x left (i + 1) (omega arith) h (
        rw add-one (
          mod-two-pow-suc x i
          ∙ omega (
            arith,
            z,
            ap (λ (t : ℕ). t * 2 ^ i) (not-is_bit_set-digit x i (omega arith) clear),
          ))))
]

-- CTZ of a 32-bit word is 32 for 0, and otherwise the n below 32 for which 2^n divides the word and
-- its digit n is 1.
pub ctz_lem :
    (x : ℕ)
    → x < 2 ^ 32
    → ((x ≡ 0) × (ctz x ≡ 32)) ⊎ ((ctz x < 32) × (x % 2 ^ ctz x ≡ 0) × (digit x (ctz x) ≡ 1))
unfolding ctz
ctz_lem x h = lowest_set_lem x 32 0 (omega arith) h (omega arith)

-- The number of ones among n digits, lowest first.
unfoldable pub ones : ℕ → ℕ → ℕ
ones zero x = 0
ones (suc n) x = x % 2 + ones n (x / 2)

bcount_from_lem :
    (x left i count : ℕ)
    → i + left ≡ 32
    → bcount_from x left i count ≡ count + ones left (x / 2 ^ i)
unfolding bcount_from ones
bcount_from_lem x zero i count e = omega arith
bcount_from_lem x (suc left) i count e = elim (Bool-cases (is_bit_set x i)) [
  | inl set ↦ rw set (
      bcount_from_lem x left (i + 1) (count + 1) (omega arith)
      ∙ omega (arith, is_bit_set-digit x i (omega arith) set, ap (ones left) (digit-next x i)))
  | inr clear ↦ rw clear (
      bcount_from_lem x left (i + 1) count (omega arith)
      ∙ omega
          (arith, not-is_bit_set-digit x i (omega arith) clear, ap (ones left) (digit-next x i)))
]

-- CPOP is the sum of the 32 low binary digits.
pub cpop_lem : (x : ℕ) → cpop x ≡ ones 32 x
unfolding cpop
cpop_lem x = bcount_from_lem x 32 0 0 (omega arith) ∙ omega (arith, ap (ones 32) (div-one x))
