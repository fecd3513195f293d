-- ===== src/Isa/Zbb/Rotate.antt =====
-- ROL, ROR and RORI.
use native.Mathlib.Nat.{
  one-le-pow, div-lt_iff_lt-mul, mod-lt, div-add-mod, mul-add-mod_self_right, mod-eq_of_lt,
  div-eq_of_lt-le,
}
use riscv_sim.Bits.{two-pow-add, bit_or_fields, bit_or_fields'}
use riscv_sim.Prelude.{
  ℕ, ◌+◌, ◌-◌, ◌*◌, ◌/◌, ◌%◌, ◌^◌, ◌<◌, ◌≤◌, ◌≡◌, refl, ap, sym, ◌∙◌, arith, lt→ltb,
}
use riscv_sim.Outcome.{ok, fault, undefined}
use riscv_sim.Isa.Zbb.Words.{rotate_left, rotate_right}

two-pow-mul : (k : ℕ) → k ≤ 32 → 2 ^ k * 2 ^ (32 - k) ≡ 2 ^ 32
two-pow-mul k h =
    let e : k + (32 - k) ≡ 32 = omega arith in sym (two-pow-add k (32 - k)) ∙ ap (λ n. 2 ^ n) e

regroup : (x p q a r n : ℕ) → q * a + r ≡ x → p * q ≡ n → x * p ≡ a * n + r * p
regroup x p q a r n d e =
    let ring : (q * a + r) * p ≡ a * (p * q) + r * p = grind arith in
    ap (λ t. t * p) (sym d) ∙ (ring ∙ ap (λ t. a * t + r * p) e)

-- A shift left drops the digits from 32 on: with p and q for 2 ^ k and 2 ^ (32 - k).
shift_kept : (x p q : ℕ) → 0 < p → 0 < q → p * q ≡ 2 ^ 32 → x * p % 2 ^ 32 ≡ x % q * p
shift_kept x p q hp hq e =
    let small : x % q * p < 2 ^ 32 = below (x % q) p q (mod-lt x hq) hp e in
    ap (λ t. t % 2 ^ 32) (regroup x p q (x / q) (x % q) (2 ^ 32) (div-add-mod x q) e)
    ∙ (mul-add-mod_self_right (x / q) (2 ^ 32) (x % q * p) ∙ mod-eq_of_lt small)
  where
    below : (r p q : ℕ) → r < q → 0 < p → p * q ≡ 2 ^ 32 → r * p < 2 ^ 32
    below r p q lt hp e = grind arith

two-pow-pos : (k : ℕ) → 0 < 2 ^ k
two-pow-pos k = one-le-pow k 2 (omega arith)

high_digits : (x p q : ℕ) → 0 < q → p * q ≡ 2 ^ 32 → x < 2 ^ 32 → x / q < p
high_digits x p q hq e h = (div-lt_iff_lt-mul hq).1 (omega arith)

rotate_left_lem :
    (x k : ℕ)
    → x < 2 ^ 32
    → 0 < k
    → k < 32
    → rotate_left x k ≡ ok (x % 2 ^ (32 - k) * 2 ^ k + x / 2 ^ (32 - k))
unfolding rotate_left
rotate_left_lem x k hx positive lt =
    let p = 2 ^ k in
    let q = 2 ^ (32 - k) in
    let pq = two-pow-mul k (omega arith) in
    let fits = high_digits x p q (two-pow-pos (32 - k)) pq hx in
    rw
      (
        lt→ltb k 32 lt,
        lt→ltb (32 - k) 32 (omega arith),
        shift_kept x p q (two-pow-pos k) (two-pow-pos (32 - k)) pq,
      )
      (ap ok (bit_or_fields k (x % q) (x / q) fits))

rotate_right_lem :
    (x k : ℕ)
    → x < 2 ^ 32
    → 0 < k
    → k < 32
    → rotate_right x k ≡ ok (x % 2 ^ k * 2 ^ (32 - k) + x / 2 ^ k)
unfolding rotate_right
rotate_right_lem x k hx positive lt =
    let p = 2 ^ (32 - k) in
    let q = 2 ^ k in
    let pq : p * q ≡ 2 ^ 32 = omega (arith, two-pow-mul k (omega arith)) in
    let fits = high_digits x p q (two-pow-pos k) pq hx in
    rw
      (
        lt→ltb k 32 lt,
        lt→ltb (32 - k) 32 (omega arith),
        shift_kept x p q (two-pow-pos (32 - k)) (two-pow-pos k) pq,
      )
      (ap ok (bit_or_fields' (32 - k) (x % q) (x / q) fits))

-- The two parts of a rotated word, with p and q for 2 ^ k and 2 ^ (32 - k).
rotated_parts :
    (x p q : ℕ)
    → 0 < p
    → 0 < q
    → p * q ≡ 2 ^ 32
    → x < 2 ^ 32
    → let y = x % q * p + x / q in (y < 2 ^ 32) × (y % p ≡ x / q) × (y / p ≡ x % q)
rotated_parts x p q hp hq e h =
    let fits = high_digits x p q hq e h in
    let r = x % q in
    (
      below r p q (x / q) (mod-lt x hq) fits e,
      mul-add-mod_self_right r p (x / q) ∙ mod-eq_of_lt fits,
      div-eq_of_lt-le p (omega (arith, times_comm r p)) (omega (arith, times_comm r p)),
    )
  where
    below : (r p q t : ℕ) → r < q → t < p → p * q ≡ 2 ^ 32 → r * p + t < 2 ^ 32
    below r p q t lt fits e = grind arith

    times_comm : (r p : ℕ) → r * p ≡ p * r
    times_comm r p = grind arith

-- For amounts from 1 to 31 the left rotation of a 32-bit word is defined and a 32-bit word, and the
-- right rotation by the same amount gives the first word back.
pub rotate_right-rotate_left :
    (x k : ℕ)
    → x < 2 ^ 32
    → 0 < k
    → k < 32
    → (y : ℕ) × (rotate_left x k ≡ ok y) × (y < 2 ^ 32) × (rotate_right y k ≡ ok x)
rotate_right-rotate_left x k hx positive lt =
    let p = 2 ^ k in
    let q = 2 ^ (32 - k) in
    let y = x % q * p + x / q in
    let (small, low, high) =
      rotated_parts x p q (two-pow-pos k) (two-pow-pos (32 - k)) (two-pow-mul k (omega arith)) hx in
    (
      y,
      rotate_left_lem x k hx positive lt,
      small,
      rotate_right_lem y k small positive lt ∙ ap ok (rw (low, high) (back x q)),
    )
  where
    back : (x q : ℕ) → x / q * q + x % q ≡ x
    back x q = grind (arith, div-add-mod x q)

-- By 0 both shift by the whole width, which C++ leaves undefined.
pub rotate-zero :
    (x : ℕ) → (rotate_left x 0 ≡ fault undefined) × (rotate_right x 0 ≡ fault undefined)
unfolding rotate_left rotate_right
rotate-zero x = (refl, refl)
