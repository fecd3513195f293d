-- ===== src/Isa/MulDiv/Laws.antt =====
-- What the computations of the M extension give.
use riscv_sim.Prelude.{
  ℕ, suc, ◌+◌, ◌-◌, ◌*◌, ◌/◌, ◌%◌, ◌^◌, ◌<◌, ◌≤◌, ◌≡◌, ◌≢◌, ap, sym, ◌∙◌, arith, ◌⊎◌, inl, inr,
}
use riscv_sim.Prelude.{
  ℤ, pos, negsuc, ◌+ℤ◌, ◌*ℤ◌, ◌/ℤ◌, ◌%ℤ◌, ◌≤ℤ◌, eqb_ℤ, eq_of_parts, magnitude, low_word,
  if◌then◌else◌, ◌==◌, ◌&&◌, refl, true, false, Bool-cases, ==_iff,
}
use riscv_sim.Outcome.{ok, fault, undefined}
use riscv_sim.Word.{reg_to_ireg, ireg_to_reg}
use riscv_sim.Word.Digits.{trunc_high_lem, trunc_low_lem}
use riscv_sim.Isa.MulDiv.{mul, mulhu, div_ireg, rem_ireg, div, divu, rem, remu, fits_ireg, ireg_min}

mul-lt : (a b : ℕ) → a < 2 ^ 32 → b < 2 ^ 32 → a * b < 2 ^ 64
mul-lt a b ha hb = grind arith

-- MUL and MULHU of 32-bit operands are the low and the high word of their unsigned product.
pub mul-mulhu :
    (a b : ℕ)
    → a < 2 ^ 32
    → b < 2 ^ 32
    → (hi : ℕ) × (lo : ℕ) × (mulhu a b ≡ ok hi)
      × (mul a b ≡ ok lo)
      × (hi * 2 ^ 32 + lo ≡ a * b)
      × (lo < 2 ^ 32)
unfolding mulhu mul
mul-mulhu a b ha hb =
    let small = mul-lt a b ha hb in
    (
      a * b / 2 ^ 32,
      a * b % 2 ^ 32,
      ap ok (omega (arith, trunc_low_lem (a * b % 2 ^ 64) (omega arith))),
      ap ok (omega (arith, trunc_high_lem 32 (a * b % 2 ^ 64))),
      omega arith,
      omega arith,
    )

-- The low and the high word of the unsigned product, whatever the operands.
pub mul_value : (a b : ℕ) → mul a b ≡ ok (a * b % 2 ^ 32)
unfolding mul
mul_value a b = ap ok (omega (arith, trunc_high_lem 32 (a * b % 2 ^ 64)))

pub mulhu_value : (a b : ℕ) → mulhu a b ≡ ok (a * b / 2 ^ 32 % 2 ^ 32)
unfolding mulhu
mulhu_value a b = ap ok (omega (arith, trunc_low_lem (a * b % 2 ^ 64) (omega arith)))

-- DIVU and REMU of 32-bit operands: by 0 they give 2^32 - 1 and the dividend; otherwise quotient
-- times divisor and remainder make the dividend, and the remainder is below the divisor.
pub divu-remu :
    (a b : ℕ)
    → a < 2 ^ 32
    → b < 2 ^ 32
    → ((b ≡ 0) × (divu a b ≡ 2 ^ 32 - 1) × (remu a b ≡ a))
      ⊎ ((b ≢ 0) × (divu a b * b + remu a b ≡ a) × (remu a b < b))
unfolding divu remu
divu-remu a b ha hb = grind arith

-- A signed value that fits an int32_t survives the way through a register.
reg_to_ireg-ireg_to_reg :
    (z : ℤ) → negsuc (2 ^ 31 - 1) ≤ℤ z → z ≤ℤ pos (2 ^ 31 - 1) → reg_to_ireg (ireg_to_reg z) ≡ z
unfolding reg_to_ireg ireg_to_reg
reg_to_ireg-ireg_to_reg (pos n) lo hi = ground arith
reg_to_ireg-ireg_to_reg (negsuc n) lo hi = ground arith

div-mod_parts : (m n : ℕ) → 0 < n → (m / n * n + m % n ≡ m) × (m % n < n) × (m / n ≤ m)
div-mod_parts m n h = grind arith

-- Truncated division is a division: quotient times divisor and remainder give the dividend.
pub /ℤ-%ℤ : (z w : ℤ) → 0 < magnitude w → (z /ℤ w) *ℤ w +ℤ (z %ℤ w) ≡ z
unfolding ◌/ℤ◌ ◌%ℤ◌ ◌*ℤ◌ ◌+ℤ◌
/ℤ-%ℤ (pos m) (pos n) h = ground (arith, div-mod_parts m n)
/ℤ-%ℤ (pos m) (negsuc n) h = ground (arith, div-mod_parts m (suc n))
/ℤ-%ℤ (negsuc m) (pos n) h = ground (arith, div-mod_parts (suc m) n)
/ℤ-%ℤ (negsuc m) (negsuc n) h = ground (arith, div-mod_parts (suc m) (suc n))

div_half : (m n : ℕ) → 2 ≤ n → m / n * 2 ≤ m
div_half m n h = grind arith

pub reg_to_ireg_fits :
    (a : ℕ) → (negsuc (2 ^ 31 - 1) ≤ℤ reg_to_ireg a) × (reg_to_ireg a ≤ℤ pos (2 ^ 31 - 1))
unfolding reg_to_ireg
reg_to_ireg_fits a = ground arith

-- The quotient fits, but for the least integer by -1; the remainder always does.
/ℤ_fits :
    (x y : ℤ)
    → negsuc (2 ^ 31 - 1) ≤ℤ x
    → x ≤ℤ pos (2 ^ 31 - 1)
    → 0 < magnitude y
    → (eqb_ℤ x ireg_min && eqb_ℤ y (negsuc 0)) ≡ false
    → (negsuc (2 ^ 31 - 1) ≤ℤ x /ℤ y) × (x /ℤ y ≤ℤ pos (2 ^ 31 - 1))
unfolding ◌/ℤ◌
/ℤ_fits x y lo hi nz apart =
    ground (arith, div-mod_parts (magnitude x) (magnitude y), div_half (magnitude x) (magnitude y))

%ℤ_fits :
    (x y : ℤ)
    → negsuc (2 ^ 31 - 1) ≤ℤ x
    → x ≤ℤ pos (2 ^ 31 - 1)
    → 0 < magnitude y
    → (negsuc (2 ^ 31 - 1) ≤ℤ x %ℤ y)
      × (x %ℤ y ≤ℤ pos (2 ^ 31 - 1))
      × (magnitude (x %ℤ y) < magnitude y)
unfolding ◌%ℤ◌
%ℤ_fits x y lo hi nz = ground (arith, div-mod_parts (magnitude x) (magnitude y))

-- Away from 0 and from the least integer by -1, C++ defines both operators.
ireg_defined :
    (x y : ℤ)
    → negsuc (2 ^ 31 - 1) ≤ℤ x
    → x ≤ℤ pos (2 ^ 31 - 1)
    → eqb_ℤ y (pos 0) ≡ false
    → (eqb_ℤ x ireg_min && eqb_ℤ y (negsuc 0)) ≡ false
    → (div_ireg x y ≡ ok (x /ℤ y)) × (rem_ireg x y ≡ ok (x %ℤ y))
unfolding div_ireg rem_ireg
ireg_defined x y lo hi nz apart =
    let (below, above) = /ℤ_fits x y lo hi (ground arith) apart in
    (rw nz (fitting (x /ℤ y) below above refl), rw nz (fitting (x /ℤ y) below above refl))
  where
    fitting :
        {A : Type 0} {v w : A} (q : ℤ)
        → negsuc (2 ^ 31 - 1) ≤ℤ q
        → q ≤ℤ pos (2 ^ 31 - 1)
        → v ≡ w
        → (if fits_ireg q then ok v else fault undefined) ≡ ok w
    fitting q below above e = ground arith

-- Division and remainder by a divisor that is not 0, in the case that the code guards and in the
-- others.
eqb_ℤ_eq : (x y : ℤ) → eqb_ℤ x y ≡ true → x ≡ y
eqb_ℤ_eq x y e = eq_of_parts x y ((==_iff _ _).0 e)

divisor : (b : ℕ) → eqb_ℤ (reg_to_ireg b) (pos 0) ≡ (b == 0)
unfolding reg_to_ireg
divisor b = ground arith

div-rem_overflow :
    (a b : ℕ)
    → (eqb_ℤ (reg_to_ireg a) ireg_min && eqb_ℤ (reg_to_ireg b) (negsuc 0)) ≡ true
    → (reg_to_ireg a ≡ ireg_min) × (reg_to_ireg b ≡ negsuc 0)
div-rem_overflow a b e = (
  eqb_ℤ_eq (reg_to_ireg a) ireg_min (ground arith),
  eqb_ℤ_eq (reg_to_ireg b) (negsuc 0) (ground arith),
)

div-rem_main :
    (a b : ℕ)
    → (b == 0) ≡ false
    → (eqb_ℤ (reg_to_ireg a) ireg_min && eqb_ℤ (reg_to_ireg b) (negsuc 0)) ≡ false
    → (div a b ≡ ok (ireg_to_reg (reg_to_ireg a /ℤ reg_to_ireg b)))
      × (rem a b ≡ ok (ireg_to_reg (reg_to_ireg a %ℤ reg_to_ireg b)))
unfolding div rem
div-rem_main a b nz apart =
    let (below, above) = reg_to_ireg_fits a in
    let (q, r) = ireg_defined (reg_to_ireg a) (reg_to_ireg b) below above (divisor b ∙ nz) apart in
    (rw (divisor b, nz, apart, q) refl, rw (divisor b, nz, apart, r) refl)

ireg_to_reg-low_word : (z : ℤ) → ireg_to_reg z ≡ low_word z
unfolding ireg_to_reg low_word
ireg_to_reg-low_word (pos n) = refl
ireg_to_reg-low_word (negsuc n) = refl

-- DIV and REM are always defined: by 0 they give -1 and the dividend, and otherwise the words of
-- the signed quotient and remainder, which also holds for -2^31 by -1.
pub div-rem_value :
    (a b : ℕ)
    → (div a b ≡ ok (if b == 0 then 2 ^ 32 - 1 else low_word (reg_to_ireg a /ℤ reg_to_ireg b)))
      × (rem a b
          ≡ ok (
              if b == 0
              then low_word (reg_to_ireg a)
              else low_word (reg_to_ireg a %ℤ reg_to_ireg b)))
unfolding div rem ireg_to_reg low_word ◌/ℤ◌ ◌%ℤ◌
div-rem_value a b = elim (Bool-cases (b == 0)) [
  | inl zero ↦ (rw (divisor b, zero) refl, rw (divisor b, zero) (ap ok (ireg_to_reg-low_word _)))
  | inr nz ↦
      elim (Bool-cases (eqb_ℤ (reg_to_ireg a) ireg_min && eqb_ℤ (reg_to_ireg b) (negsuc 0))) [
        | inl over ↦
            let (x, y) = div-rem_overflow a b over in
            (rw (divisor b, nz, x, y) refl, rw (divisor b, nz, x, y) refl)
        | inr apart ↦
            let (q, r) = div-rem_main a b nz apart in
            (q ∙ rw nz (ap ok (ireg_to_reg-low_word _)), r ∙ rw nz (ap ok (ireg_to_reg-low_word _)))
      ]
]

magnitude_pos : (b : ℕ) → (b == 0) ≡ false → 0 < magnitude (reg_to_ireg b)
unfolding reg_to_ireg
magnitude_pos b nz = ground arith

low_half : (a : ℕ) → a < 2 ^ 32 → low_word (reg_to_ireg a) ≡ a
unfolding reg_to_ireg low_word
low_half a h = ground arith

least : (a : ℕ) → a < 2 ^ 32 → reg_to_ireg a ≡ ireg_min → a ≡ 2 ^ 31
unfolding low_word
least a h e = sym (low_half a h) ∙ ap low_word e

minus_one : (b : ℕ) → b < 2 ^ 32 → reg_to_ireg b ≡ negsuc 0 → b ≡ 2 ^ 32 - 1
unfolding low_word
minus_one b h e = sym (low_half b h) ∙ ap low_word e

-- DIV and REM of 32-bit operands never fail, although the operators of int32_t that they use are
-- undefined for a divisor of 0 and for -2^31 by -1: by 0 they give -1 and the dividend; for -2^31
-- by -1 they give -2^31 and 0; otherwise the quotient is the signed division truncated toward 0,
-- quotient times divisor and remainder make the dividend, and the remainder is smaller in magnitude
-- than the divisor.
pub div-rem :
    (a b : ℕ)
    → a < 2 ^ 32
    → b < 2 ^ 32
    → (q : ℕ) × (r : ℕ) × (div a b ≡ ok q)
      × (rem a b ≡ ok r)
      × (((b ≡ 0) × (q ≡ 2 ^ 32 - 1) × (r ≡ a))
          ⊎ ((a ≡ 2 ^ 31) × (b ≡ 2 ^ 32 - 1) × (q ≡ 2 ^ 31) × (r ≡ 0))
          ⊎ ((reg_to_ireg q *ℤ reg_to_ireg b +ℤ reg_to_ireg r ≡ reg_to_ireg a)
              × (reg_to_ireg q ≡ reg_to_ireg a /ℤ reg_to_ireg b)
              × (magnitude (reg_to_ireg r) < magnitude (reg_to_ireg b))))
unfolding low_word ◌/ℤ◌ ◌%ℤ◌
div-rem a b ha hb = elim (Bool-cases (b == 0)) [
  | inl zero ↦
      let (q, r) = div-rem_value a b in
      (
        2 ^ 32 - 1,
        a,
        q ∙ rw zero refl,
        r ∙ rw (zero, low_half a ha) refl,
        inl ((==_iff b 0).0 zero, refl, refl),
      )
  | inr nz ↦
      elim (Bool-cases (eqb_ℤ (reg_to_ireg a) ireg_min && eqb_ℤ (reg_to_ireg b) (negsuc 0))) [
        | inl over ↦
            let (x, y) = div-rem_overflow a b over in
            let (q, r) = div-rem_value a b in
            (
              2 ^ 31,
              0,
              q ∙ rw (nz, x, y) refl,
              r ∙ rw (nz, x, y) refl,
              inr (inl (least a ha x, minus_one b hb y, refl, refl)),
            )
        | inr apart ↦
            let (q, r) = div-rem_main a b nz apart in
            let (alo, ahi) = reg_to_ireg_fits a in
            let nonzero = magnitude_pos b nz in
            let (qlo, qhi) = /ℤ_fits (reg_to_ireg a) (reg_to_ireg b) alo ahi nonzero apart in
            let (rlo, rhi, small) = %ℤ_fits (reg_to_ireg a) (reg_to_ireg b) alo ahi nonzero in
            let eq = reg_to_ireg-ireg_to_reg _ qlo qhi in
            let er = reg_to_ireg-ireg_to_reg _ rlo rhi in
            (
              _,
              _,
              q,
              r,
              inr (
                  inr
                    (rw (eq, er) (/ℤ-%ℤ (reg_to_ireg a) (reg_to_ireg b) nonzero), eq, rw er small)),
            )
      ]
]
