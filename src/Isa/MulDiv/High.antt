-- ===== src/Isa/MulDiv/High.antt =====
-- The high words of products: MULH and MULHSU.
use riscv_sim.Prelude.{
  ℕ, ◌-◌, ◌*◌, ◌/◌, ◌%◌, ◌^◌, ◌<◌, ◌≤◌, ◌≡◌, refl, ap, sym, ◌∙◌, arith, ◌⊎◌, inl, inr, ltb, lt→ltb,
  Bool-cases, if◌then◌else◌,
}
use riscv_sim.Prelude.{ℤ, pos, negsuc, ◌+ℤ◌, ◌*ℤ◌, ◌≤ℤ◌, magnitude, high_word}
use riscv_sim.Outcome.{ok, fault, undefined}
use riscv_sim.Word.{reg_to_ireg, wireg_to_wreg, wreg_to_wireg, sign_ext_to, trunc_low}
use riscv_sim.Word.Digits.{trunc_low_lem, sign_ext_32, sign_ext_to-mod}
use riscv_sim.Isa.MulDiv.{mulh, mulhsu, mulhu, mul_wireg, high_half}

-- The halves of a signed product: a word of 64 bits holds it.
signed_halves :
    (p : ℤ)
    → negsuc (2 ^ 62 - 1) ≤ℤ p
    → p ≤ℤ pos (2 ^ 62)
    → reg_to_ireg (wireg_to_wreg p / 2 ^ 32) *ℤ pos (2 ^ 32) +ℤ pos (wireg_to_wreg p % 2 ^ 32) ≡ p
unfolding reg_to_ireg wireg_to_wreg ◌*ℤ◌ ◌+ℤ◌
signed_halves (pos n) lo hi = ground arith
signed_halves (negsuc n) lo hi = ground arith

wreg_to_wireg-sign_ext : (a : ℕ) → wreg_to_wireg (sign_ext_to 64 32 a) ≡ reg_to_ireg (a % 2 ^ 32)
unfolding wreg_to_wireg reg_to_ireg
wreg_to_wireg-sign_ext a =
    rw (sign_ext_to-mod 64 32 a) (ground (arith, sign_ext_32 (a % 2 ^ 32) (omega arith)))

signed_product_fits :
    (a b : ℕ)
    → let p = reg_to_ireg a *ℤ reg_to_ireg b in (negsuc (2 ^ 62 - 1) ≤ℤ p) × (p ≤ℤ pos (2 ^ 62))
unfolding reg_to_ireg ◌*ℤ◌
signed_product_fits a b =
    ground (arith, magnitudes (magnitude (reg_to_ireg a)) (magnitude (reg_to_ireg b)))
  where
    magnitudes : (m n : ℕ) → m ≤ 2 ^ 31 → n ≤ 2 ^ 31 → m * n ≤ 2 ^ 62
    magnitudes m n h k = grind arith

wireg_to_wreg-lt : (p : ℤ) → wireg_to_wreg p < 2 ^ 64
unfolding wireg_to_wreg
wireg_to_wreg-lt (pos n) = omega arith
wireg_to_wreg-lt (negsuc n) = omega arith

mul_wireg_fits :
    (x y : ℤ)
    → negsuc (2 ^ 62 - 1) ≤ℤ x *ℤ y
    → x *ℤ y ≤ℤ pos (2 ^ 62)
    → mul_wireg x y ≡ ok (wireg_to_wreg (x *ℤ y))
unfolding mul_wireg
mul_wireg_fits x y above below = ground arith

wireg_to_wreg-high_word : (p : ℤ) → wireg_to_wreg p / 2 ^ 32 ≡ high_word p
unfolding wireg_to_wreg high_word
wireg_to_wreg-high_word (pos n) = omega arith
wireg_to_wreg-high_word (negsuc n) = omega arith

-- The high words of the two products with a sign in them, whatever the operands.
pub mulhsu_value :
    (a b : ℕ) → mulhsu a b ≡ ok (high_word (reg_to_ireg (a % 2 ^ 32) *ℤ reg_to_ireg b))
unfolding mulhsu high_half
mulhsu_value a b =
    let x = reg_to_ireg (a % 2 ^ 32) in
    let y = reg_to_ireg b in
    let (above, below) = signed_product_fits (a % 2 ^ 32) b in
    rw (wreg_to_wireg-sign_ext a, mul_wireg_fits x y above below)
      (ap ok (trunc_low_lem _ (wireg_to_wreg-lt (x *ℤ y)) ∙ wireg_to_wreg-high_word (x *ℤ y)))

pos-mul-pos : (a b : ℕ) → pos a *ℤ pos b ≡ pos (a * b)
unfolding ◌*ℤ◌
pos-mul-pos a b = ground arith

high-small : (p : ℕ) → p < 2 ^ 63 → trunc_low 64 32 (p % 2 ^ 64) ≡ p / 2 ^ 32
high-small p h = omega (arith, trunc_low_lem (p % 2 ^ 64) (omega arith))

pub mulh_value :
    (a b : ℕ) → mulh a b ≡ (if ltb (a * b) (2 ^ 63) then ok (a * b / 2 ^ 32) else fault undefined)
unfolding mulh mul_wireg high_half wireg_to_wreg
mulh_value a b = ground (arith, pos-mul-pos a b, high-small (a * b))

-- The same as an equation on the product.
signed_high :
    (a b : ℕ)
    → a < 2 ^ 32
    → let p = reg_to_ireg a *ℤ reg_to_ireg b in
      (hi : ℕ) × (lo : ℕ) × (mulhsu a b ≡ ok hi)
      × (lo < 2 ^ 32)
      × (reg_to_ireg hi *ℤ pos (2 ^ 32) +ℤ pos lo ≡ p)
signed_high a b ha =
    let p = reg_to_ireg a *ℤ reg_to_ireg b in
    let (above, below) = signed_product_fits a b in
    let low : a % 2 ^ 32 ≡ a = omega arith in
    (
      wireg_to_wreg p / 2 ^ 32,
      wireg_to_wreg p % 2 ^ 32,
      rw (mulhsu_value a b, low) (ap ok (sym (wireg_to_wreg-high_word p))),
      omega arith,
      signed_halves p above below,
    )

signed_cases :
    (b : ℕ)
    → b < 2 ^ 32
    → ((b < 2 ^ 31) × (reg_to_ireg b ≡ pos b))
      ⊎ ((2 ^ 31 ≤ b) × (reg_to_ireg b ≡ negsuc (2 ^ 32 - 1 - b)))
unfolding reg_to_ireg
signed_cases b h = ground arith

-- MULHSU of 32-bit operands never fails and gives the high word of a product of rs1 with a sign.
-- Where rs2 is below 2^31 it is multiplied as it is, which is what the instruction does. Where rs2
-- is 2^31 or more it is multiplied as rs2 - 2^32, with a sign, which is not what the instruction
-- does and not what tests/mul.s expects of it: for -1 and 0x80000000 the code gives 0 and the test
-- wants 0xffffffff.
pub mulhsu-signed :
    (a b : ℕ)
    → a < 2 ^ 32
    → b < 2 ^ 32
    → (hi : ℕ) × (lo : ℕ) × (mulhsu a b ≡ ok hi)
      × (lo < 2 ^ 32)
      × (((b < 2 ^ 31) × (reg_to_ireg hi *ℤ pos (2 ^ 32) +ℤ pos lo ≡ reg_to_ireg a *ℤ pos b))
          ⊎ ((2 ^ 31 ≤ b)
              × (reg_to_ireg hi *ℤ pos (2 ^ 32) +ℤ pos lo
                  ≡ reg_to_ireg a *ℤ negsuc (2 ^ 32 - 1 - b))))
mulhsu-signed a b ha hb =
    let (hi, lo, runs, small, product) = signed_high a b ha in
    (
      hi,
      lo,
      runs,
      small,
      elim (signed_cases b hb) [
        | inl (below, e) ↦ inl (below, product ∙ ap (λ z. reg_to_ireg a *ℤ z) e)
        | inr (above, e) ↦ inr (above, product ∙ ap (λ z. reg_to_ireg a *ℤ z) e)
      ],
    )

unsigned_halves :
    (a b : ℕ)
    → a < 2 ^ 31
    → b < 2 ^ 31
    → (a * b < 2 ^ 63)
      × (reg_to_ireg (a * b / 2 ^ 32) *ℤ pos (2 ^ 32) +ℤ pos (a * b % 2 ^ 32)
          ≡ reg_to_ireg a *ℤ reg_to_ireg b)
unfolding reg_to_ireg ◌*ℤ◌ ◌+ℤ◌
unsigned_halves a b ha hb = ground (arith, bounded a b ha hb)
  where
    bounded : (m n : ℕ) → m < 2 ^ 31 → n < 2 ^ 31 → m * n < 2 ^ 62
    bounded m n h k = grind arith

mulhu_high : (a b : ℕ) → a * b < 2 ^ 63 → mulhu a b ≡ ok (a * b / 2 ^ 32)
unfolding mulhu
mulhu_high a b h = ap ok (high-small (a * b) h)

-- MULH of 32-bit operands gives the high word of their signed product where both are below 2^31,
-- which is what the instruction does. Where one is 2^31 or more it gives what MULHU gives if the
-- unsigned product is below 2^63 and is undefined if not, which is not what the instruction does
-- and not what tests/mul.s expects of it: for -1 and 0x80000000 the code gives 0x7fffffff and the
-- test wants 0.
pub mulh-eq-mulhu :
    (a b : ℕ)
    → a < 2 ^ 32
    → b < 2 ^ 32
    → ((a < 2 ^ 31)
        × (b < 2 ^ 31)
        × (hi : ℕ) × (lo : ℕ) × (mulh a b ≡ ok hi)
        × (lo < 2 ^ 32)
        × (reg_to_ireg hi *ℤ pos (2 ^ 32) +ℤ pos lo ≡ reg_to_ireg a *ℤ reg_to_ireg b))
      ⊎ (((2 ^ 31 ≤ a) ⊎ (2 ^ 31 ≤ b))
          × (mulh a b ≡ (if ltb (a * b) (2 ^ 63) then mulhu a b else fault undefined)))
mulh-eq-mulhu a b ha hb = elim (signed_cases a ha) [
  | inr (high, _) ↦ inr (inl high, unsigned)
  | inl (a_low, _) ↦ elim (signed_cases b hb) [
    | inr (high, _) ↦ inr (inr high, unsigned)
    | inl (b_low, _) ↦
        let (fits, product) = unsigned_halves a b a_low b_low in
        inl (
          a_low,
          b_low,
          a * b / 2 ^ 32,
          a * b % 2 ^ 32,
          mulh_value a b ∙ rw (lt→ltb (a * b) (2 ^ 63) fits) refl,
          omega arith,
          product,
        )
  ]
]
  where
    unsigned : mulh a b ≡ (if ltb (a * b) (2 ^ 63) then mulhu a b else fault undefined)
    unsigned = mulh_value a b ∙ elim (Bool-cases (ltb (a * b) (2 ^ 63))) [
      | inl small ↦ rw (small, mulhu_high a b (ground arith)) refl
      | inr big ↦ rw big refl
    ]
