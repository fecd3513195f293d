-- ===== src/Isa/Float/Laws.antt =====
-- The sign-injection instructions and FCLASS on the fields of a binary32.
use native.Mathlib.Nat.{pow-le-pow_right}
use riscv_sim.Bits.{
  bit_and_mask, bit_and_top, bit_xor_top, bit_and-one, bit_or_fields, bit_xor_step,
}
use riscv_sim.Prelude.{
  ℕ, zero, suc, ◌+◌, ◌-◌, ◌*◌, ◌/◌, ◌%◌, ◌^◌, ◌<◌, ◌≡◌, refl, arith, bit_and, bit_or, bit_xor, Bool,
  true, false, not, ◌==◌, inl, inr, ◌⊎◌, Bool-cases, ltb, leb, if◌then◌else◌,
}
use riscv_sim.Word.{bit_not, ◌<<<◌}
use riscv_sim.Host.{Host}
use riscv_sim.Isa.Float.Shapes.{
  sign_bit, f32_neg, fsgnj, fsgnjn, fsgnjx, FpClass, fp_infinite, fp_nan, fp_normal, fp_subnormal,
  fp_zero, fpclassify, signbit, class_shift, fclass_shift, fclass,
}

-- The parts that the masks take.
magnitude_mask : (v : ℕ) → bit_and v (bit_not sign_bit) ≡ v % 2 ^ 31
magnitude_mask v = bit_and_mask 31 v

sign_mask : (v : ℕ) → v < 2 ^ 32 → bit_and v sign_bit ≡ v / 2 ^ 31 * 2 ^ 31
sign_mask v lt = ground (arith, bit_and_top 31 (v / 2 ^ 31) (v % 2 ^ 31), bit_and-one (v / 2 ^ 31))

-- A sign digit s and a magnitude m as one word.
joined : (s m : ℕ) → m < 2 ^ 31 → bit_or (s * 2 ^ 31) m ≡ s * 2 ^ 31 + m
joined s m lt = bit_or_fields 31 s m lt

flipped : (v : ℕ) → v < 2 ^ 32 → bit_and (bit_xor v sign_bit) sign_bit ≡ (1 - v / 2 ^ 31) * 2 ^ 31
flipped v lt = elim (Bool-cases (v / 2 ^ 31 == 0)) [
  | inl low ↦ ground (arith, bit_xor_top 31 0 v, bit_xor_step 0 1, sign_mask (bit_xor v sign_bit))
  | inr high ↦
      ground
        (arith, bit_xor_top 31 1 (v % 2 ^ 31), bit_xor_step 1 1, sign_mask (bit_xor v sign_bit))
]

-- FSGNJ, FSGNJN and FSGNJX of 32-bit operands have the first operand's magnitude; their signs are
-- the second's, its opposite, and 1 where the two signs differ.
pub fsgnj_lem :
    (a b : ℕ)
    → a < 2 ^ 32
    → b < 2 ^ 32
    → (fsgnj a b ≡ b / 2 ^ 31 * 2 ^ 31 + a % 2 ^ 31)
      × (fsgnjn a b ≡ (1 - b / 2 ^ 31) * 2 ^ 31 + a % 2 ^ 31)
      × (fsgnjx a b ≡ (a / 2 ^ 31 + b / 2 ^ 31) % 2 * 2 ^ 31 + a % 2 ^ 31)
unfolding fsgnj fsgnjn fsgnjx
fsgnj_lem a b ha hb = (
  rw (sign_mask b hb, magnitude_mask a) (joined (b / 2 ^ 31) (a % 2 ^ 31) (omega arith)),
  rw (flipped b hb, magnitude_mask a) (joined (1 - b / 2 ^ 31) (a % 2 ^ 31) (omega arith)),
  rw
      (
        sign_mask a ha,
        sign_mask b hb,
        magnitude_mask a,
        signs (a / 2 ^ 31) (b / 2 ^ 31) (omega arith) (omega arith),
      )
      (joined ((a / 2 ^ 31 + b / 2 ^ 31) % 2) (a % 2 ^ 31) (omega arith)),
)
  where
    signs : (s t : ℕ) → s < 2 → t < 2 → bit_xor (s * 2 ^ 31) (t * 2 ^ 31) ≡ (s + t) % 2 * 2 ^ 31
    signs zero zero hs ht = refl
    signs zero (suc zero) hs ht = refl
    signs (suc zero) zero hs ht = refl
    signs (suc zero) (suc zero) hs ht = refl
    signs zero (suc (suc t)) hs ht = absurd (omega arith)
    signs (suc zero) (suc (suc t)) hs ht = absurd (omega arith)
    signs (suc (suc s)) t hs ht = absurd (omega arith)

f32_neg_lem : (v : ℕ) → v < 2 ^ 32 → f32_neg v ≡ (1 - v / 2 ^ 31) * 2 ^ 31 + v % 2 ^ 31
unfolding f32_neg
f32_neg_lem v lt =
    rw (flipped v lt, magnitude_mask v) (joined (1 - v / 2 ^ 31) (v % 2 ^ 31) (omega arith))

-- The negation of f32_neg flips the sign alone, and so undoes itself.
pub f32_neg-f32_neg :
    (v : ℕ)
    → v < 2 ^ 32
    → (f32_neg v ≡ (1 - v / 2 ^ 31) * 2 ^ 31 + v % 2 ^ 31) × (f32_neg (f32_neg v) ≡ v)
f32_neg-f32_neg v lt =
    let once = f32_neg_lem v lt in
    (once, omega (arith, once, f32_neg_lem (f32_neg v) (omega (arith, once))))

fpclassify-f32_neg : (v : ℕ) → v < 2 ^ 32 → fpclassify (f32_neg v) ≡ fpclassify v
unfolding fpclassify
fpclassify-f32_neg v lt =
    let once = f32_neg_lem v lt in
    let e : f32_neg v / 2 ^ 23 % 2 ^ 8 ≡ v / 2 ^ 23 % 2 ^ 8 = omega (arith, once) in
    let f : f32_neg v % 2 ^ 23 ≡ v % 2 ^ 23 = omega (arith, once) in rw (e, f) refl

signbit-f32_neg : (v : ℕ) → v < 2 ^ 32 → signbit (f32_neg v) ≡ not (signbit v)
unfolding signbit
signbit-f32_neg v lt = ground (arith, f32_neg_lem v lt)

class_shift-mirror :
    (signaling signaling' : Bool) (c : FpClass) (sign : Bool)
    → ((c ≡ fp_nan) × ((class_shift signaling c sign ≡ 8) ⊎ (class_shift signaling c sign ≡ 9)))
      ⊎ ((class_shift signaling c sign < 8)
          × (class_shift signaling' c (not sign) ≡ 7 - class_shift signaling c sign))
unfolding class_shift
class_shift-mirror signaling signaling' fp_infinite true = inr (omega arith, refl)
class_shift-mirror signaling signaling' fp_infinite false = inr (omega arith, refl)
class_shift-mirror true signaling' fp_nan sign = inl (refl, inl refl)
class_shift-mirror false signaling' fp_nan sign = inl (refl, inr refl)
class_shift-mirror signaling signaling' fp_normal true = inr (omega arith, refl)
class_shift-mirror signaling signaling' fp_normal false = inr (omega arith, refl)
class_shift-mirror signaling signaling' fp_subnormal true = inr (omega arith, refl)
class_shift-mirror signaling signaling' fp_subnormal false = inr (omega arith, refl)
class_shift-mirror signaling signaling' fp_zero true = inr (omega arith, refl)
class_shift-mirror signaling signaling' fp_zero false = inr (omega arith, refl)

class_shift-lt : (signaling : Bool) (c : FpClass) (sign : Bool) → class_shift signaling c sign < 10
class_shift-lt signaling c sign = ground (arith, class_shift-mirror signaling signaling c sign)

one_hot : (k : ℕ) → k < 10 → 1 <<< k ≡ 2 ^ k
one_hot k lt = omega (arith, pow-le-pow_right {n = 2} (omega arith) {i = k} {j = 9} (omega arith))

module _ (h : Host) where
  -- FCLASS raises one of ten bits: 8 or 9 for a NaN, and otherwise one of 0 to 7, where the bit of
  -- the negated operand is the mirror image of the operand's bit.
  pub fclass-f32_neg :
      (v : ℕ)
      → v < 2 ^ 32
      → (fclass h v ≡ 2 ^ fclass_shift h v)
        × (((fpclassify v ≡ fp_nan) × ((fclass_shift h v ≡ 8) ⊎ (fclass_shift h v ≡ 9)))
            ⊎ ((fclass_shift h v < 8) × (fclass_shift h (f32_neg v) ≡ 7 - fclass_shift h v)))
  unfolding fclass fclass_shift
  fclass-f32_neg v lt = (
    one_hot _ (class_shift-lt (h.f32_is_signaling_nan v) (fpclassify v) (signbit v)),
    rw (fpclassify-f32_neg v lt, signbit-f32_neg v lt)
        (class_shift-mirror (h.f32_is_signaling_nan v) (h.f32_is_signaling_nan (f32_neg v))
          (fpclassify v) (signbit v)),
  )

-- The bit that FCLASS sets, from the sign and the magnitude of a binary32 and whether a NaN
-- signals.
abbrev pub class_bit : Bool → ℕ → ℕ
class_bit signaling v =
    let negative = v / 2 ^ 31 % 2 == 1 in
    let m = v % 2 ^ 31 in
    if ltb (255 * 2 ^ 23) m
    then (if signaling then 2 ^ 8 else 2 ^ 9)
    else if m == 255 * 2 ^ 23
    then (if negative then 2 ^ 0 else 2 ^ 7)
    else if leb (2 ^ 23) m
    then (if negative then 2 ^ 1 else 2 ^ 6)
    else if leb 1 m
    then (if negative then 2 ^ 2 else 2 ^ 5)
    else (if negative then 2 ^ 3 else 2 ^ 4)

pub fclass-class_bit : (h : Host) (v : ℕ) → fclass h v ≡ class_bit (h.f32_is_signaling_nan v) v
unfolding fclass fclass_shift fpclassify signbit class_shift
fclass-class_bit h v = ground arith
