-- ===== src/Machine/Csr.antt =====
-- The control and status registers: fflags and frm are fields of fcsr.
use riscv_sim.Bits.{
  bit_and_mask, bit_or_fields, bit_or_fields', bit_and_high_mask, bit_and_split, zero-bit_and,
}
use native.Mathlib.Decide.{ℕ_discrete as dec_eq}
use riscv_sim.Prelude.{ℕ, ◌+◌, ◌-◌, ◌*◌, ◌/◌, ◌%◌, ◌^◌, ◌<◌, ◌≡◌, ap, ◌∙◌, arith, bit_and}
use riscv_sim.Prelude.{some}
use riscv_sim.Word.{◌<<<◌, bit_not}
use riscv_sim.Machine.{csr_value, csr_update, csr_fflags, csr_frm, csr_fcsr}

pub csr_value-fflags : (fcsr : ℕ) → csr_value csr_fflags fcsr ≡ some (fcsr % 32)
unfolding csr_value
csr_value-fflags fcsr = ap some (bit_and_mask 5 fcsr)

pub csr_value-frm : (fcsr : ℕ) → csr_value csr_frm fcsr ≡ some (fcsr / 32 % 8)
unfolding csr_value
csr_value-frm fcsr = ap some (bit_and_mask 3 (fcsr / 32))

csr_value-fcsr : (fcsr : ℕ) → csr_value csr_fcsr fcsr ≡ some (fcsr % 256)
unfolding csr_value
csr_value-fcsr fcsr = ap some (bit_and_mask 8 fcsr)

fflags_cleared : (fcsr : ℕ) → fcsr < 256 → bit_and fcsr (bit_not 0x1f) ≡ fcsr / 32 * 32
fflags_cleared fcsr lt = ground (arith, bit_and_high_mask 27 5 (fcsr / 32) (fcsr % 32))

frm_cleared : (fcsr : ℕ) → fcsr < 256 → bit_and fcsr (bit_not (0x7 <<< 5)) ≡ fcsr % 32
frm_cleared fcsr lt =
    ground (
      arith,
      bit_and_split 8 0 fcsr (2 ^ 24 - 1) 31,
      bit_and_mask 5 fcsr,
      zero-bit_and (2 ^ 24 - 1),
    )

pub csr_update-fflags :
    (value fcsr : ℕ)
    → fcsr < 256
    → csr_update csr_fflags value fcsr ≡ some (fcsr / 32 * 32 + value % 32)
unfolding csr_update
csr_update-fflags value fcsr lt =
    rw (fflags_cleared fcsr lt, bit_and_mask 5 value)
      (ap some (bit_or_fields 5 (fcsr / 32) (value % 32) (omega arith)))

csr_update-frm :
    (value fcsr : ℕ)
    → fcsr < 256
    → csr_update csr_frm value fcsr ≡ some (value % 8 * 32 + fcsr % 32)
unfolding csr_update
csr_update-frm value fcsr lt =
    let small : value % 8 * 32 % 2 ^ 32 ≡ value % 8 * 32 = omega arith in
    rw (frm_cleared fcsr lt, bit_and_mask 3 value, small)
      (ap some (bit_or_fields' 5 (value % 8) (fcsr % 32) (omega arith)))

csr_update-fcsr : (value fcsr : ℕ) → csr_update csr_fcsr value fcsr ≡ some (value % 256)
unfolding csr_update
csr_update-fcsr value fcsr = ap some (bit_and_mask 8 value)

-- The registers that the simulator has, and how they lie in fcsr.
pub data IsCsr : ℕ → ℕ → ℕ → Type 0 where
  fflags_field : IsCsr csr_fflags 0 5
  frm_field : IsCsr csr_frm 5 3
  whole_fcsr : IsCsr csr_fcsr 0 8

-- fflags, frm and fcsr are the bits 0 to 4, 5 to 7 and 0 to 7 of the state's fcsr: for an fcsr
-- below 256 each reads as its bits, and a write of any value gives an fcsr below 256 in which those
-- bits are the value's low ones and the others are as before.
pub csr_update-csr_value :
    {index low width : ℕ} (value fcsr : ℕ)
    → IsCsr index low width
    → fcsr < 256
    → (fcsr' : ℕ) × (csr_update index value fcsr ≡ some fcsr')
      × (fcsr' < 256)
      × (csr_value index fcsr ≡ some (fcsr / 2 ^ low % 2 ^ width))
      × (csr_value index fcsr' ≡ some (value % 2 ^ width))
      × (fcsr' % 2 ^ low ≡ fcsr % 2 ^ low)
      × (fcsr' / 2 ^ (low + width) ≡ fcsr / 2 ^ (low + width))
csr_update-csr_value value fcsr fflags_field lt = (
  _,
  csr_update-fflags value fcsr lt,
  omega arith,
  csr_value-fflags fcsr ∙ ap some (omega arith),
  csr_value-fflags _ ∙ ap some (omega arith),
  omega arith,
  omega arith,
)
csr_update-csr_value value fcsr frm_field lt = (
  _,
  csr_update-frm value fcsr lt,
  omega arith,
  csr_value-frm fcsr,
  csr_value-frm _ ∙ ap some (omega arith),
  omega arith,
  omega arith,
)
csr_update-csr_value value fcsr whole_fcsr lt = (
  _,
  csr_update-fcsr value fcsr,
  omega arith,
  csr_value-fcsr fcsr ∙ ap some (omega arith),
  csr_value-fcsr _ ∙ ap some (omega arith),
  omega arith,
  omega arith,
)

-- Whatever the register, a write keeps fcsr a byte.
pub csr_update-lt :
    (index value fcsr : ℕ) {fcsr' : ℕ}
    → csr_update index value fcsr ≡ some fcsr'
    → fcsr < 256
    → fcsr' < 256
csr_update-lt index value fcsr e lt = elim (dec_eq index csr_fflags) [
  | yes p ↦ ground (arith, csr_update-fflags value fcsr, ap (λ i. csr_update i value fcsr) p)
  | no not_fflags ↦ elim (dec_eq index csr_frm) [
    | yes p ↦ ground (arith, csr_update-frm value fcsr, ap (λ i. csr_update i value fcsr) p)
    | no not_frm ↦ elim (dec_eq index csr_fcsr) [
      | yes p ↦ ground (arith, csr_update-fcsr value fcsr, ap (λ i. csr_update i value fcsr) p)
      | no not_fcsr ↦ unfold csr_update in ground arith
    ]
  ]
]
