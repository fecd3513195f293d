-- ===== src/InsnSet/Words.antt =====
-- Instruction words by the fields that a mask of the decode table leaves free.
use riscv_sim.Bits.{bit_and_mask}
use riscv_sim.Prelude.{ℕ, ◌+◌, ◌*◌, ◌/◌, ◌%◌, ◌^◌, ◌<◌, ◌≡◌, ap, sym, ◌∙◌, arith, bit_and}
use riscv_sim.Word.{reg_to_ireg}
use riscv_sim.Insn.Fields.{widened}
use riscv_sim.Insn.RoundTrip.{Fits}
use riscv_sim.Decode.Encoded.{mask_funct3, mask_funct7}
use riscv_sim.Decode.Unary.{mask_funct12}

-- A word is the match value of a row that it matches, with the fields that the mask leaves free.
pub word_funct3 :
    (raw m : ℕ)
    → raw < 2 ^ 32
    → bit_and raw 0x707f ≡ m
    → raw ≡ m + raw / 2 ^ 15 * 2 ^ 15 + raw / 2 ^ 7 % 32 * 2 ^ 7
word_funct3 raw m lt e =
    let parts : raw
        ≡ raw / 2 ^ 15 * 2 ^ 15
          + (raw / 2 ^ 12 % 8 * 2 ^ 12 + (raw / 2 ^ 7 % 32 * 2 ^ 7 + raw % 128)) =
      omega arith in
    let masked =
      ap (λ t. bit_and t 0x707f) parts
      ∙ mask_funct3 (raw / 2 ^ 15) (raw / 2 ^ 12 % 8) (raw / 2 ^ 7 % 32) (raw % 128) (omega arith)
          (omega arith) (omega arith) in
    omega (arith, sym e ∙ masked)

pub word_funct7 :
    (raw m : ℕ)
    → raw < 2 ^ 32
    → bit_and raw 0xfe00_707f ≡ m
    → raw ≡ m + raw / 2 ^ 20 % 32 * 2 ^ 20 + raw / 2 ^ 15 % 32 * 2 ^ 15 + raw / 2 ^ 7 % 32 * 2 ^ 7
word_funct7 raw m lt e =
    let parts : raw
        ≡ (raw / 2 ^ 25 * 2 ^ 10 + raw / 2 ^ 15 % 2 ^ 10) * 2 ^ 15
          + (raw / 2 ^ 12 % 8 * 2 ^ 12 + (raw / 2 ^ 7 % 32 * 2 ^ 7 + raw % 128)) =
      omega arith in
    let masked =
      ap (λ t. bit_and t 0xfe00_707f) parts
      ∙ mask_funct7 (raw / 2 ^ 25) (raw / 2 ^ 15 % 2 ^ 10) (raw / 2 ^ 12 % 8) (raw / 2 ^ 7 % 32)
          (raw % 128) (omega arith) (omega arith) (omega arith) (omega arith) (omega arith) in
    omega (arith, sym e ∙ masked)

pub word_funct12 :
    (raw m : ℕ)
    → raw < 2 ^ 32
    → bit_and raw 0xfff0_707f ≡ m
    → raw ≡ m + raw / 2 ^ 15 % 32 * 2 ^ 15 + raw / 2 ^ 7 % 32 * 2 ^ 7
word_funct12 raw m lt e =
    let parts : raw
        ≡ (raw / 2 ^ 20 * 32 + raw / 2 ^ 15 % 32) * 2 ^ 15
          + (raw / 2 ^ 12 % 8 * 2 ^ 12 + (raw / 2 ^ 7 % 32 * 2 ^ 7 + raw % 128)) =
      omega arith in
    let masked =
      ap (λ t. bit_and t 0xfff0_707f) parts
      ∙ mask_funct12 (raw / 2 ^ 20) (raw / 2 ^ 15 % 32) (raw / 2 ^ 12 % 8) (raw / 2 ^ 7 % 32)
          (raw % 128) (omega arith) (omega arith) (omega arith) (omega arith) (omega arith) in
    omega (arith, sym e ∙ masked)

pub word_opcode :
    (raw m : ℕ) → bit_and raw 0x7f ≡ m → raw ≡ m + raw / 2 ^ 12 * 2 ^ 12 + raw / 2 ^ 7 % 32 * 2 ^ 7
word_opcode raw m e = omega (arith, sym (bit_and_mask 7 raw) ∙ e)

-- The immediates of the formats, from the bits of a word.
pub widened-Fits_12 : (v : ℕ) → v < 2 ^ 12 → Fits 11 (widened 11 v)
unfolding reg_to_ireg
widened-Fits_12 v lt = ground arith

pub widened-Fits_13 : (v : ℕ) → v < 2 ^ 13 → Fits 12 (widened 12 v)
unfolding reg_to_ireg
widened-Fits_13 v lt = ground arith

pub widened-Fits_21 : (v : ℕ) → v < 2 ^ 21 → Fits 20 (widened 20 v)
unfolding reg_to_ireg
widened-Fits_21 v lt = ground arith

pub widened-mod_12 : (v : ℕ) → v < 2 ^ 12 → widened 11 v % 2 ^ 12 ≡ v
widened-mod_12 v lt = ground arith

pub widened-mod_13 : (v : ℕ) → v < 2 ^ 13 → widened 12 v % 2 ^ 13 ≡ v
widened-mod_13 v lt = ground arith

pub widened-mod_21 : (v : ℕ) → v < 2 ^ 21 → widened 20 v % 2 ^ 21 ≡ v
widened-mod_21 v lt = ground arith
