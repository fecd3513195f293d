-- ===== src/Insn/Fields.antt =====
-- The fields of an instruction word as arithmetic, in the form that `omega` reads.
use riscv_sim.Bits.{bit_and_mask, bit_or_fields, bit_or_fields', bit_xor_top, bit_and_high_mask}
use riscv_sim.Prelude.{ℕ, suc, ◌+◌, ◌-◌, ◌*◌, ◌/◌, ◌%◌, ◌^◌, ◌<◌, ◌≡◌, refl, arith}
use riscv_sim.Prelude.{bit_or, bit_xor, ltb, if◌then◌else◌}
use riscv_sim.Insn.{
  sign_extend, opcode, rd, funct3, rs1, rs2, funct7, shamt, imm_i, imm_s, imm_b, imm_u, imm_j,
  imm_csr, rs3, rm,
}

pub opcode_lem : (raw : ℕ) → opcode raw ≡ raw % 128
unfolding opcode
opcode_lem raw = bit_and_mask 7 raw

pub rd_lem : (raw : ℕ) → rd raw ≡ raw / 128 % 32
unfolding rd
rd_lem raw = bit_and_mask 5 (raw / 128)

pub funct3_lem : (raw : ℕ) → funct3 raw ≡ raw / 4096 % 8
unfolding funct3
funct3_lem raw = bit_and_mask 3 (raw / 4096)

pub rs1_lem : (raw : ℕ) → rs1 raw ≡ raw / 2 ^ 15 % 32
unfolding rs1
rs1_lem raw = bit_and_mask 5 (raw / 2 ^ 15)

pub rs2_lem : (raw : ℕ) → rs2 raw ≡ raw / 2 ^ 20 % 32
unfolding rs2
rs2_lem raw = bit_and_mask 5 (raw / 2 ^ 20)

pub funct7_lem : (raw : ℕ) → funct7 raw ≡ raw / 2 ^ 25 % 128
unfolding funct7
funct7_lem raw = bit_and_mask 7 (raw / 2 ^ 25)

pub shamt_lem : (raw : ℕ) → shamt raw ≡ raw / 2 ^ 20 % 32
unfolding shamt
shamt_lem raw = bit_and_mask 5 (raw / 2 ^ 20)

pub rs3_lem : (raw : ℕ) → rs3 raw ≡ raw / 2 ^ 27 % 32
unfolding rs3
rs3_lem raw = bit_and_mask 5 (raw / 2 ^ 27)

pub rm_lem : (raw : ℕ) → rm raw ≡ raw / 4096 % 8
unfolding rm
rm_lem raw = bit_and_mask 3 (raw / 4096)

pub imm_csr_lem : (raw : ℕ) → imm_csr raw ≡ raw / 2 ^ 20
unfolding imm_csr
imm_csr_lem raw = refl

-- A field of n + 1 bits, read as a signed number and widened to 32 bits.
abbrev pub widened : ℕ → ℕ → ℕ
widened n v = if ltb v (2 ^ n) then v else v + 2 ^ 32 - 2 ^ suc n

abbrev fold_sign : ℕ → ℕ → ℕ
fold_sign n v = (bit_xor v (2 ^ n) + 2 ^ 32 - 2 ^ n) % 2 ^ 32

-- `(v ^ sign) - sign` on a field of n + 1 bits, at the three widths that the code has.
fold_sign_11 : (v : ℕ) → v < 2 ^ 12 → fold_sign 11 v ≡ widened 11 v
fold_sign_11 v h = ground (arith, bit_xor_top 11 (v / 2 ^ 11) (v % 2 ^ 11))

fold_sign_12 : (v : ℕ) → v < 2 ^ 13 → fold_sign 12 v ≡ widened 12 v
fold_sign_12 v h = ground (arith, bit_xor_top 12 (v / 2 ^ 12) (v % 2 ^ 12))

fold_sign_20 : (v : ℕ) → v < 2 ^ 21 → fold_sign 20 v ≡ widened 20 v
fold_sign_20 v h = ground (arith, bit_xor_top 20 (v / 2 ^ 20) (v % 2 ^ 20))

pub sign_extend_12 : (v : ℕ) → sign_extend v 12 ≡ widened 11 (v % 2 ^ 12)
unfolding sign_extend
sign_extend_12 v = rw (bit_and_mask 12 v) (fold_sign_11 (v % 2 ^ 12) (omega arith))

pub sign_extend_13 : (v : ℕ) → sign_extend v 13 ≡ widened 12 (v % 2 ^ 13)
unfolding sign_extend
sign_extend_13 v = rw (bit_and_mask 13 v) (fold_sign_12 (v % 2 ^ 13) (omega arith))

pub sign_extend_21 : (v : ℕ) → sign_extend v 21 ≡ widened 20 (v % 2 ^ 21)
unfolding sign_extend
sign_extend_21 v = rw (bit_and_mask 21 v) (fold_sign_20 (v % 2 ^ 21) (omega arith))

pub imm_i_lem : (raw : ℕ) → imm_i raw ≡ widened 11 (raw / 2 ^ 20 % 2 ^ 12)
unfolding imm_i
imm_i_lem raw = sign_extend_12 (raw / 2 ^ 20)

pub imm_s_lem : (raw : ℕ) → imm_s raw ≡ widened 11 (raw / 2 ^ 25 % 128 * 32 + raw / 128 % 32)
unfolding imm_s
imm_s_lem raw = ground (
  arith,
  bit_and_mask 5 (raw / 128),
  bit_and_mask 7 (raw / 2 ^ 25),
  bit_or_fields' 5 (raw / 2 ^ 25 % 128) (raw / 128 % 32),
  sign_extend_12 (raw / 2 ^ 25 % 128 * 32 + raw / 128 % 32),
)

-- Bits 31, 7, 30:25 and 11:8 make up a branch offset.
abbrev pub offset_b : ℕ → ℕ
offset_b raw =
    raw / 2 ^ 31 % 2 * 4096 + raw / 128 % 2 * 2048 + raw / 2 ^ 25 % 64 * 32 + raw / 256 % 16 * 2

packed_b :
    (b12 b11 b10_5 b4_1 : ℕ)
    → b12 < 2
    → b11 < 2
    → b10_5 < 64
    → b4_1 < 16
    → bit_or (bit_or (bit_or (b12 * 4096) (b11 * 2048)) (b10_5 * 32)) (b4_1 * 2)
      ≡ b12 * 4096 + b11 * 2048 + b10_5 * 32 + b4_1 * 2
packed_b b12 b11 b10_5 b4_1 h12 h11 h10 h4 = ground (
  arith,
  bit_or_fields 12 b12 (b11 * 2048),
  bit_or_fields 11 (b12 * 2 + b11) (b10_5 * 32),
  bit_or_fields 5 (b12 * 128 + b11 * 64 + b10_5) (b4_1 * 2),
)

pub imm_b_lem : (raw : ℕ) → imm_b raw ≡ widened 12 (offset_b raw)
unfolding imm_b
imm_b_lem raw = ground (
  arith,
  bit_and_mask 1 (raw / 128),
  bit_and_mask 4 (raw / 256),
  bit_and_mask 6 (raw / 2 ^ 25),
  bit_and_mask 1 (raw / 2 ^ 31),
  packed_b (raw / 2 ^ 31 % 2) (raw / 128 % 2) (raw / 2 ^ 25 % 64) (raw / 256 % 16),
  sign_extend_13 (offset_b raw),
)

-- Bits 31, 19:12, 20 and 30:21 make up a jump offset.
abbrev pub offset_j : ℕ → ℕ
offset_j raw =
    raw / 2 ^ 31 % 2 * 2 ^ 20
    + raw / 2 ^ 12 % 256 * 2 ^ 12
    + raw / 2 ^ 20 % 2 * 2048
    + raw / 2 ^ 21 % 1024 * 2

packed_j :
    (b20 b19_12 b11 b10_1 : ℕ)
    → b20 < 2
    → b19_12 < 256
    → b11 < 2
    → b10_1 < 1024
    → bit_or (bit_or (bit_or (b20 * 2 ^ 20) (b19_12 * 2 ^ 12)) (b11 * 2048)) (b10_1 * 2)
      ≡ b20 * 2 ^ 20 + b19_12 * 2 ^ 12 + b11 * 2048 + b10_1 * 2
packed_j b20 b19_12 b11 b10_1 h20 h19 h11 h10 = ground (
  arith,
  bit_or_fields 20 b20 (b19_12 * 2 ^ 12),
  bit_or_fields 12 (b20 * 256 + b19_12) (b11 * 2048),
  bit_or_fields 11 (b20 * 512 + b19_12 * 2 + b11) (b10_1 * 2),
)

pub imm_j_lem : (raw : ℕ) → imm_j raw ≡ widened 20 (offset_j raw)
unfolding imm_j
imm_j_lem raw = ground (
  arith,
  bit_and_mask 1 (raw / 2 ^ 31),
  bit_and_mask 10 (raw / 2 ^ 21),
  bit_and_mask 1 (raw / 2 ^ 20),
  bit_and_mask 8 (raw / 2 ^ 12),
  packed_j (raw / 2 ^ 31 % 2) (raw / 2 ^ 12 % 256) (raw / 2 ^ 20 % 2) (raw / 2 ^ 21 % 1024),
  sign_extend_21 (offset_j raw),
)

pub imm_u_lem : (raw : ℕ) → raw < 2 ^ 32 → imm_u raw ≡ raw / 2 ^ 12 * 2 ^ 12
unfolding imm_u
imm_u_lem raw h = ground (arith, bit_and_high_mask 20 12 (raw / 2 ^ 12) (raw % 2 ^ 12))
