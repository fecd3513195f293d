-- ===== src/Insn/RoundTrip.antt =====
-- Encodings of the instruction formats, as the RISC-V manual draws them, and what the accessors of
-- rv_insn.hpp read back from them.
use riscv_sim.Prelude.{ℕ, ◌+◌, ◌-◌, ◌*◌, ◌/◌, ◌%◌, ◌^◌, ◌<◌, ◌≡◌, arith}
use riscv_sim.Prelude.{pos, negsuc, ◌≤ℤ◌, ◌<ℤ◌}
use riscv_sim.Word.{reg_to_ireg}
use riscv_sim.Insn.{opcode, rd, funct3, rs1, rs2, funct7, imm_i, imm_s, imm_b, imm_u, imm_j}
use riscv_sim.Insn.Fields.{
  opcode_lem, rd_lem, funct3_lem, rs1_lem, rs2_lem, funct7_lem, imm_i_lem, imm_s_lem, imm_b_lem,
  imm_u_lem, imm_j_lem,
}

abbrev pub encode_r : ℕ → ℕ → ℕ → ℕ → ℕ → ℕ → ℕ
encode_r f7 r2 r1 f3 d op = f7 * 2 ^ 25 + r2 * 2 ^ 20 + r1 * 2 ^ 15 + f3 * 2 ^ 12 + d * 2 ^ 7 + op

-- The fields of an R-format word come back: funct7, rs2, rs1, funct3, rd and the opcode, each
-- within its width.
pub fields-encode_r :
    (f7 r2 r1 f3 d op : ℕ)
    → f7 < 128
    → r2 < 32
    → r1 < 32
    → f3 < 8
    → d < 32
    → op < 128
    → let raw = encode_r f7 r2 r1 f3 d op in
      (funct7 raw ≡ f7)
      × (rs2 raw ≡ r2)
      × (rs1 raw ≡ r1)
      × (funct3 raw ≡ f3)
      × (rd raw ≡ d)
      × (opcode raw ≡ op)
fields-encode_r f7 r2 r1 f3 d op h7 h2 h1 h3 hd ho =
    let raw = encode_r f7 r2 r1 f3 d op in
    omega
      (arith, funct7_lem raw, rs2_lem raw, rs1_lem raw, funct3_lem raw, rd_lem raw, opcode_lem raw)

-- The 12-bit and the longer immediates of the I, S, B, U and J formats, from an int32_t's pattern.
abbrev pub encode_i : ℕ → ℕ → ℕ → ℕ → ℕ → ℕ
encode_i imm r1 f3 d op = imm % 2 ^ 12 * 2 ^ 20 + r1 * 2 ^ 15 + f3 * 2 ^ 12 + d * 2 ^ 7 + op

abbrev pub encode_s : ℕ → ℕ → ℕ → ℕ → ℕ → ℕ
encode_s imm r2 r1 f3 op =
    imm / 32 % 128 * 2 ^ 25 + r2 * 2 ^ 20 + r1 * 2 ^ 15 + f3 * 2 ^ 12 + imm % 32 * 2 ^ 7 + op

abbrev pub encode_b : ℕ → ℕ → ℕ → ℕ → ℕ → ℕ
encode_b imm r2 r1 f3 op =
    imm / 2 ^ 12 % 2 * 2 ^ 31
    + imm / 32 % 64 * 2 ^ 25
    + r2 * 2 ^ 20
    + r1 * 2 ^ 15
    + f3 * 2 ^ 12
    + imm / 2 % 16 * 2 ^ 8
    + imm / 2 ^ 11 % 2 * 2 ^ 7
    + op

abbrev pub encode_j : ℕ → ℕ → ℕ → ℕ
encode_j imm d op =
    imm / 2 ^ 20 % 2 * 2 ^ 31
    + imm / 2 % 1024 * 2 ^ 21
    + imm / 2 ^ 11 % 2 * 2 ^ 20
    + imm / 2 ^ 12 % 256 * 2 ^ 12
    + d * 2 ^ 7
    + op

-- An int32_t, as a pattern, that lies in the signed range of n + 1 bits.
abbrev pub Fits : ℕ → ℕ → Type 0
Fits n imm =
    (imm < 2 ^ 32) × (negsuc (2 ^ n - 1) ≤ℤ reg_to_ireg imm) × (reg_to_ireg imm <ℤ pos (2 ^ n))

-- The immediate of an I-format word comes back as its signed value, for immediates from -2^11 to
-- 2^11 - 1, and with it rs1 and rd.
pub imm_i-encode_i :
    (imm r1 f3 d op : ℕ)
    → Fits 11 imm
    → r1 < 32
    → f3 < 8
    → d < 32
    → op < 128
    → let raw = encode_i imm r1 f3 d op in (imm_i raw ≡ imm) × (rs1 raw ≡ r1) × (rd raw ≡ d)
unfolding reg_to_ireg
imm_i-encode_i imm r1 f3 d op fits h1 h3 hd ho =
    let raw = encode_i imm r1 f3 d op in ground (arith, imm_i_lem raw, rs1_lem raw, rd_lem raw)

-- The immediate of an S-format word comes back as its signed value, for immediates from -2^11 to
-- 2^11 - 1, and with it rs1 and rs2.
pub imm_s-encode_s :
    (imm r2 r1 f3 op : ℕ)
    → Fits 11 imm
    → r2 < 32
    → r1 < 32
    → f3 < 8
    → op < 128
    → let raw = encode_s imm r2 r1 f3 op in (imm_s raw ≡ imm) × (rs1 raw ≡ r1) × (rs2 raw ≡ r2)
unfolding reg_to_ireg
imm_s-encode_s imm r2 r1 f3 op fits h2 h1 h3 ho =
    let raw = encode_s imm r2 r1 f3 op in ground (arith, imm_s_lem raw, rs1_lem raw, rs2_lem raw)

-- The offset of a B-format word comes back as its signed value, for even offsets from -2^12 to 2^12
-- - 2, and with it rs1, rs2 and the opcode.
pub imm_b-encode_b :
    (imm r2 r1 f3 op : ℕ)
    → Fits 12 imm
    → imm % 2 ≡ 0
    → r2 < 32
    → r1 < 32
    → f3 < 8
    → op < 128
    → let raw = encode_b imm r2 r1 f3 op in
      (imm_b raw ≡ imm) × (rs1 raw ≡ r1) × (rs2 raw ≡ r2) × (opcode raw ≡ op)
unfolding reg_to_ireg
imm_b-encode_b imm r2 r1 f3 op fits even h2 h1 h3 ho =
    let raw = encode_b imm r2 r1 f3 op in
    ground (arith, imm_b_lem raw, rs1_lem raw, rs2_lem raw, opcode_lem raw)

-- The offset of a J-format word comes back as its signed value, for even offsets from -2^20 to 2^20
-- - 2, and with it rd and the opcode.
pub imm_j-encode_j :
    (imm d op : ℕ)
    → Fits 20 imm
    → imm % 2 ≡ 0
    → d < 32
    → op < 128
    → let raw = encode_j imm d op in (imm_j raw ≡ imm) × (rd raw ≡ d) × (opcode raw ≡ op)
unfolding reg_to_ireg
imm_j-encode_j imm d op fits even hd ho =
    let raw = encode_j imm d op in ground (arith, imm_j_lem raw, rd_lem raw, opcode_lem raw)

pub imm_u-encode_u :
    (imm d op : ℕ)
    → imm < 2 ^ 20
    → d < 32
    → op < 128
    → let raw = imm * 2 ^ 12 + d * 2 ^ 7 + op in
      (imm_u raw ≡ imm * 2 ^ 12) × (rd raw ≡ d) × (opcode raw ≡ op)
imm_u-encode_u imm d op hi hd ho =
    let raw = imm * 2 ^ 12 + d * 2 ^ 7 + op in
    omega (arith, imm_u_lem raw (omega arith), rd_lem raw, opcode_lem raw)
