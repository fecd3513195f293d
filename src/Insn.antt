-- ===== src/Insn.antt =====
-- src/isa/include/isa/{rv_insn,rvf_insn,rv_csr_insn}.hpp: the fields of an instruction word, each
-- by the code's shifts and masks. The immediates are int32_t, kept as bit patterns.
pub mod Fields
pub mod RoundTrip
use riscv_sim.Prelude.{ℕ, ◌+◌, ◌-◌, ◌*◌, ◌/◌, ◌%◌, ◌^◌, bit_and, bit_or, bit_xor}
use riscv_sim.Word.{◌<<<◌, ◌>>>◌, sub32}

unfoldable pub sign_extend : ℕ → ℕ → ℕ
sign_extend value bits =
    let sign_bit = 1 <<< (bits - 1) in
    let masked = bit_and value ((1 <<< bits) - 1) in sub32 (bit_xor masked sign_bit) sign_bit

unfoldable pub opcode : ℕ → ℕ
opcode raw = bit_and raw 0x7f

unfoldable pub rd : ℕ → ℕ
rd raw = bit_and (raw >>> 7) 0x1f

unfoldable pub funct3 : ℕ → ℕ
funct3 raw = bit_and (raw >>> 12) 0x7

unfoldable pub rs1 : ℕ → ℕ
rs1 raw = bit_and (raw >>> 15) 0x1f

unfoldable pub rs2 : ℕ → ℕ
rs2 raw = bit_and (raw >>> 20) 0x1f

unfoldable pub funct7 : ℕ → ℕ
funct7 raw = bit_and (raw >>> 25) 0x7f

unfoldable pub shamt : ℕ → ℕ
shamt raw = bit_and (raw >>> 20) 0x1f

unfoldable pub imm_i : ℕ → ℕ
imm_i raw = sign_extend (raw >>> 20) 12

unfoldable pub imm_s : ℕ → ℕ
imm_s raw =
    let low = bit_and (raw >>> 7) 0x1f in
    let high = bit_and (raw >>> 25) 0x7f in sign_extend (bit_or low (high <<< 5)) 12

unfoldable pub imm_b : ℕ → ℕ
imm_b raw =
    let bit11 = bit_and (raw >>> 7) 0x1 in
    let bits4_1 = bit_and (raw >>> 8) 0xf in
    let bits10_5 = bit_and (raw >>> 25) 0x3f in
    let bit12 = bit_and (raw >>> 31) 0x1 in
    sign_extend
      (bit_or (bit_or (bit_or (bit12 <<< 12) (bit11 <<< 11)) (bits10_5 <<< 5)) (bits4_1 <<< 1)) 13

unfoldable pub imm_u : ℕ → ℕ
imm_u raw = bit_and raw 0xffff_f000

unfoldable pub imm_j : ℕ → ℕ
imm_j raw =
    let bit20 = bit_and (raw >>> 31) 0x1 in
    let bits10_1 = bit_and (raw >>> 21) 0x3ff in
    let bit11 = bit_and (raw >>> 20) 0x1 in
    let bits19_12 = bit_and (raw >>> 12) 0xff in
    sign_extend
      (bit_or (bit_or (bit_or (bit20 <<< 20) (bits19_12 <<< 12)) (bit11 <<< 11)) (bits10_1 <<< 1))
      21

-- `RvCSRInsn::ImmCSR`.
unfoldable pub imm_csr : ℕ → ℕ
imm_csr raw = raw >>> 20

-- `RvFInsn`.
unfoldable pub rs3 : ℕ → ℕ
rs3 raw = bit_and (raw >>> 27) 0x1f

unfoldable pub rm : ℕ → ℕ
rm raw = bit_and (raw >>> 12) 0x7

unfoldable pub fmt : ℕ → ℕ
fmt raw = bit_and (raw >>> 25) 0x3

unfoldable pub funct5 : ℕ → ℕ
funct5 raw = bit_and (raw >>> 27) 0x1f
