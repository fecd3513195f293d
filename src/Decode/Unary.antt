-- ===== src/Decode/Unary.antt =====
-- The decoder on the words of instructions whose second operand is part of the opcode.
use riscv_sim.Bits.{bit_and_mask, bit_and_split, bit_and-zero}
use riscv_sim.Prelude.{ℕ, ◌+◌, ◌*◌, ◌/◌, ◌%◌, ◌^◌, ◌<◌, ◌≡◌, ap, sym, ◌∙◌, bit_and, arith}
use riscv_sim.Insn.{rd, rs1}
use riscv_sim.Insn.Fields.{rd_lem, rs1_lem}
use riscv_sim.Decode.{decode}
use riscv_sim.Decode.Table.{InsnEntry, insn_decode_table}
use riscv_sim.Decode.Unique.{IsRow, decode-IsRow}
use riscv_sim.Decode.Encoded.{match-mask, mask_low}

pub mask_funct12 :
    (f12 r1 f3 d op : ℕ)
    → f12 < 2 ^ 12
    → r1 < 32
    → f3 < 8
    → d < 32
    → op < 128
    → bit_and ((f12 * 32 + r1) * 2 ^ 15 + (f3 * 2 ^ 12 + (d * 2 ^ 7 + op))) 0xfff0_707f
      ≡ f12 * 2 ^ 20 + f3 * 2 ^ 12 + op
mask_funct12 f12 r1 f3 d op h12 h1 h3 hd ho = ground (
  arith,
  bit_and_split 15 (f12 * 32 + r1) (f3 * 2 ^ 12 + (d * 2 ^ 7 + op)) (4095 * 32 + 0) 0x707f,
  bit_and_split 5 f12 r1 4095 0,
  mask_low f3 d op,
  bit_and_mask 12 f12,
  bit_and-zero r1,
)

shape_funct12 :
    (m : ℕ)
    → m < 2 ^ 32
    → bit_and m 0xfff0_707f ≡ m
    → m ≡ m / 2 ^ 20 * 2 ^ 20 + m / 2 ^ 12 % 8 * 2 ^ 12 + m % 128
shape_funct12 m lt e =
    let parts : m
        ≡ (m / 2 ^ 20 * 32 + m / 2 ^ 15 % 32) * 2 ^ 15
          + (m / 2 ^ 12 % 8 * 2 ^ 12 + (m / 2 ^ 7 % 32 * 2 ^ 7 + m % 128)) =
      omega arith in
    sym e
    ∙ (ap (λ t. bit_and t 0xfff0_707f) parts
        ∙ mask_funct12 (m / 2 ^ 20) (m / 2 ^ 15 % 32) (m / 2 ^ 12 % 8) (m / 2 ^ 7 % 32) (m % 128)
            (omega arith) (omega arith) (omega arith) (omega arith) (omega arith))

-- For every row of the decode table whose mask leaves rs1 and rd free, the row's match value with
-- any two register numbers below 32 put there decodes to the row's mnemonic, and the registers are
-- read back.
pub decode-encoded_unary :
    (e : InsnEntry) (r1 d : ℕ)
    → IsRow e insn_decode_table
    → e.mask ≡ 0xfff0_707f
    → r1 < 32
    → d < 32
    → let raw = e.match + r1 * 2 ^ 15 + d * 2 ^ 7 in
      (decode raw ≡ e.mnem) × (rs1 raw ≡ r1) × (rd raw ≡ d)
decode-encoded_unary e r1 d row mask h1 hd =
    let (m, lt) = match-mask e row in
    let raw = e.match + r1 * 2 ^ 15 + d * 2 ^ 7 in
    let shape = shape_funct12 e.match lt (rw mask at m) in
    let f12 = e.match / 2 ^ 20 in
    let f3 = e.match / 2 ^ 12 % 8 in
    let op = e.match % 128 in
    let packed : raw ≡ (f12 * 32 + r1) * 2 ^ 15 + (f3 * 2 ^ 12 + (d * 2 ^ 7 + op)) = omega arith in
    let masked : bit_and raw 0xfff0_707f ≡ e.match =
      ap (λ t. bit_and t 0xfff0_707f) packed
      ∙ (mask_funct12 f12 r1 f3 d op (omega arith) h1 (omega arith) hd (omega arith) ∙ sym shape) in
    (
      decode-IsRow raw e row (ap (bit_and raw) mask ∙ masked),
      omega (arith, rs1_lem raw, shape),
      omega (arith, rd_lem raw, shape),
    )
