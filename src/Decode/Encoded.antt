-- ===== src/Decode/Encoded.antt =====
-- The decoder on words that an assembler makes: a row's match value with operand fields put in.
use riscv_sim.Bits.{bit_and_mask, bit_and_split, bit_and-zero}
use riscv_sim.Prelude.{
  ℕ, ◌+◌, ◌*◌, ◌/◌, ◌%◌, ◌^◌, ◌<◌, Bool, true, ◌&&◌, List, [], ◌∷◌, ◌==◌, ==_iff, ltb, ◌≡◌, refl,
  ap, sym, ◌∙◌, bit_and, arith,
}
use riscv_sim.Insn.{rd, rs1, rs2}
use riscv_sim.Insn.Fields.{rd_lem, rs1_lem, rs2_lem}
use riscv_sim.Decode.{decode}
use riscv_sim.Decode.Table.{InsnEntry, insn_decode_table}
use riscv_sim.Decode.Unique.{IsRow, here, there, decode-IsRow}

-- A match value is a word, with no ones outside of its mask.
well_formed : List InsnEntry → Bool
well_formed [] = true
well_formed (e ∷ es) = bit_and e.match e.mask == e.match && ltb e.match (2 ^ 32) && well_formed es

well_formed-IsRow :
    (es : List InsnEntry) (e : InsnEntry)
    → well_formed es ≡ true
    → IsRow e es
    → (bit_and e.match e.mask ≡ e.match) × (e.match < 2 ^ 32)
unfolding well_formed
well_formed-IsRow [] e w r = elim r [ ]
well_formed-IsRow (_ ∷ es) e w here = ground (arith, ==_iff (bit_and e.match e.mask) e.match)
well_formed-IsRow (_ ∷ es) e w (there r) = well_formed-IsRow es e (ground arith) r

pub match-mask :
    (e : InsnEntry)
    → IsRow e insn_decode_table
    → (bit_and e.match e.mask ≡ e.match) × (e.match < 2 ^ 32)
unfolding well_formed insn_decode_table
match-mask e r = well_formed-IsRow insn_decode_table e refl r

-- The masks of the formats, on the packed fields.
pub mask_low :
    (f3 d op : ℕ)
    → f3 < 8
    → d < 32
    → op < 128
    → bit_and (f3 * 2 ^ 12 + (d * 2 ^ 7 + op)) 0x707f ≡ f3 * 2 ^ 12 + op
mask_low f3 d op h3 hd ho = ground (
  arith,
  bit_and_split 12 f3 (d * 2 ^ 7 + op) 7 127,
  bit_and_mask 3 f3,
  bit_and_mask 7 (d * 2 ^ 7 + op),
)

pub mask_funct3 :
    (top f3 d op : ℕ)
    → f3 < 8
    → d < 32
    → op < 128
    → bit_and (top * 2 ^ 15 + (f3 * 2 ^ 12 + (d * 2 ^ 7 + op))) 0x707f ≡ f3 * 2 ^ 12 + op
mask_funct3 top f3 d op h3 hd ho = ground (
  arith,
  bit_and_split 15 top (f3 * 2 ^ 12 + (d * 2 ^ 7 + op)) 0 0x707f,
  mask_low f3 d op,
  bit_and-zero top,
)

pub mask_funct7 :
    (f7 mid f3 d op : ℕ)
    → f7 < 128
    → mid < 2 ^ 10
    → f3 < 8
    → d < 32
    → op < 128
    → bit_and ((f7 * 2 ^ 10 + mid) * 2 ^ 15 + (f3 * 2 ^ 12 + (d * 2 ^ 7 + op))) 0xfe00_707f
      ≡ f7 * 2 ^ 25 + f3 * 2 ^ 12 + op
mask_funct7 f7 mid f3 d op h7 hm h3 hd ho = ground (
  arith,
  bit_and_split 15 (f7 * 2 ^ 10 + mid) (f3 * 2 ^ 12 + (d * 2 ^ 7 + op)) (127 * 2 ^ 10 + 0) 0x707f,
  bit_and_split 10 f7 mid 127 0,
  mask_low f3 d op,
  bit_and_mask 7 f7,
  bit_and-zero mid,
)

-- The fields of the match value of a row whose mask is that of the format.
shape_funct7 :
    (m : ℕ)
    → m < 2 ^ 32
    → bit_and m 0xfe00_707f ≡ m
    → m ≡ m / 2 ^ 25 * 2 ^ 25 + m / 2 ^ 12 % 8 * 2 ^ 12 + m % 128
shape_funct7 m lt e =
    let parts : m
        ≡ (m / 2 ^ 25 * 2 ^ 10 + m / 2 ^ 15 % 2 ^ 10) * 2 ^ 15
          + (m / 2 ^ 12 % 8 * 2 ^ 12 + (m / 2 ^ 7 % 32 * 2 ^ 7 + m % 128)) =
      omega arith in
    sym e
    ∙ (ap (λ t. bit_and t 0xfe00_707f) parts
        ∙ mask_funct7 (m / 2 ^ 25) (m / 2 ^ 15 % 2 ^ 10) (m / 2 ^ 12 % 8) (m / 2 ^ 7 % 32) (m % 128)
            (omega arith) (omega arith) (omega arith) (omega arith) (omega arith))

shape_funct3 : (m : ℕ) → m < 2 ^ 32 → bit_and m 0x707f ≡ m → m ≡ m / 2 ^ 12 % 8 * 2 ^ 12 + m % 128
shape_funct3 m lt e =
    let parts : m
        ≡ m / 2 ^ 15 * 2 ^ 15 + (m / 2 ^ 12 % 8 * 2 ^ 12 + (m / 2 ^ 7 % 32 * 2 ^ 7 + m % 128)) =
      omega arith in
    sym e
    ∙ (ap (λ t. bit_and t 0x707f) parts
        ∙ mask_funct3 (m / 2 ^ 15) (m / 2 ^ 12 % 8) (m / 2 ^ 7 % 32) (m % 128) (omega arith)
            (omega arith) (omega arith))

-- The match value of a row is the opcode and funct3 under the mask of the I, S and B formats, and
-- the opcode alone under that of the U and J formats.
pub match-funct3 :
    (e : InsnEntry)
    → IsRow e insn_decode_table
    → e.mask ≡ 0x707f
    → e.match ≡ e.match / 2 ^ 12 % 8 * 2 ^ 12 + e.match % 128
match-funct3 e row mask = let (m, lt) = match-mask e row in shape_funct3 e.match lt (rw mask at m)

pub match-opcode :
    (e : InsnEntry) → IsRow e insn_decode_table → e.mask ≡ 0x7f → e.match ≡ e.match % 128
match-opcode e row mask =
    let (m, lt) = match-mask e row in sym (rw mask at m) ∙ bit_and_mask 7 e.match

-- For every row of the decode table whose mask is the opcode (the U and J formats), the row's match
-- value with any 20 bits put above rd and any register number below 32 in rd decodes to the row's
-- mnemonic.
pub decode-encoded_opcode :
    (e : InsnEntry) (top d : ℕ)
    → IsRow e insn_decode_table
    → e.mask ≡ 0x7f
    → d < 32
    → decode (e.match + top * 2 ^ 12 + d * 2 ^ 7) ≡ e.mnem
decode-encoded_opcode e top d row mask hd =
    let raw = e.match + top * 2 ^ 12 + d * 2 ^ 7 in
    let shape = match-opcode e row mask in
    let masked : raw % 2 ^ 7 ≡ e.match = omega arith in
    decode-IsRow raw e row (ap (bit_and raw) mask ∙ (bit_and_mask 7 raw ∙ masked))

-- For every row of the decode table whose mask is that of the R format (funct7, funct3 and the
-- opcode), the row's match value with any three register numbers below 32 put into rs2, rs1 and rd
-- decodes to the row's mnemonic, and the three registers are read back.
pub decode-encoded_r :
    (e : InsnEntry) (r2 r1 d : ℕ)
    → IsRow e insn_decode_table
    → e.mask ≡ 0xfe00_707f
    → r2 < 32
    → r1 < 32
    → d < 32
    → let raw = e.match + r2 * 2 ^ 20 + r1 * 2 ^ 15 + d * 2 ^ 7 in
      (decode raw ≡ e.mnem) × (rs2 raw ≡ r2) × (rs1 raw ≡ r1) × (rd raw ≡ d)
decode-encoded_r e r2 r1 d row mask h2 h1 hd =
    let (m, lt) = match-mask e row in
    let raw = e.match + r2 * 2 ^ 20 + r1 * 2 ^ 15 + d * 2 ^ 7 in
    let shape = shape_funct7 e.match lt (rw mask at m) in
    let f7 = e.match / 2 ^ 25 in
    let f3 = e.match / 2 ^ 12 % 8 in
    let op = e.match % 128 in
    let packed : raw ≡ (f7 * 2 ^ 10 + (r2 * 32 + r1)) * 2 ^ 15 + (f3 * 2 ^ 12 + (d * 2 ^ 7 + op)) =
      omega arith in
    let masked : bit_and raw 0xfe00_707f ≡ e.match =
      ap (λ t. bit_and t 0xfe00_707f) packed
      ∙ (mask_funct7 f7 (r2 * 32 + r1) f3 d op (omega arith) (omega arith) (omega arith) hd
            (omega arith)
          ∙ sym shape) in
    (
      decode-IsRow raw e row (ap (bit_and raw) mask ∙ masked),
      omega (arith, rs2_lem raw, shape),
      omega (arith, rs1_lem raw, shape),
      omega (arith, rd_lem raw, shape),
    )

-- For every row of the decode table whose mask is funct3 and the opcode (the I, S and B formats),
-- the row's match value with any 17 bits put above funct3 and any register number below 32 in rd
-- decodes to the row's mnemonic, and rs1, rs2 and rd are read back.
pub decode-encoded_funct3 :
    (e : InsnEntry) (top d : ℕ)
    → IsRow e insn_decode_table
    → e.mask ≡ 0x707f
    → top < 2 ^ 17
    → d < 32
    → let raw = e.match + top * 2 ^ 15 + d * 2 ^ 7 in
      (decode raw ≡ e.mnem) × (rs1 raw ≡ top % 32) × (rs2 raw ≡ top / 32 % 32) × (rd raw ≡ d)
decode-encoded_funct3 e top d row mask ht hd =
    let (m, lt) = match-mask e row in
    let raw = e.match + top * 2 ^ 15 + d * 2 ^ 7 in
    let shape = shape_funct3 e.match lt (rw mask at m) in
    let f3 = e.match / 2 ^ 12 % 8 in
    let op = e.match % 128 in
    let packed : raw ≡ top * 2 ^ 15 + (f3 * 2 ^ 12 + (d * 2 ^ 7 + op)) = omega arith in
    let masked : bit_and raw 0x707f ≡ e.match =
      ap (λ t. bit_and t 0x707f) packed
      ∙ (mask_funct3 top f3 d op (omega arith) hd (omega arith) ∙ sym shape) in
    (
      decode-IsRow raw e row (ap (bit_and raw) mask ∙ masked),
      omega (arith, rs1_lem raw, shape),
      omega (arith, rs2_lem raw, shape),
      omega (arith, rd_lem raw, shape),
    )
