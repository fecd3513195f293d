-- ===== src/Tests/Instructions.antt =====
-- Decoding and field extraction on concrete instruction words.
use riscv_sim.Prelude.{ℕ, ◌-◌, ◌^◌, ◌<◌, ◌≤◌, ◌≡◌, refl, arith}
use riscv_sim.Word.{reg_to_ireg}
use riscv_sim.Mnemonic.{InsnMnemonic}
use riscv_sim.Insn.RoundTrip.{Fits}
use riscv_sim.Decode.{decode}
use riscv_sim.Decode.Table.{InsnEntry, entry, insn_decode_table, ext_i}
use riscv_sim.Decode.Unique.{IsRow, here, there, decode-IsRow}

abbrev auipc_row : InsnEntry
auipc_row = entry InsnMnemonic.auipc 0x0000_007f 0x0000_0017

auipc_row-IsRow : IsRow auipc_row insn_decode_table
unfolding insn_decode_table ext_i
auipc_row-IsRow = there here

abbrev beq_row : InsnEntry
beq_row = entry InsnMnemonic.beq 0x0000_707f 0x0000_0063

beq_row-IsRow : IsRow beq_row insn_decode_table
unfolding insn_decode_table ext_i
beq_row-IsRow = there (there (there (there here)))

abbrev pub add_row : InsnEntry
add_row = entry InsnMnemonic.add 0xfe00_707f 0x0000_0033

pub add_row-IsRow : IsRow add_row insn_decode_table
unfolding insn_decode_table ext_i
add_row-IsRow = search (IsRow.here, IsRow.there) depth 40

-- AUIPC x5, 1.
decode-IsRow_example : decode 0x0000_1297 ≡ InsnMnemonic.auipc
decode-IsRow_example = decode-IsRow 0x0000_1297 auipc_row auipc_row-IsRow refl

-- The offset -4.
abbrev minus_4 : ℕ
minus_4 = 2 ^ 32 - 4

minus_4-Fits : (n : ℕ) → 2 < n → n < 31 → 4 ≤ 2 ^ n → Fits n minus_4
unfolding reg_to_ireg
minus_4-Fits n lo hi wide = ground arith

-- add x1, x2, x3; the reserved word 0.
decode_add : decode 0x0031_00b3 ≡ InsnMnemonic.add
unfolding decode
decode_add = refl

decode_zero : decode 0 ≡ InsnMnemonic.k_invalid
unfolding decode
decode_zero = refl
