-- ===== src/Decode.antt =====
-- src/sim/source/decode.cpp: the table that the isa/*.inc rows build, and the scan over it.
pub mod Table
pub mod Unique
pub mod Encoded
pub mod Unary
use riscv_sim.Prelude.{ℕ, ◌≡◌, refl, List, [], ◌∷◌, bit_and, ◌==◌, if◌then◌else◌}
use riscv_sim.Mnemonic.{InsnMnemonic}
use Table.{InsnEntry, insn_decode_table}

unfoldable pub scan : List InsnEntry → ℕ → InsnMnemonic
scan [] insn = InsnMnemonic.k_invalid
scan (e ∷ es) insn = if bit_and insn e.mask == e.match then e.mnem else scan es insn

unfoldable pub decode : ℕ → InsnMnemonic
unfolding scan insn_decode_table
decode insn = scan insn_decode_table insn
