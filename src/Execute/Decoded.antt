-- ===== src/Execute/Decoded.antt =====
-- Rounds of the loop, by the row of the table that the fetched word decodes to.
use riscv_sim.Prelude.{ℕ, Bool, true, false, not, ◌&&◌, List, [], ◌∷◌, ◌≡◌, refl, arith}
use riscv_sim.Outcome.{ok}
use riscv_sim.Decode.{decode}
use riscv_sim.Decode.Table.{InsnEntry, insn_decode_table}
use riscv_sim.Decode.Unique.{IsRow, here, there}
use riscv_sim.Host.{Host}
use riscv_sim.Memory.{fetch}
use riscv_sim.Machine.State.{Machine, ◌>>=◌}
use riscv_sim.Machine.{get_ip}
use riscv_sim.Execute.{instr_callback, is_invalid, execute_insn}

module _ (h : Host) where
  all_valid : List InsnEntry → Bool
  all_valid [] = true
  all_valid (e ∷ es) = not (is_invalid h e.mnem) && all_valid es

  all_valid-IsRow :
      (es : List InsnEntry) (e : InsnEntry)
      → all_valid es ≡ true
      → IsRow e es
      → is_invalid h e.mnem ≡ false
  unfolding all_valid
  all_valid-IsRow [] e v r = elim r [ ]
  all_valid-IsRow (_ ∷ es) e v here = ground arith
  all_valid-IsRow (_ ∷ es) e v (there r) = all_valid-IsRow es e (ground arith) r

  -- No row of the table is kInvalid.
  is_invalid-IsRow : (e : InsnEntry) → IsRow e insn_decode_table → is_invalid h e.mnem ≡ false
  unfolding all_valid insn_decode_table is_invalid
  is_invalid-IsRow e r = all_valid-IsRow insn_decode_table e refl r

  pub execute_insn-IsRow :
      (s : Machine) (raw : ℕ) (e : InsnEntry)
      → IsRow e insn_decode_table
      → decode raw ≡ e.mnem
      → fetch h.asserts s.memory s.ip ≡ ok raw
      → execute_insn h s ≡ instr_callback h e.mnem raw s
  unfolding execute_insn get_ip
  execute_insn-IsRow s raw e row decoded fetched =
      rw (fetched, ◌>>=◌, decoded, is_invalid-IsRow e row) refl
