-- ===== src/InsnSet/Total.antt =====
-- The rounds of the loop, by the word that they fetch.
use riscv_sim.Prelude.{ℕ, ◌^◌, ◌<◌, ◌≡◌, refl, arith, ◌⊎◌, inl, inr, Bool-cases, ltb}
use riscv_sim.Outcome.{Outcome, ok, fault, thrown, unknown_instruction}
use riscv_sim.Mnemonic.{InsnMnemonic}
use riscv_sim.Decode.{decode}
use riscv_sim.Decode.Table.{InsnEntry, ext_f}
use riscv_sim.Decode.Unique.{IsRow, Matches}
use riscv_sim.Host.{Host}
use riscv_sim.Memory.{fetch}
use riscv_sim.Machine.Registers.{HasRegisters}
use riscv_sim.Machine.State.{Machine, ◌>>=◌}
use riscv_sim.Machine.{get_ip}
use riscv_sim.Execute.{execute_insn, is_invalid}
use riscv_sim.InsnSet.{Instruction}
use riscv_sim.InsnSet.Correct.{execute_insn-Instruction}
use riscv_sim.Insn.{rm}
use riscv_sim.Isa.Float.Effects.{asked_mode}
use riscv_sim.InsnSet.Integers.{decode-InSet}
use riscv_sim.InsnSet.Float.{Floats}
use riscv_sim.InsnSet.Float.Correct.{execute_insn-Floats, IsRow-Floats}

module _ (h : Host) (s : Machine) (r : HasRegisters s) where
  execute_insn-k_invalid :
      (raw : ℕ)
      → decode raw ≡ InsnMnemonic.k_invalid
      → fetch h.asserts s.memory s.ip ≡ ok raw
      → execute_insn h s ≡ fault (thrown unknown_instruction)
  unfolding execute_insn get_ip is_invalid
  execute_insn-k_invalid raw refused fetched = rw (fetched, ◌>>=◌, refused) refl

  -- On a machine with its 32 registers and an fcsr below 256, a round that fetches a word below
  -- 2^32 does one of four things: the word decodes to kInvalid and the round throws; the word
  -- encodes an integer instruction of InsnSet and the round is its effect, its failure included; a
  -- row of the F extension matches the word and the round is the effect that InsnSet gives for the
  -- row; or a row of the F extension matches the word and the rounding mode of the word, or the one
  -- in frm if it is 7, is above 4, of which nothing more is said.
  pub execute_insn-total :
      (raw : ℕ)
      → s.fcsr < 256
      → raw < 2 ^ 32
      → fetch h.asserts s.memory s.ip ≡ ok raw
      → ((decode raw ≡ InsnMnemonic.k_invalid)
          × (execute_insn h s ≡ fault (thrown unknown_instruction)))
        ⊎ ((act : Machine → Outcome (Unit {0} × Machine)) × Instruction h raw act
            × (execute_insn h s ≡ act s))
        ⊎ ((e : InsnEntry) × (act : ℕ → Machine → Outcome (Unit {0} × Machine)) × IsRow e ext_f
            × Matches raw e
            × Floats h e.mnem act
            × (execute_insn h s ≡ act raw s))
        ⊎ ((e : InsnEntry) × IsRow e ext_f × Matches raw e × (4 < asked_mode h s.fcsr (rm raw)))
  execute_insn-total raw lt word fetched = elim (decode-InSet h raw word) [
    | inl refused ↦ inl (refused, execute_insn-k_invalid raw refused fetched)
    | inr (inr (act, i)) ↦ inr (inl (act, i, execute_insn-Instruction h s r lt fetched i))
    | inr (inl (e, row, hit)) ↦ elim (Bool-cases (ltb 4 (asked_mode h s.fcsr (rm raw)))) [
      | inl illegal ↦ inr (inr (inr (e, row, hit, ground arith)))
      | inr legal ↦
          let (act, f) = IsRow-Floats h row in
          let run = execute_insn-Floats h s r raw e lt (ground arith) row hit f fetched in
          inr (inr (inl (e, act, row, hit, f, run)))
    ]
  ]
