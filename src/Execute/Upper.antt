-- ===== src/Execute/Upper.antt =====
-- LUI, AUIPC and JAL from their encoding to their effect.
use riscv_sim.Prelude.{
  ℕ, ◌+◌, ◌*◌, ◌/◌, ◌%◌, ◌^◌, ◌<◌, ◌≡◌, refl, ap, sym, ◌∙◌, arith, inl, inr, Bool-cases, ◌==◌,
}
use riscv_sim.Outcome.{ok}
use riscv_sim.Insn.{rd, imm_u, imm_j}
use riscv_sim.Insn.RoundTrip.{encode_j, Fits, imm_j-encode_j, imm_u-encode_u}
use riscv_sim.Mnemonic.{InsnMnemonic}
use riscv_sim.Decode.Table.{InsnEntry, insn_decode_table}
use riscv_sim.Decode.Unique.{IsRow}
use riscv_sim.Decode.Encoded.{decode-encoded_opcode, match-opcode}
use riscv_sim.Host.{Host}
use riscv_sim.Memory.{fetch}
use riscv_sim.Machine.State.{Machine, ◌>>=◌}
use riscv_sim.Machine.{step, get_ip, set_ip}
use riscv_sim.Machine.Registers.{HasRegisters, write_reg, advance, set_xreg_lem}
use riscv_sim.Isa.Effects.{rd-lt}
use riscv_sim.Isa.Arith.{callback_lui, callback_auipc}
use riscv_sim.Isa.Control.{callback_jal}
use riscv_sim.Execute.{instr_callback, execute_insn}
use riscv_sim.Execute.Decoded.{execute_insn-IsRow}

-- What LUI and AUIPC make of the program counter and the immediate.
pub data Uppers : InsnMnemonic → (ℕ → ℕ → ℕ) → Type 0 where
  uppers_lui : Uppers InsnMnemonic.lui (λ ip imm. imm * 2 ^ 12)
  uppers_auipc : Uppers InsnMnemonic.auipc (λ ip imm. (ip + imm * 2 ^ 12) % 2 ^ 32)

module _ (h : Host) (s : Machine) (r : HasRegisters s) where
  instr_callback-Uppers :
      {m : InsnMnemonic} {value : ℕ → ℕ → ℕ} (raw imm : ℕ)
      → Uppers m value
      → imm_u raw ≡ imm * 2 ^ 12
      → instr_callback h m raw s ≡ ok (tt, advance (write_reg s (rd raw) (value s.ip imm)))
  unfolding instr_callback callback_lui callback_auipc get_ip step advance
  instr_callback-Uppers raw imm uppers_lui e =
      rw (set_xreg_lem h s r (rd raw) (rd-lt raw), ◌>>=◌, e) refl
  instr_callback-Uppers raw imm uppers_auipc e =
      rw (set_xreg_lem h s r (rd raw) (rd-lt raw), ◌>>=◌, e) refl

  -- On a machine with its 32 registers, for LUI's or AUIPC's row of the decode table, any 20-bit
  -- immediate and a register rd below 32: a round that fetches the row's match value with the
  -- immediate and rd put in writes the immediate times 2^12, for AUIPC plus the program counter
  -- modulo 2^32, to rd (unless that is x0), advances the program counter by 4 and changes nothing
  -- else.
  pub execute_insn-encoded_u :
      (e : InsnEntry) {value : ℕ → ℕ → ℕ} (imm d : ℕ)
      → IsRow e insn_decode_table
      → e.mask ≡ 0x7f
      → Uppers e.mnem value
      → imm < 2 ^ 20
      → d < 32
      → fetch h.asserts s.memory s.ip ≡ ok (e.match + imm * 2 ^ 12 + d * 2 ^ 7)
      → execute_insn h s ≡ ok (tt, advance (write_reg s d (value s.ip imm)))
  execute_insn-encoded_u e imm d row mask up hi hd fetched =
      let raw = e.match + imm * 2 ^ 12 + d * 2 ^ 7 in
      let shape = match-opcode e row mask in
      let same : imm * 2 ^ 12 + d * 2 ^ 7 + e.match % 128 ≡ raw = omega arith in
      let (ei, ed, _) = imm_u-encode_u imm d (e.match % 128) hi hd (omega arith) in
      execute_insn-IsRow h s raw e row (decode-encoded_opcode e imm d row mask hd) fetched
      ∙ (instr_callback-Uppers raw imm up (ap imm_u (sym same) ∙ ei) ∙ cc (ed, same))

  ip-write_reg : (i v : ℕ) → (write_reg s i v).ip ≡ s.ip
  unfolding write_reg
  ip-write_reg i v = elim (Bool-cases (i == 0)) [ inl x0 ↦ rw x0 refl | inr other ↦ rw other refl ]

  callback_jal_lem :
      (raw : ℕ)
      → instr_callback h InsnMnemonic.jal raw s
        ≡ ok (
          tt,
          record (write_reg s (rd raw) ((s.ip + 4) % 2 ^ 32)) { ip = (s.ip + imm_j raw) % 2 ^ 32 },
        )
  unfolding instr_callback callback_jal get_ip set_ip
  callback_jal_lem raw =
      rw
        (
          set_xreg_lem h s r (rd raw) (rd-lt raw),
          ◌>>=◌,
          ip-write_reg (rd raw) ((s.ip + 4) % 2 ^ 32),
        )
        refl

  -- On a machine with its 32 registers, for JAL's row of the decode table, any even offset from
  -- -2^20 to 2^20 - 2 and a register rd below 32: a round that fetches the row's match value with
  -- the parts of the offset and rd put in writes the address of the next instruction to rd (unless
  -- that is x0), adds the offset modulo 2^32 to the program counter and changes nothing else.
  pub execute_insn-encoded_j :
      (e : InsnEntry) (imm d : ℕ)
      → IsRow e insn_decode_table
      → e.mask ≡ 0x7f
      → e.mnem ≡ InsnMnemonic.jal
      → Fits 20 imm
      → imm % 2 ≡ 0
      → d < 32
      → fetch h.asserts s.memory s.ip
        ≡ ok (
            e.match
            + imm / 2 ^ 20 % 2 * 2 ^ 31
            + imm / 2 % 1024 * 2 ^ 21
            + imm / 2 ^ 11 % 2 * 2 ^ 20
            + imm / 2 ^ 12 % 256 * 2 ^ 12
            + d * 2 ^ 7)
      → execute_insn h s
        ≡ ok (tt, record (write_reg s d ((s.ip + 4) % 2 ^ 32)) { ip = (s.ip + imm) % 2 ^ 32 })
  execute_insn-encoded_j e imm d row mask jal fits even hd fetched =
      let top =
        imm / 2 ^ 20 % 2 * 2 ^ 19
        + imm / 2 % 1024 * 2 ^ 9
        + imm / 2 ^ 11 % 2 * 2 ^ 8
        + imm / 2 ^ 12 % 256 in
      let raw = e.match + top * 2 ^ 12 + d * 2 ^ 7 in
      let shape = match-opcode e row mask in
      let same : encode_j imm d (e.match % 128) ≡ raw = omega arith in
      let (ei, ed, _) = imm_j-encode_j imm d (e.match % 128) fits even hd (omega arith) in
      execute_insn-IsRow h s raw e row (decode-encoded_opcode e top d row mask hd)
        (fetched ∙ ap ok (omega arith))
      ∙ (ap (λ m. instr_callback h m raw s) jal ∙ (callback_jal_lem raw ∙ cc (ei, ed, same)))
