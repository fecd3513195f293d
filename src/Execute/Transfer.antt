-- ===== src/Execute/Transfer.antt =====
-- Stores and branches from their encoding to their effect.
use riscv_sim.Prelude.{
  ℕ, ◌+◌, ◌*◌, ◌/◌, ◌%◌, ◌^◌, ◌<◌, ◌≡◌, ap, sym, ◌∙◌, arith, Bool, not, if◌then◌else◌, ltb, leb,
  ◌==◌, ltb_ℤ,
}
use riscv_sim.Outcome.{Outcome, ok}
use riscv_sim.Word.{reg_to_ireg}
use riscv_sim.Insn.{rs1, rs2, imm_s, imm_b}
use riscv_sim.Insn.RoundTrip.{encode_s, encode_b, Fits, imm_s-encode_s, imm_b-encode_b}
use riscv_sim.Mnemonic.{InsnMnemonic}
use riscv_sim.Decode.{decode}
use riscv_sim.Decode.Table.{InsnEntry, insn_decode_table}
use riscv_sim.Decode.Unique.{IsRow}
use riscv_sim.Decode.Encoded.{decode-encoded_funct3, match-funct3}
use riscv_sim.Host.{Host}
use riscv_sim.Memory.{Memory, fetch, store_u32, store_u16, store_u8}
use riscv_sim.Machine.State.{Machine}
use riscv_sim.Machine.Registers.{HasRegisters, x_reg, advance}
use riscv_sim.Isa.Effects.{execute_branch_lem}
use riscv_sim.Isa.Control.{
  callback_beq, callback_bne, callback_blt, callback_bge, callback_bltu, callback_bgeu,
}
use riscv_sim.Isa.LoadStore.Effects.{after_store, stores_lem}
use riscv_sim.Execute.{instr_callback, execute_insn}
use riscv_sim.Execute.Decoded.{execute_insn-IsRow}

-- What a store puts at an address, and when a branch is taken.
pub data Stores : InsnMnemonic → (Bool → Memory → ℕ → ℕ → Outcome Memory) → Type 0 where
  stores_sb : Stores InsnMnemonic.sb (λ asserts mem addr v. store_u8 asserts mem addr (v % 2 ^ 8))
  stores_sh : Stores InsnMnemonic.sh (λ asserts mem addr v. store_u16 asserts mem addr (v % 2 ^ 16))
  stores_sw : Stores InsnMnemonic.sw (λ asserts mem addr v. store_u32 asserts mem addr v)

pub data Branches : InsnMnemonic → (ℕ → ℕ → Bool) → Type 0 where
  branches_beq : Branches InsnMnemonic.beq (λ a b. a == b)
  branches_bne : Branches InsnMnemonic.bne (λ a b. not (a == b))
  branches_blt : Branches InsnMnemonic.blt (λ a b. ltb_ℤ (reg_to_ireg a) (reg_to_ireg b))
  branches_bge : Branches InsnMnemonic.bge (λ a b. not (ltb_ℤ (reg_to_ireg a) (reg_to_ireg b)))
  branches_bltu : Branches InsnMnemonic.bltu (λ a b. ltb a b)
  branches_bgeu : Branches InsnMnemonic.bgeu (λ a b. leb b a)

module _ (h : Host) (s : Machine) (r : HasRegisters s) where
  instr_callback-Stores :
      {m : InsnMnemonic} {put : Bool → Memory → ℕ → ℕ → Outcome Memory} (raw : ℕ)
      → Stores m put
      → instr_callback h m raw s
        ≡ after_store s
            (put h.asserts s.memory ((x_reg s (rs1 raw) + imm_s raw) % 2 ^ 32) (x_reg s (rs2 raw)))
  unfolding instr_callback
  instr_callback-Stores raw stores_sb = (stores_lem h s r raw).0
  instr_callback-Stores raw stores_sh = (stores_lem h s r raw).1
  instr_callback-Stores raw stores_sw = (stores_lem h s r raw).2

  -- On a machine with its 32 registers, for every row of the decode table of SB, SH or SW, any
  -- immediate from -2^11 to 2^11 - 1 and registers below 32: a round that fetches the row's match
  -- value with the two parts of the immediate, rs2 and rs1 put in stores the low 8, 16 or 32 bits
  -- of rs2 at rs1 plus the immediate modulo 2^32, advances the program counter by 4 and changes
  -- nothing else, or fails as the store does.
  pub execute_insn-encoded_s :
      (e : InsnEntry) {put : Bool → Memory → ℕ → ℕ → Outcome Memory} (imm r2 r1 : ℕ)
      → IsRow e insn_decode_table
      → e.mask ≡ 0x707f
      → Stores e.mnem put
      → Fits 11 imm
      → r2 < 32
      → r1 < 32
      → fetch h.asserts s.memory s.ip
        ≡ ok (e.match + imm / 32 % 128 * 2 ^ 25 + r2 * 2 ^ 20 + r1 * 2 ^ 15 + imm % 32 * 2 ^ 7)
      → execute_insn h s
        ≡ after_store s (put h.asserts s.memory ((x_reg s r1 + imm) % 2 ^ 32) (x_reg s r2))
  execute_insn-encoded_s e imm r2 r1 row mask st fits h2 h1 fetched =
      let raw = e.match + imm / 32 % 128 * 2 ^ 25 + r2 * 2 ^ 20 + r1 * 2 ^ 15 + imm % 32 * 2 ^ 7 in
      let high = imm / 32 % 128 * 2 ^ 10 + r2 * 32 + r1 in
      let shape = match-funct3 e row mask in
      let same : encode_s imm r2 r1 (e.match / 2 ^ 12 % 8) (e.match % 128) ≡ raw = omega arith in
      let split : e.match + high * 2 ^ 15 + imm % 32 * 2 ^ 7 ≡ raw = omega arith in
      let (decoded, _, _, _) =
        decode-encoded_funct3 e high (imm % 32) row mask (omega arith) (omega arith) in
      let (ei, e1, e2) =
        imm_s-encode_s imm r2 r1 (e.match / 2 ^ 12 % 8) (e.match % 128) fits h2 h1 (omega arith)
          (omega arith) in
      execute_insn-IsRow h s raw e row (ap decode (sym split) ∙ decoded) fetched
      ∙ (instr_callback-Stores raw st ∙ cc (ei, e1, e2, same))

  instr_callback-Branches :
      {m : InsnMnemonic} {pred : ℕ → ℕ → Bool} (raw : ℕ)
      → Branches m pred
      → instr_callback h m raw s
        ≡ ok (
          tt,
          if pred (x_reg s (rs1 raw)) (x_reg s (rs2 raw))
              then record s { ip = (s.ip + imm_b raw) % 2 ^ 32 }
              else advance s,
        )
  unfolding instr_callback callback_beq callback_bne callback_blt callback_bge callback_bltu
      callback_bgeu
  instr_callback-Branches raw branches_beq = execute_branch_lem h s raw r _
  instr_callback-Branches raw branches_bne = execute_branch_lem h s raw r _
  instr_callback-Branches raw branches_blt = execute_branch_lem h s raw r _
  instr_callback-Branches raw branches_bge = execute_branch_lem h s raw r _
  instr_callback-Branches raw branches_bltu = execute_branch_lem h s raw r _
  instr_callback-Branches raw branches_bgeu = execute_branch_lem h s raw r _

  -- On a machine with its 32 registers, for every row of the decode table of a branch, any even
  -- offset from -2^12 to 2^12 - 2 and registers below 32: a round that fetches the row's match
  -- value with the parts of the offset, rs2 and rs1 put in adds the offset modulo 2^32 to the
  -- program counter where the comparison that the mnemonic names holds of rs1 and rs2, adds 4 where
  -- it does not, and changes nothing else.
  pub execute_insn-encoded_b :
      (e : InsnEntry) {pred : ℕ → ℕ → Bool} (imm r2 r1 : ℕ)
      → IsRow e insn_decode_table
      → e.mask ≡ 0x707f
      → Branches e.mnem pred
      → Fits 12 imm
      → imm % 2 ≡ 0
      → r2 < 32
      → r1 < 32
      → fetch h.asserts s.memory s.ip
        ≡ ok (
            e.match
            + imm / 2 ^ 12 % 2 * 2 ^ 31
            + imm / 32 % 64 * 2 ^ 25
            + r2 * 2 ^ 20
            + r1 * 2 ^ 15
            + imm / 2 % 16 * 2 ^ 8
            + imm / 2 ^ 11 % 2 * 2 ^ 7)
      → execute_insn h s
        ≡ ok (
          tt,
          if pred (x_reg s r1) (x_reg s r2)
              then record s { ip = (s.ip + imm) % 2 ^ 32 }
              else advance s,
        )
  execute_insn-encoded_b e imm r2 r1 row mask br fits even h2 h1 fetched =
      let high = (imm / 2 ^ 12 % 2 * 64 + imm / 32 % 64) * 2 ^ 10 + r2 * 32 + r1 in
      let low = imm / 2 % 16 * 2 + imm / 2 ^ 11 % 2 in
      let raw = e.match + high * 2 ^ 15 + low * 2 ^ 7 in
      let shape = match-funct3 e row mask in
      let same : encode_b imm r2 r1 (e.match / 2 ^ 12 % 8) (e.match % 128) ≡ raw = omega arith in
      let (decoded, _, _, _) =
        decode-encoded_funct3 e high low row mask (omega arith) (omega arith) in
      let (ei, e1, e2, _) =
        imm_b-encode_b imm r2 r1 (e.match / 2 ^ 12 % 8) (e.match % 128) fits even h2 h1
          (omega arith) (omega arith) in
      execute_insn-IsRow h s raw e row decoded (fetched ∙ ap ok (omega arith))
      ∙ (instr_callback-Branches raw br ∙ cc (ei, e1, e2, same))
