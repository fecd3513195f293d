-- ===== src/Execute/UnknownCsr.antt =====
-- CSR instructions on a control register that the simulator does not have.
use riscv_sim.Prelude.{
  ℕ, ◌+◌, ◌*◌, ◌^◌, ◌<◌, ◌≡◌, refl, ap, sym, ◌∙◌, arith, false, none, Bool-cases, inl, inr,
}
use riscv_sim.Outcome.{ok, assert_false}
use riscv_sim.Insn.{rd, rs1, imm_csr}
use riscv_sim.Insn.Fields.{imm_csr_lem}
use riscv_sim.Mnemonic.{InsnMnemonic}
use riscv_sim.Decode.{decode}
use riscv_sim.Decode.Table.{InsnEntry, insn_decode_table}
use riscv_sim.Decode.Unique.{IsRow}
use riscv_sim.Decode.Encoded.{decode-encoded_funct3, match-funct3}
use riscv_sim.Host.{Host}
use riscv_sim.Memory.{fetch}
use riscv_sim.Machine.State.{Machine, M, ◌>>=◌, ◌>>◌}
use riscv_sim.Machine.{step, csr_value, csr_update, get_csr, set_csr, set_xreg}
use riscv_sim.Machine.Registers.{HasRegisters, write_reg, advance, get_xreg_lem, set_xreg_lem}
use riscv_sim.Isa.Effects.{rd-lt, rs1-lt}
use riscv_sim.Isa.Zicsr.{
  callback_csrrw, callback_csrrs, callback_csrrc, callback_csrrwi, callback_csrrsi, callback_csrrci,
}
use riscv_sim.Execute.{instr_callback, execute_insn}
use riscv_sim.Execute.Decoded.{execute_insn-IsRow}
use riscv_sim.Execute.Csr.{
  ActsCsr, IsUnknown, acts_csrrw, acts_csrrs, acts_csrrc, acts_csrrwi, acts_csrrsi, acts_csrrci,
}

csr_value-IsUnknown : (i fcsr : ℕ) → IsUnknown i → csr_value i fcsr ≡ none
unfolding csr_value
csr_value-IsUnknown i fcsr (not_fflags, not_frm, not_fcsr) = ground arith

csr_update-IsUnknown : (i v fcsr : ℕ) → IsUnknown i → csr_update i v fcsr ≡ none
unfolding csr_update
csr_update-IsUnknown i v fcsr (not_fflags, not_frm, not_fcsr) = ground arith

module _ (h : Host) (s : Machine) (r : HasRegisters s) where
  get_csr-IsUnknown : (i : ℕ) → IsUnknown i → get_csr h i s ≡ assert_false h.asserts (0, s)
  unfolding get_csr
  get_csr-IsUnknown i u = elim (Bool-cases h.asserts) [
    | inl on ↦ rw (get_csr, csr_value-IsUnknown i s.fcsr u, on) refl
    | inr off ↦ rw (get_csr, csr_value-IsUnknown i s.fcsr u, off) refl
  ]

  -- With asserts the read of the register fails; without them it gives 0.
  get_csr_then :
      (i : ℕ) (k : ℕ → M (Unit {0})) (o : Unit {0} × Machine)
      → IsUnknown i
      → (h.asserts ≡ false → k 0 s ≡ ok o)
      → (get_csr h i >>= k) s ≡ assert_false h.asserts o
  get_csr_then i k o u rest = elim (Bool-cases h.asserts) [
    | inl on ↦ rw (◌>>=◌, get_csr-IsUnknown i u, on) refl
    | inr off ↦ rw (◌>>=◌, get_csr-IsUnknown i u, off) (rest off)
  ]

  write_then :
      (i v d : ℕ)
      → d < 32
      → IsUnknown i
      → h.asserts ≡ false
      → (set_csr h i v >> (set_xreg h d 0 >> step)) s ≡ ok (tt, advance (write_reg s d 0))
  unfolding set_csr step advance
  write_then i v d lt u off =
      rw (set_csr, csr_update-IsUnknown i v s.fcsr u, off, ◌>>=◌, set_xreg_lem h s r d lt, ◌>>=◌)
        refl

  instr_callback-IsUnknown :
      {m : InsnMnemonic} {operand : Machine → ℕ → ℕ} {update : ℕ → ℕ → ℕ} (raw : ℕ)
      → ActsCsr m operand update
      → IsUnknown (imm_csr raw)
      → instr_callback h m raw s ≡ assert_false h.asserts (tt, advance (write_reg s (rd raw) 0))
  unfolding instr_callback callback_csrrw callback_csrrs callback_csrrc callback_csrrwi
      callback_csrrsi callback_csrrci
  instr_callback-IsUnknown raw acts_csrrw u = get_csr_then _ _ _ u (λ off.
      rw (get_xreg_lem h s r (rs1 raw) (rs1-lt raw), ◌>>=◌) (write_then _ _ _ (rd-lt raw) u off))
  instr_callback-IsUnknown raw acts_csrrs u = get_csr_then _ _ _ u (λ off.
      rw (get_xreg_lem h s r (rs1 raw) (rs1-lt raw), ◌>>=◌) (write_then _ _ _ (rd-lt raw) u off))
  instr_callback-IsUnknown raw acts_csrrc u = get_csr_then _ _ _ u (λ off.
      rw (get_xreg_lem h s r (rs1 raw) (rs1-lt raw), ◌>>=◌) (write_then _ _ _ (rd-lt raw) u off))
  instr_callback-IsUnknown raw acts_csrrwi u =
      get_csr_then _ _ _ u (λ off. write_then _ _ _ (rd-lt raw) u off)
  instr_callback-IsUnknown raw acts_csrrsi u =
      get_csr_then _ _ _ u (λ off. write_then _ _ _ (rd-lt raw) u off)
  instr_callback-IsUnknown raw acts_csrrci u =
      get_csr_then _ _ _ u (λ off. write_then _ _ _ (rd-lt raw) u off)

  pub execute_insn-encoded_unknown :
      (e : InsnEntry) {operand : Machine → ℕ → ℕ} {update : ℕ → ℕ → ℕ} (index r1 d : ℕ)
      → IsRow e insn_decode_table
      → e.mask ≡ 0x707f
      → ActsCsr e.mnem operand update
      → IsUnknown index
      → index < 2 ^ 12
      → r1 < 32
      → d < 32
      → fetch h.asserts s.memory s.ip ≡ ok (e.match + index * 2 ^ 20 + r1 * 2 ^ 15 + d * 2 ^ 7)
      → execute_insn h s ≡ assert_false h.asserts (tt, advance (write_reg s d 0))
  execute_insn-encoded_unknown e index r1 d row mask acts u hi h1 hd fetched =
      let raw = e.match + index * 2 ^ 20 + r1 * 2 ^ 15 + d * 2 ^ 7 in
      let shape = match-funct3 e row mask in
      let top : e.match + (index * 32 + r1) * 2 ^ 15 + d * 2 ^ 7 ≡ raw = omega arith in
      let (decoded, _, _, ed) =
        decode-encoded_funct3 e (index * 32 + r1) d row mask (omega arith) hd in
      let at : imm_csr raw ≡ index = imm_csr_lem raw ∙ omega arith in
      execute_insn-IsRow h s raw e row (ap decode (sym top) ∙ decoded) fetched
      ∙ (instr_callback-IsUnknown raw acts (rw at u)
          ∙ ap (λ i. assert_false h.asserts (tt {0}, advance (write_reg s i 0)))
              (ap rd (sym top) ∙ ed))
