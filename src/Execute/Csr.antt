-- ===== src/Execute/Csr.antt =====
-- The CSR instructions from their encoding to their effect.
use riscv_sim.Prelude.{
  ℕ, ◌+◌, ◌-◌, ◌*◌, ◌/◌, ◌%◌, ◌^◌, ◌<◌, ◌≡◌, ◌≢◌, refl, ap, sym, ◌∙◌, arith, some, bit_and, bit_or,
}
use riscv_sim.Outcome.{ok}
use riscv_sim.Insn.{rd, rs1, imm_csr}
use riscv_sim.Insn.Fields.{imm_csr_lem}
use riscv_sim.Mnemonic.{InsnMnemonic}
use riscv_sim.Decode.{decode}
use riscv_sim.Decode.Table.{InsnEntry, insn_decode_table}
use riscv_sim.Decode.Unique.{IsRow}
use riscv_sim.Decode.Encoded.{decode-encoded_funct3, match-funct3}
use riscv_sim.Host.{Host}
use riscv_sim.Memory.{fetch}
use riscv_sim.Machine.State.{Machine, ◌>>=◌, ◌>>◌}
use riscv_sim.Machine.{
  step, csr_fflags, csr_frm, csr_fcsr, csr_value, csr_update, get_csr, set_csr, set_xreg,
}
use riscv_sim.Machine.Csr.{IsCsr, fflags_field, frm_field, whole_fcsr, csr_update-csr_value}
use riscv_sim.Machine.Registers.{
  HasRegisters, x_reg, write_reg, advance, get_xreg_lem, set_xreg_lem,
}
use riscv_sim.Isa.Effects.{rd-lt, rs1-lt}
use riscv_sim.Isa.Zicsr.{
  callback_csrrw, callback_csrrs, callback_csrrc, callback_csrrwi, callback_csrrsi, callback_csrrci,
}
use riscv_sim.Execute.{instr_callback, execute_insn}
use riscv_sim.Execute.Decoded.{execute_insn-IsRow}

-- The operand of a CSR instruction, from the machine and the rs1 field, and what it writes, from
-- the old value and the operand.
pub data ActsCsr : InsnMnemonic → (Machine → ℕ → ℕ) → (ℕ → ℕ → ℕ) → Type 0 where
  acts_csrrw : ActsCsr InsnMnemonic.csrrw x_reg (λ old a. a)
  acts_csrrs : ActsCsr InsnMnemonic.csrrs x_reg (λ old a. bit_or old a)
  acts_csrrc : ActsCsr InsnMnemonic.csrrc x_reg (λ old a. bit_and old (2 ^ 32 - 1 - a))
  acts_csrrwi : ActsCsr InsnMnemonic.csrrwi (λ s i. i) (λ old a. a)
  acts_csrrsi : ActsCsr InsnMnemonic.csrrsi (λ s i. i) (λ old a. bit_or old a)
  acts_csrrci : ActsCsr InsnMnemonic.csrrci (λ s i. i) (λ old a. bit_and old (2 ^ 32 - 1 - a))

-- The numbers of no control register of the simulator.
abbrev pub IsUnknown : ℕ → Type 0
IsUnknown index = (index ≢ csr_fflags) × (index ≢ csr_frm) × (index ≢ csr_fcsr)

csr_index-lt : {index low width : ℕ} → IsCsr index low width → index < 4
csr_index-lt fflags_field = omega arith
csr_index-lt frm_field = omega arith
csr_index-lt whole_fcsr = omega arith

some_injective : {a b : ℕ} → some a ≡ some b → a ≡ b
some_injective e = cc

module _ (h : Host) (s : Machine) (r : HasRegisters s) where
  get_csr_lem : (i : ℕ) {v : ℕ} → csr_value i s.fcsr ≡ some v → get_csr h i s ≡ ok (v, s)
  unfolding get_csr
  get_csr_lem i e = rw (get_csr, e) refl

  set_csr_lem :
      (i v : ℕ) {w : ℕ}
      → csr_update i v s.fcsr ≡ some w
      → set_csr h i v s ≡ ok (tt, record s { fcsr = w })
  unfolding set_csr
  set_csr_lem i v e = rw (set_csr, e) refl

  -- The end of a CSR instruction.
  csr_end :
      (i d v old : ℕ) {w : ℕ}
      → d < 32
      → csr_update i v s.fcsr ≡ some w
      → (set_csr h i v >> (set_xreg h d old >> step)) s
        ≡ ok (tt, advance (write_reg (record s { fcsr = w }) d old))
  unfolding step advance
  csr_end i d v old {w} lt e =
      let r₁ : HasRegisters (record s { fcsr = w }) = record {
        x_length = r.x_length;
        f_length = r.f_length;
      } in
      rw (set_csr_lem i v e, ◌>>=◌, set_xreg_lem h (record s { fcsr = w }) r₁ d lt old, ◌>>=◌) refl

  instr_callback-ActsCsr :
      {m : InsnMnemonic} {operand : Machine → ℕ → ℕ} {update : ℕ → ℕ → ℕ} (raw : ℕ) {old w : ℕ}
      → ActsCsr m operand update
      → csr_value (imm_csr raw) s.fcsr ≡ some old
      → csr_update (imm_csr raw) (update old (operand s (rs1 raw))) s.fcsr ≡ some w
      → instr_callback h m raw s ≡ ok (tt, advance (write_reg (record s { fcsr = w }) (rd raw) old))
  unfolding instr_callback callback_csrrw callback_csrrs callback_csrrc callback_csrrwi
      callback_csrrsi callback_csrrci
  instr_callback-ActsCsr raw acts_csrrw p q =
      rw (get_csr_lem _ p, ◌>>=◌, get_xreg_lem h s r (rs1 raw) (rs1-lt raw), ◌>>=◌)
        (csr_end _ _ _ _ (rd-lt raw) q)
  instr_callback-ActsCsr raw acts_csrrs p q =
      rw (get_csr_lem _ p, ◌>>=◌, get_xreg_lem h s r (rs1 raw) (rs1-lt raw), ◌>>=◌)
        (csr_end _ _ _ _ (rd-lt raw) q)
  instr_callback-ActsCsr raw acts_csrrc p q =
      rw (get_csr_lem _ p, ◌>>=◌, get_xreg_lem h s r (rs1 raw) (rs1-lt raw), ◌>>=◌)
        (csr_end _ _ _ _ (rd-lt raw) q)
  instr_callback-ActsCsr raw acts_csrrwi p q =
      rw (get_csr_lem _ p, ◌>>=◌) (csr_end _ _ _ _ (rd-lt raw) q)
  instr_callback-ActsCsr raw acts_csrrsi p q =
      rw (get_csr_lem _ p, ◌>>=◌) (csr_end _ _ _ _ (rd-lt raw) q)
  instr_callback-ActsCsr raw acts_csrrci p q =
      rw (get_csr_lem _ p, ◌>>=◌) (csr_end _ _ _ _ (rd-lt raw) q)

  -- On a machine with its 32 registers and an fcsr below 256, for every row of the decode table of
  -- a Zicsr instruction, each of the control registers fflags, frm and fcsr, and numbers rs1 and rd
  -- below 32: a round that fetches the row's match value with the control register, rs1 and rd put
  -- in writes the control register's bits of the state's fcsr to rd (unless that is x0), advances
  -- the program counter by 4, and replaces those bits, and no others, by the low bits of the
  -- operand (CSRRW), of its union with the old ones (CSRRS) or of the old ones without it (CSRRC),
  -- where the operand is the register rs1 or, for the immediate forms, the number.
  pub execute_insn-encoded_csr :
      (e : InsnEntry) {operand : Machine → ℕ → ℕ} {update : ℕ → ℕ → ℕ} {index low width : ℕ}
      (r1 d : ℕ)
      → IsRow e insn_decode_table
      → e.mask ≡ 0x707f
      → ActsCsr e.mnem operand update
      → IsCsr index low width
      → s.fcsr < 256
      → r1 < 32
      → d < 32
      → fetch h.asserts s.memory s.ip ≡ ok (e.match + index * 2 ^ 20 + r1 * 2 ^ 15 + d * 2 ^ 7)
      → let old = s.fcsr / 2 ^ low % 2 ^ width in
        (fcsr' : ℕ) × (execute_insn h s
          ≡ ok (tt, advance (write_reg (record s { fcsr = fcsr' }) d old)))
        × (fcsr' < 256)
        × (fcsr' / 2 ^ low % 2 ^ width ≡ update old (operand s r1) % 2 ^ width)
        × (fcsr' % 2 ^ low ≡ s.fcsr % 2 ^ low)
        × (fcsr' / 2 ^ (low + width) ≡ s.fcsr / 2 ^ (low + width))
  execute_insn-encoded_csr e {operand} {update} {index} {low} {width} r1 d row mask acts is lt h1 hd
        fetched =
      let raw = e.match + index * 2 ^ 20 + r1 * 2 ^ 15 + d * 2 ^ 7 in
      let old = s.fcsr / 2 ^ low % 2 ^ width in
      let small = csr_index-lt is in
      let shape = match-funct3 e row mask in
      let top : e.match + (index * 32 + r1) * 2 ^ 15 + d * 2 ^ 7 ≡ raw = omega arith in
      let (decoded, e1, _, ed) =
        decode-encoded_funct3 e (index * 32 + r1) d row mask (omega arith) hd in
      let value = update old (operand s r1) in
      let (fcsr', written, byte, read, field, below, above) =
        csr_update-csr_value value s.fcsr is lt in
      let (_, _, _, again, _, _, _) = csr_update-csr_value value fcsr' is byte in
      let at : imm_csr raw ≡ index = imm_csr_lem raw ∙ omega arith in
      let e1' : rs1 raw ≡ r1 = ap rs1 (sym top) ∙ (e1 ∙ omega arith) in
      let ed' : rd raw ≡ d = ap rd (sym top) ∙ ed in
      (
        fcsr',
        execute_insn-IsRow h s raw e row (ap decode (sym top) ∙ decoded) fetched
            ∙ (instr_callback-ActsCsr raw acts (ap (λ i. csr_value i s.fcsr) at ∙ read)
                  (cc (at, e1', written))
                ∙ ap (λ i. ok (tt, advance (write_reg (record s { fcsr = fcsr' }) i old))) ed'),
        byte,
        some_injective (sym again ∙ field),
        below,
        above,
      )
