-- ===== src/InsnSet/Correct.antt =====
-- The loop of the simulator against the instructions of InsnSet.
use riscv_sim.Prelude.{
  ℕ, ◌+◌, ◌/◌, ◌%◌, ◌^◌, ◌<◌, ◌≡◌, ◌≢◌, refl, ap, ◌∙◌, arith, true, false, some, inl, inr,
  Bool-cases, ◌==◌, ==_iff,
}
use riscv_sim.Outcome.{Outcome, ok, Outcome-cases}
use riscv_sim.Mnemonic.{InsnMnemonic}
use riscv_sim.Decode.{decode, scan}
use riscv_sim.Decode.Table.{entry, insn_decode_table}
use riscv_sim.Decode.Encoded.{decode-encoded_funct3}
use riscv_sim.Host.{Host}
use riscv_sim.Memory.{fetch}
use riscv_sim.Machine.{get_ip, step, a0, element}
use riscv_sim.Machine.Csr.{IsCsr, fflags_field, frm_field, whole_fcsr}
use riscv_sim.Machine.State.{Machine, ◌>>=◌}
use riscv_sim.Machine.Evolution.{Evolves}
use riscv_sim.Machine.Registers.{HasRegisters, x_reg, write_reg, advance, get_elem?-eq-get_or}
use riscv_sim.Isa.Control.{callback_ecall, callback_ebreak, callback_fence, callback_fence_i}
use riscv_sim.Isa.Syscall.{syscall_handler}
use riscv_sim.Isa.Syscall.Laws.{syscall_handler_lem}
use riscv_sim.Execute.{instr_callback, is_invalid, execute_insn, execute}
use riscv_sim.Execute.Decoded.{execute_insn-IsRow}
use riscv_sim.Execute.Register.{execute_insn-encoded_r}
use riscv_sim.Execute.Immediate.{execute_insn-encoded_i}
use riscv_sim.Execute.Transfer.{execute_insn-encoded_s, execute_insn-encoded_b}
use riscv_sim.Execute.Upper.{execute_insn-encoded_u, execute_insn-encoded_j}
use riscv_sim.Execute.Csr.{execute_insn-encoded_csr}
use riscv_sim.Execute.UnknownCsr.{execute_insn-encoded_unknown}
use riscv_sim.Execute.Unary.{execute_insn-encoded_unary, execute_insn-encoded_shift}
use riscv_sim.Execute.Exit.{ecall_word, decode-ecall}
use riscv_sim.Execute.Steps.{Steps, done, more, stopped, execute_loop-Steps}
use riscv_sim.Execute.Safety.{Steps-Evolves}
use riscv_sim.InsnSet.Opcodes.{fixed_bits}
use riscv_sim.InsnSet.Tabled.{
  Computes-IsRow, ActsI-IsRow, Stores-IsRow, Branches-IsRow, Uppers-IsRow, Maps-IsRow, Shifts-IsRow,
  ActsCsr-IsRow, Passes-IsRow, jal-IsRow, Floats-IsRow,
}
use riscv_sim.InsnSet.Float.Correct.{execute_insn-Floats}
use riscv_sim.InsnSet.{
  with_field, returned, system_call, Passes, passes_fence, passes_fence_i, ebreak_word, Instruction,
  register, immediate, storing, branch, upper, jump, unary, shift, control, unknown_control, fence,
  ecall, ebreak, Run, ended, next, next_float,
}

-- A byte with given bits in a field and the bits of another outside.
with_field_unique :
    {index low width : ℕ} (v n n' : ℕ)
    → IsCsr index low width
    → n' / 2 ^ low % 2 ^ width ≡ v % 2 ^ width
    → n' % 2 ^ low ≡ n % 2 ^ low
    → n' / 2 ^ (low + width) ≡ n / 2 ^ (low + width)
    → n' ≡ with_field low width v n
with_field_unique v n n' fflags_field field below above = omega arith
with_field_unique v n n' frm_field field below above = omega arith
with_field_unique v n n' whole_fcsr field below above = omega arith

≢→==_false : (m n : ℕ) → m ≢ n → (m == n) ≡ false
≢→==_false m n other = elim (Bool-cases (m == n)) [
  | inl same ↦ absurd (other ((==_iff m n).0 same))
  | inr e ↦ e
]

decode-ebreak : decode ebreak_word ≡ InsnMnemonic.ebreak
unfolding decode scan insn_decode_table
decode-ebreak = refl

module _ (h : Host) (s : Machine) (r : HasRegisters s) where
  syscall_handler-system_call : syscall_handler h s ≡ system_call h s
  syscall_handler-system_call = elim (syscall_handler_lem h s r) [
    | inl (exit, e) ↦ rw (e, exit) refl
    | inr (inl (is_read, e)) ↦ rw (e, is_read) refl
    | inr (inr (inl (is_write, e))) ↦ rw (e, is_write) refl
    | inr (inr (inr (not_exit, not_read, not_write, e))) ↦
        rw (e, ≢→==_false _ _ not_exit, ≢→==_false _ _ not_read, ≢→==_false _ _ not_write) refl
  ]

  execute_insn-ecall :
      fetch h.asserts s.memory s.ip ≡ ok ecall_word → execute_insn h s ≡ returned (system_call h s)
  unfolding execute_insn get_ip instr_callback is_invalid callback_ecall step advance
  execute_insn-ecall fetched =
      rw (fetched, ◌>>=◌, decode-ecall, syscall_handler-system_call)
        (elim (Outcome-cases (system_call h s)) [
          | inl (_, good) ↦ rw good refl
          | inr (_, bad) ↦ rw bad refl
        ])

  execute_insn-ebreak :
      fetch h.asserts s.memory s.ip ≡ ok ebreak_word → execute_insn h s ≡ ok (tt, advance s)
  unfolding execute_insn get_ip instr_callback is_invalid callback_ebreak step advance
  execute_insn-ebreak fetched = rw (fetched, ◌>>=◌, decode-ebreak) refl

  instr_callback-Passes :
      {m : InsnMnemonic} (raw : ℕ) → Passes m → instr_callback h m raw s ≡ ok (tt, advance s)
  unfolding instr_callback callback_fence callback_fence_i step advance
  instr_callback-Passes raw passes_fence = refl
  instr_callback-Passes raw passes_fence_i = refl

  -- A round that fetches the word of an integer instruction is the instruction's effect.
  pub execute_insn-Instruction :
      {raw : ℕ} {act : Machine → Outcome (Unit {0} × Machine)}
      → s.fcsr < 256
      → fetch h.asserts s.memory s.ip ≡ ok raw
      → Instruction h raw act
      → execute_insn h s ≡ act s
  execute_insn-Instruction lt fetched (register c h2 h1 hd) =
      execute_insn-encoded_r h s r _ _ _ _ (Computes-IsRow c) refl c h2 h1 hd fetched
  execute_insn-Instruction lt fetched (immediate c fits h1 hd) =
      execute_insn-encoded_i h s r _ _ _ _ (ActsI-IsRow c) refl c fits h1 hd fetched
  execute_insn-Instruction lt fetched (storing c fits h2 h1) =
      execute_insn-encoded_s h s r _ _ _ _ (Stores-IsRow c) refl c fits h2 h1 fetched
  execute_insn-Instruction lt fetched (branch c fits even h2 h1) =
      execute_insn-encoded_b h s r _ _ _ _ (Branches-IsRow c) refl c fits even h2 h1 fetched
  execute_insn-Instruction lt fetched (upper c hi hd) =
      execute_insn-encoded_u h s r _ _ _ (Uppers-IsRow c) refl c hi hd fetched
  execute_insn-Instruction lt fetched (jump fits even hd) =
      execute_insn-encoded_j h s r _ _ _ jal-IsRow refl refl fits even hd fetched
  execute_insn-Instruction lt fetched (unary c h1 hd) =
      execute_insn-encoded_unary h s r _ _ _ (Maps-IsRow c) refl c h1 hd fetched
  execute_insn-Instruction lt fetched (shift c ha h1 hd) =
      execute_insn-encoded_shift h s r _ _ _ _ (Shifts-IsRow c) refl c ha h1 hd fetched
  execute_insn-Instruction lt fetched (control {low = low} {width = width} {d = d} c is h1 hd) =
      let old = s.fcsr / 2 ^ low % 2 ^ width in
      let (fcsr', written, _, field, below, above) =
        execute_insn-encoded_csr h s r _ _ _ (ActsCsr-IsRow c) refl c is lt h1 hd fetched in
      written
      ∙ ap (λ f. ok (tt, advance (write_reg (record s { fcsr = f }) d old)))
          (with_field_unique _ s.fcsr fcsr' is field below above)
  execute_insn-Instruction lt fetched (unknown_control c u hi h1 hd) =
      execute_insn-encoded_unknown h s r _ _ _ _ (ActsCsr-IsRow c) refl c u hi h1 hd fetched
  execute_insn-Instruction lt fetched (fence {m} {top} {d} p ht hd) =
      let row = Passes-IsRow p in
      let e = entry m 0x707f (fixed_bits m) in
      let (decoded, _, _, _) = decode-encoded_funct3 e top d row refl ht hd in
      execute_insn-IsRow h s _ e row decoded fetched ∙ instr_callback-Passes _ p
  execute_insn-Instruction lt fetched ecall = execute_insn-ecall fetched
  execute_insn-Instruction lt fetched ebreak = execute_insn-ebreak fetched

  HasRegisters-Evolves : {s' : Machine} → Evolves s s' → HasRegisters s'
  HasRegisters-Evolves kept = record {
    x_length = kept.xregs_kept ∙ r.x_length;
    f_length = kept.fregs_kept ∙ r.f_length;
  }

module _ (h : Host) where
  -- A run of InsnSet is one of the simulator.
  pub Run-Steps :
      {n : ℕ} {s s' : Machine} → HasRegisters s → s.fcsr < 256 → Run h n s s' → Steps h n s s'
  Run-Steps r lt ended = done
  Run-Steps {s = s} r lt (next go fetched i acts run) =
      let stepped = execute_insn-Instruction h s r lt fetched i ∙ acts in
      let kept = Steps-Evolves h (more go stepped done) in
      more go stepped (Run-Steps (HasRegisters-Evolves h s r kept) (kept.fcsr_kept lt) run)
  Run-Steps {s = s} r lt (next_float {raw = raw} go fetched hit f legal acts run) =
      let stepped =
        execute_insn-Floats h s r raw _ lt legal (Floats-IsRow f) hit f fetched ∙ acts in
      let kept = Steps-Evolves h (more go stepped done) in
      more go stepped (Run-Steps (HasRegisters-Evolves h s r kept) (kept.fcsr_kept lt) run)

  -- If n instructions of InsnSet, each the one of the word at the program counter, lead a machine
  -- with its 32 registers and an fcsr below 256 to a machine whose stop flag is set, then Execute
  -- started on the first machine with more than n rounds of fuel ends in the second, and answers
  -- what a0 holds there. InsnSet has the instructions of I, M, Zbb, Zicsr and F, with the system
  -- calls of ECALL; it gives the fixed bits of their words from the listings of the RISC-V manual
  -- and not from the decode table, and their effects apart from the dispatch and the callbacks.
  -- Where the code departs from the manual the effects are those of the code, in particular: MULH
  -- takes its operands without a sign and MULHSU takes both with a sign; SLL and SRL by 32 and
  -- more, rotations by 0 and MULH from a product of 2^63 on are undefined; ZEXT.H is run with any
  -- rs2 field; FMIN and FMAX of a NaN, the rounding of FNMADD and the rounding mode of FCVT.S.W and
  -- FCVT.S.WU are those of the code. The sign operations and the negations of F are named by the
  -- functions of the code, and the instructions of F are those with a rounding mode below 5.
  pub execute-Run :
      {n : ℕ} {s s' : Machine} (fuel : ℕ)
      → HasRegisters s
      → s.fcsr < 256
      → Run h n s s'
      → s'.should_stop ≡ true
      → n < fuel
      → execute h fuel s ≡ some (ok (x_reg s' a0, s'))
  unfolding execute x_reg
  execute-Run {s = s} {s' = s'} fuel r lt run stop enough =
      let steps = Run-Steps r lt run in
      let r' = HasRegisters-Evolves h s r (Steps-Evolves h steps) in
      let looped = execute_loop-Steps h fuel steps (stopped stop) enough in
      rw (execute, looped, get_elem?-eq-get_or s'.xregs a0 0 (omega (arith, r'.x_length)), element)
        refl
