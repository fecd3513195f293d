-- ===== src/Execute/Exit.antt =====
-- How a run ends by the exit system call.
use riscv_sim.Prelude.{ℕ, suc, ◌+◌, ◌<◌, ◌≡◌, refl, arith, true, false, some, inl, inr}
use riscv_sim.Outcome.{ok}
use riscv_sim.Mnemonic.{InsnMnemonic}
use riscv_sim.Decode.{decode, scan}
use riscv_sim.Decode.Table.{insn_decode_table}
use riscv_sim.Host.{Host}
use riscv_sim.Memory.{fetch}
use riscv_sim.Machine.State.{Machine, ◌>>=◌}
use riscv_sim.Machine.{get_ip, step, a0, a7, element}
use riscv_sim.Machine.Registers.{HasRegisters, x_reg, advance, get_elem?-eq-get_or}
use riscv_sim.Isa.Syscall.{syscall_handler, sys_exit_id}
use riscv_sim.Isa.Syscall.Laws.{syscall_handler_lem}
use riscv_sim.Isa.Control.{callback_ecall}
use riscv_sim.Execute.{instr_callback, is_invalid, execute_insn, execute_loop, execute}
use riscv_sim.Execute.Steps.{Steps, done, more, stopped, execute_loop-Steps}

abbrev pub ecall_word : ℕ
ecall_word = 0x73

pub decode-ecall : decode ecall_word ≡ InsnMnemonic.ecall
unfolding decode scan insn_decode_table
decode-ecall = refl

module _ (h : Host) where
  Steps-append :
      {n : ℕ} {s s' s'' : Machine}
      → Steps h n s s'
      → s'.should_stop ≡ false
      → execute_insn h s' ≡ ok (tt, s'')
      → Steps h (suc n) s s''
  Steps-append done go e = more go e done
  Steps-append (more go' e' steps) go e = more go' e' (Steps-append steps go e)

  -- The state that the exit call leaves.
  abbrev pub exited : Machine → Machine
  exited s = advance (record s { should_stop = true })

  syscall_handler-exit :
      (s : Machine)
      → HasRegisters s
      → x_reg s a7 ≡ sys_exit_id
      → syscall_handler h s ≡ ok (tt, record s { should_stop = true })
  syscall_handler-exit s r e = elim (syscall_handler_lem h s r) [
    | inl (_, exit) ↦ exit
    | inr (inl (is_read, _)) ↦ absurd (omega arith)
    | inr (inr (inl (is_write, _))) ↦ absurd (omega arith)
    | inr (inr (inr (other, _, _, _))) ↦ absurd (other e)
  ]

  execute_insn-exit :
      (s : Machine)
      → HasRegisters s
      → x_reg s a7 ≡ sys_exit_id
      → fetch h.asserts s.memory s.ip ≡ ok ecall_word
      → execute_insn h s ≡ ok (tt, exited s)
  unfolding execute_insn get_ip instr_callback is_invalid callback_ecall step advance
  execute_insn-exit s r e fetched =
      rw (fetched, ◌>>=◌, decode-ecall, syscall_handler-exit s r e) refl

  pub execute-exit :
      {n : ℕ} {s s' : Machine} (fuel : ℕ)
      → Steps h n s s'
      → s'.should_stop ≡ false
      → HasRegisters s'
      → fetch h.asserts s'.memory s'.ip ≡ ok ecall_word
      → x_reg s' a7 ≡ sys_exit_id
      → n + 1 < fuel
      → execute h fuel s ≡ some (ok (x_reg s' a0, exited s'))
  unfolding execute x_reg advance
  execute-exit {n} {s} {s'} fuel steps go r fetched e lt =
      let looped : execute_loop h fuel s ≡ some (ok (exited s')) =
        execute_loop-Steps h fuel (Steps-append steps go (execute_insn-exit s' r e fetched))
          (stopped refl) (omega arith) in
      rw (execute, looped, get_elem?-eq-get_or s'.xregs a0 0 (omega (arith, r.x_length)), element)
        refl
