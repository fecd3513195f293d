-- ===== src/Isa/Syscall/Laws.antt =====
-- What the system calls do to a machine that has its 32 registers.
use riscv_sim.Prelude.{
  ℕ, ◌≡◌, ◌≢◌, refl, arith, true, ◌==◌, ==_iff, Bool-cases, List, ◌∷◌, Option, Option-cases, none,
  some, inl, inr, ◌⊎◌, length,
}
use riscv_sim.Outcome.{Outcome, ok, fault, assert_false, Outcome-cases}
use riscv_sim.Word.{reg_to_ireg, ireg_to_reg}
use riscv_sim.Host.{Host, SysCall, sys_read, sys_write}
use riscv_sim.Memory.{Memory, copy_guest_to_host, copy_host_to_guest}
use riscv_sim.Machine.{set_should_stop, a0, a1, a2, a7}
use riscv_sim.Machine.State.{Machine, ◌>>=◌}
use riscv_sim.Machine.Registers.{HasRegisters, x_reg, write_reg, get_xreg_lem, set_xreg_lem}
use riscv_sim.Isa.Syscall.{
  transferred, host_read, host_write, syscall_read, syscall_write, syscall_handler, sys_read_id,
  sys_write_id, sys_exit_id,
}

-- A machine after one more call, and after a call whose answer is in a0.
abbrev pub called : Machine → SysCall → Machine
called s c = record s { syscalls = c ∷ s.syscalls }

abbrev pub answered : Machine → SysCall → Option ℕ → Machine
answered s c n = write_reg (called s c) a0 (ireg_to_reg (transferred n))

called-HasRegisters : (s : Machine) (c : SysCall) → HasRegisters s → HasRegisters (called s c)
called-HasRegisters s c r = record { x_length = r.x_length; f_length = r.f_length }

with_memory-HasRegisters :
    (s : Machine) (mem : Memory) → HasRegisters s → HasRegisters (record s { memory = mem })
with_memory-HasRegisters s mem r = record { x_length = r.x_length; f_length = r.f_length }

module _ (h : Host) (s : Machine) where
  -- What the write call makes of the bytes that it took from the guest.
  abbrev pub after_write : Outcome (List ℕ) → Outcome (Unit {0} × Machine)
  after_write (fault e) = fault e
  after_write (ok buf) =
      let fd = reg_to_ireg (x_reg s a0) in
      let wc = h.write s.syscalls fd buf in ok (tt, answered s (sys_write fd buf wc) wc)

  -- What the read call makes of the answer of the host: the bytes go to the guest's buffer.
  abbrev pub after_copy : List ℕ → Outcome Memory → Outcome (Unit {0} × Machine)
  after_copy buf (fault e) = fault e
  after_copy buf (ok mem) =
      let c = sys_read (reg_to_ireg (x_reg s a0)) (x_reg s a2) (some buf) in
      ok (tt, answered (record s { memory = mem }) c (some (length buf)))

  abbrev pub after_read : Option (List ℕ) → Outcome (Unit {0} × Machine)
  after_read none = ok (tt, answered s (sys_read (reg_to_ireg (x_reg s a0)) (x_reg s a2) none) none)
  after_read (some buf) = after_copy buf (copy_host_to_guest h.asserts s.memory (x_reg s a1) buf)

  module _ (r : HasRegisters s) where
    -- The write call: the bytes of the guest's buffer, in order, go to the descriptor in a0, and a0
    -- receives the answer; a buffer that cannot be read is the fault of that read.
    pub syscall_write_lem :
        syscall_write h s
        ≡ after_write (copy_guest_to_host h.asserts s.memory (x_reg s a1) (x_reg s a2))
    unfolding syscall_write host_write
    syscall_write_lem =
        rw
          (
            get_xreg_lem h s r a0 (omega arith),
            ◌>>=◌,
            get_xreg_lem h s r a1 (omega arith),
            ◌>>=◌,
            get_xreg_lem h s r a2 (omega arith),
            ◌>>=◌,
          )
          (elim (Outcome-cases (copy_guest_to_host h.asserts s.memory (x_reg s a1) (x_reg s a2))) [
            | inl (buf, good) ↦
                rw (good, ◌>>=◌)
                  (set_xreg_lem h (called s _) (called-HasRegisters s _ r) a0 (omega arith) _)
            | inr (e, bad) ↦ rw (bad, ◌>>=◌) refl
          ])

    pub syscall_read_lem :
        syscall_read h s ≡ after_read (h.read s.syscalls (reg_to_ireg (x_reg s a0)) (x_reg s a2))
    unfolding syscall_read host_read
    syscall_read_lem =
        rw
          (
            get_xreg_lem h s r a0 (omega arith),
            ◌>>=◌,
            get_xreg_lem h s r a1 (omega arith),
            ◌>>=◌,
            get_xreg_lem h s r a2 (omega arith),
            ◌>>=◌,
          )
          (elim (Option-cases (h.read s.syscalls (reg_to_ireg (x_reg s a0)) (x_reg s a2))) [
            | inl failed ↦
                rw (failed)
                  (set_xreg_lem h (called s _) (called-HasRegisters s _ r) a0 (omega arith) _)
            | inr (buf, got) ↦
                rw (got)
                  (elim (Outcome-cases (copy_host_to_guest h.asserts s.memory (x_reg s a1) buf)) [
                    | inl (mem, good) ↦
                        rw (good, ◌>>=◌)
                          (set_xreg_lem h (called (record s { memory = mem }) _)
                            (called-HasRegisters _ _ (with_memory-HasRegisters s mem r)) a0
                            (omega arith) _)
                    | inr (e, bad) ↦ rw (bad, ◌>>=◌) refl
                  ])
          ])

    -- On a machine with its 32 registers, the system call handler does by the number in a7 one of
    -- four things: exit sets the stop flag and changes nothing else; read sends the host's bytes to
    -- the guest's buffer and its count, or -1, to a0; write sends the bytes of the guest's buffer
    -- to the host and the host's answer to a0; any other number fails an assert, or does nothing
    -- where asserts are off. A copy from or to the guest that fails is the outcome.
    pub syscall_handler_lem :
        ((x_reg s a7 ≡ sys_exit_id)
          × (syscall_handler h s ≡ ok (tt, record s { should_stop = true })))
        ⊎ ((x_reg s a7 ≡ sys_read_id)
            × (syscall_handler h s
                ≡ after_read (h.read s.syscalls (reg_to_ireg (x_reg s a0)) (x_reg s a2))))
        ⊎ ((x_reg s a7 ≡ sys_write_id)
            × (syscall_handler h s
                ≡ after_write (copy_guest_to_host h.asserts s.memory (x_reg s a1) (x_reg s a2))))
        ⊎ ((x_reg s a7 ≢ sys_exit_id)
            × (x_reg s a7 ≢ sys_read_id)
            × (x_reg s a7 ≢ sys_write_id)
            × (syscall_handler h s ≡ assert_false h.asserts (tt, s)))
    unfolding syscall_handler set_should_stop
    syscall_handler_lem =
        rw (get_xreg_lem h s r a7 (omega arith), ◌>>=◌)
          (elim (Bool-cases (x_reg s a7 == sys_exit_id)) [
            | inl exit ↦ inl ((==_iff _ _).0 exit, rw exit refl)
            | inr not_exit ↦ elim (Bool-cases (x_reg s a7 == sys_read_id)) [
              | inl is_read ↦
                  inr (inl ((==_iff _ _).0 is_read, rw (not_exit, is_read) syscall_read_lem))
              | inr not_read ↦ elim (Bool-cases (x_reg s a7 == sys_write_id)) [
                | inl is_write ↦ inr (
                    inr (
                      inl (
                        (==_iff _ _).0 is_write,
                        rw (not_exit, not_read, is_write) syscall_write_lem,
                      )))
                | inr not_write ↦ inr (
                    inr (
                      inr (
                        λ e. cc (not_exit, (==_iff (x_reg s a7) sys_exit_id).1 e),
                        λ e. cc (not_read, (==_iff (x_reg s a7) sys_read_id).1 e),
                        λ e. cc (not_write, (==_iff (x_reg s a7) sys_write_id).1 e),
                        rw (not_exit, not_read, not_write)
                            (elim (Bool-cases h.asserts) [
                              | inl kept ↦ rw kept refl
                              | inr off ↦ rw off refl
                            ]),
                      )))
              ]
            ]
          ])
