-- ===== src/Isa/Safety/System.antt =====
-- The system calls only let a state evolve; read and write add to the calls made.
use riscv_sim.Prelude.{ℕ, if◌then◌else◌, arith, List, [], ◌∷◌, Option, none, some, refl, ℤ, length}
use riscv_sim.Outcome.{ok, fault, assert_failed}
use riscv_sim.Word.{ireg_to_reg}
use riscv_sim.Host.{Host, SysCall, sys_read, sys_write}
use riscv_sim.Memory.{copy_host_to_guest}
use riscv_sim.Machine.{set_xreg, a0}
use riscv_sim.Machine.State.{Machine, ◌>>◌, writing}
use riscv_sim.Machine.Evolution.{Evolves, Safe, >>=-Safe, Safe-same}
use riscv_sim.Machine.Safety.{Safe-to, writing-Safe, copy_host_to_guest-KeepsLayout}
use riscv_sim.Machine.Accessors.{set_xreg-Safe}
use riscv_sim.Isa.Syscall.{
  transferred, host_read, host_write, syscall_read, syscall_write, syscall_handler,
}
use riscv_sim.Isa.Safety.{safe_rules}

Evolves-call : (s : Machine) (c : SysCall) → Evolves s (record s { syscalls = c ∷ s.syscalls })
Evolves-call s c = record {
  xregs_kept = refl;
  fregs_kept = refl;
  x0_kept = refl;
  layout_kept = refl;
  fcsr_kept = λ h. h;
  calls_kept = (c ∷ [], refl);
}

module _ (h : Host) where
  host_read-Safe : (fd : ℤ) (size : ℕ) → Safe (host_read h fd size)
  unfolding host_read
  host_read-Safe fd size =
      Safe-to
        (λ s. record s { syscalls = sys_read fd size (h.read s.syscalls fd size) ∷ s.syscalls })
        (λ s _ s' e. ground arith) (λ s. Evolves-call s _)

  host_write-Safe : (fd : ℤ) (buf : List ℕ) → Safe (host_write h fd buf)
  unfolding host_write
  host_write-Safe fd buf =
      Safe-to
        (λ s. record s { syscalls = sys_write fd buf (h.write s.syscalls fd buf) ∷ s.syscalls })
        (λ s _ s' e. ground arith) (λ s. Evolves-call s _)

  received-Safe :
      (to : ℕ) (rc : Option (List ℕ))
      → Safe (elim rc [
        | none ↦ set_xreg h a0 (ireg_to_reg (transferred none))
        | some buf ↦
            (writing (λ mem. copy_host_to_guest h.asserts mem to buf)
              >> set_xreg h a0 (ireg_to_reg (transferred (some (length buf)))))
      ])
  received-Safe to none = set_xreg-Safe h a0 _
  received-Safe to (some buf) =
      >>=-Safe (writing-Safe _ (copy_host_to_guest-KeepsLayout h.asserts to buf))
        (λ _. set_xreg-Safe h a0 _)

  pub syscall_read-Safe : Safe (syscall_read h)
  unfolding syscall_read
  syscall_read-Safe = search (safe_rules, host_read-Safe, received-Safe) depth 9

  pub syscall_write-Safe : Safe (syscall_write h)
  unfolding syscall_write
  syscall_write-Safe = search (safe_rules, host_write-Safe) depth 9

  assert_or_skip-Safe : Safe (λ s. if h.asserts then fault assert_failed else ok (tt {0}, s))
  assert_or_skip-Safe = Safe-same (λ s _ s' e. ground arith)

  pub syscall_handler-Safe : Safe (syscall_handler h)
  unfolding syscall_handler
  syscall_handler-Safe =
      search (safe_rules, syscall_read-Safe, syscall_write-Safe, assert_or_skip-Safe) depth 9
