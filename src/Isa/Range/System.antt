-- ===== src/Isa/Range/System.antt =====
-- The widths of the values of a state, over the system calls.
use riscv_sim.Prelude.{
  ℕ, if◌then◌else◌, arith, List, ◌∷◌, Option, none, some, refl, subst, ℤ, length,
}
use riscv_sim.Outcome.{ok, fault, assert_failed}
use riscv_sim.Word.{ireg_to_reg}
use riscv_sim.Host.{Host, SysCall, sys_read, sys_write}
use riscv_sim.Memory.{copy_host_to_guest}
use riscv_sim.Machine.{set_xreg, a0}
use riscv_sim.Machine.State.{Machine, ◌>>◌, writing}
use riscv_sim.Machine.Range.{InRange, Keeps, Any, Keeps-same, >>=-Keeps-Any}
use riscv_sim.Machine.Range.Operations.{InRange-control, set_xreg-Keeps}
use riscv_sim.Machine.Range.Transfers.{writing-Keeps, copy_host_to_guest-KeepsBytes}
use riscv_sim.Isa.Syscall.{
  transferred, host_read, host_write, syscall_read, syscall_write, syscall_handler,
}
use riscv_sim.Isa.Range.{range_rules}
use riscv_sim.Isa.Range.Values.{ireg_to_reg-IsWord}

InRange-call :
    (s : Machine) (c : SysCall) → InRange s → InRange (record s { syscalls = c ∷ s.syscalls })
InRange-call s c r = InRange-control s _ r.ip_word refl refl refl refl r

module _ (h : Host) where
  host_read-Keeps : (fd : ℤ) (size : ℕ) → Keeps Any (host_read h fd size)
  unfolding host_read
  host_read-Keeps fd size = record {
    keeps = λ s r e. (
      tt,
      subst InRange (ground arith)
          (InRange-call s (sys_read fd size (h.read s.syscalls fd size)) r),
    );
  }

  host_write-Keeps : (fd : ℤ) (buf : List ℕ) → Keeps Any (host_write h fd buf)
  unfolding host_write
  host_write-Keeps fd buf = record {
    keeps = λ s r e. (
      tt,
      subst InRange (ground arith)
          (InRange-call s (sys_write fd buf (h.write s.syscalls fd buf)) r),
    );
  }

  received-Keeps :
      (to : ℕ) (rc : Option (List ℕ))
      → Keeps Any (elim rc [
        | none ↦ set_xreg h a0 (ireg_to_reg (transferred none))
        | some buf ↦
            (writing (λ mem. copy_host_to_guest h.asserts mem to buf)
              >> set_xreg h a0 (ireg_to_reg (transferred (some (length buf)))))
      ])
  received-Keeps to none = set_xreg-Keeps h a0 _ (ireg_to_reg-IsWord _)
  received-Keeps to (some buf) =
      >>=-Keeps-Any (writing-Keeps _ (copy_host_to_guest-KeepsBytes h.asserts to buf))
        (λ _. set_xreg-Keeps h a0 _ (ireg_to_reg-IsWord _))

  syscall_read-Keeps : Keeps Any (syscall_read h)
  unfolding syscall_read
  syscall_read-Keeps = search (range_rules, host_read-Keeps, received-Keeps) depth 9

  syscall_write-Keeps : Keeps Any (syscall_write h)
  unfolding syscall_write
  syscall_write-Keeps = search (range_rules, host_write-Keeps, ireg_to_reg-IsWord) depth 9

  assert_or_skip-Keeps :
      Keeps {A = Unit {0}} Any (λ s. if h.asserts then fault assert_failed else ok (tt {0}, s))
  assert_or_skip-Keeps = Keeps-same (λ s _ s' r e. (tt, ground arith))

  pub syscall_handler-Keeps : Keeps Any (syscall_handler h)
  unfolding syscall_handler
  syscall_handler-Keeps =
      search (range_rules, syscall_read-Keeps, syscall_write-Keeps, assert_or_skip-Keeps) depth 9
