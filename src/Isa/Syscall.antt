-- ===== src/Isa/Syscall.antt =====
-- src/isa/source/syscall_handler.cpp. The vector for the transfer is assumed to be allocated.
pub mod Laws
use riscv_sim.Prelude.{
  ℕ, ◌-◌, ◌%◌, ◌^◌, true, List, ◌∷◌, Option, none, some, ◌==◌, if◌then◌else◌, ℤ, negsuc, pos,
  length,
}
use riscv_sim.Outcome.{ok, fault, assert_failed}
use riscv_sim.Word.{reg_to_ireg, ireg_to_reg}
use riscv_sim.Memory.{copy_guest_to_host, copy_host_to_guest}
use riscv_sim.Host.{Host, SysCall, sys_read, sys_write}
use riscv_sim.Machine.State.{Machine, M, pure, ◌>>=◌, ◌>>◌, reading, writing}
use riscv_sim.Machine.{set_should_stop, set_xreg, get_xreg, a0, a1, a2, a7}

-- SyscallId.
abbrev pub sys_read_id : ℕ
sys_read_id = 63

abbrev pub sys_write_id : ℕ
sys_write_id = 64

abbrev pub sys_exit_id : ℕ
sys_exit_id = 93

-- The ssize_t that a call returns.
abbrev pub transferred : Option ℕ → ℤ
transferred none = negsuc 0
transferred (some n) = pos n

module _ (h : Host) where
  unfoldable pub host_read : ℤ → ℕ → M (Option (List ℕ))
  host_read fd size s =
      let rc = h.read s.syscalls fd size in
      ok (rc, record s { syscalls = sys_read fd size rc ∷ s.syscalls })

  unfoldable pub host_write : ℤ → List ℕ → M (Option ℕ)
  host_write fd buf s =
      let wc = h.write s.syscalls fd buf in
      ok (wc, record s { syscalls = sys_write fd buf wc ∷ s.syscalls })

  unfoldable pub syscall_read : M (Unit {0})
  syscall_read = do
    fd ← get_xreg h a0
    guest_buf_ptr ← get_xreg h a1
    size ← get_xreg h a2
    rc ← host_read (reg_to_ireg fd) size
    elim rc [
      | none ↦ set_xreg h a0 (ireg_to_reg (transferred none))
      | some buf ↦
          (writing (λ mem. copy_host_to_guest h.asserts mem guest_buf_ptr buf)
            >> set_xreg h a0 (ireg_to_reg (transferred (some (length buf)))))
    ]

  unfoldable pub syscall_write : M (Unit {0})
  syscall_write = do
    fd ← get_xreg h a0
    guest_buf_ptr ← get_xreg h a1
    size ← get_xreg h a2
    buf ← reading (λ mem. copy_guest_to_host h.asserts mem guest_buf_ptr size)
    wc ← host_write (reg_to_ireg fd) buf
    set_xreg h a0 (ireg_to_reg (transferred wc))

  unfoldable pub syscall_handler : M (Unit {0})
  syscall_handler = do
    syscall_id ← get_xreg h a7
    if syscall_id == sys_exit_id
        then set_should_stop true
        else (if syscall_id == sys_read_id
            then syscall_read
            else (if syscall_id == sys_write_id
                then syscall_write
                else (λ s. if h.asserts then fault assert_failed else ok (tt, s))))
