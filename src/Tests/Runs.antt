-- ===== src/Tests/Runs.antt =====
-- Instructions and whole runs on a small machine.
use riscv_sim.Prelude.{ℕ, ◌+◌, ◌%◌, ◌^◌, ◌<◌, ◌≡◌, ◌≢◌, refl, arith, ◌⊎◌, true, false, some}
use riscv_sim.Outcome.{ok, assert_false}
use riscv_sim.Word.{reg_to_ireg}
use riscv_sim.Insn.{rd, rs1, imm_i, sign_extend}
use riscv_sim.Machine.{check, step, get_ip, get_xreg, set_xreg, set_should_stop, a0, a1, a2, a7}
use riscv_sim.Machine.State.{Machine}
use riscv_sim.Machine.Registers.{HasRegisters, x_reg, write_reg, advance}
use riscv_sim.Machine.Evolution.{Evolves}
use riscv_sim.Memory.{copy_guest_to_host, fetch, load_u32, load_sized, is_addr_in_segment}
use riscv_sim.Memory.Bytes.{read_bytes, read_front, from_bytes}
use riscv_sim.Zeros.{zeros}
use riscv_sim.Decode.{decode, scan}
use riscv_sim.Decode.Table.{insn_decode_table, ext_i}
use riscv_sim.Isa.Arith.{callback_addi}
use riscv_sim.Isa.Control.{callback_ecall}
use riscv_sim.Isa.Shapes.{execute_rri_bin_op}
use riscv_sim.Isa.Effects.{retire}
use riscv_sim.Isa.Syscall.{syscall_handler, sys_exit_id, sys_read_id, sys_write_id}
use riscv_sim.Isa.Syscall.Laws.{after_read, after_write, syscall_handler_lem}
use riscv_sim.Execute.{instr_callback, is_invalid, execute_insn, execute_loop}
use riscv_sim.Execute.Steps.{
  Steps, done, more, Ends, stopped, execute_loop-Steps, Steps-execute_loop,
}
use riscv_sim.Execute.Safety.{Steps-Evolves}
use riscv_sim.Prelude.{◌∷◌, [], ◌*◌}
use riscv_sim.Tests.Instructions.{add_row, add_row-IsRow}
use riscv_sim.Execute.Register.{execute_insn-encoded_r, computes_add}
use riscv_sim.Tests.Fixture.{exit_program, test_host, test_machine}

-- The program of the fixture: it asks for the exit call, and stops.
abbrev asking : Machine
asking = advance (write_reg test_machine 17 93)

abbrev exited : Machine
exited = advance (record asking { should_stop = true })

first_insn : execute_insn test_host test_machine ≡ ok (tt, asking)
unfolding execute_insn get_ip fetch load_u32 load_sized is_addr_in_segment read_bytes read_front
    from_bytes decode scan insn_decode_table ext_i is_invalid instr_callback callback_addi
    execute_rri_bin_op get_xreg set_xreg check step rs1 rd imm_i sign_extend advance write_reg zeros
first_insn = refl

second_insn : execute_insn test_host asking ≡ ok (tt, exited)
unfolding execute_insn get_ip fetch load_u32 load_sized is_addr_in_segment read_bytes read_front
    from_bytes decode scan insn_decode_table ext_i is_invalid instr_callback callback_ecall
    syscall_handler set_should_stop get_xreg check step advance write_reg zeros
second_insn = refl

still_going : asking.should_stop ≡ false
unfolding advance write_reg
still_going = refl

has_stopped : exited.should_stop ≡ true
unfolding advance
has_stopped = refl

run : Steps test_host 2 test_machine exited
run = more refl first_insn (more still_going second_insn done)

exits : Ends test_host exited (ok exited)
exits = stopped has_stopped

execute_loop-Steps_example : execute_loop test_host 3 test_machine ≡ some (ok exited)
execute_loop-Steps_example = execute_loop-Steps test_host 3 run exits (omega arith)

Steps-execute_loop_example :
    (n : ℕ) × (s' : Machine) × Steps test_host n test_machine s'
    × Ends test_host s' (ok exited)
    × (n < 3)
Steps-execute_loop_example =
    Steps-execute_loop test_host 3 test_machine
      (execute_loop-Steps test_host 3 run exits (omega arith))

Steps-Evolves_example : Evolves test_machine exited
Steps-Evolves_example = Steps-Evolves test_host run

asking-HasRegisters : HasRegisters asking
unfolding advance write_reg zeros
asking-HasRegisters = record { x_length = refl; f_length = refl }

syscall_handler_lem_example :
    ((x_reg asking a7 ≡ sys_exit_id)
      × (syscall_handler test_host asking ≡ ok (tt, record asking { should_stop = true })))
    ⊎ ((x_reg asking a7 ≡ sys_read_id)
        × (syscall_handler test_host asking
            ≡ after_read test_host asking
                (test_host.read asking.syscalls (reg_to_ireg (x_reg asking a0)) (x_reg asking a2))))
    ⊎ ((x_reg asking a7 ≡ sys_write_id)
        × (syscall_handler test_host asking
            ≡ after_write test_host asking (
                copy_guest_to_host test_host.asserts asking.memory
                  (x_reg asking a1)
                  (x_reg asking a2))))
    ⊎ ((x_reg asking a7 ≢ sys_exit_id)
        × (x_reg asking a7 ≢ sys_read_id)
        × (x_reg asking a7 ≢ sys_write_id)
        × (syscall_handler test_host asking ≡ assert_false test_host.asserts (tt, asking)))
syscall_handler_lem_example = syscall_handler_lem test_host asking asking-HasRegisters

-- ADD x1, x2, x3 at the program counter.
abbrev add_machine : Machine
add_machine = record test_machine {
  memory = record exit_program { bytes = 0xb3 ∷ 0x00 ∷ 0x31 ∷ 0x00 ∷ [] } ∷ [];
}

add_machine-HasRegisters : HasRegisters add_machine
unfolding zeros
add_machine-HasRegisters = record { x_length = refl; f_length = refl }

add_fetched :
    fetch test_host.asserts add_machine.memory add_machine.ip
    ≡ ok (0x33 + 3 * 2 ^ 20 + 2 * 2 ^ 15 + 1 * 2 ^ 7)
unfolding fetch load_u32 load_sized is_addr_in_segment read_bytes read_front from_bytes
add_fetched = refl

execute_insn-encoded_r_example :
    execute_insn test_host add_machine
    ≡ retire add_machine 1 (ok ((x_reg add_machine 2 + x_reg add_machine 3) % 2 ^ 32))
execute_insn-encoded_r_example =
    execute_insn-encoded_r test_host add_machine add_machine-HasRegisters add_row 3 2 1
      add_row-IsRow refl computes_add (omega arith) (omega arith) (omega arith) add_fetched
