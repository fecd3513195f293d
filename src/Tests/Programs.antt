-- ===== src/Tests/Programs.antt =====
-- A program of two instructions, as InsnSet runs it and as the simulator does, and FADD.S.
use riscv_sim.Prelude.{ℕ, ◌<◌, ◌≡◌, refl, arith, ◌⊎◌, true, some, [], ◌∷◌}
use riscv_sim.Outcome.{Outcome, ok, fault, thrown, unknown_instruction}
use riscv_sim.Word.{reg_to_ireg}
use riscv_sim.Zeros.{zeros}
use riscv_sim.Insn.RoundTrip.{Fits}
use riscv_sim.Mnemonic.{InsnMnemonic}
use riscv_sim.Memory.{fetch, load_u32, load_sized, is_addr_in_segment}
use riscv_sim.Memory.Bytes.{read_bytes, read_front, from_bytes}
use riscv_sim.Decode.{decode}
use riscv_sim.Decode.Table.{InsnEntry, entry, ext_f}
use riscv_sim.Insn.{rd, rs1, rs2, rm}
use riscv_sim.Isa.Float.Effects.{asked_mode, mode_value, rounded}
use riscv_sim.InsnSet.Float.{Floats, floats_fadd}
use riscv_sim.InsnSet.Float.Correct.{execute_insn-Floats}
use riscv_sim.Decode.Unique.{IsRow, Matches}
use riscv_sim.Machine.{a0}
use riscv_sim.Machine.State.{Machine}
use riscv_sim.Machine.Registers.{x_reg, f_reg, write_reg, advance}
use riscv_sim.Execute.{execute_insn, execute}
use riscv_sim.Execute.Exit.{ecall_word}
use riscv_sim.Execute.Immediate.{acts_addi}
use riscv_sim.InsnSet.{Instruction, immediate, ecall, Run, ended, next}
use riscv_sim.InsnSet.Correct.{execute-Run}
use riscv_sim.InsnSet.Total.{execute_insn-total}
use riscv_sim.Tests.Encodings.{holding, holding-HasRegisters}
use riscv_sim.Tests.Fixture.{test_host, test_machine, test_machine-HasRegisters}

abbrev exit_word : ℕ
exit_word = 0x05d0_0893

abbrev asking : Machine
asking = advance (write_reg test_machine 17 93)

abbrev halted : Machine
halted = advance (record asking { should_stop = true })

exit-Fits : Fits 11 93
unfolding reg_to_ireg
exit-Fits = ground arith

exit_fetched : fetch test_host.asserts test_machine.memory test_machine.ip ≡ ok exit_word
unfolding fetch load_u32 load_sized is_addr_in_segment read_bytes read_front from_bytes
exit_fetched = refl

ecall_fetched : fetch test_host.asserts asking.memory asking.ip ≡ ok ecall_word
unfolding fetch load_u32 load_sized is_addr_in_segment read_bytes read_front from_bytes advance
    write_reg
ecall_fetched = refl

halts-Run : Run test_host 2 test_machine halted
unfolding advance write_reg x_reg zeros
halts-Run =
    next refl exit_fetched
      (immediate {imm = 93} {r1 = 0} {d = 17} acts_addi exit-Fits (omega arith) (omega arith)) refl
      (next refl ecall_fetched ecall refl ended)

halted_stops : halted.should_stop ≡ true
unfolding advance
halted_stops = refl

execute-Run_example : execute test_host 3 test_machine ≡ some (ok (x_reg halted a0, halted))
execute-Run_example =
    execute-Run test_host 3 test_machine-HasRegisters (omega arith) halts-Run halted_stops
      (omega arith)

execute_insn-total_example :
    ((decode exit_word ≡ InsnMnemonic.k_invalid)
      × (execute_insn test_host test_machine ≡ fault (thrown unknown_instruction)))
    ⊎ ((act : Machine → Outcome (Unit {0} × Machine)) × Instruction test_host exit_word act
        × (execute_insn test_host test_machine ≡ act test_machine))
    ⊎ ((e : InsnEntry) × (act : ℕ → Machine → Outcome (Unit {0} × Machine)) × IsRow e ext_f
        × Matches exit_word e
        × Floats test_host e.mnem act
        × (execute_insn test_host test_machine ≡ act exit_word test_machine))
    ⊎ ((e : InsnEntry) × IsRow e ext_f
        × Matches exit_word e
        × (4 < asked_mode test_host test_machine.fcsr (rm exit_word)))
execute_insn-total_example =
    execute_insn-total test_host test_machine test_machine-HasRegisters exit_word (omega arith)
      (omega arith) exit_fetched

-- FADD.S f1, f2, f3, rounding to zero.
abbrev fadd_word : ℕ
fadd_word = 0x0031_10d3

abbrev fadd_row : InsnEntry
fadd_row = entry InsnMnemonic.fadd_s 0xfe00_007f 0x0000_0053

fadd_row-IsRow : IsRow fadd_row ext_f
unfolding ext_f
fadd_row-IsRow = IsRow.there (IsRow.there IsRow.here)

abbrev fadd_machine : Machine
fadd_machine = holding (0xd3 ∷ 0x10 ∷ 0x31 ∷ 0x00 ∷ [])

fadd_fetched : fetch test_host.asserts fadd_machine.memory fadd_machine.ip ≡ ok fadd_word
unfolding fetch load_u32 load_sized is_addr_in_segment read_bytes read_front from_bytes
fadd_fetched = refl

rounds_to_zero : asked_mode test_host fadd_machine.fcsr (rm fadd_word) < 5
unfolding rm
rounds_to_zero = omega arith

execute_insn-Floats_example :
    let mode = asked_mode test_host fadd_machine.fcsr (rm fadd_word) in
    execute_insn test_host fadd_machine
    ≡ ok (
      tt,
      rounded test_host fadd_machine mode (rd fadd_word) (
          test_host.f32_add
            (mode_value test_host mode)
            (f_reg fadd_machine (rs1 fadd_word))
            (f_reg fadd_machine (rs2 fadd_word))),
    )
execute_insn-Floats_example =
    execute_insn-Floats test_host fadd_machine (holding-HasRegisters _) fadd_word fadd_row
      (omega arith) rounds_to_zero fadd_row-IsRow refl floats_fadd fadd_fetched
