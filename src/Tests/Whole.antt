-- ===== src/Tests/Whole.antt =====
-- A program that exits with 7, loaded from its file and run to its end.
use riscv_sim.Prelude.{
  ℕ, ◌+◌, ◌-◌, ◌*◌, ◌^◌, ◌<◌, ◌≡◌, refl, ap, sym, ◌∙◌, arith, true, false, List, [], ◌∷◌, some,
  length, get_elem?,
}
use riscv_sim.Outcome.{ok}
use riscv_sim.Zeros.{zeros}
use riscv_sim.Memory.{MemorySegm, add_segment, fetch, load_u32, load_sized, is_addr_in_segment}
use riscv_sim.Memory.Access.{is_mapped}
use riscv_sim.Memory.Bytes.{read_bytes, read_front, from_bytes}
use riscv_sim.Decode.{decode, scan}
use riscv_sim.Decode.Table.{insn_decode_table, ext_i}
use riscv_sim.Insn.{rd, rs1, imm_i, sign_extend}
use riscv_sim.Machine.{check, step, get_ip, get_xreg, set_xreg, a0, a7}
use riscv_sim.Machine.State.{Machine}
use riscv_sim.Machine.Registers.{HasRegisters, x_reg, write_reg, advance}
use riscv_sim.Machine.Range.{InRange}
use riscv_sim.Isa.Arith.{callback_addi}
use riscv_sim.Isa.Shapes.{execute_rri_bin_op}
use riscv_sim.Isa.Syscall.{sys_exit_id}
use riscv_sim.Execute.{instr_callback, is_invalid, execute_insn}
use riscv_sim.Execute.Exit.{ecall_word}
use riscv_sim.Execute.Range.{GivesWords}
use riscv_sim.Execute.Steps.{Steps, done, more}
use riscv_sim.ProgramArgs.{ProgramArgs, program_args, size_of_argv}
use riscv_sim.ProgramArgs.Layout.{flat}
use riscv_sim.Elf.{
  ElfFile, ParsedElf, is_target_correct, load_segment, load_segments, find_global_ptr, load_elf,
}
use riscv_sim.Boot.{
  k_stack_top, argv_fill_start, stack_segment, argv_segment, initial_machine, rv_sim, run_main,
}
use riscv_sim.Boot.Arguments.{rv_sim-arguments}
use riscv_sim.Boot.Reachable.{rv_sim_parts, reachable-InRange}
use riscv_sim.Boot.Bytes.{AllStrings, SegmentBytes}
use riscv_sim.Boot.Exit.{run_main-exit}
use riscv_sim.Tests.Start.{test_constants}
use riscv_sim.Tests.Fixture.{test_host}

-- ADDI a0, x0, 7, ADDI a7, x0, 93 and ECALL at 16.
abbrev code : List ℕ
code = 0x13 ∷ 0x05 ∷ 0x70 ∷ 0x00 ∷ 0x93 ∷ 0x08 ∷ 0xd0 ∷ 0x05 ∷ 0x73 ∷ 0x00 ∷ 0x00 ∷ 0x00 ∷ []

abbrev exit_file : ElfFile
exit_file = record {
  machine = 243;
  elf_class = 1;
  entry = 16;
  segments =
      record {
        seg_type = 1;
        virtual_address = 16;
        memory_size = 12;
        file_size = 12;
        contents = code;
        flags = 5;
      }
      ∷ [];
  sections = [];
}

abbrev exit_elf : ParsedElf
exit_elf = record {
  mem =
      record {
        start_addr = 16;
        end_addr = 28;
        bytes = code;
        r_permission = true;
        w_permission = false;
        x_permission = true;
      }
      ∷ [];
  entry_point = 16;
  global_ptr = 0;
}

exit_loads : load_elf test_constants (some exit_file) ≡ ok exit_elf
unfolding load_elf is_target_correct load_segments load_segment find_global_ptr zeros
exit_loads = refl

abbrev exit_args : ProgramArgs
exit_args = program_args ((115 ∷ []) ∷ (112 ∷ []) ∷ [])

exit_args_counted : length exit_args.argv ≡ exit_args.argc
unfolding program_args
exit_args_counted = refl

exit_args_room : 4 * (exit_args.argc + 2) < 100
unfolding program_args
exit_args_room = omega arith

exit_args_fit : length (flat exit_args.argv) < 2 ^ 32
unfolding flat program_args
exit_args_fit = omega arith

stack_apart : is_mapped exit_elf.mem (k_stack_top - 4 * (exit_args.argc + 2) + 4 * 0) ≡ false
unfolding is_mapped is_addr_in_segment program_args
stack_apart = refl

abbrev exit_started : (s : Machine) × (rv_sim test_host exit_elf exit_args ≡ ok s)
exit_started =
    let (_, s, _, _, started, _, _, _, _) =
      rv_sim-arguments test_host exit_elf exit_args 0 exit_args_counted
        (omega (arith, exit_args_room)) exit_args_fit (omega arith) stack_apart in
    (s, started)

-- The machine before the first instruction, for the two segments of the constructor.
abbrev booted : MemorySegm → MemorySegm → Machine
booted stack argv = initial_machine test_host exit_elf (argv_fill_start exit_args.argc) stack argv

abbrev exit_booted :
    (stack : MemorySegm) × (argv : MemorySegm) × (rv_sim test_host exit_elf exit_args
      ≡ ok (booted stack argv))
exit_booted =
    let (s, started) = exit_started in
    let (argv, _, _, stack, _, _, made) = rv_sim_parts test_host exit_elf exit_args started in
    (stack_segment stack, argv_segment (size_of_argv exit_args) argv, started ∙ ap ok (sym made))

module _ (stack argv : MemorySegm) where
  abbrev answering : Machine
  answering = advance (write_reg (booted stack argv) 10 7)

  abbrev asking : Machine
  asking = advance (write_reg answering 17 93)

  first_insn : execute_insn test_host (booted stack argv) ≡ ok (tt, answering)
  unfolding execute_insn get_ip fetch load_u32 load_sized is_addr_in_segment read_bytes read_front
      from_bytes decode scan insn_decode_table ext_i is_invalid instr_callback callback_addi
      execute_rri_bin_op get_xreg set_xreg check step rs1 rd imm_i sign_extend advance write_reg
      zeros initial_machine add_segment
  first_insn = refl

  second_insn : execute_insn test_host answering ≡ ok (tt, asking)
  unfolding execute_insn get_ip fetch load_u32 load_sized is_addr_in_segment read_bytes read_front
      from_bytes decode scan insn_decode_table ext_i is_invalid instr_callback callback_addi
      execute_rri_bin_op get_xreg set_xreg check step rs1 rd imm_i sign_extend advance write_reg
      zeros initial_machine add_segment
  second_insn = refl

  booted_goes : (booted stack argv).should_stop ≡ false
  unfolding initial_machine
  booted_goes = refl

  answering_goes : answering.should_stop ≡ false
  unfolding initial_machine advance write_reg
  answering_goes = refl

  asking_goes : asking.should_stop ≡ false
  unfolding initial_machine advance write_reg
  asking_goes = refl

  asking-Steps : Steps test_host 2 (booted stack argv) asking
  asking-Steps = more booted_goes first_insn (more answering_goes second_insn done)

  asking_fetches : fetch test_host.asserts asking.memory asking.ip ≡ ok ecall_word
  unfolding fetch load_u32 load_sized is_addr_in_segment read_bytes read_front from_bytes advance
      write_reg initial_machine add_segment
  asking_fetches = refl

  asking_exit : x_reg asking a7 ≡ sys_exit_id
  unfolding x_reg advance write_reg initial_machine zeros
  asking_exit = refl

test_host-GivesWords : GivesWords test_host
test_host-GivesWords = record {
  add_word = λ r a b p q. p;
  sub_word = λ r a b p q. p;
  mul_word = λ r a b p q. p;
  div_word = λ r a b p q. p;
  sqrt_word = λ r a p. p;
  mul_add_word = λ r a b c p q u. p;
  to_i32_word = λ a r exact p. p;
  to_ui32_word = λ a r exact p. p;
  of_i32_word = λ r a p. p;
  of_ui32_word = λ r a p. p;
}

run_main-exit_example :
    run_main test_host test_constants (λ path. some exit_file) 4 ((115 ∷ []) ∷ (112 ∷ []) ∷ [])
    ≡ some (ok (x_reg (asking exit_booted.0 exit_booted.1) a0))
run_main-exit_example =
    run_main-exit test_host test_constants (λ path. some exit_file) (115 ∷ []) (112 ∷ []) [] 4
      exit_loads exit_booted.2 (asking-Steps exit_booted.0 exit_booted.1)
      (asking_goes exit_booted.0 exit_booted.1) (asking_fetches exit_booted.0 exit_booted.1)
      (asking_exit exit_booted.0 exit_booted.1) (omega arith)

exit_file-SegmentBytes : SegmentBytes exit_file.segments
exit_file-SegmentBytes = ground arith

exit_args-AllStrings : AllStrings exit_args.argv
unfolding program_args
exit_args-AllStrings = ground arith

reachable-InRange_example :
    InRange (asking exit_booted.0 exit_booted.1)
    × HasRegisters (asking exit_booted.0 exit_booted.1)
    × (get_elem? (asking exit_booted.0 exit_booted.1).xregs 0 ≡ some 0)
reachable-InRange_example =
    reachable-InRange test_host test_constants exit_file exit_args test_host-GivesWords
      exit_file-SegmentBytes exit_args-AllStrings exit_loads exit_booted.2
      (asking-Steps exit_booted.0 exit_booted.1)
