-- ===== src/Boot.antt =====
-- The constructor of RVSim in src/sim/include/sim/rv_sim.hpp, and src/main.cpp.
pub mod Stack
pub mod Arguments
pub mod Bytes
pub mod Reachable
pub mod Exit
use riscv_sim.Prelude.{
  ℕ, ◌+◌, ◌-◌, ◌*◌, ◌^◌, true, false, List, [], ◌∷◌, Option, none, some, ltb, if◌then◌else◌, set,
}
use riscv_sim.Outcome.{Outcome, ok, fault, undefined, thrown, in_bounds, ◌>>=◌}
use riscv_sim.Word.{u32}
use riscv_sim.Memory.{MemorySegm, add_segment}
use riscv_sim.Memory.Bytes.{to_bytes, write_bytes}
use riscv_sim.Zeros.{zeros}
use riscv_sim.Host.{Host}
use riscv_sim.Machine.State.{Machine}
use riscv_sim.Machine.{sp, gp}
use riscv_sim.ProgramArgs.{CString, ProgramArgs, program_args, size_of_argv, copy_argv}
use riscv_sim.Elf.{ElfFile, ElfConstants, ParsedElf, load_elf}
use riscv_sim.Execute.{execute}

abbrev pub k_stack_size : ℕ
k_stack_size = 2 ^ 20

abbrev pub k_stack_top : ℕ
k_stack_top = 2 ^ 30

abbrev pub k_stack_base : ℕ
k_stack_base = k_stack_top - k_stack_size

abbrev pub k_argv_base : ℕ
k_argv_base = k_stack_top + 4

-- The loop that writes the addresses of the arguments, from the byte `fill` of the stack on.
unfoldable pub fill_argv : List ℕ → ℕ → List ℕ → Outcome (List ℕ)
fill_argv bytes fill [] = in_bounds (write_bytes (to_bytes 4 0) bytes fill)
fill_argv bytes fill (offset ∷ offset_table) =
    in_bounds (write_bytes (to_bytes 4 (u32 (k_argv_base + offset))) bytes fill) >>= λ bytes'.
    fill_argv bytes' (fill + 4) offset_table

-- argc, the addresses and the null pointer, from the byte `fill` of the stack on.
unfoldable pub fill_stack : List ℕ → ℕ → ℕ → List ℕ → Outcome (List ℕ)
fill_stack bytes fill argc offset_table =
    in_bounds (write_bytes (to_bytes 4 argc) bytes fill) >>= λ bytes'.
    fill_argv bytes' (fill + 4) offset_table

unfoldable pub argv_fill_start : ℕ → ℕ
argv_fill_start argc = u32 (k_stack_top + 2 ^ 64 - 4 * (argc + 2))

-- `data() + argv_fill_start - kStackBase`, which has to point into the vector.
unfoldable pub stack_offset : ℕ → Outcome ℕ
stack_offset fill_start =
    if ltb fill_start k_stack_base then fault undefined else ok (fill_start - k_stack_base)

unfoldable pub stack_segment : List ℕ → MemorySegm
stack_segment bytes = record {
  start_addr = k_stack_base;
  end_addr = k_stack_top;
  bytes = bytes;
  r_permission = true;
  w_permission = true;
  x_permission = false;
}

unfoldable pub argv_segment : ℕ → List ℕ → MemorySegm
argv_segment argv_size bytes = record {
  start_addr = k_argv_base;
  end_addr = u32 (k_argv_base + argv_size + 4);
  bytes = bytes;
  r_permission = true;
  w_permission = false;
  x_permission = false;
}

module _ (h : Host) where
  -- The members as the constructor leaves them, for the two filled segments.
  unfoldable pub initial_machine : ParsedElf → ℕ → MemorySegm → MemorySegm → Machine
  initial_machine parsed_elf fill_start stack_segm argv_segm = record {
    memory = add_segment (add_segment parsed_elf.mem stack_segm) argv_segm;
    ip = parsed_elf.entry_point;
    should_stop = false;
    xregs = set (set (zeros 32) gp parsed_elf.global_ptr) sp fill_start;
    fregs = zeros 32;
    fcsr = 0;
    rounding_mode = h.initial_rounding_mode;
    exception_flags = h.initial_exception_flags;
    syscalls = [];
  }

  unfoldable pub rv_sim : ParsedElf → ProgramArgs → Outcome Machine
  rv_sim parsed_elf prog_args =
      let argv_size = size_of_argv prog_args in
      let argc = prog_args.argc in
      let fill_start = argv_fill_start argc in
      copy_argv prog_args (zeros argv_size) >>= λ (argv_bytes, offset_table).
      stack_offset fill_start >>= λ fill.
      fill_stack (zeros k_stack_size) fill argc offset_table >>= λ stack_bytes. ok (
        initial_machine parsed_elf fill_start (stack_segment stack_bytes)
          (argv_segment argv_size argv_bytes))

  -- main: EXIT_FAILURE is 1. An exception of LoadElf is caught, one of Execute is not.
  unfoldable pub run_main :
      ElfConstants → (CString → Option ElfFile) → ℕ → List CString → Option (Outcome ℕ)
  run_main c open_elf fuel [] = some (ok 1)
  run_main c open_elf fuel (self ∷ []) = some (ok 1)
  run_main c open_elf fuel (self ∷ (path ∷ argv)) = elim (load_elf c (open_elf path)) [
    | fault (thrown e) ↦ some (ok 1)
    | fault e ↦ some (fault e)
    | ok parsed_elf ↦ elim (rv_sim parsed_elf (program_args (self ∷ (path ∷ argv)))) [
      | fault e ↦ some (fault e)
      | ok s ↦ elim (execute h fuel s) [
        | none ↦ none
        | some (fault e) ↦ some (fault e)
        | some (ok (code, _)) ↦ some (ok code)
      ]
    ]
  ]
