-- ===== src/Tests/Start.antt =====
-- The start of the simulator with two arguments.
use riscv_sim.Prelude.{
  true, ℕ, ◌+◌, ◌-◌, ◌*◌, ◌^◌, ◌<◌, ◌≡◌, refl, arith, List, [], ◌∷◌, ◌++◌, some, length, get_elem?,
  get_or, false,
}
use riscv_sim.Outcome.{ok}
use riscv_sim.Zeros.{zeros}
use riscv_sim.ProgramArgs.{ProgramArgs, size_of_argv, copy_argv}
use riscv_sim.ProgramArgs.Layout.{flat, Placed, copy_argv-Placed}
use riscv_sim.Word.{u32}
use riscv_sim.Elf.{
  ParsedElf, ElfFile, ElfConstants, is_target_correct, load_segment, load_segments, find_global_ptr,
  load_elf,
}
use riscv_sim.Elf.Contents.{Loaded, load_elf-Loaded}
use riscv_sim.Memory.{load_u32, add_segment, MemorySegm}
use riscv_sim.Memory.Access.{is_mapped}
use riscv_sim.Machine.{sp}
use riscv_sim.Machine.State.{Machine}
use riscv_sim.Boot.{k_stack_top, stack_segment, argv_segment, rv_sim}
use riscv_sim.Boot.Stack.{addresses}
use riscv_sim.Boot.Arguments.{rv_sim-arguments}
use riscv_sim.Tests.Fixture.{test_host, test_memory}

abbrev test_args : ProgramArgs
test_args = record { argc = 2; argv = (112 ∷ []) ∷ (55 ∷ 56 ∷ []) ∷ [] }

abbrev test_elf : ParsedElf
test_elf = record { mem = test_memory; entry_point = 16; global_ptr = 0 }

test_args_fit : length (flat test_args.argv) < 2 ^ 32
unfolding flat
test_args_fit = omega arith

stack_apart : is_mapped test_memory (k_stack_top - 4 * (2 + 2) + 4 * 1) ≡ false
unfolding is_mapped riscv_sim.Memory.is_addr_in_segment
stack_apart = refl

copy_argv-Placed_example :
    (offsets : List ℕ) × (size_of_argv test_args ≡ length (flat test_args.argv))
    × (copy_argv test_args (zeros (size_of_argv test_args)) ≡ ok (flat test_args.argv, offsets))
    × Placed (flat test_args.argv) offsets test_args.argv
copy_argv-Placed_example = copy_argv-Placed test_args test_args_fit

rv_sim-arguments_example :
    (offsets : List ℕ) × (s : Machine) × (stack : List ℕ) × Placed
      (flat test_args.argv)
      offsets
      test_args.argv
    × (rv_sim test_host test_elf test_args ≡ ok s)
    × (s.memory
        ≡ add_segment
            (add_segment test_memory (stack_segment stack))
            (argv_segment (length (flat test_args.argv)) (flat test_args.argv)))
    × (s.ip ≡ 16)
    × (get_elem? s.xregs sp ≡ some (k_stack_top - 4 * (2 + 2)))
    × (load_u32 test_host.asserts s.memory (k_stack_top - 4 * (2 + 2) + 4 * 1)
        ≡ ok (get_or (2 ∷ (addresses offsets ++ 0 ∷ [])) 1 0))
rv_sim-arguments_example =
    rv_sim-arguments test_host test_elf test_args 1 refl (omega arith) test_args_fit (omega arith)
      stack_apart

-- The values of the ELF specification.
abbrev pub test_constants : ElfConstants
test_constants = record {
  pt_load = 1;
  sht_symtab = 2;
  em_riscv = 243;
  elfclass32 = 1;
  pf_r = 4;
  pf_w = 2;
  pf_x = 1;
}

-- Two bytes for a segment of four, and a segment that is not loaded.
abbrev test_file : ElfFile
test_file = record {
  machine = 243;
  elf_class = 1;
  entry = 4096;
  segments =
      record {
        seg_type = 1;
        virtual_address = 4096;
        memory_size = 4;
        file_size = 2;
        contents = 7 ∷ 8 ∷ [];
        flags = 4;
      }
      ∷ record {
        seg_type = 6;
        virtual_address = 0;
        memory_size = 0;
        file_size = 0;
        contents = [];
        flags = 0;
      }
      ∷ [];
  sections = [];
}

abbrev test_parsed : ParsedElf
test_parsed = record {
  mem =
      record {
        start_addr = 4096;
        end_addr = 4100;
        bytes = 7 ∷ 8 ∷ 0 ∷ 0 ∷ [];
        r_permission = true;
        w_permission = false;
        x_permission = false;
      }
      ∷ [];
  entry_point = 4096;
  global_ptr = 0;
}

test_loads : load_elf test_constants (some test_file) ≡ ok test_parsed
unfolding load_elf is_target_correct load_segments load_segment find_global_ptr zeros
test_loads = refl

load_elf-Loaded_example :
    (◌≡◌ {A = ℕ} 243 243)
    × (◌≡◌ {A = ℕ} 1 1)
    × (test_parsed.entry_point ≡ u32 test_file.entry)
    × Loaded test_constants test_file.segments test_parsed.mem
load_elf-Loaded_example = load_elf-Loaded test_constants test_file test_loads
