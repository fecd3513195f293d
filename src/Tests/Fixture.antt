-- ===== src/Tests/Fixture.antt =====
-- A host, a memory and a machine to run on.
use riscv_sim.Prelude.{true, false, [], ◌∷◌, some, length, refl}
use riscv_sim.Zeros.{zeros}
use riscv_sim.Host.{Host}
use riscv_sim.Memory.{MemorySegm, Memory}
use riscv_sim.Machine.State.{Machine}
use riscv_sim.Machine.Registers.{HasRegisters}

-- Its floating-point routines return their first operand and raise the inexact flag.
abbrev pub test_host : Host
test_host = record {
  asserts = true;
  round_near_even = 0;
  round_min_mag = 1;
  round_min = 2;
  round_max = 3;
  round_near_max_mag = 4;
  initial_rounding_mode = 0;
  initial_exception_flags = 0;
  f32_add = λ r a b. (a, 1);
  f32_sub = λ r a b. (a, 1);
  f32_mul = λ r a b. (a, 1);
  f32_div = λ r a b. (a, 1);
  f32_sqrt = λ r a. (a, 1);
  f32_mul_add = λ r a b c. (a, 1);
  f32_le = λ a b. (true, 0);
  f32_lt = λ a b. (false, 0);
  f32_eq = λ a b. (false, 0);
  f32_to_i32 = λ a r exact. (a, 0);
  f32_to_ui32 = λ a r exact. (a, 0);
  i32_to_f32 = λ r a. (a, 0);
  ui32_to_f32 = λ r a. (a, 0);
  f32_is_signaling_nan = λ a. false;
  read = λ calls fd size. some (104 ∷ 105 ∷ []);
  write = λ calls fd buf. some (length buf);
}

-- Eight bytes at 16: ADDI a7, x0, 93 and ECALL.
abbrev pub exit_program : MemorySegm
exit_program = record {
  start_addr = 16;
  end_addr = 24;
  bytes = 0x93 ∷ 0x08 ∷ 0xd0 ∷ 0x05 ∷ 0x73 ∷ 0x00 ∷ 0x00 ∷ 0x00 ∷ [];
  r_permission = true;
  w_permission = true;
  x_permission = true;
}

abbrev pub test_memory : Memory
test_memory = exit_program ∷ []

abbrev pub test_machine : Machine
test_machine = record {
  memory = test_memory;
  ip = 16;
  should_stop = false;
  xregs = 0 ∷ 7 ∷ 16 ∷ 0xffff_fff9 ∷ zeros 28;
  fregs = zeros 32;
  fcsr = 0;
  rounding_mode = 0;
  exception_flags = 0;
  syscalls = [];
}

pub test_machine-HasRegisters : HasRegisters test_machine
unfolding zeros
test_machine-HasRegisters = record { x_length = refl; f_length = refl }
