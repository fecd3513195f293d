-- ===== src/Lib.antt =====
-- riscv-sim: a simulator of RV32IM_Zbb_Zicsr_F user programs.
--
-- The program loads an ELF file into a memory of segments (src/sim/source/elf_loader.cpp), puts the
-- arguments on a stack (the constructor in src/sim/include/sim/rv_sim.hpp), and then fetches,
-- decodes and carries out one instruction after the other until a system call stops it
-- (src/sim/source/rv_sim.cpp). The decoder (src/sim/source/decode.cpp) scans a table of masks; the
-- mnemonic that it finds selects a callback (src/sim/source/dispatch.cpp) among those of
-- src/isa/source/ext_*_cb.cpp, which read the word's fields (src/isa/include/isa/rv_insn.hpp) and
-- change registers, memory and the program counter by the methods of RVSim.
--
-- Files:
--   Prelude: the shared types, tests, lists and the integers over native naturals.
--   Bits: arithmetic laws of the bit operations.
--   Word: src/isa/include/isa/isa_hlp.hpp (RegToIReg is reg_to_ireg, SignExt is sign_ext_to, ...)
--     and ArithmRightShift.
--   Insn: the accessors of RvInsn, RvFInsn and RvCSRInsn (ImmI is imm_i, ...).
--   Mnemonic, Decode: InsnMnemonic, the rows of src/isa/include/isa/*.inc, and Decode.
--   Outcome: a value, or a fault: a failed assert, undefined behaviour, or a thrown exception.
--   Memory: src/sim/source/memory.cpp (LoadU32 is load_u32, ...); Widths, Bytewise and LittleEndian
--     look at its bytes, Access, RoundTrip and Unmapped at addresses.
--   Host: what the code calls and does not define: SoftFloat, read, write, and whether asserts are
--     compiled in.
--   Machine: the members of RVSim and its methods; State has the monad, Enums the enumerations of
--     src/isa/include/isa/isa_defs.hpp, Registers the register file as a function, Csr the control
--     registers; Evolution, Safety and Accessors, and Range with its children, the state
--     invariants.
--   Isa: the callbacks by extension (Arith, Control, LoadStore, MulDiv, Zbb, Zicsr, Float), the
--     templates (Shapes) and SyscallHandler (Syscall); Safety and Range what they keep, Effects and
--     the files beside it what they do.
--   Execute: GetInsnCallback and RVSim::Execute; Steps is the step relation, Safety and Range go
--     from one step to many, Exit is the end of a run. Decoded, Register, Immediate, Transfer,
--     Upper, Csr, UnknownCsr and Unary follow the instruction formats from their encoding to their
--     effect.
--   InsnSet: the instructions by their words and effects, apart from the decode table, the
--     dispatch and the callbacks, and runs of them. Opcodes has the fixed bits of the words, from the
--     listings of the RISC-V manual, and Tabled finds them in the decode table. Float has the
--     instructions of F. Correct and Float/Correct compare the loop with it; Words, Complete, Rows,
--     Integers and Total go over all words. MULH and MULHSU in it are those of the code, which
--     differ from the manual.
--   ProgramArgs, Elf, Boot: src/sim/include/sim/program_args.hpp, LoadElf, and the constructor of
--     RVSim with main; Layout, Stack and Arguments follow the arguments into guest memory, Bytes,
--     Reachable and Exit a whole run.
--   Zeros: zero-filled vectors. Tests: runs on concrete inputs.
--
-- A uint32_t is a natural below 2^32, and every operation writes out its wrap-around; an int32_t is
-- the integer that reg_to_ireg gives. The loops over bits and bytes recurse on the rounds that are
-- left. The loop of Execute has no bound in the code: execute_loop takes fuel, and a run of n rounds
-- that ends is answered from n + 1 rounds of fuel on. Elements of arrays and vectors are read with a
-- bounds check, whose failure is the fault `undefined`, as are shifts by the width and signed
-- overflows, that of the division of -2^31 by -1 among them; a failed assert is a fault only where
-- the host keeps asserts.
--
-- Not modelled: logging and call traces, the text of exceptions, the ELF format itself (ELFIO's
-- reports are the input), floating-point arithmetic (SoftFloat's routines are the host's), and the
-- failure of an allocation.

pub mod Prelude
pub mod Bits
pub mod Word
pub mod Insn
pub mod Mnemonic
pub mod Decode
pub mod Outcome
pub mod InsnSet
pub mod Memory
pub mod Host
pub mod Machine
pub mod Isa
pub mod Execute
pub mod Zeros
pub mod ProgramArgs
pub mod Elf
pub mod Boot
pub mod Tests
