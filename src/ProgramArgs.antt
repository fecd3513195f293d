-- ===== src/ProgramArgs.antt =====
-- src/sim/include/sim/program_args.hpp. A C string or std::string is the list of its bytes, without
-- the terminating zero.
pub mod Layout
use riscv_sim.Prelude.{ℕ, ◌+◌, ◌-◌, List, [], ◌∷◌, ◌++◌, length, drop}
use riscv_sim.Outcome.{Outcome, ok, in_bounds, ◌>>=◌}
use riscv_sim.Word.{u32}
use riscv_sim.Memory.Bytes.{write_bytes}

abbrev pub CString : Type 0
CString = List ℕ

pub record ProgramArgs : Type 0 where
  pub argc : ℕ
  pub argv : List CString

-- The constructor, from the whole of main's argv; main has checked that it has two entries.
unfoldable pub program_args : List CString → ProgramArgs
program_args argv = record { argc = length argv - 1; argv = drop 1 argv }

-- The loop of SizeOfArgv.
unfoldable pub size_from : ℕ → List CString → ℕ
size_from size [] = size
size_from size (str ∷ argv) = size_from (u32 (size + (length str + 1))) argv

unfoldable pub size_of_argv : ProgramArgs → ℕ
size_of_argv args = size_from 0 args.argv

-- The loop of CopyArgv over the strings that are left: the filled buffer and the offsets.
unfoldable pub copy_from : List ℕ → ℕ → List CString → Outcome (List ℕ × List ℕ)
copy_from buf copy_offset [] = ok (buf, [])
copy_from buf copy_offset (str ∷ argv) =
    in_bounds (write_bytes (str ++ 0 ∷ []) buf copy_offset) >>= λ buf'.
    copy_from buf' (copy_offset + (length str + 1)) argv >>= λ (done, segm_offset).
    ok (done, u32 copy_offset ∷ segm_offset)

unfoldable pub copy_argv : ProgramArgs → List ℕ → Outcome (List ℕ × List ℕ)
copy_argv args copy_to = copy_from copy_to 0 args.argv
