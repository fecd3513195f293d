-- ===== src/Host.antt =====
-- What the simulator calls and does not implement: Berkeley SoftFloat (third_party/CMakeLists.txt
-- fetches it), the system calls read and write, and the build's choice of NDEBUG.
use riscv_sim.Prelude.{ℕ, Bool, List, Option, ℤ}

-- What the simulated program asked of the operating system. `none` is a failed call.
pub data SysCall : Type 0 where
  sys_read : ℤ → ℕ → Option (List ℕ) → SysCall
  sys_write : ℤ → List ℕ → Option ℕ → SysCall

-- A SoftFloat routine returns its result and the exception flags that it raises, which the library
-- adds to the global `softfloat_exceptionFlags`. The first argument of those that round is the
-- global `softfloat_roundingMode`. A float32_t is its 32 bits.
pub record Host : Type 0 where
  -- asserts are kept, i.e. NDEBUG is not defined
  pub asserts : Bool
  -- the values of the enumerators of softfloat.h
  pub round_near_even : ℕ
  pub round_min_mag : ℕ
  pub round_min : ℕ
  pub round_max : ℕ
  pub round_near_max_mag : ℕ
  -- what the two globals of SoftFloat hold when the program starts
  pub initial_rounding_mode : ℕ
  pub initial_exception_flags : ℕ
  pub f32_add : ℕ → ℕ → ℕ → ℕ × ℕ
  pub f32_sub : ℕ → ℕ → ℕ → ℕ × ℕ
  pub f32_mul : ℕ → ℕ → ℕ → ℕ × ℕ
  pub f32_div : ℕ → ℕ → ℕ → ℕ × ℕ
  pub f32_sqrt : ℕ → ℕ → ℕ × ℕ
  pub f32_mul_add : ℕ → ℕ → ℕ → ℕ → ℕ × ℕ
  pub f32_le : ℕ → ℕ → Bool × ℕ
  pub f32_lt : ℕ → ℕ → Bool × ℕ
  pub f32_eq : ℕ → ℕ → Bool × ℕ
  -- value, rounding mode, exact
  pub f32_to_i32 : ℕ → ℕ → Bool → ℕ × ℕ
  pub f32_to_ui32 : ℕ → ℕ → Bool → ℕ × ℕ
  pub i32_to_f32 : ℕ → ℕ → ℕ × ℕ
  pub ui32_to_f32 : ℕ → ℕ → ℕ × ℕ
  pub f32_is_signaling_nan : ℕ → Bool
  -- the answers of read(fd, buf, size) and write(fd, buf, size), given the calls made before
  pub read : List SysCall → ℤ → ℕ → Option (List ℕ)
  pub write : List SysCall → ℤ → List ℕ → Option ℕ
