-- ===== src/Machine/State.antt =====
-- The members of RVSim, and beside them the process-wide state that its code uses: SoftFloat's two
-- globals and the system calls made so far. Code on that state is a state monad with faults.
use riscv_sim.Prelude.{ℕ, Bool, List}
use riscv_sim.Outcome.{Outcome, ok, fault, Fault}
use riscv_sim.Memory.{Memory}
use riscv_sim.Host.{SysCall}

pub record Machine : Type 0 where
  pub memory : Memory
  pub ip : ℕ
  pub should_stop : Bool
  pub xregs : List ℕ
  pub fregs : List ℕ
  pub fcsr : ℕ
  -- softfloat_roundingMode, softfloat_exceptionFlags
  pub rounding_mode : ℕ
  pub exception_flags : ℕ
  -- the latest call first
  pub syscalls : List SysCall

abbrev pub M : Type 0 → Type 0
M A = Machine → Outcome (A × Machine)

abbrev pub pure : {A : Type 0} → A → M A
pure a s = ok (a, s)

abbrev pub fail : {A : Type 0} → Fault → M A
fail e s = fault e

infixl 5 ◌>>=◌ ◌>>◌
abbrev pub ◌>>=◌ : {A B : Type 0} → M A → (A → M B) → M B
◌>>=◌ m f s = elim (m s) [ fault e ↦ fault e | ok (a, s') ↦ f a s' ]

abbrev pub ◌>>◌ : {B : Type 0} → M (Unit {0}) → M B → M B
m >> k = m >>= λ _. k

-- An operation on the memory alone: one that reads it, and one that changes it.
abbrev pub reading : {A : Type 0} → (Memory → Outcome A) → M A
reading f s = elim (f s.memory) [ fault e ↦ fault e | ok a ↦ ok (a, s) ]

abbrev pub writing : (Memory → Outcome Memory) → M (Unit {0})
writing f s = elim (f s.memory) [ fault e ↦ fault e | ok mem ↦ ok (tt, record s { memory = mem }) ]
