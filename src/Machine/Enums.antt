-- ===== src/Machine/Enums.antt =====
-- The enumerations of src/isa/include/isa/isa_defs.hpp. hlp::FromEnum is the enumerator's number.
use riscv_sim.Prelude.{ℕ}

-- The names of the registers; fp and s0 are one register.
pub data XRegAlias : Type 0 where
  zero ra sp gp tp t0 t1 t2 fp s0 s1 a0 a1 a2 a3 a4 a5 a6 a7 s2 s3 s4 s5 s6 s7 s8 s9 s10 s11 t3 t4
        t5 t6 :
      XRegAlias

abbrev pub x_number : XRegAlias → ℕ
x_number XRegAlias.zero = 0
x_number XRegAlias.ra = 1
x_number XRegAlias.sp = 2
x_number XRegAlias.gp = 3
x_number XRegAlias.tp = 4
x_number XRegAlias.t0 = 5
x_number XRegAlias.t1 = 6
x_number XRegAlias.t2 = 7
x_number XRegAlias.fp = 8
x_number XRegAlias.s0 = 8
x_number XRegAlias.s1 = 9
x_number XRegAlias.a0 = 10
x_number XRegAlias.a1 = 11
x_number XRegAlias.a2 = 12
x_number XRegAlias.a3 = 13
x_number XRegAlias.a4 = 14
x_number XRegAlias.a5 = 15
x_number XRegAlias.a6 = 16
x_number XRegAlias.a7 = 17
x_number XRegAlias.s2 = 18
x_number XRegAlias.s3 = 19
x_number XRegAlias.s4 = 20
x_number XRegAlias.s5 = 21
x_number XRegAlias.s6 = 22
x_number XRegAlias.s7 = 23
x_number XRegAlias.s8 = 24
x_number XRegAlias.s9 = 25
x_number XRegAlias.s10 = 26
x_number XRegAlias.s11 = 27
x_number XRegAlias.t3 = 28
x_number XRegAlias.t4 = 29
x_number XRegAlias.t5 = 30
x_number XRegAlias.t6 = 31

-- The names of the float registers.
data FRegAlias : Type 0 where
  ft0 ft1 ft2 ft3 ft4 ft5 ft6 ft7 fs0 fs1 fa0 fa1 fa2 fa3 fa4 fa5 fa6 fa7 fs2 fs3 fs4 fs5 fs6 fs7
        fs8 fs9 fs10 fs11 ft8 ft9 ft10 ft11 :
      FRegAlias

abbrev f_number : FRegAlias → ℕ
f_number FRegAlias.ft0 = 0
f_number FRegAlias.ft1 = 1
f_number FRegAlias.ft2 = 2
f_number FRegAlias.ft3 = 3
f_number FRegAlias.ft4 = 4
f_number FRegAlias.ft5 = 5
f_number FRegAlias.ft6 = 6
f_number FRegAlias.ft7 = 7
f_number FRegAlias.fs0 = 8
f_number FRegAlias.fs1 = 9
f_number FRegAlias.fa0 = 10
f_number FRegAlias.fa1 = 11
f_number FRegAlias.fa2 = 12
f_number FRegAlias.fa3 = 13
f_number FRegAlias.fa4 = 14
f_number FRegAlias.fa5 = 15
f_number FRegAlias.fa6 = 16
f_number FRegAlias.fa7 = 17
f_number FRegAlias.fs2 = 18
f_number FRegAlias.fs3 = 19
f_number FRegAlias.fs4 = 20
f_number FRegAlias.fs5 = 21
f_number FRegAlias.fs6 = 22
f_number FRegAlias.fs7 = 23
f_number FRegAlias.fs8 = 24
f_number FRegAlias.fs9 = 25
f_number FRegAlias.fs10 = 26
f_number FRegAlias.fs11 = 27
f_number FRegAlias.ft8 = 28
f_number FRegAlias.ft9 = 29
f_number FRegAlias.ft10 = 30
f_number FRegAlias.ft11 = 31

-- The rounding modes of an instruction.
pub data RoundingMode : Type 0 where
  rne rtz rdn rup rmm dyn : RoundingMode

abbrev pub mode_number : RoundingMode → ℕ
mode_number RoundingMode.rne = 0
mode_number RoundingMode.rtz = 1
mode_number RoundingMode.rdn = 2
mode_number RoundingMode.rup = 3
mode_number RoundingMode.rmm = 4
mode_number RoundingMode.dyn = 7

-- The control and status registers.
pub data CsrIndex : Type 0 where
  fflags frm fcsr : CsrIndex

abbrev pub csr_number : CsrIndex → ℕ
csr_number CsrIndex.fflags = 1
csr_number CsrIndex.frm = 2
csr_number CsrIndex.fcsr = 3
