-- ===== src/Machine.antt =====
-- src/sim/include/sim/rv_sim.hpp: the state of the simulator, and the operations of RVSim on it.
pub mod State
pub mod Enums
pub mod Range
pub mod Registers
pub mod Evolution
pub mod Safety
pub mod Csr
pub mod Accessors
use riscv_sim.Prelude.{
  ℕ, ◌+◌, ◌-◌, ◌*◌, ◌/◌, ◌%◌, ◌^◌, Bool, true, false, ◌&&◌, not, List, bit_and, bit_or,
}
use riscv_sim.Prelude.{Option, none, some, ltb, ◌==◌, if◌then◌else◌, get_elem?, set}
use riscv_sim.Outcome.{ok, fault, assert_failed, undefined}
use riscv_sim.Word.{◌<<<◌, ◌>>>◌, add32, bit_not}
use riscv_sim.Host.{Host}
use Enums.{XRegAlias, RoundingMode, CsrIndex, x_number, mode_number, csr_number}
use State.{Machine, M, pure, fail, ◌>>=◌, ◌>>◌}

-- The register aliases that the code names.
abbrev pub zero_reg : ℕ
zero_reg = x_number XRegAlias.zero

abbrev pub sp : ℕ
sp = x_number XRegAlias.sp

abbrev pub gp : ℕ
gp = x_number XRegAlias.gp

abbrev pub a0 : ℕ
a0 = x_number XRegAlias.a0

abbrev pub a1 : ℕ
a1 = x_number XRegAlias.a1

abbrev pub a2 : ℕ
a2 = x_number XRegAlias.a2

abbrev pub a7 : ℕ
a7 = x_number XRegAlias.a7

-- isa::CSR.
abbrev pub csr_fflags : ℕ
csr_fflags = csr_number CsrIndex.fflags

abbrev pub csr_frm : ℕ
csr_frm = csr_number CsrIndex.frm

abbrev pub csr_fcsr : ℕ
csr_fcsr = csr_number CsrIndex.fcsr

-- An element of a std::array, whose `[]` does not check the bounds.
abbrev pub element : List ℕ → ℕ → M ℕ
element xs i s = elim (get_elem? xs i) [ none ↦ fault undefined | some v ↦ ok (v, s) ]

unfoldable pub step : M (Unit {0})
step s = ok (tt, record s { ip = add32 s.ip 4 })

unfoldable pub get_ip : M ℕ
get_ip s = ok (s.ip, s)

unfoldable pub set_ip : ℕ → M (Unit {0})
set_ip v s = ok (tt, record s { ip = v })

unfoldable pub set_should_stop : Bool → M (Unit {0})
set_should_stop b s = ok (tt, record s { should_stop = b })

-- What the cases of GetCSR and SetCSR compute from `fcsr_`; `none` is their default.
unfoldable pub csr_value : ℕ → ℕ → Option ℕ
csr_value index fcsr =
    if index == csr_fflags
    then some (bit_and fcsr 0x1f)
    else if index == csr_frm
    then some (bit_and (fcsr >>> 5) 0x7)
    else (if index == csr_fcsr then some (bit_and fcsr 0xff) else none)

unfoldable pub csr_update : ℕ → ℕ → ℕ → Option ℕ
csr_update index value fcsr =
    if index == csr_fflags
    then some (bit_or (bit_and fcsr (bit_not 0x1f)) (bit_and value 0x1f))
    else if index == csr_frm
    then some (bit_or (bit_and fcsr (bit_not (0x7 <<< 5))) (bit_and value 0x7 <<< 5))
    else (if index == csr_fcsr then some (bit_and value 0xff) else none)

module _ (h : Host) where
  -- `assert(c)`.
  unfoldable pub check : Bool → M (Unit {0})
  check c s = if h.asserts && not c then fault assert_failed else ok (tt, s)

  unfoldable pub set_xreg : ℕ → ℕ → M (Unit {0})
  set_xreg index value = do
    check (ltb index 32)
    if index == zero_reg then pure tt else (λ s.
        if ltb index 32
        then ok (tt, record s { xregs = set s.xregs index value })
        else fault undefined)

  unfoldable pub get_xreg : ℕ → M ℕ
  get_xreg index = do
    check (ltb index 32)
    if index == zero_reg then pure 0 else (λ s. element s.xregs index s)

  unfoldable pub set_freg : ℕ → ℕ → M (Unit {0})
  set_freg index value = do
    check (ltb index 32)
    λ s.
        if ltb index 32
        then ok (tt, record s { fregs = set s.fregs index value })
        else fault undefined

  unfoldable pub get_freg : ℕ → M ℕ
  get_freg index = do check (ltb index 32); λ s. element s.fregs index s

  unfoldable pub set_csr : ℕ → ℕ → M (Unit {0})
  set_csr index value s = elim (csr_update index value s.fcsr) [
    | none ↦ (if h.asserts then fault assert_failed else ok (tt, s))
    | some v ↦ ok (tt, record s { fcsr = v })
  ]

  unfoldable pub get_csr : ℕ → M ℕ
  get_csr index s = elim (csr_value index s.fcsr) [
    | none ↦ (if h.asserts then fault assert_failed else ok (0, s))
    | some v ↦ ok (v, s)
  ]

  unfoldable pub get_rm : ℕ → M ℕ
  get_rm rm = if rm == mode_number RoundingMode.dyn then get_csr csr_frm else pure rm
