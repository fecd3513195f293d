-- ===== src/Tests/Floats.antt =====
-- Fused, comparing and converting floating-point instructions on a small machine.
use riscv_sim.Prelude.{ℕ, ◌<◌, ◌≡◌, arith, true, if◌then◌else◌}
use riscv_sim.Outcome.{ok}
use riscv_sim.Insn.{rd, rs1, rs2, rs3, rm}
use riscv_sim.Machine.Registers.{x_reg, f_reg}
use riscv_sim.Isa.Float.{callback_fnmadd_s, callback_fle_s, callback_fcvt_w_s, callback_fcvt_s_w}
use riscv_sim.Isa.Float.Shapes.{f32_neg}
use riscv_sim.Isa.Float.Effects.{asked_mode, mode_value, rounded}
use riscv_sim.Isa.Float.Fused.{fuses_fnmadd, fused_lem}
use riscv_sim.Isa.Float.Compare.{integer, compares_fle, compare_lem}
use riscv_sim.Isa.Float.Convert.{floating, to_integer_w, from_integer_w, conversions_lem}
use riscv_sim.Tests.Fixture.{test_host, test_machine, test_machine-HasRegisters}

-- FNMADD.S f1, f2, f3, f0, rounding to zero.
rounds_to_zero : asked_mode test_host test_machine.fcsr (rm 0x0031_10cf) < 5
unfolding rm
rounds_to_zero = omega arith

fused_lem_example :
    let raw : ℕ = 0x0031_10cf in
    let mode = asked_mode test_host test_machine.fcsr (rm raw) in
    let p =
      test_host.f32_mul_add
        (mode_value test_host mode)
        (f_reg test_machine (rs1 raw))
        (f_reg test_machine (rs2 raw))
        (f_reg test_machine (rs3 raw)) in
    callback_fnmadd_s test_host raw test_machine
    ≡ ok (tt, rounded test_host test_machine mode (rd raw) (f32_neg p.0, p.1))
fused_lem_example =
    fused_lem test_host test_machine 0x0031_10cf test_machine-HasRegisters fuses_fnmadd
      (omega arith) rounds_to_zero

-- FLE.S x1, f2, f3.
compare_lem_example :
    let raw : ℕ = 0xa031_00d3 in
    let p = test_host.f32_le (f_reg test_machine (rs1 raw)) (f_reg test_machine (rs2 raw)) in
    callback_fle_s test_host raw test_machine
    ≡ ok (tt, integer test_machine (rd raw) (if p.0 then 1 else 0) p.1)
compare_lem_example =
    compare_lem test_host test_machine 0xa031_00d3 test_machine-HasRegisters compares_fle
      (omega arith)

-- FCVT.W.S x1, f2 and FCVT.S.W f1, x2, rounding to zero: one word is both but for its top bits.
converts_to_zero : asked_mode test_host test_machine.fcsr (rm 0xc001_10d3) < 5
unfolding rm
converts_to_zero = omega arith

conversions_lem_example :
    let raw : ℕ = 0xc001_10d3 in
    let mode = mode_value test_host (asked_mode test_host test_machine.fcsr (rm raw)) in
    let p = test_host.f32_to_i32 (f_reg test_machine (rs1 raw)) mode true in
    (callback_fcvt_w_s test_host raw test_machine
      ≡ ok (tt, integer (record test_machine { rounding_mode = mode }) (rd raw) p.0 p.1))
    × (callback_fcvt_s_w test_host raw test_machine
        ≡ ok (
          tt,
          floating test_machine
              (rd raw)
              (test_host.i32_to_f32 test_machine.rounding_mode (x_reg test_machine (rs1 raw))),
        ))
conversions_lem_example =
    conversions_lem test_host test_machine 0xc001_10d3 test_machine-HasRegisters to_integer_w
      from_integer_w (omega arith) converts_to_zero
