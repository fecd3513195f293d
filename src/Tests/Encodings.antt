-- ===== src/Tests/Encodings.antt =====
-- One instruction of each format, fetched and carried out.
use riscv_sim.Prelude.{
  ℕ, ◌+◌, ◌-◌, ◌*◌, ◌/◌, ◌%◌, ◌^◌, ◌<◌, ◌≤◌, ◌≡◌, refl, arith, List, [], ◌∷◌, if◌then◌else◌, ltb,
}
use riscv_sim.Outcome.{ok}
use riscv_sim.Word.{reg_to_ireg}
use riscv_sim.Word.Shift.{filled_shift}
use riscv_sim.Zeros.{zeros}
use riscv_sim.Mnemonic.{InsnMnemonic}
use riscv_sim.Insn.RoundTrip.{Fits}
use riscv_sim.Memory.{fetch, load_u32, load_sized, is_addr_in_segment, store_u32}
use riscv_sim.Memory.Bytes.{read_bytes, read_front, from_bytes}
use riscv_sim.Decode.Table.{InsnEntry, entry, insn_decode_table, ext_i, ext_m, ext_zbb, ext_zicsr}
use riscv_sim.Decode.Unique.{IsRow}
use riscv_sim.Machine.{csr_frm}
use riscv_sim.Machine.Csr.{frm_field}
use riscv_sim.Machine.State.{Machine}
use riscv_sim.Machine.Registers.{HasRegisters, x_reg, write_reg, advance}
use riscv_sim.Isa.Effects.{retire}
use riscv_sim.Isa.LoadStore.Effects.{after_store}
use riscv_sim.Isa.Zbb.Zeros.{leading_zeros}
use riscv_sim.Execute.{execute_insn}
use riscv_sim.Execute.Immediate.{acts_addi, execute_insn-encoded_i}
use riscv_sim.Execute.Transfer.{
  stores_sw, branches_bltu, execute_insn-encoded_s, execute_insn-encoded_b,
}
use riscv_sim.Execute.Upper.{uppers_auipc, execute_insn-encoded_u, execute_insn-encoded_j}
use riscv_sim.Execute.Csr.{acts_csrrw, execute_insn-encoded_csr}
use riscv_sim.Execute.Unary.{
  maps_clz, shifts_srai, execute_insn-encoded_unary, execute_insn-encoded_shift,
}
use riscv_sim.Tests.Fixture.{test_host, test_machine, exit_program}

-- The machine of the fixture, with four bytes of program.
abbrev pub holding : List ℕ → Machine
holding bytes = record test_machine { memory = record exit_program { bytes = bytes } ∷ [] }

pub holding-HasRegisters : (bytes : List ℕ) → HasRegisters (holding bytes)
unfolding zeros
holding-HasRegisters bytes = record { x_length = refl; f_length = refl }

abbrev minus_four : ℕ
minus_four = 2 ^ 32 - 4

minus_four-Fits : (n : ℕ) → n < 31 → 4 ≤ 2 ^ n → Fits n minus_four
unfolding reg_to_ireg
minus_four-Fits n hi wide = ground arith

-- ADDI x1, x3, -4.
abbrev pub addi_row : InsnEntry
addi_row = entry InsnMnemonic.addi 0x0000_707f 0x0000_0013

pub addi_row-IsRow : IsRow addi_row insn_decode_table
unfolding insn_decode_table ext_i
addi_row-IsRow = search (IsRow.here, IsRow.there) depth 90 fits 5000

abbrev addi_machine : Machine
addi_machine = holding (0x93 ∷ 0x80 ∷ 0xc1 ∷ 0xff ∷ [])

addi_fetched :
    fetch test_host.asserts addi_machine.memory addi_machine.ip
    ≡ ok (0x13 + minus_four % 2 ^ 12 * 2 ^ 20 + 3 * 2 ^ 15 + 1 * 2 ^ 7)
unfolding fetch load_u32 load_sized is_addr_in_segment read_bytes read_front from_bytes
addi_fetched = refl

execute_insn-encoded_i_example :
    execute_insn test_host addi_machine
    ≡ retire addi_machine 1 (ok ((x_reg addi_machine 3 + minus_four) % 2 ^ 32))
execute_insn-encoded_i_example =
    execute_insn-encoded_i test_host addi_machine (holding-HasRegisters _) addi_row minus_four 3 1
      addi_row-IsRow refl acts_addi (minus_four-Fits 11 (omega arith) (omega arith)) (omega arith)
      (omega arith) addi_fetched

-- SW x3, 4(x2).
abbrev sw_row : InsnEntry
sw_row = entry InsnMnemonic.sw 0x0000_707f 0x0000_2023

sw_row-IsRow : IsRow sw_row insn_decode_table
unfolding insn_decode_table ext_i
sw_row-IsRow = search (IsRow.here, IsRow.there) depth 90 fits 5000

abbrev sw_machine : Machine
sw_machine = holding (0x23 ∷ 0x22 ∷ 0x31 ∷ 0x00 ∷ [])

sw_fetched :
    fetch test_host.asserts sw_machine.memory sw_machine.ip
    ≡ ok (0x2023 + 4 / 32 % 128 * 2 ^ 25 + 3 * 2 ^ 20 + 2 * 2 ^ 15 + 4 % 32 * 2 ^ 7)
unfolding fetch load_u32 load_sized is_addr_in_segment read_bytes read_front from_bytes
sw_fetched = refl

four-Fits : Fits 11 4
unfolding reg_to_ireg
four-Fits = ground arith

execute_insn-encoded_s_example :
    execute_insn test_host sw_machine
    ≡ after_store sw_machine (
        store_u32 test_host.asserts sw_machine.memory
          ((x_reg sw_machine 2 + 4) % 2 ^ 32)
          (x_reg sw_machine 3))
execute_insn-encoded_s_example =
    execute_insn-encoded_s test_host sw_machine (holding-HasRegisters _) sw_row 4 3 2 sw_row-IsRow
      refl stores_sw four-Fits (omega arith) (omega arith) sw_fetched

-- BLTU x1, x2, 8.
abbrev bltu_row : InsnEntry
bltu_row = entry InsnMnemonic.bltu 0x0000_707f 0x0000_6063

bltu_row-IsRow : IsRow bltu_row insn_decode_table
unfolding insn_decode_table ext_i
bltu_row-IsRow = search (IsRow.here, IsRow.there) depth 90 fits 5000

abbrev bltu_machine : Machine
bltu_machine = holding (0x63 ∷ 0xe4 ∷ 0x20 ∷ 0x00 ∷ [])

bltu_fetched :
    fetch test_host.asserts bltu_machine.memory bltu_machine.ip
    ≡ ok (
        0x6063
        + 8 / 2 ^ 12 % 2 * 2 ^ 31
        + 8 / 32 % 64 * 2 ^ 25
        + 2 * 2 ^ 20
        + 1 * 2 ^ 15
        + 8 / 2 % 16 * 2 ^ 8
        + 8 / 2 ^ 11 % 2 * 2 ^ 7)
unfolding fetch load_u32 load_sized is_addr_in_segment read_bytes read_front from_bytes
bltu_fetched = refl

eight-Fits : Fits 12 8
unfolding reg_to_ireg
eight-Fits = ground arith

execute_insn-encoded_b_example :
    execute_insn test_host bltu_machine
    ≡ ok (
      tt,
      if ltb (x_reg bltu_machine 1) (x_reg bltu_machine 2)
          then record bltu_machine { ip = (bltu_machine.ip + 8) % 2 ^ 32 }
          else advance bltu_machine,
    )
execute_insn-encoded_b_example =
    execute_insn-encoded_b test_host bltu_machine (holding-HasRegisters _) bltu_row 8 2 1
      bltu_row-IsRow refl branches_bltu eight-Fits refl (omega arith) (omega arith) bltu_fetched

-- AUIPC x5, 1.
abbrev auipc_row : InsnEntry
auipc_row = entry InsnMnemonic.auipc 0x0000_007f 0x0000_0017

auipc_row-IsRow : IsRow auipc_row insn_decode_table
unfolding insn_decode_table ext_i
auipc_row-IsRow = search (IsRow.here, IsRow.there) depth 90 fits 5000

abbrev auipc_machine : Machine
auipc_machine = holding (0x97 ∷ 0x12 ∷ 0x00 ∷ 0x00 ∷ [])

auipc_fetched :
    fetch test_host.asserts auipc_machine.memory auipc_machine.ip
    ≡ ok (0x17 + 1 * 2 ^ 12 + 5 * 2 ^ 7)
unfolding fetch load_u32 load_sized is_addr_in_segment read_bytes read_front from_bytes
auipc_fetched = refl

execute_insn-encoded_u_example :
    execute_insn test_host auipc_machine
    ≡ ok (tt, advance (write_reg auipc_machine 5 ((auipc_machine.ip + 1 * 2 ^ 12) % 2 ^ 32)))
execute_insn-encoded_u_example =
    execute_insn-encoded_u test_host auipc_machine (holding-HasRegisters _) auipc_row 1 5
      auipc_row-IsRow refl uppers_auipc (omega arith) (omega arith) auipc_fetched

-- JAL x1, -4.
abbrev jal_row : InsnEntry
jal_row = entry InsnMnemonic.jal 0x0000_007f 0x0000_006f

jal_row-IsRow : IsRow jal_row insn_decode_table
unfolding insn_decode_table ext_i
jal_row-IsRow = search (IsRow.here, IsRow.there) depth 90 fits 5000

abbrev jal_machine : Machine
jal_machine = holding (0xef ∷ 0xf0 ∷ 0xdf ∷ 0xff ∷ [])

jal_fetched :
    fetch test_host.asserts jal_machine.memory jal_machine.ip
    ≡ ok (
        0x6f
        + minus_four / 2 ^ 20 % 2 * 2 ^ 31
        + minus_four / 2 % 1024 * 2 ^ 21
        + minus_four / 2 ^ 11 % 2 * 2 ^ 20
        + minus_four / 2 ^ 12 % 256 * 2 ^ 12
        + 1 * 2 ^ 7)
unfolding fetch load_u32 load_sized is_addr_in_segment read_bytes read_front from_bytes
jal_fetched = refl

execute_insn-encoded_j_example :
    execute_insn test_host jal_machine
    ≡ ok (
      tt,
      record (write_reg jal_machine 1 ((jal_machine.ip + 4) % 2 ^ 32)) {
        ip = (jal_machine.ip + minus_four) % 2 ^ 32;
      },
    )
execute_insn-encoded_j_example =
    execute_insn-encoded_j test_host jal_machine (holding-HasRegisters _) jal_row minus_four 1
      jal_row-IsRow refl refl (minus_four-Fits 20 (omega arith) (omega arith)) refl (omega arith)
      jal_fetched

-- CSRRW x1, frm, x2.
abbrev csrrw_row : InsnEntry
csrrw_row = entry InsnMnemonic.csrrw 0x0000_707f 0x0000_1073

csrrw_row-IsRow : IsRow csrrw_row insn_decode_table
unfolding insn_decode_table ext_i ext_m ext_zbb ext_zicsr
csrrw_row-IsRow = search (IsRow.here, IsRow.there) depth 90 fits 5000

abbrev csrrw_machine : Machine
csrrw_machine = holding (0xf3 ∷ 0x10 ∷ 0x21 ∷ 0x00 ∷ [])

csrrw_fetched :
    fetch test_host.asserts csrrw_machine.memory csrrw_machine.ip
    ≡ ok (0x1073 + csr_frm * 2 ^ 20 + 2 * 2 ^ 15 + 1 * 2 ^ 7)
unfolding fetch load_u32 load_sized is_addr_in_segment read_bytes read_front from_bytes
csrrw_fetched = refl

execute_insn-encoded_csr_example :
    let old = csrrw_machine.fcsr / 2 ^ 5 % 2 ^ 3 in
    (fcsr' : ℕ) × (execute_insn test_host csrrw_machine
      ≡ ok (tt, advance (write_reg (record csrrw_machine { fcsr = fcsr' }) 1 old)))
    × (fcsr' < 256)
    × (fcsr' / 2 ^ 5 % 2 ^ 3 ≡ x_reg csrrw_machine 2 % 2 ^ 3)
    × (fcsr' % 2 ^ 5 ≡ csrrw_machine.fcsr % 2 ^ 5)
    × (fcsr' / 2 ^ (5 + 3) ≡ csrrw_machine.fcsr / 2 ^ (5 + 3))
execute_insn-encoded_csr_example =
    execute_insn-encoded_csr test_host csrrw_machine (holding-HasRegisters _) csrrw_row 2 1
      csrrw_row-IsRow refl acts_csrrw frm_field (omega arith) (omega arith) (omega arith)
      csrrw_fetched

-- CLZ x1, x3.
abbrev clz_row : InsnEntry
clz_row = entry InsnMnemonic.clz 0xfff0_707f 0x6000_1013

clz_row-IsRow : IsRow clz_row insn_decode_table
unfolding insn_decode_table ext_i ext_m ext_zbb
clz_row-IsRow = search (IsRow.here, IsRow.there) depth 90 fits 5000

abbrev clz_machine : Machine
clz_machine = holding (0x93 ∷ 0x90 ∷ 0x01 ∷ 0x60 ∷ [])

clz_fetched :
    fetch test_host.asserts clz_machine.memory clz_machine.ip
    ≡ ok (0x6000_1013 + 3 * 2 ^ 15 + 1 * 2 ^ 7)
unfolding fetch load_u32 load_sized is_addr_in_segment read_bytes read_front from_bytes
clz_fetched = refl

execute_insn-encoded_unary_example :
    execute_insn test_host clz_machine
    ≡ retire clz_machine 1 (ok (leading_zeros 32 (x_reg clz_machine 3)))
execute_insn-encoded_unary_example =
    execute_insn-encoded_unary test_host clz_machine (holding-HasRegisters _) clz_row 3 1
      clz_row-IsRow refl maps_clz (omega arith) (omega arith) clz_fetched

-- SRAI x1, x3, 4.
abbrev srai_row : InsnEntry
srai_row = entry InsnMnemonic.srai 0xfe00_707f 0x4000_5013

srai_row-IsRow : IsRow srai_row insn_decode_table
unfolding insn_decode_table ext_i
srai_row-IsRow = search (IsRow.here, IsRow.there) depth 90 fits 5000

abbrev srai_machine : Machine
srai_machine = holding (0x93 ∷ 0xd0 ∷ 0x41 ∷ 0x40 ∷ [])

srai_fetched :
    fetch test_host.asserts srai_machine.memory srai_machine.ip
    ≡ ok (0x4000_5013 + 4 * 2 ^ 20 + 3 * 2 ^ 15 + 1 * 2 ^ 7)
unfolding fetch load_u32 load_sized is_addr_in_segment read_bytes read_front from_bytes
srai_fetched = refl

execute_insn-encoded_shift_example :
    execute_insn test_host srai_machine
    ≡ retire srai_machine 1 (ok (filled_shift (x_reg srai_machine 3) 4))
execute_insn-encoded_shift_example =
    execute_insn-encoded_shift test_host srai_machine (holding-HasRegisters _) srai_row 4 3 1
      srai_row-IsRow refl shifts_srai (omega arith) (omega arith) (omega arith) srai_fetched
