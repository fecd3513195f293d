-- ===== src/Tests/Words.antt =====
-- The computations on words, on concrete operands.
use riscv_sim.Prelude.{
  ℕ, ◌+◌, ◌-◌, ◌*◌, ◌/◌, ◌%◌, ◌^◌, ◌<◌, ◌≡◌, refl, arith, ◌⊎◌, if◌then◌else◌, ltb,
}
use riscv_sim.Prelude.{◌≤◌, pos, negsuc, ◌+ℤ◌, ◌*ℤ◌, ◌/ℤ◌, magnitude}
use riscv_sim.Outcome.{ok, fault, undefined}
use riscv_sim.Word.{
  trunc_low, wireg_to_wreg, wreg_to_wireg, sign_ext_to, reg_to_ireg, arithm_right_shift, get_byte,
}
use riscv_sim.Word.Shift.{floor_shift, arithm_right_shift_floor}
use riscv_sim.Isa.MulDiv.{
  mul, mulh, mulhsu, mulhu, mul_wireg, high_half, div_ireg, rem_ireg, div, rem,
}
use riscv_sim.Isa.MulDiv.High.{mulhsu-signed, mulh-eq-mulhu}
use riscv_sim.Isa.MulDiv.Laws.{div-rem, mul-mulhu}
use riscv_sim.Isa.Zbb.Words.{clz, cpop, rotate_left, rotate_right, rev8}
use riscv_sim.Isa.Zbb.Counts.{CountsLeading, clz-CountsLeading, ones, cpop_lem}
use riscv_sim.Isa.Zbb.Bytes.{rev8-rev8}
use riscv_sim.Isa.Zbb.Rotate.{rotate_right-rotate_left}
use riscv_sim.Isa.Float.Shapes.{fsgnj, fsgnjn, fsgnjx}
use riscv_sim.Isa.Float.Laws.{fsgnj_lem}

-- -7 divided by 2.
div-rem_example :
    (q : ℕ) × (r : ℕ) × (div 0xffff_fff9 2 ≡ ok q)
    × (rem 0xffff_fff9 2 ≡ ok r)
    × (((◌≡◌ {A = ℕ} 2 0) × (q ≡ 2 ^ 32 - 1) × (r ≡ 0xffff_fff9))
        ⊎ ((◌≡◌ {A = ℕ} 0xffff_fff9 (2 ^ 31))
            × (◌≡◌ {A = ℕ} 2 (2 ^ 32 - 1))
            × (q ≡ 2 ^ 31)
            × (r ≡ 0))
        ⊎ ((reg_to_ireg q *ℤ reg_to_ireg 2 +ℤ reg_to_ireg r ≡ reg_to_ireg 0xffff_fff9)
            × (reg_to_ireg q ≡ reg_to_ireg 0xffff_fff9 /ℤ reg_to_ireg 2)
            × (magnitude (reg_to_ireg r) < magnitude (reg_to_ireg 2))))
div-rem_example = div-rem 0xffff_fff9 2 (omega arith) (omega arith)

div_of_minus_7 : (div 0xffff_fff9 2 ≡ ok 0xffff_fffd) × (rem 0xffff_fff9 2 ≡ ok 0xffff_ffff)
unfolding div rem div_ireg rem_ireg
div_of_minus_7 = (refl, refl)

-- The operators of int32_t leave -2^31 by -1 undefined; DIV and REM do not use them there.
least_by_minus_1 :
    (div_ireg (negsuc (2 ^ 31 - 1)) (negsuc 0) ≡ fault undefined)
    × (div 0x8000_0000 0xffff_ffff ≡ ok 0x8000_0000)
    × (rem_ireg (negsuc (2 ^ 31 - 1)) (negsuc 0) ≡ fault undefined)
    × (rem 0x8000_0000 0xffff_ffff ≡ ok 0)
unfolding div rem div_ireg rem_ireg
least_by_minus_1 = (refl, refl, refl, refl)

-- MULH and MULHSU of -1 and 0x80000000, where the instructions give 0 and 0xffffffff.
mulh_of_minus_1 :
    (mulh 0xffff_ffff 0x8000_0000 ≡ ok 0x7fff_ffff) × (mulhsu 0xffff_ffff 0x8000_0000 ≡ ok 0)
unfolding mulh mulhsu mul_wireg high_half ◌*ℤ◌ trunc_low wireg_to_wreg wreg_to_wireg sign_ext_to
    reg_to_ireg
mulh_of_minus_1 = (refl, refl)

mul-mulhu_example :
    (hi : ℕ) × (lo : ℕ) × (mulhu 0xffff_ffff 3 ≡ ok hi)
    × (mul 0xffff_ffff 3 ≡ ok lo)
    × (hi * 2 ^ 32 + lo ≡ 0xffff_ffff * 3)
    × (lo < 2 ^ 32)
mul-mulhu_example = mul-mulhu 0xffff_ffff 3 (omega arith) (omega arith)

mulhsu-signed_example :
    (hi : ℕ) × (lo : ℕ) × (mulhsu 0xffff_ffff 0x8000_0000 ≡ ok hi)
    × (lo < 2 ^ 32)
    × (((0x8000_0000 < 2 ^ 31)
          × (reg_to_ireg hi *ℤ pos (2 ^ 32) +ℤ pos lo ≡ reg_to_ireg 0xffff_ffff *ℤ pos 0x8000_0000))
        ⊎ ((2 ^ 31 ≤ 0x8000_0000)
            × (reg_to_ireg hi *ℤ pos (2 ^ 32) +ℤ pos lo
                ≡ reg_to_ireg 0xffff_ffff *ℤ negsuc (2 ^ 32 - 1 - 0x8000_0000))))
mulhsu-signed_example = mulhsu-signed 0xffff_ffff 0x8000_0000 (omega arith) (omega arith)

mulh-eq-mulhu_example :
    ((0xffff_ffff < 2 ^ 31)
      × (3 < 2 ^ 31)
      × (hi : ℕ) × (lo : ℕ) × (mulh 0xffff_ffff 3 ≡ ok hi)
      × (lo < 2 ^ 32)
      × (reg_to_ireg hi *ℤ pos (2 ^ 32) +ℤ pos lo ≡ reg_to_ireg 0xffff_ffff *ℤ reg_to_ireg 3))
    ⊎ (((2 ^ 31 ≤ 0xffff_ffff) ⊎ (2 ^ 31 ≤ 3))
        × (mulh 0xffff_ffff 3
            ≡ (if ltb (0xffff_ffff * 3) (2 ^ 63) then mulhu 0xffff_ffff 3 else fault undefined)))
mulh-eq-mulhu_example = mulh-eq-mulhu 0xffff_ffff 3 (omega arith) (omega arith)

arithm_right_shift_floor_example :
    reg_to_ireg (arithm_right_shift 0xffff_fff9 1) ≡ floor_shift (reg_to_ireg 0xffff_fff9) 1
arithm_right_shift_floor_example =
    arithm_right_shift_floor 0xffff_fff9 1 (omega arith) (omega arith)

clz-CountsLeading_example : CountsLeading 40 (clz 40)
clz-CountsLeading_example = clz-CountsLeading 40 (omega arith)

cpop_lem_example : cpop 40 ≡ ones 32 40
cpop_lem_example = cpop_lem 40

rotate_right-rotate_left_example :
    (y : ℕ) × (rotate_left 0x8000_0001 4 ≡ ok y)
    × (y < 2 ^ 32)
    × (rotate_right y 4 ≡ ok 0x8000_0001)
rotate_right-rotate_left_example =
    rotate_right-rotate_left 0x8000_0001 4 (omega arith) (omega arith) (omega arith)

rev8-rev8_example :
    (rev8 (rev8 0x1234_5678) ≡ 0x1234_5678)
    × ((i : ℕ) → i < 4 → get_byte (rev8 0x1234_5678) i ≡ get_byte 0x1234_5678 (3 - i))
rev8-rev8_example = rev8-rev8 0x1234_5678 (omega arith)

-- 1.0 and -0.0.
fsgnj_lem_example :
    (fsgnj 0x3f80_0000 0x8000_0000 ≡ 0x8000_0000 / 2 ^ 31 * 2 ^ 31 + 0x3f80_0000 % 2 ^ 31)
    × (fsgnjn 0x3f80_0000 0x8000_0000 ≡ (1 - 0x8000_0000 / 2 ^ 31) * 2 ^ 31 + 0x3f80_0000 % 2 ^ 31)
    × (fsgnjx 0x3f80_0000 0x8000_0000
        ≡ (0x3f80_0000 / 2 ^ 31 + 0x8000_0000 / 2 ^ 31) % 2 * 2 ^ 31 + 0x3f80_0000 % 2 ^ 31)
fsgnj_lem_example = fsgnj_lem 0x3f80_0000 0x8000_0000 (omega arith) (omega arith)
