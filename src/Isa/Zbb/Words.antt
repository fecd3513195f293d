-- ===== src/Isa/Zbb/Words.antt =====
-- What the callbacks of src/isa/source/ext_zbb_cb.cpp compute from their operands.
use riscv_sim.Prelude.{ℕ, zero, suc, ◌+◌, ◌-◌, ◌%◌, ◌^◌, bit_or, ltb, ◌==◌, if◌then◌else◌}
use riscv_sim.Prelude.{ℤ, pos, negsuc, ltb_ℤ}
use riscv_sim.Outcome.{Outcome, ok, ◌>>=◌}
use riscv_sim.Word.{reg_to_ireg, wireg_to_wreg, is_bit_set, get_byte, set_byte}
use riscv_sim.Isa.Shapes.{shift_left, shift_right}

unfoldable pub min_s : ℕ → ℕ → ℕ
min_s rs1 rs2 = if ltb_ℤ (reg_to_ireg rs1) (reg_to_ireg rs2) then rs1 else rs2

unfoldable pub min_u : ℕ → ℕ → ℕ
min_u rs1 rs2 = if ltb rs1 rs2 then rs1 else rs2

unfoldable pub max_s : ℕ → ℕ → ℕ
max_s rs1 rs2 = if ltb_ℤ (reg_to_ireg rs1) (reg_to_ireg rs2) then rs2 else rs1

unfoldable pub max_u : ℕ → ℕ → ℕ
max_u rs1 rs2 = if ltb rs1 rs2 then rs2 else rs1

-- The loop `for (i = n - 1; i >= 0; i--)` of CLZ; -1 is the value before the loop.
unfoldable pub highest_set : ℕ → ℕ → ℤ
highest_set rs zero = negsuc 0
highest_set rs (suc i) = if is_bit_set rs i then pos i else highest_set rs i

-- `(kXlen - 1) - highest_set` is done in size_t, and cut to 32 bits.
unfoldable pub zeros_above : ℤ → ℕ
unfolding wireg_to_wreg
zeros_above highest = (31 + 2 ^ 64 - wireg_to_wreg highest) % 2 ^ 64 % 2 ^ 32

unfoldable pub clz : ℕ → ℕ
clz rs = zeros_above (highest_set rs 32)

-- The loop of CTZ from index i, with `left` rounds left; kXlen is the value before the loop.
unfoldable pub lowest_set : ℕ → ℕ → ℕ → ℕ
lowest_set rs zero i = 32
lowest_set rs (suc left) i = if is_bit_set rs i then i else lowest_set rs left (i + 1)

unfoldable pub ctz : ℕ → ℕ
ctz rs = lowest_set rs 32 0

-- The loop of CPOP.
unfoldable pub bcount_from : ℕ → ℕ → ℕ → ℕ → ℕ
bcount_from rs zero i bcount = bcount
bcount_from rs (suc left) i bcount =
    bcount_from rs left (i + 1) (if is_bit_set rs i then bcount + 1 else bcount)

unfoldable pub cpop : ℕ → ℕ
cpop rs = bcount_from rs 32 0 0

-- `(rs1 << shamt) | (rs1 >> (kXlen - shamt))`; shamt = 0 shifts right by 32.
unfoldable pub rotate_left : ℕ → ℕ → Outcome ℕ
rotate_left rs1 shamt =
    shift_left rs1 shamt >>= λ high. shift_right rs1 (32 - shamt) >>= λ low. ok (bit_or high low)

-- `(rs1 >> shamt) | (rs1 << (kXlen - shamt))`.
unfoldable pub rotate_right : ℕ → ℕ → Outcome ℕ
rotate_right rs1 shamt =
    shift_right rs1 shamt >>= λ low. shift_left rs1 (32 - shamt) >>= λ high. ok (bit_or low high)

-- The loop of REV8; j is not read once it has gone below 0.
unfoldable pub rev8_from : ℕ → ℕ → ℕ → ℕ → ℕ → ℕ
rev8_from rs zero i j val = val
rev8_from rs (suc left) i j val = rev8_from rs left (i + 1) (j - 1) (set_byte val (get_byte rs j) i)

unfoldable pub rev8 : ℕ → ℕ
rev8 rs = rev8_from rs 4 0 3 0

-- The loop of ORC_B.
unfoldable pub orc_b_from : ℕ → ℕ → ℕ → ℕ → ℕ
orc_b_from rs zero i val = val
orc_b_from rs (suc left) i val =
    orc_b_from rs left (i + 1) (if get_byte rs i == 0 then set_byte val 0 i else set_byte val 255 i)

unfoldable pub orc_b : ℕ → ℕ
orc_b rs = orc_b_from rs 4 0 0
