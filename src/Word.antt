-- ===== src/Word.antt =====
-- src/isa/include/isa/isa_hlp.hpp: the helpers on fixed-width words, and the C++ operators on
-- uint32_t that the rest of the program uses. A word is a number below 2 ^ width. An int32_t is
-- kept as its bit pattern; `reg_to_ireg` is the integer that the pattern stands for.
pub mod Digits
pub mod Shift
use riscv_sim.Prelude.{ℕ, zero, suc, ◌+◌, ◌-◌, ◌*◌, ◌/◌, ◌%◌, ◌^◌, Bool, true, false, not}
use riscv_sim.Prelude.{bit_and, bit_or, bit_xor, ltb, leb, ◌==◌, if◌then◌else◌}
use riscv_sim.Prelude.{ℤ, pos, negsuc, pos_part, neg_part}

-- The conversion to uint32_t, `~x`, and `x << k`, `x >> k` for k < 32.
abbrev pub u32 : ℕ → ℕ
u32 n = n % 2 ^ 32

abbrev pub bit_not : ℕ → ℕ
bit_not x = 2 ^ 32 - 1 - x

infixl 75 ◌<<<◌ ◌>>>◌
abbrev pub ◌<<<◌ : ℕ → ℕ → ℕ
x <<< k = (x * 2 ^ k) % 2 ^ 32

abbrev pub ◌>>>◌ : ℕ → ℕ → ℕ
x >>> k = x / 2 ^ k

-- Sums and differences of uint32_t wrap around.
abbrev pub add32 : ℕ → ℕ → ℕ
add32 a b = (a + b) % 2 ^ 32

abbrev pub sub32 : ℕ → ℕ → ℕ
sub32 a b = (a + 2 ^ 32 - b) % 2 ^ 32

-- The integer that a bit pattern stands for, and the pattern of an integer.
unfoldable pub reg_to_ireg : ℕ → ℤ
reg_to_ireg w = if ltb w (2 ^ 31) then pos w else negsuc (2 ^ 32 - w - 1)

unfoldable pub ireg_to_reg : ℤ → ℕ
ireg_to_reg (pos n) = n % 2 ^ 32
ireg_to_reg (negsuc n) = 2 ^ 32 - 1 - n % 2 ^ 32

unfoldable pub is_bit_set : ℕ → ℕ → Bool
is_bit_set val index = let one_hot = 1 <<< index in bit_and val one_hot == one_hot

-- `trunc_high to_bits x` saves the low bits, `trunc_low from_bits to_bits x` the high ones.
unfoldable pub trunc_high : ℕ → ℕ → ℕ
trunc_high to_bits x = let mask = 2 ^ to_bits - 1 in bit_and x mask

unfoldable pub trunc_low : ℕ → ℕ → ℕ → ℕ
trunc_low from_bits to_bits x =
    let mask = 2 ^ to_bits - 1 in let shifted = x >>> (from_bits - to_bits) in bit_and shifted mask

unfoldable pub get_byte : ℕ → ℕ → ℕ
unfolding trunc_high
get_byte val index = let shift = index * 8 in trunc_high 8 (val >>> shift)

-- `~uint8_t{0}` is the int -1, so `(~uint8_t{0}) << shift` is -(2 ^ shift), and its complement is
-- the mask of the `shift` low bits. `byte_val << shift` is an int, converted to uint32_t by `|`.
unfoldable pub set_byte : ℕ → ℕ → ℕ → ℕ
set_byte val byte_val index =
    let shift = index * 8 in
    let clear_byte_mask = 2 ^ shift - 1 in
    let byte_mask = byte_val <<< shift in bit_or (bit_and val clear_byte_mask) byte_mask

-- `sign_ext from_bits x` into 32 bits; the code's other target, 64 bits, is `sign_ext_to 64`.
unfoldable pub sign_ext_to : ℕ → ℕ → ℕ → ℕ
sign_ext_to to_bits from_bits x =
    let value_mask = 2 ^ from_bits - 1 in
    let sign_bit = 2 ^ (from_bits - 1) in
    let extend_mask = 2 ^ to_bits - 1 - value_mask in
    let v = bit_and x value_mask in if bit_and v sign_bit == 0 then v else bit_or v extend_mask

-- `ArithmRightShift` of src/isa/source/ext_i_cb.cpp.
unfoldable pub arithm_right_shift : ℕ → ℕ → ℕ
unfolding is_bit_set
arithm_right_shift x shift =
    let all_ones = 2 ^ 32 - 1 in
    let logical = x >>> shift in
    let fill_mask = all_ones <<< (32 - shift) in
    if shift == 0
    then x
    else if leb 32 shift
    then (if is_bit_set x 31 then all_ones else 0)
    else (if not (is_bit_set x 31) then logical else bit_or logical fill_mask)

-- WRegister and WIRegister: the same with 64 bits.
unfoldable pub wreg_to_wireg : ℕ → ℤ
wreg_to_wireg w = if ltb w (2 ^ 63) then pos w else negsuc (2 ^ 64 - w - 1)

unfoldable pub wireg_to_wreg : ℤ → ℕ
wireg_to_wreg (pos n) = n % 2 ^ 64
wireg_to_wreg (negsuc n) = 2 ^ 64 - 1 - n % 2 ^ 64
