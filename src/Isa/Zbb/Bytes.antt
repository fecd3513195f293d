-- ===== src/Isa/Zbb/Bytes.antt =====
-- REV8 and ORC_B on the four bytes of a word.
use riscv_sim.Prelude.{
  ℕ, zero, suc, ◌+◌, ◌-◌, ◌*◌, ◌/◌, ◌%◌, ◌^◌, ◌<◌, ◌≡◌, refl, ◌∙◌, arith, ◌==◌, Bool-cases,
  if◌then◌else◌, inl, inr,
}
use riscv_sim.Word.{get_byte, set_byte}
use riscv_sim.Word.Digits.{get_byte_lem, set_byte_lem}
use riscv_sim.Isa.Zbb.Words.{rev8_from, rev8, orc_b_from, orc_b}

set_next :
    (val byte i : ℕ)
    → i < 4
    → byte < 256
    → val < 2 ^ (i * 8)
    → set_byte val byte i ≡ val + byte * 2 ^ (i * 8)
set_next val byte zero hi hb hv = ground (arith, set_byte_lem val byte 0)
set_next val byte (suc zero) hi hb hv = ground (arith, set_byte_lem val byte 1)
set_next val byte (suc (suc zero)) hi hb hv = ground (arith, set_byte_lem val byte 2)
set_next val byte (suc (suc (suc zero))) hi hb hv = ground (arith, set_byte_lem val byte 3)
set_next val byte (suc (suc (suc (suc i)))) hi hb hv = absurd (omega arith)

-- Four bytes, lowest first.
abbrev pub word : ℕ → ℕ → ℕ → ℕ → ℕ
word b0 b1 b2 b3 = b0 + b1 * 2 ^ 8 + b2 * 2 ^ 16 + b3 * 2 ^ 24

set_all :
    (b0 b1 b2 b3 : ℕ)
    → b0 < 256
    → b1 < 256
    → b2 < 256
    → b3 < 256
    → set_byte (set_byte (set_byte (set_byte 0 b0 0) b1 1) b2 2) b3 3 ≡ word b0 b1 b2 b3
set_all b0 b1 b2 b3 h0 h1 h2 h3 = rw (set_next 0 b0 0 (omega arith) h0 (omega arith)) (
    rw (set_next (0 + b0 * 2 ^ (0 * 8)) b1 1 (omega arith) h1 (omega arith)) (
      rw (set_next (0 + b0 * 2 ^ (0 * 8) + b1 * 2 ^ (1 * 8)) b2 2 (omega arith) h2 (omega arith)) (
        omega (
          arith,
          set_next (0 + b0 * 2 ^ (0 * 8) + b1 * 2 ^ (1 * 8) + b2 * 2 ^ (2 * 8)) b3 3 (omega arith)
              h3 (omega arith),
        ))))

pub rev8-word :
    (x : ℕ) → rev8 x ≡ word (x / 2 ^ 24 % 256) (x / 2 ^ 16 % 256) (x / 2 ^ 8 % 256) (x % 256)
unfolding rev8 rev8_from
rev8-word x =
    rw (get_byte_lem x 3, get_byte_lem x 2, get_byte_lem x 1, get_byte_lem x 0)
      (set_all (x / 2 ^ 24 % 256) (x / 2 ^ 16 % 256) (x / 2 ^ 8 % 256) (x / 2 ^ 0 % 256)
          (omega arith) (omega arith) (omega arith) (omega arith)
        ∙ omega arith)

-- REV8 of a 32-bit word has its four bytes in reverse order, and undoes itself.
pub rev8-rev8 :
    (x : ℕ)
    → x < 2 ^ 32
    → (rev8 (rev8 x) ≡ x) × ((i : ℕ) → i < 4 → get_byte (rev8 x) i ≡ get_byte x (3 - i))
rev8-rev8 x lt = (omega (arith, rev8-word x, rev8-word (rev8 x)), bytes)
  where
    bytes : (i : ℕ) → i < 4 → get_byte (rev8 x) i ≡ get_byte x (3 - i)
    bytes zero h = omega (arith, rev8-word x, get_byte_lem (rev8 x) 0, get_byte_lem x 3)
    bytes (suc zero) h = omega (arith, rev8-word x, get_byte_lem (rev8 x) 1, get_byte_lem x 2)
    bytes (suc (suc zero)) h = omega (arith, rev8-word x, get_byte_lem (rev8 x) 2, get_byte_lem x 1)
    bytes (suc (suc (suc zero))) h =
        omega (arith, rev8-word x, get_byte_lem (rev8 x) 3, get_byte_lem x 0)
    bytes (suc (suc (suc (suc i)))) h = absurd (omega arith)

-- The bytes of a word that is made of four.
get_byte-word :
    (f : ℕ → ℕ)
    → ((i : ℕ) → f i < 256)
    → (i : ℕ) → i < 4
    → get_byte (word (f 0) (f 1) (f 2) (f 3)) i ≡ f i
get_byte-word f h zero lt =
    omega (arith, get_byte_lem (word (f 0) (f 1) (f 2) (f 3)) 0, h 0, h 1, h 2, h 3)
get_byte-word f h (suc zero) lt =
    omega (arith, get_byte_lem (word (f 0) (f 1) (f 2) (f 3)) 1, h 0, h 1, h 2, h 3)
get_byte-word f h (suc (suc zero)) lt =
    omega (arith, get_byte_lem (word (f 0) (f 1) (f 2) (f 3)) 2, h 0, h 1, h 2, h 3)
get_byte-word f h (suc (suc (suc zero))) lt =
    omega (arith, get_byte_lem (word (f 0) (f 1) (f 2) (f 3)) 3, h 0, h 1, h 2, h 3)
get_byte-word f h (suc (suc (suc (suc i)))) lt = absurd (omega arith)

-- What ORC_B makes of byte i.
abbrev pub filled : ℕ → ℕ → ℕ
filled x i = if get_byte x i == 0 then 0 else 255

filled-lt : (x i : ℕ) → filled x i < 256
filled-lt x i = ground arith

set_filled :
    (x val i : ℕ)
    → (if get_byte x i == 0 then set_byte val 0 i else set_byte val 255 i)
      ≡ set_byte val (filled x i) i
set_filled x val i = elim (Bool-cases (get_byte x i == 0)) [ inl e ↦ rw e refl | inr e ↦ rw e refl ]

pub orc_b-word : (x : ℕ) → orc_b x ≡ word (filled x 0) (filled x 1) (filled x 2) (filled x 3)
unfolding orc_b orc_b_from
orc_b-word x =
    rw (set_filled x 0 0, set_filled x _ 1, set_filled x _ 2, set_filled x _ 3)
      (set_all (filled x 0) (filled x 1) (filled x 2) (filled x 3) (filled-lt x 0) (filled-lt x 1)
        (filled-lt x 2) (filled-lt x 3))

-- Each of the four bytes of ORC_B is 0 where the operand's byte is 0, and 255 elsewhere.
pub orc_b-get_byte :
    (x i : ℕ) → i < 4 → get_byte (orc_b x) i ≡ (if get_byte x i == 0 then 0 else 255)
orc_b-get_byte x i h = rw (orc_b-word x) (get_byte-word (filled x) (filled-lt x) i h)
