-- ===== src/Memory/Bytewise.antt =====
-- Loads of several bytes, and of each of them.
use riscv_sim.Prelude.{
  ℕ, zero, suc, ◌+◌, ◌-◌, ◌*◌, ◌^◌, ◌≤◌, ◌<◌, ◌≡◌, refl, ap, sym, ◌∙◌, arith, Bool, true, false,
  List, [], ◌∷◌, some, length, get_or,
}
use mathlib.Core.Option
use riscv_sim.Outcome.{ok}
use riscv_sim.Memory.{
  MemorySegm, Memory, is_addr_in_segment, load_sized, load_u32, load_u16, load_u8,
}
use riscv_sim.Memory.Bytes.{from_bytes, read_front, read_bytes}

-- One segment holds the n bytes from the address on, and no earlier one holds any of them.
pub data Within (addr n : ℕ) : Memory → Type 0 where
  held :
      {segm : MemorySegm} {rest : Memory}
      → segm.start_addr ≤ addr
      → addr + n ≤ segm.end_addr
      → segm.end_addr ≤ segm.start_addr + length segm.bytes
      → Within addr n (segm ∷ rest)
  passed :
      {segm : MemorySegm} {rest : Memory}
      → ((i : ℕ) → i < n → is_addr_in_segment (addr + i) segm ≡ false)
      → Within addr n rest
      → Within addr n (segm ∷ rest)

read_front-zero : (bytes : List ℕ) → read_front 0 bytes ≡ some []
unfolding read_front
read_front-zero bytes = refl

read_bytes-zero :
    (bytes : List ℕ) (offset : ℕ) → offset ≤ length bytes → read_bytes 0 bytes offset ≡ some []
unfolding read_bytes
read_bytes-zero bytes zero le = refl
read_bytes-zero [] (suc offset) le = absurd (omega arith)
read_bytes-zero (b ∷ bytes) (suc offset) le = read_bytes-zero bytes offset (omega arith)

read_bytes-suc :
    (n : ℕ) (bytes : List ℕ) (offset : ℕ)
    → offset < length bytes
    → read_bytes (suc n) bytes offset
      ≡ Option.map (λ r. get_or bytes offset 0 ∷ r) (read_bytes n bytes (suc offset))
unfolding read_bytes
read_bytes-suc n [] offset lt = absurd (omega arith)
read_bytes-suc n (b ∷ bytes) zero lt = refl
read_bytes-suc n (b ∷ bytes) (suc offset) lt = read_bytes-suc n bytes offset (omega arith)

-- The bytes of a vector from an offset on.
abbrev bytes_at : List ℕ → ℕ → ℕ → List ℕ
bytes_at bytes zero offset = []
bytes_at bytes (suc n) offset = get_or bytes offset 0 ∷ bytes_at bytes n (suc offset)

read_bytes_lem :
    (bytes : List ℕ) (n offset : ℕ)
    → offset + n ≤ length bytes
    → read_bytes n bytes offset ≡ some (bytes_at bytes n offset)
read_bytes_lem bytes zero offset le = read_bytes-zero bytes offset (omega arith)
read_bytes_lem bytes (suc n) offset le =
    read_bytes-suc n bytes offset (omega arith)
    ∙ ap (Option.map (λ r. get_or bytes offset 0 ∷ r))
        (read_bytes_lem bytes n (suc offset) (omega arith))

abbrev digits_of : (ℕ → ℕ) → ℕ → ℕ → List ℕ
digits_of f zero i = []
digits_of f (suc k) i = f i ∷ digits_of f k (suc i)

-- What the bytes are, as a function of the offset from the address.
unfoldable byte_of : {addr n : ℕ} {mem : Memory} → Within addr n mem → ℕ → ℕ
byte_of {addr} (held {segm} lo hi size) i = get_or segm.bytes (addr - segm.start_addr + i) 0
byte_of (passed miss w) i = byte_of w i

bytes_at-digits_of :
    (bytes : List ℕ) (base k i : ℕ)
    → bytes_at bytes k (base + i) ≡ digits_of (λ j. get_or bytes (base + j) 0) k i
bytes_at-digits_of bytes base zero i = refl
bytes_at-digits_of bytes base (suc k) i =
    let next : suc (base + i) ≡ base + suc i = omega arith in
    ap (λ r. get_or bytes (base + i) 0 ∷ r)
      (ap (bytes_at bytes k) next ∙ bytes_at-digits_of bytes base k (suc i))

-- A load within the bytes.
load_part :
    (asserts : Bool) {addr n : ℕ} {mem : Memory} (w : Within addr n mem) (k i : ℕ)
    → i + k ≤ n
    → 0 < k
    → load_sized k asserts mem (addr + i) ≡ ok (from_bytes (digits_of (byte_of w) k i))
unfolding load_sized byte_of
load_part asserts {addr} (held {segm} {rest} lo hi size) k i le pos =
    let hit : is_addr_in_segment (addr + i) segm ≡ true =
      unfold is_addr_in_segment in ground arith in
    let base = addr - segm.start_addr in
    let offset : addr + i - segm.start_addr ≡ base + i = omega arith in
    rw
      (
        hit,
        offset,
        read_bytes_lem segm.bytes k (base + i) (omega arith),
        bytes_at-digits_of segm.bytes base k i,
      )
      refl
load_part asserts (passed miss w) k i le pos =
    rw (miss i (omega arith)) (load_part asserts w k i le pos)

-- Where one segment of memory holds the four bytes from an address on and no earlier segment holds
-- any of them, the loads of the four bytes succeed, and the loads of two and of four bytes give
-- them with the lowest address in the lowest digit to the base 256.
pub load_u32-load_u8 :
    (asserts : Bool) (mem : Memory) (addr : ℕ)
    → Within addr 4 mem
    → (b0 : ℕ) × (b1 : ℕ) × (b2 : ℕ) × (b3 : ℕ) × (load_u8 asserts mem addr ≡ ok b0)
      × (load_u8 asserts mem (addr + 1) ≡ ok b1)
      × (load_u8 asserts mem (addr + 2) ≡ ok b2)
      × (load_u8 asserts mem (addr + 3) ≡ ok b3)
      × (load_u16 asserts mem addr ≡ ok (b0 + 256 * b1))
      × (load_u16 asserts mem (addr + 2) ≡ ok (b2 + 256 * b3))
      × (load_u32 asserts mem addr ≡ ok (b0 + 2 ^ 8 * b1 + 2 ^ 16 * b2 + 2 ^ 24 * b3))
unfolding load_u8 load_u16 load_u32 from_bytes
load_u32-load_u8 asserts mem addr w =
    let at : addr + 0 ≡ addr = omega arith in
    let byte = byte_of w in
    (
      byte 0,
      byte 1,
      byte 2,
      byte 3,
      ap (load_sized 1 asserts mem) (sym at)
          ∙ (load_part asserts w 1 0 (omega arith) (omega arith) ∙ ap ok (omega arith)),
      load_part asserts w 1 1 (omega arith) (omega arith) ∙ ap ok (omega arith),
      load_part asserts w 1 2 (omega arith) (omega arith) ∙ ap ok (omega arith),
      load_part asserts w 1 3 (omega arith) (omega arith) ∙ ap ok (omega arith),
      ap (load_sized 2 asserts mem) (sym at)
          ∙ (load_part asserts w 2 0 (omega arith) (omega arith) ∙ ap ok (omega arith)),
      load_part asserts w 2 2 (omega arith) (omega arith) ∙ ap ok (omega arith),
      ap (load_sized 4 asserts mem) (sym at)
          ∙ (load_part asserts w 4 0 (omega arith) (omega arith) ∙ ap ok (omega arith)),
    )
