-- ===== src/Tests/Storage.antt =====
-- Loads, stores and copies on a small memory.
use riscv_sim.Prelude.{
  ℕ, ◌*◌, ◌/◌, ◌%◌, ◌^◌, ◌+◌, ◌<◌, ◌≤◌, ◌≡◌, refl, arith, inr, true, false, [], ◌∷◌,
}
use riscv_sim.Outcome.{ok, assert_false}
use riscv_sim.Memory.{
  Memory, load_sized, store_sized, load_u8, load_u16, load_u32, store_u32, copy_guest_to_host,
  copy_host_to_guest, copy_host_from, store_u8, is_addr_in_segment,
}
use riscv_sim.Memory.Bytes.{write_bytes, write_front, to_bytes}
use riscv_sim.Memory.Access.{is_mapped, load_sized-store_sized_other}
use riscv_sim.Memory.Unmapped.{load_store-unmapped}
use riscv_sim.Memory.RoundTrip.{MappedRange, copy_guest_to_host-copy_host_to_guest}
use riscv_sim.Memory.Widths.{HasBytes}
use riscv_sim.Memory.Bytewise.{Within, held, load_u32-load_u8}
use riscv_sim.Memory.LittleEndian.{load_u8-store_u32}
use riscv_sim.Tests.Fixture.{test_memory, exit_program}

-- The bytes after a store of 4 bytes at 18.
abbrev stored_memory : Memory
stored_memory =
    record exit_program { bytes = 0x93 ∷ 0x08 ∷ 0x78 ∷ 0x56 ∷ 0x34 ∷ 0x12 ∷ 0x00 ∷ 0x00 ∷ [] } ∷ []

stored : store_sized 4 true test_memory 18 0x1234_5678 ≡ ok stored_memory
unfolding store_sized is_addr_in_segment write_bytes write_front to_bytes
stored = refl

mapped : (at : ℕ) → 16 ≤ at → at < 24 → is_mapped test_memory at ≡ true
unfolding is_mapped is_addr_in_segment
mapped at lo hi = ground arith

unmapped : is_mapped test_memory 40 ≡ false
unfolding is_mapped is_addr_in_segment
unmapped = refl

stored_u32 : store_u32 true test_memory 18 0x1234_5678 ≡ ok stored_memory
unfolding store_u32
stored_u32 = stored

held_word : Within 18 4 test_memory
held_word = held (omega arith) (omega arith) (omega arith)

test_memory-HasBytes : HasBytes test_memory
test_memory-HasBytes = ground arith

load_u32-load_u8_example :
    (b0 : ℕ) × (b1 : ℕ) × (b2 : ℕ) × (b3 : ℕ) × (load_u8 true test_memory 18 ≡ ok b0)
    × (load_u8 true test_memory (18 + 1) ≡ ok b1)
    × (load_u8 true test_memory (18 + 2) ≡ ok b2)
    × (load_u8 true test_memory (18 + 3) ≡ ok b3)
    × (load_u16 true test_memory 18 ≡ ok (b0 + 256 * b1))
    × (load_u16 true test_memory (18 + 2) ≡ ok (b2 + 256 * b3))
    × (load_u32 true test_memory 18 ≡ ok (b0 + 2 ^ 8 * b1 + 2 ^ 16 * b2 + 2 ^ 24 * b3))
load_u32-load_u8_example = load_u32-load_u8 true test_memory 18 held_word

load_u8-store_u32_example :
    (load_u8 true stored_memory 18 ≡ ok (0x1234_5678 % 2 ^ 8))
    × (load_u8 true stored_memory (18 + 1) ≡ ok (0x1234_5678 / 2 ^ 8 % 2 ^ 8))
    × (load_u8 true stored_memory (18 + 2) ≡ ok (0x1234_5678 / 2 ^ 16 % 2 ^ 8))
    × (load_u8 true stored_memory (18 + 3) ≡ ok (0x1234_5678 / 2 ^ 24))
load_u8-store_u32_example =
    load_u8-store_u32 true test_memory 18 0x1234_5678 held_word test_memory-HasBytes (omega arith)
      stored_u32

load_sized-store_sized_other_example :
    load_sized 2 true stored_memory 22 ≡ load_sized 2 true test_memory 22
load_sized-store_sized_other_example =
    load_sized-store_sized_other 4 true test_memory 18 0x1234_5678 stored 2 22 (inr (omega arith))

load_store-unmapped_example :
    (load_sized 4 true test_memory 40 ≡ assert_false true 0)
    × (store_sized 4 true test_memory 40 7 ≡ assert_false true test_memory)
load_store-unmapped_example = load_store-unmapped 4 true test_memory 40 7 unmapped

abbrev copied_memory : Memory
copied_memory =
    record exit_program { bytes = 0x93 ∷ 0x08 ∷ 0xd0 ∷ 0x68 ∷ 0x69 ∷ 0x00 ∷ 0x00 ∷ 0x00 ∷ [] } ∷ []

copied : copy_host_to_guest true test_memory 19 (0x68 ∷ 0x69 ∷ []) ≡ ok copied_memory
unfolding copy_host_to_guest copy_host_from store_u8 store_sized is_addr_in_segment write_bytes
    write_front to_bytes
copied = refl

mapped_range : MappedRange test_memory 19 2
mapped_range j lt = mapped (19 + j) (omega arith) (omega arith)

copy_guest_to_host-copy_host_to_guest_example :
    copy_guest_to_host true copied_memory 19 2 ≡ ok (0x68 ∷ 0x69 ∷ [])
copy_guest_to_host-copy_host_to_guest_example =
    copy_guest_to_host-copy_host_to_guest true test_memory 19 (0x68 ∷ 0x69 ∷ []) copied
      (omega arith) mapped_range (omega arith, (omega arith, tt))
