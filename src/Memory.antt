-- ===== src/Memory.antt =====
-- src/sim/include/sim/{memory,memory_segm}.hpp and src/sim/source/memory.cpp: guest memory as a
-- vector of segments. `asserts` says whether the build keeps asserts (no NDEBUG).
pub mod Bytes
pub mod ByteLaws
pub mod Access
pub mod Widths
pub mod Bytewise
pub mod LittleEndian
pub mod Unmapped
pub mod RoundTrip
use riscv_sim.Prelude.{
  ℕ, zero, suc, ◌+◌, ◌-◌, ◌%◌, ◌^◌, Bool, ◌&&◌, List, [], ◌∷◌, ◌++◌, Option, none, some,
}
use riscv_sim.Prelude.{ltb, leb, if◌then◌else◌}
use riscv_sim.Outcome.{Outcome, ok, fault, assert_false, in_bounds, ◌>>=◌}
use riscv_sim.Word.{u32}
use Bytes.{read_bytes, write_bytes, from_bytes, to_bytes}

pub record MemorySegm : Type 0 where
  pub start_addr : ℕ
  pub end_addr : ℕ
  pub bytes : List ℕ
  pub r_permission : Bool
  pub w_permission : Bool
  pub x_permission : Bool

abbrev pub Memory : Type 0
Memory = List MemorySegm

-- The segment is [start, end).
unfoldable pub is_addr_in_segment : ℕ → MemorySegm → Bool
is_addr_in_segment addr segm = leb segm.start_addr addr && ltb addr segm.end_addr

-- One body for LoadU32, LoadU16 and LoadU8, which differ in the size of the memcpy alone.
unfoldable pub load_sized : ℕ → Bool → Memory → ℕ → Outcome ℕ
load_sized size asserts [] addr = assert_false asserts 0
load_sized size asserts (segm ∷ rest) addr =
    if is_addr_in_segment addr segm
    then (let offset = addr - segm.start_addr in
        in_bounds (read_bytes size (segm.bytes) offset) >>= λ bs. ok (from_bytes bs))
    else load_sized size asserts rest addr

unfoldable pub load_u32 : Bool → Memory → ℕ → Outcome ℕ
load_u32 = load_sized 4

unfoldable pub load_u16 : Bool → Memory → ℕ → Outcome ℕ
load_u16 = load_sized 2

unfoldable pub load_u8 : Bool → Memory → ℕ → Outcome ℕ
load_u8 = load_sized 1

unfoldable pub fetch : Bool → Memory → ℕ → Outcome ℕ
unfolding load_u32
fetch = load_u32

-- One body for StoreU32, StoreU16 and StoreU8.
unfoldable pub store_sized : ℕ → Bool → Memory → ℕ → ℕ → Outcome Memory
store_sized size asserts [] addr val = assert_false asserts []
store_sized size asserts (segm ∷ rest) addr val =
    if is_addr_in_segment addr segm
    then (let offset = addr - segm.start_addr in
        in_bounds (write_bytes (to_bytes size val) (segm.bytes) offset) >>= λ bs.
        ok (record segm { bytes = bs } ∷ rest))
    else (store_sized size asserts rest addr val >>= λ rest'. ok (segm ∷ rest'))

unfoldable pub store_u32 : Bool → Memory → ℕ → ℕ → Outcome Memory
store_u32 = store_sized 4

unfoldable pub store_u16 : Bool → Memory → ℕ → ℕ → Outcome Memory
store_u16 = store_sized 2

unfoldable pub store_u8 : Bool → Memory → ℕ → ℕ → Outcome Memory
store_u8 = store_sized 1

-- The loop of CopyGuestToHost with `size` rounds left, at index `i`; the buffer that it fills.
unfoldable pub copy_guest_from : Bool → Memory → ℕ → ℕ → ℕ → Outcome (List ℕ)
copy_guest_from asserts mem from_addr zero i = ok []
copy_guest_from asserts mem from_addr (suc size) i =
    load_u8 asserts mem (u32 (from_addr + i)) >>= λ b.
    copy_guest_from asserts mem from_addr size (i + 1) >>= λ rest. ok (b ∷ rest)

unfoldable pub copy_guest_to_host : Bool → Memory → ℕ → ℕ → Outcome (List ℕ)
copy_guest_to_host asserts mem from_addr size = copy_guest_from asserts mem from_addr size 0

-- The loop of CopyHostToGuest over the bytes from index `i` on.
unfoldable pub copy_host_from : Bool → Memory → ℕ → ℕ → List ℕ → Outcome Memory
copy_host_from asserts mem to_addr i [] = ok mem
copy_host_from asserts mem to_addr i (b ∷ from_buf) =
    store_u8 asserts mem (u32 (to_addr + i)) b >>= λ mem'.
    copy_host_from asserts mem' to_addr (i + 1) from_buf

unfoldable pub copy_host_to_guest : Bool → Memory → ℕ → List ℕ → Outcome Memory
copy_host_to_guest asserts mem to_addr from_buf = copy_host_from asserts mem to_addr 0 from_buf

unfoldable pub add_segment : Memory → MemorySegm → Memory
add_segment mem segm = mem ++ segm ∷ []
