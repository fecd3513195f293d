-- ===== src/Memory/LittleEndian.antt =====
-- The bytes of a stored word.
use riscv_sim.Prelude.{ℕ, ◌+◌, ◌-◌, ◌*◌, ◌/◌, ◌%◌, ◌^◌, ◌<◌, ◌≡◌, ap, sym, ◌∙◌, arith, Bool, true}
use riscv_sim.Outcome.{ok}
use riscv_sim.Memory.{Memory, is_addr_in_segment, load_u8, store_u32}
use riscv_sim.Memory.Bytes.{to_bytes}
use riscv_sim.Memory.ByteLaws.{length-write_bytes}
use riscv_sim.Memory.Access.{
  Stored, nowhere, wrote, passed as passed_over, store_sized-Stored, is_mapped,
}
use riscv_sim.Memory.RoundTrip.{load_u32-store_u32}
use riscv_sim.Memory.Widths.{HasBytes, load_sized-lt, store_sized-HasBytes}
use riscv_sim.Memory.Bytewise.{Within, held, passed, load_u32-load_u8}

Within-Stored :
    {size at val addr n : ℕ} {mem mem' : Memory}
    → Stored size at val mem mem'
    → Within addr n mem
    → Within addr n mem'
unfolding is_addr_in_segment
Within-Stored nowhere w = elim w [ ]
Within-Stored {size} {at} {val} (wrote {segm} out hit w) (held lo hi room) =
    held lo hi
      (omega (arith, length-write_bytes (to_bytes size val) segm.bytes (at - segm.start_addr) w))
Within-Stored (wrote {segm} out hit w) (passed miss wi) =
    passed {segm = record segm { bytes = out }} (λ i lt. miss i lt) wi
Within-Stored (passed_over miss' st) (held lo hi room) = held lo hi room
Within-Stored (passed_over miss' st) (passed miss wi) = passed miss (Within-Stored st wi)

Within-is_mapped :
    {addr n : ℕ} {mem : Memory} → 0 < n → Within addr n mem → is_mapped mem addr ≡ true
unfolding is_mapped is_addr_in_segment
Within-is_mapped pos (held lo hi room) = ground arith
Within-is_mapped pos (passed miss w) = ground (arith, Within-is_mapped pos w)

ok_injective : {a b : ℕ} → ok a ≡ ok b → a ≡ b
ok_injective e = cc

-- In a memory of bytes where one segment holds the four bytes from an address on and no earlier
-- segment holds any of them: after a successful store of a 32-bit value there, the loads of the
-- four bytes give its digits to the base 256, the lowest first.
pub load_u8-store_u32 :
    (asserts : Bool) (mem : Memory) (addr v : ℕ) {mem' : Memory}
    → Within addr 4 mem
    → HasBytes mem
    → v < 2 ^ 32
    → store_u32 asserts mem addr v ≡ ok mem'
    → (load_u8 asserts mem' addr ≡ ok (v % 2 ^ 8))
      × (load_u8 asserts mem' (addr + 1) ≡ ok (v / 2 ^ 8 % 2 ^ 8))
      × (load_u8 asserts mem' (addr + 2) ≡ ok (v / 2 ^ 16 % 2 ^ 8))
      × (load_u8 asserts mem' (addr + 3) ≡ ok (v / 2 ^ 24))
unfolding store_u32 load_u8
load_u8-store_u32 asserts mem addr v {mem'} w bytes lt e =
    let bytes' = store_sized-HasBytes 4 asserts mem addr v bytes e in
    let (b0, b1, b2, b3, l0, l1, l2, l3, _, _, word) =
      load_u32-load_u8 asserts mem' addr
        (Within-Stored (store_sized-Stored 4 asserts mem addr v e) w) in
    let lt0 = load_sized-lt 1 asserts mem' addr bytes' l0 in
    let lt1 = load_sized-lt 1 asserts mem' (addr + 1) bytes' l1 in
    let lt2 = load_sized-lt 1 asserts mem' (addr + 2) bytes' l2 in
    let lt3 = load_sized-lt 1 asserts mem' (addr + 3) bytes' l3 in
    let whole : b0 + 2 ^ 8 * b1 + 2 ^ 16 * b2 + 2 ^ 24 * b3 ≡ v =
      ok_injective (
        sym word ∙ load_u32-store_u32 asserts mem addr v (Within-is_mapped (omega arith) w) lt e) in
    (
      l0 ∙ ap ok (omega arith),
      l1 ∙ ap ok (omega arith),
      l2 ∙ ap ok (omega arith),
      l3 ∙ ap ok (omega arith),
    )
