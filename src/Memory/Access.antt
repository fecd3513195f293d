-- ===== src/Memory/Access.antt =====
-- Loads after stores, segment by segment.
use riscv_sim.Prelude.{ℕ, ◌+◌, ◌-◌, ◌≤◌, ◌≡◌, refl, arith, ◌⊎◌, inl, inr}
use riscv_sim.Prelude.{Bool, true, false, ◌||◌, List, [], ◌∷◌, Option, none, some, Bool-cases}
use riscv_sim.Outcome.{ok, >>=-eq-ok, in_bounds}
use riscv_sim.Memory.{MemorySegm, Memory, is_addr_in_segment, load_sized, store_sized}
use riscv_sim.Memory.Bytes.{from_bytes, to_bytes, read_bytes, write_bytes}
use riscv_sim.Memory.ByteLaws.{
  length-to_bytes, read_bytes-write_bytes_self, read_bytes-write_bytes_before,
  read_bytes-write_bytes_after,
}

-- Some segment holds the address.
unfoldable pub is_mapped : Memory → ℕ → Bool
is_mapped [] addr = false
is_mapped (segm ∷ rest) addr = is_addr_in_segment addr segm || is_mapped rest addr

in_bounds-eq-ok : (o : Option (List ℕ)) {a : List ℕ} → in_bounds o ≡ ok a → o ≡ some a
in_bounds-eq-ok none h = ground arith
in_bounds-eq-ok (some x) h = ground arith

-- What a successful store did: it wrote into the first segment that holds the address, or passed
-- over one that does not, or (with asserts off) found none.
pub data Stored (size : ℕ) (addr val : ℕ) : Memory → Memory → Type 0 where
  nowhere : Stored size addr val [] []
  wrote :
      {segm : MemorySegm} {rest : Memory} (out : List ℕ)
      → is_addr_in_segment addr segm ≡ true
      → write_bytes (to_bytes size val) segm.bytes (addr - segm.start_addr) ≡ some out
      → Stored size addr val (segm ∷ rest) (record segm { bytes = out } ∷ rest)
  passed :
      {segm : MemorySegm} {rest rest' : Memory}
      → is_addr_in_segment addr segm ≡ false
      → Stored size addr val rest rest'
      → Stored size addr val (segm ∷ rest) (segm ∷ rest')

pub store_sized-Stored :
    (size : ℕ) (asserts : Bool) (mem : Memory) (addr val : ℕ) {mem' : Memory}
    → store_sized size asserts mem addr val ≡ ok mem'
    → Stored size addr val mem mem'
unfolding store_sized
store_sized-Stored size true [] addr val h = ground arith
store_sized-Stored size false [] addr val {mem'} h =
    let e : [] ≡ mem' = ground arith in rw (← e) nowhere
store_sized-Stored size asserts (segm ∷ rest) addr val {mem'} h =
    elim (Bool-cases (is_addr_in_segment addr segm)) [
      | inl hit ↦
          let (out, p, q) = >>=-eq-ok _ _ (rw hit at h) in
          let e : record segm { bytes = out } ∷ rest ≡ mem' = ground arith in
          rw (← e) (wrote out hit (in_bounds-eq-ok _ p))
      | inr miss ↦
          let (rest', p, q) = >>=-eq-ok _ _ (rw miss at h) in
          let e : segm ∷ rest' ≡ mem' = ground arith in
          rw (← e) (passed miss (store_sized-Stored size asserts rest addr val p))
    ]

in_segment-start_le :
    (addr : ℕ) (segm : MemorySegm) → is_addr_in_segment addr segm ≡ true → segm.start_addr ≤ addr
unfolding is_addr_in_segment
in_segment-start_le addr segm h = ground arith

load-Stored_self :
    {size addr val : ℕ} {mem mem' : Memory} (asserts : Bool)
    → Stored size addr val mem mem'
    → is_mapped mem addr ≡ true
    → load_sized size asserts mem' addr ≡ ok (from_bytes (to_bytes size val))
unfolding load_sized is_mapped is_addr_in_segment
load-Stored_self asserts nowhere m = ground arith
load-Stored_self {size} {addr} {val} asserts (wrote {segm} out hit w) m =
    rw
      (
        hit,
        rw length-to_bytes at
            (read_bytes-write_bytes_self (to_bytes size val) segm.bytes (addr - segm.start_addr) w),
      )
      refl
load-Stored_self asserts (passed miss st) m = rw miss (load-Stored_self asserts st (rw miss at m))

read_elsewhere :
    (size addr val n at : ℕ) (segm : MemorySegm) {out : List ℕ}
    → write_bytes (to_bytes size val) segm.bytes (addr - segm.start_addr) ≡ some out
    → segm.start_addr ≤ addr
    → segm.start_addr ≤ at
    → (at + n ≤ addr) ⊎ (addr + size ≤ at)
    → read_bytes n out (at - segm.start_addr) ≡ read_bytes n segm.bytes (at - segm.start_addr)
read_elsewhere size addr val n at segm w le le' (inl before) =
    read_bytes-write_bytes_before n (to_bytes size val) segm.bytes (addr - segm.start_addr)
      (at - segm.start_addr) w (omega arith)
read_elsewhere size addr val n at segm w le le' (inr after) =
    read_bytes-write_bytes_after n (to_bytes size val) segm.bytes (addr - segm.start_addr)
      (at - segm.start_addr) w (omega (arith, length-to_bytes size val))

load-Stored_other :
    {size addr val : ℕ} {mem mem' : Memory} (n : ℕ) (asserts : Bool) (at : ℕ)
    → Stored size addr val mem mem'
    → (at + n ≤ addr) ⊎ (addr + size ≤ at)
    → load_sized n asserts mem' at ≡ load_sized n asserts mem at
unfolding load_sized is_addr_in_segment
load-Stored_other n asserts at nowhere d = refl
load-Stored_other {size} {addr} {val} n asserts at (wrote {segm} {rest} out hit w) d =
    elim (Bool-cases (is_addr_in_segment at segm)) [
      | inl there ↦
          rw
            (
              there,
              read_elsewhere size addr val n at segm w (in_segment-start_le addr segm hit)
                  (in_segment-start_le at segm there) d,
            )
            refl
      | inr other ↦ rw other refl
    ]
load-Stored_other n asserts at (passed miss st) d = rw (load-Stored_other n asserts at st d)

-- A store changes no segment's bounds, so the same addresses stay mapped.
is_mapped-Stored :
    {size addr val : ℕ} {mem mem' : Memory} (at : ℕ)
    → Stored size addr val mem mem'
    → is_mapped mem' at ≡ is_mapped mem at
unfolding is_mapped is_addr_in_segment
is_mapped-Stored at nowhere = refl
is_mapped-Stored at (wrote out hit w) = refl
is_mapped-Stored at (passed miss st) = rw (is_mapped-Stored at st)

module _ (size : ℕ) (asserts : Bool) (mem : Memory) (addr val : ℕ) {mem' : Memory}
    (stored : store_sized size asserts mem addr val ≡ ok mem') where
  -- A load of the same width at the address of a store reads the stored bytes.
  pub load_sized-store_sized_self :
      is_mapped mem addr ≡ true
      → load_sized size asserts mem' addr ≡ ok (from_bytes (to_bytes size val))
  load_sized-store_sized_self m =
      load-Stored_self asserts (store_sized-Stored size asserts mem addr val stored) m

  -- After a successful store, a load of any width whose bytes lie before or after the stored ones
  -- gives what it gave before.
  pub load_sized-store_sized_other :
      (n at : ℕ)
      → (at + n ≤ addr) ⊎ (addr + size ≤ at)
      → load_sized n asserts mem' at ≡ load_sized n asserts mem at
  load_sized-store_sized_other n at d =
      load-Stored_other n asserts at (store_sized-Stored size asserts mem addr val stored) d

  pub is_mapped-store_sized : (at : ℕ) → is_mapped mem' at ≡ is_mapped mem at
  is_mapped-store_sized at =
      is_mapped-Stored at (store_sized-Stored size asserts mem addr val stored)
