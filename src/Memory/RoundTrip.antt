-- ===== src/Memory/RoundTrip.antt =====
-- Loads and stores of the three widths, and the copies between guest and host.
use riscv_sim.Prelude.{ℕ, suc, ◌+◌, ◌^◌, ◌<◌, ◌≤◌, ◌≡◌, refl, ap, subst, ◌∙◌, arith, ◌⊎◌, inl}
use riscv_sim.Prelude.{Bool, true, List, [], ◌∷◌, length, All}
use riscv_sim.Outcome.{ok, >>=-eq-ok}
use riscv_sim.Word.{u32}
use riscv_sim.Memory.{
  Memory, load_u32, load_u16, load_u8, store_u32, store_u16, store_u8, copy_guest_from,
  copy_guest_to_host, copy_host_from, copy_host_to_guest,
}
use riscv_sim.Memory.ByteLaws.{from_bytes-to_bytes_1, from_bytes-to_bytes_2, from_bytes-to_bytes_4}
use riscv_sim.Memory.Access.{
  is_mapped, load_sized-store_sized_self, load_sized-store_sized_other, is_mapped-store_sized,
}

module _ (asserts : Bool) (mem : Memory) (addr val : ℕ) {mem' : Memory}
    (mapped : is_mapped mem addr ≡ true) where
  -- After a successful store of a 32-bit value at a mapped address, a load of 32 bits there gives
  -- the value.
  pub load_u32-store_u32 :
      val < 2 ^ 32 → store_u32 asserts mem addr val ≡ ok mem' → load_u32 asserts mem' addr ≡ ok val
  unfolding load_u32 store_u32
  load_u32-store_u32 lt stored =
      rw (load_sized-store_sized_self 4 asserts mem addr val stored mapped)
        (ap ok (omega (arith, from_bytes-to_bytes_4 val)))

  pub load_u16-store_u16 :
      val < 2 ^ 16 → store_u16 asserts mem addr val ≡ ok mem' → load_u16 asserts mem' addr ≡ ok val
  unfolding load_u16 store_u16
  load_u16-store_u16 lt stored =
      rw (load_sized-store_sized_self 2 asserts mem addr val stored mapped)
        (ap ok (omega (arith, from_bytes-to_bytes_2 val)))

  pub load_u8-store_u8 :
      val < 2 ^ 8 → store_u8 asserts mem addr val ≡ ok mem' → load_u8 asserts mem' addr ≡ ok val
  unfolding load_u8 store_u8
  load_u8-store_u8 lt stored =
      rw (load_sized-store_sized_self 1 asserts mem addr val stored mapped)
        (ap ok (omega (arith, from_bytes-to_bytes_1 val)))

-- Every address of [from, from + n) is mapped.
abbrev pub MappedRange : Memory → ℕ → ℕ → Type 0
MappedRange mem from n = (j : ℕ) → j < n → is_mapped mem (from + j) ≡ true

copy_host_from-other :
    (asserts : Bool) (mem : Memory) (to i : ℕ) (buf : List ℕ) (at : ℕ) {mem' : Memory}
    → copy_host_from asserts mem to i buf ≡ ok mem'
    → to + i + length buf ≤ 2 ^ 32
    → (at < to + i) ⊎ (to + i + length buf ≤ at)
    → load_u8 asserts mem' at ≡ load_u8 asserts mem at
unfolding copy_host_from load_u8 store_u8
copy_host_from-other asserts mem to i [] at {mem'} h fits d =
    let e : mem ≡ mem' = ground arith in rw e
copy_host_from-other asserts mem to i (b ∷ buf) at h fits d =
    let (mem₁, p, q) = >>=-eq-ok _ _ h in
    copy_host_from-other asserts mem₁ to (i + 1) buf at q (omega arith) (ground arith)
    ∙ load_sized-store_sized_other 1 asserts mem (u32 (to + i)) b p 1 at (ground arith)

MappedRange-head :
    (mem : Memory) (to i n : ℕ)
    → to + i + suc n ≤ 2 ^ 32
    → MappedRange mem (to + i) (suc n)
    → is_mapped mem (u32 (to + i)) ≡ true
MappedRange-head mem to i n fits mapped =
    let e : to + i + 0 ≡ u32 (to + i) = omega arith in
    subst (λ a. is_mapped mem a ≡ true) e (mapped 0 (omega arith))

MappedRange-tail :
    (asserts : Bool) (mem : Memory) (to i n b : ℕ) {mem₁ : Memory}
    → store_u8 asserts mem (u32 (to + i)) b ≡ ok mem₁
    → MappedRange mem (to + i) (suc n)
    → MappedRange mem₁ (to + (i + 1)) n
unfolding store_u8
MappedRange-tail asserts mem to i n b p mapped j lt =
    is_mapped-store_sized 1 asserts mem (u32 (to + i)) b p (to + (i + 1) + j)
    ∙ subst (λ a. is_mapped mem a ≡ true) (omega arith) (mapped (suc j) (omega arith))

first_byte_back :
    (asserts : Bool) (mem mem₁ : Memory) (to i b : ℕ) (buf : List ℕ) {mem' : Memory}
    → store_u8 asserts mem (u32 (to + i)) b ≡ ok mem₁
    → copy_host_from asserts mem₁ to (i + 1) buf ≡ ok mem'
    → to + i + suc (length buf) ≤ 2 ^ 32
    → is_mapped mem (u32 (to + i)) ≡ true
    → b < 256
    → load_u8 asserts mem' (u32 (to + i)) ≡ ok b
first_byte_back asserts mem mem₁ to i b buf p q fits mapped byte =
    copy_host_from-other asserts mem₁ to (i + 1) buf (u32 (to + i)) q (omega arith)
      (inl (omega arith))
    ∙ load_u8-store_u8 asserts mem (u32 (to + i)) b mapped byte p

copy_guest_from-copy_host_from :
    (asserts : Bool) (mem : Memory) (to i : ℕ) (buf : List ℕ) {mem' : Memory}
    → copy_host_from asserts mem to i buf ≡ ok mem'
    → to + i + length buf ≤ 2 ^ 32
    → MappedRange mem (to + i) (length buf)
    → All (λ b. b < 256) buf
    → copy_guest_from asserts mem' to (length buf) i ≡ ok buf
unfolding copy_host_from copy_guest_from
copy_guest_from-copy_host_from asserts mem to i [] h fits mapped bytes = refl
copy_guest_from-copy_host_from asserts mem to i (b ∷ buf) {mem'} h fits mapped bytes =
    let (mem₁, p, q) = >>=-eq-ok _ _ h in
    let here = MappedRange-head mem to i (length buf) fits mapped in
    let rest =
      copy_guest_from-copy_host_from asserts mem₁ to (i + 1) buf q (omega arith)
        (MappedRange-tail asserts mem to i (length buf) b p mapped) bytes.1 in
    rw (first_byte_back asserts mem mem₁ to i b buf p q fits here bytes.0, rest) refl

module _ (asserts : Bool) (mem : Memory) (to : ℕ) (buf : List ℕ) {mem' : Memory}
    (copied : copy_host_to_guest asserts mem to buf ≡ ok mem')
    (fits : to + length buf ≤ 2 ^ 32) where
  -- After a successful copy of bytes into the guest, to mapped addresses that do not wrap around, a
  -- copy of as many bytes back out of the guest gives the same bytes.
  pub copy_guest_to_host-copy_host_to_guest :
      MappedRange mem to (length buf)
      → All (λ b. b < 256) buf
      → copy_guest_to_host asserts mem' to (length buf) ≡ ok buf
  unfolding copy_host_to_guest copy_guest_to_host
  copy_guest_to_host-copy_host_to_guest mapped bytes =
      let e : to + 0 ≡ to = omega arith in
      copy_guest_from-copy_host_from asserts mem to 0 buf copied (omega arith) (rw e mapped) bytes

  -- A successful copy of bytes into the guest that does not wrap around leaves every byte outside
  -- of its range as it was.
  pub load_u8-copy_host_to_guest :
      (at : ℕ)
      → (at < to) ⊎ (to + length buf ≤ at)
      → load_u8 asserts mem' at ≡ load_u8 asserts mem at
  unfolding copy_host_to_guest
  load_u8-copy_host_to_guest at d =
      copy_host_from-other asserts mem to 0 buf at copied (omega arith) (ground arith)
