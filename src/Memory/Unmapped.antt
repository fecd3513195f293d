-- ===== src/Memory/Unmapped.antt =====
-- Accesses to addresses that no segment holds.
use riscv_sim.Prelude.{ℕ, ◌≡◌, refl, arith, inl, inr, Bool, false, Bool-cases, [], ◌∷◌}
use riscv_sim.Outcome.{assert_false}
use riscv_sim.Memory.{Memory, is_addr_in_segment, load_sized, store_sized}
use riscv_sim.Memory.Access.{is_mapped}

-- A load or store of any width at an address that no segment holds fails its assert; where asserts
-- are off the load gives 0 and the store leaves the memory as it was.
pub load_store-unmapped :
    (size : ℕ) (asserts : Bool) (mem : Memory) (addr val : ℕ)
    → is_mapped mem addr ≡ false
    → (load_sized size asserts mem addr ≡ assert_false asserts 0)
      × (store_sized size asserts mem addr val ≡ assert_false asserts mem)
unfolding load_sized store_sized is_mapped
load_store-unmapped size asserts [] addr val h = (refl, refl)
load_store-unmapped size asserts (segm ∷ rest) addr val h =
    let miss : is_addr_in_segment addr segm ≡ false = ground arith in
    let (loaded, stored) = load_store-unmapped size asserts rest addr val (ground arith) in
    (
      rw miss loaded,
      rw (miss, stored)
          (elim (Bool-cases asserts) [ inl kept ↦ rw kept refl | inr off ↦ rw off refl ]),
    )
