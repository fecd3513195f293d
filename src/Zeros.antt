-- ===== src/Zeros.antt =====
-- `std::vector<T>(n)`: n zeros.
use riscv_sim.Prelude.{ℕ, zero, suc, List, [], ◌∷◌, ◌≡◌, refl, ap, length}

-- Not the list library's `replicate`, which computes wherever it stands.
unfoldable pub zeros : ℕ → List ℕ
zeros zero = []
zeros (suc n) = 0 ∷ zeros n

pub length-zeros : (n : ℕ) → length (zeros n) ≡ n
unfolding zeros
length-zeros zero = refl
length-zeros (suc n) = ap suc (length-zeros n)
