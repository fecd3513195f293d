-- ===== src/Machine/Registers.antt =====
-- The register file as a total function: what the accessors of RVSim do within its bounds.
use riscv_sim.Prelude.{ℕ, zero, suc, ◌<◌, ◌≡◌, ◌≢◌, refl, ap, ◌∙◌, arith, inl, inr}
use riscv_sim.Prelude.{true, ◌==◌, if◌then◌else◌, lt→ltb, Bool-cases}
use riscv_sim.Prelude.{List, [], ◌∷◌, some, length, get_elem?, get_or, set, length-set}
use riscv_sim.Outcome.{ok}
use riscv_sim.Word.{add32}
use riscv_sim.Host.{Host}
use riscv_sim.Machine.State.{Machine, ◌>>=◌}
use riscv_sim.Machine.{check, get_xreg, set_xreg, get_freg, set_freg, element}

pub record HasRegisters (s : Machine) : Type 0 where
  pub x_length : length s.xregs ≡ 32
  pub f_length : length s.fregs ≡ 32

-- x0 reads as 0 whatever the array holds.
unfoldable pub x_reg : Machine → ℕ → ℕ
x_reg s i = if i == 0 then 0 else get_or s.xregs i 0

unfoldable pub write_reg : Machine → ℕ → ℕ → Machine
write_reg s i v = if i == 0 then s else record s { xregs = set s.xregs i v }

unfoldable pub f_reg : Machine → ℕ → ℕ
f_reg s i = get_or s.fregs i 0

-- The next instruction.
unfoldable pub advance : Machine → Machine
advance s = record s { ip = add32 s.ip 4 }

pub get_elem?-eq-get_or {ℓ} :
    {A : Type ℓ} (xs : List A) (i : ℕ) (d : A)
    → i < length xs
    → get_elem? xs i ≡ some (get_or xs i d)
get_elem?-eq-get_or [] i d h = absurd (omega arith)
get_elem?-eq-get_or (x ∷ xs) zero d h = refl
get_elem?-eq-get_or (x ∷ xs) (suc i) d h = get_elem?-eq-get_or xs i d (omega arith)

pub get_or-set_self {ℓ} :
    {A : Type ℓ} (xs : List A) (i : ℕ) (v d : A) → i < length xs → get_or (set xs i v) i d ≡ v
get_or-set_self [] i v d h = absurd (omega arith)
get_or-set_self (x ∷ xs) zero v d h = refl
get_or-set_self (x ∷ xs) (suc i) v d h = get_or-set_self xs i v d (omega arith)

pub get_or-set_ne {ℓ} :
    {A : Type ℓ} (xs : List A) (i j : ℕ) (v d : A) → i ≢ j → get_or (set xs i v) j d ≡ get_or xs j d
get_or-set_ne [] i j v d h = refl
get_or-set_ne (x ∷ xs) zero zero v d h = absurd (h refl)
get_or-set_ne (x ∷ xs) zero (suc j) v d h = refl
get_or-set_ne (x ∷ xs) (suc i) zero v d h = refl
get_or-set_ne (x ∷ xs) (suc i) (suc j) v d h = get_or-set_ne xs i j v d (λ e. h (ap suc e))

-- On a machine with its 32 registers, after a write to a register below 32 x0 reads as 0, the
-- written register as the written value and every other register as before.
pub x_reg-write_reg :
    (s : Machine) (i j v : ℕ)
    → HasRegisters s
    → i < 32
    → x_reg (write_reg s i v) j ≡ (if j == 0 then 0 else if i == j then v else x_reg s j)
unfolding x_reg write_reg
x_reg-write_reg s i j v r lt =
    ground (arith, get_or-set_self s.xregs i v 0, get_or-set_ne s.xregs i j v 0)

check-true : (h : Host) (s : Machine) → check h true s ≡ ok (tt, s)
unfolding check
check-true h s = elim (Bool-cases h.asserts) [ inl kept ↦ rw kept | inr off ↦ rw off ]

module _ (h : Host) (s : Machine) (r : HasRegisters s) (i : ℕ) (lt : i < 32) where
  pub get_xreg_lem : get_xreg h i s ≡ ok (x_reg s i, s)
  unfolding get_xreg x_reg
  get_xreg_lem =
      rw (lt→ltb i 32 lt, check-true h s, ◌>>=◌)
        (elim (Bool-cases (i == 0)) [
          | inl zero_x ↦ rw zero_x
          | inr other ↦
              rw (other, get_elem?-eq-get_or s.xregs i 0 (omega (arith, r.x_length)), element)
        ])

  pub set_xreg_lem : (v : ℕ) → set_xreg h i v s ≡ ok (tt, write_reg s i v)
  unfolding set_xreg write_reg
  set_xreg_lem v =
      rw (lt→ltb i 32 lt, check-true h s, ◌>>=◌)
        (elim (Bool-cases (i == 0)) [
          | inl zero_x ↦ rw zero_x
          | inr other ↦ rw (other, lt→ltb i 32 lt)
        ])

  pub get_freg_lem : get_freg h i s ≡ ok (f_reg s i, s)
  unfolding get_freg f_reg
  get_freg_lem = rw (
    lt→ltb i 32 lt,
    check-true h s,
    ◌>>=◌,
    get_elem?-eq-get_or s.fregs i 0 (omega (arith, r.f_length)),
    element,
  )

  pub set_freg_lem : (v : ℕ) → set_freg h i v s ≡ ok (tt, record s { fregs = set s.fregs i v })
  unfolding set_freg
  set_freg_lem v = rw (lt→ltb i 32 lt, check-true h s, ◌>>=◌) (rw (lt→ltb i 32 lt))

pub write_reg-HasRegisters :
    (s : Machine) (i v : ℕ) → HasRegisters s → HasRegisters (write_reg s i v)
unfolding write_reg
write_reg-HasRegisters s i v r = ground (arith, length-set s.xregs i v)

-- On a machine with its 32 registers, a write to a register below 32 succeeds and leaves 32
-- registers, and a read afterwards gives 0 for x0, the written value for the written register, and
-- what a read gave before for every other.
pub get_xreg-set_xreg :
    (h : Host) (s : Machine) (i j v : ℕ)
    → HasRegisters s
    → i < 32
    → j < 32
    → (s' : Machine) × (old : ℕ) × (get_xreg h j s ≡ ok (old, s))
      × (set_xreg h i v s ≡ ok (tt, s'))
      × (get_xreg h j s' ≡ ok (if j == 0 then 0 else if i == j then v else old, s'))
      × HasRegisters s'
get_xreg-set_xreg h s i j v r hi hj =
    let s' = write_reg s i v in
    let r' = write_reg-HasRegisters s i v r in
    (
      s',
      x_reg s j,
      get_xreg_lem h s r j hj,
      set_xreg_lem h s r i hi v,
      get_xreg_lem h s' r' j hj ∙ ap (λ t. ok (t, s')) (x_reg-write_reg s i j v r hi),
      r',
    )
