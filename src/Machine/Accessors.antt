-- ===== src/Machine/Accessors.antt =====
-- The accessors of RVSim only let a state evolve.
use riscv_sim.Prelude.{
  ℕ, subst, ◌≢◌, arith, inl, inr, Bool, true, false, ◌==◌, ==_iff, ltb, if◌then◌else◌, Bool-cases,
  Option-cases, set,
}
use riscv_sim.Outcome.{ok, fault, undefined}
use riscv_sim.Host.{Host}
use riscv_sim.Machine.State.{M}
use riscv_sim.Machine.{
  check, csr_value, csr_update, set_xreg, get_xreg, set_freg, get_freg, set_csr, get_csr, get_rm,
  csr_frm,
}
use riscv_sim.Machine.Evolution.{Evolves, Evolves-refl, Safe, >>=-Safe, Safe-same, pure-Safe}
use riscv_sim.Machine.Safety.{element-Safe, Evolves-xregs, Evolves-fregs, Evolves-fcsr}
use riscv_sim.Machine.Csr.{csr_update-lt}

-- Either code, by a test.
pub if-Safe : {A : Type 0} (b : Bool) {m m' : M A} → Safe m → Safe m' → Safe (if b then m else m')
if-Safe true p q = p
if-Safe false p q = q

module _ (h : Host) where
  pub check-Safe : (c : Bool) → Safe (check h c)
  unfolding check
  check-Safe c = Safe-same (λ s _ s' e. ground arith)

  -- A write that no bounds check stops.
  set_xreg_element :
      (i v : ℕ)
      → i ≢ 0
      → Safe (λ s.
        if ltb i 32 then ok (tt {0}, record s { xregs = set s.xregs i v }) else fault undefined)
  set_xreg_element i v ne = record {
    evolves = λ s {a} {s'} e. subst (λ t. Evolves s t) (ground arith) (Evolves-xregs s i v ne);
  }

  pub set_xreg-Safe : (i v : ℕ) → Safe (set_xreg h i v)
  unfolding set_xreg
  set_xreg-Safe i v = >>=-Safe (check-Safe (ltb i 32)) (λ _. elim (Bool-cases (i == 0)) [
    | inl x0 ↦ rw x0 (pure-Safe tt)
    | inr other ↦ rw other (set_xreg_element i v (λ e. ground (arith, ==_iff i 0)))
  ])

  pub get_xreg-Safe : (i : ℕ) → Safe (get_xreg h i)
  unfolding get_xreg
  get_xreg-Safe i =
      >>=-Safe (check-Safe (ltb i 32))
        (λ _. if-Safe (i == 0) (pure-Safe 0) (element-Safe (λ s. s.xregs) i))

  pub set_freg-Safe : (i v : ℕ) → Safe (set_freg h i v)
  unfolding set_freg
  set_freg-Safe i v = >>=-Safe (check-Safe (ltb i 32)) (λ _. record {
    evolves = λ s {a} {s'} e. subst (λ t. Evolves s t) (ground arith) (Evolves-fregs s i v);
  })

  pub get_freg-Safe : (i : ℕ) → Safe (get_freg h i)
  unfolding get_freg
  get_freg-Safe i = >>=-Safe (check-Safe (ltb i 32)) (λ _. element-Safe (λ s. s.fregs) i)

  pub get_csr-Safe : (i : ℕ) → Safe (get_csr h i)
  unfolding get_csr
  get_csr-Safe i = Safe-same (λ s _ s' e. elim (Option-cases (csr_value i s.fcsr)) [
    | inl missing ↦ ground arith
    | inr there ↦ ground arith
  ])

  pub set_csr-Safe : (i v : ℕ) → Safe (set_csr h i v)
  unfolding set_csr
  set_csr-Safe i v = record {
    evolves = λ s {a} {s'} e. elim (Option-cases (csr_update i v s.fcsr)) [
      | inl missing ↦ subst (λ t. Evolves s t) (ground arith) (Evolves-refl s)
      | inr (w, there) ↦
          subst (λ t. Evolves s t) (ground arith)
            (Evolves-fcsr s w (csr_update-lt i v s.fcsr there))
    ];
  }

  pub get_rm-Safe : (rm : ℕ) → Safe (get_rm h rm)
  unfolding get_rm
  get_rm-Safe rm = if-Safe (rm == 0b111) (get_csr-Safe csr_frm) (pure-Safe rm)
