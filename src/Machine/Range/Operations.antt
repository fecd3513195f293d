-- ===== src/Machine/Range/Operations.antt =====
-- The operations of RVSim keep the values of a state in range.
use riscv_sim.Prelude.{
  ℕ, ◌+◌, ◌/◌, ◌%◌, ◌^◌, ◌<◌, ◌≡◌, refl, sym, subst, arith, inl, inr, Bool, ◌==◌, ltb, List,
  Option-cases, some, get_elem?, set,
}
use riscv_sim.Outcome.{ok}
use riscv_sim.Host.{Host}
use riscv_sim.Memory.Widths.{AllBelow, AllBelow-set, AllBelow-get_elem?, HasBytes}
use riscv_sim.Machine.State.{Machine}
use riscv_sim.Machine.{
  check, step, get_ip, set_ip, set_should_stop, element, csr_value, csr_update, csr_frm, set_xreg,
  get_xreg, set_freg, get_freg, set_csr, get_csr, get_rm,
}
use riscv_sim.Machine.Csr.{csr_update-lt}
use riscv_sim.Machine.Range.{
  IsWord, word, IsWord-lt, InRange, Keeps, Any, Keeps-same, Keeps-to, >>=-Keeps, if-Keeps,
  pure-Keeps, Keeps-Any,
}
use riscv_sim.Bits.{bit_and-lt}

-- Code that changes none of the bounded members.
pub InRange-control :
    (s s' : Machine)
    → s'.ip < 2 ^ 32
    → s'.xregs ≡ s.xregs
    → s'.fregs ≡ s.fregs
    → s'.fcsr ≡ s.fcsr
    → s'.memory ≡ s.memory
    → InRange s
    → InRange s'
InRange-control s s' ip x f c m r = record {
  ip_word = ip;
  xreg_words = subst (AllBelow (2 ^ 32)) (sym x) r.xreg_words;
  freg_words = subst (AllBelow (2 ^ 32)) (sym f) r.freg_words;
  fcsr_byte = omega (arith, c, r.fcsr_byte);
  memory_bytes = subst HasBytes (sym m) r.memory_bytes;
}

pub step-Keeps : Keeps Any step
unfolding step
step-Keeps =
    Keeps-to (λ s. record s { ip = (s.ip + 4) % 2 ^ 32 }) (λ s s' _ e. ground arith)
      (λ s r. InRange-control s _ (omega arith) refl refl refl refl r)

pub set_ip-Keeps : (v : ℕ) → IsWord v → Keeps Any (set_ip v)
unfolding set_ip
set_ip-Keeps v w =
    Keeps-to (λ s. record s { ip = v }) (λ s s' _ e. ground arith)
      (λ s r. InRange-control s _ (IsWord-lt v w) refl refl refl refl r)

pub get_ip-Keeps : Keeps IsWord get_ip
unfolding get_ip
get_ip-Keeps =
    Keeps-same (λ s a s' r e. (subst IsWord (ground arith) (word s.ip r.ip_word), ground arith))

pub set_should_stop-Keeps : (b : Bool) → Keeps Any (set_should_stop b)
unfolding set_should_stop
set_should_stop-Keeps b =
    Keeps-to (λ s. record s { should_stop = b }) (λ s s' _ e. ground arith)
      (λ s r. InRange-control s _ r.ip_word refl refl refl refl r)

InRange-xregs :
    (s : Machine) (i v : ℕ) → IsWord v → InRange s → InRange (record s { xregs = set s.xregs i v })
InRange-xregs s i v w r = record {
  ip_word = r.ip_word;
  xreg_words = AllBelow-set s.xregs i v r.xreg_words (IsWord-lt v w);
  freg_words = r.freg_words;
  fcsr_byte = r.fcsr_byte;
  memory_bytes = r.memory_bytes;
}

InRange-fregs :
    (s : Machine) (i v : ℕ) → IsWord v → InRange s → InRange (record s { fregs = set s.fregs i v })
InRange-fregs s i v w r = record {
  ip_word = r.ip_word;
  xreg_words = r.xreg_words;
  freg_words = AllBelow-set s.fregs i v r.freg_words (IsWord-lt v w);
  fcsr_byte = r.fcsr_byte;
  memory_bytes = r.memory_bytes;
}

InRange-fcsr : (s : Machine) (v : ℕ) → v < 256 → InRange s → InRange (record s { fcsr = v })
InRange-fcsr s v lt r = record {
  ip_word = r.ip_word;
  xreg_words = r.xreg_words;
  freg_words = r.freg_words;
  fcsr_byte = lt;
  memory_bytes = r.memory_bytes;
}

-- An element of an array of words.
element_word :
    (xs : List ℕ) (i : ℕ) (s s' : Machine) (a : ℕ)
    → AllBelow (2 ^ 32) xs
    → element xs i s ≡ ok (a, s')
    → IsWord a × (s ≡ s')
element_word xs i s s' a p e = elim (Option-cases (get_elem? xs i)) [
  | inl missing ↦ ground arith
  | inr (v, there) ↦
      (subst IsWord (ground arith) (word v (AllBelow-get_elem? xs i p there)), ground arith)
]

-- A csr reads as at most eight bits.
csr_value-IsWord : (i fcsr v : ℕ) → fcsr < 256 → csr_value i fcsr ≡ some v → IsWord v
unfolding csr_value
csr_value-IsWord i fcsr v lt e = word v (
    ground (arith, bit_and-lt 32 fcsr 0x1f, bit_and-lt 32 (fcsr / 32) 0x7, bit_and-lt 32 fcsr 0xff))

module _ (h : Host) where
  pub check-Keeps : (c : Bool) → Keeps Any (check h c)
  unfolding check
  check-Keeps c = Keeps-same (λ s _ s' r e. (tt, ground arith))

  pub set_xreg-Keeps : (i v : ℕ) → IsWord v → Keeps Any (set_xreg h i v)
  unfolding set_xreg
  set_xreg-Keeps i v w = >>=-Keeps (check-Keeps (ltb i 32)) (λ _ _.
      if-Keeps (i == 0) (pure-Keeps tt tt)
        (record { keeps = λ s r e. (tt, subst InRange (ground arith) (InRange-xregs s i v w r)) }))

  pub get_xreg-Keeps : (i : ℕ) → Keeps IsWord (get_xreg h i)
  unfolding get_xreg
  get_xreg-Keeps i = >>=-Keeps (check-Keeps (ltb i 32)) (λ _ _.
      if-Keeps (i == 0) (pure-Keeps 0 (word 0 (omega arith)))
        (Keeps-same (λ s a s' r e. element_word s.xregs i s s' a r.xreg_words e)))

  pub set_freg-Keeps : (i v : ℕ) → IsWord v → Keeps Any (set_freg h i v)
  unfolding set_freg
  set_freg-Keeps i v w = >>=-Keeps (check-Keeps (ltb i 32)) (λ _ _. record {
    keeps = λ s r e. (tt, subst InRange (ground arith) (InRange-fregs s i v w r));
  })

  pub get_freg-Keeps : (i : ℕ) → Keeps IsWord (get_freg h i)
  unfolding get_freg
  get_freg-Keeps i =
      >>=-Keeps (check-Keeps (ltb i 32))
        (λ _ _. Keeps-same (λ s a s' r e. element_word s.fregs i s s' a r.freg_words e))

  pub set_csr-Keeps : (i v : ℕ) → Keeps Any (set_csr h i v)
  unfolding set_csr
  set_csr-Keeps i v = record {
    keeps = λ s {a} {s'} r e. elim (Option-cases (csr_update i v s.fcsr)) [
      | inl missing ↦ (tt, subst InRange (ground arith) r)
      | inr (w, there) ↦ (
        tt,
        subst InRange (ground arith)
            (InRange-fcsr s w (csr_update-lt i v s.fcsr there r.fcsr_byte) r),
      )
    ];
  }

  pub get_csr-Keeps : (i : ℕ) → Keeps IsWord (get_csr h i)
  unfolding get_csr
  get_csr-Keeps i = Keeps-same (λ s a s' r e. elim (Option-cases (csr_value i s.fcsr)) [
    | inl missing ↦ (subst IsWord {x = 0} (ground arith) (word 0 (omega arith)), ground arith)
    | inr (v, there) ↦
        (subst IsWord (ground arith) (csr_value-IsWord i s.fcsr v r.fcsr_byte there), ground arith)
  ])

  pub get_rm-Keeps : (rm : ℕ) → Keeps Any (get_rm h rm)
  unfolding get_rm
  get_rm-Keeps rm = if-Keeps (rm == 0b111) (Keeps-Any (get_csr-Keeps csr_frm)) (pure-Keeps rm tt)
