-- ===== src/Machine/Evolution.antt =====
-- What no piece of the simulator's code changes, whatever it does: the sizes of the register files,
-- the slot of x0, the layout of guest memory, and the calls that were already made.
use riscv_sim.Prelude.{ℕ, subst, ◌<◌, ◌≡◌, refl, ap, sym, ◌∙◌, arith, inl, inr}
use riscv_sim.Prelude.{Bool, List, [], ◌∷◌, ◌++◌, length, get_elem?}
use riscv_sim.Outcome.{ok, Fault, Outcome-cases}
use riscv_sim.Memory.{MemorySegm, Memory}
use riscv_sim.Host.{SysCall}
use riscv_sim.Machine.State.{Machine, M, pure, fail, ◌>>=◌}

-- A segment without its bytes, but with their number.
pub record Extent : Type 0 where
  pub first : ℕ
  pub last : ℕ
  pub room : ℕ
  pub readable : Bool
  pub writable : Bool
  pub executable : Bool

unfoldable pub extent : MemorySegm → Extent
extent segm = record {
  first = segm.start_addr;
  last = segm.end_addr;
  room = length segm.bytes;
  readable = segm.r_permission;
  writable = segm.w_permission;
  executable = segm.x_permission;
}

unfoldable pub layout : Memory → List Extent
layout [] = []
layout (segm ∷ rest) = extent segm ∷ layout rest

pub record Evolves (s s' : Machine) : Type 0 where
  pub xregs_kept : length s'.xregs ≡ length s.xregs
  pub fregs_kept : length s'.fregs ≡ length s.fregs
  pub x0_kept : get_elem? s'.xregs 0 ≡ get_elem? s.xregs 0
  pub layout_kept : layout s'.memory ≡ layout s.memory
  pub fcsr_kept : s.fcsr < 256 → s'.fcsr < 256
  pub calls_kept : (cs : List SysCall) × (s'.syscalls ≡ cs ++ s.syscalls)

pub Evolves-refl : (s : Machine) → Evolves s s
Evolves-refl s = record {
  xregs_kept = refl;
  fregs_kept = refl;
  x0_kept = refl;
  layout_kept = refl;
  fcsr_kept = λ h. h;
  calls_kept = ([], refl);
}

++-assoc : {A : Type 0} (xs ys zs : List A) → (xs ++ ys) ++ zs ≡ xs ++ (ys ++ zs)
++-assoc [] ys zs = refl
++-assoc (x ∷ xs) ys zs = ap (λ t. x ∷ t) (++-assoc xs ys zs)

pub Evolves-trans : {s s' s'' : Machine} → Evolves s s' → Evolves s' s'' → Evolves s s''
Evolves-trans {s} {s'} {s''} p q =
    let (cs, e) = p.calls_kept in
    let (cs', e') = q.calls_kept in
    record {
      xregs_kept = q.xregs_kept ∙ p.xregs_kept;
      fregs_kept = q.fregs_kept ∙ p.fregs_kept;
      x0_kept = q.x0_kept ∙ p.x0_kept;
      layout_kept = q.layout_kept ∙ p.layout_kept;
      fcsr_kept = λ h. q.fcsr_kept (p.fcsr_kept h);
      calls_kept = (cs' ++ cs, e' ∙ (ap (λ t. cs' ++ t) e ∙ sym (++-assoc cs' cs s.syscalls)));
    }

-- However the code ends, if it ends with a state then that has evolved from the first one.
pub record Safe {A : Type 0} (m : M A) : Type 0 where
  pub evolves : (s : Machine) {a : A} {s' : Machine} → m s ≡ ok (a, s') → Evolves s s'

pub >>=-Safe :
    {A B : Type 0} {m : M A} {f : A → M B} → Safe m → ((a : A) → Safe (f a)) → Safe (m >>= f)
>>=-Safe {m} {f} p q = record {
  evolves = λ s e. elim (Outcome-cases (m s)) [
    | inl ((a, s₁), good) ↦
        Evolves-trans (p.evolves s good) ((q a).evolves s₁ (rw (good, ◌>>=◌) at e))
    | inr (err, bad) ↦ cc (rw (bad, ◌>>=◌) at e)
  ];
}

-- Code that leaves the state alone.
pub Safe-same :
    {A : Type 0} {m : M A}
    → ((s : Machine) (a : A) (s' : Machine) → m s ≡ ok (a, s') → s ≡ s')
    → Safe m
Safe-same p = record {
  evolves = λ s {a} {s'} e. subst (λ t. Evolves s t) (p s a s' e) (Evolves-refl s);
}

pub pure-Safe : {A : Type 0} (a : A) → Safe (pure a)
pure-Safe a = Safe-same (λ s _ s' e. ground arith)

pub fail-Safe : (A : Type 0) (e : Fault) → Safe {A = A} (fail e)
fail-Safe A e = Safe-same (λ s _ s' e. ground arith)
