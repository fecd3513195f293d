-- ===== src/Machine/Safety.antt =====
-- The operations of RVSim, and those of its memory, only let a state evolve.
use riscv_sim.Prelude.{ℕ, subst, ◌+◌, ◌-◌, ◌%◌, ◌^◌, ◌<◌, ◌≡◌, ◌≢◌, refl, ap, ◌∙◌, arith, inl, inr}
use riscv_sim.Prelude.{
  Bool, Option-cases, List, [], ◌∷◌, length-set, get_elem?, set, get_elem?-set_ne,
}
use riscv_sim.Outcome.{Outcome, ok, Outcome-cases, >>=-eq-ok}
use riscv_sim.Word.{u32}
use riscv_sim.Memory.{Memory, store_sized, store_u8, copy_host_from, copy_host_to_guest}
use riscv_sim.Memory.Bytes.{to_bytes}
use riscv_sim.Memory.ByteLaws.{length-write_bytes}
use riscv_sim.Memory.Access.{Stored, nowhere, wrote, passed, store_sized-Stored}
use riscv_sim.Machine.State.{Machine, M, reading, writing}
use riscv_sim.Machine.{step, get_ip, set_ip, set_should_stop, element}
use riscv_sim.Machine.Evolution.{extent, layout, Evolves, Safe, Safe-same}

-- Code that only changes the program counter, the stop flag or SoftFloat's globals.
pub Evolves-control :
    (s : Machine) (ip : ℕ) (stop : Bool) (rm flags : ℕ)
    → Evolves s
        (record s { ip = ip; should_stop = stop; rounding_mode = rm; exception_flags = flags })
Evolves-control s ip stop rm flags = record {
  xregs_kept = refl;
  fregs_kept = refl;
  x0_kept = refl;
  layout_kept = refl;
  fcsr_kept = λ h. h;
  calls_kept = ([], refl);
}

-- Code that ends, when it ends, in one state that is known.
pub Safe-to :
    {A : Type 0} {m : M A} (f : Machine → Machine)
    → ((s : Machine) (a : A) (s' : Machine) → m s ≡ ok (a, s') → f s ≡ s')
    → ((s : Machine) → Evolves s (f s))
    → Safe m
Safe-to f p q = record { evolves = λ s {a} {s'} e. subst (λ t. Evolves s t) (p s a s' e) (q s) }

pub step-Safe : Safe step
unfolding step
step-Safe =
    Safe-to (λ s. record s { ip = (s.ip + 4) % 2 ^ 32 }) (λ s _ s' e. ground arith)
      (λ s. Evolves-control s _ _ _ _)

pub set_ip-Safe : (v : ℕ) → Safe (set_ip v)
unfolding set_ip
set_ip-Safe v =
    Safe-to (λ s. record s { ip = v }) (λ s _ s' e. ground arith) (λ s. Evolves-control s _ _ _ _)

pub get_ip-Safe : Safe get_ip
unfolding get_ip
get_ip-Safe = Safe-same (λ s _ s' e. ground arith)

pub set_should_stop-Safe : (b : Bool) → Safe (set_should_stop b)
unfolding set_should_stop
set_should_stop-Safe b =
    Safe-to (λ s. record s { should_stop = b }) (λ s _ s' e. ground arith)
      (λ s. Evolves-control s _ _ _ _)

pub reading-Safe : {A : Type 0} (f : Memory → Outcome A) → Safe (reading f)
reading-Safe f = Safe-same (λ s _ s' e. elim (Outcome-cases (f s.memory)) [
  | inl (a, good) ↦ ground arith
  | inr (err, bad) ↦ ground arith
])

pub element-Safe : (xs : Machine → List ℕ) (i : ℕ) → Safe (λ s. element (xs s) i s)
element-Safe xs i = Safe-same (λ s _ s' e. elim (Option-cases (get_elem? (xs s) i)) [
  | inl there ↦ ground arith
  | inr missing ↦ ground arith
])

-- A store keeps every segment's bounds and size.
layout-Stored :
    {size addr val : ℕ} {mem mem' : Memory}
    → Stored size addr val mem mem'
    → layout mem' ≡ layout mem
unfolding layout extent
layout-Stored nowhere = refl
layout-Stored {size} {addr} {val} (wrote {segm} {rest} out hit w) =
    rw (length-write_bytes (to_bytes size val) segm.bytes (addr - segm.start_addr) w) refl
layout-Stored (passed miss st) = rw (layout-Stored st) refl

-- A memory operation that keeps the layout.
pub KeepsLayout : (Memory → Outcome Memory) → Type 0
KeepsLayout f = (mem mem' : Memory) → f mem ≡ ok mem' → layout mem' ≡ layout mem

pub store_sized-KeepsLayout :
    (size : ℕ) (asserts : Bool) (addr val : ℕ)
    → KeepsLayout (λ mem. store_sized size asserts mem addr val)
unfolding KeepsLayout
store_sized-KeepsLayout size asserts addr val mem mem' e =
    layout-Stored (store_sized-Stored size asserts mem addr val e)

copy_host_from-layout :
    (asserts : Bool) (mem : Memory) (to i : ℕ) (buf : List ℕ) {mem' : Memory}
    → copy_host_from asserts mem to i buf ≡ ok mem'
    → layout mem' ≡ layout mem
unfolding copy_host_from store_u8
copy_host_from-layout asserts mem to i [] e = ap layout (ground arith)
copy_host_from-layout asserts mem to i (b ∷ buf) e =
    let (mem₁, p, q) = >>=-eq-ok _ _ e in
    copy_host_from-layout asserts mem₁ to (i + 1) buf q
    ∙ layout-Stored (store_sized-Stored 1 asserts mem (u32 (to + i)) b p)

pub copy_host_to_guest-KeepsLayout :
    (asserts : Bool) (to : ℕ) (buf : List ℕ)
    → KeepsLayout (λ mem. copy_host_to_guest asserts mem to buf)
unfolding KeepsLayout copy_host_to_guest
copy_host_to_guest-KeepsLayout asserts to buf mem mem' e =
    copy_host_from-layout asserts mem to 0 buf e

Evolves-memory :
    (s : Machine) (mem : Memory)
    → layout mem ≡ layout s.memory
    → Evolves s (record s { memory = mem })
Evolves-memory s mem e = record {
  xregs_kept = refl;
  fregs_kept = refl;
  x0_kept = refl;
  layout_kept = e;
  fcsr_kept = λ h. h;
  calls_kept = ([], refl);
}

pub writing-Safe : (f : Memory → Outcome Memory) → KeepsLayout f → Safe (writing f)
unfolding KeepsLayout
writing-Safe f keeps = record {
  evolves = λ s {a} {s'} e. elim (Outcome-cases (f s.memory)) [
    | inl (mem, good) ↦
        subst (λ t. Evolves s t) (ground arith) (Evolves-memory s mem (keeps s.memory mem good))
    | inr (err, bad) ↦ ground arith
  ];
}

pub Evolves-xregs :
    (s : Machine) (i v : ℕ) → i ≢ 0 → Evolves s (record s { xregs = set s.xregs i v })
Evolves-xregs s i v ne = record {
  xregs_kept = length-set s.xregs i v;
  fregs_kept = refl;
  x0_kept = get_elem?-set_ne s.xregs v ne;
  layout_kept = refl;
  fcsr_kept = λ h. h;
  calls_kept = ([], refl);
}

pub Evolves-fregs : (s : Machine) (i v : ℕ) → Evolves s (record s { fregs = set s.fregs i v })
Evolves-fregs s i v = record {
  xregs_kept = refl;
  fregs_kept = length-set s.fregs i v;
  x0_kept = refl;
  layout_kept = refl;
  fcsr_kept = λ h. h;
  calls_kept = ([], refl);
}

pub Evolves-fcsr :
    (s : Machine) (v : ℕ) → (s.fcsr < 256 → v < 256) → Evolves s (record s { fcsr = v })
Evolves-fcsr s v keeps = record {
  xregs_kept = refl;
  fregs_kept = refl;
  x0_kept = refl;
  layout_kept = refl;
  fcsr_kept = keeps;
  calls_kept = ([], refl);
}
