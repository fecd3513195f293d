-- ===== src/Machine/Range.antt =====
-- The widths of the simulator's values: a register, an FP register and the program counter are
-- words, a byte of guest memory is below 256, and fcsr has eight bits.
pub mod Operations
pub mod Transfers
use native.Mathlib.Nat.{div-le_self}
use riscv_sim.Bits.{bit_and-lt, bit_or-lt, bit_xor-lt}
use riscv_sim.Prelude.{
  ℕ, zero, suc, ◌+◌, ◌-◌, ◌*◌, ◌/◌, ◌%◌, ◌^◌, ◌<◌, ◌≤◌, ◌≡◌, refl, subst, arith, inl, inr, Bool,
  true, false, if◌then◌else◌, List, [], ◌∷◌, ◌++◌, none, some, get_elem?, set, bit_and, bit_or,
  bit_xor,
}
use riscv_sim.Outcome.{Outcome, ok, fault, Fault, Outcome-cases, ◌>>=◌ as ◌>>=ₒ◌}
use riscv_sim.Memory.{Memory}
use riscv_sim.Memory.Widths.{AllBelow, HasBytes}
use riscv_sim.Machine.State.{Machine, M, pure, fail, ◌>>=◌}

-- The number fits a uint32_t.
pub IsWord : ℕ → Type 0
IsWord n = n < 2 ^ 32

pub record InRange (s : Machine) : Type 0 where
  pub ip_word : s.ip < 2 ^ 32
  pub xreg_words : AllBelow (2 ^ 32) s.xregs
  pub freg_words : AllBelow (2 ^ 32) s.fregs
  pub fcsr_byte : s.fcsr < 256
  pub memory_bytes : HasBytes s.memory

pub word : (n : ℕ) → n < 2 ^ 32 → IsWord n
unfolding IsWord
word n lt = lt

pub IsWord-lt : (n : ℕ) → IsWord n → n < 2 ^ 32
unfolding IsWord
IsWord-lt n w = w

pub mod-IsWord : (n : ℕ) → IsWord (n % 2 ^ 32)
unfolding IsWord
mod-IsWord n = omega arith

pub bit_and-IsWord : (a b : ℕ) → IsWord a → IsWord b → IsWord (bit_and a b)
unfolding IsWord
bit_and-IsWord a b p q = bit_and-lt 32 a b p q

pub bit_or-IsWord : (a b : ℕ) → IsWord a → IsWord b → IsWord (bit_or a b)
unfolding IsWord
bit_or-IsWord a b p q = bit_or-lt 32 a b p q

pub bit_xor-IsWord : (a b : ℕ) → IsWord a → IsWord b → IsWord (bit_xor a b)
unfolding IsWord
bit_xor-IsWord a b p q = bit_xor-lt 32 a b p q

pub bit_not-IsWord : (a : ℕ) → IsWord (2 ^ 32 - 1 - a)
unfolding IsWord
bit_not-IsWord a = omega arith

pub shift-IsWord : (a k : ℕ) → IsWord a → IsWord (a / 2 ^ k)
unfolding IsWord
shift-IsWord a k p = omega (arith, div-le_self a (2 ^ k))

pub if-IsWord : (b : Bool) (x y : ℕ) → IsWord x → IsWord y → IsWord (if b then x else y)
if-IsWord true x y p q = p
if-IsWord false x y p q = q

-- A computed word, if there is one.
pub record Bounded (o : Outcome ℕ) : Type 0 where
  pub bounded : {v : ℕ} → o ≡ ok v → IsWord v

pub ok-Bounded : (v : ℕ) → IsWord v → Bounded (ok v)
ok-Bounded v p = record { bounded = λ e. subst IsWord (ground arith) p }

pub fault-Bounded : (e : Fault) → Bounded (fault e)
fault-Bounded e = record { bounded = λ e. cc }

pub if-Bounded :
    (b : Bool) {o o' : Outcome ℕ} → Bounded o → Bounded o' → Bounded (if b then o else o')
if-Bounded true p q = p
if-Bounded false p q = q

pub >>=-Bounded :
    {o : Outcome ℕ} {f : ℕ → Outcome ℕ}
    → Bounded o
    → ((v : ℕ) → IsWord v → Bounded (f v))
    → Bounded (o >>=ₒ f)
>>=-Bounded {o} {f} p q = record {
  bounded = λ e. elim (Outcome-cases o) [
    | inl (v, good) ↦ (q v (p.bounded good)).bounded (rw good at e)
    | inr (err, bad) ↦ cc (rw bad at e)
  ];
}

-- Code that keeps a state in range, and gives a result of which P holds.
pub record Keeps {A : Type 0} (P : A → Type 0) (m : M A) : Type 0 where
  pub keeps : (s : Machine) {a : A} {s' : Machine} → InRange s → m s ≡ ok (a, s') → P a × InRange s'

abbrev pub Any : {A : Type 0} → A → Type 0
Any a = Unit

pub >>=-Keeps :
    {A B : Type 0} {P : A → Type 0} {Q : B → Type 0} {m : M A} {f : A → M B}
    → Keeps P m
    → ((a : A) → P a → Keeps Q (f a))
    → Keeps Q (m >>= f)
>>=-Keeps {m} {f} p q = record {
  keeps = λ s r e. elim (Outcome-cases (m s)) [
    | inl ((a, s₁), good) ↦
        let (pa, r₁) = p.keeps s r good in (q a pa).keeps s₁ r₁ (rw (good, ◌>>=◌) at e)
    | inr (err, bad) ↦ cc (rw (bad, ◌>>=◌) at e)
  ];
}

-- The rule at the two things that are known of a result, in the form that a search applies.
pub >>=-Keeps_word :
    {B : Type 0} {Q : B → Type 0} {m : M ℕ} {f : ℕ → M B}
    → Keeps IsWord m
    → ((a : ℕ) → IsWord a → Keeps Q (f a))
    → Keeps Q (m >>= f)
>>=-Keeps_word p q = >>=-Keeps p q

pub >>=-Keeps-Any :
    {A B : Type 0} {Q : B → Type 0} {m : M A} {f : A → M B}
    → Keeps (Any {A = A}) m
    → ((a : A) → Keeps Q (f a))
    → Keeps Q (m >>= f)
>>=-Keeps-Any p q = >>=-Keeps p (λ a _. q a)

pub pure-Keeps_word : (v : ℕ) → IsWord v → Keeps IsWord (pure v)
pure-Keeps_word v w = record {
  keeps = λ s r e. (subst IsWord (ground arith) w, subst InRange (ground arith) r);
}

-- What is known of a result may be forgotten.
pub Keeps-Any : {A : Type 0} {P : A → Type 0} {m : M A} → Keeps P m → Keeps Any m
Keeps-Any p = record { keeps = λ s r e. (tt, (p.keeps s r e).1) }

pub pure-Keeps : {A : Type 0} {P : A → Type 0} (a : A) → P a → Keeps P (pure a)
pure-Keeps {P} a p = record {
  keeps = λ s r e. (subst P (ground arith) p, subst InRange (ground arith) r);
}

pub fail-Keeps : {A : Type 0} {P : A → Type 0} (e : Fault) → Keeps P (fail e)
fail-Keeps e = record { keeps = λ s r e. cc }

pub if-Keeps :
    {A : Type 0} {P : A → Type 0} (b : Bool) {m m' : M A}
    → Keeps P m
    → Keeps P m'
    → Keeps P (if b then m else m')
if-Keeps true p q = p
if-Keeps false p q = q

-- Code that leaves the state alone, or ends in one that is known.
pub Keeps-same :
    {A : Type 0} {P : A → Type 0} {m : M A}
    → ((s : Machine) (a : A) (s' : Machine) → InRange s → m s ≡ ok (a, s') → P a × (s ≡ s'))
    → Keeps P m
Keeps-same p = record {
  keeps = λ s {a} {s'} r e. let (pa, eq) = p s a s' r e in (pa, subst InRange eq r);
}

pub Keeps-to :
    {m : M (Unit {0})} (f : Machine → Machine)
    → ((s s' : Machine) (a : Unit {0}) → m s ≡ ok (a, s') → f s ≡ s')
    → ((s : Machine) → InRange s → InRange (f s))
    → Keeps Any m
Keeps-to f p q = record { keeps = λ s {a} {s'} r e. (tt, subst InRange (p s s' a e) (q s r)) }
