-- ===== src/Outcome.antt =====
-- How a piece of the program ends: with a value, or by one of the ways in which C++ gives up.
use riscv_sim.Prelude.{Bool, true, false, ◌≡◌, refl, Option, none, some, arith, ◌⊎◌, inl, inr}

-- What a TraceableException of the program says.
pub data Message : Type 0 where
  unable_to_load unsupported_target unknown_instruction : Message

-- A failed assert aborts; `undefined` is undefined behaviour (an access out of a vector's bounds, a
-- shift by the width or more, a signed overflow); `thrown` is an exception.
pub data Fault : Type 0 where
  assert_failed undefined : Fault
  thrown : Message → Fault

pub data Outcome {ℓ} (A : Type ℓ) : Type ℓ where
  ok : A → Outcome A
  fault : Fault → Outcome A

infixl 5 ◌>>=◌
abbrev pub ◌>>=◌ {ℓ κ} : {A : Type ℓ} {B : Type κ} → Outcome A → (A → Outcome B) → Outcome B
fault why >>= next = fault why
ok value >>= next = next value

-- If a sequence succeeds, then so do its two parts.
pub >>=-eq-ok {ℓ κ} :
    {A : Type ℓ} {B : Type κ} (first : Outcome A) (next : A → Outcome B) {b : B}
    → (first >>= next) ≡ ok b
    → (value : A) × (first ≡ ok value) × (next value ≡ ok b)
>>=-eq-ok (fault why) next h = ground arith
>>=-eq-ok (ok value) next h = (value, refl, h)

-- What `assert(!"...")` followed by `return a` gives with and without NDEBUG.
abbrev pub assert_false {ℓ} : {A : Type ℓ} → Bool → A → Outcome A
assert_false true a = fault assert_failed
assert_false false a = ok a

-- A value that C++ has only within an array's bounds.
abbrev pub in_bounds {ℓ} : {A : Type ℓ} → Option A → Outcome A
in_bounds none = fault undefined
in_bounds (some a) = ok a

-- To split on a computed outcome and keep the equation.
pub Outcome-cases {ℓ} :
    {A : Type ℓ} (o : Outcome A) → ((a : A) × (o ≡ ok a)) ⊎ ((e : Fault) × (o ≡ fault e))
Outcome-cases (ok a) = inl (a, refl)
Outcome-cases (fault e) = inr (e, refl)
