-- ===== src/Memory/ByteLaws.antt =====
-- What a memcpy into a vector leaves for the next memcpy out of it.
use mathlib.Core.Option
use riscv_sim.Prelude.{ℕ, zero, suc, ◌+◌, ◌/◌, ◌%◌, ◌^◌, ◌≤◌, ◌≡◌, refl, ap, arith}
use riscv_sim.Prelude.{List, [], ◌∷◌, Option, none, some, length}
use riscv_sim.Memory.Bytes.{from_bytes, to_bytes, read_bytes, write_bytes}

pub length-to_bytes : (n v : ℕ) → length (to_bytes n v) ≡ n
unfolding to_bytes
length-to_bytes zero v = refl
length-to_bytes (suc n) v = ap suc (length-to_bytes n (v / 256))

pub from_bytes-to_bytes_1 : (v : ℕ) → from_bytes (to_bytes 1 v) ≡ v % 2 ^ 8
unfolding from_bytes to_bytes
from_bytes-to_bytes_1 v = omega arith

pub from_bytes-to_bytes_2 : (v : ℕ) → from_bytes (to_bytes 2 v) ≡ v % 2 ^ 16
unfolding from_bytes to_bytes
from_bytes-to_bytes_2 v = omega arith

pub from_bytes-to_bytes_4 : (v : ℕ) → from_bytes (to_bytes 4 v) ≡ v % 2 ^ 32
unfolding from_bytes to_bytes
from_bytes-to_bytes_4 v = omega arith

map-eq-some :
    (b : ℕ) (o : Option (List ℕ)) {out : List ℕ}
    → Option.map (λ (r : List ℕ). b ∷ r) o ≡ some out
    → (r : List ℕ) × (o ≡ some r) × (b ∷ r ≡ out)
map-eq-some b none h = ground arith
map-eq-some b (some r) h = (r, refl, ground arith)

-- A write keeps the vector's length.
pub length-write_bytes :
    (vs bytes : List ℕ) (offset : ℕ) {out : List ℕ}
    → write_bytes vs bytes offset ≡ some out
    → length out ≡ length bytes
unfolding write_bytes
length-write_bytes [] bytes zero h = ground arith
length-write_bytes (v ∷ vs) [] zero h = ground arith
length-write_bytes (v ∷ vs) (b ∷ bytes) zero h =
    let (r, p, e) = map-eq-some v _ h in rw (← e) (ap suc (length-write_bytes vs bytes zero p))
length-write_bytes vs [] (suc offset) h = ground arith
length-write_bytes vs (b ∷ bytes) (suc offset) h =
    let (r, p, e) = map-eq-some b _ h in rw (← e) (ap suc (length-write_bytes vs bytes offset p))

pub read_bytes-write_bytes_self :
    (vs bytes : List ℕ) (offset : ℕ) {out : List ℕ}
    → write_bytes vs bytes offset ≡ some out
    → read_bytes (length vs) out offset ≡ some vs
unfolding write_bytes read_bytes
read_bytes-write_bytes_self [] bytes zero h = refl
read_bytes-write_bytes_self (v ∷ vs) [] zero h = ground arith
read_bytes-write_bytes_self (v ∷ vs) (b ∷ bytes) zero h =
    let (r, p, e) = map-eq-some v _ h in
    rw (← e) (ap (Option.map (λ (t : List ℕ). v ∷ t)) (read_bytes-write_bytes_self vs bytes zero p))
read_bytes-write_bytes_self vs [] (suc offset) h = ground arith
read_bytes-write_bytes_self vs (b ∷ bytes) (suc offset) h =
    let (r, p, e) = map-eq-some b _ h in rw (← e) (read_bytes-write_bytes_self vs bytes offset p)

-- A read that ends before the write begins, or begins where it ends, sees what was there.
pub read_bytes-write_bytes_before :
    (n : ℕ) (vs bytes : List ℕ) (offset at : ℕ) {out : List ℕ}
    → write_bytes vs bytes offset ≡ some out
    → at + n ≤ offset
    → read_bytes n out at ≡ read_bytes n bytes at
unfolding write_bytes read_bytes
read_bytes-write_bytes_before zero vs bytes offset zero h le = refl
read_bytes-write_bytes_before (suc n) vs bytes zero zero h le = absurd (omega arith)
read_bytes-write_bytes_before (suc n) vs [] (suc offset) zero h le = ground arith
read_bytes-write_bytes_before (suc n) vs (b ∷ bytes) (suc offset) zero h le =
    let (r, p, e) = map-eq-some b _ h in
    rw (← e) (
      ap (Option.map (λ (t : List ℕ). b ∷ t))
        (read_bytes-write_bytes_before n vs bytes offset zero p (omega arith)))
read_bytes-write_bytes_before n vs bytes zero (suc at) h le = absurd (omega arith)
read_bytes-write_bytes_before n vs [] (suc offset) (suc at) h le = ground arith
read_bytes-write_bytes_before n vs (b ∷ bytes) (suc offset) (suc at) h le =
    let (r, p, e) = map-eq-some b _ h in
    rw (← e) (read_bytes-write_bytes_before n vs bytes offset at p (omega arith))

pub read_bytes-write_bytes_after :
    (n : ℕ) (vs bytes : List ℕ) (offset at : ℕ) {out : List ℕ}
    → write_bytes vs bytes offset ≡ some out
    → offset + length vs ≤ at
    → read_bytes n out at ≡ read_bytes n bytes at
unfolding write_bytes read_bytes
read_bytes-write_bytes_after n [] bytes zero at {out} h le =
    let e : bytes ≡ out = ground arith in rw e
read_bytes-write_bytes_after n (v ∷ vs) bytes zero zero h le = absurd (omega arith)
read_bytes-write_bytes_after n (v ∷ vs) [] zero (suc at) h le = ground arith
read_bytes-write_bytes_after n (v ∷ vs) (b ∷ bytes) zero (suc at) h le =
    let (r, p, e) = map-eq-some v _ h in
    rw (← e) (read_bytes-write_bytes_after n vs bytes zero at p (omega arith))
read_bytes-write_bytes_after n vs bytes (suc offset) zero h le = absurd (omega arith)
read_bytes-write_bytes_after n vs [] (suc offset) (suc at) h le = ground arith
read_bytes-write_bytes_after n vs (b ∷ bytes) (suc offset) (suc at) h le =
    let (r, p, e) = map-eq-some b _ h in
    rw (← e) (read_bytes-write_bytes_after n vs bytes offset at p (omega arith))

-- Within the vector's bounds a write succeeds.
pub write_bytes_fits :
    (vs bytes : List ℕ) (offset : ℕ)
    → offset + length vs ≤ length bytes
    → (out : List ℕ) × (write_bytes vs bytes offset ≡ some out)
unfolding write_bytes
write_bytes_fits [] bytes zero h = (bytes, refl)
write_bytes_fits (v ∷ vs) [] zero h = absurd (omega arith)
write_bytes_fits (v ∷ vs) (b ∷ bytes) zero h =
    let (out, p) = write_bytes_fits vs bytes zero (omega arith) in
    (v ∷ out, ap (Option.map (λ (t : List ℕ). v ∷ t)) p)
write_bytes_fits vs [] (suc offset) h = absurd (omega arith)
write_bytes_fits vs (b ∷ bytes) (suc offset) h =
    let (out, p) = write_bytes_fits vs bytes offset (omega arith) in
    (b ∷ out, ap (Option.map (λ (t : List ℕ). b ∷ t)) p)

pub read_bytes_fits :
    (n : ℕ) (bytes : List ℕ) (offset : ℕ)
    → offset + n ≤ length bytes
    → (out : List ℕ) × (read_bytes n bytes offset ≡ some out) × (length out ≡ n)
unfolding read_bytes
read_bytes_fits zero bytes zero h = ([], refl, refl)
read_bytes_fits (suc n) [] zero h = absurd (omega arith)
read_bytes_fits (suc n) (b ∷ bytes) zero h =
    let (out, p, e) = read_bytes_fits n bytes zero (omega arith) in
    (b ∷ out, ap (Option.map (λ (t : List ℕ). b ∷ t)) p, ap suc e)
read_bytes_fits n [] (suc offset) h = absurd (omega arith)
read_bytes_fits n (b ∷ bytes) (suc offset) h = read_bytes_fits n bytes offset (omega arith)
