-- ===== src/Memory/Widths.antt =====
-- The widths of what memory holds, over loads, stores and copies.
use riscv_sim.Prelude.{
  ℕ, zero, suc, ◌+◌, ◌-◌, ◌/◌, ◌^◌, ◌<◌, ◌≡◌, subst, arith, inl, inr, Bool, true, false, Bool-cases,
  List, [], ◌∷◌, ◌++◌, Option-cases, some, get_elem?, set, take,
}
use native.Mathlib.Nat.{pow-suc, one-le-pow}
use riscv_sim.Outcome.{ok, >>=-eq-ok}
use riscv_sim.Word.{u32}
use riscv_sim.Zeros.{zeros}
use riscv_sim.Memory.{Memory, is_addr_in_segment, load_sized, store_sized, store_u8, copy_host_from}
use riscv_sim.Memory.Bytes.{from_bytes, to_bytes, read_front, read_bytes, write_front, write_bytes}
use riscv_sim.Memory.Access.{Stored, nowhere, wrote, passed, store_sized-Stored}

-- Every element of the list is below the bound.
abbrev pub AllBelow : ℕ → List ℕ → Type 0
AllBelow k [] = Unit
AllBelow k (x ∷ xs) = (x < k) × AllBelow k xs

-- The bytes of every segment are bytes.
abbrev pub HasBytes : Memory → Type 0
HasBytes [] = Unit
HasBytes (segm ∷ rest) = AllBelow 256 segm.bytes × HasBytes rest

pub AllBelow-set : {k : ℕ} (xs : List ℕ) (i v : ℕ) → AllBelow k xs → v < k → AllBelow k (set xs i v)
AllBelow-set [] i v p lt = tt
AllBelow-set (x ∷ xs) zero v p lt = (lt, p.1)
AllBelow-set (x ∷ xs) (suc i) v p lt = (p.0, AllBelow-set xs i v p.1 lt)

pub AllBelow-get_elem? :
    {k : ℕ} (xs : List ℕ) (i : ℕ) {v : ℕ} → AllBelow k xs → get_elem? xs i ≡ some v → v < k
AllBelow-get_elem? [] i p e = cc
AllBelow-get_elem? (x ∷ xs) zero p e = ground arith
AllBelow-get_elem? (x ∷ xs) (suc i) p e = AllBelow-get_elem? xs i p.1 e

pub AllBelow-++ : (k : ℕ) (xs ys : List ℕ) → AllBelow k xs → AllBelow k ys → AllBelow k (xs ++ ys)
AllBelow-++ k [] ys p q = q
AllBelow-++ k (x ∷ xs) ys p q = (p.0, AllBelow-++ k xs ys p.1 q)

pub AllBelow-take : (k n : ℕ) (xs : List ℕ) → AllBelow k xs → AllBelow k (take n xs)
AllBelow-take k zero xs p = tt
AllBelow-take k (suc n) [] p = tt
AllBelow-take k (suc n) (x ∷ xs) p = (p.0, AllBelow-take k n xs p.1)

pub AllBelow-zeros : {k : ℕ} (n : ℕ) → 0 < k → AllBelow k (zeros n)
unfolding zeros
AllBelow-zeros zero lt = tt
AllBelow-zeros (suc n) lt = (lt, AllBelow-zeros n lt)

pub HasBytes-++ : (mem rest : Memory) → HasBytes mem → HasBytes rest → HasBytes (mem ++ rest)
HasBytes-++ [] rest p q = q
HasBytes-++ (segm ∷ mem) rest p q = (p.0, HasBytes-++ mem rest p.1 q)

pub to_bytes-AllBelow : (n v : ℕ) → AllBelow 256 (to_bytes n v)
unfolding to_bytes
to_bytes-AllBelow zero v = tt
to_bytes-AllBelow (suc n) v = (omega arith, to_bytes-AllBelow n (v / 256))

read_front-lt :
    (n : ℕ) (bytes : List ℕ) {out : List ℕ}
    → AllBelow 256 bytes
    → read_front n bytes ≡ some out
    → from_bytes out < 256 ^ n
unfolding read_front from_bytes
read_front-lt zero bytes p e = ground arith
read_front-lt (suc n) [] p e = cc
read_front-lt (suc n) (b ∷ bytes) p e = elim (Option-cases (read_front n bytes)) [
  | inl missing ↦ ground arith
  | inr (rest, got) ↦ ground (arith, pow-suc 256 n, read_front-lt n bytes p.1 got)
]

read_bytes-lt :
    (n : ℕ) (bytes : List ℕ) (offset : ℕ) {out : List ℕ}
    → AllBelow 256 bytes
    → read_bytes n bytes offset ≡ some out
    → from_bytes out < 256 ^ n
unfolding read_bytes
read_bytes-lt n bytes zero p e = read_front-lt n bytes p e
read_bytes-lt n [] (suc offset) p e = cc
read_bytes-lt n (b ∷ bytes) (suc offset) p e = read_bytes-lt n bytes offset p.1 e

write_front-AllBelow :
    (vs bytes : List ℕ) {out : List ℕ}
    → AllBelow 256 vs
    → AllBelow 256 bytes
    → write_front vs bytes ≡ some out
    → AllBelow 256 out
unfolding write_front
write_front-AllBelow [] bytes p q e = subst (AllBelow 256) (ground arith) q
write_front-AllBelow (v ∷ vs) [] p q e = cc
write_front-AllBelow (v ∷ vs) (b ∷ bytes) p q e = elim (Option-cases (write_front vs bytes)) [
  | inl missing ↦ ground arith
  | inr (rest, got) ↦
      subst (AllBelow 256) {x = v ∷ rest} (ground arith)
        (p.0, write_front-AllBelow vs bytes p.1 q.1 got)
]

pub write_bytes-AllBelow :
    (vs bytes : List ℕ) (offset : ℕ) {out : List ℕ}
    → AllBelow 256 vs
    → AllBelow 256 bytes
    → write_bytes vs bytes offset ≡ some out
    → AllBelow 256 out
unfolding write_bytes
write_bytes-AllBelow vs bytes zero p q e = write_front-AllBelow vs bytes p q e
write_bytes-AllBelow vs [] (suc offset) p q e = cc
write_bytes-AllBelow vs (b ∷ bytes) (suc offset) p q e =
    elim (Option-cases (write_bytes vs bytes offset)) [
      | inl missing ↦ ground arith
      | inr (rest, got) ↦
          subst (AllBelow 256) {x = b ∷ rest} (ground arith)
            (q.0, write_bytes-AllBelow vs bytes offset p q.1 got)
    ]

pub load_sized-lt :
    (size : ℕ) (asserts : Bool) (mem : Memory) (addr : ℕ) {v : ℕ}
    → HasBytes mem
    → load_sized size asserts mem addr ≡ ok v
    → v < 256 ^ size
unfolding load_sized
load_sized-lt size true [] addr p e = cc
load_sized-lt size false [] addr p e = ground (arith, one-le-pow size 256)
load_sized-lt size asserts (segm ∷ rest) addr {v} p e =
    elim (Bool-cases (is_addr_in_segment addr segm)) [
      | inl hit ↦ elim (Option-cases (read_bytes size segm.bytes (addr - segm.start_addr))) [
        | inl missing ↦ cc (rw (hit, missing) at e)
        | inr (bs, got) ↦
            let value : from_bytes bs ≡ v = ground (arith, rw (hit, got) at e) in
            subst (λ n. n < 256 ^ size) value
              (read_bytes-lt size segm.bytes (addr - segm.start_addr) p.0 got)
      ]
      | inr miss ↦ load_sized-lt size asserts rest addr p.1 (rw miss at e)
    ]

store_HasBytes :
    (size addr val : ℕ) {mem mem' : Memory}
    → Stored size addr val mem mem'
    → HasBytes mem
    → HasBytes mem'
store_HasBytes size addr val nowhere p = tt
store_HasBytes size addr val (wrote {segm} {rest} out hit w) p = (
  write_bytes-AllBelow (to_bytes size val) segm.bytes (addr - segm.start_addr)
      (to_bytes-AllBelow size val) p.0 w,
  p.1,
)
store_HasBytes size addr val (passed miss st) p = (p.0, store_HasBytes size addr val st p.1)

pub store_sized-HasBytes :
    (size : ℕ) (asserts : Bool) (mem : Memory) (addr val : ℕ) {mem' : Memory}
    → HasBytes mem
    → store_sized size asserts mem addr val ≡ ok mem'
    → HasBytes mem'
store_sized-HasBytes size asserts mem addr val p e =
    store_HasBytes size addr val (store_sized-Stored size asserts mem addr val e) p

pub copy_host_from-HasBytes :
    (asserts : Bool) (mem : Memory) (to i : ℕ) (buf : List ℕ) {mem' : Memory}
    → HasBytes mem
    → copy_host_from asserts mem to i buf ≡ ok mem'
    → HasBytes mem'
unfolding copy_host_from store_u8
copy_host_from-HasBytes asserts mem to i [] p e = subst HasBytes (ground arith) p
copy_host_from-HasBytes asserts mem to i (b ∷ buf) p e =
    let (mem₁, first, q) = >>=-eq-ok _ _ e in
    copy_host_from-HasBytes asserts mem₁ to (i + 1) buf
      (store_sized-HasBytes 1 asserts mem (u32 (to + i)) b p first) q
