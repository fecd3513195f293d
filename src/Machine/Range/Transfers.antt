-- ===== src/Machine/Range/Transfers.antt =====
-- Accesses of guest memory keep the values of a state in range.
use riscv_sim.Prelude.{ℕ, ◌≡◌, subst, arith, inl, inr, Bool, List}
use riscv_sim.Outcome.{Outcome, ok, Outcome-cases}
use riscv_sim.Memory.{
  Memory, load_u32, load_u16, load_u8, store_sized, copy_host_to_guest, copy_guest_to_host,
}
use riscv_sim.Memory.Widths.{HasBytes, load_sized-lt, store_sized-HasBytes, copy_host_from-HasBytes}
use riscv_sim.Machine.State.{reading, writing}
use riscv_sim.Machine.Range.{IsWord, word, InRange, Keeps, Any, Keeps-same}

-- A read of memory: a load gives a word; what else is read is not bounded.
pub reading-Keeps :
    {A : Type 0} {P : A → Type 0} (f : Memory → Outcome A)
    → ((mem : Memory) (a : A) → HasBytes mem → f mem ≡ ok a → P a)
    → Keeps P (reading f)
reading-Keeps f p = Keeps-same (λ s a s' r e. elim (Outcome-cases (f s.memory)) [
  | inl (v, good) ↦ (p s.memory a r.memory_bytes (ground arith), ground arith)
  | inr (err, bad) ↦ ground arith
])

pub load_u32-Keeps :
    (asserts : Bool) (addr : ℕ) → Keeps IsWord (reading (λ mem. load_u32 asserts mem addr))
unfolding load_u32
load_u32-Keeps asserts addr =
    reading-Keeps _ (λ mem v b e. word v (load_sized-lt 4 asserts mem addr b e))

pub load_u16-Keeps :
    (asserts : Bool) (addr : ℕ) → Keeps IsWord (reading (λ mem. load_u16 asserts mem addr))
unfolding load_u16
load_u16-Keeps asserts addr =
    reading-Keeps _
      (λ mem v b e. word v (let lt = load_sized-lt 2 asserts mem addr b e in omega arith))

pub load_u8-Keeps :
    (asserts : Bool) (addr : ℕ) → Keeps IsWord (reading (λ mem. load_u8 asserts mem addr))
unfolding load_u8
load_u8-Keeps asserts addr =
    reading-Keeps _
      (λ mem v b e. word v (let lt = load_sized-lt 1 asserts mem addr b e in omega arith))

pub copy_guest_to_host-Keeps :
    (asserts : Bool) (from size : ℕ)
    → Keeps Any (reading (λ mem. copy_guest_to_host asserts mem from size))
copy_guest_to_host-Keeps asserts from size = reading-Keeps _ (λ _ _ _ _. tt)

-- A memory operation that puts bytes in.
pub KeepsBytes : (Memory → Outcome Memory) → Type 0
KeepsBytes f = (mem mem' : Memory) → HasBytes mem → f mem ≡ ok mem' → HasBytes mem'

pub store_sized-KeepsBytes :
    (size : ℕ) (asserts : Bool) (addr val : ℕ)
    → KeepsBytes (λ mem. store_sized size asserts mem addr val)
unfolding KeepsBytes
store_sized-KeepsBytes size asserts addr val mem mem' b e =
    store_sized-HasBytes size asserts mem addr val b e

pub copy_host_to_guest-KeepsBytes :
    (asserts : Bool) (to : ℕ) (buf : List ℕ)
    → KeepsBytes (λ mem. copy_host_to_guest asserts mem to buf)
unfolding KeepsBytes copy_host_to_guest
copy_host_to_guest-KeepsBytes asserts to buf mem mem' b e =
    copy_host_from-HasBytes asserts mem to 0 buf b e

pub writing-Keeps : (f : Memory → Outcome Memory) → KeepsBytes f → Keeps Any (writing f)
unfolding KeepsBytes
writing-Keeps f p = record {
  keeps = λ s {a} {s'} r e. elim (Outcome-cases (f s.memory)) [
    | inl (mem, good) ↦
        let r' : InRange (record s { memory = mem }) = record {
          ip_word = r.ip_word;
          xreg_words = r.xreg_words;
          freg_words = r.freg_words;
          fcsr_byte = r.fcsr_byte;
          memory_bytes = p s.memory mem r.memory_bytes good;
        } in
        (tt, subst InRange (ground arith) r')
    | inr (err, bad) ↦ ground arith
  ];
}
