-- ===== src/Decode/Unique.antt =====
-- The rows of the table exclude one another, so the scan's order does not matter.
use riscv_sim.Bits.{bit_and_comm, bit_and_assoc}
use riscv_sim.Prelude.{ℕ, Bool, true, not, ◌&&◌, List, [], ◌∷◌, ◌==◌, ◌≡◌, refl, sym}
use riscv_sim.Prelude.{bit_and, arith, ◌⊎◌, inl, inr, ==_iff, Bool-cases}
use riscv_sim.Mnemonic.{InsnMnemonic}
use riscv_sim.Decode.{scan, decode}
use riscv_sim.Decode.Table.{InsnEntry, insn_decode_table}

-- `e` is a row of the table.
pub data IsRow (e : InsnEntry) : List InsnEntry → Type 0 where
  here : {es : List InsnEntry} → IsRow e (e ∷ es)
  there : {e' : InsnEntry} {es : List InsnEntry} → IsRow e es → IsRow e (e' ∷ es)

-- Two rows that one word can match agree where both of their masks have ones.
abbrev overlap : InsnEntry → InsnEntry → Bool
overlap e e' = bit_and e.match e'.mask == bit_and e'.match e.mask

apart : InsnEntry → List InsnEntry → Bool
apart e [] = true
apart e (e' ∷ es) = not (overlap e e') && apart e es

all_apart : List InsnEntry → Bool
unfolding apart
all_apart [] = true
all_apart (e ∷ es) = apart e es && all_apart es

-- A check of all the pairs of rows.
table_apart : all_apart insn_decode_table ≡ true
unfolding all_apart insn_decode_table
table_apart = refl

abbrev pub Matches : ℕ → InsnEntry → Type 0
Matches insn e = bit_and insn e.mask ≡ e.match

both_match :
    (insn : ℕ) (e e' : InsnEntry)
    → Matches insn e
    → Matches insn e'
    → bit_and e.match e'.mask ≡ bit_and e'.match e.mask
both_match insn e e' p q = cc (
  bit_and_assoc insn e.mask e'.mask,
  bit_and_assoc insn e'.mask e.mask,
  bit_and_comm e.mask e'.mask,
)

not_both :
    (insn : ℕ) (e e' : InsnEntry) (es : List InsnEntry)
    → apart e es ≡ true
    → IsRow e' es
    → Matches insn e
    → Matches insn e'
    → ⊥
unfolding apart
not_both insn e e' [] a r p q = elim r [ ]
not_both insn e e' (_ ∷ es) a here p q = ground (arith, both_match insn e e' p q)
not_both insn e e' (e₁ ∷ es) a (there r) p q = not_both insn e e' es (ground arith) r p q

scan-IsRow :
    (es : List InsnEntry) (insn : ℕ) (e : InsnEntry)
    → all_apart es ≡ true
    → IsRow e es
    → Matches insn e
    → scan es insn ≡ e.mnem
unfolding scan all_apart
scan-IsRow [] insn e a r p = elim r [ ]
scan-IsRow (_ ∷ es) insn e a here p = ground arith
scan-IsRow (e₁ ∷ es) insn e a (there r) p = elim (Bool-cases (bit_and insn e₁.mask == e₁.match)) [
  | inl hit ↦ absurd (not_both insn e₁ e es (ground arith) r ((==_iff _ _).0 hit) p)
  | inr miss ↦ rw miss (scan-IsRow es insn e (ground arith) r p)
]

-- Every row of the decode table that an instruction word matches gives the decoder's answer: the
-- order of the rows does not matter, and no row is hidden by an earlier one.
pub decode-IsRow :
    (insn : ℕ) (e : InsnEntry) → IsRow e insn_decode_table → Matches insn e → decode insn ≡ e.mnem
unfolding decode
decode-IsRow insn e r p = scan-IsRow insn_decode_table insn e table_apart r p

scan_inv :
    (es : List InsnEntry) (insn : ℕ) (m : InsnMnemonic)
    → scan es insn ≡ m
    → (m ≡ InsnMnemonic.k_invalid) ⊎ ((e : InsnEntry) × IsRow e es × Matches insn e × (e.mnem ≡ m))
unfolding scan
scan_inv [] insn m h = inl (sym h)
scan_inv (e ∷ es) insn m h = elim (Bool-cases (bit_and insn e.mask == e.match)) [
  | inl hit ↦ inr (e, here, (==_iff _ _).0 hit, rw hit at h)
  | inr miss ↦ elim (scan_inv es insn m (rw miss at h)) [
    | inl none_left ↦ inl none_left
    | inr (e', r, p, q) ↦ inr (e', there r, p, q)
  ]
]

-- The decoder answers kInvalid or the mnemonic of a row of the table that the word matches.
pub decode_inv :
    (insn : ℕ)
    → (decode insn ≡ InsnMnemonic.k_invalid)
      ⊎ ((e : InsnEntry) × IsRow e insn_decode_table × Matches insn e × (e.mnem ≡ decode insn))
unfolding decode
decode_inv insn = scan_inv insn_decode_table insn (scan insn_decode_table insn) refl
