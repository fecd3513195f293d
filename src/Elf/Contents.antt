-- ===== src/Elf/Contents.antt =====
-- What LoadElf makes of the segments of a file that it accepts.
use riscv_sim.Prelude.{
  ℕ, zero, suc, ◌+◌, ◌-◌, ◌≤◌, ◌≡◌, ◌≢◌, refl, ap, subst, ◌∙◌, arith, ◌&&◌, Bool-cases, ==_iff,
  ◌==◌, ltb, leb, if◌then◌else◌, List, [], ◌∷◌, ◌++◌, some, length, take, get_or, inl, inr,
}
use riscv_sim.Outcome.{ok, fault, Fault, >>=-eq-ok}
use riscv_sim.Word.{u32}
use riscv_sim.Zeros.{zeros, length-zeros}
use riscv_sim.Memory.{MemorySegm, Memory}
use riscv_sim.Elf.{
  ElfSegment, ElfFile, ElfConstants, ParsedElf, is_target_correct, load_segment, load_segments,
  load_elf,
}

-- A segment of memory holds a loadable segment of the file: its bytes from the start, then zeros.
pub record Holds (seg : ElfSegment) (segm : MemorySegm) : Type 0 where
  pub first_addr : segm.start_addr ≡ u32 seg.virtual_address
  pub last_addr : segm.end_addr ≡ u32 (u32 seg.virtual_address + u32 seg.memory_size)
  pub size : length segm.bytes ≡ u32 seg.memory_size
  pub byte_at :
      (j : ℕ)
      → get_or segm.bytes j 0 ≡ (if ltb j (u32 seg.file_size) then get_or seg.contents j 0 else 0)

-- The loadable segments, in order, and nothing else.
pub data Loaded (c : ElfConstants) : List ElfSegment → Memory → Type 0 where
  nothing : Loaded c [] []
  skipped :
      {seg : ElfSegment} {segs : List ElfSegment} {mem : Memory}
      → seg.seg_type ≢ c.pt_load
      → Loaded c segs mem
      → Loaded c (seg ∷ segs) mem
  held :
      {seg : ElfSegment} {segs : List ElfSegment} {segm : MemorySegm} {mem : Memory}
      → seg.seg_type ≡ c.pt_load
      → Holds seg segm
      → Loaded c segs mem
      → Loaded c (seg ∷ segs) (segm ∷ mem)

get_or-zeros : (n j : ℕ) → get_or (zeros n) j 0 ≡ 0
unfolding zeros
get_or-zeros zero j = refl
get_or-zeros (suc n) zero = refl
get_or-zeros (suc n) (suc j) = get_or-zeros n j

-- The first k of xs, and zeros.
padded_size :
    (xs : List ℕ) (k n : ℕ) → k ≤ length xs → k ≤ n → length (take k xs ++ zeros (n - k)) ≡ n
padded_size xs zero n le le' =
    let e : n - 0 ≡ n = omega arith in ap (λ m. length (zeros m)) e ∙ length-zeros n
padded_size [] (suc k) n le le' = absurd (omega arith)
padded_size (x ∷ xs) (suc k) zero le le' = absurd (omega arith)
padded_size (x ∷ xs) (suc k) (suc n) le le' =
    let e : suc n - suc k ≡ n - k = omega arith in
    ap (λ m. suc (length (take k xs ++ zeros m))) e
    ∙ ap suc (padded_size xs k n (omega arith) (omega arith))

padded_byte :
    (xs : List ℕ) (k m j : ℕ)
    → k ≤ length xs
    → get_or (take k xs ++ zeros m) j 0 ≡ (if ltb j k then get_or xs j 0 else 0)
padded_byte xs zero m j le = get_or-zeros m j ∙ ground arith
padded_byte [] (suc k) m j le = absurd (omega arith)
padded_byte (x ∷ xs) (suc k) m zero le = ground arith
padded_byte (x ∷ xs) (suc k) m (suc j) le = padded_byte xs k m j (omega arith) ∙ ground arith

module _ (c : ElfConstants) where
  load_segment-Holds :
      (seg : ElfSegment) {segm : MemorySegm} → load_segment c seg ≡ ok segm → Holds seg segm
  unfolding load_segment
  load_segment-Holds seg {segm} e =
      elim (Bool-cases (
        leb (u32 seg.file_size) (u32 seg.memory_size)
        && leb (u32 seg.file_size) (length seg.contents))) [
          | inr outside ↦ absurd (refused (rw outside at e))
          | inl inside ↦
              subst (λ t. Holds seg t) (made (rw inside at e))
                (record {
                  first_addr = refl;
                  last_addr = refl;
                  size =
                      padded_size seg.contents (u32 seg.file_size) (u32 seg.memory_size)
                        (ground arith) (ground arith);
                  byte_at = λ j.
                      padded_byte seg.contents (u32 seg.file_size)
                        (u32 seg.memory_size - u32 seg.file_size) j (ground arith);
                })
        ]
    where
      refused : {why : Fault} → fault why ≡ ok segm → ⊥
      refused e = ground arith

      made : {built : MemorySegm} → ok built ≡ ok segm → built ≡ segm
      made e = ground arith

  load_segments-Loaded :
      (segs : List ElfSegment) {mem : Memory} → load_segments c segs ≡ ok mem → Loaded c segs mem
  unfolding load_segments
  load_segments-Loaded [] {mem} e = let eq : [] ≡ mem = ground arith in rw (← eq) nothing
  load_segments-Loaded (seg ∷ segs) {mem} e = elim (Bool-cases (seg.seg_type == c.pt_load)) [
    | inr other ↦
        skipped (λ same. cc (other, (==_iff seg.seg_type c.pt_load).1 same))
          (load_segments-Loaded segs (rw other at e))
    | inl loadable ↦
        let (segm, p, q) = >>=-eq-ok _ _ (rw loadable at e) in
        let (rest, p', q') = >>=-eq-ok _ _ q in
        let eq : segm ∷ rest ≡ mem = ground arith in
        rw (← eq) (
          held ((==_iff seg.seg_type c.pt_load).0 loadable) (load_segment-Holds seg p)
            (load_segments-Loaded segs p'))
  ]

  -- If LoadElf accepts a file then the file is of the RISC-V machine and the 32-bit class, the
  -- entry point is the file's modulo 2^32, and memory has one segment for each loadable segment of
  -- the file, in order: with its bounds modulo 2^32 and its memory size, holding the file's bytes
  -- up to the file size and zeros from there on.
  pub load_elf-Loaded :
      (file : ElfFile) {parsed : ParsedElf}
      → load_elf c (some file) ≡ ok parsed
      → (file.machine ≡ c.em_riscv)
        × (file.elf_class ≡ c.elfclass32)
        × (parsed.entry_point ≡ u32 file.entry)
        × Loaded c file.segments parsed.mem
  unfolding load_elf is_target_correct
  load_elf-Loaded file {parsed} e = elim (Bool-cases (file.machine == c.em_riscv)) [
    | inr foreign ↦ absurd (ground arith)
    | inl riscv ↦ elim (Bool-cases (file.elf_class == c.elfclass32)) [
      | inr wide ↦ absurd (ground arith)
      | inl narrow ↦
          let (mem, p, q) = >>=-eq-ok _ _ (rw (riscv, narrow) at e) in
          (
            (==_iff file.machine c.em_riscv).0 riscv,
            (==_iff file.elf_class c.elfclass32).0 narrow,
            ground arith,
            subst (λ t. Loaded c file.segments t) (ground arith)
                (load_segments-Loaded file.segments p),
          )
    ]
  ]
