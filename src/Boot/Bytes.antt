-- ===== src/Boot/Bytes.antt =====
-- The widths of what LoadElf and the constructor of RVSim put into memory.
use riscv_sim.Prelude.{
  ℕ, ◌+◌, ◌-◌, ◌^◌, ◌<◌, ◌≡◌, subst, arith, inl, inr, Bool-cases, ◌&&◌, not, ◌==◌, if◌then◌else◌,
  leb, List, [], ◌∷◌, ◌++◌, Option-cases, none, some, length, take,
}
use riscv_sim.Outcome.{ok, in_bounds, >>=-eq-ok}
use riscv_sim.Word.{u32}
use riscv_sim.Zeros.{zeros}
use riscv_sim.Memory.{MemorySegm, Memory}
use riscv_sim.Memory.Bytes.{to_bytes, write_bytes}
use riscv_sim.Memory.Widths.{
  AllBelow, HasBytes, AllBelow-++, AllBelow-take, AllBelow-zeros, to_bytes-AllBelow,
  write_bytes-AllBelow,
}
use riscv_sim.ProgramArgs.{CString, copy_from}
use riscv_sim.Elf.{
  ElfSegment, ElfSection, ElfFile, ElfConstants, ParsedElf, load_segment, load_segments,
  find_global_ptr, is_target_correct, load_elf,
}
use riscv_sim.Boot.{k_argv_base, fill_argv, fill_stack}

-- Strings of bytes.
abbrev pub AllStrings : List CString → Type 0
AllStrings [] = Unit
AllStrings (str ∷ strs) = AllBelow 256 str × AllStrings strs

-- What ELFIO holds of a segment is bytes.
abbrev pub SegmentBytes : List ElfSegment → Type 0
SegmentBytes [] = Unit
SegmentBytes (seg ∷ segs) = AllBelow 256 seg.contents × SegmentBytes segs

-- A write that stays within the bytes, or a fault.
in_bounds-AllBelow :
    (vs bytes : List ℕ) (at : ℕ) {out : List ℕ}
    → AllBelow 256 vs
    → AllBelow 256 bytes
    → in_bounds (write_bytes vs bytes at) ≡ ok out
    → AllBelow 256 out
in_bounds-AllBelow vs bytes at p q e = elim (Option-cases (write_bytes vs bytes at)) [
  | inl missing ↦ ground arith
  | inr (out', got) ↦ subst (AllBelow 256) (ground arith) (write_bytes-AllBelow vs bytes at p q got)
]

pub copy_from-AllBelow :
    (buf : List ℕ) (at : ℕ) (strs : List CString) {out offsets : List ℕ}
    → AllStrings strs
    → AllBelow 256 buf
    → copy_from buf at strs ≡ ok (out, offsets)
    → AllBelow 256 out
unfolding copy_from
copy_from-AllBelow buf at [] p q e = subst (AllBelow 256) (ground arith) q
copy_from-AllBelow buf at (str ∷ strs) p q e =
    let (buf', first, rest) = >>=-eq-ok _ _ e in
    let ((done, offsets'), got, last) = >>=-eq-ok _ _ rest in
    subst (AllBelow 256) (ground arith) (
      copy_from-AllBelow buf' (at + (length str + 1)) strs p.1
        (in_bounds-AllBelow (str ++ 0 ∷ []) buf at
          (AllBelow-++ 256 str (0 ∷ []) p.0 (omega arith, tt)) q first)
        got)

fill_argv-AllBelow :
    (bytes : List ℕ) (fill : ℕ) (offsets : List ℕ) {out : List ℕ}
    → AllBelow 256 bytes
    → fill_argv bytes fill offsets ≡ ok out
    → AllBelow 256 out
unfolding fill_argv
fill_argv-AllBelow bytes fill [] q e =
    in_bounds-AllBelow (to_bytes 4 0) bytes fill (to_bytes-AllBelow 4 0) q e
fill_argv-AllBelow bytes fill (offset ∷ offsets) q e =
    let (bytes', first, rest) = >>=-eq-ok _ _ e in
    fill_argv-AllBelow bytes' (fill + 4) offsets
      (in_bounds-AllBelow (to_bytes 4 (u32 (k_argv_base + offset))) bytes fill
        (to_bytes-AllBelow 4 _) q first)
      rest

pub fill_stack-AllBelow :
    (bytes : List ℕ) (fill argc : ℕ) (offsets : List ℕ) {out : List ℕ}
    → AllBelow 256 bytes
    → fill_stack bytes fill argc offsets ≡ ok out
    → AllBelow 256 out
unfolding fill_stack
fill_stack-AllBelow bytes fill argc offsets q e =
    let (bytes', first, rest) = >>=-eq-ok _ _ e in
    fill_argv-AllBelow bytes' (fill + 4) offsets
      (in_bounds-AllBelow (to_bytes 4 argc) bytes fill (to_bytes-AllBelow 4 argc) q first) rest

-- A parsed file in range.
pub record ElfInRange (elf : ParsedElf) : Type 0 where
  pub bytes : HasBytes elf.mem
  pub entry_word : elf.entry_point < 2 ^ 32
  pub gp_word : elf.global_ptr < 2 ^ 32

module _ (c : ElfConstants) where
  load_segment-AllBelow :
      (seg : ElfSegment) {segm : MemorySegm}
      → AllBelow 256 seg.contents
      → load_segment c seg ≡ ok segm
      → AllBelow 256 segm.bytes
  unfolding load_segment
  load_segment-AllBelow seg {segm} p e =
      elim (Bool-cases (
        leb (u32 seg.file_size) (u32 seg.memory_size)
        && leb (u32 seg.file_size) (length seg.contents))) [
          | inr outside ↦ cc (rw outside at e)
          | inl inside ↦
              let filled = take (u32 seg.file_size) seg.contents in
              let padding = zeros (u32 seg.memory_size - u32 seg.file_size) in
              let eq : filled ++ padding ≡ segm.bytes = ground (arith, rw inside at e) in
              subst (AllBelow 256) eq (
                AllBelow-++ 256 filled padding (AllBelow-take 256 _ seg.contents p)
                  (AllBelow-zeros _ (omega arith)))
        ]

  load_segments-HasBytes :
      (segs : List ElfSegment) {mem : Memory}
      → SegmentBytes segs
      → load_segments c segs ≡ ok mem
      → HasBytes mem
  unfolding load_segments
  load_segments-HasBytes [] p e = subst HasBytes {x = []} (ground arith) tt
  load_segments-HasBytes (seg ∷ segs) {mem} p e = elim (Bool-cases (seg.seg_type == c.pt_load)) [
    | inr other ↦ load_segments-HasBytes segs p.1 (rw other at e)
    | inl loadable ↦
        let (segm, q, more) = >>=-eq-ok _ _ (rw loadable at e) in
        let (rest, q', last) = >>=-eq-ok _ _ more in
        subst HasBytes {x = segm ∷ rest} (ground arith)
          (load_segment-AllBelow seg p.0 q, load_segments-HasBytes segs p.1 q')
  ]

  next_global_ptr-lt :
      (g : ℕ) (sect : ElfSection)
      → g < 2 ^ 32
      → (if not (sect.sect_type == c.sht_symtab)
          then g
          else elim sect.global_pointer [ none ↦ g | some sym_addr ↦ u32 sym_addr ])
        < 2 ^ 32
  next_global_ptr-lt g sect lt = elim (Bool-cases (sect.sect_type == c.sht_symtab)) [
    | inr other ↦ rw other lt
    | inl table ↦ elim (Option-cases sect.global_pointer) [
      | inl missing ↦ rw (table, missing) lt
      | inr (a, found) ↦ rw (table, found) (omega arith)
    ]
  ]

  find_global_ptr-lt :
      (sects : List ElfSection) (g : ℕ) → g < 2 ^ 32 → find_global_ptr c g sects < 2 ^ 32
  unfolding find_global_ptr
  find_global_ptr-lt [] g lt = lt
  find_global_ptr-lt (sect ∷ sects) g lt = find_global_ptr-lt sects _ (next_global_ptr-lt g sect lt)

  pub load_elf-ElfInRange :
      (file : ElfFile) {elf : ParsedElf}
      → SegmentBytes file.segments
      → load_elf c (some file) ≡ ok elf
      → ElfInRange elf
  unfolding load_elf
  load_elf-ElfInRange file {elf} p e = elim (Bool-cases (is_target_correct c file)) [
    | inr wrong ↦ cc (rw wrong at e)
    | inl right ↦
        let (mem, q, last) = >>=-eq-ok _ _ (rw right at e) in
        let made : ElfInRange (record {
          mem = mem;
          entry_point = u32 file.entry;
          global_ptr = find_global_ptr c 0 file.sections;
        }) =
          record {
            bytes = load_segments-HasBytes file.segments p q;
            entry_word = omega arith;
            gp_word = find_global_ptr-lt file.sections 0 (omega arith);
          } in
        subst ElfInRange (ground arith) made
  ]
