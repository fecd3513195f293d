-- ===== src/Elf.antt =====
-- src/sim/include/sim/elf_loader.hpp and src/sim/source/elf_loader.cpp. ELFIO reads the file: what
-- it reports of one, and the constants of its headers, are parameters.
pub mod Contents
use riscv_sim.Prelude.{
  ℕ, ◌+◌, ◌-◌, Bool, true, false, ◌&&◌, not, List, [], ◌∷◌, ◌++◌, Option, none, some,
}
use riscv_sim.Prelude.{bit_and, leb, ◌==◌, if◌then◌else◌, length, take}
use riscv_sim.Outcome.{
  Outcome, ok, fault, undefined, thrown, unable_to_load, unsupported_target, ◌>>=◌,
}
use riscv_sim.Word.{u32}
use riscv_sim.Memory.{MemorySegm, Memory}
use riscv_sim.Zeros.{zeros}

pub record ElfSegment : Type 0 where
  pub seg_type : ℕ
  pub virtual_address : ℕ
  pub memory_size : ℕ
  pub file_size : ℕ
  pub contents : List ℕ
  pub flags : ℕ

-- A section, with what `get_symbol("__global_pointer$", ...)` finds in it.
pub record ElfSection : Type 0 where
  pub sect_type : ℕ
  pub global_pointer : Option ℕ

pub record ElfFile : Type 0 where
  pub machine : ℕ
  pub elf_class : ℕ
  pub entry : ℕ
  pub segments : List ElfSegment
  pub sections : List ElfSection

pub record ElfConstants : Type 0 where
  pub pt_load : ℕ
  pub sht_symtab : ℕ
  pub em_riscv : ℕ
  pub elfclass32 : ℕ
  pub pf_r : ℕ
  pub pf_w : ℕ
  pub pf_x : ℕ

pub record ParsedElf : Type 0 where
  pub mem : Memory
  pub entry_point : ℕ
  pub global_ptr : ℕ

module _ (c : ElfConstants) where
  unfoldable pub is_target_correct : ElfFile → Bool
  is_target_correct elf_loader =
      if not (elf_loader.machine == c.em_riscv)
      then false
      else (if not (elf_loader.elf_class == c.elfclass32) then false else true)

  -- The body of the loop over the segments: the segment, and its first `file_size` bytes copied.
  -- A file size above the memory size, or above what ELFIO holds, is an access out of bounds.
  unfoldable pub load_segment : ElfSegment → Outcome MemorySegm
  load_segment segm =
      let start_addr = u32 segm.virtual_address in
      let mem_size = u32 segm.memory_size in
      let file_size = u32 segm.file_size in
      if leb file_size mem_size && leb file_size (length segm.contents)
      then ok (record {
        start_addr = start_addr;
        end_addr = u32 (start_addr + mem_size);
        bytes = take file_size segm.contents ++ zeros (mem_size - file_size);
        r_permission = bit_and segm.flags c.pf_r == c.pf_r;
        w_permission = bit_and segm.flags c.pf_w == c.pf_w;
        x_permission = bit_and segm.flags c.pf_x == c.pf_x;
      })
      else fault undefined

  unfoldable pub load_segments : List ElfSegment → Outcome Memory
  load_segments [] = ok []
  load_segments (segm ∷ segms) =
      if not (segm.seg_type == c.pt_load)
      then load_segments segms
      else (load_segment segm >>= λ mem_segm.
          load_segments segms >>= λ memory_segms. ok (mem_segm ∷ memory_segms))

  -- The loop over the sections: a later symbol table overrides an earlier one.
  unfoldable pub find_global_ptr : ℕ → List ElfSection → ℕ
  find_global_ptr global_ptr [] = global_ptr
  find_global_ptr global_ptr (sect ∷ sects) =
      find_global_ptr
        (if not (sect.sect_type == c.sht_symtab)
          then global_ptr
          else elim sect.global_pointer [ none ↦ global_ptr | some sym_addr ↦ u32 sym_addr ])
        sects

  -- `none` is a file that ELFIO cannot load.
  unfoldable pub load_elf : Option ElfFile → Outcome ParsedElf
  load_elf none = fault (thrown unable_to_load)
  load_elf (some elf_loader) =
      if not (is_target_correct elf_loader)
      then fault (thrown unsupported_target)
      else (load_segments elf_loader.segments >>= λ memory_segms. ok (record {
        mem = memory_segms;
        entry_point = u32 elf_loader.entry;
        global_ptr = find_global_ptr 0 elf_loader.sections;
      }))
