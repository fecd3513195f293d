-- ===== src/Boot/Reachable.antt =====
-- Every state of a run of the program: what the constructor of RVSim makes of a file and of the
-- arguments, and what the loop makes of that.
use riscv_sim.Prelude.{
  ℕ, ◌^◌, ◌<◌, ◌≡◌, refl, subst, ◌∙◌, arith, inl, inr, List, [], ◌∷◌, ◌++◌, some, get_elem?,
}
use riscv_sim.Outcome.{ok, Outcome-cases}
use riscv_sim.Zeros.{zeros}
use riscv_sim.Host.{Host}
use riscv_sim.Memory.{MemorySegm, add_segment}
use riscv_sim.Memory.Widths.{AllBelow, AllBelow-set, AllBelow-zeros, HasBytes-++}
use riscv_sim.Machine.{gp, sp}
use riscv_sim.Machine.State.{Machine}
use riscv_sim.Machine.Registers.{HasRegisters}
use riscv_sim.Machine.Range.{InRange}
use riscv_sim.Execute.Steps.{Steps}
use riscv_sim.Execute.Safety.{Steps-Evolves}
use riscv_sim.Execute.Range.{GivesWords, Steps-InRange}
use riscv_sim.ProgramArgs.{ProgramArgs, copy_argv, size_of_argv}
use riscv_sim.Elf.{ElfFile, ElfConstants, ParsedElf, load_elf}
use riscv_sim.Boot.{
  k_stack_size, fill_stack, argv_fill_start, stack_offset, stack_segment, argv_segment,
  initial_machine, rv_sim,
}
use riscv_sim.Boot.Bytes.{
  AllStrings, SegmentBytes, ElfInRange, copy_from-AllBelow, fill_stack-AllBelow,
  load_elf-ElfInRange,
}

-- The members as the constructor leaves them.
initial-InRange :
    (h : Host) (elf : ParsedElf) (fill size : ℕ) (stack argv : List ℕ)
    → ElfInRange elf
    → fill < 2 ^ 32
    → AllBelow 256 stack
    → AllBelow 256 argv
    → InRange (initial_machine h elf fill (stack_segment stack) (argv_segment size argv))
unfolding initial_machine add_segment stack_segment argv_segment
initial-InRange h elf fill size stack argv r lt ps pa = record {
  ip_word = r.entry_word;
  xreg_words =
      AllBelow-set _ sp fill
        (AllBelow-set (zeros 32) gp elf.global_ptr (AllBelow-zeros 32 (omega arith)) r.gp_word) lt;
  freg_words = AllBelow-zeros 32 (omega arith);
  fcsr_byte = omega arith;
  memory_bytes =
      HasBytes-++ (elf.mem ++ stack_segment stack ∷ []) (argv_segment size argv ∷ [])
        (HasBytes-++ elf.mem (stack_segment stack ∷ []) r.bytes (ps, tt)) (pa, tt);
}

initial-HasRegisters :
    (h : Host) (elf : ParsedElf) (fill : ℕ) (stack argv : MemorySegm)
    → HasRegisters (initial_machine h elf fill stack argv)
unfolding initial_machine zeros
initial-HasRegisters h elf fill stack argv = record { x_length = refl; f_length = refl }

initial-x0 :
    (h : Host) (elf : ParsedElf) (fill : ℕ) (stack argv : MemorySegm)
    → get_elem? (initial_machine h elf fill stack argv).xregs 0 ≡ some 0
unfolding initial_machine zeros
initial-x0 h elf fill stack argv = refl

argv_fill_start-lt : (argc : ℕ) → argv_fill_start argc < 2 ^ 32
unfolding argv_fill_start
argv_fill_start-lt argc = omega arith

-- A machine as the constructor leaves it.
record Started (s : Machine) : Type 0 where
  in_range : InRange s
  registers : HasRegisters s
  x0 : get_elem? s.xregs 0 ≡ some 0

copy_argv-AllBelow :
    (args : ProgramArgs) {out offsets : List ℕ}
    → AllStrings args.argv
    → copy_argv args (zeros (size_of_argv args)) ≡ ok (out, offsets)
    → AllBelow 256 out
unfolding copy_argv
copy_argv-AllBelow args p e =
    copy_from-AllBelow (zeros (size_of_argv args)) 0 args.argv p
      (AllBelow-zeros (size_of_argv args) (omega arith)) e

-- What the constructor did, when it succeeded.
pub rv_sim_parts :
    (h : Host) (elf : ParsedElf) (args : ProgramArgs) {s : Machine}
    → rv_sim h elf args ≡ ok s
    → (argv : List ℕ) × (offsets : List ℕ) × (fill : ℕ) × (stack : List ℕ) × (copy_argv args
          (zeros (size_of_argv args))
        ≡ ok (argv, offsets))
      × (fill_stack (zeros k_stack_size) fill args.argc offsets ≡ ok stack)
      × (initial_machine h elf
            (argv_fill_start args.argc)
            (stack_segment stack)
            (argv_segment (size_of_argv args) argv)
          ≡ s)
unfolding rv_sim
rv_sim_parts h elf args {s} e = elim (Outcome-cases (copy_argv args (zeros (size_of_argv args)))) [
  | inr (why, bad) ↦ cc (rw bad at e)
  | inl ((argv, offsets), copied) ↦
      elim (Outcome-cases (stack_offset (argv_fill_start args.argc))) [
        | inr (why, bad) ↦ cc (rw (copied, bad) at e)
        | inl (fill, offset) ↦
            elim (Outcome-cases (fill_stack (zeros k_stack_size) fill args.argc offsets)) [
              | inr (why, bad) ↦ cc (rw (copied, offset, bad) at e)
              | inl (stack, filled) ↦ (
                argv,
                offsets,
                fill,
                stack,
                copied,
                filled,
                ground (arith, rw (copied, offset, filled) at e),
              )
            ]
      ]
]

pub rv_sim-HasRegisters :
    (h : Host) (elf : ParsedElf) (args : ProgramArgs) {s : Machine}
    → rv_sim h elf args ≡ ok s
    → HasRegisters s
rv_sim-HasRegisters h elf args e =
    let (_, _, _, _, _, _, made) = rv_sim_parts h elf args e in
    subst HasRegisters made (initial-HasRegisters h elf _ _ _)

rv_sim-Started :
    (h : Host) (elf : ParsedElf) (args : ProgramArgs) {s : Machine}
    → ElfInRange elf
    → AllStrings args.argv
    → rv_sim h elf args ≡ ok s
    → Started s
rv_sim-Started h elf args r p e =
    let (argv, offsets, fill, stack, copied, filled, made) = rv_sim_parts h elf args e in
    let start = argv_fill_start args.argc in
    let stack_bytes =
      fill_stack-AllBelow (zeros k_stack_size) fill args.argc offsets
        (AllBelow-zeros k_stack_size (omega arith)) filled in
    subst Started made (record {
      in_range =
          initial-InRange h elf start (size_of_argv args) stack argv r
            (argv_fill_start-lt args.argc) stack_bytes (copy_argv-AllBelow args p copied);
      registers = initial-HasRegisters h elf start _ _;
      x0 = initial-x0 h elf start _ _;
    })

-- If the host's floating-point routines give 32-bit words for 32-bit words, what the file's
-- segments and the arguments hold is bytes, LoadElf accepts the file and the constructor succeeds,
-- then in every state that a number of rounds reaches the program counter and all registers are
-- below 2^32, fcsr is below 256, every byte of memory is below 256, there are 32 registers of each
-- kind, and x0 holds 0.
pub reachable-InRange :
    (h : Host) (c : ElfConstants) (file : ElfFile) (args : ProgramArgs) {n : ℕ} {elf : ParsedElf}
    {s s' : Machine}
    → GivesWords h
    → SegmentBytes file.segments
    → AllStrings args.argv
    → load_elf c (some file) ≡ ok elf
    → rv_sim h elf args ≡ ok s
    → Steps h n s s'
    → InRange s' × HasRegisters s' × (get_elem? s'.xregs 0 ≡ some 0)
reachable-InRange h c file args {s} g bytes strings loaded started steps =
    let start = rv_sim-Started h _ args (load_elf-ElfInRange c file bytes loaded) strings started in
    let kept = Steps-Evolves h steps in
    (
      Steps-InRange h g steps start.in_range,
      record {
        x_length = kept.xregs_kept ∙ start.registers.x_length;
        f_length = kept.fregs_kept ∙ start.registers.f_length;
      },
      kept.x0_kept ∙ start.x0,
    )
