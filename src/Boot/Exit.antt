-- ===== src/Boot/Exit.antt =====
-- The exit code of the simulator.
use riscv_sim.Prelude.{ℕ, ◌+◌, ◌<◌, ◌≡◌, refl, ◌∙◌, false, List, ◌∷◌, Option, some}
use riscv_sim.Outcome.{ok}
use riscv_sim.Host.{Host}
use riscv_sim.Memory.{fetch}
use riscv_sim.Machine.{a0, a7}
use riscv_sim.Machine.State.{Machine}
use riscv_sim.Machine.Registers.{HasRegisters, x_reg}
use riscv_sim.Isa.Syscall.{sys_exit_id}
use riscv_sim.Execute.Steps.{Steps}
use riscv_sim.Execute.Safety.{Steps-Evolves}
use riscv_sim.Execute.Exit.{ecall_word, execute-exit}
use riscv_sim.ProgramArgs.{CString, program_args}
use riscv_sim.Elf.{ElfFile, ElfConstants, ParsedElf, load_elf}
use riscv_sim.Boot.{rv_sim, run_main}
use riscv_sim.Boot.Reachable.{rv_sim-HasRegisters}

module _ (h : Host) (c : ElfConstants) (open_elf : CString → Option ElfFile) where
  -- If LoadElf accepts the file that the first argument names, the constructor succeeds, and n
  -- rounds lead from its state to one that goes on, is about to fetch ECALL and holds the number of
  -- the exit call in a7, then main with fuel from n + 2 on ends, and its exit code is what a0 holds
  -- there.
  pub run_main-exit :
      (self path : CString) (argv : List CString) {elf : ParsedElf} {n : ℕ} {s s' : Machine}
      (fuel : ℕ)
      → load_elf c (open_elf path) ≡ ok elf
      → rv_sim h elf (program_args (self ∷ (path ∷ argv))) ≡ ok s
      → Steps h n s s'
      → s'.should_stop ≡ false
      → fetch h.asserts s'.memory s'.ip ≡ ok ecall_word
      → x_reg s' a7 ≡ sys_exit_id
      → n + 1 < fuel
      → run_main h c open_elf fuel (self ∷ (path ∷ argv)) ≡ some (ok (x_reg s' a0))
  unfolding run_main
  run_main-exit self path argv {s = s} {s' = s'} fuel loaded started steps go fetched asked lt =
      let start = rv_sim-HasRegisters h _ _ started in
      let kept = Steps-Evolves h steps in
      let r : HasRegisters s' = record {
        x_length = kept.xregs_kept ∙ start.x_length;
        f_length = kept.fregs_kept ∙ start.f_length;
      } in
      rw (run_main, loaded, started, execute-exit h fuel steps go r fetched asked lt) refl
