-- ===== src/InsnSet.antt =====
-- The instructions of RV32IM_Zbb_Zicsr by the words that encode them and by what they make of a
-- machine, apart from the decode table, the decoder, the dispatch and the callbacks; MULH and MULHSU
-- are those of the code. And runs of these and of the floating-point instructions of Float.
pub mod Correct
pub mod Opcodes
pub mod Tabled
pub mod Words
pub mod Complete
pub mod Rows
pub mod Float
pub mod Integers
pub mod Total
use riscv_sim.Prelude.{
  ℕ, suc, ◌+◌, ◌-◌, ◌*◌, ◌/◌, ◌%◌, ◌^◌, ◌<◌, ◌≡◌, bit_and, Bool, true, false, ◌==◌, if◌then◌else◌,
}
use riscv_sim.Outcome.{Outcome, ok, fault, assert_false}
use riscv_sim.Word.{reg_to_ireg}
use riscv_sim.Insn.{rm}
use riscv_sim.Isa.Float.Effects.{asked_mode}
use riscv_sim.InsnSet.Float.{Floats}
use riscv_sim.InsnSet.Opcodes.{fixed_bits, float_mask}
use riscv_sim.Insn.RoundTrip.{Fits}
use riscv_sim.Mnemonic.{InsnMnemonic}
use riscv_sim.Host.{Host}
use riscv_sim.Memory.{Memory, fetch, copy_guest_to_host}
use riscv_sim.Machine.{a0, a1, a2, a7}
use riscv_sim.Machine.State.{Machine}
use riscv_sim.Machine.Csr.{IsCsr}
use riscv_sim.Machine.Registers.{x_reg, write_reg, advance}
use riscv_sim.Isa.Effects.{retire}
use riscv_sim.Isa.LoadStore.Effects.{after_store}
use riscv_sim.Isa.Syscall.{sys_exit_id, sys_read_id, sys_write_id}
use riscv_sim.Isa.Syscall.Laws.{after_read, after_write}
use riscv_sim.Execute.Register.{Computes}
use riscv_sim.Execute.Immediate.{ActsI}
use riscv_sim.Execute.Transfer.{Stores, Branches}
use riscv_sim.Execute.Upper.{Uppers}
use riscv_sim.Execute.Csr.{ActsCsr, IsUnknown}
use riscv_sim.Execute.Unary.{Maps, Shifts}
use riscv_sim.Execute.Exit.{ecall_word}

-- A number with the low bits of a value in place of `width` of its bits, from `low` on.
abbrev pub with_field : ℕ → ℕ → ℕ → ℕ → ℕ
with_field low width v n =
    n / 2 ^ (low + width) * 2 ^ (low + width) + v % 2 ^ width * 2 ^ low + n % 2 ^ low

-- The program counter after a system call.
abbrev pub returned : Outcome (Unit {0} × Machine) → Outcome (Unit {0} × Machine)
returned (ok (_, s)) = ok (tt, advance s)
returned (fault e) = fault e

-- What the call that a7 names makes of a machine.
abbrev pub system_call : Host → Machine → Outcome (Unit {0} × Machine)
system_call h s =
    if x_reg s a7 == sys_exit_id
    then ok (tt, record s { should_stop = true })
    else (if x_reg s a7 == sys_read_id
        then after_read h s (h.read s.syscalls (reg_to_ireg (x_reg s a0)) (x_reg s a2))
        else (if x_reg s a7 == sys_write_id
            then after_write h s (copy_guest_to_host h.asserts s.memory (x_reg s a1) (x_reg s a2))
            else assert_false h.asserts (tt, s)))

-- The instructions that only go on to the next one.
pub data Passes : InsnMnemonic → Type 0 where
  passes_fence : Passes InsnMnemonic.fence
  passes_fence_i : Passes InsnMnemonic.fence_i

abbrev pub ebreak_word : ℕ
ebreak_word = 0x0010_0073

module _ (h : Host) where
  -- A word that encodes an instruction, and what the instruction makes of a machine.
  pub data Instruction : ℕ → (Machine → Outcome (Unit {0} × Machine)) → Type 0 where
    register :
        {m : InsnMnemonic} {op : ℕ → ℕ → Outcome ℕ} {r2 r1 d : ℕ}
        → Computes m op
        → r2 < 32
        → r1 < 32
        → d < 32
        → Instruction
            (fixed_bits m + r2 * 2 ^ 20 + r1 * 2 ^ 15 + d * 2 ^ 7)
            (λ s. retire s d (op (x_reg s r1) (x_reg s r2)))
    immediate :
        {m : InsnMnemonic} {act : Machine → ℕ → ℕ → ℕ → Outcome (Unit {0} × Machine)} {imm r1 d : ℕ}
        → ActsI h m act
        → Fits 11 imm
        → r1 < 32
        → d < 32
        → Instruction
            (fixed_bits m + imm % 2 ^ 12 * 2 ^ 20 + r1 * 2 ^ 15 + d * 2 ^ 7)
            (λ s. act s (x_reg s r1) imm d)
    storing :
        {m : InsnMnemonic} {put : Bool → Memory → ℕ → ℕ → Outcome Memory} {imm r2 r1 : ℕ}
        → Stores m put
        → Fits 11 imm
        → r2 < 32
        → r1 < 32
        → Instruction
            (fixed_bits m + imm / 32 % 128 * 2 ^ 25 + r2 * 2 ^ 20 + r1 * 2 ^ 15 + imm % 32 * 2 ^ 7)
            (λ s. after_store s (put h.asserts s.memory ((x_reg s r1 + imm) % 2 ^ 32) (x_reg s r2)))
    branch :
        {m : InsnMnemonic} {pred : ℕ → ℕ → Bool} {imm r2 r1 : ℕ}
        → Branches m pred
        → Fits 12 imm
        → imm % 2 ≡ 0
        → r2 < 32
        → r1 < 32
        → Instruction
            (fixed_bits m
              + imm / 2 ^ 12 % 2 * 2 ^ 31
              + imm / 32 % 64 * 2 ^ 25
              + r2 * 2 ^ 20
              + r1 * 2 ^ 15
              + imm / 2 % 16 * 2 ^ 8
              + imm / 2 ^ 11 % 2 * 2 ^ 7)
            (λ s. ok (
              tt,
              if pred (x_reg s r1) (x_reg s r2)
                  then record s { ip = (s.ip + imm) % 2 ^ 32 }
                  else advance s,
            ))
    upper :
        {m : InsnMnemonic} {value : ℕ → ℕ → ℕ} {imm d : ℕ}
        → Uppers m value
        → imm < 2 ^ 20
        → d < 32
        → Instruction
            (fixed_bits m + imm * 2 ^ 12 + d * 2 ^ 7)
            (λ s. ok (tt, advance (write_reg s d (value s.ip imm))))
    jump :
        {imm d : ℕ}
        → Fits 20 imm
        → imm % 2 ≡ 0
        → d < 32
        → Instruction
            (fixed_bits InsnMnemonic.jal
              + imm / 2 ^ 20 % 2 * 2 ^ 31
              + imm / 2 % 1024 * 2 ^ 21
              + imm / 2 ^ 11 % 2 * 2 ^ 20
              + imm / 2 ^ 12 % 256 * 2 ^ 12
              + d * 2 ^ 7)
            (λ s.
              ok (tt, record (write_reg s d ((s.ip + 4) % 2 ^ 32)) { ip = (s.ip + imm) % 2 ^ 32 }))
    unary :
        {m : InsnMnemonic} {op : ℕ → ℕ} {r1 d : ℕ}
        → Maps m op
        → r1 < 32
        → d < 32
        → Instruction
            (fixed_bits m + r1 * 2 ^ 15 + d * 2 ^ 7)
            (λ s. retire s d (ok (op (x_reg s r1))))
    shift :
        {m : InsnMnemonic} {op : ℕ → ℕ → Outcome ℕ} {amount r1 d : ℕ}
        → Shifts m op
        → amount < 32
        → r1 < 32
        → d < 32
        → Instruction
            (fixed_bits m + amount * 2 ^ 20 + r1 * 2 ^ 15 + d * 2 ^ 7)
            (λ s. retire s d (op (x_reg s r1) amount))
    control :
        {m : InsnMnemonic} {operand : Machine → ℕ → ℕ} {update : ℕ → ℕ → ℕ}
        {index low width r1 d : ℕ}
        → ActsCsr m operand update
        → IsCsr index low width
        → r1 < 32
        → d < 32
        → Instruction (fixed_bits m + index * 2 ^ 20 + r1 * 2 ^ 15 + d * 2 ^ 7) (λ s.
          let old = s.fcsr / 2 ^ low % 2 ^ width in
          ok (
            tt,
            advance (
                write_reg
                  (record s { fcsr = with_field low width (update old (operand s r1)) s.fcsr })
                  d
                  old),
          ))
    -- The simulator has no other control register: without asserts it reads as 0.
    unknown_control :
        {m : InsnMnemonic} {operand : Machine → ℕ → ℕ} {update : ℕ → ℕ → ℕ} {index r1 d : ℕ}
        → ActsCsr m operand update
        → IsUnknown index
        → index < 2 ^ 12
        → r1 < 32
        → d < 32
        → Instruction
            (fixed_bits m + index * 2 ^ 20 + r1 * 2 ^ 15 + d * 2 ^ 7)
            (λ s. assert_false h.asserts (tt, advance (write_reg s d 0)))
    fence :
        {m : InsnMnemonic} {top d : ℕ}
        → Passes m
        → top < 2 ^ 17
        → d < 32
        → Instruction (fixed_bits m + top * 2 ^ 15 + d * 2 ^ 7) (λ s. ok (tt, advance s))
    ecall : Instruction ecall_word (λ s. returned (system_call h s))
    ebreak : Instruction ebreak_word (λ s. ok (tt, advance s))

  -- A run of so many instructions, none of them after the exit call.
  pub data Run : ℕ → Machine → Machine → Type 0 where
    ended : {s : Machine} → Run 0 s s
    next :
        {n raw : ℕ} {act : Machine → Outcome (Unit {0} × Machine)} {s s' s'' : Machine}
        → s.should_stop ≡ false
        → fetch h.asserts s.memory s.ip ≡ ok raw
        → Instruction raw act
        → act s ≡ ok (tt, s')
        → Run n s' s''
        → Run (suc n) s s''
    next_float :
        {n raw : ℕ} {m : InsnMnemonic} {act : ℕ → Machine → Outcome (Unit {0} × Machine)}
        {s s' s'' : Machine}
        → s.should_stop ≡ false
        → fetch h.asserts s.memory s.ip ≡ ok raw
        → bit_and raw (float_mask m) ≡ fixed_bits m
        → Floats h m act
        → asked_mode h s.fcsr (rm raw) < 5
        → act raw s ≡ ok (tt, s')
        → Run n s' s''
        → Run (suc n) s s''
