-- ===== src/Isa/Effects.antt =====
-- What the templates of the callbacks do to a machine whose register file has its 32 registers: no
-- access of a register fails, and the effect is one write and one step.
use riscv_sim.Prelude.{ℕ, ◌<◌, ◌≡◌, refl, arith, inl, inr, Bool, if◌then◌else◌, Bool-cases}
use riscv_sim.Outcome.{Outcome, ok, fault}
use riscv_sim.Word.{add32}
use riscv_sim.Insn.{rd, rs1, rs2, shamt, imm_i, imm_b}
use riscv_sim.Insn.Fields.{rd_lem, rs1_lem, rs2_lem}
use riscv_sim.Host.{Host}
use riscv_sim.Machine.State.{Machine, ◌>>=◌, ◌>>◌}
use riscv_sim.Machine.{step, get_ip, set_ip, set_xreg}
use riscv_sim.Machine.Registers.{
  HasRegisters, x_reg, write_reg, advance, get_xreg_lem, set_xreg_lem,
}
use riscv_sim.Isa.Zbb.{execute_rr_op}
use riscv_sim.Isa.Shapes.{
  lift, execute_rrr_bin_op, execute_rri_bin_op, execute_rri_shift, execute_branch,
}

pub rd-lt : (raw : ℕ) → rd raw < 32
rd-lt raw = omega (arith, rd_lem raw)

pub rs1-lt : (raw : ℕ) → rs1 raw < 32
rs1-lt raw = omega (arith, rs1_lem raw)

pub rs2-lt : (raw : ℕ) → rs2 raw < 32
rs2-lt raw = omega (arith, rs2_lem raw)

-- The end of a callback that writes `r` to rd, or fails with its computation.
abbrev pub retire : Machine → ℕ → Outcome ℕ → Outcome (Unit {0} × Machine)
retire s i (ok v) = ok (tt, advance (write_reg s i v))
retire s i (fault e) = fault e

write_back :
    (h : Host) (s : Machine) (i : ℕ) (o : Outcome ℕ)
    → HasRegisters s
    → i < 32
    → (lift o >>= λ v. set_xreg h i v >> step) s ≡ retire s i o
unfolding step advance
write_back h s i (ok v) r lt = rw (set_xreg_lem h s r i lt v, ◌>>=◌)
write_back h s i (fault e) r lt = refl

module _ (h : Host) (s : Machine) (raw : ℕ) (r : HasRegisters s) where
  -- The template of the register-register instructions, on a machine with its 32 registers, has one
  -- effect for every operation: the operation's value on rs1 and rs2 goes to rd (unless that is x0)
  -- and the program counter advances by 4, or the operation's fault is the outcome.
  pub execute_rrr_bin_op_lem :
      (op : ℕ → ℕ → Outcome ℕ)
      → execute_rrr_bin_op h raw op s
        ≡ retire s (rd raw) (op (x_reg s (rs1 raw)) (x_reg s (rs2 raw)))
  unfolding execute_rrr_bin_op
  execute_rrr_bin_op_lem op =
      rw
        (
          get_xreg_lem h s r (rs1 raw) (rs1-lt raw),
          ◌>>=◌,
          get_xreg_lem h s r (rs2 raw) (rs2-lt raw),
          ◌>>=◌,
        )
        (write_back h s (rd raw) (op (x_reg s (rs1 raw)) (x_reg s (rs2 raw))) r (rd-lt raw))

  -- The template of the register-immediate instructions, on a machine with its 32 registers, has
  -- one effect for every operation: the operation's value on rs1 and the I immediate goes to rd
  -- (unless that is x0) and the program counter advances by 4, or the operation's fault is the
  -- outcome.
  pub execute_rri_bin_op_lem :
      (op : ℕ → ℕ → Outcome ℕ)
      → execute_rri_bin_op h raw op s ≡ retire s (rd raw) (op (x_reg s (rs1 raw)) (imm_i raw))
  unfolding execute_rri_bin_op
  execute_rri_bin_op_lem op =
      rw (get_xreg_lem h s r (rs1 raw) (rs1-lt raw), ◌>>=◌)
        (write_back h s (rd raw) (op (x_reg s (rs1 raw)) (imm_i raw)) r (rd-lt raw))

  pub execute_rri_shift_lem :
      (op : ℕ → ℕ → Outcome ℕ)
      → execute_rri_shift h raw op s ≡ retire s (rd raw) (op (x_reg s (rs1 raw)) (shamt raw))
  unfolding execute_rri_shift
  execute_rri_shift_lem op =
      rw (get_xreg_lem h s r (rs1 raw) (rs1-lt raw), ◌>>=◌)
        (write_back h s (rd raw) (op (x_reg s (rs1 raw)) (shamt raw)) r (rd-lt raw))

  -- The template of the instructions on one register has one effect for every operation.
  pub execute_rr_op_lem :
      (op : ℕ → ℕ) → execute_rr_op h raw op s ≡ retire s (rd raw) (ok (op (x_reg s (rs1 raw))))
  unfolding execute_rr_op step advance
  execute_rr_op_lem op =
      rw
        (
          get_xreg_lem h s r (rs1 raw) (rs1-lt raw),
          ◌>>=◌,
          set_xreg_lem h s r (rd raw) (rd-lt raw),
          ◌>>=◌,
        )
        refl

  -- The template of the branches, on a machine with its 32 registers, adds the B immediate modulo
  -- 2^32 to the program counter where the predicate holds of rs1 and rs2, adds 4 where it does not,
  -- and changes nothing else.
  pub execute_branch_lem :
      (pred : ℕ → ℕ → Bool)
      → execute_branch h raw pred s
        ≡ ok (
          tt,
          if pred (x_reg s (rs1 raw)) (x_reg s (rs2 raw))
              then record s { ip = add32 s.ip (imm_b raw) }
              else advance s,
        )
  unfolding execute_branch get_ip set_ip step advance
  execute_branch_lem pred =
      rw
        (
          get_xreg_lem h s r (rs1 raw) (rs1-lt raw),
          ◌>>=◌,
          get_xreg_lem h s r (rs2 raw) (rs2-lt raw),
          ◌>>=◌,
        )
        (elim (Bool-cases (pred (x_reg s (rs1 raw)) (x_reg s (rs2 raw)))) [
          | inl taken ↦ rw taken
          | inr not_taken ↦ rw not_taken
        ])
