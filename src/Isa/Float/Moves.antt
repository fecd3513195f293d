-- ===== src/Isa/Float/Moves.antt =====
-- Floating-point instructions that do not round: sign injection, minimum and maximum, moves,
-- classification, and those on memory.
use riscv_sim.Prelude.{ℕ, ◌+◌, ◌%◌, ◌^◌, ◌≡◌, refl, bit_or, set, if◌then◌else◌}
use riscv_sim.Outcome.{Outcome, ok, fault}
use riscv_sim.Insn.{rd, rs1, rs2, imm_i, imm_s}
use riscv_sim.Host.{Host}
use riscv_sim.Memory.{load_u32, store_u32}
use riscv_sim.Machine.State.{Machine, ◌>>=◌, ◌>>◌, reading}
use riscv_sim.Machine.{step, set_freg}
use riscv_sim.Machine.Registers.{
  HasRegisters, x_reg, f_reg, write_reg, advance, get_xreg_lem, set_xreg_lem, get_freg_lem,
  set_freg_lem,
}
use riscv_sim.Isa.Effects.{rd-lt, rs1-lt, rs2-lt}
use riscv_sim.Isa.LoadStore.{callback_flw, callback_fsw}
use riscv_sim.Isa.LoadStore.Effects.{after_store, store_end}
use riscv_sim.Isa.Float.Shapes.{fclass}
use riscv_sim.Isa.Float.{
  execute_sign_op, callback_fmin_s, callback_fmax_s, callback_fmv_x_w, callback_fmv_w_x,
  callback_fclass_s,
}

-- A value in a float register, and the next instruction.
abbrev pub write_freg : Machine → ℕ → ℕ → Machine
write_freg s i v = advance (record s { fregs = set s.fregs i v })

-- The end of a float load.
abbrev pub after_float_load : Machine → ℕ → Outcome ℕ → Outcome (Unit {0} × Machine)
after_float_load s i (ok v) = ok (tt, write_freg s i v)
after_float_load s i (fault e) = fault e

-- The flags of SoftFloat with more raised.
abbrev pub raising : Machine → ℕ → Machine
raising s raised = record s { exception_flags = bit_or s.exception_flags raised }

module _ (h : Host) (s : Machine) (raw : ℕ) (r : HasRegisters s) where
  pub execute_sign_op_lem :
      (op : ℕ → ℕ → ℕ)
      → execute_sign_op h raw op s
        ≡ ok (tt, write_freg s (rd raw) (op (f_reg s (rs1 raw)) (f_reg s (rs2 raw))))
  unfolding execute_sign_op step advance
  execute_sign_op_lem op =
      rw
        (
          get_freg_lem h s r (rs1 raw) (rs1-lt raw),
          ◌>>=◌,
          get_freg_lem h s r (rs2 raw) (rs2-lt raw),
          ◌>>=◌,
          set_freg_lem h s r (rd raw) (rd-lt raw),
          ◌>>=◌,
        )
        refl

  pub min_max_lem :
      let a = f_reg s (rs1 raw) in
      let b = f_reg s (rs2 raw) in
      let p = h.f32_le a b in
      (callback_fmin_s h raw s
        ≡ ok (tt, write_freg (raising s p.1) (rd raw) (if p.0 then a else b)))
      × (callback_fmax_s h raw s
          ≡ ok (tt, write_freg (raising s p.1) (rd raw) (if p.0 then b else a)))
  unfolding callback_fmin_s callback_fmax_s f_reg step advance
  min_max_lem =
      let p = h.f32_le (f_reg s (rs1 raw)) (f_reg s (rs2 raw)) in
      let s' = raising s p.1 in
      let r' : HasRegisters s' = record { x_length = r.x_length; f_length = r.f_length } in
      let first = get_freg_lem h s r (rs1 raw) (rs1-lt raw) in
      let second = get_freg_lem h s r (rs2 raw) (rs2-lt raw) in
      let third = set_freg_lem h s' r' (rd raw) (rd-lt raw) in
      (
        rw (first, ◌>>=◌, second, ◌>>=◌, third, ◌>>=◌) refl,
        rw (first, ◌>>=◌, second, ◌>>=◌, third, ◌>>=◌) refl,
      )

  pub moves_lem :
      (callback_fmv_x_w h raw s ≡ ok (tt, advance (write_reg s (rd raw) (f_reg s (rs1 raw)))))
      × (callback_fmv_w_x h raw s ≡ ok (tt, write_freg s (rd raw) (x_reg s (rs1 raw))))
      × (callback_fclass_s h raw s
          ≡ ok (tt, advance (write_reg s (rd raw) (fclass h (f_reg s (rs1 raw))))))
  unfolding callback_fmv_x_w callback_fmv_w_x callback_fclass_s step advance
  moves_lem =
      let float = get_freg_lem h s r (rs1 raw) (rs1-lt raw) in
      let whole = get_xreg_lem h s r (rs1 raw) (rs1-lt raw) in
      let to_x = set_xreg_lem h s r (rd raw) (rd-lt raw) in
      let to_f = set_freg_lem h s r (rd raw) (rd-lt raw) in
      (
        rw (float, ◌>>=◌, to_x, ◌>>=◌) refl,
        rw (whole, ◌>>=◌, to_f, ◌>>=◌) refl,
        rw (float, ◌>>=◌, to_x, ◌>>=◌) refl,
      )

  load_end :
      (o : Outcome ℕ)
      → (reading (λ mem. o) >>= λ v. set_freg h (rd raw) v >> step) s
        ≡ after_float_load s (rd raw) o
  unfolding step advance
  load_end (ok v) = rw (set_freg_lem h s r (rd raw) (rd-lt raw) v, ◌>>=◌) refl
  load_end (fault e) = refl

  pub memory_lem :
      let base = x_reg s (rs1 raw) in
      (callback_flw h raw s
        ≡ after_float_load s (rd raw) (load_u32 h.asserts s.memory ((base + imm_i raw) % 2 ^ 32)))
      × (callback_fsw h raw s
          ≡ after_store s
              (store_u32 h.asserts s.memory ((base + imm_s raw) % 2 ^ 32) (f_reg s (rs2 raw))))
  unfolding callback_flw callback_fsw
  memory_lem =
      let base = get_xreg_lem h s r (rs1 raw) (rs1-lt raw) in
      let value = get_freg_lem h s r (rs2 raw) (rs2-lt raw) in
      (rw (base, ◌>>=◌) (load_end _), rw (base, ◌>>=◌, value, ◌>>=◌) (store_end h s r _))
