-- ===== src/Isa/LoadStore/Effects.antt =====
-- What the loads and stores do to a machine that has its 32 registers.
use riscv_sim.Prelude.{ℕ, ◌%◌, ◌^◌, ◌<◌, ◌≡◌, refl}
use riscv_sim.Outcome.{Outcome, ok, fault}
use riscv_sim.Word.{add32, sign_ext_to}
use riscv_sim.Word.Digits.{trunc_high_lem}
use riscv_sim.Insn.{rd, rs1, rs2, imm_i, imm_s}
use riscv_sim.Host.{Host}
use riscv_sim.Memory.{Memory, load_u32, load_u16, load_u8, store_u32, store_u16, store_u8}
use riscv_sim.Machine.State.{Machine, ◌>>=◌, ◌>>◌, reading, writing}
use riscv_sim.Machine.{set_xreg, step}
use riscv_sim.Machine.Registers.{
  HasRegisters, x_reg, write_reg, advance, get_xreg_lem, set_xreg_lem,
}
use riscv_sim.Isa.Effects.{rd-lt, rs1-lt, rs2-lt}
use riscv_sim.Isa.LoadStore.{
  callback_lb, callback_lh, callback_lw, callback_lbu, callback_lhu, callback_sb, callback_sh,
  callback_sw,
}

-- The end of a load: `widen` of the loaded value goes to rd.
abbrev pub after_load : Machine → ℕ → (ℕ → ℕ) → Outcome ℕ → Outcome (Unit {0} × Machine)
after_load s i widen (ok v) = ok (tt, advance (write_reg s i (widen v)))
after_load s i widen (fault e) = fault e

-- The end of a store: the memory is the stored one.
abbrev pub after_store : Machine → Outcome Memory → Outcome (Unit {0} × Machine)
after_store s (ok mem) = ok (tt, advance (record s { memory = mem }))
after_store s (fault e) = fault e

module _ (h : Host) (s : Machine) (r : HasRegisters s) where
  load_end :
      (o : Outcome ℕ) (i : ℕ) (widen : ℕ → ℕ)
      → i < 32
      → (reading (λ mem. o) >>= λ v. set_xreg h i (widen v) >> step) s ≡ after_load s i widen o
  unfolding step advance
  load_end (ok v) i widen lt = rw (set_xreg_lem h s r i lt (widen v), ◌>>=◌) refl
  load_end (fault e) i widen lt = refl

  pub store_end : (o : Outcome Memory) → (writing (λ mem. o) >> step) s ≡ after_store s o
  unfolding step advance
  store_end (ok mem) = refl
  store_end (fault e) = refl

  -- On a machine with its 32 registers, LB, LH, LW, LBU and LHU load one, two or four bytes at rs1
  -- plus the I immediate modulo 2^32, sign-extend those of LB and LH, write the value to rd (unless
  -- that is x0) and advance the program counter by 4; a load that fails is the instruction's
  -- outcome.
  pub loads_lem :
      (raw : ℕ)
      → let addr = add32 (x_reg s (rs1 raw)) (imm_i raw) in
        (callback_lb h raw s
          ≡ after_load s (rd raw) (sign_ext_to 32 8) (load_u8 h.asserts s.memory addr))
        × (callback_lh h raw s
            ≡ after_load s (rd raw) (sign_ext_to 32 16) (load_u16 h.asserts s.memory addr))
        × (callback_lw h raw s ≡ after_load s (rd raw) (λ v. v) (load_u32 h.asserts s.memory addr))
        × (callback_lbu h raw s ≡ after_load s (rd raw) (λ v. v) (load_u8 h.asserts s.memory addr))
        × (callback_lhu h raw s ≡ after_load s (rd raw) (λ v. v) (load_u16 h.asserts s.memory addr))
  unfolding callback_lb callback_lh callback_lw callback_lbu callback_lhu
  loads_lem raw =
      let addr = add32 (x_reg s (rs1 raw)) (imm_i raw) in
      let base = get_xreg_lem h s r (rs1 raw) (rs1-lt raw) in
      (
        rw (base, ◌>>=◌)
            (load_end (load_u8 h.asserts s.memory addr) (rd raw) (sign_ext_to 32 8) (rd-lt raw)),
        rw (base, ◌>>=◌)
            (load_end (load_u16 h.asserts s.memory addr) (rd raw) (sign_ext_to 32 16) (rd-lt raw)),
        rw (base, ◌>>=◌)
            (load_end (load_u32 h.asserts s.memory addr) (rd raw) (λ v. v) (rd-lt raw)),
        rw (base, ◌>>=◌) (load_end (load_u8 h.asserts s.memory addr) (rd raw) (λ v. v) (rd-lt raw)),
        rw (base, ◌>>=◌)
            (load_end (load_u16 h.asserts s.memory addr) (rd raw) (λ v. v) (rd-lt raw)),
      )

  -- On a machine with its 32 registers, SB, SH and SW store the low 8, 16 or 32 bits of rs2 at rs1
  -- plus the S immediate modulo 2^32, advance the program counter by 4 and change nothing else; a
  -- store that fails is the instruction's outcome.
  pub stores_lem :
      (raw : ℕ)
      → let addr = add32 (x_reg s (rs1 raw)) (imm_s raw) in
        let v = x_reg s (rs2 raw) in
        (callback_sb h raw s ≡ after_store s (store_u8 h.asserts s.memory addr (v % 2 ^ 8)))
        × (callback_sh h raw s ≡ after_store s (store_u16 h.asserts s.memory addr (v % 2 ^ 16)))
        × (callback_sw h raw s ≡ after_store s (store_u32 h.asserts s.memory addr v))
  unfolding callback_sb callback_sh callback_sw
  stores_lem raw =
      let addr = add32 (x_reg s (rs1 raw)) (imm_s raw) in
      let v = x_reg s (rs2 raw) in
      let base = get_xreg_lem h s r (rs1 raw) (rs1-lt raw) in
      let value = get_xreg_lem h s r (rs2 raw) (rs2-lt raw) in
      (
        rw (base, ◌>>=◌, value, ◌>>=◌, trunc_high_lem 8 v)
            (store_end (store_u8 h.asserts s.memory addr (v % 2 ^ 8))),
        rw (base, ◌>>=◌, value, ◌>>=◌, trunc_high_lem 16 v)
            (store_end (store_u16 h.asserts s.memory addr (v % 2 ^ 16))),
        rw (base, ◌>>=◌, value, ◌>>=◌) (store_end (store_u32 h.asserts s.memory addr v)),
      )
