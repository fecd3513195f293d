-- ===== src/Boot/Stack.antt =====
-- The argument block that the constructor of RVSim writes at the top of the stack.
use native.Mathlib.Nat.{zero-add}
use riscv_sim.Prelude.{
  ℕ, zero, suc, ◌+◌, ◌-◌, ◌*◌, ◌^◌, ◌<◌, ◌≤◌, ◌≡◌, refl, ap, sym, ◌∙◌, arith, List, [], ◌∷◌, ◌++◌,
  some, length,
}
use riscv_sim.Outcome.{ok}
use riscv_sim.Word.{u32}
use riscv_sim.Zeros.{zeros, length-zeros}
use riscv_sim.Memory.Bytes.{to_bytes, write_bytes}
use riscv_sim.Memory.ByteLaws.{length-to_bytes}
use riscv_sim.Host.{Host}
use riscv_sim.ProgramArgs.{CString, ProgramArgs}
use riscv_sim.ProgramArgs.Layout.{
  flat, Placed, none_left, placed, copy_argv-Placed, write_bytes-zeros, length-++, ++-assoc,
}
use riscv_sim.Elf.{ParsedElf}
use riscv_sim.Boot.{
  k_stack_size, k_stack_top, k_argv_base, fill_argv, fill_stack, argv_fill_start, stack_offset,
  stack_segment, argv_segment, initial_machine, rv_sim,
}

-- Words in memory, and the addresses of the arguments.
unfoldable pub words : List ℕ → List ℕ
words [] = []
words (w ∷ ws) = to_bytes 4 w ++ words ws

unfoldable pub addresses : List ℕ → List ℕ
addresses [] = []
addresses (offset ∷ offsets) = u32 (k_argv_base + offset) ∷ addresses offsets

-- argc, the addresses, and a null pointer.
abbrev pub argument_block : ℕ → List ℕ → List ℕ
argument_block argc offsets = words (argc ∷ (addresses offsets ++ 0 ∷ []))

zeros-+ : (m n : ℕ) → zeros (m + n) ≡ zeros m ++ zeros n
unfolding zeros
zeros-+ zero n = ap zeros (zero-add n)
zeros-+ (suc m) n =
    let e : suc m + n ≡ suc (m + n) = omega arith in ap zeros e ∙ ap (λ t. 0 ∷ t) (zeros-+ m n)

zeros-zero : zeros 0 ≡ []
unfolding zeros
zeros-zero = refl

-- A word written at the start of the zeros.
put_word :
    (done : List ℕ) (w n : ℕ)
    → write_bytes (to_bytes 4 w) (done ++ zeros (4 + n)) (length done)
      ≡ some ((done ++ to_bytes 4 w) ++ zeros n)
put_word done w n =
    let e : length (to_bytes 4 w) + n ≡ 4 + n = omega (arith, length-to_bytes 4 w) in
    ap (λ k. write_bytes (to_bytes 4 w) (done ++ zeros k) (length done)) (sym e)
    ∙ (write_bytes-zeros done (to_bytes 4 w) n
        ∙ ap some (sym (++-assoc done (to_bytes 4 w) (zeros n))))

length-put_word : (done : List ℕ) (w : ℕ) → length done + 4 ≡ length (done ++ to_bytes 4 w)
length-put_word done w = omega (arith, length-++ done (to_bytes 4 w), length-to_bytes 4 w)

++-nil : (xs : List ℕ) → xs ++ [] ≡ xs
++-nil [] = refl
++-nil (x ∷ xs) = ap (λ t. x ∷ t) (++-nil xs)

fill_argv-words :
    (offsets done : List ℕ)
    → fill_argv (done ++ zeros (4 * length offsets + 4)) (length done) offsets
      ≡ ok (done ++ words (addresses offsets ++ 0 ∷ []))
unfolding fill_argv words addresses
fill_argv-words [] done =
    let e : 4 * 0 + 4 ≡ 4 + 0 = refl in
    rw (e, put_word done 0 0)
      (ap ok (ap (λ t. (done ++ to_bytes 4 0) ++ t) zeros-zero ∙ ++-assoc done (to_bytes 4 0) []))
fill_argv-words (offset ∷ offsets) done =
    let addr = u32 (k_argv_base + offset) in
    let e : 4 * suc (length offsets) + 4 ≡ 4 + (4 * length offsets + 4) = omega arith in
    rw
      (
        e,
        put_word done addr (4 * length offsets + 4),
        length-put_word done addr,
        fill_argv-words offsets (done ++ to_bytes 4 addr),
      )
      (ap ok (++-assoc done (to_bytes 4 addr) (words (addresses offsets ++ 0 ∷ []))))

fill_stack-words :
    (argc : ℕ) (offsets done : List ℕ)
    → fill_stack (done ++ zeros (4 + (4 * length offsets + 4))) (length done) argc offsets
      ≡ ok (done ++ argument_block argc offsets)
unfolding fill_stack words
fill_stack-words argc offsets done =
    rw
      (
        put_word done argc (4 * length offsets + 4),
        length-put_word done argc,
        fill_argv-words offsets (done ++ to_bytes 4 argc),
      )
      (ap ok (++-assoc done (to_bytes 4 argc) (words (addresses offsets ++ 0 ∷ []))))

pub length-Placed :
    {bytes offsets : List ℕ} {argv : List CString}
    → Placed bytes offsets argv
    → length offsets ≡ length argv
length-Placed none_left = refl
length-Placed (placed offset str e p) = ap suc (length-Placed p)

-- The stack before the block is written, split where the block begins.
stack_zeros :
    (argc count : ℕ)
    → count ≡ argc
    → 4 * (argc + 2) ≤ k_stack_size
    → zeros k_stack_size ≡ zeros (k_stack_size - 4 * (argc + 2)) ++ zeros (4 + (4 * count + 4))
stack_zeros argc count same fits =
    let e : k_stack_size ≡ k_stack_size - 4 * (argc + 2) + (4 + (4 * count + 4)) = omega arith in
    ap zeros e ∙ zeros-+ (k_stack_size - 4 * (argc + 2)) (4 + (4 * count + 4))

fill_stack-zeros :
    (argc : ℕ) (offsets : List ℕ)
    → length offsets ≡ argc
    → 4 * (argc + 2) ≤ k_stack_size
    → fill_stack (zeros k_stack_size) (k_stack_size - 4 * (argc + 2)) argc offsets
      ≡ ok (zeros (k_stack_size - 4 * (argc + 2)) ++ argument_block argc offsets)
fill_stack-zeros argc offsets same fits =
    let free = k_stack_size - 4 * (argc + 2) in
    ap (λ t. fill_stack t free argc offsets) (stack_zeros argc (length offsets) same fits)
    ∙ (ap (λ n. fill_stack (zeros free ++ zeros (4 + (4 * length offsets + 4))) n argc offsets)
          (sym (length-zeros free))
        ∙ fill_stack-words argc offsets (zeros free))

fill_start_lem :
    (argc : ℕ) → 4 * (argc + 2) ≤ k_stack_size → argv_fill_start argc ≡ k_stack_top - 4 * (argc + 2)
unfolding argv_fill_start
fill_start_lem argc fits = omega arith

stack_offset_lem :
    (argc : ℕ)
    → 4 * (argc + 2) ≤ k_stack_size
    → stack_offset (k_stack_top - 4 * (argc + 2)) ≡ ok (k_stack_size - 4 * (argc + 2))
unfolding stack_offset
stack_offset_lem argc fits = ground arith

module _ (h : Host) (elf : ParsedElf) (args : ProgramArgs) where
  -- The constructor of RVSim, for arguments that fit the stack.
  pub rv_sim_lem :
      length args.argv ≡ args.argc
      → 4 * (args.argc + 2) ≤ k_stack_size
      → length (flat args.argv) < 2 ^ 32
      → (offsets : List ℕ) × Placed (flat args.argv) offsets args.argv
        × (rv_sim h elf args
            ≡ ok (
                initial_machine h elf
                  (k_stack_top - 4 * (args.argc + 2))
                  (stack_segment (
                    zeros (k_stack_size - 4 * (args.argc + 2)) ++ argument_block args.argc offsets))
                  (argv_segment (length (flat args.argv)) (flat args.argv))))
  unfolding rv_sim
  rv_sim_lem counted fits small =
      let (offsets, size, copied, p) = copy_argv-Placed args small in
      let same : length offsets ≡ args.argc = length-Placed p ∙ counted in
      (
        offsets,
        p,
        rw
            (
              copied,
              fill_start_lem args.argc fits,
              stack_offset_lem args.argc fits,
              fill_stack-zeros args.argc offsets same fits,
              size,
            )
            refl,
      )
