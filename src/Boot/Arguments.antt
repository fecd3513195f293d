-- ===== src/Boot/Arguments.antt =====
-- What a guest program finds at its stack pointer when it starts.
use riscv_sim.Prelude.{
  ℕ, zero, suc, ◌+◌, ◌-◌, ◌*◌, ◌^◌, ◌<◌, ◌≤◌, ◌≡◌, refl, ap, subst, arith, List, [], ◌∷◌, ◌++◌,
  some, length, Bool, true, false, get_elem?, get_or,
}
use riscv_sim.Outcome.{ok}
use riscv_sim.Zeros.{zeros, length-zeros}
use riscv_sim.Memory.{MemorySegm, Memory, is_addr_in_segment, load_sized, load_u32, add_segment}
use riscv_sim.Memory.Bytes.{to_bytes, read_bytes}
use riscv_sim.Memory.ByteLaws.{length-to_bytes, from_bytes-to_bytes_4}
use riscv_sim.Memory.Access.{is_mapped}
use riscv_sim.ProgramArgs.Layout.{flat, Placed, read_bytes-++, length-++, ++-assoc}
use riscv_sim.Host.{Host}
use riscv_sim.Elf.{ParsedElf}
use riscv_sim.ProgramArgs.{ProgramArgs}
use riscv_sim.Machine.{sp}
use riscv_sim.Machine.State.{Machine}
use riscv_sim.Machine.Registers.{get_elem?-eq-get_or}
use riscv_sim.Boot.{
  k_stack_size, k_stack_top, k_stack_base, stack_segment, argv_segment, initial_machine, rv_sim,
}
use riscv_sim.Boot.Stack.{words, addresses, length-Placed, rv_sim_lem}

-- A word read where it stands among words.
read_words :
    (ws done : List ℕ) (i w : ℕ)
    → get_elem? ws i ≡ some w
    → read_bytes 4 (done ++ words ws) (length done + 4 * i) ≡ some (to_bytes 4 w)
unfolding words
read_words [] done i w e = ground arith
read_words (w' ∷ ws) done zero w e =
    let same : w' ≡ w = ground arith in
    let at : length done + 4 * 0 ≡ length done = omega arith in
    rw (at, same)
      (subst
        (λ n. read_bytes n (done ++ (to_bytes 4 w ++ words ws)) (length done) ≡ some (to_bytes 4 w))
        (length-to_bytes 4 w) (read_bytes-++ done (to_bytes 4 w) (words ws)))
read_words (w' ∷ ws) done (suc i) w e =
    let at : length done + 4 * suc i ≡ length (done ++ to_bytes 4 w') + 4 * i =
      omega (arith, length-++ done (to_bytes 4 w'), length-to_bytes 4 w') in
    rw (at, ← ++-assoc done (to_bytes 4 w') (words ws))
      (read_words ws (done ++ to_bytes 4 w') i w e)

-- Segments that do not hold the address are passed over.
load_sized-++ :
    (size : ℕ) (asserts : Bool) (mem rest : Memory) (addr : ℕ)
    → is_mapped mem addr ≡ false
    → load_sized size asserts (mem ++ rest) addr ≡ load_sized size asserts rest addr
unfolding load_sized is_mapped
load_sized-++ size asserts [] rest addr h = refl
load_sized-++ size asserts (segm ∷ mem) rest addr h =
    let miss : is_addr_in_segment addr segm ≡ false = ground arith in
    rw miss (load_sized-++ size asserts mem rest addr (ground arith))

append_assoc : (xs ys zs : Memory) → (xs ++ ys) ++ zs ≡ xs ++ (ys ++ zs)
append_assoc [] ys zs = refl
append_assoc (x ∷ xs) ys zs = ap (λ t. x ∷ t) (append_assoc xs ys zs)

in_stack :
    (bytes : List ℕ) (addr : ℕ)
    → k_stack_base ≤ addr
    → addr < k_stack_top
    → is_addr_in_segment addr (stack_segment bytes) ≡ true
unfolding is_addr_in_segment stack_segment
in_stack bytes addr lo hi = ground arith

-- The words of a stack whose block lies above `free` zeros, read through the whole memory.
load_u32-stack :
    (asserts : Bool) (mem : Memory) (argv_segm : MemorySegm) (free : ℕ) (ws : List ℕ) (i w : ℕ)
    → free + 4 * length ws ≡ k_stack_size
    → get_elem? ws i ≡ some w
    → i < length ws
    → w < 2 ^ 32
    → is_mapped mem (k_stack_base + free + 4 * i) ≡ false
    → load_u32 asserts
        (add_segment (add_segment mem (stack_segment (zeros free ++ words ws))) argv_segm)
        (k_stack_base + free + 4 * i)
      ≡ ok w
unfolding load_u32 load_sized add_segment stack_segment
load_u32-stack asserts mem argv_segm free ws i w whole e lt small apart =
    let addr = k_stack_base + free + 4 * i in
    let bytes = zeros free ++ words ws in
    let rest = stack_segment bytes ∷ argv_segm ∷ [] in
    let offset : addr - k_stack_base ≡ length (zeros free) + 4 * i =
      omega (arith, length-zeros free) in
    rw
      (
        append_assoc mem (stack_segment bytes ∷ []) (argv_segm ∷ []),
        load_sized-++ 4 asserts mem rest addr apart,
        in_stack bytes addr (omega arith) (omega arith),
        offset,
        read_words ws (zeros free) i w e,
      )
      (ap ok (omega (arith, from_bytes-to_bytes_4 w)))

length-addresses : (offsets : List ℕ) → length (addresses offsets ++ 0 ∷ []) ≡ length offsets + 1
unfolding addresses
length-addresses [] = refl
length-addresses (offset ∷ offsets) = omega (arith, length-addresses offsets)

addresses-lt : (offsets : List ℕ) (i : ℕ) → get_or (addresses offsets ++ 0 ∷ []) i 0 < 2 ^ 32
unfolding addresses
addresses-lt [] zero = omega arith
addresses-lt [] (suc i) = omega arith
addresses-lt (offset ∷ offsets) zero = omega arith
addresses-lt (offset ∷ offsets) (suc i) = addresses-lt offsets i

block-lt :
    (argc : ℕ) (offsets : List ℕ) (i : ℕ)
    → argc < 2 ^ 32
    → get_or (argc ∷ (addresses offsets ++ 0 ∷ [])) i 0 < 2 ^ 32
block-lt argc offsets zero lt = lt
block-lt argc offsets (suc i) lt = addresses-lt offsets i

-- For an argument list as long as argc says, whose strings with their zeros take less than 2^32
-- bytes and whose 4 * (argc + 2) bytes of words fit the stack: the constructor succeeds, the
-- program counter is the entry point, the stack pointer is that many bytes below the top of the
-- stack, and memory is that of the ELF file, a stack and a segment with the strings end to end. The
-- i-th word from the stack pointer, for i up to argc + 1, is argc, then the base of that segment
-- plus the offset of each string in it, then 0, provided that no segment of the ELF file holds the
-- word's address.
pub rv_sim-arguments :
    (h : Host) (elf : ParsedElf) (args : ProgramArgs) (i : ℕ)
    → length args.argv ≡ args.argc
    → 4 * (args.argc + 2) ≤ k_stack_size
    → length (flat args.argv) < 2 ^ 32
    → i < args.argc + 2
    → is_mapped elf.mem (k_stack_top - 4 * (args.argc + 2) + 4 * i) ≡ false
    → (offsets : List ℕ) × (s : Machine) × (stack : List ℕ) × Placed
        (flat args.argv)
        offsets
        args.argv
      × (rv_sim h elf args ≡ ok s)
      × (s.memory
          ≡ add_segment
              (add_segment elf.mem (stack_segment stack))
              (argv_segment (length (flat args.argv)) (flat args.argv)))
      × (s.ip ≡ elf.entry_point)
      × (get_elem? s.xregs sp ≡ some (k_stack_top - 4 * (args.argc + 2)))
      × (load_u32 h.asserts s.memory (k_stack_top - 4 * (args.argc + 2) + 4 * i)
          ≡ ok (get_or (args.argc ∷ (addresses offsets ++ 0 ∷ [])) i 0))
unfolding initial_machine zeros
rv_sim-arguments h elf args i counted fits small lt apart =
    let (offsets, p, started) = rv_sim_lem h elf args counted fits small in
    let ws = args.argc ∷ (addresses offsets ++ 0 ∷ []) in
    let free = k_stack_size - 4 * (args.argc + 2) in
    let size : length ws ≡ args.argc + 2 =
      omega (arith, length-addresses offsets, length-Placed p, counted) in
    let place : k_stack_top - 4 * (args.argc + 2) + 4 * i ≡ k_stack_base + free + 4 * i =
      omega arith in
    (
      offsets,
      _,
      _,
      p,
      started,
      refl,
      refl,
      refl,
      rw place (
          load_u32-stack h.asserts elf.mem _ free ws i (get_or ws i 0) (omega (arith, size))
            (get_elem?-eq-get_or ws i 0 (omega (arith, size))) (omega (arith, size))
            (block-lt args.argc offsets i (omega arith)) (rw place at apart)),
    )
