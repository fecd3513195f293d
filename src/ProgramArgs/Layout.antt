-- ===== src/ProgramArgs/Layout.antt =====
-- Where CopyArgv puts the arguments: one after the other, each with its terminating zero.
use mathlib.Core.Option
use riscv_sim.Prelude.{
  ℕ, suc, ◌+◌, ◌^◌, ◌<◌, ◌≡◌, refl, ap, subst, ◌∙◌, arith, List, [], ◌∷◌, ◌++◌, some, length,
}
use native.Mathlib.Nat.{zero-add}
use riscv_sim.Outcome.{ok}
use riscv_sim.Word.{u32}
use riscv_sim.Zeros.{zeros}
use riscv_sim.Memory.Bytes.{read_front, read_bytes, write_front, write_bytes}
use riscv_sim.ProgramArgs.{CString, ProgramArgs, size_from, size_of_argv, copy_from, copy_argv}

-- The strings with their zeros, end to end.
unfoldable pub flat : List CString → List ℕ
flat [] = []
flat (str ∷ argv) = (str ++ 0 ∷ []) ++ flat argv

-- Each offset is that of its string, which ends with a zero there.
pub data Placed (bytes : List ℕ) : List ℕ → List CString → Type 0 where
  none_left : Placed bytes [] []
  placed :
      {offsets : List ℕ} {argv : List CString} (offset : ℕ) (str : CString)
      → read_bytes (length str + 1) bytes offset ≡ some (str ++ 0 ∷ [])
      → Placed bytes offsets argv
      → Placed bytes (offset ∷ offsets) (str ∷ argv)

pub length-++ : (xs ys : List ℕ) → length (xs ++ ys) ≡ length xs + length ys
length-++ [] ys = omega arith
length-++ (x ∷ xs) ys = omega (arith, length-++ xs ys)

pub ++-assoc : (xs ys zs : List ℕ) → (xs ++ ys) ++ zs ≡ xs ++ (ys ++ zs)
++-assoc [] ys zs = refl
++-assoc (x ∷ xs) ys zs = ap (λ t. x ∷ t) (++-assoc xs ys zs)

write_front-zeros :
    (vs : List ℕ) (n : ℕ) → write_front vs (zeros (length vs + n)) ≡ some (vs ++ zeros n)
unfolding write_front zeros
write_front-zeros [] n = ap (λ t. some (zeros t)) (zero-add n)
write_front-zeros (v ∷ vs) n =
    let e : suc (length vs) + n ≡ suc (length vs + n) = omega arith in
    ap (λ k. write_front (v ∷ vs) (zeros k)) e
    ∙ ap (Option.map (λ r. v ∷ r)) (write_front-zeros vs n)

-- A write at the start of the zeros that follow what was written.
pub write_bytes-zeros :
    (done vs : List ℕ) (n : ℕ)
    → write_bytes vs (done ++ zeros (length vs + n)) (length done) ≡ some (done ++ (vs ++ zeros n))
unfolding write_bytes
write_bytes-zeros [] vs n = write_front-zeros vs n
write_bytes-zeros (d ∷ done) vs n = ap (Option.map (λ r. d ∷ r)) (write_bytes-zeros done vs n)

read_front-++ : (vs rest : List ℕ) → read_front (length vs) (vs ++ rest) ≡ some vs
unfolding read_front
read_front-++ [] rest = refl
read_front-++ (v ∷ vs) rest = ap (Option.map (λ r. v ∷ r)) (read_front-++ vs rest)

pub read_bytes-++ :
    (done vs rest : List ℕ) → read_bytes (length vs) (done ++ (vs ++ rest)) (length done) ≡ some vs
unfolding read_bytes
read_bytes-++ [] vs rest = read_front-++ vs rest
read_bytes-++ (d ∷ done) vs rest = read_bytes-++ done vs rest

size_from-flat :
    (argv : List CString) (size : ℕ)
    → size < 2 ^ 32
    → size_from size argv ≡ u32 (size + length (flat argv))
unfolding size_from flat
size_from-flat [] size lt = omega arith
size_from-flat (str ∷ argv) size lt = omega (
  arith,
  size_from-flat argv (u32 (size + (length str + 1))) (omega arith),
  length-++ (str ++ 0 ∷ []) (flat argv),
  length-++ str (0 ∷ []),
)

-- One round of the loop of CopyArgv, after `done` has been written.
copy_from-first :
    (str : CString) (argv : List CString) (done final offsets : List ℕ)
    → length done < 2 ^ 32
    → copy_from
        ((done ++ (str ++ 0 ∷ [])) ++ zeros (length (flat argv)))
        (length (done ++ (str ++ 0 ∷ [])))
        argv
      ≡ ok (final, offsets)
    → copy_from (done ++ zeros (length (flat (str ∷ argv)))) (length done) (str ∷ argv)
      ≡ ok (final, length done ∷ offsets)
unfolding copy_from flat
copy_from-first str argv done final offsets lt e =
    let vs = str ++ 0 ∷ [] in
    let rest = length (flat argv) in
    let total : length (vs ++ flat argv) ≡ length vs + rest = length-++ vs (flat argv) in
    let next : length done + (length str + 1) ≡ length (done ++ vs) =
      omega (arith, length-++ done vs, length-++ str (0 ∷ [])) in
    let here : u32 (length done) ≡ length done = omega arith in
    rw (total, write_bytes-zeros done vs rest, ← ++-assoc done vs (zeros rest), next, e, here) refl

copy_from-zeros :
    (argv : List CString) (done : List ℕ)
    → length done + length (flat argv) < 2 ^ 32
    → (offsets : List ℕ) × (copy_from (done ++ zeros (length (flat argv))) (length done) argv
        ≡ ok (done ++ flat argv, offsets))
      × Placed (done ++ flat argv) offsets argv
unfolding copy_from flat zeros
copy_from-zeros [] done lt = ([], refl, none_left)
copy_from-zeros (str ∷ argv) done lt =
    let vs = str ++ 0 ∷ [] in
    let size : length vs ≡ length str + 1 = length-++ str (0 ∷ []) in
    let (offsets, e, p) =
      copy_from-zeros argv (done ++ vs)
        (omega (arith, length-++ done vs, length-++ vs (flat argv))) in
    let whole : (done ++ vs) ++ flat argv ≡ done ++ (vs ++ flat argv) =
      ++-assoc done vs (flat argv) in
    (
      length done ∷ offsets,
      copy_from-first str argv done ((done ++ vs) ++ flat argv) offsets (omega arith) e
          ∙ ap (λ t. ok (t, length done ∷ offsets)) whole,
      placed (length done) str (rw (← size) (read_bytes-++ done vs (flat argv)))
          (subst (λ t. Placed t offsets argv) whole p),
    )

-- If the strings with their terminating zeros fit 32 bits, SizeOfArgv is their total length, and
-- CopyArgv into that many zero bytes stays within them, fills them with the strings end to end, and
-- returns offsets at each of which the string and its zero are read back.
pub copy_argv-Placed :
    (args : ProgramArgs)
    → length (flat args.argv) < 2 ^ 32
    → (offsets : List ℕ) × (size_of_argv args ≡ length (flat args.argv))
      × (copy_argv args (zeros (size_of_argv args)) ≡ ok (flat args.argv, offsets))
      × Placed (flat args.argv) offsets args.argv
unfolding size_of_argv copy_argv
copy_argv-Placed args lt =
    let size : size_from 0 args.argv ≡ length (flat args.argv) =
      omega (arith, size_from-flat args.argv 0 (omega arith)) in
    let (offsets, e, p) = copy_from-zeros args.argv [] (omega arith) in
    (offsets, size, ap (λ n. copy_from (zeros n) 0 args.argv) size ∙ e, p)
